-- ===== src/Glue/Consistency.antt =====
-- What ties the maps in memory to the store, and that no event breaks it.
pub mod Frame
use crosschain_agent.Prelude.{
  Bytes, Bool, true, ℤ, false, ◌≡◌, Bool-cases, inl, some, arith, bytes_eq_iff, subst, Option, List,
  if◌then◌else◌, bytes_eq, inr, none, refl,
}
use mathlib.Core.Option.{some-injective}
use crosschain_agent.Exec.Keeps.{Keeps, After}
use crosschain_agent.Env.{GetStatus, Env}
use crosschain_agent.Glue.Node.{set_table, Agent, Table, same, db_key}
use crosschain_agent.Database.Contract.{DbLaws}
use crosschain_agent.Map.{has, update, find}
use crosschain_agent.General.{CrossTx}
use crosschain_agent.Glue.Node.Stable.{clear_state, dated, save_state, set_deadline, IsStable}
use crosschain_agent.Map.Order.{IsSorted, update-IsSorted, emplace-IsSorted, erase-IsSorted}
use crosschain_agent.Map.Laws.{
  has-emplace, has-erase, has-update, find-emplace, find-erase, find-update, mapped,
}
use crosschain_agent.Glue.Node.Keys.{db_key-eq, same_refl, same_sound}
use crosschain_agent.Glue.HandleManager.Invariants.{every, run-Keeps}
use crosschain_agent.Glue.HandleManager.{Event, run}

abbrev pub is_ok : GetStatus → Bool
is_ok (GetStatus.ok v) = true
is_ok _ = false

-- A map has an entry exactly if the store has a record under the key of that map and transfer. The maps
-- are in order, an entry stands under its own identifier, and an acknowledgement has a deadline.
pub record IsConsistent (env : Env) (s : Agent env) : Type 0 where
  pub keys : (t : Table) (k : Bytes) → has k (s.tables t) ≡ is_ok (env.db_get (db_key t k) s.db)
  pub sorted : (t : Table) → IsSorted (s.tables t)
  pub named :
      (t : Table) (k : Bytes) (c : CrossTx) → find k (s.tables t) ≡ some c → c.cross_tx_id ≡ k
  pub deadlines :
      (t : Table) (k : Bytes) (c : CrossTx) → find k (s.tables t) ≡ some c → dated t c ≡ true

-- A statement about the maps after a change of one of them.
set_table_cases {ℓ κ} :
    {A : Type ℓ} (Q : Table → A → Type κ) (t : Table) (m : A) (tables : Table → A) (u : Table)
    → Q t m
    → (same t u ≡ false → Q u (tables u))
    → Q u (set_table t m tables u)
unfolding set_table
set_table_cases Q t m tables u new old = elim (Bool-cases (same t u)) [
  | inl e ↦ rw e (subst (λ x. Q x m) (same_sound t u e) new)
  | inr e ↦ rw e (old e)
]

-- A property of every entry, after one of them has been changed in a way that keeps the property.
updated_entry {κ} :
    (Q : CrossTx → Type κ) (f : CrossTx → CrossTx)
    → ((c : CrossTx) → Q c → Q (f c))
    → (changed : Bool) (o : Option CrossTx) (d : CrossTx) → ((c : CrossTx) → o ≡ some c → Q c)
    → (if changed then mapped f o else o) ≡ some d
    → Q d
updated_entry Q f keep true none d h e = cc
updated_entry Q f keep true (some c) d h e = subst Q (some-injective (f c) d e) (keep c (h c refl))
updated_entry Q f keep false o d h e = h d e

module _ (env : Env) (laws : DbLaws env) where
  saved-IsConsistent :
      (t : Table) (c : CrossTx) (s : Agent env)
      → dated t c ≡ true
      → IsConsistent env s
      → IsConsistent env (save_state env t c s)
  saved-IsConsistent t c s ready h = record {
    keys = λ u k.
        set_table_cases (λ u m. has k m ≡ is_ok (env.db_get (db_key u k) (save_state env t c s).db))
          t _ s.tables u
          (rw (has-emplace, laws.get_put, db_key-eq t t c.cross_tx_id k, same_refl t)
            (ground (arith, h.keys t k)))
          (λ e. rw (laws.get_put, db_key-eq t u c.cross_tx_id k, e) (h.keys u k));
    sorted = λ u.
        set_table_cases (λ u m. IsSorted m) t _ s.tables u
          (emplace-IsSorted c.cross_tx_id c (s.tables t) (h.sorted t)) (λ e. h.sorted u);
    named = λ u k.
        set_table_cases (λ u m. (d : CrossTx) → find k m ≡ some d → d.cross_tx_id ≡ k) t _ s.tables
          u (λ d. rw find-emplace (ground (arith, h.named t k d, bytes_eq_iff c.cross_tx_id k)))
          (λ e. h.named u k);
    deadlines = λ u k.
        set_table_cases (λ u m. (d : CrossTx) → find k m ≡ some d → dated u d ≡ true) t _ s.tables u
          (λ d. rw find-emplace (ground (arith, h.deadlines t k d, bytes_eq_iff c.cross_tx_id k)))
          (λ e. h.deadlines u k);
  }

  cleared-IsConsistent :
      (t : Table) (k : Bytes) (s : Agent env)
      → IsConsistent env s
      → IsConsistent env (clear_state env t k s)
  cleared-IsConsistent t j s h = record {
    keys = λ u k.
        set_table_cases
          (λ u m. has k m ≡ is_ok (env.db_get (db_key u k) (clear_state env t j s).db)) t _ s.tables
          u
          (rw (has-erase, laws.get_delete, db_key-eq t t j k, same_refl t)
            (ground (arith, h.keys t k)))
          (λ e. rw (laws.get_delete, db_key-eq t u j k, e) (h.keys u k));
    sorted = λ u.
        set_table_cases (λ u m. IsSorted m) t _ s.tables u
          (erase-IsSorted j (s.tables t) (h.sorted t)) (λ e. h.sorted u);
    named = λ u k.
        set_table_cases (λ u m. (d : CrossTx) → find k m ≡ some d → d.cross_tx_id ≡ k) t _ s.tables
          u (λ d. rw find-erase (ground (arith, h.named t k d))) (λ e. h.named u k);
    deadlines = λ u k.
        set_table_cases (λ u m. (d : CrossTx) → find k m ≡ some d → dated u d ≡ true) t _ s.tables u
          (λ d. rw find-erase (ground (arith, h.deadlines t k d))) (λ e. h.deadlines u k);
  }

  redated : (now : ℤ) (t : Table) (c : CrossTx) → dated t (set_deadline now c) ≡ true
  redated now t c = ground arith

  postponed-IsConsistent :
      (t : Table) (k : Bytes) (now : ℤ) (s : Agent env)
      → IsConsistent env s
      → IsConsistent env
          (record s { tables = set_table t (update k (set_deadline now) (s.tables t)) s.tables })
  postponed-IsConsistent t j now s h = record {
    keys = λ u k.
        set_table_cases (λ u m. has k m ≡ is_ok (env.db_get (db_key u k) s.db)) t _ s.tables u
          (rw has-update (h.keys t k)) (λ e. h.keys u k);
    sorted = λ u.
        set_table_cases (λ u m. IsSorted m) t _ s.tables u
          (update-IsSorted j (set_deadline now) (s.tables t) (h.sorted t)) (λ e. h.sorted u);
    named = λ u k.
        set_table_cases (λ u m. (d : CrossTx) → find k m ≡ some d → d.cross_tx_id ≡ k) t _ s.tables
          u
          (λ d. rw find-update (
            updated_entry (λ d. d.cross_tx_id ≡ k) (set_deadline now) (λ c q. q) (bytes_eq j k)
              (find k (s.tables t)) d (h.named t k)))
          (λ e. h.named u k);
    deadlines = λ u k.
        set_table_cases (λ u m. (d : CrossTx) → find k m ≡ some d → dated u d ≡ true) t _ s.tables u
          (λ d. rw find-update (
            updated_entry (λ d. dated t d ≡ true) (set_deadline now) (λ c q. redated now t c)
              (bytes_eq j k) (find k (s.tables t)) d (h.deadlines t k)))
          (λ e. h.deadlines u k);
  }

  Consistency-IsStable : IsStable env every (IsConsistent env)
  Consistency-IsStable = record {
    in_world = λ s w h. record {
      keys = h.keys;
      sorted = h.sorted;
      named = h.named;
      deadlines = h.deadlines;
    };
    saved = λ t c s own made ready h. saved-IsConsistent t c s ready h;
    cleared = λ t k s own h. cleared-IsConsistent t k s h;
    postponed = λ t k now s own h. postponed-IsConsistent t k now s h;
  }

  -- From a consistent state, any sequence of events that ends without a fault ends in a consistent
  -- state, provided that the store accepts every write.
  pub run-IsConsistent :
      (events : List Event) (s : Agent env)
      → IsConsistent env s
      → After (IsConsistent env) (run env events s)
  run-IsConsistent events s h = (run-Keeps env Consistency-IsStable events).at s h
