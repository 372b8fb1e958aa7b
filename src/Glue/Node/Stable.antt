-- ===== src/Glue/Node/Stable.antt =====
-- Invariants that the basic steps of src/glue keep: what the methods of a handle keep then follows from
-- how they are put together. The interface `IsStable` is what such a method needs of an invariant.
use crosschain_agent.Prelude.{
  Bool, Bytes, Option, false, if◌then◌else◌, is_some, length, none, some, suc, true, zero, ℕ, ℤ,
  ◌≡◌,
}
use crosschain_agent.Exec.Keeps.{Keeps, After, keeps_rules, Keeps-bind, Keeps-gets, Keeps-expect}
use crosschain_agent.Database.Proxy
use crosschain_agent.Glue.Node.{
  Table, Agent, CrossTx, db_key, on_world, sweep, range_for, on_table, set_table, in_a_minute,
  advance, on_db, l1_send_ack, l1_reply_ack, l2_send_ack, begin, l2_reply_ack,
}
use crosschain_agent.Env.{Env}
use crosschain_agent.General.{CrossTx}
use crosschain_agent.Exec.{
  Exec, Outcome, done, fault, gets, modify, pure, put_back, zoom, ◌>>=◌, ◌>>◌,
}
use crosschain_agent.Map.{emplace, erase, update, begin}
use crosschain_agent.Database.Contract.{db_put_lem, db_delete_lem}
use crosschain_agent.Messages.{CrossTxInfo}

-- The maps whose entries carry a deadline.
abbrev pub has_deadline : Table → Bool
has_deadline l1_send_ack = true
has_deadline l1_reply_ack = true
has_deadline l2_send_ack = true
has_deadline l2_reply_ack = true
has_deadline _ = false

abbrev pub dated : Table → CrossTx → Bool
dated t c = if has_deadline t then is_some c.send_ack_timeout else true

abbrev pub save_state : (env : Env) → Table → CrossTx → Agent env → Agent env
save_state env t c s = record s {
  db = (env.db_put (db_key t c.cross_tx_id) c.cross_tx_info s.db).1;
  tables = set_table t (emplace c.cross_tx_id c (s.tables t)) s.tables;
}

abbrev pub clear_state : (env : Env) → Table → Bytes → Agent env → Agent env
clear_state env t k s = record s {
  db = (env.db_delete (db_key t k) s.db).1;
  tables = set_table t (erase k (s.tables t)) s.tables;
}

abbrev pub set_deadline : ℤ → CrossTx → CrossTx
set_deadline now c = record c { send_ack_timeout = some (in_a_minute now) }

-- An entry as the handles make them: its record is the serialization of a transfer with its identifier.
abbrev pub IsMade : Env → CrossTx → Type 0
IsMade env c =
    (info : CrossTxInfo) × (c.cross_tx_id ≡ info.crosstxid) × (c.cross_tx_info ≡ env.serialize info)

-- `P` does not depend on the outside world, and survives each change of the maps in `mine`: a new
-- entry with its record in the store, the removal of both, and a new deadline.
pub record IsStable (env : Env) (mine : Table → Bool) (P : Agent env → Type 0) : Type 0 where
  pub in_world : (s : Agent env) (w : env.World) → P s → P (record s { world = w })
  pub saved :
      (t : Table) (c : CrossTx) (s : Agent env)
      → mine t ≡ true
      → IsMade env c
      → dated t c ≡ true
      → P s
      → P (save_state env t c s)
  pub cleared :
      (t : Table) (k : Bytes) (s : Agent env) → mine t ≡ true → P s → P (clear_state env t k s)
  pub postponed :
      (t : Table) (k : Bytes) (now : ℤ) (s : Agent env)
      → mine t ≡ true
      → P s
      → P (record s { tables = set_table t (update k (set_deadline now) (s.tables t)) s.tables })

module _ (env : Env) {mine : Table → Bool} {P : Agent env → Type 0} (st : IsStable env mine P) where
  After-world :
      {A : Type 0} (s : Agent env) (o : Outcome (A × env.World))
      → P s
      → After P (put_back (λ (x : Agent env) w. record x { world = w }) s o)
  After-world s (done (a, w)) h = st.in_world s w h
  After-world s (fault e) h = tt

  -- What runs on the outside world alone keeps `P`.
  pub Keeps-on_world : {A : Type 0} (m : Exec env.World A) → Keeps P (on_world env m)
  unfolding on_world zoom
  Keeps-on_world m = record { at = λ s h. After-world s (m s.world) h }

  pub Keeps-advance :
      (t : Table) (k : Bytes) → Keeps P (gets (λ (s : Agent env). advance k (s.tables t)))
  unfolding gets
  Keeps-advance t k = record { at = λ s h. h }

  -- A loop keeps what its body keeps.
  pub Keeps-sweep :
      (t : Table) (body : Bytes → CrossTx → Exec (Agent env) Unit)
      → ((k : Bytes) (c : CrossTx) → Keeps P (body k c))
      → (fuel : ℕ) (place : Option (Bytes × CrossTx)) → Keeps P (sweep env t body fuel place)
  unfolding sweep
  Keeps-sweep t body keep fuel none = search keeps_rules
  Keeps-sweep t body keep zero (some e) = search keeps_rules
  Keeps-sweep t body keep (suc fuel) (some (k, c)) = Keeps-bind _ _ (keep k c) λ _.
      Keeps-bind _ _ (Keeps-gets _)
        λ here. Keeps-bind _ _ (Keeps-expect _ here) λ next. Keeps-sweep t body keep fuel next

  pub Keeps-range_for :
      (t : Table) (body : Bytes → CrossTx → Exec (Agent env) Unit)
      → ((k : Bytes) (c : CrossTx) → Keeps P (body k c))
      → Keeps P (range_for env t body)
  unfolding range_for
  Keeps-range_for t body keep =
      Keeps-bind _ _ (Keeps-gets _) λ m. Keeps-sweep t body keep (length m) (begin m)

  -- A write through the pointer of an entry.
  pub Keeps-postpone :
      (t : Table) (k : Bytes) (now : ℤ)
      → mine t ≡ true
      → Keeps P (on_table env t (update k (set_deadline now)))
  unfolding on_table modify
  Keeps-postpone t k now own = record { at = λ s h. st.postponed t k now s own h }

  -- The two ways in which the handles save an entry, and the one in which they remove it.
  pub Keeps-put_emplace :
      (t : Table) (c : CrossTx)
      → mine t ≡ true
      → IsMade env c
      → dated t c ≡ true
      → Keeps P (do
        on_db env (Proxy.db_put env (db_key t c.cross_tx_id) c.cross_tx_info)
        on_table env t (emplace c.cross_tx_id c)
        pure true)
  unfolding ◌>>=◌ on_db zoom on_table modify
  Keeps-put_emplace t c own made ready = record {
    at = λ s h. rw db_put_lem (st.saved t c s own made ready h);
  }

  pub Keeps-delete_erase :
      (t : Table) (k : Bytes)
      → mine t ≡ true
      → Keeps P
          (do on_db env (Proxy.db_delete env (db_key t k)); on_table env t (erase k); pure true)
  unfolding ◌>>=◌ on_db zoom on_table modify
  Keeps-delete_erase t k own = record { at = λ s h. rw db_delete_lem (st.cleared t k s own h) }
