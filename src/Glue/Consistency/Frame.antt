-- ===== src/Glue/Consistency/Frame.antt =====
-- The two directions of the bridge do not touch each other's maps or records.
use crosschain_agent.Prelude.{
  Bytes, Bool, ◌≡◌, false, true, ℤ, Bool-cases, refl, inl, false≢true, sym, ◌∙◌, ap, inr,
}
use crosschain_agent.Exec.Keeps.{After}
use crosschain_agent.Glue.Layer1ToLayer2
use crosschain_agent.Glue.Layer2ToLayer1
use crosschain_agent.Glue.Layer1ToLayer2.Invariants as One
use crosschain_agent.Glue.Layer2ToLayer1.Invariants as Two
use crosschain_agent.Env.{Env}
use crosschain_agent.Glue.Node.{Table, Agent, set_table, db_key, same}
use crosschain_agent.Database.Contract.{DbLaws}
use crosschain_agent.Glue.Node.Stable.{IsStable}
use crosschain_agent.Glue.Layer1ToLayer2.Invariants.{layer1}
use crosschain_agent.Glue.Layer2ToLayer1.Invariants.{layer2}
use crosschain_agent.Glue.Node.Keys.{db_key-eq, same_sound}

-- The maps outside `mine`, and the records of their transfers, are as they were in `before`.
pub record Untouched (env : Env) (mine : Table → Bool) (before s : Agent env) : Type 0 where
  pub maps : (u : Table) → mine u ≡ false → s.tables u ≡ before.tables u
  pub records :
      (u : Table) (k : Bytes)
      → mine u ≡ false
      → env.db_get (db_key u k) s.db ≡ env.db_get (db_key u k) before.db

apart : (mine : Table → Bool) (t u : Table) → mine t ≡ true → mine u ≡ false → same t u ≡ false
apart mine t u own other = elim (Bool-cases (same t u)) [
  | inl e ↦ absurd (false≢true (sym other ∙ ap mine (sym (same_sound t u e)) ∙ own))
  | inr e ↦ e
]

module _ (env : Env) (laws : DbLaws env) (mine : Table → Bool) (before : Agent env) where
  pub Untouched-IsStable : IsStable env mine (Untouched env mine before)
  unfolding set_table
  Untouched-IsStable = record {
    in_world = λ s w h. record { maps = h.maps; records = h.records };
    saved = λ t c s own made ready h. record {
      maps = λ u other. rw (apart mine t u own other) (h.maps u other);
      records = λ u k other.
          rw (laws.get_put, db_key-eq t u c.cross_tx_id k, apart mine t u own other)
            (h.records u k other);
    };
    cleared = λ t j s own h. record {
      maps = λ u other. rw (apart mine t u own other) (h.maps u other);
      records = λ u k other.
          rw (laws.get_delete, db_key-eq t u j k, apart mine t u own other) (h.records u k other);
    };
    postponed = λ t j now s own h. record {
      maps = λ u other. rw (apart mine t u own other) (h.maps u other);
      records = h.records;
    };
  }

module _ (env : Env) (laws : DbLaws env) (s : Agent env) where
  -- Whatever Layer1ToLayer2Handle does at an event of a contract or at the timer, if it ends without a
  -- fault then the maps of Layer2ToLayer1Handle and their records in the store are as they were.
  pub layer1-Untouched :
      (k : Bytes) (now : ℤ)
      → After (Untouched env layer1 s) (Layer1ToLayer2.Events.handle_start_tx_event env k s)
        × After (Untouched env layer1 s) (Layer1ToLayer2.Events.handle_send_tx_event env k s)
        × After (Untouched env layer1 s) (Layer1ToLayer2.Events.handle_send_ackd_tx_event env k s)
        × After (Untouched env layer1 s) (Layer1ToLayer2.TimeOuts.on_timer env now s)
  layer1-Untouched k now =
      let st = Untouched-IsStable env laws layer1 s in
      let unchanged : Untouched env layer1 s s = record {
        maps = λ u other. refl;
        records = λ u k other. refl;
      } in
      (
        (One.handle_start_tx_event-Keeps env st (λ t h. h) k).at s unchanged,
        (One.handle_send_tx_event-Keeps env st (λ t h. h) k).at s unchanged,
        (One.handle_send_ackd_tx_event-Keeps env st (λ t h. h) k).at s unchanged,
        (One.on_timer-Keeps env st (λ t h. h) now).at s unchanged,
      )

  -- Whatever Layer2ToLayer1Handle does at an event of a contract or at the timer, if it ends without a
  -- fault then the maps of Layer1ToLayer2Handle and their records in the store are as they were.
  pub layer2-Untouched :
      (k : Bytes) (seq now : ℤ)
      → After (Untouched env layer2 s) (Layer2ToLayer1.Events.handle_start_tx_event env k s)
        × After (Untouched env layer2 s) (Layer2ToLayer1.Events.handle_send_tx_event env k s)
        × After (Untouched env layer2 s) (Layer2ToLayer1.Events.handle_send_ackd_tx_event env k s)
        × After (Untouched env layer2 s) (Layer2ToLayer1.Events.handle_confirm_seq_event env seq s)
        × After (Untouched env layer2 s) (Layer2ToLayer1.TimeOuts.on_timer env now s)
  layer2-Untouched k seq now =
      let st = Untouched-IsStable env laws layer2 s in
      let unchanged : Untouched env layer2 s s = record {
        maps = λ u other. refl;
        records = λ u k other. refl;
      } in
      (
        (Two.handle_start_tx_event-Keeps env st (λ t h. h) k).at s unchanged,
        (Two.handle_send_tx_event-Keeps env st (λ t h. h) k).at s unchanged,
        (Two.handle_send_ackd_tx_event-Keeps env st (λ t h. h) k).at s unchanged,
        (Two.handle_confirm_seq_event-Keeps env st (λ t h. h) seq).at s unchanged,
        (Two.on_timer-Keeps env st (λ t h. h) now).at s unchanged,
      )
