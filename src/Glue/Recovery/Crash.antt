-- ===== src/Glue/Recovery/Crash.antt =====
-- A process that stops after any event, and the one that is started after it on the same store.
use crosschain_agent.Prelude.{
  Bytes, ◌≡◌, List, true, Bool-cases, subst, sym, ◌&&◌, ◌∙◌, bytes_eq, inl, refl, bytes_eq_sound,
  arith, inr, [],
}
use crosschain_agent.Env.{Env, GetStatus}
use crosschain_agent.Messages.{CrossTxInfo}
use crosschain_agent.Database.Contract.{DbLaws}
use crosschain_agent.General.{CrossTx}
use crosschain_agent.Glue.Node.{Table, db_key, Agent, same, prefix}
use crosschain_agent.Glue.Node.Stable.{IsStable, IsMade}
use crosschain_agent.Glue.Recovery.Scan.{IsLegible, id_of, SeekLaws}
use crosschain_agent.Glue.HandleManager.Invariants.{every, run-Keeps}
use crosschain_agent.Glue.HandleManager.{
  Event, run, check_layer2_balance, check_layer1_balance, initialize,
}
use crosschain_agent.Glue.Consistency.{IsConsistent, run-IsConsistent}
use crosschain_agent.Exec.{done}
use crosschain_agent.Glue.Node.Keys.{db_key-eq}
use crosschain_agent.Map.{has}
use crosschain_agent.Exec.Keeps.{After}
use crosschain_agent.Glue.Recovery.Restart.{initialize-IsConsistent}

-- Protobuf reads back what it has written.
pub record MessageLaws (env : Env) : Type 0 where
  pub parse-serialize : (info : CrossTxInfo) → env.parse (env.serialize info) ≡ (true, info)

module _ (env : Env) (laws : DbLaws env) (messages : MessageLaws env) where
  made_legible :
      (c : CrossTx) (k v : Bytes)
      → IsMade env c
      → c.cross_tx_id ≡ k
      → GetStatus.ok c.cross_tx_info ≡ GetStatus.ok v
      → ((env.parse v).0 ≡ true) × (id_of env v ≡ k)
  made_legible c k v (info, own, text) e h =
      let same_text : env.serialize info ≡ v = cc in
      let read : env.parse v ≡ (true, info) =
        subst (λ x. env.parse x ≡ (true, info)) same_text (messages.parse-serialize info) in
      (rw read refl, subst (λ x. x.1.crosstxid ≡ k) (sym read) (sym own ∙ e))

  db_put-IsLegible :
      (t : Table) (c : CrossTx) (d : env.Db)
      → IsMade env c
      → IsLegible env d
      → IsLegible env (env.db_put (db_key t c.cross_tx_id) c.cross_tx_info d).1
  db_put-IsLegible t c d made h u k v held =
      elim (Bool-cases (same t u && bytes_eq c.cross_tx_id k)) [
        | inl e ↦
            made_legible c k v made (bytes_eq_sound c.cross_tx_id k (ground arith))
              (rw (laws.get_put, db_key-eq t u c.cross_tx_id k, e) at held)
        | inr e ↦ h u k v (rw (laws.get_put, db_key-eq t u c.cross_tx_id k, e) at held)
      ]

  db_delete-IsLegible :
      (t : Table) (j : Bytes) (d : env.Db)
      → IsLegible env d
      → IsLegible env (env.db_delete (db_key t j) d).1
  db_delete-IsLegible t j d h u k v held = elim (Bool-cases (same t u && bytes_eq j k)) [
    | inl e ↦ absurd (deleted v (rw (laws.get_delete, db_key-eq t u j k, e) at held))
    | inr e ↦ h u k v (rw (laws.get_delete, db_key-eq t u j k, e) at held)
  ]
    where
      deleted : (v : Bytes) → GetStatus.not_found ≡ GetStatus.ok v → ⊥
      deleted v e = cc

  Legible-IsStable : IsStable env every (λ s. IsLegible env s.db)
  Legible-IsStable = record {
    in_world = λ s w h. h;
    saved = λ t c s own made ready h. db_put-IsLegible t c s.db made h;
    cleared = λ t k s own h. db_delete-IsLegible t k s.db h;
    postponed = λ t k now s own h. h;
  }

  -- If a process in a consistent state on a legible store stops after any sequence of events that has
  -- ended without a fault, and a new process whose accounts can pay starts on that store, then Initialize
  -- succeeds, the new process is in a consistent state, and each of its maps has exactly the transfers
  -- that the same map of the old process had.
  pub restart_lem :
      (events : List Event) (s s' : Agent env) (w w₁ w₂ : env.World)
      → ((t : Table) → SeekLaws env (prefix t) s'.db)
      → IsConsistent env s
      → IsLegible env s.db
      → run env events s ≡ done (tt, s')
      → check_layer2_balance env w ≡ done (true, w₁)
      → check_layer1_balance env w₁ ≡ done (true, w₂)
      → (s'' : Agent env) × (initialize env (record { world = w; db = s'.db; tables = λ t. [] })
          ≡ done (true, s''))
        × IsConsistent env s''
        × ((t : Table) (k : Bytes) → has k (s''.tables t) ≡ has k (s'.tables t))
  restart_lem events s s' w w₁ w₂ seeks consistent legible ran paid₂ paid₁ =
      let kept : IsConsistent env s' =
        subst (After (IsConsistent env)) ran (run-IsConsistent env laws events s consistent) in
      let still : IsLegible env s'.db =
        subst (After (λ x. IsLegible env x.db)) ran
          ((run-Keeps env Legible-IsStable events).at s legible) in
      let (s'', started, same_store, h) =
        initialize-IsConsistent env s'.db w w₁ w₂ seeks still paid₂ paid₁ in
      (s'', started, h, λ t k. rw (h.keys t k, same_store) (sym (kept.keys t k)))
