-- ===== src/Glue/Layer2ToLayer1/Admission.antt =====
-- Layer2ToLayer1Handle: how a transfer that has started on layer 2 comes into the agent's hands.
use crosschain_agent.Prelude.{Bytes, ℤ, ltb_ℤ, ◌≡◌, false, some, true, refl}
use crosschain_agent.Env.{Env}
use crosschain_agent.Glue.Layer2ToLayer1.Events.{
  forward, handle_start_tx_event, start_transfer, keep_start, read_cross_tx, endpoint2,
}
use crosschain_agent.Database.Contract.{DbLaws, db_put_lem, db_delete_lem}
use crosschain_agent.Glue.Layer2ToLayer1.Send.{
  send_tx_to_layer1, keep_send_tx, send_transaction_to_layer1, send_tx_input,
}
use crosschain_agent.Glue.Node.{Agent, on_world, on_db, on_table, l2_start_tx, l2_send_tx}
use crosschain_agent.Messages.{CrossTxInfo}
use crosschain_agent.Glue.Layer2ToLayer1.Maps.{
  save_send_tx_info, clear_start_tx_info, save_start_tx_info,
}
use crosschain_agent.Exec.{zoom, state, ◌>>=◌, modify, done}
use crosschain_agent.General.{make_cross_tx, CrossTx}
use crosschain_agent.WebClient.Query.{get_layer2_cross_tx_info}
use crosschain_agent.Glue.Layer2ToLayer1.Parse.{make_cross_tx_info}
use crosschain_agent.WebClient.{get_layer_seq}
use crosschain_agent.Glue.Node.Move.{IsMoved, saved-cleared-IsMoved}
use crosschain_agent.Glue.Node.Saved.{IsSaved, save_state-IsSaved}
use crosschain_agent.Glue.Node.Stable.{save_state, clear_state}

module _ (env : Env) (laws : DbLaws env) (k : Bytes) (s : Agent env) (w₁ w₂ : env.World)
    (first second : Bytes) (info : CrossTxInfo) where
  -- HandleStartTxEvent, where layer 2 answers with the transfer and with the number of its ledger: the
  -- result is true, and the transfer waits among the starts, in memory and in the store, for the
  -- confirmation of that ledger. No transaction is sent: the outside world is as these two answers left it.
  pub layer2_handle_start_tx_event_accepted :
      (seq : ℤ)
      → get_layer2_cross_tx_info env (endpoint2 env) k s.world ≡ done (some (first, second), w₁)
      → make_cross_tx_info first second (record s { world = w₁ })
        ≡ done (some info, record s { world = w₁ })
      → get_layer_seq env (endpoint2 env) w₁ ≡ done (some seq, w₂)
      → (s' : Agent env) × (handle_start_tx_event env k s ≡ done (true, s'))
        × (s'.world ≡ w₂)
        × IsSaved env l2_start_tx info.crosstxid
            (env.serialize (record info { confirmseq = seq }))
            s'
  unfolding handle_start_tx_event start_transfer keep_start read_cross_tx on_world zoom state ◌>>=◌
      save_start_tx_info on_db on_table modify make_cross_tx
  layer2_handle_start_tx_event_accepted seq found made asked =
      let saved : CrossTx = make_cross_tx env (record info { confirmseq = seq }) in
      let before : Agent env = record s { world = w₂ } in
      (
        save_state env l2_start_tx saved before,
        rw found (rw made (rw asked (rw db_put_lem refl))),
        refl,
        save_state-IsSaved env laws l2_start_tx saved before,
      )

-- A start that is confirmed and not overdue, and whose transaction is accepted on layer 1, goes from the
-- starts to the sent transfers, in memory and in the store, with the hash of that transaction.
pub forward_accepted :
    (env : Env)
    → DbLaws env
    → (info : CrossTxInfo) (current_time : ℤ) (s : Agent env) (w : env.World) (hash : Bytes)
    → ltb_ℤ info.timeout current_time ≡ false
    → send_transaction_to_layer1 env (send_tx_input env info) info.amount s.world
      ≡ done (some hash, w)
    → (s' : Agent env) × (forward env info current_time s ≡ done (tt, s'))
      × IsMoved env l2_start_tx l2_send_tx info.crosstxid info.crosstxid
          (env.serialize (record info { sendtxhash = hash }))
          s'
unfolding forward send_tx_to_layer1 keep_send_tx save_send_tx_info clear_start_tx_info on_world zoom
    state ◌>>=◌ on_db on_table modify make_cross_tx
forward_accepted env laws info current_time s w hash early sent =
    let saved : CrossTx = make_cross_tx env (record info { sendtxhash = hash }) in
    let before : Agent env = record s { world = w } in
    (
      clear_state env l2_start_tx info.crosstxid (save_state env l2_send_tx saved before),
      rw early (rw sent (rw db_put_lem (rw db_delete_lem refl))),
      saved-cleared-IsMoved env laws l2_start_tx l2_send_tx info.crosstxid saved before refl refl,
    )
