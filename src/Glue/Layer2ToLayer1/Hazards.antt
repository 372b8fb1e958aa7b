-- ===== src/Glue/Layer2ToLayer1/Hazards.antt =====
-- Layer2ToLayer1Handle: loops that erase the entry that they are at.
use crosschain_agent.Prelude.{
  Bytes, ℤ, ◌≡◌, ◌∷◌, ltb_ℤ, leb_ℤ, true, false, pos, some, bytes_eq_refl, refl,
}
use crosschain_agent.Env.{Env, high_resolution}
use crosschain_agent.Glue.Node.{
  Agent, on_world, on_db, on_table, set_table, l2_start_tx, l2_send_ack, l2_send_tx,
}
use crosschain_agent.General.{CrossTx, cross_result_failed, make_cross_tx}
use crosschain_agent.Map.{Map}
use crosschain_agent.Glue.Layer2ToLayer1.TimeOuts.{
  start_tx_time_out, check_start_tx, expire_start_tx, stored_info,
}
use crosschain_agent.Glue.Layer2ToLayer1.Events.{
  handle_confirm_seq_event, check_confirm_seq, forward,
}
use crosschain_agent.Exec.{zoom, state, ◌>>=◌, modify, done, fault, dangling}
use crosschain_agent.Glue.Layer2ToLayer1.Send.{
  send_tx_to_layer1, keep_send_tx, send_ack_to_layer2, keep_send_ack, send_transaction_to_layer2,
  send_acked_tx_input, send_transaction_to_layer1, send_tx_input,
}
use crosschain_agent.Glue.Layer2ToLayer1.Maps.{
  save_send_tx_info, clear_start_tx_info, save_send_ack_info,
}
use crosschain_agent.Glue.Node.Sweep.{range_for_dangling}
use crosschain_agent.Database.Contract.{db_put_lem, db_delete_lem}
use crosschain_agent.Map.Laws.{has-erase}
use crosschain_agent.Messages.{CrossTxInfo}
use crosschain_agent.Glue.Node.Stable.{set_deadline, clear_state, save_state}

-- The map of starts has the first entry `k`, and the transaction that is sent for it, `w` being the
-- outside world when it is sent, is accepted.
module _ (env : Env) (s : Agent env) (k : Bytes) (c : CrossTx) (rest : Map CrossTx) (hash : Bytes)
    (w : env.World) where
  -- StartTxTimeOut: if the first start is overdue and its acknowledgement as a failure is accepted, then
  -- the loop erases the entry that it is at and goes on from there, which is undefined behaviour.
  pub start_tx_time_out_dangling :
      s.tables l2_start_tx ≡ (k, c) ∷ rest
      → ltb_ℤ c.send_tx_timeout (env.clock s.world).0 ≡ true
      → send_transaction_to_layer2 env
          (send_acked_tx_input env (record (stored_info env c) { status = cross_result_failed }))
          (pos 0)
          (env.clock s.world).1
        ≡ done (some hash, w)
      → start_tx_time_out env s ≡ fault dangling
  unfolding start_tx_time_out on_world high_resolution zoom state ◌>>=◌ check_start_tx
      expire_start_tx send_ack_to_layer2 keep_send_ack save_send_ack_info clear_start_tx_info on_db
      on_table modify set_table make_cross_tx stored_info
  start_tx_time_out_dangling first due sent =
      let info : CrossTxInfo = record (stored_info env c) {
        status = cross_result_failed;
        sendacktol2hash = hash;
      } in
      let acked : CrossTx = set_deadline (env.clock w).0 (make_cross_tx env info) in
      rw
        (range_for_dangling env l2_start_tx (check_start_tx env (env.clock s.world).0)
          (record s { world = (env.clock s.world).1 }) k c rest
          (clear_state env l2_start_tx k
            (save_state env l2_send_ack acked (record s { world = (env.clock w).1 })))
          first (rw due (rw sent (rw db_put_lem (rw db_delete_lem refl))))
          (rw (has-erase, bytes_eq_refl k) refl))
        refl

  -- HandleConfirmSeqEvent: if the first start is confirmed, not overdue, recorded under its own
  -- identifier, and its transaction is accepted on layer 1, then the loop erases the entry that it is at
  -- and goes on from there, which is undefined behaviour.
  pub handle_confirm_seq_event_dangling :
      (confirm_seq : ℤ)
      → s.tables l2_start_tx ≡ (k, c) ∷ rest
      → (env.parse c.cross_tx_info).1.crosstxid ≡ k
      → leb_ℤ (env.parse c.cross_tx_info).1.confirmseq confirm_seq ≡ true
      → ltb_ℤ (env.parse c.cross_tx_info).1.timeout (env.clock s.world).0 ≡ false
      → send_transaction_to_layer1 env
          (send_tx_input env (env.parse c.cross_tx_info).1)
          (env.parse c.cross_tx_info).1.amount
          (env.clock s.world).1
        ≡ done (some hash, w)
      → handle_confirm_seq_event env confirm_seq s ≡ fault dangling
  unfolding handle_confirm_seq_event check_confirm_seq forward on_world high_resolution zoom state
      ◌>>=◌ send_tx_to_layer1 keep_send_tx save_send_tx_info clear_start_tx_info on_db on_table
      modify set_table make_cross_tx stored_info
  handle_confirm_seq_event_dangling confirm_seq first own confirmed early sent =
      let info : CrossTxInfo = stored_info env c in
      let sent_tx : CrossTx = make_cross_tx env (record info { sendtxhash = hash }) in
      rw
        (range_for_dangling env l2_start_tx (check_confirm_seq env confirm_seq) s k c rest
          (clear_state env l2_start_tx info.crosstxid
            (save_state env l2_send_tx sent_tx (record s { world = w })))
          first (rw confirmed (rw early (rw sent (rw db_put_lem (rw db_delete_lem refl)))))
          (rw (own, has-erase, bytes_eq_refl k) refl))
        refl
