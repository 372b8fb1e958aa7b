-- ===== src/Glue/Layer1ToLayer2/Handover.antt =====
-- Layer1ToLayer2Handle: how an event takes a transfer from one map to the next.
use crosschain_agent.Prelude.{Bytes, ◌≡◌, some, pos, true, refl}
use crosschain_agent.Env.{Env, high_resolution}
use crosschain_agent.Glue.Node.{
  Agent, on_world, on_db, on_table, l1_send_tx, l1_send_ack, l1_reply_ack,
}
use crosschain_agent.Messages.{CrossTxInfo}
use crosschain_agent.Glue.Layer1ToLayer2.Events.{
  handle_send_tx_event, handle_send_ackd_tx_event, acknowledge_send_tx, reply, acknowledge,
  read_cross_tx, endpoint2, endpoint1,
}
use crosschain_agent.Glue.Layer1ToLayer2.Send.{
  reply_ack_to_layer2, send_ack_to_layer1, keep_reply_ack, keep_send_ack,
  send_transaction_to_layer1, send_transaction_to_layer2, send_acked_tx_input,
}
use crosschain_agent.Exec.{zoom, state, ◌>>=◌, done, modify}
use crosschain_agent.WebClient.Query.{get_layer2_cross_tx_info, get_layer1_cross_tx_info}
use crosschain_agent.Glue.Layer1ToLayer2.Maps.{
  save_send_ack_info, save_reply_ack_info, clear_send_tx_info, clear_send_ack_info,
}
use crosschain_agent.Glue.Layer1ToLayer2.Parse.{make_cross_tx_info}
use crosschain_agent.General.{make_cross_tx, cross_result_success, CrossTx}
use crosschain_agent.Database.Contract.{DbLaws, db_put_lem, db_delete_lem}
use crosschain_agent.Glue.Node.Move.{IsMoved, saved-cleared-IsMoved}
use crosschain_agent.Glue.Node.Stable.{set_deadline, clear_state, save_state}

-- What the two events make of the answers of the view functions, `info`, which end in the outside
-- world `w₁`, and of the result `sent` of the transaction that they send, which ends in `w₂`.
module _ (env : Env) (k : Bytes) (s : Agent env) (w₁ w₂ : env.World) (first second : Bytes)
    (info : CrossTxInfo) where
  -- HandleSendTxEvent, where layer 2 answers with the transfer and its acknowledgement as a success is
  -- accepted on layer 1: the result is true, the transfer has left the sent ones, and it is among the
  -- acknowledgements, with the status and the hash in its record.
  pub layer1_handle_send_tx_event_accepted :
      (hash : Bytes)
      → DbLaws env
      → get_layer2_cross_tx_info env (endpoint2 env) k s.world ≡ done (some (first, second), w₁)
      → make_cross_tx_info first second (record s { world = w₁ })
        ≡ done (some info, record s { world = w₁ })
      → send_transaction_to_layer1 env
          (send_acked_tx_input env (record info { status = cross_result_success }))
          (pos 0)
          w₁
        ≡ done (some hash, w₂)
      → (s' : Agent env) × (handle_send_tx_event env k s ≡ done (true, s'))
        × IsMoved env l1_send_tx l1_send_ack k info.crosstxid
            (env.serialize (record info { status = cross_result_success; sendacktol1hash = hash }))
            s'
  unfolding handle_send_tx_event acknowledge_send_tx acknowledge send_ack_to_layer1 keep_send_ack
      read_cross_tx on_world zoom state ◌>>=◌ save_send_ack_info clear_send_tx_info on_db on_table
      modify high_resolution make_cross_tx
  layer1_handle_send_tx_event_accepted hash laws found made sent =
      let saved : CrossTx = set_deadline (env.clock w₂).0 (
        make_cross_tx env
          (record info { status = cross_result_success; sendacktol1hash = hash })) in
      let before : Agent env = record s { world = (env.clock w₂).1 } in
      (
        clear_state env l1_send_tx k (save_state env l1_send_ack saved before),
        rw found (rw made (rw sent (rw db_put_lem (rw db_delete_lem refl)))),
        saved-cleared-IsMoved env laws l1_send_tx l1_send_ack k saved before refl refl,
      )

  -- HandleSendAckdTxEvent, where layer 1 answers with the transfer and the reply is accepted on layer 2:
  -- the result is true, the transfer has left the acknowledgements, and it is among the replies, with
  -- the hash in its record.
  pub layer1_handle_send_ackd_tx_event_accepted :
      (hash : Bytes)
      → DbLaws env
      → get_layer1_cross_tx_info env (endpoint1 env) k s.world ≡ done (some (first, second), w₁)
      → make_cross_tx_info first second (record s { world = w₁ })
        ≡ done (some info, record s { world = w₁ })
      → send_transaction_to_layer2 env (send_acked_tx_input env info) (pos 0) w₁
        ≡ done (some hash, w₂)
      → (s' : Agent env) × (handle_send_ackd_tx_event env k s ≡ done (true, s'))
        × IsMoved env l1_send_ack l1_reply_ack k info.crosstxid
            (env.serialize (record info { sendacktol2hash = hash }))
            s'
  unfolding handle_send_ackd_tx_event reply reply_ack_to_layer2 keep_reply_ack read_cross_tx
      on_world zoom state ◌>>=◌ save_reply_ack_info clear_send_ack_info on_db on_table modify
      high_resolution make_cross_tx
  layer1_handle_send_ackd_tx_event_accepted hash laws found made sent =
      let saved : CrossTx =
        set_deadline (env.clock w₂).0
          (make_cross_tx env (record info { sendacktol2hash = hash })) in
      let before : Agent env = record s { world = (env.clock w₂).1 } in
      (
        clear_state env l1_send_ack k (save_state env l1_reply_ack saved before),
        rw found (rw made (rw sent (rw db_put_lem (rw db_delete_lem refl)))),
        saved-cleared-IsMoved env laws l1_send_ack l1_reply_ack k saved before refl refl,
      )
