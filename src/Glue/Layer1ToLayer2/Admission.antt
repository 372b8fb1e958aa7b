-- ===== src/Glue/Layer1ToLayer2/Admission.antt =====
-- Layer1ToLayer2Handle: how a transfer that has started on layer 1 comes into the agent's hands.
use crosschain_agent.Prelude.{Bytes, ◌≡◌, some, true, refl}
use crosschain_agent.Env.{Env}
use crosschain_agent.Database.Contract.{DbLaws, db_put_lem}
use crosschain_agent.Glue.Node.{Agent, on_world, on_db, on_table, l1_send_tx}
use crosschain_agent.Messages.{CrossTxInfo}
use crosschain_agent.Glue.Layer1ToLayer2.Events.{
  handle_start_tx_event, start_transfer, read_cross_tx, endpoint1,
}
use crosschain_agent.Glue.Layer1ToLayer2.Send.{
  send_tx_to_layer2, keep_send_tx, send_transaction_to_layer2, send_tx_input,
}
use crosschain_agent.Exec.{zoom, state, ◌>>=◌, modify, done}
use crosschain_agent.Glue.Layer1ToLayer2.Maps.{save_send_tx_info}
use crosschain_agent.General.{make_cross_tx, CrossTx}
use crosschain_agent.WebClient.Query.{get_layer1_cross_tx_info}
use crosschain_agent.Glue.Layer1ToLayer2.Parse.{make_cross_tx_info}
use crosschain_agent.Glue.Node.Saved.{IsSaved, save_state-IsSaved}
use crosschain_agent.Glue.Node.Stable.{save_state}

module _ (env : Env) (laws : DbLaws env) (k : Bytes) (s : Agent env) (w₁ w₂ : env.World)
    (first second : Bytes) (info : CrossTxInfo) where
  -- HandleStartTxEvent, where layer 1 answers with the transfer and the transaction that repeats it on
  -- layer 2 is accepted: the result is true, and the transfer is among the sent ones, in memory and in the
  -- store, with the hash of that transaction.
  pub layer1_handle_start_tx_event_accepted :
      (hash : Bytes)
      → get_layer1_cross_tx_info env (endpoint1 env) k s.world ≡ done (some (first, second), w₁)
      → make_cross_tx_info first second (record s { world = w₁ })
        ≡ done (some info, record s { world = w₁ })
      → send_transaction_to_layer2 env (send_tx_input env info) info.amount w₁
        ≡ done (some hash, w₂)
      → (s' : Agent env) × (handle_start_tx_event env k s ≡ done (true, s'))
        × IsSaved env l1_send_tx info.crosstxid
            (env.serialize (record info { sendtxhash = hash }))
            s'
  unfolding handle_start_tx_event start_transfer send_tx_to_layer2 keep_send_tx read_cross_tx
      on_world zoom state ◌>>=◌ save_send_tx_info on_db on_table modify make_cross_tx
  layer1_handle_start_tx_event_accepted hash found made sent =
      let saved : CrossTx = make_cross_tx env (record info { sendtxhash = hash }) in
      let before : Agent env = record s { world = w₂ } in
      (
        save_state env l1_send_tx saved before,
        rw found (rw made (rw sent (rw db_put_lem refl))),
        save_state-IsSaved env laws l1_send_tx saved before,
      )
