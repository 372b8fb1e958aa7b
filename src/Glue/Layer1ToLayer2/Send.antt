-- ===== src/Glue/Layer1ToLayer2/Send.antt =====
-- Layer1ToLayer2Handle: the transactions that it sends to the bridge contracts, and what it keeps of them.
use crosschain_agent.Prelude.{
  Bytes, ◌∷◌, ◌++◌, codes, if◌then◌else◌, ℤ, [], ltb_ℤ, Option, Bool, pos, none, false, some, true,
}
use crosschain_agent.Env.{Env, object, field, text, end}
use crosschain_agent.Messages.{CrossTxInfo}
use crosschain_agent.Glue.Submit.{send_transaction}
use crosschain_agent.Glue.Node.{on_world, Agent}
use crosschain_agent.WebClient.{submit_layer1_transaction, submit_layer2_transaction}
use crosschain_agent.Glue.Layer1ToLayer2.Maps.{
  save_send_tx_info, save_send_ack_info, save_reply_ack_info,
}
use crosschain_agent.Strings.Items.{join}
use crosschain_agent.Exec.{◌>>=◌, Exec, pure, ◌>>◌}
use crosschain_agent.Strings.{to_string}
use crosschain_agent.General.{cross_result_success, make_cross_tx}
use crosschain_agent.Transaction.{
  add_layer1_operation, add_layer2_operation, make_layer1_transaction, make_layer2_transaction,
}

-- Layer1ToLayer2Handle::sendTransactionToLayer1
unfoldable pub send_transaction_to_layer1 : (env : Env) → Bytes → ℤ → Exec env.World (Option Bytes)
send_transaction_to_layer1 env input amount =
    let c = env.configure in
    let endpoint = c.layer1_configure.http_endpoint in
    send_transaction env (add_layer1_operation c (make_layer1_transaction c) input amount) endpoint
      c.layer1_configure.private_key (submit_layer1_transaction env endpoint)

-- Layer1ToLayer2Handle::sendTransactionToLayer2
unfoldable pub send_transaction_to_layer2 : (env : Env) → Bytes → ℤ → Exec env.World (Option Bytes)
send_transaction_to_layer2 env input amount =
    let c = env.configure in
    let endpoint = c.layer2_configure.http_endpoint in
    send_transaction env (add_layer2_operation c (make_layer2_transaction c) input amount) endpoint
      c.layer2_configure.private_key (submit_layer2_transaction env endpoint)

-- {"function": ..., "args": ...} as a styled text.
unfoldable pub contract_input : Env → Bytes → Bytes → Bytes
contract_input env name arguments =
    env.to_styled_string
      (object (field (codes "function") (text name) (field (codes "args") (text arguments) end)))

unfoldable pub quote : Bytes → Bytes
quote s = b'\'' ∷ s ++ b'\'' ∷ []

-- '%s',%s,%s,%ld,%ld
unfoldable pub send_tx_input : Env → CrossTxInfo → Bytes
send_tx_input env info =
    contract_input env (codes "SendTx(bytes,address,address,uint256,uint256)") (
      join (
        quote info.crosstxid
        ∷ info.srcbid
        ∷ info.destbid
        ∷ to_string info.amount
        ∷ to_string info.timeout
        ∷ []))

-- '%s',%d,'%s',%ld
unfoldable pub send_acked_tx_input : Env → CrossTxInfo → Bytes
send_acked_tx_input env info =
    let error_desc =
      if ltb_ℤ cross_result_success info.status then codes "send tx failed" else codes "success" in
    contract_input env (codes "SendAckedTx(bytes,uint8,string,uint256)") (
      join (
        quote info.crosstxid
        ∷ to_string info.status
        ∷ quote error_desc
        ∷ to_string info.executetimestamp
        ∷ []))

-- With the hash of the transaction, if it was accepted.
unfoldable pub keep_send_tx : (env : Env) → CrossTxInfo → Option Bytes → Exec (Agent env) Bool
keep_send_tx env info none = pure false
keep_send_tx env info (some txhash) = do
  save_send_tx_info env (some (make_cross_tx env (record info { sendtxhash = txhash })))
  pure true

-- Layer1ToLayer2Handle::SendTxToLayer2
unfoldable pub send_tx_to_layer2 : (env : Env) → CrossTxInfo → Exec (Agent env) Bool
send_tx_to_layer2 env info = do
  sent ← on_world env (send_transaction_to_layer2 env (send_tx_input env info) info.amount)
  keep_send_tx env info sent

-- With the hash of the transaction, if it was accepted.
unfoldable pub keep_send_ack : (env : Env) → CrossTxInfo → Option Bytes → Exec (Agent env) Bool
keep_send_ack env info none = pure false
keep_send_ack env info (some txhash) = do
  save_send_ack_info env (some (make_cross_tx env (record info { sendacktol1hash = txhash })))
  pure true

-- Layer1ToLayer2Handle::SendAckToLayer1
unfoldable pub send_ack_to_layer1 : (env : Env) → CrossTxInfo → Exec (Agent env) Bool
send_ack_to_layer1 env info = do
  sent ← on_world env (send_transaction_to_layer1 env (send_acked_tx_input env info) (pos 0))
  keep_send_ack env info sent

-- With the hash of the transaction, if it was accepted.
unfoldable pub keep_reply_ack : (env : Env) → CrossTxInfo → Option Bytes → Exec (Agent env) Bool
keep_reply_ack env info none = pure false
keep_reply_ack env info (some txhash) = do
  save_reply_ack_info env (some (make_cross_tx env (record info { sendacktol2hash = txhash })))
  pure true

-- Layer1ToLayer2Handle::ReplyAckToLayer2
unfoldable pub reply_ack_to_layer2 : (env : Env) → CrossTxInfo → Exec (Agent env) Bool
reply_ack_to_layer2 env info = do
  sent ← on_world env (send_transaction_to_layer2 env (send_acked_tx_input env info) (pos 0))
  keep_reply_ack env info sent
