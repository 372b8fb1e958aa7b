-- ===== src/Glue/Layer1ToLayer2/Events.antt =====
-- Layer1ToLayer2Handle: what it does at the events of the bridge contracts.
use crosschain_agent.Prelude.{Bytes, Option, ℤ, some, Bool, none, false, if◌then◌else◌, true}
use crosschain_agent.Messages.{CrossTxInfo}
use crosschain_agent.Glue.Layer1ToLayer2.Parse.{make_cross_tx_info}
use crosschain_agent.Env.{Env}
use crosschain_agent.Exec.{pure, ◌>>=◌, Exec, ◌>>◌, raise, object_argument}
use crosschain_agent.Glue.Layer1ToLayer2.Send.{
  send_tx_to_layer2, send_ack_to_layer1, reply_ack_to_layer2,
}
use crosschain_agent.Glue.Node.{on_world, Agent}
use crosschain_agent.WebClient.Query.{get_layer1_cross_tx_info, get_layer2_cross_tx_info}
use crosschain_agent.Glue.Layer1ToLayer2.Maps.{clear_send_tx_info, clear_send_ack_info}
use crosschain_agent.General.{cross_result_success, cross_result_failed}

unfoldable pub endpoint1 : Env → Bytes
endpoint1 env = env.configure.layer1_configure.http_endpoint

unfoldable pub endpoint2 : Env → Bytes
endpoint2 env = env.configure.layer2_configure.http_endpoint

-- The record of a transfer from the answers of the two view functions, if there are any.
unfoldable pub read_cross_tx : {S : Type 0} → Option (Bytes × Bytes) → Exec S (Option CrossTxInfo)
read_cross_tx none = pure none
read_cross_tx (some (cross_txinfo1, cross_txinfo2)) = make_cross_tx_info cross_txinfo1 cross_txinfo2

-- After a refused transaction the log line that comes last hands the `std::string` cross_txid itself,
-- and not its characters, to the `...` of LogStubVm, which is undefined.
unfoldable pub start_transfer : (env : Env) → Option CrossTxInfo → Exec (Agent env) Bool
start_transfer env none = pure false
start_transfer env (some info) = do
  ret ← send_tx_to_layer2 env info
  if ret then pure ret else do
    send_ack_to_layer1 env (record info { status = cross_result_failed })
    raise object_argument

-- Layer1ToLayer2Handle::HandleStartTxEvent
unfoldable pub handle_start_tx_event : (env : Env) → Bytes → Exec (Agent env) Bool
handle_start_tx_event env cross_txid = do
  found ← on_world env (get_layer1_cross_tx_info env (endpoint1 env) cross_txid)
  info ← read_cross_tx found
  start_transfer env info

unfoldable pub acknowledge : (env : Env) → Bytes → ℤ → Option CrossTxInfo → Exec (Agent env) Bool
acknowledge env cross_txid status none = pure false
acknowledge env cross_txid status (some info) = do
  sent ← send_ack_to_layer1 env (record info { status = status })
  if sent then (do clear_send_tx_info env cross_txid; pure true) else pure false

-- Layer1ToLayer2Handle::handleSendTxEvent
unfoldable pub acknowledge_send_tx : (env : Env) → Bytes → ℤ → Exec (Agent env) Bool
acknowledge_send_tx env cross_txid status = do
  found ← on_world env (get_layer2_cross_tx_info env (endpoint2 env) cross_txid)
  info ← read_cross_tx found
  acknowledge env cross_txid status info

-- Layer1ToLayer2Handle::HandleSendTxEvent
unfoldable pub handle_send_tx_event : (env : Env) → Bytes → Exec (Agent env) Bool
handle_send_tx_event env cross_txid = acknowledge_send_tx env cross_txid cross_result_success

unfoldable pub reply : (env : Env) → Bytes → Option CrossTxInfo → Exec (Agent env) Bool
reply env cross_txid none = pure false
reply env cross_txid (some info) = do
  sent ← reply_ack_to_layer2 env info
  if sent then (do clear_send_ack_info env cross_txid; pure true) else pure false

-- Layer1ToLayer2Handle::HandleSendAckdTxEvent
unfoldable pub handle_send_ackd_tx_event : (env : Env) → Bytes → Exec (Agent env) Bool
handle_send_ackd_tx_event env cross_txid = do
  found ← on_world env (get_layer1_cross_tx_info env (endpoint1 env) cross_txid)
  info ← read_cross_tx found
  reply env cross_txid info
