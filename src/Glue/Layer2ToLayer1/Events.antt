-- ===== src/Glue/Layer2ToLayer1/Events.antt =====
-- Layer2ToLayer1Handle: what it does at the events of the contracts.
use crosschain_agent.Prelude.{
  Bytes, Option, ℤ, some, Bool, if◌then◌else◌, none, false, ltb_ℤ, leb_ℤ, true,
}
use crosschain_agent.Messages.{CrossTxInfo}
use crosschain_agent.Glue.Layer2ToLayer1.Parse.{make_cross_tx_info}
use crosschain_agent.Env.{Env, high_resolution}
use crosschain_agent.Exec.{pure, ◌>>=◌, Exec, ◌>>◌}
use crosschain_agent.Glue.Layer2ToLayer1.Maps.{
  save_start_tx_info, clear_send_tx_info, clear_send_ack_info, clear_start_tx_info,
}
use crosschain_agent.Glue.Node.{on_world, range_for, Agent, l2_start_tx}
use crosschain_agent.Glue.Layer2ToLayer1.Send.{
  send_ack_to_layer2, reply_ack_to_layer1, send_tx_to_layer1,
}
use crosschain_agent.WebClient.{get_layer_seq}
use crosschain_agent.WebClient.Query.{get_layer2_cross_tx_info, get_layer1_cross_tx_info}
use crosschain_agent.General.{CrossTx, cross_result_success, make_cross_tx, cross_result_timeout}

unfoldable pub endpoint1 : Env → Bytes
endpoint1 env = env.configure.layer1_configure.http_endpoint

unfoldable pub endpoint2 : Env → Bytes
endpoint2 env = env.configure.layer2_configure.http_endpoint

-- The record of a transfer from the answers of the two view functions, if there are any.
unfoldable pub read_cross_tx : {S : Type 0} → Option (Bytes × Bytes) → Exec S (Option CrossTxInfo)
read_cross_tx none = pure none
read_cross_tx (some (cross_txinfo1, cross_txinfo2)) = make_cross_tx_info cross_txinfo1 cross_txinfo2

unfoldable pub keep_start : (env : Env) → CrossTxInfo → Option ℤ → Exec (Agent env) Bool
keep_start env info none = pure false
keep_start env info (some layer2_seq) = do
  save_start_tx_info env (some (make_cross_tx env (record info { confirmseq = layer2_seq })))
  pure true

unfoldable pub start_transfer : (env : Env) → Option CrossTxInfo → Exec (Agent env) Bool
start_transfer env none = pure false
start_transfer env (some info) = do
  seq ← on_world env (get_layer_seq env (endpoint2 env))
  keep_start env info seq

-- Layer2ToLayer1Handle::HandleStartTxEvent
unfoldable pub handle_start_tx_event : (env : Env) → Bytes → Exec (Agent env) Bool
handle_start_tx_event env cross_txid = do
  found ← on_world env (get_layer2_cross_tx_info env (endpoint2 env) cross_txid)
  info ← read_cross_tx found
  start_transfer env info

unfoldable pub acknowledge : (env : Env) → Bytes → ℤ → Option CrossTxInfo → Exec (Agent env) Bool
acknowledge env cross_txid status none = pure false
acknowledge env cross_txid status (some info) = do
  sent ← send_ack_to_layer2 env (record info { status = status })
  if sent then (do clear_send_tx_info env cross_txid; pure true) else pure false

-- Layer2ToLayer1Handle::handleSendTxEvent
unfoldable pub acknowledge_send_tx : (env : Env) → Bytes → ℤ → Exec (Agent env) Bool
acknowledge_send_tx env cross_txid status = do
  found ← on_world env (get_layer1_cross_tx_info env (endpoint1 env) cross_txid)
  info ← read_cross_tx found
  acknowledge env cross_txid status info

-- Layer2ToLayer1Handle::HandleSendTxEvent
unfoldable pub handle_send_tx_event : (env : Env) → Bytes → Exec (Agent env) Bool
handle_send_tx_event env cross_txid = acknowledge_send_tx env cross_txid cross_result_success

unfoldable pub reply : (env : Env) → Bytes → Option CrossTxInfo → Exec (Agent env) Bool
reply env cross_txid none = pure false
reply env cross_txid (some info) = do
  sent ← reply_ack_to_layer1 env info
  if sent then (do clear_send_ack_info env cross_txid; pure true) else pure false

-- Layer2ToLayer1Handle::HandleSendAckdTxEvent
unfoldable pub handle_send_ackd_tx_event : (env : Env) → Bytes → Exec (Agent env) Bool
handle_send_ackd_tx_event env cross_txid = do
  found ← on_world env (get_layer2_cross_tx_info env (endpoint2 env) cross_txid)
  info ← read_cross_tx found
  reply env cross_txid info

-- A start that layer 1 has confirmed: too late, or ready to be sent.
unfoldable pub forward : (env : Env) → CrossTxInfo → ℤ → Exec (Agent env) Unit
forward env info current_time =
    if ltb_ℤ info.timeout current_time
    then (do send_ack_to_layer2 env (record info { status = cross_result_timeout }); pure tt)
    else (do
      sent ← send_tx_to_layer1 env info
      if sent then (do clear_start_tx_info env info.crosstxid; pure tt) else pure tt)

-- The body of the loop of HandleConfirmSeqEvent.
unfoldable pub check_confirm_seq : (env : Env) → ℤ → Bytes → CrossTx → Exec (Agent env) Unit
check_confirm_seq env confirm_seq k c = do
  current_time ← on_world env (high_resolution env)
  let info = (env.parse c.cross_tx_info).1
  if leb_ℤ info.confirmseq confirm_seq then forward env info current_time else pure tt

-- Layer2ToLayer1Handle::HandleConfirmSeqEvent
unfoldable pub handle_confirm_seq_event : (env : Env) → ℤ → Exec (Agent env) Bool
handle_confirm_seq_event env confirm_seq = do
  range_for env l2_start_tx (check_confirm_seq env confirm_seq)
  pure true
