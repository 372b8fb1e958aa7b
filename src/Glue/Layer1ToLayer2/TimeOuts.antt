-- ===== src/Glue/Layer1ToLayer2/TimeOuts.antt =====
-- Layer1ToLayer2Handle: the loops over the maps that the timer runs. A body is a function of its own.
use crosschain_agent.Prelude.{Bytes, ℤ, if◌then◌else◌, Bool, some, not, ltb_ℤ, true, eqb_ℤ}
use crosschain_agent.Messages.{CrossTxInfo}
use crosschain_agent.Glue.Layer1ToLayer2.Events.{endpoint1, endpoint2, acknowledge_send_tx}
use crosschain_agent.Env.{Env, high_resolution}
use crosschain_agent.Exec.{expect, ◌>>=◌, Exec, indeterminate, ◌>>◌, pure}
use crosschain_agent.Glue.Node.{
  on_table, on_world, Table, range_for, Agent, l1_send_tx, l1_send_ack, l1_reply_ack, in_a_minute,
}
use crosschain_agent.Glue.Layer1ToLayer2.Send.{send_ack_to_layer1, reply_ack_to_layer2}
use crosschain_agent.General.{
  CrossTx, cross_result_timeout, cross_result_success, cross_result_init,
}
use crosschain_agent.Glue.Layer1ToLayer2.Maps.{
  clear_send_tx_info, clear_send_ack_info, clear_reply_ack_info,
}
use crosschain_agent.WebClient.{get_tx_result}
use crosschain_agent.WebClient.Query.{get_cross_tx_status}
use crosschain_agent.Map.{update}

-- `ParseFromString` with its result ignored.
unfoldable pub stored_info : Env → CrossTx → CrossTxInfo
stored_info env c = (env.parse c.cross_tx_info).1

-- Reading a field that may not have been written.
unfoldable pub deadline : (env : Env) → CrossTx → Exec (Agent env) ℤ
deadline env c = expect indeterminate c.send_ack_timeout

-- The write of `send_ack_timeout_` through the pointer of an entry.
unfoldable pub postpone : (env : Env) → Table → Bytes → ℤ → Exec (Agent env) Unit
postpone env t k current_time =
    on_table env t (update k (λ c. record c { send_ack_timeout = some (in_a_minute current_time) }))

unfoldable pub expire_send_tx : (env : Env) → CrossTx → Exec (Agent env) Unit
expire_send_tx env c = do
  let info = stored_info env c
  sent ← send_ack_to_layer1 env (record info { status = cross_result_timeout })
  if sent then (do clear_send_tx_info env info.crosstxid; pure tt) else pure tt

-- The body of the loop of SendTxToLayer2TimeOut.
unfoldable pub check_send_tx : (env : Env) → ℤ → Bytes → CrossTx → Exec (Agent env) Unit
check_send_tx env current_time k c =
    if not (ltb_ℤ c.send_tx_timeout current_time) then pure tt else do
      executed ← on_world env (get_tx_result env (endpoint2 env) c.send_tx_hash)
      if executed
          then (do acknowledge_send_tx env c.cross_tx_id cross_result_success; pure tt)
          else expire_send_tx env c

-- Layer1ToLayer2Handle::SendTxToLayer2TimeOut
unfoldable pub send_tx_to_layer2_time_out : (env : Env) → Exec (Agent env) Bool
send_tx_to_layer2_time_out env = do
  current_time ← on_world env (high_resolution env)
  range_for env l1_send_tx (check_send_tx env current_time)
  pure true

unfoldable pub resend_send_ack : (env : Env) → ℤ → Bytes → CrossTxInfo → Exec (Agent env) Unit
resend_send_ack env current_time k info = do
  send_ack_to_layer1 env info
  postpone env l1_send_ack k current_time

-- A failed transfer emits no event, so the transaction and then the contract's status are asked for.
unfoldable pub settle_send_ack :
    (env : Env) → ℤ → Bytes → CrossTx → CrossTxInfo → Exec (Agent env) Unit
settle_send_ack env current_time k c info = do
  executed ← on_world env (get_tx_result env (endpoint1 env) c.send_ack_to_l1_hash)
  if executed then (do clear_send_ack_info env k; pure tt) else do
    status ← on_world env (get_cross_tx_status env (endpoint1 env) k)
    if not (eqb_ℤ status cross_result_init)
        then (do clear_send_ack_info env k; pure tt)
        else resend_send_ack env current_time k info

-- The body of the loop of SendAckToLayer1TimeOut.
unfoldable pub check_send_ack : (env : Env) → ℤ → Bytes → CrossTx → Exec (Agent env) Unit
check_send_ack env current_time k c = do
  timeout ← deadline env c
  if not (ltb_ℤ timeout current_time) then pure tt else do
    let info = stored_info env c
    if eqb_ℤ info.status cross_result_success
        then resend_send_ack env current_time k info
        else settle_send_ack env current_time k c info

-- Layer1ToLayer2Handle::SendAckToLayer1TimeOut
unfoldable pub send_ack_to_layer1_time_out : (env : Env) → Exec (Agent env) Bool
send_ack_to_layer1_time_out env = do
  current_time ← on_world env (high_resolution env)
  range_for env l1_send_ack (check_send_ack env current_time)
  pure true

unfoldable pub resend_reply_ack : (env : Env) → ℤ → Bytes → CrossTxInfo → Exec (Agent env) Unit
resend_reply_ack env current_time k info = do
  reply_ack_to_layer2 env info
  postpone env l1_reply_ack k current_time

unfoldable pub settle_reply_ack :
    (env : Env) → ℤ → Bytes → CrossTx → CrossTxInfo → Exec (Agent env) Unit
settle_reply_ack env current_time k c info = do
  executed ← on_world env (get_tx_result env (endpoint2 env) c.send_ack_to_l2_hash)
  if executed then (do clear_reply_ack_info env k; pure tt) else do
    status ← on_world env (get_cross_tx_status env (endpoint2 env) k)
    if not (eqb_ℤ status cross_result_init)
        then (do clear_reply_ack_info env k; pure tt)
        else resend_reply_ack env current_time k info

-- The body of the loop of ReplyAckToLayer2TimeOut.
unfoldable pub check_reply_ack : (env : Env) → ℤ → Bytes → CrossTx → Exec (Agent env) Unit
check_reply_ack env current_time k c = do
  timeout ← deadline env c
  if not (ltb_ℤ timeout current_time)
      then pure tt
      else settle_reply_ack env current_time k c (stored_info env c)

-- Layer1ToLayer2Handle::ReplyAckToLayer2TimeOut
unfoldable pub reply_ack_to_layer2_time_out : (env : Env) → Exec (Agent env) Bool
reply_ack_to_layer2_time_out env = do
  current_time ← on_world env (high_resolution env)
  range_for env l1_reply_ack (check_reply_ack env current_time)
  pure true

-- Layer1ToLayer2Handle::OnTimer; its argument is not read.
unfoldable pub on_timer : (env : Env) → ℤ → Exec (Agent env) Unit
on_timer env current_time = do
  send_tx_to_layer2_time_out env
  send_ack_to_layer1_time_out env
  reply_ack_to_layer2_time_out env
  pure tt
