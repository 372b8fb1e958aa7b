-- ===== src/Glue/HandleManager.antt =====
-- HandleManager of src/glue/handle_manager.cpp: it hands the events of the two chains and the timer to
-- the two directions of the bridge.
pub mod Dispatch
pub mod Balance
pub mod Invariants
pub mod Refusals
use crosschain_agent.Prelude.{
  Bytes, ℤ, Option, add_int64, List, mul_int64, Bool, pos, false, if◌then◌else◌, codes, get_elem?,
  bytes_eq, true, eqb_ℤ, not, some, ◌∷◌, ltb_ℤ, none, String, [],
}
use crosschain_agent.Env.{
  Document, Fields, Env, HttpResult, object, field, success, text, failure, end,
}
use crosschain_agent.Messages.{TlogSubscribeResponse, ManagerContractTlog, Tlog, TopicType}
use crosschain_agent.Glue.Layer1ToLayer2
use crosschain_agent.Glue.Layer2ToLayer1
use crosschain_agent.Exec.{◌>>=◌, pure, expect, Exec, out_of_range, ◌>>◌}
use crosschain_agent.Transaction.{
  get_transaction_blob, add_layer2_operation, make_layer2_transaction,
}
use crosschain_agent.WebClient.{
  get_layer_seq, get_balance, submit_layer2_transaction, at_key, int_at, string_at,
}
use crosschain_agent.Glue.Node.{on_world, Agent}
use crosschain_agent.Glue.Submit.{request_body}
use crosschain_agent.General.{micro_units_per_sec}
use crosschain_agent.Strings.{to_string, hex_string_to_bin}

-- `period * 60` seconds and half an hour, in microseconds.
unfoldable pub period_timeout : ℤ → ℤ
period_timeout period =
    add_int64 (mul_int64 (mul_int64 period (pos 60)) micro_units_per_sec) (pos 1_800_000_000)

-- What the answer to the new timeout says. The description of an error is read for the log, which may
-- throw.
unfoldable pub read_update : (env : Env) → Option env.Json → Exec env.World Bool
read_update env none = pure false
read_update env (some response_body) = do
  results ← at_key env response_body (codes "results")
  error_code ← int_at env results (codes "error_code")
  if not (eqb_ℤ error_code (pos 0))
      then (do
        results_again ← at_key env response_body (codes "results")
        error_desc ← string_at env results_again (codes "error_desc")
        pure false)
      else do
        results_again ← at_key env response_body (codes "results")
        hash ← string_at env results_again (codes "hash")
        pure true

unfoldable pub answer_update : (env : Env) → HttpResult → Exec env.World Bool
answer_update env failure = pure false
answer_update env (success body) = read_update env (env.from_string body)

unfoldable pub set_timeout_input : Env → ℤ → Bytes
set_timeout_input env timeout = env.to_styled_string (
    object (
      field (codes "function") (text (codes "SetTimeout(uint256)"))
        (field (codes "args") (text (to_string timeout)) end)))

unfoldable pub submit_update : (env : Env) → ℤ → Option ℤ → Exec env.World Bool
submit_update env period none = pure false
submit_update env period (some layer2_seq) = do
  let c = env.configure
  let endpoint = c.layer2_configure.http_endpoint
  let input = set_timeout_input env (period_timeout period)
  tran_blob ←
      get_transaction_blob env (add_layer2_operation c (make_layer2_transaction c) input (pos 0))
        (add_int64 layer2_seq (pos 200))
  response ←
      submit_layer2_transaction env endpoint
        (request_body env c.layer2_configure.private_key tran_blob)
  answer_update env response

-- HandleManager::updatePeriodToLayer2CrossContract
unfoldable pub update_period_to_layer2 : (env : Env) → ℤ → Exec env.World Bool
update_period_to_layer2 env period = do
  layer2_seq ← get_layer_seq env env.configure.layer2_configure.http_endpoint
  submit_update env period layer2_seq

-- `tlog_res.tlogs(0)` and its `tlog(0)`.
unfoldable pub first_tlog : {S : Type 0} → TlogSubscribeResponse → Exec S Tlog
first_tlog tlog_res = expect out_of_range (get_elem? tlog_res.tlogs 0)

unfoldable pub first_item : {S : Type 0} → Tlog → Exec S Bytes
first_item tlog = expect out_of_range (get_elem? tlog.tlog 0)

-- HandleManager::OnLayer1CrossContractTlog
unfoldable pub on_layer1_cross_contract_tlog :
    (env : Env) → TlogSubscribeResponse → Exec (Agent env) Bool
on_layer1_cross_contract_tlog env tlog_res = do
  tlog ← first_tlog tlog_res
  cross_tx_id ← first_item tlog
  let c = env.configure.layer1_configure
  if bytes_eq tlog.topic c.start_tx_topic
      then Layer1ToLayer2.Events.handle_start_tx_event env cross_tx_id
      else if bytes_eq tlog.topic c.send_tx_topic
      then Layer2ToLayer1.Events.handle_send_tx_event env cross_tx_id
      else if bytes_eq tlog.topic c.ack_tx_topic
      then Layer1ToLayer2.Events.handle_send_ackd_tx_event env cross_tx_id
      else pure false

-- One entry of a log of the manager contract, by its type.
unfoldable pub manager_event : (env : Env) → ManagerContractTlog → TopicType → Exec (Agent env) Unit
manager_event env log TopicType.submit = do
  Layer2ToLayer1.Events.handle_confirm_seq_event env log.submit_confirm_seq
  pure tt
manager_event env log TopicType.update_period = do
  on_world env (update_period_to_layer2 env log.update_period_period)
  pure tt
manager_event env log _ = pure tt

unfoldable pub manager_item : (env : Env) → Option ManagerContractTlog → Exec (Agent env) Bool
manager_item env none = pure false
manager_item env (some log) = do manager_event env log log.tlog_type; pure true

-- The loop over the entries; one that cannot be parsed ends it.
unfoldable pub manager_loop : (env : Env) → List Bytes → Exec (Agent env) Bool
manager_loop env [] = pure true
manager_loop env (item ∷ items) = do
  parsed ← manager_item env (env.parse_manager_tlog (hex_string_to_bin item))
  if parsed then manager_loop env items else pure false

-- HandleManager::OnLayer1ManagerContractTlog
unfoldable pub on_layer1_manager_contract_tlog :
    (env : Env) → TlogSubscribeResponse → Exec (Agent env) Bool
on_layer1_manager_contract_tlog env tlog_res = do
  tlog ← first_tlog tlog_res
  manager_loop env tlog.tlog

unfoldable pub layer1_response : (env : Env) → Option TlogSubscribeResponse → Exec (Agent env) Bool
layer1_response env none = pure false
layer1_response env (some tlog_res) =
    if bytes_eq tlog_res.address env.configure.layer1_configure.cross_contract
    then on_layer1_cross_contract_tlog env tlog_res
    else if bytes_eq tlog_res.address env.configure.layer1_configure.manager_contract
    then on_layer1_manager_contract_tlog env tlog_res
    else pure false

-- HandleManager::OnLayer1SubscribeResponse
unfoldable pub on_layer1_subscribe_response : (env : Env) → Bytes → Exec (Agent env) Bool
on_layer1_subscribe_response env msg = layer1_response env (env.parse_tlog_response msg)

unfoldable pub layer2_response : (env : Env) → Option TlogSubscribeResponse → Exec (Agent env) Bool
layer2_response env none = pure false
layer2_response env (some tlog_res) =
    let c = env.configure.layer2_configure in
    if not (bytes_eq tlog_res.address c.cross_contract) then pure false else do
      tlog ← first_tlog tlog_res
      cross_tx_id ← first_item tlog
      if bytes_eq tlog.topic c.start_tx_topic
          then Layer2ToLayer1.Events.handle_start_tx_event env cross_tx_id
          else if bytes_eq tlog.topic c.send_tx_topic
          then Layer1ToLayer2.Events.handle_send_tx_event env cross_tx_id
          else if bytes_eq tlog.topic c.ack_tx_topic
          then Layer2ToLayer1.Events.handle_send_ackd_tx_event env cross_tx_id
          else pure false

-- HandleManager::OnLayer2SubscribeResponse
unfoldable pub on_layer2_subscribe_response : (env : Env) → Bytes → Exec (Agent env) Bool
on_layer2_subscribe_response env msg = layer2_response env (env.parse_tlog_response msg)

-- 100 * fee_limit * gas_price
unfoldable pub min_balance : ℤ → ℤ → ℤ
min_balance fee_limit gas_price = mul_int64 (mul_int64 (pos 100) fee_limit) gas_price

unfoldable pub enough : Option ℤ → ℤ → Bool
enough none least = false
enough (some balance) least = not (ltb_ℤ balance least)

-- HandleManager::CheckLayer1Balance
unfoldable pub check_layer1_balance : (env : Env) → Exec env.World Bool
check_layer1_balance env = do
  let c = env.configure.layer1_configure
  balance ← get_balance env c.http_endpoint c.agent_address
  pure (enough balance (min_balance c.fee_limit c.gas_price))

-- HandleManager::CheckLayer2Balance
unfoldable pub check_layer2_balance : (env : Env) → Exec env.World Bool
check_layer2_balance env =
    let c = env.configure.layer2_configure in
    if eqb_ℤ c.gas_price (pos 0) then pure true else do
      balance ← get_balance env c.http_endpoint c.agent_address
      pure (enough balance (min_balance c.fee_limit c.gas_price))

-- HandleManager::Initialize, but for the registration with the timers.
unfoldable pub initialize : (env : Env) → Exec (Agent env) Bool
initialize env = do
  layer2_ok ← on_world env (check_layer2_balance env)
  if not layer2_ok then pure false else do
    layer1_ok ← on_world env (check_layer1_balance env)
    if not layer1_ok
        then pure false
        else do Layer1ToLayer2.Start.initialize env; Layer2ToLayer1.Start.initialize env; pure true

-- HandleManager::OnTimer
unfoldable pub on_timer : (env : Env) → ℤ → Exec (Agent env) Unit
on_timer env current_time = do
  Layer1ToLayer2.TimeOuts.on_timer env current_time
  Layer2ToLayer1.TimeOuts.on_timer env current_time
  pure tt

-- What reaches the manager: a message of a chain's node, or the main loop's call.
pub data Event : Type 0 where
  layer1_message layer2_message : Bytes → Event
  timer : ℤ → Event

unfoldable pub handle : (env : Env) → Event → Exec (Agent env) Unit
handle env (layer1_message msg) = do on_layer1_subscribe_response env msg; pure tt
handle env (layer2_message msg) = do on_layer2_subscribe_response env msg; pure tt
handle env (timer current_time) = on_timer env current_time

unfoldable pub run : (env : Env) → List Event → Exec (Agent env) Unit
run env [] = pure tt
run env (e ∷ events) = do handle env e; run env events
