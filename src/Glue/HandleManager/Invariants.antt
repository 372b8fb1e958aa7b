-- ===== src/Glue/HandleManager/Invariants.antt =====
-- What every event and every round of the timer keep: each invariant that the basic steps keep.
use crosschain_agent.Prelude.{Bool, Bytes, List, Option, [], none, refl, some, true, ℤ, ◌∷◌}
use crosschain_agent.Exec.Keeps.{Keeps, keeps_rules, Keeps-bind, Keeps-pure, Keeps-if}
use crosschain_agent.Messages.{TlogSubscribeResponse, ManagerContractTlog, Tlog, TopicType}
use crosschain_agent.Glue.Layer1ToLayer2
use crosschain_agent.Glue.Layer2ToLayer1
use crosschain_agent.Glue.Layer1ToLayer2.Invariants as One
use crosschain_agent.Glue.Layer2ToLayer1.Invariants as Two
use crosschain_agent.Glue.HandleManager.{
  first_tlog, first_item, on_layer1_cross_contract_tlog, manager_event, manager_item, manager_loop,
  on_layer1_manager_contract_tlog, layer1_response, on_layer1_subscribe_response, layer2_response,
  on_layer2_subscribe_response, on_timer, Env, Agent, handle, run, Event, on_world, layer1_message,
  layer2_message, timer,
}
use crosschain_agent.Glue.Node.{Table, Agent, on_world}
use crosschain_agent.Env.{Env}
use crosschain_agent.Glue.Node.Stable.{IsStable, Keeps-on_world}
use crosschain_agent.Exec.{Exec}

abbrev pub every : Table → Bool
every t = true

module _ (env : Env) {P : Agent env → Type 0} (st : IsStable env every P) where
  start1 : (k : Bytes) → Keeps P (Layer1ToLayer2.Events.handle_start_tx_event env k)
  start1 = One.handle_start_tx_event-Keeps env st (λ t h. refl)

  send1 : (k : Bytes) → Keeps P (Layer1ToLayer2.Events.handle_send_tx_event env k)
  send1 = One.handle_send_tx_event-Keeps env st (λ t h. refl)

  ackd1 : (k : Bytes) → Keeps P (Layer1ToLayer2.Events.handle_send_ackd_tx_event env k)
  ackd1 = One.handle_send_ackd_tx_event-Keeps env st (λ t h. refl)

  start2 : (k : Bytes) → Keeps P (Layer2ToLayer1.Events.handle_start_tx_event env k)
  start2 = Two.handle_start_tx_event-Keeps env st (λ t h. refl)

  send2 : (k : Bytes) → Keeps P (Layer2ToLayer1.Events.handle_send_tx_event env k)
  send2 = Two.handle_send_tx_event-Keeps env st (λ t h. refl)

  ackd2 : (k : Bytes) → Keeps P (Layer2ToLayer1.Events.handle_send_ackd_tx_event env k)
  ackd2 = Two.handle_send_ackd_tx_event-Keeps env st (λ t h. refl)

  confirm : (seq : ℤ) → Keeps P (Layer2ToLayer1.Events.handle_confirm_seq_event env seq)
  confirm = Two.handle_confirm_seq_event-Keeps env st (λ t h. refl)

  timer1 : (now : ℤ) → Keeps P (Layer1ToLayer2.TimeOuts.on_timer env now)
  timer1 = One.on_timer-Keeps env st (λ t h. refl)

  timer2 : (now : ℤ) → Keeps P (Layer2ToLayer1.TimeOuts.on_timer env now)
  timer2 = Two.on_timer-Keeps env st (λ t h. refl)

  world_rule : {A : Type 0} (m : Exec env.World A) → Keeps P (on_world env m)
  world_rule m = Keeps-on_world env st m

  first_tlog-Keeps : (r : TlogSubscribeResponse) → Keeps P (first_tlog r)
  unfolding first_tlog
  first_tlog-Keeps r = search keeps_rules

  first_item-Keeps : (t : Tlog) → Keeps P (first_item t)
  unfolding first_item
  first_item-Keeps t = search keeps_rules

  ruleset events = (
    keeps_rules, world_rule, start1, send1, ackd1, start2, send2, ackd2, confirm, first_tlog-Keeps,
    first_item-Keeps,
  )

  on_layer1_cross_contract_tlog-Keeps :
      (r : TlogSubscribeResponse) → Keeps P (on_layer1_cross_contract_tlog env r)
  unfolding on_layer1_cross_contract_tlog
  on_layer1_cross_contract_tlog-Keeps r = search events depth 10

  manager_event-Keeps :
      (log : ManagerContractTlog) (type : TopicType) → Keeps P (manager_event env log type)
  unfolding manager_event
  manager_event-Keeps log TopicType.submit = search events
  manager_event-Keeps log TopicType.update_period = search events
  manager_event-Keeps log _ = search events

  manager_item-Keeps : (o : Option ManagerContractTlog) → Keeps P (manager_item env o)
  unfolding manager_item
  manager_item-Keeps none = search keeps_rules
  manager_item-Keeps (some log) = search (keeps_rules, manager_event-Keeps)

  manager_loop-Keeps : (items : List Bytes) → Keeps P (manager_loop env items)
  unfolding manager_loop
  manager_loop-Keeps [] = search keeps_rules
  manager_loop-Keeps (item ∷ items) =
      Keeps-bind _ _ (manager_item-Keeps _)
        λ parsed. Keeps-if parsed _ _ (manager_loop-Keeps items) (Keeps-pure _)

  layer1_response-Keeps : (o : Option TlogSubscribeResponse) → Keeps P (layer1_response env o)
  unfolding layer1_response on_layer1_manager_contract_tlog
  layer1_response-Keeps none = search keeps_rules
  layer1_response-Keeps (some r) =
      search (events, on_layer1_cross_contract_tlog-Keeps, manager_loop-Keeps) depth 8

  layer2_response-Keeps : (o : Option TlogSubscribeResponse) → Keeps P (layer2_response env o)
  unfolding layer2_response
  layer2_response-Keeps none = search keeps_rules
  layer2_response-Keeps (some r) = search events depth 10

  on_timer-Keeps : (now : ℤ) → Keeps P (on_timer env now)
  unfolding on_timer
  on_timer-Keeps now = search (keeps_rules, timer1, timer2)

  handle-Keeps : (e : Event) → Keeps P (handle env e)
  unfolding handle on_layer1_subscribe_response on_layer2_subscribe_response
  handle-Keeps (layer1_message msg) = search (keeps_rules, layer1_response-Keeps)
  handle-Keeps (layer2_message msg) = search (keeps_rules, layer2_response-Keeps)
  handle-Keeps (timer now) = on_timer-Keeps now

  -- Any sequence of events keeps what the basic steps keep.
  pub run-Keeps : (events : List Event) → Keeps P (run env events)
  unfolding run
  run-Keeps [] = Keeps-pure _
  run-Keeps (e ∷ events) = Keeps-bind _ _ (handle-Keeps e) λ _. run-Keeps events
