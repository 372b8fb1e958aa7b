-- ===== src/Glue/HandleManager/Dispatch.antt =====
-- HandleManager: the messages of the nodes that it does not act on.
use crosschain_agent.Prelude.{
  Bool, Bool-cases, inl, inr, List, [], filter, true, ◌∷◌, Option, arith, bytes_eq, false, none,
  refl, some, ◌||◌, ◌≡◌,
}
use crosschain_agent.Env.{Env}
use crosschain_agent.Glue.HandleManager.{
  run, handle, Event, layer1_message, layer2_message, timer, layer1_response, layer2_response,
  on_layer1_subscribe_response, on_layer2_subscribe_response, TlogSubscribeResponse, Agent,
}
use crosschain_agent.Exec.{done, pure, fault, continue, Outcome, Exec, ◌>>=◌}
use crosschain_agent.Messages.{TlogSubscribeResponse}
use crosschain_agent.Glue.Node.{Agent}

-- The message parses and comes from a contract that the agent knows.
abbrev pub addressed1 : (env : Env) → Option TlogSubscribeResponse → Bool
addressed1 env none = false
addressed1 env (some r) =
    let c = env.configure.layer1_configure in
    bytes_eq r.address c.cross_contract || bytes_eq r.address c.manager_contract

abbrev pub addressed2 : (env : Env) → Option TlogSubscribeResponse → Bool
addressed2 env none = false
addressed2 env (some r) = bytes_eq r.address env.configure.layer2_configure.cross_contract

layer1_response_ignored :
    (env : Env) (r : Option TlogSubscribeResponse) (s : Agent env)
    → addressed1 env r ≡ false
    → layer1_response env r s ≡ done (false, s)
unfolding layer1_response pure
layer1_response_ignored env none s foreign = refl
layer1_response_ignored env (some r) s foreign = ground arith

layer2_response_ignored :
    (env : Env) (r : Option TlogSubscribeResponse) (s : Agent env)
    → addressed2 env r ≡ false
    → layer2_response env r s ≡ done (false, s)
unfolding layer2_response pure
layer2_response_ignored env none s foreign = refl
layer2_response_ignored env (some r) s foreign = rw foreign refl

-- The events that the manager acts on.
abbrev pub addressed : (env : Env) → Event → Bool
addressed env (layer1_message msg) = addressed1 env (env.parse_tlog_response msg)
addressed env (layer2_message msg) = addressed2 env (env.parse_tlog_response msg)
addressed env (timer current_time) = true

handle_ignored :
    (env : Env) (e : Event) (s : Agent env)
    → addressed env e ≡ false
    → handle env e s ≡ done (tt, s)
unfolding handle on_layer1_subscribe_response on_layer2_subscribe_response ◌>>=◌ pure
handle_ignored env (layer1_message msg) s foreign =
    rw (layer1_response_ignored env _ s foreign) refl
handle_ignored env (layer2_message msg) s foreign =
    rw (layer2_response_ignored env _ s foreign) refl
handle_ignored env (timer current_time) s foreign = cc

continue_alike :
    {S : Type 0} (o : Outcome (Unit {0} × S)) (m n : Exec S Unit)
    → ((s : S) → m s ≡ n s)
    → continue o (λ _. m) ≡ continue o (λ _. n)
continue_alike (done (a, s)) m n alike = alike s
continue_alike (fault f) m n alike = refl

-- Messages that do not parse, or whose address is none of the contracts of their layer, have no effect:
-- any sequence of events does what the sequence without them does, in the outside world, the maps and
-- the store, faults included.
pub run-addressed :
    (env : Env) (events : List Event) (s : Agent env)
    → run env events s ≡ run env (filter (addressed env) events) s
unfolding run ◌>>=◌
run-addressed env [] s = refl
run-addressed env (e ∷ events) s = elim (Bool-cases (addressed env e)) [
  | inl known ↦ rw known (continue_alike (handle env e s) _ _ (run-addressed env events))
  | inr foreign ↦ rw (foreign, handle_ignored env e s foreign) (run-addressed env events s)
]
