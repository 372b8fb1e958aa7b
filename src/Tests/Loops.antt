-- ===== src/Tests/Loops.antt =====
-- Runs of the timer, and of whole sequences of events.
use crosschain_agent.Glue.Layer1ToLayer2
use crosschain_agent.Glue.Layer2ToLayer1
use crosschain_agent.Glue.Layer1ToLayer2.Invariants.{layer1}
use crosschain_agent.Glue.Layer2ToLayer1.Invariants.{layer2}
use crosschain_agent.Prelude.{
  List, ℤ, add_int64, codes, bytes_eq, [], pos, ◌∷◌, ◌≡◌, true, some, refl,
}
use crosschain_agent.Glue.Node.{Agent, l1_send_ack, db_key}
use crosschain_agent.Exec.Keeps.{After}
use crosschain_agent.General.{make_cross_tx, CrossTx}
use crosschain_agent.Tests.Network.{
  Script, test_env, fresh, transfer, test_env-DbLaws, fresh-IsConsistent,
}
use crosschain_agent.Map.{find}
use crosschain_agent.Glue.HandleManager.{Event, layer2_message, run, timer}
use crosschain_agent.Glue.Consistency.{IsConsistent, run-IsConsistent}
use crosschain_agent.Glue.Consistency.Frame.{Untouched, layer1-Untouched, layer2-Untouched}
use crosschain_agent.Glue.Node.Stable.{set_deadline}
use crosschain_agent.Exec.{done, fault, dangling}
use crosschain_agent.Glue.Layer1ToLayer2.Idle.{layer1_time_outs_idle}
use crosschain_agent.Glue.Layer2ToLayer1.Idle.{layer2_time_outs_idle}
use crosschain_agent.Glue.Layer2ToLayer1.Hazards.{
  start_tx_time_out_dangling, handle_confirm_seq_event_dangling,
}
use crosschain_agent.Env.{GetStatus}
use crosschain_agent.Glue.Layer1ToLayer2.Hazards.{send_ack_to_layer1_again}
use crosschain_agent.Tests.Transfers.{after_queries, two_accepted2, two_accepted1, one_accepted1}

-- A layer-2 message about a transfer, whose acknowledgement is accepted, and then the timer.
abbrev busy : Agent test_env
busy = fresh (codes "first" ∷ codes "second" ∷ codes "ledger" ∷ codes "accepted" ∷ [])

abbrev pub two_events : List Event
two_events = layer2_message (codes "sent on layer 2") ∷ timer (pos 100) ∷ []

run-IsConsistent_example : After (IsConsistent test_env) (run test_env two_events busy)
run-IsConsistent_example =
    run-IsConsistent test_env test_env-DbLaws two_events busy (fresh-IsConsistent _)

layer1-Untouched_example :
    After
      (Untouched test_env layer1 busy)
      (Layer1ToLayer2.Events.handle_start_tx_event test_env (codes "t1") busy)
    × After
        (Untouched test_env layer1 busy)
        (Layer1ToLayer2.Events.handle_send_tx_event test_env (codes "t1") busy)
    × After
        (Untouched test_env layer1 busy)
        (Layer1ToLayer2.Events.handle_send_ackd_tx_event test_env (codes "t1") busy)
    × After
        (Untouched test_env layer1 busy)
        (Layer1ToLayer2.TimeOuts.on_timer test_env (pos 100) busy)
layer1-Untouched_example = layer1-Untouched test_env test_env-DbLaws busy (codes "t1") (pos 100)

layer2-Untouched_example :
    After
      (Untouched test_env layer2 busy)
      (Layer2ToLayer1.Events.handle_start_tx_event test_env (codes "t1") busy)
    × After
        (Untouched test_env layer2 busy)
        (Layer2ToLayer1.Events.handle_send_tx_event test_env (codes "t1") busy)
    × After
        (Untouched test_env layer2 busy)
        (Layer2ToLayer1.Events.handle_send_ackd_tx_event test_env (codes "t1") busy)
    × After
        (Untouched test_env layer2 busy)
        (Layer2ToLayer1.Events.handle_confirm_seq_event test_env (pos 3) busy)
    × After
        (Untouched test_env layer2 busy)
        (Layer2ToLayer1.TimeOuts.on_timer test_env (pos 100) busy)
layer2-Untouched_example =
    layer2-Untouched test_env test_env-DbLaws busy (codes "t1") (pos 3) (pos 100)

-- A transfer in every map, with the given deadline.
abbrev waiting : ℤ → CrossTx
waiting z = set_deadline z (make_cross_tx test_env (record transfer { timeout = z }))

abbrev full : ℤ → Script → Agent test_env
full z script = record { world = script; db = []; tables = λ t. (codes "t1", waiting z) ∷ [] }

layer1_time_outs_idle_example :
    (Layer1ToLayer2.TimeOuts.send_tx_to_layer2_time_out test_env (full (pos 200) [])
      ≡ done (true, full (pos 200) []))
    × (Layer1ToLayer2.TimeOuts.send_ack_to_layer1_time_out test_env (full (pos 200) [])
        ≡ done (true, full (pos 200) []))
    × (Layer1ToLayer2.TimeOuts.reply_ack_to_layer2_time_out test_env (full (pos 200) [])
        ≡ done (true, full (pos 200) []))
unfolding make_cross_tx add_int64
layer1_time_outs_idle_example =
    layer1_time_outs_idle test_env (full (pos 200) []) (λ t. (tt, tt)) (refl, tt)
      ((pos 60_000_200, refl, refl), tt) ((pos 60_000_200, refl, refl), tt)

layer2_time_outs_idle_example :
    (Layer2ToLayer1.TimeOuts.start_tx_time_out test_env (full (pos 200) [])
      ≡ done (true, full (pos 200) []))
    × (Layer2ToLayer1.TimeOuts.send_tx_to_layer1_time_out test_env (full (pos 200) [])
        ≡ done (true, full (pos 200) []))
    × (Layer2ToLayer1.TimeOuts.send_ack_to_layer2_time_out test_env (full (pos 200) [])
        ≡ done (true, full (pos 200) []))
    × (Layer2ToLayer1.TimeOuts.reply_ack_to_layer1_time_out test_env (full (pos 200) [])
        ≡ done (true, full (pos 200) []))
unfolding make_cross_tx add_int64
layer2_time_outs_idle_example =
    layer2_time_outs_idle test_env (full (pos 200) []) (λ t. (tt, tt)) (refl, tt) (refl, tt)
      ((pos 60_000_200, refl, refl), tt) ((pos 60_000_200, refl, refl), tt)

abbrev sending : Script
sending = after_queries (codes "accepted")

start_tx_time_out_dangling_example :
    Layer2ToLayer1.TimeOuts.start_tx_time_out test_env (full (pos 50) sending) ≡ fault dangling
unfolding make_cross_tx bytes_eq
start_tx_time_out_dangling_example =
    start_tx_time_out_dangling test_env (full (pos 50) sending) (codes "t1") (waiting (pos 50)) []
      (codes "h1") [] refl refl (two_accepted2 _ _)

handle_confirm_seq_event_dangling_example :
    Layer2ToLayer1.Events.handle_confirm_seq_event test_env (pos 3) (full (pos 50) sending)
    ≡ fault dangling
unfolding make_cross_tx bytes_eq
handle_confirm_seq_event_dangling_example =
    handle_confirm_seq_event_dangling test_env (full (pos 50) sending) (codes "t1")
      (waiting (pos 50)) [] (codes "h1") [] (pos 3) refl refl refl refl (two_accepted1 _ _)

send_ack_to_layer1_again_example :
    (s' : Agent test_env) × (Layer1ToLayer2.Send.send_ack_to_layer1 test_env transfer
        (full (pos 50) sending)
      ≡ done (true, s'))
    × (find (codes "t1") (s'.tables l1_send_ack) ≡ some (waiting (pos 50)))
    × (test_env.db_get (db_key l1_send_ack (codes "t1")) s'.db
        ≡ GetStatus.ok (test_env.serialize (record transfer { sendacktol1hash = codes "h1" })))
unfolding find bytes_eq
send_ack_to_layer1_again_example =
    send_ack_to_layer1_again test_env test_env-DbLaws transfer (full (pos 50) sending)
      (waiting (pos 50)) (codes "h1") [] refl (one_accepted1 _ _)
