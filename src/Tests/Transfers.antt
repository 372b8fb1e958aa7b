-- ===== src/Tests/Transfers.antt =====
-- Runs of the handlers of the contracts' events.
use crosschain_agent.Glue.Layer1ToLayer2
use crosschain_agent.Glue.Layer2ToLayer1
use crosschain_agent.Transaction.{
  add_layer1_operation, make_layer1_transaction, add_layer2_operation, make_layer2_transaction,
}
use crosschain_agent.WebClient.{
  submit_layer1_transaction, submit_layer2_transaction, int_at, string_at, get_layer_seq,
}
use crosschain_agent.Prelude.{Bytes, codes, ◌∷◌, ◌≡◌, [], some, refl, bytes_eq, true, ℤ, ◌++◌, pos}
use crosschain_agent.Tests.Network.{
  Script, test_env, fresh, first_text, second_text, transfer, test_env-DbLaws,
}
use crosschain_agent.Glue.Node.{
  Agent, l1_send_tx, l1_send_ack, l2_send_tx, l2_send_ack, l1_reply_ack, l2_reply_ack, l2_start_tx,
}
use crosschain_agent.WebClient.Query.{get_layer1_cross_tx_info, get_layer2_cross_tx_info}
use crosschain_agent.Strings.Items.{render, join}
use crosschain_agent.Strings.{to_string, strip_brackets, getline_all, stol, stoi}
use crosschain_agent.Exec.{done, ◌>>=◌}
use crosschain_agent.Glue.Printed.{on_chain}
use crosschain_agent.Glue.Submit.{send_transaction}
use crosschain_agent.Glue.Layer1ToLayer2.Handover.{
  layer1_handle_send_tx_event_accepted, layer1_handle_send_ackd_tx_event_accepted,
}
use crosschain_agent.Exec.Refusals.{OnFalse}
use crosschain_agent.Glue.Node.Unchanged.{Unchanged}
use crosschain_agent.Glue.Layer2ToLayer1.Refusals.{layer2_false-Unchanged}
use crosschain_agent.Glue.Node.Move.{IsMoved}
use crosschain_agent.Glue.Layer2ToLayer1.Handover.{
  layer2_handle_send_tx_event_accepted, layer2_handle_send_ackd_tx_event_accepted,
}
use crosschain_agent.General.{cross_result_success}
use crosschain_agent.Glue.Node.Saved.{IsSaved}
use crosschain_agent.Glue.Layer1ToLayer2.Admission.{layer1_handle_start_tx_event_accepted}
use crosschain_agent.Glue.Layer2ToLayer1.Admission.{
  layer2_handle_start_tx_event_accepted, forward_accepted,
}

-- The answers to a handler that reads a transfer and sends a transaction.
abbrev script_of : Bytes → Script
script_of last = codes "first" ∷ codes "second" ∷ codes "ledger" ∷ last ∷ []

abbrev good : Agent test_env
good = fresh (script_of (codes "accepted"))

abbrev bad : Agent test_env
bad = fresh (script_of (codes "refused"))

-- The answers after the two queries.
abbrev pub after_queries : Bytes → Script
after_queries last = codes "ledger" ∷ last ∷ []

found1 :
    (last : Bytes)
    → get_layer1_cross_tx_info test_env (codes "one") (codes "t1") (script_of last)
      ≡ done (some (first_text, second_text), after_queries last)
unfolding get_layer1_cross_tx_info bytes_eq
found1 last = refl

found2 :
    (last : Bytes)
    → get_layer2_cross_tx_info test_env (codes "two") (codes "t1") (script_of last)
      ≡ done (some (first_text, second_text), after_queries last)
unfolding get_layer2_cross_tx_info bytes_eq
found2 last = refl

made1 :
    {S : Type 0} (s : S)
    → Layer1ToLayer2.Parse.make_cross_tx_info first_text second_text s
      ≡ done (some (on_chain transfer), s)
unfolding Layer1ToLayer2.Parse.make_cross_tx_info Layer1ToLayer2.Parse.read_items
    Layer1ToLayer2.Parse.item_or_empty render join to_string strip_brackets getline_all stol stoi
    ◌>>=◌
made1 s = refl

made2 :
    {S : Type 0} (s : S)
    → Layer2ToLayer1.Parse.make_cross_tx_info first_text second_text s
      ≡ done (some (on_chain transfer), s)
unfolding Layer2ToLayer1.Parse.make_cross_tx_info Layer2ToLayer1.Parse.read_items
    Layer2ToLayer1.Parse.item_or_empty render join to_string strip_brackets getline_all stol stoi
    ◌>>=◌
made2 s = refl

pub one_accepted1 :
    (input : Bytes) (amount : ℤ)
    → Layer1ToLayer2.Send.send_transaction_to_layer1 test_env input amount
        (after_queries (codes "accepted"))
      ≡ done (some (codes "h1"), [])
unfolding Layer1ToLayer2.Send.send_transaction_to_layer1 send_transaction bytes_eq
    add_layer1_operation make_layer1_transaction submit_layer1_transaction int_at string_at
one_accepted1 input amount = refl

pub one_accepted2 :
    (input : Bytes) (amount : ℤ)
    → Layer1ToLayer2.Send.send_transaction_to_layer2 test_env input amount
        (after_queries (codes "accepted"))
      ≡ done (some (codes "h1"), [])
unfolding Layer1ToLayer2.Send.send_transaction_to_layer2 send_transaction bytes_eq
    add_layer2_operation make_layer2_transaction submit_layer2_transaction int_at string_at
one_accepted2 input amount = refl

pub two_accepted1 :
    (input : Bytes) (amount : ℤ)
    → Layer2ToLayer1.Send.send_transaction_to_layer1 test_env input amount
        (after_queries (codes "accepted"))
      ≡ done (some (codes "h1"), [])
unfolding Layer2ToLayer1.Send.send_transaction_to_layer1 send_transaction bytes_eq
    add_layer1_operation make_layer1_transaction submit_layer1_transaction int_at string_at
two_accepted1 input amount = refl

pub two_accepted2 :
    (input : Bytes) (amount : ℤ)
    → Layer2ToLayer1.Send.send_transaction_to_layer2 test_env input amount
        (after_queries (codes "accepted"))
      ≡ done (some (codes "h1"), [])
unfolding Layer2ToLayer1.Send.send_transaction_to_layer2 send_transaction bytes_eq
    add_layer2_operation make_layer2_transaction submit_layer2_transaction int_at string_at
two_accepted2 input amount = refl

layer1_handle_send_tx_event_accepted_example :
    (s' : Agent test_env) × (Layer1ToLayer2.Events.handle_send_tx_event test_env (codes "t1") good
      ≡ done (true, s'))
    × IsMoved test_env l1_send_tx l1_send_ack
        (codes "t1")
        (codes "t1")
        (test_env.serialize (record (on_chain transfer) {
          status = cross_result_success;
          sendacktol1hash = codes "h1";
        }))
        s'
unfolding Layer1ToLayer2.Events.endpoint2
layer1_handle_send_tx_event_accepted_example =
    layer1_handle_send_tx_event_accepted test_env (codes "t1") good
      (after_queries (codes "accepted")) [] first_text second_text (on_chain transfer) (codes "h1")
      test_env-DbLaws (found2 _) (made1 _) (one_accepted1 _ _)

layer1_handle_send_ackd_tx_event_accepted_example :
    (s' : Agent test_env) × (Layer1ToLayer2.Events.handle_send_ackd_tx_event test_env
        (codes "t1")
        good
      ≡ done (true, s'))
    × IsMoved test_env l1_send_ack l1_reply_ack
        (codes "t1")
        (codes "t1")
        (test_env.serialize (record (on_chain transfer) { sendacktol2hash = codes "h1" }))
        s'
unfolding Layer1ToLayer2.Events.endpoint1
layer1_handle_send_ackd_tx_event_accepted_example =
    layer1_handle_send_ackd_tx_event_accepted test_env (codes "t1") good
      (after_queries (codes "accepted")) [] first_text second_text (on_chain transfer) (codes "h1")
      test_env-DbLaws (found1 _) (made1 _) (one_accepted2 _ _)

layer2_handle_send_tx_event_accepted_example :
    (s' : Agent test_env) × (Layer2ToLayer1.Events.handle_send_tx_event test_env (codes "t1") good
      ≡ done (true, s'))
    × IsMoved test_env l2_send_tx l2_send_ack
        (codes "t1")
        (codes "t1")
        (test_env.serialize (record (on_chain transfer) {
          status = cross_result_success;
          sendacktol2hash = codes "h1";
        }))
        s'
unfolding Layer2ToLayer1.Events.endpoint1
layer2_handle_send_tx_event_accepted_example =
    layer2_handle_send_tx_event_accepted test_env (codes "t1") good
      (after_queries (codes "accepted")) [] first_text second_text (on_chain transfer) (codes "h1")
      test_env-DbLaws (found1 _) (made2 _) (two_accepted2 _ _)

layer2_handle_send_ackd_tx_event_accepted_example :
    (s' : Agent test_env) × (Layer2ToLayer1.Events.handle_send_ackd_tx_event test_env
        (codes "t1")
        good
      ≡ done (true, s'))
    × IsMoved test_env l2_send_ack l2_reply_ack
        (codes "t1")
        (codes "t1")
        (test_env.serialize (record (on_chain transfer) { sendacktol1hash = codes "h1" }))
        s'
unfolding Layer2ToLayer1.Events.endpoint2
layer2_handle_send_ackd_tx_event_accepted_example =
    layer2_handle_send_ackd_tx_event_accepted test_env (codes "t1") good
      (after_queries (codes "accepted")) [] first_text second_text (on_chain transfer) (codes "h1")
      test_env-DbLaws (found2 _) (made2 _) (two_accepted1 _ _)

layer1_handle_start_tx_event_accepted_example :
    (s' : Agent test_env) × (Layer1ToLayer2.Events.handle_start_tx_event test_env (codes "t1") good
      ≡ done (true, s'))
    × IsSaved test_env l1_send_tx
        (codes "t1")
        (test_env.serialize (record (on_chain transfer) { sendtxhash = codes "h1" }))
        s'
unfolding Layer1ToLayer2.Events.endpoint1
layer1_handle_start_tx_event_accepted_example =
    layer1_handle_start_tx_event_accepted test_env test_env-DbLaws (codes "t1") good
      (after_queries (codes "accepted")) [] first_text second_text (on_chain transfer) (codes "h1")
      (found1 _) (made1 _) (one_accepted2 _ _)

-- The transaction on layer 2 is refused, and then the acknowledgement is accepted.
abbrev refused_once : Agent test_env
refused_once = fresh (script_of (codes "refused") ++ after_queries (codes "accepted"))

layer2_false-Unchanged_example :
    OnFalse
      (Unchanged test_env bad)
      (Layer2ToLayer1.Events.handle_start_tx_event test_env (codes "t1") bad)
    × OnFalse
        (Unchanged test_env bad)
        (Layer2ToLayer1.Events.handle_send_tx_event test_env (codes "t1") bad)
    × OnFalse
        (Unchanged test_env bad)
        (Layer2ToLayer1.Events.handle_send_ackd_tx_event test_env (codes "t1") bad)
layer2_false-Unchanged_example = layer2_false-Unchanged test_env (codes "t1") bad

ledger_known :
    get_layer_seq test_env (codes "two") (after_queries (codes "accepted"))
    ≡ done (some (pos 7), codes "accepted" ∷ [])
unfolding get_layer_seq bytes_eq
ledger_known = refl

layer2_handle_start_tx_event_accepted_example :
    (s' : Agent test_env) × (Layer2ToLayer1.Events.handle_start_tx_event test_env (codes "t1") good
      ≡ done (true, s'))
    × (s'.world ≡ codes "accepted" ∷ [])
    × IsSaved test_env l2_start_tx
        (codes "t1")
        (test_env.serialize (record (on_chain transfer) { confirmseq = pos 7 }))
        s'
unfolding Layer2ToLayer1.Events.endpoint2
layer2_handle_start_tx_event_accepted_example =
    layer2_handle_start_tx_event_accepted test_env test_env-DbLaws (codes "t1") good
      (after_queries (codes "accepted")) (codes "accepted" ∷ []) first_text second_text
      (on_chain transfer) (pos 7) (found2 _) (made2 _) ledger_known

forward_accepted_example :
    (s' : Agent test_env) × (Layer2ToLayer1.Events.forward test_env transfer
        (pos 40)
        (fresh (after_queries (codes "accepted")))
      ≡ done (tt, s'))
    × IsMoved test_env l2_start_tx l2_send_tx
        (codes "t1")
        (codes "t1")
        (test_env.serialize (record transfer { sendtxhash = codes "h1" }))
        s'
forward_accepted_example =
    forward_accepted test_env test_env-DbLaws transfer (pos 40)
      (fresh (after_queries (codes "accepted"))) [] (codes "h1") refl (two_accepted1 _ _)
