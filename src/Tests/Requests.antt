-- ===== src/Tests/Requests.antt =====
-- Runs of what the agent asks the nodes and signs.
use crosschain_agent.Database.Proxy
use crosschain_agent.Env.{Env}
use crosschain_agent.Glue.Node.{Agent}
use crosschain_agent.Glue.Layer1ToLayer2
use crosschain_agent.Glue.Layer2ToLayer1
use crosschain_agent.Prelude.{
  Bytes, List, ℤ, some, ℕ, pos, codes, [], ◌≡◌, ◌∷◌, suc, not, if◌then◌else◌, ltb, eqb_ℤ, ◌*◌,
  add_int64, refl, arith, bytes_eq, true,
}
use crosschain_agent.Messages.{Transaction}
use crosschain_agent.Glue.Submit.{check_tx_response}
use crosschain_agent.Glue.HandleManager.{
  enough, min_balance, run, Event, layer1_message, layer2_message,
}
use crosschain_agent.Exec.{Exec, done, ◌>>=◌}
use crosschain_agent.General.Timer.{timer_wrapper, make_timer, timer_wrapper_twice}
use crosschain_agent.Transaction.{make_layer1_transaction, get_transaction_blob}
use crosschain_agent.Tests.Network.{
  Script, settings1, settings2, test_env, fresh, accepted_answer, entry, single, null, int,
  test_env-EncodingLaws, str, stored, test_env-DbLaws,
}
use crosschain_agent.Strings.{hex_string_to_bin}
use crosschain_agent.Glue.Submit.Answers.{
  check_tx_response_lem, entry, nothing, all_zero, last_hash,
}
use crosschain_agent.Glue.HandleManager.Balance.{enough_lem}
use crosschain_agent.Glue.HandleManager.Dispatch.{run-addressed}
use crosschain_agent.Glue.Submit.Signature.{get_transaction_blob_lem}
use crosschain_agent.Glue.Node.Unchanged.{Unchanged}
use crosschain_agent.Map.{Map}
use crosschain_agent.Database.Contract.{read_value, db_get-db_put}

abbrev own_transaction : Transaction
own_transaction = make_layer1_transaction test_env.configure

get_transaction_blob_example :
    (sent : Transaction) × (w' : Script) × (blob : Bytes) × (get_transaction_blob test_env
        own_transaction
        (pos 207)
        []
      ≡ done (blob, w'))
    × (hex_string_to_bin blob ≡ test_env.serialize_transaction sent)
    × (sent ≡ record own_transaction {
      nonce = if eqb_ℤ own_transaction.nonce (pos 0) then pos 42 else own_transaction.nonce;
      max_ledger_seq = pos 207;
    })
get_transaction_blob_example =
    get_transaction_blob_lem test_env test_env-EncodingLaws own_transaction (pos 207) []

check_tx_response_example :
    check_tx_response test_env (codes "accepted") [] ≡ done (some (codes "h1"), [])
unfolding bytes_eq all_zero last_hash
check_tx_response_example =
    check_tx_response_lem test_env [] (codes "accepted") accepted_answer
      (single
        (entry (codes "error_code") (int (pos 0)) (entry (codes "hash") (str (codes "h1")) null)))
      ((pos 0, codes "h1") ∷ []) refl refl (entry refl refl refl refl refl refl nothing)

-- Two messages that the agent does not act on, and one that it does.
abbrev messages : List Event
messages =
    layer1_message (codes "noise")
    ∷ layer2_message (codes "sent on layer 2")
    ∷ layer2_message (codes "from elsewhere")
    ∷ []

run-addressed_example :
    run test_env messages (fresh [])
    ≡ run test_env (layer2_message (codes "sent on layer 2") ∷ []) (fresh [])
unfolding bytes_eq
run-addressed_example = run-addressed test_env messages (fresh [])

enough_example : enough (some (pos 700)) (min_balance (pos 2) (pos 3)) ≡ not (ltb 700 (100 * 2 * 3))
enough_example = enough_lem 700 2 3 (ground arith) (ground arith)

-- A world where one account is enough for everything, and the store is empty.
abbrev cheap_env : Env
cheap_env = record test_env {
  configure = record {
    layer1_configure = record settings1 { fee_limit = pos 0 };
    layer2_configure = settings2;
  };
  db_seek = λ k d. some [];
}

abbrev before_start : Agent cheap_env
before_start = record { world = codes "account" ∷ []; db = []; tables = λ t. [] }

abbrev after_start : Agent cheap_env
after_start = record { world = []; db = []; tables = λ t. [] }

abbrev count : ℤ → Exec ℕ Unit
count now n = done (tt, suc n)

abbrev slow_clock : Exec ℕ ℤ
slow_clock n = done (pos 130, n)

timer_wrapper_twice_example :
    (timer_wrapper count slow_clock (pos 100) (make_timer [] (pos 60))
        >>= timer_wrapper count slow_clock (pos 150))
      0
    ≡ done (
      record (make_timer [] (pos 60)) {
        last_check_time = pos 100;
        last_execute_complete_time = pos 0;
      },
      1,
    )
timer_wrapper_twice_example =
    timer_wrapper_twice count slow_clock (pos 100) (pos 150) (pos 130) (make_timer [] (pos 60)) 0 1
      1 (unfold make_timer add_int64 in refl) refl refl (unfold make_timer add_int64 in refl)

db_get-db_put_example :
    (d' : Map Bytes) × (Proxy.db_put test_env (codes "k") (codes "v") [] ≡ done (true, d'))
    × (Proxy.db_get test_env (codes "k") d'
        ≡ done (
          (if bytes_eq (codes "k") (codes "k")
              then some (codes "v")
              else read_value (stored (codes "k") [])),
          d',
        ))
db_get-db_put_example =
    db_get-db_put test_env test_env-DbLaws (codes "k") (codes "k") (codes "v") []
