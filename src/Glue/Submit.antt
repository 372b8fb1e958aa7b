-- ===== src/Glue/Submit.antt =====
-- The parts of sendTransactionToLayer1, sendTransactionToLayer2 and checkTxResponse that
-- src/glue/layer1_to_layer2_handle.cpp and layer2_to_layer1_handle.cpp have in common.
pub mod Signature
pub mod Answers
use crosschain_agent.Prelude.{
  Bytes, List, Option, some, none, ℤ, ◌∷◌, add_int64, codes, pos, if◌then◌else◌, not, [], eqb_ℤ,
}
use crosschain_agent.Env.{
  Document, Documents, Fields, Env, HttpResult, object, field, success, failure, array, cons, text,
  end, nil,
}
use crosschain_agent.Messages.{Transaction}
use crosschain_agent.Exec.{◌>>=◌, pure, Exec}
use crosschain_agent.Transaction.{get_transaction_blob}
use crosschain_agent.WebClient.{get_layer_seq, at_key, int_at, string_at}
use crosschain_agent.Strings.{hex_string_to_bin, bin_to_hex_string}

-- The request: the blob in hexadecimal, with the signature of the bytes that it stands for.
unfoldable pub request_body : Env → Bytes → Bytes → Bytes
request_body env private_key tran_blob =
    let bin_tran_blob : Bytes = hex_string_to_bin tran_blob in
    env.to_styled_string (
      object (
        field (codes "items")
          (array (
            cons
              (object (
                field (codes "transaction_blob") (text tran_blob) (
                  field (codes "signatures")
                    (array (
                      cons
                        (object (
                          field (codes "public_key") (text (env.enc_public_key private_key)) (
                            field (codes "sign_data")
                              (text (bin_to_hex_string (env.sign private_key bin_tran_blob))) end)))
                        nil))
                    end)))
              nil))
          end))

-- Every result must have the code 0; the hash is that of the last one. The description of an error is
-- read for the log, which may throw.
check_results : (env : Env) → List env.Json → Bytes → Exec env.World (Option Bytes)
unfolding ◌>>=◌
check_results env [] txhash = pure (some txhash)
check_results env (result ∷ results) txhash = do
  error_code ← int_at env result (codes "error_code")
  if not (eqb_ℤ error_code (pos 0))
      then (do error_desc ← string_at env result (codes "error_desc"); pure none)
      else do hash ← string_at env result (codes "hash"); check_results env results hash

check_document : (env : Env) → Option env.Json → Exec env.World (Option Bytes)
unfolding check_results ◌>>=◌
check_document env none = pure none
check_document env (some response_body) = do
  results ← at_key env response_body (codes "results")
  if env.is_array results then check_results env (env.elements results) [] else pure (some [])

-- checkTxResponse: `none` is the result `false`, else the hash, empty if there are no results.
unfoldable pub check_tx_response : (env : Env) → Bytes → Exec env.World (Option Bytes)
unfolding check_document
check_tx_response env response = check_document env (env.from_string response)

check_answer : (env : Env) → HttpResult → Exec env.World (Option Bytes)
unfolding check_tx_response pure
check_answer env failure = pure none
check_answer env (success body) = check_tx_response env body

submit_at :
    (env : Env)
    → Transaction
    → Bytes
    → (Bytes → Exec env.World HttpResult)
    → Option ℤ
    → Exec env.World (Option Bytes)
unfolding check_answer get_transaction_blob request_body ◌>>=◌
submit_at env t private_key submit none = pure none
submit_at env t private_key submit (some seq) = do
  tran_blob ← get_transaction_blob env t (add_int64 seq (pos 200))
  response ← submit (request_body env private_key tran_blob)
  check_answer env response

-- From the transaction on: ask for the ledger's number, sign, submit, and check the answer.
unfoldable pub send_transaction :
    (env : Env)
    → Transaction
    → Bytes
    → Bytes
    → (Bytes → Exec env.World HttpResult)
    → Exec env.World (Option Bytes)
unfolding submit_at get_layer_seq ◌>>=◌
send_transaction env t endpoint private_key submit = do
  seq ← get_layer_seq env endpoint
  submit_at env t private_key submit seq
