-- ===== src/WebClient.antt =====
-- HttpClient of src/common/web_client.cpp: the agent's questions to the nodes of the two chains. A
-- method takes the endpoint of its client; a result `false` is `none`.
pub mod Query
use crosschain_agent.Prelude.{
  Bytes, Option, List, if◌then◌else◌, none, Bool, ℤ, codes, not, false, ◌++◌, some, eqb_ℤ, ◌∷◌, pos,
  [],
}
use crosschain_agent.Exec.{Fault, state, expect, ◌>>=◌, Exec, pure, json_type, ◌>>◌}
use crosschain_agent.Env.{Document, Fields, Env, HttpResult, success, failure}

-- HttpClient::makePostRequest
unfoldable pub make_post_request : (env : Env) → Bytes → Bytes → Bytes → Exec env.World HttpResult
unfolding state
make_post_request env endpoint request body = state (env.post endpoint request body)

-- HttpClient::makeGetRequest; without a valid client the result stays the default one, an error.
unfoldable pub make_get_request : (env : Env) → Bytes → Bytes → Exec env.World HttpResult
unfolding state pure
make_get_request env endpoint request =
    if not (env.is_valid endpoint) then pure failure else state (env.get endpoint request)

-- The document in the body of an answer.
unfoldable pub body_of : (env : Env) → HttpResult → Option env.Json
body_of env failure = none
body_of env (success body) = env.from_string body

-- value[key], and the values below; a value of another kind throws.
unfoldable pub at_key : (env : Env) → env.Json → Bytes → Exec env.World env.Json
unfolding expect
at_key env value key = expect json_type (env.member value key)

unfoldable pub contains : (env : Env) → env.Json → Bytes → Exec env.World Bool
unfolding expect
contains env value key = expect json_type (env.is_member value key)

unfoldable pub int64_at : (env : Env) → env.Json → Bytes → Exec env.World ℤ
unfolding at_key ◌>>=◌
int64_at env value key = do v ← at_key env value key; expect json_type (env.as_int64 v)

unfoldable pub int_at : (env : Env) → env.Json → Bytes → Exec env.World ℤ
unfolding at_key ◌>>=◌
int_at env value key = do v ← at_key env value key; expect json_type (env.as_int v)

unfoldable pub string_at : (env : Env) → env.Json → Bytes → Exec env.World Bytes
unfolding at_key ◌>>=◌
string_at env value key = do v ← at_key env value key; expect json_type (env.as_string v)

-- From a parsed answer on, in HttpClient::GetLayerSeq.
read_seq : (env : Env) → Option env.Json → Exec env.World (Option ℤ)
unfolding contains int64_at ◌>>=◌
read_seq env none = pure none
read_seq env (some res) = do
  error_code ← int64_at env res (codes "error_code")
  if not (eqb_ℤ error_code (pos 0)) then pure none else do
    result ← at_key env res (codes "result")
    has_header ← contains env result (codes "header")
    if not has_header then pure none else do
      header ← at_key env result (codes "header")
      has_seq ← contains env header (codes "seq")
      if not has_seq then pure none else do seq ← int64_at env header (codes "seq"); pure (some seq)

-- HttpClient::GetLayerSeq
unfoldable pub get_layer_seq : (env : Env) → Bytes → Exec env.World (Option ℤ)
unfolding make_get_request body_of read_seq ◌>>=◌
get_layer_seq env endpoint = do
  resp ← make_get_request env endpoint (codes "/getLedger")
  read_seq env (body_of env resp)

-- HttpClient::SubmitLayer1Transaction
unfoldable pub submit_layer1_transaction : (env : Env) → Bytes → Bytes → Exec env.World HttpResult
unfolding make_post_request
submit_layer1_transaction env endpoint request_body =
    make_post_request env endpoint (codes "/submitTransaction") request_body

-- HttpClient::SubmitLayer2Transaction
unfoldable pub submit_layer2_transaction : (env : Env) → Bytes → Bytes → Exec env.World HttpResult
unfolding make_post_request
submit_layer2_transaction env endpoint request_body =
    make_post_request env endpoint (codes "/submitTransaction") request_body

-- The first transaction decides; a node that lists none gives `false`. A code that is missing is read all
-- the same, for the log.
first_succeeded : (env : Env) → List env.Json → Exec env.World Bool
unfolding contains int64_at ◌>>=◌
first_succeeded env [] = pure false
first_succeeded env (tx ∷ rest) = do
  has_code ← contains env tx (codes "error_code")
  if not has_code
      then (do printed ← int64_at env tx (codes "error_code"); pure false)
      else do code ← int64_at env tx (codes "error_code"); pure (eqb_ℤ code (pos 0))

read_tx_result : (env : Env) → Option env.Json → Exec env.World Bool
unfolding first_succeeded contains int64_at ◌>>=◌
read_tx_result env none = pure false
read_tx_result env (some res) = do
  error_code ← int64_at env res (codes "error_code")
  if not (eqb_ℤ error_code (pos 0)) then pure false else do
    result ← at_key env res (codes "result")
    has_transactions ← contains env result (codes "transactions")
    if not has_transactions then pure false else do
      transactions ← at_key env result (codes "transactions")
      if env.is_array transactions
          then first_succeeded env (env.elements transactions)
          else pure false

-- HttpClient::GetTxResult
unfoldable pub get_tx_result : (env : Env) → Bytes → Bytes → Exec env.World Bool
unfolding make_get_request body_of read_tx_result ◌>>=◌
get_tx_result env endpoint tx_hash = do
  resp ← make_get_request env endpoint (codes "/getTransactionHistory?hash=" ++ tx_hash)
  read_tx_result env (body_of env resp)

read_balance : (env : Env) → Option env.Json → Exec env.World (Option ℤ)
unfolding contains int64_at ◌>>=◌
read_balance env none = pure none
read_balance env (some res) = do
  error_code ← int64_at env res (codes "error_code")
  if not (eqb_ℤ error_code (pos 0)) then pure none else do
    result ← at_key env res (codes "result")
    has_balance ← contains env result (codes "balance")
    if not has_balance
        then pure none
        else do balance ← int64_at env result (codes "balance"); pure (some balance)

-- HttpClient::GetBalance
unfoldable pub get_balance : (env : Env) → Bytes → Bytes → Exec env.World (Option ℤ)
unfolding make_get_request body_of read_balance ◌>>=◌
get_balance env endpoint address = do
  resp ← make_get_request env endpoint (codes "/getAccountBase?address=" ++ address)
  read_balance env (body_of env resp)
