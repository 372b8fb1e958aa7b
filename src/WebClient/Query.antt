-- ===== src/WebClient/Query.antt =====
-- HttpClient of src/common/web_client.cpp: the calls of the bridge contracts' view functions.
use crosschain_agent.Prelude.{
  Bytes, Bool, Option, if◌then◌else◌, codes, true, false, ℤ, pos, some, not, ◌∷◌, none, ◌++◌, [],
  get_elem?,
}
use crosschain_agent.Env.{Env, object, field, text, end, number}
use crosschain_agent.WebClient.{contains, make_post_request, at_key, body_of, string_at}
use crosschain_agent.Exec.{
  ◌>>=◌, Exec, pure, expect, bad_position, json_type, out_of_range, conversion,
}
use crosschain_agent.Strings.{strip_brackets, getline_all, stoi}

-- The body of a call of a view function of the bridge contract on layer 1 or 2.
unfoldable pub call_body : Env → Bytes → Bytes → Bytes → Bool → Bytes
call_body env name returns cross_tx_id is_layer1 =
    let address : Bytes =
      if is_layer1
      then env.configure.layer1_configure.cross_contract
      else env.configure.layer2_configure.cross_contract in
    let input : Bytes = env.to_styled_string (
      object (
        field (codes "function") (text name) (
          field (codes "return") (text returns)
            (field (codes "args") (text (b'\'' ∷ cross_tx_id ++ b'\'' ∷ [])) end)))) in
    env.to_styled_string (
      object (
        field (codes "contract_address") (text address) (
          field (codes "code") (text []) (
            field (codes "opt_type") (number (pos 2)) (
              field (codes "source_address") (text []) (field (codes "input") (text input) end))))))

-- The data of the answer, if the call has met no error.
read_query : (env : Env) → Option env.Json → Exec env.World (Option Bytes)
unfolding contains at_key string_at ◌>>=◌
read_query env none = pure none
read_query env (some res) = do
  query_result ← at_key env res (codes "result")
  has_rets ← contains env query_result (codes "query_rets")
  if not has_rets then pure none else do
    all_rets ← at_key env query_result (codes "query_rets")
    if not (env.is_array all_rets) then pure none else do
      query_rets ← expect json_type (env.at_index all_rets 0)
      error ← at_key env query_rets (codes "error")
      has_data ← contains env error (codes "data")
      if not has_data then pure none else do
        error_data ← at_key env error (codes "data")
        if not (env.is_null error_data) then pure none else do
          result ← at_key env query_rets (codes "result")
          data_text ← string_at env result (codes "data")
          pure (some data_text)

-- HttpClient::getCrossTxInfo1
unfoldable pub get_cross_tx_info1 :
    (env : Env) → Bytes → Bytes → Bool → Exec env.World (Option Bytes)
unfolding make_post_request body_of call_body read_query ◌>>=◌
get_cross_tx_info1 env endpoint cross_tx_id is_layer1 = do
  result ← make_post_request env endpoint (codes "/callContract") (
      call_body env (codes "GetCrossTxInfo1(bytes)")
        (codes "returns(uint32,uint32,bytes,uint256,address,address)") cross_tx_id is_layer1)
  read_query env (body_of env result)

-- HttpClient::getCrossTxInfo2
unfoldable pub get_cross_tx_info2 :
    (env : Env) → Bytes → Bytes → Bool → Exec env.World (Option Bytes)
unfolding make_post_request body_of call_body read_query ◌>>=◌
get_cross_tx_info2 env endpoint cross_tx_id is_layer1 = do
  result ← make_post_request env endpoint (codes "/callContract") (
      call_body env (codes "GetCrossTxInfo2(bytes)")
        (codes "returns(uint8,uint8,uint256,uint256,uint256,string)") cross_tx_id is_layer1)
  read_query env (body_of env result)

-- Both texts, or `none` at the first that fails.
get_cross_tx_info : (env : Env) → Bytes → Bytes → Bool → Exec env.World (Option (Bytes × Bytes))
unfolding get_cross_tx_info1 get_cross_tx_info2 ◌>>=◌
get_cross_tx_info env endpoint cross_tx_id is_layer1 = do
  first ← get_cross_tx_info1 env endpoint cross_tx_id is_layer1
  elim first [
    | none ↦ pure none
    | some info1 ↦ (do
      second ← get_cross_tx_info2 env endpoint cross_tx_id is_layer1
      elim second [ none ↦ pure none | some info2 ↦ pure (some (info1, info2)) ])
  ]

-- HttpClient::GetLayer1CrossTxInfo
unfoldable pub get_layer1_cross_tx_info :
    (env : Env) → Bytes → Bytes → Exec env.World (Option (Bytes × Bytes))
unfolding get_cross_tx_info
get_layer1_cross_tx_info env endpoint cross_tx_id = get_cross_tx_info env endpoint cross_tx_id true

-- HttpClient::GetLayer2CrossTxInfo
unfoldable pub get_layer2_cross_tx_info :
    (env : Env) → Bytes → Bytes → Exec env.World (Option (Bytes × Bytes))
unfolding get_cross_tx_info
get_layer2_cross_tx_info env endpoint cross_tx_id = get_cross_tx_info env endpoint cross_tx_id false

-- The status is the first item of the second text.
read_status : (env : Env) → Option Bytes → Exec env.World ℤ
unfolding ◌>>=◌
read_status env none = pure (pos 0)
read_status env (some info2) = do
  items ← expect bad_position (strip_brackets info2)
  item ← expect out_of_range (get_elem? (getline_all items) 0)
  expect conversion (stoi item)

-- HttpClient::GetCrossTxStatus; a failed query gives `false`, which is the status 0.
unfoldable pub get_cross_tx_status : (env : Env) → Bytes → Bytes → Exec env.World ℤ
unfolding get_cross_tx_info2 read_status ◌>>=◌
get_cross_tx_status env endpoint cross_tx_id = do
  info2 ← get_cross_tx_info2 env endpoint cross_tx_id false
  read_status env info2
