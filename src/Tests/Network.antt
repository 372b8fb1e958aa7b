-- ===== src/Tests/Network.antt =====
-- A small world: a clock that stands still, answers that are given in advance, a store in memory.
use crosschain_agent.Prelude.{
  Bytes, ℤ, Option, ℕ, Bool, List, codes, All, map, some, true, ◌∷◌, pos, if◌then◌else◌, arith, [],
  refl, bytes_eq, false, none, ◌%◌, bytes_eq_refl, ◌==◌,
}
use crosschain_agent.Messages.{
  CrossTxInfo, Layer1Configure, Layer2Configure, empty_cross_tx_info, TlogSubscribeResponse,
}
use crosschain_agent.Strings.Items.{render}
use crosschain_agent.Env.{HttpResult, Env, failure, GetStatus, success}
use crosschain_agent.Map.{Map, find, emplace, erase}
use crosschain_agent.Database.Contract.{DbLaws}
use crosschain_agent.Glue.Submit.Signature.{EncodingLaws}
use crosschain_agent.Glue.Node.{Agent}
use crosschain_agent.Glue.Consistency.{IsConsistent}
use crosschain_agent.Glue.Printed.{printed1, printed2}
use crosschain_agent.Strings.Hex.{IsByte}
use crosschain_agent.Map.Laws.{find-emplace, find-erase}
use crosschain_agent.Strings.{bin_to_hex_string}

-- A JSON value; `entry k v rest` is an object with one more member, and `null` has none.
pub data Value : Type 0 where
  null : Value
  int : ℤ → Value
  str : Bytes → Value
  single : Value → Value
  entry : Bytes → Value → Value → Value

abbrev pub value_at : Value → Bytes → Option Value
value_at null k = some null
value_at (entry j v rest) k = if bytes_eq j k then some v else value_at rest k
value_at _ k = none

abbrev pub has_member : Value → Bytes → Option Bool
has_member null k = some false
has_member (entry j v rest) k = if bytes_eq j k then some true else has_member rest k
has_member _ k = none

abbrev pub single_at : Value → ℕ → Option Value
single_at (single v) i = if i == 0 then some v else none
single_at _ i = none

abbrev pub is_single : Value → Bool
is_single (single v) = true
is_single _ = false

abbrev pub null_value : Value → Bool
null_value null = true
null_value _ = false

abbrev pub single_elements : Value → List Value
single_elements (single v) = v ∷ []
single_elements _ = []

abbrev pub int_value : Value → Option ℤ
int_value (int z) = some z
int_value _ = none

abbrev pub str_value : Value → Option Bytes
str_value (str s) = some s
str_value null = some []
str_value _ = none

-- The transfer that the contracts of both layers know.
abbrev pub transfer : CrossTxInfo
transfer = record empty_cross_tx_info {
  crosstxid = codes "t1";
  srcbid = codes "a";
  destbid = codes "b";
  amount = pos 5;
  timeout = pos 50;
  errordesc = codes "-";
}

abbrev pub first_text : Bytes
first_text = render (printed1 (codes "1") (codes "2") transfer)

abbrev pub second_text : Bytes
second_text = render (printed2 transfer)

abbrev pub query_answer : Bytes → Value
query_answer s =
    entry (codes "result")
      (entry (codes "query_rets")
        (single (
          entry (codes "error") (entry (codes "data") null null)
            (entry (codes "result") (entry (codes "data") (str s) null) null)))
        null)
      null

abbrev pub accepted_answer : Value
accepted_answer =
    entry (codes "results")
      (single
        (entry (codes "error_code") (int (pos 0)) (entry (codes "hash") (str (codes "h1")) null)))
      null

abbrev pub refused_answer : Value
refused_answer =
    entry (codes "results") (single (entry (codes "error_code") (int (pos 4)) null)) null

abbrev pub error_free : Value → Value
error_free v = entry (codes "error_code") (int (pos 0)) (entry (codes "result") v null)

-- An answer is given by a name.
abbrev pub answer : Bytes → Option Value
answer s =
    if bytes_eq s (codes "first")
    then some (query_answer first_text)
    else if bytes_eq s (codes "second")
    then some (query_answer second_text)
    else if bytes_eq s (codes "accepted")
    then some accepted_answer
    else if bytes_eq s (codes "refused")
    then some refused_answer
    else if bytes_eq s (codes "busy")
    then some (entry (codes "results") null null)
    else if bytes_eq s (codes "ledger")
    then some (error_free (entry (codes "header") (entry (codes "seq") (int (pos 7)) null) null))
    else if bytes_eq s (codes "account")
    then some (error_free (entry (codes "balance") (int (pos 9)) null))
    else none

abbrev pub settings1 : Layer1Configure
settings1 = record {
  http_endpoint = codes "one";
  cross_contract = codes "c1";
  manager_contract = codes "m1";
  fee_limit = pos 2;
  gas_price = pos 3;
  private_key = codes "p1";
  agent_address = codes "a1";
  start_tx_topic = codes "start";
  send_tx_topic = codes "send";
  ack_tx_topic = codes "ack";
}

abbrev pub settings2 : Layer2Configure
settings2 = record {
  http_endpoint = codes "two";
  cross_contract = codes "c2";
  fee_limit = pos 2;
  gas_price = pos 0;
  private_key = codes "p2";
  agent_address = codes "a2";
  start_tx_topic = codes "start";
  send_tx_topic = codes "send";
  ack_tx_topic = codes "ack";
}

-- The answers that are still to come; the time is always 100.
abbrev pub Script : Type 0
Script = List Bytes

abbrev pub next_answer : Script → HttpResult × Script
next_answer [] = (failure, [])
next_answer (a ∷ script) = (success a, script)

abbrev pub stored : Bytes → Map Bytes → GetStatus
stored k d = elim (find k d) [ none ↦ GetStatus.not_found | some v ↦ GetStatus.ok v ]

abbrev pub known_message : Bytes → Option TlogSubscribeResponse
known_message s =
    if bytes_eq s (codes "sent on layer 2")
    then some (record {
      address = codes "c2";
      tlogs = record { topic = codes "send"; tlog = codes "t1" ∷ [] } ∷ [];
    })
    else if bytes_eq s (codes "from elsewhere")
    then some (record { address = codes "x"; tlogs = [] })
    else none

abbrev pub test_env : Env
test_env = record {
  configure = record { layer1_configure = settings1; layer2_configure = settings2 };
  World = Script;
  Db = Map Bytes;
  Json = Value;
  clock = λ w. (pos 100, w);
  is_valid = λ endpoint. true;
  post = λ endpoint path body w. next_answer w;
  get = λ endpoint path w. next_answer w;
  from_string = answer;
  to_styled_string = λ d. [];
  member = value_at;
  is_member = has_member;
  at_index = single_at;
  is_array = is_single;
  is_null = null_value;
  elements = single_elements;
  as_int = int_value;
  as_int64 = int_value;
  as_string = str_value;
  db_put = λ k v d. (true, emplace k v (erase k d));
  db_delete = λ k d. (true, erase k d);
  db_get = stored;
  db_seek = λ k d. some d;
  serialize = λ info. info.crosstxid;
  parse = λ s. (true, record transfer { crosstxid = s; timeout = pos 500 });
  serialize_transaction = λ t. map (λ c. c % 256) t.source_address;
  parse_tlog_response = known_message;
  parse_manager_tlog = λ s. none;
  encode_b16 = bin_to_hex_string;
  sign = λ key message. message;
  enc_public_key = λ key. key;
  system_millis = λ w. (pos 42, w);
}

pub test_env-DbLaws : DbLaws test_env
test_env-DbLaws = record {
  put_accepts = λ k v d. refl;
  delete_accepts = λ k d. refl;
  get_put = λ k v j d.
      ground (
        arith,
        find-emplace k j v (erase k d),
        find-erase k k d,
        find-erase k j d,
        bytes_eq_refl k,
      );
  get_delete = λ k j d. ground (arith, find-erase k j d);
}

map-IsByte : (s : Bytes) → All IsByte (map (λ c. c % 256) s)
map-IsByte [] = tt
map-IsByte (c ∷ s) = (omega arith, map-IsByte s)

pub test_env-EncodingLaws : EncodingLaws test_env
test_env-EncodingLaws = record {
  encode_b16_digits = λ s. refl;
  serialize_bytes = λ t. map-IsByte t.source_address;
}

-- An agent with empty maps and an empty store, before the given answers come.
abbrev pub fresh : Script → Agent test_env
fresh script = record { world = script; db = []; tables = λ t. [] }

pub fresh-IsConsistent : (script : Script) → IsConsistent test_env (fresh script)
unfolding find
fresh-IsConsistent script = record {
  keys = λ t k. refl;
  sorted = λ t. tt;
  named = λ t k c e. cc;
  deadlines = λ t k c e. cc;
}
