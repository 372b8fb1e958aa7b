-- ===== src/Settings/Layers.antt =====
-- Layer1Configure::Load, Layer2Configure::Load, WebServerConfigure::Load and Configure::LoadFromJson of
-- src/main/configure.cpp.
use crosschain_agent.Prelude.{
  Bytes, ℤ, Option, List, ℕ, [], none, pos, codes, if◌then◌else◌, Bool, some, bytes_eq, true, take,
  ltb_ℤ, not, false,
}
use crosschain_agent.Settings.{SettingsApi, get_value}
use crosschain_agent.Utils.Text.{is_empty, strtok}
use crosschain_agent.Exec.{Exec, expect, indeterminate, json_type, pure, ◌>>=◌}

-- The fields that both layers have. The constructor leaves the fees without a value: `none`.
pub record LayerFields : Type 0 where
  pub http_endpoint : Bytes
  pub ws_endpoint : Bytes
  pub cross_contract : Bytes
  pub private_key : Bytes
  pub agent_address : Bytes
  pub start_tx_topic : Bytes
  pub send_tx_topic : Bytes
  pub ack_tx_topic : Bytes
  pub fee_limit : Option ℤ
  pub gas_price : Option ℤ

pub record Layer1Configure : Type 0 where
  pub fields : LayerFields
  pub manager_contract : Bytes
  pub topics : List Bytes

pub record Layer2Configure : Type 0 where
  pub fields : LayerFields
  pub layer2_id : Option ℤ

pub record WebServerConfigure : Type 0 where
  pub port : ℕ
  pub thread_count : ℕ

abbrev pub layer_fields : LayerFields
layer_fields = record {
  http_endpoint = [];
  ws_endpoint = [];
  cross_contract = [];
  private_key = [];
  agent_address = [];
  start_tx_topic = [];
  send_tx_topic = [];
  ack_tx_topic = [];
  fee_limit = none;
  gas_price = none;
}

abbrev pub layer1_configure : Layer1Configure
layer1_configure = record { fields = layer_fields; manager_contract = []; topics = [] }

abbrev pub layer2_configure : Layer2Configure
layer2_configure = record { fields = layer_fields; layer2_id = none }

abbrev pub web_server_configure : WebServerConfigure
web_server_configure = record { port = 8080; thread_count = 8 }

abbrev pub least_fee_limit : ℤ
least_fee_limit = pos 20000

abbrev pub manager_address : Bytes
manager_address = codes "did:bid:efEnXEGWYjHRw1CzK4KpWTdusnaRokk8"

abbrev pub tlog_topic : Bytes
tlog_topic = codes "RegisterAgent|FreezeAgent|UnfreezeAgent|StopUsingAgent|Submit"

abbrev pub default_start_tx_topic : Bytes
default_start_tx_topic = codes "2b543a7f49dd6ca6d30b8c2491cdce5a52e11bf1169943cd065a4f64b3f50e6b"

abbrev pub default_send_tx_topic : Bytes
default_send_tx_topic = codes "484087f6a046ffc37d32313f7ef1ad396194834491546b43547d08f91b9ed773"

abbrev pub default_ack_tx_topic : Bytes
default_ack_tx_topic = codes "424ebb38adf5561feffc826f8b8e6073045b5665e75cbfee188470bfb6ad6af5"

abbrev pub or_default : Bytes → Bytes → Bytes
or_default topic default = if is_empty topic then default else topic

module _ (api : SettingsApi) {S : Type 0} where
  unfoldable pub read_endpoints : api.Json → LayerFields → Exec S LayerFields
  unfolding get_value ◌>>=◌
  read_endpoints value c = do
    http_endpoint ← get_value api api.as_string value (codes "http_endpoint") c.http_endpoint
    ws_endpoint ← get_value api api.as_string value (codes "ws_endpoint") c.ws_endpoint
    cross_contract ← get_value api api.as_string value (codes "cross_contract") c.cross_contract
    pure (record c {
      http_endpoint = http_endpoint;
      ws_endpoint = ws_endpoint;
      cross_contract = cross_contract;
    })

  -- A number that may have no value yet.
  abbrev get_int64 : api.Json → Bytes → Option ℤ → Exec S (Option ℤ)
  get_int64 = get_value api (λ m. elim (api.as_int64 m) [ none ↦ none | some z ↦ some (some z) ])

  -- The fees and the key, up to the test of the key.
  unfoldable pub read_payment : api.Json → LayerFields → Exec S LayerFields
  unfolding get_value ◌>>=◌
  read_payment value c = do
    fee_limit ← get_int64 value (codes "fee_limit") c.fee_limit
    gas_price ← get_int64 value (codes "gas_price") c.gas_price
    key ← get_value api api.as_string value (codes "private_key") c.private_key
    pure (record c {
      fee_limit = fee_limit;
      gas_price = gas_price;
      private_key = if bytes_eq (take 3 key) (codes "pri") then key else api.hex_decrypto key;
    })

  -- The address, and the least fees. A fee without a value is read nevertheless.
  unfoldable pub settle_payment : LayerFields → Exec S LayerFields
  unfolding ◌>>=◌
  settle_payment c = do
    gas_price ← expect indeterminate c.gas_price
    fee_limit ← expect indeterminate c.fee_limit
    pure (record c {
      agent_address = api.get_enc_address c.private_key;
      gas_price = some (if ltb_ℤ gas_price (pos 1) then pos 1 else gas_price);
      fee_limit = some (if ltb_ℤ fee_limit least_fee_limit then least_fee_limit else fee_limit);
    })

  unfoldable pub given_topics : api.Json → LayerFields → Exec S LayerFields
  unfolding get_value ◌>>=◌
  given_topics cross_topic c = do
    start_tx_topic ← get_value api api.as_string cross_topic (codes "start_tx") c.start_tx_topic
    send_tx_topic ← get_value api api.as_string cross_topic (codes "send_tx") c.send_tx_topic
    ack_tx_topic ← get_value api api.as_string cross_topic (codes "send_ack") c.ack_tx_topic
    pure (record c {
      start_tx_topic = start_tx_topic;
      send_tx_topic = send_tx_topic;
      ack_tx_topic = ack_tx_topic;
    })

  abbrev topics_of : api.Json → LayerFields → Exec S LayerFields
  topics_of value c = do
    m ← expect json_type (api.member value (codes "cross_topic"))
    given_topics m c

  unfoldable pub read_topics : api.Json → LayerFields → Exec S LayerFields
  unfolding given_topics ◌>>=◌
  read_topics value c = do
    present ← expect json_type (api.is_member value (codes "cross_topic"))
    d ← (if present then topics_of value c else pure c)
    pure (record d {
      start_tx_topic = or_default d.start_tx_topic default_start_tx_topic;
      send_tx_topic = or_default d.send_tx_topic default_send_tx_topic;
      ack_tx_topic = or_default d.ack_tx_topic default_ack_tx_topic;
    })

  abbrev pub settle : api.Json → LayerFields → Exec S LayerFields
  settle value c = do d ← settle_payment c; read_topics value d

  -- The rest of Layer1Configure::Load, and of Layer2Configure::Load, once the key is known to be valid.
  abbrev end1 : api.Json → LayerFields → Exec S (Bool × Layer1Configure)
  end1 value paid = do
    settled ← settle value paid
    pure (
      true,
      record {
        fields = settled;
        manager_contract = manager_address;
        topics = strtok tlog_topic b'|';
      },
    )

  abbrev end2 : Option ℤ → api.Json → LayerFields → Exec S (Bool × Layer2Configure)
  end2 layer2_id value paid = do
    settled ← settle value paid
    pure (true, record { fields = settled; layer2_id = layer2_id })

  unfoldable pub load1 : api.Json → Layer1Configure → Exec S (Bool × Layer1Configure)
  unfolding read_endpoints read_payment settle_payment read_topics strtok ◌>>=◌
  load1 value c = do
    named ← read_endpoints value c.fields
    paid ← read_payment value named
    if not (api.is_valid paid.private_key)
        then pure (false, record c { fields = paid })
        else end1 value paid

  unfoldable pub load2 : api.Json → Layer2Configure → Exec S (Bool × Layer2Configure)
  unfolding read_endpoints read_payment settle_payment read_topics ◌>>=◌
  load2 value c = do
    named ← read_endpoints value c.fields
    layer2_id ← get_int64 value (codes "layer2_id") c.layer2_id
    paid ← read_payment value named
    if not (api.is_valid paid.private_key)
        then pure (false, record { fields = paid; layer2_id = layer2_id })
        else end2 layer2_id value paid

  unfoldable pub load_web_server :
      api.Json → WebServerConfigure → Exec S (Bool × WebServerConfigure)
  unfolding get_value ◌>>=◌
  load_web_server value c = do
    port ← get_value api api.as_uint value (codes "listen_port") c.port
    thread_count ← get_value api api.as_uint value (codes "thread_count") c.thread_count
    pure (true, record { port = port; thread_count = thread_count })
