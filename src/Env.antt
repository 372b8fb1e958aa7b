-- ===== src/Env.antt =====
-- What surrounds the agent: its settings, the outside world, and the libraries that it calls. All of
-- these are parameters of the model; a value of `Env` chooses them.
use crosschain_agent.Prelude.{ℤ, ℕ, Bytes, Bool, Option, List}
use crosschain_agent.Exec.{Exec, state}
use crosschain_agent.Messages.{
  CrossTxInfo, Transaction, TlogSubscribeResponse, ManagerContractTlog, Configure,
}

-- httplib::Result: the error that is not `Error::Success`, or the body of the answer.
pub data HttpResult : Type 0 where
  failure : HttpResult
  success : Bytes → HttpResult

-- A JSON document that the agent builds.
mutual
  pub data Document : Type 0 where
    text : Bytes → Document
    number : ℤ → Document
    array : Documents → Document
    object : Fields → Document

  pub data Documents : Type 0 where
    nil : Documents
    cons : Document → Documents → Documents

  pub data Fields : Type 0 where
    end : Fields
    field : Bytes → Document → Fields → Fields

-- rocksdb::Status of a read: OK with the value, NotFound, or another status.
pub data GetStatus : Type 0 where
  ok : Bytes → GetStatus
  not_found : GetStatus
  broken : GetStatus

pub record Env : Type 1 where
  pub configure : Configure
  -- the network, the chains and the clock
  pub World : Type 0
  -- the contents of RocksDB
  pub Db : Type 0
  -- Json::Value
  pub Json : Type 0
  -- clock_gettime, in microseconds
  pub clock : World → ℤ × World
  -- httplib::Client: is_valid, Post(path, body) and Get(path) at an endpoint
  pub is_valid : Bytes → Bool
  pub post : Bytes → Bytes → Bytes → World → HttpResult × World
  pub get : Bytes → Bytes → World → HttpResult × World
  -- jsoncpp: `none` is the exception Json::LogicError, or a text that is no document
  pub from_string : Bytes → Option Json
  pub to_styled_string : Document → Bytes
  pub member : Json → Bytes → Option Json
  pub is_member : Json → Bytes → Option Bool
  pub at_index : Json → ℕ → Option Json
  pub is_array : Json → Bool
  pub is_null : Json → Bool
  pub elements : Json → List Json
  pub as_int : Json → Option ℤ
  pub as_int64 : Json → Option ℤ
  pub as_string : Json → Option Bytes
  -- rocksdb: Put and Delete with whether the status is OK, Get, and what an iterator visits from a key
  -- on (`none`: its status is not OK)
  pub db_put : Bytes → Bytes → Db → Bool × Db
  pub db_delete : Bytes → Db → Bool × Db
  pub db_get : Bytes → Db → GetStatus
  pub db_seek : Bytes → Db → Option (List (Bytes × Bytes))
  -- protobuf: SerializeAsString and ParseFromString, the latter with its result and what it leaves in
  -- the message
  pub serialize : CrossTxInfo → Bytes
  pub parse : Bytes → Bool × CrossTxInfo
  pub serialize_transaction : Transaction → Bytes
  pub parse_tlog_response : Bytes → Option TlogSubscribeResponse
  pub parse_manager_tlog : Bytes → Option ManagerContractTlog
  -- base-n (utils/basen.h)
  pub encode_b16 : Bytes → Bytes
  -- PrivateKeyV4 (common/private_key.cpp): the signature of a message and the public key
  pub sign : Bytes → Bytes → Bytes
  pub enc_public_key : Bytes → Bytes
  -- the milliseconds of system_clock, for a nonce
  pub system_millis : World → ℤ × World

-- utils::Timestamp::HighResolution
unfoldable pub high_resolution : (env : Env) → Exec env.World ℤ
unfolding state
high_resolution env = state env.clock
