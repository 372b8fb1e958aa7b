-- ===== src/Messages.antt =====
-- The messages of src/proto (agent.proto, transaction.proto, subscribe.proto) that the agent reads and
-- writes, and the settings that src/main/configure.h holds once they are loaded.
use crosschain_agent.Prelude.{ℤ, pos, Bytes, List, []}

-- protocol::CrossTxInfo
pub record CrossTxInfo : Type 0 where
  pub crosstxid : Bytes
  pub srcbid : Bytes
  pub destbid : Bytes
  pub amount : ℤ
  pub status : ℤ
  pub refunded : ℤ
  pub createtimestamp : ℤ
  pub executetimestamp : ℤ
  pub timeout : ℤ
  pub errordesc : Bytes
  pub confirmseq : ℤ
  pub sendtxhash : Bytes
  pub sendacktol1hash : Bytes
  pub sendacktol2hash : Bytes

-- A message whose fields have not been set.
abbrev pub empty_cross_tx_info : CrossTxInfo
empty_cross_tx_info = record {
  crosstxid = [];
  srcbid = [];
  destbid = [];
  amount = pos 0;
  status = pos 0;
  refunded = pos 0;
  createtimestamp = pos 0;
  executetimestamp = pos 0;
  timeout = pos 0;
  errordesc = [];
  confirmseq = pos 0;
  sendtxhash = [];
  sendacktol1hash = [];
  sendacktol2hash = [];
}

-- protocol::Operation of the type PAY_COIN, the only one that the agent makes.
pub record Operation : Type 0 where
  pub dest_address : Bytes
  pub input : Bytes
  pub coins : ℤ

-- protocol::Transaction
pub record Transaction : Type 0 where
  pub source_address : Bytes
  pub fee_limit : ℤ
  pub gas_price : ℤ
  pub chain_id : ℤ
  pub nonce : ℤ
  pub max_ledger_seq : ℤ
  pub operations : List Operation

-- protocol::Tlog
pub record Tlog : Type 0 where
  pub topic : Bytes
  pub tlog : List Bytes

-- protocol::TlogSubscribeResponse
pub record TlogSubscribeResponse : Type 0 where
  pub address : Bytes
  pub tlogs : List Tlog

-- protocol::ManagerContractTlog_TopicType
pub data TopicType : Type 0 where
  register_agent submit stop update_period freeze un_freeze : TopicType

-- protocol::ManagerContractTlog, with the fields of its parts that are read.
pub record ManagerContractTlog : Type 0 where
  pub tlog_type : TopicType
  pub submit_confirm_seq : ℤ
  pub update_period_period : ℤ

-- Layer1Configure
pub record Layer1Configure : Type 0 where
  pub http_endpoint : Bytes
  pub cross_contract : Bytes
  pub manager_contract : Bytes
  pub fee_limit : ℤ
  pub gas_price : ℤ
  pub private_key : Bytes
  pub agent_address : Bytes
  pub start_tx_topic : Bytes
  pub send_tx_topic : Bytes
  pub ack_tx_topic : Bytes

-- Layer2Configure
pub record Layer2Configure : Type 0 where
  pub http_endpoint : Bytes
  pub cross_contract : Bytes
  pub fee_limit : ℤ
  pub gas_price : ℤ
  pub private_key : Bytes
  pub agent_address : Bytes
  pub start_tx_topic : Bytes
  pub send_tx_topic : Bytes
  pub ack_tx_topic : Bytes

-- Configure
pub record Configure : Type 0 where
  pub layer1_configure : Layer1Configure
  pub layer2_configure : Layer2Configure
