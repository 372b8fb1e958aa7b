-- ===== src/General.antt =====
-- src/common/general.h and general.cpp: the addresses' prefix, the timers, and what is kept of a
-- transfer in memory.
pub mod Address
pub mod Timer
use crosschain_agent.Prelude.{ℤ, pos, Bytes, Option, none}
use crosschain_agent.Messages.{CrossTxInfo}
use crosschain_agent.Env.{Env}

abbrev pub cross_result_init : ℤ
cross_result_init = pos 0

abbrev pub cross_result_success : ℤ
cross_result_success = pos 1

abbrev pub cross_result_failed : ℤ
cross_result_failed = pos 2

abbrev pub cross_result_timeout : ℤ
cross_result_timeout = pos 3

-- utils::MICRO_UNITS_PER_SEC
abbrev pub micro_units_per_sec : ℤ
micro_units_per_sec = pos 1_000_000

-- The field `send_ack_timeout_` is `none` until it is written.
pub record CrossTx : Type 0 where
  pub cross_tx_id : Bytes
  pub status : ℤ
  pub confirm_seq : ℤ
  pub send_tx_timeout : ℤ
  pub send_ack_timeout : Option ℤ
  pub send_tx_hash : Bytes
  pub send_ack_to_l1_hash : Bytes
  pub send_ack_to_l2_hash : Bytes
  pub cross_tx_info : Bytes

-- The constructor CrossTx(CrossTxInfo).
unfoldable pub make_cross_tx : Env → CrossTxInfo → CrossTx
make_cross_tx env info = record {
  cross_tx_id = info.crosstxid;
  status = info.status;
  confirm_seq = info.confirmseq;
  send_tx_timeout = info.timeout;
  send_ack_timeout = none;
  send_tx_hash = info.sendtxhash;
  send_ack_to_l1_hash = info.sendacktol1hash;
  send_ack_to_l2_hash = info.sendacktol2hash;
  cross_tx_info = env.serialize info;
}
