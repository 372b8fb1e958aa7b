-- ===== src/Glue/Layer2ToLayer1/Maps.antt =====
-- The Save and Clear methods of Layer2ToLayer1Handle. A pointer is null where the argument is `none`.
use crosschain_agent.Prelude.{Bytes, Option, Bool, true, some, none}
use crosschain_agent.Database.Proxy
use crosschain_agent.Glue.Node.{
  on_db, on_world, on_table, Agent, db_key, l2_start_tx, l2_send_tx, l2_send_ack, l2_reply_ack,
  in_a_minute,
}
use crosschain_agent.Env.{high_resolution, Env}
use crosschain_agent.Exec.{◌>>=◌, Exec, pure, ◌>>◌}
use crosschain_agent.General.{CrossTx}
use crosschain_agent.Map.{erase, emplace}

-- Layer2ToLayer1Handle::SaveStartTxInfo
unfoldable pub save_start_tx_info : (env : Env) → Option CrossTx → Exec (Agent env) Bool
save_start_tx_info env none = pure true
save_start_tx_info env (some c) = do
  on_db env (Proxy.db_put env (db_key l2_start_tx c.cross_tx_id) c.cross_tx_info)
  on_table env l2_start_tx (emplace c.cross_tx_id c)
  pure true

-- Layer2ToLayer1Handle::ClearStartTxInfo
unfoldable pub clear_start_tx_info : (env : Env) → Bytes → Exec (Agent env) Bool
clear_start_tx_info env cross_txid = do
  on_db env (Proxy.db_delete env (db_key l2_start_tx cross_txid))
  on_table env l2_start_tx (erase cross_txid)
  pure true

-- Layer2ToLayer1Handle::SaveSendTxInfo
unfoldable pub save_send_tx_info : (env : Env) → Option CrossTx → Exec (Agent env) Bool
save_send_tx_info env none = pure true
save_send_tx_info env (some c) = do
  on_db env (Proxy.db_put env (db_key l2_send_tx c.cross_tx_id) c.cross_tx_info)
  on_table env l2_send_tx (emplace c.cross_tx_id c)
  pure true

-- Layer2ToLayer1Handle::ClearSendTxInfo
unfoldable pub clear_send_tx_info : (env : Env) → Bytes → Exec (Agent env) Bool
clear_send_tx_info env cross_txid = do
  on_db env (Proxy.db_delete env (db_key l2_send_tx cross_txid))
  on_table env l2_send_tx (erase cross_txid)
  pure true

-- Layer2ToLayer1Handle::SaveSendAckInfo
unfoldable pub save_send_ack_info : (env : Env) → Option CrossTx → Exec (Agent env) Bool
save_send_ack_info env none = pure true
save_send_ack_info env (some c) = do
  now ← on_world env (high_resolution env)
  on_db env (Proxy.db_put env (db_key l2_send_ack c.cross_tx_id) c.cross_tx_info)
  on_table env l2_send_ack
      (emplace c.cross_tx_id (record c { send_ack_timeout = some (in_a_minute now) }))
  pure true

-- Layer2ToLayer1Handle::ClearSendAckInfo
unfoldable pub clear_send_ack_info : (env : Env) → Bytes → Exec (Agent env) Bool
clear_send_ack_info env cross_txid = do
  on_db env (Proxy.db_delete env (db_key l2_send_ack cross_txid))
  on_table env l2_send_ack (erase cross_txid)
  pure true

-- Layer2ToLayer1Handle::SaveReplyAckInfo
unfoldable pub save_reply_ack_info : (env : Env) → Option CrossTx → Exec (Agent env) Bool
save_reply_ack_info env none = pure true
save_reply_ack_info env (some c) = do
  now ← on_world env (high_resolution env)
  on_db env (Proxy.db_put env (db_key l2_reply_ack c.cross_tx_id) c.cross_tx_info)
  on_table env l2_reply_ack
      (emplace c.cross_tx_id (record c { send_ack_timeout = some (in_a_minute now) }))
  pure true

-- Layer2ToLayer1Handle::ClearReplyAckInfo
unfoldable pub clear_reply_ack_info : (env : Env) → Bytes → Exec (Agent env) Bool
clear_reply_ack_info env cross_txid = do
  on_db env (Proxy.db_delete env (db_key l2_reply_ack cross_txid))
  on_table env l2_reply_ack (erase cross_txid)
  pure true
