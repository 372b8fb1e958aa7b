-- ===== src/Database/Manager.antt =====
-- DatabaseManager of src/database/database_manager.cpp: the codes of the storage become Booleans.
use crosschain_agent.Prelude.{
  Bytes, Option, Bool, if◌then◌else◌, some, eqb_ℤ, none, pos, true, false,
}
use crosschain_agent.Database.RocksDb.{found, missing, failed}
use crosschain_agent.Database.Storage
use crosschain_agent.Exec.{◌>>=◌, Exec, pure}
use crosschain_agent.Env.{Env}
use crosschain_agent.Map.{Map}

-- DatabaseManager::DBGet; `none` is the result `false`.
unfoldable pub db_get : (env : Env) → Bytes → Exec env.Db (Option Bytes)
unfolding Storage.db_get ◌>>=◌
db_get env key = do
  ret ← Storage.db_get env key
  elim ret [ found value ↦ pure (some value) | missing ↦ pure none | failed ↦ pure none ]

-- DatabaseManager::DBPut
unfoldable pub db_put : (env : Env) → Bytes → Bytes → Exec env.Db Bool
unfolding Storage.db_put ◌>>=◌
db_put env key value = do
  ret ← Storage.db_put env key value
  if eqb_ℤ ret (pos 1) then pure true else pure false

-- DatabaseManager::DBDelete
unfoldable pub db_delete : (env : Env) → Bytes → Exec env.Db Bool
unfolding Storage.db_delete ◌>>=◌
db_delete env key = do
  ret ← Storage.db_delete env key
  if eqb_ℤ ret (pos 1) then pure true else pure false

-- DatabaseManager::GetAllValueByPrefix
unfoldable pub get_all_value_by_prefix : (env : Env) → Bytes → Exec env.Db (Option (Map (Unit {0})))
unfolding Storage.get_all_value_by_prefix
get_all_value_by_prefix env prefix = Storage.get_all_value_by_prefix env prefix
