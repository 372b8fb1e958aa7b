-- ===== src/Database/Storage.antt =====
-- Storage of src/database/storage.cpp: the reads and writes of single keys.
use crosschain_agent.Prelude.{Bytes, ℤ, Option, if◌then◌else◌, not, negsuc, pos}
use crosschain_agent.Database.RocksDb
use crosschain_agent.Database.RocksDb.{GetCode}
use crosschain_agent.Env.{Env}
use crosschain_agent.Exec.{◌>>=◌, Exec, pure}
use crosschain_agent.Map.{Map}

-- Storage::DBGet
unfoldable pub db_get : (env : Env) → Bytes → Exec env.Db GetCode
unfolding RocksDb.get
db_get env key = RocksDb.get env key

-- Storage::DBPut
unfoldable pub db_put : (env : Env) → Bytes → Bytes → Exec env.Db ℤ
unfolding RocksDb.put ◌>>=◌
db_put env key value = do
  stat ← RocksDb.put env key value
  if not stat then pure (negsuc 0) else pure (pos 1)

-- Storage::DBDelete
unfoldable pub db_delete : (env : Env) → Bytes → Exec env.Db ℤ
unfolding RocksDb.delete ◌>>=◌
db_delete env key = do
  stat ← RocksDb.delete env key
  if not stat then pure (negsuc 0) else pure (pos 1)

-- Storage::GetAllValueByPrefix
unfoldable pub get_all_value_by_prefix : (env : Env) → Bytes → Exec env.Db (Option (Map (Unit {0})))
unfolding RocksDb.get_all_by_iterator
get_all_value_by_prefix env prefix = RocksDb.get_all_by_iterator env prefix
