-- ===== src/Database/Proxy.antt =====
-- DatabaseProxy of src/database/database_proxy.cpp, through which the agent reaches its store.
use crosschain_agent.Prelude.{Bytes, Option, Bool}
use crosschain_agent.Database.Manager
use crosschain_agent.Env.{Env}
use crosschain_agent.Exec.{Exec}
use crosschain_agent.Map.{Map}

-- DatabaseProxy::DBGet
unfoldable pub db_get : (env : Env) → Bytes → Exec env.Db (Option Bytes)
unfolding Manager.db_get
db_get env key = Manager.db_get env key

-- DatabaseProxy::DBPut
unfoldable pub db_put : (env : Env) → Bytes → Bytes → Exec env.Db Bool
unfolding Manager.db_put
db_put env key value = Manager.db_put env key value

-- DatabaseProxy::DBDelete
unfoldable pub db_delete : (env : Env) → Bytes → Exec env.Db Bool
unfolding Manager.db_delete
db_delete env key = Manager.db_delete env key

-- DatabaseProxy::GetAllValueByPrefix
unfoldable pub get_all_value_by_prefix : (env : Env) → Bytes → Exec env.Db (Option (Map (Unit {0})))
unfolding Manager.get_all_value_by_prefix
get_all_value_by_prefix env prefix = Manager.get_all_value_by_prefix env prefix
