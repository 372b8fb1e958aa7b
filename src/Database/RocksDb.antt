-- ===== src/Database/RocksDb.antt =====
-- RocksDbDriver of src/database/rocks_db.cpp.
use crosschain_agent.Prelude.{
  Bytes, List, Bool, Option, ◌∷◌, [], if◌then◌else◌, starts_with, none, some,
}
use crosschain_agent.Exec.{◌>>=◌, state, Exec, gets, pure}
use crosschain_agent.Env.{Env, GetStatus}
use crosschain_agent.Map.{Map, emplace}

-- The codes of `Get`: the value, not found, or an error.
pub data GetCode : Type 0 where
  found : Bytes → GetCode
  missing : GetCode
  failed : GetCode

-- RocksDbDriver::Get
unfoldable pub get : (env : Env) → Bytes → Exec env.Db GetCode
unfolding ◌>>=◌
get env key = do
  status ← gets (env.db_get key)
  elim status [
    | GetStatus.ok value ↦ pure (found value)
    | GetStatus.not_found ↦ pure missing
    | GetStatus.broken ↦ pure failed
  ]

-- RocksDbDriver::Put
unfoldable pub put : (env : Env) → Bytes → Bytes → Exec env.Db Bool
unfolding state
put env key value = state (env.db_put key value)

-- RocksDbDriver::Delete
unfoldable pub delete : (env : Env) → Bytes → Exec env.Db Bool
unfolding state
delete env key = state (env.db_delete key)

-- The values that the iterator visits while the key has the prefix, put into a `std::set`.
unfoldable pub collect : Bytes → List (Bytes × Bytes) → Map (Unit {0}) → Map (Unit {0})
collect leaf_prefix [] values = values
collect leaf_prefix ((key, value) ∷ entries) values =
    let rest = collect leaf_prefix entries (emplace value tt values) in
    if starts_with leaf_prefix key then rest else values

-- RocksDbDriver::GetAllByIterator; `none` is the result `false`.
unfoldable pub get_all_by_iterator : (env : Env) → Bytes → Exec env.Db (Option (Map (Unit {0})))
unfolding collect ◌>>=◌
get_all_by_iterator env leaf_prefix = do
  seen ← gets (env.db_seek leaf_prefix)
  elim seen [ none ↦ pure none | some entries ↦ pure (some (collect leaf_prefix entries [])) ]
