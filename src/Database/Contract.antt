-- ===== src/Database/Contract.antt =====
-- What the agent relies on of RocksDB, and what its own layers make of it.
use crosschain_agent.Prelude.{
  Bytes, ◌≡◌, true, if◌then◌else◌, arith, bytes_eq, some, ap, Bool-cases, inl, inr, Option, none,
  refl,
}
use crosschain_agent.Database.Proxy
use crosschain_agent.Env.{Env, GetStatus}
use crosschain_agent.Exec.{done, ◌>>=◌}

-- RocksDB with a disk that accepts every write: a key holds what was put there last, and other keys
-- hold what they held.
pub record DbLaws (env : Env) : Type 0 where
  pub put_accepts : (k v : Bytes) (d : env.Db) → (env.db_put k v d).0 ≡ true
  pub delete_accepts : (k : Bytes) (d : env.Db) → (env.db_delete k d).0 ≡ true
  pub get_put :
      (k v j : Bytes) (d : env.Db)
      → env.db_get j (env.db_put k v d).1
        ≡ (if bytes_eq k j then GetStatus.ok v else env.db_get j d)
  pub get_delete :
      (k j : Bytes) (d : env.Db)
      → env.db_get j (env.db_delete k d).1
        ≡ (if bytes_eq k j then GetStatus.not_found else env.db_get j d)

-- The result of the proxy is the status of RocksDB, and the store changes as RocksDB changes it.
pub db_put_lem :
    (env : Env) (k v : Bytes) (d : env.Db) → Proxy.db_put env k v d ≡ done (env.db_put k v d)
unfolding Proxy.db_put
db_put_lem env k v d = ground arith

pub db_delete_lem :
    (env : Env) (k : Bytes) (d : env.Db) → Proxy.db_delete env k d ≡ done (env.db_delete k d)
unfolding Proxy.db_delete
db_delete_lem env k d = ground arith

-- The value of a read that is OK.
abbrev pub read_value : GetStatus → Option Bytes
read_value (GetStatus.ok v) = some v
read_value _ = none

db_get_cases :
    (env : Env) (k : Bytes) (d : env.Db) (status : GetStatus)
    → env.db_get k d ≡ status
    → Proxy.db_get env k d ≡ done (read_value status, d)
unfolding Proxy.db_get ◌>>=◌
db_get_cases env k d (GetStatus.ok v) e = rw e refl
db_get_cases env k d GetStatus.not_found e = rw e refl
db_get_cases env k d GetStatus.broken e = rw e refl

-- DBPut through the proxy succeeds, and DBGet of any key afterwards gives the value that was put, if it
-- is the same key, or else what RocksDB held under it before, and leaves the store as it is.
pub db_get-db_put :
    (env : Env)
    → DbLaws env
    → (k j v : Bytes) (d : env.Db)
    → (d' : env.Db) × (Proxy.db_put env k v d ≡ done (true, d'))
      × (Proxy.db_get env j d'
          ≡ done ((if bytes_eq k j then some v else read_value (env.db_get j d)), d'))
db_get-db_put env laws k j v d = (
  (env.db_put k v d).1,
  rw db_put_lem (ap (λ accepted. done (accepted, (env.db_put k v d).1)) (laws.put_accepts k v d)),
  elim (Bool-cases (bytes_eq k j)) [
    | inl e ↦ rw e (db_get_cases env j _ (GetStatus.ok v) (rw (laws.get_put, e) refl))
    | inr e ↦ rw e (db_get_cases env j _ (env.db_get j d) (rw (laws.get_put, e) refl))
  ],
)
