-- ===== src/Glue/Node/Move.antt =====
-- A transfer that goes from one map to another, in memory and in the store.
use crosschain_agent.Prelude.{Bytes, ◌≡◌, false, true, bytes_eq_refl, refl}
use crosschain_agent.Database.Proxy
use crosschain_agent.Env.{Env, GetStatus}
use crosschain_agent.Glue.Node.{
  Table, Agent, set_table, on_db, has, CrossTx, same, on_table, db_key,
}
use crosschain_agent.Database.Contract.{DbLaws, db_put_lem, db_delete_lem}
use crosschain_agent.Exec.{◌>>=◌, zoom, modify, ◌>>◌, pure, done}
use crosschain_agent.Map.{has, emplace, erase}
use crosschain_agent.General.{CrossTx}
use crosschain_agent.Glue.Node.Stable.{clear_state, save_state}
use crosschain_agent.Glue.Node.Keys.{same_refl, db_key-eq}
use crosschain_agent.Map.Laws.{has-erase, has-emplace}

-- The transfer `k` has left the map `t`, and `id` is in the map `u` with `text` as its record.
pub record IsMoved (env : Env) (t u : Table) (k id text : Bytes) (s : Agent env) : Type 0 where
  pub gone : has k (s.tables t) ≡ false
  pub record_gone : env.db_get (db_key t k) s.db ≡ GetStatus.not_found
  pub kept : has id (s.tables u) ≡ true
  pub record_kept : env.db_get (db_key u id) s.db ≡ GetStatus.ok text

module _ (env : Env) (laws : DbLaws env) where
  pub saved-cleared-IsMoved :
      (t u : Table) (k : Bytes) (c : CrossTx) (s : Agent env)
      → same t u ≡ false
      → same u t ≡ false
      → IsMoved env t u k c.cross_tx_id c.cross_tx_info (clear_state env t k (save_state env u c s))
  unfolding set_table
  saved-cleared-IsMoved t u k c s apart₁ apart₂ = record {
    gone = rw (same_refl t, has-erase, bytes_eq_refl k) refl;
    record_gone = rw (laws.get_delete, bytes_eq_refl (db_key t k)) refl;
    kept = rw (apart₁, same_refl u, has-emplace, bytes_eq_refl c.cross_tx_id) refl;
    record_kept =
        rw
          (
            laws.get_delete,
            db_key-eq t u k c.cross_tx_id,
            apart₁,
            laws.get_put,
            bytes_eq_refl (db_key u c.cross_tx_id),
          )
          refl;
  }

module _ (env : Env) where
  pub put_emplace_lem :
      (t : Table) (c d : CrossTx) (s : Agent env)
      → (do
        on_db env (Proxy.db_put env (db_key t c.cross_tx_id) c.cross_tx_info)
        on_table env t (emplace c.cross_tx_id d)
        pure true)
          s
        ≡ done (
          true,
          record s {
            db = (env.db_put (db_key t c.cross_tx_id) c.cross_tx_info s.db).1;
            tables = set_table t (emplace c.cross_tx_id d (s.tables t)) s.tables;
          },
        )
  unfolding ◌>>=◌ on_db zoom on_table modify
  put_emplace_lem t c d s = rw db_put_lem refl

  pub delete_erase_lem :
      (t : Table) (k : Bytes) (s : Agent env)
      → (do on_db env (Proxy.db_delete env (db_key t k)); on_table env t (erase k); pure true) s
        ≡ done (true, clear_state env t k s)
  unfolding ◌>>=◌ on_db zoom on_table modify
  delete_erase_lem t k s = rw db_delete_lem refl
