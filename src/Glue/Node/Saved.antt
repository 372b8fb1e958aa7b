-- ===== src/Glue/Node/Saved.antt =====
-- A transfer that is in a map, in memory and in the store.
use crosschain_agent.Prelude.{Bytes, ◌≡◌, true, bytes_eq_refl, refl}
use crosschain_agent.Env.{Env, GetStatus}
use crosschain_agent.Glue.Node.{set_table, Table, Agent, CrossTx, has, db_key}
use crosschain_agent.Database.Contract.{DbLaws}
use crosschain_agent.General.{CrossTx}
use crosschain_agent.Map.{has}
use crosschain_agent.Glue.Node.Stable.{save_state}
use crosschain_agent.Glue.Node.Keys.{same_refl}
use crosschain_agent.Map.Laws.{has-emplace}

-- The transfer `id` is in the map `u`, with `text` as its record.
pub record IsSaved (env : Env) (u : Table) (id text : Bytes) (s : Agent env) : Type 0 where
  pub kept : has id (s.tables u) ≡ true
  pub record_kept : env.db_get (db_key u id) s.db ≡ GetStatus.ok text

pub save_state-IsSaved :
    (env : Env)
    → DbLaws env
    → (u : Table) (c : CrossTx) (s : Agent env)
    → IsSaved env u c.cross_tx_id c.cross_tx_info (save_state env u c s)
unfolding set_table
save_state-IsSaved env laws u c s = record {
  kept = rw (same_refl u, has-emplace, bytes_eq_refl c.cross_tx_id) refl;
  record_kept = rw (laws.get_put, bytes_eq_refl (db_key u c.cross_tx_id)) refl;
}
