-- ===== src/Glue/Layer1ToLayer2/Start.antt =====
-- Layer1ToLayer2Handle::Initialize, which fills the maps from the store.
use crosschain_agent.Prelude.{Bytes, Bool, if◌then◌else◌, none, some, ◌∷◌, [], true, Option}
use crosschain_agent.Database.Proxy
use crosschain_agent.Glue.Node.{
  on_table, on_world, on_db, Table, Agent, prefix, l1_send_tx, in_a_minute, l1_send_ack,
  l1_reply_ack,
}
use crosschain_agent.Exec.{◌>>=◌, Exec, pure, ◌>>◌}
use crosschain_agent.Env.{Env, high_resolution}
use crosschain_agent.General.{make_cross_tx}
use crosschain_agent.Map.{Map, emplace}

-- One record of the store into a map. A record that cannot be parsed is passed over.
unfoldable pub load_send_tx : (env : Env) → Bytes → Exec (Agent env) Unit
load_send_tx env record_text =
    let (parsed, info) = env.parse record_text in
    let c = make_cross_tx env info in
    if parsed then on_table env l1_send_tx (emplace c.cross_tx_id c) else pure tt

-- The acknowledgements have a minute from now.
unfoldable pub load_ack : (env : Env) → Table → Bytes → Exec (Agent env) Unit
load_ack env t record_text =
    let (parsed, info) = env.parse record_text in
    let c = make_cross_tx env info in
    if parsed
    then (do
      now ← on_world env (high_resolution env)
      on_table env t
          (emplace c.cross_tx_id (record c { send_ack_timeout = some (in_a_minute now) })))
    else pure tt

-- The loop over a set of records.
unfoldable pub load_all :
    (env : Env) → (Bytes → Exec (Agent env) Unit) → Map (Unit {0}) → Exec (Agent env) Unit
load_all env load [] = pure tt
load_all env load ((record_text, _) ∷ records) = do load record_text; load_all env load records

unfoldable pub load_found :
    (env : Env) → (Bytes → Exec (Agent env) Unit) → Option (Map (Unit {0})) → Exec (Agent env) Unit
load_found env load none = pure tt
load_found env load (some records) = load_all env load records

unfoldable pub load_prefix :
    (env : Env) → Table → (Bytes → Exec (Agent env) Unit) → Exec (Agent env) Unit
load_prefix env t load = do
  found ← on_db env (Proxy.get_all_value_by_prefix env (prefix t))
  load_found env load found

-- Layer1ToLayer2Handle::Initialize
unfoldable pub initialize : (env : Env) → Exec (Agent env) Bool
initialize env = do
  load_prefix env l1_send_tx (load_send_tx env)
  load_prefix env l1_send_ack (load_ack env l1_send_ack)
  load_prefix env l1_reply_ack (load_ack env l1_reply_ack)
  pure true
