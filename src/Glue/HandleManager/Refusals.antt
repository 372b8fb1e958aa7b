-- ===== src/Glue/HandleManager/Refusals.antt =====
-- HandleManager: the messages and the starts that it answers with false.
use crosschain_agent.Env.{Env}
use crosschain_agent.Exec.Keeps.{Keeps}
use crosschain_agent.Glue.Layer1ToLayer2.Refusals as One
use crosschain_agent.Glue.Layer2ToLayer1.Refusals as Two
use crosschain_agent.Glue.Node.{Agent}
use crosschain_agent.Glue.Node.Unchanged.{Unchanged}

module _ (env : Env) (before : Agent env) where
  abbrev P : Agent env → Type 0
  P = Unchanged env before
