-- ===== src/Glue/Node/Unchanged.antt =====
-- Agents that differ in the outside world alone.
use crosschain_agent.Prelude.{false, refl, ◌≡◌}
use crosschain_agent.Env.{Env}
use crosschain_agent.Exec.{Exec}
use crosschain_agent.Exec.Keeps.{Keeps}
use crosschain_agent.Glue.Node.{Agent, on_world}
use crosschain_agent.Glue.Node.Stable.{IsStable, Keeps-on_world}

-- The store and the maps of `s` are those of `before`.
abbrev pub Unchanged : (env : Env) → Agent env → Agent env → Type 0
Unchanged env before s = (s.db ≡ before.db) × (s.tables ≡ before.tables)

pub Unchanged-refl : (env : Env) (s : Agent env) → Unchanged env s s
Unchanged-refl env s = (refl, refl)

Unchanged-IsStable :
    (env : Env) (before : Agent env) → IsStable env (λ t. false) (Unchanged env before)
Unchanged-IsStable env before = record {
  in_world = λ s w h. h;
  saved = λ t c s own made in_time h. cc;
  cleared = λ t k s own h. cc;
  postponed = λ t k now s own h. cc;
}

pub Keeps-on_world-Unchanged :
    {A : Type 0} (env : Env) (before : Agent env) (m : Exec env.World A)
    → Keeps (Unchanged env before) (on_world env m)
Keeps-on_world-Unchanged env before m = Keeps-on_world env (Unchanged-IsStable env before) m
