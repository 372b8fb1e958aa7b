-- ===== src/Glue/Node/Idle.antt =====
-- The methods of the timer where nothing is due.
use crosschain_agent.Prelude.{All, Bytes, false, ltb_ℤ, refl, some, true, ℤ, ◌≡◌}
use crosschain_agent.Env.{Env, high_resolution}
use crosschain_agent.Glue.Node.{Agent, on_world, Table, range_for}
use crosschain_agent.General.{CrossTx}
use crosschain_agent.Exec.{Exec, done, pure, state, zoom, ◌>>=◌, ◌>>◌}
use crosschain_agent.Map.Order.{IsSorted}
use crosschain_agent.Glue.Node.Sweep.{range_for_idle}

-- The clock's next value, and the state after it has been read.
abbrev pub now_of : (env : Env) → Agent env → ℤ
now_of env s = (env.clock s.world).0

abbrev pub read_clock : (env : Env) → Agent env → Agent env
read_clock env s = record s { world = (env.clock s.world).1 }

-- The time at which an entry is due has not passed.
abbrev pub WaitsToSend : ℤ → CrossTx → Type 0
WaitsToSend now c = ltb_ℤ c.send_tx_timeout now ≡ false

abbrev pub WaitsForAck : ℤ → CrossTx → Type 0
WaitsForAck now c = (z : ℤ) × (c.send_ack_timeout ≡ some z) × (ltb_ℤ z now ≡ false)

module _ (env : Env) (s : Agent env) where
  -- A method of the timer whose loop has nothing to do.
  pub timed_idle :
      (t : Table) (body : ℤ → Bytes → CrossTx → Exec (Agent env) Unit)
      → IsSorted (s.tables t)
      → All
          (λ e. body (now_of env s) e.0 e.1 (read_clock env s) ≡ done (tt, read_clock env s))
          (s.tables t)
      → (do
        current_time ← on_world env (high_resolution env)
        range_for env t (body current_time)
        pure true)
          s
        ≡ done (true, read_clock env s)
  unfolding on_world high_resolution zoom state ◌>>=◌
  timed_idle t body sorted idle =
      rw (range_for_idle env t (body (now_of env s)) (read_clock env s) sorted idle) refl
