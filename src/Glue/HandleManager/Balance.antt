-- ===== src/Glue/HandleManager/Balance.antt =====
-- HandleManager::Initialize: the agent does not start on an account that cannot pay.
use crosschain_agent.Prelude.{
  arith, int64, ltb, mul_int64, not, pos, some, ℕ, ◌*ℤ◌, ◌*◌, ◌<◌, ◌^◌, ◌≡◌,
}
use crosschain_agent.Glue.HandleManager.{enough, min_balance, Env, Agent, get_balance, on_world}
use crosschain_agent.Exec.{Exec}
use crosschain_agent.Env.{Env}
use crosschain_agent.Glue.Node.{Agent, on_world}
use crosschain_agent.WebClient.{get_balance}

mul_int64-pos : (a b : ℕ) → a * b < 2 ^ 63 → mul_int64 (pos a) (pos b) ≡ pos (a * b)
unfolding mul_int64 int64 ◌*ℤ◌
mul_int64-pos a b h = ground arith

-- If the fees are small enough for 100 * fee_limit * gas_price to fit 64 bits, then a balance is enough
-- exactly if it is at least that product.
pub enough_lem :
    (balance fee_limit gas_price : ℕ)
    → 100 * fee_limit < 2 ^ 63
    → 100 * fee_limit * gas_price < 2 ^ 63
    → enough (some (pos balance)) (min_balance (pos fee_limit) (pos gas_price))
      ≡ not (ltb balance (100 * fee_limit * gas_price))
unfolding enough min_balance
enough_lem balance fee_limit gas_price small fits =
    rw (mul_int64-pos 100 fee_limit small, mul_int64-pos (100 * fee_limit) gas_price fits)
      (ground arith)
