-- ===== src/Glue/Node.antt =====
-- The state that the methods of src/glue share: the outside world, the store, and the maps of transfers
-- in progress, which are members of Layer1ToLayer2Handle and Layer2ToLayer1Handle. The locks are left
-- out: they are recursive (utils/thread.cpp), and a method is one step of the model.
pub mod Stable
pub mod Keys
pub mod Sweep
pub mod Move
pub mod Saved
pub mod Idle
pub mod Unchanged
use crosschain_agent.Prelude.{
  Bytes, codes, ◌++◌, ℕ, Bool, if◌then◌else◌, ℤ, map, ◌==◌, add_int64, pos, Option, length, some,
  none, suc, zero,
}
use crosschain_agent.Database.Proxy
use crosschain_agent.Map.{Map, has, begin, upper_bound}
use crosschain_agent.Env.{Env}
use crosschain_agent.Exec.{
  zoom, modify, ◌>>=◌, Exec, gets, pure, raise, out_of_fuel, ◌>>◌, expect, dangling,
}
use crosschain_agent.General.{CrossTx}

-- The seven maps, `l1_` those of Layer1ToLayer2Handle and `l2_` those of Layer2ToLayer1Handle.
pub data Table : Type 0 where
  l1_send_tx l1_send_ack l1_reply_ack l2_start_tx l2_send_tx l2_send_ack l2_reply_ack : Table

-- The members `..._prefix_`, as the two constructors set them.
unfoldable pub prefix : Table → Bytes
prefix l1_send_tx = codes "L1_SendTx_"
prefix l1_send_ack = codes "L1_SendAckInfo_"
prefix l1_reply_ack = codes "L1_ReplyAckInfo_"
prefix l2_start_tx = codes "L2_StartTx_"
prefix l2_send_tx = codes "L2_SendTx_"
prefix l2_send_ack = codes "L2_SendAck_"
prefix l2_reply_ack = codes "L2_ReplyAck_"

-- The key in the store of a transfer in a map. Identifiers hold no NUL byte, so that `c_str()` is the
-- whole text.
abbrev pub db_key : Table → Bytes → Bytes
db_key t cross_txid = prefix t ++ cross_txid

abbrev number : Table → ℕ
number l1_send_tx = 0
number l1_send_ack = 1
number l1_reply_ack = 2
number l2_start_tx = 3
number l2_send_tx = 4
number l2_send_ack = 5
number l2_reply_ack = 6

abbrev pub same : Table → Table → Bool
same t u = number t == number u

pub record Node (W D : Type 0) : Type 0 where
  pub world : W
  pub db : D
  pub tables : Table → Map CrossTx

abbrev pub Agent : Env → Type 0
Agent env = Node env.World env.Db

unfoldable pub set_table {ℓ} : {A : Type ℓ} → Table → A → (Table → A) → Table → A
set_table t m tables u = if same t u then m else tables u

unfoldable pub on_world : {A : Type 0} (env : Env) → Exec env.World A → Exec (Agent env) A
on_world env m = zoom (λ s. s.world) (λ s w. record s { world = w }) m

unfoldable pub on_db : {A : Type 0} (env : Env) → Exec env.Db A → Exec (Agent env) A
on_db env m = zoom (λ s. s.db) (λ s d. record s { db = d }) m

unfoldable pub on_table : (env : Env) → Table → (Map CrossTx → Map CrossTx) → Exec (Agent env) Unit
on_table env t f = modify (λ s. record s { tables = set_table t (f (s.tables t)) s.tables })

-- `now + MICRO_UNITS_PER_SEC * 60`
abbrev pub in_a_minute : ℤ → ℤ
in_a_minute now = add_int64 now (pos 60_000_000)

-- The place after the entry `k`: `none` if the entry is gone, else the next entry, if there is one.
unfoldable pub advance : Bytes → Map CrossTx → Option (Option (Bytes × CrossTx))
advance k m = if has k m then some (upper_bound k m) else none

-- `for (const auto& entry : map) body`, from an entry on. The body may change the map: the loop goes to
-- the next greater key of the map as it then is, and an entry that the body has erased has no next.
unfoldable pub sweep :
    (env : Env)
    → Table
    → (Bytes → CrossTx → Exec (Agent env) Unit)
    → ℕ
    → Option (Bytes × CrossTx)
    → Exec (Agent env) Unit
sweep env t body fuel none = pure tt
sweep env t body zero (some e) = raise out_of_fuel
sweep env t body (suc fuel) (some (k, c)) = do
  body k c
  here ← gets (λ s. advance k (s.tables t))
  next ← expect dangling here
  sweep env t body fuel next

-- The loop over a whole map, for at most as many rounds as the map has entries at its start.
unfoldable pub range_for :
    (env : Env) → Table → (Bytes → CrossTx → Exec (Agent env) Unit) → Exec (Agent env) Unit
range_for env t body = do m ← gets (λ s. s.tables t); sweep env t body (length m) (begin m)
