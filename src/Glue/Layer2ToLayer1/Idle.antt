-- ===== src/Glue/Layer2ToLayer1/Idle.antt =====
-- Layer2ToLayer1Handle: the loops of the timer where nothing is due.
use crosschain_agent.Prelude.{Bytes, ℤ, ◌≡◌, All, refl, true, All-map}
use crosschain_agent.Env.{Env}
use crosschain_agent.Glue.Node.{Agent, Table, l2_start_tx, l2_send_tx, l2_send_ack, l2_reply_ack}
use crosschain_agent.Glue.Layer2ToLayer1.TimeOuts.{
  start_tx_time_out, check_start_tx, check_send_tx, check_send_ack, check_reply_ack,
  send_tx_to_layer1_time_out, deadline, send_ack_to_layer2_time_out, reply_ack_to_layer1_time_out,
}
use crosschain_agent.Exec.{pure, ◌>>=◌, done}
use crosschain_agent.General.{CrossTx}
use crosschain_agent.Glue.Node.Idle.{WaitsToSend, WaitsForAck, now_of, read_clock, timed_idle}
use crosschain_agent.Map.Order.{IsSorted}

module _ (env : Env) (s : Agent env) (now : ℤ) where
  check_start_tx_idle :
      (k : Bytes) (c : CrossTx) → WaitsToSend now c → check_start_tx env now k c s ≡ done (tt, s)
  unfolding check_start_tx pure
  check_start_tx_idle k c early = rw early refl

  check_send_tx_idle :
      (k : Bytes) (c : CrossTx) → WaitsToSend now c → check_send_tx env now k c s ≡ done (tt, s)
  unfolding check_send_tx pure
  check_send_tx_idle k c early = rw early refl

  check_send_ack_idle :
      (k : Bytes) (c : CrossTx) → WaitsForAck now c → check_send_ack env now k c s ≡ done (tt, s)
  unfolding check_send_ack deadline ◌>>=◌
  check_send_ack_idle k c (z, e, early) = rw e (rw early refl)

  check_reply_ack_idle :
      (k : Bytes) (c : CrossTx) → WaitsForAck now c → check_reply_ack env now k c s ≡ done (tt, s)
  unfolding check_reply_ack deadline ◌>>=◌
  check_reply_ack_idle k c (z, e, early) = rw e (rw early refl)

module _ (env : Env) (s : Agent env) where
  -- If nothing in the four maps is due and the maps are in order, then each of the four methods of the
  -- timer ends with the result true and has done nothing but to read the clock.
  pub layer2_time_outs_idle :
      ((t : Table) → IsSorted (s.tables t))
      → All (λ e. WaitsToSend (now_of env s) e.1) (s.tables l2_start_tx)
      → All (λ e. WaitsToSend (now_of env s) e.1) (s.tables l2_send_tx)
      → All (λ e. WaitsForAck (now_of env s) e.1) (s.tables l2_send_ack)
      → All (λ e. WaitsForAck (now_of env s) e.1) (s.tables l2_reply_ack)
      → (start_tx_time_out env s ≡ done (true, read_clock env s))
        × (send_tx_to_layer1_time_out env s ≡ done (true, read_clock env s))
        × (send_ack_to_layer2_time_out env s ≡ done (true, read_clock env s))
        × (reply_ack_to_layer1_time_out env s ≡ done (true, read_clock env s))
  unfolding start_tx_time_out send_tx_to_layer1_time_out send_ack_to_layer2_time_out
      reply_ack_to_layer1_time_out
  layer2_time_outs_idle sorted starts sends acks replies =
      let s' = read_clock env s in
      let now = now_of env s in
      (
        timed_idle env s l2_start_tx (check_start_tx env) (sorted _)
            (All-map (λ e. check_start_tx_idle env s' now e.0 e.1) _ starts),
        timed_idle env s l2_send_tx (check_send_tx env) (sorted _)
            (All-map (λ e. check_send_tx_idle env s' now e.0 e.1) _ sends),
        timed_idle env s l2_send_ack (check_send_ack env) (sorted _)
            (All-map (λ e. check_send_ack_idle env s' now e.0 e.1) _ acks),
        timed_idle env s l2_reply_ack (check_reply_ack env) (sorted _)
            (All-map (λ e. check_reply_ack_idle env s' now e.0 e.1) _ replies),
      )
