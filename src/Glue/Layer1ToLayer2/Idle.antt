-- ===== src/Glue/Layer1ToLayer2/Idle.antt =====
-- Layer1ToLayer2Handle: the loops of the timer where nothing is due.
use crosschain_agent.Prelude.{Bytes, ℤ, ◌≡◌, All, refl, true, All-map}
use crosschain_agent.Env.{Env}
use crosschain_agent.Glue.Node.{Agent, Table, l1_send_tx, l1_send_ack, l1_reply_ack}
use crosschain_agent.Glue.Layer1ToLayer2.TimeOuts.{
  send_tx_to_layer2_time_out, check_send_tx, check_send_ack, check_reply_ack,
  send_ack_to_layer1_time_out, deadline, reply_ack_to_layer2_time_out,
}
use crosschain_agent.Exec.{pure, ◌>>=◌, done}
use crosschain_agent.General.{CrossTx}
use crosschain_agent.Glue.Node.Idle.{WaitsToSend, WaitsForAck, now_of, read_clock, timed_idle}
use crosschain_agent.Map.Order.{IsSorted}

module _ (env : Env) (s : Agent env) (now : ℤ) where
  check_send_tx_idle :
      (k : Bytes) (c : CrossTx) → WaitsToSend now c → check_send_tx env now k c s ≡ done (tt, s)
  unfolding check_send_tx pure
  check_send_tx_idle k c early = rw early refl

  check_send_ack_idle :
      (k : Bytes) (c : CrossTx) → WaitsForAck now c → check_send_ack env now k c s ≡ done (tt, s)
  unfolding check_send_ack deadline ◌>>=◌
  check_send_ack_idle k c (z, e, early) = rw e (rw early refl)

  check_reply_ack_idle :
      (k : Bytes) (c : CrossTx) → WaitsForAck now c → check_reply_ack env now k c s ≡ done (tt, s)
  unfolding check_reply_ack deadline ◌>>=◌
  check_reply_ack_idle k c (z, e, early) = rw e (rw early refl)

module _ (env : Env) (s : Agent env) where
  -- If nothing in the three maps is due and the maps are in order, then each of the three methods of the
  -- timer ends with the result true and has done nothing but to read the clock.
  pub layer1_time_outs_idle :
      ((t : Table) → IsSorted (s.tables t))
      → All (λ e. WaitsToSend (now_of env s) e.1) (s.tables l1_send_tx)
      → All (λ e. WaitsForAck (now_of env s) e.1) (s.tables l1_send_ack)
      → All (λ e. WaitsForAck (now_of env s) e.1) (s.tables l1_reply_ack)
      → (send_tx_to_layer2_time_out env s ≡ done (true, read_clock env s))
        × (send_ack_to_layer1_time_out env s ≡ done (true, read_clock env s))
        × (reply_ack_to_layer2_time_out env s ≡ done (true, read_clock env s))
  unfolding send_tx_to_layer2_time_out send_ack_to_layer1_time_out reply_ack_to_layer2_time_out
  layer1_time_outs_idle sorted sends acks replies =
      let s' = read_clock env s in
      let now = now_of env s in
      (
        timed_idle env s l1_send_tx (check_send_tx env) (sorted _)
            (All-map (λ e. check_send_tx_idle env s' now e.0 e.1) _ sends),
        timed_idle env s l1_send_ack (check_send_ack env) (sorted _)
            (All-map (λ e. check_send_ack_idle env s' now e.0 e.1) _ acks),
        timed_idle env s l1_reply_ack (check_reply_ack env) (sorted _)
            (All-map (λ e. check_reply_ack_idle env s' now e.0 e.1) _ replies),
      )
