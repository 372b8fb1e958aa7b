-- ===== src/Glue/Layer2ToLayer1/Refusals.antt =====
-- Layer2ToLayer1Handle: the events that it answers with false.
use crosschain_agent.Prelude.{Bytes, Option, ℤ, some, none, Bool}
use crosschain_agent.Env.{Env}
use crosschain_agent.Messages.{CrossTxInfo}
use crosschain_agent.Exec.Refusals.{
  Refuses, OnFalse, Refuses-bind, Refuses-branch, Refuses-false, Accepts-Refuses, accepts_rules,
}
use crosschain_agent.Glue.Node.{Agent, on_world}
use crosschain_agent.Glue.Node.Unchanged.{Unchanged, Keeps-on_world-Unchanged, Unchanged-refl}
use crosschain_agent.Glue.Layer2ToLayer1.Invariants.{read_cross_tx-Keeps}
use crosschain_agent.Glue.Layer2ToLayer1.Events.{
  handle_start_tx_event, handle_send_tx_event, handle_send_ackd_tx_event, start_transfer,
  acknowledge, acknowledge_send_tx, reply, keep_start, read_cross_tx,
}
use crosschain_agent.Glue.Layer2ToLayer1.Send.{
  keep_send_ack, keep_reply_ack, send_ack_to_layer2, reply_ack_to_layer1,
}
use crosschain_agent.Exec.{Exec, ◌>>=◌}

module _ (env : Env) (before : Agent env) where
  abbrev P : Agent env → Type 0
  P = Unchanged env before

  keep_send_ack-Refuses :
      (info : CrossTxInfo) (sent : Option Bytes) → Refuses P (keep_send_ack env info sent)
  unfolding keep_send_ack
  keep_send_ack-Refuses info none = Refuses-false
  keep_send_ack-Refuses info (some txhash) = Accepts-Refuses _ (search accepts_rules)

  send_ack_to_layer2-Refuses : (info : CrossTxInfo) → Refuses P (send_ack_to_layer2 env info)
  unfolding send_ack_to_layer2
  send_ack_to_layer2-Refuses info =
      Refuses-bind _ _ (Keeps-on_world-Unchanged env before _) (keep_send_ack-Refuses info)

  keep_reply_ack-Refuses :
      (info : CrossTxInfo) (sent : Option Bytes) → Refuses P (keep_reply_ack env info sent)
  unfolding keep_reply_ack
  keep_reply_ack-Refuses info none = Refuses-false
  keep_reply_ack-Refuses info (some txhash) = Accepts-Refuses _ (search accepts_rules)

  reply_ack_to_layer1-Refuses : (info : CrossTxInfo) → Refuses P (reply_ack_to_layer1 env info)
  unfolding reply_ack_to_layer1
  reply_ack_to_layer1-Refuses info =
      Refuses-bind _ _ (Keeps-on_world-Unchanged env before _) (keep_reply_ack-Refuses info)

  keep_start-Refuses : (info : CrossTxInfo) (o : Option ℤ) → Refuses P (keep_start env info o)
  unfolding keep_start
  keep_start-Refuses info none = Refuses-false
  keep_start-Refuses info (some seq) = Accepts-Refuses _ (search accepts_rules)

  start_transfer-Refuses : (o : Option CrossTxInfo) → Refuses P (start_transfer env o)
  unfolding start_transfer
  start_transfer-Refuses none = Refuses-false
  start_transfer-Refuses (some info) =
      Refuses-bind _ _ (Keeps-on_world-Unchanged env before _) (keep_start-Refuses info)

  acknowledge-Refuses :
      (k : Bytes) (status : ℤ) (o : Option CrossTxInfo) → Refuses P (acknowledge env k status o)
  unfolding acknowledge
  acknowledge-Refuses k status none = Refuses-false
  acknowledge-Refuses k status (some info) =
      Refuses-branch _ _ (send_ack_to_layer2-Refuses _) (search accepts_rules) Refuses-false

  reply-Refuses : (k : Bytes) (o : Option CrossTxInfo) → Refuses P (reply env k o)
  unfolding reply
  reply-Refuses k none = Refuses-false
  reply-Refuses k (some info) =
      Refuses-branch _ _ (reply_ack_to_layer1-Refuses _) (search accepts_rules) Refuses-false

  -- A question to a node, the parse of its answer, and what follows.
  read-Refuses :
      (m : Exec env.World (Option (Bytes × Bytes)))
      (next : Option CrossTxInfo → Exec (Agent env) Bool)
      → ((o : Option CrossTxInfo) → Refuses P (next o))
      → Refuses P (on_world env m >>= λ found. read_cross_tx found >>= next)
  read-Refuses m next goes =
      Refuses-bind _ _ (Keeps-on_world-Unchanged env before m)
        λ found. Refuses-bind _ _ (read_cross_tx-Keeps found) goes

  pub handle_start_tx_event-Refuses : (k : Bytes) → Refuses P (handle_start_tx_event env k)
  unfolding handle_start_tx_event
  handle_start_tx_event-Refuses k = read-Refuses _ _ start_transfer-Refuses

  pub handle_send_tx_event-Refuses : (k : Bytes) → Refuses P (handle_send_tx_event env k)
  unfolding handle_send_tx_event acknowledge_send_tx
  handle_send_tx_event-Refuses k = read-Refuses _ _ (acknowledge-Refuses k _)

  pub handle_send_ackd_tx_event-Refuses : (k : Bytes) → Refuses P (handle_send_ackd_tx_event env k)
  unfolding handle_send_ackd_tx_event
  handle_send_ackd_tx_event-Refuses k = read-Refuses _ _ (reply-Refuses k)

-- Whatever the nodes answer: if HandleStartTxEvent, HandleSendTxEvent or HandleSendAckdTxEvent of
-- Layer2ToLayer1Handle answers false, then the maps and the store are as they were before the event.
pub layer2_false-Unchanged :
    (env : Env) (k : Bytes) (s : Agent env)
    → OnFalse (Unchanged env s) (handle_start_tx_event env k s)
      × OnFalse (Unchanged env s) (handle_send_tx_event env k s)
      × OnFalse (Unchanged env s) (handle_send_ackd_tx_event env k s)
layer2_false-Unchanged env k s = (
  (handle_start_tx_event-Refuses env s k).at s (Unchanged-refl env s),
  (handle_send_tx_event-Refuses env s k).at s (Unchanged-refl env s),
  (handle_send_ackd_tx_event-Refuses env s k).at s (Unchanged-refl env s),
)
