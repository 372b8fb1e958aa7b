-- ===== src/Glue/Layer1ToLayer2/Refusals.antt =====
-- Layer1ToLayer2Handle: the events that it answers with false.
use crosschain_agent.Prelude.{Bytes, Option, ℤ, some, none, Bool}
use crosschain_agent.Env.{Env}
use crosschain_agent.Messages.{CrossTxInfo}
use crosschain_agent.Exec.Refusals.{
  Refuses, Refuses-bind, Refuses-branch, Refuses-false, Accepts-Refuses, Accepts-true,
  accepts_rules,
}
use crosschain_agent.Glue.Node.{Agent, on_world}
use crosschain_agent.Glue.Node.Unchanged.{Unchanged, Keeps-on_world-Unchanged}
use crosschain_agent.Glue.Layer1ToLayer2.Invariants.{read_cross_tx-Keeps}
use crosschain_agent.Glue.Layer1ToLayer2.Events.{
  handle_start_tx_event, handle_send_tx_event, handle_send_ackd_tx_event, start_transfer,
  acknowledge, acknowledge_send_tx, reply, read_cross_tx,
}
use crosschain_agent.Glue.Layer1ToLayer2.Send.{
  keep_send_tx, keep_send_ack, keep_reply_ack, send_tx_to_layer2, send_ack_to_layer1,
  reply_ack_to_layer2,
}
use crosschain_agent.Exec.{Exec, ◌>>=◌}

module _ (env : Env) (before : Agent env) where
  abbrev P : Agent env → Type 0
  P = Unchanged env before

  keep_send_tx-Refuses :
      (info : CrossTxInfo) (sent : Option Bytes) → Refuses P (keep_send_tx env info sent)
  unfolding keep_send_tx
  keep_send_tx-Refuses info none = Refuses-false
  keep_send_tx-Refuses info (some txhash) = Accepts-Refuses _ (search accepts_rules)

  send_tx_to_layer2-Refuses : (info : CrossTxInfo) → Refuses P (send_tx_to_layer2 env info)
  unfolding send_tx_to_layer2
  send_tx_to_layer2-Refuses info =
      Refuses-bind _ _ (Keeps-on_world-Unchanged env before _) (keep_send_tx-Refuses info)

  keep_send_ack-Refuses :
      (info : CrossTxInfo) (sent : Option Bytes) → Refuses P (keep_send_ack env info sent)
  unfolding keep_send_ack
  keep_send_ack-Refuses info none = Refuses-false
  keep_send_ack-Refuses info (some txhash) = Accepts-Refuses _ (search accepts_rules)

  send_ack_to_layer1-Refuses : (info : CrossTxInfo) → Refuses P (send_ack_to_layer1 env info)
  unfolding send_ack_to_layer1
  send_ack_to_layer1-Refuses info =
      Refuses-bind _ _ (Keeps-on_world-Unchanged env before _) (keep_send_ack-Refuses info)

  keep_reply_ack-Refuses :
      (info : CrossTxInfo) (sent : Option Bytes) → Refuses P (keep_reply_ack env info sent)
  unfolding keep_reply_ack
  keep_reply_ack-Refuses info none = Refuses-false
  keep_reply_ack-Refuses info (some txhash) = Accepts-Refuses _ (search accepts_rules)

  reply_ack_to_layer2-Refuses : (info : CrossTxInfo) → Refuses P (reply_ack_to_layer2 env info)
  unfolding reply_ack_to_layer2
  reply_ack_to_layer2-Refuses info =
      Refuses-bind _ _ (Keeps-on_world-Unchanged env before _) (keep_reply_ack-Refuses info)

  start_transfer-Refuses : (o : Option CrossTxInfo) → Refuses P (start_transfer env o)
  unfolding start_transfer
  start_transfer-Refuses none = Refuses-false
  start_transfer-Refuses (some info) =
      Refuses-branch _ _ (send_tx_to_layer2-Refuses info) Accepts-true
        (Accepts-Refuses _ (search accepts_rules))

  acknowledge-Refuses :
      (k : Bytes) (status : ℤ) (o : Option CrossTxInfo) → Refuses P (acknowledge env k status o)
  unfolding acknowledge
  acknowledge-Refuses k status none = Refuses-false
  acknowledge-Refuses k status (some info) =
      Refuses-branch _ _ (send_ack_to_layer1-Refuses _) (search accepts_rules) Refuses-false

  reply-Refuses : (k : Bytes) (o : Option CrossTxInfo) → Refuses P (reply env k o)
  unfolding reply
  reply-Refuses k none = Refuses-false
  reply-Refuses k (some info) =
      Refuses-branch _ _ (reply_ack_to_layer2-Refuses _) (search accepts_rules) Refuses-false

  -- A question to a node, the parse of its answer, and what follows.
  read-Refuses :
      (m : Exec env.World (Option (Bytes × Bytes)))
      (next : Option CrossTxInfo → Exec (Agent env) Bool)
      → ((o : Option CrossTxInfo) → Refuses P (next o))
      → Refuses P (on_world env m >>= λ found. read_cross_tx found >>= next)
  read-Refuses m next goes =
      Refuses-bind _ _ (Keeps-on_world-Unchanged env before m)
        λ found. Refuses-bind _ _ (read_cross_tx-Keeps found) goes

  pub handle_start_tx_event-Refuses : (k : Bytes) → Refuses P (handle_start_tx_event env k)
  unfolding handle_start_tx_event
  handle_start_tx_event-Refuses k = read-Refuses _ _ start_transfer-Refuses

  pub handle_send_tx_event-Refuses : (k : Bytes) → Refuses P (handle_send_tx_event env k)
  unfolding handle_send_tx_event acknowledge_send_tx
  handle_send_tx_event-Refuses k = read-Refuses _ _ (acknowledge-Refuses k _)

  pub handle_send_ackd_tx_event-Refuses : (k : Bytes) → Refuses P (handle_send_ackd_tx_event env k)
  unfolding handle_send_ackd_tx_event
  handle_send_ackd_tx_event-Refuses k = read-Refuses _ _ (reply-Refuses k)
