-- ===== src/Glue/Layer1ToLayer2/Invariants.antt =====
-- What the methods of Layer1ToLayer2Handle keep: every invariant that the basic steps on its own maps keep.
use crosschain_agent.Prelude.{
  Bytes, Bool, true, false, ◌≡◌, Option, some, none, refl, List, ◌∷◌, ℤ, [],
}
use crosschain_agent.Exec.Keeps.{Keeps, keeps_rules, Keeps-bind, Keeps-pure}
use crosschain_agent.Messages.{CrossTxInfo}
use crosschain_agent.Glue.Layer1ToLayer2.Maps.{
  save_send_tx_info, clear_send_tx_info, save_send_ack_info, clear_send_ack_info,
  save_reply_ack_info, clear_reply_ack_info,
}
use crosschain_agent.Glue.Node.{
  Table, Agent, l1_send_tx, l1_send_ack, on_world, l1_reply_ack, on_db, on_table,
}
use crosschain_agent.Env.{Env, high_resolution}
use crosschain_agent.Glue.Node.Stable.{
  IsStable, Keeps-delete_erase, Keeps-put_emplace, Keeps-on_world, set_deadline, Keeps-postpone,
  Keeps-range_for,
}
use crosschain_agent.Exec.{Exec, ◌>>=◌, zoom, modify}
use crosschain_agent.Glue.Layer1ToLayer2.Parse.{read_items, make_cross_tx_info}
use crosschain_agent.Glue.Layer1ToLayer2.Send.{
  keep_send_tx, send_tx_to_layer2, keep_send_ack, send_ack_to_layer1, keep_reply_ack,
  reply_ack_to_layer2,
}
use crosschain_agent.General.{CrossTx, make_cross_tx}
use crosschain_agent.Database.Contract.{db_put_lem}
use crosschain_agent.Glue.Layer1ToLayer2.Events.{
  read_cross_tx, start_transfer, acknowledge, reply, handle_start_tx_event, acknowledge_send_tx,
  handle_send_tx_event, handle_send_ackd_tx_event,
}
use crosschain_agent.Glue.Layer1ToLayer2.TimeOuts.{
  postpone, deadline, expire_send_tx, check_send_tx, resend_send_ack, settle_send_ack,
  check_send_ack, resend_reply_ack, settle_reply_ack, check_reply_ack, send_tx_to_layer2_time_out,
  send_ack_to_layer1_time_out, reply_ack_to_layer2_time_out, on_timer,
}

-- The maps of the handle.
abbrev pub layer1 : Table → Bool
layer1 l1_send_tx = true
layer1 l1_send_ack = true
layer1 l1_reply_ack = true
layer1 _ = false

module _ {S : Type 0} {P : S → Type 0} where
  read_items-Keeps :
      (info1_list info2_list : List Bytes) → Keeps P (read_items {S = S} info1_list info2_list)
  unfolding read_items
  read_items-Keeps info1_list info2_list = search keeps_rules depth 40

  make_cross_tx_info-Keeps : (a b : Bytes) → Keeps P (make_cross_tx_info {S = S} a b)
  unfolding make_cross_tx_info
  make_cross_tx_info-Keeps [] b = search keeps_rules
  make_cross_tx_info-Keeps (c ∷ a) [] = search keeps_rules
  make_cross_tx_info-Keeps (c ∷ a) (d ∷ b) = search (keeps_rules, read_items-Keeps)

  pub read_cross_tx-Keeps : (o : Option (Bytes × Bytes)) → Keeps P (read_cross_tx {S = S} o)
  unfolding read_cross_tx
  read_cross_tx-Keeps none = search keeps_rules
  read_cross_tx-Keeps (some (a, b)) = make_cross_tx_info-Keeps a b

module _ (env : Env) {mine : Table → Bool} {P : Agent env → Type 0} (st : IsStable env mine P)
    (own : (t : Table) → layer1 t ≡ true → mine t ≡ true) where
  save_send_tx_info-Keeps :
      (info : CrossTxInfo) → Keeps P (save_send_tx_info env (some (make_cross_tx env info)))
  unfolding save_send_tx_info make_cross_tx
  save_send_tx_info-Keeps info =
      Keeps-put_emplace env st l1_send_tx (make_cross_tx env info) (own l1_send_tx refl)
        (info, refl, refl) refl

  clear_send_tx_info-Keeps : (k : Bytes) → Keeps P (clear_send_tx_info env k)
  unfolding clear_send_tx_info
  clear_send_tx_info-Keeps k = Keeps-delete_erase env st l1_send_tx k (own l1_send_tx refl)

  save_send_ack_info-Keeps :
      (info : CrossTxInfo) → Keeps P (save_send_ack_info env (some (make_cross_tx env info)))
  unfolding save_send_ack_info make_cross_tx ◌>>=◌ on_db on_world zoom on_table modify
      high_resolution
  save_send_ack_info-Keeps info = record {
    at = λ s h.
        let now = (env.clock s.world).0 in
        rw db_put_lem (
          st.saved l1_send_ack (set_deadline now (make_cross_tx env info))
            (record s { world = (env.clock s.world).1 }) (own l1_send_ack refl) (info, refl, refl)
            refl (st.in_world s _ h));
  }

  clear_send_ack_info-Keeps : (k : Bytes) → Keeps P (clear_send_ack_info env k)
  unfolding clear_send_ack_info
  clear_send_ack_info-Keeps k = Keeps-delete_erase env st l1_send_ack k (own l1_send_ack refl)

  save_reply_ack_info-Keeps :
      (info : CrossTxInfo) → Keeps P (save_reply_ack_info env (some (make_cross_tx env info)))
  unfolding save_reply_ack_info make_cross_tx ◌>>=◌ on_db on_world zoom on_table modify
      high_resolution
  save_reply_ack_info-Keeps info = record {
    at = λ s h.
        let now = (env.clock s.world).0 in
        rw db_put_lem (
          st.saved l1_reply_ack (set_deadline now (make_cross_tx env info))
            (record s { world = (env.clock s.world).1 }) (own l1_reply_ack refl) (info, refl, refl)
            refl (st.in_world s _ h));
  }

  clear_reply_ack_info-Keeps : (k : Bytes) → Keeps P (clear_reply_ack_info env k)
  unfolding clear_reply_ack_info
  clear_reply_ack_info-Keeps k = Keeps-delete_erase env st l1_reply_ack k (own l1_reply_ack refl)

  world_rule : {A : Type 0} (m : Exec env.World A) → Keeps P (on_world env m)
  world_rule m = Keeps-on_world env st m

  ruleset basic = (
    keeps_rules, world_rule, save_send_tx_info-Keeps, clear_send_tx_info-Keeps,
    save_send_ack_info-Keeps, clear_send_ack_info-Keeps, save_reply_ack_info-Keeps,
    clear_reply_ack_info-Keeps,
  )

  keep_send_tx-Keeps :
      (info : CrossTxInfo) (sent : Option Bytes) → Keeps P (keep_send_tx env info sent)
  unfolding keep_send_tx
  keep_send_tx-Keeps info none = search basic
  keep_send_tx-Keeps info (some txhash) = search basic

  send_tx_to_layer2-Keeps : (info : CrossTxInfo) → Keeps P (send_tx_to_layer2 env info)
  unfolding send_tx_to_layer2
  send_tx_to_layer2-Keeps info = search (basic, keep_send_tx-Keeps)

  keep_send_ack-Keeps :
      (info : CrossTxInfo) (sent : Option Bytes) → Keeps P (keep_send_ack env info sent)
  unfolding keep_send_ack
  keep_send_ack-Keeps info none = search basic
  keep_send_ack-Keeps info (some txhash) = search basic

  send_ack_to_layer1-Keeps : (info : CrossTxInfo) → Keeps P (send_ack_to_layer1 env info)
  unfolding send_ack_to_layer1
  send_ack_to_layer1-Keeps info = search (basic, keep_send_ack-Keeps)

  keep_reply_ack-Keeps :
      (info : CrossTxInfo) (sent : Option Bytes) → Keeps P (keep_reply_ack env info sent)
  unfolding keep_reply_ack
  keep_reply_ack-Keeps info none = search basic
  keep_reply_ack-Keeps info (some txhash) = search basic

  reply_ack_to_layer2-Keeps : (info : CrossTxInfo) → Keeps P (reply_ack_to_layer2 env info)
  unfolding reply_ack_to_layer2
  reply_ack_to_layer2-Keeps info = search (basic, keep_reply_ack-Keeps)

  ruleset sends =
      (basic, send_tx_to_layer2-Keeps, send_ack_to_layer1-Keeps, reply_ack_to_layer2-Keeps)

  start_transfer-Keeps : (o : Option CrossTxInfo) → Keeps P (start_transfer env o)
  unfolding start_transfer
  start_transfer-Keeps none = search sends
  start_transfer-Keeps (some x) = search sends

  acknowledge-Keeps :
      (k : Bytes) (status : ℤ) (o : Option CrossTxInfo) → Keeps P (acknowledge env k status o)
  unfolding acknowledge
  acknowledge-Keeps k status none = search sends
  acknowledge-Keeps k status (some x) = search sends

  reply-Keeps : (k : Bytes) (o : Option CrossTxInfo) → Keeps P (reply env k o)
  unfolding reply
  reply-Keeps k none = search sends
  reply-Keeps k (some x) = search sends

  ruleset readings =
      (sends, read_cross_tx-Keeps, start_transfer-Keeps, acknowledge-Keeps, reply-Keeps)

  pub handle_start_tx_event-Keeps : (k : Bytes) → Keeps P (handle_start_tx_event env k)
  unfolding handle_start_tx_event
  handle_start_tx_event-Keeps k = search readings

  acknowledge_send_tx-Keeps : (k : Bytes) (status : ℤ) → Keeps P (acknowledge_send_tx env k status)
  unfolding acknowledge_send_tx
  acknowledge_send_tx-Keeps k status = search readings

  pub handle_send_tx_event-Keeps : (k : Bytes) → Keeps P (handle_send_tx_event env k)
  unfolding handle_send_tx_event
  handle_send_tx_event-Keeps k = search acknowledge_send_tx-Keeps

  pub handle_send_ackd_tx_event-Keeps : (k : Bytes) → Keeps P (handle_send_ackd_tx_event env k)
  unfolding handle_send_ackd_tx_event
  handle_send_ackd_tx_event-Keeps k = search readings

  postpone_send_ack : (k : Bytes) (now : ℤ) → Keeps P (postpone env l1_send_ack k now)
  unfolding postpone
  postpone_send_ack k now = Keeps-postpone env st l1_send_ack k now (own l1_send_ack refl)

  postpone_reply_ack : (k : Bytes) (now : ℤ) → Keeps P (postpone env l1_reply_ack k now)
  unfolding postpone
  postpone_reply_ack k now = Keeps-postpone env st l1_reply_ack k now (own l1_reply_ack refl)

  deadline-Keeps : (c : CrossTx) → Keeps P (deadline env c)
  unfolding deadline
  deadline-Keeps c = search keeps_rules

  ruleset waits =
      (sends, acknowledge_send_tx-Keeps, postpone_send_ack, postpone_reply_ack, deadline-Keeps)

  expire_send_tx-Keeps : (c : CrossTx) → Keeps P (expire_send_tx env c)
  unfolding expire_send_tx
  expire_send_tx-Keeps c = search sends

  check_send_tx-Keeps : (now : ℤ) (k : Bytes) (c : CrossTx) → Keeps P (check_send_tx env now k c)
  unfolding check_send_tx
  check_send_tx-Keeps now k c = search (waits, expire_send_tx-Keeps)

  resend_send_ack-Keeps :
      (now : ℤ) (k : Bytes) (info : CrossTxInfo) → Keeps P (resend_send_ack env now k info)
  unfolding resend_send_ack
  resend_send_ack-Keeps now k info = search waits

  settle_send_ack-Keeps :
      (now : ℤ) (k : Bytes) (c : CrossTx) (info : CrossTxInfo)
      → Keeps P (settle_send_ack env now k c info)
  unfolding settle_send_ack
  settle_send_ack-Keeps now k c info = search (waits, resend_send_ack-Keeps) depth 9

  check_send_ack-Keeps : (now : ℤ) (k : Bytes) (c : CrossTx) → Keeps P (check_send_ack env now k c)
  unfolding check_send_ack
  check_send_ack-Keeps now k c = search (waits, resend_send_ack-Keeps, settle_send_ack-Keeps)

  resend_reply_ack-Keeps :
      (now : ℤ) (k : Bytes) (info : CrossTxInfo) → Keeps P (resend_reply_ack env now k info)
  unfolding resend_reply_ack
  resend_reply_ack-Keeps now k info = search waits

  settle_reply_ack-Keeps :
      (now : ℤ) (k : Bytes) (c : CrossTx) (info : CrossTxInfo)
      → Keeps P (settle_reply_ack env now k c info)
  unfolding settle_reply_ack
  settle_reply_ack-Keeps now k c info = search (waits, resend_reply_ack-Keeps) depth 9

  check_reply_ack-Keeps :
      (now : ℤ) (k : Bytes) (c : CrossTx) → Keeps P (check_reply_ack env now k c)
  unfolding check_reply_ack
  check_reply_ack-Keeps now k c = search (waits, settle_reply_ack-Keeps)

  send_tx_to_layer2_time_out-Keeps : Keeps P (send_tx_to_layer2_time_out env)
  unfolding send_tx_to_layer2_time_out
  send_tx_to_layer2_time_out-Keeps = Keeps-bind _ _ (world_rule _) λ now.
      Keeps-bind _ _ (Keeps-range_for env st l1_send_tx _ (check_send_tx-Keeps now))
        λ _. Keeps-pure _

  send_ack_to_layer1_time_out-Keeps : Keeps P (send_ack_to_layer1_time_out env)
  unfolding send_ack_to_layer1_time_out
  send_ack_to_layer1_time_out-Keeps = Keeps-bind _ _ (world_rule _) λ now.
      Keeps-bind _ _ (Keeps-range_for env st l1_send_ack _ (check_send_ack-Keeps now))
        λ _. Keeps-pure _

  reply_ack_to_layer2_time_out-Keeps : Keeps P (reply_ack_to_layer2_time_out env)
  unfolding reply_ack_to_layer2_time_out
  reply_ack_to_layer2_time_out-Keeps = Keeps-bind _ _ (world_rule _) λ now.
      Keeps-bind _ _ (Keeps-range_for env st l1_reply_ack _ (check_reply_ack-Keeps now))
        λ _. Keeps-pure _

  pub on_timer-Keeps : (now : ℤ) → Keeps P (on_timer env now)
  unfolding on_timer
  on_timer-Keeps now =
      search
        (
          keeps_rules, send_tx_to_layer2_time_out-Keeps, send_ack_to_layer1_time_out-Keeps,
          reply_ack_to_layer2_time_out-Keeps,
        )
        depth 8
