-- ===== src/Glue/Layer1ToLayer2/Hazards.antt =====
-- Layer1ToLayer2Handle: an acknowledgement that is sent again.
use crosschain_agent.Prelude.{Bytes, ◌≡◌, some, pos, true, bytes_eq_refl, refl}
use crosschain_agent.Glue.Layer1ToLayer2.Send.{
  send_ack_to_layer1, keep_send_ack, send_transaction_to_layer1, send_acked_tx_input,
}
use crosschain_agent.Glue.Layer1ToLayer2.Maps.{save_send_ack_info}
use crosschain_agent.Glue.Node.{on_world, on_db, on_table, set_table, Agent, l1_send_ack, db_key}
use crosschain_agent.Env.{high_resolution, Env, GetStatus}
use crosschain_agent.Exec.{zoom, state, ◌>>=◌, modify, done}
use crosschain_agent.General.{make_cross_tx, CrossTx}
use crosschain_agent.Database.Contract.{DbLaws, db_put_lem}
use crosschain_agent.Messages.{CrossTxInfo}
use crosschain_agent.Map.{find}
use crosschain_agent.Glue.Node.Stable.{set_deadline, save_state}
use crosschain_agent.Map.Laws.{find-emplace}

-- SendAckToLayer1, for a transfer that is among the acknowledgements already, where the new transaction
-- is accepted with the hash `hash`: the result is true and the record in the store has the new hash, but
-- the entry in memory, whose hash the timer asks for, stays the old one.
pub send_ack_to_layer1_again :
    (env : Env)
    → DbLaws env
    → (info : CrossTxInfo) (s : Agent env) (old : CrossTx) (hash : Bytes) (w : env.World)
    → find info.crosstxid (s.tables l1_send_ack) ≡ some old
    → send_transaction_to_layer1 env (send_acked_tx_input env info) (pos 0) s.world
      ≡ done (some hash, w)
    → (s' : Agent env) × (send_ack_to_layer1 env info s ≡ done (true, s'))
      × (find info.crosstxid (s'.tables l1_send_ack) ≡ some old)
      × (env.db_get (db_key l1_send_ack info.crosstxid) s'.db
          ≡ GetStatus.ok (env.serialize (record info { sendacktol1hash = hash })))
unfolding send_ack_to_layer1 keep_send_ack save_send_ack_info on_world high_resolution zoom state
    ◌>>=◌ on_db on_table modify make_cross_tx set_table
send_ack_to_layer1_again env laws info s old hash w known sent =
    let saved : CrossTx =
      set_deadline (env.clock w).0 (make_cross_tx env (record info { sendacktol1hash = hash })) in
    (
      save_state env l1_send_ack saved (record s { world = (env.clock w).1 }),
      rw sent (rw db_put_lem refl),
      rw (find-emplace, bytes_eq_refl info.crosstxid, known) refl,
      rw (laws.get_put, bytes_eq_refl (db_key l1_send_ack info.crosstxid)) refl,
    )
