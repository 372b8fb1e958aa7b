-- ===== src/Network/Timer.antt =====
-- The body of the loop in Network::Start of src/common/network.cpp: pings, and the connections that have
-- expired.
use crosschain_agent.Prelude.{
  List, [], codes, filter, if◌then◌else◌, ltb_ℤ, not, pos, ℤ, ◌*◌, ◌++◌, ◌/◌, ◌∷◌,
}
use crosschain_agent.Network.IdMap.{update}
use crosschain_agent.Network.{
  Sockets, need_ping, ping_custom, is_data_expired, Connection, close_connection,
  micro_units_per_sec, connect_time_out,
}
use crosschain_agent.Exec.{gets, modify, pure, state, ◌>>=◌, ◌>>◌}
use crosschain_agent.Network.Peers.{
  remove_connection, outside, Step, high_resolution, disconnect, change,
}

module _ (net : Sockets) where
  -- What the timer does to one connection: a ping, and whether it goes to the list of those to delete,
  -- once for each of the two reasons.
  unfoldable pub check_connection : ℤ → Connection → Step net (List Connection)
  unfolding need_ping ping_custom is_data_expired close_connection outside update state ◌>>=◌
  check_connection now c = do
    ping_time ← high_resolution net
    pinged ←
        (if need_ping ping_time (pos (60 * micro_units_per_sec / 4)) c
          then outside net (ping_custom net c)
          else pure c)
    change net c.id (λ _. pinged)
    expire_time ← high_resolution net
    expired ←
        (if is_data_expired expire_time connect_time_out pinged
          then (outside net (close_connection net (codes "expired") pinged) >> pure (pinged ∷ []))
          else pure [])
    alive ← outside net (state (net.on_network_timer now pinged))
    if alive
        then pure expired
        else (outside net (close_connection net (codes "app error") pinged)
            >> pure (expired ++ pinged ∷ []))

  unfoldable pub check_all : ℤ → List (ℤ × Connection) → Step net (List Connection)
  unfolding check_connection ◌>>=◌
  check_all now [] = pure []
  check_all now ((id, c) ∷ cs) = do
    gone ← check_connection now c
    more ← check_all now cs
    pure (gone ++ more)

  unfoldable pub remove_all : List Connection → Step net Unit
  unfolding remove_connection outside ◌>>=◌
  remove_all [] = pure tt
  remove_all (c ∷ cs) = disconnect net c >> remove_connection net c >> remove_all cs

  -- The body of the loop in Start, when more than a second has passed.
  unfoldable pub network_timer : ℤ → Step net Unit
  unfolding check_all remove_all ◌>>=◌
  network_timer now = do
    cs ← gets (λ s. s.connections)
    delete_list ← check_all now cs
    remove_all delete_list
    modify (λ s. record s {
      connections_delete = filter (λ e. not (ltb_ℤ e.0 now)) s.connections_delete;
    })
