-- ===== src/Tests/Sockets.antt =====
-- A handle is opened, answers a ping, and is closed.
use crosschain_agent.Prelude.{add_int64, pos, [], true, ◌∷◌, none, some, arith, refl}
use crosschain_agent.Network.{Sockets, Connection, make_connection}
use crosschain_agent.Network.Peers.{on_pong, Peers, on_open}
use crosschain_agent.Network.IdMap.{find}
use crosschain_agent.Network.Kept.{Linked}
use crosschain_agent.Network.Linked.{none≢some}
use crosschain_agent.Network.Reached.{Reach-Linked, Reach, pong, opened, start}

abbrev quiet_sockets : Sockets
quiet_sockets = record {
  World = Unit {0};
  clock = λ w. (pos 9, w);
  has_connect = λ side hdl w. true;
  send = λ side hdl message code w. (pos 0, w);
  pause_reading = λ hdl w. w;
  close = λ side hdl reason w. w;
  get_connect = λ uri w. (none, w);
  connect = λ hdl w. w;
  parse_message = λ s. record { message_type = pos 1; request = true; sequence = pos 0; data_ = s };
  serialize_message = λ m. m.data_;
  parse_nonce = λ s. some (pos 3);
  serialize_nonce = λ z. [];
  on_connect_open = λ c w. (true, w);
  on_disconnect = λ c w. w;
  on_network_timer = λ now c w. (true, w);
}

abbrev no_peers : Peers quiet_sockets
no_peers = record {
  world = tt;
  connections = [];
  connections_delete = [];
  connection_handles = [];
  next_id = pos 0;
}

no_peers-IsLinked : Linked quiet_sockets no_peers
unfolding find
no_peers-IsLinked = record {
  leads = λ hdl id e. absurd (none≢some id e);
  stands = λ id c e. absurd (none≢some c e);
}

abbrev one_connection : Connection
one_connection = make_connection true (pos 5) [] (pos 0) (pos 9)

abbrev one_peer : Peers quiet_sockets
one_peer = record {
  world = tt;
  connections = (pos 0, one_connection) ∷ [];
  connections_delete = [];
  connection_handles = (pos 5, pos 0) ∷ [];
  next_id = pos 1;
}

one_peer-Reach : Reach quiet_sockets no_peers one_peer
unfolding find on_open on_pong add_int64
one_peer-Reach = pong (pos 5) (opened (pos 5) start (refl, (0, refl, omega arith)) refl) refl

Reach-Linked_example : Linked quiet_sockets one_peer
Reach-Linked_example = Reach-Linked quiet_sockets no_peers one_peer no_peers-IsLinked one_peer-Reach
