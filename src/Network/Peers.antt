-- ===== src/Network/Peers.antt =====
-- Network of src/common/network.cpp: the table of connections. A method holds `conns_list_lock_` from its
-- start to its end, but for OnMessage, which takes it for three parts of its own, and for OnPong, which
-- does not take it.
use crosschain_agent.Prelude.{
  Bool, Bytes, Option, [], add_int64, codes, eqb_ℤ, false, if◌then◌else◌, none, not, pos, some,
  true, ℤ, ◌*◌,
}
use crosschain_agent.Network.{
  Sockets, Connection, close_connection, get_error_code, make_connection, send_response, WsMessage,
  set_connect_time, touch_receive_time, overlay_ping, micro_units_per_sec, set_delay,
}
use crosschain_agent.Network.IdMap.{IdMap, find, update, insert, erase}
use crosschain_agent.Exec.{Exec, gets, modify, pure, state, zoom, ◌>>=◌, ◌>>◌}

pub record Peers (net : Sockets) : Type 0 where
  pub world : net.World
  pub connections : IdMap Connection
  pub connections_delete : IdMap Connection
  pub connection_handles : IdMap ℤ
  pub next_id : ℤ

module _ (net : Sockets) where
  abbrev pub Step : Type 0 → Type 0
  Step A = Exec (Peers net) A

  -- A step of the sockets.
  unfoldable pub outside : {A : Type 0} → Exec net.World A → Step A
  unfolding zoom
  outside m = zoom (λ s. s.world) (λ s w. record s { world = w }) m

  abbrev pub high_resolution : Step ℤ
  high_resolution = outside (state net.clock)

  unfoldable pub get_connection : ℤ → Peers net → Option Connection
  unfolding find
  get_connection id s = find id s.connections

  unfoldable pub get_connection_from_handle : ℤ → Peers net → Option Connection
  unfolding find
  get_connection_from_handle hdl s = elim (find hdl s.connection_handles) [
    | none ↦ none
    | some id ↦ find id s.connections
  ]

  -- A connection that its own methods have changed.
  abbrev pub change : ℤ → (Connection → Connection) → Step Unit
  change id f = modify (λ s. record s { connections = update id f s.connections })

  abbrev pub enter : Connection → Step Unit
  enter conn = modify (λ s. record s {
    connections = insert conn.id conn s.connections;
    connection_handles = insert conn.handle conn.id s.connection_handles;
    next_id = add_int64 s.next_id (pos 1);
  })

  abbrev pub forget : Connection → ℤ → Step Unit
  forget conn now = modify (λ s. record s {
    connections_delete =
        insert (add_int64 now (pos (5 * micro_units_per_sec))) conn s.connections_delete;
    connections = erase conn.id s.connections;
    connection_handles = erase conn.handle s.connection_handles;
  })

  -- RemoveConnection of a connection.
  unfoldable pub remove_connection : Connection → Step Unit
  unfolding outside close_connection insert erase state ◌>>=◌
  remove_connection conn = do
    outside (close_connection net (codes "no reason") conn)
    now ← high_resolution
    forget conn now

  -- RemoveConnection of an identifier.
  unfoldable pub remove_connection_by_id : ℤ → Step Unit
  unfolding remove_connection get_connection ◌>>=◌
  remove_connection_by_id conn_id = do
    found ← gets (get_connection conn_id)
    elim found [ none ↦ pure tt | some conn ↦ remove_connection conn ]

  abbrev pub open_or_remove : Bytes → Connection → Step Unit
  open_or_remove reason conn = do
    accepted ← outside (state (net.on_connect_open conn))
    if accepted
        then pure tt
        else (outside (close_connection net reason conn) >> remove_connection conn)

  unfoldable pub on_open : ℤ → Step Unit
  unfolding remove_connection outside close_connection make_connection insert state ◌>>=◌
  on_open hdl = do
    new_id ← gets (λ s. s.next_id)
    now ← high_resolution
    enter (make_connection true hdl [] new_id now)
    open_or_remove (codes "connections exceed") (make_connection true hdl [] new_id now)

  abbrev pub disconnect : Connection → Step Unit
  disconnect conn = outside (modify (net.on_disconnect conn))

  unfoldable pub on_close : ℤ → Step Unit
  unfolding remove_connection get_connection_from_handle outside ◌>>=◌
  on_close hdl = do
    found ← gets (get_connection_from_handle hdl)
    elim found [ none ↦ pure tt | some conn ↦ disconnect conn >> remove_connection conn ]

  unfoldable pub on_failed : ℤ → Step Unit
  unfolding remove_connection get_connection_from_handle get_error_code outside ◌>>=◌
  on_failed hdl = do
    found ← gets (get_connection_from_handle hdl)
    elim found [
      | none ↦ pure tt
      | some conn ↦ outside (get_error_code net conn) >> disconnect conn >> remove_connection conn
    ]

  unfoldable pub on_client_open : ℤ → Step Unit
  unfolding remove_connection get_connection_from_handle outside close_connection update state ◌>>=◌
  on_client_open hdl = do
    found ← gets (get_connection_from_handle hdl)
    elim found [
      | none ↦ pure tt
      | some conn ↦ (do
        now ← high_resolution
        change conn.id (set_connect_time now)
        open_or_remove (codes "no reason") (set_connect_time now conn))
    ]

  unfoldable pub on_pong : ℤ → Step Unit
  unfolding get_connection_from_handle outside update state ◌>>=◌
  on_pong hdl = do
    found ← gets (get_connection_from_handle hdl)
    elim found [
      | none ↦ pure tt
      | some conn ↦ (do now ← high_resolution; change conn.id (touch_receive_time now))
    ]

  -- The rest of Connect, for a connection that the client has made.
  abbrev pub start_connect : Bytes → ℤ → Step Bool
  start_connect uri hdl = do
    new_id ← gets (λ s. s.next_id)
    now ← high_resolution
    enter (make_connection false hdl uri new_id now)
    outside (modify (net.connect hdl))
    pure true

  unfoldable pub connect : Bytes → Step Bool
  unfolding outside make_connection insert state ◌>>=◌
  connect uri = do
    con ← outside (state (net.get_connect uri))
    elim con [ none ↦ pure false | some hdl ↦ start_connect uri hdl ]

  -- A ping is answered with its nonce.
  unfoldable pub on_request_ping : WsMessage → ℤ → Step Bool
  unfolding get_connection outside send_response ◌>>=◌
  on_request_ping message conn_id = elim (net.parse_nonce message.data_) [
    | none ↦ pure false
    | some nonce ↦ (do
      found ← gets (get_connection conn_id)
      elim found [
        | none ↦ pure false
        | some conn ↦ outside (send_response net message (net.serialize_nonce nonce) conn)
      ])
  ]

  unfoldable pub on_response_ping : WsMessage → ℤ → Step Bool
  unfolding get_connection outside update state ◌>>=◌
  on_response_ping message conn_id = elim (net.parse_nonce message.data_) [
    | none ↦ pure false
    | some nonce ↦ (do
      found ← gets (get_connection conn_id)
      elim found [
        | none ↦ pure true
        | some conn ↦ (do
          received ← high_resolution
          change conn_id (touch_receive_time received)
          now ← high_resolution
          change conn_id (set_delay now)
          pure true)
      ])
  ]

  -- request_methods_ and response_methods_ know the type of a ping only.
  abbrev pub process : WsMessage → ℤ → Step Bool
  process message conn_id =
      if not (eqb_ℤ message.message_type overlay_ping)
      then pure true
      else if message.request
      then on_request_ping message conn_id
      else on_response_ping message conn_id

  abbrev drop_connection : ℤ → ℤ → Step Unit
  drop_connection hdl conn_id = do
    found ← gets (get_connection_from_handle hdl)
    elim found [ none ↦ pure tt | some conn ↦ disconnect conn ]
    remove_connection_by_id conn_id

  -- The three parts of OnMessage, each of which takes the lock for itself: the time of the message is
  -- noted, the message is processed, and the connection is dropped if that fails.
  unfoldable pub receive : ℤ → Step (Option ℤ)
  unfolding get_connection_from_handle outside update state ◌>>=◌
  receive hdl = do
    found ← gets (get_connection_from_handle hdl)
    elim found [
      | none ↦ pure none
      | some conn ↦ (do
        now ← high_resolution
        change conn.id (touch_receive_time now)
        pure (some conn.id))
    ]

  abbrev answer_message : ℤ → WsMessage → ℤ → Step Unit
  answer_message hdl message conn_id = do
    handled ← process message conn_id
    if handled then pure tt else drop_connection hdl conn_id

  unfoldable pub on_message : ℤ → Bytes → Step Unit
  unfolding receive on_request_ping on_response_ping remove_connection_by_id
      get_connection_from_handle outside ◌>>=◌
  on_message hdl msg = do
    conn ← receive hdl
    elim conn [ none ↦ pure tt | some conn_id ↦ answer_message hdl (net.parse_message msg) conn_id ]
