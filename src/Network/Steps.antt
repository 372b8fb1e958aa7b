-- ===== src/Network/Steps.antt =====
-- Each step on the table of connections leaves the handles and the connections in order.
use crosschain_agent.Prelude.{
  Bool, Bytes, Option-cases, [], codes, eqb_ℤ, false, inl, inr, none, not, pos, refl, some, sym,
  true, ℕ, ℤ, ◌+◌, ◌<◌, ◌^◌, ◌∙◌, ◌≡◌,
}
use crosschain_agent.Network.{
  Sockets, Connection, WsMessage, touch_receive_time, send_response, overlay_ping, set_connect_time,
  set_delay, make_connection, close_connection,
}
use crosschain_agent.Exec.{modify, state, ◌>>=◌}
use crosschain_agent.Network.Peers.{
  connect, start_connect, Peers, on_pong, remove_connection_by_id, on_request_ping,
  on_response_ping, on_client_open, high_resolution, get_connection, change, process,
  get_connection_from_handle, on_open, open_or_remove, outside, enter, connect, receive,
}
use crosschain_agent.Network.Kept.{
  Linked, Leads-outside, Leads-pure, remove_connection-Linked, owned, Both, found_by_handle,
  outside_then_remove, enter-Both,
}
use crosschain_agent.Network.Rules.{
  Leads, Leads-found, Leads-bind, Leads-if, Leads-after, Leads-option, Leads-read,
}
use crosschain_agent.Network.Linked.{SameNames, update-IsLinked, eqb_ℤ_refl}
use crosschain_agent.Network.IdMap.{find, update, find-update}

module _ (net : Sockets) where
  change-Linked :
      (id : ℤ) (f : Connection → Connection)
      → SameNames f
      → Leads (Linked net) (change net id f) (Linked net)
  unfolding modify
  change-Linked id f same = record {
    at = λ s h. update-IsLinked id f s.connections s.connection_handles s.next_id same h;
  }

  clock-Leads :
      {P : Peers net → Type 0}
      → ((s : Peers net) (w : net.World) → P s → P (record s { world = w }))
      → Leads P (high_resolution net) P
  clock-Leads {P} keeps = Leads-outside net P (state net.clock) keeps

  touch-Linked :
      (id : ℤ) (f : ℤ → Connection → Connection)
      → ((now : ℤ) → SameNames (f now))
      → Leads (Linked net) (high_resolution net >>= λ now. change net id (f now)) (Linked net)
  touch-Linked id f same =
      Leads-bind (Linked net) (high_resolution net) _ (clock-Leads (λ s w h. h))
        λ now. change-Linked id (f now) (same now)

  pub on_pong-Linked : (hdl : ℤ) → Leads (Linked net) (on_pong net hdl) (Linked net)
  unfolding on_pong
  on_pong-Linked hdl =
      Leads-found (get_connection_from_handle net hdl) _ _ (Leads-pure net tt) λ conn.
        Leads-after _ (touch-Linked conn.id touch_receive_time (λ now c. (refl, refl))) (λ s h. h.0)

  pub remove_by_id-Linked :
      (id : ℤ) → Leads (Linked net) (remove_connection_by_id net id) (Linked net)
  unfolding remove_connection_by_id get_connection
  remove_by_id-Linked id = Leads-found (get_connection net id) _ _ (Leads-pure net tt) λ conn.
      Leads-after _ (remove_connection-Linked net conn)
        λ s h. (h.0, (owned net s id conn h.0 h.1).1)

  on_request_ping-Linked :
      (message : WsMessage) (id : ℤ)
      → Leads (Linked net) (on_request_ping net message id) (Linked net)
  unfolding on_request_ping
  on_request_ping-Linked message id =
      Leads-option (net.parse_nonce message.data_) _ _ (Leads-pure net false) λ nonce.
        Leads-found (get_connection net id) _ _ (Leads-pure net false) λ conn.
          Leads-after _
            (Leads-outside net (Linked net)
              (send_response net message (net.serialize_nonce nonce) conn) (λ s w h. h))
            (λ s h. h.0)

  on_response_ping-Linked :
      (message : WsMessage) (id : ℤ)
      → Leads (Linked net) (on_response_ping net message id) (Linked net)
  unfolding on_response_ping
  on_response_ping-Linked message id =
      Leads-option (net.parse_nonce message.data_) _ _ (Leads-pure net false) λ nonce.
        Leads-found (get_connection net id) _ _ (Leads-pure net true) λ conn.
          Leads-after _
            (Leads-bind (Linked net) (high_resolution net) _ (clock-Leads (λ s w h. h)) λ received.
              Leads-bind (Linked net) (change net id (touch_receive_time received)) _
                (change-Linked id (touch_receive_time received) (λ c. (refl, refl)))
                λ _.
                  Leads-bind (Linked net) (high_resolution net) _ (clock-Leads (λ s w h. h)) λ now.
                    Leads-bind (Linked net) (change net id (set_delay now)) _
                      (change-Linked id (set_delay now) (λ c. (refl, refl)))
                      λ _. Leads-pure net true)
            (λ s h. h.0)

  pub process-Linked :
      (message : WsMessage) (id : ℤ) → Leads (Linked net) (process net message id) (Linked net)
  process-Linked message id =
      Leads-if (not (eqb_ℤ message.message_type overlay_ping)) _ _ (Leads-pure net true) (
        Leads-if message.request _ _ (on_request_ping-Linked message id)
          (on_response_ping-Linked message id))

  pub receive-Linked : (hdl : ℤ) → Leads (Linked net) (receive net hdl) (Linked net)
  unfolding receive
  receive-Linked hdl =
      Leads-found (get_connection_from_handle net hdl) _ _ (Leads-pure net none) λ conn.
        Leads-after _
          (Leads-bind (Linked net) (high_resolution net) _ (clock-Leads (λ s w h. h)) λ now.
            Leads-bind (Linked net) (change net conn.id (touch_receive_time now)) _
              (change-Linked conn.id (touch_receive_time now) (λ c. (refl, refl)))
              λ _. Leads-pure net (some conn.id))
          (λ s h. h.0)

  open_or_remove-Linked :
      (reason : Bytes) (conn : Connection)
      → Leads (Both net conn) (open_or_remove net reason conn) (Linked net)
  open_or_remove-Linked reason conn =
      Leads-bind (Both net conn) (outside net (state (net.on_connect_open conn))) _
        (Leads-outside net (Both net conn) (state (net.on_connect_open conn)) (λ s w h. h))
        λ accepted.
          Leads-if accepted _ _ (Leads-after _ (Leads-pure net tt) (λ s h. h.0))
            (outside_then_remove net (close_connection net reason conn) conn)

  -- The connection is in the table.
  abbrev Found : Connection → Peers net → Type 0
  Found conn s = Linked net s × (find conn.id s.connections ≡ some conn)

  connected-Both :
      (conn : Connection) (now : ℤ)
      → Leads
          (Found conn)
          (change net conn.id (set_connect_time now))
          (Both net (set_connect_time now conn))
  unfolding modify
  connected-Both conn now = record {
    at = λ s (h, there).
        let s' : Peers net = record s {
          connections = update conn.id (set_connect_time now) s.connections;
        } in
        let h' : Linked net s' =
          update-IsLinked conn.id (set_connect_time now) s.connections s.connection_handles
            s.next_id (λ c. (refl, refl)) h in
        (
          h',
          (owned net s' conn.id (set_connect_time now conn) h'
              (rw (find-update, eqb_ℤ_refl conn.id, there) refl)).1,
        );
  }

  pub on_client_open-Linked : (hdl : ℤ) → Leads (Linked net) (on_client_open net hdl) (Linked net)
  unfolding on_client_open
  on_client_open-Linked hdl =
      Leads-found (get_connection_from_handle net hdl) _ _ (Leads-pure net tt) λ conn.
        Leads-after _
          (Leads-bind (Found conn) (high_resolution net) _ (clock-Leads (λ s w h. h)) λ now.
            Leads-bind (Both net (set_connect_time now conn))
              (change net conn.id (set_connect_time now)) _ (connected-Both conn now)
              λ _. open_or_remove-Linked (codes "no reason") (set_connect_time now conn))
          (λ s h. (h.0, found_by_handle net s hdl conn h.0 h.1))

  -- A handle that leads nowhere, while there are identifiers left.
  abbrev pub Unused : ℤ → Peers net → Type 0
  Unused hdl s =
      (find hdl s.connection_handles ≡ none) × ((n : ℕ) × (s.next_id ≡ pos n) × (n + 1 < 2 ^ 63))

  enter_new :
      (hdl : ℤ) (in_bound : Bool) (uri : Bytes) (new_id now : ℤ)
      → Leads
          (λ s. (Linked net s × Unused hdl s) × (s.next_id ≡ new_id))
          (enter net (make_connection in_bound hdl uri new_id now))
          (Both net (make_connection in_bound hdl uri new_id now))
  unfolding make_connection
  enter_new hdl in_bound uri new_id now =
      Leads-after _ (enter-Both net (make_connection in_bound hdl uri new_id now))
        λ s ((h, (unused, (n, is_n, small))), is_id).
          (h, (unused, (n, is_n, sym is_id ∙ is_n, small)))

  pub on_open-Linked :
      (hdl : ℤ) → Leads (λ s. Linked net s × Unused hdl s) (on_open net hdl) (Linked net)
  unfolding on_open
  on_open-Linked hdl =
      Leads-read (λ s. s.next_id) _
        λ new_id.
          Leads-bind (λ s. (Linked net s × Unused hdl s) × (s.next_id ≡ new_id))
            (high_resolution net) _ (clock-Leads (λ s w h. h))
            λ now.
              Leads-bind (Both net (make_connection true hdl [] new_id now))
                (enter net (make_connection true hdl [] new_id now)) _
                (enter_new hdl true [] new_id now)
                λ _.
                  open_or_remove-Linked (codes "connections exceed")
                    (make_connection true hdl [] new_id now)

  -- What a call of Connect finds: the handle that the client gives to the new connection is unused.
  abbrev pub UnusedNext : Bytes → Peers net → Type 0
  UnusedNext uri s =
      (hdl : ℤ)
      → (net.get_connect uri s.world).0 ≡ some hdl
      → Unused hdl (record s { world = (net.get_connect uri s.world).1 })

  start_connect-Linked :
      (uri : Bytes) (hdl : ℤ)
      → Leads (λ s. Linked net s × Unused hdl s) (start_connect net uri hdl) (Linked net)
  start_connect-Linked uri hdl =
      Leads-read (λ s. s.next_id) _
        λ new_id.
          Leads-bind (λ s. (Linked net s × Unused hdl s) × (s.next_id ≡ new_id))
            (high_resolution net) _ (clock-Leads (λ s w h. h))
            λ now.
              Leads-bind (Both net (make_connection false hdl uri new_id now))
                (enter net (make_connection false hdl uri new_id now)) _
                (enter_new hdl false uri new_id now)
                λ _.
                  Leads-bind (Linked net) (outside net (modify (net.connect hdl))) _
                    (Leads-after _
                      (Leads-outside net (Linked net) (modify (net.connect hdl)) (λ s w h. h))
                      (λ s h. h.0))
                    λ _. Leads-pure net true

  pub connect-Linked :
      (uri : Bytes) → Leads (λ s. Linked net s × UnusedNext uri s) (connect net uri) (Linked net)
  unfolding connect
  connect-Linked uri = record {
    at = λ s (h, unused). elim (Option-cases (net.get_connect uri s.world).0) [
      | inl e ↦ rw e h
      | inr (hdl, e) ↦ rw e (
          (start_connect-Linked uri hdl).at (record s { world = (net.get_connect uri s.world).1 })
            (h, unused hdl e))
    ];
  }
