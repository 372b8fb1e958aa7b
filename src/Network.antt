-- ===== src/Network.antt =====
-- src/common/network.cpp: a connection, and what the connections rest on.
pub mod IdMap
pub mod Peers
pub mod Linked
pub mod Rules
pub mod Kept
pub mod Timer
pub mod Steps
pub mod Reached
use crosschain_agent.Prelude.{
  Bytes, ℤ, Bool, pos, ℕ, sub_int64, Option, ◌*◌, if◌then◌else◌, ltb_ℤ, eqb_ℤ, ◌/◌, true, false,
  ◌&&◌, add_int64, not, negsuc, suc, ◌==◌, zero, ◌-◌,
}
use crosschain_agent.Exec.{state, Exec, ◌>>=◌, pure, modify, fault, null_pointer, done}

-- protocol::WsMessage
pub record WsMessage : Type 0 where
  pub message_type : ℤ
  pub request : Bool
  pub sequence : ℤ
  pub data_ : Bytes

-- Connection, without the address of the peer. One that the server has accepted is `in_bound`, and the
-- other ones belong to the client.
pub record Connection : Type 0 where
  pub in_bound : Bool
  pub handle : ℤ
  pub uri : Bytes
  pub id : ℤ
  pub connect_start_time : ℤ
  pub connect_end_time : ℤ
  pub last_receive_time : ℤ
  pub sequence : ℤ
  pub last_send_time : ℤ
  pub delay : ℤ

-- The sockets of src/common/network_adapter.cpp, which take the side (`in_bound`) and the handle, the
-- clock, protobuf, and the methods that a subclass of Network or Connection may give.
pub record Sockets : Type 1 where
  pub World : Type 0
  pub clock : World → ℤ × World
  -- GetConnectFromHandle finds a connection
  pub has_connect : Bool → ℤ → World → Bool
  -- Send, with the code of its result before and after
  pub send : Bool → ℤ → Bytes → ℤ → World → ℤ × World
  pub pause_reading : ℤ → World → World
  pub close : Bool → ℤ → Bytes → World → World
  -- the handle of a new connection of the client, and its start
  pub get_connect : Bytes → World → Option ℤ × World
  pub connect : ℤ → World → World
  -- what ParseFromString leaves in a message; the nonce of a Ping or a Pong
  pub parse_message : Bytes → WsMessage
  pub serialize_message : WsMessage → Bytes
  pub parse_nonce : Bytes → Option ℤ
  pub serialize_nonce : ℤ → Bytes
  pub on_connect_open : Connection → World → Bool × World
  pub on_disconnect : Connection → World → World
  pub on_network_timer : ℤ → Connection → World → Bool × World

abbrev pub overlay_ping : ℤ
overlay_ping = pos 1

abbrev pub micro_units_per_sec : ℕ
micro_units_per_sec = 1_000_000

abbrev pub connect_time_out : ℤ
connect_time_out = pos (60 * micro_units_per_sec)

-- The constructor at a time.
unfoldable pub make_connection : Bool → ℤ → Bytes → ℤ → ℤ → Connection
make_connection in_bound hdl uri id now = record {
  in_bound = in_bound;
  handle = hdl;
  uri = uri;
  id = id;
  connect_start_time = now;
  connect_end_time = if in_bound then now else pos 0;
  last_receive_time = now;
  sequence = pos 0;
  last_send_time = pos 0;
  delay = pos 0;
}

-- NeedPing, IsDataExpired and IsConnectExpired at a time.
unfoldable pub need_ping : ℤ → ℤ → Connection → Bool
need_ping now interval c =
    ltb_ℤ (pos 0) c.connect_end_time && ltb_ℤ interval (sub_int64 now c.last_send_time)

unfoldable pub is_data_expired : ℤ → ℤ → Connection → Bool
is_data_expired now time_out c =
    ltb_ℤ (pos 0) c.connect_end_time && ltb_ℤ time_out (sub_int64 now c.last_receive_time)

unfoldable pub is_connect_expired : ℤ → ℤ → Connection → Bool
is_connect_expired now time_out c =
    eqb_ℤ c.connect_end_time (pos 0)
    && ltb_ℤ time_out (sub_int64 now c.connect_start_time)
    && not c.in_bound

-- TouchReceiveTime, SetConnectTime and SetDelay at a time.
abbrev pub touch_receive_time : ℤ → Connection → Connection
touch_receive_time now c = record c { last_receive_time = now }

abbrev pub set_connect_time : ℤ → Connection → Connection
set_connect_time now c = record c { connect_end_time = now; last_receive_time = now }

-- Division of an `int64_t` by 2, which rounds towards 0.
abbrev half : ℤ → ℤ
half (pos n) = pos (n / 2)
half (negsuc n) = if n == 0 then pos 0 else negsuc (suc n / 2 - 1)

abbrev pub set_delay : ℤ → Connection → Connection
set_delay now c = record c { delay = half (sub_int64 now c.last_send_time) }

module _ (net : Sockets) where
  -- The loop of SendByteMessage, with the tries that are left and the code of the last result.
  unfoldable pub try_send : ℕ → ℤ → Connection → Bytes → Exec net.World Bool
  unfolding state ◌>>=◌
  try_send zero code c message = pure (eqb_ℤ code (pos 0))
  try_send (suc tries) code c message = do
    ret ← state (net.send c.in_bound c.handle message code)
    let rest = try_send tries ret c message in if eqb_ℤ ret (pos 0) then pure true else rest

  unfoldable pub send_byte_message : Connection → Bytes → Exec net.World Bool
  unfolding try_send
  send_byte_message = try_send 3 (pos 0)

  -- SendRequest, which counts its messages.
  unfoldable pub send_request : ℤ → Bytes → Connection → Exec net.World (Bool × Connection)
  unfolding send_byte_message ◌>>=◌
  send_request message_type data_ c = do
    sent ← send_byte_message c (
        net.serialize_message (record {
          message_type = message_type;
          request = true;
          sequence = c.sequence;
          data_ = data_;
        }))
    pure (sent, record c { sequence = add_int64 c.sequence (pos 1) })

  unfoldable pub send_response : WsMessage → Bytes → Connection → Exec net.World Bool
  unfolding send_byte_message
  send_response req_message data_ c =
      send_byte_message c
        (net.serialize_message (record req_message { request = false; data_ = data_ }))

  -- The nonce is the time; the result of the sending is not looked at.
  unfoldable pub ping_custom : Connection → Exec net.World Connection
  unfolding send_request state ◌>>=◌
  ping_custom c = do
    nonce ← state net.clock
    sent ← send_request overlay_ping (net.serialize_nonce nonce) c
    now ← state net.clock
    pure (record sent.1 { last_send_time = now })

  unfoldable pub close_connection : Bytes → Connection → Exec net.World Unit
  close_connection reason c = modify (λ w.
      net.close c.in_bound c.handle reason (if c.in_bound then net.pause_reading c.handle w else w))

  -- GetErrorCode asks for the error of a connection that it has not found.
  unfoldable pub get_error_code : Connection → Exec net.World Unit
  get_error_code c w =
      if not (net.has_connect c.in_bound c.handle w) then fault null_pointer else done (tt, w)
