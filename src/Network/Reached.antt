-- ===== src/Network/Reached.antt =====
-- The table of connections after any sequence of events.
use crosschain_agent.Network.Rules.{Leads}
use crosschain_agent.Prelude.{Bool, Bytes, Option, subst, ℤ, ◌≡◌}
use crosschain_agent.Network.Steps.{
  Unused, UnusedNext, on_open-Linked, on_client_open-Linked, on_pong-Linked, connect-Linked,
  receive-Linked, process-Linked, remove_by_id-Linked,
}
use crosschain_agent.Network.Peers.{
  connect, process, receive, Peers, on_open, on_close, on_failed, on_client_open, on_pong,
  remove_connection_by_id,
}
use crosschain_agent.Network.{Sockets, WsMessage}
use crosschain_agent.Exec.{Exec, done}
use crosschain_agent.Network.Kept.{Linked, on_close-Linked, on_failed-Linked}
use crosschain_agent.Exec.Keeps.{After}

module _ (net : Sockets) where
  -- The states that events lead to from a state. A handle that is opened is not in use, and identifiers
  -- are left.
  pub data Reach (s : Peers net) : Peers net → Type 0 where
    start : Reach s s
    opened :
        {t t' : Peers net} (hdl : ℤ)
        → Reach s t
        → Unused net hdl t
        → on_open net hdl t ≡ done (tt, t')
        → Reach s t'
    closed :
        {t t' : Peers net} (hdl : ℤ) → Reach s t → on_close net hdl t ≡ done (tt, t') → Reach s t'
    failed :
        {t t' : Peers net} (hdl : ℤ) → Reach s t → on_failed net hdl t ≡ done (tt, t') → Reach s t'
    client_opened :
        {t t' : Peers net} (hdl : ℤ)
        → Reach s t
        → on_client_open net hdl t ≡ done (tt, t')
        → Reach s t'
    pong : {t t' : Peers net} (hdl : ℤ) → Reach s t → on_pong net hdl t ≡ done (tt, t') → Reach s t'
    connected :
        {t t' : Peers net} {ok : Bool} (uri : Bytes)
        → Reach s t
        → UnusedNext net uri t
        → connect net uri t ≡ done (ok, t')
        → Reach s t'
    received :
        {t t' : Peers net} {conn_id : Option ℤ} (hdl : ℤ)
        → Reach s t
        → receive net hdl t ≡ done (conn_id, t')
        → Reach s t'
    processed :
        {t t' : Peers net} {handled : Bool} (message : WsMessage) (conn_id : ℤ)
        → Reach s t
        → process net message conn_id t ≡ done (handled, t')
        → Reach s t'
    removed :
        {t t' : Peers net} (conn_id : ℤ)
        → Reach s t
        → remove_connection_by_id net conn_id t ≡ done (tt, t')
        → Reach s t'
    elsewhere : {t : Peers net} (w : net.World) → Reach s t → Reach s (record t { world = w })

  reached :
      {A : Type 0} {P : Peers net → Type 0} (m : Exec (Peers net) A) (a : A) (t t' : Peers net)
      → Leads P m (Linked net)
      → P t
      → m t ≡ done (a, t')
      → Linked net t'
  reached m a t t' leads h e = subst (After (Linked net)) e (leads.at t h)

  -- Whatever the sockets report, in any order, with the locked parts of OnMessage as events
  -- of their own: as long as a handle that is opened is not in use
  -- and identifiers are left, each handle that leads to an identifier leads to a connection with that
  -- handle, and each connection stands under its own identifier, is led to by its own handle, and has an
  -- identifier that was given before.
  pub Reach-Linked : (s t : Peers net) → Linked net s → Reach s t → Linked net t
  Reach-Linked s t h start = h
  Reach-Linked s t' h (opened {t} hdl r unused e) =
      reached (on_open net hdl) tt t t' (on_open-Linked net hdl) (Reach-Linked s t h r, unused) e
  Reach-Linked s t' h (closed {t} hdl r e) =
      reached (on_close net hdl) tt t t' (on_close-Linked net hdl) (Reach-Linked s t h r) e
  Reach-Linked s t' h (failed {t} hdl r e) =
      reached (on_failed net hdl) tt t t' (on_failed-Linked net hdl) (Reach-Linked s t h r) e
  Reach-Linked s t' h (client_opened {t} hdl r e) =
      reached (on_client_open net hdl) tt t t' (on_client_open-Linked net hdl)
        (Reach-Linked s t h r) e
  Reach-Linked s t' h (pong {t} hdl r e) =
      reached (on_pong net hdl) tt t t' (on_pong-Linked net hdl) (Reach-Linked s t h r) e
  Reach-Linked s t' h (connected {t} {ok = ok} uri r unused e) =
      reached (connect net uri) ok t t' (connect-Linked net uri) (Reach-Linked s t h r, unused) e
  Reach-Linked s t' h (received {t} {conn_id = conn_id} hdl r e) =
      reached (receive net hdl) conn_id t t' (receive-Linked net hdl) (Reach-Linked s t h r) e
  Reach-Linked s t' h (processed {t} {handled = handled} message conn_id r e) =
      reached (process net message conn_id) handled t t' (process-Linked net message conn_id)
        (Reach-Linked s t h r) e
  Reach-Linked s t' h (removed {t} conn_id r e) =
      reached (remove_connection_by_id net conn_id) tt t t' (remove_by_id-Linked net conn_id)
        (Reach-Linked s t h r) e
  Reach-Linked s t' h (elsewhere {t} w r) = Reach-Linked s t h r
