-- ===== src/Network/Kept.antt =====
-- The removal and the entry of a connection leave the table in order.
use crosschain_agent.Prelude.{
  Option-cases, add_int64, add_int64_exact, ap, arith, codes, inl, inr, none, pos, refl, some,
  subst, suc, sym, ℕ, ℤ, ◌+◌, ◌<◌, ◌^◌, ◌∙◌, ◌≡◌,
}
use crosschain_agent.Exec.{Outcome, Exec, zoom, put_back, ◌>>◌, done, fault, pure, modify, state}
use crosschain_agent.Network.{Sockets, Connection, close_connection, get_error_code}
use crosschain_agent.Network.Peers.{
  Peers, outside, get_connection_from_handle, remove_connection, on_close, on_failed, forget,
  high_resolution, enter,
}
use crosschain_agent.Exec.Keeps.{After}
use crosschain_agent.Network.Linked.{
  IsLinked, IsOwn, some_injective, none≢some, erase-IsLinked, insert-IsLinked, eqb_ℤ_refl,
}
use crosschain_agent.Network.IdMap.{find, insert, find-insert}
use crosschain_agent.Network.Rules.{Leads, Leads-bind, Leads-found, Leads-after}

module _ (net : Sockets) where
  abbrev pub Linked : Peers net → Type 0
  Linked s = IsLinked s.connections s.connection_handles s.next_id

  abbrev pub Own : Connection → Peers net → Type 0
  Own conn s = IsOwn conn s.connections s.connection_handles

  After-put_back :
      {A : Type 0} (Q : Peers net → Type 0) (s : Peers net) (o : Outcome (A × net.World))
      → ((w : net.World) → Q (record s { world = w }))
      → After Q (put_back (λ s w. record s { world = w }) s o)
  After-put_back Q s (done (a, w)) h = h w
  After-put_back Q s (fault f) h = tt

  -- The sockets do not reach the table.
  pub Leads-outside :
      {A : Type 0} (Q : Peers net → Type 0) (m : Exec net.World A)
      → ((s : Peers net) (w : net.World) → Q s → Q (record s { world = w }))
      → Leads Q (outside net m) Q
  unfolding outside zoom
  Leads-outside Q m keeps = record { at = λ s h. After-put_back Q s (m s.world) (λ w. keeps s w h) }

  pub owned :
      (s : Peers net) (id : ℤ) (conn : Connection)
      → Linked s
      → find id s.connections ≡ some conn
      → (conn.id ≡ id) × Own conn s
  owned s id conn h there =
      let (is_id, linked, _) = h.stands id conn there in
      (
        is_id,
        (
          (λ j e. some_injective j conn.id (sym e ∙ linked ∙ ap some (sym is_id))),
          (λ c e.
              ap (λ x. x.handle)
                (some_injective c conn
                  (sym e ∙ subst (λ z. find z s.connections ≡ some conn) (sym is_id) there))),
        ),
      )

  pub owned_by_handle :
      (s : Peers net) (hdl : ℤ) (conn : Connection)
      → Linked s
      → get_connection_from_handle net hdl s ≡ some conn
      → Own conn s
  unfolding get_connection_from_handle
  owned_by_handle s hdl conn h e = elim (Option-cases (find hdl s.connection_handles)) [
    | inl absent ↦ absurd (none≢some conn (rw (get_connection_from_handle, absent) at e))
    | inr (id, found) ↦ (owned s id conn h (rw (get_connection_from_handle, found) at e)).1
  ]

  pub Leads-pure :
      {A : Type 0} (a : A) {Q : Peers net → Type 0} → Leads Q (pure {S = Peers net} a) Q
  unfolding pure
  Leads-pure a = record { at = λ s h. h }

  -- The table is in order, and a connection may be taken out.
  abbrev pub Both : Connection → Peers net → Type 0
  Both conn s = Linked s × Own conn s

  forget-Linked : (conn : Connection) (now : ℤ) → Leads (Both conn) (forget net conn now) Linked
  unfolding modify
  forget-Linked conn now = record {
    at = λ s h. erase-IsLinked conn s.connections s.connection_handles s.next_id h.1 h.0;
  }

  pub remove_connection-Linked :
      (conn : Connection) → Leads (Both conn) (remove_connection net conn) Linked
  unfolding remove_connection
  remove_connection-Linked conn =
      let closed : Exec net.World Unit = close_connection net (codes "no reason") conn in
      Leads-bind (Both conn) (outside net closed) _ (Leads-outside (Both conn) closed (λ s w h. h))
        λ _.
          Leads-bind (Both conn) (high_resolution net) _
            (Leads-outside (Both conn) (state net.clock) (λ s w h. h)) λ now. forget-Linked conn now

  -- A step of the sockets in front of the removal of a connection.
  pub outside_then_remove :
      (m : Exec net.World Unit) (conn : Connection)
      → Leads (Both conn) (outside net m >> remove_connection net conn) Linked
  outside_then_remove m conn =
      Leads-bind (Both conn) (outside net m) _ (Leads-outside (Both conn) m (λ s w h. h))
        λ _. remove_connection-Linked conn

  pub on_close-Linked : (hdl : ℤ) → Leads Linked (on_close net hdl) Linked
  unfolding on_close
  on_close-Linked hdl = Leads-found (get_connection_from_handle net hdl) _ _ (Leads-pure tt) λ conn.
      Leads-after _ (outside_then_remove (modify (net.on_disconnect conn)) conn)
        λ s h. (h.0, owned_by_handle s hdl conn h.0 h.1)

  pub on_failed-Linked : (hdl : ℤ) → Leads Linked (on_failed net hdl) Linked
  unfolding on_failed
  on_failed-Linked hdl =
      Leads-found (get_connection_from_handle net hdl) _ _ (Leads-pure tt) λ conn.
        Leads-after _
          (Leads-bind (Both conn)
            (outside net (get_error_code net conn) >> outside net (modify (net.on_disconnect conn)))
            _
            (Leads-bind (Both conn) (outside net (get_error_code net conn)) _
              (Leads-outside (Both conn) (get_error_code net conn) (λ s w h. h))
              λ _. Leads-outside (Both conn) (modify (net.on_disconnect conn)) (λ s w h. h))
            λ _. remove_connection-Linked conn)
          λ s h. (h.0, owned_by_handle s hdl conn h.0 h.1)

  Own-of_handle :
      (conn : Connection) (s : Peers net)
      → Linked s
      → find conn.handle s.connection_handles ≡ some conn.id
      → Own conn s
  Own-of_handle conn s h linked =
      let (c₀, there, own) = h.leads conn.handle conn.id linked in
      (
        (λ j e. some_injective j conn.id (sym e ∙ linked)),
        (λ c e. ap (λ x. x.handle) (some_injective c c₀ (sym e ∙ there)) ∙ own),
      )

  -- What a look-up by a handle says of the connection that it finds.
  pub found_by_handle :
      (s : Peers net) (hdl : ℤ) (conn : Connection)
      → Linked s
      → get_connection_from_handle net hdl s ≡ some conn
      → find conn.id s.connections ≡ some conn
  unfolding get_connection_from_handle
  found_by_handle s hdl conn h e = elim (Option-cases (find hdl s.connection_handles)) [
    | inl absent ↦ absurd (none≢some conn (rw (get_connection_from_handle, absent) at e))
    | inr (id, found) ↦
        let there : find id s.connections ≡ some conn =
          rw (get_connection_from_handle, found) at e in
        subst (λ z. find z s.connections ≡ some conn) (sym (h.stands id conn there).0) there
  ]

  -- A handle that leads nowhere, and an identifier that is still to be given.
  abbrev pub IsNew : Connection → Peers net → Type 0
  IsNew conn s =
      (find conn.handle s.connection_handles ≡ none)
      × ((n : ℕ) × (s.next_id ≡ pos n) × (conn.id ≡ pos n) × (n + 1 < 2 ^ 63))

  pub enter-Both :
      (conn : Connection) → Leads (λ s. Linked s × IsNew conn s) (enter net conn) (Both conn)
  unfolding modify
  enter-Both conn = record {
    at = λ s (h, (unused, (n, is_n, id_n, small))).
        let s' : Peers net = record s {
          connections = insert conn.id conn s.connections;
          connection_handles = insert conn.handle conn.id s.connection_handles;
          next_id = add_int64 s.next_id (pos 1);
        } in
        let next : add_int64 s.next_id (pos 1) ≡ pos (suc n) =
          rw is_n (add_int64_exact n 1 small ∙ ap pos (omega arith)) in
        let h' : Linked s' =
          rw next (
            insert-IsLinked conn s.connections s.connection_handles n id_n unused (rw is_n at h)) in
        (
          h',
          Own-of_handle conn s' h' (
              rw
                (
                  find-insert conn.handle conn.handle conn.id s.connection_handles unused,
                  eqb_ℤ_refl conn.handle,
                )
                refl),
        );
  }
