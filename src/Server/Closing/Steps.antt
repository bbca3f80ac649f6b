-- ===== src/Server/Closing/Steps.antt =====
-- One event while the room of src/server/server.cpp is closing.
use event_driven_tcp_chatroo.Base.{
  ℕ, ◌+◌, ◌*◌, ◌≤◌, ◌<◌, ◌≡◌, refl, sym, ap, subst, ◌∙◌, Bool, true, false, inl, inr, some, List,
  [], ◌∷◌, length, arith, is_empty, if◌then◌else◌, Bool-cases,
}
use event_driven_tcp_chatroo.Os.{Os}
use event_driven_tcp_chatroo.Connection.{Connection, active, connection_flush_out_buffer}
use event_driven_tcp_chatroo.Epoll.{watch_both}
use event_driven_tcp_chatroo.Server.{
  Server, find_fd, write_back, announce, announce_client_connected,
  broadcast_message_to_other_clients,
}
use event_driven_tcp_chatroo.Server.Send.{sends_server_hello, flush_out, after_flush, send_package}
use event_driven_tcp_chatroo.Server.Lookup.{find_fd-All}
use event_driven_tcp_chatroo.Server.Registry.{
  key, keys, DistinctKeys, write_back-keys, each-Known, Known,
}
use event_driven_tcp_chatroo.Server.Closing.Weight.{
  unsent, weight, total, longest, queue_loop-Grows, write_back-Written, Drained, takes,
  flush-Drained, flush-less,
}

-- The same connections, in the same phase of the room, with no more to be sent.
pub record Drains {K : Type 0} (b : ℕ) (s s1 : Server K) : Type 0 where
  pub same : keys s1.connections ≡ keys s.connections
  pub phase : s1.closing ≡ s.closing
  pub less : total b s1.connections ≤ total b s.connections

pub Drains-trans :
    {K : Type 0} (b : ℕ) {s s1 s2 : Server K} → Drains b s s1 → Drains b s1 s2 → Drains b s s2
Drains-trans b h k = record {
  same = k.same ∙ h.same;
  phase = k.phase ∙ h.phase;
  less = omega (arith, h.less, k.less);
}

pub length-keys : (cs : List Connection) → length (keys cs) ≡ length cs
length-keys [] = refl
length-keys (c ∷ cs) = omega (arith, length-keys cs)

module _ {K : Type 0} (os : Os K) (b : ℕ) where
  announce-Grows :
      (c : Connection) (s : Server K)
      → let s1 = (announce_client_connected os c s).1 in
        (keys s1.connections ≡ keys s.connections)
        × (total b s1.connections ≤ total b s.connections + length s.connections * longest)
        × (s1.closing ≡ s.closing)
  unfolding announce_client_connected announce broadcast_message_to_other_clients
  announce-Grows c s =
      let (same, more) = queue_loop-Grows os b _ _ watch_both s.epoll_fd s.connections s.kernel in
      (same, more, refl)

  -- What a handler that writes a connection back relies on.
  pub record IsAt (fd : ℕ) (c : Connection) (s : Server K) : Type 0 where
    pub distinct : DistinctKeys (keys s.connections)
    pub found : find_fd fd s.connections ≡ some c
    pub room : length s.connections * longest ≤ b

  module _ (fd : ℕ) (c c1 : Connection) (s : Server K) (k : K) (at : IsAt fd c s)
      (same : key c1 ≡ key c) where
    abbrev stored : Server K
    stored = record s { connections = write_back c1 s.connections; kernel = k }

    stored_keys : keys stored.connections ≡ keys s.connections
    stored_keys = write_back-keys c1 s.connections at.distinct (
        subst (λ x. Known x (keys s.connections)) (sym same)
          (find_fd-All (λ (x : Connection). Known (key x) (keys s.connections)) fd s.connections
            (each-Known s.connections) at.found))

    stored_sum : total b stored.connections + weight b c ≡ total b s.connections + weight b c1
    stored_sum = (write_back-Written b fd c c1 same s.connections at.distinct at.found).1

    stored-IsAt : IsAt fd c1 stored
    stored-IsAt = record {
      distinct = subst DistinctKeys (sym stored_keys) at.distinct;
      found = (write_back-Written b fd c c1 same s.connections at.distinct at.found).0;
      room = omega (
        arith,
        at.room,
        sym (length-keys s.connections)
            ∙ ap length (sym stored_keys)
            ∙ length-keys stored.connections,
      );
    }

    stored-Drains : weight b c1 ≤ weight b c → Drains b s stored
    stored-Drains h = record {
      same = stored_keys;
      phase = refl;
      less = omega (arith, stored_sum, h);
    }

  -- A connection that has been introduced is announced to all.
  introduced-Drains :
      (fd : ℕ) (c : Connection) (s : Server K)
      → IsAt fd c s
      → is_empty c.out_buffer ≡ true
      → sends_server_hello c.state ≡ true
      → let c1 = record c { state = active } in
        let s1 = record s { connections = write_back c1 s.connections } in
        Drains b s (announce_client_connected os c1 s1).1
  introduced-Drains fd c s at empty hello =
      let c1 = record c { state = active } in
      let s1 = stored fd c c1 s s.kernel at refl in
      let after = stored-IsAt fd c c1 s s.kernel at refl in
      let (same, more, phase) = announce-Grows c1 s1 in
      let drop : weight b c1 + b ≤ weight b c = ground arith in
      record {
        same = same ∙ stored_keys fd c c1 s s.kernel at refl;
        phase = phase;
        less = omega (arith, more, after.room, drop, stored_sum fd c c1 s s.kernel at refl);
      }

  after_flush-Drains :
      (fd : ℕ) (c : Connection) (s : Server K) → IsAt fd c s → Drains b s (after_flush os c s).1
  unfolding after_flush
  after_flush-Drains fd c s at = elim (Bool-cases (is_empty c.out_buffer)) [
    | inr full ↦ rw full (record { same = refl; phase = refl; less = omega arith })
    | inl empty ↦ elim (Bool-cases (sends_server_hello c.state)) [
      | inl hello ↦ rw (empty, hello) (introduced-Drains fd c s at empty hello)
      | inr other ↦ rw (empty, other) (record { same = refl; phase = refl; less = omega arith })
    ]
  ]

  weight-Drained :
      (c : Connection) (ok : Bool) (c1 : Connection)
      → Drained c ok c1
      → (weight b c1 ≤ weight b c) × (ok ≡ true → unsent c1 < unsent c → weight b c1 < weight b c)
  weight-Drained c true c1 d =
      let state = ap sends_server_hello (d.success refl) in
      (
        omega (arith, d.less, ap (λ h. if h then b else 0) state),
        λ e less. omega (arith, less, ap (λ h. if h then b else 0) state),
      )
  weight-Drained c false c1 d =
      let state = ap sends_server_hello (d.failure refl) in
      (omega (arith, d.less, ap (λ h. if h then b else 0) state), λ e less. cc e)

  -- The handler leaves no more to be sent, and less where the socket takes bytes.
  abbrev pub Serves : Connection → Server K → Bool × Server K → Type 0
  Serves c s r =
      Drains b s r.1
      × (is_empty c.out_buffer ≡ false
          → takes os c s.kernel ≡ true
          → r.0 ≡ true
          → total b r.1.connections < total b s.connections)

  pub send_package-Serves :
      (fd : ℕ) (c : Connection) (s : Server K) → IsAt fd c s → Serves c s (send_package os c s)
  unfolding send_package flush_out
  send_package-Serves fd c s at =
      let (ok, c1, k1) = connection_flush_out_buffer os c s.kernel in
      let d : Drained c ok c1 = flush-Drained os c s.kernel in
      let (no_more, less) = weight-Drained c ok c1 d in
      let s1 = stored fd c c1 s k1 at d.same in
      let first = stored-Drains fd c c1 s k1 at d.same no_more in
      let sum = stored_sum fd c c1 s k1 at d.same in
      elim (Bool-cases ok) [
        | inr failed ↦ rw failed (first, λ full ready e. cc e)
        | inl good ↦
            let next = after_flush-Drains fd c1 s1 (stored-IsAt fd c c1 s k1 at d.same) in
            rw good (
              Drains-trans b first next,
              λ full ready e.
                  omega
                    (arith, next.less, sum, less good (flush-less os c s.kernel full ready good)),
            )
      ]
