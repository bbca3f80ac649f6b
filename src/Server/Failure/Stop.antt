-- ===== src/Server/Failure/Stop.antt =====
-- A client whose socket fails for good on writing, and the whole of src/server/server.cpp.
use event_driven_tcp_chatroo.Base.{
  ℕ, zero, suc, ◌+◌, ◌-◌, ◌<◌, ◌≡◌, ◌≢◌, refl, sym, ap, ◌∙◌, Bool, true, false, ◌||◌, inl, inr,
  some, List, [], ◌∷◌, All, arith, length, ◌==◌, ==_refl, ==_iff, Bool-cases, subst,
}
use event_driven_tcp_chatroo.Os.{Os, Event, Errno, failed, returned, ready, send}
use event_driven_tcp_chatroo.Connection.{Connection, no_fd, flush_loop, connection_flush_out_buffer}
use event_driven_tcp_chatroo.Connection.Flush.{pending, flush-sent, flush-failed}
use event_driven_tcp_chatroo.Connection.Read.{IsFatal, fatal-try_later}
use event_driven_tcp_chatroo.Connection.Descriptors.{FdLaws}
use event_driven_tcp_chatroo.Server.{Server, find_fd, all_connection_buffers_empty}
use event_driven_tcp_chatroo.Server.Send.{send_package, flush_out}
use event_driven_tcp_chatroo.Server.Loop.{
  handle_event, handle_events, keep_running, loop_round, loop_rounds, server_cleanup,
}
use event_driven_tcp_chatroo.Server.Cleanup.{holds, held_by_any, server_cleanup-closes}
use event_driven_tcp_chatroo.Server.Lookup.{find_fd-All}
use event_driven_tcp_chatroo.Server.Registry.{
  Key, key, keys, Known, DistinctKeys, write_back-keys, each-Known,
}
use event_driven_tcp_chatroo.Server.Closing.Weight.{flush-Drained}
use event_driven_tcp_chatroo.Server.Closing.Events.{sendable, recached}
use event_driven_tcp_chatroo.Server.Closing.Served.{events-end}
use event_driven_tcp_chatroo.Server.Failure.Events.{event-written}

module _ {K : Type 0} (os : Os K) where
  -- The calls of `send` for the output of a connection take some bytes, any number of times, and
  -- then one fails for good while bytes are left.
  pub data FailsToSend : Connection → K → Type 0 where
    fails :
        (c : Connection) (k : K) (e : Errno)
        → c.bytes_written < length c.out_buffer
        → (os.call (send c.fd (pending c)) k).0 ≡ failed e
        → IsFatal e
        → FailsToSend c k
    takes_some :
        (c : Connection) (k : K) (n : ℕ)
        → c.bytes_written < length c.out_buffer
        → (os.call (send c.fd (pending c)) k).0 ≡ returned (suc n)
        → FailsToSend
            (record c { bytes_written = c.bytes_written + suc n })
            (os.call (send c.fd (pending c)) k).1
        → FailsToSend c k

  flush_loop-fails :
      (fuel : ℕ) (c : Connection) (k : K)
      → FailsToSend c k
      → length c.out_buffer - c.bytes_written < fuel
      → (flush_loop os fuel c k).0 ≡ false
  flush_loop-fails zero c k h enough = absurd (omega arith)
  flush_loop-fails (suc f) c k (fails _ _ e left failure fatal) enough =
      rw (flush-failed os f c k left e failure, fatal-try_later e fatal) refl
  flush_loop-fails (suc f) c k (takes_some _ _ n left some_taken later) enough =
      rw (flush-sent os f c k left n some_taken) (
        flush_loop-fails f (record c { bytes_written = c.bytes_written + suc n }) _ later
          (omega arith))

  flush-fails :
      (c : Connection) (k : K) → FailsToSend c k → (connection_flush_out_buffer os c k).0 ≡ false
  unfolding connection_flush_out_buffer
  flush-fails c k h =
      flush_loop-fails (suc (length c.out_buffer - c.bytes_written)) c k h (omega arith)

  send_package-fails :
      (c : Connection) (s : Server K)
      → FailsToSend c s.kernel
      → DistinctKeys (keys s.connections)
      → Known (key c) (keys s.connections)
      → let (ok, s1) = send_package os c s in
        (ok ≡ false) × (keys s1.connections ≡ keys s.connections)
  unfolding send_package flush_out
  send_package-fails c s h u known =
      let c1 = (connection_flush_out_buffer os c s.kernel).1 in
      let same = (flush-Drained os c s.kernel).same in
      let kept =
        write_back-keys c1 s.connections u
          (subst (λ x. Known x (keys s.connections)) (sym same) known) in
      rw (flush-fails c s.kernel h) (refl, kept)

  -- The server once the events have come.
  abbrev pub woken : Server K → Server K
  woken s = record s { kernel = (os.epoll_wait s.epoll_fd s.kernel).1 }

  last_round :
      (s s1 : Server K) (es : List Event)
      → (os.epoll_wait s.epoll_fd s.kernel).0 ≡ ready es
      → handle_events os es (woken s) ≡ (false, s1)
      → loop_round os s ≡ (false, s1)
  unfolding loop_round keep_running all_connection_buffers_empty
  last_round s s1 es w h = rw (loop_round, w) (rw h refl)

  no_more_rounds :
      (n : ℕ) (s s1 : Server K)
      → loop_round os s ≡ (false, s1)
      → loop_rounds os (suc n) s ≡ (false, s1)
  unfolding loop_rounds
  no_more_rounds n s s1 h =
      let stop = ap (λ (r : Bool × Server K). r.0) h in
      rw (loop_rounds, stop) (ap (λ (r : Bool × Server K). (false, r.1)) h)

  -- A first event whose handler returns false ends the loop.
  round-stops :
      (n : ℕ) (s : Server K) (e : Event) (es : List Event)
      → (os.epoll_wait s.epoll_fd s.kernel).0 ≡ ready (e ∷ es)
      → (handle_event os e (woken s)).0 ≡ false
      → loop_rounds os (suc n) s ≡ (false, (handle_event os e (woken s)).1)
  round-stops n s e es w stop =
      no_more_rounds n s _ (last_round s _ (e ∷ es) w (events-end os e es (woken s) stop))

  held_keys : ℕ → List Key → Bool
  held_keys d [] = false
  held_keys d (x ∷ xs) = holds d x.1 || held_keys d xs

  held_by_any-keys : (d : ℕ) (cs : List Connection) → held_by_any d cs ≡ held_keys d (keys cs)
  unfolding held_keys
  held_by_any-keys d [] = refl
  held_by_any-keys d (c ∷ cs) = ap (λ b. holds d c.fd || b) (held_by_any-keys d cs)

module _ {K : Type 0} (os : Os K) (laws : FdLaws os) where
  open laws use {is_open, never}

  cleaned_up :
      (s : Server K) (d : ℕ)
      → ((d == no_fd) ≡ false → held_by_any d s.connections ≡ true)
      → is_open d (server_cleanup os s) ≡ false
  cleaned_up s d h = elim (Bool-cases (d == no_fd)) [
    | inl none ↦ ap (λ x. is_open x (server_cleanup os s)) ((==_iff d no_fd).0 none) ∙ never _
    | inr real ↦ server_cleanup-closes os laws s d ∙ ground (arith, h real)
  ]

  each_closed :
      (s : Server K) (cs : List Connection)
      → ((d : ℕ) → held_by_any d cs ≡ true → held_by_any d s.connections ≡ true)
      → All (λ (c : Connection). is_open c.fd (server_cleanup os s) ≡ false) cs
  each_closed s [] h = tt
  each_closed s (c ∷ cs) h = (
    cleaned_up s c.fd (λ real. h c.fd (ground (arith, real, ==_refl c.fd))),
    each_closed s cs (λ d held. h d (ground (arith, held))),
  )

  -- For every system that keeps the stated laws of descriptors: let no two connections of the list
  -- have one address or one descriptor, and let the first event that `epoll_wait` reports be of
  -- sending, for some connection with output whose descriptor is not the listening socket. If the
  -- calls of `send` for this output take some bytes, any number of times, and then one fails, while
  -- bytes are left, with an error other than an interrupt and the two of a full socket, then the
  -- event loop of the server has ended in this round, whatever the other events are, and after the
  -- clean-up the sockets of all connections of the list are closed: one failing client ends the
  -- room for everybody.
  pub send_failure-stops :
      (n : ℕ) (s : Server K) (e : Event) (es : List Event) (c : Connection)
      → DistinctKeys (keys s.connections)
      → (os.epoll_wait s.epoll_fd s.kernel).0 ≡ ready (e ∷ es)
      → e.fd ≢ s.listen_fd
      → find_fd e.fd s.connections ≡ some c
      → sendable e.events c ≡ true
      → FailsToSend os c (woken os s).kernel
      → let (running, s1) = loop_rounds os (suc n) s in
        (running ≡ false)
        × All (λ (x : Connection). is_open x.fd (server_cleanup os s1) ≡ false) s.connections
  send_failure-stops n s e es c u w other found writable bad =
      let s0 = woken os s in
      let (x, sent) = event-written os e s0 c u other found writable in
      let known =
        find_fd-All (λ (y : Connection). Known (key y) (keys s.connections)) e.fd s.connections
          (each-Known s.connections) found in
      let (stop, same) = send_package-fails os c (recached x s0) bad u known in
      let s1 = (handle_event os e s0).1 in
      let same1 : keys s1.connections ≡ keys s.connections =
        ap (λ (r : Bool × Server K). keys r.1.connections) sent ∙ same in
      rw (round-stops os n s e es w (ap (λ (r : Bool × Server K). r.0) sent ∙ stop)) (
        refl,
        each_closed s1 s.connections (λ d held.
            held_by_any-keys os d s1.connections
            ∙ ap (held_keys os d) same1
            ∙ sym (held_by_any-keys os d s.connections)
            ∙ held),
      )
