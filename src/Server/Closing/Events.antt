-- ===== src/Server/Closing/Events.antt =====
-- Which events src/server/server.cpp handles while the room is closing.
use event_driven_tcp_chatroo.Base.{
  ℕ, ◌≡◌, ap, ◌∙◌, Bool, true, false, not, ◌&&◌, ◌||◌, Option, some, arith, is_empty, if◌then◌else◌,
}
use event_driven_tcp_chatroo.Os.{Os, Event}
use event_driven_tcp_chatroo.Connection.{Connection, is_active}
use event_driven_tcp_chatroo.Epoll.{epollout, any_of}
use event_driven_tcp_chatroo.Server.{Server, find_fd, get_connection_of, satisfies, for_connection}
use event_driven_tcp_chatroo.Server.Send.{
  sends_server_hello, event_is_send_network_package, send_package,
  handle_send_network_package_event,
}
use event_driven_tcp_chatroo.Server.Accept.{event_is_accept_client_connection}
use event_driven_tcp_chatroo.Server.Hello.{event_is_receive_client_hello}
use event_driven_tcp_chatroo.Server.Loop.{dispatch, handle_event}
use event_driven_tcp_chatroo.Server.Lookup.{get_connection_of-same, get_connection_of-eq-find_fd}
use event_driven_tcp_chatroo.Server.Registry.{keys, DistinctKeys, DistinctKeys-DistinctFds}

-- The test of an event of sending, for the connection that has its descriptor.
abbrev pub sendable : ℕ → Connection → Bool
sendable flags c =
    (sends_server_hello c.state || is_active c.state)
    && (not (is_empty c.out_buffer) && any_of flags epollout)

-- The same server with another pointer in its cache.
abbrev pub recached : {K : Type 0} → Option ℕ → Server K → Server K
recached x s = record s { cached = x }

module _ {K : Type 0} (os : Os K) where
  pub look_up :
      (fd : ℕ) (s : Server K)
      → DistinctKeys (keys s.connections)
      → get_connection_of fd s
        ≡ (find_fd fd s.connections, recached (get_connection_of fd s).1.cached s)
  look_up fd s u =
      ap (λ r. (r, (get_connection_of fd s).1))
        (get_connection_of-eq-find_fd fd s (DistinctKeys-DistinctFds s.connections u))
      ∙ ap (λ s1. (find_fd fd s.connections, s1)) (get_connection_of-same fd s)

  pub test-send :
      (fd flags : ℕ) (s : Server K)
      → DistinctKeys (keys s.connections)
      → event_is_send_network_package fd flags s ≡ (
        satisfies (find_fd fd s.connections) (sendable flags),
        recached (get_connection_of fd s).1.cached s,
      )
  unfolding event_is_send_network_package
  test-send fd flags s u = rw (look_up fd s u)

  dispatch-closing :
      (fd flags : ℕ) (s s1 : Server K)
      → s.closing ≡ true
      → event_is_send_network_package fd flags s ≡ (true, s1)
      → dispatch os fd flags s ≡ handle_send_network_package_event os fd s1
  unfolding dispatch event_is_accept_client_connection event_is_receive_client_hello
  dispatch-closing fd flags s s1 closing e = ground arith

  handle-closing :
      (e : Event) (s s1 : Server K) (ready : Bool)
      → s.closing ≡ true
      → event_is_send_network_package e.fd e.events s ≡ (ready, s1)
      → handle_event os e s ≡ (if ready then dispatch os e.fd e.events s1 else (true, s1))
  unfolding handle_event
  handle-closing e s s1 true closing h = ground arith
  handle-closing e s s1 false closing h = ground arith

  pub handle_send-found :
      (fd : ℕ) (s : Server K) (c : Connection)
      → DistinctKeys (keys s.connections)
      → find_fd fd s.connections ≡ some c
      → handle_send_network_package_event os fd s
        ≡ send_package os c (recached (get_connection_of fd s).1.cached s)
  unfolding handle_send_network_package_event
  handle_send-found fd s c u found =
      let e =
        get_connection_of-eq-find_fd fd s (DistinctKeys-DistinctFds s.connections u) ∙ found in
      rw (for_connection, e) (ap (send_package os c) (get_connection_of-same fd s))

  -- While the room is closing, an event of no socket that can be sent to is passed over.
  pub event-passed :
      (e : Event) (s : Server K)
      → s.closing ≡ true
      → DistinctKeys (keys s.connections)
      → satisfies (find_fd e.fd s.connections) (sendable e.events) ≡ false
      → (x : Option ℕ) × (handle_event os e s ≡ (true, recached x s))
  event-passed e s closing u idle =
      let x = (get_connection_of e.fd s).1.cached in
      let test = test-send e.fd e.events s u in
      (x, handle-closing e s (recached x s) false closing (rw idle at test))

  pub event-sent :
      (e : Event) (s : Server K) (c : Connection)
      → s.closing ≡ true
      → DistinctKeys (keys s.connections)
      → find_fd e.fd s.connections ≡ some c
      → sendable e.events c ≡ true
      → (x : Option ℕ) × (handle_event os e s ≡ send_package os c (recached x s))
  event-sent e s c closing u found ready =
      let s1 = recached (get_connection_of e.fd s).1.cached s in
      let s2 = recached (get_connection_of e.fd s1).1.cached s1 in
      let first = rw (found, ready) at (test-send e.fd e.events s u) in
      let second = rw (found, ready) at (test-send e.fd e.events s1 u) in
      (
        (get_connection_of e.fd s2).1.cached,
        handle-closing e s s1 true closing first
            ∙ dispatch-closing e.fd e.events s1 s2 closing second
            ∙ handle_send-found e.fd s2 c u found,
      )
