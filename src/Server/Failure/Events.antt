-- ===== src/Server/Failure/Events.antt =====
-- Which handler of src/server/server.cpp an event of a member reaches while the room is open.
use event_driven_tcp_chatroo.Base.{
  ℕ, ◌≡◌, ◌≢◌, refl, ap, ◌∙◌, Bool, true, false, ◌&&◌, ◌||◌, inl, inr, Option, some, arith,
  Bool-cases,
}
use event_driven_tcp_chatroo.Os.{Os, Event}
use event_driven_tcp_chatroo.Connection.{
  Connection, ConnectionState, waiting_for_client_hello, is_active,
}
use event_driven_tcp_chatroo.Epoll.{readable, any_of}
use event_driven_tcp_chatroo.Server.{Server, find_fd, satisfies, for_connection, get_connection_of}
use event_driven_tcp_chatroo.Server.Accept.{event_is_accept_client_connection}
use event_driven_tcp_chatroo.Server.Hello.{awaits_client_hello, event_is_receive_client_hello}
use event_driven_tcp_chatroo.Server.Send.{
  sends_server_hello, event_is_send_network_package, send_package,
  handle_send_network_package_event,
}
use event_driven_tcp_chatroo.Server.Receive.{
  event_is_read_network_package, read_package, handle_read_network_package_event,
}
use event_driven_tcp_chatroo.Server.Loop.{dispatch, handle_event}
use event_driven_tcp_chatroo.Server.Lookup.{get_connection_of-same, get_connection_of-eq-find_fd}
use event_driven_tcp_chatroo.Server.Registry.{keys, DistinctKeys, DistinctKeys-DistinctFds}
use event_driven_tcp_chatroo.Server.Closing.Events.{
  sendable, recached, look_up, test-send, handle_send-found, event-sent,
}

no_hello :
    (st : ConnectionState) (other : Bool)
    → ((sends_server_hello st || is_active st) && other) ≡ true
    → awaits_client_hello st ≡ false
no_hello waiting_for_client_hello other h = cc h
no_hello st other h = refl

active_no_hello : (st : ConnectionState) → is_active st ≡ true → awaits_client_hello st ≡ false
active_no_hello waiting_for_client_hello h = cc h
active_no_hello st h = refl

module _ {K : Type 0} (os : Os K) where
  no_accept :
      (fd flags : ℕ) (s : Server K)
      → fd ≢ s.listen_fd
      → event_is_accept_client_connection fd flags s ≡ false
  unfolding event_is_accept_client_connection
  no_accept fd flags s other = ground arith

  test-hello :
      (fd flags : ℕ) (s : Server K)
      → s.closing ≡ false
      → DistinctKeys (keys s.connections)
      → event_is_receive_client_hello fd flags s ≡ (
        satisfies
            (find_fd fd s.connections)
            (λ c. awaits_client_hello c.state && any_of flags readable),
        recached (get_connection_of fd s).1.cached s,
      )
  unfolding event_is_receive_client_hello
  test-hello fd flags s opened u = let found = look_up os fd s u in ground (arith, found)

  test-read :
      (fd flags : ℕ) (s : Server K)
      → s.closing ≡ false
      → DistinctKeys (keys s.connections)
      → event_is_read_network_package fd flags s ≡ (
        satisfies (find_fd fd s.connections) (λ c. is_active c.state && any_of flags readable),
        recached (get_connection_of fd s).1.cached s,
      )
  unfolding event_is_read_network_package
  test-read fd flags s opened u = let found = look_up os fd s u in ground (arith, found)

  handle_read-found :
      (fd : ℕ) (s : Server K) (c : Connection)
      → DistinctKeys (keys s.connections)
      → find_fd fd s.connections ≡ some c
      → handle_read_network_package_event os fd s
        ≡ read_package os c (recached (get_connection_of fd s).1.cached s)
  unfolding handle_read_network_package_event
  handle_read-found fd s c u found =
      let e =
        get_connection_of-eq-find_fd fd s (DistinctKeys-DistinctFds s.connections u) ∙ found in
      rw (for_connection, e) (ap (read_package os c) (get_connection_of-same fd s))

  dispatch-send :
      (e : Event) (s s1 s2 : Server K)
      → s.closing ≡ false
      → event_is_accept_client_connection e.fd e.events s ≡ false
      → event_is_receive_client_hello e.fd e.events s ≡ (false, s1)
      → event_is_send_network_package e.fd e.events s1 ≡ (true, s2)
      → handle_event os e s ≡ handle_send_network_package_event os e.fd s2
  unfolding handle_event dispatch
  dispatch-send e s s1 s2 opened a h t = ground arith

  dispatch-read :
      (e : Event) (s s1 s2 s3 : Server K)
      → s.closing ≡ false
      → event_is_accept_client_connection e.fd e.events s ≡ false
      → event_is_receive_client_hello e.fd e.events s ≡ (false, s1)
      → event_is_send_network_package e.fd e.events s1 ≡ (false, s2)
      → event_is_read_network_package e.fd e.events s2 ≡ (true, s3)
      → handle_event os e s ≡ handle_read_network_package_event os e.fd s3
  unfolding handle_event dispatch
  dispatch-read e s s1 s2 s3 opened a h t r = ground arith

  -- An event of a socket that can be written, with output for it.
  pub event-written :
      (e : Event) (s : Server K) (c : Connection)
      → DistinctKeys (keys s.connections)
      → e.fd ≢ s.listen_fd
      → find_fd e.fd s.connections ≡ some c
      → sendable e.events c ≡ true
      → (x : Option ℕ) × (handle_event os e s ≡ send_package os c (recached x s))
  event-written e s c u other found ready = elim (Bool-cases s.closing) [
    | inl closing ↦ event-sent os e s c closing u found ready
    | inr opened ↦
        let s1 = recached (get_connection_of e.fd s).1.cached s in
        let s2 = recached (get_connection_of e.fd s1).1.cached s1 in
        let first = rw (found, no_hello c.state _ ready) at (test-hello e.fd e.events s opened u) in
        let second = rw (found, ready) at (test-send os e.fd e.events s1 u) in
        (
          (get_connection_of e.fd s2).1.cached,
          dispatch-send e s s1 s2 opened (no_accept e.fd e.events s other) first second
              ∙ handle_send-found os e.fd s2 c u found,
        )
  ]

  -- An event of a member that can be read from and not written to.
  pub event-read :
      (e : Event) (s : Server K) (c : Connection)
      → s.closing ≡ false
      → DistinctKeys (keys s.connections)
      → e.fd ≢ s.listen_fd
      → find_fd e.fd s.connections ≡ some c
      → is_active c.state ≡ true
      → any_of e.events readable ≡ true
      → sendable e.events c ≡ false
      → (x : Option ℕ) × (handle_event os e s ≡ read_package os c (recached x s))
  event-read e s c opened u other found member ready idle =
      let s1 = recached (get_connection_of e.fd s).1.cached s in
      let s2 = recached (get_connection_of e.fd s1).1.cached s1 in
      let s3 = recached (get_connection_of e.fd s2).1.cached s2 in
      let first =
        rw (found, active_no_hello c.state member) at (test-hello e.fd e.events s opened u) in
      let second = rw (found, idle) at (test-send os e.fd e.events s1 u) in
      let third = rw (found, member, ready) at (test-read e.fd e.events s2 opened u) in
      (
        (get_connection_of e.fd s3).1.cached,
        dispatch-read e s s1 s2 s3 opened (no_accept e.fd e.events s other) first second third
            ∙ handle_read-found e.fd s3 c u found,
      )
