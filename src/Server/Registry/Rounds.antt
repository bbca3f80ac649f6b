-- ===== src/Server/Registry/Rounds.antt =====
-- Addresses and descriptors in the event loop of src/server/server.cpp.
use event_driven_tcp_chatroo.Base.{ℕ, zero, suc, ◌≡◌, refl, inl, inr, List, [], ◌∷◌, arith}
use event_driven_tcp_chatroo.Os.{Os, Event}
use event_driven_tcp_chatroo.Server.{Server, find_fd, get_connection_of}
use event_driven_tcp_chatroo.Server.Hello.{event_is_receive_client_hello}
use event_driven_tcp_chatroo.Server.Send.{event_is_send_network_package}
use event_driven_tcp_chatroo.Server.Receive.{event_is_read_network_package}
use event_driven_tcp_chatroo.Server.Loop.{
  dispatch, handle_event, handle_events, keep_running, loop_round, loop_rounds,
}
use event_driven_tcp_chatroo.Server.Lookup.{get_connection_of-same, get_connection_of-eq-find_fd}
use event_driven_tcp_chatroo.Server.Registry.Accept.{accept-Keeps}
use event_driven_tcp_chatroo.Server.Sound.Rounds.{WaitReply-cases}
use event_driven_tcp_chatroo.Server.Registry.{DistinctKeys-DistinctFds}
use event_driven_tcp_chatroo.Server.Registry.Owned.{ServerLaws, Steady-Registered}
use event_driven_tcp_chatroo.Server.Registry.Handlers.{
  Reg, Keeps, handle_hello-Keeps, handle_send-Keeps,
}
use event_driven_tcp_chatroo.Server.Registry.Receive.{handle_read-Keeps, handle_stdin-Keeps}

module _ {K : Type 0} (os : Os K) (laws : ServerLaws os) where
  look_up-Reg : (fd : ℕ) → Keeps os laws (get_connection_of fd)
  look_up-Reg fd s h = rw (get_connection_of-same fd s) h

  hello_test-Keeps : (fd flags : ℕ) → Keeps os laws (event_is_receive_client_hello fd flags)
  unfolding event_is_receive_client_hello
  hello_test-Keeps fd flags s h = ground (arith, look_up-Reg fd s h)

  send_test-Keeps : (fd flags : ℕ) → Keeps os laws (event_is_send_network_package fd flags)
  unfolding event_is_send_network_package
  send_test-Keeps fd flags s h = look_up-Reg fd s h

  read_test-Keeps : (fd flags : ℕ) → Keeps os laws (event_is_read_network_package fd flags)
  unfolding event_is_read_network_package
  read_test-Keeps fd flags s h = ground (arith, look_up-Reg fd s h)

  dispatch-Keeps : (fd flags : ℕ) → Keeps os laws (dispatch os fd flags)
  unfolding dispatch
  dispatch-Keeps fd flags s h =
      let s1 = (event_is_receive_client_hello fd flags s).1 in
      let s2 = (event_is_send_network_package fd flags s1).1 in
      let s3 = (event_is_read_network_package fd flags s2).1 in
      let h1 = hello_test-Keeps fd flags s h in
      let h2 = send_test-Keeps fd flags s1 h1 in
      let h3 = read_test-Keeps fd flags s2 h2 in
      ground (
        arith,
        accept-Keeps os laws s h,
        handle_hello-Keeps os laws fd s1 h1,
        handle_send-Keeps os laws fd s2 h2,
        handle_read-Keeps os laws fd s3 h3,
        handle_stdin-Keeps os laws s3 h3,
        h3,
      )

  handle_event-Keeps : (e : Event) → Keeps os laws (handle_event os e)
  unfolding handle_event
  handle_event-Keeps e s h =
      let tested = send_test-Keeps e.fd e.events s h in
      ground (
        arith,
        tested,
        dispatch-Keeps e.fd e.events s h,
        dispatch-Keeps e.fd e.events (event_is_send_network_package e.fd e.events s).1 tested,
      )

  handle_events-Keeps : (es : List Event) → Keeps os laws (handle_events os es)
  unfolding handle_events
  handle_events-Keeps [] s h = h
  handle_events-Keeps (e ∷ es) s h =
      let s1 = (handle_event os e s).1 in
      let after = handle_event-Keeps e s h in ground (arith, after, handle_events-Keeps es s1 after)

  loop_round-Keeps : Keeps os laws (loop_round os)
  unfolding loop_round keep_running
  loop_round-Keeps s h =
      let k = (os.epoll_wait s.epoll_fd s.kernel).1 in
      let waited : Reg os laws (record s { kernel = k }) =
        Steady-Registered laws.fds.is_open
          (record { same_keys = refl; same_fds = laws.wait_kept s.epoll_fd s.kernel }) h in
      elim (WaitReply-cases (os.epoll_wait s.epoll_fd s.kernel).0) [
        | inl (es, e) ↦ ground (arith, handle_events-Keeps es (record s { kernel = k }) waited)
        | inr (failure, e) ↦ ground (arith, waited)
      ]

  -- For every system that keeps the stated laws (a new descriptor was not open before, only closing
  -- frees one, -1 is never open, and a new object has an address that no connection of the list
  -- has): if no two connections of the list have one address or one descriptor, the descriptors of
  -- all connections are open, besides them exactly a given set of others is open, and no connection
  -- has one of these, then this holds as well after any number of rounds of the event loop of the
  -- server.
  pub loop_rounds-Registered :
      (n : ℕ) (s : Server K) → Reg os laws s → Reg os laws (loop_rounds os n s).1
  unfolding loop_rounds
  loop_rounds-Registered zero s h = h
  loop_rounds-Registered (suc n) s h =
      let s1 = (loop_round os s).1 in
      let after = loop_round-Keeps s h in ground (arith, after, loop_rounds-Registered n s1 after)

  -- For every system that keeps the stated laws (a new descriptor was not open before, only closing
  -- frees one, -1 is never open, and a new object has an address that no connection of the list
  -- has): if no two connections of the list have one address or one descriptor, the descriptors of
  -- all connections are open, besides them exactly a given set of others is open, and no connection
  -- has one of these, then after any number of rounds of the event loop the look-up with its cached
  -- pointer, whatever it points to, returns for every descriptor what a search of the list of
  -- connections returns.
  pub loop_rounds-look_up :
      (n fd : ℕ) (s : Server K)
      → Reg os laws s
      → let s1 = (loop_rounds os n s).1 in (get_connection_of fd s1).0 ≡ find_fd fd s1.connections
  loop_rounds-look_up n fd s h =
      let s1 = (loop_rounds os n s).1 in
      get_connection_of-eq-find_fd fd s1
        (DistinctKeys-DistinctFds s1.connections (loop_rounds-Registered n s h).distinct)
