-- ===== src/Server/Sound/Rounds.antt =====
-- The invariant in the event loop of src/server/server.cpp.
use event_driven_tcp_chatroo.Base.{ℕ, zero, suc, ◌≡◌, refl, ◌⊎◌, inl, inr, List, [], ◌∷◌, arith}
use event_driven_tcp_chatroo.Os.{Os, Event, Errno, WaitReply, ready, wait_failed}
use event_driven_tcp_chatroo.Connection.Flush.{SendLaws}
use event_driven_tcp_chatroo.Server.{Server}
use event_driven_tcp_chatroo.Server.Accept.{handle_accept_client_connection_event}
use event_driven_tcp_chatroo.Server.Hello.{event_is_receive_client_hello}
use event_driven_tcp_chatroo.Server.Send.{event_is_send_network_package}
use event_driven_tcp_chatroo.Server.Receive.{event_is_read_network_package}
use event_driven_tcp_chatroo.Server.Loop.{
  dispatch, handle_event, handle_events, keep_running, loop_round, loop_rounds,
}
use event_driven_tcp_chatroo.Server.Sound.{Sound, Keeps}
use event_driven_tcp_chatroo.Server.Sound.Handlers.{look_up-Sound, accept_loop-Keeps}
use event_driven_tcp_chatroo.Server.Sound.Hello.{handle_hello-Keeps}
use event_driven_tcp_chatroo.Server.Sound.Send.{handle_send-Keeps}
use event_driven_tcp_chatroo.Server.Sound.Receive.{handle_read-Keeps, handle_stdin-Keeps}

pub WaitReply-cases :
    (r : WaitReply) → ((es : List Event) × (r ≡ ready es)) ⊎ ((e : Errno) × (r ≡ wait_failed e))
WaitReply-cases (ready es) = inl (es, refl)
WaitReply-cases (wait_failed e) = inr (e, refl)

module _ {K : Type 0} where
  hello_test-Keeps : (fd flags : ℕ) → Keeps {K = K} (event_is_receive_client_hello fd flags)
  unfolding event_is_receive_client_hello
  hello_test-Keeps fd flags s h = ground (arith, look_up-Sound fd s h)

  send_test-Keeps : (fd flags : ℕ) → Keeps {K = K} (event_is_send_network_package fd flags)
  unfolding event_is_send_network_package
  send_test-Keeps fd flags s h = look_up-Sound fd s h

  read_test-Keeps : (fd flags : ℕ) → Keeps {K = K} (event_is_read_network_package fd flags)
  unfolding event_is_read_network_package
  read_test-Keeps fd flags s h = ground (arith, look_up-Sound fd s h)

module _ {K : Type 0} (os : Os K) (laws : SendLaws os) where
  accept-Keeps : Keeps (handle_accept_client_connection_event os)
  unfolding handle_accept_client_connection_event
  accept-Keeps s h = accept_loop-Keeps os (os.accept s.listen_fd s.kernel) s h

  module _ (fd flags : ℕ) (s : Server K) where
    abbrev s1 : Server K
    s1 = (event_is_receive_client_hello fd flags s).1

    abbrev s2 : Server K
    s2 = (event_is_send_network_package fd flags s1).1

    abbrev s3 : Server K
    s3 = (event_is_read_network_package fd flags s2).1

    dispatch-Sound : Sound s → Sound (dispatch os fd flags s).1
    unfolding dispatch
    dispatch-Sound h =
        let h1 = hello_test-Keeps fd flags s h in
        let h2 = send_test-Keeps fd flags s1 h1 in
        let h3 = read_test-Keeps fd flags s2 h2 in
        ground (
          arith,
          accept-Keeps s h,
          handle_hello-Keeps os fd s1 h1,
          handle_send-Keeps os laws fd s2 h2,
          handle_read-Keeps os fd s3 h3,
          handle_stdin-Keeps os s3 h3,
          h3,
        )

  handle_event-Keeps : (e : Event) → Keeps (handle_event os e)
  unfolding handle_event
  handle_event-Keeps e s h =
      let tested = send_test-Keeps e.fd e.events s h in
      ground (
        arith,
        tested,
        dispatch-Sound e.fd e.events s h,
        dispatch-Sound e.fd e.events (event_is_send_network_package e.fd e.events s).1 tested,
      )

  handle_events-Keeps : (es : List Event) → Keeps (handle_events os es)
  unfolding handle_events
  handle_events-Keeps [] s h = h
  handle_events-Keeps (e ∷ es) s h =
      let (running, s1) = handle_event os e s in
      let after = handle_event-Keeps e s h in ground (arith, after, handle_events-Keeps es s1 after)

  loop_round-Keeps : Keeps (loop_round os)
  unfolding loop_round keep_running
  loop_round-Keeps s h = elim (WaitReply-cases (os.epoll_wait s.epoll_fd s.kernel).0) [
    | inl (es, e) ↦
        let s1 = record s { kernel = (os.epoll_wait s.epoll_fd s.kernel).1 } in
        ground (arith, handle_events-Keeps es s1 h)
    | inr (failure, e) ↦ ground arith
  ]

  -- For every system whose `send` keeps the stated laws, any number of rounds of the event loop of
  -- the server, with any events in any order, keeps all connections of the list sound if they are
  -- sound before. Sound is a connection whose write offset lies in its output buffer; whose output
  -- buffer is a row of whole frames of legal messages, each a SERVER_HELLO, a BROADCAST or an empty
  -- CLOSE_CON, and without a SERVER_HELLO if it is active; that has no name and nothing to be sent
  -- if it has not said hello, and has a name if it has been introduced (answering the hello, or
  -- active); and that is in no state of the client's end.
  pub loop_rounds-Sound : (n : ℕ) (s : Server K) → Sound s → Sound (loop_rounds os n s).1
  unfolding loop_rounds
  loop_rounds-Sound zero s h = h
  loop_rounds-Sound (suc n) s h =
      let (running, s1) = loop_round os s in
      let after = loop_round-Keeps s h in ground (arith, after, loop_rounds-Sound n s1 after)
