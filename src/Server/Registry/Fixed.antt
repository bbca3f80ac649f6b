-- ===== src/Server/Registry/Fixed.antt =====
-- The listening socket and the epoll instance stay the same in the event loop of
-- src/server/server.cpp.
use event_driven_tcp_chatroo.Base.{
  ℕ, zero, suc, ◌≡◌, refl, ap, ◌∙◌, Bool, inl, inr, Option, none, some, List, [], ◌∷◌, arith,
  Option-cases, length,
}
use event_driven_tcp_chatroo.Os.{Os, Event, AcceptRun, accepted, accept_error}
use event_driven_tcp_chatroo.Connection.{Connection}
use event_driven_tcp_chatroo.Protocol.{Message, protocol_parse_message}
use event_driven_tcp_chatroo.Server.{Server, Action, for_connection, get_connection_of}
use event_driven_tcp_chatroo.Server.Accept.{
  admit, accept_loop, handle_accept_client_connection_event,
}
use event_driven_tcp_chatroo.Server.Hello.{
  read_in, event_is_receive_client_hello, receive_hello, handle_receive_client_hello_event,
}
use event_driven_tcp_chatroo.Server.Send.{
  event_is_send_network_package, send_package, handle_send_network_package_event,
}
use event_driven_tcp_chatroo.Server.Receive.{
  Round, stop, again, go_on, message_parsed, read_messages, read_package,
  event_is_read_network_package, handle_read_network_package_event,
}
use event_driven_tcp_chatroo.Server.Input.{handle_read_stdin_event}
use event_driven_tcp_chatroo.Server.Loop.{
  dispatch, handle_event, handle_events, keep_running, loop_round, loop_rounds,
}
use event_driven_tcp_chatroo.Server.Sound.Rounds.{WaitReply-cases}
use event_driven_tcp_chatroo.Server.Lookup.{get_connection_of-same}

-- The two descriptors.
abbrev pub fds : {K : Type 0} → Server K → ℕ × ℕ
fds s = (s.listen_fd, s.epoll_fd)

abbrev pub Fixes : {K A : Type 0} → Action K A → Type 0
Fixes {K} m = (s : Server K) → fds (m s).1 ≡ fds s

module _ {K : Type 0} (os : Os K) where
  look_up-Fixes : (fd : ℕ) → Fixes {K = K} (get_connection_of fd)
  look_up-Fixes fd s = ap fds (get_connection_of-same fd s)

  for_connection-Fixes :
      (body : Connection → Action K Bool) (fd : ℕ)
      → ((c : Connection) → Fixes (body c))
      → Fixes (for_connection body fd)
  for_connection-Fixes body fd keep s = elim (Option-cases (get_connection_of fd s).0) [
    | inl e ↦ rw (for_connection, e) (look_up-Fixes fd s)
    | inr (c, e) ↦ rw (for_connection, e) (keep c (get_connection_of fd s).1 ∙ look_up-Fixes fd s)
  ]

  hello_test-Fixes : (fd flags : ℕ) → Fixes {K = K} (event_is_receive_client_hello fd flags)
  unfolding event_is_receive_client_hello
  hello_test-Fixes fd flags s = ground (arith, look_up-Fixes fd s)

  send_test-Fixes : (fd flags : ℕ) → Fixes {K = K} (event_is_send_network_package fd flags)
  unfolding event_is_send_network_package
  send_test-Fixes fd flags s = look_up-Fixes fd s

  read_test-Fixes : (fd flags : ℕ) → Fixes {K = K} (event_is_read_network_package fd flags)
  unfolding event_is_read_network_package
  read_test-Fixes fd flags s = ground (arith, look_up-Fixes fd s)

  receive_hello-Fixes : (c : Connection) → Fixes (receive_hello os c)
  unfolding receive_hello
  receive_hello-Fixes c s = ground arith

  send_package-Fixes : (c : Connection) → Fixes (send_package os c)
  unfolding send_package
  send_package-Fixes c s = ground arith

  stdin-Fixes : Fixes (handle_read_stdin_event os)
  unfolding handle_read_stdin_event
  stdin-Fixes s = ground arith

  accept_loop-Fixes : (run : AcceptRun K) → Fixes (accept_loop os run)
  unfolding accept_loop
  accept_loop-Fixes (accept_error e k) s = refl
  accept_loop-Fixes (accepted fd k next) s =
      let s1 = (admit os fd k s).1 in ground (arith, accept_loop-Fixes (next s1.kernel) s1)

  message_parsed-Fixes : (m : Option Message) (c : Connection) → Fixes (message_parsed os (m, c))
  unfolding message_parsed
  message_parsed-Fixes none c s = ground arith
  message_parsed-Fixes (some m) c s = ground arith

  go_on-Fixes :
      (next : Connection → Action K Bool) (r : Round)
      → ((c : Connection) → Fixes (next c))
      → Fixes (go_on next r)
  go_on-Fixes next (stop ok) keep s = refl
  go_on-Fixes next (again c) keep s = keep c s

  read_messages-Fixes : (fuel : ℕ) (c : Connection) → Fixes (read_messages os fuel c)
  unfolding read_messages
  read_messages-Fixes zero c s = refl
  read_messages-Fixes (suc fuel) c s =
      let (m, c1) = protocol_parse_message c in
      let (round, s1) = message_parsed os (m, c1) s in
      go_on-Fixes (read_messages os fuel) round (read_messages-Fixes fuel) s1
      ∙ message_parsed-Fixes m c1 s

  read_package-Fixes : (c : Connection) → Fixes (read_package os c)
  unfolding read_package read_in
  read_package-Fixes c s =
      let ((ok, c1), s1) = read_in os c s in
      ground (arith, read_messages-Fixes (suc (length c1.in_buffer)) c1 s1)

  dispatch-Fixes : (fd flags : ℕ) → Fixes (dispatch os fd flags)
  unfolding dispatch handle_receive_client_hello_event handle_send_network_package_event
      handle_read_network_package_event handle_accept_client_connection_event
  dispatch-Fixes fd flags s =
      let s1 = (event_is_receive_client_hello fd flags s).1 in
      let s2 = (event_is_send_network_package fd flags s1).1 in
      let s3 = (event_is_read_network_package fd flags s2).1 in
      ground (
        arith,
        hello_test-Fixes fd flags s,
        send_test-Fixes fd flags s1,
        read_test-Fixes fd flags s2,
        accept_loop-Fixes (os.accept s.listen_fd s.kernel) s,
        for_connection-Fixes (receive_hello os) fd receive_hello-Fixes s1,
        for_connection-Fixes (send_package os) fd send_package-Fixes s2,
        for_connection-Fixes (read_package os) fd read_package-Fixes s3,
        stdin-Fixes s3,
      )

  handle_event-Fixes : (e : Event) → Fixes (handle_event os e)
  unfolding handle_event
  handle_event-Fixes e s =
      let s1 = (event_is_send_network_package e.fd e.events s).1 in
      ground (
        arith,
        send_test-Fixes e.fd e.events s,
        dispatch-Fixes e.fd e.events s,
        dispatch-Fixes e.fd e.events s1,
      )

  handle_events-Fixes : (es : List Event) → Fixes (handle_events os es)
  unfolding handle_events
  handle_events-Fixes [] s = refl
  handle_events-Fixes (e ∷ es) s =
      let s1 = (handle_event os e s).1 in
      ground (arith, handle_event-Fixes e s, handle_events-Fixes es s1)

  loop_round-Fixes : Fixes (loop_round os)
  unfolding loop_round keep_running
  loop_round-Fixes s =
      let (reply, k) = os.epoll_wait s.epoll_fd s.kernel in
      elim (WaitReply-cases reply) [
        | inl (es, e) ↦ ground (arith, handle_events-Fixes es (record s { kernel = k }))
        | inr (failure, e) ↦ ground arith
      ]

  pub loop_rounds-Fixes : (n : ℕ) → Fixes (loop_rounds os n)
  unfolding loop_rounds
  loop_rounds-Fixes zero s = refl
  loop_rounds-Fixes (suc n) s =
      let s1 = (loop_round os s).1 in ground (arith, loop_round-Fixes s, loop_rounds-Fixes n s1)
