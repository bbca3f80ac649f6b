-- ===== src/Client/Progress.antt =====
-- The state of the connection under the other handlers and the event loop of
-- src/client/client.cpp.
use event_driven_tcp_chatroo.Base.{
  ℕ, zero, suc, ◌≡◌, refl, Bool, true, ◌||◌, Option, none, some, ◌⊎◌, inl, inr, List, [], ◌∷◌,
  Bytes, codes, arith, Bool-cases, and_then, ◌>>◌,
}
use event_driven_tcp_chatroo.Os.{Os, Event, Errno, WaitReply, ready, wait_failed, get_socket_error}
use event_driven_tcp_chatroo.Connection.{
  Connection, ConnectionState, connecting, sending_client_hello, waiting_for_server_hello, active,
  closed, sending_server_hello, waiting_for_client_hello, connection_error, is_active,
  client_check_connect, connection_flush_out_buffer,
}
use event_driven_tcp_chatroo.Connection.Flush.{Reply-cases, flush-state}
use event_driven_tcp_chatroo.Protocol.{message, chat, close_con, client_hello}
use event_driven_tcp_chatroo.Frontend.{printed_message}
use event_driven_tcp_chatroo.Epoll.{watch_write, watch_both}
use event_driven_tcp_chatroo.Client.{
  Client, Action, on_connection, print_line, queue, watch, is_connecting, is_waiting_hello,
  after_flush, queue_client_hello, handle_connection_success_event,
  handle_send_network_message_event, event_is_check_connection_success,
  event_is_read_network_message, event_is_send_network_message,
}
use event_driven_tcp_chatroo.Client.Input.{
  event_is_read_stdin, handle_quit_command, say, take_line, line_read, handle_read_stdin_event,
}
use event_driven_tcp_chatroo.Client.Loop.{
  dispatch, handle_event, handle_events, loop_round, loop_rounds,
}
use event_driven_tcp_chatroo.Client.Diagram.{
  Reads, waiting_reads, active_reads, ◌⟶*◌, connect, greet, here, then_step, trans, of_eq, of_error,
  Follows, queue-Follows, handle_read-Follows,
}

of_cases : {s t : ConnectionState} → (t ≡ s) ⊎ (t ≡ connection_error) → s ⟶* t
of_cases (inl e) = of_eq e
of_cases (inr e) = of_error e

WaitReply-cases :
    (r : WaitReply) → ((es : List Event) × (r ≡ ready es)) ⊎ ((e : Errno) × (r ≡ wait_failed e))
WaitReply-cases (ready es) = inl (es, refl)
WaitReply-cases (wait_failed e) = inr (e, refl)

waiting_or_active : (s : ConnectionState) → (is_waiting_hello s || is_active s) ≡ true → Reads s
waiting_or_active waiting_for_server_hello h = waiting_reads
waiting_or_active active h = active_reads
waiting_or_active connecting h = ground arith
waiting_or_active sending_client_hello h = ground arith
waiting_or_active closed h = ground arith
waiting_or_active sending_server_hello h = ground arith
waiting_or_active waiting_for_client_hello h = ground arith
waiting_or_active connection_error h = ground arith

is_connecting-eq : (s : ConnectionState) → is_connecting s ≡ true → s ≡ connecting
is_connecting-eq connecting h = refl
is_connecting-eq waiting_for_server_hello h = ground arith
is_connecting-eq active h = ground arith
is_connecting-eq sending_client_hello h = ground arith
is_connecting-eq closed h = ground arith
is_connecting-eq sending_server_hello h = ground arith
is_connecting-eq waiting_for_client_hello h = ground arith
is_connecting-eq connection_error h = ground arith

module _ {K : Type 0} where
  and_then-Follows :
      (m k : Action K Bool) (s : Client K)
      → Follows s (m s)
      → Follows (m s).1 (k (m s).1)
      → Follows s (and_then m k s)
  and_then-Follows m k s first second = elim (Bool-cases (m s).0) [
    | inl e ↦ rw (and_then, e) (trans first second)
    | inr e ↦ rw (and_then, e) first
  ]

  queue_hello-Follows : (s : Client K) → Follows s (queue_client_hello s)
  unfolding queue_client_hello
  queue_hello-Follows s = queue-Follows (message client_hello s.name) s

module _ {K : Type 0} (os : Os K) where
  check-cases :
      (c : Connection) (k : K)
      → let t = (client_check_connect os c k).1.state in
        (t ≡ sending_client_hello) ⊎ (t ≡ connection_error)
  unfolding client_check_connect
  check-cases c k = elim (Reply-cases (os.call (get_socket_error c.fd) k).0) [
    | inl e ↦ rw (client_check_connect, e) (inl refl)
    | inr (inl (n, e)) ↦ ground arith
    | inr (inr (e, h)) ↦ rw (client_check_connect, h) (inr refl)
  ]

  handle_success-Follows :
      (s : Client K) → s.conn.state ≡ connecting → Follows s (handle_connection_success_event os s)
  unfolding handle_connection_success_event
  handle_success-Follows s e =
      and_then-Follows (on_connection (client_check_connect os))
        (and_then queue_client_hello (watch os watch_write)) s
        (checked (check-cases s.conn s.kernel))
        (and_then-Follows queue_client_hello (watch os watch_write)
          (on_connection (client_check_connect os) s).1
          (queue_hello-Follows (on_connection (client_check_connect os) s).1) here)
    where
      checked :
          {t : ConnectionState}
          → (t ≡ sending_client_hello) ⊎ (t ≡ connection_error)
          → s.conn.state ⟶* t
      checked (inl sent) = rw (e, sent) (then_step connect here)
      checked (inr bad) = of_error bad

  after_flush-Follows : (s : Client K) → Follows s (after_flush os s)
  unfolding after_flush
  after_flush-Follows s = by_cases s.conn.state _ cases
    where
      cases :
          let t = (after_flush os s).1.conn.state in
          (t ≡ s.conn.state)
          ⊎ ((s.conn.state ≡ sending_client_hello) × (t ≡ waiting_for_server_hello))
      cases = ground arith

      by_cases :
          (s t : ConnectionState)
          → (t ≡ s) ⊎ ((s ≡ sending_client_hello) × (t ≡ waiting_for_server_hello))
          → s ⟶* t
      by_cases s t (inl e) = of_eq e
      by_cases s t (inr (e, w)) = rw (e, w) (then_step greet here)

  handle_send-Follows : (s : Client K) → Follows s (handle_send_network_message_event os s)
  unfolding handle_send_network_message_event
  handle_send-Follows s =
      and_then-Follows (on_connection (connection_flush_out_buffer os)) (after_flush os) s
        (of_cases (flush-state os s.conn s.kernel))
        (after_flush-Follows (on_connection (connection_flush_out_buffer os) s).1)

  quit-Follows : (s : Client K) → Follows s (handle_quit_command os s)
  unfolding handle_quit_command
  quit-Follows s =
      and_then-Follows (queue (message close_con []))
        (λ s. watch os watch_write (record s { quitting = true }))
        (print_line (codes "[client] exiting.") s).1
        (queue-Follows (message close_con []) (print_line (codes "[client] exiting.") s).1) here

  say-Follows : (line : Bytes) (s : Client K) → Follows s (say os line s)
  unfolding say
  say-Follows line s =
      and_then-Follows (queue (message chat line))
        (λ s. (print_line (printed_message s.name (message chat line)) >> watch os watch_both) s) s
        (queue-Follows (message chat line) s) here

  take_line-Follows : (line : Bytes) (s : Client K) → Follows s (take_line os line s)
  unfolding take_line
  take_line-Follows line s =
      ground (arith, quit-Follows s, say-Follows line s, here {s = s.conn.state})

  line_read-Follows : (line : Option Bytes) (s : Client K) → Follows s (line_read os line s)
  unfolding line_read
  line_read-Follows none s = here
  line_read-Follows (some line) s = take_line-Follows line s

  handle_stdin-Follows : (s : Client K) → Follows s (handle_read_stdin_event os s)
  unfolding handle_read_stdin_event
  handle_stdin-Follows s =
      let (line, k) = os.getline s.kernel in line_read-Follows line (record s { kernel = k })

  check_test-connecting :
      (fd flags : ℕ) (s : Client K)
      → event_is_check_connection_success fd flags s ≡ true
      → is_connecting s.conn.state ≡ true
  unfolding event_is_check_connection_success
  check_test-connecting fd flags s h = ground arith

  read_test-Reads :
      (fd flags : ℕ) (s : Client K)
      → event_is_read_network_message fd flags s ≡ true
      → (is_waiting_hello s.conn.state || is_active s.conn.state) ≡ true
  unfolding event_is_read_network_message
  read_test-Reads fd flags s h = ground arith

  dispatch-Follows : (fd flags : ℕ) (s : Client K) → Follows s (dispatch os fd flags s)
  unfolding dispatch
  dispatch-Follows fd flags s = elim (Bool-cases (event_is_check_connection_success fd flags s)) [
    | inl e ↦
        rw (dispatch, e)
          (handle_success-Follows s
            (is_connecting-eq s.conn.state (check_test-connecting fd flags s e)))
    | inr e ↦ elim (Bool-cases (event_is_send_network_message fd flags s)) [
      | inl f ↦ rw (dispatch, e, f) (handle_send-Follows s)
      | inr f ↦ elim (Bool-cases (event_is_read_network_message fd flags s)) [
        | inl g ↦
            rw (dispatch, e, f, g)
              (handle_read-Follows os s
                (waiting_or_active s.conn.state (read_test-Reads fd flags s g)))
        | inr g ↦ elim (Bool-cases (event_is_read_stdin fd flags s)) [
          | inl i ↦ rw (dispatch, e, f, g, i) (handle_stdin-Follows s)
          | inr i ↦ rw (dispatch, e, f, g, i) here
        ]
      ]
    ]
  ]

  handle_event-Follows : (e : Event) (s : Client K) → Follows s (handle_event os e s)
  unfolding handle_event
  handle_event-Follows e s =
      ground (arith, dispatch-Follows e.fd e.events s, here {s = s.conn.state})

  handle_events-Follows : (es : List Event) (s : Client K) → Follows s (handle_events os es s)
  unfolding handle_events
  handle_events-Follows [] s = here
  handle_events-Follows (e ∷ es) s =
      let (running, s1) = handle_event os e s in
      let first = handle_event-Follows e s in
      ground (arith, first, trans first (handle_events-Follows es s1))

  loop_round-Follows : (s : Client K) → Follows s (loop_round os s)
  unfolding loop_round
  loop_round-Follows s = elim (WaitReply-cases (os.epoll_wait s.epoll_fd s.kernel).0) [
    | inl (es, e) ↦
        rw (loop_round, e)
          (handle_events-Follows es (record s { kernel = (os.epoll_wait s.epoll_fd s.kernel).1 }))
    | inr (failure, e) ↦ rw (loop_round, e) here
  ]

  -- Whatever events come and whatever the system answers, any number of rounds of the event loop of
  -- the client takes the state of its connection along the arrows of the diagram: connecting to
  -- sending the hello, to waiting for the answer, to active; from waiting or active to closed; and
  -- from anywhere to the error state.
  pub loop_rounds-Follows :
      (n : ℕ) (s : Client K) → s.conn.state ⟶* (loop_rounds os n s).1.conn.state
  unfolding loop_rounds
  loop_rounds-Follows zero s = here
  loop_rounds-Follows (suc n) s =
      let (running, s1) = loop_round os s in
      let first = loop_round-Follows s in
      ground (arith, first, trans first (loop_rounds-Follows n s1))
