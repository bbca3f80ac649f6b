-- ===== src/Client/Loop.antt =====
-- src/client/client.cpp: the event loop with its set-up and clean-up.
use event_driven_tcp_chatroo.Base.{
  ℕ, zero, suc, Bool, true, false, not, ◌&&◌, Option, none, some, List, [], ◌∷◌, Bytes, ◌==◌,
  is_empty, if◌then◌else◌, and_then,
}
use event_driven_tcp_chatroo.Os.{Os, Event, ready, wait_failed, close, run_call}
use event_driven_tcp_chatroo.Connection.{no_fd, connection_cleanup, client_connect_to_server}
use event_driven_tcp_chatroo.Epoll.{create_epoll_for_connection, watch_write}
use event_driven_tcp_chatroo.Server.Input.{stdin_fileno}
use event_driven_tcp_chatroo.Server.Loop.{is_eintr}
use event_driven_tcp_chatroo.Client.{
  Client, Action, watch, is_sending_hello, event_is_check_connection_success,
  event_is_send_network_message, event_is_read_network_message, handle_connection_success_event,
  handle_send_network_message_event, handle_read_network_message_event, queue_client_hello,
}
use event_driven_tcp_chatroo.Client.Input.{event_is_read_stdin, handle_read_stdin_event}

module _ {K : Type 0} (os : Os K) where
  -- The chain of tests in the order of the source; `true` where no handler ends the loop.
  unfoldable pub dispatch : ℕ → ℕ → Action K Bool
  dispatch fd flags s =
      if event_is_check_connection_success fd flags s
      then handle_connection_success_event os s
      else if event_is_send_network_message fd flags s
      then handle_send_network_message_event os s
      else if event_is_read_network_message fd flags s
      then handle_read_network_message_event os s
      else if event_is_read_stdin fd flags s
      then handle_read_stdin_event os s
      else (true, s)

  -- One event: while the client is quitting, all but those of sending are passed over.
  unfoldable pub handle_event : Event → Action K Bool
  handle_event e s =
      if s.quitting && not (event_is_send_network_message e.fd e.events s)
      then (true, s)
      else dispatch e.fd e.events s

  unfoldable pub handle_events : List Event → Action K Bool
  handle_events [] s = (true, s)
  handle_events (e ∷ es) s =
      let (running, s1) = handle_event e s in
      elim running [ true ↦ handle_events es s1 | false ↦ (false, s1) ]

  unfoldable pub loop_round : Action K Bool
  loop_round s =
      let (reply, k) = os.epoll_wait s.epoll_fd s.kernel in
      elim reply [
        | ready events ↦ handle_events events (record s { kernel = k })
        | wait_failed e ↦ (is_eintr e, record s { kernel = k })
      ]

  -- The `while` loop, for as many rounds as are looked at; `true` if it still runs then.
  unfoldable pub loop_rounds : ℕ → Action K Bool
  loop_rounds zero s = (true, s)
  loop_rounds (suc n) s =
      let (running, s1) = loop_round s in
      elim running [ true ↦ loop_rounds n s1 | false ↦ (false, s1) ]

  -- The hello of a connection that was established at once.
  unfoldable pub greet : Action K Bool
  greet s =
      if is_sending_hello s.conn.state && is_empty s.conn.out_buffer
      then and_then queue_client_hello (watch os watch_write) s
      else (true, s)

  -- Up to the `while` loop; `false` where the set-up failed and the clean-up is next.
  unfoldable pub start_loop : Action K Bool
  unfolding greet
  start_loop s =
      let (created, k) = create_epoll_for_connection os s.conn stdin_fileno s.kernel in
      elim created [
        | none ↦ (false, record s { kernel = k })
        | some epoll_fd ↦ greet (record s { epoll_fd = epoll_fd; kernel = k })
      ]

  -- The client object is freed: the state of the system is left.
  unfoldable pub client_cleanup : Client K → K
  client_cleanup s =
      let k = connection_cleanup os s.conn s.kernel in
      if s.epoll_fd == no_fd then k else run_call os (close s.epoll_fd) k

  -- `none` while the loop runs on after `n` rounds.
  unfoldable pub client_event_loop : ℕ → Client K → Option K
  client_event_loop n s =
      let (started, s1) = start_loop s in
      if started
      then (let (running, s2) = loop_rounds n s1 in
          if running then none else some (client_cleanup s2))
      else some (client_cleanup s1)

  -- `client_init`, once the name and the address have been read; `none` where there is no socket.
  unfoldable pub client_start : Bytes → ℕ → K → Option (Client K) × K
  client_start name server k =
      let (conn, k1) = client_connect_to_server os server k in
      elim conn [
        | none ↦ (none, k1)
        | some c ↦ (
          some (record {
            name = name;
            conn = c;
            epoll_fd = no_fd;
            quitting = false;
            printed = [];
            kernel = k1;
          }),
          k1,
        )
      ]
