-- ===== src/Server/Loop.antt =====
-- src/server/server.cpp: the event loop with its set-up and clean-up.
use event_driven_tcp_chatroo.Base.{
  pure, ◌>>=◌, ℕ, zero, suc, Bool, true, false, not, ◌&&◌, Option, none, some, List, [], ◌∷◌, Bytes,
  ◌==◌, if◌then◌else◌,
}
use event_driven_tcp_chatroo.Os.{Os, Event, ready, wait_failed, Errno, eintr, close, run_call}
use event_driven_tcp_chatroo.Connection.{
  Connection, no_fd, connection_cleanup, server_create_listening_socket,
}
use event_driven_tcp_chatroo.Epoll.{create_epoll}
use event_driven_tcp_chatroo.Server.{Server, Action, all_connection_buffers_empty}
use event_driven_tcp_chatroo.Server.Accept.{
  event_is_accept_client_connection, handle_accept_client_connection_event,
}
use event_driven_tcp_chatroo.Server.Hello.{
  event_is_receive_client_hello, handle_receive_client_hello_event,
}
use event_driven_tcp_chatroo.Server.Send.{
  event_is_send_network_package, handle_send_network_package_event,
}
use event_driven_tcp_chatroo.Server.Receive.{
  event_is_read_network_package, handle_read_network_package_event,
}
use event_driven_tcp_chatroo.Server.Input.{
  stdin_fileno, event_is_read_stdin, handle_read_stdin_event,
}

abbrev pub is_eintr : Errno → Bool
is_eintr eintr = true
is_eintr e = false

module _ {K : Type 0} (os : Os K) where
  -- The chain of tests in the order of the source; `true` where no handler ends the loop.
  unfoldable pub dispatch : ℕ → ℕ → Action K Bool
  dispatch fd flags s =
      if event_is_accept_client_connection fd flags s
      then handle_accept_client_connection_event os s
      else (do
        hello ← event_is_receive_client_hello fd flags
        if hello then handle_receive_client_hello_event os fd else do
          sendable ← event_is_send_network_package fd flags
          if sendable then handle_send_network_package_event os fd else do
            incoming ← event_is_read_network_package fd flags
            if incoming then handle_read_network_package_event os fd else λ s1.
                if event_is_read_stdin fd flags s1
                then handle_read_stdin_event os s1
                else (true, s1))
          s

  -- One event: while the room is closing, all but those of sending are passed over.
  unfoldable pub handle_event : Event → Action K Bool
  handle_event e s =
      if s.closing
      then (do
        sendable ← event_is_send_network_package e.fd e.events
        if sendable then dispatch e.fd e.events else pure true)
          s
      else dispatch e.fd e.events s

  -- The loop over the events of one `epoll_wait`.
  unfoldable pub handle_events : List Event → Action K Bool
  handle_events [] s = (true, s)
  handle_events (e ∷ es) s =
      let (running, s1) = handle_event e s in
      elim running [ true ↦ handle_events es s1 | false ↦ (false, s1) ]

  -- What stands behind that loop.
  unfoldable pub keep_running : Bool → Action K Bool
  unfolding all_connection_buffers_empty
  keep_running running s =
      let (empty, s1) = all_connection_buffers_empty s in (running && not (s.closing && empty), s1)

  unfoldable pub loop_round : Action K Bool
  loop_round s =
      let (reply, k) = os.epoll_wait s.epoll_fd s.kernel in
      elim reply [
        | ready events ↦
            (do running ← handle_events events; keep_running running) (record s { kernel = k })
        | wait_failed e ↦ (is_eintr e, record s { kernel = k })
      ]

  -- The `while` loop, for as many rounds as are looked at; `true` if it still runs then.
  unfoldable pub loop_rounds : ℕ → Action K Bool
  loop_rounds zero s = (true, s)
  loop_rounds (suc n) s =
      let (running, s1) = loop_round s in
      elim running [ true ↦ loop_rounds n s1 | false ↦ (false, s1) ]

  unfoldable pub cleanup_connections : List Connection → K → K
  cleanup_connections [] k = k
  cleanup_connections (c ∷ cs) k = cleanup_connections cs (connection_cleanup os c k)

  abbrev pub close_fd : ℕ → K → K
  close_fd fd k = if fd == no_fd then k else run_call os (close fd) k

  -- The server object is freed: the state of the system is left.
  unfoldable pub server_cleanup : Server K → K
  unfolding cleanup_connections
  server_cleanup s =
      cleanup_connections s.connections (close_fd s.epoll_fd (close_fd s.listen_fd s.kernel))

  -- Up to the `while` loop; `false` where the set-up failed and the clean-up is next.
  unfoldable pub start_loop : Action K Bool
  unfolding create_epoll
  start_loop s =
      let (created, k) = create_epoll os s.listen_fd stdin_fileno s.kernel in
      elim created [
        | none ↦ (
          false,
          record s {
            epoll_fd = no_fd;
            listen_fd = no_fd;
            kernel = run_call os (close s.listen_fd) k;
          },
        )
        | some epoll_fd ↦ (true, record s { epoll_fd = epoll_fd; kernel = k })
      ]

  -- `none` while the loop runs on after `n` rounds.
  unfoldable pub server_event_loop : ℕ → Server K → Option K
  server_event_loop n s =
      let (started, s1) = start_loop s in
      if started
      then (let (running, s2) = loop_rounds n s1 in
          if running then none else some (server_cleanup s2))
      else some (server_cleanup s1)

  -- `server_init`, once the name and the port have been read; `none` where there is no socket.
  unfoldable pub server_start : Bytes → ℕ → K → Option (Server K) × K
  server_start name port k =
      let (fd, k1) = server_create_listening_socket os port k in
      elim fd [
        | none ↦ (none, k1)
        | some listen_fd ↦ (
          some (record {
            name = name;
            port = port;
            listen_fd = listen_fd;
            epoll_fd = no_fd;
            connections = [];
            closing = false;
            cached = none;
            printed = [];
            kernel = k1;
          }),
          k1,
        )
      ]
