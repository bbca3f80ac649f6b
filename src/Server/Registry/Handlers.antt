-- ===== src/Server/Registry/Handlers.antt =====
-- Addresses and descriptors in the handlers of src/server/server.cpp.
use event_driven_tcp_chatroo.Base.{
  ℕ, suc, ◌-◌, ◌≡◌, refl, sym, ap, subst, Bool, inl, inr, Option, none, some, Bool-cases,
  Option-cases, arith, length, is_empty, codes,
}
use event_driven_tcp_chatroo.Os.{Os}
use event_driven_tcp_chatroo.Connection.{
  Connection, ConnectionState, active, connection_error, sending_server_hello,
  connection_read_into_in_buffer, connection_flush_out_buffer,
}
use event_driven_tcp_chatroo.Connection.Read.{read_loop_lem}
use event_driven_tcp_chatroo.Connection.Descriptors.{Same}
use event_driven_tcp_chatroo.Protocol.{
  Message, message, server_hello, protocol_parse_message, protocol_queue_message,
}
use event_driven_tcp_chatroo.Frontend.{printed_message, format_broadcast_message}
use event_driven_tcp_chatroo.Epoll.{watch_both, watch_read}
use event_driven_tcp_chatroo.Server.{
  Server, Action, print_line, store, for_connection, get_connection_of,
  broadcast_message_to_other_clients, queue_close_to_all_clients, announce,
  announce_client_connected, announce_client_disconnected, announce_room_closing, remove_connection,
  connected_notice, disconnected_notice, closing_notice,
}
use event_driven_tcp_chatroo.Server.Hello.{
  read_in, answer_hello, take_hello, hello_parsed, receive_hello, handle_receive_client_hello_event,
}
use event_driven_tcp_chatroo.Server.Send.{
  sends_server_hello, flush_out, after_flush, send_package, handle_send_network_package_event,
}
use event_driven_tcp_chatroo.Server.Lookup.{get_connection_of-same}
use event_driven_tcp_chatroo.Server.Registry.{key, keys, Known, found-Known}
use event_driven_tcp_chatroo.Server.Registry.Owned.{
  ServerLaws, Registered, Steady, Steady-Registered, write_back-Steady, Known-Steady,
}
use event_driven_tcp_chatroo.Server.Registry.Steps.{
  queue-key, parse-key, mod-Same, remove-Registered, flush-steady, queue_to_all-Steady,
}

module _ {K : Type 0} (os : Os K) (laws : ServerLaws os) where
  abbrev pub Reg : Server K → Type 0
  Reg s = Registered laws.fds.is_open laws.others s.connections s.kernel

  abbrev pub Stays : Server K → Server K → Type 0
  Stays s s1 = Steady laws.fds.is_open s.connections s.kernel s1.connections s1.kernel

  abbrev pub Keeps : {A : Type 0} → Action K A → Type 0
  Keeps m = (s : Server K) → Reg s → Reg (m s).1

  -- A connection of a server that is in order.
  abbrev pub Holds : Connection → Server K → Type 0
  Holds c s = Known (key c) (keys s.connections) × Reg s

  abbrev pub KeepsFor : {A : Type 0} → (Connection → Action K A) → Type 0
  KeepsFor body = (c : Connection) (s : Server K) → Holds c s → Reg (body c s).1

  pub broadcast-Stays :
      (sender : Option ℕ) (m : Message) (s : Server K)
      → Stays s (broadcast_message_to_other_clients os sender m s).1
  unfolding broadcast_message_to_other_clients
  broadcast-Stays sender m s = queue_to_all-Steady os laws.fds _ m _ s

  pub queue_close-Stays : (s : Server K) → Stays s (queue_close_to_all_clients os s).1
  unfolding queue_close_to_all_clients
  queue_close-Stays s = queue_to_all-Steady os laws.fds _ _ _ s

  pub announce-Stays :
      (sender : Option ℕ) (notice : Message) (s : Server K)
      → Stays s (announce os sender notice s).1
  unfolding announce
  announce-Stays sender notice s =
      broadcast-Stays sender (format_broadcast_message (codes "server") notice)
        (print_line (printed_message (codes "server") notice) s).1

  pub announce_disconnected-Stays :
      (c : Connection) (s : Server K) → Stays s (announce_client_disconnected os c s).1
  unfolding announce_client_disconnected
  announce_disconnected-Stays c s = announce-Stays (some c.address) (disconnected_notice c) s

  pub announce_closing-Stays : (s : Server K) → Stays s (announce_room_closing os s).1
  unfolding announce_room_closing
  announce_closing-Stays s = announce-Stays none closing_notice s

  announce_connected-Keeps : (c : Connection) → Keeps (announce_client_connected os c)
  unfolding announce_client_connected
  announce_connected-Keeps c s r =
      Steady-Registered laws.fds.is_open (announce-Stays none (connected_notice c) s) r

  pub remove-Keeps :
      (state : ConnectionState) → KeepsFor (λ c. remove_connection os (record c { state = state }))
  remove-Keeps state c s h = remove-Registered os laws.fds (record c { state = state }) s h.1 h.0

  pub store-Holds : (c : Connection) (s : Server K) → Holds c s → Holds c (store c s).1
  store-Holds c s h =
      let st =
        write_back-Steady laws.fds.is_open c s.connections s.kernel s.kernel h.1 h.0 (λ d. refl) in
      (Known-Steady laws.fds.is_open (key c) st h.0, Steady-Registered laws.fds.is_open st h.1)

  pub parse-Holds :
      (c : Connection) (s : Server K) → Holds c s → Holds (protocol_parse_message c).1 s
  parse-Holds c s h = (subst (λ x. Known x (keys s.connections)) (sym (parse-key c)) h.0, h.1)

  -- A change of a connection and of the system, written back.
  pub change-Holds :
      (c c1 : Connection) (s : Server K) (k : K)
      → Holds c s
      → key c1 ≡ key c
      → Same laws.fds.is_open s.kernel k
      → Holds c1 (store c1 (record s { kernel = k })).1
  change-Holds c c1 s k h e same =
      let known = subst (λ x. Known x (keys s.connections)) (sym e) h.0 in
      let st = write_back-Steady laws.fds.is_open c1 s.connections s.kernel k h.1 known same in
      (Known-Steady laws.fds.is_open (key c1) st known, Steady-Registered laws.fds.is_open st h.1)

  pub read_in-Holds :
      (c : Connection) (s : Server K) → Holds c s → Holds (read_in os c s).0.1 (read_in os c s).1
  unfolding read_in connection_read_into_in_buffer
  read_in-Holds c s h =
      let (run, k) = os.recv c.fd s.kernel in
      change-Holds c _ s k h (ap (λ (r : Bool × Connection). key r.1) (read_loop_lem run c))
        (laws.recv_kept c.fd s.kernel)

  flush_out-Holds :
      (c : Connection) (s : Server K)
      → Holds c s
      → Holds (flush_out os c s).0.1 (flush_out os c s).1
  unfolding flush_out connection_flush_out_buffer
  flush_out-Holds c s h =
      let (ok, c1, k) = connection_flush_out_buffer os c s.kernel in
      let (same, fds) =
        flush-steady os laws.fds (suc (length c.out_buffer - c.bytes_written)) c s.kernel in
      change-Holds c c1 s k h same fds

  -- A handler that looks up its connection keeps the order if its body does.
  pub look_up-Keeps :
      (body : Connection → Action K Bool) (fd : ℕ) → KeepsFor body → Keeps (for_connection body fd)
  look_up-Keeps body fd keep s h = elim (Option-cases (get_connection_of fd s).0) [
    | inl e ↦ rw (for_connection, e) (rw (get_connection_of-same fd s) h)
    | inr (c, e) ↦
        rw (for_connection, e)
          (keep c (get_connection_of fd s).1
            (rw (get_connection_of-same fd s) (found-Known fd s e, h)))
  ]

  answer_hello-Keeps : KeepsFor (answer_hello os)
  unfolding answer_hello
  answer_hello-Keeps c s h =
      elim (Bool-cases (protocol_queue_message c (message server_hello s.name)).0) [
        | inl e ↦
            rw (answer_hello, e)
              (change-Holds c (record q { state = sending_server_hello }) s _ h same
                (mod-Same os laws.fds s.epoll_fd q.fd watch_both s.kernel)).1
        | inr e ↦ rw (answer_hello, e) (change-Holds c q s s.kernel h same (λ d. refl)).1
      ]
    where
      q : Connection
      q = (protocol_queue_message c (message server_hello s.name)).1

      same : key q ≡ key c
      same = queue-key c (message server_hello s.name)

  take_hello-Keeps : (m : Message) → KeepsFor (λ c. take_hello os c m)
  unfolding take_hello
  take_hello-Keeps m c s h = ground (
    arith,
    remove-Keeps connection_error c s h,
    answer_hello-Keeps (record c { name = m.payload }) s h,
  )

  hello_parsed-Keeps : (m : Option Message) → KeepsFor (λ c. hello_parsed os (m, c))
  unfolding hello_parsed
  hello_parsed-Keeps none c s h =
      let stored = store-Holds c s h in
      ground (arith, stored.1, remove-Keeps c.state c (store c s).1 stored)
  hello_parsed-Keeps (some m) c s h =
      let stored = store-Holds c s h in
      ground (
        arith,
        remove-Keeps c.state c (store c s).1 stored,
        take_hello-Keeps m c (store c s).1 stored,
      )

  receive_hello-Keeps : KeepsFor (receive_hello os)
  unfolding receive_hello
  receive_hello-Keeps c s h =
      let read = read_in-Holds c s h in
      let ((ok, c1), s1) = read_in os c s in
      let (m, c2) = protocol_parse_message c1 in
      ground (
        arith,
        remove-Keeps c1.state c1 s1 read,
        hello_parsed-Keeps m c2 s1 (parse-Holds c1 s1 read),
      )

  pub handle_hello-Keeps : (fd : ℕ) → Keeps (handle_receive_client_hello_event os fd)
  unfolding handle_receive_client_hello_event
  handle_hello-Keeps fd = look_up-Keeps (receive_hello os) fd receive_hello-Keeps

  after_flush-Keeps : KeepsFor (after_flush os)
  unfolding after_flush
  after_flush-Keeps c s h = elim (Bool-cases (is_empty c.out_buffer)) [
    | inr part ↦ rw (after_flush, part) h.1
    | inl whole ↦ elim (Bool-cases (sends_server_hello c.state)) [
      | inr settled ↦
          rw (after_flush, whole, settled)
            (Steady-Registered laws.fds.is_open
              (record {
                same_keys = refl;
                same_fds = mod-Same os laws.fds s.epoll_fd c.fd watch_read s.kernel;
              })
              h.1)
      | inl greeted ↦
          let c1 = record c { state = active } in
          rw (after_flush, whole, greeted)
            (announce_connected-Keeps c1 (store c1 s).1 (store-Holds c1 s h).1)
    ]
  ]

  send_package-Keeps : KeepsFor (send_package os)
  unfolding send_package
  send_package-Keeps c s h =
      let flushed = flush_out-Holds c s h in
      ground
        (arith, flushed.1, after_flush-Keeps (flush_out os c s).0.1 (flush_out os c s).1 flushed)

  pub handle_send-Keeps : (fd : ℕ) → Keeps (handle_send_network_package_event os fd)
  unfolding handle_send_network_package_event
  handle_send-Keeps fd = look_up-Keeps (send_package os) fd send_package-Keeps
