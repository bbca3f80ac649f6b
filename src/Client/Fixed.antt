-- ===== src/Client/Fixed.antt =====
-- The descriptors of the client in its event loop in src/client/client.cpp: it keeps its socket and
-- its epoll instance, and opens and closes none.
use event_driven_tcp_chatroo.Base.{
  ℕ, zero, suc, ◌-◌, ◌≡◌, refl, ap, ◌∙◌, Bool, true, inl, inr, Option, none, some, List, [], ◌∷◌,
  Bytes, arith, Bool-cases, length, and_then, is_empty, codes, ◌&&◌, Option-cases, ◌>>◌,
}
use event_driven_tcp_chatroo.Os.{Os, Event, get_socket_error, shut_write}
use event_driven_tcp_chatroo.Connection.{
  Connection, waiting_for_server_hello, client_check_connect, connection_flush_out_buffer,
  connection_read_into_in_buffer,
}
use event_driven_tcp_chatroo.Connection.Read.{read_loop_lem}
use event_driven_tcp_chatroo.Protocol.{Message, message, chat, close_con, protocol_parse_message}
use event_driven_tcp_chatroo.Server.Registry.Owned.{ServerLaws}
use event_driven_tcp_chatroo.Server.Registry.Steps.{flush-steady, mod-Same, parse-key, queue-key}
use event_driven_tcp_chatroo.Server.Sound.Rounds.{WaitReply-cases}
use event_driven_tcp_chatroo.Client.{
  is_sending_hello, print_line, Client, Action, on_connection, queue, watch, go_on, message_parsed,
  handle_network_message, read_messages, queue_client_hello, handle_read_network_message_event,
  after_flush, handle_send_network_message_event, handle_connection_success_event,
}
use event_driven_tcp_chatroo.Frontend.{printed_message}
use event_driven_tcp_chatroo.Epoll.{watch_read, watch_write, watch_both}
use event_driven_tcp_chatroo.Client.Input.{
  handle_quit_command, say, take_line, line_read, handle_read_stdin_event,
}
use event_driven_tcp_chatroo.Client.Loop.{
  dispatch, handle_event, handle_events, loop_round, loop_rounds, greet,
}

-- The two descriptors.
abbrev pub fds : {K : Type 0} → Client K → ℕ × ℕ
fds s = (s.conn.fd, s.epoll_fd)

module _ {K : Type 0} (is_open : ℕ → K → Bool) (d : ℕ) where
  -- Descriptor `d` is open as before, and the client has the same descriptors.
  abbrev pub Stays : Client K → Client K → Type 0
  Stays s s1 = (fds s1 ≡ fds s) × (is_open d s1.kernel ≡ is_open d s.kernel)

  abbrev pub Fixes : {A : Type 0} → Action K A → Type 0
  Fixes m = (s : Client K) → Stays s (m s).1

  pub Stays-trans : (s s1 s2 : Client K) → Stays s s1 → Stays s1 s2 → Stays s s2
  Stays-trans s s1 s2 h k = (k.0 ∙ h.0, k.1 ∙ h.1)

  and_then-Fixes : (m k : Action K Bool) → Fixes m → Fixes k → Fixes (and_then m k)
  and_then-Fixes m k hm hk s = elim (Bool-cases (m s).0) [
    | inl e ↦ rw e (Stays-trans s (m s).1 (k (m s).1).1 (hm s) (hk (m s).1))
    | inr e ↦ rw e (hm s)
  ]

  handle_message-Fixes : (m : Message) → Fixes (handle_network_message m)
  unfolding handle_network_message
  handle_message-Fixes m s = ground arith

  message_parsed-Fixes :
      (m : Option Message) (c : Connection) (s : Client K)
      → c.fd ≡ s.conn.fd
      → Stays s (message_parsed (m, c) s).1
  unfolding message_parsed
  message_parsed-Fixes none c s e = ground arith
  message_parsed-Fixes (some m) c s e =
      ground (arith, handle_message-Fixes m (record s { conn = c }))

  go_on-Fixes : (next : Action K Bool) (r : Option Bool) → Fixes next → Fixes (go_on next r)
  go_on-Fixes next (some ok) h s = (refl, refl)
  go_on-Fixes next none h s = h s

  read_messages-Fixes : (fuel : ℕ) → Fixes (read_messages fuel)
  unfolding read_messages
  read_messages-Fixes zero s = (refl, refl)
  read_messages-Fixes (suc fuel) s =
      let (m, c) = protocol_parse_message s.conn in
      let (round, s1) = message_parsed (m, c) s in
      Stays-trans s s1 (go_on (read_messages fuel) round s1).1
        (message_parsed-Fixes m c s (ap (λ (k : ℕ × ℕ). k.1) (parse-key s.conn)))
        (go_on-Fixes (read_messages fuel) round (read_messages-Fixes fuel) s1)

  queue-Fixes : (m : Message) → Fixes (queue m)
  queue-Fixes m s = (ap (λ (k : ℕ × ℕ). (k.1, s.epoll_fd)) (queue-key s.conn m), refl)

module _ {K : Type 0} (os : Os K) (laws : ServerLaws os) (d : ℕ) where
  abbrev Kept : {A : Type 0} → Action K A → Type 0
  Kept m = Fixes laws.fds.is_open d m

  watch-Kept : (mask : ℕ) → Kept (watch os mask)
  watch-Kept mask s = (refl, mod-Same os laws.fds s.epoll_fd s.conn.fd mask s.kernel d)

  read_in-Kept : Kept (on_connection (connection_read_into_in_buffer os))
  unfolding connection_read_into_in_buffer
  read_in-Kept s =
      let (run, k) = os.recv s.conn.fd s.kernel in
      (
        ap (λ (r : Bool × Connection). (r.1.fd, s.epoll_fd)) (read_loop_lem run s.conn),
        laws.recv_kept s.conn.fd s.kernel d,
      )

  flush_out-Kept : Kept (on_connection (connection_flush_out_buffer os))
  unfolding connection_flush_out_buffer
  flush_out-Kept s =
      let (same, kept) =
        flush-steady os laws.fds (suc (length s.conn.out_buffer - s.conn.bytes_written)) s.conn
          s.kernel in
      (ap (λ (k : ℕ × ℕ). (k.1, s.epoll_fd)) same, kept d)

  check-Kept : Kept (on_connection (client_check_connect os))
  unfolding client_check_connect
  check-Kept s =
      let kept = laws.fds.kept (get_socket_error s.conn.fd) s.kernel d refl in ground (arith, kept)

  hello-Kept : Kept queue_client_hello
  unfolding queue_client_hello
  hello-Kept s = queue-Fixes laws.fds.is_open d _ s

  handle_read-Kept : Kept (handle_read_network_message_event os)
  unfolding handle_read_network_message_event
  handle_read-Kept =
      and_then-Fixes laws.fds.is_open d (on_connection (connection_read_into_in_buffer os))
        (λ s. read_messages (suc (length s.conn.in_buffer)) s) read_in-Kept
        (λ s. read_messages-Fixes laws.fds.is_open d (suc (length s.conn.in_buffer)) s)

  after_flush-Kept : Kept (after_flush os)
  unfolding after_flush
  after_flush-Kept s = ground (
    arith,
    laws.fds.kept (shut_write s.conn.fd) s.kernel d refl,
    watch-Kept watch_read s,
    watch-Kept watch_read (record s { conn = record s.conn { state = waiting_for_server_hello } }),
  )

  handle_send-Kept : Kept (handle_send_network_message_event os)
  unfolding handle_send_network_message_event
  handle_send-Kept =
      and_then-Fixes laws.fds.is_open d (on_connection (connection_flush_out_buffer os))
        (after_flush os) flush_out-Kept after_flush-Kept

  handle_success-Kept : Kept (handle_connection_success_event os)
  unfolding handle_connection_success_event
  handle_success-Kept =
      and_then-Fixes laws.fds.is_open d (on_connection (client_check_connect os))
        (and_then queue_client_hello (watch os watch_write)) check-Kept
        (and_then-Fixes laws.fds.is_open d queue_client_hello (watch os watch_write) hello-Kept
          (watch-Kept watch_write))

  quit-Kept : Kept (handle_quit_command os)
  unfolding handle_quit_command
  quit-Kept s =
      let s0 = record s { printed = codes "[client] exiting." ∷ s.printed } in
      and_then-Fixes laws.fds.is_open d (queue (message close_con []))
        (λ s. watch os watch_write (record s { quitting = true }))
        (queue-Fixes laws.fds.is_open d (message close_con []))
        (λ s. watch-Kept watch_write (record s { quitting = true })) s0

  say-Kept : (line : Bytes) → Kept (say os line)
  unfolding say
  say-Kept line =
      and_then-Fixes laws.fds.is_open d (queue (message chat line))
        (λ s. (do print_line (printed_message s.name (message chat line)); watch os watch_both) s)
        (queue-Fixes laws.fds.is_open d (message chat line))
        (λ s.
          watch-Kept watch_both
            (record s { printed = printed_message s.name (message chat line) ∷ s.printed }))

  take_line-Kept : (line : Bytes) → Kept (take_line os line)
  unfolding take_line
  take_line-Kept line s = ground (arith, quit-Kept s, say-Kept line s)

  handle_stdin-Kept : Kept (handle_read_stdin_event os)
  unfolding handle_read_stdin_event line_read
  handle_stdin-Kept s =
      let (line, k) = os.getline s.kernel in
      let kept = laws.line_kept s.kernel d in
      elim (Option-cases line) [
        | inl e ↦ rw e (refl, kept)
        | inr (l, e) ↦
            let s1 = record s { kernel = k } in
            rw e (
              Stays-trans laws.fds.is_open d s s1 (take_line os l s1).1 (refl, kept)
                (take_line-Kept l s1))
      ]

  dispatch-Kept : (fd flags : ℕ) → Kept (dispatch os fd flags)
  unfolding dispatch
  dispatch-Kept fd flags s =
      ground
        (arith, handle_success-Kept s, handle_send-Kept s, handle_read-Kept s, handle_stdin-Kept s)

  handle_event-Kept : (e : Event) → Kept (handle_event os e)
  unfolding handle_event
  handle_event-Kept e s = ground (arith, dispatch-Kept e.fd e.events s)

  handle_events-Kept : (es : List Event) → Kept (handle_events os es)
  unfolding handle_events
  handle_events-Kept [] s = (refl, refl)
  handle_events-Kept (e ∷ es) s =
      let s1 = (handle_event os e s).1 in
      ground (arith, handle_event-Kept e s, handle_events-Kept es s1)

  loop_round-Kept : Kept (loop_round os)
  unfolding loop_round
  loop_round-Kept s =
      let (reply, k) = os.epoll_wait s.epoll_fd s.kernel in
      let kept = laws.wait_kept s.epoll_fd s.kernel d in
      elim (WaitReply-cases reply) [
        | inl (es, e) ↦ ground (arith, kept, handle_events-Kept es (record s { kernel = k }))
        | inr (failure, e) ↦ ground (arith, kept)
      ]

  pub loop_rounds-Kept : (n : ℕ) → Kept (loop_rounds os n)
  unfolding loop_rounds
  loop_rounds-Kept zero s = (refl, refl)
  loop_rounds-Kept (suc n) s =
      let s1 = (loop_round os s).1 in ground (arith, loop_round-Kept s, loop_rounds-Kept n s1)

  pub greet-Kept : Kept (greet os)
  unfolding greet
  greet-Kept s = elim (Bool-cases (is_sending_hello s.conn.state && is_empty s.conn.out_buffer)) [
    | inl e ↦ rw e (
        and_then-Fixes laws.fds.is_open d queue_client_hello (watch os watch_write) hello-Kept
          (watch-Kept watch_write) s)
    | inr e ↦ rw e (refl, refl)
  ]
