-- ===== src/Server/Sound/Receive.antt =====
-- The invariant in the handlers of a client's messages and of the standard input in
-- src/server/server.cpp.
use event_driven_tcp_chatroo.Base.{
  ℕ, zero, suc, Bool, true, Option, none, some, Bytes, length, arith,
}
use event_driven_tcp_chatroo.Os.{Os}
use event_driven_tcp_chatroo.Connection.{Connection, connection_error}
use event_driven_tcp_chatroo.Protocol.{Message, message, chat, protocol_parse_message}
use event_driven_tcp_chatroo.Frontend.{printed_message}
use event_driven_tcp_chatroo.Server.{
  Server, Action, store, print_line, announce_client_disconnected, announce_room_closing,
}
use event_driven_tcp_chatroo.Server.Hello.{read_in}
use event_driven_tcp_chatroo.Server.Receive.{
  Round, stop, again, go_on, reject, say_goodbye, pass_on, take_message, message_parsed,
  read_messages, read_package, handle_read_network_package_event,
}
use event_driven_tcp_chatroo.Server.Input.{
  close_room, say, take_line, line_read, handle_read_stdin_event,
}
use event_driven_tcp_chatroo.Server.Sound.{
  IsSound, Sound, Keeps, remove-Keeps, broadcast-Keeps, announce_disconnected-Keeps,
  announce_closing-Keeps, queue_close-Keeps,
}
use event_driven_tcp_chatroo.Server.Sound.Handlers.{
  store-Sound, look_up-Keeps, parse-IsSound, read_in-Sound,
}

-- A round that goes on does so with a sound connection.
abbrev GoesOn : Round → Type 0
GoesOn (stop ok) = Unit {0}
GoesOn (again c) = IsSound c

abbrev RoundSound : {K : Type 0} → Round × Server K → Type 0
RoundSound r = GoesOn r.0 × Sound r.1

module _ {K : Type 0} (os : Os K) where
  say_goodbye-Keeps : (c : Connection) → Keeps (say_goodbye os c)
  unfolding say_goodbye
  say_goodbye-Keeps c s h =
      let after = announce_disconnected-Keeps os c s h in
      ground (arith, after, remove-Keeps os c (announce_client_disconnected os c s).1 after)

  pass_on-RoundSound :
      (c : Connection) (m : Message) (s : Server K)
      → IsSound c
      → Sound s
      → RoundSound (pass_on os c m s)
  unfolding pass_on
  pass_on-RoundSound c m s p h = ground (
    arith,
    broadcast-Keeps os (some c.address) (printed_message c.name m)
        (print_line (printed_message c.name m) s).1 h,
  )

  take_message-RoundSound :
      (c : Connection) (m : Message) (s : Server K)
      → IsSound c
      → Sound s
      → RoundSound (take_message os c m s)
  unfolding take_message reject
  take_message-RoundSound c m s p h = ground (
    arith,
    say_goodbye-Keeps c s h,
    remove-Keeps os (record c { state = connection_error }) s h,
    pass_on-RoundSound c m s p h,
  )

  message_parsed-RoundSound :
      (m : Option Message) (c : Connection) (s : Server K)
      → IsSound c
      → Sound s
      → RoundSound (message_parsed os (m, c) s)
  unfolding message_parsed
  message_parsed-RoundSound none c s p h =
      let stored = store-Sound c s p h in
      ground (
        arith,
        stored,
        remove-Keeps os c (store c s).1 stored,
        say_goodbye-Keeps c (store c s).1 stored,
      )
  message_parsed-RoundSound (some m) c s p h =
      let stored = store-Sound c s p h in
      ground (
        arith,
        stored,
        remove-Keeps os c (store c s).1 stored,
        take_message-RoundSound c m (store c s).1 p stored,
      )

  -- The next round is sound if every sound connection may go on.
  go_on-Sound :
      (next : Connection → Action K Bool) (r : Round) (s : Server K)
      → ((c : Connection) (s : Server K) → IsSound c → Sound s → Sound (next c s).1)
      → RoundSound (r, s)
      → Sound (go_on next r s).1
  go_on-Sound next (stop ok) s keep h = h.1
  go_on-Sound next (again c) s keep h = keep c s h.0 h.1

  read_messages-Sound :
      (fuel : ℕ) (c : Connection) (s : Server K)
      → IsSound c
      → Sound s
      → Sound (read_messages os fuel c s).1
  unfolding read_messages
  read_messages-Sound zero c s p h = h
  read_messages-Sound (suc fuel) c s p h =
      let (m, c1) = protocol_parse_message c in
      let (round, s1) = message_parsed os (m, c1) s in
      go_on-Sound (read_messages os fuel) round s1 (read_messages-Sound fuel)
        (message_parsed-RoundSound m c1 s (parse-IsSound c p) h)

  read_package-Sound :
      (c : Connection) (s : Server K) → IsSound c → Sound s → Sound (read_package os c s).1
  unfolding read_package
  read_package-Sound c s p h =
      let read = read_in-Sound os c s p h in
      let ((ok, c1), s1) = read_in os c s in
      ground (
        arith,
        remove-Keeps os c1 s1 read.1,
        read_messages-Sound (suc (length c1.in_buffer)) c1 s1 read.0 read.1,
      )

  pub handle_read-Keeps : (fd : ℕ) → Keeps (handle_read_network_package_event os fd)
  unfolding handle_read_network_package_event
  handle_read-Keeps fd = look_up-Keeps (read_package os) fd read_package-Sound

  close_room-Keeps : Keeps (close_room os)
  unfolding close_room
  close_room-Keeps s h =
      let announced = announce_closing-Keeps os (record s { closing = true }) h in
      let closed =
        queue_close-Keeps os (announce_room_closing os (record s { closing = true })).1 announced in
      ground (arith, announced, closed)

  say-Keeps : (line : Bytes) → Keeps (say os line)
  unfolding say
  say-Keeps line s h =
      broadcast-Keeps os none (printed_message s.name (message chat line))
        (print_line (printed_message s.name (message chat line)) s).1 h

  take_line-Keeps : (line : Bytes) → Keeps (take_line os line)
  unfolding take_line
  take_line-Keeps line s h = ground (arith, close_room-Keeps s h, say-Keeps line s h)

  line_read-Keeps : (line : Option Bytes) → Keeps (line_read os line)
  unfolding line_read
  line_read-Keeps none s h = h
  line_read-Keeps (some line) s h = take_line-Keeps line s h

  pub handle_stdin-Keeps : Keeps (handle_read_stdin_event os)
  unfolding handle_read_stdin_event
  handle_stdin-Keeps s h =
      let (line, k) = os.getline s.kernel in line_read-Keeps line (record s { kernel = k }) h
