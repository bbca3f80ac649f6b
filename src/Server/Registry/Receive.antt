-- ===== src/Server/Registry/Receive.antt =====
-- Addresses and descriptors in the handlers of messages and of the standard input in
-- src/server/server.cpp.
use event_driven_tcp_chatroo.Base.{
  ℕ, zero, suc, refl, Bool, true, Option, none, some, arith, length, Bytes,
}
use event_driven_tcp_chatroo.Os.{Os}
use event_driven_tcp_chatroo.Connection.{Connection, connection_error}
use event_driven_tcp_chatroo.Protocol.{Message, message, chat, protocol_parse_message}
use event_driven_tcp_chatroo.Frontend.{printed_message, format_broadcast_message}
use event_driven_tcp_chatroo.Server.{
  Server, Action, print_line, store, announce_client_disconnected, announce_room_closing,
}
use event_driven_tcp_chatroo.Server.Hello.{read_in}
use event_driven_tcp_chatroo.Server.Receive.{
  Round, stop, again, go_on, reject, say_goodbye, pass_on, take_message, message_parsed,
  read_messages, read_package, handle_read_network_package_event,
}
use event_driven_tcp_chatroo.Server.Input.{
  close_room, say, take_line, line_read, handle_read_stdin_event,
}
use event_driven_tcp_chatroo.Server.Registry.{key}
use event_driven_tcp_chatroo.Server.Registry.Owned.{ServerLaws, Steady-Registered, Known-Steady}
use event_driven_tcp_chatroo.Server.Registry.Handlers.{
  Reg, Keeps, Holds, KeepsFor, broadcast-Stays, queue_close-Stays, announce_disconnected-Stays,
  announce_closing-Stays, remove-Keeps, store-Holds, parse-Holds, read_in-Holds, look_up-Keeps,
}

module _ {K : Type 0} (os : Os K) (laws : ServerLaws os) where
  abbrev GoesOn : Round × Server K → Type 0
  GoesOn (stop ok, s) = Reg os laws s
  GoesOn (again c, s) = Holds os laws c s

  say_goodbye-Keeps : KeepsFor os laws (say_goodbye os)
  unfolding say_goodbye
  say_goodbye-Keeps c s h =
      let st = announce_disconnected-Stays os laws c s in
      let after = Steady-Registered laws.fds.is_open st h.1 in
      let s1 = (announce_client_disconnected os c s).1 in
      ground (
        arith,
        after,
        remove-Keeps os laws c.state c s1 (Known-Steady laws.fds.is_open (key c) st h.0, after),
      )

  pass_on-GoesOn :
      (c : Connection) (m : Message) (s : Server K) → Holds os laws c s → GoesOn (pass_on os c m s)
  unfolding pass_on
  pass_on-GoesOn c m s h =
      let st =
        broadcast-Stays os laws (some c.address) (format_broadcast_message c.name m)
          (print_line (printed_message c.name m) s).1 in
      let known = Known-Steady laws.fds.is_open (key c) st h.0 in
      let after = Steady-Registered laws.fds.is_open st h.1 in ground (arith, known, after)

  take_message-GoesOn :
      (c : Connection) (m : Message) (s : Server K)
      → Holds os laws c s
      → GoesOn (take_message os c m s)
  unfolding take_message reject
  take_message-GoesOn c m s h = ground (
    arith,
    say_goodbye-Keeps c s h,
    remove-Keeps os laws connection_error c s h,
    pass_on-GoesOn c m s h,
  )

  message_parsed-GoesOn :
      (m : Option Message) (c : Connection) (s : Server K)
      → Holds os laws c s
      → GoesOn (message_parsed os (m, c) s)
  unfolding message_parsed
  message_parsed-GoesOn none c s h =
      let stored = store-Holds os laws c s h in
      ground (
        arith,
        stored.1,
        remove-Keeps os laws c.state c (store c s).1 stored,
        say_goodbye-Keeps c (store c s).1 stored,
      )
  message_parsed-GoesOn (some m) c s h =
      let stored = store-Holds os laws c s h in
      ground (
        arith,
        remove-Keeps os laws c.state c (store c s).1 stored,
        take_message-GoesOn c m (store c s).1 stored,
      )

  go_on-Keeps :
      (next : Connection → Action K Bool) (r : Round) (s : Server K)
      → KeepsFor os laws next
      → GoesOn (r, s)
      → Reg os laws (go_on next r s).1
  go_on-Keeps next (stop ok) s keep h = h
  go_on-Keeps next (again c) s keep h = keep c s h

  read_messages-Keeps : (fuel : ℕ) → KeepsFor os laws (read_messages os fuel)
  unfolding read_messages
  read_messages-Keeps zero c s h = h.1
  read_messages-Keeps (suc fuel) c s h =
      let (m, c1) = protocol_parse_message c in
      let (round, s1) = message_parsed os (m, c1) s in
      go_on-Keeps (read_messages os fuel) round s1 (read_messages-Keeps fuel)
        (message_parsed-GoesOn m c1 s (parse-Holds os laws c s h))

  read_package-Keeps : KeepsFor os laws (read_package os)
  unfolding read_package
  read_package-Keeps c s h =
      let read = read_in-Holds os laws c s h in
      let ((ok, c1), s1) = read_in os c s in
      ground (
        arith,
        remove-Keeps os laws c1.state c1 s1 read,
        read_messages-Keeps (suc (length c1.in_buffer)) c1 s1 read,
      )

  pub handle_read-Keeps : (fd : ℕ) → Keeps os laws (handle_read_network_package_event os fd)
  unfolding handle_read_network_package_event
  handle_read-Keeps fd = look_up-Keeps os laws (read_package os) fd read_package-Keeps

  close_room-Keeps : Keeps os laws (close_room os)
  unfolding close_room
  close_room-Keeps s h =
      let s0 = record s { closing = true } in
      let announced = Steady-Registered laws.fds.is_open (announce_closing-Stays os laws s0) h in
      let closed =
        Steady-Registered laws.fds.is_open
          (queue_close-Stays os laws (announce_room_closing os s0).1) announced in
      ground (arith, announced, closed)

  say-Keeps : (line : Bytes) → Keeps os laws (say os line)
  unfolding say
  say-Keeps line s h =
      Steady-Registered laws.fds.is_open
        (broadcast-Stays os laws none (format_broadcast_message s.name (message chat line))
          (print_line (printed_message s.name (message chat line)) s).1)
        h

  take_line-Keeps : (line : Bytes) → Keeps os laws (take_line os line)
  unfolding take_line
  take_line-Keeps line s h = ground (arith, close_room-Keeps s h, say-Keeps line s h)

  line_read-Keeps : (line : Option Bytes) → Keeps os laws (line_read os line)
  unfolding line_read
  line_read-Keeps none s h = h
  line_read-Keeps (some line) s h = take_line-Keeps line s h

  pub handle_stdin-Keeps : Keeps os laws (handle_read_stdin_event os)
  unfolding handle_read_stdin_event
  handle_stdin-Keeps s h =
      let (line, k) = os.getline s.kernel in
      line_read-Keeps line (record s { kernel = k })
        (Steady-Registered laws.fds.is_open
          (record { same_keys = refl; same_fds = laws.line_kept s.kernel }) h)
