-- ===== src/Server/Input.antt =====
-- src/server/server.cpp, the event of a line on the standard input.
use event_driven_tcp_chatroo.Base.{
  pure, ◌>>=◌, ◌>>◌, and_then, ℕ, Bool, true, false, not, ◌&&◌, Option, none, some, Bytes, codes,
  text_eq, is_empty, length, ◌==◌, if◌then◌else◌,
}
use event_driven_tcp_chatroo.Os.{Os}
use event_driven_tcp_chatroo.Protocol.{message, chat, protocol_payload_length_is_legal}
use event_driven_tcp_chatroo.Frontend.{printed_message, format_broadcast_message}
use event_driven_tcp_chatroo.Epoll.{epollin, any_of}
use event_driven_tcp_chatroo.Server.{
  Server, Action, on_kernel, print_line, broadcast_message_to_other_clients, announce_room_closing,
  queue_close_to_all_clients, all_connection_buffers_empty,
}

-- `STDIN_FILENO`
abbrev pub stdin_fileno : ℕ
stdin_fileno = 0

unfoldable pub event_is_read_stdin : {K : Type 0} → ℕ → ℕ → Server K → Bool
event_is_read_stdin fd event_flags s =
    not s.closing && (fd == stdin_fileno && any_of event_flags epollin)

module _ {K : Type 0} (os : Os K) where
  unfoldable pub close_room : Action K Bool
  unfolding announce_room_closing queue_close_to_all_clients all_connection_buffers_empty
  close_room s =
      and_then (announce_room_closing os) (and_then (queue_close_to_all_clients os) unsent)
        (record s { closing = true })
    where
      unsent : Action K Bool
      unsent = do empty ← all_connection_buffers_empty; pure (not empty)

  unfoldable pub say : Bytes → Action K Bool
  unfolding broadcast_message_to_other_clients
  say line s =
      (do
        print_line (printed_message s.name (message chat line))
        broadcast_message_to_other_clients os none
            (format_broadcast_message s.name (message chat line)))
        s

  unfoldable pub take_line : Bytes → Action K Bool
  unfolding close_room say
  take_line line =
      if is_empty line
      then pure true
      else if text_eq line (codes "/quit")
      then close_room
      else if protocol_payload_length_is_legal (length line)
      then say line
      else do print_line (codes "[app] message length too long."); pure true

  -- `none` is the end of the input.
  unfoldable pub line_read : Option Bytes → Action K Bool
  unfolding take_line
  line_read none = pure false
  line_read (some line) = take_line line

  unfoldable pub handle_read_stdin_event : Action K Bool
  unfolding line_read
  handle_read_stdin_event = do line ← on_kernel os.getline; line_read line
