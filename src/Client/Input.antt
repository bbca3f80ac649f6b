-- ===== src/Client/Input.antt =====
-- src/client/client.cpp, the event of a line on the standard input.
use event_driven_tcp_chatroo.Base.{
  ℕ, Bool, true, false, not, ◌&&◌, Option, none, some, [], Bytes, codes, text_eq, is_empty, length,
  ◌==◌, if◌then◌else◌, pure, ◌>>◌, and_then,
}
use event_driven_tcp_chatroo.Os.{Os}
use event_driven_tcp_chatroo.Connection.{ConnectionState, is_active, is_closed, is_error}
use event_driven_tcp_chatroo.Protocol.{message, chat, close_con, protocol_payload_length_is_legal}
use event_driven_tcp_chatroo.Frontend.{printed_message}
use event_driven_tcp_chatroo.Epoll.{epollin, watch_both, watch_write, any_of}
use event_driven_tcp_chatroo.Server.Input.{stdin_fileno}
use event_driven_tcp_chatroo.Client.{Client, Action, print_line, queue, watch, is_connecting}

unfoldable pub event_is_read_stdin : {K : Type 0} → ℕ → ℕ → Client K → Bool
event_is_read_stdin fd flags s = not s.quitting && (fd == stdin_fileno && any_of flags epollin)

abbrev pub tcp_connection_is_established : ConnectionState → Bool
tcp_connection_is_established st =
    not (is_closed st) && (not (is_error st) && not (is_connecting st))

module _ {K : Type 0} (os : Os K) where
  unfoldable pub handle_quit_command : Action K Bool
  handle_quit_command = do
    print_line (codes "[client] exiting.")
    and_then (queue (message close_con [])) λ s. watch os watch_write (record s { quitting = true })

  unfoldable pub say : Bytes → Action K Bool
  say line =
      and_then (queue (message chat line))
        λ s. (do print_line (printed_message s.name (message chat line)); watch os watch_both) s

  unfoldable pub take_line : Bytes → Action K Bool
  take_line line s =
      if is_empty line
      then (true, s)
      else if text_eq line (codes "/quit")
      then if tcp_connection_is_established s.conn.state
        then handle_quit_command s
        else (do print_line (codes "[client] exiting."); pure false) s
      else if not (is_active s.conn.state)
      then (true, s)
      else if protocol_payload_length_is_legal (length line)
      then say line s
      else (do print_line (codes "[app] message length too long."); pure true) s

  -- `none` is the end of the input.
  unfoldable pub line_read : Option Bytes → Action K Bool
  line_read none s = (false, s)
  line_read (some line) s = take_line line s

  unfoldable pub handle_read_stdin_event : Action K Bool
  handle_read_stdin_event s =
      let (line, k) = os.getline s.kernel in line_read line (record s { kernel = k })
