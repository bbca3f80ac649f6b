-- ===== src/Client.antt =====
-- src/client/client.hpp and client.cpp: the state of the client and the events of its connection.
-- `logd` calls, which write to stderr only, are left out.
pub mod Input
pub mod Loop
pub mod Closing
pub mod Quit
pub mod Diagram
pub mod Progress
pub mod Termination
pub mod Session
pub mod Reads
pub mod Chat
pub mod Bounds
pub mod Fixed
pub mod Life
use event_driven_tcp_chatroo.Base.{
  ℕ, zero, suc, Bool, true, false, not, ◌&&◌, ◌||◌, Option, none, some, List, ◌∷◌, ◌++◌, map, Bytes,
  codes, text_eq, is_empty, length, ◌==◌, if◌then◌else◌, bit_or, State, pure, ◌>>=◌, ◌>>◌, and_then,
}
use event_driven_tcp_chatroo.Os.{Os, shut_write, run_call}
use event_driven_tcp_chatroo.Connection.{
  Connection, ConnectionState, connecting, sending_client_hello, waiting_for_server_hello, active,
  closed, connection_error, is_active, is_closed, is_error, client_check_connect,
  connection_flush_out_buffer, connection_read_into_in_buffer,
}
use event_driven_tcp_chatroo.Protocol.{
  Message, message, client_hello, server_hello, broadcast, close_con, protocol_queue_message,
  protocol_parse_message,
}
use event_driven_tcp_chatroo.Epoll.{
  epoll_fd_mod, epollin, epollout, epollerr, epollhup, watch_read, watch_write, readable, any_of,
}

-- `Client`, with `client_quitting`, the lines printed to the standard output, latest first, and the
-- state of the system. The connection is there as long as the event loop runs.
pub record Client (K : Type 0) : Type 0 where
  pub name : Bytes
  pub conn : Connection
  pub epoll_fd : ℕ
  pub quitting : Bool
  pub printed : List Bytes
  pub kernel : K

abbrev pub Action : Type 0 → Type 0 → Type 0
Action K A = State (Client K) A

abbrev pub print_line : {K : Type 0} → Bytes → Action K (Unit {0})
print_line line s = (tt, record s { printed = line ∷ s.printed })

abbrev pub set_state : {K : Type 0} → ConnectionState → Action K (Unit {0})
set_state st s = (tt, record s { conn = record s.conn { state = st } })

-- A function of the connection and the system, with both written back.
abbrev pub on_connection : {K A : Type 0} → (Connection → K → A × Connection × K) → Action K A
on_connection f s = let (a, c, k) = f s.conn s.kernel in (a, record s { conn = c; kernel = k })

abbrev pub queue : {K : Type 0} → Message → Action K Bool
queue m s = let (ok, c) = protocol_queue_message s.conn m in (ok, record s { conn = c })

abbrev pub is_connecting : ConnectionState → Bool
is_connecting connecting = true
is_connecting s = false

abbrev pub is_sending_hello : ConnectionState → Bool
is_sending_hello sending_client_hello = true
is_sending_hello s = false

abbrev pub is_waiting_hello : ConnectionState → Bool
is_waiting_hello waiting_for_server_hello = true
is_waiting_hello s = false

module _ {K : Type 0} (fd flags : ℕ) (s : Client K) where
  unfoldable pub event_is_check_connection_success : Bool
  event_is_check_connection_success =
      fd == s.conn.fd
      && (is_connecting s.conn.state
          && any_of flags (bit_or (bit_or (bit_or epollin epollout) epollerr) epollhup))

  unfoldable pub event_is_send_network_message : Bool
  event_is_send_network_message =
      fd == s.conn.fd
      && ((s.quitting || is_sending_hello s.conn.state || is_active s.conn.state)
          && (not (is_empty s.conn.out_buffer) && any_of flags epollout))

  unfoldable pub event_is_read_network_message : Bool
  event_is_read_network_message =
      not s.quitting
      && (fd == s.conn.fd
          && ((is_waiting_hello s.conn.state || is_active s.conn.state) && any_of flags readable))

-- The line that is printed when the handshake is done.
abbrev pub connected_lines : Bytes → List Bytes → List Bytes
connected_lines name printed =
    codes "[client] connected to server. Start chatting."
    ∷ (codes "Name: " ++ name)
    ∷ codes "Connected to server."
    ∷ printed

-- `state = CONNECTION_ERROR; return false;`
abbrev pub break_off : {K : Type 0} → Action K Bool
break_off = do set_state connection_error; pure false

unfoldable pub take_server_hello : {K : Type 0} → Message → Action K Bool
take_server_hello m s =
    if m.type == server_hello
    then (
      true,
      record s {
        conn = record s.conn { name = m.payload; state = active };
        printed = connected_lines m.payload s.printed;
      },
    )
    else break_off s

unfoldable pub take_room_message : {K : Type 0} → Message → Action K Bool
take_room_message m =
    if m.type == close_con
    then if is_empty m.payload
      then (do print_line (codes "[client] server closed the room."); set_state closed; pure false)
      else break_off
    else if m.type == broadcast
    then (do print_line m.payload; pure true)
    else break_off

unfoldable pub handle_network_message : {K : Type 0} → Message → Action K Bool
unfolding take_server_hello take_room_message
handle_network_message m s =
    if is_waiting_hello s.conn.state
    then take_server_hello m s
    else if is_active s.conn.state
    then take_room_message m s
    else break_off s

-- What the parser made of the buffer: `none` for the next round.
unfoldable pub message_parsed : {K : Type 0} → Option Message × Connection → Action K (Option Bool)
message_parsed (none, c) s =
    (some (not (is_error c.state) && not (is_closed c.state)), record s { conn = c })
message_parsed (some m, c) s =
    if is_error c.state
    then (some false, record s { conn = c })
    else let (ok, s1) = handle_network_message m (record s { conn = c }) in
      (if ok then none else some false, s1)

abbrev pub go_on : {K : Type 0} → Action K Bool → Option Bool → Action K Bool
go_on next (some ok) s = (ok, s)
go_on next none s = next s

-- Every round but the last takes a frame from the buffer, so a round for each byte is enough.
unfoldable pub read_messages : {K : Type 0} → ℕ → Action K Bool
read_messages zero s = (true, s)
read_messages (suc fuel) s =
    let (round, s1) = message_parsed (protocol_parse_message s.conn) s in
    go_on (read_messages fuel) round s1

unfoldable pub queue_client_hello : {K : Type 0} → Action K Bool
queue_client_hello s = queue (message client_hello s.name) s

module _ {K : Type 0} (os : Os K) where
  abbrev pub watch : ℕ → Action K Bool
  watch mask s =
      let (ok, k) = epoll_fd_mod os s.epoll_fd s.conn.fd mask s.kernel in
      (ok, record s { kernel = k })

  unfoldable pub handle_read_network_message_event : Action K Bool
  handle_read_network_message_event =
      and_then (on_connection (connection_read_into_in_buffer os))
        λ s. read_messages (suc (length s.conn.in_buffer)) s

  -- What follows a flush that did not fail.
  unfoldable pub after_flush : Action K Bool
  after_flush s =
      if not (is_empty s.conn.out_buffer)
      then (true, s)
      else if s.quitting
      then (false, record s { kernel = run_call os (shut_write s.conn.fd) s.kernel })
      else if is_sending_hello s.conn.state
      then (do set_state waiting_for_server_hello; watch watch_read) s
      else watch watch_read s

  unfoldable pub handle_send_network_message_event : Action K Bool
  unfolding after_flush
  handle_send_network_message_event =
      and_then (on_connection (connection_flush_out_buffer os)) after_flush

  unfoldable pub handle_connection_success_event : Action K Bool
  unfolding queue_client_hello
  handle_connection_success_event =
      and_then (on_connection (client_check_connect os))
        (and_then queue_client_hello (watch watch_write))
