-- ===== src/Tests/Sessions.antt =====
-- The theorems on a client's session at concrete inputs: a stream that is cut within frames.
use event_driven_tcp_chatroo.Base.{
  ℕ, ◌+◌, ◌<◌, ◌≡◌, refl, true, false, All, inr, flatten, List, [], ◌∷◌, ◌++◌, Bytes, codes, length,
  drop, take, arith,
}
use event_driven_tcp_chatroo.Os.{RecvRun, chunk, recv_error, eagain}
use event_driven_tcp_chatroo.Connection.{
  ConnectionState, waiting_for_server_hello, active, connection_read_into_in_buffer,
}
use event_driven_tcp_chatroo.Protocol.{
  message, broadcast, close_con, max_payload_size, frame_header_size, protocol_parse_message,
}
use event_driven_tcp_chatroo.Protocol.Frame.{frame}
use event_driven_tcp_chatroo.Protocol.Chunks.{stream, IsPartial}
use event_driven_tcp_chatroo.Client.{
  Client, read_messages, message_parsed, handle_network_message, handle_read_network_message_event,
}
use event_driven_tcp_chatroo.Client.Session.{put_input, with_input, Agrees, handle_all}
use event_driven_tcp_chatroo.Client.Reads.{read_events, delivered, all_quiet, read_events-Agrees}
use event_driven_tcp_chatroo.Client.Chat.{
  chat, add_lines, connected, room_closed, read_events-chat, read_events-closed,
}
use event_driven_tcp_chatroo.Client.Bounds.{handle_read-IsShort}
use event_driven_tcp_chatroo.Protocol.{Message}
use event_driven_tcp_chatroo.Server.Framing.{IsRoomMessage}
use event_driven_tcp_chatroo.Chatroom.{said, informed, read_events-member}
use event_driven_tcp_chatroo.Tests.Witnesses.{bo, bo-IsSound}
use event_driven_tcp_chatroo.Tests.System.{Net, net}

abbrev hearing : List (ℕ × RecvRun) → Net
hearing arrivals = record {
  arrivals = arrivals;
  callers = [];
  waits = [];
  lines = [];
  room = 100;
  sent = [];
  closed = [];
  last_address = 9;
}

abbrev pub guest : ConnectionState → Net → Client Net
guest state k = record {
  name = codes "bo";
  conn = record {
    address = 1;
    fd = 7;
    state = state;
    in_buffer = [];
    out_buffer = [];
    bytes_written = 0;
    name = [];
  };
  epoll_fd = 4;
  quitting = false;
  printed = [];
  kernel = k;
}

abbrev texts : List Bytes
texts = codes "[al] hi" ∷ codes "[al] ho" ∷ []

-- The first bytes of one more frame.
abbrev begun : Bytes
begun = broadcast ∷ 0 ∷ []

begun-IsPartial : IsPartial begun
begun-IsPartial = (broadcast, [], 0 ∷ 0 ∷ 0 ∷ [], omega arith, (λ e. cc e), refl)

-- Two reads that cut the bytes at a place within the first frame.
abbrev pub cut_at : ℕ → Bytes → Net
cut_at n bytes = hearing (
    (7, chunk (take n bytes) (recv_error eagain))
    ∷ (7, chunk (drop n bytes) (recv_error eagain))
    ∷ [])

abbrev chatting : Client Net
chatting = guest waiting_for_server_hello (cut_at 6 (stream (chat (codes "host") texts) ++ begun))

abbrev closing : Client Net
closing =
    guest waiting_for_server_hello
      (cut_at 6 (stream (chat (codes "host") texts ++ message close_con [] ∷ []) ++ begun))

read_events-chat_example :
    (k : Net) × (read_events net 2 chatting
      ≡ (true, with_input k begun (add_lines texts (connected (codes "host") chatting))))
unfolding all_quiet delivered flatten handle_read_network_message_event
    connection_read_into_in_buffer read_messages message_parsed protocol_parse_message
    handle_network_message
read_events-chat_example =
    read_events-chat net 2 chatting (codes "host") texts begun refl refl refl (omega arith)
      (omega arith) begun-IsPartial refl

read_events-closed_example :
    (k : Net) × (left : Bytes) × (read_events net 2 closing ≡ (
      false,
      with_input k left (room_closed (add_lines texts (connected (codes "host") closing))),
    ))
unfolding all_quiet delivered flatten handle_read_network_message_event
    connection_read_into_in_buffer read_messages message_parsed protocol_parse_message
    handle_network_message
read_events-closed_example =
    read_events-closed net 2 closing (codes "host") texts begun refl refl refl (omega arith)
      (omega arith) begun-IsPartial refl

abbrev one_line : Client Net
one_line = guest active (cut_at 3 (frame broadcast (codes "hi") ++ begun))

read_events-Agrees_example :
    Agrees begun
      (handle_all (message broadcast (codes "hi") ∷ []) one_line)
      (read_events net 2 one_line)
unfolding all_quiet delivered flatten handle_read_network_message_event
    connection_read_into_in_buffer read_messages message_parsed protocol_parse_message
    handle_network_message
read_events-Agrees_example =
    read_events-Agrees net 2 one_line (message broadcast (codes "hi") ∷ []) begun refl (inr refl)
      (broadcast, [], frame broadcast [], omega arith, (λ e. cc e), refl)
      (record { is_byte = omega arith; fits = omega arith; exact = refl }, tt) begun-IsPartial refl

handle_read-IsShort_example :
    length (handle_read_network_message_event net one_line).1.conn.in_buffer
    < frame_header_size + max_payload_size
unfolding handle_read_network_message_event connection_read_into_in_buffer read_messages
    message_parsed protocol_parse_message handle_network_message
handle_read-IsShort_example = handle_read-IsShort net one_line refl

-- A member of the server's room, and the client at the other end.
abbrev reader : Client Net
reader = guest active (cut_at 3 bo.out_buffer)

read_events-member_example :
    (ms : List Message) × (bo.out_buffer ≡ stream ms)
    × All IsRoomMessage ms
    × (k : Net) × (left : Bytes) × (read_events net 2 reader
        ≡ put_input k left (informed (said ms) reader))
unfolding all_quiet delivered flatten handle_read_network_message_event
    connection_read_into_in_buffer read_messages message_parsed protocol_parse_message
    handle_network_message
read_events-member_example = read_events-member net 2 bo reader bo-IsSound refl refl refl refl refl
