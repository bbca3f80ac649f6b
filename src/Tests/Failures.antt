-- ===== src/Tests/Failures.antt =====
-- The theorems on failures and on the client at concrete inputs.
use event_driven_tcp_chatroo.Base.{
  ℕ, zero, suc, ◌≡◌, refl, ap, false, none, inl, inr, List, [], ◌∷◌, Bytes, codes, length, arith,
}
use event_driven_tcp_chatroo.Os.{RecvRun, chunk, end_of_stream, recv_error, eagain}
use event_driven_tcp_chatroo.Connection.{Connection, ConnectionState, active, connection_error}
use event_driven_tcp_chatroo.Protocol.{chat, broadcast, close_con}
use event_driven_tcp_chatroo.Protocol.Frame.{frame}
use event_driven_tcp_chatroo.Server.{Server}
use event_driven_tcp_chatroo.Server.Receive.{read_package}
use event_driven_tcp_chatroo.Server.Failure.{read_package-too_long}
use event_driven_tcp_chatroo.Client.{Client, read_messages, handle_read_network_message_event}
use event_driven_tcp_chatroo.Client.Loop.{loop_rounds}
use event_driven_tcp_chatroo.Client.Termination.{Finishes, client_read_messages-Finishes}
use event_driven_tcp_chatroo.Client.Closing.{read_event_end_of_stream}
use event_driven_tcp_chatroo.Client.Diagram.{◌⟶*◌}
use event_driven_tcp_chatroo.Client.Progress.{loop_rounds-Follows}
use event_driven_tcp_chatroo.Tests.System.{Net, net}

unfoldable zeros : ℕ → Bytes
zeros zero = []
zeros (suc n) = 0 ∷ zeros n

length-zeros : (n : ℕ) → length (zeros n) ≡ n
unfolding zeros
length-zeros zero = refl
length-zeros (suc n) = ap suc (length-zeros n)

abbrev hearing : List (ℕ × RecvRun) → Net
hearing arrivals = record {
  arrivals = arrivals;
  callers = [];
  waits = (record { fd = 7; events = 1 } ∷ []) ∷ [];
  lines = [];
  room = 100;
  sent = [];
  closed = [];
  last_address = 9;
}

abbrev person : ℕ → Bytes → Bytes → Connection
person fd name waiting = record {
  address = fd;
  fd = fd;
  state = active;
  in_buffer = [];
  out_buffer = waiting;
  bytes_written = 0;
  name = name;
}

abbrev people : List Connection → Net → Server Net
people cs k = record {
  name = codes "host";
  port = 8080;
  listen_fd = 3;
  epoll_fd = 4;
  connections = cs;
  closing = false;
  cached = none;
  printed = [];
  kernel = k;
}

abbrev long_named : Connection
long_named = person 7 (zeros 65534) []

abbrev bo : Connection
bo = person 8 (codes "bo") (codes "abc")

abbrev says_hi : Net
says_hi = hearing ((7, chunk (frame chat (codes "hi")) (recv_error eagain)) ∷ [])

read_package-too_long_example :
    (read_package net long_named (people (long_named ∷ bo ∷ []) says_hi)).0 ≡ false
read_package-too_long_example =
    read_package-too_long net long_named (codes "hi") [] (people (long_named ∷ bo ∷ []) says_hi)
      refl refl refl (omega arith) (omega (arith, length-zeros 65534)) (inr (inl (refl, refl)))

abbrev guest : ConnectionState → Bytes → Net → Client Net
guest state bytes k = record {
  name = codes "bo";
  conn = record (person 7 (codes "host") []) { state = state; in_buffer = bytes };
  epoll_fd = 4;
  quitting = false;
  printed = [];
  kernel = k;
}

abbrev last_words : Net
last_words = hearing ((7, chunk (frame close_con []) end_of_stream) ∷ [])

read_event_end_of_stream_example :
    handle_read_network_message_event net (guest active [] last_words)
    ≡ (false, guest connection_error [] (hearing []))
read_event_end_of_stream_example =
    read_event_end_of_stream net close_con [] [] (guest active [] last_words) refl refl
      (omega arith) (omega arith) refl

loop_rounds-Follows_example :
    active ⟶* (loop_rounds net 2 (guest active [] last_words)).1.conn.state
loop_rounds-Follows_example = loop_rounds-Follows net 2 (guest active [] last_words)

client_read_messages-Finishes_example :
    let s = guest active (frame broadcast (codes "hi")) says_hi in Finishes s (read_messages 9 s)
client_read_messages-Finishes_example =
    client_read_messages-Finishes 9 (guest active (frame broadcast (codes "hi")) says_hi)
      (omega arith)
