-- ===== src/Tests/Witnesses.antt =====
-- The theorems on small concrete inputs: two clients in a room, and frames of a few bytes.
use event_driven_tcp_chatroo.Base.{
  ℕ, ◌<◌, ◌≡◌, ◌≢◌, refl, true, false, Option, none, some, List, [], ◌∷◌, ◌++◌, map, flatten, Bytes,
  codes, arith, All,
}
use event_driven_tcp_chatroo.Os.{chunk, end_of_stream}
use event_driven_tcp_chatroo.Connection.{
  Connection, active, closed, connection_error, connection_flush_out_buffer,
}
use event_driven_tcp_chatroo.Connection.Flush.{Flushed, flush-Flushed}
use event_driven_tcp_chatroo.Connection.{connection_read_into_in_buffer}
use event_driven_tcp_chatroo.Connection.Read.{stream_ends, connection_read-EndsAs}
use event_driven_tcp_chatroo.Protocol.{
  Message, message, chat, broadcast, max_payload_size, header_length, protocol_parse_message,
}
use event_driven_tcp_chatroo.Protocol.Frame.{frame, IsLegal}
use event_driven_tcp_chatroo.Protocol.Inverse.{parse_takes_frame}
use event_driven_tcp_chatroo.Protocol.Outcome.{extend}
use event_driven_tcp_chatroo.Protocol.Stream.{drain}
use event_driven_tcp_chatroo.Protocol.Chunks.{feed, feed-stream, stream, IsPartial}
use event_driven_tcp_chatroo.Connection.Flush.{pending}
use event_driven_tcp_chatroo.Protocol.{protocol_queue_message}
use event_driven_tcp_chatroo.Protocol.Transfer.{
  flushes, queue_all, feed-queue_prefix, feed-queue_all,
}
use event_driven_tcp_chatroo.Frontend.{format_broadcast_message}
use event_driven_tcp_chatroo.Epoll.{epoll_fd_mod, watch_both}
use event_driven_tcp_chatroo.Server.{Server, broadcast_message_to_other_clients}
use event_driven_tcp_chatroo.Server.Framing.{
  StreamOf, IsRoomMessage, IsServerMessage, frame-StreamOf, empty-StreamOf, room-IsServerMessage,
  broadcast-ForRoom,
}
use event_driven_tcp_chatroo.Server.Receive.{pass_on, again, read_messages}
use event_driven_tcp_chatroo.Server.Loop.{loop_rounds}
use event_driven_tcp_chatroo.Server.Sound.{Sound, IsSound}
use event_driven_tcp_chatroo.Server.Sound.Rounds.{loop_rounds-Sound}
use event_driven_tcp_chatroo.Server.Delivery.{
  hears, broadcast_reaches, broadcast_succeeds, pass_on_lem,
}
use event_driven_tcp_chatroo.Server.Termination.{Finishes, read_messages-Finishes}
use event_driven_tcp_chatroo.Tests.System.{Net, net, net_laws}

abbrev quiet : Net
quiet = record {
  arrivals = [];
  callers = [];
  waits = [];
  lines = [];
  room = 3;
  sent = [];
  closed = [];
  last_address = 9;
}

abbrev pub client : ℕ → ℕ → Bytes → Bytes → Connection
client address fd name waiting = record {
  address = address;
  fd = fd;
  state = active;
  in_buffer = [];
  out_buffer = waiting;
  bytes_written = 0;
  name = name;
}

abbrev al : Connection
al = client 1 7 (codes "al") []

abbrev pub bo : Connection
bo = client 2 8 (codes "bo") (frame broadcast (codes "hm"))

abbrev room : Net → Server Net
room k = record {
  name = codes "host";
  port = 8080;
  listen_fd = 3;
  epoll_fd = 4;
  connections = al ∷ bo ∷ [];
  closing = false;
  cached = some 5;
  printed = [];
  kernel = k;
}

abbrev hi : Message
hi = message chat (codes "hi")

hi-IsLegal : IsLegal hi
hi-IsLegal = record { is_byte = omega arith; fits = omega arith; exact = refl }

abbrev start_of_frame : Bytes
start_of_frame = 3 ∷ 0 ∷ []

start-IsPartial : IsPartial start_of_frame
start-IsPartial = (3, codes "a", 0 ∷ 0 ∷ 1 ∷ 97 ∷ [], omega arith, λ e. cc, refl)

abbrev pieces : List Bytes
pieces = (3 ∷ 0 ∷ 0 ∷ []) ∷ (0 ∷ 2 ∷ codes "h") ∷ (codes "i" ++ start_of_frame) ∷ []

pieces_lem : flatten pieces ≡ stream (hi ∷ []) ++ start_of_frame
unfolding flatten
pieces_lem = refl

feed-stream_example : feed pieces al ≡ (hi ∷ [], extend al start_of_frame)
feed-stream_example =
    feed-stream pieces (hi ∷ []) start_of_frame al (hi-IsLegal, tt) start-IsPartial pieces_lem refl
      (λ e. cc)

pieces_fine : (drain (extend al (flatten pieces))).1.state ≢ connection_error
unfolding drain protocol_parse_message flatten
pieces_fine e = cc

al_idle : protocol_parse_message al ≡ (none, al)
unfolding protocol_parse_message
al_idle = refl

active-IsSound :
    (address fd : ℕ) (name waiting : Bytes)
    → name ≢ []
    → StreamOf IsServerMessage waiting
    → StreamOf IsRoomMessage waiting
    → IsSound (client address fd name waiting)
active-IsSound address fd name waiting h framed room = record {
  buffered = omega arith;
  strangers = λ w. cc;
  named = λ w. h;
  serving = refl;
  framed = framed;
  room = λ w. room;
}

hm-IsRoomMessage : IsRoomMessage (message broadcast (codes "hm"))
hm-IsRoomMessage = broadcast-ForRoom (codes "hm") (omega arith)

pub bo-IsSound : IsSound bo
bo-IsSound =
    active-IsSound 2 8 (codes "bo") (frame broadcast (codes "hm")) (λ e. cc e)
      (frame-StreamOf IsServerMessage [] (message broadcast (codes "hm"))
        (room-IsServerMessage _ hm-IsRoomMessage) (empty-StreamOf IsServerMessage [] refl))
      (frame-StreamOf IsRoomMessage [] (message broadcast (codes "hm")) hm-IsRoomMessage
        (empty-StreamOf IsRoomMessage [] refl))

al-IsSound : IsSound al
al-IsSound =
    active-IsSound 1 7 (codes "al") [] (λ e. cc e) (empty-StreamOf IsServerMessage [] refl)
      (empty-StreamOf IsRoomMessage [] refl)

room-Sound : (k : Net) → Sound (room k)
room-Sound k = (al-IsSound, (bo-IsSound, tt))

loop_rounds-Sound_example : Sound (loop_rounds net 3 (room quiet)).1
loop_rounds-Sound_example = loop_rounds-Sound net net_laws 3 (room quiet) (room-Sound quiet)

flush-Flushed_example :
    Flushed net_laws.delivered bo quiet (connection_flush_out_buffer net bo quiet)
flush-Flushed_example = flush-Flushed net net_laws bo quiet (omega arith)

net_watches : (fd : ℕ) (k : Net) → (epoll_fd_mod net 4 fd watch_both k).0 ≡ true
unfolding epoll_fd_mod
net_watches fd k = refl

broadcast_hi : (broadcast_message_to_other_clients net (some 1) hi (room quiet)).0 ≡ true
broadcast_hi = broadcast_succeeds net (some 1) hi (room quiet) (omega arith) net_watches

broadcast_reaches_example :
    (broadcast_message_to_other_clients net (some 1) hi (room quiet)).1.connections
    ≡ map (hears (some 1) hi) (al ∷ bo ∷ [])
broadcast_reaches_example = broadcast_reaches net (some 1) hi (room quiet) broadcast_hi

pass_on_lem_example :
    let (round, s1) = pass_on net al hi (room quiet) in
    (round ≡ again al)
    × (s1.connections
        ≡ map (hears (some 1) (format_broadcast_message (codes "al") hi)) (al ∷ bo ∷ []))
    × (s1.printed ≡ codes "[al] hi" ∷ [])
pass_on_lem_example = pass_on_lem net al hi (room quiet) (omega arith) net_watches

abbrev hi_and_more : Connection
hi_and_more = extend al (frame chat (codes "hi") ++ start_of_frame)

abbrev hi_taken : Option Message × Connection
hi_taken = (some hi, extend al start_of_frame)

hi_parsed : protocol_parse_message hi_and_more ≡ hi_taken
unfolding protocol_parse_message
hi_parsed = refl

hi_bytes : All (λ (b : ℕ). b < 256) hi_and_more.in_buffer
hi_bytes = (
  omega arith,
  (
    omega arith,
    (
      omega arith,
      (omega arith, (omega arith, (omega arith, (omega arith, (omega arith, (omega arith, tt)))))),
    ),
  ),
)

parse_takes_frame_example :
    (hi_and_more.in_buffer ≡ frame chat (codes "hi") ++ start_of_frame) × IsLegal hi
parse_takes_frame_example =
    parse_takes_frame hi_and_more (extend al start_of_frame) hi hi_bytes hi_parsed

abbrev oversized : Connection
oversized = extend al (3 ∷ 1 ∷ 0 ∷ 0 ∷ 0 ∷ [])

oversized_length : max_payload_size < header_length oversized.in_buffer
unfolding header_length
oversized_length = omega arith

-- What comes on descriptor 7: two chunks, then the end of the stream.
abbrev two_chunks : Net
two_chunks = record quiet {
  arrivals = (7, chunk (codes "ab") (chunk (codes "c") end_of_stream)) ∷ [];
}

connection_read-EndsAs_example :
    connection_read_into_in_buffer net al two_chunks
    ≡ (true, record al { in_buffer = codes "abc"; state = closed }, quiet)
unfolding flatten
connection_read-EndsAs_example =
    connection_read-EndsAs net al two_chunks (codes "ab" ∷ codes "c" ∷ []) end_of_stream true closed
      refl stream_ends

read_messages-Finishes_example :
    Finishes net hi_and_more (room quiet) (read_messages net 10 hi_and_more (room quiet))
read_messages-Finishes_example =
    read_messages-Finishes net 10 hi_and_more (room quiet) (omega arith)

-- A network that takes three bytes, and one that takes all.
abbrev wide : Net
wide = record quiet { room = 100 }

three_bytes :
    flatten ((3 ∷ 0 ∷ []) ∷ (0 ∷ []) ∷ [])
    ≡ net_laws.delivered 7 (flushes net 2 (queue_all (hi ∷ hi ∷ []) al) quiet).1
unfolding flatten connection_flush_out_buffer protocol_queue_message
three_bytes = refl

feed-queue_prefix_example :
    (left : List Message) × ((feed ((3 ∷ 0 ∷ []) ∷ (0 ∷ []) ∷ []) al).0 ++ left ≡ hi ∷ hi ∷ [])
feed-queue_prefix_example =
    feed-queue_prefix net net_laws 2 (hi ∷ hi ∷ []) al al quiet ((3 ∷ 0 ∷ []) ∷ (0 ∷ []) ∷ [])
      (hi-IsLegal, (hi-IsLegal, tt)) refl refl refl refl (λ e. cc) three_bytes

all_flushed : pending (flushes net 1 (queue_all (hi ∷ []) al) wide).0 ≡ []
unfolding connection_flush_out_buffer protocol_queue_message
all_flushed = refl

seven_bytes :
    flatten ((3 ∷ 0 ∷ []) ∷ (0 ∷ 0 ∷ 2 ∷ codes "hi") ∷ [])
    ≡ net_laws.delivered 7 (flushes net 1 (queue_all (hi ∷ []) al) wide).1
unfolding flatten connection_flush_out_buffer protocol_queue_message
seven_bytes = refl

feed-queue_all_example : feed ((3 ∷ 0 ∷ []) ∷ (0 ∷ 0 ∷ 2 ∷ codes "hi") ∷ []) al ≡ (hi ∷ [], al)
feed-queue_all_example =
    feed-queue_all net net_laws 1 (hi ∷ []) al al wide
      ((3 ∷ 0 ∷ []) ∷ (0 ∷ 0 ∷ 2 ∷ codes "hi") ∷ []) (hi-IsLegal, tt) refl refl refl refl (λ e. cc)
      all_flushed seven_bytes
