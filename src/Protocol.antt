-- ===== src/Protocol.antt =====
-- src/network/protocol.hpp and protocol.cpp: frames of one type byte, four length bytes in network
-- order and the payload, put into `out_buffer` and taken out of `in_buffer`.
pub mod Frame
pub mod Parse
pub mod Inverse
pub mod Outcome
pub mod Stream
pub mod Chunks
pub mod Transfer
pub mod Split
use event_driven_tcp_chatroo.Base.{
  ℕ, ◌+◌, ◌*◌, ◌/◌, ◌%◌, ◌^◌, Bool, true, false, Option, none, some, List, [], ◌∷◌, ◌++◌, Bytes,
  length, take, drop, get_or, ltb, leb, if◌then◌else◌,
}
use event_driven_tcp_chatroo.Connection.{Connection, connection_error}

-- An `enum` over `uint8_t`: a message may hold any byte, since the parser casts it unchecked.
abbrev pub MessageType : Type 0
MessageType = ℕ

abbrev pub client_hello : MessageType
client_hello = 1

abbrev pub server_hello : MessageType
server_hello = 2

abbrev pub chat : MessageType
chat = 3

abbrev pub broadcast : MessageType
broadcast = 4

abbrev pub error_message : MessageType
error_message = 5

abbrev pub close_con : MessageType
close_con = 6

pub record Message : Type 0 where
  pub type : MessageType
  pub payload_length : ℕ
  pub payload : Bytes

-- A message with `payload_length` set by `static_cast<uint32_t>(payload.size())`.
abbrev pub message : MessageType → Bytes → Message
message type payload = record {
  type = type;
  payload_length = length payload % 2 ^ 32;
  payload = payload;
}

abbrev pub max_payload_size : ℕ
max_payload_size = 64 * 1024

abbrev pub frame_header_size : ℕ
frame_header_size = 5

abbrev pub protocol_payload_length_is_legal : ℕ → Bool
protocol_payload_length_is_legal n = leb n max_payload_size

-- The bytes of a `uint32_t` in the memory of a little-endian machine, and the way back.
abbrev pub memory_bytes : ℕ → Bytes
memory_bytes n = n % 256 ∷ n / 256 % 256 ∷ n / 65536 % 256 ∷ n / 16777216 % 256 ∷ []

abbrev pub from_memory : Bytes → ℕ
from_memory bs =
    get_or bs 0 0 + get_or bs 1 0 * 256 + get_or bs 2 0 * 65536 + get_or bs 3 0 * 16777216

-- `htonl` and `ntohl` there: the four bytes swapped round.
abbrev pub htonl : ℕ → ℕ
htonl n = n % 256 * 16777216 + n / 256 % 256 * 65536 + n / 65536 % 256 * 256 + n / 16777216 % 256

abbrev pub ntohl : ℕ → ℕ
ntohl n = htonl n

-- What is appended for a message: the type, the length, the payload.
abbrev pub serialized : Message → Bytes
serialized m = m.type % 256 ∷ memory_bytes (htonl (length m.payload % 2 ^ 32)) ++ m.payload

-- `false` and the error state if the payload is too long, else the frame goes to the buffer.
unfoldable pub protocol_queue_message : Connection → Message → Bool × Connection
protocol_queue_message c m =
    if protocol_payload_length_is_legal (length m.payload)
    then (true, record c { out_buffer = c.out_buffer ++ serialized m })
    else (false, record c { state = connection_error })

-- The length field of a header.
unfoldable pub header_length : Bytes → ℕ
header_length buffer = ntohl (from_memory (take 4 (drop 1 buffer)))

unfoldable pub protocol_parse_message : Connection → Option Message × Connection
unfolding header_length
protocol_parse_message c =
    if ltb (length c.in_buffer) frame_header_size
    then (none, c)
    else if protocol_payload_length_is_legal payload_length
    then whole_header
    else (none, record c { state = connection_error })
  where
    payload_length : ℕ
    payload_length = header_length c.in_buffer

    frame_size : ℕ
    frame_size = frame_header_size + payload_length

    parsed : Message
    parsed = record {
      type = get_or c.in_buffer 0 0;
      payload_length = payload_length;
      payload = drop frame_header_size (take frame_size c.in_buffer);
    }

    whole_header : Option Message × Connection
    whole_header =
        if ltb (length c.in_buffer) frame_size
        then (none, c)
        else (some parsed, record c { in_buffer = drop frame_size c.in_buffer })
