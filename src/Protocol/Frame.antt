-- ===== src/Protocol/Frame.antt =====
-- The bytes of a frame, and what `protocol_queue_message` of src/network/protocol.cpp appends.
use event_driven_tcp_chatroo.Base.{
  ℕ, ◌%◌, ◌^◌, ◌≤◌, ◌<◌, ◌≡◌, true, false, ◌∷◌, ◌++◌, Bytes, length, arith, ◌⊎◌, inl, inr, leb,
  leb→le, Bool-cases, le→leb, leb_gt,
}
use event_driven_tcp_chatroo.Connection.{Connection, connection_error}
use event_driven_tcp_chatroo.Protocol.{
  Message, max_payload_size, memory_bytes, htonl, header_length, protocol_queue_message,
}

-- The format of the protocol: the type, the length with its high byte first, the payload.
abbrev pub frame : ℕ → Bytes → Bytes
frame type payload = type % 256 ∷ memory_bytes (htonl (length payload % 2 ^ 32)) ++ payload

pub header_length-frame :
    (type : ℕ) (payload rest : Bytes)
    → length payload ≤ max_payload_size
    → header_length (frame type payload ++ rest) ≡ length payload
unfolding header_length
header_length-frame type payload rest h = omega arith

pub queue-legal :
    (c : Connection) (m : Message)
    → length m.payload ≤ max_payload_size
    → protocol_queue_message c m
      ≡ (true, record c { out_buffer = c.out_buffer ++ frame m.type m.payload })
unfolding protocol_queue_message
queue-legal c m h = rw (le→leb _ _ h)

pub queue-too_long :
    (c : Connection) (m : Message)
    → max_payload_size < length m.payload
    → protocol_queue_message c m ≡ (false, record c { state = connection_error })
unfolding protocol_queue_message
queue-too_long c m h = rw (leb_gt _ _ h)

-- A message that a peer can have put into a frame.
pub record IsLegal (m : Message) : Type 0 where
  pub is_byte : m.type < 256
  pub fits : length m.payload ≤ max_payload_size
  pub exact : m.payload_length ≡ length m.payload

-- Queueing either appends a frame or breaks the connection.
pub queue-cases :
    (c : Connection) (m : Message)
    → (protocol_queue_message c m
          ≡ (true, record c { out_buffer = c.out_buffer ++ frame m.type m.payload }))
        × (length m.payload ≤ max_payload_size)
      ⊎ (protocol_queue_message c m ≡ (false, record c { state = connection_error }))
queue-cases c m = elim (Bool-cases (leb (length m.payload) max_payload_size)) [
  | inl fits ↦ inl (queue-legal c m (leb→le _ _ fits), leb→le _ _ fits)
  | inr long ↦ inr (queue-too_long c m (ground arith))
]
