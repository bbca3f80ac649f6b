-- ===== src/Protocol/Inverse.antt =====
-- `protocol_parse_message` of src/network/protocol.cpp, from the message that it returns back to
-- the buffer.
use event_driven_tcp_chatroo.Base.{
  ℕ, suc, ◌+◌, ◌%◌, ◌^◌, ◌≤◌, ◌<◌, ◌≡◌, sym, ap, ap₂, subst, Option, ◌∙◌, some, [], ◌∷◌, ◌++◌,
  Bytes, All, length, take, drop, take-append-drop, length-take_le, arith,
}
use event_driven_tcp_chatroo.Connection.{Connection}
use event_driven_tcp_chatroo.Protocol.{
  Message, max_payload_size, frame_header_size, memory_bytes, htonl, header_length,
  protocol_parse_message,
}
use event_driven_tcp_chatroo.Protocol.Frame.{frame, IsLegal}
use event_driven_tcp_chatroo.Protocol.Outcome.{head_message, parse_whole}

abbrev pub IsByte : ℕ → Type 0
IsByte b = b < 256

module _ (b0 b1 b2 b3 b4 : ℕ) (b : Bytes) where
  abbrev buffer : Bytes
  buffer = b0 ∷ b1 ∷ b2 ∷ b3 ∷ b4 ∷ b

  -- Four bytes are what `htonl` makes of the number that `ntohl` reads in them.
  memory_bytes-header :
      All IsByte buffer
      → memory_bytes (htonl (header_length buffer % 2 ^ 32)) ≡ b1 ∷ b2 ∷ b3 ∷ b4 ∷ []
  unfolding header_length
  memory_bytes-header h = ground arith

  abbrev size : ℕ
  size = header_length buffer

  abbrev five : ℕ
  five = suc (suc (suc (suc (suc size))))

  frame-head :
      All IsByte buffer
      → size ≤ length b
      → frame b0 (drop 5 (take five buffer)) ++ drop five buffer ≡ buffer
  frame-head h fits =
      ap₂ (λ (x : ℕ) (xs : Bytes). x ∷ (xs ++ take size b ++ drop size b)) (omega arith) field
      ∙ ap (λ (t : Bytes). b0 ∷ b1 ∷ b2 ∷ b3 ∷ b4 ∷ t) (take-append-drop size b)
    where
      field : memory_bytes (htonl (length (take size b) % 2 ^ 32)) ≡ b1 ∷ b2 ∷ b3 ∷ b4 ∷ []
      field =
          ap (λ (n : ℕ). memory_bytes (htonl (n % 2 ^ 32))) (length-take_le size b fits)
          ∙ memory_bytes-header h

  frame-head_message :
      All IsByte buffer
      → frame_header_size + size ≤ length buffer
      → size ≤ max_payload_size
      → let m = head_message buffer in
        (buffer ≡ frame m.type m.payload ++ drop (frame_header_size + size) buffer) × IsLegal m
  frame-head_message h whole l =
      let at_five : frame_header_size + size ≡ five = omega arith in
      let same = length-take_le size b (omega arith) in
      rw at_five (
        sym (frame-head h (omega arith)),
        record { is_byte = h.0; fits = omega (arith, same); exact = sym same },
      )

-- A message is returned only where a whole frame with a legal length stands in the buffer.
parsed-whole :
    (c c' : Connection) (m : Message)
    → protocol_parse_message c ≡ (some m, c')
    → (frame_header_size + header_length c.in_buffer ≤ length c.in_buffer)
      × (header_length c.in_buffer ≤ max_payload_size)
unfolding protocol_parse_message
parsed-whole c c' m e = ground arith

head_of :
    (b : Bytes)
    → All IsByte b
    → frame_header_size + header_length b ≤ length b
    → header_length b ≤ max_payload_size
    → let m = head_message b in
      (b ≡ frame m.type m.payload ++ drop (frame_header_size + header_length b) b) × IsLegal m
head_of [] h whole l = absurd (omega arith)
head_of (b0 ∷ []) h whole l = absurd (omega arith)
head_of (b0 ∷ b1 ∷ []) h whole l = absurd (omega arith)
head_of (b0 ∷ b1 ∷ b2 ∷ []) h whole l = absurd (omega arith)
head_of (b0 ∷ b1 ∷ b2 ∷ b3 ∷ []) h whole l = absurd (omega arith)
head_of (b0 ∷ b1 ∷ b2 ∷ b3 ∷ b4 ∷ b) h whole l = frame-head_message b0 b1 b2 b3 b4 b h whole l

-- If all numbers in the buffer are bytes and the parser returns a message, then the buffer before
-- is the frame of this message followed by the buffer after, and the message is legal: its type is
-- a byte, its payload is at most 64 KiB long, and its length field is the length of its payload.
pub parse_takes_frame :
    (c c' : Connection) (m : Message)
    → All IsByte c.in_buffer
    → protocol_parse_message c ≡ (some m, c')
    → (c.in_buffer ≡ frame m.type m.payload ++ c'.in_buffer) × IsLegal m
parse_takes_frame c c' m h e =
    subst
      (λ (r : Option Message × Connection).
        (c.in_buffer ≡ frame m.type m.payload ++ r.1.in_buffer) × IsLegal m)
      (sym known ∙ e) (rw same (head_of c.in_buffer h whole.0 whole.1))
  where
    whole :
        (frame_header_size + header_length c.in_buffer ≤ length c.in_buffer)
        × (header_length c.in_buffer ≤ max_payload_size)
    whole = parsed-whole c c' m e

    known : protocol_parse_message c ≡ (
      some (head_message c.in_buffer),
      record c { in_buffer = drop (frame_header_size + header_length c.in_buffer) c.in_buffer },
    )
    known = parse_whole c whole.1 whole.0

    same : m ≡ head_message c.in_buffer
    same = cc (e, known)
