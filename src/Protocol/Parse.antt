-- ===== src/Protocol/Parse.antt =====
-- What `protocol_parse_message` of src/network/protocol.cpp makes of a buffer.
use event_driven_tcp_chatroo.Base.{
  ℕ, suc, ◌+◌, ◌≤◌, ◌<◌, ◌≡◌, ◌≢◌, sym, ap, subst, ◌∙◌, none, some, [], ◌++◌, Bytes, length, take,
  drop, get_or, length-append, take-append_length, drop-append_length, arith, ltb, ltb→lt,
  Bool-cases, inl, inr, append-nil, length-pos,
}
use event_driven_tcp_chatroo.Connection.{Connection}
use event_driven_tcp_chatroo.Protocol.{
  max_payload_size, frame_header_size, header_length, protocol_parse_message,
}
use event_driven_tcp_chatroo.Protocol.Outcome.{
  header_length-append, parse_waits_header, parse_waits_payload,
}
use event_driven_tcp_chatroo.Protocol.Frame.{frame, header_length-frame}

-- What the parser reads of a buffer that begins with a frame.
record Reads (buffer : Bytes) (type : ℕ) (payload rest : Bytes) : Type 0 where
  head : get_or buffer 0 0 ≡ type
  long : header_length buffer ≡ length payload
  size : length buffer ≡ frame_header_size + length payload + length rest
  body : drop frame_header_size (take (frame_header_size + length payload) buffer) ≡ payload
  tail : drop (frame_header_size + length payload) buffer ≡ rest

Reads-frame :
    (type : ℕ) (payload rest : Bytes)
    → type < 256
    → length payload ≤ max_payload_size
    → Reads (frame type payload ++ rest) type payload rest
Reads-frame type payload rest t h = record {
  head = omega arith;
  long = header_length-frame type payload rest h;
  size = omega (arith, length-append payload rest);
  body = rw five (take-append_length payload rest);
  tail = rw five (drop-append_length payload rest);
}
  where
    five : frame_header_size + length payload ≡ suc (suc (suc (suc (suc (length payload)))))
    five = omega arith

-- If the buffer begins with the frame of a type that is a byte and of a payload of at most 64 KiB,
-- then the parser returns the message with this type, this payload and its length, and leaves in
-- the buffer what follows the frame.
pub parse-frame :
    (c : Connection) (type : ℕ) (payload rest : Bytes)
    → type < 256
    → length payload ≤ max_payload_size
    → c.in_buffer ≡ frame type payload ++ rest
    → protocol_parse_message c ≡ (
      some (record { type = type; payload_length = length payload; payload = payload }),
      record c { in_buffer = rest },
    )
unfolding protocol_parse_message
parse-frame c type payload rest t h e =
    let r = subst (λ b. Reads b type payload rest) (sym e) (Reads-frame type payload rest t h) in
    ground (arith, r.head, r.long, r.size, r.body, r.tail)

-- If the buffer holds a proper beginning of the frame of a payload of at most 64 KiB, then the
-- parser returns no message and leaves the connection as it was.
pub parse_incomplete :
    (c : Connection) (type : ℕ) (payload missing : Bytes)
    → length payload ≤ max_payload_size
    → missing ≢ []
    → c.in_buffer ++ missing ≡ frame type payload
    → protocol_parse_message c ≡ (none, c)
parse_incomplete c type payload missing h more e =
    elim (Bool-cases (ltb (length c.in_buffer) frame_header_size)) [
      | inl short ↦ parse_waits_header c (ltb→lt _ _ short)
      | inr header ↦
          let same : header_length c.in_buffer ≡ length payload =
            sym (header_length-append c.in_buffer missing (ground arith))
            ∙ ap header_length (e ∙ sym (append-nil (frame type payload)))
            ∙ header_length-frame type payload [] h in
          let size : length (c.in_buffer ++ missing) ≡ frame_header_size + length payload =
            ap length e ∙ omega arith in
          parse_waits_payload c (omega (arith, same))
            (omega (arith, same, size, length-append c.in_buffer missing, length-pos missing more))
    ]
