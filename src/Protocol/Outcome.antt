-- ===== src/Protocol/Outcome.antt =====
-- The outcomes of `protocol_parse_message` (src/network/protocol.cpp), also with more bytes behind
-- the buffer.
use event_driven_tcp_chatroo.Base.{
  ◌+◌, ◌≤◌, ◌<◌, ◌≡◌, ◌≢◌, refl, sym, ap, ◌∙◌, Option, none, some, inl, inr, [], ◌∷◌, ◌++◌, Bytes,
  length, take, drop, get_or, length-append, length-drop, take-append_le, drop-append_le, arith,
  ltb, leb, leb_gt, lt→ltb, ltb_ge, leb→le, ltb→lt, Bool-cases,
}
use event_driven_tcp_chatroo.Connection.{Connection, connection_error}
use event_driven_tcp_chatroo.Protocol.{
  Message, max_payload_size, frame_header_size, header_length, protocol_parse_message,
}

-- A connection to which more bytes have come.
abbrev pub extend : Connection → Bytes → Connection
extend c more = record c { in_buffer = c.in_buffer ++ more }

pub header_length-append :
    (b more : Bytes) → frame_header_size ≤ length b → header_length (b ++ more) ≡ header_length b
unfolding header_length
header_length-append [] more h = absurd (omega arith)
header_length-append (b0 ∷ []) more h = absurd (omega arith)
header_length-append (b0 ∷ b1 ∷ []) more h = absurd (omega arith)
header_length-append (b0 ∷ b1 ∷ b2 ∷ []) more h = absurd (omega arith)
header_length-append (b0 ∷ b1 ∷ b2 ∷ b3 ∷ []) more h = absurd (omega arith)
header_length-append (b0 ∷ b1 ∷ b2 ∷ b3 ∷ b4 ∷ b) more h = refl

get_or-append_head : (b more : Bytes) → 1 ≤ length b → get_or (b ++ more) 0 0 ≡ get_or b 0 0
get_or-append_head [] more h = absurd (omega arith)
get_or-append_head (x ∷ b) more h = refl

-- The message that stands at the head of a buffer.
abbrev pub head_message : Bytes → Message
head_message b = record {
  type = get_or b 0 0;
  payload_length = header_length b;
  payload = drop frame_header_size (take (frame_header_size + header_length b) b);
}

pub parse_waits_header :
    (c : Connection) → length c.in_buffer < frame_header_size → protocol_parse_message c ≡ (none, c)
unfolding protocol_parse_message
parse_waits_header c h = rw (lt→ltb _ _ h)

pub parse_waits_payload :
    (c : Connection)
    → header_length c.in_buffer ≤ max_payload_size
    → length c.in_buffer < frame_header_size + header_length c.in_buffer
    → protocol_parse_message c ≡ (none, c)
unfolding protocol_parse_message
parse_waits_payload c l h = ground arith

-- If the header of a frame has arrived and its length field is above 64 KiB, then the parser
-- returns no message and sets the error state, and leaves the buffer.
pub parse_oversized :
    (c : Connection)
    → frame_header_size ≤ length c.in_buffer
    → max_payload_size < header_length c.in_buffer
    → protocol_parse_message c ≡ (none, record c { state = connection_error })
unfolding protocol_parse_message
parse_oversized c h l = rw (ltb_ge _ _ h, leb_gt _ _ l)

pub parse_whole :
    (c : Connection)
    → header_length c.in_buffer ≤ max_payload_size
    → frame_header_size + header_length c.in_buffer ≤ length c.in_buffer
    → protocol_parse_message c ≡ (
      some (head_message c.in_buffer),
      record c { in_buffer = drop (frame_header_size + header_length c.in_buffer) c.in_buffer },
    )
unfolding protocol_parse_message
parse_whole c l h = ground arith

pub data Outcome (c : Connection) : Type 0 where
  -- Not a whole frame yet: nothing changes.
  waits : protocol_parse_message c ≡ (none, c) → Outcome c
  -- The length field is too large, and stays so.
  rejects :
      protocol_parse_message c ≡ (none, record c { state = connection_error })
      → ((more : Bytes)
          → protocol_parse_message (extend c more)
            ≡ (none, record c { state = connection_error; in_buffer = c.in_buffer ++ more }))
      → Outcome c
  -- A message, the same whatever follows it.
  parses :
      (m : Message) (rest : Bytes)
      → length rest < length c.in_buffer
      → protocol_parse_message c ≡ (some m, record c { in_buffer = rest })
      → ((more : Bytes)
          → protocol_parse_message (extend c more)
            ≡ (some m, record c { in_buffer = rest ++ more }))
      → Outcome c

module _ (c : Connection) (more : Bytes) where
  abbrev buffer : Bytes
  buffer = c.in_buffer

  extend_oversized :
      frame_header_size ≤ length c.in_buffer
      → max_payload_size < header_length c.in_buffer
      → protocol_parse_message (extend c more)
        ≡ (none, record c { state = connection_error; in_buffer = c.in_buffer ++ more })
  extend_oversized h l =
      parse_oversized (extend c more) (omega (arith, length-append buffer more))
        (rw (header_length-append buffer more h) l)

  extend_whole :
      header_length c.in_buffer ≤ max_payload_size
      → frame_header_size + header_length c.in_buffer ≤ length c.in_buffer
      → protocol_parse_message (extend c more) ≡ (
        some (head_message c.in_buffer),
        record c {
          in_buffer = drop (frame_header_size + header_length c.in_buffer) c.in_buffer ++ more;
        },
      )
  extend_whole l h =
      let same = header_length-append buffer more (omega arith) in
      ground (
        arith,
        same,
        parse_whole (extend c more) (omega (arith, same))
            (omega (arith, same, length-append buffer more)),
        get_or-append_head buffer more (omega arith),
        take-append_le (frame_header_size + header_length buffer) buffer more h,
        drop-append_le (frame_header_size + header_length buffer) buffer more h,
      )

pub outcome : (c : Connection) → Outcome c
outcome c = elim (Bool-cases (ltb (length c.in_buffer) frame_header_size)) [
  | inl short ↦ waits (parse_waits_header c (ltb→lt _ _ short))
  | inr header ↦ elim (Bool-cases (leb (header_length c.in_buffer) max_payload_size)) [
    | inr long ↦
        rejects (parse_oversized c (ground arith) (ground arith))
          (λ more. extend_oversized c more (ground arith) (ground arith))
    | inl legal ↦
        elim (Bool-cases
          (ltb (length c.in_buffer) (frame_header_size + header_length c.in_buffer))) [
            | inl part ↦ waits (parse_waits_payload c (leb→le _ _ legal) (ltb→lt _ _ part))
            | inr whole ↦
                parses (head_message c.in_buffer)
                  (drop (frame_header_size + header_length c.in_buffer) c.in_buffer)
                  (ground (
                    arith,
                    length-drop (frame_header_size + header_length c.in_buffer) c.in_buffer,
                  ))
                  (parse_whole c (leb→le _ _ legal) (ground arith))
                  (λ more. extend_whole c more (leb→le _ _ legal) (ground arith))
          ]
  ]
]

-- The parser waits only while the buffer is shorter than the longest frame.
pub waits_short :
    (c : Connection)
    → protocol_parse_message c ≡ (none, c)
    → c.state ≢ connection_error
    → length c.in_buffer < frame_header_size + max_payload_size
waits_short c e ok =
    elim (Bool-cases (ltb (length c.in_buffer) (frame_header_size + max_payload_size))) [
      | inl short ↦ ltb→lt _ _ short
      | inr long ↦ elim (Bool-cases (leb (header_length c.in_buffer) max_payload_size)) [
        | inl legal ↦ absurd (some_none (sym (parse_whole c (leb→le _ _ legal) (ground arith)) ∙ e))
        | inr illegal ↦ absurd (
            ok (
              ap (λ (r : Option Message × Connection). r.1.state)
                (sym e ∙ parse_oversized c (ground arith) (ground arith))))
      ]
    ]
  where
    some_none :
        {m : Message} {c1 c2 : Connection}
        → ◌≡◌ {A = Option Message × Connection} (some m, c1) (none, c2)
        → ⊥
    some_none h = cc h
