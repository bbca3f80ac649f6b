-- ===== src/Protocol/Chunks.antt =====
-- A peer's messages against the pieces in which `recv` delivers them.
use event_driven_tcp_chatroo.Base.{
  ℕ, ◌≤◌, ◌<◌, ◌≡◌, ◌≢◌, refl, sym, ap, ◌∙◌, none, some, List, [], ◌∷◌, ◌++◌, append_assoc,
  append-nil, flatten, Bytes, length, length-append, arith, All,
}
use event_driven_tcp_chatroo.Connection.{Connection, connection_error}
use event_driven_tcp_chatroo.Protocol.{Message, max_payload_size, protocol_parse_message}
use event_driven_tcp_chatroo.Protocol.Frame.{frame, IsLegal}
use event_driven_tcp_chatroo.Protocol.Parse.{parse-frame, parse_incomplete}
use event_driven_tcp_chatroo.Protocol.Outcome.{extend, parse_waits_header}
use event_driven_tcp_chatroo.Protocol.Stream.{
  Drained, drain, drain-waits, drain-parsed, drain-extend, drain-error, drain_idle,
}

-- Each piece is appended and drained before the next one comes.
unfoldable pub feed : List Bytes → Connection → Drained
feed [] c = ([], c)
feed (x ∷ xs) c = let (ms, c1) = drain (extend c x) in let (ns, c2) = feed xs c1 in (ms ++ ns, c2)

-- For a connection that is not in the error state and on whose buffer the parser waits, parsing
-- after each piece that arrives gives the same messages and the same connection as parsing once,
-- after all pieces have arrived, provided that the latter does not end in the error state.
pub feed-eq-drain :
    (xs : List Bytes) (c : Connection)
    → c.state ≢ connection_error
    → protocol_parse_message c ≡ (none, c)
    → (drain (extend c (flatten xs))).1.state ≢ connection_error
    → feed xs c ≡ drain (extend c (flatten xs))
unfolding feed flatten
feed-eq-drain [] c ok idle fine = rw append-nil (sym (drain-waits c idle))
feed-eq-drain (x ∷ xs) c ok idle fine =
    rw (← append_assoc c.in_buffer x (flatten xs), split)
      (rw (feed-eq-drain xs (drain (extend c x)).1 first (drain_idle (extend c x) first) later))
  where
    whole : (drain (extend (extend c x) (flatten xs))).1.state ≢ connection_error
    whole = rw (append_assoc c.in_buffer x (flatten xs)) fine

    first : (drain (extend c x)).1.state ≢ connection_error
    first = drain-error (extend c x) (flatten xs) ok whole

    split : drain (extend (extend c x) (flatten xs)) ≡ (
      (drain (extend c x)).0 ++ (drain (extend (drain (extend c x)).1 (flatten xs))).0,
      (drain (extend (drain (extend c x)).1 (flatten xs))).1,
    )
    split = drain-extend (extend c x) (flatten xs) first

    later : (drain (extend (drain (extend c x)).1 (flatten xs))).1.state ≢ connection_error
    later bad = whole (ap (λ (d : Drained). d.1.state) split ∙ bad)

abbrev pub stream : List Message → Bytes
stream [] = []
stream (m ∷ ms) = frame m.type m.payload ++ stream ms

-- A last frame of which some byte, or all, is missing.
abbrev pub IsPartial : Bytes → Type 0
IsPartial part =
    (type : ℕ) × (payload : Bytes) × (missing : Bytes) × (length payload ≤ max_payload_size)
    × (missing ≢ [])
    × (part ++ missing ≡ frame type payload)

-- A legal message at the head of the buffer is what the parser returns.
pub parse-legal :
    (c : Connection) (m : Message) (rest : Bytes)
    → IsLegal m
    → c.in_buffer ≡ frame m.type m.payload ++ rest
    → protocol_parse_message c ≡ (some m, record c { in_buffer = rest })
parse-legal c m rest legal e =
    parse-frame c m.type m.payload rest legal.is_byte legal.fits e
    ∙ ap (λ n. (some (record m { payload_length = n }), record c { in_buffer = rest }))
        (sym legal.exact)

drain-stream :
    (ms : List Message) (part : Bytes) (c : Connection)
    → All IsLegal ms
    → IsPartial part
    → c.in_buffer ≡ stream ms ++ part
    → drain c ≡ (ms, record c { in_buffer = part })
drain-stream [] part c legal (type, payload, missing, h, some_missing, whole) e =
    drain-waits c (parse_incomplete c type payload missing h some_missing (rw e whole))
    ∙ ap (λ b. ([], record c { in_buffer = b })) e
drain-stream (m ∷ ms) part c legal p e =
    drain-parsed c m (stream ms ++ part) shorter (parse-legal c m (stream ms ++ part) legal.0 split)
    ∙ ap (λ (d : Drained). (m ∷ d.0, d.1))
        (drain-stream ms part (record c { in_buffer = stream ms ++ part }) legal.1 p refl)
  where
    split : c.in_buffer ≡ frame m.type m.payload ++ (stream ms ++ part)
    split = e ∙ append_assoc (frame m.type m.payload) (stream ms) part

    shorter : length (stream ms ++ part) < length c.in_buffer
    shorter = omega (arith, ap length split, length-append m.payload (stream ms ++ part))

-- However the stream of a list of legal messages, with a possibly empty proper beginning of one
-- more legal frame behind it, is cut into the pieces that arrive, a connection whose buffer is
-- empty and which is not in the error state yields exactly these messages, in order; the beginning
-- of the next frame stays in the buffer and nothing else of the connection changes. A piece is
-- appended to the buffer and parsed from until the parser returns no message.
pub feed-stream :
    (xs : List Bytes) (ms : List Message) (part : Bytes) (c : Connection)
    → All IsLegal ms
    → IsPartial part
    → flatten xs ≡ stream ms ++ part
    → c.in_buffer ≡ []
    → c.state ≢ connection_error
    → feed xs c ≡ (ms, record c { in_buffer = part })
feed-stream xs ms part c legal p e empty ok = feed-eq-drain xs c ok (idle c empty) fine ∙ at_once
  where
    at_once : drain (extend c (flatten xs)) ≡ (ms, record c { in_buffer = part })
    at_once = drain-stream ms part (extend c (flatten xs)) legal p (rw empty e)

    fine : (drain (extend c (flatten xs))).1.state ≢ connection_error
    fine bad = ok (sym (ap (λ (d : Drained). d.1.state) at_once) ∙ bad)

    idle : (c : Connection) → c.in_buffer ≡ [] → protocol_parse_message c ≡ (none, c)
    idle c empty = parse_waits_header c (rw empty (omega arith))
