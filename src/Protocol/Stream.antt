-- ===== src/Protocol/Stream.antt =====
-- The receiving side as a whole: the loop over `protocol_parse_message`
-- (src/network/protocol.cpp) on a byte stream.
use event_driven_tcp_chatroo.Base.{
  ℕ, zero, suc, ◌<◌, ◌≡◌, ◌≢◌, sym, ap, subst, ◌∙◌, Option, none, some, List, [], ◌∷◌, ◌++◌, Bytes,
  length, length-append, arith,
}
use event_driven_tcp_chatroo.Connection.{Connection, connection_error}
use event_driven_tcp_chatroo.Protocol.{Message, protocol_parse_message}
use event_driven_tcp_chatroo.Protocol.Outcome.{waits, rejects, parses, outcome, extend}

-- The messages that repeated parsing takes out of the buffer, and the connection after it.
abbrev pub Drained : Type 0
Drained = List Message × Connection

abbrev after_parse : (Connection → Drained) → Option Message × Connection → Drained
after_parse go_on (none, c) = ([], c)
after_parse go_on (some m, c) = let (ms, c1) = go_on c in (m ∷ ms, c1)

unfoldable pub drain_on : ℕ → Connection → Drained
drain_on zero c = ([], c)
drain_on (suc fuel) c = after_parse (drain_on fuel) (protocol_parse_message c)

-- Every frame takes a byte, so this is enough fuel.
unfoldable pub drain : Connection → Drained
unfolding drain_on
drain c = drain_on (suc (length c.in_buffer)) c

-- More fuel than bytes changes nothing.
drain_on-enough :
    (f g : ℕ) (c : Connection)
    → length c.in_buffer < f
    → length c.in_buffer < g
    → drain_on f c ≡ drain_on g c
unfolding drain_on
drain_on-enough zero g c hf hg = absurd (omega arith)
drain_on-enough (suc f) zero c hf hg = absurd (omega arith)
drain_on-enough (suc f) (suc g) c hf hg = elim (outcome c) [
  | waits e ↦ rw (drain_on, e)
  | rejects e _ ↦ rw (drain_on, e)
  | parses m rest short e _ ↦
      rw (drain_on, e)
        (rw (drain_on-enough f g (record c { in_buffer = rest }) (omega arith) (omega arith)))
]

pub drain-parsed :
    (c : Connection) (m : Message) (rest : Bytes)
    → length rest < length c.in_buffer
    → protocol_parse_message c ≡ (some m, record c { in_buffer = rest })
    → let (ms, c1) = drain (record c { in_buffer = rest }) in drain c ≡ (m ∷ ms, c1)
unfolding drain
drain-parsed c m rest short e =
    rw (drain_on, e)
      (rw (
        drain_on-enough (length c.in_buffer) (suc (length rest)) (record c { in_buffer = rest })
          short (omega arith)))

pub drain-waits : (c : Connection) → protocol_parse_message c ≡ (none, c) → drain c ≡ ([], c)
unfolding drain
drain-waits c e = rw (drain_on, e)

pub drain-rejected :
    (c : Connection)
    → protocol_parse_message c ≡ (none, record c { state = connection_error })
    → drain c ≡ ([], record c { state = connection_error })
unfolding drain
drain-rejected c e = rw (drain_on, e)

-- Bytes that come later do not disturb what came out before.
drain-extend_below :
    (n : ℕ) (c : Connection) (more : Bytes)
    → length c.in_buffer < n
    → (drain c).1.state ≢ connection_error
    → let (ms, c1) = drain c in
      let (ns, c2) = drain (extend c1 more) in drain (extend c more) ≡ (ms ++ ns, c2)
drain-extend_below zero c more h ok = absurd (omega arith)
drain-extend_below (suc n) c more h ok = elim (outcome c) [
  | waits e ↦ rw (drain-waits c e)
  | rejects e _ ↦ absurd (ok (ap (λ (d : Drained). d.1.state) (drain-rejected c e)))
  | parses m rest short e grown ↦
      let c' = record c { in_buffer = rest } in
      let first = drain-parsed c m rest short e in
      let later =
        drain-parsed (extend c more) m (rest ++ more) (longer rest more short) (grown more) in
      rw (first, later)
        (rw (
          drain-extend_below n c' more (omega arith)
            (λ bad. ok (ap (λ (d : Drained). d.1.state) first ∙ bad))))
]
  where
    longer :
        (rest more : Bytes)
        → length rest < length c.in_buffer
        → length (rest ++ more) < length (c.in_buffer ++ more)
    longer rest more h = omega (arith, length-append rest more, length-append c.in_buffer more)

pub drain-extend :
    (c : Connection) (more : Bytes)
    → (drain c).1.state ≢ connection_error
    → let (ms, c1) = drain c in
      let (ns, c2) = drain (extend c1 more) in drain (extend c more) ≡ (ms ++ ns, c2)
drain-extend c more = drain-extend_below (suc (length c.in_buffer)) c more (omega arith)

-- A bad length field found early is found with any bytes behind it.
drain-error_below :
    (n : ℕ) (c : Connection) (more : Bytes)
    → length c.in_buffer < n
    → c.state ≢ connection_error
    → (drain c).1.state ≡ connection_error
    → (drain (extend c more)).1.state ≡ connection_error
drain-error_below zero c more h ok bad = absurd (omega arith)
drain-error_below (suc n) c more h ok bad = elim (outcome c) [
  | waits e ↦ absurd (ok (ap (λ (d : Drained). d.1.state) (sym (drain-waits c e)) ∙ bad))
  | rejects e grown ↦ ap (λ (d : Drained). d.1.state) (drain-rejected (extend c more) (grown more))
  | parses m rest short e grown ↦
      let c' = record c { in_buffer = rest } in
      let first = drain-parsed c m rest short e in
      let later = drain-parsed (extend c more) m (rest ++ more) (longer rest short) (grown more) in
      ap (λ (d : Drained). d.1.state) later
      ∙ drain-error_below n c' more (omega arith) ok
          (sym (ap (λ (d : Drained). d.1.state) first) ∙ bad)
]
  where
    longer :
        (rest : Bytes)
        → length rest < length c.in_buffer
        → length (rest ++ more) < length (c.in_buffer ++ more)
    longer rest h = omega (arith, length-append rest more, length-append c.in_buffer more)

pub drain-error :
    (c : Connection) (more : Bytes)
    → c.state ≢ connection_error
    → (drain (extend c more)).1.state ≢ connection_error
    → (drain c).1.state ≢ connection_error
drain-error c more ok fine bad =
    fine (drain-error_below (suc (length c.in_buffer)) c more (omega arith) ok bad)

-- What is left after draining holds no whole frame.
drain-idle_below :
    (n : ℕ) (c : Connection)
    → length c.in_buffer < n
    → (drain c).1.state ≢ connection_error
    → protocol_parse_message (drain c).1 ≡ (none, (drain c).1)
drain-idle_below zero c h ok = absurd (omega arith)
drain-idle_below (suc n) c h ok = elim (outcome c) [
  | waits e ↦
      subst (λ (d : Drained). protocol_parse_message d.1 ≡ (none, d.1)) (sym (drain-waits c e)) e
  | rejects e _ ↦ absurd (ok (ap (λ (d : Drained). d.1.state) (drain-rejected c e)))
  | parses m rest short e _ ↦
      let c' = record c { in_buffer = rest } in
      let first = drain-parsed c m rest short e in
      rw first (
        drain-idle_below n c' (omega arith)
          (λ bad. ok (ap (λ (d : Drained). d.1.state) first ∙ bad)))
]

pub drain_idle :
    (c : Connection)
    → (drain c).1.state ≢ connection_error
    → protocol_parse_message (drain c).1 ≡ (none, (drain c).1)
drain_idle c = drain-idle_below (suc (length c.in_buffer)) c (omega arith)
