-- ===== src/Client/Termination.antt =====
-- The loop over the server's messages in src/client/client.cpp, and its number of rounds.
use event_driven_tcp_chatroo.Base.{
  ℕ, zero, suc, ◌<◌, ◌≡◌, refl, ap, ◌∙◌, Bool, Option, none, some, length, arith,
}
use event_driven_tcp_chatroo.Connection.{Connection}
use event_driven_tcp_chatroo.Protocol.{Message, protocol_parse_message}
use event_driven_tcp_chatroo.Protocol.Outcome.{outcome, waits, rejects, parses}
use event_driven_tcp_chatroo.Client.{
  Client, Action, go_on, message_parsed, handle_network_message, read_messages,
}

-- A round that returns.
abbrev IsReturn : Option Bool → Type 0
IsReturn (some ok) = Unit {0}
IsReturn none = ⊥

module _ {K : Type 0} where
  -- Handling a message leaves the buffer alone.
  handle-in_buffer :
      (m : Message) (s : Client K)
      → (handle_network_message m s).1.conn.in_buffer ≡ s.conn.in_buffer
  unfolding handle_network_message
  handle-in_buffer m s = ground arith

  pub some-in_buffer :
      (m : Message) (c : Connection) (s : Client K)
      → (message_parsed (some m, c) s).1.conn.in_buffer ≡ c.in_buffer
  unfolding message_parsed
  some-in_buffer m c s = ground (arith, handle-in_buffer m (record s { conn = c }))

  -- The loop of the source, without a number of rounds: it ends with a result if a round returns,
  -- or if a round goes on and the loop ends with that result from there.
  pub data Finishes : Client K → Bool × Client K → Type 0 where
    returns :
        (s : Client K) (ok : Bool) (s1 : Client K)
        → message_parsed (protocol_parse_message s.conn) s ≡ (some ok, s1)
        → Finishes s (ok, s1)
    goes_on :
        (s s1 : Client K) (r : Bool × Client K)
        → message_parsed (protocol_parse_message s.conn) s ≡ (none, s1)
        → Finishes s1 r
        → Finishes s r

  round-Finishes :
      (next : Action K Bool) (s : Client K) (r : Option Bool × Client K)
      → message_parsed (protocol_parse_message s.conn) s ≡ r
      → Finishes r.1 (next r.1)
      → Finishes s (go_on next r.0 r.1)
  round-Finishes next s (some ok, s1) e later = returns s ok s1 e
  round-Finishes next s (none, s1) e later = goes_on s s1 (next s1) e later

  ended :
      (next : Action K Bool) (s : Client K) (r : Option Bool × Client K)
      → message_parsed (protocol_parse_message s.conn) s ≡ r
      → IsReturn r.0
      → Finishes s (go_on next r.0 r.1)
  ended next s (some b, s1) e h = returns s b s1 e
  ended next s (none, s1) e h = absurd h

  -- The loop of the client over the messages in its buffer ends. The loop without a number of
  -- rounds is the relation that holds of a start and a result if a round returns that result, or if
  -- a round goes on and the relation holds from there; for any number of rounds above the number of
  -- bytes in the buffer, and so for that of the handler, the result of the model is in this
  -- relation with its start. A loop that goes on for ever has no result in it.
  pub client_read_messages-Finishes :
      (fuel : ℕ) (s : Client K) → length s.conn.in_buffer < fuel → Finishes s (read_messages fuel s)
  unfolding read_messages message_parsed
  client_read_messages-Finishes zero s h = absurd (omega arith)
  client_read_messages-Finishes (suc fuel) s h =
      let next = read_messages fuel in
      let r = message_parsed (protocol_parse_message s.conn) s in
      elim (outcome s.conn) [
        | waits e ↦ ended next s r refl (rw e tt)
        | rejects e _ ↦ ended next s r refl (rw e tt)
        | parses m rest short e _ ↦
            let size =
              ap (λ p. length (message_parsed p s).1.conn.in_buffer) e
              ∙ ap length (some-in_buffer m (record s.conn { in_buffer = rest }) s) in
            round-Finishes next s r refl
              (client_read_messages-Finishes fuel r.1 (omega (arith, size)))
      ]
