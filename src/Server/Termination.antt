-- ===== src/Server/Termination.antt =====
-- The loop over a client's messages in src/server/server.cpp, and its number of rounds.
use event_driven_tcp_chatroo.Base.{
  ℕ, zero, suc, ◌<◌, ◌≡◌, refl, sym, subst, Bool, Option, none, some, length, arith,
}
use event_driven_tcp_chatroo.Os.{Os}
use event_driven_tcp_chatroo.Connection.{Connection, connection_error}
use event_driven_tcp_chatroo.Protocol.{Message, protocol_parse_message}
use event_driven_tcp_chatroo.Protocol.Outcome.{outcome, waits, rejects, parses}
use event_driven_tcp_chatroo.Server.{Server, Action}
use event_driven_tcp_chatroo.Server.Receive.{
  Round, stop, again, go_on, pass_on, take_message, message_parsed, read_messages,
}

abbrev IsStop : Round → Type 0
IsStop (stop ok) = Unit {0}
IsStop (again c) = ⊥

-- A round stops, or goes on with the very connection that it was given.
abbrev GoesOnWith : Connection → Round → Type 0
GoesOnWith c (stop ok) = Unit {0}
GoesOnWith c (again d) = d ≡ c

module _ {K : Type 0} (os : Os K) where
  none_stops : (c : Connection) (s : Server K) → IsStop (message_parsed os (none, c) s).0
  unfolding message_parsed
  none_stops c s = ground arith

  error_stops :
      (m : Option Message) (c : Connection) (s : Server K)
      → IsStop (message_parsed os (m, record c { state = connection_error }) s).0
  unfolding message_parsed
  error_stops m c s = tt

  some_goes_on :
      (m : Message) (c : Connection) (s : Server K)
      → GoesOnWith c (message_parsed os (some m, c) s).0
  unfolding message_parsed take_message pass_on
  some_goes_on m c s = ground arith

  -- The loop of the source, without a number of rounds: it ends with a result if a round returns,
  -- or if a round goes on and the loop ends with that result from there.
  pub data Finishes : Connection → Server K → Bool × Server K → Type 0 where
    returns :
        (c : Connection) (s : Server K) (ok : Bool) (s1 : Server K)
        → message_parsed os (protocol_parse_message c) s ≡ (stop ok, s1)
        → Finishes c s (ok, s1)
    goes_on :
        (c : Connection) (s : Server K) (c1 : Connection) (s1 : Server K) (r : Bool × Server K)
        → message_parsed os (protocol_parse_message c) s ≡ (again c1, s1)
        → Finishes c1 s1 r
        → Finishes c s r

  stopped :
      (next : Connection → Action K Bool) (c : Connection) (s : Server K) (r : Round × Server K)
      → message_parsed os (protocol_parse_message c) s ≡ r
      → IsStop r.0
      → Finishes c s (go_on next r.0 r.1)
  stopped next c s (stop ok, s1) e h = returns c s ok s1 e
  stopped next c s (again c1, s1) e h = absurd h

  went_on :
      (next : Connection → Action K Bool) (c c1 : Connection) (s : Server K) (r : Round × Server K)
      → message_parsed os (protocol_parse_message c) s ≡ r
      → GoesOnWith c1 r.0
      → Finishes c1 r.1 (next c1 r.1)
      → Finishes c s (go_on next r.0 r.1)
  went_on next c c1 s (stop ok, s1) e h later = returns c s ok s1 e
  went_on next c c1 s (again d, s1) e h later =
      goes_on c s d s1 (next d s1) e (subst (λ x. Finishes x s1 (next x s1)) (sym h) later)

  -- The loop of the server over the messages in a buffer ends. The loop without a number of rounds
  -- is the relation that holds of a start and a result if a round returns that result, or if a
  -- round goes on and the relation holds from there; for any number of rounds above the number of
  -- bytes in the buffer, and so for that of the handler, the result of the model is in this
  -- relation with its start. A loop that goes on for ever has no result in it.
  pub read_messages-Finishes :
      (fuel : ℕ) (c : Connection) (s : Server K)
      → length c.in_buffer < fuel
      → Finishes c s (read_messages os fuel c s)
  unfolding read_messages
  read_messages-Finishes zero c s h = absurd (omega arith)
  read_messages-Finishes (suc fuel) c s h =
      let next = read_messages os fuel in
      elim (outcome c) [
        | waits e ↦
            stopped next c s (message_parsed os (protocol_parse_message c) s) refl
              (rw e (none_stops c s))
        | rejects e _ ↦
            stopped next c s (message_parsed os (protocol_parse_message c) s) refl
              (rw e (error_stops none c s))
        | parses m rest short e _ ↦
            let c1 = record c { in_buffer = rest } in
            let s1 = (message_parsed os (protocol_parse_message c) s).1 in
            went_on next c c1 s (message_parsed os (protocol_parse_message c) s) refl
              (rw e (some_goes_on m c1 s)) (read_messages-Finishes fuel c1 s1 (omega arith))
      ]
