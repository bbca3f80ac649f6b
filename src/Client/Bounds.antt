-- ===== src/Client/Bounds.antt =====
-- How many bytes src/client/client.cpp keeps between two events: the rest of a read.
use event_driven_tcp_chatroo.Base.{
  ℕ, zero, suc, ◌+◌, ◌<◌, ◌≡◌, ◌≢◌, refl, Bool, true, false, not, ◌&&◌, inl, inr, Option, none,
  some, length, arith, Bool-cases,
}
use event_driven_tcp_chatroo.Os.{Os}
use event_driven_tcp_chatroo.Connection.{Connection, is_error, connection_read_into_in_buffer}
use event_driven_tcp_chatroo.Protocol.{
  Message, max_payload_size, frame_header_size, protocol_parse_message,
}
use event_driven_tcp_chatroo.Protocol.Outcome.{outcome, waits, rejects, parses, waits_short}
use event_driven_tcp_chatroo.Client.{
  Client, Action, go_on, message_parsed, read_messages, handle_read_network_message_event,
}
use event_driven_tcp_chatroo.Client.Termination.{some-in_buffer}

left : (a b : Bool) → (a && b) ≡ true → a ≡ true
left true b h = refl
left false b h = cc h

waiting_short :
    (c : Connection)
    → protocol_parse_message c ≡ (none, c)
    → not (is_error c.state) ≡ true
    → length c.in_buffer < frame_header_size + max_payload_size
waiting_short c e fine = waits_short c e (λ bad. cc (fine, bad))

module _ {K : Type 0} where
  -- A buffer that holds less than the longest frame.
  abbrev IsShort : Client K → Type 0
  IsShort s = length s.conn.in_buffer < frame_header_size + max_payload_size

  go_on-IsShort :
      (next : Action K Bool) (r : Option Bool × Client K)
      → r.0 ≢ some true
      → ((next r.1).0 ≡ true → IsShort (next r.1).1)
      → (go_on next r.0 r.1).0 ≡ true
      → IsShort (go_on next r.0 r.1).1
  go_on-IsShort next (none, s) h go ok = go ok
  go_on-IsShort next (some true, s) h go ok = absurd (h refl)
  go_on-IsShort next (some false, s) h go ok = cc ok

  message-ne-true :
      (m : Message) (c : Connection) (s : Client K) → (message_parsed (some m, c) s).0 ≢ some true
  unfolding message_parsed
  message-ne-true m c s e = ground arith

  read_messages-IsShort :
      (f : ℕ) (s : Client K)
      → length s.conn.in_buffer < f
      → (read_messages f s).0 ≡ true
      → IsShort (read_messages f s).1
  unfolding read_messages message_parsed
  read_messages-IsShort zero s h ok = absurd (omega arith)
  read_messages-IsShort (suc f) s h ok = elim (outcome s.conn) [
    | waits e ↦
        rw (read_messages, e) (waiting_short s.conn e (left _ _ (rw (read_messages, e) at ok)))
    | rejects e _ ↦ cc
    | parses m rest short e _ ↦
        let c1 = record s.conn { in_buffer = rest } in
        let r = message_parsed (some m, c1) s in
        rw (read_messages, e)
          (go_on-IsShort (read_messages f) r (message-ne-true m c1 s)
            (read_messages-IsShort f r.1 (rw (some-in_buffer m c1 s) (omega arith)))
            (rw (read_messages, e) at ok))
  ]

module _ {K : Type 0} (os : Os K) where
  -- Whatever the state of the client and whatever the server sends, after a read event that is
  -- handled with success the input buffer of the client holds fewer bytes than the longest frame,
  -- 64 KiB and five.
  pub handle_read-IsShort :
      (s : Client K)
      → (handle_read_network_message_event os s).0 ≡ true
      → length (handle_read_network_message_event os s).1.conn.in_buffer
        < frame_header_size + max_payload_size
  unfolding handle_read_network_message_event
  handle_read-IsShort s ok =
      elim (Bool-cases (connection_read_into_in_buffer os s.conn s.kernel).0) [
        | inl read ↦
            let (done, c1, k1) = connection_read_into_in_buffer os s.conn s.kernel in
            let s1 = record s { conn = c1; kernel = k1 } in
            rw read
              (read_messages-IsShort (suc (length c1.in_buffer)) s1 (omega arith) (rw read at ok))
        | inr failed ↦ cc (rw failed at ok)
      ]
