-- ===== src/Client/Reads.antt =====
-- Read events in a row, `handle_read_network_message_event` of src/client/client.cpp, against the
-- messages that their bytes are.
use event_driven_tcp_chatroo.Base.{
  ℕ, zero, suc, ◌≡◌, refl, sym, ap, subst, ◌∙◌, Bool, true, false, List, [], ◌∷◌, ◌++◌, ◌&&◌,
  flatten, append_assoc, append-nil, Bytes, length, arith, All,
}
use event_driven_tcp_chatroo.Os.{Os, RecvRun, chunk, end_of_stream, recv_error}
use event_driven_tcp_chatroo.Connection.{ConnectionState, connection_read_into_in_buffer, try_later}
use event_driven_tcp_chatroo.Connection.Read.{received, state_after, ends_well, read_loop_lem}
use event_driven_tcp_chatroo.Protocol.{Message}
use event_driven_tcp_chatroo.Protocol.Frame.{IsLegal}
use event_driven_tcp_chatroo.Protocol.Chunks.{stream, IsPartial}
use event_driven_tcp_chatroo.Protocol.Split.{CutAt, cut_stream}
use event_driven_tcp_chatroo.Client.{
  Client, Action, handle_network_message, read_messages, handle_read_network_message_event,
}
use event_driven_tcp_chatroo.Client.Session.{
  handle_all, handle_all-cons, handle_all-with_input, handle-Listening, with_input, put_input,
  Listening, after, Agrees, Agrees-after, read_stream, read_part,
}

-- A run of `recv` that brings some bytes, or none, and then reports that there are no more yet.
abbrev pub is_quiet : RecvRun → Bool
is_quiet (chunk bytes rest) = is_quiet rest
is_quiet end_of_stream = false
is_quiet (recv_error e) = try_later e

both : (a : Bool) {b : Bool} → (a && b) ≡ true → (a ≡ true) × (b ≡ true)
both true h = (refl, h)
both false h = cc h

quiet-ends_well : (run : RecvRun) → is_quiet run ≡ true → ends_well run ≡ true
quiet-ends_well (chunk bytes rest) h = quiet-ends_well rest h
quiet-ends_well end_of_stream h = refl
quiet-ends_well (recv_error e) h = h

quiet-state : (run : RecvRun) (s : ConnectionState) → is_quiet run ≡ true → state_after run s ≡ s
quiet-state (chunk bytes rest) s h = quiet-state rest s h
quiet-state end_of_stream s h = cc h
quiet-state (recv_error e) s h = rw h

module _ {K : Type 0} where
  pub handle_all-append :
      (xs ys : List Message) (s : Client K)
      → handle_all (xs ++ ys) s ≡ after (handle_all ys) (handle_all xs s)
  handle_all-append [] ys s = unfold handle_all in refl
  handle_all-append (m ∷ xs) ys s =
      handle_all-cons m (xs ++ ys) s
      ∙ split (handle_all xs) (handle_network_message m s) (handle_all-append xs ys)
      ∙ ap (after (handle_all ys)) (sym (handle_all-cons m xs s))
    where
      split :
          (first : Action K Bool) (r : Bool × Client K)
          → ((s1 : Client K) → handle_all (xs ++ ys) s1 ≡ after (handle_all ys) (first s1))
          → after (handle_all (xs ++ ys)) r ≡ after (handle_all ys) (after first r)
      split first (true, s1) h = h s1
      split first (false, s1) h = refl

  after-Listening :
      (next : Action K Bool) (r : Bool × Client K)
      → (r.0 ≡ true → Listening r.1)
      → ((s : Client K) → (next s).0 ≡ true → Listening s → Listening (next s).1)
      → (after next r).0 ≡ true
      → Listening (after next r).1
  after-Listening next (true, s) l h ok = h s ok (l refl)
  after-Listening next (false, s) l h ok = cc ok

  handle_all-Listening :
      (ms : List Message) (s : Client K)
      → (handle_all ms s).0 ≡ true
      → Listening s
      → Listening (handle_all ms s).1
  handle_all-Listening [] s ok l = unfold handle_all in l
  handle_all-Listening (m ∷ ms) s ok l = rw (handle_all-cons m ms s) (
      after-Listening (handle_all ms) (handle_network_message m s)
        (λ first. handle-Listening m s first l) (handle_all-Listening ms)
        (sym (ap (λ (r : Bool × Client K). r.0) (handle_all-cons m ms s)) ∙ ok))

module _ {K : Type 0} (os : Os K) where
  -- `n` read events, or fewer if one of them ends the session.
  unfoldable pub read_events : ℕ → Action K Bool
  read_events zero s = (true, s)
  read_events (suc n) s = after (read_events n) (handle_read_network_message_event os s)

  -- The run that the next read event gets.
  abbrev pub next_run : Client K → RecvRun
  next_run s = (os.recv s.conn.fd s.kernel).0

  abbrev delivered_after : (Client K → List Bytes) → Bool × Client K → List Bytes
  delivered_after next (true, s) = next s
  delivered_after next (false, s) = []

  -- The pieces of the server's stream that these events get.
  unfoldable pub delivered : ℕ → Client K → List Bytes
  delivered zero s = []
  delivered (suc n) s =
      received (next_run s) ∷ delivered_after (delivered n) (handle_read_network_message_event os s)

  abbrev quiet_after : (Client K → Bool) → Bool × Client K → Bool
  quiet_after next (true, s) = next s
  quiet_after next (false, s) = true

  -- None of these events finds the end of the stream or a fatal error.
  unfoldable pub all_quiet : ℕ → Client K → Bool
  all_quiet zero s = true
  all_quiet (suc n) s =
      is_quiet (next_run s) && quiet_after (all_quiet n) (handle_read_network_message_event os s)

  handle_read_lem :
      (s : Client K)
      → is_quiet (next_run s) ≡ true
      → let b = s.conn.in_buffer ++ received (next_run s) in
        handle_read_network_message_event os s
        ≡ read_messages (suc (length b)) (with_input (os.recv s.conn.fd s.kernel).1 b s)
  unfolding handle_read_network_message_event connection_read_into_in_buffer
  handle_read_lem s q = rw (
    read_loop_lem (next_run s) s.conn,
    quiet-ends_well (next_run s) q,
    quiet-state (next_run s) s.conn.state q,
  )

  -- One read event, with the bytes behind it still to come.
  read_event_first :
      (s : Client K) (ms : List Message) (part later_bytes : Bytes)
      → is_quiet (next_run s) ≡ true
      → Listening s
      → (c : CutAt (s.conn.in_buffer ++ received (next_run s)) later_bytes ms part)
      → Agrees c.begun (handle_all c.first s) (handle_read_network_message_event os s)
  read_event_first s ms part later_bytes q l c =
      let b = s.conn.in_buffer ++ received (next_run s) in
      let s1 = with_input (os.recv s.conn.fd s.kernel).1 b s in
      let a =
        read_stream c.first c.begun (suc (length b)) s1 (omega arith) c.first_legal c.partial l
          c.before in
      let same = handle_all-with_input c.first s1.kernel b s in
      record {
        left = a.left;
        system = a.system;
        result = handle_read_lem s q ∙ a.result ∙ ap (put_input a.system a.left) same;
        rest = λ ok. a.rest (ap (λ (r : Bool × Client K). r.0) same ∙ ok);
      }

  read_events-suc :
      (n : ℕ) (s : Client K)
      → read_events (suc n) s ≡ after (read_events n) (handle_read_network_message_event os s)
  unfolding read_events
  read_events-suc n s = refl

  all_quiet-suc :
      (n : ℕ) (s : Client K)
      → all_quiet (suc n) s ≡ true
      → (is_quiet (next_run s) ≡ true)
        × (quiet_after (all_quiet n) (handle_read_network_message_event os s) ≡ true)
  unfolding all_quiet
  all_quiet-suc n s q = both (is_quiet (next_run s)) q

  delivered-split :
      (n : ℕ) (s : Client K) (ms : List Message) (part : Bytes)
      → s.conn.in_buffer ++ flatten (delivered (suc n) s) ≡ stream ms ++ part
      → (s.conn.in_buffer ++ received (next_run s))
          ++ flatten (delivered_after (delivered n) (handle_read_network_message_event os s))
        ≡ stream ms ++ part
  unfolding delivered flatten
  delivered-split n s ms part e = append_assoc s.conn.in_buffer (received (next_run s)) _ ∙ e

  -- Any number of read events in a row, none of which finds the end of the stream or a fatal error,
  -- does to a client that waits for the hello or is in the chat what handling the messages one
  -- after the other does, up to the first that ends the session. The messages are any legal ones,
  -- also those that the client refuses; their frames, with a proper beginning of one more legal
  -- frame behind them, are the bytes in the buffer, which hold no whole legal frame themselves,
  -- followed by the bytes that the events bring, cut in any way. The results differ at most in the
  -- state of the system and in the bytes left in the buffer, and where the session goes on these
  -- are the beginning of the next frame.
  pub read_events-Agrees :
      (n : ℕ) (s : Client K) (ms : List Message) (part : Bytes)
      → all_quiet n s ≡ true
      → Listening s
      → IsPartial s.conn.in_buffer
      → All IsLegal ms
      → IsPartial part
      → s.conn.in_buffer ++ flatten (delivered n s) ≡ stream ms ++ part
      → Agrees part (handle_all ms s) (read_events n s)
  read_events-Agrees zero s ms part q l begun legal p e =
      unfold read_events in
      subst (Agrees part (handle_all ms s)) (read_part (length s.conn.in_buffer) s l begun) (
        read_stream ms part (suc (length s.conn.in_buffer)) s (omega arith) legal p l
          (sym (append-nil s.conn.in_buffer) ∙ unfold delivered flatten in e))
  read_events-Agrees (suc n) s ms part q l begun legal p e =
      let event = handle_read_network_message_event os s in
      let quiet = all_quiet-suc n s q in
      let c =
        cut_stream (s.conn.in_buffer ++ received (next_run s))
          (flatten (delivered_after (delivered n) event)) ms part legal p
          (delivered-split n s ms part e) in
      let a = read_event_first s ms part _ quiet.0 l c in
      let s1 = with_input a.system a.left (handle_all c.first s).1 in
      let went_on : (handle_all c.first s).0 ≡ true → event ≡ (true, s1) =
        λ ok. a.result ∙ ap (λ b. (b, s1)) ok in
      rw (read_events-suc n s, c.all, handle_all-append c.first c.later s, a.result)
        (Agrees-after part a.left a.system (read_events n) (handle_all c.later)
          (handle_all c.first s)
          (λ ok.
            read_events-Agrees n s1 c.later part
              (sym (ap (quiet_after (all_quiet n)) (went_on ok)) ∙ quiet.1)
              (handle_all-Listening c.first s ok l) (rw (a.rest ok) c.partial) c.later_legal p
              (ap (λ t. t ++ flatten (delivered n s1)) (a.rest ok)
                ∙ ap (λ r. c.begun ++ flatten (delivered_after (delivered n) r)) (sym (went_on ok))
                ∙ c.behind))
          (handle_all-with_input c.later a.system a.left))
