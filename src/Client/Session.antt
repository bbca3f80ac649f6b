-- ===== src/Client/Session.antt =====
-- The messages of the server, as src/client/client.cpp handles them one after the other, against
-- the read events in which their bytes come.
use event_driven_tcp_chatroo.Base.{
  ℕ, zero, suc, ◌<◌, ◌≡◌, refl, sym, ap, ◌∙◌, ◌⊎◌, inl, inr, Bool, true, false, none, some, List,
  [], ◌∷◌, ◌++◌, append_assoc, Bytes, length, length-append, arith, All, if◌then◌else◌,
}
use event_driven_tcp_chatroo.Connection.{waiting_for_server_hello, active, is_error, is_closed}
use event_driven_tcp_chatroo.Protocol.{Message}
use event_driven_tcp_chatroo.Protocol.Frame.{frame, IsLegal}
use event_driven_tcp_chatroo.Protocol.Parse.{parse_incomplete}
use event_driven_tcp_chatroo.Protocol.Chunks.{parse-legal, stream, IsPartial}
use event_driven_tcp_chatroo.Client.{
  Client, Action, go_on, message_parsed, handle_network_message, read_messages,
}

module _ {K : Type 0} where
  -- The messages, one after the other, up to the first that ends the session.
  unfoldable pub handle_all : List Message → Action K Bool
  handle_all [] s = (true, s)
  handle_all (m ∷ ms) s =
      let (ok, s1) = handle_network_message m s in
      elim ok [ true ↦ handle_all ms s1 | false ↦ (false, s1) ]

  -- The same client with another state of the system and other bytes that are not yet handled.
  abbrev pub with_input : K → Bytes → Client K → Client K
  with_input k b s = record s { kernel = k; conn = record s.conn { in_buffer = b } }

  -- The client waits for the hello or chats.
  abbrev pub Listening : Client K → Type 0
  Listening s = (s.conn.state ≡ waiting_for_server_hello) ⊎ (s.conn.state ≡ active)

  handle-with_input :
      (m : Message) (k : K) (b : Bytes) (s : Client K)
      → handle_network_message m (with_input k b s)
        ≡ (let (ok, s1) = handle_network_message m s in (ok, with_input k b s1))
  unfolding handle_network_message
  handle-with_input m k b s = ground arith

  pub handle-Listening :
      (m : Message) (s : Client K)
      → (handle_network_message m s).0 ≡ true
      → Listening s
      → Listening (handle_network_message m s).1
  unfolding handle_network_message
  handle-Listening m s ok (inl h) = inr (ground arith)
  handle-Listening m s ok (inr h) = inr (ground arith)

  -- Whether there is a next message, with what is made of it.
  abbrev pub after : Action K Bool → Bool × Client K → Bool × Client K
  after next (true, s) = next s
  after next (false, s) = (false, s)

  pub handle_all-cons :
      (m : Message) (ms : List Message) (s : Client K)
      → handle_all (m ∷ ms) s ≡ after (handle_all ms) (handle_network_message m s)
  unfolding handle_all
  handle_all-cons m ms s = split (handle_network_message m s)
    where
      split :
          (r : Bool × Client K)
          → (elim r.0 [ true ↦ handle_all ms r.1 | false ↦ (false, r.1) ]) ≡ after (handle_all ms) r
      split (true, s1) = refl
      split (false, s1) = refl

  -- A result with other input.
  abbrev pub put_input : K → Bytes → Bool × Client K → Bool × Client K
  put_input k b (ok, s) = (ok, with_input k b s)

  after-put_input :
      (next : Action K Bool) (k : K) (b : Bytes)
      → ((s : Client K) → next (with_input k b s) ≡ put_input k b (next s))
      → (r : Bool × Client K) → after next (put_input k b r) ≡ put_input k b (after next r)
  after-put_input next k b h (true, s) = h s
  after-put_input next k b h (false, s) = refl

  pub handle_all-with_input :
      (ms : List Message) (k : K) (b : Bytes) (s : Client K)
      → handle_all ms (with_input k b s) ≡ put_input k b (handle_all ms s)
  handle_all-with_input [] k b s = unfold handle_all in refl
  handle_all-with_input (m ∷ ms) k b s =
      handle_all-cons m ms (with_input k b s)
      ∙ ap (after (handle_all ms)) (handle-with_input m k b s)
      ∙ after-put_input (handle_all ms) k b (handle_all-with_input ms k b)
          (handle_network_message m s)
      ∙ ap (put_input k b) (sym (handle_all-cons m ms s))

  handled-Listening :
      (s : Client K)
      → Listening s
      → (is_error s.conn.state ≡ false) × (is_closed s.conn.state ≡ false)
  handled-Listening s (inl h) = rw h (refl, refl)
  handled-Listening s (inr h) = rw h (refl, refl)

  conclude :
      (next : Action K Bool) (r : Bool × Client K)
      → go_on next (if r.0 then none else some false) r.1 ≡ after next r
  conclude next (true, s1) = refl
  conclude next (false, s1) = refl

  -- The loop at a whole frame.
  read_frame :
      (f : ℕ) (m : Message) (rest : Bytes) (s : Client K)
      → IsLegal m
      → Listening s
      → s.conn.in_buffer ≡ frame m.type m.payload ++ rest
      → read_messages (suc f) s
        ≡ after (read_messages f) (put_input s.kernel rest (handle_network_message m s))
  unfolding read_messages message_parsed
  read_frame f m rest s legal l e =
      rw (read_messages, parse-legal s.conn m rest legal e, message_parsed)
        (rw (handled-Listening s l).0 (
          rw (handle-with_input m s.kernel rest s)
            (conclude (read_messages f) (put_input s.kernel rest (handle_network_message m s)))))

  -- The loop where no whole frame is left.
  pub read_part :
      (f : ℕ) (s : Client K)
      → Listening s
      → IsPartial s.conn.in_buffer
      → read_messages (suc f) s ≡ (true, s)
  unfolding read_messages message_parsed
  read_part f s l (type, payload, missing, fits, left, whole) =
      rw (read_messages, parse_incomplete s.conn type payload missing fits left whole)
        (rw ((handled-Listening s l).0, (handled-Listening s l).1) refl)

  -- The results are the same but for the state of the system and the bytes that are not yet
  -- handled, and while the session goes on, these are the beginning of the next frame.
  pub record Agrees (part : Bytes) (expected r : Bool × Client K) : Type 0 where
    pub left : Bytes
    pub system : K
    pub result : r ≡ put_input system left expected
    pub rest : expected.0 ≡ true → left ≡ part

  pub Agrees-after :
      (part b : Bytes) (k : K) (next expected : Action K Bool) (r : Bool × Client K)
      → (r.0 ≡ true → Agrees part (expected (with_input k b r.1)) (next (with_input k b r.1)))
      → ((s : Client K) → expected (with_input k b s) ≡ put_input k b (expected s))
      → Agrees part (after expected r) (after next (put_input k b r))
  Agrees-after part b k next expected (true, s) go same =
      let a = go refl in
      record {
        left = a.left;
        system = a.system;
        result = a.result ∙ ap (put_input a.system a.left) (same s);
        rest = λ ok. a.rest (ap (λ (p : Bool × Client K). p.0) (same s) ∙ ok);
      }
  Agrees-after part b k next expected (false, s) go same = record {
    left = b;
    system = k;
    result = refl;
    rest = λ ok. cc ok;
  }

  pub read_stream :
      (ms : List Message) (part : Bytes) (f : ℕ) (s : Client K)
      → length s.conn.in_buffer < f
      → All IsLegal ms
      → IsPartial part
      → Listening s
      → s.conn.in_buffer ≡ stream ms ++ part
      → Agrees part (handle_all ms s) (read_messages f s)
  read_stream ms part zero s h legal p l e = absurd (omega arith)
  read_stream [] part (suc f) s h legal p l e = record {
    left = s.conn.in_buffer;
    system = s.kernel;
    result = read_part f s l (rw e p) ∙ unfold handle_all in refl;
    rest = λ _. e;
  }
  read_stream (m ∷ ms) part (suc f) s h legal p l e =
      let bytes = stream ms ++ part in
      let split = e ∙ append_assoc (frame m.type m.payload) (stream ms) part in
      let shorter : length bytes < f =
        omega (arith, ap length split, length-append m.payload bytes) in
      rw (handle_all-cons m ms s, read_frame f m bytes s legal.0 l split)
        (Agrees-after part bytes s.kernel (read_messages f) (handle_all ms)
          (handle_network_message m s)
          (λ ok.
            read_stream ms part f (with_input s.kernel bytes (handle_network_message m s).1) shorter
              legal.1 p (handle-Listening m s ok l) refl)
          (handle_all-with_input ms s.kernel bytes))
