-- ===== src/Server/Closing/Weight.antt =====
-- How much src/server/server.cpp still has to send: a number that each write to a socket lowers.
use event_driven_tcp_chatroo.Base.{
  ℕ, zero, suc, ◌+◌, ◌-◌, ◌*◌, ◌≤◌, ◌<◌, ◌≡◌, ◌≢◌, refl, sym, ap, subst, ◌∙◌, Bool, true, false,
  not, inl, inr, some, List, [], ◌∷◌, All, length, length-append, arith, ltb, ltb→lt, ◌==◌,
  is_empty, if◌then◌else◌, Bool-cases,
}
use event_driven_tcp_chatroo.Os.{Os, Reply, returned, failed, send}
use event_driven_tcp_chatroo.Connection.{
  Connection, connection_error, try_later, flush_loop, connection_flush_out_buffer,
}
use event_driven_tcp_chatroo.Connection.Flush.{
  Reply-cases, pending, flush-done, flush-zero, flush-sent, flush-failed,
}
use event_driven_tcp_chatroo.Protocol.{Message, max_payload_size}
use event_driven_tcp_chatroo.Protocol.Frame.{frame}
use event_driven_tcp_chatroo.Server.{write_back, find_fd, queue_loop, all_buffers_empty}
use event_driven_tcp_chatroo.Server.Send.{sends_server_hello}
use event_driven_tcp_chatroo.Server.Lookup.{find_fd-All}
use event_driven_tcp_chatroo.Server.Registry.{Key, key, keys, DistinctKeys, Differs}
use event_driven_tcp_chatroo.Server.Broadcast.{with_frame, queue_loop-skip, after_receiver}

-- The bytes that are left to be sent, and one more until the buffer is cleared.
abbrev pub unsent : Connection → ℕ
unsent c = (length c.out_buffer - c.bytes_written) + (if is_empty c.out_buffer then 0 else 1)

-- A connection that is being introduced will cause a broadcast, which adds at most `b` to all.
abbrev pub weight : ℕ → Connection → ℕ
weight b c = unsent c + (if sends_server_hello c.state then b else 0)

abbrev pub total : ℕ → List Connection → ℕ
total b [] = 0
total b (c ∷ cs) = weight b c + total b cs

-- What one message adds to one connection at most.
abbrev pub longest : ℕ
longest = max_payload_size + 6

pub total-zero : (b : ℕ) (cs : List Connection) → total b cs ≡ 0 → all_buffers_empty cs ≡ true
unfolding all_buffers_empty
total-zero b [] h = refl
total-zero b (c ∷ cs) h = ground (arith, total-zero b cs)

length-frame : (m : Message) → length (frame m.type m.payload) ≡ length m.payload + 5
length-frame m = omega arith

weight-with_frame :
    (b : ℕ) (m : Message) (c : Connection)
    → length m.payload ≤ max_payload_size
    → weight b (with_frame m c) ≤ weight b c + longest
weight-with_frame b m c h =
    ground (arith, length-append c.out_buffer (frame m.type m.payload), length-frame m)

weight-error :
    (b : ℕ) (c : Connection) → weight b (record c { state = connection_error }) ≤ weight b c
weight-error b c = ground arith

-- The same connections, with at most `extra` more to send.
abbrev pub Grows : ℕ → ℕ → List Connection → List Connection → Type 0
Grows b extra cs cs1 = (keys cs1 ≡ keys cs) × (total b cs1 ≤ total b cs + extra)

module _ {K : Type 0} (os : Os K) (b : ℕ) (skip : Connection → Bool) (m : Message)
    (mask epoll_fd : ℕ) where
  pub queue_loop-Grows :
      (cs : List Connection) (k : K)
      → Grows b (length cs * longest) cs (queue_loop os skip m mask epoll_fd cs k).1
  unfolding queue_loop
  queue_loop-Grows [] k = (refl, omega arith)
  queue_loop-Grows (c ∷ cs) k = elim (Bool-cases (skip c)) [
    | inl over ↦
        let (same, more) = queue_loop-Grows cs k in
        rw (queue_loop-skip os skip m mask epoll_fd c cs k over)
          (ap (◌∷◌ (key c)) same, omega (arith, more))
    | inr receiver ↦
        after_receiver os skip m mask epoll_fd
          (λ r. Grows b (length (c ∷ cs) * longest) (c ∷ cs) r.1) c cs k receiver
          (λ h. (refl, omega (arith, weight-error b c)))
          (λ k1 fits. (refl, omega (arith, weight-with_frame b m c fits)))
          (λ k1 fits.
            let (same, more) = queue_loop-Grows cs k1 in
            (ap (◌∷◌ (key c)) same, omega (arith, more, weight-with_frame b m c fits)))
  ]

-- One connection of the list is written back.
pub apart :
    (x : Connection) (xs : List Connection)
    → All (Differs (key x)) (keys xs)
    → All (λ (y : Connection). y.address ≢ x.address) xs
apart x [] h = tt
apart x (y ∷ ys) h = (h.0.0, apart x ys h.1)

module _ (b fd : ℕ) (c c1 : Connection) (same : key c1 ≡ key c) where
  abbrev Written : List Connection → Type 0
  Written cs =
      (find_fd fd (write_back c1 cs) ≡ some c1)
      × (total b (write_back c1 cs) + weight b c ≡ total b cs + weight b c1)

  pub write_back-Written :
      (cs : List Connection) → DistinctKeys (keys cs) → find_fd fd cs ≡ some c → Written cs
  write_back-Written [] u h = cc h
  write_back-Written (x ∷ xs) u h = elim (Bool-cases (x.fd == fd)) [
    | inl hit ↦
        let here : x ≡ c = ground arith in
        let at : key c1 ≡ key x = same ∙ ap key (sym here) in
        subst
          (λ (y : Connection).
            (find_fd fd (write_back c1 (x ∷ xs)) ≡ some c1)
            × (total b (write_back c1 (x ∷ xs)) + weight b y ≡ total b (x ∷ xs) + weight b c1))
          here (ground arith)
    | inr miss ↦
        let later : find_fd fd xs ≡ some c = ground arith in
        let other =
          find_fd-All (λ (y : Connection). y.address ≢ x.address) fd xs (apart x xs u.0) later in
        let away : c1.address ≢ x.address = subst (λ (z : Key). z.0 ≢ x.address) (sym same) other in
        let off : (x.address == c1.address) ≡ false = ground arith in
        let (found, sum) = write_back-Written xs u.1 later in
        rw off (rw miss found, omega (arith, sum))
  ]

-- The answer of a socket that takes nothing now, but may do so later.
abbrev pub put_off : Reply → Bool
put_off (returned n) = false
put_off (failed e) = try_later e

-- A flush of `c` that ended in `r`.
pub record Drained (c : Connection) (ok : Bool) (c1 : Connection) : Type 0 where
  pub same : key c1 ≡ key c
  pub less : unsent c1 ≤ unsent c
  pub success : ok ≡ true → c1.state ≡ c.state
  pub failure : ok ≡ false → c1.state ≡ connection_error

module _ {K : Type 0} (os : Os K) where
  -- The socket takes bytes, or fails for good.
  abbrev pub takes : Connection → K → Bool
  takes c k = not (put_off (os.call (send c.fd (pending c)) k).0)

  stopped :
      (later : Bool) (c : Connection) (k1 : K)
      → let r : Bool × Connection × K =
          if later then (true, c, k1) else (false, record c { state = connection_error }, k1) in
        Drained c r.0 r.1
  stopped true c k1 = record {
    same = refl;
    less = omega arith;
    success = λ e. refl;
    failure = λ e. cc e;
  }
  stopped false c k1 = record {
    same = refl;
    less = omega arith;
    success = λ e. cc e;
    failure = λ e. refl;
  }

  after_send :
      (c : Connection) (n : ℕ) (ok : Bool) (c1 : Connection)
      → Drained (record c { bytes_written = c.bytes_written + suc n }) ok c1
      → Drained c ok c1
  after_send c n ok c1 d = record {
    same = d.same;
    less = omega (arith, d.less);
    success = d.success;
    failure = d.failure;
  }

  flush_loop-Drained :
      (fuel : ℕ) (c : Connection) (k : K)
      → let (ok, c1, k1) = flush_loop os fuel c k in Drained c ok c1
  unfolding flush_loop
  flush_loop-Drained zero c k = record {
    same = refl;
    less = omega arith;
    success = λ e. refl;
    failure = λ e. cc e;
  }
  flush_loop-Drained (suc f) c k = elim (Bool-cases (ltb c.bytes_written (length c.out_buffer))) [
    | inr done ↦
        rw (flush-done os f c k (ground arith))
          (record { same = refl; less = omega arith; success = λ e. refl; failure = λ e. cc e })
    | inl more ↦
        let left : c.bytes_written < length c.out_buffer = ltb→lt _ _ more in
        let (r, k1) = os.call (send c.fd (pending c)) k in
        elim (Reply-cases r) [
          | inl e ↦ rw (flush-zero os f c k left e) (stopped false c k1)
          | inr (inl (n, e)) ↦ rw (flush-sent os f c k left n e) (
              after_send c n _ _
                (flush_loop-Drained f (record c { bytes_written = c.bytes_written + suc n }) k1))
          | inr (inr (e, h)) ↦ rw (flush-failed os f c k left e h) (stopped (try_later e) c k1)
        ]
  ]

  pub flush-Drained :
      (c : Connection) (k : K)
      → let (ok, c1, k1) = connection_flush_out_buffer os c k in Drained c ok c1
  unfolding connection_flush_out_buffer
  flush-Drained c k = flush_loop-Drained (suc (length c.out_buffer - c.bytes_written)) c k

  -- Where the socket takes bytes, less is left.
  pub flush-less :
      (c : Connection) (k : K)
      → is_empty c.out_buffer ≡ false
      → takes c k ≡ true
      → let (ok, c1, k1) = connection_flush_out_buffer os c k in ok ≡ true → unsent c1 < unsent c
  unfolding connection_flush_out_buffer
  flush-less c k full ready ok =
      let f = length c.out_buffer - c.bytes_written in
      elim (Bool-cases (ltb c.bytes_written (length c.out_buffer))) [
        | inr done ↦ rw (flush-done os f c k (ground arith)) (ground arith)
        | inl more ↦
            let left : c.bytes_written < length c.out_buffer = ltb→lt _ _ more in
            let (r, k1) = os.call (send c.fd (pending c)) k in
            elim (Reply-cases r) [
              | inl e ↦ cc (ok, flush-zero os f c k left e)
              | inr (inl (n, e)) ↦
                  let c2 = record c { bytes_written = c.bytes_written + suc n } in
                  rw (flush-sent os f c k left n e)
                    (omega (arith, (flush_loop-Drained f c2 k1).less))
              | inr (inr (e, h)) ↦
                  let waits : try_later e ≡ false = ground arith in
                  cc (ok, rw waits at (flush-failed os f c k left e h))
            ]
      ]
