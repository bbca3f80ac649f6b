-- ===== src/Connection/Flush.antt =====
-- Writing out: `connection_flush_out_buffer` of src/connection/connection.cpp.
use event_driven_tcp_chatroo.Base.{
  ℕ, zero, suc, ◌+◌, ◌-◌, ◌≤◌, ◌<◌, ◌≡◌, ◌⊎◌, refl, ap, ◌∙◌, Bool, true, false, inl, inr, [], ◌++◌,
  append_assoc, append-nil, Bytes, length, take, drop, length-drop, drop-drop, drop_all,
  take-append-drop, ltb, lt→ltb, ltb_ge, ltb→lt, Bool-cases, arith, if◌then◌else◌,
}
use event_driven_tcp_chatroo.Os.{Os, Errno, Reply, returned, failed, send}
use event_driven_tcp_chatroo.Connection.{
  Connection, connection_error, try_later, cleared, flush_loop, connection_flush_out_buffer,
}

-- The bytes that are still to be sent.
abbrev pub pending : Connection → Bytes
pending c = drop c.bytes_written c.out_buffer

abbrev pub IsBuffered : Connection → Type 0
IsBuffered c = c.bytes_written ≤ length c.out_buffer

-- What POSIX says of `send`: it takes a part of the data from the front, or nothing with an error.
-- `delivered` is all that was taken so far on a descriptor.
pub record SendLaws {K : Type 0} (os : Os K) : Type 0 where
  pub delivered : ℕ → K → Bytes
  pub send_bounded :
      (fd : ℕ) (bytes : Bytes) (k : K) (n : ℕ)
      → (os.call (send fd bytes) k).0 ≡ returned n
      → n ≤ length bytes
  pub send_takes :
      (fd : ℕ) (bytes : Bytes) (k : K) (n : ℕ)
      → (os.call (send fd bytes) k).0 ≡ returned n
      → delivered fd (os.call (send fd bytes) k).1 ≡ delivered fd k ++ take n bytes
  pub send_fails :
      (fd : ℕ) (bytes : Bytes) (k : K) (e : Errno)
      → (os.call (send fd bytes) k).0 ≡ failed e
      → delivered fd (os.call (send fd bytes) k).1 ≡ delivered fd k

-- A reply, with the equation that a law about it needs.
pub Reply-cases :
    (r : Reply)
    → (r ≡ returned 0) ⊎ ((n : ℕ) × (r ≡ returned (suc n))) ⊎ ((e : Errno) × (r ≡ failed e))
Reply-cases (returned zero) = inl refl
Reply-cases (returned (suc n)) = inr (inl (n, refl))
Reply-cases (failed e) = inr (inr (e, refl))

module _ {K : Type 0} (os : Os K) where
  -- The loop stops with the buffer written, or fails, or has the rest left for later.
  pub flush-done :
      (f : ℕ) (c : Connection) (k : K)
      → length c.out_buffer ≤ c.bytes_written
      → flush_loop os (suc f) c k ≡ (true, cleared c, k)
  unfolding flush_loop
  flush-done f c k h = rw (flush_loop, ltb_ge _ _ h)

  module _ (f : ℕ) (c : Connection) (k : K) (left : c.bytes_written < length c.out_buffer) where
    abbrev pub answer : Reply × K
    answer = os.call (send c.fd (pending c)) k

    pub flush-sent :
        (n : ℕ)
        → answer.0 ≡ returned (suc n)
        → flush_loop os (suc f) c k
          ≡ flush_loop os f (record c { bytes_written = c.bytes_written + suc n }) answer.1
    unfolding flush_loop
    flush-sent n e = rw (flush_loop, lt→ltb _ _ left, e)

    pub flush-zero :
        answer.0 ≡ returned 0
        → flush_loop os (suc f) c k ≡ (false, record c { state = connection_error }, answer.1)
    unfolding flush_loop
    flush-zero e = rw (flush_loop, lt→ltb _ _ left, e)

    pub flush-failed :
        (e : Errno)
        → answer.0 ≡ failed e
        → flush_loop os (suc f) c k ≡ (
            if try_later e
            then (true, c, answer.1)
            else (false, record c { state = connection_error }, answer.1))
    unfolding flush_loop
    flush-failed e h = rw (flush_loop, lt→ltb _ _ left, h)

-- A flush of `c` at `k` that ended in `r`.
pub record Flushed {K : Type 0} (delivered : ℕ → K → Bytes) (c : Connection) (k : K)
    (r : Bool × Connection × K) : Type 0 where
  pub bytes : delivered c.fd r.2 ++ pending r.1 ≡ delivered c.fd k ++ pending c
  pub buffered : IsBuffered r.1
  pub failure : r.0 ≡ false → r.1.state ≡ connection_error
  pub success : r.0 ≡ true → r.1.state ≡ c.state
  pub buffer : ((r.1.out_buffer ≡ []) × (r.1.bytes_written ≡ 0)) ⊎ (r.1.out_buffer ≡ c.out_buffer)
  pub same :
      (r.1.address ≡ c.address)
      × (r.1.fd ≡ c.fd)
      × (r.1.in_buffer ≡ c.in_buffer)
      × (r.1.name ≡ c.name)

module _ {K : Type 0} (os : Os K) (laws : SendLaws os) where
  open laws use {delivered, send_bounded, send_takes, send_fails}

  sent_more :
      (c : Connection) (k k1 : K) (n : ℕ)
      → delivered c.fd k1 ≡ delivered c.fd k ++ take n (pending c)
      → delivered c.fd k1 ++ drop (c.bytes_written + n) c.out_buffer ≡ delivered c.fd k ++ pending c
  sent_more c k k1 n e =
      rw (e, ← drop-drop c.bytes_written n c.out_buffer, append_assoc)
        (ap (◌++◌ (delivered c.fd k)) (take-append-drop n (pending c)))

  -- The ways in which a round can go.
  done-Flushed :
      (c : Connection) (k : K)
      → length c.out_buffer ≤ c.bytes_written
      → Flushed delivered c k (true, cleared c, k)
  done-Flushed c k h = record {
    bytes = rw (drop_all c.bytes_written c.out_buffer h);
    buffered = omega arith;
    failure = λ h. cc;
    success = λ h. refl;
    buffer = inl (refl, refl);
    same = (refl, refl, refl, refl);
  }

  stopped-Flushed :
      (c : Connection) (k k1 : K) (ok : Bool)
      → IsBuffered c
      → delivered c.fd k1 ≡ delivered c.fd k
      → Flushed delivered c k
          (if ok then (true, c, k1) else (false, record c { state = connection_error }, k1))
  stopped-Flushed c k k1 true b e = record {
    bytes = rw e;
    buffered = b;
    failure = λ h. cc;
    success = λ h. refl;
    buffer = inr refl;
    same = (refl, refl, refl, refl);
  }
  stopped-Flushed c k k1 false b e = record {
    bytes = rw e;
    buffered = b;
    failure = λ h. refl;
    success = λ h. cc;
    buffer = inr refl;
    same = (refl, refl, refl, refl);
  }

  sent-Flushed :
      (c : Connection) (k : K) (n : ℕ) {r : Bool × Connection × K}
      → (os.call (send c.fd (pending c)) k).0 ≡ returned (suc n)
      → Flushed delivered
          (record c { bytes_written = c.bytes_written + suc n })
          (os.call (send c.fd (pending c)) k).1
          r
      → Flushed delivered c k r
  sent-Flushed c k n e d = record {
    bytes = d.bytes ∙ sent_more c k _ (suc n) (send_takes _ _ _ _ e);
    buffered = d.buffered;
    failure = d.failure;
    success = d.success;
    buffer = d.buffer;
    same = d.same;
  }

  flush_loop-Flushed :
      (f : ℕ) (c : Connection) (k : K)
      → IsBuffered c
      → length c.out_buffer - c.bytes_written < f
      → Flushed delivered c k (flush_loop os f c k)
  flush_loop-Flushed zero c k b h = absurd (omega arith)
  flush_loop-Flushed (suc f) c k b h =
      elim (Bool-cases (ltb c.bytes_written (length c.out_buffer))) [
        | inr done ↦ rw (flush-done os f c k (ground arith)) (done-Flushed c k (ground arith))
        | inl more ↦
            let left : c.bytes_written < length c.out_buffer = ltb→lt _ _ more in
            elim (Reply-cases (os.call (send c.fd (pending c)) k).0) [
              | inl e ↦
                  rw (flush-zero os f c k left e)
                    (stopped-Flushed c k _ false b (send_takes _ _ _ _ e ∙ append-nil _))
              | inr (inl (n, e)) ↦
                  let fits = send_bounded _ _ _ _ e in
                  let size = length-drop c.bytes_written c.out_buffer in
                  rw (flush-sent os f c k left n e) (
                    sent-Flushed c k n e (
                      flush_loop-Flushed f (record c { bytes_written = c.bytes_written + suc n }) _
                        (omega (arith, fits, size)) (omega (arith, fits, size))))
              | inr (inr (e, failure)) ↦
                  rw (flush-failed os f c k left e failure)
                    (stopped-Flushed c k _ (try_later e) b (send_fails _ _ _ _ failure))
            ]
      ]

  -- For every system whose `send` keeps the stated laws and a write offset within the output
  -- buffer, the flush loses, repeats and reorders no byte: what the socket has taken, followed by
  -- what is still pending, is the same before and after. The offset is then within the buffer
  -- again, failure leaves the error state and success the former state, the buffer is either
  -- emptied with offset 0 or the same as before, and address, descriptor, input buffer and name
  -- stay.
  pub flush-Flushed :
      (c : Connection) (k : K)
      → IsBuffered c
      → Flushed delivered c k (connection_flush_out_buffer os c k)
  unfolding connection_flush_out_buffer
  flush-Flushed c k b =
      flush_loop-Flushed (suc (length c.out_buffer - c.bytes_written)) c k b (omega arith)

-- The flush gives the same result for any two numbers of rounds above the number of pending bytes,
-- whatever `send` answers.
pub flush_loop-enough :
    {K : Type 0} (os : Os K) (f g : ℕ) (c : Connection) (k : K)
    → length c.out_buffer - c.bytes_written < f
    → length c.out_buffer - c.bytes_written < g
    → flush_loop os f c k ≡ flush_loop os g c k
flush_loop-enough os zero g c k hf hg = absurd (omega arith)
flush_loop-enough os (suc f) zero c k hf hg = absurd (omega arith)
flush_loop-enough os (suc f) (suc g) c k hf hg =
    elim (Bool-cases (ltb c.bytes_written (length c.out_buffer))) [
      | inr done ↦ rw (flush-done os f c k (ground arith), flush-done os g c k (ground arith))
      | inl more ↦
          let left : c.bytes_written < length c.out_buffer = ltb→lt _ _ more in
          elim (Reply-cases (os.call (send c.fd (pending c)) k).0) [
            | inl e ↦ rw (flush-zero os f c k left e, flush-zero os g c k left e)
            | inr (inl (n, e)) ↦
                rw (flush-sent os f c k left n e, flush-sent os g c k left n e)
                  (flush_loop-enough os f g _ _ (omega arith) (omega arith))
            | inr (inr (e, h)) ↦ rw (flush-failed os f c k left e h, flush-failed os g c k left e h)
          ]
    ]

flush_loop-state :
    {K : Type 0} (os : Os K) (f : ℕ) (c : Connection) (k : K)
    → let t = (flush_loop os f c k).1.state in (t ≡ c.state) ⊎ (t ≡ connection_error)
unfolding flush_loop
flush_loop-state os zero c k = inl refl
flush_loop-state os (suc f) c k = elim (Bool-cases (ltb c.bytes_written (length c.out_buffer))) [
  | inr done ↦ rw (flush-done os f c k (ground arith)) (inl refl)
  | inl more ↦
      let left : c.bytes_written < length c.out_buffer = ltb→lt _ _ more in
      elim (Reply-cases (os.call (send c.fd (pending c)) k).0) [
        | inl e ↦ rw (flush-zero os f c k left e) (inr refl)
        | inr (inl (n, e)) ↦
            rw (flush-sent os f c k left n e)
              (flush_loop-state os f (record c { bytes_written = c.bytes_written + suc n }) _)
        | inr (inr (e, h)) ↦ rw (flush-failed os f c k left e h) (ground arith)
      ]
]

-- A flush leaves the state, or breaks the connection.
pub flush-state :
    {K : Type 0} (os : Os K) (c : Connection) (k : K)
    → let t = (connection_flush_out_buffer os c k).1.state in (t ≡ c.state) ⊎ (t ≡ connection_error)
unfolding connection_flush_out_buffer
flush-state os c k = flush_loop-state os (suc (length c.out_buffer - c.bytes_written)) c k
