-- ===== src/Protocol/Transfer.antt =====
-- From one end to the other: messages queued by protocol_queue_message (src/network/protocol.cpp),
-- flushed by connection_flush_out_buffer (src/connection/connection.cpp), cut into pieces on the
-- way, and parsed by protocol_parse_message.
use event_driven_tcp_chatroo.Base.{
  ℕ, zero, suc, ◌≡◌, ◌≢◌, ◌⊎◌, inl, inr, refl, sym, ap, ◌∙◌, List, [], ◌∷◌, ◌++◌, append_assoc,
  append-nil, flatten, Bytes, All, arith,
}
use event_driven_tcp_chatroo.Os.{Os}
use event_driven_tcp_chatroo.Connection.{Connection, connection_error, connection_flush_out_buffer}
use event_driven_tcp_chatroo.Connection.Flush.{SendLaws, IsBuffered, pending, flush-Flushed}
use event_driven_tcp_chatroo.Protocol.{Message, protocol_queue_message}
use event_driven_tcp_chatroo.Protocol.Frame.{frame, IsLegal, queue-legal}
use event_driven_tcp_chatroo.Protocol.Chunks.{feed, feed-stream, stream, IsPartial}

abbrev pub queue_all : List Message → Connection → Connection
queue_all [] c = c
queue_all (m ∷ ms) c = queue_all ms (protocol_queue_message c m).1

queue_all-stream :
    (ms : List Message) (c : Connection)
    → All IsLegal ms
    → queue_all ms c ≡ record c { out_buffer = c.out_buffer ++ stream ms }
queue_all-stream [] c h = ap (λ b. record c { out_buffer = b }) (sym (append-nil c.out_buffer))
queue_all-stream (m ∷ ms) c h = rw (queue-legal c m h.0.fits) (
    queue_all-stream ms (record c { out_buffer = c.out_buffer ++ frame m.type m.payload }) h.1
    ∙ ap (λ b. record c { out_buffer = b })
        (append_assoc c.out_buffer (frame m.type m.payload) (stream ms)))

-- Two ways to cut a list in two.
append-split {ℓ} :
    {A : Type ℓ} (xs ys us vs : List A)
    → xs ++ ys ≡ us ++ vs
    → ((w : List A) × (w ≢ []) × (us ≡ xs ++ w)) ⊎ ((w : List A) × (xs ≡ us ++ w) × (w ++ ys ≡ vs))
append-split xs ys [] vs e = inr (xs, refl, e)
append-split [] ys (u ∷ us) vs e = inl (u ∷ us, (λ z. cc), refl)
append-split (x ∷ xs) ys (u ∷ us) vs e =
    let same : x ≡ u = cc in
    let rest : xs ++ ys ≡ us ++ vs = cc in
    elim (append-split xs ys us vs rest) [
      | inl (w, some_left, e1) ↦ inl (w, some_left, cc (same, e1))
      | inr (w, e1, e2) ↦ inr (w, cc (same, e1), e2)
    ]

empty-IsPartial : IsPartial []
empty-IsPartial = (0, [], frame 0 [], omega arith, (λ e. cc), refl)

-- What the first bytes of a stream hold: some messages, and a beginning of the next.
abbrev pub Holds : Bytes → List Message → Type 0
Holds bytes ms =
    (got : List Message) × (left : List Message) × (part : Bytes) × (ms ≡ got ++ left)
    × (bytes ≡ stream got ++ part)
    × All IsLegal got
    × IsPartial part

stream-Holds :
    (ms : List Message) (bytes more : Bytes)
    → All IsLegal ms
    → bytes ++ more ≡ stream ms
    → Holds bytes ms
stream-Holds [] [] more h e = ([], [], [], refl, refl, tt, empty-IsPartial)
stream-Holds [] (b ∷ bytes) more h e = cc
stream-Holds (m ∷ ms) bytes more h e =
    elim (append-split bytes more (frame m.type m.payload) (stream ms) e) [
      | inl (w, some_left, cut) ↦
          ([], m ∷ ms, bytes, refl, refl, tt, (m.type, m.payload, w, h.0.fits, some_left, sym cut))
      | inr (w, whole, later) ↦
          let (got, left, part, split, held, legal, p) = stream-Holds ms w more h.1 later in
          (
            m ∷ got,
            left,
            part,
            ap (◌∷◌ m) split,
            whole
                ∙ ap (◌++◌ (frame m.type m.payload)) held
                ∙ sym (append_assoc (frame m.type m.payload) (stream got) part),
            (h.0, legal),
            p,
          )
    ]

module _ {K : Type 0} (os : Os K) where
  -- Flush after flush, as the socket takes bytes.
  abbrev pub flushes : ℕ → Connection → K → Connection × K
  flushes zero c k = (c, k)
  flushes (suc n) c k = let (ok, c1, k1) = connection_flush_out_buffer os c k in flushes n c1 k1

  module _ (laws : SendLaws os) where
    open laws use {delivered}

    flushes-bytes :
        (n : ℕ) (c : Connection) (k : K)
        → IsBuffered c
        → let (c1, k1) = flushes n c k in
          delivered c.fd k1 ++ pending c1 ≡ delivered c.fd k ++ pending c
    flushes-bytes zero c k b = refl
    flushes-bytes (suc n) c k b =
        let (ok, c1, k1) = connection_flush_out_buffer os c k in
        let d = flush-Flushed os laws c k b in
        ap (λ fd. delivered fd (flushes n c1 k1).1 ++ pending (flushes n c1 k1).0) (sym d.same.1)
        ∙ flushes-bytes n c1 k1 d.buffered
        ∙ ap (λ fd. delivered fd k1 ++ pending c1) d.same.1
        ∙ d.bytes

    sent_stream :
        (n : ℕ) (ms : List Message) (a : Connection) (k : K)
        → All IsLegal ms
        → a.out_buffer ≡ []
        → a.bytes_written ≡ 0
        → delivered a.fd k ≡ []
        → let (a1, k1) = flushes n (queue_all ms a) k in delivered a.fd k1 ++ pending a1 ≡ stream ms
    sent_stream n ms a k h e w d =
        rw (queue_all-stream ms a h, e)
          (flushes-bytes n (record a { out_buffer = stream ms }) k (rw w (omega arith)) ∙ rw (d, w))

    -- For every system whose `send` keeps the stated laws: legal messages are queued on a
    -- connection with an empty output buffer and offset 0, on whose socket nothing was sent before,
    -- and the buffer is flushed any number of times. However the bytes that the socket has taken
    -- are cut into pieces, a receiver with an empty buffer and not in the error state gets a prefix
    -- of these messages.
    pub feed-queue_prefix :
        (n : ℕ) (ms : List Message) (a b : Connection) (k : K) (xs : List Bytes)
        → All IsLegal ms
        → a.out_buffer ≡ []
        → a.bytes_written ≡ 0
        → delivered a.fd k ≡ []
        → b.in_buffer ≡ []
        → b.state ≢ connection_error
        → flatten xs ≡ delivered a.fd (flushes n (queue_all ms a) k).1
        → (left : List Message) × ((feed xs b).0 ++ left ≡ ms)
    feed-queue_prefix n ms a b k xs h e w d empty ok arrived =
        let (got, left, part, split, held, legal, p) =
          stream-Holds ms (delivered a.fd (flushes n (queue_all ms a) k).1) _ h
            (sent_stream n ms a k h e w d) in
        (
          left,
          ap (λ r. r.0 ++ left) (feed-stream xs got part b legal p (arrived ∙ held) empty ok)
              ∙ sym split,
        )

    -- For every system whose `send` keeps the stated laws: legal messages are queued on a
    -- connection with an empty output buffer and offset 0, on whose socket nothing was sent before,
    -- and the buffer is flushed any number of times, after which nothing is pending. However the
    -- bytes that the socket has taken are cut into pieces, a receiver with an empty buffer and not
    -- in the error state gets exactly these messages, in order, and its connection is as before.
    pub feed-queue_all :
        (n : ℕ) (ms : List Message) (a b : Connection) (k : K) (xs : List Bytes)
        → All IsLegal ms
        → a.out_buffer ≡ []
        → a.bytes_written ≡ 0
        → delivered a.fd k ≡ []
        → b.in_buffer ≡ []
        → b.state ≢ connection_error
        → pending (flushes n (queue_all ms a) k).0 ≡ []
        → flatten xs ≡ delivered a.fd (flushes n (queue_all ms a) k).1
        → feed xs b ≡ (ms, b)
    feed-queue_all n ms a b k xs h e w d empty ok done arrived =
        feed-stream xs ms [] b h empty-IsPartial
          (arrived
            ∙ sym (append-nil _)
            ∙ ap (λ p. delivered a.fd (flushes n (queue_all ms a) k).1 ++ p) (sym done)
            ∙ sent_stream n ms a k h e w d
            ∙ sym (append-nil _))
          empty ok
        ∙ ap (λ p. (ms, record b { in_buffer = p })) (sym empty)
