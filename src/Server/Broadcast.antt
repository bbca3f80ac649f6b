-- ===== src/Server/Broadcast.antt =====
-- Queueing one message to many connections: `broadcast_message_to_other_clients` and
-- `queue_close_to_all_clients` of src/server/server.cpp.
use event_driven_tcp_chatroo.Base.{
  ℕ, ◌≤◌, ◌<◌, ◌≡◌, ◌⊎◌, refl, ap, Bool, true, false, inl, inr, List, [], ◌∷◌, ◌++◌, map, All,
  length, arith, leb, leb→le, if◌then◌else◌, Bool-cases,
}
use event_driven_tcp_chatroo.Os.{Os}
use event_driven_tcp_chatroo.Connection.{Connection, connection_error}
use event_driven_tcp_chatroo.Protocol.{Message, max_payload_size}
use event_driven_tcp_chatroo.Protocol.Frame.{frame, queue-legal, queue-too_long}
use event_driven_tcp_chatroo.Epoll.{epoll_fd_mod}
use event_driven_tcp_chatroo.Server.{queue_loop}

-- A connection with the frame of the message behind what waits to be sent.
abbrev pub with_frame : Message → Connection → Connection
with_frame m c = record c { out_buffer = c.out_buffer ++ frame m.type m.payload }

-- What a complete broadcast makes of a connection.
abbrev pub delivered_to : (Connection → Bool) → Message → Connection → Connection
delivered_to skip m c = if skip c then c else with_frame m c

-- Some connection is not passed over.
abbrev pub HasReceiver : (Connection → Bool) → List Connection → Type 0
HasReceiver skip [] = ⊥
HasReceiver skip (c ∷ cs) = (skip c ≡ false) ⊎ HasReceiver skip cs

module _ {K : Type 0} (os : Os K) (skip : Connection → Bool) (m : Message) (mask epoll_fd : ℕ) where
  abbrev loop : List Connection → K → Bool × List Connection × K
  loop = queue_loop os skip m mask epoll_fd

  module _ (c : Connection) (cs : List Connection) (k : K) where
    pub queue_loop-skip :
        skip c ≡ true → loop (c ∷ cs) k ≡ (let (ok, cs1, k1) = loop cs k in (ok, c ∷ cs1, k1))
    unfolding queue_loop
    queue_loop-skip e = rw (queue_loop, e)

    pub queue_loop-too_long :
        skip c ≡ false
        → max_payload_size < length m.payload
        → loop (c ∷ cs) k ≡ (false, record c { state = connection_error } ∷ cs, k)
    unfolding queue_loop
    queue_loop-too_long e h = ground (arith, queue-too_long c m h)

    pub queue_loop-unwatched :
        skip c ≡ false
        → length m.payload ≤ max_payload_size
        → (epoll_fd_mod os epoll_fd c.fd mask k).0 ≡ false
        → loop (c ∷ cs) k ≡ (false, with_frame m c ∷ cs, (epoll_fd_mod os epoll_fd c.fd mask k).1)
    unfolding queue_loop
    queue_loop-unwatched e h w = ground (arith, queue-legal c m h)

    pub queue_loop-queued :
        skip c ≡ false
        → length m.payload ≤ max_payload_size
        → (epoll_fd_mod os epoll_fd c.fd mask k).0 ≡ true
        → loop (c ∷ cs) k ≡ (
            let (ok, cs1, k1) = loop cs (epoll_fd_mod os epoll_fd c.fd mask k).1 in
            (ok, with_frame m c ∷ cs1, k1))
    unfolding queue_loop
    queue_loop-queued e h w = ground (arith, queue-legal c m h)

  -- The three ways to go on with a connection that is not passed over.
  pub after_receiver {ℓ} :
      (P : Bool × List Connection × K → Type ℓ) (c : Connection) (cs : List Connection) (k : K)
      → skip c ≡ false
      → (max_payload_size < length m.payload
          → P (false, record c { state = connection_error } ∷ cs, k))
      → ((k1 : K) → length m.payload ≤ max_payload_size → P (false, with_frame m c ∷ cs, k1))
      → ((k1 : K)
          → length m.payload ≤ max_payload_size
          → P (let (ok, cs1, k2) = loop cs k1 in (ok, with_frame m c ∷ cs1, k2)))
      → P (loop (c ∷ cs) k)
  after_receiver P c cs k e too_long unwatched queued =
      elim (Bool-cases (leb (length m.payload) max_payload_size)) [
        | inr long ↦ rw (queue_loop-too_long c cs k e (ground arith)) (too_long (ground arith))
        | inl short ↦
            let fits : length m.payload ≤ max_payload_size = leb→le _ _ short in
            elim (Bool-cases (epoll_fd_mod os epoll_fd c.fd mask k).0) [
              | inr off ↦ rw (queue_loop-unwatched c cs k e fits off) (unwatched _ fits)
              | inl on ↦ rw (queue_loop-queued c cs k e fits on) (queued _ fits)
            ]
      ]

  -- A broadcast that succeeds has appended the frame to everybody's buffer but those passed over.
  pub queue_loop-delivers :
      (cs : List Connection) (k : K)
      → (loop cs k).0 ≡ true
      → (loop cs k).1 ≡ map (delivered_to skip m) cs
  unfolding queue_loop
  queue_loop-delivers [] k e = refl
  queue_loop-delivers (c ∷ cs) k ok = elim (Bool-cases (skip c)) [
    | inl over ↦
        rw (queue_loop-skip c cs k over, over)
          (ap (◌∷◌ c) (queue_loop-delivers cs k (rw (queue_loop-skip c cs k over) at ok)))
    | inr receiver ↦
        after_receiver (λ r. r.0 ≡ true → r.1 ≡ map (delivered_to skip m) (c ∷ cs)) c cs k receiver
          (λ h e. cc) (λ k1 h e. cc)
          (λ k1 h e. rw receiver (ap (◌∷◌ (with_frame m c)) (queue_loop-delivers cs k1 e))) ok
  ]

  pub queue_loop-fails :
      (cs : List Connection) (k : K)
      → max_payload_size < length m.payload
      → HasReceiver skip cs
      → (loop cs k).0 ≡ false
  queue_loop-fails [] k h r = absurd r
  queue_loop-fails (c ∷ cs) k h (inl receiver) = rw (queue_loop-too_long c cs k receiver h)
  queue_loop-fails (c ∷ cs) k h (inr r) = elim (Bool-cases (skip c)) [
    | inl over ↦ rw (queue_loop-skip c cs k over) (queue_loop-fails cs k h r)
    | inr receiver ↦ rw (queue_loop-too_long c cs k receiver h)
  ]

  -- It can only fail for a payload that is too long or a socket that cannot be watched.
  pub queue_loop-succeeds :
      (cs : List Connection) (k : K)
      → length m.payload ≤ max_payload_size
      → ((fd : ℕ) (k : K) → (epoll_fd_mod os epoll_fd fd mask k).0 ≡ true)
      → (loop cs k).0 ≡ true
  unfolding queue_loop
  queue_loop-succeeds [] k h w = refl
  queue_loop-succeeds (c ∷ cs) k h w = elim (Bool-cases (skip c)) [
    | inl over ↦ rw (queue_loop-skip c cs k over) (queue_loop-succeeds cs k h w)
    | inr receiver ↦
        rw (queue_loop-queued c cs k receiver h (w c.fd k)) (queue_loop-succeeds cs _ h w)
  ]

  -- What holds of every connection stays so if it survives a frame and a failure.
  pub queue_loop-All {ℓ} :
      (P : Connection → Type ℓ)
      → ((c : Connection)
          → skip c ≡ false
          → length m.payload ≤ max_payload_size
          → P c
          → P (with_frame m c))
      → ((c : Connection) → skip c ≡ false → P c → P (record c { state = connection_error }))
      → (cs : List Connection) (k : K) → All P cs
      → All P (loop cs k).1
  unfolding queue_loop
  queue_loop-All P framed failed [] k h = tt
  queue_loop-All P framed failed (c ∷ cs) k h = elim (Bool-cases (skip c)) [
    | inl over ↦ rw (queue_loop-skip c cs k over) (h.0, queue_loop-All P framed failed cs k h.1)
    | inr receiver ↦
        after_receiver (λ r. All P r.1) c cs k receiver (λ _. (failed c receiver h.0, h.1))
          (λ k1 fits. (framed c receiver fits h.0, h.1))
          (λ k1 fits. (framed c receiver fits h.0, queue_loop-All P framed failed cs k1 h.1))
  ]
