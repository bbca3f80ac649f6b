-- ===== src/Server/Closing/Rounds.antt =====
-- The event loop of src/server/server.cpp while the room is closing, up to its end.
use event_driven_tcp_chatroo.Base.{
  ℕ, zero, suc, ◌*◌, ◌≤◌, ◌<◌, ◌≡◌, refl, sym, ◌∙◌, Bool, true, false, ◌&&◌, inl, inr, List, length,
  arith, ◌==◌, ==_iff, Bool-cases,
}
use event_driven_tcp_chatroo.Os.{Os, Event, WaitReply, ready, wait_failed}
use event_driven_tcp_chatroo.Server.{Server, all_connection_buffers_empty}
use event_driven_tcp_chatroo.Server.Loop.{handle_events, keep_running, loop_round, loop_rounds}
use event_driven_tcp_chatroo.Server.Registry.{keys, DistinctKeys}
use event_driven_tcp_chatroo.Server.Sound.Rounds.{WaitReply-cases}
use event_driven_tcp_chatroo.Server.Closing.Weight.{total, total-zero, longest}
use event_driven_tcp_chatroo.Server.Closing.Served.{
  serves_events, IsClosing, Drains-IsClosing, handle_events-Step,
}

-- What the server may still have to write, in steps: the bytes of its buffers and one more for each
-- buffer, and the longest announcement to all for each client that is being introduced.
abbrev pub left_to_send : {K : Type 0} → Server K → ℕ
left_to_send s = total (length s.connections * longest) s.connections

module _ {K : Type 0} (os : Os K) where
  abbrev serves_reply : WaitReply × K → Server K → Bool
  serves_reply (ready es, k) s = serves_events os es (record s { kernel = k })
  serves_reply (wait_failed e, k) s = false

  -- In each of the rounds, as long as the loop runs, `epoll_wait` reports such a row.
  unfoldable pub serves : ℕ → Server K → Bool
  serves zero s = true
  serves (suc n) s =
      let (running, s1) = loop_round os s in
      serves_reply (os.epoll_wait s.epoll_fd s.kernel) s
      && elim running [ true ↦ serves n s1 | false ↦ true ]

  module _ (b : ℕ) where
    -- What stands behind the events ends the loop where nothing is left.
    keep_running-goes :
        (running : Bool) (s : Server K)
        → s.closing ≡ true
        → (keep_running os running s).0 ≡ true
        → (running ≡ true) × (0 < total b s.connections)
    unfolding keep_running all_connection_buffers_empty
    keep_running-goes running s closing on = elim (Bool-cases (total b s.connections == 0)) [
      | inl none_left ↦
          let empty = total-zero b s.connections ((==_iff _ _).0 none_left) in
          absurd (ground (arith, empty))
      | inr some_left ↦ ground arith
    ]

    round-ready :
        (es : List Event) (s : Server K)
        → (os.epoll_wait s.epoll_fd s.kernel).0 ≡ ready es
        → let (running, s1) =
            handle_events os es (record s { kernel = (os.epoll_wait s.epoll_fd s.kernel).1 }) in
          (loop_round os s).0 ≡ (keep_running os running s1).0 × (loop_round os s).1 ≡ s1
    unfolding loop_round keep_running all_connection_buffers_empty
    round-ready es s e = rw (loop_round, e) (refl, refl)

    -- Where a round serves and the loop goes on, less is left, but not nothing.
    loop_round-Step :
        (s : Server K)
        → IsClosing os b s
        → serves_reply (os.epoll_wait s.epoll_fd s.kernel) s ≡ true
        → (loop_round os s).0 ≡ true
        → let s1 = (loop_round os s).1 in
          IsClosing os b s1
          × (total b s1.connections < total b s.connections)
          × (0 < total b s1.connections)
    loop_round-Step s h served running =
        let (reply, k) = os.epoll_wait s.epoll_fd s.kernel in
        elim (WaitReply-cases reply) [
          | inr (failure, e) ↦ cc (rw e at served)
          | inl (es, e) ↦
              let s0 = record s { kernel = k } in
              let (on, s1) = handle_events os es s0 in
              let h0 : IsClosing os b s0 = record {
                closing = h.closing;
                distinct = h.distinct;
                room = h.room;
              } in
              let step = handle_events-Step os b es s0 h0 in
              let h1 = Drains-IsClosing os b step.drains h0 in
              let (same, after) = round-ready es s e in
              let (going, some_left) = keep_running-goes on s1 h1.closing (sym same ∙ running) in
              rw after (h1, step.progress (rw e at served) going, some_left)
        ]

  rounds-go :
      (n : ℕ) (s : Server K)
      → (loop_round os s).0 ≡ true
      → loop_rounds os (suc n) s ≡ loop_rounds os n (loop_round os s).1
  unfolding loop_rounds
  rounds-go n s on = ground arith

  rounds-end :
      (n : ℕ) (s : Server K) → (loop_round os s).0 ≡ false → (loop_rounds os (suc n) s).0 ≡ false
  unfolding loop_rounds
  rounds-end n s ended = ground arith

  serves-suc :
      (n : ℕ) (s : Server K)
      → serves (suc n) s ≡ true
      → (serves_reply (os.epoll_wait s.epoll_fd s.kernel) s ≡ true)
        × ((loop_round os s).0 ≡ true → serves n (loop_round os s).1 ≡ true)
  unfolding serves
  serves-suc n s served = (ground arith, λ on. ground arith)

  ends :
      (b n : ℕ) (s : Server K)
      → IsClosing os b s
      → serves (suc n) s ≡ true
      → total b s.connections ≤ suc n
      → (loop_rounds os (suc n) s).0 ≡ false
  ends b zero s h served few = elim (Bool-cases (loop_round os s).0) [
    | inr ended ↦ rounds-end 0 s ended
    | inl on ↦
        let (h1, less, some_left) = loop_round-Step b s h (serves-suc 0 s served).0 on in
        absurd (omega (arith, less, some_left, few))
  ]
  ends b (suc n) s h served few = elim (Bool-cases (loop_round os s).0) [
    | inr ended ↦ rounds-end (suc n) s ended
    | inl on ↦
        let (now, later) = serves-suc (suc n) s served in
        let (h1, less, some_left) = loop_round-Step b s h now on in
        rw (rounds-go (suc n) s on)
          (ends b n (loop_round os s).1 h1 (later on) (omega (arith, less, few)))
  ]

  -- While the room is closing, let n + 1 be at least the sum of the bytes that wait in the output
  -- buffers, one more for each of them that is not empty, and, for each client that is being
  -- introduced, 65542 for every connection of the list. If no two connections of the list have one
  -- address or one descriptor, and in each of the next n + 1 rounds, as long as the loop runs,
  -- `epoll_wait` reports an event of sending for some connection with output, for which, when its
  -- turn comes, `send` takes bytes or fails for good instead of having it try again (or an event
  -- ends the loop before), then the event loop of the server has ended by itself within these n + 1
  -- rounds.
  pub closing_ends :
      (n : ℕ) (s : Server K)
      → s.closing ≡ true
      → DistinctKeys (keys s.connections)
      → serves (suc n) s ≡ true
      → left_to_send s ≤ suc n
      → (loop_rounds os (suc n) s).0 ≡ false
  closing_ends n s closing distinct served few =
      ends (length s.connections * longest) n s
        (record { closing = closing; distinct = distinct; room = omega arith }) served few
