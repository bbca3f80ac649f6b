-- ===== src/Server/Closing/Served.antt =====
-- A row of events while the room of src/server/server.cpp is closing: some are served.
use event_driven_tcp_chatroo.Base.{
  ℕ, ◌*◌, ◌≤◌, ◌<◌, ◌≡◌, refl, sym, ap, subst, ◌∙◌, Bool, true, false, ◌&&◌, inl, inr, some, List,
  [], ◌∷◌, length, arith, Bool-cases, Option-cases, if◌then◌else◌,
}
use event_driven_tcp_chatroo.Os.{Os, Event}
use event_driven_tcp_chatroo.Connection.{Connection}
use event_driven_tcp_chatroo.Server.{Server, find_fd, satisfies}
use event_driven_tcp_chatroo.Server.Loop.{handle_event, handle_events}
use event_driven_tcp_chatroo.Server.Registry.{keys, DistinctKeys}
use event_driven_tcp_chatroo.Server.Closing.Weight.{total, longest, takes}
use event_driven_tcp_chatroo.Server.Closing.Events.{sendable, event-passed, event-sent}
use event_driven_tcp_chatroo.Server.Closing.Steps.{
  Drains, Drains-trans, send_package-Serves, length-keys,
}

module _ {K : Type 0} (os : Os K) where
  -- The event is of a connection with output, and its socket takes bytes or fails for good.
  unfoldable pub serves_event : Event → Server K → Bool
  serves_event e s =
      satisfies (find_fd e.fd s.connections) λ c. sendable e.events c && takes os c s.kernel

  -- Some event of the row is such, when its turn comes; or the row is broken off.
  unfoldable pub serves_events : List Event → Server K → Bool
  serves_events [] s = false
  serves_events (e ∷ es) s =
      let (running, s1) = handle_event os e s in
      if serves_event e s then true else elim running [ true ↦ serves_events es s1 | false ↦ true ]

  events-go :
      (e : Event) (es : List Event) (s : Server K)
      → (handle_event os e s).0 ≡ true
      → handle_events os (e ∷ es) s ≡ handle_events os es (handle_event os e s).1
  unfolding handle_events
  events-go e es s on = ground arith

  pub events-end :
      (e : Event) (es : List Event) (s : Server K)
      → (handle_event os e s).0 ≡ false
      → handle_events os (e ∷ es) s ≡ (false, (handle_event os e s).1)
  unfolding handle_events
  events-end e es s ended = ground arith

  module _ (b : ℕ) where
    -- The room is closing, and its connections can be told apart.
    pub record IsClosing (s : Server K) : Type 0 where
      pub closing : s.closing ≡ true
      pub distinct : DistinctKeys (keys s.connections)
      pub room : length s.connections * longest ≤ b

    pub Drains-IsClosing : {s s1 : Server K} → Drains b s s1 → IsClosing s → IsClosing s1
    Drains-IsClosing {s} {s1} d h = record {
      closing = d.phase ∙ h.closing;
      distinct = subst DistinctKeys (sym d.same) h.distinct;
      room = omega (
        arith,
        h.room,
        sym (length-keys s1.connections) ∙ ap length d.same ∙ length-keys s.connections,
      );
    }

    -- A step that leaves no more to be sent, and less where it `serves` and the loop goes on.
    pub record Step (s : Server K) (served : Bool) (r : Bool × Server K) : Type 0 where
      pub drains : Drains b s r.1
      pub progress : served ≡ true → r.0 ≡ true → total b r.1.connections < total b s.connections

    passed-Step :
        (e : Event) (s : Server K)
        → IsClosing s
        → satisfies (find_fd e.fd s.connections) (sendable e.events) ≡ false
        → serves_event e s ≡ false
        → Step s (serves_event e s) (handle_event os e s)
    passed-Step e s h idle off =
        let (x, same) = event-passed os e s h.closing h.distinct idle in
        rw same (record {
          drains = record { same = refl; phase = refl; less = omega arith };
          progress = λ served running. cc (off, served);
        })

    sent-Step :
        (e : Event) (s : Server K) (c : Connection)
        → IsClosing s
        → find_fd e.fd s.connections ≡ some c
        → sendable e.events c ≡ true
        → (serves_event e s ≡ true → takes os c s.kernel ≡ true)
        → Step s (serves_event e s) (handle_event os e s)
    sent-Step e s c h found writable takes_it =
        let (x, same) = event-sent os e s c h.closing h.distinct found writable in
        let (drains, less) =
          send_package-Serves os b e.fd c (record s { cached = x })
            (record { distinct = h.distinct; found = found; room = h.room }) in
        rw same (record {
          drains = record { same = drains.same; phase = drains.phase; less = drains.less };
          progress = λ served running. less (ground arith) (takes_it served) running;
        })

    handle_event-Step :
        (e : Event) (s : Server K) → IsClosing s → Step s (serves_event e s) (handle_event os e s)
    unfolding serves_event
    handle_event-Step e s h = elim (Option-cases (find_fd e.fd s.connections)) [
      | inl gone ↦ passed-Step e s h (rw gone refl) (rw gone refl)
      | inr (c, found) ↦ elim (Bool-cases (sendable e.events c)) [
        | inr off ↦ passed-Step e s h (rw found off) (rw (found, off) refl)
        | inl writable ↦ sent-Step e s c h found writable (λ served. rw (found, writable) at served)
      ]
    ]

    pub handle_events-Step :
        (es : List Event) (s : Server K)
        → IsClosing s
        → Step s (serves_events es s) (handle_events os es s)
    unfolding serves_events
    handle_events-Step [] s h =
        unfold handle_events in
        record {
          drains = record { same = refl; phase = refl; less = omega arith };
          progress = λ served running. cc served;
        }
    handle_events-Step (e ∷ es) s h =
        let (running, s1) = handle_event os e s in
        let first = handle_event-Step e s h in
        elim (Bool-cases running) [
          | inr ended ↦
              rw (events-end e es s ended)
                (record { drains = first.drains; progress = λ served on. cc on })
          | inl on ↦
              let later = handle_events-Step es s1 (Drains-IsClosing first.drains h) in
              rw (events-go e es s on) (record {
                drains = Drains-trans b first.drains later.drains;
                progress = λ served still.
                    both (serves_event e s) (serves_events es s1) (rw on at served)
                      (λ a. first.progress a on) (λ a. later.progress a still) first.drains.less
                      later.drains.less;
              })
        ]
      where
        both :
            (now after : Bool) {x y z : ℕ}
            → (if now then true else after) ≡ true
            → (now ≡ true → y < x)
            → (after ≡ true → z < y)
            → y ≤ x
            → z ≤ y
            → z < x
        both true after served first later le1 le2 = omega (arith, first refl)
        both false after served first later le1 le2 = omega (arith, later served)
