-- ===== src/Server/Registry/Life.antt =====
-- The open descriptors over a whole run of the server: `server_event_loop` of src/server/server.cpp
-- from its set-up to its clean-up.
use event_driven_tcp_chatroo.Base.{
  ℕ, ◌≡◌, refl, sym, ap, ap₂, ◌∙◌, Bool, true, false, not, ◌&&◌, ◌||◌, inl, inr, none, some, List,
  [], ◌∷◌, All, ◌==◌, ==_iff, Bool-cases, Option-cases, subst, if◌then◌else◌, arith,
}
use event_driven_tcp_chatroo.Os.{Os, close, run_call}
use event_driven_tcp_chatroo.Connection.{Connection, no_fd}
use event_driven_tcp_chatroo.Connection.Descriptors.{
  FdLaws, Same, Opened, NoLeak, closed-Same, Opened-Same,
}
use event_driven_tcp_chatroo.Epoll.{create_epoll, epollin}
use event_driven_tcp_chatroo.Epoll.Instance.{create_epoll-NoLeak}
use event_driven_tcp_chatroo.Server.{Server}
use event_driven_tcp_chatroo.Server.Input.{stdin_fileno}
use event_driven_tcp_chatroo.Server.Loop.{
  start_loop, loop_rounds, server_cleanup, server_event_loop,
}
use event_driven_tcp_chatroo.Server.Cleanup.{owns, holds, held_by_any, server_cleanup-closes}
use event_driven_tcp_chatroo.Server.Registry.{Key, keys}
use event_driven_tcp_chatroo.Server.Registry.Owned.{ServerLaws, held, Registered}
use event_driven_tcp_chatroo.Server.Registry.Rounds.{loop_rounds-Registered}
use event_driven_tcp_chatroo.Server.Registry.Fixed.{fds, loop_rounds-Fixes}

-- A predicate of all keys holds at a descriptor that one of them has.
held-All :
    (f : ℕ → Bool) (d : ℕ) (xs : List Key)
    → held d xs ≡ true
    → All (λ (x : Key). f x.1 ≡ false) xs
    → f d ≡ false
held-All f d [] h a = cc h
held-All f d (x ∷ xs) h a = elim (Bool-cases (d == x.1)) [
  | inl e ↦ ap f ((==_iff d x.1).0 e) ∙ a.0
  | inr e ↦ held-All f d xs (rw e at h) a.1
]

module _ {K : Type 0} (os : Os K) (laws : FdLaws os) where
  open laws use {is_open, never}

  open-real : (fd : ℕ) (k : K) → is_open fd k ≡ true → (fd == no_fd) ≡ false
  open-real fd k h = elim (Bool-cases (fd == no_fd)) [
    | inr e ↦ e
    | inl e ↦ absurd (cc (never k, h, (==_iff fd no_fd).0 e))
  ]

  pub open-holds : (fd d : ℕ) (k : K) → is_open fd k ≡ true → holds d fd ≡ (d == fd)
  open-holds fd d k h = rw (open-real fd k h)

  held_by_any-held :
      (d : ℕ) (cs : List Connection) (k : K)
      → All (λ (x : Key). is_open x.1 k ≡ true) (keys cs)
      → held_by_any d cs ≡ held d (keys cs)
  held_by_any-held d [] k h = refl
  held_by_any-held d (c ∷ cs) k h =
      ap₂ (λ a b. a || b) (open-holds c.fd d k h.0) (held_by_any-held d cs k h.1)

pub some-eq : {A : Type 0} {a b : A} → some a ≡ some b → a ≡ b
some-eq h = cc h

module _ {K : Type 0} (os : Os K) where
  start_none :
      (s : Server K)
      → (create_epoll os s.listen_fd stdin_fileno s.kernel).0 ≡ none
      → start_loop os s ≡ (
        false,
        record s {
          epoll_fd = no_fd;
          listen_fd = no_fd;
          kernel =
              run_call os (close s.listen_fd) (create_epoll os s.listen_fd stdin_fileno s.kernel).1;
        },
      )
  unfolding start_loop
  start_none s e = rw (start_loop, e)

  start_some :
      (s : Server K) (epoll_fd : ℕ)
      → (create_epoll os s.listen_fd stdin_fileno s.kernel).0 ≡ some epoll_fd
      → start_loop os s ≡ (
        true,
        record s {
          epoll_fd = epoll_fd;
          kernel = (create_epoll os s.listen_fd stdin_fileno s.kernel).1;
        },
      )
  unfolding start_loop
  start_some s epoll_fd e = rw (start_loop, e)

  loop_failed :
      (n : ℕ) (s s1 : Server K)
      → start_loop os s ≡ (false, s1)
      → server_event_loop os n s ≡ some (server_cleanup os s1)
  unfolding server_event_loop
  loop_failed n s s1 h = rw h

  loop_started :
      (n : ℕ) (s s1 : Server K)
      → start_loop os s ≡ (true, s1)
      → server_event_loop os n s ≡ (
          let (running, s2) = loop_rounds os n s1 in
          if running then none else some (server_cleanup os s2))
  unfolding server_event_loop
  loop_started n s s1 h = rw h

right : (a b : Bool) → (a || b) ≡ false → b ≡ false
right a b h = ground arith

balance :
    (l e h x : Bool)
    → ((l || (e || h)) ≡ true → x ≡ false)
    → (not (l || (e || h)) && (h || (e || (l || x)))) ≡ x
balance l e h x closed = ground arith

module _ {K : Type 0} (os : Os K) (laws : ServerLaws os) (k0 : K) where
  abbrev opened : ℕ → K → Bool
  opened = laws.fds.is_open

  -- The server's own two descriptors, besides those that were open before.
  abbrev around : ℕ → ℕ → ServerLaws os
  around listen_fd epoll_fd = record laws {
    others = λ d. d == epoll_fd || (d == listen_fd || opened d k0);
  }

  -- The loop starts with both open, and no connection.
  first-Registered :
      (listen_fd epoll_fd : ℕ) (k1 k2 : K)
      → Opened opened listen_fd k0 k1
      → Opened opened epoll_fd k1 k2
      → Registered opened (around listen_fd epoll_fd).others [] k2
  first-Registered listen_fd epoll_fd k1 k2 l e = record {
    distinct = tt;
    are_open = tt;
    exact = λ d. e.1 d ∙ ap (λ b. d == epoll_fd || b) (l.1 d);
    apart = tt;
  }

  module _ (s : Server K) (listen_fd epoll_fd : ℕ) (k1 k2 : K) (l : Opened opened listen_fd k0 k1)
      (e : Opened opened epoll_fd k1 k2) (own : fds s ≡ (listen_fd, epoll_fd))
      (r : Registered opened (around listen_fd epoll_fd).others s.connections s.kernel) where
    abbrev others : ℕ → Bool
    others = (around listen_fd epoll_fd).others

    listen_holds : (d : ℕ) → holds d s.listen_fd ≡ (d == listen_fd)
    listen_holds d =
        ap (λ (p : ℕ × ℕ). holds d p.0) own
        ∙ open-holds os laws.fds listen_fd d s.kernel (r.exact listen_fd ∙ ground arith)

    epoll_holds : (d : ℕ) → holds d s.epoll_fd ≡ (d == epoll_fd)
    epoll_holds d =
        ap (λ (p : ℕ × ℕ). holds d p.1) own
        ∙ open-holds os laws.fds epoll_fd d s.kernel (r.exact epoll_fd ∙ ground arith)

    owns_lem :
        (d : ℕ) → owns s d ≡ (d == listen_fd || (d == epoll_fd || held d (keys s.connections)))
    owns_lem d =
        ap₂ (λ a b. a || b) (listen_holds d)
          (ap₂ (λ a b. a || b) (epoll_holds d)
            (held_by_any-held os laws.fds d s.connections s.kernel r.are_open))

    -- What the server owns was not open before.
    owned-closed :
        (d : ℕ)
        → (d == listen_fd || (d == epoll_fd || held d (keys s.connections))) ≡ true
        → opened d k0 ≡ false
    owned-closed d h = elim (Bool-cases (d == listen_fd)) [
      | inl same ↦ ap (λ n. opened n k0) ((==_iff d listen_fd).0 same) ∙ l.0
      | inr other ↦ elim (Bool-cases (d == epoll_fd)) [
        | inl same ↦
            ap (λ n. opened n k0) ((==_iff d epoll_fd).0 same)
            ∙ right _ _ (sym (l.1 epoll_fd) ∙ e.0)
        | inr other2 ↦
            right _ _
              (right _ _ (held-All others d (keys s.connections) (rw (other, other2) at h) r.apart))
      ]
    ]

    cleaned-Same : Same opened k0 (server_cleanup os s)
    cleaned-Same d =
        server_cleanup-closes os laws.fds s d
        ∙ ap₂ (λ a b. not a && b) (owns_lem d) (r.exact d)
        ∙ balance (d == listen_fd) (d == epoll_fd) (held d (keys s.connections)) (opened d k0)
            (owned-closed d)

  failed-Same :
      (s : Server K) (k1 : K)
      → Opened opened s.listen_fd k0 s.kernel
      → s.connections ≡ []
      → Same opened s.kernel k1
      → Same opened k0 (
          server_cleanup os (record s {
            epoll_fd = no_fd;
            listen_fd = no_fd;
            kernel = run_call os (close s.listen_fd) k1;
          }))
  failed-Same s k1 l empty same d =
      let k2 = run_call os (close s.listen_fd) k1 in
      let s1 = record s { epoll_fd = no_fd; listen_fd = no_fd; kernel = k2 } in
      server_cleanup-closes os laws.fds s1 d
      ∙ ap (λ cs. not (held_by_any d cs) && opened d k2) empty
      ∙ closed-Same opened s.listen_fd k0 (Opened-Same opened s.listen_fd l same)
          (laws.fds.closed k1 s.listen_fd) d

  started-Same :
      (n : ℕ) (s : Server K) (epoll_fd : ℕ) (k2 : K)
      → Opened opened s.listen_fd k0 s.kernel
      → s.connections ≡ []
      → Opened opened epoll_fd s.kernel k2
      → Same opened k0
          (server_cleanup os (loop_rounds os n (record s { epoll_fd = epoll_fd; kernel = k2 })).1)
  started-Same n s epoll_fd k2 l empty e =
      let s1 = record s { epoll_fd = epoll_fd; kernel = k2 } in
      let after = around s.listen_fd epoll_fd in
      let first =
        subst (λ cs. Registered opened after.others cs k2) (sym empty)
          (first-Registered s.listen_fd epoll_fd s.kernel k2 l e) in
      cleaned-Same (loop_rounds os n s1).1 s.listen_fd epoll_fd s.kernel k2 l e
        (loop_rounds-Fixes os n s1) (loop_rounds-Registered os after n s1 first)

  epoll-NoLeak :
      (s : Server K) → NoLeak opened s.kernel (create_epoll os s.listen_fd stdin_fileno s.kernel)
  unfolding create_epoll
  epoll-NoLeak s = create_epoll-NoLeak os laws.fds s.listen_fd stdin_fileno epollin s.kernel

  -- If the event loop of the server has ended, with all cleaned up, then the descriptors are open
  -- that were open before its listening socket was.
  pub server_event_loop-Same :
      (n : ℕ) (s : Server K) {k1 : K}
      → Opened opened s.listen_fd k0 s.kernel
      → s.connections ≡ []
      → server_event_loop os n s ≡ some k1
      → Same opened k0 k1
  server_event_loop-Same n s l empty ended =
      let (created, k2) = create_epoll os s.listen_fd stdin_fileno s.kernel in
      let made = epoll-NoLeak s in
      elim (Option-cases created) [
        | inl e ↦
            subst (Same opened k0)
              (some-eq (sym (loop_failed os n s _ (start_none os s e)) ∙ ended))
              (failed-Same s k2 l empty (rw e at made))
        | inr (epoll_fd, e) ↦
            let s1 = record s { epoll_fd = epoll_fd; kernel = k2 } in
            elim (Bool-cases (loop_rounds os n s1).0) [
              | inl running ↦
                  cc (sym (loop_started os n s s1 (start_some os s epoll_fd e)) ∙ ended, running)
              | inr stopped ↦
                  subst (Same opened k0)
                    (some-eq (
                      sym (rw stopped at (loop_started os n s s1 (start_some os s epoll_fd e)))
                      ∙ ended))
                    (started-Same n s epoll_fd k2 l empty (rw e at made))
            ]
      ]
