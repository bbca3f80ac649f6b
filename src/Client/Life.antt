-- ===== src/Client/Life.antt =====
-- The open descriptors over a whole run of the client: `client_event_loop` of src/client/client.cpp
-- from its set-up to its clean-up.
use event_driven_tcp_chatroo.Base.{
  ℕ, ◌≡◌, sym, ap, ap₂, ◌∙◌, Bool, true, false, not, ◌&&◌, ◌||◌, inl, inr, none, some, ◌==◌, ==_iff,
  Bool-cases, Option-cases, subst, if◌then◌else◌, arith,
}
use event_driven_tcp_chatroo.Os.{Os}
use event_driven_tcp_chatroo.Connection.{no_fd, connection_cleanup}
use event_driven_tcp_chatroo.Connection.Descriptors.{Same, Opened, NoLeak, closed-Same, Opened-Same}
use event_driven_tcp_chatroo.Epoll.{create_epoll_for_connection, initial_socket_events}
use event_driven_tcp_chatroo.Epoll.Instance.{create_epoll-NoLeak}
use event_driven_tcp_chatroo.Server.Input.{stdin_fileno}
use event_driven_tcp_chatroo.Server.Cleanup.{holds, close_fd_lem, connection_cleanup_lem}
use event_driven_tcp_chatroo.Server.Registry.Owned.{ServerLaws}
use event_driven_tcp_chatroo.Server.Registry.Life.{open-holds, some-eq}
use event_driven_tcp_chatroo.Client.{Client}
use event_driven_tcp_chatroo.Client.Loop.{
  greet, start_loop, loop_rounds, client_cleanup, client_event_loop,
}
use event_driven_tcp_chatroo.Client.Fixed.{Stays, Stays-trans, loop_rounds-Kept, greet-Kept}

module _ {K : Type 0} (os : Os K) where
  start_none :
      (s : Client K)
      → (create_epoll_for_connection os s.conn stdin_fileno s.kernel).0 ≡ none
      → start_loop os s ≡ (
        false,
        record s { kernel = (create_epoll_for_connection os s.conn stdin_fileno s.kernel).1 },
      )
  unfolding start_loop
  start_none s e = rw (start_loop, e)

  start_some :
      (s : Client K) (epoll_fd : ℕ)
      → (create_epoll_for_connection os s.conn stdin_fileno s.kernel).0 ≡ some epoll_fd
      → start_loop os s
        ≡ greet os (record s {
          epoll_fd = epoll_fd;
          kernel = (create_epoll_for_connection os s.conn stdin_fileno s.kernel).1;
        })
  unfolding start_loop
  start_some s epoll_fd e = rw (start_loop, e)

  loop_failed :
      (n : ℕ) (s s1 : Client K)
      → start_loop os s ≡ (false, s1)
      → client_event_loop os n s ≡ some (client_cleanup os s1)
  unfolding client_event_loop
  loop_failed n s s1 h = rw h

  loop_started :
      (n : ℕ) (s s1 : Client K)
      → start_loop os s ≡ (true, s1)
      → client_event_loop os n s ≡ (
          let (running, s2) = loop_rounds os n s1 in
          if running then none else some (client_cleanup os s2))
  unfolding client_event_loop
  loop_started n s s1 h = rw h

-- Two descriptors, opened one after the other and closed in the same order.
balance :
    (l e x : Bool)
    → (l ≡ true → x ≡ false)
    → (e ≡ true → (l || x) ≡ false)
    → (not e && (not l && (e || (l || x)))) ≡ x
balance l e x first second = ground arith

module _ {K : Type 0} (os : Os K) (laws : ServerLaws os) (k0 : K) where
  abbrev opened : ℕ → K → Bool
  opened = laws.fds.is_open

  client_cleanup-closes :
      (s : Client K) (d : ℕ)
      → opened d (client_cleanup os s)
        ≡ (not (holds d s.epoll_fd) && (not (holds d s.conn.fd) && opened d s.kernel))
  unfolding client_cleanup
  client_cleanup-closes s d =
      close_fd_lem os laws.fds s.epoll_fd d (connection_cleanup os s.conn s.kernel)
      ∙ ap (λ b. not (holds d s.epoll_fd) && b)
          (connection_cleanup_lem os laws.fds s.conn d s.kernel)

  opened_eq : (fd d : ℕ) {k k1 : K} → Opened opened fd k k1 → (d == fd) ≡ true → opened d k ≡ false
  opened_eq fd d {k} o e = ap (λ n. opened n k) ((==_iff d fd).0 e) ∙ o.0

  opened_holds : (fd d : ℕ) {k k1 : K} → Opened opened fd k k1 → holds d fd ≡ (d == fd)
  opened_holds fd d {k} {k1} o = open-holds os laws.fds fd d k1 (o.1 fd ∙ ground arith)

  cleaned-Same :
      (s : Client K) (k1 : K)
      → Opened opened s.conn.fd k0 k1
      → Opened opened s.epoll_fd k1 s.kernel
      → Same opened k0 (client_cleanup os s)
  cleaned-Same s k1 l e d =
      client_cleanup-closes s d
      ∙ ap₂ (λ a b. not a && (not b && opened d s.kernel)) (opened_holds s.epoll_fd d e)
          (opened_holds s.conn.fd d l)
      ∙ ap (λ b. not (d == s.epoll_fd) && (not (d == s.conn.fd) && b))
          (e.1 d ∙ ap (λ b. d == s.epoll_fd || b) (l.1 d))
      ∙ balance (d == s.conn.fd) (d == s.epoll_fd) (opened d k0) (opened_eq s.conn.fd d l)
          (λ h. sym (l.1 d) ∙ opened_eq s.epoll_fd d e h)

  -- The client in its loop has the descriptors with which it came in.
  stayed-Same :
      (s s1 : Client K) (k1 : K)
      → Opened opened s.conn.fd k0 k1
      → Opened opened s.epoll_fd k1 s.kernel
      → ((d : ℕ) → Stays opened d s s1)
      → Same opened k0 (client_cleanup os s1)
  stayed-Same s s1 k1 l e stays =
      let same = sym (stays 0).0 in
      cleaned-Same s1 k1 (subst (λ (p : ℕ × ℕ). Opened opened p.0 k0 k1) same l) (
        subst (λ (p : ℕ × ℕ). Opened opened p.1 k1 s1.kernel) same
          (Opened-Same opened s.epoll_fd e (λ d. (stays d).1)))

  failed-Same :
      (s : Client K)
      → Opened opened s.conn.fd k0 s.kernel
      → s.epoll_fd ≡ no_fd
      → Same opened k0 (client_cleanup os s)
  failed-Same s l none_yet = closed-Same opened s.conn.fd k0 l (λ d.
      client_cleanup-closes s d
      ∙ ap₂ (λ a b. not (holds d a) && (not b && opened d s.kernel)) none_yet
          (opened_holds s.conn.fd d l))

  epoll-NoLeak :
      (s : Client K)
      → NoLeak opened s.kernel (create_epoll_for_connection os s.conn stdin_fileno s.kernel)
  unfolding create_epoll_for_connection
  epoll-NoLeak s =
      create_epoll-NoLeak os laws.fds s.conn.fd stdin_fileno (initial_socket_events s.conn) s.kernel

  -- The loop after the set-up of the epoll instance.
  running-Same :
      (n : ℕ) (s s1 : Client K) (k1 k2 : K)
      → Opened opened s1.conn.fd k0 k1
      → Opened opened s1.epoll_fd k1 s1.kernel
      → start_loop os s ≡ greet os s1
      → client_event_loop os n s ≡ some k2
      → Same opened k0 k2
  running-Same n s s1 k1 k2 l e started ended =
      let (ok, s2) = greet os s1 in
      let greeted = λ (d : ℕ). greet-Kept os laws d s1 in
      elim (Bool-cases ok) [
        | inr bad ↦
            subst (Same opened k0)
              (some-eq (sym (loop_failed os n s s2 (started ∙ ap (λ b. (b, s2)) bad)) ∙ ended))
              (stayed-Same s1 s2 k1 l e greeted)
        | inl good ↦
            let looped = loop_started os n s s2 (started ∙ ap (λ b. (b, s2)) good) in
            elim (Bool-cases (loop_rounds os n s2).0) [
              | inl running ↦ cc (sym looped ∙ ended, running)
              | inr stopped ↦
                  let s3 = (loop_rounds os n s2).1 in
                  subst (Same opened k0) (some-eq (sym (rw stopped at looped) ∙ ended)) (
                    stayed-Same s1 s3 k1 l e (λ d.
                      Stays-trans opened d s1 s2 s3 (greeted d) (loop_rounds-Kept os laws d n s2)))
            ]
      ]

  pub client_event_loop-Same :
      (n : ℕ) (s : Client K) {k1 : K}
      → Opened opened s.conn.fd k0 s.kernel
      → s.epoll_fd ≡ no_fd
      → client_event_loop os n s ≡ some k1
      → Same opened k0 k1
  client_event_loop-Same n s {k1} l none_yet ended =
      let (created, k2) = create_epoll_for_connection os s.conn stdin_fileno s.kernel in
      let made = epoll-NoLeak s in
      elim (Option-cases created) [
        | inl e ↦
            subst (Same opened k0)
              (some-eq (sym (loop_failed os n s _ (start_none os s e)) ∙ ended))
              (failed-Same (record s { kernel = k2 })
                (Opened-Same opened s.conn.fd l (rw e at made)) none_yet)
        | inr (epoll_fd, e) ↦
            running-Same n s (record s { epoll_fd = epoll_fd; kernel = k2 }) s.kernel k1 l
              (rw e at made) (start_some os s epoll_fd e) ended
      ]
