-- ===== src/Server/Registry/Accept.antt =====
-- Addresses and descriptors of new connections in src/server/server.cpp.
use event_driven_tcp_chatroo.Base.{
  ℕ, ◌≡◌, ◌≢◌, refl, sym, ap, ◌∙◌, Bool, true, false, inl, inr, List, [], ◌∷◌, ◌++◌, map, All,
  Bool-cases, arith, ◌==◌, ◌||◌, ◌&&◌, not, ==_iff, if◌then◌else◌,
}
use event_driven_tcp_chatroo.Os.{
  Os, AcceptRun, accepted, accept_error, epoll_ctl, ctl_add, close, run_call,
}
use event_driven_tcp_chatroo.Connection.{Connection, connection_cleanup, no_fd}
use event_driven_tcp_chatroo.Connection.Descriptors.{Opened, closed-Same}
use event_driven_tcp_chatroo.Epoll.{watch_read, epoll_register, epoll_fd_add, epoll_update}
use event_driven_tcp_chatroo.Server.{Server}
use event_driven_tcp_chatroo.Server.Accept.{
  pop_back, admit, accept_loop, handle_accept_client_connection_event,
}
use event_driven_tcp_chatroo.Server.Registry.{Key, key, keys, Differs, DistinctKeys}
use event_driven_tcp_chatroo.Server.Registry.Owned.{
  ServerLaws, IsAcceptRun, held, Registered, Steady-Registered,
}
use event_driven_tcp_chatroo.Server.Registry.Handlers.{Reg, Keeps}

append-All {ℓ} :
    (P : Key → Type ℓ) (cs : List Connection) (c : Connection)
    → All P (keys cs)
    → P (key c)
    → All P (keys (cs ++ c ∷ []))
append-All P [] c h p = (p, tt)
append-All P (d ∷ ds) c h p = (h.0, append-All P ds c h.1 p)

append-DistinctKeys :
    (cs : List Connection) (c : Connection)
    → DistinctKeys (keys cs)
    → All (λ y. Differs y (key c)) (keys cs)
    → DistinctKeys (keys (cs ++ c ∷ []))
append-DistinctKeys [] c u h = (tt, tt)
append-DistinctKeys (d ∷ ds) c u h =
    (append-All (Differs (key d)) ds c u.0 h.0, append-DistinctKeys ds c u.1 h.1)

pop_back-append : (cs : List Connection) (c : Connection) → pop_back (cs ++ c ∷ []) ≡ cs
pop_back-append [] c = refl
pop_back-append (d ∷ []) c = refl
pop_back-append (d ∷ e ∷ ds) c = ap (◌∷◌ d) (pop_back-append (e ∷ ds) c)

module _ {K : Type 0} (is_open : ℕ → K → Bool) where
  apart :
      (a fd : ℕ) (cs : List Connection) (k : K)
      → is_open fd k ≡ false
      → All (λ b. b ≢ a) (map (λ c. c.address) cs)
      → All (λ (x : Key). is_open x.1 k ≡ true) (keys cs)
      → All (λ (y : Key). Differs y (a, fd)) (keys cs)
  apart a fd [] k f h o = tt
  apart a fd (c ∷ cs) k f h o =
      (((λ e. h.0 (sym e)), (λ e. cc (f, o.0, e))), apart a fd cs k f h.1 o.1)

  still-open :
      (fd : ℕ) (xs : List Key) (k k1 : K)
      → is_open fd k ≡ false
      → ((d : ℕ) → d ≢ fd → is_open d k1 ≡ is_open d k)
      → All (λ (x : Key). is_open x.1 k ≡ true) xs
      → All (λ (x : Key). is_open x.1 k1 ≡ true) xs
  still-open fd [] k k1 f others o = tt
  still-open fd (x ∷ xs) k k1 f others o =
      (others x.1 (λ e. cc (f, o.0, e)) ∙ o.0, still-open fd xs k k1 f others o.1)

held-append :
    (d : ℕ) (cs : List Connection) (c : Connection)
    → held d (keys (cs ++ c ∷ [])) ≡ (d == c.fd || held d (keys cs))
held-append d [] c = refl
held-append d (x ∷ xs) c = ground (arith, held-append d xs c)

module _ {K : Type 0} (os : Os K) (laws : ServerLaws os) where
  admitted-fds :
      (fd : ℕ) (k : K) (s : Server K) (d : ℕ)
      → laws.fds.is_open d (admit os fd k s).1.kernel ≡ laws.fds.is_open d k
  unfolding admit epoll_register epoll_fd_add epoll_update
  admitted-fds fd k s d =
      laws.fds.kept (epoll_ctl s.epoll_fd ctl_add fd watch_read) _ d refl
      ∙ laws.fds.address_kept (map (λ c. c.address) s.connections) k d

  others-open :
      (fd : ℕ) (k : K) (s : Server K) (d : ℕ)
      → Opened laws.fds.is_open fd s.kernel k
      → d ≢ fd
      → laws.fds.is_open d (admit os fd k s).1.kernel ≡ laws.fds.is_open d s.kernel
  others-open fd k s d o other =
      let off : (d == fd) ≡ false = ground arith in admitted-fds fd k s d ∙ o.1 d ∙ rw off

  admit-Registered :
      (fd : ℕ) (k : K) (s : Server K)
      → Opened laws.fds.is_open fd s.kernel k
      → Reg os laws s
      → Reg os laws (admit os fd k s).1
  unfolding admit
  admit-Registered fd k s o r =
      let c = (admit os fd k s).0.0 in
      let k2 = (admit os fd k s).1.kernel in
      let own : (fd == fd) ≡ true = ground arith in
      let fresh =
        apart laws.fds.is_open c.address fd s.connections s.kernel o.0
          (laws.new_address (map (λ c. c.address) s.connections) k) r.are_open in
      record {
        exact = λ d.
            admitted-fds fd k s d
            ∙ o.1 d
            ∙ ap (λ b. d == fd || b) (r.exact d)
            ∙ or_assoc (d == fd) (held d (keys s.connections)) (laws.others d)
            ∙ ap (λ b. b || laws.others d) (sym (held-append d s.connections c));
        apart =
            append-All (λ (x : Key). laws.others x.1 ≡ false) s.connections c r.apart
              (foreign (held fd (keys s.connections)) (laws.others fd) (sym (r.exact fd) ∙ o.0));
        distinct = append-DistinctKeys s.connections c r.distinct fresh;
        are_open =
            append-All (λ (x : Key). laws.fds.is_open x.1 k2 ≡ true) s.connections c
              (still-open laws.fds.is_open fd (keys s.connections) s.kernel k2 o.0
                (λ d. others-open fd k s d o) r.are_open)
              (admitted-fds fd k s fd ∙ o.1 fd ∙ rw own);
      }
    where
      or_assoc : (a b x : Bool) → (a || (b || x)) ≡ ((a || b) || x)
      or_assoc a b x = ground arith

      foreign : (b x : Bool) → (b || x) ≡ false → x ≡ false
      foreign b x h = ground arith

  -- The new connection is given up again.
  withdrawn-Registered :
      (fd : ℕ) (k : K) (s : Server K)
      → Opened laws.fds.is_open fd s.kernel k
      → Reg os laws s
      → let ((c, ok), s1) = admit os fd k s in
        Registered laws.fds.is_open laws.others
          (pop_back s1.connections)
          (connection_cleanup os c s1.kernel)
  unfolding admit connection_cleanup
  withdrawn-Registered fd k s o r =
      let c = (admit os fd k s).0.0 in
      let k2 = (admit os fd k s).1.kernel in
      rw (pop_back-append s.connections c) (
        Steady-Registered laws.fds.is_open
          (record {
            same_keys = refl;
            same_fds =
                closed-Same laws.fds.is_open fd s.kernel (o.0, λ d. admitted-fds fd k s d ∙ o.1 d)
                  (closes (fd == no_fd) refl);
          })
          r)
    where
      k2 : K
      k2 = (admit os fd k s).1.kernel

      own : laws.fds.is_open fd k2 ≡ true
      own = admitted-fds fd k s fd ∙ o.1 fd ∙ ground arith

      closes :
          (b : Bool)
          → (fd == no_fd) ≡ b
          → (d : ℕ)
          → laws.fds.is_open d (if b then k2 else run_call os (close fd) k2)
            ≡ (not (d == fd) && laws.fds.is_open d k2)
      closes true e d = absurd (cc (laws.fds.never k2, own, (==_iff fd no_fd).0 e))
      closes false e d = laws.fds.closed k2 fd d

  accept_loop-Reg :
      (run : AcceptRun K) (s : Server K)
      → IsAcceptRun laws.fds.is_open s.kernel run
      → Reg os laws s
      → Reg os laws (accept_loop os run s).1
  unfolding accept_loop
  accept_loop-Reg (accept_error e k) s a r =
      Steady-Registered laws.fds.is_open (record { same_keys = refl; same_fds = a }) r
  accept_loop-Reg (accepted fd k next) s a r = elim (Bool-cases (admit os fd k s).0.1) [
    | inl ok ↦
        let s1 = (admit os fd k s).1 in
        rw (accept_loop, ok)
          (accept_loop-Reg (next s1.kernel) s1 (a.1 s1.kernel) (admit-Registered fd k s a.0 r))
    | inr bad ↦ rw (accept_loop, bad) (withdrawn-Registered fd k s a.0 r)
  ]

  pub accept-Keeps : Keeps os laws (handle_accept_client_connection_event os)
  unfolding handle_accept_client_connection_event
  accept-Keeps s h =
      accept_loop-Reg (os.accept s.listen_fd s.kernel) s (laws.accepts s.listen_fd s.kernel) h
