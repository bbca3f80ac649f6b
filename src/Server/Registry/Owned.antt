-- ===== src/Server/Registry/Owned.antt =====
-- The descriptors that the connections of src/server/server.cpp own, under changes to the list.
use event_driven_tcp_chatroo.Base.{
  ℕ, ◌≡◌, ◌≢◌, refl, sym, ap, subst, ◌∙◌, Bool, true, false, not, ◌&&◌, ◌||◌, ==_iff, inl, inr,
  List, [], ◌∷◌, All, ◌==◌, Bool-cases, arith,
}
use event_driven_tcp_chatroo.Os.{Os, AcceptRun, accepted, accept_error}
use event_driven_tcp_chatroo.Connection.{Connection}
use event_driven_tcp_chatroo.Connection.Descriptors.{FdLaws, Same, Opened}
use event_driven_tcp_chatroo.Server.{write_back, erase_address}
use event_driven_tcp_chatroo.Server.Registry.{
  Key, key, keys, DistinctKeys, Known, Known-All, Differs, head-Known, tail-Known, write_back-keys,
  erase-All, erase-DistinctKeys, erase-others,
}

-- What a run of `accept` from a state does to the open descriptors: each success opens a new one.
abbrev pub IsAcceptRun : {K : Type 0} → (ℕ → K → Bool) → K → AcceptRun K → Type 0
IsAcceptRun is_open k (accept_error e k1) = Same is_open k k1
IsAcceptRun is_open k (accepted fd k1 next) =
    Opened is_open fd k k1 × ((k2 : _) → IsAcceptRun is_open k2 (next k2))

-- What the server relies on beyond the laws of descriptors; a new object has an address of its own.
pub record ServerLaws {K : Type 0} (os : Os K) : Type 0 where
  pub fds : FdLaws os
  -- The descriptors that are open, but not for a connection.
  pub others : ℕ → Bool
  pub recv_kept : (fd : ℕ) (k : K) → Same fds.is_open k (os.recv fd k).1
  pub wait_kept : (fd : ℕ) (k : K) → Same fds.is_open k (os.epoll_wait fd k).1
  pub line_kept : (k : K) → Same fds.is_open k (os.getline k).1
  pub accepts : (fd : ℕ) (k : K) → IsAcceptRun fds.is_open k (os.accept fd k)
  pub new_address : (used : List ℕ) (k : K) → All (λ a. a ≢ (os.new_address used k).0) used

-- Whether one of the keys has the descriptor.
abbrev pub held : ℕ → List Key → Bool
held d [] = false
held d (x ∷ xs) = d == x.1 || held d xs

not-held : (fd : ℕ) (xs : List Key) → All (λ (x : Key). x.1 ≢ fd) xs → held fd xs ≡ false
not-held fd [] h = refl
not-held fd (x ∷ xs) h = ground (arith, not-held fd xs h.1, h.0)

-- What is taken out of the list is the one key with that descriptor.
erase-held :
    (c : Connection) (cs : List Connection) (d : ℕ)
    → DistinctKeys (keys cs)
    → Known (key c) (keys cs)
    → held d (keys (erase_address c.address cs)) ≡ (not (d == c.fd) && held d (keys cs))
erase-held c [] d u known = ground arith
erase-held c (x ∷ xs) d u known = elim (Bool-cases (x.address == c.address)) [
  | inl hit ↦
      let same =
        ap (λ (z : Key). z.1)
          (head-Known (key c) (key x) (keys xs) u.0 known ((==_iff x.address c.address).0 hit)) in
      let gone = not-held c.fd (keys xs) (rw hit at (erase-others c (x ∷ xs) u known)) in
      rw hit (taken d (held d (keys xs)) same (λ e. ap (λ n. held n (keys xs)) e ∙ gone))
  | inr miss ↦
      let later = tail-Known (key c) (key x) (keys xs) known (λ e. ground (arith, e)) in
      let other = (Known-All (Differs (key x)) (key c) (keys xs) u.0 later).1 in
      rw miss (left d (held d (keys xs)) other (erase-held c xs d u.1 later))
]
  where
    taken :
        (d : ℕ) (h : Bool)
        → x.fd ≡ c.fd
        → (d ≡ c.fd → h ≡ false)
        → h ≡ (not (d == c.fd) && (d == x.fd || h))
    taken d h same gone = ground arith

    left :
        (d : ℕ) (h : Bool) {h1 : Bool}
        → c.fd ≢ x.fd
        → h1 ≡ (not (d == c.fd) && h)
        → (d == x.fd || h1) ≡ (not (d == c.fd) && (d == x.fd || h))
    left d h other e = ground arith

module _ {K : Type 0} (is_open : ℕ → K → Bool) where
  -- The connections are told apart, their descriptors are open, and besides these exactly the
  -- others are open.
  pub record Registered (others : ℕ → Bool) (cs : List Connection) (k : K) : Type 0 where
    pub distinct : DistinctKeys (keys cs)
    pub are_open : All (λ (x : Key). is_open x.1 k ≡ true) (keys cs)
    pub exact : (d : ℕ) → is_open d k ≡ (held d (keys cs) || others d)
    pub apart : All (λ (x : Key). others x.1 ≡ false) (keys cs)

  -- The same connections with the same open descriptors.
  pub record Steady (cs : List Connection) (k : K) (cs1 : List Connection) (k1 : K) : Type 0 where
    pub same_keys : keys cs1 ≡ keys cs
    pub same_fds : Same is_open k k1

  pub Steady-trans :
      {cs cs1 cs2 : List Connection} {k k1 k2 : K}
      → Steady cs k cs1 k1
      → Steady cs1 k1 cs2 k2
      → Steady cs k cs2 k2
  Steady-trans a b = record {
    same_keys = b.same_keys ∙ a.same_keys;
    same_fds = λ d. b.same_fds d ∙ a.same_fds d;
  }

  are_open-Same :
      (k k1 : K) (xs : List Key)
      → Same is_open k k1
      → All (λ (x : Key). is_open x.1 k ≡ true) xs
      → All (λ (x : Key). is_open x.1 k1 ≡ true) xs
  are_open-Same k k1 [] same h = tt
  are_open-Same k k1 (x ∷ xs) same h = (same x.1 ∙ h.0, are_open-Same k k1 xs same h.1)

  pub Steady-Registered :
      {others : ℕ → Bool} {cs cs1 : List Connection} {k k1 : K}
      → Steady cs k cs1 k1
      → Registered others cs k
      → Registered others cs1 k1
  Steady-Registered {others} {cs} {cs1} {k} {k1} st r = record {
    exact = λ d. st.same_fds d ∙ r.exact d ∙ ap (λ xs. held d xs || others d) (sym st.same_keys);
    apart = rw st.same_keys r.apart;
    distinct = rw st.same_keys r.distinct;
    are_open = rw st.same_keys (are_open-Same k k1 (keys cs) st.same_fds r.are_open);
  }

  pub write_back-Steady :
      {others : ℕ → Bool} (c : Connection) (cs : List Connection) (k k1 : K)
      → Registered others cs k
      → Known (key c) (keys cs)
      → Same is_open k k1
      → Steady cs k (write_back c cs) k1
  write_back-Steady c cs k k1 r known same = record {
    same_keys = write_back-keys c cs r.distinct known;
    same_fds = same;
  }

  pub Known-Steady :
      (x : Key) {cs cs1 : List Connection} {k k1 : K}
      → Steady cs k cs1 k1
      → Known x (keys cs)
      → Known x (keys cs1)
  Known-Steady x st h = subst (Known x) (sym st.same_keys) h

  erased-open :
      (xs : List Key) (fd : ℕ) (k k1 : K)
      → ((d : ℕ) → d ≢ fd → is_open d k1 ≡ is_open d k)
      → All (λ (x : Key). x.1 ≢ fd) xs
      → All (λ (x : Key). is_open x.1 k ≡ true) xs
      → All (λ (x : Key). is_open x.1 k1 ≡ true) xs
  erased-open [] fd k k1 others apart h = tt
  erased-open (x ∷ xs) fd k k1 others apart h =
      (others x.1 apart.0 ∙ h.0, erased-open xs fd k k1 others apart.1 h.1)

  pub erase-Registered :
      {others : ℕ → Bool} (c : Connection) (cs : List Connection) (k k1 : K)
      → Registered others cs k
      → Known (key c) (keys cs)
      → ((d : ℕ) → is_open d k1 ≡ (not (d == c.fd) && is_open d k))
      → Registered others (erase_address c.address cs) k1
  erase-Registered {others} c cs k k1 r known closed = record {
    exact = λ d.
        closed d
        ∙ ap (λ b. not (d == c.fd) && b) (r.exact d)
        ∙ spread (not (d == c.fd)) (held d (keys cs)) (others d) (foreign d)
        ∙ ap (λ b. b || others d) (sym (erase-held c cs d r.distinct known));
    apart = erase-All (λ (x : Key). others x.1 ≡ false) c.address cs r.apart;
    distinct = erase-DistinctKeys c.address cs r.distinct;
    are_open =
        erased-open (keys (erase_address c.address cs)) c.fd k k1 others_kept
          (erase-others c cs r.distinct known)
          (erase-All (λ (x : Key). is_open x.1 k ≡ true) c.address cs r.are_open);
  }
    where
      spread : (a b x : Bool) → (x ≡ true → a ≡ true) → (a && (b || x)) ≡ ((a && b) || x)
      spread a b x h = ground arith

      others_kept : (d : ℕ) → d ≢ c.fd → is_open d k1 ≡ is_open d k
      others_kept d other = let off : (d == c.fd) ≡ false = ground arith in closed d ∙ rw off

      foreign : (d : ℕ) → others d ≡ true → not (d == c.fd) ≡ true
      foreign d h = elim (Bool-cases (d == c.fd)) [
        | inr off ↦ rw off
        | inl same ↦
            let none_there =
              Known-All (λ (x : Key). others x.1 ≡ false) (key c) (keys cs) r.apart known in
            absurd (cc (none_there, h, (==_iff d c.fd).0 same))
      ]
