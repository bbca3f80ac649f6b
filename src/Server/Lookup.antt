-- ===== src/Server/Lookup.antt =====
-- `get_connection_of` of src/server/server.cpp: what its cache of one pointer may hold, and what
-- the list of connections keeps under the changes that the handlers make to it.
use event_driven_tcp_chatroo.Base.{
  ℕ, ◌≡◌, ◌≢◌, subst, none, some, ◌⊎◌, inl, inr, List, [], ◌∷◌, All, arith, ◌==◌, ==_refl,
  Bool-cases, Option-cases,
}
use event_driven_tcp_chatroo.Connection.{Connection}
use event_driven_tcp_chatroo.Server.{
  Server, find_address, find_fd, write_back, erase_address, search_connection, get_connection_of,
}

-- No two connections have one descriptor.
abbrev pub DistinctFds : List Connection → Type 0
DistinctFds [] = Unit
DistinctFds (c ∷ cs) = All (λ d. d.fd ≢ c.fd) cs × DistinctFds cs

find_address-All {ℓ} :
    (P : Connection → Type ℓ) (a : ℕ) (cs : List Connection) {c : Connection}
    → All P cs
    → find_address a cs ≡ some c
    → P c
find_address-All P a [] h e = cc
find_address-All P a (d ∷ cs) {c} h e = elim (Bool-cases (d.address == a)) [
  | inl hit ↦ let same : d ≡ c = ground arith in subst P same h.0
  | inr miss ↦ find_address-All P a cs h.1 (ground arith)
]

pub find_fd-All {ℓ} :
    (P : Connection → Type ℓ) (fd : ℕ) (cs : List Connection) {c : Connection}
    → All P cs
    → find_fd fd cs ≡ some c
    → P c
find_fd-All P fd [] h e = cc
find_fd-All P fd (d ∷ cs) {c} h e = elim (Bool-cases (d.fd == fd)) [
  | inl hit ↦ let same : d ≡ c = ground arith in subst P same h.0
  | inr miss ↦ find_fd-All P fd cs h.1 (ground arith)
]

pub write_back-All {ℓ} :
    (P : Connection → Type ℓ) (c : Connection) (cs : List Connection)
    → P c
    → All P cs
    → All P (write_back c cs)
write_back-All P c [] p h = tt
write_back-All P c (d ∷ ds) p h = elim (Bool-cases (d.address == c.address)) [
  | inl hit ↦ rw hit (p, h.1)
  | inr miss ↦ rw miss (h.0, write_back-All P c ds p h.1)
]

pub erase_address-All {ℓ} :
    (P : Connection → Type ℓ) (a : ℕ) (cs : List Connection) → All P cs → All P (erase_address a cs)
erase_address-All P a [] h = tt
erase_address-All P a (d ∷ ds) h = elim (Bool-cases (d.address == a)) [
  | inl hit ↦ rw hit h.1
  | inr miss ↦ rw miss (h.0, erase_address-All P a ds h.1)
]

-- What is found by its address is also the one that its descriptor finds.
find_address-find_fd :
    (a : ℕ) (cs : List Connection) {c : Connection}
    → DistinctFds cs
    → find_address a cs ≡ some c
    → find_fd c.fd cs ≡ some c
find_address-find_fd a [] d e = cc
find_address-find_fd a (x ∷ cs) {c} d e = elim (Bool-cases (x.address == a)) [
  | inl hit ↦ let same : x ≡ c = ground arith in rw same (rw ==_refl)
  | inr miss ↦
      let found : find_address a cs ≡ some c = ground arith in
      let other : c.fd ≢ x.fd = find_address-All (λ y. y.fd ≢ x.fd) a cs d.0 found in
      ground (arith, find_address-find_fd a cs d.1 found)
]

module _ {K : Type 0} (fd : ℕ) (s : Server K) where
  search_connection-found : (s : Server K) → (search_connection fd s).0 ≡ find_fd fd s.connections
  search_connection-found s = ground arith

  -- The look-up changes the cache only.
  pub get_connection_of-same :
      (get_connection_of fd s).1 ≡ record s { cached = (get_connection_of fd s).1.cached }
  unfolding get_connection_of
  get_connection_of-same = ground arith

  -- If no two connections of the list have one descriptor, then the look-up with its cached
  -- pointer, whatever the cache holds (also an address that is no longer in the list), returns what
  -- a search of the list by the descriptor returns.
  pub get_connection_of-eq-find_fd :
      DistinctFds s.connections → (get_connection_of fd s).0 ≡ find_fd fd s.connections
  unfolding get_connection_of
  get_connection_of-eq-find_fd d = elim (Option-cases s.cached) [
    | inl e ↦ rw (get_connection_of, e) (search_connection-found s)
    | inr (a, e) ↦ elim (Option-cases (find_address a s.connections)) [
      | inl gone ↦
          rw (get_connection_of, e, gone) (search_connection-found (record s { cached = none }))
      | inr (c, found) ↦
          rw (get_connection_of, e, found)
            (ground (
              arith,
              search_connection-found (record s { cached = none }),
              find_address-find_fd a s.connections d found,
            ))
    ]
  ]

  -- What the look-up finds, it has found by the descriptor or by the cached address.
  found_by :
      {c : Connection}
      → (get_connection_of fd s).0 ≡ some c
      → (find_fd fd s.connections ≡ some c) ⊎ ((a : ℕ) × (find_address a s.connections ≡ some c))
  unfolding get_connection_of
  found_by {c} found = elim (Option-cases s.cached) [
    | inl e ↦ inl (ground arith)
    | inr (a, e) ↦
        let either : (find_fd fd s.connections ≡ some c) ⊎ (find_address a s.connections ≡ some c) =
          ground arith in
        elim either [ inl by_fd ↦ inl by_fd | inr by_address ↦ inr (a, by_address) ]
  ]

  pub get_connection_of-All {ℓ} :
      (P : Connection → Type ℓ) {c : Connection}
      → All P s.connections
      → (get_connection_of fd s).0 ≡ some c
      → P c
  get_connection_of-All P h found = elim (found_by found) [
    | inl by_fd ↦ find_fd-All P fd s.connections h by_fd
    | inr (a, by_address) ↦ find_address-All P a s.connections h by_address
  ]
