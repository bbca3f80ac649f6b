-- ===== src/Server/Registry.antt =====
-- The identity of the connections of src/server/server.cpp: their addresses and descriptors, under
-- the changes to the list.
pub mod Owned
pub mod Steps
pub mod Handlers
pub mod Accept
pub mod Receive
pub mod Rounds
pub mod Fixed
pub mod Life
use event_driven_tcp_chatroo.Base.{
  ℕ, ◌≡◌, ◌≢◌, refl, sym, ap, ap₂, subst, ◌∙◌, Bool, true, false, not, ◌&&◌, ◌||◌, ◌⊎◌, inl, inr,
  List, [], ◌∷◌, ◌++◌, map, All, ◌==◌, ==_iff, if◌then◌else◌, Bool-cases, arith, some,
}
use event_driven_tcp_chatroo.Os.{Os, AcceptRun, accepted, accept_error}
use event_driven_tcp_chatroo.Connection.{Connection}
use event_driven_tcp_chatroo.Connection.Descriptors.{FdLaws, Same}
use event_driven_tcp_chatroo.Server.{Server, write_back, erase_address, get_connection_of}
use event_driven_tcp_chatroo.Server.Lookup.{DistinctFds, get_connection_of-All}

-- What tells connections apart: the address and the descriptor.
abbrev pub Key : Type 0
Key = ℕ × ℕ

abbrev pub key : Connection → Key
key c = (c.address, c.fd)

abbrev pub keys : List Connection → List Key
keys cs = map key cs

abbrev pub Differs : Key → Key → Type 0
Differs x y = (y.0 ≢ x.0) × (y.1 ≢ x.1)

abbrev pub DistinctKeys : List Key → Type 0
DistinctKeys [] = Unit
DistinctKeys (x ∷ xs) = All (Differs x) xs × DistinctKeys xs

abbrev pub Known : Key → List Key → Type 0
Known x [] = ⊥
Known x (y ∷ ys) = (y ≡ x) ⊎ Known x ys

pub Known-All {ℓ} : (P : Key → Type ℓ) (x : Key) (ys : List Key) → All P ys → Known x ys → P x
Known-All P x [] h u = absurd u
Known-All P x (y ∷ ys) h (inl e) = subst P e h.0
Known-All P x (y ∷ ys) h (inr u) = Known-All P x ys h.1 u

-- Where a list has its keys apart, an address belongs to one key.
head-Known : (x y : Key) (ys : List Key) → All (Differs y) ys → Known x (y ∷ ys) → y.0 ≡ x.0 → y ≡ x
head-Known x y ys h (inl e) same = e
head-Known x y ys h (inr u) same = absurd ((Known-All (Differs y) x ys h u).0 (sym same))

tail-Known : (x y : Key) (ys : List Key) → Known x (y ∷ ys) → y.0 ≢ x.0 → Known x ys
tail-Known x y ys (inl e) other = absurd (other (ap (λ (z : Key). z.0) e))
tail-Known x y ys (inr u) other = u

pub write_back-keys :
    (c : Connection) (cs : List Connection)
    → DistinctKeys (keys cs)
    → Known (key c) (keys cs)
    → keys (write_back c cs) ≡ keys cs
write_back-keys c [] u k = refl
write_back-keys c (d ∷ ds) u k = elim (Bool-cases (d.address == c.address)) [
  | inl hit ↦ rw hit (
      ap (λ x. x ∷ keys ds)
        (sym (head-Known (key c) (key d) (keys ds) u.0 k ((==_iff d.address c.address).0 hit))))
  | inr miss ↦ rw miss (
      ap (◌∷◌ (key d)) (
        write_back-keys c ds u.1 (tail-Known (key c) (key d) (keys ds) k (λ e. ground (arith, e)))))
]

erase-All {ℓ} :
    (P : Key → Type ℓ) (a : ℕ) (cs : List Connection)
    → All P (keys cs)
    → All P (keys (erase_address a cs))
erase-All P a [] h = tt
erase-All P a (d ∷ ds) h = elim (Bool-cases (d.address == a)) [
  | inl hit ↦ rw hit h.1
  | inr miss ↦ rw miss (h.0, erase-All P a ds h.1)
]

erase-DistinctKeys :
    (a : ℕ) (cs : List Connection)
    → DistinctKeys (keys cs)
    → DistinctKeys (keys (erase_address a cs))
erase-DistinctKeys a [] u = tt
erase-DistinctKeys a (d ∷ ds) u = elim (Bool-cases (d.address == a)) [
  | inl hit ↦ rw hit u.1
  | inr miss ↦ rw miss (erase-All (Differs (key d)) a ds u.0, erase-DistinctKeys a ds u.1)
]

-- What is left differs in its descriptor from what was erased.
erase-others :
    (c : Connection) (cs : List Connection)
    → DistinctKeys (keys cs)
    → Known (key c) (keys cs)
    → All (λ (y : Key). y.1 ≢ c.fd) (keys (erase_address c.address cs))
erase-others c [] u k = tt
erase-others c (d ∷ ds) u k = elim (Bool-cases (d.address == c.address)) [
  | inl hit ↦
      let same = head-Known (key c) (key d) (keys ds) u.0 k ((==_iff d.address c.address).0 hit) in
      rw hit (apart (keys ds) u.0 (ap (λ (z : Key). z.1) same))
  | inr miss ↦
      let later = tail-Known (key c) (key d) (keys ds) k (λ e. ground (arith, e)) in
      rw miss (
        (λ e. (Known-All (Differs (key d)) (key c) (keys ds) u.0 later).1 (sym e)),
        erase-others c ds u.1 later,
      )
]
  where
    apart :
        (ys : List Key) → All (Differs (key d)) ys → d.fd ≡ c.fd → All (λ (y : Key). y.1 ≢ c.fd) ys
    apart [] h e = tt
    apart (y ∷ ys) h e = ((λ z. h.0.1 (z ∙ sym e)), apart ys h.1 e)

pub DistinctKeys-DistinctFds : (cs : List Connection) → DistinctKeys (keys cs) → DistinctFds cs
DistinctKeys-DistinctFds [] u = tt
DistinctKeys-DistinctFds (c ∷ cs) u = (each cs u.0, DistinctKeys-DistinctFds cs u.1)
  where
    each : (ds : List Connection) → All (Differs (key c)) (keys ds) → All (λ d. d.fd ≢ c.fd) ds
    each [] h = tt
    each (d ∷ ds) h = (h.0.1, each ds h.1)

pub each-Known : (cs : List Connection) → All (λ c. Known (key c) (keys cs)) cs
each-Known [] = tt
each-Known (c ∷ cs) = (inl refl, weaken cs (each-Known cs))
  where
    weaken :
        (ds : List Connection)
        → All (λ d. Known (key d) (keys cs)) ds
        → All (λ d. Known (key d) (key c ∷ keys cs)) ds
    weaken [] h = tt
    weaken (d ∷ ds) h = (inr h.0, weaken ds h.1)

pub found-Known :
    {K : Type 0} (fd : ℕ) (s : Server K) {c : Connection}
    → (get_connection_of fd s).0 ≡ some c
    → Known (key c) (keys s.connections)
found-Known fd s e =
    get_connection_of-All fd s (λ c. Known (key c) (keys s.connections)) (each-Known s.connections)
      e
