-- ===== src/Connection/Descriptors.antt =====
-- The table of open descriptors, for the set-up functions of src/connection/connection.cpp.
use event_driven_tcp_chatroo.Base.{
  ℕ, ◌≡◌, refl, ap, ◌∙◌, Bool, true, false, not, ◌&&◌, ◌||◌, ◌⊎◌, inl, inr, none, some, ◌==◌,
  ==_iff, Bool-cases, ◌%◌, ◌^◌, bit_or, List,
}
use event_driven_tcp_chatroo.Os.{
  Os, Errno, Reply, returned, failed, Syscall, socket, get_flags, set_flags, bind, listen, close,
  epoll_create, run_call,
}
use event_driven_tcp_chatroo.Connection.{
  no_fd, FdResult, set_nonblocking, o_nonblock, bind_and_listen,
}

-- The calls that make a descriptor, and those that leave the table of descriptors as it is.
abbrev pub opens : Syscall → Bool
opens socket = true
opens epoll_create = true
opens c = false

abbrev pub keeps : Syscall → Bool
keeps socket = false
keeps epoll_create = false
keeps (close fd) = false
keeps c = true

-- What POSIX says of them: a new descriptor is not one that was open, and `close` frees its own.
pub record FdLaws {K : Type 0} (os : Os K) : Type 0 where
  pub is_open : ℕ → K → Bool
  pub fresh :
      (c : Syscall) (k : K) (fd : ℕ)
      → opens c ≡ true
      → (os.call c k).0 ≡ returned fd
      → is_open fd k ≡ false
  pub opened :
      (c : Syscall) (k : K) (fd d : ℕ)
      → opens c ≡ true
      → (os.call c k).0 ≡ returned fd
      → is_open d (os.call c k).1 ≡ (d == fd || is_open d k)
  pub not_opened :
      (c : Syscall) (k : K) (e : Errno) (d : ℕ)
      → opens c ≡ true
      → (os.call c k).0 ≡ failed e
      → is_open d (os.call c k).1 ≡ is_open d k
  pub closed :
      (k : K) (fd d : ℕ) → is_open d (os.call (close fd) k).1 ≡ (not (d == fd) && is_open d k)
  pub kept :
      (c : Syscall) (k : K) (d : ℕ) → keeps c ≡ true → is_open d (os.call c k).1 ≡ is_open d k
  pub address_kept :
      (used : List ℕ) (k : K) (d : ℕ) → is_open d (os.new_address used k).1 ≡ is_open d k
  -- -1 is no descriptor.
  pub never : (k : K) → is_open no_fd k ≡ false

pub Reply-split : (r : Reply) → ((n : ℕ) × (r ≡ returned n)) ⊎ ((e : Errno) × (r ≡ failed e))
Reply-split (returned n) = inl (n, refl)
Reply-split (failed e) = inr (e, refl)

module _ {K : Type 0} (is_open : ℕ → K → Bool) where
  -- The same descriptors are open.
  abbrev pub Same : K → K → Type 0
  Same k k1 = (d : ℕ) → is_open d k1 ≡ is_open d k

  -- One more, and no other.
  abbrev pub Opened : ℕ → K → K → Type 0
  Opened fd k k1 = (is_open fd k ≡ false) × ((d : ℕ) → is_open d k1 ≡ (d == fd || is_open d k))

  -- A function that returns a descriptor has opened it, and one that returns -1 has none left open.
  abbrev pub NoLeak : K → FdResult K → Type 0
  NoLeak k (none, k1) = Same k k1
  NoLeak k (some fd, k1) = Opened fd k k1

  pub Opened-Same : (fd : ℕ) {k k1 k2 : K} → Opened fd k k1 → Same k1 k2 → Opened fd k k2
  Opened-Same fd o s = (o.0, λ d. s d ∙ o.1 d)

  pub closed-Same :
      (fd : ℕ) (k : K) {k1 k2 : K}
      → Opened fd k k1
      → ((d : ℕ) → is_open d k2 ≡ (not (d == fd) && is_open d k1))
      → Same k k2
  closed-Same fd k o c d = elim (Bool-cases (d == fd)) [
    | inl same ↦ c d ∙ rw (same, (ap (λ x. is_open x k) ((==_iff d fd).0 same) ∙ o.0))
    | inr other ↦ c d ∙ rw (other, o.1 d, other)
  ]

module _ {K : Type 0} (os : Os K) (laws : FdLaws os) where
  open laws use {is_open, fresh, opened, not_opened, closed, kept, address_kept}

  pub new-Opened :
      (c : Syscall) (k : K) (fd : ℕ)
      → opens c ≡ true
      → (os.call c k).0 ≡ returned fd
      → Opened is_open fd k (os.call c k).1
  new-Opened c k fd o e = (fresh c k fd o e, λ d. opened c k fd d o e)

  pub give_up-Same :
      (fd : ℕ) (k k1 : K) → Opened is_open fd k k1 → Same is_open k (run_call os (close fd) k1)
  give_up-Same fd k k1 o = closed-Same is_open fd k o (closed k1 fd)

  pub set_nonblocking-Same : (fd : ℕ) (k : K) → Same is_open k (set_nonblocking os fd k).1
  unfolding set_nonblocking
  set_nonblocking-Same fd k d = elim (Reply-split (os.call (get_flags fd) k).0) [
    | inr (e, h) ↦ rw (set_nonblocking, h) (kept (get_flags fd) k d refl)
    | inl (flags, h) ↦
        let k1 = (os.call (get_flags fd) k).1 in
        let both =
          kept (set_flags fd (bit_or flags o_nonblock)) k1 d refl ∙ kept (get_flags fd) k d refl in
        elim (Reply-split (os.call (set_flags fd (bit_or flags o_nonblock)) k1).0) [
          | inr (e, h2) ↦ rw (set_nonblocking, h, h2) both
          | inl (n, h2) ↦ rw (set_nonblocking, h, h2) both
        ]
  ]

  pub bind_and_listen-NoLeak :
      (port fd : ℕ) (k k1 : K)
      → Opened is_open fd k k1
      → NoLeak is_open k (bind_and_listen os port fd k1)
  unfolding bind_and_listen
  bind_and_listen-NoLeak port fd k k1 o =
      let k2 = (os.call (bind fd (port % 2 ^ 16)) k1).1 in
      let o2 = Opened-Same is_open fd o (λ d. kept (bind fd (port % 2 ^ 16)) k1 d refl) in
      elim (Reply-split (os.call (bind fd (port % 2 ^ 16)) k1).0) [
        | inr (e, h) ↦ rw (bind_and_listen, h) (give_up-Same fd k k2 o2)
        | inl (n, h) ↦
            let o3 = Opened-Same is_open fd o2 (λ d. kept (listen fd) k2 d refl) in
            elim (Reply-split (os.call (listen fd) k2).0) [
              | inr (e, h2) ↦ rw (bind_and_listen, h, h2) (give_up-Same fd k _ o3)
              | inl (m, h2) ↦ rw (bind_and_listen, h, h2) o3
            ]
      ]
