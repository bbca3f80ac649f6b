-- ===== src/Server/Failure/Removal.antt =====
-- A member whose socket fails for good on reading: what src/server/server.cpp does with it.
use event_driven_tcp_chatroo.Base.{
  ℕ, ◌≡◌, ◌≢◌, refl, sym, ap, ap₂, ◌∙◌, Bool, true, false, not, ◌&&◌, inl, inr, none, some, List,
  [], ◌∷◌, Bytes, All, arith, ◌==◌, ==_refl, ==_iff, if◌then◌else◌, Bool-cases, subst,
}
use event_driven_tcp_chatroo.Os.{Os, Event, Errno, recv_error, epoll_ctl, ctl_del}
use event_driven_tcp_chatroo.Connection.{Connection, no_fd, is_active, connection_cleanup}
use event_driven_tcp_chatroo.Connection.Read.{chunked, IsFatal, fatal-try_later, ends_well}
use event_driven_tcp_chatroo.Epoll.{readable, any_of, epoll_fd_remove, epoll_update}
use event_driven_tcp_chatroo.Server.{Server, find_fd, erase_address}
use event_driven_tcp_chatroo.Server.Loop.{handle_event}
use event_driven_tcp_chatroo.Server.Cleanup.{holds, connection_cleanup_lem}
use event_driven_tcp_chatroo.Server.Lookup.{find_fd-All}
use event_driven_tcp_chatroo.Server.Registry.{keys, DistinctKeys, DistinctKeys-DistinctFds}
use event_driven_tcp_chatroo.Server.Registry.Owned.{ServerLaws}
use event_driven_tcp_chatroo.Server.Closing.Weight.{apart}
use event_driven_tcp_chatroo.Server.Closing.Events.{sendable, recached}
use event_driven_tcp_chatroo.Server.Failure.{read_package-failed}
use event_driven_tcp_chatroo.Server.Failure.Events.{event-read}

chunked-fails :
    (chunks : List Bytes) (e : Errno)
    → IsFatal e
    → ends_well (chunked chunks (recv_error e)) ≡ false
chunked-fails [] e h = fatal-try_later e h
chunked-fails (bytes ∷ chunks) e h = chunked-fails chunks e h

found-fd : (fd : ℕ) (cs : List Connection) {c : Connection} → find_fd fd cs ≡ some c → c.fd ≡ fd
found-fd fd [] h = cc h
found-fd fd (x ∷ cs) {c} h = elim (Bool-cases (x.fd == fd)) [
  | inl hit ↦
      let same : c ≡ x = ground arith in ap (λ (y : Connection). y.fd) same ∙ (==_iff x.fd fd).0 hit
  | inr miss ↦ let later : find_fd fd cs ≡ some c = ground arith in found-fd fd cs later
]

find_fd-none :
    (fd : ℕ) (cs : List Connection) → All (λ (y : Connection). y.fd ≢ fd) cs → find_fd fd cs ≡ none
find_fd-none fd [] h = refl
find_fd-none fd (x ∷ cs) h = ground (arith, h.0, find_fd-none fd cs h.1)

-- Once a connection is taken out, its descriptor finds nothing, and all others what they did.
find_fd-erase :
    (gone fd : ℕ) (cs : List Connection) {c : Connection}
    → DistinctKeys (keys cs)
    → find_fd gone cs ≡ some c
    → find_fd fd (erase_address c.address cs) ≡ (if fd == gone then none else find_fd fd cs)
find_fd-erase gone fd [] u h = cc h
find_fd-erase gone fd (x ∷ xs) {c} u h = elim (Bool-cases (x.fd == gone)) [
  | inl hit ↦
      let here : x ≡ c = ground arith in
      let fresh = (DistinctKeys-DistinctFds (x ∷ xs) u).0 in
      subst
        (λ (y : Connection).
          find_fd fd (erase_address y.address (x ∷ xs))
          ≡ (if fd == gone then none else find_fd fd (x ∷ xs)))
        here
        (rw (==_refl x.address)
          (first_gone (find_fd-none x.fd xs fresh) ((==_iff x.fd gone).0 hit)))
  | inr miss ↦
      let later : find_fd gone xs ≡ some c = ground arith in
      let other =
        find_fd-All (λ (y : Connection). y.address ≢ x.address) gone xs (apart x xs u.0) later in
      let off : (x.address == c.address) ≡ false = ground arith in
      rw off (ground (arith, find_fd-erase gone fd xs u.1 later))
]
  where
    first_gone :
        find_fd x.fd xs ≡ none
        → x.fd ≡ gone
        → find_fd fd xs ≡ (if fd == gone then none else find_fd fd (x ∷ xs))
    first_gone nothing e = elim (Bool-cases (fd == gone)) [
      | inl same ↦ rw same (ap (λ n. find_fd n xs) ((==_iff fd gone).0 same ∙ sym e) ∙ nothing)
      | inr other ↦ ground arith
    ]

module _ {K : Type 0} (os : Os K) (laws : ServerLaws os) where
  abbrev is_open : ℕ → K → Bool
  is_open = laws.fds.is_open

  holds-never :
      (fd d : ℕ) (k : K) → (not (holds d fd) && is_open d k) ≡ (not (d == fd) && is_open d k)
  holds-never fd d k = elim (Bool-cases (fd == no_fd)) [
    | inr real ↦ rw real refl
    | inl unset ↦ elim (Bool-cases (d == fd)) [
      | inr other ↦ rw (unset, other) refl
      | inl same ↦
          let closed =
            ap (λ n. is_open n k) ((==_iff d fd).0 same ∙ (==_iff fd no_fd).0 unset)
            ∙ laws.fds.never k in
          rw (unset, same) closed
    ]
  ]

  closed-after :
      (c : Connection) (epoll_fd d : ℕ) (k : K)
      → is_open d (connection_cleanup os c (epoll_fd_remove os epoll_fd c.fd 0 k).1)
        ≡ (not (d == c.fd) && is_open d k)
  unfolding epoll_fd_remove epoll_update
  closed-after c epoll_fd d k =
      let k1 = (os.call (epoll_ctl epoll_fd ctl_del c.fd 0) k).1 in
      connection_cleanup_lem os laws.fds c d k1
      ∙ holds-never c.fd d k1
      ∙ ap (λ b. not (d == c.fd) && b) (laws.fds.kept (epoll_ctl epoll_fd ctl_del c.fd 0) k d refl)

  -- For every system that keeps the stated laws (of these, those of descriptors and that `recv`
  -- opens and closes none): let no two connections of the list have one address or one descriptor,
  -- let the room be open, and let an event of reading come for an active connection whose
  -- descriptor is not the listening socket, and not also one of sending with output for it. If
  -- `recv` brings any chunks and then an error other than an interrupt and the two of an empty
  -- socket, then the loop goes on, no connection is found by this descriptor any more while every
  -- other descriptor finds the very connection that it found before, and this descriptor is closed
  -- while all others are open or closed as before.
  pub read_failure-removes :
      (s : Server K) (e : Event) (c : Connection) (chunks : List Bytes) (error : Errno)
      → DistinctKeys (keys s.connections)
      → s.closing ≡ false
      → e.fd ≢ s.listen_fd
      → find_fd e.fd s.connections ≡ some c
      → is_active c.state ≡ true
      → any_of e.events readable ≡ true
      → sendable e.events c ≡ false
      → (os.recv e.fd s.kernel).0 ≡ chunked chunks (recv_error error)
      → IsFatal error
      → let (running, s1) = handle_event os e s in
        (running ≡ true)
        × ((fd : ℕ)
            → find_fd fd s1.connections ≡ (if fd == e.fd then none else find_fd fd s.connections))
        × ((fd : ℕ) → is_open fd s1.kernel ≡ (not (fd == e.fd) && is_open fd s.kernel))
  read_failure-removes s e c chunks error u opened other found member ready idle comes fatal =
      let (x, same) = event-read os e s c opened u other found member ready idle in
      let own = found-fd e.fd s.connections found in
      let bad : ends_well (os.recv c.fd s.kernel).0 ≡ false =
        ap (λ fd. ends_well (os.recv fd s.kernel).0) own
        ∙ ap ends_well comes
        ∙ chunked-fails chunks error fatal in
      rw (same ∙ read_package-failed os c (recached x s) bad) (
        refl,
        (λ fd. find_fd-erase e.fd fd s.connections u found),
        (λ fd.
            closed-after c s.epoll_fd fd (os.recv c.fd s.kernel).1
            ∙ ap₂ (λ n b. not (fd == n) && b) own (laws.recv_kept c.fd s.kernel fd)),
      )
