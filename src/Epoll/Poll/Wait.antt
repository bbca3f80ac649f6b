-- ===== src/Epoll/Poll/Wait.antt =====
-- The reports of `epoll_wait` of src/network/epoll.cpp where it is made of `poll`.
use event_driven_tcp_chatroo.Base.{
  ℕ, zero, suc, ◌≡◌, refl, ap, Bool, false, some, inl, inr, List, [], ◌∷◌, take, ◌==◌,
  if◌then◌else◌, Bool-cases, arith, bit_or,
}
use event_driven_tcp_chatroo.Os.{Event, ready}
use event_driven_tcp_chatroo.Epoll.{epollin, epollout, epollerr, epollhup, epollrdhup, any_of}
use event_driven_tcp_chatroo.Epoll.Poll.{
  PollEntry, pollin, pollpri, pollout, pollerr, pollhup, PollState, PollAnswer, polled,
  find_instance, poll_fds, epoll_wait, add_bits, epoll_events_to_poll, poll_events_to_epoll,
  collect_events,
}

-- Every pair of a descriptor and what `poll` has found for it, translated, unless it is nothing.
abbrev pub reports : List PollEntry → List ℕ → List Event
reports [] found = []
reports (e ∷ es) [] = []
reports (e ∷ es) (r ∷ rs) =
    if poll_events_to_epoll r == 0
    then reports es rs
    else record { fd = e.fd; events = poll_events_to_epoll r } ∷ reports es rs

pub collect_events-take :
    (es : List PollEntry) (found : List ℕ) (n : ℕ)
    → collect_events es found n ≡ take n (reports es found)
unfolding collect_events
collect_events-take [] found zero = refl
collect_events-take [] found (suc n) = refl
collect_events-take (e ∷ es) [] zero = refl
collect_events-take (e ∷ es) [] (suc n) = refl
collect_events-take (e ∷ es) (r ∷ rs) zero = refl
collect_events-take (e ∷ es) (r ∷ rs) (suc n) =
    ground (arith, collect_events-take es rs (suc n), collect_events-take es rs n)

-- Events translated for `poll` and back keep the bits for reading and writing as they are and hold
-- no bit of an error or a hang-up.
pub poll_events-roundtrip :
    (events : ℕ)
    → let back = poll_events_to_epoll (epoll_events_to_poll events) in
      (any_of back epollin ≡ any_of events epollin)
      × (any_of back epollout ≡ any_of events epollout)
      × (any_of back (bit_or epollerr epollhup) ≡ false)
unfolding epoll_events_to_poll poll_events_to_epoll
poll_events-roundtrip events = elim (Bool-cases (any_of events epollin)) [
  | inl i ↦ elim (Bool-cases (any_of events epollout)) [
    | inl o ↦ rw (i, o) (refl, refl, refl)
    | inr o ↦ rw (i, o) (refl, refl, refl)
  ]
  | inr i ↦ elim (Bool-cases (any_of events epollout)) [
    | inl o ↦ rw (i, o) (refl, refl, refl)
    | inr o ↦ rw (i, o) (refl, refl, refl)
  ]
]

-- The translation of the events of `poll` sets the bit for reading exactly for POLLIN or POLLPRI,
-- that for writing exactly for POLLOUT, that of an error exactly for POLLERR, and both bits of a
-- hang-up exactly for POLLHUP.
pub poll_events_to_epoll-bits :
    (events : ℕ)
    → let given = poll_events_to_epoll events in
      (any_of given epollin ≡ any_of events (bit_or pollin pollpri))
      × (any_of given epollout ≡ any_of events pollout)
      × (any_of given epollerr ≡ any_of events pollerr)
      × (any_of given epollhup ≡ any_of events pollhup)
      × (any_of given epollrdhup ≡ any_of events pollhup)
unfolding poll_events_to_epoll
poll_events_to_epoll-bits events =
    by_cases (any_of events (bit_or pollin pollpri)) (any_of events pollout) (any_of events pollerr)
      (any_of events pollhup)
  where
    by_cases :
        (i o e h : Bool)
        → let given =
            add_bits h
              (bit_or epollhup epollrdhup)
              (add_bits e epollerr (add_bits o epollout (add_bits i epollin 0))) in
          (any_of given epollin ≡ i)
          × (any_of given epollout ≡ o)
          × (any_of given epollerr ≡ e)
          × (any_of given epollhup ≡ h)
          × (any_of given epollrdhup ≡ h)
    by_cases i o e h = ground arith

-- On an existing instance, if `poll` has found events, then `epoll_wait` reports, in the order of
-- the list and up to the size of the array, each watched descriptor for which the events translate
-- to a mask other than 0, with this mask.
pub epoll_wait_lem :
    {K : Type 0} (poll : List (ℕ × ℕ) → K → PollAnswer × K) (epoll_fd n : ℕ) (s : PollState) (k : K)
    (entries : List PollEntry) (found : List ℕ)
    → find_instance epoll_fd s.instances ≡ some entries
    → (poll (poll_fds entries) k).0 ≡ polled found
    → (epoll_wait poll epoll_fd n s k).0 ≡ ready (take n (reports entries found))
unfolding epoll_wait
epoll_wait_lem poll epoll_fd n s k entries found e p =
    rw (epoll_wait, e, p) (ap ready (collect_events-take entries found n))
