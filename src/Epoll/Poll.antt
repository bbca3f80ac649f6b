-- ===== src/Epoll/Poll.antt =====
-- src/network/epoll.cpp and epoll_compat.hpp, the part for systems without `epoll`: the same calls
-- made of `poll` and of lists of the watched descriptors.
pub mod Entries
pub mod Refine
pub mod Wait
use event_driven_tcp_chatroo.Base.{
  ℕ, zero, suc, ◌+◌, ◌-◌, ◌%◌, ◌^◌, Bool, true, false, Option, none, some, List, [], ◌∷◌, ◌++◌, map,
  ◌==◌, if◌then◌else◌, bit_or,
}
use event_driven_tcp_chatroo.Os.{
  Errno, other_error, Reply, returned, failed, CtlOp, ctl_add, ctl_mod, ctl_del, ctl_other, Event,
  WaitReply, ready, wait_failed,
}
use event_driven_tcp_chatroo.Connection.{no_fd}
use event_driven_tcp_chatroo.Epoll.{epollin, epollout, epollerr, epollhup, epollrdhup, any_of}

abbrev pub ebadf : Errno
ebadf = other_error 9

abbrev pub eexist : Errno
eexist = other_error 17

abbrev pub enoent : Errno
enoent = other_error 2

abbrev pub einval : Errno
einval = other_error 22

-- The masks of <poll.h>.
abbrev pub pollin : ℕ
pollin = 0x1

abbrev pub pollpri : ℕ
pollpri = 0x2

abbrev pub pollout : ℕ
pollout = 0x4

abbrev pub pollerr : ℕ
pollerr = 0x8

abbrev pub pollhup : ℕ
pollhup = 0x10

pub record PollEntry : Type 0 where
  pub fd : ℕ
  pub events : ℕ

-- `poll_instances` and `next_poll_instance`, the latter as the bit pattern of an `int`.
pub record PollState : Type 0 where
  pub instances : List (ℕ × List PollEntry)
  pub next : ℕ

abbrev pub initial_state : PollState
initial_state = record { instances = []; next = 2 ^ 32 - 2 }

-- `if (condition) { mask |= bits; }`
abbrev pub add_bits : Bool → ℕ → ℕ → ℕ
add_bits condition bits mask = if condition then bit_or mask bits else mask

unfoldable pub epoll_events_to_poll : ℕ → ℕ
epoll_events_to_poll events =
    add_bits (any_of events epollout) pollout (add_bits (any_of events epollin) pollin 0)

unfoldable pub poll_events_to_epoll : ℕ → ℕ
poll_events_to_epoll events = add_bits (any_of events pollhup) (bit_or epollhup epollrdhup) (
    add_bits (any_of events pollerr) epollerr (
      add_bits (any_of events pollout) epollout
        (add_bits (any_of events (bit_or pollin pollpri)) epollin 0)))

-- `std::map::find` and the assignment to a key.
abbrev pub find_instance : ℕ → List (ℕ × List PollEntry) → Option (List PollEntry)
find_instance epoll_fd [] = none
find_instance epoll_fd ((key, entries) ∷ rest) =
    if key == epoll_fd then some entries else find_instance epoll_fd rest

abbrev pub set_instance : ℕ → List PollEntry → List (ℕ × List PollEntry) → List (ℕ × List PollEntry)
set_instance epoll_fd entries [] = (epoll_fd, entries) ∷ []
set_instance epoll_fd entries ((key, old) ∷ rest) =
    if key == epoll_fd
    then (key, entries) ∷ rest
    else (key, old) ∷ set_instance epoll_fd entries rest

unfoldable pub epoll_create1 : PollState → ℕ × PollState
epoll_create1 s = (
  s.next,
  record {
    instances = set_instance s.next [] s.instances;
    next = (s.next + (2 ^ 32 - 1)) % 2 ^ 32;
  },
)

-- The first entry of a descriptor: whether there is one, changed, and erased.
abbrev pub find_entry : ℕ → List PollEntry → Option ℕ
find_entry fd [] = none
find_entry fd (e ∷ es) = if e.fd == fd then some e.events else find_entry fd es

abbrev pub modify_entry : ℕ → ℕ → List PollEntry → List PollEntry
modify_entry fd events [] = []
modify_entry fd events (e ∷ es) =
    if e.fd == fd then record e { events = events } ∷ es else e ∷ modify_entry fd events es

abbrev pub erase_entry : ℕ → List PollEntry → List PollEntry
erase_entry fd [] = []
erase_entry fd (e ∷ es) = if e.fd == fd then es else e ∷ erase_entry fd es

-- `event ? event->events : 0`
abbrev pub events_of : Option ℕ → ℕ
events_of none = 0
events_of (some events) = events

-- The chain of tests of the operation, on the entries of an instance; `found` is the entry.
unfoldable pub change_entries :
    CtlOp → ℕ → Option ℕ → Option ℕ → List PollEntry → Reply × List PollEntry
change_entries ctl_add fd event (some old) entries = (failed eexist, entries)
change_entries ctl_add fd event none entries =
    (returned 0, entries ++ record { fd = fd; events = events_of event } ∷ [])
change_entries ctl_mod fd event none entries = (failed enoent, entries)
change_entries ctl_mod fd event (some old) entries =
    (returned 0, modify_entry fd (events_of event) entries)
change_entries ctl_del fd event none entries = (failed enoent, entries)
change_entries ctl_del fd event (some old) entries = (returned 0, erase_entry fd entries)
change_entries (ctl_other n) fd event found entries = (failed einval, entries)

unfoldable pub epoll_ctl : ℕ → CtlOp → ℕ → Option ℕ → PollState → Reply × PollState
unfolding change_entries
epoll_ctl epoll_fd op fd event s = elim (find_instance epoll_fd s.instances) [
  | none ↦ (failed ebadf, s)
  | some entries ↦
      let (reply, changed) = change_entries op fd event (find_entry fd entries) entries in
      (reply, record s { instances = set_instance epoll_fd changed s.instances })
]

-- What `poll` answers: 0 or -1, or the events that it has found for each of the descriptors.
pub data PollAnswer : Type 0 where
  timed_out : PollAnswer
  poll_failed : Errno → PollAnswer
  polled : List ℕ → PollAnswer

-- The loop over the descriptors, up to the size of the caller's array. Where `poll` has found
-- nothing any more, the masks stay 0.
unfoldable pub collect_events : List PollEntry → List ℕ → ℕ → List Event
unfolding poll_events_to_epoll
collect_events [] found max_events = []
collect_events (e ∷ es) [] max_events = []
collect_events (e ∷ es) (r ∷ rs) zero = []
collect_events (e ∷ es) (r ∷ rs) (suc n) =
    let skipped = collect_events es rs (suc n) in
    let taken = collect_events es rs n in
    if poll_events_to_epoll r == 0
    then skipped
    else record { fd = e.fd; events = poll_events_to_epoll r } ∷ taken

abbrev pub poll_fds : List PollEntry → List (ℕ × ℕ)
poll_fds entries = map (λ e. (e.fd, epoll_events_to_poll e.events)) entries

-- `poll` is the system's, given the descriptors with their masks.
unfoldable pub epoll_wait :
    {K : Type 0} → (List (ℕ × ℕ) → K → PollAnswer × K) → ℕ → ℕ → PollState → K → WaitReply × K
unfolding epoll_events_to_poll collect_events
epoll_wait poll epoll_fd max_events s k = elim (find_instance epoll_fd s.instances) [
  | none ↦ (wait_failed ebadf, k)
  | some entries ↦
      let (answer, k1) = poll (poll_fds entries) k in
      elim answer [
        | timed_out ↦ (ready [], k1)
        | poll_failed e ↦ (wait_failed e, k1)
        | polled found ↦ (ready (collect_events entries found max_events), k1)
      ]
]
