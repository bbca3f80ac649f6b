-- ===== src/Tests/System.antt =====
-- A system for the tests: scripts of what it answers and a record of what it was told.
use event_driven_tcp_chatroo.Base.{
  ℕ, ◌+◌, ◌-◌, ◌≤◌, ◌≡◌, Option, none, some, List, [], ◌∷◌, ◌++◌, Bytes, length, take, min, ◌==◌,
  ==_refl, if◌then◌else◌, arith,
}
use event_driven_tcp_chatroo.Os.{
  Os, Errno, eagain, Reply, returned, failed, Syscall, socket, close, send, epoll_create, RecvRun,
  recv_error, AcceptRun, accepted, accept_error, Event, WaitReply, ready, wait_failed, other_error,
}
use event_driven_tcp_chatroo.Connection.Flush.{SendLaws}

pub record Net : Type 0 where
  -- What `recv`, `accept`, `epoll_wait` and `getline` answer, in turn.
  pub arrivals : List (ℕ × RecvRun)
  pub callers : List ℕ
  pub waits : List (List Event)
  pub lines : List Bytes
  -- How many bytes all sockets together still take.
  pub room : ℕ
  pub sent : List (ℕ × Bytes)
  pub closed : List ℕ
  pub last_address : ℕ

abbrev pub delivered_from : ℕ → List (ℕ × Bytes) → Bytes
delivered_from fd [] = []
delivered_from fd ((g, bytes) ∷ rest) =
    if g == fd then delivered_from fd rest ++ bytes else delivered_from fd rest

-- All that one socket took.
abbrev pub delivered : ℕ → Net → Bytes
delivered fd k = delivered_from fd k.sent

abbrev net_send : ℕ → Bytes → Net → Reply × Net
net_send fd bytes k = if k.room == 0 then (failed eagain, k) else (
  returned (min k.room (length bytes)),
  record k {
    room = k.room - min k.room (length bytes);
    sent = (fd, take (min k.room (length bytes)) bytes) ∷ k.sent;
  },
)

abbrev pub net_call : Syscall → Net → Reply × Net
net_call (send fd bytes) k = net_send fd bytes k
net_call (close fd) k = (returned 0, record k { closed = fd ∷ k.closed })
net_call socket k = (returned 3, k)
net_call epoll_create k = (returned 4, k)
net_call c k = (returned 0, k)

abbrev next_arrival : ℕ → List (ℕ × RecvRun) → RecvRun × List (ℕ × RecvRun)
next_arrival fd [] = (recv_error eagain, [])
next_arrival fd ((g, run) ∷ rest) =
    let (found, left) = next_arrival fd rest in
    if g == fd then (run, rest) else (found, (g, run) ∷ left)

abbrev net_accept : List ℕ → Net → AcceptRun Net
net_accept [] k = accept_error eagain k
net_accept (fd ∷ fds) k = accepted fd k (λ later. net_accept fds later)

abbrev net_wait : List (List Event) → Net → WaitReply × Net
net_wait [] k = (wait_failed (other_error 0), k)
net_wait (es ∷ ws) k = (ready es, record k { waits = ws })

abbrev net_line : List Bytes → Net → Option Bytes × Net
net_line [] k = (none, k)
net_line (l ∷ ls) k = (some l, record k { lines = ls })

abbrev pub net : Os Net
net = record {
  call = net_call;
  recv =
      λ fd k. let (run, left) = next_arrival fd k.arrivals in (run, record k { arrivals = left });
  accept = λ fd k. net_accept k.callers (record k { callers = [] });
  epoll_wait = λ fd k. net_wait k.waits k;
  new_address = λ used k. (k.last_address + 1, record k { last_address = k.last_address + 1 });
  getline = λ k. net_line k.lines k;
}

pub send_bounded :
    (fd : ℕ) (bytes : Bytes) (k : Net) (n : ℕ)
    → (net_send fd bytes k).0 ≡ returned n
    → n ≤ length bytes
send_bounded fd bytes k n e = ground arith

pub send_takes :
    (fd : ℕ) (bytes : Bytes) (k : Net) (n : ℕ)
    → (net_send fd bytes k).0 ≡ returned n
    → delivered fd (net_send fd bytes k).1 ≡ delivered fd k ++ take n bytes
send_takes fd bytes k n e = ground (arith, ==_refl fd)

pub send_fails :
    (fd : ℕ) (bytes : Bytes) (k : Net) (e : Errno)
    → (net_send fd bytes k).0 ≡ failed e
    → delivered fd (net_send fd bytes k).1 ≡ delivered fd k
send_fails fd bytes k e h = ground arith

abbrev pub net_laws : SendLaws net
net_laws = record {
  delivered = delivered;
  send_bounded = send_bounded;
  send_takes = send_takes;
  send_fails = send_fails;
}
