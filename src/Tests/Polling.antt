-- ===== src/Tests/Polling.antt =====
-- The theorems on the polling backend, the handshake and the closing at concrete inputs.
use event_driven_tcp_chatroo.Base.{
  ℕ, ◌≡◌, refl, true, false, none, inl, List, [], ◌∷◌, map, not, Bytes, codes, arith, take,
}
use event_driven_tcp_chatroo.Os.{RecvRun, chunk, recv_error, eagain, ready, ctl_del}
use event_driven_tcp_chatroo.Connection.{
  Connection, ConnectionState, active, waiting_for_client_hello, connection_cleanup,
}
use event_driven_tcp_chatroo.Protocol.{chat, client_hello}
use event_driven_tcp_chatroo.Protocol.Frame.{frame}
use event_driven_tcp_chatroo.Epoll.{
  epoll_fd_mod, epoll_fd_remove, epollin, epollout, epollerr, epollhup, epollrdhup, watch_both,
  watch_write, any_of,
}
use event_driven_tcp_chatroo.Epoll.Poll.{
  PollEntry, PollState, PollAnswer, polled, epoll_ctl, epoll_wait, poll_events_to_epoll,
}
use event_driven_tcp_chatroo.Epoll.Poll.Refine.{WellFormed, CtlRefines, epoll_ctl-refines}
use event_driven_tcp_chatroo.Epoll.Poll.Wait.{reports, epoll_wait_lem, poll_events_to_epoll-bits}
use event_driven_tcp_chatroo.Server.{Server, all_buffers_empty}
use event_driven_tcp_chatroo.Server.Hello.{receive_hello}
use event_driven_tcp_chatroo.Server.Input.{close_room}
use event_driven_tcp_chatroo.Server.Closing.{farewell, close_room_lem}
use event_driven_tcp_chatroo.Server.Handshake.{
  introduced, receive_hello_lem, receive_hello_rejected,
}
use event_driven_tcp_chatroo.Tests.System.{Net, net}

abbrev entry : ℕ → ℕ → PollEntry
entry fd events = record { fd = fd; events = events }

abbrev two_watched : PollState
two_watched = record { instances = (50, entry 3 1 ∷ entry 0 1 ∷ []) ∷ []; next = 49 }

two_watched-WellFormed : WellFormed two_watched
two_watched-WellFormed = ((refl, (refl, tt)), tt)

epoll_ctl-refines_example :
    CtlRefines 50 ctl_del 3 0 two_watched (epoll_ctl 50 ctl_del 3 none two_watched)
epoll_ctl-refines_example =
    epoll_ctl-refines 50 two_watched (entry 3 1 ∷ entry 0 1 ∷ []) refl ctl_del 3 none
      two_watched-WellFormed

abbrev poll : List (ℕ × ℕ) → Unit {0} → PollAnswer × Unit {0}
poll fds k = (polled (0 ∷ 1 ∷ []), k)

epoll_wait_lem_example :
    (epoll_wait poll 50 16 two_watched tt).0
    ≡ ready (take 16 (reports (entry 3 1 ∷ entry 0 1 ∷ []) (0 ∷ 1 ∷ [])))
epoll_wait_lem_example =
    epoll_wait_lem poll 50 16 two_watched tt (entry 3 1 ∷ entry 0 1 ∷ []) (0 ∷ 1 ∷ []) refl refl

poll_events_to_epoll-bits_example :
    let given = poll_events_to_epoll 0x12 in
    (any_of given epollin ≡ true)
    × (any_of given epollout ≡ false)
    × (any_of given epollerr ≡ false)
    × (any_of given epollhup ≡ true)
    × (any_of given epollrdhup ≡ true)
poll_events_to_epoll-bits_example = poll_events_to_epoll-bits 0x12

abbrev visitor : ℕ → ConnectionState → Bytes → Connection
visitor fd state name = record {
  address = fd;
  fd = fd;
  state = state;
  in_buffer = [];
  out_buffer = [];
  bytes_written = 0;
  name = name;
}

abbrev pub stranger : Connection
stranger = visitor 7 waiting_for_client_hello []

abbrev pub cy : Connection
cy = visitor 8 active (codes "cy")

abbrev pub arriving : List (ℕ × RecvRun) → Net
arriving arrivals = record {
  arrivals = arrivals;
  callers = [];
  waits = [];
  lines = [];
  room = 9;
  sent = [];
  closed = [];
  last_address = 9;
}

abbrev pub hall : Net → Server Net
hall k = record {
  name = codes "host";
  port = 8080;
  listen_fd = 3;
  epoll_fd = 4;
  connections = cy ∷ stranger ∷ [];
  closing = false;
  cached = none;
  printed = [];
  kernel = k;
}

abbrev hello_comes : Net
hello_comes = arriving ((7, chunk (frame client_hello (codes "al")) (recv_error eagain)) ∷ [])

receive_hello_lem_example : receive_hello net stranger (hall hello_comes) ≡ (
  (epoll_fd_mod net 4 7 watch_both (arriving [])).0,
  record (hall (epoll_fd_mod net 4 7 watch_both (arriving [])).1) {
    connections = cy ∷ introduced (codes "host") (codes "al") stranger ∷ [];
  },
)
receive_hello_lem_example =
    receive_hello_lem net stranger (hall hello_comes) (codes "al") [] refl refl refl (λ e. cc)
      (omega arith) (omega arith)

abbrev chat_comes : Net
chat_comes = arriving ((7, chunk (frame chat (codes "al")) (recv_error eagain)) ∷ [])

receive_hello_rejected_example : receive_hello net stranger (hall chat_comes) ≡ (
  true,
  record (hall (connection_cleanup net stranger (epoll_fd_remove net 4 7 0 (arriving [])).1)) {
    connections = cy ∷ [];
  },
)
receive_hello_rejected_example =
    receive_hello_rejected net stranger (hall chat_comes) chat (codes "al") [] refl refl refl
      (omega arith) (omega arith) (inl (λ e. omega arith))

net_watches_all : (mask fd : ℕ) (k : Net) → (epoll_fd_mod net 4 fd mask k).0 ≡ true
unfolding epoll_fd_mod
net_watches_all mask fd k = refl

close_room_lem_example :
    let (running, s1) = close_room net (hall (arriving [])) in
    (s1.closing ≡ true)
    × (s1.connections ≡ map farewell (cy ∷ stranger ∷ []))
    × (running ≡ not (all_buffers_empty (map farewell (cy ∷ stranger ∷ []))))
close_room_lem_example =
    close_room_lem net (hall (arriving [])) (net_watches_all watch_both)
      (net_watches_all watch_write)
