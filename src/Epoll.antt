-- ===== src/Epoll.antt =====
-- src/network/epoll.cpp, the part that is common to both platforms: thin functions over `epoll_ctl`
-- and the set-up of an instance. Masks of events are numbers, tested by `&` as in the source.
pub mod Poll
pub mod Instance
use event_driven_tcp_chatroo.Base.{
  ℕ, Bool, true, false, not, ◌||◌, none, some, ◌==◌, if◌then◌else◌, bit_and, bit_or, is_empty,
}
use event_driven_tcp_chatroo.Os.{
  Os, Reply, returned, failed, CtlOp, ctl_add, ctl_mod, ctl_del, epoll_create, epoll_ctl, close,
  run_call,
}
use event_driven_tcp_chatroo.Connection.{
  Connection, ConnectionState, connecting, sending_client_hello, waiting_for_client_hello, FdResult,
}

abbrev pub epollin : ℕ
epollin = 0x001

abbrev pub epollout : ℕ
epollout = 0x004

abbrev pub epollerr : ℕ
epollerr = 0x008

abbrev pub epollhup : ℕ
epollhup = 0x010

abbrev pub epollrdhup : ℕ
epollrdhup = 0x2000

-- `events & mask`, as a condition.
abbrev pub any_of : ℕ → ℕ → Bool
any_of events mask = not (bit_and events mask == 0)

-- The three masks that the program watches a peer's socket with.
abbrev pub watch_read : ℕ
watch_read = bit_or epollin epollrdhup

abbrev pub watch_both : ℕ
watch_both = bit_or (bit_or epollin epollout) epollrdhup

abbrev pub watch_write : ℕ
watch_write = bit_or epollout epollrdhup

-- What ends a wait for bytes to read.
abbrev pub readable : ℕ
readable = bit_or (bit_or epollin epollrdhup) epollhup

abbrev pub succeeded : Reply → Bool
succeeded (returned n) = true
succeeded (failed e) = false

abbrev awaits_hello : ConnectionState → Bool
awaits_hello connecting = true
awaits_hello waiting_for_client_hello = true
awaits_hello s = false

abbrev starts_writing : ConnectionState → Bool
starts_writing connecting = true
starts_writing sending_client_hello = true
starts_writing s = false

-- The overload for a connection; the one for a listening socket is `epollin`.
unfoldable pub initial_socket_events : Connection → ℕ
initial_socket_events c =
    if starts_writing c.state || not (is_empty c.out_buffer)
    then bit_or watch_read epollout
    else if awaits_hello c.state
    then bit_or watch_read epollin
    else watch_read

module _ {K : Type 0} (os : Os K) where
  unfoldable pub epoll_update : ℕ → CtlOp → ℕ → ℕ → K → Bool × K
  epoll_update epoll_fd op fd events k =
      let (r, k1) = os.call (epoll_ctl epoll_fd op fd events) k in (succeeded r, k1)

  unfoldable pub epoll_fd_add : ℕ → ℕ → ℕ → K → Bool × K
  unfolding epoll_update
  epoll_fd_add epoll_fd fd events = epoll_update epoll_fd ctl_add fd events

  unfoldable pub epoll_register : ℕ → ℕ → ℕ → K → Bool × K
  unfolding epoll_fd_add
  epoll_register epoll_fd fd events = epoll_fd_add epoll_fd fd events

  unfoldable pub epoll_fd_mod : ℕ → ℕ → ℕ → K → Bool × K
  unfolding epoll_update
  epoll_fd_mod epoll_fd fd events = epoll_update epoll_fd ctl_mod fd events

  unfoldable pub epoll_fd_remove : ℕ → ℕ → ℕ → K → Bool × K
  unfolding epoll_update
  epoll_fd_remove epoll_fd fd events = epoll_update epoll_fd ctl_del fd events

  unfoldable pub create_epoll_with_socket_events : ℕ → ℕ → ℕ → K → FdResult K
  unfolding epoll_register
  create_epoll_with_socket_events socket_fd stdin_fd socket_events k =
      let (r, k1) = os.call epoll_create k in
      elim r [
        | failed e ↦ (none, k1)
        | returned epoll_fd ↦
            let (ok, k2) = epoll_register epoll_fd socket_fd socket_events k1 in
            let (ok_stdin, k3) = epoll_register epoll_fd stdin_fd epollin k2 in
            if ok
            then if ok_stdin then (some epoll_fd, k3) else (none, run_call os (close epoll_fd) k3)
            else (none, run_call os (close epoll_fd) k2)
      ]

  -- The overload for the client's connection.
  unfoldable pub create_epoll_for_connection : Connection → ℕ → K → FdResult K
  unfolding create_epoll_with_socket_events initial_socket_events
  create_epoll_for_connection c stdin_fd =
      create_epoll_with_socket_events c.fd stdin_fd (initial_socket_events c)

  -- The overload for the server's listening socket.
  unfoldable pub create_epoll : ℕ → ℕ → K → FdResult K
  unfolding create_epoll_with_socket_events
  create_epoll socket_fd stdin_fd = create_epoll_with_socket_events socket_fd stdin_fd epollin
