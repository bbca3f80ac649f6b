-- ===== src/Os.antt =====
-- What the program asks of the operating system and of the C++ run time. They are not code of the
-- repository, so they are a record of functions over an opaque state `K`, which all code that
-- calls them takes as a parameter; what the answers say is written out here.
use event_driven_tcp_chatroo.Base.{ℕ, Option, List, Bytes}

-- The values of `errno` that the code tells apart.
pub data Errno : Type 0 where
  eintr eagain ewouldblock einprogress : Errno
  other_error : ℕ → Errno

-- The value that a call returns (`getsockopt`: the one that it stores), or -1 with `errno`.
pub data Reply : Type 0 where
  returned : ℕ → Reply
  failed : Errno → Reply

-- `EPOLL_CTL_ADD`, `EPOLL_CTL_MOD`, `EPOLL_CTL_DEL`, and any other number.
pub data CtlOp : Type 0 where
  ctl_add ctl_mod ctl_del : CtlOp
  ctl_other : ℕ → CtlOp

-- The calls that are answered by a `Reply`. The first argument is a file descriptor.
pub data Syscall : Type 0 where
  socket : Syscall
  set_reuse_addr get_flags listen get_socket_error shut_write close : ℕ → Syscall
  set_flags bind connect : ℕ → ℕ → Syscall
  send : ℕ → Bytes → Syscall
  epoll_create : Syscall
  epoll_ctl : ℕ → CtlOp → ℕ → ℕ → Syscall

-- What successive calls of `recv` on one socket return, up to the first that brings no byte: a
-- chunk, then the end of the stream (0) or an error (-1).
pub data RecvRun : Type 0 where
  chunk : Bytes → RecvRun → RecvRun
  end_of_stream : RecvRun
  recv_error : Errno → RecvRun

-- What successive calls of `accept` return, up to the first that fails. Other calls come between
-- two of these, so a successful answer holds the state after it and how to go on from a later one.
pub data AcceptRun (K : Type 0) : Type 0 where
  accepted : ℕ → K → (K → AcceptRun K) → AcceptRun K
  accept_error : Errno → K → AcceptRun K

-- A ready descriptor with the mask of its events.
pub record Event : Type 0 where
  pub fd : ℕ
  pub events : ℕ

pub data WaitReply : Type 0 where
  ready : List Event → WaitReply
  wait_failed : Errno → WaitReply

pub record Os (K : Type 0) : Type 0 where
  pub call : Syscall → K → Reply × K
  pub recv : ℕ → K → RecvRun × K
  pub accept : ℕ → K → AcceptRun K
  pub epoll_wait : ℕ → K → WaitReply × K
  -- The address of a new object, which may depend on those in use.
  pub new_address : List ℕ → K → ℕ × K
  -- `std::getline(std::cin, …)`: `none` at the end of the input.
  pub getline : K → Option Bytes × K

-- A call whose answer the code ignores.
abbrev pub run_call : {K : Type 0} → Os K → Syscall → K → K
run_call os c k = (os.call c k).1
