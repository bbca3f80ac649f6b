-- ===== src/Client/Quit/Rounds.antt =====
-- The rounds of the event loop of src/client/client.cpp after /quit.
use event_driven_tcp_chatroo.Base.{ℕ, ◌≡◌, Bool, true, false, ◌⊎◌, List, [], ◌++◌, Bytes, codes}
use event_driven_tcp_chatroo.Os.{Os, Errno, eintr, Syscall, send, wait_failed}
use event_driven_tcp_chatroo.Connection.{connection_error, connection_flush_out_buffer}
use event_driven_tcp_chatroo.Connection.Flush.{SendLaws, IsBuffered, pending}
use event_driven_tcp_chatroo.Protocol.{close_con}
use event_driven_tcp_chatroo.Protocol.Frame.{frame}
use event_driven_tcp_chatroo.Client.{Client, is_connecting}
use event_driven_tcp_chatroo.Client.Input.{take_line}

abbrev pub sends : Syscall → Bool
sends (send fd bytes) = true
sends c = false

-- What the end of a session relies on beyond the laws of `send`: no other call makes a socket take
-- bytes, and `epoll_wait` fails for nothing but an interrupt.
pub record QuitLaws {K : Type 0} (os : Os K) : Type 0 where
  pub sending : SendLaws os
  pub call_kept :
      (c : Syscall) (k : K) (fd : ℕ)
      → sends c ≡ false
      → sending.delivered fd (os.call c k).1 ≡ sending.delivered fd k
  pub wait_kept :
      (epoll_fd fd : ℕ) (k : K)
      → sending.delivered fd (os.epoll_wait epoll_fd k).1 ≡ sending.delivered fd k
  pub wait_interrupted :
      (epoll_fd : ℕ) (k : K) (e : Errno) → (os.epoll_wait epoll_fd k).0 ≡ wait_failed e → e ≡ eintr

module _ {K : Type 0} (os : Os K) (laws : QuitLaws os) (fd : ℕ) (all : Bytes) (printed : List Bytes)
    (input : Bytes) where
  abbrev taken : K → Bytes
  taken k = laws.sending.delivered fd k

  -- A quitting client of which the socket takes `all` in the end, and that shows and reads no more.
  record IsLeaving (s : Client K) : Type 0 where
    pub quitting : s.quitting ≡ true
    pub settled : is_connecting s.conn.state ≡ false
    pub buffered : IsBuffered s.conn
    pub own : s.conn.fd ≡ fd
    pub bytes : taken s.kernel ++ pending s.conn ≡ all
    pub shown : s.printed ≡ printed
    pub unread : s.conn.in_buffer ≡ input

  -- The loop goes on, or the socket has taken all, or the connection is broken.
  abbrev Ends : Bool × Client K → Type 0
  Ends (running, s) = (running ≡ true) ⊎ (taken s.kernel ≡ all) ⊎ (s.conn.state ≡ connection_error)

  abbrev Leaves : Bool × Client K → Type 0
  Leaves (running, s) = IsLeaving s × Ends (running, s)

  flushed : Client K → Client K
  flushed s =
      let (ok, c, k) = connection_flush_out_buffer os s.conn s.kernel in
      record s { conn = c; kernel = k }

module _ {K : Type 0} (os : Os K) (laws : QuitLaws os) where
  -- All that the socket of a client will have taken once it has left.
  abbrev pub farewell : Client K → Bytes
  farewell s = laws.sending.delivered s.conn.fd s.kernel ++ (pending s.conn ++ frame close_con [])

  -- The client behind the line.
  abbrev pub leaver : Client K → Client K
  leaver s = (take_line os (codes "/quit") s).1
