-- ===== src/Epoll/Instance.antt =====
-- Open descriptors in create_epoll of src/network/epoll.cpp.
use event_driven_tcp_chatroo.Base.{ℕ, refl, inl, inr, Bool-cases}
use event_driven_tcp_chatroo.Os.{Os, epoll_create, epoll_ctl, ctl_add}
use event_driven_tcp_chatroo.Connection.Descriptors.{
  FdLaws, Reply-split, Same, NoLeak, Opened-Same, new-Opened, give_up-Same,
}
use event_driven_tcp_chatroo.Epoll.{
  epollin, epoll_update, epoll_fd_add, epoll_register, create_epoll_with_socket_events,
}

module _ {K : Type 0} (os : Os K) (laws : FdLaws os) where
  open laws use {is_open, not_opened, kept}

  register-Same :
      (epoll_fd fd events : ℕ) (k : K) → Same is_open k (epoll_register os epoll_fd fd events k).1
  unfolding epoll_register epoll_fd_add epoll_update
  register-Same epoll_fd fd events k d = kept (epoll_ctl epoll_fd ctl_add fd events) k d refl

  -- For every system that keeps the stated laws of descriptors, the set-up of an epoll instance
  -- either returns a descriptor that was not open before, and it is open then, besides all that
  -- were open before, or returns -1, and exactly the descriptors that were open before are open
  -- then.
  pub create_epoll-NoLeak :
      (socket_fd stdin_fd events : ℕ) (k : K)
      → NoLeak is_open k (create_epoll_with_socket_events os socket_fd stdin_fd events k)
  unfolding create_epoll_with_socket_events
  create_epoll-NoLeak socket_fd stdin_fd events k = elim (Reply-split (os.call epoll_create k).0) [
    | inr (e, h) ↦
        rw (create_epoll_with_socket_events, h) (λ d. not_opened epoll_create k e d refl h)
    | inl (fd, h) ↦
        let k1 = (os.call epoll_create k).1 in
        let k2 = (epoll_register os fd socket_fd events k1).1 in
        let o =
          Opened-Same is_open fd (new-Opened os laws epoll_create k fd refl h)
            (register-Same fd socket_fd events k1) in
        elim (Bool-cases (epoll_register os fd socket_fd events k1).0) [
          | inr bad ↦ rw (create_epoll_with_socket_events, h, bad) (give_up-Same os laws fd k k2 o)
          | inl ok ↦
              let o2 = Opened-Same is_open fd o (register-Same fd stdin_fd epollin k2) in
              elim (Bool-cases (epoll_register os fd stdin_fd epollin k2).0) [
                | inr bad ↦
                    rw (create_epoll_with_socket_events, h, ok, bad)
                      (give_up-Same os laws fd k _ o2)
                | inl good ↦ rw (create_epoll_with_socket_events, h, ok, good) o2
              ]
        ]
  ]
