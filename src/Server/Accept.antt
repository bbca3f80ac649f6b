-- ===== src/Server/Accept.antt =====
-- src/server/server.cpp, the event of new client connections.
use event_driven_tcp_chatroo.Base.{ℕ, Bool, true, false, not, ◌&&◌, List, [], ◌∷◌, ◌++◌, map, ◌==◌}
use event_driven_tcp_chatroo.Os.{Os, AcceptRun, accepted, accept_error}
use event_driven_tcp_chatroo.Connection.{
  Connection, new_connection, waiting_for_client_hello, try_later, connection_cleanup,
}
use event_driven_tcp_chatroo.Epoll.{epoll_register, epollin, watch_read, any_of}
use event_driven_tcp_chatroo.Server.{Server, Action}

unfoldable pub event_is_accept_client_connection : {K : Type 0} → ℕ → ℕ → Server K → Bool
event_is_accept_client_connection fd event_flags s =
    not s.closing && (fd == s.listen_fd && any_of event_flags epollin)

-- `std::vector::pop_back`
abbrev pub pop_back : List Connection → List Connection
pop_back [] = []
pop_back (c ∷ []) = []
pop_back (c ∷ d ∷ cs) = c ∷ pop_back (d ∷ cs)

module _ {K : Type 0} (os : Os K) where
  -- The new connection, put into the list, and what `epoll_register` says of its socket.
  unfoldable pub admit : ℕ → K → Action K (Connection × Bool)
  admit client_fd k s =
      let (a, k1) = os.new_address (map (λ c. c.address) s.connections) k in
      let conn = new_connection a client_fd waiting_for_client_hello in
      let (ok, k2) = epoll_register os s.epoll_fd client_fd watch_read k1 in
      ((conn, ok), record s { connections = s.connections ++ conn ∷ []; kernel = k2 })

  -- The loop, over the answers of `accept`.
  unfoldable pub accept_loop : AcceptRun K → Action K Bool
  unfolding admit
  accept_loop (accept_error e k) s = (try_later e, record s { kernel = k })
  accept_loop (accepted client_fd k next) s =
      let ((conn, ok), s1) = admit client_fd k s in
      elim ok [
        | true ↦ accept_loop (next s1.kernel) s1
        | false ↦ (
          false,
          record s1 {
            connections = pop_back s1.connections;
            kernel = connection_cleanup os conn s1.kernel;
          },
        )
      ]

  unfoldable pub handle_accept_client_connection_event : Action K Bool
  unfolding accept_loop
  handle_accept_client_connection_event s = accept_loop (os.accept s.listen_fd s.kernel) s
