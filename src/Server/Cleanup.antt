-- ===== src/Server/Cleanup.antt =====
-- What server_cleanup of src/server/server.cpp closes.
use event_driven_tcp_chatroo.Base.{
  ℕ, ◌≡◌, refl, ap, ◌∙◌, Bool, false, not, ◌&&◌, ◌||◌, inl, inr, List, [], ◌∷◌, ◌==◌, Bool-cases,
  arith,
}
use event_driven_tcp_chatroo.Os.{Os}
use event_driven_tcp_chatroo.Connection.{Connection, no_fd, connection_cleanup}
use event_driven_tcp_chatroo.Connection.Descriptors.{FdLaws}
use event_driven_tcp_chatroo.Server.{Server}
use event_driven_tcp_chatroo.Server.Loop.{cleanup_connections, close_fd, server_cleanup}

-- Whether a field that may be -1 holds descriptor `d`.
abbrev pub holds : ℕ → ℕ → Bool
holds d fd = not (fd == no_fd) && d == fd

abbrev pub held_by_any : ℕ → List Connection → Bool
held_by_any d [] = false
held_by_any d (c ∷ cs) = holds d c.fd || held_by_any d cs

abbrev pub owns : {K : Type 0} → Server K → ℕ → Bool
owns s d = holds d s.listen_fd || (holds d s.epoll_fd || held_by_any d s.connections)

module _ {K : Type 0} (os : Os K) (laws : FdLaws os) where
  open laws use {is_open, closed}

  pub close_fd_lem :
      (fd d : ℕ) (k : K) → is_open d (close_fd os fd k) ≡ (not (holds d fd) && is_open d k)
  close_fd_lem fd d k = elim (Bool-cases (fd == no_fd)) [
    | inl e ↦ rw e
    | inr e ↦ rw e (closed k fd d)
  ]

  pub connection_cleanup_lem :
      (c : Connection) (d : ℕ) (k : K)
      → is_open d (connection_cleanup os c k) ≡ (not (holds d c.fd) && is_open d k)
  unfolding connection_cleanup
  connection_cleanup_lem c d k = close_fd_lem c.fd d k

  cleanup_connections_lem :
      (cs : List Connection) (d : ℕ) (k : K)
      → is_open d (cleanup_connections os cs k) ≡ (not (held_by_any d cs) && is_open d k)
  unfolding cleanup_connections
  cleanup_connections_lem [] d k = refl
  cleanup_connections_lem (c ∷ cs) d k =
      cleanup_connections_lem cs d (connection_cleanup os c k)
      ∙ ap (λ b. not (held_by_any d cs) && b) (connection_cleanup_lem c d k)
      ∙ swap (held_by_any d cs) (holds d c.fd) (is_open d k)
    where
      swap : (a b x : Bool) → (not a && (not b && x)) ≡ (not (b || a) && x)
      swap a b x = ground arith

  -- For every system that keeps the stated laws of descriptors, the clean-up of the server closes
  -- the listening socket, the epoll instance and the sockets of all connections, so far as they are
  -- not -1, and no other descriptor.
  pub server_cleanup-closes :
      (s : Server K) (d : ℕ)
      → is_open d (server_cleanup os s) ≡ (not (owns s d) && is_open d s.kernel)
  unfolding server_cleanup
  server_cleanup-closes s d =
      cleanup_connections_lem s.connections d
        (close_fd os s.epoll_fd (close_fd os s.listen_fd s.kernel))
      ∙ ap (λ b. not (held_by_any d s.connections) && b)
          (close_fd_lem s.epoll_fd d (close_fd os s.listen_fd s.kernel)
            ∙ ap (λ b. not (holds d s.epoll_fd) && b) (close_fd_lem s.listen_fd d s.kernel))
      ∙ swap (held_by_any d s.connections) (holds d s.epoll_fd) (holds d s.listen_fd)
          (is_open d s.kernel)
    where
      swap : (a b c x : Bool) → (not a && (not b && (not c && x))) ≡ (not (c || (b || a)) && x)
      swap a b c x = ground arith
