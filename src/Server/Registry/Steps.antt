-- ===== src/Server/Registry/Steps.antt =====
-- Addresses and descriptors in single steps of src/server/server.cpp.
use event_driven_tcp_chatroo.Base.{
  ℕ, zero, suc, ◌≡◌, refl, ap, ◌∙◌, Bool, true, false, not, ◌&&◌, ==_iff, inl, inr, List, [], ◌∷◌,
  ◌==◌, if◌then◌else◌, Bool-cases, arith, Option, length, ltb, ltb→lt, leb, leb→le, ◌<◌, ◌+◌,
}
use event_driven_tcp_chatroo.Os.{Os, send, epoll_ctl, ctl_mod, ctl_del}
use event_driven_tcp_chatroo.Connection.{
  connection_error, try_later, Connection, no_fd, connection_cleanup, flush_loop,
}
use event_driven_tcp_chatroo.Connection.Descriptors.{FdLaws, Same}
use event_driven_tcp_chatroo.Connection.Flush.{
  Reply-cases, pending, flush-done, flush-zero, flush-sent, flush-failed,
}
use event_driven_tcp_chatroo.Protocol.{
  Message, max_payload_size, protocol_queue_message, protocol_parse_message,
}
use event_driven_tcp_chatroo.Protocol.Frame.{queue-cases}
use event_driven_tcp_chatroo.Protocol.Outcome.{outcome, waits, rejects, parses}
use event_driven_tcp_chatroo.Epoll.{epoll_update, epoll_fd_mod, epoll_fd_remove}
use event_driven_tcp_chatroo.Server.{Server, queue_loop, queue_to_all, remove_connection}
use event_driven_tcp_chatroo.Server.Broadcast.{
  queue_loop-skip, queue_loop-too_long, queue_loop-unwatched, queue_loop-queued,
}
use event_driven_tcp_chatroo.Server.Registry.{Key, key, keys, Known, Known-All}
use event_driven_tcp_chatroo.Server.Registry.Owned.{Registered, Steady, erase-Registered}

-- The functions on one connection leave its key.
pub queue-key : (c : Connection) (m : Message) → key (protocol_queue_message c m).1 ≡ key c
queue-key c m = elim (queue-cases c m) [
  | inl (e, _) ↦ ap (λ (r : Bool × Connection). key r.1) e
  | inr e ↦ ap (λ (r : Bool × Connection). key r.1) e
]

pub parse-key : (c : Connection) → key (protocol_parse_message c).1 ≡ key c
parse-key c = elim (outcome c) [
  | waits e ↦ ap (λ (r : Option Message × Connection). key r.1) e
  | rejects e _ ↦ ap (λ (r : Option Message × Connection). key r.1) e
  | parses m rest _ e _ ↦ ap (λ (r : Option Message × Connection). key r.1) e
]

module _ {K : Type 0} (os : Os K) (laws : FdLaws os) where
  open laws use {is_open, closed, kept, never}

  pub mod-Same :
      (epoll_fd fd mask : ℕ) (k : K) → Same is_open k (epoll_fd_mod os epoll_fd fd mask k).1
  unfolding epoll_fd_mod epoll_update
  mod-Same epoll_fd fd mask k d = kept (epoll_ctl epoll_fd ctl_mod fd mask) k d refl

  pub remove-Registered :
      {others : ℕ → Bool} (c : Connection) (s : Server K)
      → Registered is_open others s.connections s.kernel
      → Known (key c) (keys s.connections)
      → let s1 = (remove_connection os c s).1 in Registered is_open others s1.connections s1.kernel
  unfolding remove_connection epoll_fd_remove epoll_update connection_cleanup
  remove-Registered c s r known = erase-Registered is_open c s.connections s.kernel _ r known λ d.
      elim (Bool-cases (c.fd == no_fd)) [
        | inl e ↦ absurd (cc (never s.kernel, is_open_c, (==_iff c.fd no_fd).0 e))
        | inr e ↦ rw e (
            closed (epoll_fd_remove os s.epoll_fd c.fd 0 s.kernel).1 c.fd d
            ∙ ap (λ b. not (d == c.fd) && b)
                (kept (epoll_ctl s.epoll_fd ctl_del c.fd 0) s.kernel d refl))
      ]
    where
      is_open_c : is_open c.fd s.kernel ≡ true
      is_open_c =
          Known-All (λ (x : Key). is_open x.1 s.kernel ≡ true) (key c) (keys s.connections)
            r.are_open known

  pub flush-steady :
      (fuel : ℕ) (c : Connection) (k : K)
      → (key (flush_loop os fuel c k).1 ≡ key c) × Same is_open k (flush_loop os fuel c k).2
  unfolding flush_loop
  flush-steady zero c k = (refl, λ d. refl)
  flush-steady (suc f) c k = elim (Bool-cases (ltb c.bytes_written (length c.out_buffer))) [
    | inr done ↦ rw (flush-done os f c k (ground arith)) (refl, λ d. refl)
    | inl more ↦
        let left : c.bytes_written < length c.out_buffer = ltb→lt _ _ more in
        let k1 = (os.call (send c.fd (pending c)) k).1 in
        let same : Same is_open k k1 = λ d. kept (send c.fd (pending c)) k d refl in
        elim (Reply-cases (os.call (send c.fd (pending c)) k).0) [
          | inl e ↦ rw (flush-zero os f c k left e) (refl, same)
          | inr (inl (n, e)) ↦
              let later =
                flush-steady f (record c { bytes_written = c.bytes_written + suc n }) k1 in
              rw (flush-sent os f c k left n e) (later.0, λ d. later.1 d ∙ same d)
          | inr (inr (e, h)) ↦ rw (flush-failed os f c k left e h) (stopped (try_later e) c k1 same)
        ]
  ]
    where
      stopped :
          (later : Bool) (c : Connection) (k1 : K)
          → Same is_open k k1
          → let r : Bool × Connection × K =
              if later then (true, c, k1) else (false, record c { state = connection_error }, k1) in
            (key r.1 ≡ key c) × Same is_open k r.2
      stopped true c k1 same = (refl, same)
      stopped false c k1 same = (refl, same)

  queue_loop-steady :
      (skip : Connection → Bool) (m : Message) (mask epoll_fd : ℕ) (cs : List Connection) (k : K)
      → let (ok, cs1, k1) = queue_loop os skip m mask epoll_fd cs k in
        (keys cs1 ≡ keys cs) × Same is_open k k1
  unfolding queue_loop
  queue_loop-steady skip m mask epoll_fd [] k = (refl, λ d. refl)
  queue_loop-steady skip m mask epoll_fd (c ∷ cs) k = elim (Bool-cases (skip c)) [
    | inl over ↦
        let (same, fds) = queue_loop-steady skip m mask epoll_fd cs k in
        rw (queue_loop-skip os skip m mask epoll_fd c cs k over) (ap (◌∷◌ (key c)) same, fds)
    | inr receiver ↦ elim (Bool-cases (leb (length m.payload) max_payload_size)) [
      | inr long ↦
          rw (queue_loop-too_long os skip m mask epoll_fd c cs k receiver (ground arith))
            (refl, λ d. refl)
      | inl short ↦
          let fits = leb→le (length m.payload) max_payload_size short in
          let (watched, k1) = epoll_fd_mod os epoll_fd c.fd mask k in
          elim (Bool-cases watched) [
            | inr off ↦
                rw (queue_loop-unwatched os skip m mask epoll_fd c cs k receiver fits off)
                  (refl, mod-Same epoll_fd c.fd mask k)
            | inl on ↦
                let (same, fds) = queue_loop-steady skip m mask epoll_fd cs k1 in
                rw (queue_loop-queued os skip m mask epoll_fd c cs k receiver fits on)
                  (ap (◌∷◌ (key c)) same, λ d. fds d ∙ mod-Same epoll_fd c.fd mask k d)
          ]
    ]
  ]

  pub queue_to_all-Steady :
      (skip : Connection → Bool) (m : Message) (mask : ℕ) (s : Server K)
      → let s1 = (queue_to_all os skip m mask s).1 in
        Steady is_open s.connections s.kernel s1.connections s1.kernel
  queue_to_all-Steady skip m mask s =
      let (same, fds) = queue_loop-steady skip m mask s.epoll_fd s.connections s.kernel in
      record { same_keys = same; same_fds = fds }
