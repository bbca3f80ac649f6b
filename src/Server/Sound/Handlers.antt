-- ===== src/Server/Sound/Handlers.antt =====
-- That invariant in the parts that the handlers of src/server/server.cpp share.
use event_driven_tcp_chatroo.Base.{
  ℕ, ◌≡◌, refl, Bool, some, ◌⊎◌, inl, inr, List, [], ◌∷◌, Bytes, All, All-append, arith, Bool-cases,
  Option-cases,
}
use event_driven_tcp_chatroo.Os.{Os, AcceptRun, accepted, accept_error, RecvRun}
use event_driven_tcp_chatroo.Connection.{
  Connection, ConnectionState, waiting_for_client_hello, connection_error, new_connection, closed,
  read_loop, connection_read_into_in_buffer,
}
use event_driven_tcp_chatroo.Connection.Read.{state_after-cases, state_after, read_loop_lem}
use event_driven_tcp_chatroo.Protocol.{protocol_parse_message}
use event_driven_tcp_chatroo.Protocol.Outcome.{outcome, waits, rejects, parses}
use event_driven_tcp_chatroo.Server.{Server, Action, store, get_connection_of, for_connection}
use event_driven_tcp_chatroo.Server.Accept.{admit, accept_loop, pop_back}
use event_driven_tcp_chatroo.Server.Framing.{IsServerMessage, empty-StreamOf}
use event_driven_tcp_chatroo.Server.Hello.{read_in}
use event_driven_tcp_chatroo.Server.Lookup.{
  get_connection_of-same, get_connection_of-All, write_back-All,
}
use event_driven_tcp_chatroo.Server.Sound.{IsSound, Sound, Keeps, failed-IsSound}

pop_back-All {ℓ} : (P : Connection → Type ℓ) (cs : List Connection) → All P cs → All P (pop_back cs)
pop_back-All P [] h = tt
pop_back-All P (c ∷ []) h = tt
pop_back-All P (c ∷ d ∷ cs) h = (h.0, pop_back-All P (d ∷ cs) h.1)

new-IsSound : (a fd : ℕ) → IsSound (new_connection a fd waiting_for_client_hello)
new-IsSound a fd = record {
  buffered = omega arith;
  strangers = λ w. (refl, refl);
  named = λ w. cc;
  serving = refl;
  framed = empty-StreamOf IsServerMessage [] refl;
  room = λ w. cc;
}

module _ {K : Type 0} (os : Os K) where
  admit-Sound : (fd : ℕ) (k : K) (s : Server K) → Sound s → Sound (admit os fd k s).1
  unfolding admit
  admit-Sound fd k s h = All-append IsSound s.connections _ h (new-IsSound _ fd, tt)

  pub accept_loop-Keeps : (run : AcceptRun K) → Keeps (accept_loop os run)
  unfolding accept_loop
  accept_loop-Keeps (accept_error e k) s h = h
  accept_loop-Keeps (accepted fd k next) s h = elim (Bool-cases (admit os fd k s).0.1) [
    | inl ok ↦
        rw (accept_loop, ok)
          (accept_loop-Keeps (next (admit os fd k s).1.kernel) (admit os fd k s).1
            (admit-Sound fd k s h))
    | inr failed ↦
        rw (accept_loop, failed)
          (pop_back-All IsSound (admit os fd k s).1.connections (admit-Sound fd k s h))
  ]

read-IsSound :
    (run : RecvRun) (c : Connection) (b : Bytes)
    → IsSound c
    → IsSound (record c { in_buffer = b; state = state_after run c.state })
read-IsSound run c b h = by_state (state_after-cases run c.state)
  where
    by_state :
        {t : ConnectionState}
        → (t ≡ c.state) ⊎ (t ≡ closed) ⊎ (t ≡ connection_error)
        → IsSound (record c { in_buffer = b; state = t })
    by_state (inl e) = rw e record {
      buffered = h.buffered;
      strangers = h.strangers;
      named = h.named;
      serving = h.serving;
      framed = h.framed;
      room = h.room;
    }
    by_state (inr (inl e)) = rw e record {
      buffered = h.buffered;
      strangers = λ w. cc;
      named = λ w. cc;
      serving = refl;
      framed = h.framed;
      room = λ w. cc;
    }
    by_state (inr (inr e)) = rw e (
        failed-IsSound (record c { in_buffer = b })
          record {
            buffered = h.buffered;
            strangers = h.strangers;
            named = h.named;
            serving = h.serving;
            framed = h.framed;
            room = h.room;
          })

-- A parse changes the input buffer, or fails.
pub parse-IsSound : (c : Connection) → IsSound c → IsSound (protocol_parse_message c).1
parse-IsSound c h = elim (outcome c) [
  | waits e ↦ rw e h
  | rejects e _ ↦ rw e (failed-IsSound c h)
  | parses m rest _ e _ ↦ rw e record {
    buffered = h.buffered;
    strangers = h.strangers;
    named = h.named;
    serving = h.serving;
    framed = h.framed;
    room = h.room;
  }
]

module _ {K : Type 0} where
  pub store-Sound : (c : Connection) (s : Server K) → IsSound c → Sound s → Sound (store c s).1
  store-Sound c s p h = write_back-All IsSound c s.connections p h

  -- A look-up leaves the list alone, and what it finds stands in it.
  pub look_up-Sound : (fd : ℕ) (s : Server K) → Sound s → Sound (get_connection_of fd s).1
  look_up-Sound fd s h = rw (get_connection_of-same fd s) h

  pub found-IsSound :
      (fd : ℕ) (s : Server K) {c : Connection}
      → Sound s
      → (get_connection_of fd s).0 ≡ some c
      → IsSound c
  found-IsSound fd s h e = get_connection_of-All fd s IsSound h e

  -- So a handler that looks up its connection keeps the invariant if its body does.
  pub look_up-Keeps :
      (body : Connection → Action K Bool) (fd : ℕ)
      → ((c : Connection) (s : Server K) → IsSound c → Sound s → Sound (body c s).1)
      → Keeps (for_connection body fd)
  look_up-Keeps body fd keep s h = elim (Option-cases (get_connection_of fd s).0) [
    | inl e ↦ rw (for_connection, e) (look_up-Sound fd s h)
    | inr (c, e) ↦
        rw (for_connection, e)
          (keep c (get_connection_of fd s).1 (found-IsSound fd s h e) (look_up-Sound fd s h))
  ]

module _ {K : Type 0} (os : Os K) where
  pub read_in-Sound :
      (c : Connection) (s : Server K)
      → IsSound c
      → Sound s
      → IsSound (read_in os c s).0.1 × Sound (read_in os c s).1
  unfolding read_in connection_read_into_in_buffer
  read_in-Sound c s p h =
      let (run, k) = os.recv c.fd s.kernel in
      let after : IsSound (read_loop run c).1 = rw (read_loop_lem run c) (read-IsSound run c _ p) in
      (after, store-Sound (read_loop run c).1 (record s { kernel = k }) after h)
