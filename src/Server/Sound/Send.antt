-- ===== src/Server/Sound/Send.antt =====
-- The invariant in the handler of a writable socket in src/server/server.cpp.
use event_driven_tcp_chatroo.Base.{
  ℕ, ◌≡◌, refl, sym, ◌∙◌, Bool, true, inl, inr, [], Bytes, is_empty, eq-nil_of_is_empty, arith,
  Bool-cases,
}
use event_driven_tcp_chatroo.Os.{Os}
use event_driven_tcp_chatroo.Connection.{Connection, active, connection_flush_out_buffer}
use event_driven_tcp_chatroo.Connection.Flush.{SendLaws, Flushed, flush-Flushed}
use event_driven_tcp_chatroo.Server.{Server, store}
use event_driven_tcp_chatroo.Protocol.{Message}
use event_driven_tcp_chatroo.Server.Framing.{
  StreamOf, IsRoomMessage, IsServerMessage, empty-StreamOf,
}
use event_driven_tcp_chatroo.Server.Send.{
  sends_server_hello, flush_out, after_flush, send_package, handle_send_network_package_event,
}
use event_driven_tcp_chatroo.Server.Sound.{IsSound, Sound, Keeps, announce_connected-Keeps}
use event_driven_tcp_chatroo.Server.Sound.Handlers.{store-Sound, look_up-Keeps}

-- A flush leaves the buffer as it is, or empties it.
kept_stream :
    {K : Type 0} {delivered : ℕ → K → Bytes} {c : Connection} {k : K} {r : Bool × Connection × K}
    (P : Message → Type 0)
    → Flushed delivered c k r
    → StreamOf P c.out_buffer
    → StreamOf P r.1.out_buffer
kept_stream {c = c} {r = r} P f h = elim f.buffer [
  | inl (emptied, _) ↦ empty-StreamOf P r.1.out_buffer emptied
  | inr same ↦ (h.0, h.1, same ∙ h.2)
]

-- A connection with the state and the buffers of a sound one, or broken.
Flushed-IsSound :
    {K : Type 0} {delivered : ℕ → K → Bytes} {c : Connection} {k : K} {r : Bool × Connection × K}
    → Flushed delivered c k r
    → IsSound c
    → IsSound r.1
Flushed-IsSound {c = c} {r = r} f h = elim (Bool-cases r.0) [
  | inr failed ↦
      let e = f.failure failed in
      record {
        buffered = f.buffered;
        strangers = λ w. absurd (cc (e, w));
        named = λ w. absurd (cc (e, w));
        serving = rw e refl;
        framed = kept_stream IsServerMessage f h.framed;
        room = λ w. absurd (cc (e, w));
      }
  | inl ok ↦
      let e = f.success ok in
      record {
        buffered = f.buffered;
        strangers = λ w. let before = h.strangers (rw e at w) in ground (arith, before);
        named = λ w empty. h.named (rw e at w) (sym f.same.3 ∙ empty);
        serving = rw e h.serving;
        framed = kept_stream IsServerMessage f h.framed;
        room = λ w. kept_stream IsRoomMessage f (h.room (rw e at w));
      }
]

greeted-IsSound :
    (c : Connection)
    → sends_server_hello c.state ≡ true
    → c.out_buffer ≡ []
    → IsSound c
    → IsSound (record c { state = active })
greeted-IsSound c greeted empty h = record {
  framed = h.framed;
  room = λ w. empty-StreamOf IsRoomMessage c.out_buffer empty;
  buffered = h.buffered;
  strangers = λ w. cc;
  named = λ w. h.named (rw greeted);
  serving = refl;
}

module _ {K : Type 0} (os : Os K) (laws : SendLaws os) where
  flush_out-Sound :
      (c : Connection) (s : Server K)
      → IsSound c
      → Sound s
      → IsSound (flush_out os c s).0.1 × Sound (flush_out os c s).1
  unfolding flush_out
  flush_out-Sound c s p h =
      let (ok, c1, k) = connection_flush_out_buffer os c s.kernel in
      let after : IsSound c1 = Flushed-IsSound (flush-Flushed os laws c s.kernel p.buffered) p in
      (after, store-Sound c1 (record s { kernel = k }) after h)

  after_flush-Sound :
      (c : Connection) (s : Server K) → IsSound c → Sound s → Sound (after_flush os c s).1
  unfolding after_flush
  after_flush-Sound c s p h = elim (Bool-cases (is_empty c.out_buffer)) [
    | inr part ↦ rw (after_flush, part) h
    | inl whole ↦ elim (Bool-cases (sends_server_hello c.state)) [
      | inr settled ↦ rw (after_flush, whole, settled) h
      | inl greeted ↦
          let c1 = record c { state = active } in
          rw (after_flush, whole, greeted)
            (announce_connected-Keeps os c1 (store c1 s).1 (
              store-Sound c1 s (greeted-IsSound c greeted (eq-nil_of_is_empty c.out_buffer whole) p)
                h))
    ]
  ]

  send_package-Sound :
      (c : Connection) (s : Server K) → IsSound c → Sound s → Sound (send_package os c s).1
  unfolding send_package
  send_package-Sound c s p h =
      let flushed = flush_out-Sound c s p h in
      ground (
        arith,
        flushed.1,
        after_flush-Sound (flush_out os c s).0.1 (flush_out os c s).1 flushed.0 flushed.1,
      )

  pub handle_send-Keeps : (fd : ℕ) → Keeps (handle_send_network_package_event os fd)
  unfolding handle_send_network_package_event
  handle_send-Keeps fd = look_up-Keeps (send_package os) fd send_package-Sound
