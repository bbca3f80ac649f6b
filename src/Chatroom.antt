-- ===== src/Chatroom.antt =====
-- The server and a client together: what src/server/server.cpp has put into the output buffer of a
-- member of the room, as src/client/client.cpp reads it.
pub mod Handshake
use event_driven_tcp_chatroo.Base.{
  ℕ, ◌≡◌, refl, sym, ap, ◌∙◌, inl, inr, Bool, true, false, List, [], ◌∷◌, ◌++◌, flatten, append-nil,
  Bytes, All, ◌==◌, if◌then◌else◌,
}
use event_driven_tcp_chatroo.Os.{Os}
use event_driven_tcp_chatroo.Connection.{Connection, active, is_active}
use event_driven_tcp_chatroo.Protocol.{Message, close_con}
use event_driven_tcp_chatroo.Protocol.Frame.{IsLegal}
use event_driven_tcp_chatroo.Protocol.Chunks.{stream}
use event_driven_tcp_chatroo.Server.Framing.{IsRoomMessage}
use event_driven_tcp_chatroo.Server.Sound.{IsSound}
use event_driven_tcp_chatroo.Client.{Client, handle_network_message}
use event_driven_tcp_chatroo.Client.Session.{handle_all, handle_all-cons, put_input, after}
use event_driven_tcp_chatroo.Client.Reads.{read_events, delivered, all_quiet, read_events-Agrees}
use event_driven_tcp_chatroo.Client.Chat.{
  add_lines, room_closed, handle-broadcast, handle-close, empty-IsPartial,
}

-- What the messages of a room say up to the end of the room, and whether they bring it.
abbrev pub said : List Message → List Bytes × Bool
said [] = ([], false)
said (m ∷ ms) =
    let (texts, ended) = said ms in
    if m.type == close_con then ([], true) else (m.payload ∷ texts, ended)

module _ {K : Type 0} where
  -- The client has shown the texts, and has been told if the room has been closed.
  abbrev pub informed : List Bytes × Bool → Client K → Bool × Client K
  informed (texts, false) s = (true, add_lines texts s)
  informed (texts, true) s = (false, room_closed (add_lines texts s))

  informed-cons :
      (text : Bytes) (r : List Bytes × Bool) (s : Client K)
      → informed r (add_lines (text ∷ []) s) ≡ informed (text ∷ r.0, r.1) s
  informed-cons text (texts, false) s = refl
  informed-cons text (texts, true) s = refl

  handle-room :
      (m : Message) (ms : List Message) (s : Client K)
      → IsRoomMessage m
      → s.conn.state ≡ active
      → ((s1 : Client K) → s1.conn.state ≡ active → handle_all ms s1 ≡ informed (said ms) s1)
      → after (handle_all ms) (handle_network_message m s) ≡ informed (said (m ∷ ms)) s
  handle-room m ms s h a next = elim h.kind [
    | inl e ↦
        let more : (m.payload ∷ (said ms).0, (said ms).1) ≡ said (m ∷ ms) = rw e refl in
        ap (after (handle_all ms)) (handle-broadcast m s e a)
        ∙ next (add_lines (m.payload ∷ []) s) a
        ∙ informed-cons m.payload (said ms) s
        ∙ ap (λ r. informed r s) more
    | inr (e, empty) ↦
        let ended : ◌≡◌ {A = List Bytes × Bool} ([], true) (said (m ∷ ms)) = rw e refl in
        ap (after (handle_all ms)) (handle-close m s e empty a) ∙ ap (λ r. informed r s) ended
  ]

  handle_all-room :
      (ms : List Message) (s : Client K)
      → All IsRoomMessage ms
      → s.conn.state ≡ active
      → handle_all ms s ≡ informed (said ms) s
  handle_all-room [] s h a = unfold handle_all in refl
  handle_all-room (m ∷ ms) s h a =
      handle_all-cons m ms s ∙ handle-room m ms s h.0 a (λ s1 a1. handle_all-room ms s1 h.1 a1)

room-IsLegal : (ms : List Message) → All IsRoomMessage ms → All IsLegal ms
room-IsLegal [] h = tt
room-IsLegal (m ∷ ms) h = (h.0.legal, room-IsLegal ms h.1)

module _ {K : Type 0} (os : Os K) where
  -- Take an active connection of the server that is sound, as the event loop keeps all of them, and
  -- a client in the chat with an empty input buffer, to which a row of read events brings exactly
  -- the output buffer of this connection, cut in any way, without the end of the stream or a fatal
  -- error. Then that buffer is the frames of some legal broadcasts and empty CLOSE_CONs, and the
  -- client has printed the text of each broadcast up to the first CLOSE_CON once and in order. If
  -- there is a CLOSE_CON, it has then printed that the server closed the room, is closed, and the
  -- last handler returns false; otherwise all handlers succeed and it is still in the chat. But for
  -- the state of the system and the bytes left in the buffer nothing else has changed: the client
  -- never refuses what the server has queued.
  pub read_events-member :
      (n : ℕ) (c : Connection) (s : Client K)
      → IsSound c
      → is_active c.state ≡ true
      → s.conn.state ≡ active
      → s.conn.in_buffer ≡ []
      → all_quiet os n s ≡ true
      → flatten (delivered os n s) ≡ c.out_buffer
      → (ms : List Message) × (c.out_buffer ≡ stream ms)
        × All IsRoomMessage ms
        × (k : K) × (left : Bytes) × (read_events os n s ≡ put_input k left (informed (said ms) s))
  read_events-member n c s sound member a empty q e =
      let (ms, room, bytes) = sound.room member in
      let agrees =
        read_events-Agrees os n s ms [] q (inr a) (empty-IsPartial s.conn.in_buffer empty)
          (room-IsLegal ms room) (empty-IsPartial [] refl)
          (ap (λ b. b ++ flatten (delivered os n s)) empty
            ∙ e
            ∙ bytes
            ∙ sym (append-nil (stream ms))) in
      (
        ms,
        bytes,
        room,
        agrees.system,
        agrees.left,
        agrees.result ∙ ap (put_input agrees.system agrees.left) (handle_all-room ms s room a),
      )
