-- ===== src/Server/Sound.antt =====
-- An invariant of the connections of src/server/server.cpp, for the helpers.
pub mod Handlers
pub mod Hello
pub mod Send
pub mod Receive
pub mod Rounds
use event_driven_tcp_chatroo.Base.{
  ℕ, ◌+◌, ◌≤◌, ◌<◌, ◌≡◌, ◌≢◌, refl, sym, ap, ◌∙◌, Bool, true, false, not, ◌||◌, ◌&&◌, Option, none,
  some, List, [], ◌∷◌, ◌++◌, Bytes, codes, All, length, length-append, arith, if◌then◌else◌,
}
use event_driven_tcp_chatroo.Os.{Os}
use event_driven_tcp_chatroo.Connection.{
  Connection, ConnectionState, connecting, sending_client_hello, waiting_for_server_hello,
  sending_server_hello, waiting_for_client_hello, active, closed, connection_error, is_active,
}
use event_driven_tcp_chatroo.Connection.Flush.{IsBuffered}
use event_driven_tcp_chatroo.Protocol.{Message, message, broadcast}
use event_driven_tcp_chatroo.Protocol.Frame.{frame}
use event_driven_tcp_chatroo.Frontend.{printed_message}
use event_driven_tcp_chatroo.Server.{
  Server, Action, print_line, queue_to_all, broadcast_message_to_other_clients,
  queue_close_to_all_clients, announce, announce_client_connected, announce_client_disconnected,
  announce_room_closing, remove_connection, connected_notice, disconnected_notice, closing_notice,
}
use event_driven_tcp_chatroo.Server.Framing.{
  StreamOf, IsRoomMessage, IsServerMessage, frame-StreamOf, ForRoom, broadcast-ForRoom,
  close-ForRoom, room-IsServerMessage,
}
use event_driven_tcp_chatroo.Server.Hello.{awaits_client_hello}
use event_driven_tcp_chatroo.Server.Send.{sends_server_hello}
use event_driven_tcp_chatroo.Server.Lookup.{erase_address-All}
use event_driven_tcp_chatroo.Server.Broadcast.{with_frame, queue_loop-All}

-- The states of a client's end, which no connection of a server takes.
abbrev pub is_client_state : ConnectionState → Bool
is_client_state connecting = true
is_client_state sending_client_hello = true
is_client_state waiting_for_server_hello = true
is_client_state s = false

abbrev pub is_introduced : ConnectionState → Bool
is_introduced s = sends_server_hello s || is_active s

-- The write offset lies in the buffer, which holds whole frames of legal messages of the server,
-- and for a member of the room only such as the room gets; who has not said hello has no name and is
-- sent nothing, and who has said it has a name.
pub record IsSound (c : Connection) : Type 0 where
  pub buffered : IsBuffered c
  pub strangers : awaits_client_hello c.state ≡ true → (c.name ≡ []) × (c.out_buffer ≡ [])
  pub named : is_introduced c.state ≡ true → c.name ≢ []
  pub serving : is_client_state c.state ≡ false
  pub framed : StreamOf IsServerMessage c.out_buffer
  pub room : is_active c.state ≡ true → StreamOf IsRoomMessage c.out_buffer

abbrev pub Sound : {K : Type 0} → Server K → Type 0
Sound s = All IsSound s.connections

abbrev pub Keeps : {K A : Type 0} → Action K A → Type 0
Keeps {K} m = (s : Server K) → Sound s → Sound (m s).1

pub with_frame-IsSound :
    (m : Message) (c : Connection)
    → IsRoomMessage m
    → is_active c.state ≡ true
    → IsSound c
    → IsSound (with_frame m c)
with_frame-IsSound m c r a h = record {
  buffered = omega (arith, length-append c.out_buffer (frame m.type m.payload), h.buffered);
  strangers = λ w. absurd (both c.state a w);
  named = h.named;
  serving = h.serving;
  framed = frame-StreamOf IsServerMessage c.out_buffer m (room-IsServerMessage m r) h.framed;
  room = λ w. frame-StreamOf IsRoomMessage c.out_buffer m r (h.room w);
}
  where
    both : (s : ConnectionState) → is_active s ≡ true → awaits_client_hello s ≡ true → ⊥
    both s a w = ground arith

pub failed-IsSound : (c : Connection) → IsSound c → IsSound (record c { state = connection_error })
failed-IsSound c h = record {
  buffered = h.buffered;
  strangers = λ w. cc;
  named = λ w. cc;
  serving = refl;
  framed = h.framed;
  room = λ w. cc;
}

module _ {K : Type 0} (os : Os K) where
  queue_to_all-Keeps :
      (skip : Connection → Bool) (m : Message) (mask : ℕ)
      → ForRoom m
      → ((c : Connection) → skip c ≡ false → is_active c.state ≡ true)
      → Keeps (queue_to_all os skip m mask)
  queue_to_all-Keeps skip m mask for_room only_active s h =
      queue_loop-All os skip m mask s.epoll_fd IsSound
        (λ c e fits p. with_frame-IsSound m c (for_room fits) (only_active c e) p)
        (λ c e p. failed-IsSound c p) s.connections s.kernel h

  pub broadcast-Keeps :
      (sender : Option ℕ) (text : Bytes)
      → Keeps (broadcast_message_to_other_clients os sender (message broadcast text))
  unfolding broadcast_message_to_other_clients
  broadcast-Keeps sender text =
      queue_to_all-Keeps _ (message broadcast text) _ (broadcast-ForRoom text) (λ c e. ground arith)

  pub queue_close-Keeps : Keeps (queue_close_to_all_clients os)
  unfolding queue_close_to_all_clients
  queue_close-Keeps = queue_to_all-Keeps _ _ _ close-ForRoom (λ c e. ground arith)

  pub announce-Keeps : (sender : Option ℕ) (notice : Message) → Keeps (announce os sender notice)
  unfolding announce
  announce-Keeps sender notice s h =
      broadcast-Keeps sender (printed_message (codes "server") notice)
        (print_line (printed_message (codes "server") notice) s).1 h

  pub announce_connected-Keeps : (c : Connection) → Keeps (announce_client_connected os c)
  unfolding announce_client_connected
  announce_connected-Keeps c = announce-Keeps none (connected_notice c)

  pub announce_disconnected-Keeps : (c : Connection) → Keeps (announce_client_disconnected os c)
  unfolding announce_client_disconnected
  announce_disconnected-Keeps c = announce-Keeps (some c.address) (disconnected_notice c)

  pub announce_closing-Keeps : Keeps (announce_room_closing os)
  unfolding announce_room_closing
  announce_closing-Keeps = announce-Keeps none closing_notice

  pub remove-Keeps : (c : Connection) → Keeps (remove_connection os c)
  unfolding remove_connection
  remove-Keeps c s h = erase_address-All IsSound c.address s.connections h
