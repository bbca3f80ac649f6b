-- ===== src/Client/Chat.antt =====
-- A whole chat as src/client/client.cpp shows it: the hello of the server, its broadcasts, and the
-- closing of the room.
use event_driven_tcp_chatroo.Base.{
  ℕ, ◌≤◌, ◌<◌, ◌≡◌, refl, ap, ◌∙◌, inl, Bool, true, false, List, [], ◌∷◌, ◌++◌, map, flatten, Bytes,
  codes, length, arith, All, All-append,
}
use event_driven_tcp_chatroo.Os.{Os}
use event_driven_tcp_chatroo.Connection.{waiting_for_server_hello, active, closed}
use event_driven_tcp_chatroo.Protocol.{
  Message, message, max_payload_size, server_hello, broadcast, close_con,
}
use event_driven_tcp_chatroo.Protocol.Frame.{frame, IsLegal}
use event_driven_tcp_chatroo.Protocol.Chunks.{stream, IsPartial}
use event_driven_tcp_chatroo.Client.{Client, handle_network_message, connected_lines}
use event_driven_tcp_chatroo.Client.Session.{
  handle_all, handle_all-cons, with_input, put_input, after,
}
use event_driven_tcp_chatroo.Client.Reads.{
  handle_all-append, read_events, delivered, all_quiet, read_events-Agrees,
}

-- The lines of some texts on the standard output, latest first, over what was there.
abbrev pub shown : List Bytes → List Bytes → List Bytes
shown [] printed = printed
shown (text ∷ texts) printed = shown texts (text ∷ printed)

abbrev pub FitsAll : List Bytes → Type 0
FitsAll texts = All (λ t. length t ≤ max_payload_size) texts

-- The hello with the name that the client gets, then the broadcasts.
abbrev pub chat : Bytes → List Bytes → List Message
chat name texts = message server_hello name ∷ map (message broadcast) texts

message-IsLegal :
    (type : ℕ) (text : Bytes)
    → type < 256
    → length text ≤ max_payload_size
    → IsLegal (message type text)
message-IsLegal type text t h = record { is_byte = t; fits = h; exact = omega arith }

broadcasts-IsLegal :
    (texts : List Bytes) → FitsAll texts → All IsLegal (map (message broadcast) texts)
broadcasts-IsLegal [] h = tt
broadcasts-IsLegal (t ∷ texts) h =
    (message-IsLegal broadcast t (omega arith) h.0, broadcasts-IsLegal texts h.1)

pub empty-IsPartial : (b : Bytes) → b ≡ [] → IsPartial b
empty-IsPartial b e = (server_hello, [], frame server_hello [], omega arith, (λ h. cc h), rw e)

chat-IsLegal :
    (name : Bytes) (texts : List Bytes)
    → length name ≤ max_payload_size
    → FitsAll texts
    → All IsLegal (chat name texts)
chat-IsLegal name texts fits all_fit =
    (message-IsLegal server_hello name (omega arith) fits, broadcasts-IsLegal texts all_fit)

module _ {K : Type 0} where
  -- The client in the chat.
  abbrev pub connected : Bytes → Client K → Client K
  connected name s = record s {
    conn = record s.conn { name = name; state = active };
    printed = connected_lines name s.printed;
  }

  abbrev pub add_lines : List Bytes → Client K → Client K
  add_lines texts s = record s { printed = shown texts s.printed }

  -- The client once the server has closed the room.
  abbrev pub room_closed : Client K → Client K
  room_closed s = record s {
    conn = record s.conn { state = closed };
    printed = codes "[client] server closed the room." ∷ s.printed;
  }

  handle-hello :
      (name : Bytes) (s : Client K)
      → s.conn.state ≡ waiting_for_server_hello
      → handle_network_message (message server_hello name) s ≡ (true, connected name s)
  unfolding handle_network_message
  handle-hello name s h = rw h

  pub handle-broadcast :
      (m : Message) (s : Client K)
      → m.type ≡ broadcast
      → s.conn.state ≡ active
      → handle_network_message m s ≡ (true, add_lines (m.payload ∷ []) s)
  unfolding handle_network_message
  handle-broadcast m s e h = rw (e, h)

  pub handle-close :
      (m : Message) (s : Client K)
      → m.type ≡ close_con
      → m.payload ≡ []
      → s.conn.state ≡ active
      → handle_network_message m s ≡ (false, room_closed s)
  unfolding handle_network_message
  handle-close m s e empty h = rw (e, empty, h)

  handle_all-broadcasts :
      (texts : List Bytes) (s : Client K)
      → s.conn.state ≡ active
      → handle_all (map (message broadcast) texts) s ≡ (true, add_lines texts s)
  handle_all-broadcasts [] s h = unfold handle_all in refl
  handle_all-broadcasts (t ∷ texts) s h =
      handle_all-cons (message broadcast t) (map (message broadcast) texts) s
      ∙ ap (after (handle_all (map (message broadcast) texts)))
          (handle-broadcast (message broadcast t) s refl h)
      ∙ handle_all-broadcasts texts (add_lines (t ∷ []) s) h

  handle_all-chat :
      (name : Bytes) (texts : List Bytes) (s : Client K)
      → s.conn.state ≡ waiting_for_server_hello
      → handle_all (chat name texts) s ≡ (true, add_lines texts (connected name s))
  handle_all-chat name texts s h =
      handle_all-cons (message server_hello name) (map (message broadcast) texts) s
      ∙ ap (after (handle_all (map (message broadcast) texts))) (handle-hello name s h)
      ∙ handle_all-broadcasts texts (connected name s) refl

  handle_all-closing :
      (name : Bytes) (texts : List Bytes) (s : Client K)
      → s.conn.state ≡ waiting_for_server_hello
      → handle_all (chat name texts ++ message close_con [] ∷ []) s
        ≡ (false, room_closed (add_lines texts (connected name s)))
  handle_all-closing name texts s h =
      let closing = message close_con [] ∷ [] in
      let s1 = add_lines texts (connected name s) in
      handle_all-append (chat name texts) closing s
      ∙ ap (after (handle_all closing)) (handle_all-chat name texts s h)
      ∙ handle_all-cons (message close_con []) [] s1
      ∙ ap (after (handle_all [])) (handle-close (message close_con []) s1 refl refl refl)

module _ {K : Type 0} (os : Os K) where
  -- A client that waits for the hello, with an empty input buffer, handles any number of read
  -- events in a row, none of which finds the end of the stream or a fatal error. If all the bytes
  -- that they bring are the frames of a hello and of any list of broadcasts, all payloads at most
  -- 64 KiB long, with a possibly empty proper beginning of one more legal frame behind them, then,
  -- however the bytes are cut into the events and into the calls of `recv`, the handler succeeds
  -- each time, the client ends in the chat with the name of the hello, it has printed the lines of
  -- the connection and then the text of each broadcast once and in order, the beginning of the next
  -- frame stays in its buffer, and nothing else has changed but the state of the system.
  pub read_events-chat :
      (n : ℕ) (s : Client K) (name : Bytes) (texts : List Bytes) (part : Bytes)
      → all_quiet os n s ≡ true
      → s.conn.state ≡ waiting_for_server_hello
      → s.conn.in_buffer ≡ []
      → length name ≤ max_payload_size
      → FitsAll texts
      → IsPartial part
      → flatten (delivered os n s) ≡ stream (chat name texts) ++ part
      → (k : K) × (read_events os n s
          ≡ (true, with_input k part (add_lines texts (connected name s))))
  read_events-chat n s name texts part q waiting empty fits all_fit p e =
      let whole = handle_all-chat name texts s waiting in
      let a =
        read_events-Agrees os n s (chat name texts) part q (inl waiting)
          (empty-IsPartial s.conn.in_buffer empty) (chat-IsLegal name texts fits all_fit) p
          (ap (λ b. b ++ flatten (delivered os n s)) empty ∙ e) in
      (
        a.system,
        a.result
            ∙ ap (put_input a.system a.left) whole
            ∙ ap (λ b. (true, with_input a.system b (add_lines texts (connected name s))))
                (a.rest (ap (λ (r : Bool × Client K). r.0) whole)),
      )

  -- If in the same situation an empty CLOSE_CON comes behind the broadcasts, then the row of read
  -- events ends with a handler that returns false, the connection is closed, and the client has
  -- printed the lines of the connection, each broadcast once and in order, and that the server
  -- closed the room; but for the bytes left in its buffer and the state of the system, nothing else
  -- has changed. The situation is that of a client that waits for the hello, with an empty input
  -- buffer, and gets the frames of a hello and of broadcasts, all payloads at most 64 KiB long, the
  -- frame of the CLOSE_CON and a possibly empty proper beginning of one more legal frame, cut in
  -- any way, without the end of the stream or a fatal error.
  pub read_events-closed :
      (n : ℕ) (s : Client K) (name : Bytes) (texts : List Bytes) (part : Bytes)
      → all_quiet os n s ≡ true
      → s.conn.state ≡ waiting_for_server_hello
      → s.conn.in_buffer ≡ []
      → length name ≤ max_payload_size
      → FitsAll texts
      → IsPartial part
      → flatten (delivered os n s) ≡ stream (chat name texts ++ message close_con [] ∷ []) ++ part
      → (k : K) × (left : Bytes) × (read_events os n s
          ≡ (false, with_input k left (room_closed (add_lines texts (connected name s)))))
  read_events-closed n s name texts part q waiting empty fits all_fit p e =
      let closing = message close_con [] ∷ [] in
      let legal =
        All-append IsLegal (chat name texts) closing (chat-IsLegal name texts fits all_fit)
          (message-IsLegal close_con [] (omega arith) (omega arith), tt) in
      let a =
        read_events-Agrees os n s (chat name texts ++ closing) part q (inl waiting)
          (empty-IsPartial s.conn.in_buffer empty) legal p
          (ap (λ b. b ++ flatten (delivered os n s)) empty ∙ e) in
      (
        a.system,
        a.left,
        a.result ∙ ap (put_input a.system a.left) (handle_all-closing name texts s waiting),
      )
