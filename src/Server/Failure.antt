-- ===== src/Server/Failure.antt =====
-- What one client's failure does to the room (src/server/server.cpp).
pub mod Events
pub mod Stop
pub mod Removal
use event_driven_tcp_chatroo.Base.{
  ℕ, suc, ◌+◌, ◌-◌, ◌≤◌, ◌<◌, ◌≡◌, ◌⊎◌, refl, ap, Bool, true, false, not, ◌||◌, some, inl, inr,
  List, [], ◌∷◌, ◌++◌, Bytes, length, arith, ◌==◌, ==_refl, Bool-cases,
}
use event_driven_tcp_chatroo.Os.{Os, Errno, failed, send}
use event_driven_tcp_chatroo.Connection.{
  Connection, is_active, is_error, try_later, connection_flush_out_buffer,
  connection_read_into_in_buffer, connection_cleanup,
}
use event_driven_tcp_chatroo.Connection.Flush.{pending, flush-failed}
use event_driven_tcp_chatroo.Connection.Read.{received, state_after, ends_well, read_loop_lem}
use event_driven_tcp_chatroo.Protocol.{Message, chat, max_payload_size}
use event_driven_tcp_chatroo.Protocol.Frame.{frame}
use event_driven_tcp_chatroo.Protocol.Parse.{parse-frame}
use event_driven_tcp_chatroo.Frontend.{format_broadcast_message}
use event_driven_tcp_chatroo.Epoll.{watch_both, epoll_fd_remove}
use event_driven_tcp_chatroo.Server.{
  Server, is_pointer, write_back, erase_address, store, broadcast_message_to_other_clients,
  remove_connection,
}
use event_driven_tcp_chatroo.Server.Hello.{read_in}
use event_driven_tcp_chatroo.Server.Send.{flush_out, send_package}
use event_driven_tcp_chatroo.Server.Receive.{
  stop, pass_on, take_message, message_parsed, read_messages, read_package,
}
use event_driven_tcp_chatroo.Server.Broadcast.{HasReceiver, queue_loop-fails}
use event_driven_tcp_chatroo.Server.Delivery.{length-format}

-- Somebody other than the connection at address `a` is active.
abbrev pub HasListener : ℕ → List Connection → Type 0
HasListener a [] = ⊥
HasListener a (c ∷ cs) =
    ((is_active c.state ≡ true) × ((c.address == a) ≡ false)) ⊎ HasListener a cs

-- Whom a broadcast from address `a` passes over.
abbrev pub skips : ℕ → Connection → Bool
skips a d = is_pointer (some a) d || not (is_active d.state)

listener-HasReceiver : (a : ℕ) (cs : List Connection) → HasListener a cs → HasReceiver (skips a) cs
listener-HasReceiver a [] h = h
listener-HasReceiver a (d ∷ cs) (inl (on, other)) = inl (rw (on, other))
listener-HasReceiver a (d ∷ cs) (inr h) = inr (listener-HasReceiver a cs h)

-- A connection that is written back is no listener for its own messages.
write_back-HasListener :
    (c : Connection) (cs : List Connection)
    → HasListener c.address cs
    → HasListener c.address (write_back c cs)
write_back-HasListener c [] h = h
write_back-HasListener c (d ∷ cs) (inl (on, other)) = rw other (inl (on, other))
write_back-HasListener c (d ∷ cs) (inr h) = elim (Bool-cases (d.address == c.address)) [
  | inl same ↦ rw same (inr h)
  | inr other ↦ rw other (inr (write_back-HasListener c cs h))
]

pub erase-write_back :
    (c : Connection) (cs : List Connection)
    → erase_address c.address (write_back c cs) ≡ erase_address c.address cs
erase-write_back c [] = refl
erase-write_back c (d ∷ cs) = ground (arith, ==_refl c.address, erase-write_back c cs)

module _ {K : Type 0} (os : Os K) where
  pass_on-too_long :
      (c : Connection) (m : Message) (s : Server K)
      → max_payload_size < length c.name + length m.payload + 3
      → HasReceiver (skips c.address) s.connections
      → (pass_on os c m s).0 ≡ stop false
  unfolding pass_on broadcast_message_to_other_clients
  pass_on-too_long c m s h r = ground (
    arith,
    queue_loop-fails os (skips c.address) (format_broadcast_message c.name m) watch_both s.epoll_fd
        s.connections s.kernel (omega (arith, length-format c.name m)) r,
  )

  chat_parsed :
      (c : Connection) (m : Message) (s : Server K)
      → is_error c.state ≡ false
      → m.type ≡ chat
      → message_parsed os (some m, c) s ≡ pass_on os c m (store c s).1
  unfolding message_parsed take_message
  chat_parsed c m s ok t = rw (ok, t)

  -- The rounds over the messages end the loop of the server at a chat message, however legal, that
  -- is too long with its sender's name and the brackets, if anybody else is in the room.
  read_messages-too_long :
      (fuel : ℕ) (c : Connection) (payload rest : Bytes) (s : Server K)
      → is_error c.state ≡ false
      → c.in_buffer ≡ frame chat payload ++ rest
      → length payload ≤ max_payload_size
      → max_payload_size < length c.name + length payload + 3
      → HasListener c.address s.connections
      → (read_messages os (suc fuel) c s).0 ≡ false
  unfolding read_messages
  read_messages-too_long fuel c payload rest s ok e legal long listener =
      let m : Message = record {
        type = chat;
        payload_length = length payload;
        payload = payload;
      } in
      let c1 = record c { in_buffer = rest } in
      let parsed = parse-frame c chat payload rest (omega arith) legal e in
      let round = pass_on-too_long c1 m (store c1 s).1 long (
        listener-HasReceiver c.address (write_back c1 s.connections)
          (write_back-HasListener c1 s.connections listener)) in
      rw (read_messages, parsed, chat_parsed c1 m s ok refl, round)

  -- If a read without a fatal error, on a connection that is not in the error state after it,
  -- completes a chat message of at most 64 KiB at the front of the buffer, the sender's name, the
  -- message and three characters together exceed 64 KiB, and another connection is active, then the
  -- handler returns false, which ends the event loop of the server.
  pub read_package-too_long :
      (c : Connection) (payload rest : Bytes) (s : Server K)
      → let run = (os.recv c.fd s.kernel).0 in
        ends_well run ≡ true
        → is_error (state_after run c.state) ≡ false
        → c.in_buffer ++ received run ≡ frame chat payload ++ rest
        → length payload ≤ max_payload_size
        → max_payload_size < length c.name + length payload + 3
        → HasListener c.address s.connections
        → (read_package os c s).0 ≡ false
  unfolding read_package read_in connection_read_into_in_buffer
  read_package-too_long c payload rest s well ok e legal long listener =
      let (run, k) = os.recv c.fd s.kernel in
      let c1 = record c {
        in_buffer = c.in_buffer ++ received run;
        state = state_after run c.state;
      } in
      let s1 = (store c1 (record s { kernel = k })).1 in
      rw (read_package, read_loop_lem run c, well)
        (read_messages-too_long (length c1.in_buffer) c1 payload rest s1 ok e legal long
          (write_back-HasListener c1 s.connections listener))

  -- A read that ends with a fatal error takes the connection out.
  pub read_package-failed :
      (c : Connection) (s : Server K)
      → let (run, k) = os.recv c.fd s.kernel in
        ends_well run ≡ false
        → read_package os c s ≡ (
          true,
          record s {
            connections = erase_address c.address s.connections;
            kernel = connection_cleanup os c (epoll_fd_remove os s.epoll_fd c.fd 0 k).1;
          },
        )
  unfolding read_package read_in connection_read_into_in_buffer remove_connection connection_cleanup
  read_package-failed c s bad =
      let (run, k) = os.recv c.fd s.kernel in
      let c1 = record c {
        in_buffer = c.in_buffer ++ received run;
        state = state_after run c.state;
      } in
      rw (read_package, read_loop_lem run c, bad)
        (ap
          (λ cs. (
            true,
            record s {
              connections = cs;
              kernel = connection_cleanup os c (epoll_fd_remove os s.epoll_fd c.fd 0 k).1;
            },
          ))
          (erase-write_back c1 s.connections))
