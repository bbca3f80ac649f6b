-- ===== src/Server/Handshake.antt =====
-- How a client is introduced: the handler of CLIENT_HELLO in src/server/server.cpp.
use event_driven_tcp_chatroo.Base.{
  ℕ, ◌≤◌, ◌<◌, ◌≡◌, ◌≢◌, refl, ap, ◌∙◌, Bool, true, false, List, [], ◌∷◌, ◌++◌, Bytes, length,
  arith, if◌then◌else◌, Bool-cases, ◌⊎◌, inl, inr, some, ==_refl, is_empty, ◌==◌,
}
use event_driven_tcp_chatroo.Os.{Os}
use event_driven_tcp_chatroo.Connection.{
  Connection, connection_error, sending_server_hello, is_error, connection_cleanup,
  connection_read_into_in_buffer,
}
use event_driven_tcp_chatroo.Connection.Read.{received, state_after, ends_well, read_loop_lem}
use event_driven_tcp_chatroo.Protocol.{
  message, client_hello, server_hello, max_payload_size, protocol_parse_message,
}
use event_driven_tcp_chatroo.Protocol.Frame.{frame, queue-legal}
use event_driven_tcp_chatroo.Protocol.Parse.{parse-frame}
use event_driven_tcp_chatroo.Epoll.{epoll_fd_mod, epoll_fd_remove, watch_both}
use event_driven_tcp_chatroo.Server.{Server, store, write_back, erase_address, remove_connection}
use event_driven_tcp_chatroo.Server.Hello.{
  read_in, answer_hello, take_hello, hello_parsed, receive_hello,
}
use event_driven_tcp_chatroo.Server.Failure.{erase-write_back}

-- Of two changes to one object the later one stays.
write_back-write_back :
    (c d : Connection) (cs : List Connection)
    → c.address ≡ d.address
    → write_back d (write_back c cs) ≡ write_back d cs
write_back-write_back c d [] e = refl
write_back-write_back c d (x ∷ cs) e =
    ground (arith, ==_refl d.address, write_back-write_back c d cs e)

-- A connection with its answer queued.
abbrev pub introduced : Bytes → Bytes → Connection → Connection
introduced server_name client_name c = record c {
  name = client_name;
  state = sending_server_hello;
  out_buffer = c.out_buffer ++ frame server_hello server_name;
}

is_empty-false : (xs : Bytes) → xs ≢ [] → is_empty xs ≡ false
is_empty-false [] h = absurd (h refl)
is_empty-false (x ∷ xs) h = refl

module _ {K : Type 0} (os : Os K) where
  answer_hello_lem :
      (c : Connection) (s : Server K)
      → length s.name ≤ max_payload_size
      → let (ok, k) = epoll_fd_mod os s.epoll_fd c.fd watch_both s.kernel in
        answer_hello os c s ≡ (
          ok,
          record s {
            connections = write_back (introduced s.name c.name c) s.connections;
            kernel = k;
          },
        )
  unfolding answer_hello
  answer_hello_lem c s h = rw (queue-legal c (message server_hello s.name) h)

  -- What the handler makes of a parsed message.
  hello_message :
      (c : Connection) (name : Bytes) (n : ℕ) (s : Server K)
      → is_error c.state ≡ false
      → name ≢ []
      → length s.name ≤ max_payload_size
      → let (ok, k) = epoll_fd_mod os s.epoll_fd c.fd watch_both s.kernel in
        hello_parsed os
          (some (record { type = client_hello; payload_length = n; payload = name }), c)
          s
        ≡ (
          ok,
          record s {
            connections = write_back (introduced s.name name c) s.connections;
            kernel = k;
          },
        )
  unfolding hello_parsed take_hello
  hello_message c name n s ok some_name own =
      let c1 = record c { name = name } in
      let (watched, k) = epoll_fd_mod os s.epoll_fd c.fd watch_both s.kernel in
      rw (ok, is_empty-false name some_name)
        (answer_hello_lem c1 (store c s).1 own
          ∙ ap (λ cs. (watched, record s { connections = cs; kernel = k }))
              (write_back-write_back c (introduced s.name name c1) s.connections refl))

  hello_rejected :
      (c : Connection) (type : ℕ) (payload : Bytes) (n : ℕ) (s : Server K)
      → is_error c.state ≡ false
      → (type ≢ client_hello) ⊎ (payload ≡ [])
      → hello_parsed os (some (record { type = type; payload_length = n; payload = payload }), c) s
        ≡ (
          true,
          record s {
            connections = erase_address c.address s.connections;
            kernel = connection_cleanup os c (epoll_fd_remove os s.epoll_fd c.fd 0 s.kernel).1;
          },
        )
  unfolding hello_parsed take_hello remove_connection connection_cleanup
  hello_rejected c type payload n s ok bad = elim (Bool-cases (type == client_hello)) [
    | inr other ↦ rw (ok, other) (collapse c s)
    | inl hello ↦ elim bad [
      | inl other ↦ absurd (other (ground arith))
      | inr e ↦ rw (ok, hello, e) (collapse c s)
    ]
  ]
    where
      collapse :
          (c : Connection) (s : Server K)
          → remove_connection os (record c { state = connection_error }) (store c s).1 ≡ (
            true,
            record s {
              connections = erase_address c.address s.connections;
              kernel = connection_cleanup os c (epoll_fd_remove os s.epoll_fd c.fd 0 s.kernel).1;
            },
          )
      collapse c s =
          ap
            (λ cs. (
              true,
              record s {
                connections = cs;
                kernel = connection_cleanup os c (epoll_fd_remove os s.epoll_fd c.fd 0 s.kernel).1;
              },
            ))
            (erase-write_back c s.connections)

  module _ (c : Connection) (s : Server K) where
    -- The connection and the server after a read without a fatal error.
    abbrev read_conn : Connection
    read_conn =
        let run = (os.recv c.fd s.kernel).0 in
        record c { in_buffer = c.in_buffer ++ received run; state = state_after run c.state }

    abbrev read_state : Server K
    read_state = (store read_conn (record s { kernel = (os.recv c.fd s.kernel).1 })).1

    read_in_lem : read_in os c s ≡ ((ends_well (os.recv c.fd s.kernel).0, read_conn), read_state)
    unfolding read_in connection_read_into_in_buffer
    read_in_lem = rw (read_loop_lem (os.recv c.fd s.kernel).0 c)

    receive_hello-read :
        ends_well (os.recv c.fd s.kernel).0 ≡ true
        → receive_hello os c s ≡ hello_parsed os (protocol_parse_message read_conn) read_state
    unfolding receive_hello hello_parsed
    receive_hello-read well =
        ap after_read (read_in_lem ∙ ap (λ ok. ((ok, read_conn), read_state)) well)
      where
        after_read : (Bool × Connection) × Server K → Bool × Server K
        after_read ((ok, c1), s1) =
            (if ok then hello_parsed os (protocol_parse_message c1) else remove_connection os c1) s1

    -- If a read without a fatal error, on a connection that is not in the error state after it,
    -- completes a CLIENT_HELLO with a name that is not empty, and this name and the server's are at
    -- most 64 KiB long, then the handler sets the name, puts a SERVER_HELLO with the server's name
    -- behind the output, moves the connection to sending it, leaves in the buffer what follows the
    -- hello, and returns whether the socket could be watched for reading and writing; it changes
    -- nothing else.
    pub receive_hello_lem :
        (name rest : Bytes)
        → ends_well (os.recv c.fd s.kernel).0 ≡ true
        → is_error (state_after (os.recv c.fd s.kernel).0 c.state) ≡ false
        → c.in_buffer ++ received (os.recv c.fd s.kernel).0 ≡ frame client_hello name ++ rest
        → name ≢ []
        → length name ≤ max_payload_size
        → length s.name ≤ max_payload_size
        → let (ok, k1) = epoll_fd_mod os s.epoll_fd c.fd watch_both (os.recv c.fd s.kernel).1 in
          receive_hello os c s ≡ (
            ok,
            record s {
              connections =
                  write_back
                    (introduced s.name name (record read_conn { in_buffer = rest }))
                    s.connections;
              kernel = k1;
            },
          )
    receive_hello_lem name rest well ok e some_name fits own =
        let c2 = record read_conn { in_buffer = rest } in
        let (watched, k1) = epoll_fd_mod os s.epoll_fd c.fd watch_both (os.recv c.fd s.kernel).1 in
        receive_hello-read well
        ∙ ap (λ r. hello_parsed os r read_state)
            (parse-frame read_conn client_hello name rest (omega arith) fits e)
        ∙ hello_message c2 name (length name) read_state ok some_name own
        ∙ ap (λ cs. (watched, record s { connections = cs; kernel = k1 }))
            (write_back-write_back read_conn (introduced s.name name c2) s.connections refl)

    -- If a read without a fatal error, on a connection that is not in the error state after it,
    -- completes a message of at most 64 KiB at the front of the buffer, and this has another type
    -- than CLIENT_HELLO or is empty, then the handler returns true and the only changes are that
    -- the connection is taken out of the list, that its descriptor is taken out of the watched set,
    -- and that it is closed.
    pub receive_hello_rejected :
        (type : ℕ) (payload rest : Bytes)
        → ends_well (os.recv c.fd s.kernel).0 ≡ true
        → is_error (state_after (os.recv c.fd s.kernel).0 c.state) ≡ false
        → c.in_buffer ++ received (os.recv c.fd s.kernel).0 ≡ frame type payload ++ rest
        → type < 256
        → length payload ≤ max_payload_size
        → (type ≢ client_hello) ⊎ (payload ≡ [])
        → receive_hello os c s ≡ (
          true,
          record s {
            connections = erase_address c.address s.connections;
            kernel =
                connection_cleanup os c
                  (epoll_fd_remove os s.epoll_fd c.fd 0 (os.recv c.fd s.kernel).1).1;
          },
        )
    unfolding connection_cleanup
    receive_hello_rejected type payload rest well ok e t fits bad =
        receive_hello-read well
        ∙ ap (λ r. hello_parsed os r read_state) (parse-frame read_conn type payload rest t fits e)
        ∙ hello_rejected (record read_conn { in_buffer = rest }) type payload (length payload)
            read_state ok bad
        ∙ ap
            (λ cs. (
              true,
              record s {
                connections = cs;
                kernel =
                    connection_cleanup os c
                      (epoll_fd_remove os s.epoll_fd c.fd 0 (os.recv c.fd s.kernel).1).1;
              },
            ))
            (erase-write_back read_conn s.connections)
