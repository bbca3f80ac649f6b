-- ===== src/Server/Hello.antt =====
-- src/server/server.cpp, the event of a CLIENT_HELLO that comes in.
use event_driven_tcp_chatroo.Base.{
  pure, ◌>>=◌, ◌>>◌, ℕ, Bool, true, false, not, ◌&&◌, Option, none, some, ◌==◌, if◌then◌else◌,
  is_empty,
}
use event_driven_tcp_chatroo.Os.{Os}
use event_driven_tcp_chatroo.Connection.{
  Connection, ConnectionState, waiting_for_client_hello, sending_server_hello, connection_error,
  is_closed, is_error, connection_read_into_in_buffer,
}
use event_driven_tcp_chatroo.Protocol.{
  Message, message, client_hello, server_hello, protocol_queue_message, protocol_parse_message,
}
use event_driven_tcp_chatroo.Epoll.{epoll_fd_mod, watch_both, readable, any_of}
use event_driven_tcp_chatroo.Server.{
  Action, on_kernel, store, for_connection, connection_of_satisfies, remove_connection,
}

abbrev pub awaits_client_hello : ConnectionState → Bool
awaits_client_hello waiting_for_client_hello = true
awaits_client_hello s = false

-- The tests of events look up the connection, so they may change the cache.
unfoldable pub event_is_receive_client_hello : {K : Type 0} → ℕ → ℕ → Action K Bool
event_is_receive_client_hello fd event_flags s =
    if s.closing
    then (false, s)
    else connection_of_satisfies fd
        (λ c. awaits_client_hello c.state && any_of event_flags readable) s

module _ {K : Type 0} (os : Os K) where
  -- `connection_read_into_in_buffer`, with the connection written back.
  unfoldable pub read_in : Connection → Action K (Bool × Connection)
  read_in c s =
      let (ok, c1, k) = connection_read_into_in_buffer os c s.kernel in
      ((ok, c1), (store c1 (record s { kernel = k })).1)

  -- The answer to a hello whose name is already set.
  unfoldable pub answer_hello : Connection → Action K Bool
  answer_hello c s =
      let (queued, c1) = protocol_queue_message c (message server_hello s.name) in
      if queued
      then finish (record c1 { state = sending_server_hello }) s
      else (false, (store c1 s).1)
    where
      finish : Connection → Action K Bool
      finish c1 = do store c1; on_kernel (λ k. epoll_fd_mod os s.epoll_fd c1.fd watch_both k)

  unfoldable pub take_hello : Connection → Message → Action K Bool
  unfolding answer_hello remove_connection
  take_hello c m =
      if not (m.type == client_hello)
      then remove_connection os (record c { state = connection_error })
      else if is_empty m.payload
      then remove_connection os (record c { state = connection_error })
      else answer_hello (record c { name = m.payload })

  -- What the parser made of the buffer.
  unfoldable pub hello_parsed : Option Message × Connection → Action K Bool
  unfolding take_hello remove_connection
  hello_parsed (m, c) = do
    store c
    if is_error c.state then remove_connection os c else elim m [
      | none ↦ if is_closed c.state then remove_connection os c else pure true
      | some hello ↦ take_hello c hello
    ]

  unfoldable pub receive_hello : Connection → Action K Bool
  unfolding hello_parsed read_in remove_connection
  receive_hello c = do
    (ok, c1) ← read_in c
    if ok then hello_parsed (protocol_parse_message c1) else remove_connection os c1

  unfoldable pub handle_receive_client_hello_event : ℕ → Action K Bool
  unfolding receive_hello
  handle_receive_client_hello_event = for_connection receive_hello
