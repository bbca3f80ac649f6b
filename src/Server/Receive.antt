-- ===== src/Server/Receive.antt =====
-- src/server/server.cpp, the event of bytes from a client that has been introduced.
use event_driven_tcp_chatroo.Base.{
  pure, ◌>>=◌, ◌>>◌, and_then, ℕ, zero, suc, Bool, true, false, ◌&&◌, Option, none, some, ◌==◌,
  if◌then◌else◌, is_empty, length,
}
use event_driven_tcp_chatroo.Os.{Os}
use event_driven_tcp_chatroo.Connection.{
  Connection, connection_error, is_closed, is_error, is_active,
}
use event_driven_tcp_chatroo.Protocol.{Message, chat, close_con, protocol_parse_message}
use event_driven_tcp_chatroo.Frontend.{printed_message, format_broadcast_message}
use event_driven_tcp_chatroo.Epoll.{readable, any_of}
use event_driven_tcp_chatroo.Server.{
  Action, print_line, store, for_connection, connection_of_satisfies,
  broadcast_message_to_other_clients, announce_client_disconnected, remove_connection,
}
use event_driven_tcp_chatroo.Server.Hello.{read_in}

unfoldable pub event_is_read_network_package : {K : Type 0} → ℕ → ℕ → Action K Bool
event_is_read_network_package fd event_flags s =
    if s.closing
    then (false, s)
    else connection_of_satisfies fd (λ c. is_active c.state && any_of event_flags readable) s

-- How a round of the loop ends: `return b;`, or the next round with the connection as it is now.
pub data Round : Type 0 where
  stop : Bool → Round
  again : Connection → Round

abbrev pub go_on : {K : Type 0} → (Connection → Action K Bool) → Round → Action K Bool
go_on next (stop ok) s = (ok, s)
go_on next (again c) s = next c s

module _ {K : Type 0} (os : Os K) where
  abbrev pub stops : Action K Bool → Action K Round
  stops m s = let (ok, s1) = m s in (stop ok, s1)

  -- `conn->state = CONNECTION_ERROR; return remove_connection(conn);`
  unfoldable pub reject : Connection → Action K Bool
  unfolding remove_connection
  reject c = remove_connection os (record c { state = connection_error })

  unfoldable pub say_goodbye : Connection → Action K Bool
  unfolding announce_client_disconnected remove_connection
  say_goodbye c = and_then (announce_client_disconnected os c) (remove_connection os c)

  unfoldable pub pass_on : Connection → Message → Action K Round
  unfolding broadcast_message_to_other_clients
  pass_on c m = do
    print_line (printed_message c.name m)
    ok ← broadcast_message_to_other_clients os (some c.address) (format_broadcast_message c.name m)
    if ok then pure (again c) else pure (stop false)

  unfoldable pub take_message : Connection → Message → Action K Round
  unfolding reject say_goodbye pass_on
  take_message c m =
      if m.type == close_con
      then if is_empty m.payload then stops (say_goodbye c) else stops (reject c)
      else if m.type == chat
      then pass_on c m
      else stops (reject c)

  unfoldable pub message_parsed : Option Message × Connection → Action K Round
  unfolding take_message say_goodbye remove_connection
  message_parsed (m, c) = do
    store c
    if is_error c.state then stops (remove_connection os c) else elim m [
      | none ↦ if is_closed c.state then stops (say_goodbye c) else pure (stop true)
      | some m ↦ take_message c m
    ]

  -- Every round but the last takes a frame from the buffer, so a round for each byte is enough.
  unfoldable pub read_messages : ℕ → Connection → Action K Bool
  read_messages zero c s = (true, s)
  read_messages (suc fuel) c s =
      let (round, s1) = message_parsed (protocol_parse_message c) s in
      go_on (read_messages fuel) round s1

  unfoldable pub read_package : Connection → Action K Bool
  unfolding read_in read_messages message_parsed remove_connection
  read_package c = do
    (ok, c1) ← read_in os c
    if ok then read_messages (suc (length c1.in_buffer)) c1 else remove_connection os c1

  unfoldable pub handle_read_network_package_event : ℕ → Action K Bool
  unfolding read_package
  handle_read_network_package_event = for_connection read_package
