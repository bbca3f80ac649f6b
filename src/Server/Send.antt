-- ===== src/Server/Send.antt =====
-- src/server/server.cpp, the event of a socket that takes bytes.
use event_driven_tcp_chatroo.Base.{
  pure, ◌>>=◌, ◌>>◌, ℕ, Bool, true, false, not, ◌&&◌, ◌||◌, if◌then◌else◌, is_empty,
}
use event_driven_tcp_chatroo.Os.{Os}
use event_driven_tcp_chatroo.Connection.{
  Connection, ConnectionState, sending_server_hello, active, is_active, connection_flush_out_buffer,
}
use event_driven_tcp_chatroo.Epoll.{epoll_fd_mod, watch_read, epollout, any_of}
use event_driven_tcp_chatroo.Server.{
  Action, on_kernel, store, for_connection, connection_of_satisfies, announce_client_connected,
}

abbrev pub sends_server_hello : ConnectionState → Bool
sends_server_hello sending_server_hello = true
sends_server_hello s = false

unfoldable pub event_is_send_network_package : {K : Type 0} → ℕ → ℕ → Action K Bool
event_is_send_network_package fd event_flags = connection_of_satisfies fd λ c.
    (sends_server_hello c.state || is_active c.state)
    && (not (is_empty c.out_buffer) && any_of event_flags epollout)

module _ {K : Type 0} (os : Os K) where
  -- `connection_flush_out_buffer`, with the connection written back.
  unfoldable pub flush_out : Connection → Action K (Bool × Connection)
  flush_out c s =
      let (ok, c1, k) = connection_flush_out_buffer os c s.kernel in
      ((ok, c1), (store c1 (record s { kernel = k })).1)

  -- What follows a flush that did not fail.
  unfoldable pub after_flush : Connection → Action K Bool
  unfolding announce_client_connected
  after_flush c s =
      if not (is_empty c.out_buffer)
      then (true, s)
      else if sends_server_hello c.state
      then connected (record c { state = active }) s
      else on_kernel (λ k. epoll_fd_mod os s.epoll_fd c.fd watch_read k) s
    where
      connected : Connection → Action K Bool
      connected c1 = do store c1; announce_client_connected os c1

  unfoldable pub send_package : Connection → Action K Bool
  unfolding flush_out after_flush
  send_package c = do (ok, c1) ← flush_out c; if ok then after_flush c1 else pure false

  unfoldable pub handle_send_network_package_event : ℕ → Action K Bool
  unfolding send_package
  handle_send_network_package_event = for_connection send_package
