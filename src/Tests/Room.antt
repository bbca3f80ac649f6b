-- ===== src/Tests/Room.antt =====
-- Whole runs of the server on the test system.
use event_driven_tcp_chatroo.Base.{
  ℕ, ◌≡◌, refl, Bool, false, none, List, [], ◌∷◌, ◌++◌, Bytes, codes,
}
use event_driven_tcp_chatroo.Os.{Event, RecvRun, chunk, recv_error, eagain}
use event_driven_tcp_chatroo.Connection.{
  connection_flush_out_buffer, connection_read_into_in_buffer, connection_cleanup,
}
use event_driven_tcp_chatroo.Protocol.{
  client_hello, server_hello, chat, broadcast, protocol_queue_message, protocol_parse_message,
}
use event_driven_tcp_chatroo.Protocol.Frame.{frame}
use event_driven_tcp_chatroo.Epoll.{
  epoll_register, epoll_fd_mod, epoll_fd_remove, epollin, epollout,
}
use event_driven_tcp_chatroo.Server.{
  Server, get_connection_of, queue_loop, all_connection_buffers_empty, announce_client_connected,
}
use event_driven_tcp_chatroo.Server.Accept.{
  event_is_accept_client_connection, handle_accept_client_connection_event,
}
use event_driven_tcp_chatroo.Server.Hello.{
  event_is_receive_client_hello, handle_receive_client_hello_event,
}
use event_driven_tcp_chatroo.Server.Send.{
  event_is_send_network_package, handle_send_network_package_event,
}
use event_driven_tcp_chatroo.Server.Receive.{
  event_is_read_network_package, handle_read_network_package_event,
}
use event_driven_tcp_chatroo.Server.Input.{event_is_read_stdin, handle_read_stdin_event}
use event_driven_tcp_chatroo.Server.Loop.{
  dispatch, handle_event, handle_events, keep_running, loop_round, loop_rounds,
}
use event_driven_tcp_chatroo.Tests.System.{Net, net, delivered}

abbrev says : ℕ → Bytes → ℕ × RecvRun
says fd bytes = (fd, chunk bytes (recv_error eagain))

abbrev event : ℕ → ℕ → Event
event fd mask = record { fd = fd; events = mask }

abbrev room : Net → Server Net
room k = record {
  name = codes "host";
  port = 8080;
  listen_fd = 3;
  epoll_fd = 4;
  connections = [];
  closing = false;
  cached = none;
  printed = [];
  kernel = k;
}

-- Two callers, who introduce themselves; the first one says hi.
abbrev evening : Net
evening = record {
  arrivals =
      says 7 (frame client_hello (codes "al"))
      ∷ says 8 (frame client_hello (codes "bo"))
      ∷ says 7 (frame chat (codes "hi"))
      ∷ [];
  callers = 7 ∷ 8 ∷ [];
  waits =
      (event 3 epollin ∷ [])
      ∷ (event 7 epollin ∷ event 8 epollin ∷ [])
      ∷ (event 7 epollout ∷ event 8 epollout ∷ [])
      ∷ (event 7 epollout ∷ event 8 epollout ∷ [])
      ∷ (event 7 epollin ∷ [])
      ∷ (event 8 epollout ∷ [])
      ∷ [];
  lines = [];
  room = 1000;
  sent = [];
  closed = [];
  last_address = 0;
}

after_rounds : ℕ → Net → Bool × Server Net
unfolding loop_rounds loop_round handle_events keep_running handle_event dispatch
    event_is_accept_client_connection handle_accept_client_connection_event
    event_is_receive_client_hello handle_receive_client_hello_event event_is_send_network_package
    handle_send_network_package_event event_is_read_network_package
    handle_read_network_package_event event_is_read_stdin handle_read_stdin_event get_connection_of
    connection_read_into_in_buffer connection_flush_out_buffer connection_cleanup
    protocol_queue_message protocol_parse_message queue_loop epoll_register epoll_fd_mod
    epoll_fd_remove announce_client_connected all_connection_buffers_empty
after_rounds n k = loop_rounds net n (room k)

heard_by_bo : Bytes
unfolding after_rounds
heard_by_bo = delivered 8 (after_rounds 6 evening).1.kernel

heard_by_bo_lem :
    heard_by_bo
    ≡ frame server_hello (codes "host")
      ++ frame broadcast (codes "[server] `bo` connected.")
      ++ frame broadcast (codes "[al] hi")
unfolding heard_by_bo
heard_by_bo_lem = refl

printed_lines : List Bytes
unfolding after_rounds
printed_lines = (after_rounds 6 evening).1.printed

printed_lines_lem :
    printed_lines
    ≡ codes "[al] hi" ∷ codes "[server] `bo` connected." ∷ codes "[server] `al` connected." ∷ []
unfolding printed_lines
printed_lines_lem = refl
