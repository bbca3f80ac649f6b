-- ===== src/Tests/Shutdown.antt =====
-- The end of the room at a concrete input: a client that is being introduced and one that chats.
use event_driven_tcp_chatroo.Base.{ℕ, ◌≡◌, refl, true, false, none, [], ◌∷◌, Bytes, codes, arith}
use event_driven_tcp_chatroo.Os.{Event}
use event_driven_tcp_chatroo.Connection.{
  Connection, ConnectionState, active, sending_server_hello, connection_flush_out_buffer,
}
use event_driven_tcp_chatroo.Protocol.{protocol_queue_message}
use event_driven_tcp_chatroo.Epoll.{epollout, epoll_fd_mod}
use event_driven_tcp_chatroo.Server.{
  Server, get_connection_of, queue_loop, all_connection_buffers_empty, announce_client_connected,
}
use event_driven_tcp_chatroo.Server.Accept.{event_is_accept_client_connection}
use event_driven_tcp_chatroo.Server.Hello.{event_is_receive_client_hello}
use event_driven_tcp_chatroo.Server.Send.{
  event_is_send_network_package, handle_send_network_package_event,
}
use event_driven_tcp_chatroo.Server.Loop.{
  dispatch, handle_event, handle_events, keep_running, loop_round, loop_rounds,
}
use event_driven_tcp_chatroo.Server.Closing.Served.{serves_events, serves_event}
use event_driven_tcp_chatroo.Server.Closing.Rounds.{serves, closing_ends}
use event_driven_tcp_chatroo.Tests.System.{Net, net}

abbrev member : ℕ → ConnectionState → Bytes → Connection
member fd state waiting = record {
  address = fd;
  fd = fd;
  state = state;
  in_buffer = [];
  out_buffer = waiting;
  bytes_written = 0;
  name = codes "al";
}

abbrev writable : ℕ → Event
writable fd = record { fd = fd; events = epollout }

abbrev last_round : Server Net
last_round = record {
  name = codes "host";
  port = 8080;
  listen_fd = 3;
  epoll_fd = 4;
  connections = member 7 active (codes "y") ∷ member 8 sending_server_hello (codes "x") ∷ [];
  closing = true;
  cached = none;
  printed = [];
  kernel = record {
    arrivals = [];
    callers = [];
    waits = (writable 8 ∷ []) ∷ (writable 7 ∷ writable 8 ∷ []) ∷ [];
    lines = [];
    room = 1000;
    sent = [];
    closed = [];
    last_address = 9;
  };
}

-- Both rounds of the loop serve a socket, and the second is the last.
all_served : serves net 131088 last_round ≡ true
unfolding serves serves_events serves_event loop_round handle_events handle_event dispatch
    keep_running event_is_accept_client_connection event_is_receive_client_hello
    event_is_send_network_package handle_send_network_package_event get_connection_of
    connection_flush_out_buffer queue_loop protocol_queue_message announce_client_connected
    all_connection_buffers_empty epoll_fd_mod
all_served = refl

closing_ends_example : (loop_rounds net 131088 last_round).0 ≡ false
closing_ends_example =
    closing_ends net 131087 last_round refl
      ((((λ e. omega (arith, e)), (λ e. omega (arith, e))), tt), (tt, tt)) all_served (omega arith)
