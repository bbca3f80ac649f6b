-- ===== src/Tests/Quitting.antt =====
-- Leaving the room at a concrete input.
use event_driven_tcp_chatroo.Base.{ℕ, ◌≡◌, refl, Bool, false, List, [], ◌∷◌, ◌++◌, Bytes, codes}
use event_driven_tcp_chatroo.Os.{
  Os, Event, Errno, eintr, wait_failed, ready, Syscall, socket, send, close, epoll_create,
}
use event_driven_tcp_chatroo.Connection.{active, connection_flush_out_buffer}
use event_driven_tcp_chatroo.Connection.Flush.{SendLaws}
use event_driven_tcp_chatroo.Protocol.{close_con, protocol_queue_message}
use event_driven_tcp_chatroo.Protocol.Frame.{frame}
use event_driven_tcp_chatroo.Epoll.{epoll_fd_mod, epollout}
use event_driven_tcp_chatroo.Client.{
  Client, after_flush, event_is_check_connection_success, event_is_send_network_message,
  handle_send_network_message_event,
}
use event_driven_tcp_chatroo.Client.Input.{take_line, handle_quit_command}
use event_driven_tcp_chatroo.Client.Loop.{
  dispatch, handle_event, handle_events, loop_round, loop_rounds,
}
use event_driven_tcp_chatroo.Client.Quit.Rounds.{sends, QuitLaws}
use event_driven_tcp_chatroo.Tests.System.{
  Net, net, net_call, delivered, send_bounded, send_takes, send_fails,
}

abbrev calm : Net
calm = record {
  arrivals = [];
  callers = [];
  waits = [];
  lines = [];
  room = 100;
  sent = [];
  closed = [];
  last_address = 9;
}

abbrev leaver : Bytes → Bool → List Bytes → Net → Client Net
leaver waiting quitting printed k = record {
  name = codes "bo";
  conn = record {
    address = 1;
    fd = 7;
    state = active;
    in_buffer = [];
    out_buffer = waiting;
    bytes_written = 0;
    name = codes "host";
  };
  epoll_fd = 4;
  quitting = quitting;
  printed = printed;
  kernel = k;
}

-- The same system, with a wait that always finds the socket writable.
abbrev busy : Os Net
busy = record net { epoll_wait = λ fd k. (ready (record { fd = 7; events = epollout } ∷ []), k) }

abbrev busy_laws : SendLaws busy
busy_laws = record {
  delivered = delivered;
  send_bounded = send_bounded;
  send_takes = send_takes;
  send_fails = send_fails;
}

busy_kept :
    (c : Syscall) (k : Net) (fd : ℕ)
    → sends c ≡ false
    → delivered fd (net_call c k).1 ≡ delivered fd k
busy_kept (send g bytes) k fd h = cc h
busy_kept (close g) k fd h = refl
busy_kept socket k fd h = refl
busy_kept epoll_create k fd h = refl
busy_kept c k fd h = refl

never_fails : {es : List Event} {e : Errno} → ready es ≡ wait_failed e → e ≡ eintr
never_fails h = cc h

abbrev quit_laws : QuitLaws busy
quit_laws = record {
  sending = busy_laws;
  call_kept = busy_kept;
  wait_kept = λ epoll_fd fd k. refl;
  wait_interrupted = λ epoll_fd k e h. never_fails h;
}

abbrev chatter : Client Net
chatter = leaver (codes "x") false [] calm

-- It has sent all that waited, and the CLOSE_CON, and ends.
sends_all :
    let (running, s1) = loop_rounds busy 2 (take_line busy (codes "/quit") chatter).1 in
    (running ≡ false) × (delivered 7 s1.kernel ≡ codes "x" ++ frame close_con [])
unfolding take_line handle_quit_command protocol_queue_message epoll_fd_mod loop_rounds loop_round
    handle_events handle_event dispatch event_is_check_connection_success
    event_is_send_network_message handle_send_network_message_event after_flush
    connection_flush_out_buffer
sends_all = (refl, refl)
