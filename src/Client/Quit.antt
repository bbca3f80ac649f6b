-- ===== src/Client/Quit.antt =====
-- Leaving the room from the client's standard input (src/client/client.cpp).
pub mod Rounds
use event_driven_tcp_chatroo.Base.{
  ℕ, ◌≡◌, refl, sym, ap, ◌∙◌, true, false, inl, inr, ◌⊎◌, [], ◌∷◌, ◌++◌, codes, Bool-cases, arith,
  append-nil, drop, drop-nil,
}
use event_driven_tcp_chatroo.Os.{Os, Event, shut_write, run_call}
use event_driven_tcp_chatroo.Connection.{connection_flush_out_buffer}
use event_driven_tcp_chatroo.Connection.Flush.{SendLaws, IsBuffered, pending, flush-Flushed}
use event_driven_tcp_chatroo.Protocol.{message, close_con}
use event_driven_tcp_chatroo.Protocol.Frame.{frame, queue-legal}
use event_driven_tcp_chatroo.Epoll.{epoll_fd_mod, watch_write}
use event_driven_tcp_chatroo.Client.{
  Client, is_connecting, after_flush, event_is_check_connection_success,
  event_is_send_network_message, handle_send_network_message_event,
}
use event_driven_tcp_chatroo.Client.Input.{
  tcp_connection_is_established, handle_quit_command, take_line,
}
use event_driven_tcp_chatroo.Client.Loop.{dispatch, handle_event}

module _ {K : Type 0} (os : Os K) where
  -- The line /quit on an established connection.
  pub take_line-quit :
      (s : Client K)
      → tcp_connection_is_established s.conn.state ≡ true
      → let (ok, k) = epoll_fd_mod os s.epoll_fd s.conn.fd watch_write s.kernel in
        take_line os (codes "/quit") s ≡ (
          ok,
          record s {
            conn = record s.conn { out_buffer = s.conn.out_buffer ++ frame close_con [] };
            quitting = true;
            printed = codes "[client] exiting." ∷ s.printed;
            kernel = k;
          },
        )
  unfolding take_line handle_quit_command
  take_line-quit s e = rw (e, queue-legal s.conn (message close_con []) (omega arith))

  not_connecting :
      (fd flags : ℕ) (s : Client K)
      → is_connecting s.conn.state ≡ false
      → event_is_check_connection_success fd flags s ≡ false
  unfolding event_is_check_connection_success
  not_connecting fd flags s e = ground arith

  -- Only the handler that sends is reached.
  pub handle_event-quitting :
      (e : Event) (s : Client K)
      → s.quitting ≡ true
      → is_connecting s.conn.state ≡ false
      → (handle_event os e s ≡ (true, s))
        ⊎ ((event_is_send_network_message e.fd e.events s ≡ true)
            × (handle_event os e s ≡ handle_send_network_message_event os s))
  unfolding handle_event dispatch
  handle_event-quitting e s q c =
      elim (Bool-cases (event_is_send_network_message e.fd e.events s)) [
        | inr other ↦ inl (ground arith)
        | inl sendable ↦ inr (sendable, ground (arith, not_connecting e.fd e.events s c))
      ]
