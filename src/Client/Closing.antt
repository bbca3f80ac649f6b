-- ===== src/Client/Closing.antt =====
-- The end of a session, seen from src/client/client.cpp.
use event_driven_tcp_chatroo.Base.{ℕ, suc, ◌≤◌, ◌<◌, ◌≡◌, true, false, some, ◌++◌, Bytes, length}
use event_driven_tcp_chatroo.Os.{Os}
use event_driven_tcp_chatroo.Connection.{
  Connection, closed, connection_error, connection_read_into_in_buffer,
}
use event_driven_tcp_chatroo.Connection.Read.{received, state_after, ends_well, read_loop_lem}
use event_driven_tcp_chatroo.Protocol.{Message, max_payload_size}
use event_driven_tcp_chatroo.Protocol.Frame.{frame}
use event_driven_tcp_chatroo.Protocol.Parse.{parse-frame}
use event_driven_tcp_chatroo.Client.{
  Client, message_parsed, handle_network_message, read_messages, handle_read_network_message_event,
}

module _ {K : Type 0} where
  -- A message that is parsed after the end of the stream has been seen breaks the connection, and
  -- is not shown.
  closed_message :
      (m : Message) (c : Connection) (s : Client K)
      → c.state ≡ closed
      → message_parsed (some m, c) s
        ≡ (some false, record s { conn = record c { state = connection_error } })
  unfolding message_parsed handle_network_message
  closed_message m c s e = rw e

  read_messages_closed :
      (fuel type : ℕ) (payload rest : Bytes) (s : Client K)
      → type < 256
      → length payload ≤ max_payload_size
      → s.conn.in_buffer ≡ frame type payload ++ rest
      → s.conn.state ≡ closed
      → read_messages (suc fuel) s
        ≡ (false, record s { conn = record s.conn { in_buffer = rest; state = connection_error } })
  unfolding read_messages
  read_messages_closed fuel type payload rest s t h e shut =
      let m : Message = record {
        type = type;
        payload_length = length payload;
        payload = payload;
      } in
      let c1 = record s.conn { in_buffer = rest } in
      rw (read_messages, parse-frame s.conn type payload rest t h e, closed_message m c1 s shut)

  -- If a read of the client ends without a fatal error and leaves the connection closed, and the
  -- buffer then begins with a whole legal frame, of whatever type, then the client drops this
  -- message: the handler returns false with the connection in the error state, and no line is
  -- printed.
  pub read_event_end_of_stream :
      (os : Os K) (type : ℕ) (payload rest : Bytes) (s : Client K)
      → let run = (os.recv s.conn.fd s.kernel).0 in
        ends_well run ≡ true
        → state_after run s.conn.state ≡ closed
        → type < 256
        → length payload ≤ max_payload_size
        → s.conn.in_buffer ++ received run ≡ frame type payload ++ rest
        → handle_read_network_message_event os s ≡ (
          false,
          record s {
            conn = record s.conn { in_buffer = rest; state = connection_error };
            kernel = (os.recv s.conn.fd s.kernel).1;
          },
        )
  unfolding handle_read_network_message_event connection_read_into_in_buffer
  read_event_end_of_stream os type payload rest s well shut t h e =
      let (run, k) = os.recv s.conn.fd s.kernel in
      let c1 = record s.conn {
        in_buffer = s.conn.in_buffer ++ received run;
        state = state_after run s.conn.state;
      } in
      rw (handle_read_network_message_event, read_loop_lem run s.conn, well)
        (read_messages_closed (length c1.in_buffer) type payload rest
          (record s { conn = c1; kernel = k }) t h e shut)
