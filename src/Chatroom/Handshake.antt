-- ===== src/Chatroom/Handshake.antt =====
-- The two hellos: `client_hello` from src/client/client.cpp to src/server/server.cpp and the answer.
use event_driven_tcp_chatroo.Base.{
  ◌≤◌, ◌≡◌, ◌≢◌, ap, ◌∙◌, Bool, true, false, [], ◌++◌, Bytes, length,
}
use event_driven_tcp_chatroo.Os.{Os}
use event_driven_tcp_chatroo.Connection.{
  Connection, sending_client_hello, connection_flush_out_buffer,
}
use event_driven_tcp_chatroo.Connection.Flush.{SendLaws}
use event_driven_tcp_chatroo.Connection.Read.{state_after}
use event_driven_tcp_chatroo.Protocol.{message, client_hello, max_payload_size}
use event_driven_tcp_chatroo.Protocol.Frame.{frame, queue-legal}
use event_driven_tcp_chatroo.Server.{Server}
use event_driven_tcp_chatroo.Server.Handshake.{introduced}
use event_driven_tcp_chatroo.Client.{Client, queue_client_hello, handle_send_network_message_event}
use event_driven_tcp_chatroo.Client.Reads.{delivered}

module _ {L : Type 0} (os : Os L) (laws : SendLaws os) where
  -- The client with its hello in the output buffer, what a flush makes of it, and the client after
  -- the handler that does so.
  abbrev pub greeting : Client L → Client L
  greeting g = (queue_client_hello g).1

  abbrev pub flushed : Client L → Bool × Connection × L
  flushed g = connection_flush_out_buffer os (greeting g).conn (greeting g).kernel

  abbrev pub waiting : Client L → Client L
  waiting g = (handle_send_network_message_event os (greeting g)).1

  -- A client that is connected and has sent nothing so far, and whose name can be sent.
  pub record IsNew (g : Client L) : Type 0 where
    pub state : g.conn.state ≡ sending_client_hello
    pub stays : g.quitting ≡ false
    pub nothing_read : g.conn.in_buffer ≡ []
    pub nothing_queued : g.conn.out_buffer ≡ []
    pub nothing_written : g.conn.bytes_written ≡ 0
    pub nothing_sent : laws.delivered g.conn.fd g.kernel ≡ []
    pub some_name : g.name ≢ []
    pub fits : length g.name ≤ max_payload_size

  greeting_lem :
      (g : Client L)
      → IsNew g
      → greeting g ≡ record g { conn = record g.conn { out_buffer = frame client_hello g.name } }
  unfolding queue_client_hello
  greeting_lem g h =
      ap (λ (r : Bool × Connection). record g { conn = r.1 })
        (queue-legal g.conn (message client_hello g.name) h.fits)
      ∙ ap (λ b. record g { conn = record g.conn { out_buffer = b ++ frame client_hello g.name } })
          h.nothing_queued

  module _ (g : Client L) (h : IsNew g) (ok : (flushed g).0 ≡ true)
      (empty : (flushed g).1.out_buffer ≡ []) where
    stays : (greeting g).quitting ≡ false
    stays = ap (λ (s : Client L). s.quitting) (greeting_lem g h) ∙ h.stays

-- A connection of the server with the answer to a hello, which was all that a read has brought.
abbrev pub answered : {K : Type 0} → Os K → Connection → Bytes → Server K → Connection
answered os c name v =
    introduced v.name name
      (record c { in_buffer = []; state = state_after (os.recv c.fd v.kernel).0 c.state })
