-- ===== src/Tests/Hellos.antt =====
-- The two hellos at a concrete input: the answer is cut within its frame.
use event_driven_tcp_chatroo.Base.{[], ◌∷◌, codes}
use event_driven_tcp_chatroo.Os.{chunk, recv_error, eagain}
use event_driven_tcp_chatroo.Connection.{sending_client_hello}
use event_driven_tcp_chatroo.Protocol.{client_hello, server_hello}
use event_driven_tcp_chatroo.Protocol.Frame.{frame}
use event_driven_tcp_chatroo.Server.{Server}
use event_driven_tcp_chatroo.Client.{Client}
use event_driven_tcp_chatroo.Tests.System.{Net}
use event_driven_tcp_chatroo.Tests.Sessions.{guest, cut_at}
use event_driven_tcp_chatroo.Tests.Polling.{hall, arriving}

-- The client before its hello, with what it will read, and the server with what it reads.
abbrev newcomer : Client Net
newcomer = guest sending_client_hello (cut_at 3 (frame server_hello (codes "host")))

abbrev host : Server Net
host = hall (arriving ((7, chunk (frame client_hello (codes "bo")) (recv_error eagain)) ∷ []))
