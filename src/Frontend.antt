-- ===== src/Frontend.antt =====
-- src/frontend/formatPrint.cpp: the line that a message is shown as, and the broadcast made of it.
use event_driven_tcp_chatroo.Base.{◌++◌, Bytes, codes}
use event_driven_tcp_chatroo.Protocol.{Message, message, broadcast}

-- `format_print_message`: what goes to the standard output, less the end of the line.
abbrev pub printed_message : Bytes → Message → Bytes
printed_message name m = codes "[" ++ (name ++ (codes "] " ++ m.payload))

abbrev pub format_broadcast_message : Bytes → Message → Message
format_broadcast_message name m =
    message broadcast (codes "[" ++ (name ++ (codes "] " ++ m.payload)))
