-- ===== src/Lib.antt =====
-- A chat room over TCP: a server with any number of clients, each side one thread around an event
-- loop on `epoll`, with non-blocking sockets and an input and an output buffer per connection.
--
-- How the parts work together. The event loop of the server (src/server/server.cpp) or of the
-- client (src/client/client.cpp) takes the ready descriptors from `epoll_wait` and hands each to
-- the first handler whose test it passes. A handler for bytes that arrive reads all of them into
-- the connection's input buffer (src/connection/connection.cpp), takes message after message out of
-- it (src/network/protocol.cpp) and acts on them; a handler for a socket that takes bytes flushes
-- the output buffer, into which messages are put as frames. The server passes a chat message on to
-- all other active connections.
--
-- Which file models what:
--   Base            Boolean tests, lists over the native numbers, a state monad
--   Os              the parameter: the system calls, with what they answer
--   Connection      src/connection/connection.hpp, connection.cpp
--   Protocol        src/network/protocol.hpp, protocol.cpp
--   Frontend        src/frontend/formatPrint.cpp
--   Epoll           src/network/epoll.cpp; Epoll/Poll the part for systems without epoll
--   Server          src/server/server.hpp, server.cpp: the state and the helpers; the events in
--                   Server/Accept, Hello, Send, Receive and Input; the loop in Server/Loop
--   Client          src/client/client.hpp, client.cpp: the state and the events of the connection;
--                   Client/Input for the standard input, Client/Loop for the loop
--   Chatroom        the server's output buffers as a client reads them; Chatroom/Handshake the two hellos
--   Console         the standard streams, as the prompts use them
--   Startup         src/main.cpp, and the prompts of `server_init` and `client_init`
--   Log             src/log/log.h, log.c
--   Tests           a small system, a whole run of the server, and the theorems at concrete inputs
--
-- The proofs stand below the part they are about, in modules named for their subject: below Protocol
-- the frames, the parser and streams cut into pieces; below Connection and Epoll the buffers and the
-- descriptors; below Server the buffers of its connections (Sound), their addresses and descriptors
-- (Registry), the broadcasts (Delivery), failing
-- clients (Failure) and the end of the room (Closing); below Client the diagram of
-- its states, whole sessions (Reads, Chat, Quit) and its descriptors (Life); below Startup the prompts and
-- the descriptors of a whole run (Closing).
--
-- How the code is rendered. Functions and types keep the names of the source. A function that
-- changes an object takes its record and returns the new one. The static variables of a file
-- (`server`, `server_closing`, the static of `get_connection_of`; `client`, `client_quitting`) are
-- fields of the records `Server` and `Client`, which also hold the lines printed to the standard
-- output and the state `K` of the operating system. A pointer to a connection is an address, and a
-- handler that changes a connection writes it back to where it stands in the list. The system calls
-- are functions of a record `Os K`, which is a parameter everywhere; the laws that some theorems
-- need of `send` are the record `SendLaws`, and those of opening and closing the records `FdLaws`
-- and `ServerLaws`, and those of the end of a client `QuitLaws`; a system of the tests fulfils each. A descriptor is a number, with -1 as
-- 0xffffffff. Bytes are numbers, and the host of `htonl` is little-endian.
--
-- Loops. The flush and the loops over the messages of a buffer run on fuel, one round for each byte
-- and one more, since each round but the last consumes a byte at least. What a row of calls of
-- `recv` or `accept` answers, up to the call that ends the loop, is finite data of `Os`, and the
-- loops recurse on it. The event loops need not end, so they are observed for any number of rounds.
--
-- The start. `Console` is what the prompts use of `std::cin` and `std::cout`: the input that is left,
-- the two error bits and what was shown. A prompt loops until it is answered, so it is observed for any
-- number of rounds too. `int mode` of src/main.cpp has no first value; what it holds is a parameter, and
-- so is `inet_pton`.
--
-- The log. Its calls are left out in the other modules, since no code reads what it writes. `Log` takes
-- the text that `vfprintf` makes as an argument; a write past the end of a buffer has the result
-- `undefined`.
--
-- The answers of `accept` are those of `accept_nonblocking` of src/server/server.cpp as a whole: on Linux it
-- is the one call `accept4`, and its branch for other systems, which makes the new socket non-blocking in
-- two more calls, is part of `Os.accept`.
--
-- Not modelled: which diagnostics go to the standard error, and the errors of memory allocation other
-- than in src/log.
pub mod Base
pub mod Os
pub mod Connection
pub mod Protocol
pub mod Frontend
pub mod Epoll
pub mod Server
pub mod Client
pub mod Chatroom
pub mod Console
pub mod Startup
pub mod Log
pub mod Tests
