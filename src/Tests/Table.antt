-- ===== src/Tests/Table.antt =====
-- A table of open descriptors for the tests, and the theorems on descriptors at concrete inputs.
use event_driven_tcp_chatroo.Base.{
  some, Bytes, ◌≢◌, All, ℕ, suc, ◌+◌, ◌≤◌, ◌≡◌, refl, Bool, true, false, not, ◌&&◌, ◌||◌, none,
  List, [], ◌∷◌, ◌++◌, codes, ◌==◌, if◌then◌else◌, arith,
}
use event_driven_tcp_chatroo.Os.{
  Os, Errno, eagain, other_error, Reply, returned, failed, Syscall, socket, bind, send, close,
  epoll_create, recv_error, chunk, accept_error, ready,
}
use event_driven_tcp_chatroo.Connection.{
  Connection, no_fd, active, server_create_listening_socket, client_connect_to_server,
}
use event_driven_tcp_chatroo.Connection.Descriptors.{FdLaws, opens, keeps}
use event_driven_tcp_chatroo.Os.{AcceptRun, accepted}
use event_driven_tcp_chatroo.Server.{Server, get_connection_of, find_fd}
use event_driven_tcp_chatroo.Server.Registry.Owned.{ServerLaws, IsAcceptRun}
use event_driven_tcp_chatroo.Server.Registry.Handlers.{Reg}
use event_driven_tcp_chatroo.Server.Registry.Rounds.{loop_rounds-look_up, loop_rounds-Registered}
use event_driven_tcp_chatroo.Server.Loop.{
  server_start, server_event_loop, start_loop, loop_round, keep_running, handle_events,
  handle_event, dispatch, cleanup_connections, server_cleanup, loop_rounds,
}
use event_driven_tcp_chatroo.Console.{Console, read_word, read_int, ignore_line}
use event_driven_tcp_chatroo.Startup.{
  line, ask_name, ask_listen_port, ask_address, ask_server_port, choose_mode,
}
use event_driven_tcp_chatroo.Server.{
  name_is_reserved, all_connection_buffers_empty, all_buffers_empty,
}
use event_driven_tcp_chatroo.Connection.{
  after_connect, bind_and_listen, set_nonblocking, connection_cleanup,
}
use event_driven_tcp_chatroo.Epoll.{
  epoll_fd_mod, initial_socket_events, create_epoll_for_connection, create_epoll,
  create_epoll_with_socket_events, epoll_register, epoll_fd_add, epoll_update,
}
use event_driven_tcp_chatroo.Server.Accept.{
  event_is_accept_client_connection, handle_accept_client_connection_event, accept_loop, admit,
}
use event_driven_tcp_chatroo.Server.Hello.{event_is_receive_client_hello}
use event_driven_tcp_chatroo.Server.Send.{event_is_send_network_package}
use event_driven_tcp_chatroo.Server.Receive.{event_is_read_network_package}
use event_driven_tcp_chatroo.Server.Input.{event_is_read_stdin, handle_read_stdin_event, line_read}
use event_driven_tcp_chatroo.Startup.Init.{
  Outcome, server_init, server_listen, client_init, client_connect, main, finished,
}
use event_driven_tcp_chatroo.Startup.Closing.{ClosesAll, main-ClosesAll}
use event_driven_tcp_chatroo.Protocol.{protocol_queue_message}
use event_driven_tcp_chatroo.Client.{
  event_is_check_connection_success, event_is_send_network_message, event_is_read_network_message,
  queue_client_hello,
}
use event_driven_tcp_chatroo.Client
use event_driven_tcp_chatroo.Client.Loop.{client_start, client_event_loop, client_cleanup, greet}

-- The open descriptors.
abbrev pub Table : Type 0
Table = List ℕ

abbrev is_member : ℕ → Table → Bool
is_member d [] = false
is_member d (x ∷ xs) = d == x || is_member d xs

abbrev remove : ℕ → Table → Table
remove fd [] = []
remove fd (x ∷ xs) = let rest = remove fd xs in if x == fd then rest else x ∷ rest

abbrev unused : Table → ℕ
unused [] = 3
unused (x ∷ xs) = suc (x + unused xs)

-- A number is used as a descriptor up to the one that stands for -1.
abbrev pub is_open : ℕ → Table → Bool
is_open d k = not (d == no_fd) && is_member d k

abbrev new_fd : Table → Reply × Table
new_fd k =
    if unused k == no_fd then (failed (other_error 24), k) else (returned (unused k), unused k ∷ k)

abbrev take_caller : Table → AcceptRun Table
take_caller k =
    if unused k == no_fd
    then accept_error eagain k
    else accepted (unused k) (unused k ∷ k) (λ later. accept_error eagain later)

-- Port 80 cannot be bound, and no socket can be written.
abbrev pub table_call : Syscall → Table → Reply × Table
table_call socket k = new_fd k
table_call epoll_create k = new_fd k
table_call (close fd) k = (returned 0, remove fd k)
table_call (bind fd port) k = ((if port == 80 then failed (other_error 13) else returned 0), k)
table_call (send fd bytes) k = (failed (other_error 32), k)
table_call c k = (returned 0, k)

abbrev pub table_os : Os Table
table_os = record {
  call = table_call;
  recv = λ fd k. (chunk (codes "hi") (recv_error (other_error 104)), k);
  accept = λ fd k. take_caller k;
  epoll_wait =
      λ fd k. (ready (record { fd = 4; events = 1 } ∷ record { fd = 0; events = 1 } ∷ []), k);
  new_address = λ used k. (unused used, k);
  getline = λ k. (none, k);
}

above-is_member : (d : ℕ) (k : Table) → unused k ≤ d → is_member d k ≡ false
above-is_member d [] h = refl
above-is_member d (x ∷ xs) h = ground (arith, above-is_member d xs)

unused-is_member : (k : Table) → is_member (unused k) k ≡ false
unused-is_member k = above-is_member (unused k) k (omega arith)

remove-is_member :
    (fd d : ℕ) (k : Table) → is_member d (remove fd k) ≡ (not (d == fd) && is_member d k)
remove-is_member fd d [] = ground arith
remove-is_member fd d (x ∷ xs) = ground (arith, remove-is_member fd d xs)

new_fresh : (k : Table) (fd : ℕ) → (new_fd k).0 ≡ returned fd → is_open fd k ≡ false
new_fresh k fd e = ground (arith, unused-is_member k)

new_opened :
    (k : Table) (fd d : ℕ)
    → (new_fd k).0 ≡ returned fd
    → is_open d (new_fd k).1 ≡ (d == fd || is_open d k)
new_opened k fd d e = ground arith

new_failed :
    (k : Table) (e : Errno) (d : ℕ) → (new_fd k).0 ≡ failed e → is_open d (new_fd k).1 ≡ is_open d k
new_failed k e d h = ground arith

pub table_closed :
    (k : Table) (fd d : ℕ) → is_open d (table_call (close fd) k).1 ≡ (not (d == fd) && is_open d k)
table_closed k fd d = ground (arith, remove-is_member fd d k)

pub table_fresh :
    (c : Syscall) (k : Table) (fd : ℕ)
    → opens c ≡ true
    → (table_call c k).0 ≡ returned fd
    → is_open fd k ≡ false
table_fresh socket k fd o e = new_fresh k fd e
table_fresh epoll_create k fd o e = new_fresh k fd e
table_fresh c k fd o e = cc

pub table_opened :
    (c : Syscall) (k : Table) (fd d : ℕ)
    → opens c ≡ true
    → (table_call c k).0 ≡ returned fd
    → is_open d (table_call c k).1 ≡ (d == fd || is_open d k)
table_opened socket k fd d o e = new_opened k fd d e
table_opened epoll_create k fd d o e = new_opened k fd d e
table_opened c k fd d o e = cc

pub table_not_opened :
    (c : Syscall) (k : Table) (e : Errno) (d : ℕ)
    → opens c ≡ true
    → (table_call c k).0 ≡ failed e
    → is_open d (table_call c k).1 ≡ is_open d k
table_not_opened socket k e d o h = new_failed k e d h
table_not_opened epoll_create k e d o h = new_failed k e d h
table_not_opened c k e d o h = cc

pub table_kept :
    (c : Syscall) (k : Table) (d : ℕ) → keeps c ≡ true → is_open d (table_call c k).1 ≡ is_open d k
table_kept socket k d h = cc
table_kept epoll_create k d h = cc
table_kept (close fd) k d h = cc
table_kept c k d h = refl

abbrev pub table_laws : FdLaws table_os
table_laws = record {
  is_open = is_open;
  fresh = table_fresh;
  opened = table_opened;
  not_opened = table_not_opened;
  closed = table_closed;
  kept = table_kept;
  address_kept = λ used k d. refl;
  never = λ k. refl;
}

abbrev pub last_guest : Connection
last_guest = record {
  address = 1;
  fd = 7;
  state = active;
  in_buffer = [];
  out_buffer = [];
  bytes_written = 0;
  name = codes "al";
}

abbrev pub old_room : Server Table
old_room = record {
  name = codes "host";
  port = 8080;
  listen_fd = 3;
  epoll_fd = 4;
  connections = last_guest ∷ [];
  closing = true;
  cached = none;
  printed = [];
  kernel = 0 ∷ 3 ∷ 4 ∷ 7 ∷ [];
}

pub below_unused : (k : Table) (n : ℕ) → unused k ≤ n → All (λ a. a ≢ n) k
below_unused [] n h = tt
below_unused (x ∷ xs) n h = ((λ e. omega (arith, e)), below_unused xs n (omega arith))

pub caller_opened : (k : Table) → IsAcceptRun is_open k (take_caller k)
caller_opened k = split (unused k == no_fd) refl
  where
    split :
        (b : Bool)
        → (unused k == no_fd) ≡ b
        → IsAcceptRun is_open k (
            if b
            then accept_error eagain k
            else accepted (unused k) (unused k ∷ k) (λ later. accept_error eagain later))
    split true e = λ d. refl
    split false e = ((ground (arith, unused-is_member k), λ d. ground arith), λ later d. refl)

old_room_exact :
    (d : ℕ) → is_open d (0 ∷ 3 ∷ 4 ∷ 7 ∷ []) ≡ ((d == 7 || false) || (d == 0 || (d == 3 || d == 4)))
old_room_exact d = ground arith

abbrev pub server_laws : ServerLaws table_os
server_laws = record {
  fds = table_laws;
  others = λ d. d == 0 || (d == 3 || d == 4);
  recv_kept = λ fd k d. refl;
  wait_kept = λ fd k d. refl;
  line_kept = λ k d. refl;
  accepts = λ fd k. caller_opened k;
  new_address = λ used k. below_unused used (unused used) (omega arith);
}

loop_rounds-look_up_example :
    let s1 = (loop_rounds table_os 2 (record old_room { closing = false })).1 in
    (get_connection_of 7 s1).0 ≡ find_fd 7 s1.connections
loop_rounds-look_up_example =
    loop_rounds-look_up table_os server_laws 2 7 (record old_room { closing = false })
      (record {
        distinct = (tt, tt);
        are_open = (refl, tt);
        exact = λ d. old_room_exact d;
        apart = (refl, tt);
      })

loop_rounds-Registered_example :
    Reg table_os server_laws (loop_rounds table_os 2 (record old_room { closing = false })).1
loop_rounds-Registered_example =
    loop_rounds-Registered table_os server_laws 2 (record old_room { closing = false })
      (record {
        distinct = (tt, tt);
        are_open = (refl, tt);
        exact = λ d. old_room_exact d;
        apart = (refl, tt);
      })

-- A run of each mode: a client comes in or the hello is queued, then the input ends.
abbrev typed : Bytes → Console
typed text = record { input = text; fail = false; eof = false; shown = [] }

abbrev room_typed : Console
room_typed = typed (line "1" ++ line "bo" ++ line "8080")

abbrev chat_typed : Console
chat_typed = typed (line "2" ++ line "al" ++ line "::1" ++ line "8080")

abbrev run : Console → Outcome Table
run c = main table_os (λ rest k. k) 3 3 (λ i. 0) (λ text. some 1) c (0 ∷ [])

server_run : run room_typed ≡ finished (0 ∷ [])
unfolding main choose_mode server_init ask_name read_word name_is_reserved ask_listen_port read_int
    server_listen server_start server_create_listening_socket server_event_loop start_loop
    create_epoll create_epoll_with_socket_events epoll_register epoll_fd_add epoll_update
    bind_and_listen set_nonblocking loop_rounds loop_round keep_running handle_events handle_event
    dispatch event_is_accept_client_connection handle_accept_client_connection_event accept_loop
    admit event_is_receive_client_hello event_is_send_network_package event_is_read_network_package
    event_is_read_stdin handle_read_stdin_event line_read get_connection_of server_cleanup
    cleanup_connections connection_cleanup all_connection_buffers_empty all_buffers_empty
    ignore_line
server_run = refl

client_run : run chat_typed ≡ finished (0 ∷ [])
unfolding main choose_mode client_init ask_name read_word name_is_reserved ask_address
    ask_server_port read_int client_connect client_start client_connect_to_server after_connect
    set_nonblocking client_event_loop Client.Loop.start_loop create_epoll_for_connection
    initial_socket_events create_epoll_with_socket_events epoll_register epoll_fd_add epoll_fd_mod
    epoll_update greet queue_client_hello protocol_queue_message Client.Loop.loop_rounds
    Client.Loop.loop_round Client.Loop.handle_events Client.Loop.handle_event Client.Loop.dispatch
    event_is_check_connection_success event_is_send_network_message event_is_read_network_message
    Client.Input.event_is_read_stdin Client.Input.handle_read_stdin_event Client.Input.line_read
    client_cleanup connection_cleanup ignore_line
client_run = refl

main-ClosesAll_example : ClosesAll is_open (0 ∷ []) (run chat_typed)
main-ClosesAll_example =
    main-ClosesAll table_os server_laws (λ rest k. k) (λ rest k d. refl) 3 3 (λ i. 0)
      (λ text. some 1) chat_typed (0 ∷ [])
