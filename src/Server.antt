-- ===== src/Server.antt =====
-- src/server/server.hpp and server.cpp: the state of the server, the look-up of connections and
-- the helpers that the event handlers share. The file's static variables stand in the state too.
-- `logd` calls, which write to stderr only, are left out.
pub mod Accept
pub mod Hello
pub mod Send
pub mod Receive
pub mod Input
pub mod Loop
pub mod Lookup
pub mod Broadcast
pub mod Sound
pub mod Delivery
pub mod Failure
pub mod Framing
pub mod Registry
pub mod Cleanup
pub mod Handshake
pub mod Closing
pub mod Termination
use event_driven_tcp_chatroo.Base.{
  ℕ, ◌+◌, Bool, true, false, not, ◌&&◌, ◌||◌, Option, none, some, List, [], ◌∷◌, ◌++◌, map, Bytes,
  codes, text_eq, is_empty, leb, ◌==◌, if◌then◌else◌, State, ◌>>◌,
}
use event_driven_tcp_chatroo.Os.{Os}
use event_driven_tcp_chatroo.Connection.{Connection, is_active, connection_cleanup}
use event_driven_tcp_chatroo.Protocol.{Message, message, chat, close_con, protocol_queue_message}
use event_driven_tcp_chatroo.Frontend.{printed_message, format_broadcast_message}
use event_driven_tcp_chatroo.Epoll.{epoll_fd_mod, epoll_fd_remove, watch_both, watch_write}

-- `Server`, with `server_closing`, the `cached_connection` of `get_connection_of` (an address), the
-- lines printed to the standard output, latest first, and the state of the system.
pub record Server (K : Type 0) : Type 0 where
  pub name : Bytes
  pub port : ℕ
  pub listen_fd : ℕ
  pub epoll_fd : ℕ
  pub connections : List Connection
  pub closing : Bool
  pub cached : Option ℕ
  pub printed : List Bytes
  pub kernel : K

abbrev pub Action : Type 0 → Type 0 → Type 0
Action K A = State (Server K) A

abbrev pub print_line : {K : Type 0} → Bytes → Action K (Unit {0})
print_line line s = (tt, record s { printed = line ∷ s.printed })

-- A call of the system.
abbrev pub on_kernel : {K A : Type 0} → (K → A × K) → Action K A
on_kernel f s = let (a, k) = f s.kernel in (a, record s { kernel = k })

abbrev pub find_address : ℕ → List Connection → Option Connection
find_address a [] = none
find_address a (c ∷ cs) = if c.address == a then some c else find_address a cs

abbrev pub find_fd : ℕ → List Connection → Option Connection
find_fd fd [] = none
find_fd fd (c ∷ cs) = if c.fd == fd then some c else find_fd fd cs

-- The changes to `*conn` are written back to where it stands.
abbrev pub write_back : Connection → List Connection → List Connection
write_back c [] = []
write_back c (d ∷ ds) = if d.address == c.address then c ∷ ds else d ∷ write_back c ds

abbrev pub erase_address : ℕ → List Connection → List Connection
erase_address a [] = []
erase_address a (c ∷ cs) = if c.address == a then cs else c ∷ erase_address a cs

abbrev pub store : {K : Type 0} → Connection → Action K (Unit {0})
store c s = (tt, record s { connections = write_back c s.connections })

-- The search, after the cache has failed.
abbrev pub search_connection : {K : Type 0} → ℕ → Action K (Option Connection)
search_connection fd s = elim (find_fd fd s.connections) [
  | none ↦ (none, record s { cached = none })
  | some c ↦ (some c, record s { cached = some c.address })
]

-- The cached pointer is read only if it points to a connection of the list.
abbrev pub try_cached : {K : Type 0} → Option Connection → ℕ → Action K (Option Connection)
try_cached none fd s = search_connection fd (record s { cached = none })
try_cached (some c) fd s =
    if c.fd == fd then (some c, s) else search_connection fd (record s { cached = none })

unfoldable pub get_connection_of : {K : Type 0} → ℕ → Action K (Option Connection)
get_connection_of fd s = elim s.cached [
  | none ↦ search_connection fd s
  | some a ↦ try_cached (find_address a s.connections) fd s
]

abbrev pub satisfies : Option Connection → (Connection → Bool) → Bool
satisfies none test = false
satisfies (some c) test = test c

-- `conn != nullptr && test(conn)` for the connection of a descriptor.
abbrev pub connection_of_satisfies : {K : Type 0} → ℕ → (Connection → Bool) → Action K Bool
connection_of_satisfies fd test s =
    let (found, s1) = get_connection_of fd s in (satisfies found test, s1)

-- A handler that begins by looking up its connection, and ends the loop where there is none.
abbrev pub for_connection : {K : Type 0} → (Connection → Action K Bool) → ℕ → Action K Bool
for_connection body fd s =
    let (found, s1) = get_connection_of fd s in
    elim found [ none ↦ (false, s1) | some c ↦ body c s1 ]

abbrev pub to_lower : ℕ → ℕ
to_lower c = if leb b'A' c && leb c b'Z' then c + 32 else c

unfoldable pub name_is_reserved : Bytes → Bool
name_is_reserved name =
    text_eq (map to_lower name) (codes "client")
    || text_eq (map to_lower name) (codes "server")
    || text_eq (map to_lower name) (codes "app")

-- Whether a `Connection *` is the one that is given; `none` is the null pointer.
abbrev pub is_pointer : Option ℕ → Connection → Bool
is_pointer none c = false
is_pointer (some a) c = c.address == a

unfoldable pub all_buffers_empty : List Connection → Bool
all_buffers_empty [] = true
all_buffers_empty (c ∷ cs) = is_empty c.out_buffer && all_buffers_empty cs

unfoldable pub all_connection_buffers_empty : {K : Type 0} → Action K Bool
unfolding all_buffers_empty
all_connection_buffers_empty s = (all_buffers_empty s.connections, s)

abbrev pub connected_notice : Connection → Message
connected_notice c = message chat (codes "`" ++ (c.name ++ codes "` connected."))

abbrev pub disconnected_notice : Connection → Message
disconnected_notice c = message chat (codes "`" ++ (c.name ++ codes "` disconnected."))

abbrev pub closing_notice : Message
closing_notice = message chat (codes "room is closing.")

module _ {K : Type 0} (os : Os K) where
  -- The loop of a broadcast: `skip` tells whom it passes over, and `mask` what the others' sockets
  -- are watched for afterwards. The connections are changed in place.
  unfoldable pub queue_loop :
      (Connection → Bool) → Message → ℕ → ℕ → List Connection → K → Bool × List Connection × K
  queue_loop skip m mask epoll_fd [] k = (true, [], k)
  queue_loop skip m mask epoll_fd (c ∷ cs) k = elim (skip c) [
    | true ↦ let (ok, cs1, k1) = queue_loop skip m mask epoll_fd cs k in (ok, c ∷ cs1, k1)
    | false ↦
        let (queued, c1) = protocol_queue_message c m in
        elim queued [
          | false ↦ (false, c1 ∷ cs, k)
          | true ↦
              let (watched, k1) = epoll_fd_mod os epoll_fd c1.fd mask k in
              elim watched [
                | false ↦ (false, c1 ∷ cs, k1)
                | true ↦
                    let (ok, cs1, k2) = queue_loop skip m mask epoll_fd cs k1 in (ok, c1 ∷ cs1, k2)
              ]
        ]
  ]

  abbrev pub queue_to_all : (Connection → Bool) → Message → ℕ → Action K Bool
  queue_to_all skip m mask s =
      let (ok, cs, k) = queue_loop skip m mask s.epoll_fd s.connections s.kernel in
      (ok, record s { connections = cs; kernel = k })

  unfoldable pub broadcast_message_to_other_clients : Option ℕ → Message → Action K Bool
  unfolding queue_loop
  broadcast_message_to_other_clients sender m =
      queue_to_all (λ c. is_pointer sender c || not (is_active c.state)) m watch_both

  unfoldable pub queue_close_to_all_clients : Action K Bool
  unfolding queue_loop
  queue_close_to_all_clients =
      queue_to_all (λ c. not (is_active c.state)) (message close_con []) watch_write

  unfoldable pub announce : Option ℕ → Message → Action K Bool
  unfolding broadcast_message_to_other_clients
  announce sender notice = do
    print_line (printed_message (codes "server") notice)
    broadcast_message_to_other_clients sender (format_broadcast_message (codes "server") notice)

  unfoldable pub announce_client_connected : Connection → Action K Bool
  unfolding announce
  announce_client_connected c = announce none (connected_notice c)

  unfoldable pub announce_client_disconnected : Connection → Action K Bool
  unfolding announce
  announce_client_disconnected c = announce (some c.address) (disconnected_notice c)

  unfoldable pub announce_room_closing : Action K Bool
  unfolding announce
  announce_room_closing = announce none closing_notice

  -- The object is freed also where it is not in the list.
  unfoldable pub remove_connection : Connection → Action K Bool
  remove_connection c s =
      let (removed, k1) = epoll_fd_remove os s.epoll_fd c.fd 0 s.kernel in
      (
        true,
        record s {
          connections = erase_address c.address s.connections;
          kernel = connection_cleanup os c k1;
        },
      )
