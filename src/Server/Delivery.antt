-- ===== src/Server/Delivery.antt =====
-- Who hears what: broadcasts of src/server/server.cpp, seen from the connections.
use event_driven_tcp_chatroo.Base.{
  ℕ, ◌+◌, ◌≤◌, ◌≡◌, refl, ap, ◌∙◌, true, not, ◌||◌, Option, none, some, ◌∷◌, ◌++◌, map, Bytes,
  codes, length, length-append, fun_ext, arith, if◌then◌else◌,
}
use event_driven_tcp_chatroo.Os.{Os}
use event_driven_tcp_chatroo.Connection.{Connection, is_active}
use event_driven_tcp_chatroo.Protocol.{Message, max_payload_size}
use event_driven_tcp_chatroo.Frontend.{printed_message, format_broadcast_message}
use event_driven_tcp_chatroo.Epoll.{epoll_fd_mod, watch_both}
use event_driven_tcp_chatroo.Server.{
  Server, print_line, is_pointer, broadcast_message_to_other_clients,
}
use event_driven_tcp_chatroo.Server.Receive.{again, pass_on}
use event_driven_tcp_chatroo.Server.Broadcast.{
  with_frame, delivered_to, queue_loop-delivers, queue_loop-succeeds,
}

-- What a broadcast is to make of a connection: an active one, unless it is the sender's, gets the
-- frame behind what waits to be sent.
abbrev pub hears : Option ℕ → Message → Connection → Connection
hears sender m c =
    if is_active c.state then (if is_pointer sender c then c else with_frame m c) else c

pub length-format :
    (name : Bytes) (m : Message)
    → length (format_broadcast_message name m).payload ≡ length name + length m.payload + 3
length-format name m = omega (arith, length-append name (codes "] " ++ m.payload))

hears-eq-delivered_to :
    (sender : Option ℕ) (m : Message) (c : Connection)
    → delivered_to (λ c. is_pointer sender c || not (is_active c.state)) m c ≡ hears sender m c
hears-eq-delivered_to none m c = ground arith
hears-eq-delivered_to (some a) m c = ground arith

module _ {K : Type 0} (os : Os K) where
  -- If a broadcast reports success, then the frame of the message has been appended to the output
  -- buffer of every active connection other than the sender's, and the connections are otherwise
  -- unchanged, in their order.
  pub broadcast_reaches :
      (sender : Option ℕ) (m : Message) (s : Server K)
      → (broadcast_message_to_other_clients os sender m s).0 ≡ true
      → (broadcast_message_to_other_clients os sender m s).1.connections
        ≡ map (hears sender m) s.connections
  unfolding broadcast_message_to_other_clients
  broadcast_reaches sender m s ok =
      queue_loop-delivers os _ m watch_both s.epoll_fd s.connections s.kernel ok
      ∙ ap (λ f. map f s.connections) (fun_ext (hears-eq-delivered_to sender m))

  -- A broadcast of a payload of at most 64 KiB reports success if every socket can be watched.
  pub broadcast_succeeds :
      (sender : Option ℕ) (m : Message) (s : Server K)
      → length m.payload ≤ max_payload_size
      → ((fd : ℕ) (k : K) → (epoll_fd_mod os s.epoll_fd fd watch_both k).0 ≡ true)
      → (broadcast_message_to_other_clients os sender m s).0 ≡ true
  unfolding broadcast_message_to_other_clients
  broadcast_succeeds sender m s h w =
      queue_loop-succeeds os _ m watch_both s.epoll_fd s.connections s.kernel h w

  -- It prints nothing.
  broadcast-printed :
      (sender : Option ℕ) (m : Message) (s : Server K)
      → (broadcast_message_to_other_clients os sender m s).1.printed ≡ s.printed
  unfolding broadcast_message_to_other_clients
  broadcast-printed sender m s = refl

  -- If the sender's name and a chat message together with the three characters of the brackets are
  -- at most 64 KiB long, and every socket can be watched, then the chat message is printed with its
  -- sender's name, its broadcast is put behind the output of all active connections but the
  -- sender's, and the loop over the sender's messages goes on with the sender's connection.
  pub pass_on_lem :
      (c : Connection) (m : Message) (s : Server K)
      → length c.name + length m.payload + 3 ≤ max_payload_size
      → ((fd : ℕ) (k : K) → (epoll_fd_mod os s.epoll_fd fd watch_both k).0 ≡ true)
      → let (round, s1) = pass_on os c m s in
        (round ≡ again c)
        × (s1.connections
            ≡ map (hears (some c.address) (format_broadcast_message c.name m)) s.connections)
        × (s1.printed ≡ printed_message c.name m ∷ s.printed)
  unfolding pass_on
  pass_on_lem c m s h w =
      let s1 = (print_line (printed_message c.name m) s).1 in
      let b = format_broadcast_message c.name m in
      let ok = broadcast_succeeds (some c.address) b s1 (omega (arith, length-format c.name m)) w in
      ground (
        arith,
        ok,
        broadcast_reaches (some c.address) b s1 ok,
        broadcast-printed (some c.address) b s1,
      )
