-- ===== src/Server/Closing.antt =====
-- How the room is closed from the server's standard input (src/server/server.cpp).
pub mod Weight
pub mod Steps
pub mod Events
pub mod Served
pub mod Rounds
use event_driven_tcp_chatroo.Base.{
  ℕ, ◌≡◌, refl, ap, ap₂, ◌∙◌, true, not, List, [], ◌∷◌, map, codes, arith, if◌then◌else◌, none,
}
use event_driven_tcp_chatroo.Os.{Os}
use event_driven_tcp_chatroo.Connection.{Connection, is_active}
use event_driven_tcp_chatroo.Protocol.{Message, message, close_con}
use event_driven_tcp_chatroo.Frontend.{printed_message, format_broadcast_message}
use event_driven_tcp_chatroo.Epoll.{epoll_fd_mod, watch_both, watch_write}
use event_driven_tcp_chatroo.Server.{
  Server, print_line, broadcast_message_to_other_clients, closing_notice, announce,
  announce_room_closing, queue_close_to_all_clients, all_buffers_empty,
  all_connection_buffers_empty,
}
use event_driven_tcp_chatroo.Server.Input.{close_room}
use event_driven_tcp_chatroo.Server.Broadcast.{
  with_frame, delivered_to, queue_loop-delivers, queue_loop-succeeds,
}
use event_driven_tcp_chatroo.Server.Delivery.{hears, broadcast_reaches, broadcast_succeeds}

-- The two last messages of an active connection.
abbrev pub farewell : Connection → Connection
farewell c =
    if is_active c.state
    then with_frame (message close_con [])
        (with_frame (format_broadcast_message (codes "server") closing_notice) c)
    else c

abbrev closing_broadcast : Message
closing_broadcast = format_broadcast_message (codes "server") closing_notice

farewell-hears :
    (c : Connection)
    → delivered_to
        (λ c. not (is_active c.state))
        (message close_con [])
        (hears none closing_broadcast c)
      ≡ farewell c
farewell-hears c = ground arith

map-farewell :
    (cs : List Connection)
    → map
        (delivered_to (λ c. not (is_active c.state)) (message close_con []))
        (map (hears none closing_broadcast) cs)
      ≡ map farewell cs
map-farewell [] = refl
map-farewell (c ∷ cs) = ap₂ ◌∷◌ (farewell-hears c) (map-farewell cs)

abbrev pub Watches : {K : Type 0} → Os K → ℕ → ℕ → Type 0
Watches {K} os epoll_fd mask = (fd : ℕ) (k : K) → (epoll_fd_mod os epoll_fd fd mask k).0 ≡ true

module _ {K : Type 0} (os : Os K) where
  notice_reaches :
      (s : Server K)
      → Watches os s.epoll_fd watch_both
      → let (ok, s1) = announce_room_closing os s in
        (ok ≡ true)
        × (s1.connections
            ≡ map
                (hears none (format_broadcast_message (codes "server") closing_notice))
                s.connections)
        × (s1.epoll_fd ≡ s.epoll_fd)
        × (s1.closing ≡ s.closing)
  unfolding announce_room_closing announce broadcast_message_to_other_clients
  notice_reaches s w =
      let s1 = (print_line (printed_message (codes "server") closing_notice) s).1 in
      let ok = broadcast_succeeds os none closing_broadcast s1 (omega arith) w in
      (ok, broadcast_reaches os none closing_broadcast s1 ok, refl, refl)

  close_reaches :
      (s : Server K)
      → Watches os s.epoll_fd watch_write
      → let (ok, s1) = queue_close_to_all_clients os s in
        (ok ≡ true)
        × (s1.connections
            ≡ map
                (delivered_to (λ c. not (is_active c.state)) (message close_con []))
                s.connections)
        × (s1.closing ≡ s.closing)
  unfolding queue_close_to_all_clients
  close_reaches s w =
      let ok =
        queue_loop-succeeds os (λ c. not (is_active c.state)) (message close_con []) watch_write
          s.epoll_fd s.connections s.kernel (omega arith) w in
      (
        ok,
        queue_loop-delivers os (λ c. not (is_active c.state)) (message close_con []) watch_write
            s.epoll_fd s.connections s.kernel ok,
        refl,
      )

  -- If every socket can be watched, then closing the room marks the server as closing, puts the
  -- notice and an empty CLOSE_CON, in this order, behind the output of every active connection and
  -- changes no other, and reports that the loop is to go on exactly if some output buffer is not
  -- empty then.
  pub close_room_lem :
      (s : Server K)
      → Watches os s.epoll_fd watch_both
      → Watches os s.epoll_fd watch_write
      → let (running, s1) = close_room os s in
        (s1.closing ≡ true)
        × (s1.connections ≡ map farewell s.connections)
        × (running ≡ not (all_buffers_empty (map farewell s.connections)))
  unfolding close_room all_connection_buffers_empty
  close_room_lem s w w2 =
      let start = record s { closing = true } in
      let (ok1, cs1, fd1, cl1) = notice_reaches start w in
      let s1 = (announce_room_closing os start).1 in
      let (ok2, cs2, cl2) = close_reaches s1 (rw fd1 w2) in
      let all =
        cs2
        ∙ ap (map (delivered_to (λ c. not (is_active c.state)) (message close_con []))) cs1
        ∙ map-farewell s.connections in
      rw (close_room, ok1, ok2) (cl2 ∙ cl1, all, ap (λ cs. not (all_buffers_empty cs)) all)
