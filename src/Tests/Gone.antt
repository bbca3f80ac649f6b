-- ===== src/Tests/Gone.antt =====
-- A client whose peer is gone, at a concrete input.
use event_driven_tcp_chatroo.Base.{
  ℕ, ◌≡◌, refl, true, false, not, ◌&&◌, none, [], ◌∷◌, codes, All, ◌==◌, if◌then◌else◌, arith,
}
use event_driven_tcp_chatroo.Os.{Os, Event, ready, other_error}
use event_driven_tcp_chatroo.Connection.{Connection}
use event_driven_tcp_chatroo.Connection.Read.{IsFatal}
use event_driven_tcp_chatroo.Connection.Descriptors.{FdLaws}
use event_driven_tcp_chatroo.Server.{Server, find_fd}
use event_driven_tcp_chatroo.Server.Loop.{loop_rounds, server_cleanup, handle_event}
use event_driven_tcp_chatroo.Server.Failure.Stop.{fails, send_failure-stops}
use event_driven_tcp_chatroo.Server.Failure.Removal.{read_failure-removes}
use event_driven_tcp_chatroo.Tests.Table.{
  Table, is_open, table_os, table_fresh, table_opened, table_not_opened, table_closed, table_kept,
  server_laws, old_room, last_guest,
}

-- Two members, with bytes for the first.
abbrev full_room : Server Table
full_room = record old_room {
  connections =
      record last_guest { out_buffer = codes "x" } ∷ record last_guest { address = 2; fd = 8 } ∷ [];
  closing = false;
  kernel = 0 ∷ 3 ∷ 4 ∷ 7 ∷ 8 ∷ [];
}

abbrev writable : Event
writable = record { fd = 7; events = 4 }

abbrev readable_event : Event
readable_event = record { fd = 8; events = 1 }

abbrev waking_os : Os Table
waking_os = record table_os { epoll_wait = λ fd k. (ready (writable ∷ readable_event ∷ []), k) }

abbrev waking_laws : FdLaws waking_os
waking_laws = record {
  is_open = is_open;
  fresh = table_fresh;
  opened = table_opened;
  not_opened = table_not_opened;
  closed = table_closed;
  kept = table_kept;
  address_kept = λ used k d. refl;
  never = λ k. refl;
}

broken_pipe : IsFatal (other_error 32)
broken_pipe = ((λ e. cc e), (λ e. cc e), (λ e. cc e))

reset : IsFatal (other_error 104)
reset = ((λ e. cc e), (λ e. cc e), (λ e. cc e))

send_failure-stops_example :
    let (running, s1) = loop_rounds waking_os 5 full_room in
    (running ≡ false)
    × All
        (λ (x : Connection). is_open x.fd (server_cleanup waking_os s1) ≡ false)
        full_room.connections
send_failure-stops_example =
    send_failure-stops waking_os waking_laws 4 full_room writable (readable_event ∷ [])
      (record last_guest { out_buffer = codes "x" })
      ((((λ e. omega (arith, e)), (λ e. omega (arith, e))), tt), (tt, tt)) refl
      (λ e. omega (arith, e)) refl refl
      (fails (record last_guest { out_buffer = codes "x" }) (0 ∷ 3 ∷ 4 ∷ 7 ∷ 8 ∷ [])
        (other_error 32) (omega arith) refl broken_pipe)

read_failure-removes_example :
    let (running, s1) = handle_event table_os readable_event full_room in
    (running ≡ true)
    × ((fd : ℕ)
        → find_fd fd s1.connections ≡ (if fd == 8 then none else find_fd fd full_room.connections))
    × ((fd : ℕ) → is_open fd s1.kernel ≡ (not (fd == 8) && is_open fd full_room.kernel))
read_failure-removes_example =
    read_failure-removes table_os server_laws full_room readable_event
      (record last_guest { address = 2; fd = 8 }) (codes "hi" ∷ []) (other_error 104)
      ((((λ e. omega (arith, e)), (λ e. omega (arith, e))), tt), (tt, tt)) refl
      (λ e. omega (arith, e)) refl refl refl refl refl reset
