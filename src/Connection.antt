-- ===== src/Connection.antt =====
-- src/connection/connection.hpp and connection.cpp: one TCP connection with its two buffers, and
-- the socket calls on it. A function that changes `*conn` returns the new record; `K` is the state
-- of the operating system. `logd` calls, which write to stderr only, are left out.
pub mod Flush
pub mod Read
pub mod Descriptors
pub mod Setup
use event_driven_tcp_chatroo.Base.{
  ℕ, zero, suc, ◌+◌, ◌-◌, ◌%◌, ◌^◌, Bool, true, false, Option, none, some, List, [], ◌++◌, Bytes,
  length, drop, ltb, ◌==◌, if◌then◌else◌, bit_or,
}
use event_driven_tcp_chatroo.Os.{
  Os, Errno, eintr, eagain, ewouldblock, einprogress, other_error, Reply, returned, failed, socket,
  set_reuse_addr, get_flags, set_flags, bind, listen, connect, get_socket_error, close, send,
  RecvRun, chunk, end_of_stream, recv_error, run_call,
}

pub data ConnectionState : Type 0 where
  connecting sending_client_hello waiting_for_server_hello sending_server_hello : ConnectionState
  waiting_for_client_hello active closed connection_error : ConnectionState

-- `address` is what a `Connection *` to the object holds.
pub record Connection : Type 0 where
  pub address : ℕ
  pub fd : ℕ
  pub state : ConnectionState
  pub in_buffer : Bytes
  pub out_buffer : Bytes
  pub bytes_written : ℕ
  pub name : Bytes

abbrev pub is_closed : ConnectionState → Bool
is_closed closed = true
is_closed s = false

abbrev pub is_error : ConnectionState → Bool
is_error connection_error = true
is_error s = false

abbrev pub is_active : ConnectionState → Bool
is_active active = true
is_active s = false

-- A value-initialised object with the three fields that the code then sets.
abbrev pub new_connection : ℕ → ℕ → ConnectionState → Connection
new_connection address fd state = record {
  address = address;
  fd = fd;
  state = state;
  in_buffer = [];
  out_buffer = [];
  bytes_written = 0;
  name = [];
}

-- `EAGAIN` and `EWOULDBLOCK` are one number on Linux and may be two elsewhere.
abbrev pub try_later : Errno → Bool
try_later eintr = true
try_later eagain = true
try_later ewouldblock = true
try_later einprogress = false
try_later (other_error n) = false

abbrev pub o_nonblock : ℕ
o_nonblock = 0x800

-- The descriptor -1, as the bit pattern of an `int`.
abbrev pub no_fd : ℕ
no_fd = 0xffff_ffff

abbrev pub FdResult : Type 0 → Type 0
FdResult K = Option ℕ × K

abbrev pub cleared : Connection → Connection
cleared c = record c { out_buffer = []; bytes_written = 0 }

unfoldable pub read_loop : RecvRun → Connection → Bool × Connection
read_loop (chunk bytes rest) c = read_loop rest (record c { in_buffer = c.in_buffer ++ bytes })
read_loop end_of_stream c = (true, record c { state = closed })
read_loop (recv_error e) c =
    if try_later e then (true, c) else (false, record c { state = connection_error })

module _ {K : Type 0} (os : Os K) where
  unfoldable pub set_nonblocking : ℕ → K → Bool × K
  set_nonblocking fd k =
      let (r, k1) = os.call (get_flags fd) k in
      elim r [
        | failed e ↦ (false, k1)
        | returned flags ↦
            let (r2, k2) = os.call (set_flags fd (bit_or flags o_nonblock)) k1 in
            elim r2 [ failed e ↦ (false, k2) | returned n ↦ (true, k2) ]
      ]

  -- `close(fd); return -1;`
  abbrev pub give_up : ℕ → K → FdResult K
  give_up fd k = (none, run_call os (close fd) k)

  -- The last two calls, on a socket that is ready to be bound.
  unfoldable pub bind_and_listen : ℕ → ℕ → K → FdResult K
  bind_and_listen port fd k =
      let (r, k1) = os.call (bind fd (port % 2 ^ 16)) k in
      elim r [
        | failed e ↦ give_up fd k1
        | returned n ↦
            let (r2, k2) = os.call (listen fd) k1 in
            elim r2 [ failed e ↦ give_up fd k2 | returned m ↦ (some fd, k2) ]
      ]

  -- `none` is -1.
  unfoldable pub server_create_listening_socket : ℕ → K → FdResult K
  unfolding set_nonblocking bind_and_listen
  server_create_listening_socket port k =
      let (r, k1) = os.call socket k in
      elim r [
        | failed e ↦ (none, k1)
        | returned fd ↦
            let (r2, k2) = os.call (set_reuse_addr fd) k1 in
            elim r2 [
              | failed e ↦ give_up fd k2
              | returned n ↦
                  let (ok, k3) = set_nonblocking fd k2 in
                  if ok then bind_and_listen port fd k3 else give_up fd k3
            ]
      ]

  -- The object that `client_connect_to_server` makes of the answer of `connect`.
  unfoldable pub after_connect : ℕ → Reply × K → Option Connection × K
  after_connect fd (returned n, k) =
      let (a, k1) = os.new_address [] k in (some (new_connection a fd sending_client_hello), k1)
  after_connect fd (failed einprogress, k) =
      let (a, k1) = os.new_address [] k in (some (new_connection a fd connecting), k1)
  after_connect fd (failed e, k) = (none, run_call os (close fd) k)

  -- `server` is the binary form of the address and port; `none` is the null pointer.
  unfoldable pub client_connect_to_server : ℕ → K → Option Connection × K
  unfolding set_nonblocking after_connect
  client_connect_to_server server k =
      let (r, k1) = os.call socket k in
      elim r [
        | failed e ↦ (none, k1)
        | returned fd ↦
            let (ok, k2) = set_nonblocking fd k1 in
            if ok
            then after_connect fd (os.call (connect fd server) k2)
            else (none, run_call os (close fd) k2)
      ]

  unfoldable pub client_check_connect : Connection → K → Bool × Connection × K
  client_check_connect c k =
      let (r, k1) = os.call (get_socket_error c.fd) k in
      elim r [
        | failed e ↦ (false, record c { state = connection_error }, k1)
        | returned socket_error ↦
            if socket_error == 0
            then (true, record c { state = sending_client_hello }, k1)
            else (false, record c { state = connection_error }, k1)
      ]

  -- One round for each byte left, and one for the last test, are enough.
  unfoldable pub flush_loop : ℕ → Connection → K → Bool × Connection × K
  flush_loop zero c k = (true, cleared c, k)
  flush_loop (suc fuel) c k = elim (ltb c.bytes_written (length c.out_buffer)) [
    | false ↦ (true, cleared c, k)
    | true ↦
        let (r, k1) = os.call (send c.fd (drop c.bytes_written c.out_buffer)) k in
        elim r [
          | returned zero ↦ (false, record c { state = connection_error }, k1)
          | returned (suc n) ↦
              flush_loop fuel (record c { bytes_written = c.bytes_written + suc n }) k1
          | failed e ↦
              if try_later e
              then (true, c, k1)
              else (false, record c { state = connection_error }, k1)
        ]
  ]

  unfoldable pub connection_flush_out_buffer : Connection → K → Bool × Connection × K
  unfolding flush_loop
  connection_flush_out_buffer c k = flush_loop (suc (length c.out_buffer - c.bytes_written)) c k

  unfoldable pub connection_read_into_in_buffer : Connection → K → Bool × Connection × K
  unfolding read_loop
  connection_read_into_in_buffer c k =
      let (run, k1) = os.recv c.fd k in let (ok, c1) = read_loop run c in (ok, c1, k1)

  -- The object is freed, so only the call is left of it.
  unfoldable pub connection_cleanup : Connection → K → K
  connection_cleanup c k = if c.fd == no_fd then k else run_call os (close c.fd) k
