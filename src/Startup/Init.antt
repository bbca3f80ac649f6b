-- ===== src/Startup/Init.antt =====
-- `main` of src/main.cpp, `server_init` of src/server/server.cpp and `client_init` of
-- src/client/client.cpp: the questions in their order, then the event loop.
use event_driven_tcp_chatroo.Base.{
  ℕ, ◌+◌, ◌*◌, ◌%◌, ◌^◌, Option, none, some, [], ◌∷◌, ◌++◌, Bytes, codes,
}
use event_driven_tcp_chatroo.Os.{Os}
use event_driven_tcp_chatroo.Server.{Server}
use event_driven_tcp_chatroo.Server.Loop.{server_start, server_event_loop}
use event_driven_tcp_chatroo.Client.{Client}
use event_driven_tcp_chatroo.Client.Loop.{client_start, client_event_loop}
use event_driven_tcp_chatroo.Console.{Console, show, ignore_line}
use event_driven_tcp_chatroo.Startup.{
  line, ask_name, ask_listen_port, ask_address, ask_server_port, int_text, server_mode, client_mode,
  choose_mode,
}

-- How far the program has come: a prompt still asks, there was no socket, the event loop still
-- runs, or all is cleaned up.
pub data Outcome (K : Type 0) : Type 0 where
  asking : Console → Outcome K
  no_socket : Console → K → Outcome K
  looping : Outcome K
  finished : K → Outcome K

abbrev pub loop_outcome : {K : Type 0} → Option K → Outcome K
loop_outcome none = looping
loop_outcome (some k) = finished k

-- The question for the name, with what is shown once it has been answered.
abbrev pub ask_and_tell : Bytes → Bytes → ℕ → Console → Option Bytes × Console
ask_and_tell question answer n c =
    let (name, c1) = ask_name question n c in
    elim name [ none ↦ (none, c1) | some w ↦ (some w, show (answer ++ w ++ b'\n' ∷ []) c1) ]

-- `hand_over c k` is the state of the system where the rest of the standard input is that of `c`:
-- the event loop reads it by lines. `n` rounds of each prompt and `m` of the event loop are looked
-- at.
module _ {K : Type 0} (os : Os K) (hand_over : Console → K → K) (n m : ℕ) where
  -- What follows the set-up of the server, where a socket listens and where none does.
  abbrev pub run_server : Option (Server K) × K → Console → Outcome K
  run_server (none, k) c = no_socket c k
  run_server (some s, k) c =
      loop_outcome
        (server_event_loop os m (record s { kernel = hand_over (ignore_line c) s.kernel }))

  unfoldable pub server_listen : Bytes → ℕ → Console → K → Outcome K
  server_listen name port c k =
      let c1 = show (codes "Port number is: " ++ int_text port ++ b'\n' ∷ []) c in
      run_server (server_start os name port k) (show (line "Initializing server instance...") c1)

  unfoldable pub server_init : Console → K → Outcome K
  server_init c k =
      let (name, c1) =
        ask_and_tell (codes "Enter your username: ") (codes "Your username is: ") n
          (show (line "Server mode selected.") c) in
      elim name [
        | none ↦ asking c1
        | some w ↦
            let (port, c2) = ask_listen_port n c1 in
            elim port [ none ↦ asking c2 | some p ↦ server_listen w p c2 k ]
      ]

  abbrev pub run_client : Option (Client K) × K → Console → Outcome K
  run_client (none, k) c = no_socket c k
  run_client (some s, k) c =
      let c1 = ignore_line (show (line "Connection setup started.") c) in
      loop_outcome (client_event_loop os m (record s { kernel = hand_over c1 s.kernel }))

  -- The address of the server is its IPv4 address and its port in one number.
  unfoldable pub client_connect : Bytes → ℕ → ℕ → Console → K → Outcome K
  client_connect name address port c k =
      run_client (client_start os name (address * 2 ^ 16 + port % 2 ^ 16) k) c

  unfoldable pub client_init : (Bytes → Option ℕ) → Console → K → Outcome K
  client_init inet_pton c k =
      let (name, c1) =
        ask_and_tell (codes "Enter your name: ") (codes "Your name is: ") n
          (show (line "Initializing client...") c) in
      elim name [
        | none ↦ asking c1
        | some w ↦
            let (address, c2) = ask_address inet_pton n c1 in
            elim address [
              | none ↦ asking c2
              | some a ↦
                  let (port, c3) = ask_server_port n c2 in
                  elim port [ none ↦ asking c3 | some p ↦ client_connect w a p c3 k ]
            ]
      ]

  unfoldable pub main : (ℕ → ℕ) → (Bytes → Option ℕ) → Console → K → Outcome K
  main found inet_pton c k =
      let (mode, c1) = choose_mode found n c in
      elim mode [
        | none ↦ asking c1
        | some server_mode ↦ server_init c1 k
        | some client_mode ↦ client_init inet_pton c1 k
      ]
