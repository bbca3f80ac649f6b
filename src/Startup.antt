-- ===== src/Startup.antt =====
-- src/main.cpp, `server_init` of src/server/server.cpp and `client_init` of src/client/client.cpp:
-- the choice of the mode and the questions that come before the event loops. A `while (true)` loop
-- runs for as many rounds as are looked at, and `none` says that it still asks then.
pub mod Init
pub mod Names
pub mod Modes
pub mod Ports
pub mod Closing
use Prim.Native.String.{String}
use event_driven_tcp_chatroo.Base.{
  ℕ, zero, suc, ◌+◌, ◌-◌, ◌*◌, ◌/◌, ◌%◌, ◌^◌, Bool, true, false, ◌&&◌, Option, none, some, [], ◌∷◌,
  ◌++◌, Bytes, codes, leb, ltb, ◌==◌, if◌then◌else◌,
}
use event_driven_tcp_chatroo.Server.{name_is_reserved}
use event_driven_tcp_chatroo.Console.{Console, show, read_word, read_int, clear, ignore_line}

abbrev pub line : String → Bytes
line text = codes text ++ b'\n' ∷ []

-- The loop for a name, which the server and the client have alike but for the text of the question.
unfoldable pub ask_name : Bytes → ℕ → Console → Option Bytes × Console
ask_name question zero c = (none, c)
ask_name question (suc n) c =
    let (word, c1) = read_word (show question c) in
    elim word [
      | none ↦ ask_name question n (ignore_line (clear c1))
      | some name ↦ elim (name_is_reserved name) [
        | true ↦ ask_name question n (show (line "[app] reserved name.") c1)
        | false ↦ (some name, c1)
      ]
    ]

-- The number is taken as it comes: the bit pattern of an `int`.
unfoldable pub ask_listen_port : ℕ → Console → Option ℕ × Console
ask_listen_port zero c = (none, c)
ask_listen_port (suc n) c =
    let (stored, c1) = read_int (show (codes "Enter the port number to listen on: ") c) in
    elim c1.fail [
      | true ↦
          ask_listen_port n
            (ignore_line (clear (show (line "Invalid input. Please enter an integer.") c1)))
      | false ↦ (stored, c1)
    ]

-- `inet_pton` gives the binary form of an IPv4 address, if the text is one.
unfoldable pub ask_address : (Bytes → Option ℕ) → ℕ → Console → Option ℕ × Console
ask_address inet_pton zero c = (none, c)
ask_address inet_pton (suc n) c =
    let (word, c1) = read_word (show (codes "Enter server IP address: ") c) in
    elim word [
      | none ↦ ask_address inet_pton n (ignore_line (clear c1))
      | some text ↦ elim (inet_pton text) [
        | none ↦ ask_address inet_pton n c1
        | some address ↦ (some address, c1)
      ]
    ]

abbrev pub port_is_legal : Option ℕ → Bool
port_is_legal none = false
port_is_legal (some port) = leb 1 port && leb port 65535

unfoldable pub ask_server_port : ℕ → Console → Option ℕ × Console
ask_server_port zero c = (none, c)
ask_server_port (suc n) c =
    let (stored, c1) = read_int (show (codes "Enter server port: ") c) in
    elim c1.fail [
      | true ↦ ask_server_port n (ignore_line (clear c1))
      | false ↦ elim (port_is_legal stored) [ true ↦ (stored, c1) | false ↦ ask_server_port n c1 ]
    ]

-- The decimal digits of a number below 10 ^ n.
abbrev pub digits : ℕ → ℕ → Bytes
digits zero x = []
digits (suc n) x =
    let more = digits n (x / 10) ++ (x % 10 + b'0') ∷ [] in
    if ltb x 10 then (x + b'0') ∷ [] else more

-- `std::cout << number`, for an `int` with the bit pattern `x`.
abbrev pub int_text : ℕ → Bytes
int_text x = if ltb x (2 ^ 31) then digits 10 x else b'-' ∷ digits 10 (2 ^ 32 - x)

pub data Mode : Type 0 where
  server_mode client_mode : Mode

abbrev pub mode_of : ℕ → Option Mode
mode_of x = if x == 1 then some server_mode else if x == 2 then some client_mode else none

abbrev pub stored_or : Option ℕ → ℕ → ℕ
stored_or none before = before
stored_or (some x) before = x

abbrev pub menu : Bytes
menu =
    line "Welcome to the chatroom!"
    ++ line "Please select a mode:"
    ++ line "1. Server"
    ++ line "2. Client"
    ++ codes "> "

-- The loop of `main`. `int mode` has no first value: `found n` is what it holds where `n` more
-- rounds are looked at. Nothing tests whether the stream has failed.
unfoldable pub choose_mode : (ℕ → ℕ) → ℕ → Console → Option Mode × Console
choose_mode found zero c = (none, c)
choose_mode found (suc n) c =
    let (stored, c1) = read_int (show menu c) in
    elim (mode_of (stored_or stored (found n))) [
      | none ↦ choose_mode found n (show (line "Invalid mode selected.") c1)
      | some mode ↦ (some mode, c1)
    ]
