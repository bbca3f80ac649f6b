-- ===== src/Startup/Ports.antt =====
-- The port numbers that `client_init` of src/client/client.cpp and `server_init` of
-- src/server/server.cpp take.
use event_driven_tcp_chatroo.Base.{
  ℕ, zero, suc, ◌≤◌, ◌%◌, ◌^◌, true, inl, inr, Option, none, some, ◌≡◌, ap, ◌∙◌, ◌⊎◌, Bool-cases,
  arith, sym, codes,
}
use event_driven_tcp_chatroo.Os.{Os}
use event_driven_tcp_chatroo.Connection.{server_create_listening_socket}
use event_driven_tcp_chatroo.Console.{Console, show, read_int, clear, ignore_line}
use event_driven_tcp_chatroo.Startup.{port_is_legal, ask_server_port}

legal_bounds :
    (stored : Option ℕ) {port : ℕ}
    → port_is_legal stored ≡ true
    → stored ≡ some port
    → (1 ≤ port) × (port ≤ 65535)
legal_bounds none h e = cc
legal_bounds (some p) h e = ground arith

-- What the loop makes of a number that has been read.
ask_server_port_step :
    (n : ℕ) (c : Console)
    → let (stored, c1) = read_int (show (codes "Enter server port: ") c) in
      (ask_server_port (suc n) c ≡ (stored, c1)) × (port_is_legal stored ≡ true)
      ⊎ (c2 : Console) × (ask_server_port (suc n) c ≡ ask_server_port n c2)
unfolding ask_server_port
ask_server_port_step n c =
    let (stored, c1) = read_int (show (codes "Enter server port: ") c) in
    elim (Bool-cases c1.fail) [
      | inl bad ↦ inr (ignore_line (clear c1), rw (ask_server_port, bad))
      | inr ok ↦ elim (Bool-cases (port_is_legal stored)) [
        | inl legal ↦ inl (rw (ask_server_port, ok, legal), legal)
        | inr illegal ↦ inr (c1, rw (ask_server_port, ok, illegal))
      ]
    ]

-- The port that the client takes, from any input and after any number of rounds of the question,
-- lies between 1 and 65535.
pub ask_server_port-bounds :
    (n : ℕ) (c : Console) {port : ℕ}
    → (ask_server_port n c).0 ≡ some port
    → (1 ≤ port) × (port ≤ 65535)
ask_server_port-bounds zero c h = unfold ask_server_port in cc h
ask_server_port-bounds (suc n) c {port} h = elim (ask_server_port_step n c) [
  | inl (taken, legal) ↦ legal_bounds _ legal (sym (ap (λ p. p.0) taken) ∙ h)
  | inr (c2, again) ↦ ask_server_port-bounds n c2 (sym (ap (λ p. p.0) again) ∙ h)
]

module _ {K : Type 0} (os : Os K) where
  -- The listening socket is the same for two ports that agree in their lower 16 bits.
  pub server_create-wraps :
      (port : ℕ) (k : K)
      → server_create_listening_socket os (port % 2 ^ 16) k
        ≡ server_create_listening_socket os port k
  unfolding server_create_listening_socket
  server_create-wraps port k = ground arith
