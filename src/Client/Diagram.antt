-- ===== src/Client/Diagram.antt =====
-- The states of the client's connection (src/client/client.cpp) as a transition diagram, and what
-- the handlers of network messages do to the state.
use event_driven_tcp_chatroo.Base.{
  ℕ, zero, suc, ◌≡◌, sym, ap, subst, Bool, Option, none, some, ◌⊎◌, inl, inr, length, arith,
  Bool-cases,
}
use event_driven_tcp_chatroo.Os.{Os}
use event_driven_tcp_chatroo.Connection.{
  Connection, ConnectionState, connecting, sending_client_hello, waiting_for_server_hello, active,
  closed, connection_error, is_error, connection_read_into_in_buffer,
}
use event_driven_tcp_chatroo.Connection.Read.{read_loop_lem, state_after-cases}
use event_driven_tcp_chatroo.Protocol.{Message, protocol_parse_message}
use event_driven_tcp_chatroo.Protocol.Frame.{queue-cases}
use event_driven_tcp_chatroo.Protocol.Outcome.{outcome, waits, rejects, parses}
use event_driven_tcp_chatroo.Client.{
  Client, Action, queue, go_on, message_parsed, handle_network_message, read_messages,
  handle_read_network_message_event,
}

-- The states in which a client reads from its socket.
pub data Reads : ConnectionState → Type 0 where
  waiting_reads : Reads waiting_for_server_hello
  active_reads : Reads active

infix 40 ◌⟶◌ ◌⟶*◌
pub data ◌⟶◌ : ConnectionState → ConnectionState → Type 0 where
  connect : connecting ⟶ sending_client_hello
  greet : sending_client_hello ⟶ waiting_for_server_hello
  welcome : waiting_for_server_hello ⟶ active
  hang_up : {s : ConnectionState} → Reads s → s ⟶ closed
  break_down : {s : ConnectionState} → s ⟶ connection_error

pub data ◌⟶*◌ : ConnectionState → ConnectionState → Type 0 where
  here : {s : ConnectionState} → s ⟶* s
  then_step : {s t u : ConnectionState} → s ⟶ t → t ⟶* u → s ⟶* u

pub trans : {s t u : ConnectionState} → s ⟶* t → t ⟶* u → s ⟶* u
trans here q = q
trans (then_step e p) q = then_step e (trans p q)

pub error_reached : {s : ConnectionState} → s ⟶* connection_error
error_reached = then_step break_down here

pub of_eq : {s t : ConnectionState} → t ≡ s → s ⟶* t
of_eq {s} e = subst (λ t. s ⟶* t) (sym e) here

pub of_error : {s t : ConnectionState} → t ≡ connection_error → s ⟶* t
of_error {s} e = subst (λ t. s ⟶* t) (sym e) error_reached

-- A change of the client that follows the diagram.
abbrev pub Follows : {K A : Type 0} → Client K → A × Client K → Type 0
Follows s r = s.conn.state ⟶* r.1.conn.state

parse-Follows : (c : Connection) → c.state ⟶* (protocol_parse_message c).1.state
parse-Follows c = elim (outcome c) [
  | waits e ↦ rw e here
  | rejects e _ ↦ rw e error_reached
  | parses m rest _ e _ ↦ rw e here
]

module _ {K : Type 0} where
  pub queue-Follows : (m : Message) (s : Client K) → Follows s (queue m s)
  queue-Follows m s = elim (queue-cases s.conn m) [
    | inl (e, _) ↦ of_eq (ap (λ (r : Bool × Connection). r.1.state) e)
    | inr e ↦ of_error (ap (λ (r : Bool × Connection). r.1.state) e)
  ]

  handle_message-cases :
      (m : Message) (s : Client K)
      → let t = (handle_network_message m s).1.conn.state in
        (t ≡ connection_error)
        ⊎ ((s.conn.state ≡ waiting_for_server_hello) × (t ≡ active))
        ⊎ ((s.conn.state ≡ active) × (t ≡ closed))
        ⊎ (t ≡ s.conn.state)
  unfolding handle_network_message
  handle_message-cases m s = ground arith

  handle_message-Follows : (m : Message) (s : Client K) → Follows s (handle_network_message m s)
  handle_message-Follows m s = by_cases s.conn.state _ (handle_message-cases m s)
    where
      by_cases :
          (s t : ConnectionState)
          → (t ≡ connection_error)
            ⊎ ((s ≡ waiting_for_server_hello) × (t ≡ active))
            ⊎ ((s ≡ active) × (t ≡ closed))
            ⊎ (t ≡ s)
          → s ⟶* t
      by_cases s t (inl e) = of_error e
      by_cases s t (inr (inl (w, a))) = rw (w, a) (then_step welcome here)
      by_cases s t (inr (inr (inl (a, c)))) = rw (a, c) (then_step (hang_up active_reads) here)
      by_cases s t (inr (inr (inr e))) = of_eq e

  message_parsed-Follows :
      (m : Option Message) (c : Connection) (s : Client K)
      → s.conn.state ⟶* c.state
      → Follows s (message_parsed (m, c) s)
  unfolding message_parsed
  message_parsed-Follows none c s p = p
  message_parsed-Follows (some m) c s p = elim (Bool-cases (is_error c.state)) [
    | inl e ↦ rw (message_parsed, e) p
    | inr e ↦ rw (message_parsed, e) (trans p (handle_message-Follows m (record s { conn = c })))
  ]

  go_on-Follows :
      (next : Action K Bool) (r : Option Bool) (s : Client K)
      → Follows s (next s)
      → Follows s (go_on next r s)
  go_on-Follows next none s h = h
  go_on-Follows next (some ok) s h = here

  read_messages-Follows : (fuel : ℕ) (s : Client K) → Follows s (read_messages fuel s)
  unfolding read_messages
  read_messages-Follows zero s = here
  read_messages-Follows (suc fuel) s =
      let (m, c) = protocol_parse_message s.conn in
      let (round, s1) = message_parsed (m, c) s in
      trans (message_parsed-Follows m c s (parse-Follows s.conn))
        (go_on-Follows (read_messages fuel) round s1 (read_messages-Follows fuel s1))

module _ {K : Type 0} (os : Os K) where
  read-Follows :
      (s : Client K)
      → Reads s.conn.state
      → s.conn.state ⟶* (connection_read_into_in_buffer os s.conn s.kernel).1.state
  unfolding connection_read_into_in_buffer
  read-Follows s r =
      let run = (os.recv s.conn.fd s.kernel).0 in
      rw (read_loop_lem run s.conn) (by_cases (state_after-cases run s.conn.state))
    where
      by_cases :
          {t : ConnectionState}
          → (t ≡ s.conn.state) ⊎ (t ≡ closed) ⊎ (t ≡ connection_error)
          → s.conn.state ⟶* t
      by_cases (inl e) = of_eq e
      by_cases (inr (inl e)) = rw e (then_step (hang_up r) here)
      by_cases (inr (inr e)) = of_error e

  pub handle_read-Follows :
      (s : Client K) → Reads s.conn.state → Follows s (handle_read_network_message_event os s)
  unfolding handle_read_network_message_event
  handle_read-Follows s r =
      let (ok, c, k) = connection_read_into_in_buffer os s.conn s.kernel in
      let s1 = record s { conn = c; kernel = k } in
      let first = read-Follows s r in
      elim (Bool-cases ok) [
        | inl e ↦
            rw (handle_read_network_message_event, e)
              (trans first (read_messages-Follows (suc (length c.in_buffer)) s1))
        | inr e ↦ rw (handle_read_network_message_event, e) first
      ]
