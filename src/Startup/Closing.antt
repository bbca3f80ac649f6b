-- ===== src/Startup/Closing.antt =====
-- The open descriptors over a whole run of the program: `main` of src/main.cpp, `server_init` of
-- src/server/server.cpp and `client_init` of src/client/client.cpp.
use event_driven_tcp_chatroo.Base.{
  ℕ, Bool, false, ◌≡◌, ◌⊎◌, refl, inl, inr, Option, none, some, [], Bytes, codes, Option-cases,
}
use event_driven_tcp_chatroo.Os.{Os}
use event_driven_tcp_chatroo.Connection.{
  Connection, no_fd, server_create_listening_socket, client_connect_to_server,
}
use event_driven_tcp_chatroo.Connection.Descriptors.{Same, NoLeak, Opened-Same}
use event_driven_tcp_chatroo.Connection.Setup.{
  NoLeakConnection, server_create-NoLeak, client_connect-NoLeak,
}
use event_driven_tcp_chatroo.Server.{Server}
use event_driven_tcp_chatroo.Server.Loop.{server_start, server_event_loop}
use event_driven_tcp_chatroo.Server.Registry.Owned.{ServerLaws}
use event_driven_tcp_chatroo.Server.Registry.Life.{server_event_loop-Same}
use event_driven_tcp_chatroo.Client.{Client}
use event_driven_tcp_chatroo.Client.Loop.{client_start, client_event_loop}
use event_driven_tcp_chatroo.Client.Life.{client_event_loop-Same}
use event_driven_tcp_chatroo.Console.{Console, show, ignore_line}
use event_driven_tcp_chatroo.Startup.{
  Mode, server_mode, client_mode, line, ask_listen_port, ask_address, ask_server_port, choose_mode,
}
use event_driven_tcp_chatroo.Startup.Init.{
  Outcome, asking, no_socket, looping, finished, loop_outcome, ask_and_tell, run_server,
  server_listen, server_init, run_client, client_connect, client_init, main,
}

module _ {K : Type 0} (is_open : ℕ → K → Bool) (k : K) where
  -- Where the program has returned, the same descriptors are open as when it began.
  abbrev pub ClosesAll : Outcome K → Type 0
  ClosesAll (asking c) = Unit
  ClosesAll (no_socket c k1) = Same is_open k k1
  ClosesAll looping = Unit
  ClosesAll (finished k1) = Same is_open k k1

  loop_outcome-ClosesAll :
      (o : Option K) → ((k1 : K) → o ≡ some k1 → Same is_open k k1) → ClosesAll (loop_outcome o)
  loop_outcome-ClosesAll none h = tt
  loop_outcome-ClosesAll (some k1) h = h k1 refl

-- The server before its event loop.
abbrev first_server : {K : Type 0} → Bytes → ℕ → ℕ → K → Server K
first_server name port listen_fd k = record {
  name = name;
  port = port;
  listen_fd = listen_fd;
  epoll_fd = no_fd;
  connections = [];
  closing = false;
  cached = none;
  printed = [];
  kernel = k;
}

module _ {K : Type 0} (os : Os K) (name : Bytes) (port : ℕ) (k : K) where
  start_none :
      (server_create_listening_socket os port k).0 ≡ none
      → server_start os name port k ≡ (none, (server_create_listening_socket os port k).1)
  unfolding server_start
  start_none e = rw (server_start, e)

  start_some :
      (listen_fd : ℕ)
      → (server_create_listening_socket os port k).0 ≡ some listen_fd
      → let k1 = (server_create_listening_socket os port k).1 in
        server_start os name port k ≡ (some (first_server name port listen_fd k1), k1)
  unfolding server_start
  start_some listen_fd e = rw (server_start, e)

-- The client before its event loop.
abbrev first_client : {K : Type 0} → Bytes → Connection → K → Client K
first_client name c k = record {
  name = name;
  conn = c;
  epoll_fd = no_fd;
  quitting = false;
  printed = [];
  kernel = k;
}

module _ {K : Type 0} (os : Os K) (name : Bytes) (server : ℕ) (k : K) where
  client_none :
      (client_connect_to_server os server k).0 ≡ none
      → client_start os name server k ≡ (none, (client_connect_to_server os server k).1)
  unfolding client_start
  client_none e = rw (client_start, e)

  client_some :
      (c : Connection)
      → (client_connect_to_server os server k).0 ≡ some c
      → let k1 = (client_connect_to_server os server k).1 in
        client_start os name server k ≡ (some (first_client name c k1), k1)
  unfolding client_start
  client_some c e = rw (client_start, e)

Mode-cases : (m : Option Mode) → (m ≡ none) ⊎ ((m ≡ some server_mode) ⊎ (m ≡ some client_mode))
Mode-cases none = inl refl
Mode-cases (some server_mode) = inr (inl refl)
Mode-cases (some client_mode) = inr (inr refl)

module _ {K : Type 0} (os : Os K) (laws : ServerLaws os) (hand_over : Console → K → K)
    (handed : (c : Console) (k : K) → Same laws.fds.is_open k (hand_over c k)) (n m : ℕ) where
  run_server-ClosesAll :
      (name : Bytes) (port : ℕ) (c : Console) (k : K)
      → NoLeak laws.fds.is_open k (server_create_listening_socket os port k)
      → ClosesAll laws.fds.is_open k (run_server os hand_over n m (server_start os name port k) c)
  run_server-ClosesAll name port c k made =
      let (fd, k1) = server_create_listening_socket os port k in
      elim (Option-cases fd) [
        | inl e ↦ rw (start_none os name port k e) (rw e at made)
        | inr (listen_fd, e) ↦
            let s = first_server name port listen_fd (hand_over (ignore_line c) k1) in
            rw (start_some os name port k listen_fd e) (
              loop_outcome-ClosesAll laws.fds.is_open k (server_event_loop os m s) (λ k2 ended.
                server_event_loop-Same os laws k m s
                  (Opened-Same laws.fds.is_open listen_fd (rw e at made)
                    (handed (ignore_line c) k1))
                  refl ended))
      ]

  server_listen-ClosesAll :
      (name : Bytes) (port : ℕ) (c : Console) (k : K)
      → ClosesAll laws.fds.is_open k (server_listen os hand_over n m name port c k)
  unfolding server_listen
  server_listen-ClosesAll name port c k =
      run_server-ClosesAll name port _ k (server_create-NoLeak os laws.fds port k)

  server_init-ClosesAll :
      (c : Console) (k : K) → ClosesAll laws.fds.is_open k (server_init os hand_over n m c k)
  unfolding server_init
  server_init-ClosesAll c k =
      let (name, c1) =
        ask_and_tell (codes "Enter your username: ") (codes "Your username is: ") n
          (show (line "Server mode selected.") c) in
      elim (Option-cases name) [
        | inl e ↦ rw (server_init, e) tt
        | inr (w, e) ↦
            let (port, c2) = ask_listen_port n c1 in
            elim (Option-cases port) [
              | inl e2 ↦ rw (server_init, e, e2) tt
              | inr (p, e2) ↦ rw (server_init, e, e2) (server_listen-ClosesAll w p c2 k)
            ]
      ]

  run_client-ClosesAll :
      (name : Bytes) (server : ℕ) (c : Console) (k : K)
      → NoLeakConnection laws.fds.is_open k (client_connect_to_server os server k)
      → ClosesAll laws.fds.is_open k (run_client os hand_over n m (client_start os name server k) c)
  run_client-ClosesAll name server c k made =
      let (conn, k1) = client_connect_to_server os server k in
      elim (Option-cases conn) [
        | inl e ↦ rw (client_none os name server k e) (rw e at made)
        | inr (conn1, e) ↦
            let c1 = ignore_line (show (line "Connection setup started.") c) in
            let s = first_client name conn1 (hand_over c1 k1) in
            rw (client_some os name server k conn1 e) (
              loop_outcome-ClosesAll laws.fds.is_open k (client_event_loop os m s) (λ k2 ended.
                client_event_loop-Same os laws k m s
                  (Opened-Same laws.fds.is_open conn1.fd (rw e at made) (handed c1 k1)) refl ended))
      ]

  client_connect-ClosesAll :
      (name : Bytes) (address port : ℕ) (c : Console) (k : K)
      → ClosesAll laws.fds.is_open k (client_connect os hand_over n m name address port c k)
  unfolding client_connect
  client_connect-ClosesAll name address port c k =
      run_client-ClosesAll name _ c k (client_connect-NoLeak os laws.fds _ k)

  client_init-ClosesAll :
      (inet_pton : Bytes → Option ℕ) (c : Console) (k : K)
      → ClosesAll laws.fds.is_open k (client_init os hand_over n m inet_pton c k)
  unfolding client_init
  client_init-ClosesAll inet_pton c k =
      let (name, c1) =
        ask_and_tell (codes "Enter your name: ") (codes "Your name is: ") n
          (show (line "Initializing client...") c) in
      let (address, c2) = ask_address inet_pton n c1 in
      let (port, c3) = ask_server_port n c2 in
      elim (Option-cases name) [
        | inl e ↦ rw (client_init, e) tt
        | inr (w, e) ↦ elim (Option-cases address) [
          | inl e2 ↦ rw (client_init, e, e2) tt
          | inr (a, e2) ↦ elim (Option-cases port) [
            | inl e3 ↦ rw (client_init, e, e2, e3) tt
            | inr (p, e3) ↦ rw (client_init, e, e2, e3) (client_connect-ClosesAll w a p c3 k)
          ]
        ]
      ]

  -- For every system that keeps the stated laws (a new descriptor was not open before, only closing
  -- frees one, -1 is never open, and a new object has an address that no connection of the list
  -- has), and where the hand-over of the standard input to the event loop opens and closes nothing:
  -- whatever is typed, whichever mode is chosen and whatever events come, if the program returns,
  -- whether because there is no socket, because the set-up of the epoll instance fails or because
  -- the event loop has ended and all is cleaned up, then exactly the descriptors are open that were
  -- open when it began.
  pub main-ClosesAll :
      (found : ℕ → ℕ) (inet_pton : Bytes → Option ℕ) (c : Console) (k : K)
      → ClosesAll laws.fds.is_open k (main os hand_over n m found inet_pton c k)
  unfolding main
  main-ClosesAll found inet_pton c k =
      let (mode, c1) = choose_mode found n c in
      elim (Mode-cases mode) [
        | inl e ↦ rw (main, e) tt
        | inr (inl e) ↦ rw (main, e) (server_init-ClosesAll c1 k)
        | inr (inr e) ↦ rw (main, e) (client_init-ClosesAll inet_pton c1 k)
      ]
