-- ===== src/Connection/Setup.antt =====
-- Open descriptors in server_create_listening_socket and client_connect_to_server of
-- src/connection/connection.cpp.
use event_driven_tcp_chatroo.Base.{
  ℕ, refl, Bool, inl, inr, Option, none, some, Bool-cases, [], if◌then◌else◌,
}
use event_driven_tcp_chatroo.Os.{
  Os, eintr, eagain, ewouldblock, einprogress, other_error, Reply, returned, failed, socket,
  set_reuse_addr, connect,
}
use event_driven_tcp_chatroo.Connection.{
  Connection, give_up, set_nonblocking, bind_and_listen, server_create_listening_socket,
  after_connect, client_connect_to_server,
}
use event_driven_tcp_chatroo.Connection.Descriptors.{
  FdLaws, Reply-split, Same, Opened, NoLeak, Opened-Same, new-Opened, give_up-Same,
  set_nonblocking-Same, bind_and_listen-NoLeak,
}

module _ {K : Type 0} (is_open : ℕ → K → Bool) where
  -- The same for a function that returns a connection.
  abbrev pub NoLeakConnection : K → Option Connection × K → Type 0
  NoLeakConnection k (none, k1) = Same is_open k k1
  NoLeakConnection k (some c, k1) = Opened is_open c.fd k k1

module _ {K : Type 0} (os : Os K) (laws : FdLaws os) where
  open laws use {is_open, not_opened, kept, address_kept}

  after_reuse-NoLeak :
      (port fd : ℕ) (k k1 : K)
      → Opened is_open fd k k1
      → let (ok, k2) = set_nonblocking os fd k1 in
        NoLeak is_open k (if ok then bind_and_listen os port fd k2 else give_up os fd k2)
  after_reuse-NoLeak port fd k k1 o =
      let o2 = Opened-Same is_open fd o (set_nonblocking-Same os laws fd k1) in
      elim (Bool-cases (set_nonblocking os fd k1).0) [
        | inl e ↦ rw e (bind_and_listen-NoLeak os laws port fd k _ o2)
        | inr e ↦ rw e (give_up-Same os laws fd k _ o2)
      ]

  -- For every system that keeps the stated laws of descriptors, making the listening socket either
  -- returns a descriptor that was not open before, and it is open then, besides all that were open
  -- before, or returns -1, and exactly the descriptors that were open before are open then.
  pub server_create-NoLeak :
      (port : ℕ) (k : K) → NoLeak is_open k (server_create_listening_socket os port k)
  unfolding server_create_listening_socket
  server_create-NoLeak port k = elim (Reply-split (os.call socket k).0) [
    | inr (e, h) ↦ rw (server_create_listening_socket, h) (λ d. not_opened socket k e d refl h)
    | inl (fd, h) ↦
        let k1 = (os.call socket k).1 in
        let o = new-Opened os laws socket k fd refl h in
        let o2 = Opened-Same is_open fd o (λ d. kept (set_reuse_addr fd) k1 d refl) in
        elim (Reply-split (os.call (set_reuse_addr fd) k1).0) [
          | inr (e, h2) ↦
              rw (server_create_listening_socket, h, h2) (give_up-Same os laws fd k _ o2)
          | inl (n, h2) ↦
              rw (server_create_listening_socket, h, h2) (after_reuse-NoLeak port fd k _ o2)
        ]
  ]

  after_connect-NoLeak :
      (fd : ℕ) (k k1 : K) (r : Reply)
      → Opened is_open fd k k1
      → NoLeakConnection is_open k (after_connect os fd (r, k1))
  unfolding after_connect
  after_connect-NoLeak fd k k1 (returned n) o = Opened-Same is_open fd o (λ d. address_kept [] k1 d)
  after_connect-NoLeak fd k k1 (failed einprogress) o =
      Opened-Same is_open fd o (λ d. address_kept [] k1 d)
  after_connect-NoLeak fd k k1 (failed eintr) o = give_up-Same os laws fd k k1 o
  after_connect-NoLeak fd k k1 (failed eagain) o = give_up-Same os laws fd k k1 o
  after_connect-NoLeak fd k k1 (failed ewouldblock) o = give_up-Same os laws fd k k1 o
  after_connect-NoLeak fd k k1 (failed (other_error n)) o = give_up-Same os laws fd k k1 o

  -- For every system that keeps the stated laws of descriptors, connecting to the server either
  -- returns a connection whose descriptor was not open before, and it is open then, besides all
  -- that were open before, or returns the null pointer, and exactly the descriptors that were open
  -- before are open then.
  pub client_connect-NoLeak :
      (server : ℕ) (k : K) → NoLeakConnection is_open k (client_connect_to_server os server k)
  unfolding client_connect_to_server
  client_connect-NoLeak server k = elim (Reply-split (os.call socket k).0) [
    | inr (e, h) ↦ rw (client_connect_to_server, h) (λ d. not_opened socket k e d refl h)
    | inl (fd, h) ↦
        let k1 = (os.call socket k).1 in
        let k2 = (set_nonblocking os fd k1).1 in
        let o =
          Opened-Same is_open fd (new-Opened os laws socket k fd refl h)
            (set_nonblocking-Same os laws fd k1) in
        elim (Bool-cases (set_nonblocking os fd k1).0) [
          | inr bad ↦ rw (client_connect_to_server, h, bad) (give_up-Same os laws fd k k2 o)
          | inl ok ↦
              rw (client_connect_to_server, h, ok)
                (after_connect-NoLeak fd k _ (os.call (connect fd server) k2).0
                  (Opened-Same is_open fd o (λ d. kept (connect fd server) k2 d refl)))
        ]
  ]
