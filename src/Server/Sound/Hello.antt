-- ===== src/Server/Sound/Hello.antt =====
-- The invariant in the handler of CLIENT_HELLO in src/server/server.cpp.
use event_driven_tcp_chatroo.Base.{
  ℕ, ◌≢◌, refl, Option, none, some, inl, inr, [], ◌++◌, Bytes, is_empty, length-append, arith, ◌==◌,
  Bool-cases, ne-nil_of_is_empty,
}
use event_driven_tcp_chatroo.Os.{Os}
use event_driven_tcp_chatroo.Connection.{Connection, sending_server_hello, connection_error}
use event_driven_tcp_chatroo.Protocol.{
  Message, message, client_hello, server_hello, protocol_parse_message,
}
use event_driven_tcp_chatroo.Protocol.Frame.{frame, queue-cases}
use event_driven_tcp_chatroo.Server.{Server, store}
use event_driven_tcp_chatroo.Server.Framing.{IsServerMessage, frame-StreamOf, hello-IsServerMessage}
use event_driven_tcp_chatroo.Server.Hello.{
  read_in, answer_hello, take_hello, hello_parsed, receive_hello, handle_receive_client_hello_event,
}
use event_driven_tcp_chatroo.Server.Sound.{IsSound, Sound, Keeps, remove-Keeps}
use event_driven_tcp_chatroo.Server.Sound.Handlers.{
  store-Sound, look_up-Keeps, parse-IsSound, read_in-Sound,
}

named-IsSound :
    (c : Connection) (name : Bytes) (m : Message)
    → IsServerMessage m
    → name ≢ []
    → IsSound c
    → IsSound (record c {
      name = name;
      out_buffer = c.out_buffer ++ frame m.type m.payload;
      state = sending_server_hello;
    })
named-IsSound c name m hello some_name h = record {
  buffered = omega (arith, length-append c.out_buffer (frame m.type m.payload), h.buffered);
  framed = frame-StreamOf IsServerMessage c.out_buffer m hello h.framed;
  room = λ w. cc;
  strangers = λ w. cc;
  named = λ w. some_name;
  serving = refl;
}

failed_named-IsSound :
    (c : Connection) (name : Bytes)
    → IsSound c
    → IsSound (record c { name = name; state = connection_error })
failed_named-IsSound c name h = record {
  framed = h.framed;
  room = λ w. cc;
  buffered = h.buffered;
  strangers = λ w. cc;
  named = λ w. cc;
  serving = refl;
}

module _ {K : Type 0} (os : Os K) where
  answer_hello-Sound :
      (c : Connection) (name : Bytes) (s : Server K)
      → name ≢ []
      → IsSound c
      → Sound s
      → Sound (answer_hello os (record c { name = name }) s).1
  unfolding answer_hello
  answer_hello-Sound c name s some_name p h =
      elim (queue-cases (record c { name = name }) (message server_hello s.name)) [
        | inl (e, fits) ↦
            rw (answer_hello, e)
              (store-Sound _ s
                (named-IsSound c name (message server_hello s.name)
                  (hello-IsServerMessage s.name fits) some_name p)
                h)
        | inr e ↦ rw (answer_hello, e) (store-Sound _ s (failed_named-IsSound c name p) h)
      ]

  take_hello-Sound :
      (c : Connection) (m : Message) (s : Server K)
      → IsSound c
      → Sound s
      → Sound (take_hello os c m s).1
  unfolding take_hello
  take_hello-Sound c m s p h = elim (Bool-cases (m.type == client_hello)) [
    | inr other ↦
        rw (take_hello, other) (remove-Keeps os (record c { state = connection_error }) s h)
    | inl hello ↦ elim (Bool-cases (is_empty m.payload)) [
      | inl nameless ↦
          rw (take_hello, hello, nameless)
            (remove-Keeps os (record c { state = connection_error }) s h)
      | inr named ↦
          rw (take_hello, hello, named)
            (answer_hello-Sound c m.payload s (ne-nil_of_is_empty m.payload named) p h)
    ]
  ]

  hello_parsed-Sound :
      (m : Option Message) (c : Connection) (s : Server K)
      → IsSound c
      → Sound s
      → Sound (hello_parsed os (m, c) s).1
  unfolding hello_parsed
  hello_parsed-Sound none c s p h =
      ground (arith, store-Sound c s p h, remove-Keeps os c (store c s).1 (store-Sound c s p h))
  hello_parsed-Sound (some m) c s p h = ground (
    arith,
    store-Sound c s p h,
    remove-Keeps os c (store c s).1 (store-Sound c s p h),
    take_hello-Sound c m (store c s).1 p (store-Sound c s p h),
  )

  receive_hello-Sound :
      (c : Connection) (s : Server K) → IsSound c → Sound s → Sound (receive_hello os c s).1
  unfolding receive_hello
  receive_hello-Sound c s p h =
      let read = read_in-Sound os c s p h in
      let (m, c2) = protocol_parse_message (read_in os c s).0.1 in
      ground (
        arith,
        remove-Keeps os (read_in os c s).0.1 (read_in os c s).1 read.1,
        hello_parsed-Sound m c2 (read_in os c s).1 (parse-IsSound (read_in os c s).0.1 read.0)
            read.1,
      )

  pub handle_hello-Keeps : (fd : ℕ) → Keeps (handle_receive_client_hello_event os fd)
  unfolding handle_receive_client_hello_event
  handle_hello-Keeps fd = look_up-Keeps (receive_hello os) fd receive_hello-Sound
