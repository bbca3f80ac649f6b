-- ===== src/Server/Framing.antt =====
-- What src/server/server.cpp puts into the output buffers: whole frames of its messages.
use event_driven_tcp_chatroo.Base.{
  ℕ, ◌≤◌, ◌≡◌, refl, sym, ap, ◌∙◌, ◌⊎◌, inl, inr, List, [], ◌∷◌, ◌++◌, append_assoc, append-nil,
  Bytes, length, arith, All, All-append,
}
use event_driven_tcp_chatroo.Protocol.{
  Message, message, max_payload_size, server_hello, broadcast, close_con,
}
use event_driven_tcp_chatroo.Protocol.Frame.{frame, IsLegal}
use event_driven_tcp_chatroo.Protocol.Chunks.{stream}

-- The bytes are the frames of messages that all fulfil a predicate.
abbrev pub StreamOf : (Message → Type 0) → Bytes → Type 0
StreamOf P b = (ms : List Message) × All P ms × (b ≡ stream ms)

-- What the members of the room get: broadcasts, and the end.
pub record IsRoomMessage (m : Message) : Type 0 where
  pub legal : IsLegal m
  pub kind : (m.type ≡ broadcast) ⊎ ((m.type ≡ close_con) × (m.payload ≡ []))

-- What the server sends at all.
pub record IsServerMessage (m : Message) : Type 0 where
  pub legal : IsLegal m
  pub kind : (m.type ≡ server_hello) ⊎ IsRoomMessage m

stream-append : (xs ys : List Message) → stream (xs ++ ys) ≡ stream xs ++ stream ys
stream-append [] ys = refl
stream-append (m ∷ xs) ys =
    ap (λ b. frame m.type m.payload ++ b) (stream-append xs ys)
    ∙ sym (append_assoc (frame m.type m.payload) (stream xs) (stream ys))

module _ (P : Message → Type 0) where
  pub empty-StreamOf : (b : Bytes) → b ≡ [] → StreamOf P b
  empty-StreamOf b e = ([], tt, e)

  pub frame-StreamOf :
      (b : Bytes) (m : Message) → P m → StreamOf P b → StreamOf P (b ++ frame m.type m.payload)
  frame-StreamOf b m h (ms, all, e) = (
    ms ++ m ∷ [],
    All-append P ms (m ∷ []) all (h, tt),
    ap (λ t. t ++ frame m.type m.payload) e
        ∙ ap (λ t. stream ms ++ t) (sym (append-nil (frame m.type m.payload)))
        ∙ sym (stream-append ms (m ∷ [])),
  )

message-IsLegal :
    (type : ℕ) (text : Bytes)
    → type ≤ 255
    → length text ≤ max_payload_size
    → IsLegal (message type text)
message-IsLegal type text t h = record { is_byte = omega arith; fits = h; exact = omega arith }

-- A message for the room, if it fits into a frame.
abbrev pub ForRoom : Message → Type 0
ForRoom m = length m.payload ≤ max_payload_size → IsRoomMessage m

pub broadcast-ForRoom : (text : Bytes) → ForRoom (message broadcast text)
broadcast-ForRoom text h = record {
  legal = message-IsLegal broadcast text (omega arith) h;
  kind = inl refl;
}

pub close-ForRoom : ForRoom (message close_con [])
close-ForRoom h = record {
  legal = message-IsLegal close_con [] (omega arith) h;
  kind = inr (refl, refl);
}

pub room-IsServerMessage : (m : Message) → IsRoomMessage m → IsServerMessage m
room-IsServerMessage m h = record { legal = h.legal; kind = inr h }

pub hello-IsServerMessage :
    (name : Bytes) → length name ≤ max_payload_size → IsServerMessage (message server_hello name)
hello-IsServerMessage name h = record {
  legal = message-IsLegal server_hello name (omega arith) h;
  kind = inl refl;
}
