-- ===== src/Protocol/Split.antt =====
-- A byte stream of frames (src/network/protocol.cpp) that is cut anywhere.
use event_driven_tcp_chatroo.Base.{
  ◌≡◌, ◌≢◌, refl, sym, ap, ◌∙◌, ◌⊎◌, inl, inr, List, [], ◌∷◌, ◌++◌, append_assoc, Bytes, All,
}
use event_driven_tcp_chatroo.Protocol.{Message}
use event_driven_tcp_chatroo.Protocol.Frame.{frame, IsLegal}
use event_driven_tcp_chatroo.Protocol.Chunks.{stream, IsPartial}

-- Two ways to cut a text: the first cut is behind the second, or before it.
pub append-cases :
    (y z f r : Bytes)
    → y ++ z ≡ f ++ r
    → ((w : Bytes) × (y ≡ f ++ w) × (w ++ z ≡ r)) ⊎ ((w : Bytes) × (w ≢ []) × (y ++ w ≡ f))
append-cases y z [] r e = inl (y, refl, e)
append-cases [] z (x ∷ f) r e = inr (x ∷ f, (λ h. cc h), refl)
append-cases (a ∷ y) z (x ∷ f) r e = elim (append-cases y z f r (cc e)) [
  | inl (w, split, rest) ↦ inl (w, cc (e, split), rest)
  | inr (w, some_left, whole) ↦ inr (w, some_left, cc (e, whole))
]

append-ne-nil : (z missing : Bytes) → missing ≢ [] → z ++ missing ≢ []
append-ne-nil [] missing h e = h e
append-ne-nil (x ∷ z) missing h e = cc e

-- The messages whose frames are whole before the cut, and the beginning of the next frame there.
pub record CutAt (y z : Bytes) (ms : List Message) (part : Bytes) : Type 0 where
  pub first : List Message
  pub later : List Message
  pub begun : Bytes
  pub all : ms ≡ first ++ later
  pub before : y ≡ stream first ++ begun
  pub behind : begun ++ z ≡ stream later ++ part
  pub partial : IsPartial begun
  pub first_legal : All IsLegal first
  pub later_legal : All IsLegal later

pub cut_stream :
    (y z : Bytes) (ms : List Message) (part : Bytes)
    → All IsLegal ms
    → IsPartial part
    → y ++ z ≡ stream ms ++ part
    → CutAt y z ms part
cut_stream y z [] part legal (type, payload, missing, fits, some_missing, whole) e = record {
  first = [];
  later = [];
  begun = y;
  all = refl;
  before = refl;
  behind = e;
  partial = (
    type,
    payload,
    z ++ missing,
    fits,
    append-ne-nil z missing some_missing,
    sym (append_assoc y z missing) ∙ ap (λ t. t ++ missing) e ∙ whole,
  );
  first_legal = tt;
  later_legal = tt;
}
cut_stream y z (m ∷ ms) part legal p e =
    elim (append-cases y z (frame m.type m.payload) (stream ms ++ part)
      (e ∙ append_assoc (frame m.type m.payload) (stream ms) part)) [
        | inr (w, some_left, whole) ↦ record {
          first = [];
          later = m ∷ ms;
          begun = y;
          all = refl;
          before = refl;
          behind = e;
          partial = (m.type, m.payload, w, legal.0.fits, some_left, whole);
          first_legal = tt;
          later_legal = legal;
        }
        | inl (w, split, rest) ↦
            let c = cut_stream w z ms part legal.1 p rest in
            record {
              first = m ∷ c.first;
              later = c.later;
              begun = c.begun;
              all = ap (◌∷◌ m) c.all;
              before =
                  split
                  ∙ ap (λ t. frame m.type m.payload ++ t) c.before
                  ∙ sym (append_assoc (frame m.type m.payload) (stream c.first) c.begun);
              behind = c.behind;
              partial = c.partial;
              first_legal = (legal.0, c.first_legal);
              later_legal = c.later_legal;
            }
      ]
