-- ===== src/Console/Words.antt =====
-- `std::cin >> word` against the words of a text.
use event_driven_tcp_chatroo.Base.{
  ℕ, true, false, inl, inr, Option, none, some, List, [], ◌∷◌, Bytes, ◌≡◌, ◌≢◌, refl, sym, ap, ◌∙◌,
  Bool-cases, eq-nil_of_is_empty, if◌then◌else◌,
}
use event_driven_tcp_chatroo.Console.{
  Console, good, is_space, skip_spaces, take_word, word_read, read_word,
}

-- The words of a text: the longest stretches without a space.
abbrev pub put : Bytes → List Bytes → List Bytes
put [] ws = ws
put (x ∷ w) ws = (x ∷ w) ∷ ws

-- The word that a text begins with (empty where that is a space), and the later words.
abbrev pub cut : Bytes → Bytes × List Bytes
cut [] = ([], [])
cut (x ∷ xs) = let (w, ws) = cut xs in if is_space x then ([], put w ws) else (x ∷ w, ws)

abbrev pub words : Bytes → List Bytes
words xs = let (w, ws) = cut xs in put w ws

cut_lem : (xs : Bytes) → cut xs ≡ ((take_word xs).0, words (take_word xs).1)
cut_lem [] = refl
cut_lem (x ∷ xs) = elim (Bool-cases (is_space x)) [
  | inl e ↦ rw e (rw e)
  | inr e ↦ rw e (rw (cut_lem xs))
]

words-skip_spaces : (xs : Bytes) → words (skip_spaces xs) ≡ words xs
words-skip_spaces [] = refl
words-skip_spaces (x ∷ xs) = elim (Bool-cases (is_space x)) [
  | inl e ↦ rw e (words-skip_spaces xs)
  | inr e ↦ rw e (rw e)
]

cons-ne-nil : (x : ℕ) (xs : Bytes) → is_space x ≡ false → (take_word (skip_spaces (x ∷ xs))).0 ≢ []
cons-ne-nil x xs e h = cc (rw (e, e) at h)

no_word : (xs : Bytes) → (take_word (skip_spaces xs)).0 ≡ [] → (take_word (skip_spaces xs)).1 ≡ []
no_word [] h = refl
no_word (x ∷ xs) h = elim (Bool-cases (is_space x)) [
  | inl e ↦ rw e (no_word xs (rw e at h))
  | inr e ↦ absurd (cons-ne-nil x xs e h)
]

-- What an extraction takes off the front of the words that are left.
abbrev pub followed_by : Option Bytes → List Bytes → List Bytes
followed_by none ws = ws
followed_by (some w) ws = w ∷ ws

word_read-words :
    (w rest : Bytes) (c : Console)
    → (w ≡ [] → rest ≡ [])
    → followed_by (word_read (w, rest) c).0 (words (word_read (w, rest) c).1.input)
      ≡ put w (words rest)
word_read-words [] rest c h = refl
word_read-words (x ∷ w) rest c h = refl

-- An extraction from a good stream gives the first word, and leaves the others.
pub read_word-words :
    (c : Console)
    → good c ≡ true
    → followed_by (read_word c).0 (words (read_word c).1.input) ≡ words c.input
unfolding read_word
read_word-words c h =
    let t = take_word (skip_spaces c.input) in
    rw h (
      word_read-words t.0 t.1 c (no_word c.input)
      ∙ ap (λ p. put p.0 p.1) (sym (cut_lem (skip_spaces c.input)))
      ∙ words-skip_spaces c.input)

-- An extraction that gives no word leaves no input.
word_read-none :
    (w rest : Bytes) (c : Console)
    → (w ≡ [] → rest ≡ [])
    → (word_read (w, rest) c).0 ≡ none
    → (word_read (w, rest) c).1.input ≡ []
word_read-none [] rest c h e = h refl
word_read-none (x ∷ w) rest c h e = cc

pub read_word-none :
    (c : Console) → good c ≡ true → (read_word c).0 ≡ none → (read_word c).1.input ≡ []
unfolding read_word
read_word-none c h e =
    let t = take_word (skip_spaces c.input) in
    rw h (word_read-none t.0 t.1 c (no_word c.input) (rw h at e))

-- A stream that has not failed, and that is good unless its input is used up.
abbrev pub Settled : Console → Type 0
Settled c = (c.fail ≡ false) × (c.eof ≡ true → c.input ≡ [])

word_read-Settled :
    (w rest : Bytes) (c : Console) {v : Bytes}
    → c.fail ≡ false
    → (word_read (w, rest) c).0 ≡ some v
    → Settled (word_read (w, rest) c).1
word_read-Settled [] rest c f e = cc
word_read-Settled (x ∷ w) rest c f e = (f, eq-nil_of_is_empty rest)

pub read_word-Settled :
    (c : Console) {v : Bytes} → c.fail ≡ false → (read_word c).0 ≡ some v → Settled (read_word c).1
unfolding read_word
read_word-Settled c f e = elim (Bool-cases (good c)) [
  | inl h ↦
      let t = take_word (skip_spaces c.input) in rw h (word_read-Settled t.0 t.1 c f (rw h at e))
  | inr h ↦ cc (rw h at e)
]
