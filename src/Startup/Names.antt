-- ===== src/Startup/Names.antt =====
-- The question for the name in `server_init` of src/server/server.cpp and `client_init` of
-- src/client/client.cpp: which word is taken, and whether one is.
use event_driven_tcp_chatroo.Base.{
  ℕ, zero, suc, true, false, inl, inr, Option, none, some, List, [], ◌∷◌, Bytes, ◌≡◌, refl, sym, ap,
  ◌∙◌, Bool-cases, Option-cases, take, if◌then◌else◌, arith,
}
use event_driven_tcp_chatroo.Server.{name_is_reserved}
use event_driven_tcp_chatroo.Console.{Console, good, show, read_word, clear, ignore_line}
use event_driven_tcp_chatroo.Console.Words.{
  words, read_word-words, read_word-none, read_word-Settled, Settled,
}
use event_driven_tcp_chatroo.Startup.{line, ask_name}

-- The first word that is no reserved name.
unfoldable pub first_free : List Bytes → Option Bytes
first_free [] = none
first_free (w ∷ ws) = if name_is_reserved w then first_free ws else some w

-- One round, where there is a word and where there is none.
ask_name_word :
    (question : Bytes) (n : ℕ) (c : Console) (w : Bytes)
    → (read_word (show question c)).0 ≡ some w
    → (ask_name question (suc n) c).0 ≡ (
        if name_is_reserved w
        then (ask_name question n
            (show (line "[app] reserved name.") (read_word (show question c)).1)).0
        else some w)
unfolding ask_name
ask_name_word question n c w h = elim (Bool-cases (name_is_reserved w)) [
  | inl e ↦ rw e (rw (ask_name, h) (rw e))
  | inr e ↦ rw e (rw (ask_name, h) (rw e))
]

ask_name-none :
    (question : Bytes) (n : ℕ) (c : Console)
    → (read_word (show question c)).0 ≡ none
    → ask_name question (suc n) c
      ≡ ask_name question n (ignore_line (clear (read_word (show question c)).1))
unfolding ask_name
ask_name-none question n c h = rw (ask_name, h)

-- Where the input is used up, whatever the state of the stream.
read_word_dry :
    (c : Console) → c.input ≡ [] → ((read_word c).0 ≡ none) × ((read_word c).1.input ≡ [])
unfolding read_word
read_word_dry c h = elim (Bool-cases (good c)) [
  | inl g ↦ rw (g, h) (refl, refl)
  | inr g ↦ rw g (refl, h)
]

ignore_line_dry : (c : Console) → c.input ≡ [] → (ignore_line (clear c)).input ≡ []
unfolding ignore_line
ignore_line_dry c h = rw h

ask_name_dry :
    (question : Bytes) (n : ℕ) (c : Console) → c.input ≡ [] → (ask_name question n c).0 ≡ none
unfolding ask_name
ask_name_dry question zero c h = refl
ask_name_dry question (suc n) c h =
    let dry = read_word_dry (show question c) h in
    ap (λ p. p.0) (ask_name-none question n c dry.0)
    ∙ ask_name_dry question n (ignore_line (clear (read_word (show question c)).1))
        (ignore_line_dry (read_word (show question c)).1 dry.1)

unsettled : (c : Console) → c.fail ≡ false → good c ≡ false → c.eof ≡ true
unsettled c f g = ground arith

read_word_failed : (c : Console) → good c ≡ false → (read_word c).0 ≡ none
unfolding read_word
read_word_failed c g = rw g

-- A settled stream that gives no word has none.
words_of_none :
    (c : Console)
    → Settled c
    → (read_word c).0 ≡ none
    → ((read_word c).1.input ≡ []) × (words c.input ≡ [])
words_of_none c (f, e) h = elim (Bool-cases (good c)) [
  | inl g ↦ let dry = read_word-none c g h in (dry, sym (read_word-words c g) ∙ rw (h, dry))
  | inr g ↦ let empty = e (unsettled c f g) in ((read_word_dry c empty).1, ap words empty)
]

words_of_some :
    (c : Console) {w : Bytes}
    → (read_word c).0 ≡ some w
    → words c.input ≡ w ∷ words (read_word c).1.input
words_of_some c h = elim (Bool-cases (good c)) [
  | inl g ↦ sym (read_word-words c g) ∙ rw h
  | inr g ↦ cc (read_word_failed c g, h)
]

-- If the standard input has not failed, and its end has been met only where no input is left, then
-- after n rounds of the question for the name the answer is the first of the first n words of the
-- input that is no reserved name; where there is none among them, also because the input is used
-- up, the question is still asked. Words are the longest stretches without a space.
pub ask_name-first_free :
    (question : Bytes) (n : ℕ) (c : Console)
    → Settled c
    → (ask_name question n c).0 ≡ first_free (take n (words c.input))
unfolding first_free
ask_name-first_free question zero c s = unfold ask_name in refl
ask_name-first_free question (suc n) c s = elim (Option-cases (read_word (show question c)).0) [
  | inl unread ↦
      let (dry, empty) = words_of_none (show question c) s unread in
      ap (λ p. p.0) (ask_name-none question n c unread)
      ∙ ask_name_dry question n (ignore_line (clear (read_word (show question c)).1))
          (ignore_line_dry (read_word (show question c)).1 dry)
      ∙ ap (λ ws. first_free (take (suc n) ws)) (sym empty)
  | inr (w, h) ↦
      let c1 = (read_word (show question c)).1 in
      ask_name_word question n c w h
      ∙ ap (λ o. if name_is_reserved w then o else some w)
          (ask_name-first_free question n (show (line "[app] reserved name.") c1)
            (read_word-Settled (show question c) s.0 h))
      ∙ ap (λ ws. first_free (take (suc n) ws)) (sym (words_of_some (show question c) h))
]
