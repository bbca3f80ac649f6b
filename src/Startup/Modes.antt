-- ===== src/Startup/Modes.antt =====
-- The loop of `main` of src/main.cpp once a number could not be read.
use event_driven_tcp_chatroo.Base.{
  ℕ, zero, suc, ◌-◌, ◌^◌, Bool, true, false, not, inl, inr, none, [], ◌∷◌, Bytes, ◌≡◌, refl,
  Bool-cases, leb, ◌++◌, codes, append-nil, append_assoc, sym, ap, ◌∙◌, arith,
}
use event_driven_tcp_chatroo.Console.{
  Console, good, show, is_digit, skip_spaces, span, take_sign, decimal, int_value, int_read,
  read_int,
}
use event_driven_tcp_chatroo.Startup.{line, menu, mode_of, stored_or, choose_mode}

-- A number that is stored although the extraction fails is no mode.
int_value_failed :
    (negative : Bool) (digits : Bytes)
    → (int_value negative digits).1 ≡ false
    → mode_of (int_value negative digits).0 ≡ none
int_value_failed false [] h = refl
int_value_failed true [] h = refl
int_value_failed false (x ∷ digits) h =
    elim (Bool-cases (leb (decimal 0 (x ∷ digits)) (2 ^ 31 - 1))) [
      | inl e ↦ cc (rw e at h)
      | inr e ↦ rw e
    ]
int_value_failed true (x ∷ digits) h = elim (Bool-cases (leb (decimal 0 (x ∷ digits)) (2 ^ 31))) [
  | inl e ↦ cc (rw e at h)
  | inr e ↦ rw e
]

false_of_not : (b : Bool) → not b ≡ true → b ≡ false
false_of_not true h = cc
false_of_not false h = refl

int_read_failed :
    (text : Bytes) (c : Console) (found : ℕ)
    → mode_of found ≡ none
    → (int_read text c).1.fail ≡ true
    → mode_of (stored_or (int_read text c).0 found) ≡ none
int_read_failed [] c found f h = f
int_read_failed (x ∷ text) c found f h =
    let (negative, unsigned) = take_sign (x ∷ text) in
    int_value_failed negative (span is_digit unsigned).0 (false_of_not _ h)

read_int_failed :
    (c : Console) (found : ℕ)
    → mode_of found ≡ none
    → (read_int c).1.fail ≡ true
    → mode_of (stored_or (read_int c).0 found) ≡ none
unfolding read_int
read_int_failed c found f h = elim (Bool-cases (good c)) [
  | inl g ↦ rw g (int_read_failed (skip_spaces c.input) c found f (rw g at h))
  | inr g ↦ rw g f
]

-- The failure stays, as nothing clears it.
read_int_fails_again : (c : Console) → c.fail ≡ true → (read_int c).1.fail ≡ true
unfolding read_int
read_int_fails_again c h = rw h

-- Reading a number shows nothing.
read_int-shown : (c : Console) → (read_int c).1.shown ≡ c.shown
unfolding read_int
read_int-shown c = ground arith

-- What is shown in so many rounds without an answer.
abbrev pub asked_again : ℕ → Bytes
asked_again zero = []
asked_again (suc n) =
    codes "Welcome to the chatroom!"
    ++ b'\n' ∷ codes "Please select a mode:"
    ++ b'\n' ∷ codes "1. Server"
    ++ b'\n' ∷ codes "2. Client"
    ++ b'\n' ∷ codes "> "
    ++ codes "Invalid mode selected."
    ++ b'\n' ∷ asked_again n

-- If the first number of the mode cannot be read, because the input is used up, is no number or is
-- out of the range of `int`, or because the stream has failed before, and the variable without a
-- first value never happens to hold 1 or 2, then in any number of rounds the loop of `main` takes
-- no mode, and has shown in each of them the five lines of the menu, whose text is written out, and
-- that the mode is invalid, and nothing else.
pub choose_mode-never :
    (found : ℕ → ℕ) (n : ℕ) (c : Console)
    → ((i : ℕ) → mode_of (found i) ≡ none)
    → (read_int (show menu c)).1.fail ≡ true
    → let (mode, c1) = choose_mode found n c in
      (mode ≡ none) × (c1.shown ≡ c.shown ++ asked_again n)
unfolding choose_mode
choose_mode-never found zero c f h = (refl, sym (append-nil c.shown))
choose_mode-never found (suc n) c f h =
    let c1 = (read_int (show menu c)).1 in
    let c2 = show (line "Invalid mode selected.") c1 in
    let (never, more) = choose_mode-never found n c2 f (read_int_fails_again (show menu c2) h) in
    let before =
      ap (λ b. (b ++ line "Invalid mode selected.") ++ asked_again n)
        (read_int-shown (show menu c)) in
    rw (choose_mode, read_int_failed (show menu c) (found n) (f n) h)
      (never, more ∙ before ∙ joined c.shown)
  where
    joined :
        (b : Bytes)
        → ((b ++ menu) ++ line "Invalid mode selected.") ++ asked_again n ≡ b ++ asked_again (suc n)
    joined b =
        append_assoc (b ++ menu) (line "Invalid mode selected.") (asked_again n)
        ∙ append_assoc b menu (line "Invalid mode selected." ++ asked_again n)
