-- ===== src/Base/Monad.antt =====
-- Functions that change a state and return a value, with the two ways in which the source chains
-- them.
use mathlib.Core.Bool.{Bool, false}
use event_driven_tcp_chatroo.Base.Tests.{if◌then◌else◌}

abbrev pub State : Type 0 → Type 0 → Type 0
State S A = S → A × S

module _ {S : Type 0} where
  abbrev pub pure : {A : Type 0} → A → State S A
  pure a s = (a, s)

  infixl 5 ◌>>=◌ ◌>>◌
  abbrev pub ◌>>=◌ : {A B : Type 0} → State S A → (A → State S B) → State S B
  ◌>>=◌ m f s = let (a, s1) = m s in f a s1

  abbrev pub ◌>>◌ : {A B : Type 0} → State S A → State S B → State S B
  ◌>>◌ m k s = let (a, s1) = m s in k s1

  -- `if (!m) { return false; } k`
  abbrev pub and_then : State S Bool → State S Bool → State S Bool
  and_then m k s = let (ok, s1) = m s in if ok then k s1 else (false, s1)
