-- ===== src/Log/Levels.antt =====
-- Which messages src/log/log.c prints.
use event_driven_tcp_chatroo.Base.{
  ◌≤◌, inl, inr, List, [], ◌∷◌, ◌++◌, Bytes, codes, ◌≡◌, refl, ap₂, ◌∙◌, Bool-cases, ◌==◌, leb,
  if◌then◌else◌, arith,
}
use event_driven_tcp_chatroo.Log.{
  Level, off, info, error, rank, Tag, shell, tag_name, address, Logger, logd_level_set,
  log_level_set_all_off, log_level_enabled, logd, logd_plain,
}

all_off : (t : Tag) (s : Logger) → (log_level_set_all_off s).level t ≡ off
unfolding log_level_set_all_off logd_level_set
all_off shell s = refl
all_off t s = refl

-- After `log_level_set_all_OFF` no message of the levels that the program uses is printed.
all_off-silent :
    (t : Tag) (level : Level) (text : Bytes) (s : Logger)
    → 1 ≤ rank level
    → (logd t level text (log_level_set_all_off s) ≡ log_level_set_all_off s)
      × (logd_plain t level text (log_level_set_all_off s) ≡ log_level_set_all_off s)
unfolding logd logd_plain log_level_enabled
all_off-silent t off text s h = absurd (omega arith)
all_off-silent t info text s h = rw (all_off t s) (refl, refl)
all_off-silent t error text s h = rw (all_off t s) (refl, refl)

-- The calls of `logd_level_set` in their order.
unfoldable pub set_levels : List (Tag × Level) → Logger → Logger
set_levels [] s = s
set_levels ((t, l) ∷ calls) s = set_levels calls (logd_level_set t l s)

-- The level in the last of the calls that names the tag, or the one before them.
unfoldable pub last_level : Tag → List (Tag × Level) → Level → Level
last_level t [] l = l
last_level t ((t', l') ∷ calls) l = last_level t calls (if address t == address t' then l' else l)

set_levels-level :
    (t : Tag) (calls : List (Tag × Level)) (s : Logger)
    → (set_levels calls s).level t ≡ last_level t calls (s.level t)
unfolding set_levels last_level logd_level_set
set_levels-level t [] s = refl
set_levels-level t ((t', l') ∷ calls) s = set_levels-level t calls (logd_level_set t' l' s)

set_levels-written :
    (calls : List (Tag × Level)) (s : Logger) → (set_levels calls s).written ≡ s.written
unfolding set_levels logd_level_set
set_levels-written [] s = refl
set_levels-written ((t, l) ∷ calls) s = set_levels-written calls (logd_level_set t l s)

abbrev pub printed : Bytes → Tag → Bytes → Bytes
printed before t text = (before ++ (b'[' ∷ (tag_name t ++ codes "] "))) ++ text

logd_written :
    (t : Tag) (message : Level) (text : Bytes) (s : Logger)
    → (logd t message text s).written
      ≡ (if leb (rank message) (rank (s.level t)) then printed s.written t text else s.written)
unfolding logd log_level_enabled
logd_written t message text s = elim (Bool-cases (leb (rank message) (rank (s.level t)))) [
  | inl e ↦ rw e
  | inr e ↦ rw e
]

-- After any list of calls of `logd_level_set`, a message is written, behind the name of its tag in
-- brackets, if and only if its level is at most the level in the last of the calls that names its
-- tag, or the level before them if none does; otherwise nothing is written. So a message of level
-- OFF is always written, also for a tag that is OFF, against what the comments of the log say.
pub logd-set_levels :
    (t : Tag) (message : Level) (text : Bytes) (calls : List (Tag × Level)) (s : Logger)
    → (logd t message text (set_levels calls s)).written ≡ (
        if leb (rank message) (rank (last_level t calls (s.level t)))
        then printed s.written t text
        else s.written)
logd-set_levels t message text calls s =
    let s1 = set_levels calls s in
    logd_written t message text s1
    ∙ ap₂ (λ l before. if leb (rank message) (rank l) then printed before t text else before)
        (set_levels-level t calls s) (set_levels-written calls s)
