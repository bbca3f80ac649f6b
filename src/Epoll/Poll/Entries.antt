-- ===== src/Epoll/Poll/Entries.antt =====
-- The list of the watched descriptors of one instance in src/network/epoll.cpp as a finite map.
use event_driven_tcp_chatroo.Base.{
  ℕ, ◌≡◌, refl, ap, ◌∙◌, inl, inr, Option, none, some, List, [], ◌∷◌, ◌++◌, ◌==◌, if◌then◌else◌,
  Bool-cases, arith,
}
use event_driven_tcp_chatroo.Os.{
  Reply, returned, failed, CtlOp, ctl_add, ctl_mod, ctl_del, ctl_other,
}
use event_driven_tcp_chatroo.Epoll.Poll.{
  PollEntry, eexist, enoent, einval, find_entry, modify_entry, erase_entry, events_of,
  change_entries,
}

-- No descriptor is watched twice.
abbrev pub IsDistinct : List PollEntry → Type 0
IsDistinct [] = Unit
IsDistinct (e ∷ es) = (find_entry e.fd es ≡ none) × IsDistinct es

-- What an operation is to make of the events that a descriptor is watched for.
abbrev pub ctl_result : CtlOp → ℕ → Option ℕ → Reply × Option ℕ
ctl_result ctl_add events none = (returned 0, some events)
ctl_result ctl_add events (some old) = (failed eexist, some old)
ctl_result ctl_mod events none = (failed enoent, none)
ctl_result ctl_mod events (some old) = (returned 0, some events)
ctl_result ctl_del events none = (failed enoent, none)
ctl_result ctl_del events (some old) = (returned 0, none)
ctl_result (ctl_other n) events found = (failed einval, found)

find_entry-append :
    (fd d events : ℕ) (es : List PollEntry)
    → find_entry fd es ≡ none
    → find_entry d (es ++ record { fd = fd; events = events } ∷ [])
      ≡ (if d == fd then some events else find_entry d es)
find_entry-append fd d events [] h = ground arith
find_entry-append fd d events (e ∷ es) h = ground (arith, find_entry-append fd d events es)

find_entry-modify :
    (fd d events : ℕ) (es : List PollEntry) {old : ℕ}
    → find_entry fd es ≡ some old
    → find_entry d (modify_entry fd events es) ≡ (if d == fd then some events else find_entry d es)
find_entry-modify fd d events [] h = cc
find_entry-modify fd d events (e ∷ es) {old = old} h =
    ground (arith, find_entry-modify fd d events es {old = old})

find_entry-erase :
    (fd d : ℕ) (es : List PollEntry) {old : ℕ}
    → IsDistinct es
    → find_entry fd es ≡ some old
    → find_entry d (erase_entry fd es) ≡ (if d == fd then none else find_entry d es)
find_entry-erase fd d [] u h = cc
find_entry-erase fd d (e ∷ es) {old} u h =
    ground (arith, u.0, find_entry-erase fd d es {old = old} u.1)

append-IsDistinct :
    (fd events : ℕ) (es : List PollEntry)
    → IsDistinct es
    → find_entry fd es ≡ none
    → IsDistinct (es ++ record { fd = fd; events = events } ∷ [])
append-IsDistinct fd events [] u h = (refl, tt)
append-IsDistinct fd events (e ∷ es) u h = elim (Bool-cases (e.fd == fd)) [
  | inl hit ↦ absurd (ground arith)
  | inr miss ↦
      let later : find_entry fd es ≡ none = ground arith in
      (
        find_entry-append fd e.fd events es later ∙ rw miss u.0,
        append-IsDistinct fd events es u.1 later,
      )
]

modify-IsDistinct :
    (fd events : ℕ) (es : List PollEntry) {old : ℕ}
    → IsDistinct es
    → find_entry fd es ≡ some old
    → IsDistinct (modify_entry fd events es)
modify-IsDistinct fd events [] u h = tt
modify-IsDistinct fd events (e ∷ es) {old = old} u h = elim (Bool-cases (e.fd == fd)) [
  | inl hit ↦ rw hit u
  | inr miss ↦
      let later : find_entry fd es ≡ some old = ground arith in
      rw miss (
        find_entry-modify fd e.fd events es {old = old} later ∙ rw miss u.0,
        modify-IsDistinct fd events es {old = old} u.1 later,
      )
]

erase-IsDistinct :
    (fd : ℕ) (es : List PollEntry) {old : ℕ}
    → IsDistinct es
    → find_entry fd es ≡ some old
    → IsDistinct (erase_entry fd es)
erase-IsDistinct fd [] u h = tt
erase-IsDistinct fd (e ∷ es) {old = old} u h = elim (Bool-cases (e.fd == fd)) [
  | inl hit ↦ rw hit u.1
  | inr miss ↦
      let later : find_entry fd es ≡ some old = ground arith in
      rw miss (
        find_entry-erase fd e.fd es {old = old} u.1 later ∙ rw miss u.0,
        erase-IsDistinct fd es {old = old} u.1 later,
      )
]

-- A change of one entry, as a change of one value of the map; `found` is its value before.
pub record Changes (op : CtlOp) (fd events : ℕ) (found : Option ℕ) (es : List PollEntry)
    (r : Reply × List PollEntry) : Type 0 where
  pub reply : r.0 ≡ (ctl_result op events found).0
  pub entry :
      (d : ℕ)
      → find_entry d r.1 ≡ (if d == fd then (ctl_result op events found).1 else find_entry d es)
  pub distinct : IsDistinct r.1

unchanged :
    (fd : ℕ) (es : List PollEntry) (found : Option ℕ) (d : ℕ)
    → find_entry fd es ≡ found
    → find_entry d es ≡ (if d == fd then found else find_entry d es)
unchanged fd es found d e = elim (Bool-cases (d == fd)) [
  | inl same ↦ rw same (ap (λ x. find_entry x es) (ground arith) ∙ e)
  | inr other ↦ rw other
]

pub change_entries-Changes :
    (op : CtlOp) (fd : ℕ) (event found : Option ℕ) (es : List PollEntry)
    → IsDistinct es
    → find_entry fd es ≡ found
    → Changes op fd (events_of event) found es (change_entries op fd event found es)
unfolding change_entries
change_entries-Changes ctl_add fd event none es u e = record {
  reply = refl;
  entry = λ d. find_entry-append fd d (events_of event) es e;
  distinct = append-IsDistinct fd (events_of event) es u e;
}
change_entries-Changes ctl_add fd event (some old) es u e = record {
  reply = refl;
  entry = λ d. unchanged fd es (some old) d e;
  distinct = u;
}
change_entries-Changes ctl_mod fd event none es u e = record {
  reply = refl;
  entry = λ d. unchanged fd es none d e;
  distinct = u;
}
change_entries-Changes ctl_mod fd event (some old) es u e = record {
  reply = refl;
  entry = λ d. find_entry-modify fd d (events_of event) es {old = old} e;
  distinct = modify-IsDistinct fd (events_of event) es {old = old} u e;
}
change_entries-Changes ctl_del fd event none es u e = record {
  reply = refl;
  entry = λ d. unchanged fd es none d e;
  distinct = u;
}
change_entries-Changes ctl_del fd event (some old) es u e = record {
  reply = refl;
  entry = λ d. find_entry-erase fd d es {old = old} u e;
  distinct = erase-IsDistinct fd es {old = old} u e;
}
change_entries-Changes (ctl_other n) fd event found es u e = record {
  reply = refl;
  entry = λ d. unchanged fd es found d e;
  distinct = u;
}
