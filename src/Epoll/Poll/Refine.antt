-- ===== src/Epoll/Poll/Refine.antt =====
-- All watched descriptors of src/network/epoll.cpp as a finite map.
use event_driven_tcp_chatroo.Base.{
  ℕ, ◌≡◌, refl, sym, ap, ap₂, subst, ◌∙◌, inl, inr, Option, none, some, List, [], ◌∷◌, All, ◌==◌,
  if◌then◌else◌, Bool-cases, arith,
}
use event_driven_tcp_chatroo.Os.{Reply, CtlOp}
use event_driven_tcp_chatroo.Epoll.Poll.{
  PollEntry, PollState, find_instance, set_instance, find_entry, events_of, change_entries,
  epoll_ctl,
}
use event_driven_tcp_chatroo.Epoll.Poll.Entries.{IsDistinct, ctl_result, change_entries-Changes}

-- In no instance a descriptor is watched twice.
abbrev pub WellFormed : PollState → Type 0
WellFormed s = All (λ (i : ℕ × List PollEntry). IsDistinct i.1) s.instances

-- What an instance watches a descriptor for.
abbrev pub watched : ℕ → ℕ → PollState → Option ℕ
watched epoll_fd fd s = elim (find_instance epoll_fd s.instances) [
  | none ↦ none
  | some entries ↦ find_entry fd entries
]

find_instance-set :
    (g h : ℕ) (new : List PollEntry) (is : List (ℕ × List PollEntry))
    → find_instance h (set_instance g new is) ≡ (if h == g then some new else find_instance h is)
find_instance-set g h new [] = ground arith
find_instance-set g h new ((key, entries) ∷ is) = ground (arith, find_instance-set g h new is)

set_instance-All :
    (g : ℕ) (new : List PollEntry) (is : List (ℕ × List PollEntry))
    → IsDistinct new
    → All (λ (i : ℕ × List PollEntry). IsDistinct i.1) is
    → All (λ (i : ℕ × List PollEntry). IsDistinct i.1) (set_instance g new is)
set_instance-All g new [] u h = (u, tt)
set_instance-All g new ((key, entries) ∷ is) u h = elim (Bool-cases (key == g)) [
  | inl hit ↦ rw hit (u, h.1)
  | inr miss ↦ rw miss (h.0, set_instance-All g new is u h.1)
]

find_instance-IsDistinct :
    (g : ℕ) (is : List (ℕ × List PollEntry)) {entries : List PollEntry}
    → All (λ (i : ℕ × List PollEntry). IsDistinct i.1) is
    → find_instance g is ≡ some entries
    → IsDistinct entries
find_instance-IsDistinct g [] h e = cc
find_instance-IsDistinct g ((key, found) ∷ is) {entries = entries} h e =
    elim (Bool-cases (key == g)) [
      | inl hit ↦ let same : found ≡ entries = ground arith in subst IsDistinct same h.0
      | inr miss ↦ find_instance-IsDistinct g is h.1 (ground arith)
    ]

-- The call as an operation on the map from instances and descriptors to events.
pub record CtlRefines (g : ℕ) (op : CtlOp) (fd events : ℕ) (s : PollState) (r : Reply × PollState)
    : Type 0 where
  pub reply : r.0 ≡ (ctl_result op events (watched g fd s)).0
  pub map_changed :
      (h d : ℕ)
      → watched h d r.1 ≡ (
          if h == g
          then (if d == fd then (ctl_result op events (watched g fd s)).1 else watched g d s)
          else watched h d s)
  pub well_formed : WellFormed r.1

module _ (g : ℕ) (s : PollState) (entries : List PollEntry)
    (known : find_instance g s.instances ≡ some entries) where
  watched-known : (d : ℕ) → watched g d s ≡ find_entry d entries
  watched-known d = rw (watched, known)

  watched-set :
      (new : List PollEntry) (h d : ℕ)
      → watched h d (record s { instances = set_instance g new s.instances })
        ≡ (if h == g then find_entry d new else watched h d s)
  watched-set new h d = elim (Bool-cases (h == g)) [
    | inl same ↦ rw (watched, find_instance-set g h new s.instances, same)
    | inr other ↦ rw (watched, find_instance-set g h new s.instances, other)
  ]

  epoll_ctl-known :
      (op : CtlOp) (fd : ℕ) (event : Option ℕ)
      → let (reply, changed) = change_entries op fd event (find_entry fd entries) entries in
        epoll_ctl g op fd event s
        ≡ (reply, record s { instances = set_instance g changed s.instances })
  unfolding epoll_ctl
  epoll_ctl-known op fd event = rw (epoll_ctl, known)

  -- On an existing instance and with no descriptor listed twice in any instance, `epoll_ctl` made
  -- of lists acts as a finite map from instances and descriptors to events: its answer, the new
  -- value of the descriptor and all other values are those of an operation on the map (adding what
  -- is there, changing or deleting what is not there, and unknown operations are refused and change
  -- nothing), and no descriptor is listed twice afterwards.
  pub epoll_ctl-refines :
      (op : CtlOp) (fd : ℕ) (event : Option ℕ)
      → WellFormed s
      → CtlRefines g op fd (events_of event) s (epoll_ctl g op fd event s)
  epoll_ctl-refines op fd event w =
      let u = find_instance-IsDistinct g s.instances {entries = entries} w known in
      let (reply, changed) = change_entries op fd event (find_entry fd entries) entries in
      let c = change_entries-Changes op fd event (find_entry fd entries) entries u refl in
      subst (CtlRefines g op fd (events_of event) s) (sym (epoll_ctl-known op fd event)) (record {
        reply = c.reply ∙ ap (λ o. (ctl_result op (events_of event) o).0) (sym (watched-known fd));
        map_changed = λ h d.
            watched-set changed h d
            ∙ ap (λ o. if h == g then o else watched h d s)
                (c.entry d
                  ∙ ap₂ (λ o p. if d == fd then (ctl_result op (events_of event) o).1 else p)
                      (sym (watched-known fd)) (sym (watched-known d)));
        well_formed = set_instance-All g changed s.instances c.distinct w;
      })
