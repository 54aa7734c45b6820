-- ===== src/Summary/Gather.antt =====
-- src/execution/dependencies.rs: the first loop of `summarize` counts, for every byte, the uses that read
-- and write it.
use hrx_rs.Common.{
  ℕ, suc, ◌≤◌, ◌<◌, ◌≡◌, refl, ◌∙◌, ap, Bool, true, false, ◌&&◌, inl, inr, List, [], ◌∷◌,
  if◌then◌else◌, ltb, ◌==◌, All, arith, Bool-cases,
}
use hrx_rs.Common.Int.{ℤ, pos, ◌+ℤ◌, nonzero, int_laws}
use hrx_rs.Frontier.{Use}
use hrx_rs.Summary.Summarize.{Event, Allocation, count, add_use, gather, gather_all}
use hrx_rs.Summary.Events.{
  does, holds_byte, used, up_to, Ordered, IsBalanced, sum_if, add_use-IsBalanced, no_events,
  sum_up_to-add_use,
}

-- Ascending allocations, from `lo` on, each with balanced events.
abbrev pub AreBalanced : ℕ → List Allocation → Type 0
AreBalanced lo [] = Unit
AreBalanced lo (a ∷ rest) = (lo ≤ a.id) × IsBalanced a.events × AreBalanced (suc a.id) rest

unfoldable pub events_of : ℕ → List Allocation → List Event
events_of id [] = []
events_of id (a ∷ rest) = if a.id == id then a.events else events_of id rest

pub events_of-none :
    (id lo : ℕ) (m : List Allocation) → AreBalanced lo m → id < lo → events_of id m ≡ []
unfolding events_of
events_of-none id lo [] ok h = refl
events_of-none id lo (a ∷ rest) ok h = ground (arith, ok.0, events_of-none id (suc a.id) rest ok.2)

gather-AreBalanced :
    (lo : ℕ) (u : Use) (m : List Allocation)
    → lo ≤ u.allocation
    → AreBalanced lo m
    → AreBalanced lo (gather u m)
unfolding gather
gather-AreBalanced lo u [] h ok = (h, add_use-IsBalanced u [] no_events, tt)
gather-AreBalanced lo u (a ∷ rest) h ok = elim (Bool-cases (ltb u.allocation a.id)) [
  | inl before ↦ rw before (h, add_use-IsBalanced u [] no_events, (ground arith, ok.1, ok.2))
  | inr not_before ↦ elim (Bool-cases (u.allocation == a.id)) [
    | inl here ↦ rw (not_before, here) (ok.0, add_use-IsBalanced u a.events ok.1, ok.2)
    | inr after ↦
        rw (not_before, after)
          (ok.0, ok.1, gather-AreBalanced (suc a.id) u rest (ground arith) ok.2)
  ]
]

events_of-gather :
    (id lo : ℕ) (u : Use) (m : List Allocation)
    → AreBalanced lo m
    → events_of id (gather u m)
      ≡ (if u.allocation == id then add_use u (events_of id m) else events_of id m)
unfolding events_of gather
events_of-gather id lo u [] ok = refl
events_of-gather id lo u (a ∷ rest) ok = ground (
  arith,
  events_of-gather id (suc a.id) u rest ok.2,
  events_of-none id (suc a.id) rest ok.2,
  events_of-none id a.id (a ∷ rest) (omega arith, ok.1, ok.2),
)

-- How many uses read (write) the byte.
unfoldable tally : Bool → ℕ → ℕ → List Use → ℕ
tally which id p [] = 0
tally which id p (u ∷ uses) =
    if holds_byte id p u && does which u.access
    then suc (tally which id p uses)
    else tally which id p uses

-- What the events of an allocation say of a byte.
abbrev pub level : Bool → ℕ → ℕ → List Allocation → ℤ
level which id p m = sum_if which (up_to p) (events_of id m)

zero_plus : (s : ℤ) → s ≡ pos 0 +ℤ s
zero_plus s = omega int_laws

level-gather :
    (which : Bool) (id p lo : ℕ) (u : Use) (m : List Allocation)
    → Ordered u
    → AreBalanced lo m
    → level which id p (gather u m)
      ≡ count (holds_byte id p u && does which u.access) +ℤ level which id p m
level-gather which id p lo u m ordered ok = elim (Bool-cases (u.allocation == id)) [
  | inl here ↦ rw (events_of-gather id lo u m ok, here) (sum_up_to-add_use which p u _ ordered)
  | inr elsewhere ↦ rw (events_of-gather id lo u m ok, elsewhere) (zero_plus _)
]

count_plus :
    (b : Bool) (n : ℕ) (s : ℤ) → pos n +ℤ (count b +ℤ s) ≡ pos (if b then suc n else n) +ℤ s
count_plus true n s = omega int_laws
count_plus false n s = omega int_laws

pub gather_all-AreBalanced :
    (uses : List Use) (m : List Allocation) → AreBalanced 0 m → AreBalanced 0 (gather_all uses m)
unfolding gather_all
gather_all-AreBalanced [] m ok = ok
gather_all-AreBalanced (u ∷ uses) m ok =
    gather_all-AreBalanced uses (gather u m) (gather-AreBalanced 0 u m (omega arith) ok)

level-gather_all :
    (which : Bool) (id p : ℕ) (uses : List Use) (m : List Allocation)
    → All Ordered uses
    → AreBalanced 0 m
    → level which id p (gather_all uses m) ≡ pos (tally which id p uses) +ℤ level which id p m
unfolding gather_all tally
level-gather_all which id p [] m ordered ok = zero_plus _
level-gather_all which id p (u ∷ uses) m ordered ok =
    level-gather_all which id p uses (gather u m) ordered.1
      (gather-AreBalanced 0 u m (omega arith) ok)
    ∙ ap (λ s. pos (tally which id p uses) +ℤ s) (level-gather which id p 0 u m ordered.0 ok)
    ∙ count_plus (holds_byte id p u && does which u.access) (tally which id p uses) _

nonzero-tally :
    (which : Bool) (id p : ℕ) (uses : List Use)
    → nonzero (pos (tally which id p uses)) ≡ used which id p uses
unfolding nonzero tally
nonzero-tally which id p [] = refl
nonzero-tally which id p (u ∷ uses) = elim (Bool-cases (holds_byte id p u && does which u.access)) [
  | inl counted ↦ rw counted (ground arith)
  | inr skipped ↦ rw skipped (nonzero-tally which id p uses)
]

zero_right : (n : ℕ) → pos n +ℤ pos 0 ≡ pos n
zero_right n = omega int_laws

-- The level of a byte is zero exactly when no use reads (writes) it.
pub nonzero-level :
    (which : Bool) (id p : ℕ) (uses : List Use)
    → All Ordered uses
    → nonzero (level which id p (gather_all uses [])) ≡ used which id p uses
unfolding sum_if events_of
nonzero-level which id p uses ordered =
    ap nonzero (level-gather_all which id p uses [] ordered tt ∙ zero_right _)
    ∙ nonzero-tally which id p uses
