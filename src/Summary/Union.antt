-- ===== src/Summary/Union.antt =====
-- src/execution/dependencies.rs: a summary is canonical and has the bytes of its uses, so that comparing two
-- summaries finds the bytes that conflict.
use hrx_rs.Common.{
  ℕ, suc, ◌≤◌, ◌<◌, ◌≡◌, ◌∙◌, Bool, true, false, ◌&&◌, ◌||◌, inl, inr, List, [], ◌∷◌, leb, ◌==◌,
  All, arith, Bool-cases,
}
use hrx_rs.Common.Int.{ℤ, pos, ◌+ℤ◌, nonzero, int_laws}
use hrx_rs.Frontier.{Use}
use hrx_rs.Summary.Sweep.{Canonical}
use hrx_rs.Summary.Summarize.{Event, Allocation, sweep, sweep_all, gather_all, summarize}
use hrx_rs.Summary.Events.{used, up_to, always, Ordered, IsBalanced, Ascending, sum_if, pick}
use hrx_rs.Summary.Gather.{
  AreBalanced, events_of, events_of-none, gather_all-AreBalanced, nonzero-level, level,
}
use hrx_rs.Summary.Emit.{Before}
use hrx_rs.Summary.Coverage.{
  IsSwept, round, round-IsSwept, used-sweep, Ascending-mono, nonzero_zero,
}

abbrev UpTo : ℕ → Use → Type 0
UpTo id u = u.allocation ≤ id

Before-UpTo : (id p : ℕ) (output : List Use) → All (Before id p) output → All (UpTo id) output
Before-UpTo id p [] b = tt
Before-UpTo id p (u ∷ output) b = (ground (arith, b.0), Before-UpTo id p output b.1)

UpTo-Before :
    (id next : ℕ) (output : List Use)
    → id < next
    → All (UpTo id) output
    → All (Before next 0) output
UpTo-Before id next [] h b = tt
UpTo-Before id next (u ∷ output) h b = (inl (omega (arith, b.0)), UpTo-Before id next output h b.1)

sweep-Canonical :
    (id : ℕ) (r w : ℤ) (previous : ℕ) (events : List Event) (output : List Use)
    → Ascending previous events
    → IsSwept id previous output
    → Canonical (sweep id r w previous events output)
      × All (UpTo id) (sweep id r w previous events output)
unfolding sweep
sweep-Canonical id r w previous [] output asc s = (s.0, Before-UpTo id previous output s.1)
sweep-Canonical id r w previous (e ∷ events) output asc s =
    sweep-Canonical id (r +ℤ e.reads) (w +ℤ e.writes) e.position events
      (round id r w previous e.position output) (Ascending-mono _ _ events (omega arith) asc.1)
      (round-IsSwept id r w previous e.position output asc.0 s)

All-Before_mono :
    (a b : ℕ) (output : List Use) → a ≤ b → All (Before a 0) output → All (Before b 0) output
All-Before_mono a b [] h all = tt
All-Before_mono a b (u ∷ output) h all = (ground (arith, all.0), All-Before_mono a b output h all.1)

sweep_all-Canonical :
    (lo : ℕ) (m : List Allocation) (output : List Use)
    → AreBalanced lo m
    → IsSwept lo 0 output
    → Canonical (sweep_all m output)
unfolding sweep_all
sweep_all-Canonical lo [] output ok s = s.0
sweep_all-Canonical lo (a ∷ rest) output ok s =
    let swept =
      sweep-Canonical a.id (pos 0) (pos 0) 0 a.events output ok.1.ascending
        (s.0, All-Before_mono lo a.id output ok.0 s.1) in
    sweep_all-Canonical (suc a.id) rest _ ok.2 (swept.0, UpTo-Before a.id _ _ (omega arith) swept.1)

-- A summary is sorted by allocation and offset, and its ranges are apart and not empty.
pub summarize-Canonical : (uses : List Use) → Canonical (summarize uses)
unfolding summarize
summarize-Canonical uses =
    sweep_all-Canonical 0 (gather_all uses []) [] (gather_all-AreBalanced uses [] tt) (tt, tt)

nothing_left :
    (which : Bool) (events : List Event)
    → IsBalanced events
    → pick which (pos 0) (pos 0) +ℤ sum_if which always events ≡ pos 0
nothing_left true events b = rw b.no_reads_left (omega int_laws)
nothing_left false events b = rw b.no_writes_left (omega int_laws)

from_zero : (which : Bool) (s : ℤ) → pick which (pos 0) (pos 0) +ℤ s ≡ s
from_zero true s = omega int_laws
from_zero false s = omega int_laws

level_split :
    (which : Bool) (i p : ℕ) (a : Allocation) (rest : List Allocation) (u : Bool)
    → AreBalanced (suc a.id) rest
    → ((u || ((a.id == i) && (leb 0 p && nonzero (sum_if which (up_to p) a.events))))
        || nonzero (level which i p rest))
      ≡ (u || nonzero (level which i p (a ∷ rest)))
unfolding events_of sum_if
level_split which i p a rest u ok = elim (Bool-cases (a.id == i)) [
  | inl here ↦
      rw (here, events_of-none i (suc a.id) rest ok (ground arith), nonzero_zero) (ground arith)
  | inr elsewhere ↦ rw elsewhere (ground arith)
]

used-sweep_all :
    (which : Bool) (i p lo : ℕ) (m : List Allocation) (output : List Use)
    → AreBalanced lo m
    → IsSwept lo 0 output
    → used which i p (sweep_all m output) ≡ (used which i p output || nonzero (level which i p m))
unfolding sweep_all events_of sum_if
used-sweep_all which i p lo [] output ok s = ground (arith, nonzero_zero)
used-sweep_all which i p lo (a ∷ rest) output ok s =
    let started : IsSwept a.id 0 output = (s.0, All-Before_mono lo a.id output ok.0 s.1) in
    let swept = sweep-Canonical a.id (pos 0) (pos 0) 0 a.events output ok.1.ascending started in
    used-sweep_all which i p (suc a.id) rest _ ok.2
      (swept.0, UpTo-Before a.id _ _ (omega arith) swept.1)
    ∙ rw
        (
          used-sweep which i p a.id (pos 0) (pos 0) 0 a.events output ok.1.ascending
              (nothing_left which a.events ok.1) started,
          from_zero which (sum_if which (up_to p) a.events),
        )
        (level_split which i p a rest (used which i p output) ok.2)

-- A summary of uses whose ranges do not end before they start reads and writes the bytes that its uses
-- read and write, and no others.
pub used-summarize :
    (which : Bool) (id p : ℕ) (uses : List Use)
    → All Ordered uses
    → used which id p (summarize uses) ≡ used which id p uses
unfolding summarize
used-summarize which id p uses ordered =
    used-sweep_all which id p 0 (gather_all uses []) [] (gather_all-AreBalanced uses [] tt) (tt, tt)
    ∙ nonzero-level which id p uses ordered
