-- ===== src/ExecGraph/Order.antt =====
-- src/execution/graph.rs: what a prepared graph promises.
use hrx_rs.Common.{
  ℕ, ◌+◌, ◌<◌, ◌≡◌, refl, ◌∙◌, sym, ap, subst, inl, inr, Bool, true, false, ◌||◌, some, List, [],
  ◌∷◌, ◌++◌, length, get_elem?, All, All-append, All-left, All-right, all, ◌==◌, arith, Bool-cases,
}
use mathlib.Core.List.{append_assoc}
use hrx_rs.Common.Errors.{Result, ok, bind-ok}
use hrx_rs.Frontier.{Use, Frontier}
use hrx_rs.Frontier.Hazards.{Reach, conflicts_ordered}
use hrx_rs.Summary.Sweep.{Canonical}
use hrx_rs.Summary.Summarize.{summarize}
use hrx_rs.Summary.Events.{used, Ordered}
use hrx_rs.Summary.Union.{summarize-Canonical, used-summarize}
use hrx_rs.Summary.Conflicts.{conflict_at, conflict_at-uses, conflict_at-summarize}
use hrx_rs.ExecGraph.{
  Entry, Graph, Prepared, entry_uses, flat_uses, region_uses, alone, is_copy, order, all_uses,
  regions, lower, prepared, prepare,
}
use hrx_rs.ExecGraph.Regions.{concat, concat-regions}
use hrx_rs.ExecGraph.Loop.{
  rev_onto, operation_uses, dependencies_of, order-track_start, Did-from_start, get_elem?-order,
}

Canonical-Ordered : (uses : List Use) → Canonical uses → All Ordered uses
Canonical-Ordered [] c = tt
Canonical-Ordered (u ∷ uses) c = (omega (arith, c.0), Canonical-Ordered uses c.2)

summarize-Ordered : (uses : List Use) → All Ordered (summarize uses)
summarize-Ordered uses = Canonical-Ordered (summarize uses) (summarize-Canonical uses)

region_uses-Ordered :
    (aql : Bool) (entries : List Entry)
    → All Ordered (flat_uses entries)
    → All Ordered (region_uses aql entries)
unfolding region_uses
region_uses-Ordered aql entries o = elim (Bool-cases (alone aql entries || all is_copy entries)) [
  | inl plain ↦ rw plain o
  | inr native ↦ rw native (summarize-Ordered (flat_uses entries))
]

used-region_uses :
    (aql which : Bool) (id p : ℕ) (entries : List Entry)
    → All Ordered (flat_uses entries)
    → used which id p (region_uses aql entries) ≡ used which id p (flat_uses entries)
unfolding region_uses
used-region_uses aql which id p entries o =
    elim (Bool-cases (alone aql entries || all is_copy entries)) [
      | inl plain ↦ rw plain refl
      | inr native ↦ rw native (used-summarize which id p (flat_uses entries) o)
    ]

-- The regions of a graph that was prepared.
prepare-order :
    (aql : Bool) (native : List Entry → Result (Unit {0})) (g : Graph) (p : Prepared)
    → prepare aql native g ≡ ok p
    → p ≡ prepared (order 0 (λ _. []) aql (regions (length g.entries) aql g.entries))
unfolding prepare
prepare-order aql native g p h = elim (Bool-cases (length g.entries == 0)) [
  | inl empty ↦ absurd (ground arith)
  | inr full ↦
      let chain = rw full at h in
      let (_, _, made) =
        bind-ok (lower native (regions (length g.entries) aql g.entries)) _ p chain in
      ground (arith, made)
]

conflict_at-region_uses :
    (aql : Bool) (id p : ℕ) (a b : List Entry)
    → All Ordered (flat_uses a)
    → All Ordered (flat_uses b)
    → conflict_at id p (summarize (region_uses aql a)) (summarize (region_uses aql b))
      ≡ conflict_at id p (flat_uses a) (flat_uses b)
conflict_at-region_uses aql id p a b oa ob =
    conflict_at-summarize id p (region_uses aql a) (region_uses aql b)
      (region_uses-Ordered aql a oa) (region_uses-Ordered aql b ob)
    ∙ rw (
      used-region_uses aql true id p a oa,
      used-region_uses aql false id p a oa,
      used-region_uses aql true id p b ob,
      used-region_uses aql false id p b ob,
    )

-- When a graph is prepared and two of its regions use one byte, one of them writing it, then the
-- dependencies lead from the later region to the earlier one, when the ends of their uses are in order.
pub regions_ordered :
    (aql : Bool) (native : List Entry → Result (Unit {0})) (g : Graph) (q : Prepared) (i j id p : ℕ)
    (earlier later : List Entry)
    → prepare aql native g ≡ ok q
    → i < j
    → get_elem? (regions (length g.entries) aql g.entries) i ≡ some earlier
    → get_elem? (regions (length g.entries) aql g.entries) j ≡ some later
    → All Ordered (flat_uses earlier)
    → All Ordered (flat_uses later)
    → conflict_at id p (flat_uses earlier) (flat_uses later) ≡ true
    → Reach (rev_onto (dependencies_of q.operations) []) j i
regions_ordered aql native g q i j id p earlier later h lt ei ej oi oj c =
    let parts = regions (length g.entries) aql g.entries in
    let (x, y, mx, my, hx, hy, w) =
      conflict_at-uses id p (summarize (region_uses aql earlier))
        (summarize (region_uses aql later))
        (conflict_at-region_uses aql id p earlier later oi oj ∙ c) in
    let operations = order 0 (λ (_ : ℕ). []) aql parts in
    let made = prepare-order aql native g q h in
    rw (made, ← order-track_start aql parts)
      (conflicts_ordered (rev_onto (operation_uses operations) []) i j y x p
        (Did-from_start (operation_uses operations) j _ y (get_elem?-order 0 _ aql parts j later ej)
          my)
        (Did-from_start (operation_uses operations) i _ x
          (get_elem?-order 0 _ aql parts i earlier ei) mx)
        lt (ground arith) (ground arith) (ground arith) (ground arith))

all_uses-Ordered :
    (index : ℕ) (f : Frontier) (aql : Bool) (parts : List (List Entry))
    → All Ordered (all_uses (order index f aql parts))
unfolding order all_uses
all_uses-Ordered index f aql [] = tt
all_uses-Ordered index f aql (entries ∷ rest) =
    All-append Ordered _ _ (summarize-Ordered (region_uses aql entries))
      (all_uses-Ordered (index + 1) _ aql rest)

used-append :
    (which : Bool) (id p : ℕ) (a b : List Use)
    → used which id p (a ++ b) ≡ (used which id p a || used which id p b)
used-append which id p [] b = refl
used-append which id p (u ∷ a) b = ground (arith, used-append which id p a b)

flat_uses-append : (a b : List Entry) → flat_uses (a ++ b) ≡ flat_uses a ++ flat_uses b
unfolding flat_uses
flat_uses-append [] b = refl
flat_uses-append (e ∷ a) b =
    ap (λ (l : List Use). entry_uses e.uses ++ l) (flat_uses-append a b)
    ∙ sym (append_assoc (entry_uses e.uses) (flat_uses a) (flat_uses b))

used-all_uses :
    (which : Bool) (id p index : ℕ) (f : Frontier) (aql : Bool) (parts : List (List Entry))
    → All Ordered (flat_uses (concat parts))
    → used which id p (all_uses (order index f aql parts))
      ≡ used which id p (flat_uses (concat parts))
unfolding order all_uses concat flat_uses
used-all_uses which id p index f aql [] o = refl
used-all_uses which id p index f aql (entries ∷ rest) o =
    let split = rw (flat_uses-append entries (concat rest)) at o in
    let first = All-left Ordered (flat_uses entries) (flat_uses (concat rest)) split in
    let later = All-right Ordered (flat_uses entries) (flat_uses (concat rest)) split in
    rw (
      used-append which id p (summarize (region_uses aql entries)) _,
      used-summarize which id p (region_uses aql entries) (region_uses-Ordered aql entries first),
      used-region_uses aql which id p entries first,
      used-all_uses which id p (index + 1) _ aql rest later,
      flat_uses-append entries (concat rest),
      used-append which id p (flat_uses entries) (flat_uses (concat rest)),
    )

-- A prepared graph declares to the scheduler the bytes that its entries use, reads and writes apart,
-- and no others, when the ends of the uses are in order.
pub used-prepare :
    (aql : Bool) (native : List Entry → Result (Unit {0})) (g : Graph) (q : Prepared) (which : Bool)
    (id p : ℕ)
    → prepare aql native g ≡ ok q
    → All Ordered (flat_uses g.entries)
    → used which id p q.uses ≡ used which id p (flat_uses g.entries)
used-prepare aql native g q which id p h o =
    let parts = regions (length g.entries) aql g.entries in
    let whole = concat-regions (length g.entries) aql g.entries (omega arith) in
    let made = prepare-order aql native g q h in
    let same : All Ordered (flat_uses (concat parts)) =
      subst (λ (l : List Entry). All Ordered (flat_uses l)) (sym whole) o in
    rw made (
      used-summarize which id p (all_uses (order 0 (λ _. []) aql parts))
        (all_uses-Ordered 0 _ aql parts)
      ∙ used-all_uses which id p 0 _ aql parts same
      ∙ ap (λ (l : List Entry). used which id p (flat_uses l)) whole)
