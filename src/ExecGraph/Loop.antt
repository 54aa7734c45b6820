-- ===== src/ExecGraph/Loop.antt =====
-- src/execution/graph.rs: the last loop of `prepare` keeps the frontier that its operations made.
use hrx_rs.Common.{
  ℕ, zero, suc, ◌+◌, ◌≡◌, refl, subst, inl, inr, Bool, some, List, [], ◌∷◌, map, length, get_elem?,
  In, arith,
}
use hrx_rs.Frontier.{Use, Frontier}
use hrx_rs.Frontier.Hazards.{track, Did}
use hrx_rs.Summary.Summarize.{summarize}
use hrx_rs.ExecGraph.{Entry, Operation, region_uses, order}

-- A list in front of another, the last element first.
unfoldable pub rev_onto : {A : Type 0} → List A → List A → List A
rev_onto [] later = later
rev_onto (x ∷ xs) later = rev_onto xs (x ∷ later)

abbrev pub operation_uses : List Operation → List (List Use)
operation_uses operations = map (λ (o : Operation). o.uses) operations

abbrev pub dependencies_of : List Operation → List (List ℕ)
dependencies_of operations = map (λ (o : Operation). o.dependencies) operations

order-track :
    (older : List (List Use)) (index : ℕ) (aql : Bool) (parts : List (List Entry))
    → index ≡ length older
    → (track (rev_onto (operation_uses (order index (track older).0 aql parts)) older)).1
      ≡ rev_onto (dependencies_of (order index (track older).0 aql parts)) (track older).1
unfolding order rev_onto track
order-track older index aql [] h = refl
order-track older index aql (entries ∷ rest) h = rw h (
    order-track (summarize (region_uses aql entries) ∷ older) (length older + 1) aql rest
      (omega arith))

Did-rev_onto :
    (xs older : List (List Use)) (n : ℕ) (u : Use) → Did older n u → Did (rev_onto xs older) n u
unfolding rev_onto
Did-rev_onto [] older n u d = d
Did-rev_onto (x ∷ xs) older n u d = Did-rev_onto xs (x ∷ older) n u (inr d)

In-Did :
    (xs older : List (List Use)) (n : ℕ) (uses : List Use) (u : Use)
    → get_elem? xs n ≡ some uses
    → In u uses
    → Did (rev_onto xs older) (length older + n) u
unfolding rev_onto
In-Did [] older n uses u h m = absurd (ground arith)
In-Did (x ∷ xs) older zero uses u h m =
    let e : x ≡ uses = ground arith in
    Did-rev_onto xs (x ∷ older) (length older + 0) u (inl (omega arith, rw e m))
In-Did (x ∷ xs) older (suc n) uses u h m =
    let shift : length older + suc n ≡ suc (length older) + n = omega arith in
    rw shift (In-Did xs (x ∷ older) n uses u h m)

-- The operation of each region uses what the region uses.
pub get_elem?-order :
    (index : ℕ) (f : Frontier) (aql : Bool) (parts : List (List Entry)) (n : ℕ)
    (entries : List Entry)
    → get_elem? parts n ≡ some entries
    → get_elem? (operation_uses (order index f aql parts)) n
      ≡ some (summarize (region_uses aql entries))
unfolding order
get_elem?-order index f aql [] n entries h = absurd (ground arith)
get_elem?-order index f aql (first ∷ rest) zero entries h =
    let e : first ≡ entries = ground arith in rw e refl
get_elem?-order index f aql (first ∷ rest) (suc n) entries h =
    get_elem?-order (index + 1) _ aql rest n entries h

-- The operations in order, the newest first, with the first one numbered zero.
pub Did-from_start :
    (xs : List (List Use)) (n : ℕ) (uses : List Use) (u : Use)
    → get_elem? xs n ≡ some uses
    → In u uses
    → Did (rev_onto xs []) n u
Did-from_start xs n uses u h m =
    subst (λ (k : ℕ). Did (rev_onto xs []) k u) (omega arith) (In-Did xs [] n uses u h m)

pub order-track_start :
    (aql : Bool) (parts : List (List Entry))
    → (track (rev_onto (operation_uses (order 0 (λ _. []) aql parts)) [])).1
      ≡ rev_onto (dependencies_of (order 0 (λ _. []) aql parts)) []
unfolding track
order-track_start aql parts = order-track [] 0 aql parts refl
