-- ===== src/ExecGraph/Regions.antt =====
-- src/execution/graph.rs: the regions of a graph hold its entries, each once and in order.
use hrx_rs.Common.{
  ℕ, zero, suc, ◌≤◌, ◌≡◌, refl, ◌∙◌, ap, inl, inr, Bool, List, [], ◌∷◌, ◌++◌, length, ◌||◌, not,
  arith, Bool-cases,
}
use hrx_rs.ExecGraph.{GpuLane, Entry, stands_alone, same_lane, take_run, next_region, regions}

unfoldable pub concat : List (List Entry) → List Entry
concat [] = []
concat (entries ∷ rest) = entries ++ concat rest

take_run-append :
    (aql : Bool) (lane : GpuLane) (entries : List Entry)
    → ((take_run aql lane entries).0 ++ (take_run aql lane entries).1 ≡ entries)
      × (length (take_run aql lane entries).1 ≤ length entries)
unfolding take_run
take_run-append aql lane [] = (refl, omega arith)
take_run-append aql lane (e ∷ entries) =
    let (same, shorter) = take_run-append aql lane entries in
    elim (Bool-cases (stands_alone aql e.operation || not (same_lane e.lane lane))) [
      | inl stops ↦ rw stops (refl, omega arith)
      | inr goes_on ↦ rw goes_on (ap (λ (l : List Entry). e ∷ l) same, omega arith)
    ]

next_region-append :
    (aql : Bool) (e : Entry) (entries : List Entry)
    → ((next_region aql e entries).0 ++ (next_region aql e entries).1 ≡ e ∷ entries)
      × (length (next_region aql e entries).1 ≤ length entries)
unfolding next_region
next_region-append aql e entries =
    let (same, shorter) = take_run-append aql e.lane entries in
    elim (Bool-cases (stands_alone aql e.operation)) [
      | inl alone ↦ rw alone (refl, omega arith)
      | inr runs ↦ rw runs (ap (λ (l : List Entry). e ∷ l) same, omega arith)
    ]

-- With a round for each entry the loop ends, and its regions are the entries, in order.
pub concat-regions :
    (fuel : ℕ) (aql : Bool) (entries : List Entry)
    → length entries ≤ fuel
    → concat (regions fuel aql entries) ≡ entries
unfolding regions concat
concat-regions zero aql [] h = refl
concat-regions zero aql (e ∷ entries) h = absurd (omega arith)
concat-regions (suc fuel) aql [] h = refl
concat-regions (suc fuel) aql (e ∷ entries) h =
    let (same, shorter) = next_region-append aql e entries in
    ap (λ (l : List Entry). (next_region aql e entries).0 ++ l)
      (concat-regions fuel aql (next_region aql e entries).1 (omega arith))
    ∙ same
