-- ===== src/Summary/Emit.antt =====
-- src/execution/dependencies.rs: an interval that `summarize` puts behind its output.
use hrx_rs.Common.{
  ℕ, ◌≤◌, ◌<◌, ◌≡◌, refl, Bool, true, ◌||◌, ◌⊎◌, inl, inr, List, [], ◌∷◌, All, arith, Bool-cases,
}
use hrx_rs.Access.{Access, read, write, read_write}
use hrx_rs.Frontier.{Use}
use hrx_rs.Summary.Sweep.{After, Canonical}
use hrx_rs.Summary.Summarize.{same_access, interval, extends_last, emit}
use hrx_rs.Summary.Events.{used}

-- A use that ends before `position` of the allocation.
abbrev pub Before : ℕ → ℕ → Use → Type 0
Before id position u = (u.allocation < id) ⊎ ((u.allocation ≡ id) × (u.range.end ≤ position))

pub same_access-eq : (a b : Access) → same_access a b ≡ true → a ≡ b
unfolding same_access
same_access-eq read read h = refl
same_access-eq write write h = refl
same_access-eq read_write read_write h = refl
same_access-eq read write h = cc
same_access-eq read read_write h = cc
same_access-eq write read h = cc
same_access-eq write read_write h = cc
same_access-eq read_write read h = cc
same_access-eq read_write write h = cc

module _ (id : ℕ) (access : Access) (previous position : ℕ) (grows : previous < position) where
  emit-After :
      (x : Use) (output : List Use)
      → Before id previous x
      → All (After x) output
      → All (After x) (emit id access previous position output)
  unfolding emit
  emit-After x [] b h = (b, tt)
  emit-After x (last ∷ []) b h = elim (Bool-cases (extends_last last id access previous)) [
    | inl merged ↦ rw merged (h.0, tt)
    | inr pushed ↦ rw pushed (h.0, (b, tt))
  ]
  emit-After x (u ∷ v ∷ output) b h = (h.0, emit-After x (v ∷ output) b h.1)

  pub emit-Canonical :
      (output : List Use)
      → Canonical output
      → All (Before id previous) output
      → Canonical (emit id access previous position output)
  unfolding emit
  emit-Canonical [] c b = (grows, tt, tt)
  emit-Canonical (last ∷ []) c b = elim (Bool-cases (extends_last last id access previous)) [
    | inl merged ↦ rw merged (ground (arith, c.0), tt, tt)
    | inr pushed ↦ rw pushed (c.0, (b.0, tt), (grows, tt, tt))
  ]
  emit-Canonical (u ∷ v ∷ output) c b =
      (c.0, emit-After u (v ∷ output) b.0 c.1, emit-Canonical (v ∷ output) c.2 b.1)

  pub emit-Before :
      (output : List Use)
      → All (Before id previous) output
      → All (Before id position) (emit id access previous position output)
  unfolding emit
  emit-Before [] b = (inr (refl, omega arith), tt)
  emit-Before (last ∷ []) b = elim (Bool-cases (extends_last last id access previous)) [
    | inl merged ↦ rw merged (ground arith, tt)
    | inr pushed ↦ rw pushed (ground (arith, b.0), (inr (refl, omega arith), tt))
  ]
  emit-Before (u ∷ v ∷ output) b = (ground (arith, b.0), emit-Before (v ∷ output) b.1)

  pub used-emit :
      (which : Bool) (i p : ℕ) (output : List Use)
      → Canonical output
      → used which i p (emit id access previous position output)
        ≡ (used which i p output || used which i p (interval id access previous position ∷ []))
  unfolding emit
  used-emit which i p [] c = refl
  used-emit which i p (last ∷ []) c = elim (Bool-cases (extends_last last id access previous)) [
    | inl merged ↦
        let same_use : last.access ≡ access = same_access-eq last.access access (ground arith) in
        rw (merged, same_use) (ground (arith, c.0))
    | inr pushed ↦ rw pushed (ground arith)
  ]
  used-emit which i p (u ∷ v ∷ output) c = ground (arith, used-emit which i p (v ∷ output) c.2)
