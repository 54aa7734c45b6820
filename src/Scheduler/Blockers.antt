-- ===== src/Scheduler/Blockers.antt =====
-- src/execution/scheduler.rs: the count of blockers of every pending submission.
use hrx_rs.Common.{
  ℕ, zero, suc, ◌+◌, ◌≡◌, refl, sym, ap, ◌∙◌, subst, inl, inr, Option, some, List, [], ◌∷◌, ◌++◌,
  if◌then◌else◌, arith, Bool-cases, Option-cases, ◌==◌,
}
use hrx_rs.Common.Errors.{Error}
use hrx_rs.Frontier.{Use}
use hrx_rs.Summary.{conflicts}
use hrx_rs.Scheduler.{Pending, count_blockers, unblock, take_out, start_node, settle_node}

abbrev pub hit : Pending → List Use → ℕ
hit job uses = if conflicts job.uses uses then 1 else 0

-- `base` counts the submissions in front of these that conflict with given uses; each one's blockers
-- are the earlier submissions that conflict with it.
abbrev pub Counted : (List Use → ℕ) → List Pending → Type 0
Counted base [] = Unit
Counted base (job ∷ rest) =
    (job.blockers ≡ base job.uses) × Counted (λ uses. base uses + hit job uses) rest

pub Counted-append :
    (base : List Use → ℕ) (xs : List Pending) (job : Pending)
    → Counted base xs
    → job.blockers ≡ base job.uses + count_blockers job.uses xs
    → Counted base (xs ++ job ∷ [])
unfolding count_blockers
Counted-append base [] job c h = (omega (arith, h), tt)
Counted-append base (x ∷ xs) job c h =
    (c.0, Counted-append (λ uses. base uses + hit x uses) xs job c.1 (ground arith))

-- A submission in front goes, and those behind no longer count it.
unblock-Counted :
    (f g : List Use → ℕ) (jobs : List Pending) (out : Pending)
    → ((uses : List Use) → f uses ≡ g uses + hit out uses)
    → Counted f jobs
    → Counted g (unblock out.uses jobs)
unfolding unblock
unblock-Counted f g [] out h c = tt
unblock-Counted f g (job ∷ rest) out h c =
    let later =
      unblock-Counted (λ uses. f uses + hit job uses) (λ uses. g uses + hit job uses) rest out
        (λ uses. omega (arith, h uses)) c.1 in
    elim (Bool-cases (conflicts out.uses job.uses)) [
      | inl counted ↦ rw counted (ground (arith, c.0, h job.uses), later)
      | inr other ↦ rw other (ground (arith, c.0, h job.uses), later)
    ]

pub take_out-Counted :
    (base : List Use → ℕ) (jobs : List Pending) (index : ℕ) (out : Pending) (left : List Pending)
    → Counted base jobs
    → take_out index jobs ≡ some (out, left)
    → Counted base left
unfolding take_out
take_out-Counted base [] index out left c h = absurd (ground arith)
take_out-Counted base (job ∷ rest) zero out left c h =
    let e : unblock job.uses rest ≡ left = ground arith in
    subst (Counted base) e
      (unblock-Counted (λ uses. base uses + hit job uses) base rest job (λ uses. refl) c.1)
take_out-Counted base (job ∷ rest) (suc index) out left c h =
    elim (Option-cases (take_out index rest)) [
      | inl nothing ↦ absurd (ground arith)
      | inr ((o, jobs), e) ↦
          let same : job ∷ jobs ≡ left = ground arith in
          subst (Counted base) same
            (c.0, take_out-Counted (λ uses. base uses + hit job uses) rest index o jobs c.1 e)
    ]

-- Nothing but the slot of a submission changes.
abbrev pub SameUses : List Pending → List Pending → Type 0
SameUses [] [] = Unit
SameUses [] (y ∷ ys) = ⊥
SameUses (x ∷ xs) [] = ⊥
SameUses (x ∷ xs) (y ∷ ys) = (x.uses ≡ y.uses) × (x.blockers ≡ y.blockers) × SameUses xs ys

pub SameUses-refl : (xs : List Pending) → SameUses xs xs
SameUses-refl [] = tt
SameUses-refl (x ∷ xs) = (refl, refl, SameUses-refl xs)

pub SameUses-Counted :
    (f g : List Use → ℕ) (xs ys : List Pending)
    → ((uses : List Use) → f uses ≡ g uses)
    → SameUses xs ys
    → Counted f xs
    → Counted g ys
SameUses-Counted f g [] [] h s c = tt
SameUses-Counted f g [] (y ∷ ys) h s c = elim s [ ]
SameUses-Counted f g (x ∷ xs) [] h s c = elim s [ ]
SameUses-Counted f g (x ∷ xs) (y ∷ ys) h s c = (
  sym s.1 ∙ c.0 ∙ h x.uses ∙ ap g s.0,
  SameUses-Counted (λ uses. f uses + hit x uses) (λ uses. g uses + hit y uses) xs ys
      (λ uses. ground (arith, h uses, s.0)) s.2 c.1,
)

pub start_node-SameUses :
    (jobs : List Pending) (place node : ℕ) → SameUses jobs (start_node jobs place node)
unfolding start_node
start_node-SameUses [] place node = tt
start_node-SameUses (job ∷ jobs) zero node = (refl, refl, SameUses-refl jobs)
start_node-SameUses (job ∷ jobs) (suc place) node =
    (refl, refl, start_node-SameUses jobs place node)

pub settle_node-SameUses :
    (jobs : List Pending) (sequence node : ℕ) (failure : Option Error)
    → SameUses jobs (settle_node jobs sequence node failure)
unfolding settle_node
settle_node-SameUses [] sequence node failure = tt
settle_node-SameUses (job ∷ jobs) sequence node failure =
    elim (Bool-cases (job.sequence == sequence)) [
      | inl mine ↦ rw mine (refl, refl, settle_node-SameUses jobs sequence node failure)
      | inr other ↦ rw other (refl, refl, settle_node-SameUses jobs sequence node failure)
    ]
