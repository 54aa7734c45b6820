-- ===== src/Storage/Cells.antt =====
-- src/storage/mod.rs: the payload slots, before and after a change of one of them.
use hrx_rs.Common.{
  ◌+◌, ◌≤◌, ◌∙◌, sym, Bool-cases, false, true, Bool, if◌then◌else◌, ℕ, zero, suc, ◌≡◌, ◌≢◌, refl,
  ap, ◌⊎◌, inl, inr, Option, none, some, List, [], ◌∷◌, set, arith,
}
use hrx_rs.Storage.Session.{Request, is_retained, has_owners, free_slot, update}
use hrx_rs.Storage.Steps.{at}

-- A slot after an update holds what it held before, or what the update made of it.
pub at-update :
    (change : Request → Request) (i : ℕ) (cells : List (Option Request)) (j : ℕ) (r : Request)
    → at (update change i cells) j ≡ some r
    → (q : Request) × (at cells j ≡ some q) × ((r ≡ q) × (i ≢ j) ⊎ (r ≡ change q) × (i ≡ j))
at-update change i [] j r h = absurd (ground arith)
at-update change zero (none ∷ cells) zero r h = absurd (ground arith)
at-update change zero (none ∷ cells) (suc j) r h =
    (r, h, inl (refl, λ e. absurd (omega (arith, e))))
at-update change zero (some q ∷ cells) zero r h = (q, refl, inr (ground arith, refl))
at-update change zero (some q ∷ cells) (suc j) r h =
    (r, h, inl (refl, λ e. absurd (omega (arith, e))))
at-update change (suc i) (cell ∷ cells) zero r h =
    (r, h, inl (refl, λ e. absurd (omega (arith, e))))
at-update change (suc i) (cell ∷ cells) (suc j) r h =
    let (q, before, how) = at-update change i cells j r h in
    (
      q,
      before,
      elim how [ inl (e, n) ↦ inl (e, λ m. n (omega (arith, m))) | inr (e, m) ↦ inr (e, ap suc m) ],
    )

pub at-set :
    (cells : List (Option Request)) (i : ℕ) (new : Request) (j : ℕ) (r : Request)
    → at (set cells i (some new)) j ≡ some r
    → (r ≡ new) × (i ≡ j) ⊎ (at cells j ≡ some r) × (i ≢ j)
at-set [] i new j r h = absurd (ground arith)
at-set (cell ∷ cells) zero new zero r h = inl (ground arith, refl)
at-set (cell ∷ cells) zero new (suc j) r h = inr (h, λ e. absurd (omega (arith, e)))
at-set (cell ∷ cells) (suc i) new zero r h = inr (h, λ e. absurd (omega (arith, e)))
at-set (cell ∷ cells) (suc i) new (suc j) r h = elim (at-set cells i new j r h) [
  | inl (e, m) ↦ inl (e, ap suc m)
  | inr (before, n) ↦ inr (before, λ m. n (omega (arith, m)))
]

-- What the owners of a request rely on, after a change of it.
abbrev pub Keeps : Request → Request → Type 0
Keeps r q =
    (q.extent ≡ r.extent) × (q.physical ≡ r.physical) × (q.outcome ≡ none → r.outcome ≡ none)

pub Keeps-refl : (r : Request) → Keeps r r
Keeps-refl r = (refl, refl, λ x. x)

abbrev pub Stays : List (Option Request) → List (Option Request) → Type 0
Stays before after =
    (i : ℕ) (r : Request) → at before i ≡ some r → (q : Request) × (at after i ≡ some q) × Keeps r q

pub Stays-trans : (a b c : List (Option Request)) → Stays a b → Stays b c → Stays a c
Stays-trans a b c f g i r h =
    let (q, hq, (eq, pq, oq)) = f i r h in
    let (p, hp, (ep, pp, op)) = g i q hq in (p, hp, (ep ∙ eq, pp ∙ pq, λ x. oq (op x)))

-- A change moves no request to another slot.
pub update-Stays :
    (change : Request → Request) (i : ℕ) (cells : List (Option Request))
    → ((r : Request) → Keeps r (change r))
    → Stays cells (update change i cells)
update-Stays change i [] keeps j r h = (r, h, Keeps-refl r)
update-Stays change zero (none ∷ cells) keeps j r h = (r, h, Keeps-refl r)
update-Stays change zero (some q ∷ cells) keeps zero r h =
    let same : q ≡ r = ground arith in (change r, ap (λ x. some (change x)) same, keeps r)
update-Stays change zero (some q ∷ cells) keeps (suc j) r h = (r, h, Keeps-refl r)
update-Stays change (suc i) (cell ∷ cells) keeps zero r h = (r, h, Keeps-refl r)
update-Stays change (suc i) (cell ∷ cells) keeps (suc j) r h =
    update-Stays change i cells keeps j r h

free_slot-le : (k : ℕ) (cells : List (Option Request)) (i : ℕ) → free_slot k cells ≡ some i → k ≤ i
unfolding free_slot
free_slot-le k [] i h = absurd (ground arith)
free_slot-le k (cell ∷ cells) i h = elim (Bool-cases (has_owners cell)) [
  | inl owned ↦ omega (arith, free_slot-le (k + 1) cells i (rw owned at h))
  | inr free ↦ let e : some k ≡ some i = rw free at h in ground arith
]

abbrev upgrades : Bool → Request → Bool
upgrades kept q = elim (if kept then some q else none) [ none ↦ false | some r ↦ true ]

upgrades_lem : (kept : Bool) (q : Request) → kept ≡ upgrades kept q
upgrades_lem true q = refl
upgrades_lem false q = refl

owned : (cell : Option Request) (r : Request) → cell ≡ some r → is_retained r ≡ has_owners cell
owned none r e = absurd (ground arith)
owned (some q) r e =
    let same : q ≡ r = ground arith in ap is_retained (sym same) ∙ upgrades_lem (is_retained q) q

-- The slot that is filled had no owners.
pub free_slot-dead :
    (k : ℕ) (cells : List (Option Request)) (i : ℕ)
    → free_slot k cells ≡ some i
    → (j : ℕ) (r : Request) → i ≡ k + j
    → at cells j ≡ some r
    → is_retained r ≡ false
unfolding free_slot
free_slot-dead k [] i h j r e found = absurd (ground arith)
free_slot-dead k (cell ∷ cells) i h zero r e found = elim (Bool-cases (has_owners cell)) [
  | inl kept ↦ absurd (omega (arith, free_slot-le (k + 1) cells i (rw kept at h)))
  | inr dead ↦ owned cell r found ∙ dead
]
free_slot-dead k (cell ∷ cells) i h (suc j) r e found = elim (Bool-cases (has_owners cell)) [
  | inl kept ↦ free_slot-dead (k + 1) cells i (rw kept at h) j r (omega arith) found
  | inr dead ↦ let first : some k ≡ some i = rw dead at h in absurd (ground arith)
]

pub set-Stays :
    (cells : List (Option Request)) (i : ℕ) (new : Request) (j : ℕ) (r : Request)
    → i ≢ j
    → at cells j ≡ some r
    → at (set cells i (some new)) j ≡ some r
set-Stays [] i new j r n h = h
set-Stays (cell ∷ cells) zero new zero r n h = absurd (n refl)
set-Stays (cell ∷ cells) zero new (suc j) r n h = h
set-Stays (cell ∷ cells) (suc i) new zero r n h = h
set-Stays (cell ∷ cells) (suc i) new (suc j) r n h = set-Stays cells i new j r (λ e. n (ap suc e)) h
