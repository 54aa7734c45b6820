-- ===== src/Residency/Evictions.antt =====
-- src/residency.rs: the eviction of an idle resource.
use hrx_rs.Common.{
  ℕ, suc, ◌+◌, ◌<◌, ◌≡◌, refl, sym, ◌∙◌, subst, Bool, true, false, inl, inr, Option, none, some,
  List, [], ◌∷◌, length, arith, Option-cases, ◌⊎◌, Bool-cases, ◌==◌,
}
use hrx_rs.Common.Table.{find, remove, Unique, find-remove_ne, remove-Unique, length-remove}
use hrx_rs.Lru.{Entry, loading, ready, victim}
use hrx_rs.Lru.Victim.{victim-Oldest, victim-none}
use hrx_rs.Residency.{Resource, State, charge_of, is_evictable, evict_idle}

-- The bytes that the drop of every ready resource would release.
abbrev pub resident : {K : Type 0} → (ℕ → ℕ) → List (K × Entry Resource) → ℕ
resident own [] = 0
resident own ((k, loading f) ∷ m) = resident own m
resident own ((k, ready r u) ∷ m) = charge_of own r + resident own m

abbrev pub Wanted : (ℕ → Bool) → (ℕ → ℕ) → (ℕ → ℕ) → Resource → Type 0
Wanted idle owners pins r = (0 < owners r.id) ⊎ ((0 < pins r.id) ⊎ (idle r.id ≡ false))

pub Wanted-is_evictable :
    (idle : ℕ → Bool) (owners pins : ℕ → ℕ) (r : Resource)
    → Wanted idle owners pins r
    → is_evictable idle owners pins r ≡ false
Wanted-is_evictable idle owners pins r w = ground arith

pub is_evictable-Wanted :
    (idle : ℕ → Bool) (owners pins : ℕ → ℕ) (r : Resource)
    → is_evictable idle owners pins r ≡ false
    → Wanted idle owners pins r
is_evictable-Wanted idle owners pins r h = elim (Bool-cases (owners r.id == 0)) [
  | inr leased ↦ inl (ground arith)
  | inl free ↦ elim (Bool-cases (pins r.id == 0)) [
    | inr pinned ↦ inr (inl (ground arith))
    | inl loose ↦ inr (inr (ground arith))
  ]
]

module _ {K : Type 0} (eq : Discrete K) where
  resident-remove :
      (own : ℕ → ℕ) (k : K) (r : Resource) (used : ℕ) (m : List (K × Entry Resource))
      → find eq k m ≡ some (ready r used)
      → resident own m ≡ charge_of own r + resident own (remove eq k m)
  unfolding find remove
  resident-remove own k r used [] h = absurd (ground arith)
  resident-remove own k r used ((j, loading f) ∷ m) h =
      ground (arith, resident-remove own k r used m)
  resident-remove own k r used ((j, ready q u) ∷ m) h =
      ground (arith, resident-remove own k r used m)

  -- A cached resource that is leased, pinned or not idle.
  abbrev pub InUse : (ℕ → Bool) → State K → K → Resource → ℕ → Type 0
  InUse idle s key r used =
      (find eq key s.entries ≡ some (ready r used)) × Wanted idle s.owners s.pins r

  -- An eviction takes out one resource, which nobody uses.
  pub record Evicted (idle : ℕ → Bool) (s : State K) (r : Resource) (left : State K) : Type 0 where
    pub one_less : suc (length left.entries) ≡ length s.entries
    pub balance : resident s.own s.entries ≡ charge_of s.own r + resident left.own left.entries
    pub unique : Unique eq left.entries
    pub kept :
        (key : K) (q : Resource) (used : ℕ) → InUse idle s key q used → InUse idle left key q used

  without : State K → K → State K
  without s key = record s { entries = remove eq key s.entries; evictions = s.evictions + 1 }

  without-Evicted :
      (idle : ℕ → Bool) (s : State K) (key : K) (r : Resource) (used : ℕ)
      → Unique eq s.entries
      → find eq key s.entries ≡ some (ready r used)
      → is_evictable idle s.owners s.pins r ≡ true
      → Evicted idle s r (without s key)
  unfolding without
  without-Evicted idle s key r used u e free = record {
    one_less = length-remove eq key (ready r used) s.entries e;
    balance = resident-remove s.own key r used s.entries e;
    unique = remove-Unique eq key s.entries u;
    kept = λ j q t held. (
      find-remove_ne eq key j s.entries (λ same. absurd (
            ground
              (arith, same, e, held.0, free, Wanted-is_evictable idle s.owners s.pins q held.1)))
          ∙ held.0,
      held.1,
    );
  }

  -- What `evict_idle` returns, when the victim is known.
  evicts :
      (idle : ℕ → Bool) (s : State K) (oldest : K) (used used' : ℕ) (r : Resource)
      → victim (is_evictable idle s.owners s.pins) s.entries ≡ some (oldest, used)
      → find eq oldest s.entries ≡ some (ready r used')
      → evict_idle eq idle s ≡ some (r, without s oldest)
  unfolding evict_idle without
  evicts idle s oldest used used' r found e = rw (found, e, evict_idle) refl

  abbrev OutOf : (ℕ → Bool) → State K → Option (Resource × State K) → Type 0
  OutOf idle s none = Unit
  OutOf idle s (some (r, left)) = Evicted idle s r left

  pub pinned_all :
      (idle : ℕ → Bool) (s : State K) (key : K) (r : Resource) (used : ℕ)
      → Unique eq s.entries
      → evict_idle eq idle s ≡ none
      → find eq key s.entries ≡ some (ready r used)
      → is_evictable idle s.owners s.pins r ≡ false
  pinned_all idle s key r used u h e =
      elim (Option-cases (victim (is_evictable idle s.owners s.pins) s.entries)) [
        | inl nothing ↦
            victim-none eq (is_evictable idle s.owners s.pins) s.entries key r used nothing e
        | inr ((oldest, t), found) ↦
            let o =
              victim-Oldest eq (is_evictable idle s.owners s.pins) s.entries oldest t u found in
            absurd (ground (arith, h, evicts idle s oldest t t o.resource found o.entry))
      ]

  pub evict_idle-Evicted :
      (idle : ℕ → Bool) (s : State K) (r : Resource) (left : State K)
      → Unique eq s.entries
      → evict_idle eq idle s ≡ some (r, left)
      → Evicted idle s r left
  unfolding evict_idle
  evict_idle-Evicted idle s r left u h =
      elim (Option-cases (victim (is_evictable idle s.owners s.pins) s.entries)) [
        | inl nothing ↦ absurd (ground arith)
        | inr ((oldest, used), found) ↦
            let o =
              victim-Oldest eq (is_evictable idle s.owners s.pins) s.entries oldest used u found in
            let same : ◌≡◌ {A = Option (Resource × State K)} (some (o.resource, without s oldest))
                (some (r, left)) =
              sym (evicts idle s oldest used used o.resource found o.entry) ∙ h in
            subst (OutOf idle s) same
              (without-Evicted idle s oldest o.resource used u o.entry o.idle)
      ]
