-- ===== src/Lru/Victim.antt =====
-- src/plan_cache.rs and src/residency.rs: the victim is the evictable entry that was used longest ago.
use mathlib.Core.Path.{subst₂}
use hrx_rs.Common.{
  ℕ, ◌≤◌, ◌≡◌, Bool, true, false, none, some, List, [], ◌∷◌, leb, arith, Bool-cases, Option-cases,
  inl, inr,
}
use hrx_rs.Common.Table.{find, Unique}
use hrx_rs.Lru.{Entry, loading, ready, candidates, min_by_used, victim}

module _ {K R : Type 0} (eq : Discrete K) (evictable : R → Bool) where
  -- The key is that of an evictable entry, and no evictable entry was used before it.
  pub record Oldest (entries : List (K × Entry R)) (k : K) (used : ℕ) : Type 0 where
    pub resource : R
    pub entry : find eq k entries ≡ some (ready resource used)
    pub idle : evictable resource ≡ true
    pub least :
        (j : K) (r : R) (u : ℕ)
        → find eq j entries ≡ some (ready r u)
        → evictable r ≡ true
        → used ≤ u

  find_rest :
      (i k : K) (e e' : Entry R) (m : List (K × Entry R))
      → find eq i m ≡ none
      → find eq k m ≡ some e'
      → find eq k ((i, e) ∷ m) ≡ some e'
  unfolding find
  find_rest i k e e' m h f = ground arith

  pub victim-none :
      (m : List (K × Entry R)) (j : K) (r : R) (u : ℕ)
      → victim evictable m ≡ none
      → find eq j m ≡ some (ready r u)
      → evictable r ≡ false
  unfolding find victim candidates min_by_used
  victim-none [] j r u h f = cc
  victim-none ((i, loading fl) ∷ m) j r u h f = ground (arith, victim-none m j r u)
  victim-none ((i, ready s v) ∷ m) j r u h f = ground (arith, victim-none m j r u)

  -- An entry in front of the victim's, which is no better.
  below :
      (i k : K) (e : Entry R) (m : List (K × Entry R)) (used : ℕ)
      → find eq i m ≡ none
      → ((r : R) (u : ℕ) → e ≡ ready r u → evictable r ≡ true → used ≤ u)
      → Oldest m k used
      → Oldest ((i, e) ∷ m) k used
  unfolding find
  below i k e m used fresh worse o = record {
    resource = o.resource;
    entry = find_rest i k e (ready o.resource used) m fresh o.entry;
    idle = o.idle;
    least = λ j r u f free. elim (eq i j) [
      | yes here ↦ worse r u (ground arith) free
      | no there ↦ o.least j r u (ground arith) free
    ];
  }

  first :
      (i : K) (s : R) (v : ℕ) (m : List (K × Entry R))
      → evictable s ≡ true
      → ((j : K) (r : R) (u : ℕ) → find eq j m ≡ some (ready r u) → evictable r ≡ true → v ≤ u)
      → Oldest ((i, ready s v) ∷ m) i v
  unfolding find
  first i s v m free best = record {
    resource = s;
    entry = ground arith;
    idle = free;
    least = λ j r u f free'. elim (eq i j) [
      | yes here ↦ ground arith
      | no there ↦ best j r u (ground arith) free'
    ];
  }

  pub victim-Oldest :
      (m : List (K × Entry R)) (k : K) (used : ℕ)
      → Unique eq m
      → victim evictable m ≡ some (k, used)
      → Oldest m k used
  unfolding victim candidates min_by_used
  victim-Oldest [] k used u h = absurd (ground arith)
  victim-Oldest ((i, loading f) ∷ m) k used u h =
      below i k (loading f) m used u.0 (λ r v e. absurd (cc)) (victim-Oldest m k used u.1 h)
  victim-Oldest ((i, ready s v) ∷ m) k used u h = elim (Bool-cases (evictable s)) [
    | inr pinned ↦
        below i k (ready s v) m used u.0 (λ r w e free. absurd (ground arith))
          (victim-Oldest m k used u.1 (ground arith))
    | inl free ↦ elim (Option-cases (victim evictable m)) [
      | inl alone ↦
          let same : (i ≡ k) × (v ≡ used) = (ground arith, ground arith) in
          subst₂ (λ k used. Oldest ((i, ready s v) ∷ m) k used) same.0 same.1
            (first i s v m free
              (λ j r w f free'. absurd (ground (arith, victim-none m j r w alone f))))
      | inr ((k', used'), e) ↦ elim (Bool-cases (leb v used')) [
        | inl first_is ↦
            let same : (i ≡ k) × (v ≡ used) = (ground arith, ground arith) in
            subst₂ (λ k used. Oldest ((i, ready s v) ∷ m) k used) same.0 same.1
              (first i s v m free (λ j r w f free'.
                ground (arith, (victim-Oldest m k' used' u.1 e).least j r w f free')))
        | inr later_is ↦
            let same : (k' ≡ k) × (used' ≡ used) = (ground arith, ground arith) in
            subst₂ (λ k used. Oldest ((i, ready s v) ∷ m) k used) same.0 same.1
              (below i k' (ready s v) m used' u.0 (λ r w e free'. ground arith)
                (victim-Oldest m k' used' u.1 e))
      ]
    ]
  ]
