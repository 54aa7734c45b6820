-- ===== src/Summary/Sweep.antt =====
-- src/execution/dependencies.rs: the sweep over two summaries finds what comparing every pair finds.
use hrx_rs.Common.{
  ◌≤◌, ◌<◌, ◌≡◌, refl, Bool, false, ◌&&◌, ◌||◌, ◌⊎◌, inl, inr, List, [], ◌∷◌, ltb, leb, ◌==◌, any,
  All, arith, Bool-cases,
}
use hrx_rs.Access.{writes}
use hrx_rs.Frontier.{Use}
use hrx_rs.Summary.{comes_before, comes_after, stay, conflicts}

-- Two uses of one byte of which one writes.
abbrev pub clash : Use → Use → Bool
clash x y =
    (x.allocation == y.allocation)
    && (ltb x.range.start y.range.end
        && (ltb y.range.start x.range.end && (writes x.access || writes y.access)))

-- Every pair.
abbrev pub cross : List Use → List Use → Bool
cross a b = any (λ x. any (clash x) b) a

abbrev pub After : Use → Use → Type 0
After x z =
    (x.allocation < z.allocation) ⊎ ((x.allocation ≡ z.allocation) × (x.range.end ≤ z.range.start))

-- A summary is sorted by allocation and offset, and its ranges are apart and not empty.
abbrev pub Canonical : List Use → Type 0
Canonical [] = Unit
Canonical (x ∷ a) = (x.range.start < x.range.end) × All (After x) a × Canonical a

-- All of the list is past the end of `x`.
Past : Use → List Use → Type 0
Past x = All (After x)

row_past : (x : Use) (b : List Use) → All (After x) b → any (clash x) b ≡ false
row_past x [] p = refl
row_past x (y ∷ b) p = ground (arith, p.0, row_past x b p.1)

After-trans : (x y z : Use) → y.range.start < y.range.end → After x y → After y z → After x z
After-trans x y z n p q = ground arith

All-After :
    (x y : Use) (b : List Use)
    → y.range.start < y.range.end
    → After x y
    → All (After y) b
    → All (After x) b
All-After x y [] n p q = tt
All-After x y (z ∷ b) n p q = (After-trans x y z n p q.0, All-After x y b n p q.1)

-- Both end at `y`'s end or before.
All-After_end :
    (x y : Use) (b : List Use)
    → x.allocation ≡ y.allocation
    → x.range.end ≤ y.range.end
    → All (After y) b
    → All (After x) b
All-After_end x y [] e l q = tt
All-After_end x y (z ∷ b) e l q = (ground (arith, q.0), All-After_end x y b e l q.1)

clash_sym : (x y : Use) → clash x y ≡ clash y x
clash_sym x y = ground arith

-- A column without clashes adds nothing.
cross_column : (y : Use) (a b : List Use) → All (After y) a → cross a (y ∷ b) ≡ cross a b
cross_column y [] b p = refl
cross_column y (x ∷ a) b p = ground (arith, p.0, cross_column y a b p.1)

cross_nil : (a : List Use) → cross a [] ≡ false
cross_nil [] = refl
cross_nil (x ∷ a) = cross_nil a

-- When comparing the rest of `a` agrees, so does the sweep from `x` on.
stay-cross :
    (x : Use) (a b : List Use)
    → Canonical (x ∷ a)
    → Canonical b
    → ((c : List Use) → Canonical c → conflicts a c ≡ cross a c)
    → stay x (conflicts a) b ≡ cross (x ∷ a) b
unfolding stay
stay-cross x a [] p q h = rw (cross_nil a) refl
stay-cross x a (y ∷ b) p q h = elim (Bool-cases (comes_before x y)) [
  | inl before ↦
      let past : After x y = ground arith in
      ground (arith, h (y ∷ b) q, row_past x (y ∷ b) (past, All-After x y b q.0 past q.1))
  | inr not_before ↦ elim (Bool-cases (comes_after x y)) [
    | inl after ↦
        let past : After y x = ground arith in
        ground (
          arith,
          stay-cross x a b p q.2 h,
          cross_column y (x ∷ a) b (past, All-After y x a p.0 past p.1),
        )
    | inr meet ↦ elim (Bool-cases (leb x.range.end y.range.end)) [
      | inl first ↦
          let past = All-After_end x y b (ground arith) (ground arith) q.1 in
          ground (arith, h (y ∷ b) q, row_past x b past)
      | inr last ↦
          let past = All-After_end y x a (ground arith) (ground arith) p.1 in
          ground (arith, stay-cross x a b p q.2 h, cross_column y a b past)
    ]
  ]
]

-- On two canonical summaries, the sweep finds a conflict exactly when some use of the one and some
-- use of the other share a byte and one of the two writes.
pub conflicts-cross : (a b : List Use) → Canonical a → Canonical b → conflicts a b ≡ cross a b
unfolding conflicts
conflicts-cross [] b p q = refl
conflicts-cross (x ∷ a) b p q = stay-cross x a b p q (λ c r. conflicts-cross a c p.2 r)
