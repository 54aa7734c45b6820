-- ===== src/Contract/Aliases.antt =====
-- src/execution/contract.rs: what a kernel call that passes the check can rely on.
use hrx_rs.Common.{
  ℕ, zero, suc, ◌%◌, ◌≡◌, ◌≤◌, ◌<◌, refl, Bool, true, false, ◌&&◌, ◌||◌, not, ◌⊎◌, inl, inr, List,
  [], ◌∷◌, ◌++◌, ◌==◌, length, some, get_elem?, arith, In, subst,
}
use hrx_rs.Common.Errors.{ok, message, refuse_if, bind-ok}
use hrx_rs.Access.{Access, writes}
use hrx_rs.Summary.{BufferView}
use hrx_rs.Contract.{
  BindingContract, validate, view_bytes, is_unfit, fits, check_extents, overlaps, aliases_earlier,
  aliases, pair, check_aliases, check,
}

-- Two views of one byte of which one is written.
abbrev pub clash : BufferView × Access → BufferView × Access → Bool
clash x y = overlaps x.0 y.0 && (writes x.1 || writes y.1)

aliases_earlier-In :
    (x : BufferView × Access) (earlier : List (BufferView × Access)) (y : BufferView × Access)
    → aliases_earlier x.0 x.1 earlier ≡ false
    → In y earlier
    → clash x y ≡ false
unfolding aliases_earlier
aliases_earlier-In x [] y h m = elim m [ ]
aliases_earlier-In x (z ∷ earlier) y h (inl e) = rw e (ground (arith, h))
aliases_earlier-In x (z ∷ earlier) y h (inr m) =
    aliases_earlier-In x earlier y (ground (arith, h)) m

In-append_left :
    (xs ys : List (BufferView × Access)) (y : BufferView × Access) → In y xs → In y (xs ++ ys)
In-append_left [] ys y m = elim m [ ]
In-append_left (x ∷ xs) ys y (inl e) = inl e
In-append_left (x ∷ xs) ys y (inr m) = inr (In-append_left xs ys y m)

In-append_last : (xs : List (BufferView × Access)) (y : BufferView × Access) → In y (xs ++ y ∷ [])
In-append_last [] y = inl refl
In-append_last (x ∷ xs) y = inr (In-append_last xs y)

-- A later view against one that was done, or an earlier one of the rest.
aliases-clash :
    (earlier rest : List (BufferView × Access)) (i j : ℕ) (x y : BufferView × Access)
    → aliases earlier rest ≡ ok tt
    → get_elem? rest j ≡ some x
    → (In y earlier) ⊎ ((i < j) × (get_elem? rest i ≡ some y))
    → clash x y ≡ false
unfolding aliases
aliases-clash earlier [] i j x y h at_j before = absurd (ground arith)
aliases-clash earlier (z ∷ rest) i zero x y h at_j (inr (lt, at_i)) = absurd (omega (arith, lt))
aliases-clash earlier (z ∷ rest) i zero x y h at_j (inl m) =
    let same : z ≡ x = ground arith in
    subst (λ w. clash w y ≡ false) same (aliases_earlier-In z earlier y (ground arith) m)
aliases-clash earlier (z ∷ rest) i (suc j) x y h at_j (inl m) =
    aliases-clash (earlier ++ z ∷ []) rest i j x y (ground arith) at_j
      (inl (In-append_left earlier (z ∷ []) y m))
aliases-clash earlier (z ∷ rest) zero (suc j) x y h at_j (inr (lt, at_i)) =
    let same : z ≡ y = ground arith in
    aliases-clash (earlier ++ z ∷ []) rest zero j x y (ground arith) at_j
      (inl (subst (λ w. In w (earlier ++ z ∷ [])) same (In-append_last earlier z)))
aliases-clash earlier (z ∷ rest) (suc i) (suc j) x y h at_j (inr (lt, at_i)) =
    aliases-clash (earlier ++ z ∷ []) rest i j x y (ground arith) at_j (inr (omega arith, at_i))

fits-view :
    (views : List BufferView) (contracts : List BindingContract) (i : ℕ) (v : BufferView)
    (b : BindingContract)
    → fits views contracts ≡ ok tt
    → get_elem? views i ≡ some v
    → get_elem? contracts i ≡ some b
    → is_unfit v b ≡ false
unfolding fits
fits-view [] contracts i v b h at_v at_b = absurd (ground arith)
fits-view (w ∷ views) [] i v b h at_v at_b = absurd (ground arith)
fits-view (w ∷ views) (c ∷ contracts) zero v b h at_v at_b =
    let same_view : w ≡ v = ground arith in
    let same_contract : c ≡ b = ground arith in rw⁻¹ (same_view, same_contract) (ground arith)
fits-view (w ∷ views) (c ∷ contracts) (suc i) v b h at_v at_b =
    fits-view views contracts i v b (ground arith) at_v at_b

pair-get_elem? :
    (contracts : List BindingContract) (views : List BufferView) (i : ℕ) (v : BufferView)
    (b : BindingContract)
    → get_elem? views i ≡ some v
    → get_elem? contracts i ≡ some b
    → get_elem? (pair contracts views) i ≡ some (v, b.access)
pair-get_elem? [] views i v b at_v at_b = absurd (ground arith)
pair-get_elem? (c ∷ contracts) [] i v b at_v at_b = absurd (ground arith)
pair-get_elem? (c ∷ contracts) (w ∷ views) zero v b at_v at_b = ground arith
pair-get_elem? (c ∷ contracts) (w ∷ views) (suc i) v b at_v at_b =
    pair-get_elem? contracts views i v b at_v at_b

-- When a call passes the check, there are as many views as contracts, each view is as long as its
-- contract says and aligned, and no two views share a byte that the kernel may write through one of them.
pub check-safe :
    (contracts : List BindingContract) (views : List BufferView)
    → check contracts views ≡ ok tt
    → (length views ≡ length contracts)
      × ((i : ℕ) (v : BufferView) (b : BindingContract)
          → get_elem? views i ≡ some v
          → get_elem? contracts i ≡ some b
          → (b.bytes ≤ view_bytes v) × (v.range.start % b.alignment ≡ 0))
      × ((i j : ℕ) (v w : BufferView) (b c : BindingContract)
          → i < j
          → get_elem? views i ≡ some v
          → get_elem? contracts i ≡ some b
          → get_elem? views j ≡ some w
          → get_elem? contracts j ≡ some c
          → (writes c.access || writes b.access) ≡ true
          → overlaps w v ≡ false)
unfolding check check_extents check_aliases
check-safe contracts views h =
    let (_, extents, no_alias) =
      bind-ok (check_extents contracts views) (λ _. check_aliases contracts views) tt h in
    let (_, _, h1) = bind-ok (validate contracts) _ tt extents in
    let (_, counted, fitting) =
      bind-ok
        (refuse_if (not (length views == length contracts))
          (message "kernel binding count mismatch"))
        _ tt h1 in
    (
      ground (arith, counted),
      λ i v b at_v at_b.
          let fit = fits-view views contracts i v b fitting at_v at_b in
          (ground (arith, fit), ground (arith, fit)),
      λ i j v w b c lt at_v at_b at_w at_c writes_one.
          let apart =
            aliases-clash [] (pair contracts views) i j (w, c.access) (v, b.access) no_alias
              (pair-get_elem? contracts views j w c at_w at_c)
              (inr (lt, pair-get_elem? contracts views i v b at_v at_b)) in
          ground (arith, apart),
    )
