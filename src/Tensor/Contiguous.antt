-- ===== src/Tensor/Contiguous.antt =====
-- src/tensor.rs: a tensor made from a shape alone is contiguous.
use hrx_rs.Common.{
  ℕ, ◌≡◌, sym, ◌∙◌, ap, Bool, true, false, ◌||◌, not, inl, inr, some, List, [], ◌∷◌, if◌then◌else◌,
  ◌==◌, max, any, length, arith, Bool-cases, Option-cases, subst,
}
use hrx_rs.Common.Errors.{Result, ok, message, ◌>>=◌, refuse_if, Result-cases, bind-ok}
use hrx_rs.Tensor.{
  DType, TensorDesc, checked_mul, ok_or, is_zero, product, axes_of, sort_axes, extent_of,
  byte_extent, strided, row_strides, new, ones, contiguous_from, is_contiguous, general,
}

row_strides-contiguous_from :
    (shape strides : List ℕ) (stride : ℕ)
    → row_strides shape ≡ ok (strides, stride)
    → contiguous_from shape strides ≡ some stride
unfolding row_strides contiguous_from
row_strides-contiguous_from [] strides stride h = ground arith
row_strides-contiguous_from (d ∷ shape) strides stride h = elim (Result-cases (row_strides shape)) [
  | inr (e, failed) ↦ absurd (ground arith)
  | inl ((inner, step), found) ↦ elim (Option-cases (checked_mul step (max d 1))) [
    | inl over ↦ absurd (ground arith)
    | inr (next, e) ↦
        let made : ◌≡◌ {A = Result (List ℕ × ℕ)} (ok (step ∷ inner, next)) (ok (strides, stride)) =
          rw (found, e, row_strides) at h in
        let same_strides : step ∷ inner ≡ strides = ground (arith, made) in
        let same_stride : next ≡ stride = ground (arith, made) in
        subst (λ xs. contiguous_from (d ∷ shape) xs ≡ some stride) same_strides
          (ground (arith, row_strides-contiguous_from shape inner step found, e, same_stride))
  ]
]

-- The shape and strides of an accepted descriptor are those given, and without a zero dimension it has
-- no zero count.
strided_fields :
    (dtype : DType) (shape strides : List ℕ) (d : TensorDesc)
    → strided dtype shape strides ≡ ok d
    → (d.shape ≡ shape) × (d.strides ≡ strides) × (any is_zero shape ≡ true → d.elements ≡ 0)
unfolding strided
strided_fields dtype shape strides d h =
    let (checked, guard, h1) =
      bind-ok
        (refuse_if (not (length shape == length strides) || any is_zero strides)
          (message "invalid tensor strides"))
        _ d h in
    let (elements, counted, h2) =
      bind-ok
        (if any is_zero shape
          then ok 0
          else ok_or (product 1 shape) (message "tensor element count overflow"))
        _ d h1 in
    let (whole, extent, h3) =
      bind-ok (if any is_zero shape then ok 0 else extent_of 1 (sort_axes (axes_of shape strides)))
        _ d h2 in
    let (bytes, size, h4) = bind-ok (byte_extent whole dtype) _ d h3 in
    let made : ◌≡◌ {A = TensorDesc}
        (record {
          dtype = dtype;
          shape = shape;
          strides = strides;
          layout = general;
          elements = elements;
          bytes = bytes;
        })
        d =
      ground (arith, h4) in
    (
      sym (ap (λ (t : TensorDesc). t.shape) made),
      sym (ap (λ (t : TensorDesc). t.strides) made),
      λ empty. ground (arith, ap (λ (t : TensorDesc). t.elements) made, rw empty at counted),
    )

contiguous_lem :
    (d : TensorDesc) (stride : ℕ)
    → contiguous_from d.shape d.strides ≡ some stride
    → is_contiguous d ≡ true
unfolding is_contiguous
contiguous_lem d stride h = ground arith

rows_first : DType → List ℕ → Result TensorDesc
rows_first dtype shape = row_strides shape >>= λ found. strided dtype shape found.0

new_branch :
    (dtype : DType) (shape : List ℕ) (empty : Bool)
    → any is_zero shape ≡ empty
    → new dtype shape ≡ (if empty then strided dtype shape (ones shape) else rows_first dtype shape)
unfolding new rows_first
new_branch dtype shape empty e =
    ap (λ b. if b then strided dtype shape (ones shape) else rows_first dtype shape) e

-- Whatever the shape, a tensor that is made from the shape alone, and accepted, is contiguous.
pub new-is_contiguous :
    (dtype : DType) (shape : List ℕ) (d : TensorDesc)
    → new dtype shape ≡ ok d
    → is_contiguous d ≡ true
unfolding is_contiguous rows_first
new-is_contiguous dtype shape d h = elim (Bool-cases (any is_zero shape)) [
  | inl empty ↦
      let made = sym (new_branch dtype shape true empty) ∙ h in
      ground (arith, (strided_fields dtype shape (ones shape) d made).2 empty)
  | inr some_elements ↦
      let chain = sym (new_branch dtype shape false some_elements) ∙ h in
      let ((strides, stride), found, made) =
        bind-ok (row_strides shape) (λ found. strided dtype shape found.0) d chain in
      let (same_shape, same_strides, _) = strided_fields dtype shape strides d made in
      contiguous_lem d stride (
        ap (λ xs. contiguous_from xs d.strides) same_shape
        ∙ ap (λ ys. contiguous_from shape ys) same_strides
        ∙ row_strides-contiguous_from shape strides stride found)
]
