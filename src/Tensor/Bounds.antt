-- ===== src/Tensor/Bounds.antt =====
-- src/tensor.rs: every element of a descriptor lies inside its byte extent.
use native.Mathlib.Nat.{mul-le-mul_right}
use hrx_rs.Common.{
  ℕ, ◌+◌, ◌-◌, ◌*◌, ◌≤◌, ◌<◌, ◌≡◌, refl, ◌∙◌, ap, false, ◌||◌, not, inl, inr, some, List, [], ◌∷◌,
  if◌then◌else◌, ◌==◌, leb, ltb, any, length, arith, Bool-cases, Option-cases,
}
use hrx_rs.Common.Errors.{Result, ok, err, message, refuse_if, bind-ok}
use hrx_rs.Tensor.{
  DType, TensorDesc, dtype_bytes, isize_max, checked_mul, ok_or, is_zero, product, axes_of,
  insert_axis, sort_axes, next_extent, extent_of, byte_extent, strided,
}

-- The bytes between the first element and the last, in elements.
abbrev span : List (ℕ × ℕ) → ℕ
span [] = 0
span ((d, stride) ∷ axes) = (d - 1) * stride + span axes

span-insert_axis :
    (axis : ℕ × ℕ) (axes : List (ℕ × ℕ)) → span (insert_axis axis axes) ≡ span (axis ∷ axes)
unfolding insert_axis
span-insert_axis axis [] = refl
span-insert_axis axis (other ∷ axes) = elim (Bool-cases (leb axis.1 other.1)) [
  | inl here ↦ rw here refl
  | inr further ↦ rw further (omega (arith, span-insert_axis axis axes))
]

span-sort_axes : (axes : List (ℕ × ℕ)) → span (sort_axes axes) ≡ span axes
unfolding sort_axes
span-sort_axes [] = refl
span-sort_axes (axis ∷ axes) =
    omega (arith, span-insert_axis axis (sort_axes axes), span-sort_axes axes)

next_extent_lem :
    (extent d stride next : ℕ)
    → next_extent extent d stride ≡ some next
    → next ≡ (d - 1) * stride + extent
next_extent_lem extent d stride next h = ground arith

extent_of-span :
    (extent : ℕ) (axes : List (ℕ × ℕ)) (whole : ℕ)
    → extent_of extent axes ≡ ok whole
    → whole ≡ extent + span axes
unfolding extent_of
extent_of-span extent [] whole h = ground arith
extent_of-span extent ((d, stride) ∷ axes) whole h = elim (Bool-cases (ltb stride extent)) [
  | inl overlap ↦ absurd (ground arith)
  | inr apart ↦ elim (Option-cases (next_extent extent d stride)) [
    | inl over ↦ absurd (ground arith)
    | inr (next, e) ↦
        let later : extent_of next axes ≡ ok whole = rw (apart, e, extent_of) at h in
        omega (arith, extent_of-span next axes whole later, next_extent_lem extent d stride next e)
  ]
]

-- The indices of one element, an index for each axis.
abbrev pub Within : List ℕ → List ℕ → Type 0
Within [] [] = Unit
Within [] (d ∷ shape) = ⊥
Within (i ∷ index) [] = ⊥
Within (i ∷ index) (d ∷ shape) = (i < d) × Within index shape

-- The place of an element, in elements.
abbrev pub offset : List ℕ → List ℕ → ℕ
offset [] strides = 0
offset (i ∷ index) [] = 0
offset (i ∷ index) (stride ∷ strides) = i * stride + offset index strides

offset-span :
    (index shape strides : List ℕ)
    → Within index shape
    → offset index strides ≤ span (axes_of shape strides)
unfolding axes_of
offset-span [] shape strides w = omega arith
offset-span (i ∷ index) [] strides w = elim w [ ]
offset-span (i ∷ index) (d ∷ shape) [] w = omega arith
offset-span (i ∷ index) (d ∷ shape) (stride ∷ strides) w = elim (Bool-cases (ltb 1 d)) [
  | inl many ↦
      let le : i ≤ d - 1 = omega (arith, w.0) in
      rw many (omega (arith, mul-le-mul_right stride le, offset-span index shape strides w.1))
  | inr one ↦
      let first : i ≡ 0 = ground (arith, w.0) in
      rw (one, first) (omega (arith, offset-span index shape strides w.1))
]

Within-nonempty : (index shape : List ℕ) → Within index shape → any is_zero shape ≡ false
Within-nonempty [] [] w = refl
Within-nonempty [] (d ∷ shape) w = elim w [ ]
Within-nonempty (i ∷ index) [] w = elim w [ ]
Within-nonempty (i ∷ index) (d ∷ shape) w = ground (arith, w.0, Within-nonempty index shape w.1)

byte_extent_lem :
    (extent : ℕ) (dtype : DType) (bytes : ℕ)
    → byte_extent extent dtype ≡ ok bytes
    → (bytes ≡ extent * dtype_bytes dtype) × (bytes ≤ isize_max)
unfolding byte_extent
byte_extent_lem extent dtype bytes h =
    elim (Option-cases (checked_mul extent (dtype_bytes dtype))) [
      | inl over ↦ absurd (ground arith)
      | inr (n, e) ↦
          let same : n ≡ extent * dtype_bytes dtype = ground (arith, e) in ground (arith, same)
    ]

abbrev bytes_of : Result TensorDesc → Result ℕ
bytes_of (ok d) = ok d.bytes
bytes_of (err e) = err e

pub strided_parts :
    (dtype : DType) (shape strides : List ℕ) (d : TensorDesc)
    → any is_zero shape ≡ false
    → strided dtype shape strides ≡ ok d
    → (whole : ℕ) × (extent_of 1 (sort_axes (axes_of shape strides)) ≡ ok whole)
      × (byte_extent whole dtype ≡ ok d.bytes)
unfolding strided
strided_parts dtype shape strides d some_elements h =
    let (checked, guard, h1) =
      bind-ok
        (refuse_if (not (length shape == length strides) || any is_zero strides)
          (message "invalid tensor strides"))
        _ d h in
    let (elements, counted, h2) =
      bind-ok
        (if any is_zero shape
          then ok 0
          else ok_or (product 1 shape) (message "tensor element count overflow"))
        _ d h1 in
    let (whole, extent, h3) =
      bind-ok (if any is_zero shape then ok 0 else extent_of 1 (sort_axes (axes_of shape strides)))
        _ d h2 in
    let (bytes, size, h4) = bind-ok (byte_extent whole dtype) _ d h3 in
    (whole, rw some_elements at extent, size ∙ ap (λ r. bytes_of r) h4)

-- When a descriptor is accepted, every element of it ends within its bytes, and its bytes are at most
-- the greatest signed size.
pub strided_bounds :
    (dtype : DType) (shape strides index : List ℕ) (d : TensorDesc)
    → strided dtype shape strides ≡ ok d
    → Within index shape
    → ((offset index strides + 1) * dtype_bytes dtype ≤ d.bytes) × (d.bytes ≤ isize_max)
strided_bounds dtype shape strides index d h w =
    let (whole, extent, bytes) =
      strided_parts dtype shape strides d (Within-nonempty index shape w) h in
    let (size, small) = byte_extent_lem whole dtype d.bytes bytes in
    let inside : offset index strides + 1 ≤ whole = omega (
      arith,
      extent_of-span 1 (sort_axes (axes_of shape strides)) whole extent,
      span-sort_axes (axes_of shape strides),
      offset-span index shape strides w,
    ) in
    (omega (arith, size, mul-le-mul_right (dtype_bytes dtype) inside), small)
