-- ===== src/Tensor.antt =====
-- src/tensor.rs: the descriptors of tensors.
pub mod Bounds
pub mod Contiguous
mod Tests
use hrx_rs.Common.{
  ℕ, zero, suc, ◌+◌, ◌-◌, ◌*◌, ◌^◌, Bool, true, false, ◌&&◌, ◌||◌, not, Option, none, some, List,
  [], ◌∷◌, if◌then◌else◌, ◌==◌, leb, ltb, max, any, length,
}
use hrx_rs.Common.Errors.{Error, Result, ok, err, message, ◌>>=◌, ◌>>◌, refuse_if}

pub data DType : Type 0 where
  u8 i32 u32 i64 f16 bf16 f32 : DType

-- `DType::bytes`
unfoldable pub dtype_bytes : DType → ℕ
dtype_bytes u8 = 1
dtype_bytes f16 = 2
dtype_bytes bf16 = 2
dtype_bytes i32 = 4
dtype_bytes u32 = 4
dtype_bytes f32 = 4
dtype_bytes i64 = 8

pub data Layout : Type 0 where
  general nchw nhwc rows : Layout

pub record TensorDesc : Type 0 where
  pub dtype : DType
  pub shape : List ℕ
  pub strides : List ℕ
  pub layout : Layout
  pub elements : ℕ
  pub bytes : ℕ

abbrev pub usize_max : ℕ
usize_max = 2 ^ 64 - 1

abbrev pub isize_max : ℕ
isize_max = 2 ^ 63 - 1

abbrev pub checked_add : ℕ → ℕ → Option ℕ
checked_add a b = if ltb usize_max (a + b) then none else some (a + b)

abbrev pub checked_mul : ℕ → ℕ → Option ℕ
checked_mul a b = if ltb usize_max (a * b) then none else some (a * b)

abbrev pub ok_or : Option ℕ → Error → Result ℕ
ok_or none e = err e
ok_or (some n) e = ok n

abbrev pub is_zero : ℕ → Bool
is_zero n = n == 0

-- `try_fold(1, checked_mul)`
unfoldable pub product : ℕ → List ℕ → Option ℕ
product n [] = some n
product n (d ∷ shape) = elim (checked_mul n d) [ none ↦ none | some m ↦ product m shape ]

-- The axes with more than one element, each with its stride.
unfoldable pub axes_of : List ℕ → List ℕ → List (ℕ × ℕ)
axes_of [] strides = []
axes_of (d ∷ shape) [] = []
axes_of (d ∷ shape) (stride ∷ strides) =
    if ltb 1 d then (d, stride) ∷ axes_of shape strides else axes_of shape strides

-- `sort_unstable_by_key` on the stride.
unfoldable pub insert_axis : ℕ × ℕ → List (ℕ × ℕ) → List (ℕ × ℕ)
insert_axis axis [] = axis ∷ []
insert_axis axis (other ∷ axes) =
    if leb axis.1 other.1 then axis ∷ other ∷ axes else other ∷ insert_axis axis axes

unfoldable pub sort_axes : List (ℕ × ℕ) → List (ℕ × ℕ)
unfolding insert_axis
sort_axes [] = []
sort_axes (axis ∷ axes) = insert_axis axis (sort_axes axes)

-- `(dimension - 1).checked_mul(stride).and_then(|n| n.checked_add(extent))`
abbrev pub next_extent : ℕ → ℕ → ℕ → Option ℕ
next_extent extent dimension stride = elim (checked_mul (dimension - 1) stride) [
  | none ↦ none
  | some n ↦ checked_add n extent
]

-- The loop over the sorted axes.
unfoldable pub extent_of : ℕ → List (ℕ × ℕ) → Result ℕ
extent_of extent [] = ok extent
extent_of extent ((dimension, stride) ∷ axes) = elim (ltb stride extent) [
  | true ↦ err (message "overlapping tensor strides")
  | false ↦ elim (next_extent extent dimension stride) [
    | none ↦ err (message "tensor extent overflow")
    | some next ↦ extent_of next axes
  ]
]

-- `extent.checked_mul(dtype.bytes()).filter(|&n| n <= isize::MAX as usize)`
unfoldable pub byte_extent : ℕ → DType → Result ℕ
unfolding dtype_bytes
byte_extent extent dtype = elim (checked_mul extent (dtype_bytes dtype)) [
  | none ↦ err (message "tensor byte extent overflow")
  | some n ↦ if leb n isize_max then ok n else err (message "tensor byte extent overflow")
]

-- `TensorDesc::strided`
unfoldable pub strided : DType → List ℕ → List ℕ → Result TensorDesc
unfolding product extent_of byte_extent sort_axes axes_of
strided dtype shape strides = do
  refuse_if (not (length shape == length strides) || any is_zero strides)
      (message "invalid tensor strides")
  elements ←
      if any is_zero shape
      then ok 0
      else ok_or (product 1 shape) (message "tensor element count overflow")
  extent ← if any is_zero shape then ok 0 else extent_of 1 (sort_axes (axes_of shape strides))
  bytes ← byte_extent extent dtype
  ok (record {
    dtype = dtype;
    shape = shape;
    strides = strides;
    layout = general;
    elements = elements;
    bytes = bytes;
  })

abbrev pub ones : List ℕ → List ℕ
ones [] = []
ones (d ∷ shape) = 1 ∷ ones shape

-- The loop of `new`, from the last axis on: the strides, and the stride of the axis in front.
unfoldable pub row_strides : List ℕ → Result (List ℕ × ℕ)
row_strides [] = ok ([], 1)
row_strides (d ∷ shape) = elim (row_strides shape) [
  | err e ↦ err e
  | ok (strides, stride) ↦ elim (checked_mul stride (max d 1)) [
    | none ↦ err (message "tensor stride overflow")
    | some next ↦ ok (stride ∷ strides, next)
  ]
]

-- `TensorDesc::new`
unfoldable pub new : DType → List ℕ → Result TensorDesc
unfolding strided row_strides
new dtype shape =
    if any is_zero shape
    then strided dtype shape (ones shape)
    else do found ← row_strides shape; strided dtype shape found.0

abbrev pub ranks : Layout → ℕ → Bool
ranks general rank = true
ranks rows rank = rank == 2
ranks nchw rank = rank == 4
ranks nhwc rank = rank == 4

-- `TensorDesc::with_layout`
unfoldable pub with_layout : TensorDesc → Layout → Result TensorDesc
with_layout d layout = do
  refuse_if (not (ranks layout (length d.shape))) (message "tensor layout rank mismatch")
  ok (record d { layout = layout })

-- The loop of `is_contiguous`, from the last axis on: the stride of the axis in front, or `none` when it
-- returned false.
unfoldable pub contiguous_from : List ℕ → List ℕ → Option ℕ
contiguous_from [] strides = some 1
contiguous_from (d ∷ shape) [] = some 1
contiguous_from (d ∷ shape) (actual ∷ strides) = elim (contiguous_from shape strides) [
  | none ↦ none
  | some stride ↦ if ltb 1 d && not (actual == stride) then none else checked_mul stride (max d 1)
]

-- `TensorDesc::is_contiguous`
unfoldable pub is_contiguous : TensorDesc → Bool
unfolding contiguous_from
is_contiguous d =
    if d.elements == 0
    then true
    else elim (contiguous_from d.shape d.strides) [ none ↦ false | some stride ↦ true ]
