-- ===== src/Tensor/Tests.antt =====
-- src/tensor.rs: a matrix, a slice of one, and overlapping strides.
use hrx_rs.Common.{◌+◌, ◌*◌, ◌≡◌, ◌≤◌, refl, true, false, [], ◌∷◌, arith}
use hrx_rs.Common.Errors.{message, ok, err}
use hrx_rs.Tensor.{
  f32, u8, general, rows, nchw, TensorDesc, dtype_bytes, isize_max, product, axes_of, insert_axis,
  sort_axes, extent_of, byte_extent, strided, row_strides, new, with_layout, contiguous_from,
  is_contiguous,
}
use hrx_rs.Tensor.Bounds.{offset, strided_bounds}
use hrx_rs.Tensor.Contiguous.{new-is_contiguous}

abbrev columns : TensorDesc
columns = record {
  dtype = f32;
  shape = 3 ∷ 2 ∷ [];
  strides = 1 ∷ 4 ∷ [];
  layout = general;
  elements = 6;
  bytes = 28;
}

accepts_columns : strided f32 (3 ∷ 2 ∷ []) (1 ∷ 4 ∷ []) ≡ ok columns
unfolding strided product axes_of insert_axis sort_axes extent_of byte_extent dtype_bytes
accepts_columns = refl

strided_bounds_example :
    ((offset (2 ∷ 1 ∷ []) (1 ∷ 4 ∷ []) + 1) * dtype_bytes f32 ≤ 28) × (28 ≤ isize_max)
strided_bounds_example =
    strided_bounds f32 (3 ∷ 2 ∷ []) (1 ∷ 4 ∷ []) (2 ∷ 1 ∷ []) columns accepts_columns
      (omega arith, (omega arith, tt))

rejects_overlap : strided f32 (3 ∷ 2 ∷ []) (1 ∷ 2 ∷ []) ≡ err (message "overlapping tensor strides")
unfolding strided product axes_of insert_axis sort_axes extent_of byte_extent dtype_bytes
rejects_overlap = refl

abbrev matrix : TensorDesc
matrix = record {
  dtype = u8;
  shape = 3 ∷ 2 ∷ [];
  strides = 2 ∷ 1 ∷ [];
  layout = general;
  elements = 6;
  bytes = 6;
}

makes_matrix : new u8 (3 ∷ 2 ∷ []) ≡ ok matrix
unfolding new row_strides strided product axes_of insert_axis sort_axes extent_of byte_extent
    dtype_bytes
makes_matrix = refl

new-is_contiguous_example : is_contiguous matrix ≡ true
new-is_contiguous_example = new-is_contiguous u8 (3 ∷ 2 ∷ []) matrix makes_matrix

not_contiguous : is_contiguous columns ≡ false
unfolding is_contiguous contiguous_from
not_contiguous = refl

as_rows : with_layout matrix rows ≡ ok (record matrix { layout = rows })
unfolding with_layout
as_rows = refl

wrong_rank : with_layout matrix nchw ≡ err (message "tensor layout rank mismatch")
unfolding with_layout
wrong_rank = refl
