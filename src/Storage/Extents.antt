-- ===== src/Storage/Extents.antt =====
-- src/storage/mod.rs: the aligned extent covers the logical one and fits its slot.
use Prim.Native.Nat.{ℕ}
use native.Mathlib.Nat.{mul-add, mul-sub, mul-le-mul_left, mod-lt, div-add-mod, mul-mod_right}
use hrx_rs.Common.{ℕ, ◌+◌, ◌-◌, ◌*◌, ◌/◌, ◌%◌, ◌≤◌, ◌<◌, ◌≡◌, ap, ◌∙◌, true, false, arith, dec_lt}
use hrx_rs.Common.Errors.{message, ok, bind-ok, refuse_if-ok}
use hrx_rs.Storage.{Extent, Physical, align_down, exceeds, is_unaligned, aligned, physical}
use hrx_rs.Tensor.{checked_add, ok_or}

-- An aligned value is a multiple.
pub align_down-mul : (a x : ℕ) → align_down a x ≡ a * (x / a)
align_down-mul a x = omega (arith, div-add-mod x a)

aligned-ok :
    (extent : Extent) (end a capacity : ℕ) (p : Physical)
    → aligned extent end a capacity ≡ ok p
    → (p.offset ≡ align_down a extent.offset)
      × (p.bytes ≡ align_down a (end + (a - 1)) - align_down a extent.offset)
      × (p.skip ≡ extent.offset - align_down a extent.offset)
      × (p.bytes ≤ capacity)
unfolding aligned
aligned-ok extent end a capacity p h =
    let (padded, first, rest) = bind-ok (ok_or (checked_add end (a - 1)) _) _ p h in
    (ground arith, ground arith, ground arith, ground arith)

-- Multiples less than a multiple apart.
pub le_of_close : (a m k : ℕ) → a * m < a * k + a → a * m ≤ a * k
le_of_close a m k h = elim (dec_lt k m) [
  | yes over ↦ absurd (omega (arith, mul-le-mul_left a over))
  | no under ↦ mul-le-mul_left a (omega arith)
]

pub mod_facts : (a x : ℕ) → 0 < a → (a * (x / a) + x % a ≡ x) × (x % a < a)
mod_facts a x h = (div-add-mod x a, mod-lt x h)

sub-IsMultiple : (a x y : ℕ) → (align_down a x - align_down a y) % a ≡ 0
sub-IsMultiple a x y =
    let multiple : align_down a x - align_down a y ≡ a * (x / a - y / a) =
      omega (arith, align_down-mul a x, align_down-mul a y, mul-sub a (x / a) (y / a)) in
    ap (λ n. n % a) multiple ∙ mul-mod_right a (x / a - y / a)

-- Where the extent is aligned there is nothing to add.
exact_length :
    (a offset bytes padded : ℕ)
    → 0 < a
    → (offset % a ≡ 0) × (bytes % a ≡ 0)
    → padded ≡ align_down a (offset + bytes + (a - 1)) - align_down a offset
    → padded ≡ bytes
exact_length a offset bytes padded positive ragged e =
    let opening = mod_facts a offset positive in
    let size = mod_facts a bytes positive in
    let high = mod_facts a (offset + bytes + (a - 1)) positive in
    let sum = mul-add a (offset / a) (bytes / a) in
    let close =
      le_of_close a ((offset + bytes + (a - 1)) / a) (offset / a + bytes / a)
        (omega (arith, opening.0, size.0, high.0, sum, ragged.0, ragged.1)) in
    omega (arith, opening.0, size.0, high.0, sum, ragged.0, ragged.1, close)

-- What `physical` has checked.
physical-ok :
    (extent : Extent) (size a capacity : ℕ) (p : Physical)
    → physical extent size a capacity ≡ ok p
    → (aligned extent (extent.offset + extent.bytes) a capacity ≡ ok p)
      × (0 < extent.bytes)
      × (extent.writing ≡ false → extent.offset + extent.bytes ≤ size)
      × (extent.writing ≡ true → (extent.offset % a ≡ 0) × (extent.bytes % a ≡ 0))
unfolding physical
physical-ok extent size a capacity p h =
    let (end, first, rest) =
      bind-ok (ok_or (checked_add extent.offset extent.bytes) (message "file extent overflow")) _ p
        h in
    let same : end ≡ extent.offset + extent.bytes = ground arith in
    let (second, more) =
      refuse_if-ok (exceeds extent (extent.offset + extent.bytes) size capacity)
        (message "file extent exceeds its file or payload slot") _ p (rw same at rest) in
    let (third, last) =
      refuse_if-ok (is_unaligned extent a)
        (message "direct writes require aligned file offsets and lengths")
        (aligned extent (extent.offset + extent.bytes) a capacity) p more in
    (last, ground arith, λ r. ground arith, λ w. (ground arith, ground arith))

-- The bytes of the file that are moved: they start and end at the alignment, and they hold the extent.
pub record Covers (extent : Extent) (a capacity : ℕ) (p : Physical) : Type 0 where
  pub starts : p.offset + p.skip ≡ extent.offset
  pub ends : p.skip + extent.bytes ≤ p.bytes
  pub fits : p.bytes ≤ capacity
  pub starts_aligned : p.offset % a ≡ 0
  pub length_aligned : p.bytes % a ≡ 0
  pub is_tight : (p.skip < a) × (p.bytes < p.skip + extent.bytes + a)

-- An extent that `physical` accepts, for an alignment above 0: the physical extent starts and ends at the
-- alignment, holds the logical one after `skip` bytes, fits the slot and has less than one alignment of
-- padding on either side; a read lies within its file, and a write has no padding.
pub physical-Covers :
    (extent : Extent) (size a capacity : ℕ) (p : Physical)
    → 0 < a
    → physical extent size a capacity ≡ ok p
    → Covers extent a capacity p
      × (extent.writing ≡ false → extent.offset + extent.bytes ≤ size)
      × (extent.writing ≡ true → (p.skip ≡ 0) × (p.bytes ≡ extent.bytes))
physical-Covers extent size a capacity p positive h =
    let end = extent.offset + extent.bytes in
    let (last, some_bytes, within, whole) = physical-ok extent size a capacity p h in
    let (offset, bytes, skip, fits) = aligned-ok extent end a capacity p last in
    let low = mod_facts a extent.offset positive in
    let high = mod_facts a (end + (a - 1)) positive in
    (
      record {
        starts = omega (arith, low.0);
        ends = omega (arith, low.0, high.0);
        fits = fits;
        starts_aligned =
            ap (λ n. n % a) (offset ∙ align_down-mul a extent.offset)
            ∙ mul-mod_right a (extent.offset / a);
        length_aligned = rw bytes (sub-IsMultiple a (end + (a - 1)) extent.offset);
        is_tight = (omega (arith, low.0), omega (arith, low.0, high.0));
      },
      within,
      λ w. (
        omega (arith, (whole w).0),
        exact_length a extent.offset extent.bytes p.bytes positive (whole w) bytes,
      ),
    )
