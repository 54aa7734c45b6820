-- ===== src/Storage/Chunks.antt =====
-- src/storage/mod.rs: a read of at most `read_chunk_bytes` fits a payload slot, whatever its padding.
use native.Mathlib.Nat.{mul-add}
use hrx_rs.Common.{
  ℕ, ◌+◌, ◌-◌, ◌/◌, ◌%◌, ◌^◌, ◌≤◌, ◌<◌, ◌≡◌, refl, false, some, inl, inr, List, [], ◌∷◌, In, ltb,
  arith, Option-cases, max,
}
use hrx_rs.Common.Errors.{ok}
use hrx_rs.Tensor.{usize_max}
use hrx_rs.Storage.{
  RegisteredFile, Extent, Physical, align_down, exceeds, is_unaligned, aligned, physical,
  max_alignment, read_chunk_bytes,
}
use hrx_rs.Storage.Extents.{mod_facts, le_of_close}

max_alignment-le :
    (files : List RegisteredFile) (f : RegisteredFile)
    → In f files
    → (m : ℕ) × (max_alignment files ≡ some m) × (f.alignment ≤ m)
max_alignment-le [] f m = elim m [ ]
max_alignment-le (g ∷ files) f (inl e) = elim (Option-cases (max_alignment files)) [
  | inl none_left ↦ (f.alignment, rw none_left (rw e refl), omega arith)
  | inr (a, found) ↦ (max f.alignment a, rw found (rw e refl), omega arith)
]
max_alignment-le (g ∷ files) f (inr later) =
    let (a, found, le) = max_alignment-le files f later in
    (max g.alignment a, rw found refl, omega arith)

read_chunk_bytes-le :
    (files : List RegisteredFile) (f : RegisteredFile) (slot_bytes bytes : ℕ)
    → In f files
    → 0 < bytes
    → bytes ≤ read_chunk_bytes files slot_bytes
    → bytes + (f.alignment - 1) ≤ slot_bytes
unfolding read_chunk_bytes
read_chunk_bytes-le files f slot_bytes bytes member positive h =
    let (m, found, le) = max_alignment-le files f member in
    let bound : bytes ≤ slot_bytes - (m - 1) = rw found at h in omega arith

-- The padding of an extent that leaves room for it.
padded_fits :
    (offset bytes a capacity : ℕ)
    → 0 < a
    → capacity % a ≡ 0
    → bytes + (a - 1) ≤ capacity
    → align_down a (offset + bytes + (a - 1)) - align_down a offset ≤ capacity
padded_fits offset bytes a capacity positive multiple room =
    let low = mod_facts a offset positive in
    let high = mod_facts a (offset + bytes + (a - 1)) positive in
    let slot = mod_facts a capacity positive in
    let sum = mul-add a (offset / a) (capacity / a) in
    let close =
      le_of_close a ((offset + bytes + (a - 1)) / a) (offset / a + capacity / a)
        (omega (arith, low.0, low.1, high.0, slot.0, sum)) in
    omega (arith, low.0, high.0, slot.0, sum, close)

physical-fits :
    (extent : Extent) (size a capacity : ℕ)
    → exceeds extent (extent.offset + extent.bytes) size capacity ≡ false
    → is_unaligned extent a ≡ false
    → extent.offset + extent.bytes ≤ usize_max
    → extent.offset + extent.bytes + (a - 1) ≤ usize_max
    → align_down a (extent.offset + extent.bytes + (a - 1)) - align_down a extent.offset ≤ capacity
    → (p : Physical) × (physical extent size a capacity ≡ ok p)
unfolding physical aligned
physical-fits extent size a capacity inside whole first second fits =
    let end = extent.offset + extent.bytes in
    let sum : ltb usize_max end ≡ false = ground arith in
    let padded : ltb usize_max (end + (a - 1)) ≡ false = ground arith in
    let room : ltb capacity (align_down a (end + (a - 1)) - align_down a extent.offset) ≡ false =
      ground arith in
    (
      record {
        offset = align_down a extent.offset;
        bytes = align_down a (end + (a - 1)) - align_down a extent.offset;
        skip = extent.offset - align_down a extent.offset;
      },
      rw sum (rw inside (rw whole (rw padded (rw room refl)))),
    )

-- A read of at least one byte within its file, not longer than the chunk of the session, is accepted by
-- `physical` for each file of the session, if the file's alignment is above 0, the slot size is a
-- multiple of it and rounding the file's size up does not leave 64 bits.
pub read_chunk_fits :
    (files : List RegisteredFile) (f : RegisteredFile) (slot_bytes : ℕ) (extent : Extent)
    → In f files
    → 0 < f.alignment
    → slot_bytes % f.alignment ≡ 0
    → extent.writing ≡ false
    → 0 < extent.bytes
    → extent.bytes ≤ read_chunk_bytes files slot_bytes
    → extent.offset + extent.bytes ≤ f.bytes
    → f.bytes + f.alignment ≤ 2 ^ 64
    → (p : Physical) × (physical extent f.bytes f.alignment slot_bytes ≡ ok p)
read_chunk_fits files f slot_bytes extent member positive multiple reading some_bytes small within
      no_overflow =
    let room = read_chunk_bytes-le files f slot_bytes extent.bytes member some_bytes small in
    let fits =
      padded_fits extent.offset extent.bytes f.alignment slot_bytes positive multiple room in
    physical-fits extent f.bytes f.alignment slot_bytes (ground arith) (rw reading refl)
      (ground arith) (ground arith) fits
