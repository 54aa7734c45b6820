-- ===== src/Storage.antt =====
-- src/storage/mod.rs: the extents of a storage session, its payload slots and the admission of requests.
-- A request is named by its slot.
pub mod Extents
pub mod Chunks
pub mod Session
pub mod Service
pub mod Steps
pub mod Cells
pub mod Exclusion
pub mod Preservation
pub mod Admission
pub mod Slots
pub mod Progress
pub mod Tracking
pub mod Retries
pub mod Execution
mod Tests
use Prim.Native.String.{String}
use hrx_rs.Common.{
  ℕ, zero, suc, ◌+◌, ◌-◌, ◌*◌, ◌%◌, max, Bool, true, false, ◌&&◌, ◌||◌, not, Option, none, some,
  List, [], ◌∷◌, ◌++◌, if◌then◌else◌, ltb, ◌==◌, get_elem?, set, length,
}
use hrx_rs.Common.Errors.{
  Error, busy, message, execution, cancelled, Result, ok, err, refuse_if, ◌>>=◌, ◌>>◌,
}
use hrx_rs.Tensor.{checked_add, ok_or}

-- A file, as far as the queue reads it: `identity` is the device and the inode.
pub record RegisteredFile : Type 0 where
  pub bytes : ℕ
  pub alignment : ℕ
  pub writable : Bool
  pub readable : Bool
  pub identity : ℕ × ℕ

pub record Extent : Type 0 where
  pub file : ℕ
  pub offset : ℕ
  pub bytes : ℕ
  pub writing : Bool

pub record Physical : Type 0 where
  pub offset : ℕ
  pub bytes : ℕ
  pub skip : ℕ

-- `value & !mask`, where the alignment is a power of two.
abbrev pub align_down : ℕ → ℕ → ℕ
align_down alignment value = value - value % alignment

-- `value & mask != 0`
abbrev pub is_ragged : ℕ → ℕ → Bool
is_ragged alignment value = not (value % alignment == 0)

abbrev pub exceeds : Extent → ℕ → ℕ → ℕ → Bool
exceeds extent end size capacity =
    (extent.bytes == 0) || (ltb capacity extent.bytes || (not extent.writing && ltb size end))

abbrev pub is_unaligned : Extent → ℕ → Bool
is_unaligned extent alignment =
    extent.writing && (is_ragged alignment extent.offset || is_ragged alignment extent.bytes)

-- The part of `physical` from the end of the extent on.
unfoldable pub aligned : Extent → ℕ → ℕ → ℕ → Result Physical
aligned extent end alignment capacity =
    let offset = align_down alignment extent.offset in
    ok_or (checked_add end (alignment - 1)) (message "aligned extent overflow") >>= λ padded.
    let bytes = align_down alignment padded - offset in
    refuse_if (ltb capacity bytes) (message "aligned read exceeds payload slot")
    >> ok (record { offset = offset; bytes = bytes; skip = extent.offset - offset })

unfoldable pub physical : Extent → ℕ → ℕ → ℕ → Result Physical
unfolding aligned
physical extent size alignment capacity =
    ok_or (checked_add extent.offset extent.bytes) (message "file extent overflow") >>= λ end.
    refuse_if (exceeds extent end size capacity)
      (message "file extent exceeds its file or payload slot")
    >> (refuse_if (is_unaligned extent alignment)
          (message "direct writes require aligned file offsets and lengths")
        >> aligned extent end alignment capacity)

-- `files.iter().map(|f| f.alignment).max()`
abbrev pub max_alignment : List RegisteredFile → Option ℕ
max_alignment [] = none
max_alignment (f ∷ files) = elim (max_alignment files) [
  | none ↦ some f.alignment
  | some a ↦ some (max f.alignment a)
]

-- `StorageSession::read_chunk_bytes`
unfoldable pub read_chunk_bytes : List RegisteredFile → ℕ → ℕ
read_chunk_bytes files slot_bytes =
    slot_bytes - ((elim (max_alignment files) [ none ↦ 1 | some a ↦ a ]) - 1)
