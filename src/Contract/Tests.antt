-- ===== src/Contract/Tests.antt =====
-- src/execution/contract.rs: a kernel that reads one buffer and writes another.
use hrx_rs.Common.{
  ℕ, ◌%◌, ◌≡◌, ◌≤◌, ◌<◌, refl, true, false, ◌||◌, List, [], ◌∷◌, some, get_elem?, length,
}
use hrx_rs.Common.Errors.{message, ok, err}
use hrx_rs.Access.{Access, writes}
use hrx_rs.Summary.{BufferView}
use hrx_rs.Contract.{
  BindingContract, is_power, validate, view_bytes, fits, check_extents, overlaps, aliases_earlier,
  aliases, check_aliases, check,
}
use hrx_rs.Contract.Aliases.{check-safe}

abbrev view : ℕ → ℕ → BufferView
view lo hi = record {
  storage = 1;
  shared = false;
  bytes = 256;
  range = record { start = lo; end = hi };
}

abbrev contracts : List BindingContract
contracts =
    record { bytes = 64; alignment = 16; access = Access.read }
    ∷ record { bytes = 64; alignment = 16; access = Access.write }
    ∷ []

abbrev views : List BufferView
views = view 0 64 ∷ view 64 128 ∷ []

passes : check contracts views ≡ ok tt
unfolding check check_extents validate is_power fits check_aliases aliases aliases_earlier writes
passes = refl

check-safe_example :
    (length views ≡ length contracts)
    × ((i : ℕ) (v : BufferView) (b : BindingContract)
        → get_elem? views i ≡ some v
        → get_elem? contracts i ≡ some b
        → (b.bytes ≤ view_bytes v) × (v.range.start % b.alignment ≡ 0))
    × ((i j : ℕ) (v w : BufferView) (b c : BindingContract)
        → i < j
        → get_elem? views i ≡ some v
        → get_elem? contracts i ≡ some b
        → get_elem? views j ≡ some w
        → get_elem? contracts j ≡ some c
        → (writes c.access || writes b.access) ≡ true
        → overlaps w v ≡ false)
check-safe_example = check-safe contracts views passes

overlapping :
    check contracts (view 0 64 ∷ view 48 128 ∷ [])
    ≡ err (message "overlapping writable kernel arguments require an unsafe dispatch")
unfolding check check_extents validate is_power fits check_aliases aliases aliases_earlier writes
overlapping = refl

misaligned :
    check contracts (view 8 72 ∷ view 80 144 ∷ [])
    ≡ err (message "binding does not satisfy its contract")
unfolding check check_extents validate is_power fits
misaligned = refl
