-- ===== src/Contract.antt =====
-- src/execution/contract.rs: the contract of a kernel, against the views that it is given. The text of a
-- message that names a binding is left out.
pub mod Aliases
mod Tests
use hrx_rs.Common.{
  ℕ, zero, suc, ◌+◌, ◌-◌, ◌%◌, ◌^◌, Bool, true, false, ◌&&◌, ◌||◌, not, List, [], ◌∷◌, ◌++◌,
  if◌then◌else◌, ltb, ◌==◌, any, length,
}
use hrx_rs.Common.Errors.{Error, Result, ok, err, message, ◌>>=◌, ◌>>◌, refuse_if}
use hrx_rs.Access.{Access, writes}
use hrx_rs.Frontier.{Range}
use hrx_rs.Summary.{BufferView}

pub record BindingContract : Type 0 where
  pub bytes : ℕ
  pub alignment : ℕ
  pub access : Access

abbrev pub isize_max : ℕ
isize_max = 2 ^ 63 - 1

-- `usize::is_power_of_two`: one of the powers below `2 ^ width`.
unfoldable pub is_power : ℕ → ℕ → Bool
is_power zero n = false
is_power (suc width) n = (n == 2 ^ width) || is_power width n

abbrev pub is_power_of_two : ℕ → Bool
is_power_of_two n = is_power 64 n

abbrev pub is_invalid : BindingContract → Bool
is_invalid b = (b.bytes == 0) || (ltb isize_max b.bytes || not (is_power_of_two b.alignment))

-- `KernelContract::validate`
unfoldable pub validate : List BindingContract → Result (Unit {0})
validate [] = ok tt
validate (b ∷ bindings) =
    let later = validate bindings in
    if is_invalid b then err (message "invalid kernel binding extent or alignment") else later

-- `BufferView::len`
abbrev pub view_bytes : BufferView → ℕ
view_bytes v = v.range.end - v.range.start

-- `view.offset() % contract.alignment`
abbrev pub is_unfit : BufferView → BindingContract → Bool
is_unfit v b = ltb (view_bytes v) b.bytes || not (v.range.start % b.alignment == 0)

-- The loop over the views and their contracts.
unfoldable pub fits : List BufferView → List BindingContract → Result (Unit {0})
fits [] contracts = ok tt
fits (v ∷ views) [] = ok tt
fits (v ∷ views) (b ∷ contracts) =
    let later = fits views contracts in
    if is_unfit v b then err (message "binding does not satisfy its contract") else later

-- `KernelContract::check_extents`
unfoldable pub check_extents : List BindingContract → List BufferView → Result (Unit {0})
unfolding validate fits
check_extents contracts views = do
  validate contracts
  refuse_if (not (length views == length contracts)) (message "kernel binding count mismatch")
  fits views contracts

-- `BufferView::overlaps`
abbrev pub overlaps : BufferView → BufferView → Bool
overlaps a b =
    (a.storage == b.storage) && (ltb a.range.start b.range.end && ltb b.range.start a.range.end)

-- The inner loop of `check_aliases`: a view against those before it.
unfoldable pub aliases_earlier : BufferView → Access → List (BufferView × Access) → Bool
aliases_earlier a access [] = false
aliases_earlier a access ((b, other) ∷ earlier) =
    let later = aliases_earlier a access earlier in
    if overlaps a b && (writes access || writes other) then true else later

-- The outer loop, behind the views that are done.
unfoldable pub aliases : List (BufferView × Access) → List (BufferView × Access) → Result (Unit {0})
unfolding aliases_earlier
aliases earlier [] = ok tt
aliases earlier ((a, access) ∷ rest) =
    let later = aliases (earlier ++ (a, access) ∷ []) rest in
    if aliases_earlier a access earlier
    then err (message "overlapping writable kernel arguments require an unsafe dispatch")
    else later

-- Each view with the access of its contract; `check_extents` has seen to it that they are as many.
abbrev pub pair : List BindingContract → List BufferView → List (BufferView × Access)
pair [] views = []
pair (b ∷ contracts) [] = []
pair (b ∷ contracts) (v ∷ views) = (v, b.access) ∷ pair contracts views

-- `KernelContract::check_aliases`
unfoldable pub check_aliases : List BindingContract → List BufferView → Result (Unit {0})
unfolding aliases
check_aliases contracts views = aliases [] (pair contracts views)

-- `KernelContract::check`
unfoldable pub check : List BindingContract → List BufferView → Result (Unit {0})
unfolding check_extents check_aliases
check contracts views = do check_extents contracts views; check_aliases contracts views
