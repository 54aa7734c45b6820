-- ===== src/Gpu/Views.antt =====
-- src/runtime.rs: views of a buffer and their slices. The text of the message is left out.
use hrx_rs.Common.{
  ℕ, ◌+◌, ◌^◌, ◌≡◌, ◌≤◌, ◌<◌, refl, sym, ap, ◌∙◌, Bool, ◌||◌, ltb, arith, Bool-cases, inl, inr,
}
use hrx_rs.Common.Errors.{message, Result, ok, ◌>>◌, refuse_if}
use hrx_rs.Access.{Access}
use hrx_rs.Gpu.Recording.{Buffer, View}
use hrx_rs.Gpu.AccessGraph.{to_use, view_access, usize_max}

-- `offset.checked_add(length).is_none_or(|end| end > capacity)`
abbrev pub is_outside : ℕ → ℕ → ℕ → Bool
is_outside offset length capacity =
    ltb usize_max (offset + length) || ltb capacity (offset + length)

-- `checked_span`
unfoldable pub checked_span : ℕ → ℕ → ℕ → Result (Unit {0})
checked_span offset length capacity =
    refuse_if (is_outside offset length capacity) (message "span exceeds the bytes")

-- `Buffer::binding`
abbrev pub binding : Buffer → View
binding b = record { owner = b; offset = 0; length = b.bytes }

-- `View::slice`
unfoldable pub slice : View → ℕ → ℕ → Result View
unfolding checked_span
slice v offset length = do
  checked_span offset length v.length
  ok (record v { offset = v.offset + offset; length = length })

-- `Buffer::try_slice`
abbrev pub try_slice : Buffer → ℕ → ℕ → Result View
try_slice b offset length = slice (binding b) offset length

-- The views that can be had of a buffer.
pub data Derived (b : Buffer) : View → Type 0 where
  whole : Derived b (binding b)
  sliced :
      {v w : View} (offset length : ℕ) → Derived b v → slice v offset length ≡ ok w → Derived b w

pub record Inside (b : Buffer) (v : View) : Type 0 where
  pub of_buffer : v.owner ≡ b
  pub bound : v.offset + v.length ≤ b.bytes

slice-Inside :
    (b : Buffer) (v w : View) (offset length : ℕ)
    → Inside b v
    → slice v offset length ≡ ok w
    → Inside b w
unfolding slice checked_span
slice-Inside b v w offset length i h = elim (Bool-cases (is_outside offset length v.length)) [
  | inl outside ↦ absurd (ground arith)
  | inr inside ↦
      let made : ◌≡◌ {A = View} (record v { offset = v.offset + offset; length = length }) w =
        ground arith in
      record {
        of_buffer = sym (ap (λ (x : View). x.owner) made) ∙ i.of_buffer;
        bound = ground (
          arith,
          i.bound,
          inside,
          ap (λ (x : View). x.offset) made,
          ap (λ (x : View). x.length) made,
        );
      }
]

Derived-Inside : {b : Buffer} {v : View} → Derived b v → Inside b v
Derived-Inside whole = record { of_buffer = refl; bound = omega arith }
Derived-Inside {b} {v = w} (sliced {v} offset length d h) =
    slice-Inside b v w offset length (Derived-Inside d) h

-- Every view that slices make of a buffer lies inside the buffer, and the range that an operation
-- declares for it is the range of its bytes, without saturation.
pub Derived-range :
    {b : Buffer} {v : View} (access : Access)
    → Derived b v
    → b.bytes < 2 ^ 64
    → (v.owner ≡ b)
      × ((to_use (view_access v access)).range.start ≡ v.offset)
      × ((to_use (view_access v access)).range.end ≡ v.offset + v.length)
      × (v.offset + v.length ≤ b.bytes)
Derived-range access d small =
    let i = Derived-Inside d in (i.of_buffer, refl, omega (arith, i.bound), i.bound)
