-- ===== src/Common/Errors.antt =====
-- src/lib.rs: `Error`, less the variants that carry values of other libraries but for `Io`, and `Result`.
use Prim.Native.String.{String}
use Prim.Native.Nat.{ℕ}
use mathlib.Core.Path.{◌≡◌, refl}
use mathlib.Core.Logic.{◌⊎◌, inl, inr}
use mathlib.Core.Bool.{Bool, true, false}
use native.Mathlib.Omega.{arith}

-- `std::io::Error`: a number of the operating system, or one of the library's kinds.
pub data IoError : Type 0 where
  os_error : ℕ → IoError
  unexpected_eof : String → IoError

pub data Error : Type 0 where
  busy : String → Error
  unsupported : String → Error
  device_lost : String → Error
  execution : (source : Error) → Error
  cancelled : Error
  message : String → Error
  io : IoError → Error
  context : String → (source : Error) → Error

pub data Result {ℓ} (A : Type ℓ) : Type ℓ where
  ok : A → Result A
  err : Error → Result A

-- The operator `?`: an error ends the function that meets it.
infixl 5 ◌>>=◌ ◌>>◌
abbrev pub ◌>>=◌ {ℓ κ} : {A : Type ℓ} {B : Type κ} → Result A → (A → Result B) → Result B
err e >>= next = err e
ok value >>= next = next value

abbrev pub ◌>>◌ {ℓ} : {B : Type ℓ} → Result (Unit {0}) → Result B → Result B
first >> second = first >>= (λ _. second)

-- `if test { return Err(e); }`
abbrev pub refuse_if : Bool → Error → Result (Unit {0})
refuse_if true e = err e
refuse_if false e = ok tt

pub Result-cases {ℓ} :
    {A : Type ℓ} (r : Result A) → ((a : A) × (r ≡ ok a)) ⊎ ((e : Error) × (r ≡ err e))
Result-cases (ok a) = inl (a, refl)
Result-cases (err e) = inr (e, refl)

-- A chain that succeeds had a first part that did.
pub bind-ok {ℓ κ} :
    {A : Type ℓ} {B : Type κ} (m : Result A) (next : A → Result B) (b : B)
    → (m >>= next) ≡ ok b
    → (a : A) × (m ≡ ok a) × (next a ≡ ok b)
bind-ok (ok a) next b h = (a, refl, h)
bind-ok (err e) next b h = absurd (ground arith)

pub refuse_if-ok {ℓ} :
    {B : Type ℓ} (test : Bool) (e : Error) (next : Result B) (b : B)
    → (refuse_if test e >> next) ≡ ok b
    → (test ≡ false) × (next ≡ ok b)
refuse_if-ok false e next b h = (refl, h)
refuse_if-ok true e next b h = absurd (ground arith)
