-- ===== src/Common/Sets.antt =====
-- `BTreeSet<usize>`: strictly ascending lists.
use Prim.Native.Nat.{ℕ, suc, ◌≤◌}
use mathlib.Core.Path.{◌≡◌}
use mathlib.Core.Bool.{Bool, true, false, ◌||◌}
use mathlib.Core.List.{List, [], ◌∷◌}
use mathlib.Core.Option.{Option, none, some}
use native.Mathlib.Omega.{arith}
use hrx_rs.Common.Tests.{ltb, ◌==◌, if◌then◌else◌}

unfoldable pub contains : ℕ → List ℕ → Bool
contains x [] = false
contains x (y ∷ ys) = if x == y then true else contains x ys

unfoldable pub insert : ℕ → List ℕ → List ℕ
insert x [] = x ∷ []
insert x (y ∷ ys) = if ltb x y then x ∷ y ∷ ys else if x == y then y ∷ ys else y ∷ insert x ys

-- `s.append(&mut xs)` and `s.extend(xs)`: every element of `xs` goes into `s`.
unfoldable pub extend : List ℕ → List ℕ → List ℕ
unfolding insert
extend s [] = s
extend s (x ∷ xs) = extend (insert x s) xs

-- `s.extend(o)` at an `Option`.
unfoldable pub extend_option : List ℕ → Option ℕ → List ℕ
unfolding insert
extend_option s none = s
extend_option s (some x) = insert x s

unfoldable pub remove : ℕ → List ℕ → List ℕ
remove x [] = []
remove x (y ∷ ys) = if x == y then remove x ys else y ∷ remove x ys

-- Strictly ascending, from `lo` on.
abbrev pub Ascending : ℕ → List ℕ → Type 0
Ascending lo [] = Unit
Ascending lo (x ∷ xs) = (lo ≤ x) × Ascending (suc x) xs

pub contains-insert : (x y : ℕ) (s : List ℕ) → contains x (insert y s) ≡ ((x == y) || contains x s)
unfolding contains insert
contains-insert x y [] = ground arith
contains-insert x y (z ∷ s) = ground (arith, contains-insert x y s)

pub contains-extend :
    (x : ℕ) (s xs : List ℕ) → contains x (extend s xs) ≡ (contains x s || contains x xs)
unfolding contains extend
contains-extend x s [] = ground arith
contains-extend x s (y ∷ xs) =
    ground (arith, contains-extend x (insert y s) xs, contains-insert x y s)

pub contains-remove :
    (x y : ℕ) (s : List ℕ) → contains x (remove y s) ≡ (if x == y then false else contains x s)
unfolding contains remove
contains-remove x y [] = ground arith
contains-remove x y (z ∷ s) = ground (arith, contains-remove x y s)

Ascending-mono : {a b : ℕ} (s : List ℕ) → a ≤ b → Ascending b s → Ascending a s
Ascending-mono [] h asc = tt
Ascending-mono (x ∷ s) h asc = (omega arith, asc.1)

insert-Ascending : (lo x : ℕ) (s : List ℕ) → lo ≤ x → Ascending lo s → Ascending lo (insert x s)
unfolding insert
insert-Ascending lo x [] h asc = (h, tt)
insert-Ascending lo x (y ∷ s) h asc = ground (arith, insert-Ascending (suc y) x s)

pub extend-Ascending : (s xs : List ℕ) → Ascending 0 s → Ascending 0 (extend s xs)
unfolding extend
extend-Ascending s [] asc = asc
extend-Ascending s (x ∷ xs) asc =
    extend-Ascending (insert x s) xs (insert-Ascending 0 x s (omega arith) asc)

pub insert_zero-Ascending : (x : ℕ) (s : List ℕ) → Ascending 0 s → Ascending 0 (insert x s)
insert_zero-Ascending x s asc = insert-Ascending 0 x s (omega arith) asc

remove_from-Ascending : (lo x : ℕ) (s : List ℕ) → Ascending lo s → Ascending lo (remove x s)
unfolding remove
remove_from-Ascending lo x [] asc = tt
remove_from-Ascending lo x (y ∷ s) asc = ground (
  arith,
  remove_from-Ascending (suc y) x s asc.1,
  Ascending-mono {a = lo} {b = suc y} (remove x s),
)

pub remove-Ascending : (x : ℕ) (s : List ℕ) → Ascending 0 s → Ascending 0 (remove x s)
remove-Ascending x s asc = remove_from-Ascending 0 x s asc
