-- ===== src/Common/Table.antt =====
-- `std::collections::HashMap` and `BTreeMap` as association lists. The order of the list stands for
-- the order of iteration.
use Prim.Native.Nat.{suc, ◌≤◌}
use mathlib.Core.Path.{◌≡◌, refl}
use mathlib.Core.Logic.{◌≢◌, ite}
use mathlib.Core.Option.{Option, none, some}
use mathlib.Core.List.{List, [], ◌∷◌}
use native.Mathlib.Omega.{arith}
use hrx_rs.Common.Lists.{length}

module _ {K V : Type 0} (eq : Discrete K) where
  unfoldable pub find : K → List (K × V) → Option V
  find k [] = none
  find k ((j, v) ∷ m) = ite (eq j k) (some v) (find k m)

  unfoldable pub insert : K → V → List (K × V) → List (K × V)
  insert k v [] = (k, v) ∷ []
  insert k v ((j, w) ∷ m) = ite (eq j k) ((k, v) ∷ m) ((j, w) ∷ insert k v m)

  unfoldable pub remove : K → List (K × V) → List (K × V)
  remove k [] = []
  remove k ((j, w) ∷ m) = ite (eq j k) m ((j, w) ∷ remove k m)

  -- No key stands twice.
  abbrev pub Unique : List (K × V) → Type 0
  Unique [] = Unit
  Unique ((k, v) ∷ m) = (find k m ≡ none) × Unique m

  pub find-insert :
      (k j : K) (v : V) (m : List (K × V))
      → find j (insert k v m) ≡ ite (eq k j) (some v) (find j m)
  unfolding find insert
  find-insert k j v [] = refl
  find-insert k j v ((i, w) ∷ m) = ground (arith, find-insert k j v m)

  pub find-remove_ne : (k j : K) (m : List (K × V)) → k ≢ j → find j (remove k m) ≡ find j m
  unfolding find remove
  find-remove_ne k j [] h = refl
  find-remove_ne k j ((i, w) ∷ m) h = ground (arith, find-remove_ne k j m)

  pub find-remove : (k : K) (m : List (K × V)) → Unique m → find k (remove k m) ≡ none
  unfolding find remove
  find-remove k [] u = refl
  find-remove k ((i, w) ∷ m) u = ground (arith, u.0, find-remove k m u.1)

  pub length-insert_new :
      (k : K) (v : V) (m : List (K × V)) → find k m ≡ none → length (insert k v m) ≡ suc (length m)
  unfolding find insert
  length-insert_new k v [] h = refl
  length-insert_new k v ((i, w) ∷ m) h = ground (arith, length-insert_new k v m)

  pub length-insert_old :
      (k : K) (v w : V) (m : List (K × V)) → find k m ≡ some w → length (insert k v m) ≡ length m
  unfolding find insert
  length-insert_old k v w [] h = absurd (ground arith)
  length-insert_old k v w ((i, x) ∷ m) h = ground (arith, length-insert_old k v w m)

  pub length-remove :
      (k : K) (w : V) (m : List (K × V)) → find k m ≡ some w → suc (length (remove k m)) ≡ length m
  unfolding find remove
  length-remove k w [] h = absurd (ground arith)
  length-remove k w ((i, x) ∷ m) h = ground (arith, length-remove k w m)

  pub length-remove-le : (k : K) (m : List (K × V)) → length (remove k m) ≤ length m
  unfolding remove
  length-remove-le k [] = omega arith
  length-remove-le k ((i, x) ∷ m) = ground (arith, length-remove-le k m)

  pub insert-Unique : (k : K) (v : V) (m : List (K × V)) → Unique m → Unique (insert k v m)
  unfolding find insert
  insert-Unique k v [] u = (refl, tt)
  insert-Unique k v ((i, w) ∷ m) u = ground (arith, insert-Unique k v m u.1, find-insert k i v m)

  pub remove-Unique : (k : K) (m : List (K × V)) → Unique m → Unique (remove k m)
  unfolding find remove
  remove-Unique k [] u = tt
  remove-Unique k ((i, w) ∷ m) u = ground (arith, remove-Unique k m u.1, find-remove_ne k i m)
