-- ===== src/Pool/Stock.antt =====
-- src/buffer_pool.rs: the bytes of the free list, and its bound.
use hrx_rs.Common.{
  ℕ, suc, ◌+◌, ◌≡◌, ◌≤◌, ◌<◌, refl, true, false, Option, none, some, List, [], ◌∷◌, All, length,
  ◌⊎◌, arith, inl, inr, Bool-cases, subst,
}
use hrx_rs.Pool.{Block, Blocks, in_range, reuse, push}

abbrev pub sum_bytes : List Block → ℕ
sum_bytes [] = 0
sum_bytes (b ∷ stack) = b.bytes + sum_bytes stack

abbrev pub total : Blocks → ℕ
total [] = 0
total ((size, stack) ∷ m) = sum_bytes stack + total m

-- The keys ascend from `lo` on; under each stands at least one block, and all have that size.
abbrev pub Stock : ℕ → Blocks → Type 0
Stock lo [] = Unit
Stock lo ((size, stack) ∷ m) =
    (lo ≤ size)
    × (0 < length stack)
    × All (λ (b : Block). b.bytes ≡ size) stack
    × Stock (suc size) m

Stock-mono : (a b : ℕ) (m : Blocks) → a ≤ b → Stock b m → Stock a m
Stock-mono a b [] h s = tt
Stock-mono a b ((size, stack) ∷ m) h s = (omega (arith, s.0), s.1, s.2, s.3)

abbrev pub Key : ℕ → Blocks → Type 0
Key k [] = ⊥
Key k ((size, stack) ∷ m) = (k ≡ size) ⊎ Key k m

Key-above : (from k : ℕ) (m : Blocks) → Stock from m → Key k m → from ≤ k
Key-above from k [] s i = elim i [ ]
Key-above from k ((size, stack) ∷ m) s (inl e) = omega (arith, s.0)
Key-above from k ((size, stack) ∷ m) s (inr i) = omega (arith, s.0, Key-above (suc size) k m s.3 i)

-- What `reuse` takes out is the least size in the range.
pub record Taken (lo hi from : ℕ) (m : Blocks) (size : ℕ) (b : Block) (rest : Blocks) : Type 0 where
  pub bytes : b.bytes ≡ size
  pub above : from ≤ size
  pub fits : (lo ≤ size) × (size ≤ hi)
  pub balance : total m ≡ size + total rest
  pub stock : Stock from rest
  pub least : (k : ℕ) → Key k m → lo ≤ k → size ≤ k

-- A vector in front, outside the range.
skip :
    (lo hi from key : ℕ) (stack : List Block) (m : Blocks) (size : ℕ) (b : Block) (rest : Blocks)
    → Stock from ((key, stack) ∷ m)
    → in_range lo hi key ≡ false
    → Taken lo hi (suc key) m size b rest
    → Taken lo hi from ((key, stack) ∷ m) size b ((key, stack) ∷ rest)
skip lo hi from key stack m size b rest s out t = record {
  bytes = t.bytes;
  above = omega (arith, t.above, s.0);
  fits = t.fits;
  balance = omega (arith, t.balance);
  stock = (s.0, s.1, s.2, t.stock);
  least = λ k i h. elim i [
    | inl e ↦ absurd (ground (arith, out, e, t.above, t.fits.1))
    | inr later ↦ t.least k later h
  ];
}

-- The vector in front, in the range.
here-Taken :
    (lo hi from key : ℕ) (a : Block) (stack : List Block) (m : Blocks) (rest : Blocks)
    → Stock from ((key, a ∷ stack) ∷ m)
    → in_range lo hi key ≡ true
    → sum_bytes stack + total m ≡ total rest
    → Stock from rest
    → Taken lo hi from ((key, a ∷ stack) ∷ m) key a rest
here-Taken lo hi from key a stack m rest s h e r = record {
  bytes = s.2.0;
  above = s.0;
  fits = (ground arith, ground arith);
  balance = omega (arith, s.2.0);
  stock = r;
  least = λ k i h. elim i [
    | inl e ↦ omega arith
    | inr later ↦ omega (arith, Key-above (suc key) k m s.3 later)
  ];
}

ResultOf : (lo hi from : ℕ) → Blocks → Option (ℕ × Block × Blocks) → Type 0
ResultOf lo hi from m none = Unit
ResultOf lo hi from m (some (size, b, rest)) = Taken lo hi from m size b rest

-- The vector in front is out of the range.
later-ResultOf :
    (lo hi from key : ℕ) (stack : List Block) (m : Blocks) (o : Option (ℕ × Block × Blocks))
    → Stock from ((key, stack) ∷ m)
    → in_range lo hi key ≡ false
    → ResultOf lo hi (suc key) m o
    → ResultOf lo hi from
        ((key, stack) ∷ m)
        (elim o [ none ↦ none | some (s, b, rest) ↦ some (s, b, (key, stack) ∷ rest) ])
unfolding ResultOf
later-ResultOf lo hi from key stack m none s out t = tt
later-ResultOf lo hi from key stack m (some (size, b, rest)) s out t =
    skip lo hi from key stack m size b rest s out t

reuse-ResultOf :
    (lo hi from : ℕ) (m : Blocks) → Stock from m → ResultOf lo hi from m (reuse lo hi m)
unfolding reuse ResultOf
reuse-ResultOf lo hi from [] s = tt
reuse-ResultOf lo hi from ((key, []) ∷ m) s = absurd (omega (arith, s.1))
reuse-ResultOf lo hi from ((key, a ∷ []) ∷ m) s =
    let later = later-ResultOf lo hi from key (a ∷ []) m (reuse lo hi m) s in
    elim (Bool-cases (in_range lo hi key)) [
      | inl here ↦ rw here (
          here-Taken lo hi from key a [] m m s here (omega arith)
            (Stock-mono from (suc key) m (omega (arith, s.0)) s.3))
      | inr not_here ↦ rw not_here (later not_here (reuse-ResultOf lo hi (suc key) m s.3))
    ]
reuse-ResultOf lo hi from ((key, a ∷ c ∷ stack) ∷ m) s =
    let later = later-ResultOf lo hi from key (a ∷ c ∷ stack) m (reuse lo hi m) s in
    elim (Bool-cases (in_range lo hi key)) [
      | inl here ↦ rw here (
          here-Taken lo hi from key a (c ∷ stack) m ((key, c ∷ stack) ∷ m) s here refl
            (s.0, omega arith, s.2.1, s.3))
      | inr not_here ↦ rw not_here (later not_here (reuse-ResultOf lo hi (suc key) m s.3))
    ]

pub reuse-Taken :
    (lo hi from : ℕ) (m : Blocks) (size : ℕ) (b : Block) (rest : Blocks)
    → Stock from m
    → reuse lo hi m ≡ some (size, b, rest)
    → Taken lo hi from m size b rest
unfolding ResultOf
reuse-Taken lo hi from m size b rest s h =
    subst (λ o. ResultOf lo hi from m o) h (reuse-ResultOf lo hi from m s)

pub push-Stock :
    (from : ℕ) (b : Block) (m : Blocks) → from ≤ b.bytes → Stock from m → Stock from (push b m)
unfolding push
push-Stock from b [] h s = (h, omega arith, (refl, tt), tt)
push-Stock from b ((size, stack) ∷ m) h s =
    ground (arith, push-Stock (suc size) b m, s, Stock-mono (suc b.bytes) size ((size, stack) ∷ m))

pub total-push : (b : Block) (m : Blocks) → total (push b m) ≡ b.bytes + total m
unfolding push
total-push b [] = omega arith
total-push b ((size, stack) ∷ m) = ground (arith, total-push b m)

-- A block just pushed is the first one of its size or more.
pub reuse-push :
    (from hi : ℕ) (b : Block) (m : Blocks)
    → Stock from m
    → b.bytes ≤ hi
    → reuse b.bytes hi (push b m) ≡ some (b.bytes, b, m)
unfolding reuse push
reuse-push from hi b [] s h = ground arith
reuse-push from hi b ((size, []) ∷ m) s h = absurd (omega (arith, s.1))
reuse-push from hi b ((size, a ∷ []) ∷ m) s h = ground (arith, reuse-push (suc size) hi b m s.3 h)
reuse-push from hi b ((size, a ∷ c ∷ stack) ∷ m) s h =
    ground (arith, reuse-push (suc size) hi b m s.3 h)
