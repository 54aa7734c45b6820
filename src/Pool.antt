-- ===== src/Pool.antt =====
-- src/buffer_pool.rs: the free list of device buffers on one ordered stream. The lock makes each
-- operation one step.
pub mod Stock
pub mod Reuse
mod Tests
use hrx_rs.Common.{
  ℕ, suc, ◌+◌, ◌-◌, ◌*◌, ◌^◌, Bool, ◌&&◌, Option, none, some, List, [], ◌∷◌, if◌then◌else◌, leb,
  ltb, ◌==◌, not, min,
}
use hrx_rs.Common.Errors.{Error, message, Result, ok, err}

-- A device buffer: which one it is, and its size.
pub record Block : Type 0 where
  pub id : ℕ
  pub bytes : ℕ

-- `BTreeMap<usize, Vec<Buffer>>`, in the order of the keys. The end of a vector, where `push` and
-- `pop` work, is the front of its list.
abbrev pub Blocks : Type 0
Blocks = List (ℕ × List Block)

pub record Pool : Type 0 where
  pub limit : ℕ
  pub cached : ℕ
  pub blocks : Blocks
  pub stream : Option ℕ

-- `BufferPool::with_limit`
abbrev pub with_limit : ℕ → Pool
with_limit limit = record { limit = limit; cached = 0; blocks = []; stream = none }

abbrev pub saturating_mul : ℕ → ℕ → ℕ
saturating_mul a b = min (a * b) (2 ^ 64 - 1)

abbrev pub in_range : ℕ → ℕ → ℕ → Bool
in_range lo hi size = leb lo size && leb size hi

-- The first vector in the range, less its last block; it goes when it becomes empty. An empty
-- vector yields nothing, and no later one is tried.
unfoldable pub reuse : ℕ → ℕ → Blocks → Option (ℕ × Block × Blocks)
reuse lo hi [] = none
reuse lo hi ((size, []) ∷ m) =
    let later = reuse lo hi m in
    if in_range lo hi size
    then none
    else elim later [ none ↦ none | some (s, b, rest) ↦ some (s, b, (size, []) ∷ rest) ]
reuse lo hi ((size, b ∷ []) ∷ m) =
    let later = reuse lo hi m in
    if in_range lo hi size
    then some (size, b, m)
    else elim later [ none ↦ none | some (s, c, rest) ↦ some (s, c, (size, b ∷ []) ∷ rest) ]
reuse lo hi ((size, b ∷ a ∷ stack) ∷ m) =
    let later = reuse lo hi m in
    if in_range lo hi size
    then some (size, b, (size, a ∷ stack) ∷ m)
    else elim later [ none ↦ none | some (s, c, rest) ↦ some (s, c, (size, b ∷ a ∷ stack) ∷ rest) ]

-- `match free.stream`
unfoldable pub claim : Pool → ℕ → Result Pool
claim p stream = elim p.stream [
  | none ↦ ok (record p { stream = some stream })
  | some owner ↦
      if not (owner == stream)
      then err (message "a buffer pool serves one stream because reuse follows that queue's order")
      else ok p
]

-- `acquire`. The last argument is what the stream's allocation of that many bytes returns.
unfoldable pub acquire : Pool → ℕ → ℕ → Result Block → Pool × Result Block
unfolding claim reuse
acquire p stream bytes allocated =
    if bytes == 0 then (p, err (message "empty pooled allocation")) else elim (claim p stream) [
      | err e ↦ (p, err e)
      | ok free ↦ elim (reuse bytes (saturating_mul bytes 2) free.blocks) [
        | none ↦ (free, allocated)
        | some (size, buffer, rest) ↦
            (record free { cached = free.cached - size; blocks = rest }, ok buffer)
      ]
    ]

-- `entry(bytes).or_default().push(buffer)`
unfoldable pub push : Block → Blocks → Blocks
push b [] = (b.bytes, b ∷ []) ∷ []
push b ((size, stack) ∷ m) =
    let later = push b m in
    if ltb b.bytes size
    then (b.bytes, b ∷ []) ∷ (size, stack) ∷ m
    else if size == b.bytes
    then (size, b ∷ stack) ∷ m
    else (size, stack) ∷ later

unfoldable pub release : Pool → Block → Pool
unfolding push
release p b =
    if ltb (p.limit - p.cached) b.bytes
    then p
    else record p { cached = p.cached + b.bytes; blocks = push b p.blocks }

-- `cached_bytes`
unfoldable pub cached_bytes : Pool → ℕ
cached_bytes p = p.cached
