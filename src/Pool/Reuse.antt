-- ===== src/Pool/Reuse.antt =====
-- src/buffer_pool.rs: what a caller of the pool can rely on.
use hrx_rs.Common.{
  ℕ, ◌+◌, ◌-◌, ◌*◌, ◌^◌, ◌≡◌, ◌≤◌, ◌<◌, ◌≢◌, refl, false, none, some, ltb, ◌==◌, arith, ◌⊎◌, inl,
  inr, Bool-cases, Option-cases, ◌∙◌, ap,
}
use hrx_rs.Common.Errors.{Result, ok, Result-cases}
use hrx_rs.Pool.{
  Block, Blocks, Pool, with_limit, saturating_mul, reuse, claim, acquire, push, release,
}
use hrx_rs.Pool.Stock.{Stock, total, Key, reuse-Taken, push-Stock, total-push, reuse-push}

pub data Step (p : Pool) : Pool → Type 0 where
  acquires :
      (stream bytes : ℕ) (allocated : Result Block) → Step p (acquire p stream bytes allocated).0
  releases : (b : Block) → Step p (release p b)

pub data Reach (limit : ℕ) : Pool → Type 0 where
  start : Reach limit (with_limit limit)
  later : {p q : Pool} → Reach limit p → Step p q → Reach limit q

pub record IsBounded (limit : ℕ) (p : Pool) : Type 0 where
  pub same_limit : p.limit ≡ limit
  pub balance : p.cached ≡ total p.blocks
  pub bound : p.cached ≤ limit
  pub stock : Stock 0 p.blocks

claim_parts :
    (p q : Pool) (stream : ℕ)
    → claim p stream ≡ ok q
    → (q.limit ≡ p.limit) × (q.cached ≡ p.cached) × (q.blocks ≡ p.blocks)
unfolding claim
claim_parts p q stream h = elim (Option-cases p.stream) [
  | inl e ↦ ground arith
  | inr (owner, e) ↦ ground arith
]

claim-IsBounded :
    (limit : ℕ) (p q : Pool) (stream : ℕ)
    → claim p stream ≡ ok q
    → IsBounded limit p
    → IsBounded limit q
claim-IsBounded limit p q stream h v =
    let (e, f, g) = claim_parts p q stream h in
    record {
      same_limit = e ∙ v.same_limit;
      balance = rw (f, g) v.balance;
      bound = rw f v.bound;
      stock = rw g v.stock;
    }

taken-IsBounded :
    (limit bytes hi size : ℕ) (p : Pool) (b : Block) (rest : Blocks)
    → IsBounded limit p
    → reuse bytes hi p.blocks ≡ some (size, b, rest)
    → IsBounded limit (record p { cached = p.cached - size; blocks = rest })
taken-IsBounded limit bytes hi size p b rest v h =
    let t = reuse-Taken bytes hi 0 p.blocks size b rest v.stock h in
    record {
      same_limit = v.same_limit;
      balance = omega (arith, v.balance, t.balance);
      bound = omega (arith, v.bound);
      stock = t.stock;
    }

acquire-IsBounded :
    (limit : ℕ) (p : Pool) (stream bytes : ℕ) (allocated : Result Block)
    → IsBounded limit p
    → IsBounded limit (acquire p stream bytes allocated).0
unfolding acquire
acquire-IsBounded limit p stream bytes allocated v = elim (Bool-cases (bytes == 0)) [
  | inl empty ↦ rw (empty, acquire) v
  | inr some_bytes ↦ elim (Result-cases (claim p stream)) [
    | inr (e, other) ↦ rw (some_bytes, other, acquire) v
    | inl (q, mine) ↦
        let u = claim-IsBounded limit p q stream mine v in
        elim (Option-cases (reuse bytes (saturating_mul bytes 2) q.blocks)) [
          | inl nothing ↦ rw (some_bytes, mine, nothing, acquire) u
          | inr ((size, b, rest), found) ↦
              rw (some_bytes, mine, found, acquire)
                (taken-IsBounded limit bytes (saturating_mul bytes 2) size q b rest u found)
        ]
  ]
]

release-IsBounded :
    (limit : ℕ) (p : Pool) (b : Block) → IsBounded limit p → IsBounded limit (release p b)
unfolding release
release-IsBounded limit p b v = elim (Bool-cases (ltb (p.limit - p.cached) b.bytes)) [
  | inl full ↦ rw (full, release) v
  | inr room ↦
      rw (room, release)
        (record {
          same_limit = v.same_limit;
          balance = omega (arith, v.balance, total-push b p.blocks);
          bound = ground (arith, v.bound, v.same_limit);
          stock = push-Stock 0 b p.blocks (omega arith) v.stock;
        })
]

Step-IsBounded : (limit : ℕ) {p q : Pool} → Step p q → IsBounded limit p → IsBounded limit q
Step-IsBounded limit {p} (acquires stream bytes allocated) v =
    acquire-IsBounded limit p stream bytes allocated v
Step-IsBounded limit {p} (releases b) v = release-IsBounded limit p b v

-- In every state that acquisitions and releases can bring about, the retained bytes are those of the
-- blocks on the free list and at most the limit, and under each key stand only blocks of that size.
pub Reach-IsBounded : {limit : ℕ} {p : Pool} → Reach limit p → IsBounded limit p
Reach-IsBounded {limit} start = record {
  same_limit = refl;
  balance = refl;
  bound = omega arith;
  stock = tt;
}
Reach-IsBounded {limit} (later r st) = Step-IsBounded limit st (Reach-IsBounded r)

reused :
    (p : Pool) (stream bytes : ℕ) (allocated : Result Block) (b : Block)
    → (acquire p stream bytes allocated).1 ≡ ok b
    → allocated ≢ ok b
    → (size : ℕ) × (q : Pool) × (rest : Blocks) × (claim p stream ≡ ok q)
      × (reuse bytes (saturating_mul bytes 2) q.blocks ≡ some (size, b, rest))
      × ((acquire p stream bytes allocated).0.cached ≡ q.cached - size)
unfolding acquire
reused p stream bytes allocated b h other = elim (Result-cases (claim p stream)) [
  | inr (e, foreign) ↦ absurd (ground arith)
  | inl (q, mine) ↦ elim (Option-cases (reuse bytes (saturating_mul bytes 2) q.blocks)) [
    | inl nothing ↦ absurd (ground arith)
    | inr ((size, c, rest), found) ↦
        let same : c ≡ b = ground arith in (size, q, rest, mine, rw same at found, ground arith)
  ]
]

-- A block that comes from the free list has at least the requested bytes and at most twice as many,
-- no block that would do is smaller, and its bytes are no longer counted as retained.
pub acquire-fits :
    {limit : ℕ} {p : Pool} (stream bytes : ℕ) (allocated : Result Block) (b : Block)
    → Reach limit p
    → (acquire p stream bytes allocated).1 ≡ ok b
    → allocated ≢ ok b
    → (bytes ≤ b.bytes)
      × (b.bytes ≤ bytes * 2)
      × ((k : ℕ) → Key k p.blocks → bytes ≤ k → b.bytes ≤ k)
      × ((acquire p stream bytes allocated).0.cached + b.bytes ≡ p.cached)
acquire-fits {limit} {p} stream bytes allocated b r h other =
    let (size, q, rest, mine, found, cached) = reused p stream bytes allocated b h other in
    let v = Reach-IsBounded r in
    let (e, f, g) = claim_parts p q stream mine in
    let t =
      reuse-Taken bytes (saturating_mul bytes 2) 0 p.blocks size b rest v.stock (rw g at found) in
    (
      omega (arith, t.fits, t.bytes),
      ground (arith, t.fits.1, t.bytes),
      λ k i lt. omega (arith, t.least k i lt, t.bytes),
      omega (arith, cached, f, t.bytes, t.balance, v.balance),
    )

takes :
    (p q : Pool) (stream bytes size : ℕ) (allocated : Result Block) (b : Block) (rest : Blocks)
    → (bytes == 0) ≡ false
    → claim p stream ≡ ok q
    → reuse bytes (saturating_mul bytes 2) q.blocks ≡ some (size, b, rest)
    → acquire p stream bytes allocated
      ≡ (record q { cached = q.cached - size; blocks = rest }, ok b)
unfolding acquire
takes p q stream bytes size allocated b rest pos mine found = rw (pos, mine, found, acquire) refl

claims :
    (p : Pool) (stream : ℕ)
    → (p.stream ≡ none) ⊎ (p.stream ≡ some stream)
    → claim p stream ≡ ok (record p { stream = some stream })
unfolding claim
claims p stream (inl free) = rw (free, claim) refl
claims p stream (inr mine) = ground (arith, ap (λ o. ok (record p { stream = o })) mine)

releases_room :
    (p : Pool) (b : Block)
    → ltb (p.limit - p.cached) b.bytes ≡ false
    → release p b ≡ record p { cached = p.cached + b.bytes; blocks = push b p.blocks }
unfolding release
releases_room p b room = rw (room, release) refl

-- In every reachable pool that serves no stream yet or the stream of the request: a block of at least one
-- byte and less than 2^64, that the pool has room for, is the one that the next request for its size
-- gets, and the pool is then as it was, but for the stream that it serves from then on.
pub release-acquire :
    {limit : ℕ} {p : Pool} (stream : ℕ) (allocated : Result Block) (b : Block)
    → Reach limit p
    → (p.stream ≡ none) ⊎ (p.stream ≡ some stream)
    → 0 < b.bytes
    → b.bytes < 2 ^ 64
    → p.cached + b.bytes ≤ limit
    → acquire (release p b) stream b.bytes allocated ≡ (record p { stream = some stream }, ok b)
release-acquire {limit} {p} stream allocated b r s pos fits room =
    let v = Reach-IsBounded r in
    let held : Pool = record p { cached = p.cached + b.bytes; blocks = push b p.blocks } in
    ap (λ q. acquire q stream b.bytes allocated) (releases_room p b (ground (arith, v.same_limit)))
    ∙ takes held (record held { stream = some stream }) stream b.bytes b.bytes allocated b p.blocks
        (ground arith) (claims held stream s)
        (reuse-push 0 (saturating_mul b.bytes 2) b p.blocks v.stock (ground arith))
    ∙ ap (λ c. (record p { cached = c; stream = some stream }, ok b)) (omega arith)
