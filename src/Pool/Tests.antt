-- ===== src/Pool/Tests.antt =====
-- src/buffer_pool.rs: a pool of 100 bytes, on concrete requests.
use hrx_rs.Common.{◌≡◌, refl, inl, none, some, [], ◌∷◌, arith}
use hrx_rs.Common.Errors.{message, ok, err}
use hrx_rs.Pool.{Block, Pool, reuse, claim, acquire, push, release, cached_bytes}
use hrx_rs.Pool.Reuse.{releases, Reach, start, later, IsBounded, Reach-IsBounded, release-acquire}

abbrev small : Block
small = record { id = 1; bytes = 40 }

abbrev other : Block
other = record { id = 2; bytes = 50 }

abbrev fresh : Block
fresh = record { id = 3; bytes = 30 }

abbrev two_blocks : Pool
two_blocks = record {
  limit = 100;
  cached = 90;
  blocks = (40, small ∷ []) ∷ (50, other ∷ []) ∷ [];
  stream = none;
}

Reach-two : Reach 100 two_blocks
unfolding release push
Reach-two = later (later start (releases other)) (releases small)

Reach-IsBounded_example : IsBounded 100 two_blocks
Reach-IsBounded_example = Reach-IsBounded Reach-two

takes_small : (acquire two_blocks 7 30 (ok fresh)).1 ≡ ok small
unfolding acquire claim reuse
takes_small = refl

-- A third block of 10 bytes still fits.
abbrev tiny : Block
tiny = record { id = 4; bytes = 10 }

release-acquire_example :
    acquire (release two_blocks tiny) 7 10 (ok fresh)
    ≡ (record two_blocks { stream = some 7 }, ok tiny)
release-acquire_example =
    release-acquire 7 (ok fresh) tiny Reach-two (inl refl) (omega arith) (omega arith) (omega arith)

-- A block that the limit has no room for is not kept, and another stream is refused.
not_kept : release two_blocks fresh ≡ two_blocks
unfolding release push
not_kept = refl

refused :
    (acquire (record two_blocks { stream = some 7 }) 8 30 (ok fresh)).1
    ≡ err (message "a buffer pool serves one stream because reuse follows that queue's order")
unfolding acquire claim
refused = refl

retained : cached_bytes (acquire two_blocks 7 30 (ok fresh)).0 ≡ 50
unfolding cached_bytes acquire claim reuse
retained = refl
