-- ===== src/Frontier/Uses.antt =====
-- src/dependency_frontier.rs: one use, and the uses of an operation in turn.
use hrx_rs.Common.{
  ℕ, ◌≡◌, Bool, true, ◌⊎◌, inl, List, [], ◌∷◌, if◌then◌else◌, ◌==◌, arith, ◌&&◌, dec_lt, lt→ltb,
}
use hrx_rs.Common.Sets.{contains}
use hrx_rs.Frontier.Segments.{Use, Frontier, Chain, cell}
use hrx_rs.Frontier.Cells.{touch_cell, needs, within}
use hrx_rs.Frontier.Track.{use_one, use_all}
use hrx_rs.Frontier.Refinement.{
  use_segments-Chain, cell-use_segments, use_segments_mono, use_segments_complete,
  use_segments_sound,
}

abbrev pub covers_byte : Use → ℕ → Bool
covers_byte u p = within u.range.start u.range.end p

-- In every allocation the segments are in order, apart and not empty.
abbrev pub Ordered : Frontier → Type 0
Ordered f = (a : ℕ) → Chain 0 (f a)

module _ (node : ℕ) (u : Use) (f : Frontier) (deps : List ℕ) (ordered : Ordered f) where
  abbrev after : Frontier × List ℕ
  after = use_one node u f deps

  pub use_one-Ordered : Ordered after.0
  unfolding use_one
  use_one-Ordered a = elim (dec_lt u.range.start u.range.end) [
    | no empty ↦ ground (arith, ordered a)
    | yes some_bytes ↦ ground (
      arith,
      ordered a,
      use_segments-Chain node u.access u.range some_bytes (f u.allocation) deps
          (ordered u.allocation),
    )
  ]

  pub cell-use_one :
      (a p : ℕ)
      → cell (after.0 a) p ≡ (
          if (a == u.allocation) && covers_byte u p
          then touch_cell node u.access (cell (f a) p)
          else cell (f a) p)
  unfolding use_one
  cell-use_one a p = elim (dec_lt u.range.start u.range.end) [
    | no empty ↦ ground arith
    | yes some_bytes ↦ ground (
      arith,
      cell-use_segments node u.access u.range some_bytes (f u.allocation) deps p
          (ordered u.allocation),
    )
  ]

  pub use_one_mono : (x : ℕ) → contains x deps ≡ true → contains x after.1 ≡ true
  unfolding use_one
  use_one_mono x h = elim (dec_lt u.range.start u.range.end) [
    | no empty ↦ ground arith
    | yes some_bytes ↦
        ground (arith, use_segments_mono node u.access u.range some_bytes (f u.allocation) deps x h)
  ]

  pub use_one_complete :
      (p x : ℕ)
      → covers_byte u p ≡ true
      → needs u.access (cell (f u.allocation) p) x ≡ true
      → contains x after.1 ≡ true
  unfolding use_one
  use_one_complete p x w n = elim (dec_lt u.range.start u.range.end) [
    | no empty ↦ ground arith
    | yes some_bytes ↦ ground (
      arith,
      use_segments_complete node u.access u.range some_bytes (f u.allocation) deps p x
          (ordered u.allocation) w n,
    )
  ]

  pub use_one_sound :
      (x : ℕ)
      → contains x after.1 ≡ true
      → (contains x deps ≡ true)
        ⊎ ((p : ℕ) × (covers_byte u p ≡ true) × (needs u.access (cell (f u.allocation) p) x ≡ true))
  unfolding use_one
  use_one_sound x h = elim (dec_lt u.range.start u.range.end) [
    | no empty ↦ inl (ground arith)
    | yes some_bytes ↦
        use_segments_sound node u.access u.range some_bytes (f u.allocation) deps x
          (ordered u.allocation) (rw (lt→ltb _ _ some_bytes) at h)
  ]

pub use_all-Ordered :
    (node : ℕ) (uses : List Use) (f : Frontier) (deps : List ℕ)
    → Ordered f
    → Ordered (use_all node uses f deps).0
unfolding use_all
use_all-Ordered node [] f deps ordered = ordered
use_all-Ordered node (u ∷ uses) f deps ordered =
    use_all-Ordered node uses _ _ (use_one-Ordered node u f deps ordered)

pub use_all_mono :
    (node : ℕ) (uses : List Use) (f : Frontier) (deps : List ℕ) (x : ℕ)
    → Ordered f
    → contains x deps ≡ true
    → contains x (use_all node uses f deps).1 ≡ true
unfolding use_all
use_all_mono node [] f deps x ordered h = h
use_all_mono node (u ∷ uses) f deps x ordered h =
    use_all_mono node uses _ _ x (use_one-Ordered node u f deps ordered)
      (use_one_mono node u f deps ordered x h)
