-- ===== src/Frontier/Refinement.antt =====
-- src/dependency_frontier.rs: the segments of an allocation against a table of single bytes.
use hrx_rs.Common.{
  ℕ, ◌≤◌, ◌<◌, ◌≡◌, refl, true, ◌⊎◌, ◌↔◌, inl, inr, List, [], ◌∷◌, ◌++◌, take, drop, if◌then◌else◌,
  leb, arith, ◌∙◌,
}
use hrx_rs.Common.Sets.{contains}
use hrx_rs.Access.{Access}
use hrx_rs.Frontier.Segments.{Range, Segment, Chain, Chain-mono, cell}
use hrx_rs.Frontier.Split.{
  split_at, split_at-Chain, split_at-Unsplit, split_at-Unsplit_other, cell-split_at, Unsplit,
}
use hrx_rs.Frontier.Sweep.{sweep}
use hrx_rs.Frontier.Cells.{
  touch_cell, needs, within, cell_below, sweep-Chain, cell-sweep, sweep_complete, sweep_sound,
  sweep_mono,
}
use hrx_rs.Frontier.Track.{partition_point, ends_by, use_segments}

-- The cut at `partition_point`: what stands before it ends by `position`, the rest starts there.
module _ (position : ℕ) where
  before : List Segment → List Segment
  before segs = take (partition_point (ends_by position) segs) segs

  behind : List Segment → List Segment
  behind segs = drop (partition_point (ends_by position) segs) segs

  behind-Chain :
      (lo : ℕ) (segs : List Segment)
      → Chain lo segs
      → Unsplit position segs
      → Chain position (behind segs)
  unfolding behind partition_point
  behind-Chain lo [] c u = tt
  behind-Chain lo (s ∷ rest) c u = ground (arith, behind-Chain s.range.end rest c.2 u.1)

  behind-Unsplit :
      (point : ℕ) (segs : List Segment) → Unsplit point segs → Unsplit point (behind segs)
  unfolding behind partition_point
  behind-Unsplit point [] u = tt
  behind-Unsplit point (s ∷ rest) u = ground (arith, behind-Unsplit point rest u.1)

  -- Other segments behind the cut leave the order and what stands before it alone.
  replace-Chain :
      (lo : ℕ) (segs new : List Segment)
      → lo ≤ position
      → Chain lo segs
      → Chain position new
      → Chain lo (before segs ++ new)
  unfolding before partition_point
  replace-Chain lo [] new h c n = Chain-mono lo position new h n
  replace-Chain lo (s ∷ rest) new h c n =
      ground (arith, replace-Chain s.range.end rest new, Chain-mono lo position new h n)

  cell-replace :
      (lo : ℕ) (segs new : List Segment) (p : ℕ)
      → Chain lo segs
      → Unsplit position segs
      → Chain position new
      → cell (before segs ++ new) p ≡ (if leb position p then cell new p else cell segs p)
  unfolding before cell partition_point
  cell-replace lo [] new p c u n = ground (arith, cell_below position p new)
  cell-replace lo (s ∷ rest) new p c u n = ground (
    arith,
    cell-replace s.range.end rest new p c.2 u.1 n,
    cell_below position p new,
    cell_below s.range.end p rest c.2,
  )

  cell-behind : (segs : List Segment) (p : ℕ) → position ≤ p → cell (behind segs) p ≡ cell segs p
  unfolding behind cell partition_point
  cell-behind [] p h = refl
  cell-behind (s ∷ rest) p h = ground (arith, cell-behind rest p)

module _ (node : ℕ) (access : Access) (range : Range) (nonempty : range.start < range.end) where
  cut : List Segment → List Segment
  cut segs = split_at range.end (split_at range.start segs)

  cut-Chain : (segs : List Segment) → Chain 0 segs → Chain 0 (cut segs)
  unfolding cut
  cut-Chain segs c =
      split_at-Chain 0 range.end (split_at range.start segs) (split_at-Chain 0 range.start segs c)

  cut-Unsplit :
      (segs : List Segment)
      → Chain 0 segs
      → Unsplit range.start (cut segs) × Unsplit range.end (cut segs)
  unfolding cut
  cut-Unsplit segs c = (
    split_at-Unsplit_other range.end range.start (split_at range.start segs)
        (split_at-Unsplit 0 range.start segs c),
    split_at-Unsplit 0 range.end (split_at range.start segs) (split_at-Chain 0 range.start segs c),
  )

  cell-cut : (segs : List Segment) (p : ℕ) → cell (cut segs) p ≡ cell segs p
  unfolding cut
  cell-cut segs p =
      cell-split_at range.end (split_at range.start segs) p ∙ cell-split_at range.start segs p

  behind-cut-Chain :
      (segs : List Segment) → Chain 0 segs → Chain range.start (behind range.start (cut segs))
  behind-cut-Chain segs c =
      behind-Chain range.start 0 (cut segs) (cut-Chain segs c) (cut-Unsplit segs c).0

  use_segments_lem :
      (segs : List Segment) (deps : List ℕ)
      → use_segments node access range segs deps ≡ (
          let swept =
            sweep node access range.end range.start (behind range.start (cut segs)) deps in
          (before range.start (cut segs) ++ swept.0, swept.1))
  unfolding use_segments before behind cut
  use_segments_lem segs deps = refl

  -- A use of a nonempty range keeps the segments of an allocation in order, apart and not empty.
  pub use_segments-Chain :
      (segs : List Segment) (deps : List ℕ)
      → Chain 0 segs
      → Chain 0 (use_segments node access range segs deps).0
  use_segments-Chain segs deps c = rw (use_segments_lem segs deps) (
      replace-Chain range.start 0 (cut segs) _ (omega arith) (cut-Chain segs c) (
        sweep-Chain node access range.end range.start range.start (behind range.start (cut segs))
          deps (omega arith) (behind-cut-Chain segs c)))

  -- On segments that are in order, apart and not empty, a use of a nonempty range updates what the
  -- frontier knows of each byte of the range as an access to that byte alone would, and leaves every
  -- other byte as it was.
  pub cell-use_segments :
      (segs : List Segment) (deps : List ℕ) (p : ℕ)
      → Chain 0 segs
      → cell (use_segments node access range segs deps).0 p ≡ (
          if within range.start range.end p
          then touch_cell node access (cell segs p)
          else cell segs p)
  cell-use_segments segs deps p c = rw (use_segments_lem segs deps) (
      ground (
        arith,
        cell-replace range.start 0 (cut segs) swept p (cut-Chain segs c) (cut-Unsplit segs c).0 (
            sweep-Chain node access range.end range.start range.start
              (behind range.start (cut segs)) deps (omega arith) (behind-cut-Chain segs c)),
        cell-sweep node access range.end range.start (behind range.start (cut segs)) deps p
            (behind-cut-Chain segs c)
            (behind-Unsplit range.start range.end (cut segs) (cut-Unsplit segs c).1),
        cell-behind range.start (cut segs) p,
        cell-cut segs p,
      ))
    where
      swept : List Segment
      swept = (sweep node access range.end range.start (behind range.start (cut segs)) deps).0

  pub use_segments_mono :
      (segs : List Segment) (deps : List ℕ) (x : ℕ)
      → contains x deps ≡ true
      → contains x (use_segments node access range segs deps).1 ≡ true
  use_segments_mono segs deps x h =
      rw (use_segments_lem segs deps)
        (sweep_mono node access range.end range.start (behind range.start (cut segs)) deps x h)

  -- On segments that are in order, apart and not empty, a use of a nonempty range takes as
  -- dependencies every node that some byte of the range has to wait for.
  pub use_segments_complete :
      (segs : List Segment) (deps : List ℕ) (p x : ℕ)
      → Chain 0 segs
      → within range.start range.end p ≡ true
      → needs access (cell segs p) x ≡ true
      → contains x (use_segments node access range segs deps).1 ≡ true
  use_segments_complete segs deps p x c w n = rw (use_segments_lem segs deps) (
      sweep_complete node access range.end range.start (behind range.start (cut segs)) deps p x
        (behind-cut-Chain segs c) w
        (rw (cell-behind range.start (cut segs) p (ground arith), cell-cut segs p) n))

  -- On segments that are in order, apart and not empty, each dependency after a use of a nonempty
  -- range was one before it or is a node that some byte of the range has to wait for.
  pub use_segments_sound :
      (segs : List Segment) (deps : List ℕ) (x : ℕ)
      → Chain 0 segs
      → contains x (use_segments node access range segs deps).1 ≡ true
      → (contains x deps ≡ true)
        ⊎ ((p : ℕ) × (within range.start range.end p ≡ true)
            × (needs access (cell segs p) x ≡ true))
  use_segments_sound segs deps x c h =
      elim (sweep_sound node access range.end range.start (behind range.start (cut segs)) deps x
        (behind-cut-Chain segs c) (rw (use_segments_lem segs deps) at h)) [
          | inl old ↦ inl old
          | inr (p, w, n) ↦
              inr (
                p,
                w,
                rw (cell-behind range.start (cut segs) p (ground arith), cell-cut segs p) at n,
              )
        ]

  -- On segments that are in order, apart and not empty, the dependencies after a use of a nonempty
  -- range are those before it and the nodes that some byte of the range has to wait for, and no other.
  pub contains-use_segments :
      (segs : List Segment) (deps : List ℕ) (x : ℕ)
      → Chain 0 segs
      → (contains x (use_segments node access range segs deps).1 ≡ true) ↔ (
          (contains x deps ≡ true)
          ⊎ ((p : ℕ) × (within range.start range.end p ≡ true)
              × (needs access (cell segs p) x ≡ true)))
  contains-use_segments segs deps x c = (
    use_segments_sound segs deps x c,
    λ h. elim h [
      | inl old ↦ use_segments_mono segs deps x old
      | inr (p, w, n) ↦ use_segments_complete segs deps p x c w n
    ],
  )
