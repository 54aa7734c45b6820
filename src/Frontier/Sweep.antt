-- ===== src/Frontier/Sweep.antt =====
-- src/dependency_frontier.rs: the loop over the segments of one use.
use hrx_rs.Common.{
  ℕ, zero, suc, ◌+◌, ◌*◌, ◌≤◌, ◌<◌, ◌≡◌, refl, Option, none, some, List, [], ◌∷◌, if◌then◌else◌,
  ltb, lt→ltb, arith, length, min,
}
use mathlib.Core.Option
use hrx_rs.Common.Sets.{insert, extend, extend_option}
use hrx_rs.Access.{Access, writes}
use hrx_rs.Frontier.Segments.{Segment}

-- `Segment { range: position..end, ..Segment::default() }`
abbrev pub gap : ℕ → ℕ → Segment
gap position finish = record {
  range = record { start = position; end = finish };
  writer = none;
  readers = [];
}

module _ (node : ℕ) (access : Access) where
  -- What the body of the loop makes of the segment.
  unfoldable pub touch : Segment → Segment
  touch s =
      if writes access
      then record s { writer = some node; readers = [] }
      else record s { readers = insert node s.readers }

  -- What it adds to the dependencies.
  unfoldable pub harvest : List ℕ → Segment → List ℕ
  harvest deps s =
      if writes access
      then extend (extend_option deps s.writer) s.readers
      else extend_option deps s.writer

  module _ (finish : ℕ) where
    -- `segments[index]` and what stands behind it, once a gap before it is filled.
    unfoldable pub fill : ℕ → List Segment → Segment × List Segment
    fill position [] = (gap position finish, [])
    fill position (s ∷ rest) =
        if ltb position s.range.start
        then (gap position (min s.range.start finish), s ∷ rest)
        else (s, rest)

    -- The `while` loop over `segments[index..]`, with fuel.
    pub while_loop : ℕ → ℕ → List Segment → List ℕ → Option (List Segment × List ℕ)
    while_loop zero position segs deps = none
    while_loop (suc fuel) position segs deps =
        let current = fill position segs in
        let later = while_loop fuel current.0.range.end current.1 (harvest deps current.0) in
        if ltb position finish
        then Option.map (λ r. (touch current.0 ∷ r.0, r.1)) later
        else some (segs, deps)

    -- The same loop by recursion on the segments. The round that fills a gap touches the new
    -- segment, whose harvest is empty; the segment behind it is read in the next round, if there is
    -- one.
    unfoldable pub sweep : ℕ → List Segment → List ℕ → List Segment × List ℕ
    sweep position [] deps =
        if ltb position finish then (touch (gap position finish) ∷ [], deps) else ([], deps)
    sweep position (s ∷ rest) deps =
        let next = sweep s.range.end rest (harvest deps s) in
        let filled = touch (gap position (min s.range.start finish)) in
        if ltb position finish
        then (if ltb position s.range.start
            then (if ltb s.range.start finish
                then (filled ∷ touch s ∷ next.0, next.1)
                else (filled ∷ s ∷ rest, deps))
            else (touch s ∷ next.0, next.1))
        else (s ∷ rest, deps)

    harvest-gap : (deps : List ℕ) (a b : ℕ) → harvest deps (gap a b) ≡ deps
    unfolding harvest extend extend_option
    harvest-gap deps a b = ground arith

    -- One round of the loop.
    while_loop_round :
        (fuel position : ℕ) (s : Segment) (segs rest : List Segment) (deps : List ℕ)
        → position < finish
        → fill position segs ≡ (s, rest)
        → while_loop (suc fuel) position segs deps
          ≡ Option.map
              (λ r. (touch s ∷ r.0, r.1))
              (while_loop fuel s.range.end rest (harvest deps s))
    unfolding while_loop
    while_loop_round fuel position s segs rest deps h e = rw (lt→ltb _ _ h) (rw e refl)

    while_loop_done :
        (fuel position : ℕ) (segs : List Segment) (deps : List ℕ)
        → finish ≤ position
        → while_loop (suc fuel) position segs deps ≡ some (segs, deps)
    unfolding while_loop
    while_loop_done fuel position segs deps h = ground arith

    -- The loop over the segments ends within two rounds for each segment and two more, with the result
    -- of the recursion on the segments.
    pub while_loop-sweep :
        (fuel position : ℕ) (segs : List Segment) (deps : List ℕ)
        → 2 * length segs + 1 < fuel
        → while_loop fuel position segs deps ≡ some (sweep position segs deps)
    unfolding sweep fill
    while_loop-sweep zero position segs deps h = absurd (omega arith)
    while_loop-sweep (suc zero) position segs deps h = absurd (omega arith)
    while_loop-sweep (suc (suc fuel)) position [] deps h = ground (
      arith,
      while_loop_done (suc fuel) position [] deps,
      while_loop_done fuel finish [] deps,
      while_loop_round (suc fuel) position (gap position finish) [] [] deps,
      harvest-gap deps position finish,
    )
    while_loop-sweep (suc (suc fuel)) position (s ∷ rest) deps h = ground (
      arith,
      while_loop_done (suc fuel) position (s ∷ rest) deps,
      while_loop_done fuel finish (s ∷ rest) deps,
      while_loop_round (suc fuel) position (gap position (min s.range.start finish)) (s ∷ rest)
          (s ∷ rest) deps,
      while_loop_round (suc fuel) position s (s ∷ rest) rest deps,
      while_loop_round fuel s.range.start s (s ∷ rest) rest deps,
      harvest-gap deps position (min s.range.start finish),
      while_loop-sweep fuel s.range.end rest (harvest deps s),
      while_loop-sweep (suc fuel) s.range.end rest (harvest deps s),
    )
