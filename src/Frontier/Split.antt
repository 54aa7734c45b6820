-- ===== src/Frontier/Split.antt =====
-- src/dependency_frontier.rs: the segment that a bound of the new range cuts is split in two.
use hrx_rs.Common.{
  ℕ, ◌≤◌, ◌≡◌, refl, Bool, false, ◌&&◌, List, [], ◌∷◌, if◌then◌else◌, ltb, arith, All,
}
use hrx_rs.Frontier.Segments.{Segment, Chain, cell}

-- `segment.range.start < point && point < segment.range.end`
abbrev pub straddles : ℕ → Segment → Bool
straddles point s = ltb s.range.start point && ltb point s.range.end

abbrev pub left_of : ℕ → Segment → Segment
left_of point s = record s { range = record { start = s.range.start; end = point } }

abbrev pub right_of : ℕ → Segment → Segment
right_of point s = record s { range = record { start = point; end = s.range.end } }

-- One round of the loop over the two bounds: the first segment that straddles `point`.
unfoldable pub split_at : ℕ → List Segment → List Segment
split_at point [] = []
split_at point (s ∷ rest) =
    if straddles point s then left_of point s ∷ right_of point s ∷ rest else s ∷ split_at point rest

-- No segment straddles the point.
abbrev pub Unsplit : ℕ → List Segment → Type 0
Unsplit point = All (λ s. straddles point s ≡ false)

pub split_at-Chain :
    (lo point : ℕ) (segs : List Segment) → Chain lo segs → Chain lo (split_at point segs)
unfolding split_at
split_at-Chain lo point [] c = tt
split_at-Chain lo point (s ∷ rest) c = ground (arith, split_at-Chain s.range.end point rest)

-- Splitting changes nothing that the frontier knows of a byte.
pub cell-split_at :
    (point : ℕ) (segs : List Segment) (p : ℕ) → cell (split_at point segs) p ≡ cell segs p
unfolding cell split_at
cell-split_at point [] p = refl
cell-split_at point (s ∷ rest) p = ground (arith, cell-split_at point rest p)

Unsplit-below :
    (lo point : ℕ) (segs : List Segment) → point ≤ lo → Chain lo segs → Unsplit point segs
Unsplit-below lo point [] h c = tt
Unsplit-below lo point (s ∷ rest) h c =
    (ground arith, Unsplit-below s.range.end point rest (omega arith) c.2)

pub split_at-Unsplit :
    (lo point : ℕ) (segs : List Segment) → Chain lo segs → Unsplit point (split_at point segs)
unfolding split_at
split_at-Unsplit lo point [] c = tt
split_at-Unsplit lo point (s ∷ rest) c =
    ground (arith, split_at-Unsplit s.range.end point rest, Unsplit-below s.range.end point rest)

-- A second split keeps what the first one did.
pub split_at-Unsplit_other :
    (point other : ℕ) (segs : List Segment)
    → Unsplit other segs
    → Unsplit other (split_at point segs)
unfolding split_at
split_at-Unsplit_other point other [] u = tt
split_at-Unsplit_other point other (s ∷ rest) u =
    ground (arith, split_at-Unsplit_other point other rest)
