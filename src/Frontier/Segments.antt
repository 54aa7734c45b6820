-- ===== src/Frontier/Segments.antt =====
-- src/dependency_frontier.rs: the data.
use hrx_rs.Common.{
  ℕ, ◌≤◌, ◌<◌, Bool, ◌&&◌, Option, none, List, [], ◌∷◌, if◌then◌else◌, ltb, leb, arith,
}
use hrx_rs.Access.{Access}

-- `Range<usize>`
pub record Range : Type 0 where
  pub start : ℕ
  pub end : ℕ

pub record Use : Type 0 where
  pub allocation : ℕ
  pub range : Range
  pub access : Access

pub record Segment : Type 0 where
  pub range : Range
  pub writer : Option ℕ
  pub readers : List ℕ

-- `BTreeMap<usize, Vec<Segment>>`. A missing key reads as the empty vector, which is what
-- `entry(..).or_default()` makes of it.
abbrev pub Frontier : Type 0
Frontier = ℕ → List Segment

-- Segments are not empty, ascend and do not overlap, from `lo` on.
abbrev pub Chain : ℕ → List Segment → Type 0
Chain lo [] = Unit
Chain lo (s ∷ rest) = (lo ≤ s.range.start) × (s.range.start < s.range.end) × Chain s.range.end rest

pub Chain-mono : (a b : ℕ) (segs : List Segment) → a ≤ b → Chain b segs → Chain a segs
Chain-mono a b [] h c = tt
Chain-mono a b (s ∷ rest) h c = (omega arith, c.1, c.2)

-- What the frontier knows of one byte.
pub record Cell : Type 0 where
  pub writer : Option ℕ
  pub readers : List ℕ

abbrev pub blank : Cell
blank = record { writer = none; readers = [] }

abbrev pub covers : Segment → ℕ → Bool
covers s p = leb s.range.start p && ltb p s.range.end

unfoldable pub cell : List Segment → ℕ → Cell
cell [] p = blank
cell (s ∷ rest) p =
    if covers s p then record { writer = s.writer; readers = s.readers } else cell rest p
