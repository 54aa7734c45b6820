-- ===== src/Frontier/Track.antt =====
-- src/dependency_frontier.rs: `Frontier::dependencies`.
use hrx_rs.Common.{ℕ, suc, Bool, List, [], ◌∷◌, ◌++◌, take, drop, if◌then◌else◌, leb, ltb, ◌==◌}
use hrx_rs.Common.Sets.{remove}
use hrx_rs.Access.{Access}
use hrx_rs.Frontier.Segments.{Range, Use, Segment, Frontier}
use hrx_rs.Frontier.Split.{split_at}
use hrx_rs.Frontier.Sweep.{sweep}

-- `slice::partition_point`: on a slice whose elements that pass the test stand first, as they do
-- here, the number of them.
unfoldable pub partition_point : (Segment → Bool) → List Segment → ℕ
partition_point test [] = 0
partition_point test (s ∷ rest) = if test s then suc (partition_point test rest) else 0

abbrev pub ends_by : ℕ → Segment → Bool
ends_by position s = leb s.range.end position

-- One use, on the segments of its allocation.
unfoldable pub use_segments : ℕ → Access → Range → List Segment → List ℕ → List Segment × List ℕ
use_segments node access range segs deps =
    let cut = split_at range.end (split_at range.start segs) in
    let index = partition_point (ends_by range.start) cut in
    let swept = sweep node access range.end range.start (drop index cut) deps in
    (take index cut ++ swept.0, swept.1)

abbrev pub update : Frontier → ℕ → List Segment → Frontier
update f allocation segs a = if a == allocation then segs else f a

-- The body of the loop over the uses. An empty range is skipped (`Range::is_empty` is
-- `!(start < end)`).
unfoldable pub use_one : ℕ → Use → Frontier → List ℕ → Frontier × List ℕ
use_one node u f deps =
    let used = use_segments node u.access u.range (f u.allocation) deps in
    if ltb u.range.start u.range.end then (update f u.allocation used.0, used.1) else (f, deps)

unfoldable pub use_all : ℕ → List Use → Frontier → List ℕ → Frontier × List ℕ
use_all node [] f deps = (f, deps)
use_all node (u ∷ uses) f deps = let used = use_one node u f deps in use_all node uses used.0 used.1

unfoldable pub dependencies : ℕ → List Use → Frontier → Frontier × List ℕ
dependencies node uses f =
    let all_uses = use_all node uses f [] in (all_uses.0, remove node all_uses.1)
