-- ===== src/Summary/Tests.antt =====
-- src/execution/dependencies.rs: two small summaries.
use hrx_rs.Common.{ℕ, ◌≡◌, ◌↔◌, refl, false, true, false, List, [], ◌∷◌, arith}
use hrx_rs.Access.{Access, writes}
use hrx_rs.Frontier.{Use}
use hrx_rs.Summary.{region, stay, conflicts}
use hrx_rs.Summary.Summarize.{summarize}
use hrx_rs.Summary.Events.{used}
use hrx_rs.Summary.Union.{used-summarize}
use hrx_rs.Summary.Conflicts.{conflict_at, conflicts-summarize}

abbrev usage : ℕ → ℕ → ℕ → Access → Use
usage allocation start finish access = record {
  allocation = allocation;
  range = record { start = start; end = finish };
  access = access;
}

abbrev reads : List Use
reads = usage 0 0 32 Access.read ∷ usage 0 48 64 Access.read ∷ usage 2 0 8 Access.read ∷ []

abbrev writes_between : List Use
writes_between = usage 0 32 48 Access.write ∷ usage 1 0 8 Access.write ∷ []

apart : conflicts reads writes_between ≡ false
unfolding conflicts stay writes
apart = refl

meet : conflicts reads (usage 2 4 12 Access.write ∷ []) ≡ true
unfolding conflicts stay writes
meet = refl

-- A shared view counts as its whole storage.
shared_view :
    region
      (record { storage = 3; shared = true; bytes = 64; range = record { start = 8; end = 16 } })
      Access.read
    ≡ usage 3 0 64 Access.read
unfolding region
shared_view = refl

-- Overlapping and adjacent uses, and an empty one.
abbrev mixed : List Use
mixed =
    usage 1 8 8 Access.read
    ∷ usage 0 16 48 Access.write
    ∷ usage 0 0 32 Access.read
    ∷ usage 0 48 64 Access.write
    ∷ []

summary_of_mixed :
    summarize mixed
    ≡ usage 0 0 16 Access.read ∷ usage 0 16 32 Access.read_write ∷ usage 0 32 64 Access.write ∷ []
unfolding summarize writes
summary_of_mixed = refl

used-summarize_example : used false 0 40 (summarize mixed) ≡ used false 0 40 mixed
used-summarize_example = used-summarize false 0 40 mixed (omega arith)

conflicts-summarize_example :
    (conflicts (summarize mixed) (summarize reads) ≡ true)
    ↔ ((id : ℕ) × (p : ℕ) × (conflict_at id p mixed reads ≡ true))
conflicts-summarize_example = conflicts-summarize mixed reads (omega arith) (omega arith)
