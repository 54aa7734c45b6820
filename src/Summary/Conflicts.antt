-- ===== src/Summary/Conflicts.antt =====
-- src/execution/dependencies.rs: comparing two summaries finds the bytes that conflict.
use hrx_rs.Common.{
  ℕ, ◌<◌, ◌≡◌, ◌↔◌, ◌⊎◌, refl, ◌∙◌, sym, Bool, true, false, ◌&&◌, ◌||◌, inl, inr, List, [], ◌∷◌,
  if◌then◌else◌, leb, any, any-In, In-any, In, All, arith, Bool-cases,
}
use hrx_rs.Access.{Access, read, write, read_write, writes}
use hrx_rs.Frontier.{Use}
use hrx_rs.Summary.{conflicts}
use hrx_rs.Summary.Sweep.{Canonical, clash, cross, conflicts-cross}
use hrx_rs.Summary.Summarize.{reads_too, summarize}
use hrx_rs.Summary.Events.{does, holds_byte, used, Ordered}
use hrx_rs.Summary.Union.{summarize-Canonical, used-summarize}

-- Some use of the one list uses the byte, some use of the other too, and one of the two writes.
abbrev pub touched : ℕ → ℕ → List Use → Bool
touched id p uses = used true id p uses || used false id p uses

abbrev pub conflict_at : ℕ → ℕ → List Use → List Use → Bool
conflict_at id p a b =
    (touched id p a && used false id p b) || (used false id p a && touched id p b)

pub Canonical-Nonempty :
    (uses : List Use) (u : Use) → Canonical uses → In u uses → u.range.start < u.range.end
Canonical-Nonempty [] u c m = elim m [ ]
Canonical-Nonempty (x ∷ uses) u c (inl e) = rw e c.0
Canonical-Nonempty (x ∷ uses) u c (inr m) = Canonical-Nonempty uses u c.2 m

In-used :
    (which : Bool) (id p : ℕ) (uses : List Use) (u : Use)
    → In u uses
    → holds_byte id p u ≡ true
    → does which u.access ≡ true
    → used which id p uses ≡ true
In-used which id p uses u m h d =
    In-any (λ x. holds_byte id p x && does which x.access) uses u m (rw (h, d) refl)

used-In :
    (which : Bool) (id p : ℕ) (uses : List Use)
    → used which id p uses ≡ true
    → (u : Use) × In u uses × (holds_byte id p u ≡ true) × (does which u.access ≡ true)
used-In which id p uses h =
    let (u, m, e) = any-In (λ x. holds_byte id p x && does which x.access) uses h in
    (u, m, ground arith, ground arith)

reads-or-writes : (access : Access) → (reads_too access ≡ true) ⊎ (writes access ≡ true)
unfolding reads_too writes
reads-or-writes read = inl refl
reads-or-writes write = inr refl
reads-or-writes read_write = inl refl

In-touched :
    (id p : ℕ) (uses : List Use) (u : Use)
    → In u uses
    → holds_byte id p u ≡ true
    → touched id p uses ≡ true
In-touched id p uses u m h = elim (reads-or-writes u.access) [
  | inl r ↦ rw (In-used true id p uses u m h r) refl
  | inr w ↦ rw (In-used false id p uses u m h w) (ground arith)
]

touched-In :
    (id p : ℕ) (uses : List Use)
    → touched id p uses ≡ true
    → (u : Use) × In u uses × (holds_byte id p u ≡ true)
touched-In id p uses h = elim (Bool-cases (used true id p uses)) [
  | inl r ↦ let (u, m, e, d) = used-In true id p uses r in (u, m, e)
  | inr none ↦ let (u, m, e, d) = used-In false id p uses (rw none at h) in (u, m, e)
]

-- A byte that two nonempty uses that clash share.
abbrev shared : Use → Use → ℕ
shared x y = if leb x.range.start y.range.start then y.range.start else x.range.start

clash-holds :
    (x y : Use)
    → x.range.start < x.range.end
    → y.range.start < y.range.end
    → clash x y ≡ true
    → (holds_byte x.allocation (shared x y) x ≡ true)
      × (holds_byte x.allocation (shared x y) y ≡ true)
      × ((writes x.access || writes y.access) ≡ true)
clash-holds x y nx ny h = (ground arith, ground arith, ground arith)

holds-clash :
    (id p : ℕ) (x y : Use)
    → holds_byte id p x ≡ true
    → holds_byte id p y ≡ true
    → (writes x.access || writes y.access) ≡ true
    → clash x y ≡ true
holds-clash id p x y hx hy w = ground arith

cross-In : (a b : List Use) (x y : Use) → In x a → In y b → clash x y ≡ true → cross a b ≡ true
cross-In a b x y mx my h = In-any (λ u. any (clash u) b) a x mx (In-any (clash x) b y my h)

cross-conflict_at :
    (a b : List Use)
    → Canonical a
    → Canonical b
    → cross a b ≡ true
    → (id : ℕ) × (p : ℕ) × (conflict_at id p a b ≡ true)
cross-conflict_at a b ca cb h =
    let (x, mx, hx) = any-In (λ u. any (clash u) b) a h in
    let (y, my, hy) = any-In (clash x) b hx in
    let (bx, by, w) =
      clash-holds x y (Canonical-Nonempty a x ca mx) (Canonical-Nonempty b y cb my) hy in
    let tx = In-touched x.allocation (shared x y) a x mx bx in
    let ty = In-touched x.allocation (shared x y) b y my by in
    (
      x.allocation,
      shared x y,
      elim (Bool-cases (writes x.access)) [
        | inl wx ↦ rw (In-used false x.allocation (shared x y) a x mx bx wx, ty) (ground arith)
        | inr rx ↦
            let wy = In-used false x.allocation (shared x y) b y my by (rw rx at w) in
            rw (tx, wy) refl
      ],
    )

-- The two uses behind a conflict at a byte.
pub conflict_at-uses :
    (id p : ℕ) (a b : List Use)
    → conflict_at id p a b ≡ true
    → (x : Use) × (y : Use) × In x a
      × In y b
      × (holds_byte id p x ≡ true)
      × (holds_byte id p y ≡ true)
      × ((writes x.access || writes y.access) ≡ true)
conflict_at-uses id p a b h = elim (Bool-cases (touched id p a && used false id p b)) [
  | inl first ↦
      let (x, mx, hx) = touched-In id p a (ground arith) in
      let (y, my, hy, wy) = used-In false id p b (ground arith) in
      (x, y, mx, my, hx, hy, ground arith)
  | inr other ↦
      let second = rw other at h in
      let (x, mx, hx, wx) = used-In false id p a (ground arith) in
      let (y, my, hy) = touched-In id p b (ground arith) in (x, y, mx, my, hx, hy, ground arith)
]

pub conflict_at-cross : (id p : ℕ) (a b : List Use) → conflict_at id p a b ≡ true → cross a b ≡ true
conflict_at-cross id p a b h =
    let (x, y, mx, my, hx, hy, w) = conflict_at-uses id p a b h in
    cross-In a b x y mx my (holds-clash id p x y hx hy w)

pub conflict_at-summarize :
    (id p : ℕ) (a b : List Use)
    → All Ordered a
    → All Ordered b
    → conflict_at id p (summarize a) (summarize b) ≡ conflict_at id p a b
conflict_at-summarize id p a b oa ob = rw (
  used-summarize true id p a oa,
  used-summarize false id p a oa,
  used-summarize true id p b ob,
  used-summarize false id p b ob,
)

-- Comparing two summaries finds a conflict exactly when some byte is used by both lists of uses and
-- written by one of them, when the ends of every use are in order.
pub conflicts-summarize :
    (a b : List Use)
    → All Ordered a
    → All Ordered b
    → (conflicts (summarize a) (summarize b) ≡ true)
      ↔ ((id : ℕ) × (p : ℕ) × (conflict_at id p a b ≡ true))
conflicts-summarize a b oa ob =
    let canonical_a = summarize-Canonical a in
    let canonical_b = summarize-Canonical b in
    let pairs = conflicts-cross (summarize a) (summarize b) canonical_a canonical_b in
    (
      λ h.
          let (id, p, c) =
            cross-conflict_at (summarize a) (summarize b) canonical_a canonical_b (sym pairs ∙ h) in
          (id, p, sym (conflict_at-summarize id p a b oa ob) ∙ c),
      λ h.
          pairs
          ∙ conflict_at-cross h.0 h.1 (summarize a) (summarize b)
              (conflict_at-summarize h.0 h.1 a b oa ob ∙ h.2),
    )
