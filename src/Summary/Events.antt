-- ===== src/Summary/Events.antt =====
-- src/execution/dependencies.rs: the events of `summarize` count the uses of every byte.
use hrx_rs.Common.{
  ℕ, suc, ◌≤◌, ◌≡◌, refl, ◌∙◌, Bool, true, false, ◌&&◌, inl, inr, List, [], ◌∷◌, if◌then◌else◌, ltb,
  leb, ◌==◌, any, arith, Bool-cases,
}
use hrx_rs.Common.Int.{ℤ, pos, ◌+ℤ◌, ◌-ℤ◌, int_laws}
use hrx_rs.Access.{Access, writes}
use hrx_rs.Frontier.{Use}
use hrx_rs.Summary.Summarize.{Event, reads_too, count, add_event, add_use}

-- What a use does, and what an event adds: reads, or writes.
abbrev pub does : Bool → Access → Bool
does true access = reads_too access
does false access = writes access

abbrev pub delta : Bool → Event → ℤ
delta true e = e.reads
delta false e = e.writes

abbrev pub pick : Bool → ℤ → ℤ → ℤ
pick true r w = r
pick false r w = w

abbrev pub holds_byte : ℕ → ℕ → Use → Bool
holds_byte id p u = (u.allocation == id) && (leb u.range.start p && ltb p u.range.end)

-- Some use reads (writes) byte `p` of the allocation `id`.
abbrev pub used : Bool → ℕ → ℕ → List Use → Bool
used which id p uses = any (λ u. holds_byte id p u && does which u.access) uses

-- What the events at positions that pass a test add up to.
unfoldable pub sum_if : Bool → (ℕ → Bool) → List Event → ℤ
sum_if which q [] = pos 0
sum_if which q (e ∷ events) =
    (if q e.position then delta which e else pos 0) +ℤ sum_if which q events

abbrev when : Bool → ℤ → ℤ
when b n = if b then n else pos 0

add_front :
    (which b : Bool) (at : ℕ) (r w s : ℤ)
    → when b (delta which (record { position = at; reads = pos 0 +ℤ r; writes = pos 0 +ℤ w })) +ℤ s
      ≡ when b (pick which r w) +ℤ s
add_front true true at r w s = omega int_laws
add_front false true at r w s = omega int_laws
add_front true false at r w s = refl
add_front false false at r w s = refl

add_here :
    (which b : Bool) (e : Event) (r w s : ℤ)
    → when b (
          delta which
            (record { position = e.position; reads = e.reads +ℤ r; writes = e.writes +ℤ w }))
        +ℤ s
      ≡ when b (pick which r w) +ℤ (when b (delta which e) +ℤ s)
add_here true true e r w s = omega int_laws
add_here false true e r w s = omega int_laws
add_here true false e r w s = omega int_laws
add_here false false e r w s = omega int_laws

add_later : (x y s : ℤ) → x +ℤ (y +ℤ s) ≡ y +ℤ (x +ℤ s)
add_later x y s = omega int_laws

sum_if-add_event :
    (which : Bool) (q : ℕ → Bool) (at : ℕ) (r w : ℤ) (events : List Event)
    → sum_if which q (add_event at r w events)
      ≡ when (q at) (pick which r w) +ℤ sum_if which q events
unfolding sum_if add_event
sum_if-add_event which q at r w [] = add_front which (q at) at r w (pos 0)
sum_if-add_event which q at r w (e ∷ events) = elim (Bool-cases (ltb at e.position)) [
  | inl before ↦ rw before (add_front which (q at) at r w _)
  | inr not_before ↦ elim (Bool-cases (at == e.position)) [
    | inl here ↦
        let same : at ≡ e.position = ground arith in
        rw (not_before, here, same) (add_here which (q e.position) e r w _)
    | inr after ↦ rw (not_before, after, sum_if-add_event which q at r w events) (add_later _ _ _)
  ]
]

pick-neg :
    (which : Bool) (u : Use)
    → pick which (pos 0 -ℤ count (reads_too u.access)) (pos 0 -ℤ count (writes u.access))
      ≡ pos 0 -ℤ count (does which u.access)
pick-neg true u = refl
pick-neg false u = refl

pick-count :
    (which : Bool) (u : Use)
    → pick which (count (reads_too u.access)) (count (writes u.access))
      ≡ count (does which u.access)
pick-count true u = refl
pick-count false u = refl

sum_if-add_use :
    (which : Bool) (q : ℕ → Bool) (u : Use) (events : List Event)
    → sum_if which q (add_use u events)
      ≡ when (q u.range.end) (pos 0 -ℤ count (does which u.access))
        +ℤ (when (q u.range.start) (count (does which u.access)) +ℤ sum_if which q events)
unfolding add_use
sum_if-add_use which q u events = rw (
  sum_if-add_event which q u.range.end _ _ _,
  sum_if-add_event which q u.range.start _ _ events,
  pick-neg which u,
  pick-count which u,
)

-- The ends of a use are in order.
abbrev pub Ordered : Use → Type 0
Ordered u = u.range.start ≤ u.range.end

-- Nothing is left behind the last event.
abbrev pub always : ℕ → Bool
always x = true

cancel_count : (b : Bool) (s : ℤ) → (pos 0 -ℤ count b) +ℤ (count b +ℤ s) ≡ s
cancel_count true s = omega int_laws
cancel_count false s = omega int_laws

sum_always-add_use :
    (which : Bool) (u : Use) (events : List Event)
    → sum_if which always (add_use u events) ≡ sum_if which always events
sum_always-add_use which u events =
    sum_if-add_use which always u events ∙ cancel_count (does which u.access) _

abbrev pub up_to : ℕ → ℕ → Bool
up_to p x = leb x p

count_zero : (b : Bool) (s : ℤ) → pos 0 +ℤ (pos 0 +ℤ s) ≡ count (false && b) +ℤ s
count_zero b s = omega int_laws

skip_zero : (b : Bool) (s : ℤ) → pos 0 +ℤ (count b +ℤ s) ≡ count (true && b) +ℤ s
skip_zero true s = omega int_laws
skip_zero false s = omega int_laws

cancel_zero : (b : Bool) (s : ℤ) → (pos 0 -ℤ count b) +ℤ (count b +ℤ s) ≡ count (false && b) +ℤ s
cancel_zero true s = omega int_laws
cancel_zero false s = omega int_laws

-- A use counts between its start and its end.
count_between :
    (b : Bool) (x y p : ℕ) (s : ℤ)
    → x ≤ y
    → when (leb y p) (pos 0 -ℤ count b) +ℤ (when (leb x p) (count b) +ℤ s)
      ≡ count ((leb x p && ltb p y) && b) +ℤ s
count_between b x y p s h = elim (Bool-cases (leb x p)) [
  | inr outside ↦ let out : leb y p ≡ false = ground arith in rw (out, outside) (count_zero b s)
  | inl begun ↦ elim (Bool-cases (leb y p)) [
    | inl over ↦
        let done : ltb p y ≡ false = ground arith in rw (over, begun, done) (cancel_zero b s)
    | inr running_on ↦
        let not_done : ltb p y ≡ true = ground arith in
        rw (running_on, begun, not_done) (skip_zero b s)
  ]
]

pub sum_up_to-add_use :
    (which : Bool) (p : ℕ) (u : Use) (events : List Event)
    → Ordered u
    → sum_if which (up_to p) (add_use u events)
      ≡ count ((leb u.range.start p && ltb p u.range.end) && does which u.access)
        +ℤ sum_if which (up_to p) events
sum_up_to-add_use which p u events ordered =
    sum_if-add_use which (up_to p) u events
    ∙ count_between (does which u.access) u.range.start u.range.end p _ ordered

-- Strictly ascending positions, from `lo` on.
abbrev pub Ascending : ℕ → List Event → Type 0
Ascending lo [] = Unit
Ascending lo (e ∷ events) = (lo ≤ e.position) × Ascending (suc e.position) events

add_event-Ascending :
    (lo at : ℕ) (r w : ℤ) (events : List Event)
    → lo ≤ at
    → Ascending lo events
    → Ascending lo (add_event at r w events)
unfolding add_event
add_event-Ascending lo at r w [] h asc = (h, tt)
add_event-Ascending lo at r w (e ∷ events) h asc =
    ground (arith, add_event-Ascending (suc e.position) at r w events)

add_use-Ascending :
    (u : Use) (events : List Event) → Ascending 0 events → Ascending 0 (add_use u events)
unfolding add_use
add_use-Ascending u events asc =
    add_event-Ascending 0 _ _ _ _ (omega arith)
      (add_event-Ascending 0 _ _ _ events (omega arith) asc)

-- The events of an allocation ascend, and add up to nothing.
pub record IsBalanced (events : List Event) : Type 0 where
  pub ascending : Ascending 0 events
  pub no_reads_left : sum_if true always events ≡ pos 0
  pub no_writes_left : sum_if false always events ≡ pos 0

pub add_use-IsBalanced :
    (u : Use) (events : List Event) → IsBalanced events → IsBalanced (add_use u events)
add_use-IsBalanced u events b = record {
  ascending = add_use-Ascending u events b.ascending;
  no_reads_left = sum_always-add_use true u events ∙ b.no_reads_left;
  no_writes_left = sum_always-add_use false u events ∙ b.no_writes_left;
}

pub no_events : IsBalanced []
unfolding sum_if
no_events = record { ascending = tt; no_reads_left = refl; no_writes_left = refl }
