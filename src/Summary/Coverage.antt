-- ===== src/Summary/Coverage.antt =====
-- src/execution/dependencies.rs: what `summarize` makes of the uses.
use hrx_rs.Common.{
  ℕ, suc, ◌≤◌, ◌<◌, ◌≡◌, refl, ◌∙◌, Bool, true, false, ◌&&◌, ◌||◌, inl, inr, List, [], ◌∷◌,
  if◌then◌else◌, ltb, leb, ◌==◌, All, arith, Bool-cases,
}
use hrx_rs.Common.Int.{ℤ, pos, ◌+ℤ◌, nonzero, int_laws}
use hrx_rs.Access.{writes}
use hrx_rs.Frontier.{Use}
use hrx_rs.Summary.Sweep.{Canonical}
use hrx_rs.Summary.Summarize.{Event, reads_too, access_of, emit, sweep}
use hrx_rs.Summary.Events.{does, used, up_to, always, Ascending, sum_if, pick, delta}
use hrx_rs.Summary.Emit.{Before, emit-Canonical, emit-Before, used-emit}

-- The output up to `position` of the allocation `id`.
abbrev pub IsSwept : ℕ → ℕ → List Use → Type 0
IsSwept id position output = Canonical output × All (Before id position) output

-- One round of the loop.
abbrev pub round : ℕ → ℤ → ℤ → ℕ → ℕ → List Use → List Use
round id r w previous position output =
    if ltb previous position && (nonzero r || nonzero w)
    then emit id (access_of (nonzero r) (nonzero w)) previous position output
    else output

Before-mono :
    (id a b : ℕ) (output : List Use) → a ≤ b → All (Before id a) output → All (Before id b) output
Before-mono id a b [] h all = tt
Before-mono id a b (u ∷ output) h all = (ground (arith, all.0), Before-mono id a b output h all.1)

pub round-IsSwept :
    (id : ℕ) (r w : ℤ) (previous position : ℕ) (output : List Use)
    → previous ≤ position
    → IsSwept id previous output
    → IsSwept id position (round id r w previous position output)
round-IsSwept id r w previous position output h s =
    elim (Bool-cases (ltb previous position && (nonzero r || nonzero w))) [
      | inl grows ↦
          let less : previous < position = ground arith in
          rw grows (
            emit-Canonical id (access_of (nonzero r) (nonzero w)) previous position less output s.0
                s.1,
            emit-Before id (access_of (nonzero r) (nonzero w)) previous position less output s.1,
          )
      | inr stays ↦ rw stays (s.0, Before-mono id previous position output h s.1)
    ]

reads-access_of : (a b : Bool) → (a || b) ≡ true → reads_too (access_of a b) ≡ a
unfolding access_of reads_too
reads-access_of true true h = refl
reads-access_of true false h = refl
reads-access_of false true h = refl
reads-access_of false false h = cc

writes-access_of : (a b : Bool) → (a || b) ≡ true → writes (access_of a b) ≡ b
unfolding access_of writes
writes-access_of true true h = refl
writes-access_of true false h = refl
writes-access_of false true h = refl
writes-access_of false false h = cc

does-access_of :
    (which : Bool) (r w : ℤ)
    → (nonzero r || nonzero w) ≡ true
    → does which (access_of (nonzero r) (nonzero w)) ≡ nonzero (pick which r w)
does-access_of true r w h = reads-access_of (nonzero r) (nonzero w) h
does-access_of false r w h = writes-access_of (nonzero r) (nonzero w) h

nonzero-pick :
    (which : Bool) (r w : ℤ) → (nonzero r || nonzero w) ≡ false → nonzero (pick which r w) ≡ false
nonzero-pick true r w h = ground arith
nonzero-pick false r w h = ground arith

used-round :
    (which : Bool) (i p id : ℕ) (r w : ℤ) (previous position : ℕ) (output : List Use)
    → IsSwept id previous output
    → used which i p (round id r w previous position output) ≡ (
        used which i p output
        || ((id == i) && ((leb previous p && ltb p position) && nonzero (pick which r w))))
used-round which i p id r w previous position output s =
    elim (Bool-cases (nonzero r || nonzero w)) [
      | inr neither ↦ rw (neither, nonzero-pick which r w neither) (ground arith)
      | inl either ↦ elim (Bool-cases (ltb previous position)) [
        | inr stays ↦ rw stays (ground arith)
        | inl grows ↦
            rw
              (
                grows,
                either,
                used-emit id (access_of (nonzero r) (nonzero w)) previous position (ground arith)
                    which i p output s.0,
                does-access_of which r w either,
              )
              (ground arith)
      ]
    ]

sum_if-past :
    (which : Bool) (p lo : ℕ) (events : List Event)
    → p < lo
    → Ascending lo events
    → sum_if which (up_to p) events ≡ pos 0
unfolding sum_if
sum_if-past which p lo [] h asc = refl
sum_if-past which p lo (e ∷ events) h asc =
    let later : leb e.position p ≡ false = ground (arith, asc.0) in
    rw (later, sum_if-past which p (suc e.position) events (ground (arith, asc.0)) asc.1)
      (omega int_laws)

pub Ascending-mono :
    (a b : ℕ) (events : List Event) → a ≤ b → Ascending b events → Ascending a events
Ascending-mono a b [] h asc = tt
Ascending-mono a b (e ∷ events) h asc = (omega arith, asc.1)

plus_zero : (x : ℤ) → x +ℤ pos 0 ≡ x
plus_zero x = omega int_laws

zero_both : pos 0 +ℤ pos 0 ≡ pos 0
unfolding ◌+ℤ◌
zero_both = refl

pub nonzero_zero : nonzero (pos 0) ≡ false
unfolding nonzero
nonzero_zero = refl

-- What one event and the rest say of a byte.
byte_split :
    (same_id : Bool) (p previous position : ℕ) (u : Bool) (x d rest : ℤ)
    → previous ≤ position
    → (p < position → rest ≡ pos 0)
    → ((u || (same_id && ((leb previous p && ltb p position) && nonzero x)))
        || (same_id && (leb position p && nonzero (x +ℤ (d +ℤ rest)))))
      ≡ (u
          || (same_id
              && (leb previous p
                  && nonzero (x +ℤ ((if leb position p then d else pos 0) +ℤ rest)))))
byte_split same_id p previous position u x d rest h past_over = elim (Bool-cases (leb position p)) [
  | inl past ↦
      let begun : leb previous p ≡ true = ground arith in
      let over : ltb p position ≡ false = ground arith in rw (past, begun, over) (ground arith)
  | inr within ↦
      let empty : rest ≡ pos 0 = past_over (ground arith) in
      let inside : ltb p position ≡ true = ground arith in
      rw (within, inside, empty, zero_both, plus_zero x) (ground arith)
]

pick-delta :
    (which : Bool) (r w s : ℤ) (e : Event)
    → pick which (r +ℤ e.reads) (w +ℤ e.writes) +ℤ s ≡ pick which r w +ℤ (delta which e +ℤ s)
pick-delta true r w s e = omega int_laws
pick-delta false r w s e = omega int_laws

pub used-sweep :
    (which : Bool) (i p id : ℕ) (r w : ℤ) (previous : ℕ) (events : List Event) (output : List Use)
    → Ascending previous events
    → (pick which r w +ℤ sum_if which always events) ≡ pos 0
    → IsSwept id previous output
    → used which i p (sweep id r w previous events output) ≡ (
        used which i p output
        || ((id == i)
            && (leb previous p && nonzero (pick which r w +ℤ sum_if which (up_to p) events))))
unfolding sweep sum_if
used-sweep which i p id r w previous [] output asc left s = rw left (ground (arith, nonzero_zero))
used-sweep which i p id r w previous (e ∷ events) output asc left s =
    used-sweep which i p id (r +ℤ e.reads) (w +ℤ e.writes) e.position events
      (round id r w previous e.position output) (Ascending-mono _ _ events (omega arith) asc.1)
      (pick-delta which r w _ e ∙ left) (round-IsSwept id r w previous e.position output asc.0 s)
    ∙ rw (used-round which i p id r w previous e.position output s, pick-delta which r w _ e)
        (byte_split (id == i) p previous e.position (used which i p output) (pick which r w)
          (delta which e) _ asc.0
          (λ h. sum_if-past which p (suc e.position) events (omega arith) asc.1))
