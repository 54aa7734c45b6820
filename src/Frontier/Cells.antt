-- ===== src/Frontier/Cells.antt =====
-- src/dependency_frontier.rs: what one pass over the segments does to each byte.
use hrx_rs.Common.{
  ℕ, ◌≤◌, ◌<◌, ◌≡◌, refl, Bool, true, false, ◌&&◌, ◌||◌, ◌⊎◌, inl, inr, Option, none, some, List,
  [], ◌∷◌, if◌then◌else◌, ltb, leb, ◌==◌, arith, dec_lt, Bool-cases,
}
use hrx_rs.Common.Sets.{contains, insert, extend_option, contains-insert, contains-extend}
use hrx_rs.Access.{Access, writes}
use hrx_rs.Frontier.Segments.{Segment, Chain, Cell, blank, covers, cell}
use hrx_rs.Frontier.Split.{Unsplit}
use hrx_rs.Frontier.Sweep.{gap, touch, harvest, sweep}

-- The same update, for one byte.
unfoldable pub touch_cell : ℕ → Access → Cell → Cell
touch_cell node access c =
    if writes access
    then record { writer = some node; readers = [] }
    else record { writer = c.writer; readers = insert node c.readers }

abbrev pub is_writer : ℕ → Option ℕ → Bool
is_writer x none = false
is_writer x (some w) = x == w

-- The nodes that an access to the byte has to wait for.
unfoldable pub needs : Access → Cell → ℕ → Bool
needs access c x = is_writer x c.writer || (writes access && contains x c.readers)

cell_beyond :
    (s : Segment) (rest : List Segment) (p : ℕ) → s.range.end ≤ p → cell (s ∷ rest) p ≡ cell rest p
unfolding cell
cell_beyond s rest p h = ground arith

cell_first :
    (s : Segment) (rest : List Segment)
    → s.range.start < s.range.end
    → cell (s ∷ rest) s.range.start ≡ record { writer = s.writer; readers = s.readers }
unfolding cell
cell_first s rest h = ground arith

pub needs-blank : (access : Access) (x : ℕ) → needs access blank x ≡ false
unfolding needs contains
needs-blank access x = ground arith

abbrev pub within : ℕ → ℕ → ℕ → Bool
within start finish p = leb start p && ltb p finish

contains-extend_option :
    (x : ℕ) (s : List ℕ) (o : Option ℕ)
    → contains x (extend_option s o) ≡ (contains x s || is_writer x o)
unfolding extend_option
contains-extend_option x s none = ground arith
contains-extend_option x s (some w) = ground (arith, contains-insert x w s)

pub cell_below : (lo p : ℕ) (segs : List Segment) → Chain lo segs → p < lo → cell segs p ≡ blank
unfolding cell
cell_below lo p [] c h = refl
cell_below lo p (s ∷ rest) c h = ground (arith, cell_below s.range.end p rest)

module _ (node : ℕ) (access : Access) where
  harvest-contains :
      (deps : List ℕ) (s : Segment) (x : ℕ)
      → contains x (harvest node access deps s)
        ≡ (contains x deps || needs access (record { writer = s.writer; readers = s.readers }) x)
  unfolding harvest needs
  harvest-contains deps s x = ground (
    arith,
    contains-extend x (extend_option deps s.writer) s.readers,
    contains-extend_option x deps s.writer,
  )

  module _ (finish : ℕ) where
    sweep_after :
        (position : ℕ) (segs : List Segment) (deps : List ℕ)
        → finish ≤ position
        → sweep node access finish position segs deps ≡ (segs, deps)
    unfolding sweep
    sweep_after position [] deps h = ground arith
    sweep_after position (s ∷ rest) deps h = ground arith

    -- Segments stay in order and apart.
    pub sweep-Chain :
        (lo position : ℕ) (segs : List Segment) (deps : List ℕ)
        → lo ≤ position
        → Chain position segs
        → Chain lo (sweep node access finish position segs deps).0
    unfolding sweep touch
    sweep-Chain lo position [] deps h c = ground arith
    sweep-Chain lo position (s ∷ rest) deps h c =
        ground (arith, sweep-Chain s.range.end s.range.end rest (harvest node access deps s))

    cell-touch :
        (s : Segment) (rest : List Segment) (p : ℕ)
        → cell (touch node access s ∷ rest) p ≡ (
            if covers s p
            then touch_cell node access (record { writer = s.writer; readers = s.readers })
            else cell rest p)
    unfolding cell touch touch_cell
    cell-touch s rest p = ground arith

    sweep_hit :
        (position : ℕ) (s : Segment) (rest : List Segment) (deps : List ℕ)
        → position < finish
        → s.range.start ≤ position
        → sweep node access finish position (s ∷ rest) deps ≡ (
            let next = sweep node access finish s.range.end rest (harvest node access deps s) in
            (touch node access s ∷ next.0, next.1))
    unfolding sweep
    sweep_hit position s rest deps h k = ground arith

    sweep-gap :
        (position : ℕ) (s : Segment) (rest : List Segment) (deps : List ℕ)
        → position < s.range.start
        → s.range.start < finish
        → sweep node access finish position (s ∷ rest) deps ≡ (
            let next = sweep node access finish s.range.end rest (harvest node access deps s) in
            (touch node access (gap position s.range.start) ∷ touch node access s ∷ next.0, next.1))
    unfolding sweep
    sweep-gap position s rest deps h k = ground arith

    abbrev next : Segment → List Segment → List ℕ → List Segment
    next s rest deps = (sweep node access finish s.range.end rest (harvest node access deps s)).0

    sweep_end :
        (position : ℕ) (deps : List ℕ)
        → position < finish
        → sweep node access finish position [] deps
          ≡ (touch node access (gap position finish) ∷ [], deps)
    unfolding sweep
    sweep_end position deps h = ground arith

    sweep_last_gap :
        (position : ℕ) (s : Segment) (rest : List Segment) (deps : List ℕ)
        → position < finish
        → finish ≤ s.range.start
        → sweep node access finish position (s ∷ rest) deps
          ≡ (touch node access (gap position finish) ∷ s ∷ rest, deps)
    unfolding sweep
    sweep_last_gap position s rest deps h k = ground arith

    cell-sweep_nil :
        (position : ℕ) (deps : List ℕ) (p : ℕ)
        → cell (sweep node access finish position [] deps).0 p
          ≡ (if within position finish p then touch_cell node access (cell [] p) else cell [] p)
    unfolding cell
    cell-sweep_nil position deps p = elim (dec_lt position finish) [
      | no done ↦ rw (sweep_after position [] deps (omega arith)) (ground arith)
      | yes more ↦
          rw (sweep_end position deps more) (ground (arith, cell-touch (gap position finish) [] p))
    ]

    cell-sweep_cons :
        (position : ℕ) (s : Segment) (rest : List Segment) (deps : List ℕ) (p : ℕ)
        → Chain position (s ∷ rest)
        → Unsplit finish (s ∷ rest)
        → cell (next s rest deps) p ≡ (
            if within s.range.end finish p
            then touch_cell node access (cell rest p)
            else cell rest p)
        → cell (sweep node access finish position (s ∷ rest) deps).0 p ≡ (
            if within position finish p
            then touch_cell node access (cell (s ∷ rest) p)
            else cell (s ∷ rest) p)
    unfolding cell
    cell-sweep_cons position s rest deps p c u later =
        let below = cell_below s.range.end p rest c.2 in
        elim (dec_lt position finish) [
          | no done ↦ rw (sweep_after position (s ∷ rest) deps (omega arith)) (ground arith)
          | yes more ↦ elim (dec_lt position s.range.start) [
            | no hit ↦
                rw (sweep_hit position s rest deps more (omega arith))
                  (ground (arith, cell-touch s (next s rest deps) p, later, below))
            | yes before ↦ elim (dec_lt s.range.start finish) [
              | yes more' ↦ rw (sweep-gap position s rest deps before more') (
                  ground (
                    arith,
                    cell-touch (gap position s.range.start) (touch node access s ∷ next s rest deps)
                        p,
                    cell-touch s (next s rest deps) p,
                    later,
                    below,
                  ))
              | no last ↦
                  rw (sweep_last_gap position s rest deps more (omega arith))
                    (ground (arith, cell-touch (gap position finish) (s ∷ rest) p))
            ]
          ]
        ]

    -- Bytes of the range are touched, the others are left alone.
    pub cell-sweep :
        (position : ℕ) (segs : List Segment) (deps : List ℕ) (p : ℕ)
        → Chain position segs
        → Unsplit finish segs
        → cell (sweep node access finish position segs deps).0 p
          ≡ (if within position finish p then touch_cell node access (cell segs p) else cell segs p)
    cell-sweep position [] deps p c u = cell-sweep_nil position deps p
    cell-sweep position (s ∷ rest) deps p c u =
        cell-sweep_cons position s rest deps p c u
          (cell-sweep s.range.end rest (harvest node access deps s) p c.2 u.1)

    abbrev next_deps : Segment → List Segment → List ℕ → List ℕ
    next_deps s rest deps =
        (sweep node access finish s.range.end rest (harvest node access deps s)).1

    abbrev own : Segment → Cell
    own s = record { writer = s.writer; readers = s.readers }

    -- What the pass collects: nothing, or the harvest of the first segment and of those behind it.
    sweep_deps :
        (position : ℕ) (s : Segment) (rest : List Segment) (deps : List ℕ)
        → (sweep node access finish position (s ∷ rest) deps).1 ≡ (
            if ltb position finish && ltb s.range.start finish then next_deps s rest deps else deps)
          ⊎ (s.range.start < position)
    unfolding sweep
    sweep_deps position s rest deps = ground arith

    pub sweep_mono :
        (position : ℕ) (segs : List Segment) (deps : List ℕ) (x : ℕ)
        → contains x deps ≡ true
        → contains x (sweep node access finish position segs deps).1 ≡ true
    unfolding sweep
    sweep_mono position [] deps x h = ground arith
    sweep_mono position (s ∷ rest) deps x h = ground (
      arith,
      sweep_mono s.range.end rest (harvest node access deps s) x,
      harvest-contains deps s x,
    )

    complete_cons :
        (position : ℕ) (s : Segment) (rest : List Segment) (deps : List ℕ) (p x : ℕ)
        → Chain position (s ∷ rest)
        → within position finish p ≡ true
        → needs access (cell (s ∷ rest) p) x ≡ true
        → (contains x (harvest node access deps s) ≡ true
            → contains x (next_deps s rest deps) ≡ true)
        → (within s.range.end finish p ≡ true
            → needs access (cell rest p) x ≡ true
            → contains x (next_deps s rest deps) ≡ true)
        → contains x (sweep node access finish position (s ∷ rest) deps).1 ≡ true
    unfolding cell
    complete_cons position s rest deps p x c w n mono later = ground (
      arith,
      sweep_deps position s rest deps,
      harvest-contains deps s x,
      cell_below s.range.end p rest c.2,
      needs-blank access x,
    )

    -- The pass collects every node that a byte of the range has to wait for.
    pub sweep_complete :
        (position : ℕ) (segs : List Segment) (deps : List ℕ) (p x : ℕ)
        → Chain position segs
        → within position finish p ≡ true
        → needs access (cell segs p) x ≡ true
        → contains x (sweep node access finish position segs deps).1 ≡ true
    unfolding cell
    sweep_complete position [] deps p x c w n = ground (arith, needs-blank access x)
    sweep_complete position (s ∷ rest) deps p x c w n =
        complete_cons position s rest deps p x c w n
          (sweep_mono s.range.end rest (harvest node access deps s) x)
          (sweep_complete s.range.end rest (harvest node access deps s) p x c.2)

    abbrev pub Cause : ℕ → List Segment → List ℕ → ℕ → Type 0
    Cause position segs deps x =
        (contains x deps ≡ true)
        ⊎ ((p : ℕ) × (within position finish p ≡ true) × (needs access (cell segs p) x ≡ true))

    sound_cons :
        (position : ℕ) (s : Segment) (rest : List Segment) (deps : List ℕ) (x : ℕ)
        → Chain position (s ∷ rest)
        → (contains x (next_deps s rest deps) ≡ true
            → Cause s.range.end rest (harvest node access deps s) x)
        → contains x (sweep node access finish position (s ∷ rest) deps).1 ≡ true
        → Cause position (s ∷ rest) deps x
    sound_cons position s rest deps x c later h = elim (sweep_deps position s rest deps) [
      | inr before ↦ absurd (omega arith)
      | inl e ↦ elim (Bool-cases (ltb position finish && ltb s.range.start finish)) [
        | inr none_met ↦ inl (rw (e, none_met) at h)
        | inl met ↦ elim (later (rw (e, met) at h)) [
          | inr (p, w, n) ↦ inr (p, ground arith, rw (cell_beyond s rest p (ground arith)) n)
          | inl c' ↦ elim (Bool-cases (contains x deps)) [
            | inl old ↦ inl old
            | inr new ↦ inr (
              s.range.start,
              ground arith,
              rw (cell_first s rest c.1) (ground (arith, harvest-contains deps s x)),
            )
          ]
        ]
      ]
    ]

    -- It collects no other.
    pub sweep_sound :
        (position : ℕ) (segs : List Segment) (deps : List ℕ) (x : ℕ)
        → Chain position segs
        → contains x (sweep node access finish position segs deps).1 ≡ true
        → Cause position segs deps x
    unfolding sweep
    sweep_sound position [] deps x c h = ground arith
    sweep_sound position (s ∷ rest) deps x c h =
        sound_cons position s rest deps x c
          (sweep_sound s.range.end rest (harvest node access deps s) x c.2) h
