-- ===== src/Frontier/Hazards.antt =====
-- src/dependency_frontier.rs: the dependencies order every pair of accesses that conflict.
use hrx_rs.Common.{
  ℕ, suc, ◌<◌, ◌≡◌, refl, true, false, ◌⊎◌, inl, inr, some, List, [], ◌∷◌, In, length, ◌==◌, arith,
  ◌||◌, ◌&&◌, Bool-cases, subst, sym, ap, ℕ_discrete,
}
use hrx_rs.Common.Sets.{contains, contains-remove, contains-insert}
use hrx_rs.Access.{Access, writes}
use hrx_rs.Frontier.Segments.{Use, Frontier, Cell, cell}
use hrx_rs.Frontier.Cells.{touch_cell, needs}
use hrx_rs.Frontier.Track.{use_one, use_all, dependencies}
use hrx_rs.Frontier.Uses.{
  covers_byte, Ordered, use_one-Ordered, cell-use_one, use_one_complete, use_all-Ordered,
  use_all_mono,
}

-- The graph of nodes: for each one what it waits for, the newest first.
abbrev pub Edge : List (List ℕ) → ℕ → ℕ → Type 0
Edge [] j i = ⊥
Edge (deps ∷ older) j i = ((j ≡ length older) × (contains i deps ≡ true)) ⊎ Edge older j i

-- `j` runs after `i`, or is `i`.
pub data Reach (edges : List (List ℕ)) : ℕ → ℕ → Type 0 where
  stop : (j : ℕ) → Reach edges j j
  hop : (j k i : ℕ) → Edge edges j k → Reach edges k i → Reach edges j i

Reach-older :
    {edges : List (List ℕ)} (deps : List ℕ) {j i : ℕ} → Reach edges j i → Reach (deps ∷ edges) j i
Reach-older deps (stop j) = stop j
Reach-older deps (hop j k i e r) = hop j k i (inr e) (Reach-older deps r)

-- Operations of which each is a list of uses, the newest first; a node is numbered by its age.
unfoldable pub track : List (List Use) → Frontier × List (List ℕ)
track [] = (λ _. [], [])
track (uses ∷ older) =
    let past = track older in
    let found = dependencies (length older) uses past.0 in (found.0, found.1 ∷ past.1)

-- Node `n` made the use `u`.
abbrev pub Did : List (List Use) → ℕ → Use → Type 0
Did [] n u = ⊥
Did (uses ∷ older) n u = ((n ≡ length older) × In u uses) ⊎ Did older n u

module _ (edges : List (List ℕ)) where
  -- What a byte remembers of an access: its last writer comes after it, or it is one of the reads
  -- since.
  abbrev Held : Cell → ℕ → Access → Type 0
  Held c n access =
      ((w : ℕ) × (c.writer ≡ some w) × Reach edges w n)
      ⊎ ((writes access ≡ false) × (contains n c.readers ≡ true))

  abbrev HeldAll : (ℕ → Use → Type 0) → Frontier → Type 0
  HeldAll Event f =
      (n : ℕ) (u : Use) (p : ℕ)
      → Event n u
      → covers_byte u p ≡ true
      → Held (cell (f u.allocation) p) n u.access

  module _ (node : ℕ) where
    abbrev Waits : ℕ → Type 0
    Waits x = (x ≡ node) ⊎ Edge edges node x

    Waits-Reach : (x i : ℕ) → Waits x → Reach edges x i → Reach edges node i
    Waits-Reach x i (inl e) r = subst (λ y. Reach edges y i) e r
    Waits-Reach x i (inr e) r = hop node x i e r

    module _ (access : Access) (c : Cell)
        (waits : (x : ℕ) → needs access c x ≡ true → Waits x) where
      -- An access that conflicts with one that the byte remembers comes after it.
      conflict-Reach :
          (n : ℕ) (earlier : Access)
          → Held c n earlier
          → (writes access || writes earlier) ≡ true
          → Reach edges node n
      unfolding needs
      conflict-Reach n earlier (inl (w, e, r)) h = Waits-Reach w n (waits w (ground arith)) r
      conflict-Reach n earlier (inr (quiet, reads)) h =
          Waits-Reach n n (waits n (ground arith)) (stop n)

      touch-Held :
          (n : ℕ) (earlier : Access) → Held c n earlier → Held (touch_cell node access c) n earlier
      unfolding touch_cell
      touch-Held n earlier h = elim (Bool-cases (writes access)) [
        | inl w ↦ rw w (inl (node, refl, conflict-Reach n earlier h (ground arith)))
        | inr q ↦ rw q (ground (arith, h, contains-insert n node c.readers))
      ]

      touch_new-Held : Held (touch_cell node access c) node access
      unfolding touch_cell
      touch_new-Held = elim (Bool-cases (writes access)) [
        | inl w ↦ rw w (inl (node, refl, stop node))
        | inr q ↦ rw q (inr (refl, ground (arith, contains-insert node node c.readers)))
      ]

    abbrev OneMore : (ℕ → Use → Type 0) → Use → ℕ → Use → Type 0
    OneMore Event u n v = Event n v ⊎ ((n ≡ node) × (v ≡ u))

    module _ (u : Use) (f : Frontier) (deps : List ℕ) (ordered : Ordered f)
        (waits : (x : ℕ) → contains x (use_one node u f deps).1 ≡ true → Waits x) where
      Waits-at :
          (p : ℕ)
          → covers_byte u p ≡ true
          → (x : ℕ) → needs u.access (cell (f u.allocation) p) x ≡ true
          → Waits x
      Waits-at p w x n = waits x (use_one_complete node u f deps ordered p x w n)

      module _ (Event : ℕ → Use → Type 0) (held : HeldAll Event f) where
        use_one-Reach :
            (n : ℕ) (v : Use) (p : ℕ)
            → Event n v
            → v.allocation ≡ u.allocation
            → covers_byte v p ≡ true
            → covers_byte u p ≡ true
            → (writes u.access || writes v.access) ≡ true
            → Reach edges node n
        use_one-Reach n v p event same in_v in_u conflict =
            conflict-Reach u.access (cell (f u.allocation) p) (Waits-at p in_u) n v.access
              (subst (λ a. Held (cell (f a) p) n v.access) same (held n v p event in_v)) conflict

        touched-Held :
            (n : ℕ) (v : Use) (p : ℕ)
            → OneMore Event u n v
            → covers_byte v p ≡ true
            → v.allocation ≡ u.allocation
            → covers_byte u p ≡ true
            → Held (touch_cell node u.access (cell (f v.allocation) p)) n v.access
        touched-Held n v p (inl event) in_v same in_u =
            touch-Held u.access (cell (f v.allocation) p)
              (subst (λ a. (x : ℕ) → needs u.access (cell (f a) p) x ≡ true → Waits x) (sym same)
                (Waits-at p in_u))
              n v.access (held n v p event in_v)
        touched-Held n v p (inr (e, e')) in_v same in_u =
            rw (e, e') (touch_new-Held u.access (cell (f u.allocation) p) (Waits-at p in_u))

        missed-Held :
            (n : ℕ) (v : Use) (p : ℕ)
            → OneMore Event u n v
            → covers_byte v p ≡ true
            → ((v.allocation == u.allocation) && covers_byte u p) ≡ false
            → Held (cell (f v.allocation) p) n v.access
        missed-Held n v p (inl event) in_v miss = held n v p event in_v
        missed-Held n v p (inr (e, e')) in_v miss = absurd (
            ground (
              arith,
              subst (λ (z : Use). covers_byte z p ≡ true) e' in_v,
              ap (λ (z : Use). z.allocation) e',
            ))

        use_one-Held : HeldAll (OneMore Event u) (use_one node u f deps).0
        use_one-Held n v p event in_v =
            elim (Bool-cases ((v.allocation == u.allocation) && covers_byte u p)) [
              | inl hit ↦
                  rw (cell-use_one node u f deps ordered v.allocation p, hit)
                    (touched-Held n v p event in_v (ground arith) (ground arith))
              | inr miss ↦
                  rw (cell-use_one node u f deps ordered v.allocation p, miss)
                    (missed-Held n v p event in_v miss)
            ]

    first-Waits :
        (u : Use) (uses : List Use) (f : Frontier) (deps : List ℕ)
        → Ordered f
        → ((x : ℕ) → contains x (use_all node (u ∷ uses) f deps).1 ≡ true → Waits x)
        → (x : ℕ) → contains x (use_one node u f deps).1 ≡ true
        → Waits x
    unfolding use_all
    first-Waits u uses f deps ordered waits x h =
        waits x (use_all_mono node uses _ _ x (use_one-Ordered node u f deps ordered) h)

    -- The uses of one operation in turn: what held of the earlier accesses holds of those too,
    abbrev Uses : (ℕ → Use → Type 0) → List Use → ℕ → Use → Type 0
    Uses Event uses n v = Event n v ⊎ ((n ≡ node) × In v uses)

    Uses-regroup :
        (Event : ℕ → Use → Type 0) (u : Use) (uses : List Use) (n : ℕ) (v : Use)
        → Uses Event (u ∷ uses) n v
        → Uses (OneMore Event u) uses n v
    Uses-regroup Event u uses n v (inl e) = inl (inl e)
    Uses-regroup Event u uses n v (inr (e, inl first)) = inl (inr (e, first))
    Uses-regroup Event u uses n v (inr (e, inr later)) = inr (e, later)

    use_all-Held :
        (uses : List Use) (f : Frontier) (deps : List ℕ) (Event : ℕ → Use → Type 0)
        → Ordered f
        → HeldAll Event f
        → ((x : ℕ) → contains x (use_all node uses f deps).1 ≡ true → Waits x)
        → HeldAll (Uses Event uses) (use_all node uses f deps).0
    unfolding use_all
    use_all-Held [] f deps Event ordered held waits n v p (inl e) w = held n v p e w
    use_all-Held [] f deps Event ordered held waits n v p (inr (e, none_left)) w =
        elim none_left [ ]
    use_all-Held (u ∷ uses) f deps Event ordered held waits n v p e w =
        use_all-Held uses _ _ (OneMore Event u) (use_one-Ordered node u f deps ordered)
          (use_one-Held u f deps ordered (first-Waits u uses f deps ordered waits) Event held) waits
          n v p (Uses-regroup Event u uses n v e) w

    -- and each of them comes after every earlier access that it conflicts with.
    abbrev Follows : (ℕ → Use → Type 0) → Use → Type 0
    Follows Event u =
        (n : ℕ) (v : Use) (p : ℕ)
        → Event n v
        → v.allocation ≡ u.allocation
        → covers_byte v p ≡ true
        → covers_byte u p ≡ true
        → (writes u.access || writes v.access) ≡ true
        → Reach edges node n

    use_all-Follows :
        (uses : List Use) (f : Frontier) (deps : List ℕ) (Event : ℕ → Use → Type 0)
        → Ordered f
        → HeldAll Event f
        → ((x : ℕ) → contains x (use_all node uses f deps).1 ≡ true → Waits x)
        → (u : Use) → In u uses
        → Follows Event u
    unfolding use_all
    use_all-Follows [] f deps Event ordered held waits u m = elim m [ ]
    use_all-Follows (w ∷ uses) f deps Event ordered held waits u (inl e) =
        subst (Follows Event) (sym e)
          (use_one-Reach w f deps ordered (first-Waits w uses f deps ordered waits) Event held)
    use_all-Follows (w ∷ uses) f deps Event ordered held waits u (inr later) = λ n v p event.
        use_all-Follows uses _ _ (OneMore Event w) (use_one-Ordered node w f deps ordered)
          (use_one-Held w f deps ordered (first-Waits w uses f deps ordered waits) Event held) waits
          u later n v p (inl event)

pub length-track : (ops : List (List Use)) → length (track ops).1 ≡ length ops
unfolding track
length-track [] = refl
length-track (uses ∷ older) = ap suc (length-track older)

pub Did-lt : (ops : List (List Use)) (n : ℕ) (u : Use) → Did ops n u → n < length ops
Did-lt [] n u d = elim d [ ]
Did-lt (uses ∷ older) n u (inl (e, m)) = omega arith
Did-lt (uses ∷ older) n u (inr d) = omega (arith, Did-lt older n u d)

pub track-Ordered : (ops : List (List Use)) → Ordered (track ops).0
unfolding track dependencies
track-Ordered [] = λ a. tt
track-Ordered (uses ∷ older) =
    use_all-Ordered (length older) uses (track older).0 [] (track-Ordered older)

-- The new node waits for all that its uses collect.
track-Waits :
    (uses : List Use) (older : List (List Use)) (x : ℕ)
    → contains x (use_all (length older) uses (track older).0 []).1 ≡ true
    → Waits (track (uses ∷ older)).1 (length older) x
unfolding track dependencies
track-Waits uses older x h = elim (ℕ_discrete x (length older)) [
  | yes own ↦ inl own
  | no other ↦ inr (
      inl (
        sym (length-track older),
        ground (
          arith,
          contains-remove x (length older) (use_all (length older) uses (track older).0 []).1,
        ),
      ))
]

older_Held :
    (uses : List Use) (older : List (List Use))
    → HeldAll (track older).1 (Did older) (track older).0
    → HeldAll (track (uses ∷ older)).1 (Did older) (track older).0
unfolding track
older_Held uses older held n u p d w = elim (held n u p d w) [
  | inl (k, e, r) ↦ inl (k, e, Reach-older _ r)
  | inr q ↦ inr q
]

pub Did-split :
    (uses : List Use) (older : List (List Use)) (n : ℕ) (u : Use)
    → Did (uses ∷ older) n u
    → Did older n u ⊎ ((n ≡ length older) × In u uses)
Did-split uses older n u (inl now) = inr now
Did-split uses older n u (inr d) = inl d

track-Held : (ops : List (List Use)) → HeldAll (track ops).1 (Did ops) (track ops).0
unfolding track dependencies
track-Held [] n u p d w = elim d [ ]
track-Held (uses ∷ older) n u p d w =
    use_all-Held (track (uses ∷ older)).1 (length older) uses (track older).0 [] (Did older)
      (track-Ordered older) (older_Held uses older (track-Held older)) (track-Waits uses older) n u
      p (Did-split uses older n u d) w

-- After any sequence of operations, when two of them use one byte and one of the two uses writes, the
-- dependencies lead from the later node to the earlier one.
pub conflicts_ordered :
    (ops : List (List Use)) (i j : ℕ) (u v : Use) (p : ℕ)
    → Did ops j u
    → Did ops i v
    → i < j
    → v.allocation ≡ u.allocation
    → covers_byte v p ≡ true
    → covers_byte u p ≡ true
    → (writes u.access || writes v.access) ≡ true
    → Reach (track ops).1 j i
unfolding track
conflicts_ordered [] i j u v p dj di lt same in_v in_u conflict = elim dj [ ]
conflicts_ordered (uses ∷ older) i j u v p (inl (e, m)) (inl (e', m')) lt same in_v in_u conflict =
    absurd (omega arith)
conflicts_ordered (uses ∷ older) i j u v p (inl (e, m)) (inr d) lt same in_v in_u conflict = rw e (
    use_all-Follows (track (uses ∷ older)).1 (length older) uses (track older).0 [] (Did older)
      (track-Ordered older) (older_Held uses older (track-Held older)) (track-Waits uses older) u m
      i v p d same in_v in_u conflict)
conflicts_ordered (uses ∷ older) i j u v p (inr d) (inl (e', m')) lt same in_v in_u conflict =
    absurd (omega (arith, Did-lt older j u d))
conflicts_ordered (uses ∷ older) i j u v p (inr d) (inr d') lt same in_v in_u conflict =
    Reach-older _ (conflicts_ordered older i j u v p d d' lt same in_v in_u conflict)
