-- ===== src/Frontier/Causes.antt =====
-- src/dependency_frontier.rs: a dependency is never recorded without a conflict.
use hrx_rs.Common.{
  ℕ, ◌<◌, ◌≡◌, refl, Bool, true, false, ◌⊎◌, inl, inr, some, List, [], ◌∷◌, In, length,
  if◌then◌else◌, ◌==◌, arith, ◌||◌, ◌&&◌, Bool-cases, ◌∙◌, ◌≢◌, ℕ_discrete,
}
use hrx_rs.Common.Sets.{contains, remove, contains-remove, contains-insert}
use hrx_rs.Access.{writes}
use hrx_rs.Frontier.Segments.{Use, Frontier, cell}
use hrx_rs.Frontier.Cells.{touch_cell, needs, is_writer}
use hrx_rs.Frontier.Track.{use_one, use_all, dependencies}
use hrx_rs.Frontier.Uses.{covers_byte, Ordered, use_one-Ordered, cell-use_one, use_one_sound}
use hrx_rs.Frontier.Hazards.{Edge, track, Did, track-Ordered, length-track, Did-lt}

-- Node `n` made a use of the byte that writes it, or one that only reads it.
abbrev Made : (ℕ → Use → Type 0) → ℕ → ℕ → Bool → ℕ → Type 0
Made Event a p writing n =
    (v : Use) × Event n v
    × (v.allocation ≡ a)
    × (covers_byte v p ≡ true)
    × (writes v.access ≡ writing)

-- The frontier names a node only where the node made such a use.
record Justified (Event : ℕ → Use → Type 0) (f : Frontier) : Type 0 where
  writer : (a p w : ℕ) → (cell (f a) p).writer ≡ some w → Made Event a p true w
  reader : (a p r : ℕ) → contains r (cell (f a) p).readers ≡ true → Made Event a p false r

-- Node `x` made an earlier use that conflicts with `u`.
abbrev pub Conflict : (ℕ → Use → Type 0) → Use → ℕ → Type 0
Conflict Event u x =
    (v : Use) × (p : ℕ) × Event x v
    × (v.allocation ≡ u.allocation)
    × (covers_byte v p ≡ true)
    × (covers_byte u p ≡ true)
    × ((writes u.access || writes v.access) ≡ true)

module _ (node : ℕ) where
  abbrev OneMore : (ℕ → Use → Type 0) → Use → ℕ → Use → Type 0
  OneMore Event u n v = Event n v ⊎ ((n ≡ node) × (v ≡ u))

  module _ (Event : ℕ → Use → Type 0) (u : Use) (f : Frontier) (deps : List ℕ) (ordered : Ordered f)
      (just : Justified Event f) where
    still : (a p : ℕ) (b : Bool) (n : ℕ) → Made Event a p b n → Made (OneMore Event u) a p b n
    still a p b n (v, e, same, in_v, w) = (v, inl e, same, in_v, w)

    use_one-writer :
        (a p w : ℕ)
        → (cell ((use_one node u f deps).0 a) p).writer ≡ some w
        → Made (OneMore Event u) a p true w
    unfolding touch_cell
    use_one-writer a p w h = elim (Bool-cases ((a == u.allocation) && covers_byte u p)) [
      | inr miss ↦
          still a p true w
            (just.writer a p w (rw (cell-use_one node u f deps ordered a p, miss) at h))
      | inl hit ↦ elim (Bool-cases (writes u.access)) [
        | inl wr ↦ (
          u,
          inr (ground (arith, cell-use_one node u f deps ordered a p), refl),
          ground arith,
          ground arith,
          wr,
        )
        | inr rd ↦
            still a p true w
              (just.writer a p w (ground (arith, cell-use_one node u f deps ordered a p)))
      ]
    ]

    use_one-reader :
        (a p r : ℕ)
        → contains r (cell ((use_one node u f deps).0 a) p).readers ≡ true
        → Made (OneMore Event u) a p false r
    unfolding touch_cell contains
    use_one-reader a p r h = elim (Bool-cases ((a == u.allocation) && covers_byte u p)) [
      | inr miss ↦
          still a p false r
            (just.reader a p r (rw (cell-use_one node u f deps ordered a p, miss) at h))
      | inl hit ↦ elim (Bool-cases (writes u.access)) [
        | inl wr ↦ absurd (ground (arith, cell-use_one node u f deps ordered a p))
        | inr rd ↦ elim (ℕ_discrete r node) [
          | yes own ↦ (u, inr (own, refl), ground arith, ground arith, rd)
          | no other ↦ still a p false r (
              just.reader a p r (
                ground (
                  arith,
                  cell-use_one node u f deps ordered a p,
                  contains-insert r node (cell (f a) p).readers,
                )))
        ]
      ]
    ]

    use_one-Justified : Justified (OneMore Event u) (use_one node u f deps).0
    use_one-Justified = record { writer = use_one-writer; reader = use_one-reader }

    use_one-Conflict :
        (x : ℕ)
        → contains x (use_one node u f deps).1 ≡ true
        → (contains x deps ≡ true) ⊎ Conflict Event u x
    unfolding needs
    use_one-Conflict x h = elim (use_one_sound node u f deps ordered x h) [
      | inl old ↦ inl old
      | inr (p, w, n) ↦ elim (Bool-cases (is_writer x (cell (f u.allocation) p).writer)) [
        | inl is ↦
            let (v, e, same, in_v, wr) = just.writer u.allocation p x (ground arith) in
            inr (v, p, e, same, in_v, w, ground arith)
        | inr not ↦
            let (v, e, same, in_v, wr) = just.reader u.allocation p x (ground arith) in
            inr (v, p, e, same, in_v, w, ground arith)
      ]
    ]

  abbrev Uses : (ℕ → Use → Type 0) → List Use → ℕ → Use → Type 0
  Uses Event uses n v = Event n v ⊎ ((n ≡ node) × In v uses)

  Made-weaken :
      (E F : ℕ → Use → Type 0) (a p : ℕ) (b : Bool) (n : ℕ)
      → ((v : Use) → E n v → F n v)
      → Made E a p b n
      → Made F a p b n
  Made-weaken E F a p b n h (v, e, same, in_v, w) = (v, h v e, same, in_v, w)

  Justified-weaken :
      (E F : ℕ → Use → Type 0) (f : Frontier)
      → ((n : ℕ) (v : Use) → E n v → F n v)
      → Justified E f
      → Justified F f
  Justified-weaken E F f h just = record {
    writer = λ a p w e. Made-weaken E F a p true w (h w) (just.writer a p w e);
    reader = λ a p r e. Made-weaken E F a p false r (h r) (just.reader a p r e);
  }

  Conflict-weaken :
      (E F : ℕ → Use → Type 0) (u : Use) (x : ℕ)
      → ((v : Use) → E x v → F x v)
      → Conflict E u x
      → Conflict F u x
  Conflict-weaken E F u x h (v, p, e, a, b, c, d) = (v, p, h v e, a, b, c, d)

  Uses-regroup :
      (Event : ℕ → Use → Type 0) (u : Use) (uses : List Use) (n : ℕ) (v : Use)
      → Uses (OneMore Event u) uses n v
      → Uses Event (u ∷ uses) n v
  Uses-regroup Event u uses n v (inl (inl e)) = inl e
  Uses-regroup Event u uses n v (inl (inr (e, first))) = inr (e, inl first)
  Uses-regroup Event u uses n v (inr (e, later)) = inr (e, inr later)

  use_all-Justified :
      (Event : ℕ → Use → Type 0) (uses : List Use) (f : Frontier) (deps : List ℕ)
      → Ordered f
      → Justified Event f
      → Justified (Uses Event uses) (use_all node uses f deps).0
  unfolding use_all
  use_all-Justified Event [] f deps ordered just =
      Justified-weaken Event (Uses Event []) f (λ n v e. inl e) just
  use_all-Justified Event (u ∷ uses) f deps ordered just =
      Justified-weaken (Uses (OneMore Event u) uses) (Uses Event (u ∷ uses)) _
        (Uses-regroup Event u uses)
        (use_all-Justified (OneMore Event u) uses _ (use_one node u f deps).1
          (use_one-Ordered node u f deps ordered) (use_one-Justified Event u f deps ordered just))

  settle :
      (Event : ℕ → Use → Type 0) (u w : Use) (x : ℕ)
      → Conflict (OneMore Event u) w x
      → (x ≡ node) ⊎ Conflict Event w x
  settle Event u w x (v, p, inl e, a, b, c, d) = inr (v, p, e, a, b, c, d)
  settle Event u w x (v, p, inr (own, _), a, b, c, d) = inl own

  -- What the uses of an operation collect: what was there before, the node itself, which is taken
  -- out again, and nodes with a conflicting use.
  use_all-Conflict :
      (Event : ℕ → Use → Type 0) (uses : List Use) (f : Frontier) (deps : List ℕ) (x : ℕ)
      → Ordered f
      → Justified Event f
      → contains x (use_all node uses f deps).1 ≡ true
      → (contains x deps ≡ true) ⊎ (x ≡ node) ⊎ ((u : Use) × In u uses × Conflict Event u x)
  unfolding use_all
  use_all-Conflict Event [] f deps x ordered just h = inl h
  use_all-Conflict Event (u ∷ uses) f deps x ordered just h =
      elim (use_all-Conflict (OneMore Event u) uses _ _ x (use_one-Ordered node u f deps ordered)
        (use_one-Justified Event u f deps ordered just) h) [
          | inl early ↦ elim (use_one-Conflict Event u f deps ordered just x early) [
            | inl old ↦ inl old
            | inr c ↦ inr (inr (u, inl refl, c))
          ]
          | inr (inl own) ↦ inr (inl own)
          | inr (inr (w, m, c)) ↦ elim (settle Event u w x c) [
            | inl own ↦ inr (inl own)
            | inr c' ↦ inr (inr (w, inr m, c'))
          ]
        ]

Did-join :
    (uses : List Use) (older : List (List Use)) (n : ℕ) (u : Use)
    → Did older n u ⊎ ((n ≡ length older) × In u uses)
    → Did (uses ∷ older) n u
Did-join uses older n u (inl d) = inr d
Did-join uses older n u (inr now) = inl now

track-Justified : (ops : List (List Use)) → Justified (Did ops) (track ops).0
unfolding track dependencies cell contains
track-Justified [] = record { writer = λ a p w e. cc; reader = λ a p r e. cc }
track-Justified (uses ∷ older) =
    Justified-weaken (length older) (Uses (length older) (Did older) uses) (Did (uses ∷ older)) _
      (Did-join uses older)
      (use_all-Justified (length older) (Did older) uses (track older).0 [] (track-Ordered older)
        (track-Justified older))

abbrev pub OrderedBy : List (List Use) → ℕ → ℕ → Type 0
OrderedBy ops i j = (u : Use) × (i < j) × Did ops j u × Conflict (Did ops) u i

edge_older :
    (uses : List Use) (older : List (List Use)) (i j : ℕ)
    → OrderedBy older i j
    → OrderedBy (uses ∷ older) i j
edge_older uses older i j (u, lt, d, c) =
    (u, lt, inr d, Conflict-weaken i (Did older) (Did (uses ∷ older)) u i (λ v e. inr e) c)

edge_new :
    (uses : List Use) (older : List (List Use)) (i j : ℕ)
    → j ≡ length older
    → (contains i [] ≡ true)
      ⊎ (i ≡ length older)
      ⊎ ((u : Use) × In u uses × Conflict (Did older) u i)
    → i ≢ length older
    → OrderedBy (uses ∷ older) i j
unfolding contains
edge_new uses older i j e (inl h) other = cc
edge_new uses older i j e (inr (inl own)) other = absurd (other own)
edge_new uses older i j e (inr (inr (u, m, c))) other = (
  u,
  omega (arith, Did-lt older i c.0 c.2),
  inl (e, m),
  Conflict-weaken i (Did older) (Did (uses ∷ older)) u i (λ v d. inr d) c,
)

removed :
    (uses : List Use) (older : List (List Use)) (i : ℕ)
    → let all_uses = use_all (length older) uses (track older).0 [] in
      contains i (remove (length older) all_uses.1)
      ≡ (if i == length older then false else contains i all_uses.1)
removed uses older i =
    contains-remove i (length older) (use_all (length older) uses (track older).0 []).1

-- After any sequence of operations, every dependency of a node leads to an earlier node, and the two
-- made uses of one byte of which at least one writes.
pub Edge-conflicts : (ops : List (List Use)) (i j : ℕ) → Edge (track ops).1 j i → OrderedBy ops i j
unfolding track dependencies contains
Edge-conflicts [] i j e = elim e [ ]
Edge-conflicts (uses ∷ older) i j (inl (e, m)) =
    edge_new uses older i j (e ∙ length-track older)
      (use_all-Conflict (length older) (Did older) uses (track older).0 [] i (track-Ordered older)
        (track-Justified older) (ground (arith, removed uses older i)))
      (ground (arith, removed uses older i))
Edge-conflicts (uses ∷ older) i j (inr e) = edge_older uses older i j (Edge-conflicts older i j e)
