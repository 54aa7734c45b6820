-- ===== src/Gpu/Barriers.antt =====
-- src/runtime.rs: the barriers that `finish_inner` emits stand between a node and what it waits for.
use hrx_rs.Common.{
  ℕ, zero, suc, ◌+◌, ◌≤◌, ◌<◌, ◌≡◌, refl, Bool, true, false, ◌⊎◌, inl, inr, Option, none, some,
  List, [], ◌∷◌, ◌∙◌, get_elem?, arith, dec_lt, Bool-cases,
}
use hrx_rs.Gpu.Recording.{Recorded, prepared, join, is_barrier, order_from, Graph, finish_order}

-- How many commands the first `k` nodes give: the place of node `k` in the replay.
unfoldable pub place : List (Recorded × Option ℕ) → ℕ → ℕ
place nodes zero = 0
place [] (suc k) = 0
place ((join, d) ∷ rest) (suc k) = place rest k
place ((prepared c, d) ∷ rest) (suc k) = suc (place rest k)

-- A barrier stands before the command of a node after `d`, up to node `j`.
abbrev BarrierIn : List (Recorded × Option ℕ) → List (ℕ × Bool) → ℕ → ℕ → ℕ → Type 0
BarrierIn nodes ordered index d j =
    (k : ℕ) × (c : ℕ) × (e : Option ℕ) × (d < index + k)
    × (k ≤ j)
    × (get_elem? nodes k ≡ some (prepared c, e))
    × (get_elem? ordered (place nodes k) ≡ some (c, true))

later_barrier :
    (node : Recorded × Option ℕ) (rest : List (Recorded × Option ℕ)) (index completed d j : ℕ)
    → BarrierIn rest (order_from (suc index) completed rest) (suc index) d j
    → (ordered : List (ℕ × Bool))
    → ((k : ℕ)
        → get_elem? ordered (place (node ∷ rest) (suc k))
          ≡ get_elem? (order_from (suc index) completed rest) (place rest k))
    → BarrierIn (node ∷ rest) ordered index d (suc j)
later_barrier node rest index completed d j (k, c, e, lt, le, at_k, bar) ordered same =
    (suc k, c, e, omega arith, omega arith, at_k, same k ∙ bar)

is_barrier-late :
    (completed d : ℕ) (e : Option ℕ) → e ≡ some d → completed ≤ d → is_barrier completed e ≡ true
unfolding is_barrier
is_barrier-late completed d none h le = cc
is_barrier-late completed d (some n) h le = ground arith

order_from-barrier :
    (nodes : List (Recorded × Option ℕ)) (index completed j b d : ℕ)
    → get_elem? nodes j ≡ some (prepared b, some d)
    → d < index + j
    → completed ≤ index
    → (d < completed) ⊎ BarrierIn nodes (order_from index completed nodes) index d j
unfolding order_from place
order_from-barrier [] index completed j b d at_j lt le = cc
order_from-barrier ((join, e) ∷ rest) index completed zero b d at_j lt le = cc
order_from-barrier ((join, e) ∷ rest) index completed (suc j) b d at_j lt le =
    elim (order_from-barrier rest (suc index) completed j b d at_j (omega arith) (omega arith)) [
      | inl done ↦ inl done
      | inr found ↦ inr (later_barrier (join, e) rest index completed d j found _ (λ k. refl))
    ]
order_from-barrier ((prepared c, e) ∷ rest) index completed zero b d at_j lt le =
    elim (dec_lt d completed) [
      | yes done ↦ inl done
      | no open_still ↦ inr (
        0,
        c,
        e,
        omega arith,
        omega arith,
        refl,
        rw (is_barrier-late completed d e (cc) (omega arith)) refl,
      )
    ]
order_from-barrier ((prepared c, e) ∷ rest) index completed (suc j) b d at_j lt le =
    elim (Bool-cases (is_barrier completed e)) [
      | inl stands ↦
          rw stands
            (elim (order_from-barrier rest (suc index) index j b d at_j (omega arith)
              (omega arith)) [
                | inl before ↦ inr (0, c, e, omega arith, omega arith, refl, refl)
                | inr found ↦ inr (
                    later_barrier (prepared c, e) rest index index d j found
                      ((c, true) ∷ order_from (suc index) index rest) (λ k. refl))
              ])
      | inr falls ↦
          rw falls
            (elim (order_from-barrier rest (suc index) completed j b d at_j (omega arith)
              (omega arith)) [
                | inl done ↦ inl done
                | inr found ↦ inr (
                    later_barrier (prepared c, e) rest index completed d j found
                      ((c, false) ∷ order_from (suc index) completed rest) (λ k. refl))
              ])
    ]

-- When a node with a command waits for an earlier node `d`, a barrier stands in the replay before the
-- command of some node after `d` and not after the node itself.
pub finish_order-barrier :
    (g : Graph) (j b d : ℕ)
    → get_elem? g.nodes j ≡ some (prepared b, some d)
    → d < j
    → (k : ℕ) × (c : ℕ) × (e : Option ℕ) × (d < k)
      × (k ≤ j)
      × (get_elem? g.nodes k ≡ some (prepared c, e))
      × (get_elem? (finish_order g) (place g.nodes k) ≡ some (c, true))
unfolding finish_order
finish_order-barrier g j b d at_j lt =
    elim (order_from-barrier g.nodes 0 0 j b d at_j (omega arith) (omega arith)) [
      | inl none_done ↦ absurd (omega arith)
      | inr (k, c, e, after, upto, at_k, bar) ↦ (k, c, e, omega arith, upto, at_k, bar)
    ]
