-- ===== src/Gpu/Failures.antt =====
-- src/access_graph.rs: what a recording that fails leaves behind.
use hrx_rs.Common.{
  ℕ, ◌≡◌, refl, true, false, inl, inr, some, List, [], ◌∷◌, length, arith, Option-cases, Bool-cases,
}
use hrx_rs.Common.Errors.{Error, Result, err, Result-cases}
use hrx_rs.Common.Sets.{contains, contains-remove}
use hrx_rs.Access.{read, write, writes}
use hrx_rs.Frontier
use hrx_rs.Frontier.{
  Use, Frontier, Range, cell, Cell, touch_cell, needs, use_one, use_all, within, is_writer,
}
use hrx_rs.Frontier.Uses.{covers_byte, Ordered, use_one_sound, use_one-Ordered, cell-use_one}
use hrx_rs.Gpu.Recording.{View}
use hrx_rs.Gpu.AccessGraph.{
  AccessGraph, to_use, view_access, nodes_at, dependencies, settle, Operation, uses_of,
  record_operation, perform,
}

contains-none : (xs : List ℕ) → ((x : ℕ) → contains x xs ≡ false) → xs ≡ []
unfolding contains
contains-none [] h = refl
contains-none (y ∷ ys) h = absurd (ground (arith, h y))

-- Every byte of `inner` is a byte of `outer`.
abbrev pub Inside : View → View → Type 0
Inside inner outer =
    (inner.owner.pointer ≡ outer.owner.pointer)
    × ((p : ℕ)
        → covers_byte (to_use (view_access inner read)) p ≡ true
        → covers_byte (to_use (view_access outer write)) p ≡ true)

module _ (f : Frontier) (ordered : Ordered f) (node : ℕ) (outer inner : View)
    (inside : Inside inner outer) where
  abbrev written : Frontier
  written = (use_one node (to_use (view_access outer write)) f []).0

  reads_own :
      (x : ℕ)
      → contains x (use_one node (to_use (view_access inner read)) written []).1 ≡ true
      → x ≡ node
  unfolding touch_cell needs writes contains
  reads_own x h =
      elim (use_one_sound node (to_use (view_access inner read)) written []
        (use_one-Ordered node (to_use (view_access outer write)) f [] ordered) x h) [
          | inl none_before ↦ absurd (ground arith)
          | inr (p, w, n) ↦ ground (
            arith,
            inside.0,
            inside.1 p w,
            cell-use_one node (to_use (view_access outer write)) f [] ordered inner.owner.pointer p,
          )
        ]

  -- The frontier names the failed node alone, and a node does not wait for itself.
  hidden :
      (Frontier.dependencies node
        (to_use (view_access inner read) ∷ [])
        (Frontier.dependencies node (to_use (view_access outer write) ∷ []) f).0).1
      ≡ []
  unfolding Frontier.dependencies use_all
  hidden = contains-none _ λ x.
      elim (Bool-cases (contains x (use_one node (to_use (view_access inner read)) written []).1)) [
        | inl there ↦ ground (
          arith,
          reads_own x there,
          contains-remove x node (use_one node (to_use (view_access inner read)) written []).1,
        )
        | inr absent ↦ ground (
          arith,
          contains-remove x node (use_one node (to_use (view_access inner read)) written []).1,
        )
      ]

-- When the frontier's segments are in order and the recording of a fill fails after the frontier took it
-- in, a read whose bytes all lie in the range of the fill, if it is the next operation of the graph, is
-- given no dependency, whatever writes of the range were recorded before the fill: the frontier names the
-- failed operation as their successor, by the number that the read gets.
pub failed_fill_hides :
    (g g' : AccessGraph) (destination source : View) (encoded : Result ℕ) (e : Error)
    → Ordered g.frontier
    → Inside source destination
    → perform g (Operation.fill destination encoded) ≡ some (g', err e)
    → (dependencies g' (view_access source read ∷ [])).1 ≡ some []
unfolding perform dependencies settle uses_of nodes_at
failed_fill_hides g g' destination source encoded e ordered inside h =
    let deps =
      Frontier.dependencies (length g.nodes) (to_use (view_access destination write) ∷ [])
        g.frontier in
    elim (Option-cases (nodes_at g.nodes deps.1)) [
      | inl out ↦ absurd (ground arith)
      | inr (after, found) ↦
          elim (Result-cases
            (record_operation (Operation.fill destination encoded) g.graph after)) [
              | inl (r, recorded) ↦ absurd (ground arith)
              | inr (e', failed) ↦
                  let nodes : g'.nodes ≡ g.nodes = ground arith in
                  let frontier : g'.frontier ≡ deps.0 = ground arith in
                  rw
                    (
                      nodes,
                      frontier,
                      hidden g.frontier ordered (length g.nodes) destination source inside,
                    )
                    refl
            ]
    ]
