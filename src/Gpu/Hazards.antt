-- ===== src/Gpu/Hazards.antt =====
-- src/access_graph.rs and src/runtime.rs: conflicting operations have a barrier between them.
use hrx_rs.Common.{
  ℕ, zero, suc, ◌≤◌, ◌<◌, ◌≡◌, refl, sym, ap, ◌∙◌, true, ◌||◌, inl, inr, Option, some, List, [],
  ◌∷◌, ◌++◌, length, get_elem?, map, max, arith, Option-cases, length-append, All,
  get_elem?-append_left, get_elem?-append_at, get_elem?-lt, ℕ_discrete, dec_lt, All-append,
}
use hrx_rs.Common.Errors.{ok, Result-cases}
use hrx_rs.Common.Sets.{contains}
use hrx_rs.Access.{writes}
use hrx_rs.Frontier
use hrx_rs.Frontier.{Use, Frontier}
use hrx_rs.Frontier.Uses.{covers_byte}
use hrx_rs.Frontier.Hazards.{Edge, Reach, stop, hop, track, length-track, Did, conflicts_ordered}
use hrx_rs.Frontier.Causes.{Edge-conflicts}
use hrx_rs.Gpu.Recording.{Node, Recorded, prepared, join, max_index, finish_order}
use hrx_rs.Gpu.Barriers.{place, finish_order-barrier}
use hrx_rs.Gpu.AccessGraph.{
  AccessGraph, to_use, nodes_at, dependencies, settle, Operation, uses_of, record_operation,
  perform,
}
use hrx_rs.Gpu.History.{Built, empty, next, Appends, record_operation-Appends}

-- Node `k` of the list has index `k`.
abbrev Numbered : List Node → Type 0
Numbered nodes = (k : ℕ) (node : Node) → get_elem? nodes k ≡ some node → node.index ≡ k

nodes_at-cons :
    (nodes : List Node) (d : ℕ) (deps : List ℕ) (after : List Node)
    → nodes_at nodes (d ∷ deps) ≡ some after
    → (node : Node) × (rest : List Node) × (get_elem? nodes d ≡ some node)
      × (nodes_at nodes deps ≡ some rest)
      × (after ≡ node ∷ rest)
unfolding nodes_at
nodes_at-cons nodes d deps after h = elim (Option-cases (get_elem? nodes d)) [
  | inl out ↦ absurd (ground arith)
  | inr (node, found) ↦ elim (Option-cases (nodes_at nodes deps)) [
    | inl out ↦ absurd (ground arith)
    | inr (rest, later) ↦ (node, rest, found, later, ground arith)
  ]
]

max_index-ge :
    (nodes : List Node)
    → Numbered nodes
    → (deps : List ℕ) (after : List Node) (i : ℕ) → nodes_at nodes deps ≡ some after
    → contains i deps ≡ true
    → (m : ℕ) × (max_index after ≡ some m) × (i ≤ m)
unfolding contains max_index
max_index-ge nodes numbered [] after i h c = absurd (ground arith)
max_index-ge nodes numbered (d ∷ deps) after i h c =
    let (node, rest, found, later, e) = nodes_at-cons nodes d deps after h in
    let index = numbered d node found in
    rw e (elim (ℕ_discrete i d) [
      | yes own ↦ elim (Option-cases (max_index rest)) [
        | inl last ↦ (node.index, ground arith, omega arith)
        | inr (m, more) ↦ (max node.index m, ground arith, omega arith)
      ]
      | no other ↦
          let (m, more, le) = max_index-ge nodes numbered deps rest i later (ground arith) in
          (max node.index m, ground arith, omega arith)
    ])

max_index-contains :
    (nodes : List Node)
    → Numbered nodes
    → (deps : List ℕ) (after : List Node) (m : ℕ) → nodes_at nodes deps ≡ some after
    → max_index after ≡ some m
    → contains m deps ≡ true
unfolding contains max_index nodes_at
max_index-contains nodes numbered [] after m h e = absurd (ground arith)
max_index-contains nodes numbered (d ∷ deps) after m h e =
    let (node, rest, found, later, e') = nodes_at-cons nodes d deps after h in
    let index = numbered d node found in
    let e'' = rw e' at e in
    elim (Option-cases (max_index rest)) [
      | inl last ↦ ground arith
      | inr (k, more) ↦ ground (arith, max_index-contains nodes numbered deps rest k later more)
    ]

-- What a successful operation has done.
record Performed (g : AccessGraph) (op : Operation) (g' : AccessGraph) (node : Node) : Type 0 where
  after : List Node
  found :
      nodes_at g.nodes
        (Frontier.dependencies (length g.nodes) (map to_use (uses_of op)) g.frontier).1
      ≡ some after
  frontier :
      g'.frontier ≡ (Frontier.dependencies (length g.nodes) (map to_use (uses_of op)) g.frontier).0
  nodes : g'.nodes ≡ g.nodes ++ node ∷ []
  appends : Appends g.graph after g'.graph node

perform-Performed :
    (g : AccessGraph) (op : Operation) (g' : AccessGraph) (node : Node)
    → perform g op ≡ some (g', ok node)
    → Performed g op g' node
unfolding perform dependencies settle
perform-Performed g op g' node h =
    elim (Option-cases (
      nodes_at g.nodes
        (Frontier.dependencies (length g.nodes) (map to_use (uses_of op)) g.frontier).1)) [
          | inl out ↦ absurd (ground arith)
          | inr (after, found) ↦ elim (Result-cases (record_operation op g.graph after)) [
            | inr (e, failed) ↦ absurd (ground arith)
            | inl (r, recorded) ↦ record {
              after = after;
              found = found;
              frontier = ground arith;
              nodes = ground arith;
              appends = record_operation-Appends op g.graph after g'.graph node (ground arith);
            }
          ]
        ]

abbrev IsPrepared : Recorded × Option ℕ → Type 0
IsPrepared r = (c : ℕ) × (r.0 ≡ prepared c)

record Inv (g : AccessGraph) (ops : List (List Use)) : Type 0 where
  frontier : g.frontier ≡ (track ops).0
  count : length g.nodes ≡ length ops
  graph_count : length g.graph.nodes ≡ length ops
  numbered : Numbered g.nodes
  all_prepared : All IsPrepared g.graph.nodes
  stored :
      (j i : ℕ)
      → Edge (track ops).1 j i
      → (c : ℕ) × (d : ℕ) × (get_elem? g.graph.nodes j ≡ some (prepared c, some d))
        × (i ≤ d)
        × (d < j)

module _ {g : AccessGraph} {ops : List (List Use)} (inv : Inv g ops) (op : Operation)
    {g' : AccessGraph} {node : Node} (done : Performed g op g' node) where
  abbrev uses : List Use
  uses = map to_use (uses_of op)

  abbrev deps : List ℕ
  deps = (Frontier.dependencies (length ops) uses (track ops).0).1

  found_deps : nodes_at g.nodes deps ≡ some done.after
  found_deps = rw (inv.count, inv.frontier) at done.found

  new_stored :
      (i : ℕ)
      → contains i deps ≡ true
      → (c : ℕ) × (d : ℕ) × (get_elem? g'.graph.nodes (length ops) ≡ some (prepared c, some d))
        × (i ≤ d)
        × (d < length ops)
  unfolding track
  new_stored i m =
      let (d, top, le) = max_index-ge g.nodes inv.numbered deps done.after i found_deps m in
      let present = max_index-contains g.nodes inv.numbered deps done.after d found_deps top in
      let edge =
        Edge-conflicts (uses ∷ ops) d (length ops) (inl (sym (length-track ops), present)) in
      (
        done.appends.command,
        d,
        rw (done.appends.nodes, top)
            (get_elem?-append_at g.graph.nodes _ (length ops) (sym inv.graph_count)),
        le,
        edge.1,
      )

  old_stored :
      (j i : ℕ)
      → Edge (track ops).1 j i
      → (c : ℕ) × (d : ℕ) × (get_elem? g'.graph.nodes j ≡ some (prepared c, some d))
        × (i ≤ d)
        × (d < j)
  old_stored j i e =
      let (c, d, at_j, le, lt) = inv.stored j i e in
      (
        c,
        d,
        rw done.appends.nodes
            (get_elem?-append_left g.graph.nodes _ j (get_elem?-lt g.graph.nodes j _ at_j) ∙ at_j),
        le,
        lt,
      )

  numbered_new :
      (k : ℕ) (n : Node) → k ≡ length g.nodes → get_elem? g'.nodes k ≡ some n → n.index ≡ k
  numbered_new k n e h =
      let h' = rw done.nodes at h in
      let same : node ≡ n = cc (sym (get_elem?-append_at g.nodes node k e) ∙ h') in
      omega (
        arith,
        inv.count,
        inv.graph_count,
        done.appends.node_index,
        ap (λ (m : Node). m.index) same,
      )

  Numbered-next : Numbered g'.nodes
  Numbered-next k n h = elim (dec_lt k (length g.nodes)) [
    | yes old ↦
        inv.numbered k n
          (sym (get_elem?-append_left g.nodes (node ∷ []) k old) ∙ (rw done.nodes at h))
    | no new ↦
        numbered_new k n
          (omega (
            arith,
            get_elem?-lt g'.nodes k n h,
            ap length done.nodes,
            length-append g.nodes (node ∷ []),
          ))
          h
  ]

  step-Inv : Inv g' (uses ∷ ops)
  unfolding track
  step-Inv = record {
    frontier = rw (done.frontier, inv.count, inv.frontier);
    count = rw done.nodes (omega (arith, length-append g.nodes (node ∷ []), inv.count));
    graph_count = rw done.appends.nodes (
        omega (
          arith,
          length-append g.graph.nodes ((prepared done.appends.command, max_index done.after) ∷ []),
          inv.graph_count,
        ));
    numbered = Numbered-next;
    all_prepared =
        rw done.appends.nodes (
          All-append IsPrepared g.graph.nodes _ inv.all_prepared
            ((done.appends.command, refl), tt));
    stored = λ j i e. elim e [
      | inl (here, m) ↦ rw (here ∙ length-track ops) (new_stored i m)
      | inr older ↦ old_stored j i older
    ];
  }

Built-Inv :
    {device id : ℕ} {g : AccessGraph} {ops : List (List Use)} → Built device id g ops → Inv g ops
unfolding track
Built-Inv empty = record {
  frontier = refl;
  count = refl;
  graph_count = refl;
  numbered = λ k node h. cc;
  all_prepared = tt;
  stored = λ j i e. elim e [ ];
}
Built-Inv (next {g} {g'} op node b e) = step-Inv (Built-Inv b) op (perform-Performed g op g' node e)

place-prepared :
    (nodes : List (Recorded × Option ℕ)) (k : ℕ)
    → All IsPrepared nodes
    → k ≤ length nodes
    → place nodes k ≡ k
unfolding place
place-prepared nodes zero p h = refl
place-prepared [] (suc k) p h = absurd (omega arith)
place-prepared ((prepared c, d) ∷ rest) (suc k) p h =
    ap suc (place-prepared rest k p.1 (omega arith))
place-prepared ((join, d) ∷ rest) (suc k) ((c, e), p) h = cc

Reach-le : (ops : List (List Use)) {j i : ℕ} → Reach (track ops).1 j i → i ≤ j
Reach-le ops (stop j) = omega arith
Reach-le ops (hop j k i e r) = omega (arith, (Edge-conflicts ops k j e).1, Reach-le ops r)

Reach-barrier :
    {device id : ℕ} {g : AccessGraph} (ops : List (List Use)) {j i : ℕ}
    → Built device id g ops
    → Reach (track ops).1 j i
    → i < j
    → (k : ℕ) × (c : ℕ) × (i < k) × (k ≤ j) × (get_elem? (finish_order g.graph) k ≡ some (c, true))
Reach-barrier ops b (stop j) lt = absurd (omega arith)
Reach-barrier {g = g} ops b (hop j m i e r) lt =
    let inv = Built-Inv b in
    let (c, d, at_j, le, lt') = inv.stored j m e in
    let (k, c', e', after, upto, at_k, bar) = finish_order-barrier g.graph j c d at_j lt' in
    (
      k,
      c',
      omega (arith, Reach-le ops r),
      upto,
      rw
          (place-prepared g.graph.nodes k inv.all_prepared
            (omega (arith, get_elem?-lt g.graph.nodes k _ at_k)))
          at bar,
    )

-- When every operation on a graph was recorded and two of them declare uses of one byte of which one
-- writes, a barrier stands in the replay before the command of an operation after the earlier one and
-- not after the later one.
pub conflict_barrier :
    {device id : ℕ} {g : AccessGraph} {ops : List (List Use)} (i j : ℕ) (u v : Use) (p : ℕ)
    → Built device id g ops
    → Did ops j u
    → Did ops i v
    → i < j
    → v.allocation ≡ u.allocation
    → covers_byte v p ≡ true
    → covers_byte u p ≡ true
    → (writes u.access || writes v.access) ≡ true
    → (k : ℕ) × (c : ℕ) × (i < k) × (k ≤ j) × (get_elem? (finish_order g.graph) k ≡ some (c, true))
conflict_barrier {ops = ops} i j u v p b dj di lt same in_v in_u conflict =
    Reach-barrier ops b (conflicts_ordered ops i j u v p dj di lt same in_v in_u conflict) lt
