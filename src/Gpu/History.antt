-- ===== src/Gpu/History.antt =====
-- src/access_graph.rs: histories of recorded operations, and the barriers between their accesses.
use hrx_rs.Common.{ℕ, ◌<◌, ◌≡◌, refl, some, List, [], ◌∷◌, ◌++◌, length, map, arith}
use hrx_rs.Common.Errors.{ok, err}
use hrx_rs.Frontier.{Use}
use hrx_rs.Gpu.Recording.{
  View, Node, Graph, prepared, max_index, record_node, retain_bindings, fill, copy, dispatch,
  validate_dependencies, u32_max,
}
use hrx_rs.Gpu.AccessGraph.{
  AccessView, AccessGraph, access_graph, to_use, Operation, uses_of, record_operation, perform,
}

-- A graph on which every operation was recorded, with their declared uses, the newest first.
pub data Built (device id : ℕ) : AccessGraph → List (List Use) → Type 0 where
  empty : Built device id (access_graph device id) []
  next :
      {g g' : AccessGraph} {ops : List (List Use)} (op : Operation) (node : Node)
      → Built device id g ops
      → perform g op ≡ some (g', ok node)
      → Built device id g' (map to_use (uses_of op) ∷ ops)

retain-nodes : (views : List View) (g : Graph) → (retain_bindings views g).nodes ≡ g.nodes
unfolding retain_bindings
retain-nodes [] g = refl
retain-nodes (v ∷ views) g = retain-nodes views _

retain-id : (views : List View) (g : Graph) → (retain_bindings views g).id ≡ g.id
unfolding retain_bindings
retain-id [] g = refl
retain-id (v ∷ views) g = retain-id views _

-- A successful recording appends one prepared node.
pub record Appends (g : Graph) (after : List Node) (g' : Graph) (node : Node) : Type 0 where
  pub command : ℕ
  pub nodes : g'.nodes ≡ g.nodes ++ (prepared command, max_index after) ∷ []
  pub id : g'.id ≡ g.id
  pub room : length g.nodes < u32_max
  pub node_graph : node.graph ≡ g.id
  pub node_index : node.index ≡ length g.nodes

validate-room :
    (g : Graph) (after : List Node)
    → validate_dependencies g after ≡ ok tt
    → length g.nodes < u32_max
unfolding validate_dependencies
validate-room g after h = ground arith

record_node-Appends :
    (g : Graph) (views : List View) (after : List Node) (c : ℕ) (g' : Graph) (node : Node)
    → length g.nodes < u32_max
    → record_node (retain_bindings views g) (prepared c) after ≡ (g', node)
    → Appends g after g' node
unfolding record_node
record_node-Appends g views after c g' node room e = record {
  command = c;
  nodes = ground (arith, retain-nodes views g);
  id = ground (arith, retain-id views g);
  room = room;
  node_graph = ground (arith, retain-id views g);
  node_index = ground (arith, retain-nodes views g);
}

pub record_operation-Appends :
    (op : Operation) (g : Graph) (after : List Node) (g' : Graph) (node : Node)
    → record_operation op g after ≡ ok (g', node)
    → Appends g after g' node
unfolding record_operation fill copy dispatch
record_operation-Appends (Operation.fill dst (ok c)) g after g' node e =
    record_node-Appends g (dst ∷ []) after c g' node (ground (arith, validate-room g after))
      (ground arith)
record_operation-Appends (Operation.fill dst (err x)) g after g' node e = absurd (ground arith)
record_operation-Appends (Operation.copy dst src (ok c)) g after g' node e =
    record_node-Appends g (dst ∷ src ∷ []) after c g' node (ground (arith, validate-room g after))
      (ground arith)
record_operation-Appends (Operation.copy dst src (err x)) g after g' node e = absurd (ground arith)
record_operation-Appends (Operation.dispatch bindings (ok c)) g after g' node e =
    record_node-Appends g (map (λ (b : AccessView). b.view) bindings) after c g' node
      (ground (arith, validate-room g after)) (ground arith)
record_operation-Appends (Operation.dispatch bindings (err x)) g after g' node e =
    absurd (ground arith)
