-- ===== src/Gpu/AccessGraph.antt =====
-- src/access_graph.rs: a GPU graph whose edges come from the declared accesses.
use hrx_rs.Common.{
  ℕ, ◌+◌, ◌-◌, ◌^◌, Option, none, some, List, [], ◌∷◌, ◌++◌, length, get_elem?, map, min,
}
use hrx_rs.Common.Errors.{Result, ok, err}
use hrx_rs.Access.{Access, read, write}
use hrx_rs.Frontier
use hrx_rs.Frontier.{Use, Frontier}
use hrx_rs.Gpu.Recording
use hrx_rs.Gpu.Recording.{View, Node, Graph}

pub record AccessView : Type 0 where
  pub view : View
  pub access : Access

pub record AccessGraph : Type 0 where
  pub graph : Graph
  pub frontier : Frontier
  pub nodes : List Node

-- `Stream::access_graph`, over the graph that the stream begins.
abbrev pub access_graph : (device id : ℕ) → AccessGraph
access_graph device id = record {
  graph = record { device = device; id = id; nodes = []; bindings = [] };
  frontier = λ _. [];
  nodes = [];
}

abbrev pub usize_max : ℕ
usize_max = 2 ^ 64 - 1

abbrev pub saturating_add : ℕ → ℕ → ℕ
saturating_add a b = min (a + b) usize_max

abbrev pub to_use : AccessView → Use
to_use binding = record {
  allocation = binding.view.owner.pointer;
  range = record {
    start = binding.view.offset;
    end = saturating_add binding.view.offset binding.view.length;
  };
  access = binding.access;
}

-- `self.nodes[dependency]` for each dependency; `none` is the panic of an index out of bounds.
unfoldable pub nodes_at : List Node → List ℕ → Option (List Node)
nodes_at nodes [] = some []
nodes_at nodes (d ∷ deps) = elim (get_elem? nodes d) [
  | none ↦ none
  | some node ↦ elim (nodes_at nodes deps) [ none ↦ none | some rest ↦ some (node ∷ rest) ]
]

unfoldable pub dependencies : AccessGraph → List AccessView → AccessGraph × Option (List Node)
dependencies g uses =
    let found = Frontier.dependencies (length g.nodes) (map to_use uses) g.frontier in
    (record g { frontier = found.0 }, nodes_at g.nodes found.1)

-- `self.record(node)` behind `?`. A failure leaves the frontier as `dependencies` made it.
unfoldable pub settle : AccessGraph → Result (Graph × Node) → AccessGraph × Result Node
settle g (ok (graph, node)) = (record g { graph = graph; nodes = g.nodes ++ node ∷ [] }, ok node)
settle g (err e) = (g, err e)

-- The operations. The last field is what the command encoder of the stream returns.
pub data Operation : Type 0 where
  fill : (destination : View) → Result ℕ → Operation
  copy : (destination source : View) → Result ℕ → Operation
  dispatch : (bindings : List AccessView) → Result ℕ → Operation

abbrev pub view_access : View → Access → AccessView
view_access view access = record { view = view; access = access }

-- What each one declares,
unfoldable pub uses_of : Operation → List AccessView
uses_of (fill destination encoded) = view_access destination write ∷ []
uses_of (copy destination source encoded) =
    view_access source read ∷ view_access destination write ∷ []
uses_of (dispatch bindings encoded) = bindings

-- and how it is recorded.
unfoldable pub record_operation : Operation → Graph → List Node → Result (Graph × Node)
record_operation (fill destination encoded) g after = Recording.fill g after destination encoded
record_operation (copy destination source encoded) g after =
    Recording.copy g after destination source encoded
record_operation (dispatch bindings encoded) g after =
    Recording.dispatch g after (map (λ (b : AccessView). b.view) bindings) encoded

-- `AccessGraph::fill`, `copy` and `dispatch`. `none` is a panic.
unfoldable pub perform : AccessGraph → Operation → Option (AccessGraph × Result Node)
unfolding settle
perform g op =
    let found = dependencies g (uses_of op) in
    elim found.1 [
      | none ↦ none
      | some after ↦ some (settle found.0 (record_operation op found.0.graph after))
    ]
