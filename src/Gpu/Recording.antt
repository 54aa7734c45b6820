-- ===== src/Gpu/Recording.antt =====
-- src/runtime.rs: recording of a GPU graph, and the order and barriers in which it is replayed.
use hrx_rs.Common.{
  ℕ, suc, ◌+◌, ◌-◌, ◌%◌, ◌^◌, Bool, false, ◌||◌, Option, none, some, List, [], ◌∷◌, ◌++◌, length,
  if◌then◌else◌, leb, ◌==◌, not, max,
}
use hrx_rs.Common.Errors.{message, Result, ok, err, ◌>>=◌, ◌>>◌, refuse_if}

-- What a graph reads of a buffer: the address of the object, the identity and size of its native
-- storage, and the device that owns it.
pub record Buffer : Type 0 where
  pub pointer : ℕ
  pub identity : ℕ
  pub bytes : ℕ
  pub device : ℕ

pub record View : Type 0 where
  pub owner : Buffer
  pub offset : ℕ
  pub length : ℕ

pub record Node : Type 0 where
  pub graph : ℕ
  pub index : ℕ

-- A prepared native command stands as a number.
pub data Recorded : Type 0 where
  prepared : ℕ → Recorded
  join : Recorded

pub record Graph : Type 0 where
  pub device : ℕ
  pub id : ℕ
  pub nodes : List (Recorded × Option ℕ)
  pub bindings : List (ℕ × ℕ)

abbrev pub u32_max : ℕ
u32_max = 2 ^ 32 - 1

-- `HashMap::insert`
unfoldable pub insert_binding : ℕ → ℕ → List (ℕ × ℕ) → List (ℕ × ℕ)
insert_binding k v [] = (k, v) ∷ []
insert_binding k v ((j, w) ∷ rest) =
    if j == k then (k, v) ∷ rest else (j, w) ∷ insert_binding k v rest

unfoldable pub retain_bindings : List View → Graph → Graph
retain_bindings [] g = g
retain_bindings (view ∷ views) g =
    retain_bindings views
      (record g { bindings = insert_binding view.owner.identity view.owner.bytes g.bindings })

unfoldable pub binding_bytes : List (ℕ × ℕ) → ℕ
binding_bytes [] = 0
binding_bytes ((k, v) ∷ rest) = v + binding_bytes rest

unfoldable pub check_nodes : Graph → List Node → Result (Unit {0})
check_nodes g [] = ok tt
check_nodes g (node ∷ after) =
    let later = check_nodes g after in
    if not (node.graph == g.id) || leb (length g.nodes) node.index
    then err (message "dependency node belongs to another graph")
    else later

unfoldable pub validate_dependencies : Graph → List Node → Result (Unit {0})
unfolding check_nodes
validate_dependencies g after = do
  check_nodes g after
  refuse_if (leb u32_max (length g.nodes)) (message "graph node capacity exceeded")

-- `after.iter().map(|node| node.index).max()`
unfoldable pub max_index : List Node → Option ℕ
max_index [] = none
max_index (node ∷ after) = elim (max_index after) [
  | none ↦ some node.index
  | some m ↦ some (max node.index m)
]

unfoldable pub record_node : Graph → Recorded → List Node → Graph × Node
record_node g command after = (
  record g { nodes = g.nodes ++ (command, max_index after) ∷ [] },
  record { graph = g.id; index = length g.nodes % 2 ^ 32 },
)

unfoldable pub owns : ℕ → Buffer → Result (Unit {0})
owns device buffer =
    refuse_if (not (device == buffer.device)) (message "buffer belongs to another device")

-- The last argument of these is what the command encoder of the stream returns.
unfoldable pub fill : Graph → List Node → View → Result ℕ → Result (Graph × Node)
unfolding validate_dependencies owns
fill g after dst encoded = do
  validate_dependencies g after
  owns g.device dst.owner
  refuse_if (dst.length == 0) (message "empty graph fill")
  command ← encoded
  ok (record_node (retain_bindings (dst ∷ []) g) (prepared command) after)

unfoldable pub copy : Graph → List Node → View → View → Result ℕ → Result (Graph × Node)
unfolding validate_dependencies owns
copy g after dst src encoded = do
  validate_dependencies g after
  owns g.device dst.owner
  owns g.device src.owner
  refuse_if (not (dst.length == src.length) || (dst.length == 0))
      (message "graph copy requires equal nonempty spans")
  command ← encoded
  ok (record_node (retain_bindings (dst ∷ src ∷ []) g) (prepared command) after)

unfoldable pub dispatch : Graph → List Node → List View → Result ℕ → Result (Graph × Node)
unfolding validate_dependencies
dispatch g after bindings encoded = do
  validate_dependencies g after
  command ← encoded
  ok (record_node (retain_bindings bindings g) (prepared command) after)

unfoldable pub join_nodes : Graph → List Node → Result (Graph × Node)
unfolding validate_dependencies
join_nodes g after = do validate_dependencies g after; ok (record_node g join after)

-- `dependency.is_some_and(|node| node as usize >= completed)`
unfoldable pub is_barrier : ℕ → Option ℕ → Bool
is_barrier completed none = false
is_barrier completed (some node) = leb completed node

-- The loop of `finish_inner`: the commands in order, each with whether a barrier stands before it.
unfoldable pub order_from : ℕ → ℕ → List (Recorded × Option ℕ) → List (ℕ × Bool)
order_from index completed [] = []
order_from index completed ((join, dependency) ∷ rest) = order_from (suc index) completed rest
order_from index completed ((prepared command, dependency) ∷ rest) =
    let barrier = is_barrier completed dependency in
    (command, barrier) ∷ order_from (suc index) (if barrier then index else completed) rest

-- The list `ordered`. A stream with PM4 queues alone hands the barriers on to them; with AQL or SDMA queues
-- `finish_inner` keeps the commands of the list and drops the flags.
unfoldable pub finish_order : Graph → List (ℕ × Bool)
finish_order g = order_from 0 0 g.nodes
