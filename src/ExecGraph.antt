-- ===== src/ExecGraph.antt =====
-- src/execution/graph.rs: a graph as it is built, and its preparation: the regions that its operations are
-- lowered to, and what each region waits for. What the device makes of a region is an argument.
pub mod Regions
pub mod Loop
pub mod Order
mod Tests
use hrx_rs.Common.{
  ℕ, zero, suc, ◌+◌, ◌-◌, Bool, true, false, ◌&&◌, ◌||◌, not, List, [], ◌∷◌, ◌++◌, map,
  if◌then◌else◌, ltb, ◌==◌, any, all, length, set, get_elem?, Option, some, none,
}
use hrx_rs.Common.Errors.{Error, message, unsupported, Result, ok, err, ◌>>=◌, ◌>>◌, refuse_if}
use hrx_rs.Common.Sets.{contains}
use hrx_rs.Access.{Access, read, write}
use hrx_rs.Frontier.{Use, Frontier, dependencies}
use hrx_rs.Summary.{BufferView, region}
use hrx_rs.Summary.Summarize.{summarize}
use hrx_rs.Contract.{overlaps, view_bytes}
use hrx_rs.HostAccess.{ViewUse}

pub data GpuLane : Type 0 where
  upload compute download : GpuLane

pub data Description : Type 0 where
  fill_op : BufferView → ℕ → Description
  copy_op : (destination source : BufferView) → Description
  gpu : List BufferView → Description
  scoped : List BufferView → Description
  npu : List BufferView → Description

pub record Entry : Type 0 where
  pub operation : Description
  pub uses : List ViewUse
  pub lane : GpuLane

pub record Graph : Type 0 where
  pub runtime : ℕ
  pub entries : List Entry

-- What a graph asks of an allocation: its runtime, whether it has GPU storage and a host pointer.
pub record Allocations : Type 0 where
  pub runtime : ℕ → ℕ
  pub on_gpu : ℕ → Bool
  pub mapped : ℕ → Bool

-- `BufferView::gpu`; the range of a view lies in its allocation.
abbrev pub on_gpu : Allocations → BufferView → Result (Unit {0})
on_gpu a v =
    if a.on_gpu v.storage
    then ok tt
    else err (unsupported "NPU-local storage cannot bind to the GPU")

abbrev is_foreign : Allocations → ℕ → ViewUse → Bool
is_foreign a runtime u = not (a.runtime u.view.storage == runtime)

-- `Graph::push`: the graph, and the node.
unfoldable pub push : Allocations → Description → List ViewUse → Graph → Result (Graph × ℕ)
push a operation uses g =
    if any (is_foreign a g.runtime) uses
    then err (message "buffer belongs to another runtime")
    else ok (
      record g {
        entries = g.entries ++ record { operation = operation; uses = uses; lane = compute } ∷ [];
      },
      length g.entries,
    )

-- `Graph::fill`
unfoldable pub fill : Allocations → BufferView → ℕ → Graph → Result (Graph × ℕ)
unfolding push
fill a destination value g = do
  on_gpu a destination
  push a (fill_op destination value) (record { view = destination; access = write } ∷ []) g

-- `self.entries[node].lane = lane`
unfoldable pub set_lane : GpuLane → ℕ → List Entry → List Entry
set_lane lane node [] = []
set_lane lane zero (e ∷ entries) = record e { lane = lane } ∷ entries
set_lane lane (suc node) (e ∷ entries) = e ∷ set_lane lane node entries

abbrev on_lane : GpuLane → Graph × ℕ → Result (Graph × ℕ)
on_lane lane (g, node) = ok (record g { entries = set_lane lane node g.entries }, node)

-- `Graph::copy_on`
unfoldable pub copy_on :
    Allocations → BufferView → BufferView → GpuLane → Graph → Result (Graph × ℕ)
unfolding push set_lane
copy_on a destination source lane g = do
  on_gpu a destination
  on_gpu a source
  refuse_if (not (view_bytes destination == view_bytes source) || overlaps destination source)
      (message "copy needs equal, nonoverlapping ranges")
  pushed ←
      push a (copy_op destination source)
        (record { view = destination; access = write }
          ∷ record { view = source; access = read }
          ∷ [])
        g
  on_lane lane pushed

abbrev copy_lane : Bool → Bool → GpuLane
copy_lane true false = upload
copy_lane false true = download
copy_lane true true = compute
copy_lane false false = compute

-- `Graph::copy`: from the host, to the host, or neither.
unfoldable pub copy : Allocations → BufferView → BufferView → Graph → Result (Graph × ℕ)
unfolding copy_on
copy a destination source g =
    copy_on a destination source
      (copy_lane (a.mapped source.storage) (a.mapped destination.storage)) g

unfoldable pub same_lane : GpuLane → GpuLane → Bool
same_lane upload upload = true
same_lane compute compute = true
same_lane download download = true
same_lane a b = false

-- An operation that is a region of its own: `aql` is `ComputeEngine::Aql`.
unfoldable pub stands_alone : Bool → Description → Bool
stands_alone aql (scoped bindings) = true
stands_alone aql (npu bindings) = true
stands_alone aql (gpu bindings) = aql
stands_alone aql (fill_op destination value) = false
stands_alone aql (copy_op destination source) = false

-- The inner loop: the entries of a run, and those behind it.
unfoldable pub take_run : Bool → GpuLane → List Entry → List Entry × List Entry
unfolding stands_alone same_lane
take_run aql lane [] = ([], [])
take_run aql lane (e ∷ entries) =
    let later = take_run aql lane entries in
    if stands_alone aql e.operation || not (same_lane e.lane lane)
    then ([], e ∷ entries)
    else (e ∷ later.0, later.1)

-- The region at the front of the entries, and the entries behind it.
unfoldable pub next_region : Bool → Entry → List Entry → List Entry × List Entry
unfolding take_run stands_alone
next_region aql e entries =
    if stands_alone aql e.operation
    then (e ∷ [], entries)
    else (e ∷ (take_run aql e.lane entries).0, (take_run aql e.lane entries).1)

-- The outer loop; a round for each entry is enough.
unfoldable pub regions : ℕ → Bool → List Entry → List (List Entry)
unfolding next_region
regions zero aql entries = []
regions (suc fuel) aql [] = []
regions (suc fuel) aql (e ∷ entries) =
    (next_region aql e entries).0 ∷ regions fuel aql (next_region aql e entries).1

-- `region`, of the views of an entry.
abbrev pub entry_uses : List ViewUse → List Use
entry_uses uses = map (λ (u : ViewUse). region u.view u.access) uses

unfoldable pub flat_uses : List Entry → List Use
unfolding region
flat_uses [] = []
flat_uses (e ∷ entries) = entry_uses e.uses ++ flat_uses entries

abbrev pub is_copy : Entry → Bool
is_copy e = elim e.operation [ copy_op destination source ↦ true | _ ↦ false ]

abbrev copy_size : Description → ℕ
copy_size (copy_op destination source) = view_bytes destination
copy_size (fill_op destination value) = 0
copy_size (gpu bindings) = 0
copy_size (scoped bindings) = 0
copy_size (npu bindings) = 0

unfoldable pub copy_bytes : List Entry → ℕ
copy_bytes [] = 0
copy_bytes (e ∷ entries) = copy_size e.operation + copy_bytes entries

abbrev alone : Bool → List Entry → Bool
alone aql [] = false
alone aql (e ∷ entries) = stands_alone aql e.operation

-- What a region uses before the last loop: the uses of a native graph are summarized at once.
unfoldable pub region_uses : Bool → List Entry → List Use
unfolding flat_uses stands_alone summarize
region_uses aql entries =
    if alone aql entries || all is_copy entries
    then flat_uses entries
    else summarize (flat_uses entries)

pub record Operation : Type 0 where
  pub lane : GpuLane
  pub copy_bytes : ℕ
  pub uses : List Use
  pub dependencies : List ℕ

-- Callbacks and NPU operations are scheduled as on the compute lane.
abbrev entry_lane : Entry → Description → GpuLane
entry_lane e (scoped bindings) = compute
entry_lane e (npu bindings) = compute
entry_lane e (gpu bindings) = e.lane
entry_lane e (fill_op destination value) = e.lane
entry_lane e (copy_op destination source) = e.lane

abbrev region_lane : List Entry → GpuLane
region_lane [] = compute
region_lane (e ∷ entries) = entry_lane e e.operation

-- The loop over the operations: each is summarized, and asks the frontier.
unfoldable pub order : ℕ → Frontier → Bool → List (List Entry) → List Operation
unfolding region_uses copy_bytes
order index f aql [] = []
order index f aql (entries ∷ rest) =
    let uses = summarize (region_uses aql entries) in
    let found = dependencies index uses f in
    record {
      lane = region_lane entries;
      copy_bytes = copy_bytes entries;
      uses = uses;
      dependencies = found.1;
    }
    ∷ order (index + 1) found.0 aql rest

unfoldable pub all_uses : List Operation → List Use
all_uses [] = []
all_uses (o ∷ operations) = o.uses ++ all_uses operations

-- Some operation does not wait for the one before it.
unfoldable pub is_parallel : ℕ → List Operation → Bool
is_parallel before [] = false
is_parallel before (o ∷ operations) =
    not (contains before o.dependencies) || is_parallel (before + 1) operations

pub record Prepared : Type 0 where
  pub parallel : Bool
  pub operations : List Operation
  pub uses : List Use

-- What the device makes of each region.
unfoldable pub lower : (List Entry → Result (Unit {0})) → List (List Entry) → Result (Unit {0})
lower native [] = ok tt
lower native (entries ∷ rest) = let later = lower native rest in native entries >> later

abbrev tail_of : List Operation → List Operation
tail_of [] = []
tail_of (o ∷ operations) = operations

abbrev pub prepared : List Operation → Prepared
prepared operations = record {
  parallel = is_parallel 0 (tail_of operations);
  operations = operations;
  uses = summarize (all_uses operations);
}

-- `Graph::prepare`
unfoldable pub prepare : Bool → (List Entry → Result (Unit {0})) → Graph → Result Prepared
unfolding lower regions order all_uses is_parallel
prepare aql native g =
    let parts = regions (length g.entries) aql g.entries in
    if length g.entries == 0
    then err (message "cannot prepare an empty graph")
    else (lower native parts >> ok (prepared (order 0 (λ _. []) aql parts)))
