-- ===== src/Lib.antt =====
-- hrx-rs: a coordinated runtime for GPU and NPU work. This library models the parts of the Rust
-- crate that decide what may run when, what may be kept and what must go.
--
-- Parts, and the modules that model them:
-- Common: numbers, lists, sets (BTreeSet as an ascending list), tables (HashMap as an association
-- list), and the error type of src/lib.rs.
-- Access: Access and Access::writes of src/execution/contract.rs.
-- Frontier: src/dependency_frontier.rs. A frontier is a function from allocations to lists of
-- segments; Frontier::dependencies is `dependencies`, its loop over the uses `use_all` and
-- `use_one`, the splits at the two bounds `split_at`, and the while loop `while_loop` with fuel.
-- Two rounds for each segment and two more are enough, and `sweep` is the same loop by recursion.
-- Split, Sweep and Cells hold the steps and their effect on one byte, Refinement and Uses what a
-- use does to every byte, Hazards and Causes the graph of a whole sequence of operations.
-- Gpu: the recording of a GPU graph in src/runtime.rs (Recording: Graph::fill, copy, dispatch,
-- join, and the loop of finish_inner that places barriers) and src/access_graph.rs over it
-- (AccessGraph: `perform` is one of fill, copy and dispatch). Views is about the slices of a
-- buffer. What a stream's command encoder returns is an argument of each operation. Barriers,
-- History and Hazards are about the barriers between conflicting accesses (`finish_order`, the
-- flags that finish_inner hands to PM4 queues; with AQL or SDMA queues it drops them); Failures is
-- about recordings that fail.
-- Lru: the choice of a victim, which src/plan_cache.rs and src/residency.rs write alike.
-- PlanCache: src/plan_cache.rs. Each critical section of get_or_prepare is one function (`enter`,
-- `publish`), a waiting request looks at its flight (`observe`), and Requests lets them interleave
-- in any order. An Arc is a number with a count of its owners besides the cache; the idle predicate
-- is an argument.
-- Summary: src/execution/dependencies.rs on regions: Summarize is `summarize` (its BTreeMaps are
-- ascending lists, the i64 counts are integers of Common.Int, which no count of uses can bring to
-- overflow), and `conflicts` the sweep over two summaries. Events and Gather are about the first
-- loop of `summarize`, Emit, Coverage and Union about the second, Sweep and Conflicts about
-- comparing summaries.
-- Pool: src/buffer_pool.rs (`acquire`, `release`). What the stream's allocation returns is an
-- argument.
--
-- Scheduler: src/execution/scheduler.rs over the uses of Summary. State and Queue hold the data,
-- `enqueue` and `remove`; Next is `next_action`, whose loop over the pending submissions is `scan`,
-- over the operations of one `offer`, over the lanes `choose`; Settle holds the critical sections
-- of `perform`; Native holds NativeLease. A pending submission carries the state of its slot. Steps
-- lets the critical sections interleave in any order. The results of completions are an argument,
-- the counter of sequence numbers is not bounded.
--
-- Residency: the budget of src/residency.rs: reservations, eviction of idle resources, and the loop
-- of MemoryBudget::reserve with a round for every cached entry and one more, since each round that
-- goes on evicts one. The source unlocks the registry between the rounds: what other threads do
-- there is the argument `others`, and the rounds are enough while these threads add no entry. What
-- the value of a resource has reserved itself, as under load_budgeted, is `own`, and is released
-- with the resource. Loads holds load_inner (`load_round` is one round of its loop, `finish_load`
-- what follows the loader) and the cleanup of idle resources, where the clock is an argument. The
-- strong count of an Arc is `owners`, besides the registry.
-- Tensor: TensorDesc of src/tensor.rs. Strides are those of the elements; checked arithmetic is on
-- 64 bits, byte extents are at most isize::MAX. The unstable sort by stride is an insertion sort.
--
-- Contract: KernelContract of src/execution/contract.rs (`validate`, `check_extents`,
-- `check_aliases`) on the views of src/execution/buffer.rs.
-- Jobs: src/jobs.rs. Steps lets submissions, cancellations and the steps of workers interleave;
-- whether the channel takes a job and what its work comes to are arguments.
--
-- Completion: src/execution/completion.rs, with the slots of src/execution/graph.rs that reuse the
-- signals. Instants and wakers are numbers, Waker::will_wake is an argument, and the loops of wait
-- and wait_timeout run over the looks that the waiting thread takes. Steps lets submissions,
-- observers, polls and the scheduler interleave; that the scheduler publishes after it has left the
-- slot, and once for each submission, is in the step relation.
-- HostAccess: host mappings of src/execution/buffer.rs and handoffs of src/execution/handoff.rs
-- (`acquire_round` and `handoff_round` are one round of their loops), the checks that a submission
-- makes of its allocations, and the poison that a failed region leaves. Steps lets them interleave
-- under the scheduler's lock.
-- ExecGraph: src/execution/graph.rs: fill and copy, and `prepare`, whose loop over the entries is
-- `regions` with a round for each entry, which is enough because every round takes one, and whose
-- last loop is `order`. What the device makes of a region is an argument.
-- Storage: src/storage/mod.rs: `physical`, Session with `submit` (its loop over the retained
-- requests is `look`), and Service with the settling of a round of Worker::run (`complete`) and
-- stop_after_failure. A request is named by its slot; its strong count is the number of its tickets
-- and whether the queue or the service owns it. Steps lets callers, owners of tickets and the
-- service interleave; what the payload buffer returns and what a round's `execute` comes to are
-- arguments. Retries holds `execute` with one round for each byte of a slot and two more, which is
-- enough because a request that is retried has moved by a byte at least; what a batch returns is an
-- argument.
--
-- Machine integers: usize is 64 bits, saturating operations are written with min, and the index of
-- a graph node wraps at 2^32. Counters of hits, misses and evictions are not bounded.
--
-- Not modelled: native commands, queues, memory and time; locks and condition variables other than
-- as the steps they separate; poisoning of locks; leases and pins of the residency manager as
-- steps, which engine sees whose writes, the running of regions, the native side of storage, tensor
-- kernels, images, artifacts and the Loom compiler bindings.
pub mod Common
pub mod Access
pub mod Frontier
pub mod Gpu
pub mod Lru
pub mod PlanCache
pub mod Pool
pub mod Summary
pub mod Scheduler
pub mod Residency
pub mod Tensor
pub mod Jobs
pub mod Contract
pub mod Completion
pub mod HostAccess
pub mod ExecGraph
pub mod Storage
