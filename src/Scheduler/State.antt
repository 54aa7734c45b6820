-- ===== src/Scheduler/State.antt =====
-- src/execution/scheduler.rs: the data. A pending submission holds the state of its slot, which no
-- other submission uses while it is occupied. A lane is a number below `lanes`.
use hrx_rs.Common.{ℕ, Bool, false, Option, none, List, [], ◌+◌, length, if◌then◌else◌, ◌==◌}
use hrx_rs.Common.Errors.{Error}
use hrx_rs.Frontier.{Use}

pub data NodeState : Type 0 where
  pending : NodeState
  running : NodeState
  done : NodeState

-- A region of a graph: the lane it runs on, and the regions it waits for.
pub record Region : Type 0 where
  pub lane : ℕ
  pub dependencies : List ℕ

-- `Pending`, with what it reads of its graph, its signal and its slot.
pub record Pending : Type 0 where
  pub sequence : ℕ
  pub signal : ℕ
  pub uses : List Use
  pub operations : List Region
  pub blockers : ℕ
  pub dependencies : List ℕ
  pub cancelled : Bool
  pub nodes : List NodeState
  pub failure : Option Error

pub record Scheduler : Type 0 where
  pub pending : List Pending
  pub capacity : ℕ
  pub shutdown : Bool
  pub finishing : List ℕ
  pub running : ℕ → Bool
  pub sequence : ℕ
  pub last_started : ℕ → Option ℕ
  pub next_lane : ℕ
  pub native : List ℕ
  pub native_active : Bool

abbrev pub lanes : ℕ
lanes = 5

-- `GpuLane::Compute as usize`
abbrev pub compute : ℕ
compute = 1

-- An array entry is written.
abbrev pub assign {ℓ} : {A : Type ℓ} → (ℕ → A) → ℕ → A → ℕ → A
assign array index value i = if i == index then value else array i

-- `Core::new`
abbrev pub core : ℕ → Scheduler
core capacity = record {
  pending = [];
  capacity = capacity;
  shutdown = false;
  finishing = [];
  running = λ _. false;
  sequence = 0;
  last_started = λ _. none;
  next_lane = 0;
  native = [];
  native_active = false;
}

-- `usize::from`
abbrev pub as_count : Bool → ℕ
as_count b = if b then 1 else 0

unfoldable pub occupied : Scheduler → ℕ
occupied s = length s.pending + length s.finishing + length s.native + as_count s.native_active
