-- ===== src/Completion.antt =====
-- src/execution/completion.rs, and the slots of src/execution/graph.rs that reuse its signals. Instants are
-- numbers, and so are wakers; `Waker::will_wake` is a parameter. The condition variable is the looks
-- that a waiting thread takes.
pub mod Wakers
pub mod Steps
pub mod Promises
mod Tests
use Prim.Native.String.{String}
use hrx_rs.Common.{
  ℕ, ◌+◌, ◌-◌, Bool, true, false, ◌&&◌, not, Option, none, some, List, [], ◌∷◌, ◌++◌, if◌then◌else◌,
  ltb, ◌==◌, any,
}
use hrx_rs.Common.Errors.{Error, busy, execution, cancelled, message, Result, ok, err}

pub record State : Type 0 where
  pub submitted : Option ℕ
  pub started : Option ℕ
  pub finished : Option ℕ
  pub done : Bool
  pub failure : Option Error
  pub cancelled : Bool
  pub wakers : List (Option ℕ)
  pub overflow_wakers : List ℕ

pub record Signal : Type 0 where
  pub state : State
  pub cancel : Bool
  pub observers : ℕ

-- `std::array::from_fn(|_| None)`
abbrev no_wakers : List (Option ℕ)
no_wakers = none ∷ none ∷ none ∷ none ∷ []

-- `Signal::new`
abbrev pub new : Signal
new = record {
  state = record {
    submitted = none;
    started = none;
    finished = none;
    done = true;
    failure = none;
    cancelled = false;
    wakers = no_wakers;
    overflow_wakers = [];
  };
  cancel = false;
  observers = 0;
}

-- `Signal::reset`
unfoldable pub reset : ℕ → Signal → Signal
reset now s = record s {
  state = record {
    submitted = some now;
    started = none;
    finished = none;
    done = false;
    failure = none;
    cancelled = false;
    wakers = no_wakers;
    overflow_wakers = [];
  };
  cancel = false;
}

-- `wakers.into_iter().flatten()`
unfoldable pub flatten : List (Option ℕ) → List ℕ
flatten [] = []
flatten (none ∷ wakers) = flatten wakers
flatten (some waker ∷ wakers) = waker ∷ flatten wakers

abbrev pub registered : State → List ℕ
registered state = flatten state.wakers ++ state.overflow_wakers

-- `Signal::publish`, and the wakers that its result calls.
unfoldable pub publish : Option Error → ℕ → Signal → Signal × List ℕ
publish failure now s = (
  record s {
    state = record s.state {
      finished = some now;
      done = true;
      failure = failure;
      cancelled = s.cancel;
      wakers = no_wakers;
      overflow_wakers = [];
    };
  },
  registered s.state,
)

-- `Option::get_or_insert`
abbrev get_or_insert : Option ℕ → ℕ → Option ℕ
get_or_insert none now = some now
get_or_insert (some before) now = some before

-- `Signal::started`
unfoldable pub started : ℕ → Signal → Signal
started now s = record s { state = record s.state { started = get_or_insert s.state.started now } }

abbrev outcome_of : Option Error → Bool → Result (Unit {0})
outcome_of (some source) stopped = err (execution source)
outcome_of none true = err cancelled
outcome_of none false = ok tt

-- `outcome`
unfoldable pub outcome : State → Result (Unit {0})
outcome state = outcome_of state.failure state.cancelled

-- `Completion::new`, which `clone` calls.
unfoldable pub observe : Signal → Signal
observe s = record s { observers = s.observers + 1 }

-- `Completion::drop`, whose assertion is that somebody observed.
unfoldable pub drop : Signal → Signal
drop s = record s { observers = s.observers - 1 }

-- `Completion::result`
unfoldable pub result : Signal → Option (Result (Unit {0}))
unfolding outcome
result s = if s.state.done then some (outcome s.state) else none

-- `Completion::cancel`
unfoldable pub cancel : Signal → Signal
cancel s = record s { cancel = true }

-- `CompletionProfile`, in ticks of the clock.
pub record CompletionProfile : Type 0 where
  pub elapsed : ℕ
  pub queue : Option ℕ

-- `duration_since` stops at zero.
abbrev waited : ℕ → Option ℕ → Option ℕ
waited submitted none = none
waited submitted (some start) = some (start - submitted)

abbrev profile_of : Option ℕ → Option ℕ → Option ℕ → Option CompletionProfile
profile_of none finished started = none
profile_of (some submitted) none started = none
profile_of (some submitted) (some finished) started =
    some (record { elapsed = finished - submitted; queue = waited submitted started })

-- `Completion::profile`
unfoldable pub profile : Signal → Option CompletionProfile
profile s = profile_of s.state.submitted s.state.finished s.state.started

-- `Completion::validate_runtime`. The core is gone, or it is the runtime's own or another.
unfoldable pub validate_runtime : Option Bool → Signal → Result (Unit {0})
validate_runtime (some own) s =
    if own then ok tt else err (message "completion belongs to another runtime")
validate_runtime none s =
    if s.state.done then ok tt else err (message "orphaned incomplete producer")

-- The loop of `Completion::wait`: what each look finds. `none` is a thread that waits on.
unfoldable pub wait : List State → Option (Result (Unit {0}))
unfolding outcome
wait [] = none
wait (state ∷ looks) = let later = wait looks in if state.done then some (outcome state) else later

abbrev reached : Result (Unit {0}) → Result Bool
reached (ok done) = ok true
reached (err e) = err e

-- `Completion::wait_timeout`: each look with the time that has passed.
unfoldable pub wait_timeout : ℕ → List (State × ℕ) → Option (Result Bool)
unfolding outcome
wait_timeout timeout [] = none
wait_timeout timeout ((state, elapsed) ∷ looks) =
    let later = wait_timeout timeout looks in
    if state.done
    then some (reached (outcome state))
    else if ltb timeout elapsed
    then some (ok false)
    else later

-- `state.wakers.iter_mut().find(|slot| slot.is_none())`, and the write.
unfoldable pub fill : ℕ → List (Option ℕ) → Option (List (Option ℕ))
fill waker [] = none
fill waker (none ∷ wakers) = some (some waker ∷ wakers)
fill waker (some other ∷ wakers) = elim (fill waker wakers) [
  | none ↦ none
  | some filled ↦ some (some other ∷ filled)
]

-- An empty place if there is one, else the overflow.
abbrev pub place : Option (List (Option ℕ)) → ℕ → State → State
place (some filled) waker state = record state { wakers = filled }
place none waker state = record state { overflow_wakers = state.overflow_wakers ++ waker ∷ [] }

abbrev pub insert_waker : ℕ → State → State
insert_waker waker state = place (fill waker state.wakers) waker state

-- The part of `Future::poll` that keeps the waker, unless one is kept that will wake the same task.
unfoldable pub register : (ℕ → ℕ → Bool) → ℕ → State → State
unfolding fill flatten
register will_wake waker state =
    if any (λ w. will_wake w waker) (registered state) then state else insert_waker waker state

-- `Future::poll`
unfoldable pub poll : (ℕ → ℕ → Bool) → ℕ → Signal → Signal × Option (Result (Unit {0}))
unfolding register outcome
poll will_wake waker s =
    if s.state.done
    then (s, some (outcome s.state))
    else (record s { state = register will_wake waker s.state }, none)

-- The part of `Slot` that says who may use it, with the signal beside it.
pub record Slot : Type 0 where
  pub occupied : Bool
  pub signal : Signal

-- The filter of `ExecutableGraph::submit_after`.
unfoldable pub is_free : Slot → Bool
is_free slot = not slot.occupied && ((slot.signal.observers == 0) && slot.signal.state.done)

-- A submission takes the slot, and hands out its first observer.
unfoldable pub take_slot : ℕ → Slot → Slot
unfolding observe reset
take_slot now slot = record { occupied = true; signal = observe (reset now slot.signal) }

abbrev later_slot : Slot → Result (ℕ × List Slot) → Result (ℕ × List Slot)
later_slot slot (ok (index, slots)) = ok (index + 1, slot ∷ slots)
later_slot slot (err e) = err e

-- `slots.iter_mut().enumerate().find(..)`
unfoldable pub submit : ℕ → List Slot → Result (ℕ × List Slot)
unfolding is_free take_slot
submit now [] =
    err (busy "prepared run slots are occupied; drop completed observers or reserve more slots")
submit now (slot ∷ slots) =
    let later = later_slot slot (submit now slots) in
    if is_free slot then ok (0, take_slot now slot ∷ slots) else later
