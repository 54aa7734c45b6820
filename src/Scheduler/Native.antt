-- ===== src/Scheduler/Native.antt =====
-- src/execution/scheduler.rs: `NativeLease`, a synchronous stage that reserves the compute lane. A
-- waiting stage looks at `native_ready` again and again; `enter_native` is the round that finds it true.
use hrx_rs.Common.{
  ℕ, Bool, true, false, ◌&&◌, ◌||◌, not, List, [], ◌∷◌, ◌++◌, any, if◌then◌else◌, leb, ltb, ◌==◌,
}
use hrx_rs.Common.Errors.{busy, Result, ok, err}
use hrx_rs.Scheduler.State.{Pending, Scheduler, compute, assign, occupied}
use hrx_rs.Scheduler.Queue.{next_ticket}

abbrev pub is_front : ℕ → List ℕ → Bool
is_front ticket [] = false
is_front ticket (front ∷ rest) = front == ticket

unfoldable pub native_ready : Scheduler → ℕ → Bool
native_ready s ticket =
    is_front ticket s.native
    && (not (s.running compute)
        && (not (any (λ (job : Pending). ltb job.sequence ticket) s.pending)
            && not (any (λ sequence. ltb sequence ticket) s.finishing)))

-- `VecDeque::pop_front`
abbrev pub pop_front : List ℕ → List ℕ
pop_front [] = []
pop_front (front ∷ rest) = rest

-- `acquire` up to its wait.
unfoldable pub acquire : Scheduler → Result (ℕ × Scheduler)
acquire s =
    let ticket = next_ticket s in
    if leb s.capacity (occupied s)
    then err (busy "runtime submission capacity exhausted")
    else ok (ticket.0, record ticket.1 { native = s.native ++ ticket.0 ∷ [] })

-- What follows the wait, in `acquire` and in `yield_now`.
unfoldable pub enter_native : Scheduler → Scheduler
enter_native s = record s {
  native = pop_front s.native;
  native_active = true;
  running = assign s.running compute true;
}

-- `yield_now` up to its wait.
unfoldable pub yield_now : Scheduler → ℕ × Scheduler
yield_now s =
    let ticket = next_ticket s in
    (
      ticket.0,
      record ticket.1 {
        native = s.native ++ ticket.0 ∷ [];
        native_active = false;
        running = assign s.running compute false;
      },
    )

-- `drop`
unfoldable pub release : Scheduler → Scheduler
release s = record s { native_active = false; running = assign s.running compute false }

unfoldable pub has_waiters : Scheduler → Bool
has_waiters s =
    any (λ _. true) s.pending || (any (λ _. true) s.finishing || any (λ _. true) s.native)
