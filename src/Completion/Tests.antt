-- ===== src/Completion/Tests.antt =====
-- src/execution/completion.rs: a submission that a task waits for, cancelled when it is over.
use hrx_rs.Common.{
  ℕ, ◌%◌, ◌==◌, Bool, ap, In, ◌≡◌, ◌≢◌, refl, true, false, none, some, [], ◌∷◌, arith,
}
use hrx_rs.Common.Errors.{ok, err, cancelled}
use hrx_rs.Completion.{
  new, flatten, publish, cancel, poll, result, is_free, take_slot, submit, profile, wait,
  wait_timeout, validate_runtime, register, registered,
}
use hrx_rs.Completion.Wakers.{Woken}
use hrx_rs.Completion.Steps.{
  Run, fresh, submits, waits, leaves, publishes, cancels, Reach, here, next,
}
use hrx_rs.Completion.Promises.{publish_wakes, result_stable}

-- Wakers with the same last digit are of one task, of which `will_wake` recognises only the same waker.
abbrev task_of : ℕ → ℕ
task_of waker = waker % 10

abbrev same_waker : ℕ → ℕ → Bool
same_waker a b = a == b

same_waker-same_task : (a b : ℕ) → same_waker a b ≡ true → task_of a ≡ task_of b
same_waker-same_task a b h = let same : a ≡ b = ground arith in ap task_of same

abbrev submitted : Run
submitted = record { slot = take_slot 5 fresh.slot; unpublished = true; waiting = [] }

abbrev polled : Run
polled = record {
  slot = record submitted.slot { signal = (poll same_waker 7 submitted.slot.signal).0 };
  unpublished = true;
  waiting = 7 ∷ [];
}

abbrev left : Run
left = record polled { slot = record polled.slot { occupied = false } }

abbrev over : Run
over = record {
  slot = record left.slot { signal = (publish none 9 left.slot.signal).0 };
  unpublished = false;
  waiting = [];
}

polled-Reach : Reach same_waker polled
unfolding take_slot is_free poll
polled-Reach = next (next here (submits fresh 5 refl)) (waits submitted 7 (omega arith) refl)

over-Reach : Reach same_waker over
unfolding take_slot is_free poll
over-Reach = next (next polled-Reach (leaves polled refl)) (publishes left none 9 refl refl)

publish_wakes_example :
    ((waker : ℕ) → In waker (7 ∷ []) → Woken task_of (publish none 9 polled.slot.signal).1 waker)
    × ((w : ℕ) → In w (publish none 9 polled.slot.signal).1 → In w (7 ∷ []))
    × ((waker : ℕ)
        → poll same_waker waker (publish none 9 polled.slot.signal).0
          ≡ ((publish none 9 polled.slot.signal).0, result (publish none 9 polled.slot.signal).0))
    × (result (publish none 9 polled.slot.signal).0 ≢ none)
publish_wakes_example =
    publish_wakes same_waker task_of same_waker-same_task polled none 9 polled-Reach

has_result : result over.slot.signal ≡ some (ok tt)
unfolding take_slot poll publish result
has_result = refl

result_stable_example : result (cancel over.slot.signal) ≡ result over.slot.signal
unfolding take_slot poll publish result
result_stable_example =
    result_stable {will_wake = same_waker} {r = over} over-Reach (cancels over (omega arith))
      (omega arith) (λ e. cc)

woken : (publish none 9 polled.slot.signal).1 ≡ 7 ∷ []
unfolding take_slot poll publish flatten
woken = refl

-- A cancellation before the end is the result.
cancelled_first : result (publish none 9 (cancel polled.slot.signal)).0 ≡ some (err cancelled)
unfolding take_slot poll publish result cancel
cancelled_first = refl

-- The fifth task goes to the overflow.
fifth :
    (register same_waker 5 (
      register same_waker 4 (
        register same_waker 3
          (register same_waker 2 (register same_waker 1 new.state))))).overflow_wakers
    ≡ 5 ∷ []
unfolding register
fifth = refl

-- A second waker of one task is kept too, and the same waker is not.
second_waker :
    registered (register same_waker 7 (register same_waker 17 (register same_waker 7 new.state)))
    ≡ 7 ∷ 17 ∷ []
unfolding register flatten
second_waker = refl

timed_out :
    wait_timeout 10 ((polled.slot.signal.state, 4) ∷ (over.slot.signal.state, 11) ∷ [])
    ≡ some (ok true)
unfolding wait_timeout take_slot poll publish
timed_out = refl

waited : wait (polled.slot.signal.state ∷ over.slot.signal.state ∷ []) ≡ some (ok tt)
unfolding wait take_slot poll publish
waited = refl

measured : profile over.slot.signal ≡ some (record { elapsed = 4; queue = none })
unfolding profile take_slot poll publish
measured = refl

orphaned : validate_runtime none over.slot.signal ≡ ok tt
unfolding validate_runtime take_slot poll publish
orphaned = refl

-- The second of two slots is free.
second_slot :
    submit 5 (submitted.slot ∷ fresh.slot ∷ [])
    ≡ ok (1, submitted.slot ∷ take_slot 5 fresh.slot ∷ [])
unfolding submit
second_slot = refl
