-- ===== src/Completion/Promises.antt =====
-- src/execution/completion.rs: what a completion promises to those who wait for it.
use hrx_rs.Common.{
  ℕ, ◌<◌, ◌≡◌, ◌≢◌, refl, sym, subst, inl, inr, true, Option, none, List, [], ◌∷◌, All, arith,
  Bool-cases, In, Bool,
}
use hrx_rs.Common.Errors.{Error}
use hrx_rs.Completion.{Signal, publish, started, observe, drop, cancel, poll, result, is_free}
use hrx_rs.Completion.Wakers.{Woken}
use hrx_rs.Completion.Steps.{
  Run, Step, submits, clones, drops, cancels, starts, waits, leaves, publishes, Reach,
  Reach-IsSound, poll-pending,
}

In-All : (P : ℕ → Type 0) (x : ℕ) (xs : List ℕ) → In x xs → All P xs → P x
In-All P x [] m all = elim m [ ]
In-All P x (y ∷ ys) (inl e) all = subst P (sym e) all.0
In-All P x (y ∷ ys) (inr m) all = In-All P x ys m all.1

-- In every reachable state, and if a waker that says that it will wake the task of another does so,
-- publishing a result wakes the task of each poll since the submission that was told to wait, wakes
-- only wakers of such polls, and leaves the same result for every later poll.
pub publish_wakes :
    (will_wake : ℕ → ℕ → Bool) (task : ℕ → ℕ)
    → ((a b : ℕ) → will_wake a b ≡ true → task a ≡ task b)
    → (r : Run) (failure : Option Error) (now : ℕ) → Reach will_wake r
    → ((waker : ℕ) → In waker r.waiting → Woken task (publish failure now r.slot.signal).1 waker)
      × ((w : ℕ) → In w (publish failure now r.slot.signal).1 → In w r.waiting)
      × ((waker : ℕ)
          → poll will_wake waker (publish failure now r.slot.signal).0
            ≡ ((publish failure now r.slot.signal).0, result (publish failure now r.slot.signal).0))
      × (result (publish failure now r.slot.signal).0 ≢ none)
unfolding publish poll result
publish_wakes will_wake task same_task r failure now reach =
    let sound = Reach-IsSound will_wake task same_task reach in
    (
      λ waker m. In-All (Woken task _) waker r.waiting m sound.heard,
      sound.known,
      λ waker. refl,
      λ e. cc,
    )

result-done : (s : Signal) → result s ≢ none → s.state.done ≡ true
unfolding result
result-done s h = elim (Bool-cases s.state.done) [
  | inl done ↦ done
  | inr pending ↦ absurd (h (rw pending refl))
]

-- While somebody observes a completion that has a result, no step changes the result: neither a
-- later cancellation nor another submission of the graph.
pub result_stable :
    {will_wake : ℕ → ℕ → Bool} {r q : Run}
    → Reach will_wake r
    → Step will_wake r q
    → 0 < r.slot.signal.observers
    → result r.slot.signal ≢ none
    → result q.slot.signal ≡ result r.slot.signal
unfolding is_free observe drop cancel started result
result_stable reach (submits r now free) observed h = absurd (ground arith)
result_stable reach (clones r _) observed h = refl
result_stable reach (drops r _) observed h = refl
result_stable reach (cancels r _) observed h = refl
result_stable reach (starts r now _) observed h = refl
result_stable {will_wake = will_wake} reach (waits r waker _ pending) observed h =
    let over = result-done r.slot.signal h in
    let still_open = poll-pending will_wake waker r.slot.signal pending in absurd (ground arith)
result_stable reach (leaves r _) observed h = refl
result_stable {will_wake = will_wake} reach (publishes r failure now left u) observed h =
    let over = result-done r.slot.signal h in
    let sound = (Reach-IsSound will_wake (λ _. 0) (λ a b e. refl) reach).published in
    absurd (ground arith)
