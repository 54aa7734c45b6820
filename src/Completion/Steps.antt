-- ===== src/Completion/Steps.antt =====
-- src/execution/completion.rs: what may happen to a slot and its signal, in any order.
use hrx_rs.Common.{
  ℕ, ◌<◌, ◌≡◌, refl, sym, ap, subst, ◌∙◌, In, any, inl, inr, Bool, true, false, not, Option, none,
  some, List, [], ◌∷◌, All, arith, Bool-cases,
}
use hrx_rs.Common.Errors.{Error}
use hrx_rs.Completion.{
  State, Signal, flatten, new, reset, publish, started, observe, drop, cancel, poll, Slot, is_free,
  take_slot, registered, register, fill, place,
}
use hrx_rs.Completion.Wakers.{Woken, In-register, register-In, register-Woken}

-- A slot, whether the result of its last submission is still to be published, and the wakers of the
-- polls since that submission that were told to wait.
pub record Run : Type 0 where
  pub slot : Slot
  pub unpublished : Bool
  pub waiting : List ℕ

abbrev pub fresh : Run
fresh = record {
  slot = record { occupied = false; signal = new };
  unpublished = false;
  waiting = [];
}

abbrev pub with_signal : Run → Signal → Run
with_signal r signal = record r { slot = record r.slot { signal = signal } }

-- The scheduler finishes a submission in two sections: it leaves the slot, and publishes later.
pub data Step (will_wake : ℕ → ℕ → Bool) : Run → Run → Type 0 where
  submits :
      (r : Run) (now : ℕ)
      → is_free r.slot ≡ true
      → Step will_wake r (record { slot = take_slot now r.slot; unpublished = true; waiting = [] })
  clones :
      (r : Run)
      → 0 < r.slot.signal.observers
      → Step will_wake r (with_signal r (observe r.slot.signal))
  drops :
      (r : Run)
      → 0 < r.slot.signal.observers
      → Step will_wake r (with_signal r (drop r.slot.signal))
  cancels :
      (r : Run)
      → 0 < r.slot.signal.observers
      → Step will_wake r (with_signal r (cancel r.slot.signal))
  starts :
      (r : Run) (now : ℕ)
      → r.slot.occupied ≡ true
      → Step will_wake r (with_signal r (started now r.slot.signal))
  waits :
      (r : Run) (waker : ℕ)
      → 0 < r.slot.signal.observers
      → (poll will_wake waker r.slot.signal).1 ≡ none
      → Step will_wake r (record {
        slot = record r.slot { signal = (poll will_wake waker r.slot.signal).0 };
        unpublished = r.unpublished;
        waiting = waker ∷ r.waiting;
      })
  leaves :
      (r : Run)
      → r.slot.occupied ≡ true
      → Step will_wake r (record r { slot = record r.slot { occupied = false } })
  publishes :
      (r : Run) (failure : Option Error) (now : ℕ)
      → r.slot.occupied ≡ false
      → r.unpublished ≡ true
      → Step will_wake r (record {
        slot = record r.slot { signal = (publish failure now r.slot.signal).0 };
        unpublished = false;
        waiting = [];
      })

pub data Reach (will_wake : ℕ → ℕ → Bool) : Run → Type 0 where
  here : Reach will_wake fresh
  next : {r q : Run} → Reach will_wake r → Step will_wake r q → Reach will_wake q

pub poll-pending :
    (will_wake : ℕ → ℕ → Bool) (waker : ℕ) (s : Signal)
    → (poll will_wake waker s).1 ≡ none
    → s.state.done ≡ false
unfolding poll
poll-pending will_wake waker s h = elim (Bool-cases s.state.done) [
  | inl done ↦ absurd (ground arith)
  | inr pending ↦ pending
]

poll-eq :
    (will_wake : ℕ → ℕ → Bool) (waker : ℕ) (s : Signal)
    → s.state.done ≡ false
    → poll will_wake waker s ≡ (record s { state = register will_wake waker s.state }, none)
unfolding poll
poll-eq will_wake waker s h = rw h

place-done :
    (filled : Option (List (Option ℕ))) (task : ℕ) (state : State)
    → (place filled task state).done ≡ state.done
place-done none task state = refl
place-done (some wakers) task state = refl

register-done :
    (will_wake : ℕ → ℕ → Bool) (waker : ℕ) (state : State)
    → (register will_wake waker state).done ≡ state.done
unfolding register
register-done will_wake waker state =
    elim (Bool-cases (any (λ w. will_wake w waker) (registered state))) [
      | inl known ↦ rw known
      | inr new ↦ rw new (place-done (fill waker state.wakers) waker state)
    ]

module _ (will_wake : ℕ → ℕ → Bool) (task : ℕ → ℕ)
    (same_task : (a b : ℕ) → will_wake a b ≡ true → task a ≡ task b) where
  pub record IsSound (r : Run) : Type 0 where
    pub published : r.slot.signal.state.done ≡ not r.unpublished
    pub held : r.slot.occupied ≡ true → r.unpublished ≡ true
    pub heard : All (Woken task (registered r.slot.signal.state)) r.waiting
    pub known : (w : ℕ) → In w (registered r.slot.signal.state) → In w r.waiting

  still_Woken :
      (state : State) (waker : ℕ) (wakers : List ℕ)
      → All (Woken task (registered state)) wakers
      → All (Woken task (registered (register will_wake waker state))) wakers
  still_Woken state waker [] all = tt
  still_Woken state waker (t ∷ wakers) all =
      let (w, m, e) = all.0 in
      ((w, In-register will_wake w waker state m, e), still_Woken state waker wakers all.1)

  -- A step that leaves the wakers, the wait and what the scheduler has done.
  same-IsSound :
      (r q : Run)
      → q.slot.signal.state.done ≡ r.slot.signal.state.done
      → q.slot.occupied ≡ r.slot.occupied
      → q.unpublished ≡ r.unpublished
      → registered q.slot.signal.state ≡ registered r.slot.signal.state
      → q.waiting ≡ r.waiting
      → IsSound r
      → IsSound q
  same-IsSound r q done occupied unpublished wakers waiting s = record {
    published = done ∙ (s.published ∙ ap not (sym unpublished));
    held = λ o. unpublished ∙ s.held (sym occupied ∙ o);
    heard =
        subst (λ ws. All (Woken task ws) q.waiting) (sym wakers)
          (subst (λ ws. All (Woken task (registered r.slot.signal.state)) ws) (sym waiting)
            s.heard);
    known = λ w m. subst (In w) (sym waiting) (s.known w (subst (In w) wakers m));
  }

  Step-IsSound : {r q : Run} → Step will_wake r q → IsSound r → IsSound q
  unfolding take_slot reset publish flatten observe drop cancel started
  Step-IsSound (submits r now free) s = record {
    published = refl;
    held = λ _. refl;
    heard = tt;
    known = λ w m. m;
  }
  Step-IsSound (clones r h) s = same-IsSound r _ refl refl refl refl refl s
  Step-IsSound (drops r h) s = same-IsSound r _ refl refl refl refl refl s
  Step-IsSound (cancels r h) s = same-IsSound r _ refl refl refl refl refl s
  Step-IsSound (starts r now h) s = same-IsSound r _ refl refl refl refl refl s
  Step-IsSound (waits r waker h w) s =
      let state = r.slot.signal.state in
      rw (poll-eq will_wake waker r.slot.signal (poll-pending will_wake waker r.slot.signal w))
        (record {
          published = register-done will_wake waker state ∙ s.published;
          held = s.held;
          heard = (
            register-Woken will_wake task same_task waker state,
            still_Woken state waker r.waiting s.heard,
          );
          known = λ x m. elim (register-In will_wake x waker state m) [
            | inl new ↦ inl new
            | inr old ↦ inr (s.known x old)
          ];
        })
  Step-IsSound (leaves r h) s = record {
    published = s.published;
    held = λ o. cc;
    heard = s.heard;
    known = s.known;
  }
  Step-IsSound (publishes r failure now h u) s = record {
    published = refl;
    held = λ o. cc;
    heard = tt;
    known = λ w m. m;
  }

  pub Reach-IsSound : {r : Run} → Reach will_wake r → IsSound r
  unfolding flatten
  Reach-IsSound here = record { published = refl; held = λ o. cc; heard = tt; known = λ w m. m }
  Reach-IsSound (next reach step) = Step-IsSound step (Reach-IsSound reach)
