-- ===== src/Completion/Wakers.antt =====
-- src/execution/completion.rs: the wakers that are registered.
use hrx_rs.Common.{
  ℕ, ◌≡◌, refl, true, Bool, Option, none, some, ◌⊎◌, inl, inr, List, [], ◌∷◌, ◌++◌, In, any, any-In,
  arith, Bool-cases, Option-cases,
}
use hrx_rs.Completion.{State, flatten, registered, fill, insert_waker, register}

In-append : (x : ℕ) (xs ys : List ℕ) → In x xs ⊎ In x ys → In x (xs ++ ys)
In-append x [] ys (inl m) = elim m [ ]
In-append x [] ys (inr m) = m
In-append x (y ∷ xs) ys (inl (inl e)) = inl e
In-append x (y ∷ xs) ys (inl (inr m)) = inr (In-append x xs ys (inl m))
In-append x (y ∷ xs) ys (inr m) = inr (In-append x xs ys (inr m))

append-In : (x : ℕ) (xs ys : List ℕ) → In x (xs ++ ys) → In x xs ⊎ In x ys
append-In x [] ys m = inr m
append-In x (y ∷ xs) ys (inl e) = inl (inl e)
append-In x (y ∷ xs) ys (inr m) = elim (append-In x xs ys m) [
  | inl left ↦ inl (inr left)
  | inr right ↦ inr right
]

-- A waker in an empty place is there beside the others, and nothing else is.
In-fill :
    (x waker : ℕ) (wakers filled : List (Option ℕ))
    → fill waker wakers ≡ some filled
    → (x ≡ waker) ⊎ In x (flatten wakers)
    → In x (flatten filled)
unfolding fill flatten
In-fill x waker [] filled h m = absurd (ground arith)
In-fill x waker (none ∷ wakers) filled h m =
    let e : filled ≡ some waker ∷ wakers = ground arith in rw e m
In-fill x waker (some other ∷ wakers) filled h m = elim (Option-cases (fill waker wakers)) [
  | inl full ↦ absurd (ground arith)
  | inr (more, e) ↦
      let shape : filled ≡ some other ∷ more = ground (arith, e) in
      rw shape (elim m [
        | inl new ↦ inr (In-fill x waker wakers more e (inl new))
        | inr (inl first) ↦ inl first
        | inr (inr later) ↦ inr (In-fill x waker wakers more e (inr later))
      ])
]

fill-In :
    (x waker : ℕ) (wakers filled : List (Option ℕ))
    → fill waker wakers ≡ some filled
    → In x (flatten filled)
    → (x ≡ waker) ⊎ In x (flatten wakers)
unfolding fill flatten
fill-In x waker [] filled h m = absurd (ground arith)
fill-In x waker (none ∷ wakers) filled h m =
    let e : filled ≡ some waker ∷ wakers = ground arith in rw e at m
fill-In x waker (some other ∷ wakers) filled h m = elim (Option-cases (fill waker wakers)) [
  | inl full ↦ absurd (ground arith)
  | inr (more, e) ↦
      let shape : filled ≡ some other ∷ more = ground (arith, e) in
      elim (rw shape at m) [
        | inl first ↦ inr (inl first)
        | inr later ↦ elim (fill-In x waker wakers more e later) [
          | inl new ↦ inl new
          | inr old ↦ inr (inr old)
        ]
      ]
]

In-insert_waker :
    (x waker : ℕ) (state : State)
    → (x ≡ waker) ⊎ In x (registered state)
    → In x (registered (insert_waker waker state))
In-insert_waker x waker state m = elim (Option-cases (fill waker state.wakers)) [
  | inl full ↦ rw full (
      In-append x (flatten state.wakers) (state.overflow_wakers ++ waker ∷ []) (elim m [
        | inl new ↦ inr (In-append x state.overflow_wakers (waker ∷ []) (inr (inl new)))
        | inr old ↦ elim (append-In x (flatten state.wakers) state.overflow_wakers old) [
          | inl left ↦ inl left
          | inr right ↦ inr (In-append x state.overflow_wakers (waker ∷ []) (inl right))
        ]
      ]))
  | inr (filled, e) ↦ rw e (
      In-append x (flatten filled) state.overflow_wakers (elim m [
        | inl new ↦ inl (In-fill x waker state.wakers filled e (inl new))
        | inr old ↦ elim (append-In x (flatten state.wakers) state.overflow_wakers old) [
          | inl left ↦ inl (In-fill x waker state.wakers filled e (inr left))
          | inr right ↦ inr right
        ]
      ]))
]

insert_waker-In :
    (x waker : ℕ) (state : State)
    → In x (registered (insert_waker waker state))
    → (x ≡ waker) ⊎ In x (registered state)
insert_waker-In x waker state m = elim (Option-cases (fill waker state.wakers)) [
  | inl full ↦
      elim (append-In x (flatten state.wakers) (state.overflow_wakers ++ waker ∷ [])
        (rw full at m)) [
          | inl left ↦ inr (In-append x (flatten state.wakers) state.overflow_wakers (inl left))
          | inr right ↦ elim (append-In x state.overflow_wakers (waker ∷ []) right) [
            | inl old ↦ inr (In-append x (flatten state.wakers) state.overflow_wakers (inr old))
            | inr (inl new) ↦ inl new
            | inr (inr never) ↦ elim never [ ]
          ]
        ]
  | inr (filled, e) ↦ elim (append-In x (flatten filled) state.overflow_wakers (rw e at m)) [
    | inl left ↦ elim (fill-In x waker state.wakers filled e left) [
      | inl new ↦ inl new
      | inr old ↦ inr (In-append x (flatten state.wakers) state.overflow_wakers (inl old))
    ]
    | inr right ↦ inr (In-append x (flatten state.wakers) state.overflow_wakers (inr right))
  ]
]

-- One of the wakers wakes the same task.
abbrev pub Woken : (ℕ → ℕ) → List ℕ → ℕ → Type 0
Woken task wakers waker = (w : ℕ) × In w wakers × (task w ≡ task waker)

module _ (will_wake : ℕ → ℕ → Bool) where
  -- Whoever was registered still is.
  pub In-register :
      (x waker : ℕ) (state : State)
      → In x (registered state)
      → In x (registered (register will_wake waker state))
  unfolding register
  In-register x waker state m =
      elim (Bool-cases (any (λ w. will_wake w waker) (registered state))) [
        | inl known ↦ rw known m
        | inr new ↦ rw new (In-insert_waker x waker state (inr m))
      ]

  pub register-In :
      (x waker : ℕ) (state : State)
      → In x (registered (register will_wake waker state))
      → (x ≡ waker) ⊎ In x (registered state)
  unfolding register
  register-In x waker state m =
      elim (Bool-cases (any (λ w. will_wake w waker) (registered state))) [
        | inl known ↦ inr (rw known at m)
        | inr new ↦ insert_waker-In x waker state (rw new at m)
      ]

  pub register-Woken :
      (task : ℕ → ℕ)
      → ((a b : ℕ) → will_wake a b ≡ true → task a ≡ task b)
      → (waker : ℕ) (state : State) → Woken task (registered (register will_wake waker state)) waker
  unfolding register
  register-Woken task same_task waker state =
      elim (Bool-cases (any (λ w. will_wake w waker) (registered state))) [
        | inl known ↦
            let (w, m, e) = any-In (λ w. will_wake w waker) (registered state) known in
            rw known (w, m, same_task w waker e)
        | inr new ↦ rw new (waker, In-insert_waker waker waker state (inl refl), refl)
      ]
