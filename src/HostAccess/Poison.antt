-- ===== src/HostAccess/Poison.antt =====
-- src/execution/buffer.rs: an allocation that a failure poisoned.
use Prim.Native.String.{String}
use hrx_rs.Common.{
  ℕ, ◌≡◌, ◌≢◌, refl, sym, inl, inr, Bool, true, false, List, [], ◌∷◌, none, In, ◌==◌, arith,
  Bool-cases, Option-cases,
}
use hrx_rs.Common.Errors.{Error, device_lost, unsupported, ok, bind-ok}
use hrx_rs.HostAccess.{
  HostState, Storages, ViewUse, refuses, acquire_round, release, put, host_conflict, usable, admit,
  poison, hand_off, hand_back, lease,
}
use hrx_rs.HostAccess.Steps.{
  World, Step, maps, unmaps, submits, completes, fails, hands_off, hands_back,
}
use hrx_rs.HostAccess.Preservation.{acquire_round-leases}

-- What happens to a world.
pub data Steps (w : World) : World → Type 0 where
  here : Steps w w
  next : {v x : World} → Steps w v → Step v x → Steps w x

abbrev pub IsPoisoned : Storages → ℕ → Type 0
IsPoisoned storages id = (storages id).host.poison ≢ none

put-IsPoisoned :
    (storages : Storages) (id i : ℕ) (host : HostState)
    → (IsPoisoned storages i → host.poison ≢ none)
    → IsPoisoned storages id
    → IsPoisoned (put storages i host) id
put-IsPoisoned storages id i host h p = elim (Bool-cases (id == i)) [
  | inl same ↦ let e : id ≡ i = ground arith in rw same (h (rw e at p))
  | inr other ↦ rw other p
]

poison-IsPoisoned :
    (lost : String) (uses : List ViewUse) (storages : Storages) (id : ℕ)
    → IsPoisoned storages id
    → IsPoisoned (poison lost uses storages) id
unfolding poison
poison-IsPoisoned lost [] storages id p = p
poison-IsPoisoned lost (u ∷ uses) storages id p =
    poison-IsPoisoned lost uses _ id (put-IsPoisoned storages id u.view.storage _ (λ _ e. cc) p)

hand_off-IsPoisoned :
    (ids : List ℕ) (storages : Storages) (id : ℕ)
    → IsPoisoned storages id
    → IsPoisoned (hand_off ids storages) id
unfolding hand_off
hand_off-IsPoisoned [] storages id p = p
hand_off-IsPoisoned (i ∷ ids) storages id p =
    hand_off-IsPoisoned ids _ id (put-IsPoisoned storages id i _ (λ h. h) p)

hand_back-IsPoisoned :
    (uncertain : Bool) (ids : List ℕ) (storages : Storages) (id : ℕ)
    → IsPoisoned storages id
    → IsPoisoned (hand_back uncertain ids storages) id
unfolding hand_back
hand_back-IsPoisoned uncertain [] storages id p = p
hand_back-IsPoisoned true (i ∷ ids) storages id p =
    hand_back-IsPoisoned true ids _ id (put-IsPoisoned storages id i _ (λ _ e. cc) p)
hand_back-IsPoisoned false (i ∷ ids) storages id p =
    hand_back-IsPoisoned false ids _ id (put-IsPoisoned storages id i _ (λ h. h) p)

lease-poison : (write : Bool) (host : HostState) → (lease write host).poison ≡ host.poison
lease-poison true host = refl
lease-poison false host = refl

release-poison : (write : Bool) (host : HostState) → (release write host).poison ≡ host.poison
unfolding release
release-poison true host = refl
release-poison false host = refl

Step-IsPoisoned :
    {w v : World} → Step w v → (id : ℕ) → IsPoisoned w.storages id → IsPoisoned v.storages id
Step-IsPoisoned (maps w write wait i host h) id p =
    let (_, _, e) = acquire_round-leases write wait w.pending w.storages i host h in
    put-IsPoisoned w.storages id i host (λ q. rw (e, lease-poison write (w.storages i).host) q) p
Step-IsPoisoned (unmaps w write i h) id p =
    put-IsPoisoned w.storages id i _ (λ q. rw (release-poison write (w.storages i).host) q) p
Step-IsPoisoned (submits w uses h) id p = p
Step-IsPoisoned (completes w i) id p = p
Step-IsPoisoned (fails w i uses lost h) id p = poison-IsPoisoned lost uses w.storages id p
Step-IsPoisoned (hands_off w ids h) id p = hand_off-IsPoisoned ids w.storages id p
Step-IsPoisoned (hands_back w uncertain ids h) id p =
    hand_back-IsPoisoned uncertain ids w.storages id p

Steps-IsPoisoned :
    {w v : World} → Steps w v → (id : ℕ) → IsPoisoned w.storages id → IsPoisoned v.storages id
Steps-IsPoisoned here id p = p
Steps-IsPoisoned (next steps step) id p = Step-IsPoisoned step id (Steps-IsPoisoned steps id p)

poisoned_round :
    (write wait : Bool) (pending : List (List ViewUse)) (storages : Storages) (id : ℕ)
    → IsPoisoned storages id
    → (e : Error) × (acquire_round write wait pending storages id ≡ refuses e)
unfolding acquire_round
poisoned_round write wait pending storages id p = elim (Option-cases (storages id).host.poison) [
  | inl clean ↦ absurd (p clean)
  | inr (lost, e) ↦ elim (Bool-cases (storages id).mapped) [
    | inl mapped ↦ (device_lost lost, rw (mapped, e) refl)
    | inr unmapped ↦ (
      unsupported
          "GPU-local memory is not host mapped; use an explicit graph copy to shared storage",
      rw unmapped refl,
    )
  ]
]

poisoned_admit :
    (storages : Storages) (uses : List ViewUse) (u : ViewUse)
    → In u uses
    → IsPoisoned storages u.view.storage
    → admit storages uses ≢ ok tt
unfolding admit host_conflict
poisoned_admit storages [] u m p h = elim m [ ]
poisoned_admit storages (v ∷ uses) u m p h =
    let (_, first, rest) = bind-ok (host_conflict v.access (storages v.view.storage).host) _ tt h in
    elim m [
      | inr later ↦ poisoned_admit storages uses u later p rest
      | inl e ↦ elim (Option-cases (storages u.view.storage).host.poison) [
        | inl clean ↦ p clean
        | inr (lost, lost_eq) ↦ ground (arith, rw (sym e) at first, lost_eq)
      ]
    ]

poisoned_usable :
    (storages : Storages) (uses : List ViewUse) (u : ViewUse)
    → In u uses
    → IsPoisoned storages u.view.storage
    → usable storages uses ≢ ok tt
unfolding usable
poisoned_usable storages [] u m p h = elim m [ ]
poisoned_usable storages (v ∷ uses) u m p h =
    elim (Option-cases (storages v.view.storage).host.poison) [
      | inr (lost, e) ↦ ground (arith, e)
      | inl clean ↦ elim m [
        | inl same ↦ p (rw same clean)
        | inr later ↦ poisoned_usable storages uses u later p (ground (arith, clean))
      ]
    ]

-- Once a failure has poisoned an allocation, whatever happens afterwards, every attempt to map it is
-- refused, and every submission with a use of it fails both checks.
pub poisoned_for_good :
    {w v : World} (id : ℕ)
    → IsPoisoned w.storages id
    → Steps w v
    → ((write wait : Bool)
        → (e : Error) × (acquire_round write wait v.pending v.storages id ≡ refuses e))
      × ((uses : List ViewUse) (u : ViewUse)
          → In u uses
          → u.view.storage ≡ id
          → (usable v.storages uses ≢ ok tt) × (admit v.storages uses ≢ ok tt))
poisoned_for_good {w} {v} id p steps =
    let still = Steps-IsPoisoned steps id p in
    (
      λ write wait. poisoned_round write wait v.pending v.storages id still,
      λ uses u m e. (
        poisoned_usable v.storages uses u m (rw e still),
        poisoned_admit v.storages uses u m (rw e still),
      ),
    )
