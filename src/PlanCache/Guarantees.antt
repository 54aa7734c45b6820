-- ===== src/PlanCache/Guarantees.antt =====
-- src/plan_cache.rs: what a request can rely on.

use mathlib.Core.Logic.{ite}
use hrx_rs.Common.{
  ℕ, ◌+◌, ◌<◌, ◌≡◌, ◌≢◌, refl, ap, ◌∙◌, Bool, false, inl, inr, ◌↔◌, Option, none, some, List, [],
  ◌∷◌, ◌==◌, length, get_elem?, set, arith, Option-cases, Bool-cases, In, get_elem?-append_left,
  get_elem?-lt, get_elem?-set_ne, get_elem?-set_self,
}
use hrx_rs.Common.Errors.{Error, ok, err, busy}
use hrx_rs.Common.Table.{find, insert, remove, Unique, find-insert, find-remove_ne, find-remove}
use hrx_rs.Lru.{Entry, loading, ready, victim}
use hrx_rs.Lru.Victim.{Oldest, victim-Oldest, victim-none}
use hrx_rs.PlanCache.{
  State, Outcome, waits, refused, evictable, elect, admit, enter, publish, observe, release, tick,
}
use hrx_rs.PlanCache.Requests.{System, Step, enters, publishes, releases, Reach, Reach-IsSound}

module _ {K : Type 0} (eq : Discrete K) where
  -- While a request is at work on a key, every other request for the key waits for that request's
  -- flight: none is elected beside it, and none is refused.
  pub single_flight :
      {c : ℕ} {s : System K} (idle : ℕ → Bool) (key : K) (flight : ℕ)
      → Reach eq c s
      → In (key, flight) s.working
      → (enter eq idle s.state key).1 ≡ waits flight
  unfolding enter
  single_flight idle key flight r m =
      let (_, inv) = Reach-IsSound eq r in rw (inv.owner key flight m, enter)

  -- No request takes out a value that somebody else still holds.
  pub pinned_stays :
      (idle : ℕ → Bool) (s : State K) (key j : K) (value used : ℕ)
      → Unique eq s.entries
      → find eq j s.entries ≡ some (ready value used)
      → 0 < s.clones value
      → (used' : ℕ) × (find eq j (enter eq idle s key).0.entries ≡ some (ready value used'))
  unfolding enter admit elect
  pinned_stays idle s key j value used u e held = elim (Option-cases (find eq key s.entries)) [
    | inr (loading f, e') ↦ (used, ground arith)
    | inr (ready r t, e') ↦ elim (eq key j) [
      | yes same ↦ (
        tick s.clock,
        ground (arith, same, find-insert eq key j (ready r (tick s.clock)) s.entries),
      )
      | no other ↦ (used, ground (arith, find-insert eq key j (ready r (tick s.clock)) s.entries))
    ]
    | inl absent ↦ (used, admitted absent)
  ]
    where
      apart : find eq key s.entries ≡ none → key ≢ j
      apart absent same = absurd (ground (arith, same))

      elected_keeps :
          (m : List (K × Entry ℕ))
          → find eq key s.entries ≡ none
          → find eq j m ≡ some (ready value used)
          → find eq j (insert eq key (loading (length s.flights)) m) ≡ some (ready value used)
      elected_keeps m absent f =
          ground (arith, apart absent, find-insert eq key j (loading (length s.flights)) m)

      admitted :
          find eq key s.entries ≡ none
          → find eq j (enter eq idle s key).0.entries ≡ some (ready value used)
      admitted absent = elim (Bool-cases (length s.entries == s.capacity)) [
        | inr room ↦ rw (absent, room, enter, admit, elect) (elected_keeps s.entries absent e)
        | inl full ↦ elim (Option-cases (victim (evictable idle s.clones) s.entries)) [
          | inl none_idle ↦ rw (absent, full, none_idle, enter, admit, elect) e
          | inr ((oldest, t), found) ↦
              let o = victim-Oldest eq (evictable idle s.clones) s.entries oldest t u found in
              rw (absent, full, found, enter, admit, elect)
                (elected_keeps (remove eq oldest s.entries) absent (
                  find-remove_ne eq oldest j s.entries
                    (λ same. absurd (ground (arith, same, o.entry, o.idle)))
                  ∙ e))
        ]
      ]

  refused_parts :
      (idle : ℕ → Bool) (s : State K) (key : K) (e : Error)
      → (enter eq idle s key).1 ≡ refused e
      → (find eq key s.entries ≡ none)
        × (length s.entries ≡ s.capacity)
        × (victim (evictable idle s.clones) s.entries ≡ none)
  unfolding enter admit elect
  refused_parts idle s key e h = ground arith

  refuses :
      (idle : ℕ → Bool) (s : State K) (key : K)
      → find eq key s.entries ≡ none
      → length s.entries ≡ s.capacity
      → victim (evictable idle s.clones) s.entries ≡ none
      → (enter eq idle s key).1 ≡ refused (busy "all shape plans are pinned or preparing")
  unfolding enter admit elect
  refuses idle s key absent full pinned = ground arith

  -- A request is refused exactly when its key is not there, the cache is full and every entry is
  -- loading, held by somebody or not idle.
  pub refused_iff :
      (idle : ℕ → Bool) (s : State K) (key : K)
      → Unique eq s.entries
      → ((enter eq idle s key).1 ≡ refused (busy "all shape plans are pinned or preparing")) ↔ (
          (find eq key s.entries ≡ none)
          × (length s.entries ≡ s.capacity)
          × ((j : K) (value used : ℕ)
              → find eq j s.entries ≡ some (ready value used)
              → evictable idle s.clones value ≡ false))
  refused_iff idle s key u = (
    λ h.
        let (absent, full, pinned) = refused_parts idle s key _ h in
        (
          absent,
          full,
          λ j value used f.
              victim-none eq (evictable idle s.clones) s.entries j value used pinned f,
        ),
    λ h. elim (Option-cases (victim (evictable idle s.clones) s.entries)) [
      | inl pinned ↦ refuses idle s key h.0 h.1 pinned
      | inr ((oldest, t), found) ↦
          let o = victim-Oldest eq (evictable idle s.clones) s.entries oldest t u found in
          absurd (ground (arith, h.2 oldest o.resource t o.entry, o.idle))
    ],
  )

  admit_evicts :
      (idle : ℕ → Bool) (s : State K) (key : K)
      → (enter eq idle s key).0.evictions ≢ s.evictions
      → (oldest : K) × (used : ℕ) × (victim (evictable idle s.clones) s.entries
          ≡ some (oldest, used))
        × ((enter eq idle s key).0.entries
            ≡ insert eq key (loading (length s.flights)) (remove eq oldest s.entries))
  unfolding enter admit elect
  admit_evicts idle s key h = elim (Option-cases (victim (evictable idle s.clones) s.entries)) [
    | inl pinned ↦ absurd (ground arith)
    | inr ((oldest, used), e) ↦ (oldest, used, e, ground arith)
  ]

  -- When a request evicts an entry, that entry was ready, held by nobody and idle, none such was used
  -- before it, and it alone is gone.
  pub evicts_oldest :
      (idle : ℕ → Bool) (s : State K) (key : K)
      → Unique eq s.entries
      → (enter eq idle s key).0.evictions ≢ s.evictions
      → (oldest : K) × (used : ℕ) × Oldest eq (evictable idle s.clones) s.entries oldest used
        × ((j : K)
            → j ≢ key
            → find eq j (enter eq idle s key).0.entries
              ≡ ite (eq oldest j) none (find eq j s.entries))
  evicts_oldest idle s key u h =
      let (oldest, used, e, entries) = admit_evicts idle s key h in
      (
        oldest,
        used,
        victim-Oldest eq (evictable idle s.clones) s.entries oldest used u e,
        λ j other. rw entries (elim (eq oldest j) [
          | yes same ↦ ground (
            arith,
            same,
            other,
            find-insert eq key j (loading (length s.flights)) (remove eq oldest s.entries),
            find-remove eq oldest s.entries u,
          )
          | no apart ↦ ground (
            arith,
            other,
            find-insert eq key j (loading (length s.flights)) (remove eq oldest s.entries),
            find-remove_ne eq oldest j s.entries apart,
          )
        ]),
      )

  published :
      (s : State K) (key : K) (flight : ℕ) (outcome : Outcome)
      → (publish eq s key flight outcome).flights ≡ set s.flights flight (some outcome)
  unfolding publish
  published s key flight (ok value) = refl
  published s key flight (err e) = refl

  observes :
      (s : State K) (flight : ℕ) (outcome : Outcome)
      → get_elem? s.flights flight ≡ some (some outcome)
      → observe s flight ≡ some outcome
  unfolding observe
  observes s flight outcome h = rw (h, observe) refl

  -- What a request at work publishes is what every request that waits for its flight observes.
  pub publish-observe :
      {c : ℕ} {s : System K} (key : K) (flight : ℕ) (outcome : Outcome)
      → Reach eq c s
      → In (key, flight) s.working
      → observe (publish eq s.state key flight outcome) flight ≡ some outcome
  publish-observe {s = s} key flight outcome r m =
      let (_, inv) = Reach-IsSound eq r in
      observes (publish eq s.state key flight outcome) flight outcome (
        ap (λ fs. get_elem? fs flight) (published s.state key flight outcome)
        ∙ get_elem?-set_self s.state.flights flight (some outcome)
            (get_elem?-lt s.state.flights flight none (inv.flying key flight m)))

  observed :
      (s : State K) (flight : ℕ) (outcome : Outcome)
      → observe s flight ≡ some outcome
      → get_elem? s.flights flight ≡ some (some outcome)
  unfolding observe
  observed s flight outcome h = ground arith

  elect_keeps_flight :
      (s : State K) (key : K) (flight : ℕ) (f : Option Outcome)
      → get_elem? s.flights flight ≡ some f
      → get_elem? (elect eq s key).0.flights flight ≡ some f
  unfolding elect
  elect_keeps_flight s key flight f h =
      get_elem?-append_left s.flights (none ∷ []) flight (get_elem?-lt s.flights flight f h) ∙ h

  admit_keeps_flight :
      (idle : ℕ → Bool) (s : State K) (key : K) (flight : ℕ) (f : Option Outcome)
      → get_elem? s.flights flight ≡ some f
      → get_elem? (admit eq idle s key).0.flights flight ≡ some f
  unfolding admit
  admit_keeps_flight idle s key flight f h = elim (Bool-cases (length s.entries == s.capacity)) [
    | inr room ↦ rw room (elect_keeps_flight s key flight f h)
    | inl full ↦ elim (Option-cases (victim (evictable idle s.clones) s.entries)) [
      | inl pinned ↦ rw (full, pinned, admit) h
      | inr ((oldest, t), e) ↦
          rw (full, e, admit)
            (elect_keeps_flight
              (record s { entries = remove eq oldest s.entries; evictions = s.evictions + 1 }) key
              flight f h)
    ]
  ]

  enter_keeps_flight :
      (idle : ℕ → Bool) (s : State K) (key : K) (flight : ℕ) (f : Option Outcome)
      → get_elem? s.flights flight ≡ some f
      → get_elem? (enter eq idle s key).0.flights flight ≡ some f
  unfolding enter
  enter_keeps_flight idle s key flight f h = go (find eq key s.entries) refl
    where
      go :
          (o : Option (Entry ℕ))
          → find eq key s.entries ≡ o
          → get_elem? (enter eq idle s key).0.flights flight ≡ some f
      go none e =
          rw (e, enter) (admit_keeps_flight idle (record s { clock = tick s.clock }) key flight f h)
      go (some (loading g)) e = rw (e, enter) h
      go (some (ready r u)) e = rw (e, enter) h

  -- In a reachable state, no step of any request changes an outcome that a flight already holds.
  pub observe_stable :
      {c : ℕ} {s t : System K} (flight : ℕ) (outcome : Outcome)
      → Reach eq c s
      → Step eq s t
      → observe s.state flight ≡ some outcome
      → observe t.state flight ≡ some outcome
  unfolding release
  observe_stable {s = s} flight outcome r (enters idle key) h =
      observes (enter eq idle s.state key).0 flight outcome (
        enter_keeps_flight idle s.state key flight (some outcome)
          (observed s.state flight outcome h))
  observe_stable {s = s} flight outcome r (publishes key other o m) h =
      let (_, inv) = Reach-IsSound eq r in
      let old = observed s.state flight outcome h in
      let apart : other ≢ flight =
        λ same. absurd (ground (arith, same, old, inv.flying key other m)) in
      observes (publish eq s.state key other o) flight outcome (
        ap (λ fs. get_elem? fs flight) (published s.state key other o)
        ∙ get_elem?-set_ne s.state.flights other flight (some o) apart
        ∙ old)
  observe_stable {s = s} flight outcome r (releases value) h =
      observes (release s.state value) flight outcome (observed s.state flight outcome h)
