-- ===== src/Residency/Loads.antt =====
-- src/residency.rs: loading through the registry, and the cleanup of resources that stay idle. Each
-- critical section is one function; a waiting request looks at its flight again and again.
use hrx_rs.Common.{
  ℕ, ◌+◌, ◌-◌, ◌^◌, ◌≤◌, ◌≡◌, refl, ap, ◌∙◌, Bool, true, false, ◌&&◌, ◌||◌, Option, none, some,
  List, [], ◌∷◌, ◌++◌, if◌then◌else◌, leb, ltb, min, length, set, arith, Bool-cases, inl, inr, In,
  subst, ◌<◌,
}
use hrx_rs.Common.Errors.{Error, Result, ok, err, busy, message}
use hrx_rs.Common.Table.{find, insert, remove, Unique, find-insert, find-remove}
use hrx_rs.Lru.{Entry, loading, ready}
use hrx_rs.Residency.{Resource, Usage, State, reserve, drop_charge, is_evictable, evict_idle}

abbrev pub Flights : Type 0
Flights = List (Option (Result Resource))

-- What a round of the loop in `load_inner` comes to. After `evicted` the victim is dropped, and the
-- loop goes round again.
pub data Round : Type 0 where
  leased : Resource → Round
  waits : (flight : ℕ) → Round
  loads : (flight : ℕ) → Round
  evicted : Resource → Round
  refused : Error → Round

abbrev pub tick : ℕ → ℕ
tick clock = min (clock + 1) (2 ^ 64 - 1)

-- What a load brings: `none` is a panic, else an error or the value with its resident bytes.
abbrev pub Loaded : Type 0
Loaded = Option (Result Resource)

-- `Ok(Ok((value, bytes))) if (budgeted || bytes > 0) && bytes <= peak_bytes`, and the errors.
unfoldable pub accept : Bool → ℕ → Loaded → Result Resource
accept budgeted peak none = err (message "resident model loader panicked")
accept budgeted peak (some (err e)) = err e
accept budgeted peak (some (ok r)) =
    if (budgeted || ltb 0 r.bytes) && leb r.bytes peak
    then ok r
    else err (message "resident bytes exceed loader reservation or are zero")

-- The reservation is shrunk to the resource, or dropped.
unfoldable pub charge : Usage → ℕ → Result Resource → Usage
unfolding drop_charge
charge u peak (ok r) = record u { bytes = u.bytes - (peak - r.bytes) }
charge u peak (err e) = drop_charge u peak

accept-le :
    (budgeted : Bool) (peak : ℕ) (loaded : Loaded) (r : Resource)
    → accept budgeted peak loaded ≡ ok r
    → r.bytes ≤ peak
unfolding accept
accept-le budgeted peak none r h = absurd (ground arith)
accept-le budgeted peak (some (err e)) r h = absurd (ground arith)
accept-le budgeted peak (some (ok q)) r h =
    elim (Bool-cases ((budgeted || ltb 0 q.bytes) && leb q.bytes peak)) [
      | inl fits ↦
          let same : q ≡ r = ground (arith, h, fits) in
          subst (λ (x : Resource). x.bytes ≤ peak) same (ground (arith, fits))
      | inr unfit ↦ absurd (ground (arith, h, unfit))
    ]

charged :
    (u : Usage) (peak : ℕ) (r : Resource)
    → r.bytes ≤ peak
    → peak ≤ u.bytes
    → (charge u peak (ok r)).bytes + peak ≡ u.bytes + r.bytes
unfolding charge
charged u peak r h k = omega arith

discharged :
    (u : Usage) (peak : ℕ) (e : Error)
    → peak ≤ u.bytes
    → (charge u peak (err e)).bytes + peak ≡ u.bytes
unfolding charge drop_charge
discharged u peak e k = omega arith

module _ {K : Type 0} (eq : Discrete K) where
  unfoldable pub load_round :
      (ℕ → Bool) → Usage → State K → Flights → K → ℕ → Usage × State K × Flights × Round
  unfolding reserve evict_idle
  load_round idle u before flights key peak =
      let s : State K = record before { clock = tick before.clock } in
      elim (find eq key s.entries) [
        | some (ready r used) ↦
            (u, record s { entries = insert eq key (ready r s.clock) s.entries }, flights, leased r)
        | some (loading flight) ↦ (u, s, flights, waits flight)
        | none ↦ elim (reserve u peak) [
          | none ↦ elim (evict_idle eq idle s) [
            | none ↦ (u, s, flights, refused (busy "residency budget is pinned or loading"))
            | some (r, left) ↦ (u, left, flights, evicted r)
          ]
          | some taken ↦ (
            taken,
            record s { entries = insert eq key (loading (length flights)) s.entries },
            flights ++ none ∷ [],
            loads (length flights),
          )
        ]
      ]

  -- The registry once the load is over.
  unfoldable pub publish : State K → K → Result Resource → State K
  publish s key (ok r) = record s { entries = insert eq key (ready r s.clock) s.entries }
  publish s key (err e) = record s { entries = remove eq key s.entries }

  -- What follows the loader in `load_inner`.
  unfoldable pub finish_load :
      Bool
      → Usage
      → State K
      → Flights
      → K
      → ℕ
      → ℕ
      → Loaded
      → Usage × State K × Flights × Result Resource
  unfolding accept charge publish
  finish_load budgeted u s flights key flight peak loaded =
      let result = accept budgeted peak loaded in
      (charge u peak result, publish s key result, set flights flight (some result), result)

  -- `collect_expired`: for a ready entry, whether it goes, and since when its resource is known to be
  -- idle.
  unfoldable pub observe_idle : (ℕ → Bool) → State K → ℕ → ℕ → Resource → Option ℕ → Bool × Option ℕ
  observe_idle idle s timeout now r none =
      if is_evictable idle s.owners s.pins r
      then (leb timeout (now - now), some now)
      else (false, none)
  observe_idle idle s timeout now r (some since) =
      if is_evictable idle s.owners s.pins r
      then (leb timeout (now - since), some since)
      else (false, none)

  -- The keys that go.
  unfoldable pub expired_keys :
      (ℕ → Bool) → State K → ℕ → ℕ → (ℕ → Option ℕ) → List (K × Entry Resource) → List K
  unfolding observe_idle
  expired_keys idle s timeout now since [] = []
  expired_keys idle s timeout now since ((k, loading flight) ∷ m) =
      expired_keys idle s timeout now since m
  expired_keys idle s timeout now since ((k, ready r used) ∷ m) =
      let later = expired_keys idle s timeout now since m in
      if (observe_idle idle s timeout now r (since r.id)).0 then k ∷ later else later

  unfoldable pub remove_keys : List K → List (K × Entry Resource) → List (K × Entry Resource)
  remove_keys [] m = m
  remove_keys (k ∷ keys) m = remove_keys keys (remove eq k m)

  -- `collect_expired`; the resources that go are dropped after the registry is unlocked.
  unfoldable pub collect_expired :
      Option ℕ → (ℕ → Bool) → State K → ℕ → (ℕ → Option ℕ) → State K × List K
  unfolding expired_keys remove_keys
  collect_expired none idle s now since = (s, [])
  collect_expired (some timeout) idle s now since =
      let keys = expired_keys idle s timeout now since s.entries in
      (
        record s { entries = remove_keys keys s.entries; evictions = s.evictions + length keys },
        keys,
      )

  published :
      (s : State K) (key : K) (r : Resource)
      → find eq key (publish s key (ok r)).entries ≡ some (ready r s.clock)
  unfolding publish
  published s key r = ground (arith, find-insert eq key key (ready r s.clock) s.entries)

  withdrawn :
      (s : State K) (key : K) (e : Error)
      → Unique eq s.entries
      → find eq key (publish s key (err e)).entries ≡ none
  unfolding publish
  withdrawn s key e q = find-remove eq key s.entries q

  -- When the load of a key ends, its charge of `peak` bytes has become that of the resource, which the
  -- registry then holds, or was released, and then the key is free for the next request. A resource is
  -- accepted only within the reservation, so that the reserved bytes never grow.
  pub finish_load-charge :
      (budgeted : Bool) (u : Usage) (s : State K) (flights : Flights) (key : K) (flight peak : ℕ)
      (loaded : Loaded)
      → Unique eq s.entries
      → peak ≤ u.bytes
      → let (u', s', flights', result) = finish_load budgeted u s flights key flight peak loaded in
        ((r : Resource)
          → result ≡ ok r
          → (r.bytes ≤ peak)
            × (u'.bytes + peak ≡ u.bytes + r.bytes)
            × (find eq key s'.entries ≡ some (ready r s.clock)))
        × ((e : Error)
            → result ≡ err e
            → (u'.bytes + peak ≡ u.bytes) × (find eq key s'.entries ≡ none))
  unfolding finish_load
  finish_load-charge budgeted u s flights key flight peak loaded q h = (
    λ r e.
        let small = accept-le budgeted peak loaded r e in
        (
          small,
          ap (λ x. (charge u peak x).bytes + peak) e ∙ charged u peak r small h,
          ap (λ x. find eq key (publish s key x).entries) e ∙ published s key r,
        ),
    λ f e. (
      ap (λ x. (charge u peak x).bytes + peak) e ∙ discharged u peak f h,
      ap (λ x. find eq key (publish s key x).entries) e ∙ withdrawn s key f q,
    ),
  )

  goes-idle :
      (idle : ℕ → Bool) (s : State K) (timeout now : ℕ) (r : Resource) (known : Option ℕ)
      → 0 < timeout
      → (observe_idle idle s timeout now r known).0 ≡ true
      → (t : ℕ) × (known ≡ some t)
        × (s.owners r.id ≡ 0)
        × (s.pins r.id ≡ 0)
        × (idle r.id ≡ true)
        × (t + timeout ≤ now)
  unfolding observe_idle
  goes-idle idle s timeout now r none pos h = absurd (ground arith)
  goes-idle idle s timeout now r (some t) pos h =
      (t, refl, ground arith, ground arith, ground arith, ground arith)

  abbrev Collected :
      (ℕ → Bool) → State K → ℕ → ℕ → (ℕ → Option ℕ) → List (K × Entry Resource) → K → Type 0
  Collected idle s timeout now since m key =
      (r : Resource) × (used : ℕ) × (t : ℕ) × In (key, ready r used) m
      × (s.owners r.id ≡ 0)
      × (s.pins r.id ≡ 0)
      × (idle r.id ≡ true)
      × (since r.id ≡ some t)
      × (t + timeout ≤ now)

  later_entry :
      (k : K) (e : Entry Resource) (idle : ℕ → Bool) (s : State K) (timeout now : ℕ)
      (since : ℕ → Option ℕ) (m : List (K × Entry Resource)) (key : K)
      → Collected idle s timeout now since m key
      → Collected idle s timeout now since ((k, e) ∷ m) key
  later_entry k e idle s timeout now since m key
        (r, used, t, inside, free, loose, calm, known, passed) =
      (r, used, t, inr inside, free, loose, calm, known, passed)

  -- A resource that the cleanup takes out was in the registry, leased by nobody, not pinned and idle, and
  -- it was seen to be so at least the timeout ago.
  pub expired_keys-idle :
      (idle : ℕ → Bool) (s : State K) (timeout now : ℕ) (since : ℕ → Option ℕ)
      (m : List (K × Entry Resource)) (key : K)
      → 0 < timeout
      → In key (expired_keys idle s timeout now since m)
      → (r : Resource) × (used : ℕ) × (t : ℕ) × In (key, ready r used) m
        × (s.owners r.id ≡ 0)
        × (s.pins r.id ≡ 0)
        × (idle r.id ≡ true)
        × (since r.id ≡ some t)
        × (t + timeout ≤ now)
  unfolding expired_keys observe_idle
  expired_keys-idle idle s timeout now since [] key pos i = elim i [ ]
  expired_keys-idle idle s timeout now since ((k, loading f) ∷ m) key pos i =
      later_entry k (loading f) idle s timeout now since m key
        (expired_keys-idle idle s timeout now since m key pos i)
  expired_keys-idle idle s timeout now since ((k, ready r used) ∷ m) key pos i =
      elim (Bool-cases (observe_idle idle s timeout now r (since r.id)).0) [
        | inr stays ↦
            later_entry k (ready r used) idle s timeout now since m key
              (expired_keys-idle idle s timeout now since m key pos (rw stays at i))
        | inl goes ↦ elim (rw goes at i) [
          | inr rest ↦
              later_entry k (ready r used) idle s timeout now since m key
                (expired_keys-idle idle s timeout now since m key pos rest)
          | inl here ↦
              let (t, known, free, loose, calm, passed) =
                goes-idle idle s timeout now r (since r.id) pos goes in
              (r, used, t, inl (ap (λ k. (k, ready r used)) here), free, loose, calm, known, passed)
        ]
      ]
