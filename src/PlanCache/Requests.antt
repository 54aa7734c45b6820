-- ===== src/PlanCache/Requests.antt =====
-- src/plan_cache.rs: the reachable states of a cache under concurrent requests.
use hrx_rs.Common.{
  ℕ, ◌≡◌, refl, ◌∙◌, Bool, inl, inr, Option, none, some, [], ◌∷◌, ◌==◌, length, arith, Option-cases,
  Bool-cases, In,
}
use hrx_rs.Common.Errors.{ok, err}
use hrx_rs.Common.Table.{find, find-remove_ne, length-remove}
use hrx_rs.Lru.{Entry, loading, ready, victim}
use hrx_rs.Lru.Victim.{victim-Oldest}
use hrx_rs.PlanCache.{
  State, Outcome, Entered, elected, new, evictable, elect, admit, enter, publish, release, tick,
}
use hrx_rs.PlanCache.Invariant.{
  Working, Inv, hit-Inv, evict-Inv, elect-Inv, finish, publish_ok-Inv, publish_err-Inv,
}

pub record System (K : Type 0) : Type 0 where
  pub state : State K
  pub working : Working K

-- An elected request goes to work.
abbrev pub started : {K : Type 0} → K → Entered → Working K → Working K
started key (elected flight) w = (key, flight) ∷ w
started key _ w = w

module _ {K : Type 0} (eq : Discrete K) where
  pub data Step (s : System K) : System K → Type 0 where
    enters :
        (idle : ℕ → Bool) (key : K)
        → Step s (record {
          state = (enter eq idle s.state key).0;
          working = started key (enter eq idle s.state key).1 s.working;
        })
    publishes :
        (key : K) (flight : ℕ) (outcome : Outcome)
        → In (key, flight) s.working
        → Step s (record {
          state = publish eq s.state key flight outcome;
          working = finish eq flight s.working;
        })
    releases : (value : ℕ) → Step s (record s { state = release s.state value })

  pub data Reach (capacity : ℕ) : System K → Type 0 where
    start :
        (s : State K) → new K capacity ≡ ok s → Reach capacity (record { state = s; working = [] })
    later : {s t : System K} → Reach capacity s → Step s t → Reach capacity t

  abbrev pub IsSound : ℕ → System K → Type 0
  IsSound capacity s =
      (s.state.capacity ≡ capacity) × Inv eq capacity s.state.entries s.state.flights s.working

  admit-IsSound :
      (c : ℕ) (idle : ℕ → Bool) (s : State K) (w : Working K) (key : K)
      → IsSound c (record { state = s; working = w })
      → find eq key s.entries ≡ none
      → IsSound c (record {
        state = (admit eq idle s key).0;
        working = started key (admit eq idle s key).1 w;
      })
  unfolding admit elect
  admit-IsSound c idle s w key v absent = elim (Bool-cases (length s.entries == s.capacity)) [
    | inr room ↦ rw room (v.0, elect-Inv eq v.1 key absent (ground (arith, v.0, v.1.bounded)))
    | inl full ↦ elim (Option-cases (victim (evictable idle s.clones) s.entries)) [
      | inl pinned ↦ rw (full, pinned, admit) v
      | inr ((oldest, used), e) ↦
          let o = victim-Oldest eq (evictable idle s.clones) s.entries oldest used v.1.unique e in
          let inv = evict-Inv eq v.1 oldest o.resource used o.entry in
          rw (full, e, admit)
            (
              v.0,
              elect-Inv eq inv key
                  (find-remove_ne eq oldest key s.entries
                      (λ same. absurd (ground (arith, same, o.entry)))
                    ∙ absent)
                  (ground (
                    arith,
                    v.0,
                    length-remove eq oldest (ready o.resource used) s.entries o.entry,
                  )),
            )
    ]
  ]

  enter-IsSound :
      (c : ℕ) (idle : ℕ → Bool) (s : State K) (w : Working K) (key : K)
      → IsSound c (record { state = s; working = w })
      → IsSound c (record {
        state = (enter eq idle s key).0;
        working = started key (enter eq idle s key).1 w;
      })
  unfolding enter
  enter-IsSound c idle s w key v = go (find eq key s.entries) refl
    where
      go :
          (o : Option (Entry ℕ))
          → find eq key s.entries ≡ o
          → IsSound c (record {
            state = (enter eq idle s key).0;
            working = started key (enter eq idle s key).1 w;
          })
      go none e = rw (e, enter) (admit-IsSound c idle (record s { clock = tick s.clock }) w key v e)
      go (some (loading f)) e = rw (e, enter) v
      go (some (ready r u)) e = rw (e, enter) (v.0, hit-Inv eq v.1 key r u (tick s.clock) e)

  Step-IsSound : (c : ℕ) {s t : System K} → Step s t → IsSound c s → IsSound c t
  unfolding publish release
  Step-IsSound c {s} (enters idle key) v = enter-IsSound c idle s.state s.working key v
  Step-IsSound c (publishes key flight (ok value) m) v =
      (v.0, publish_ok-Inv eq v.1 key flight m (ok value) value _)
  Step-IsSound c (publishes key flight (err e) m) v =
      (v.0, publish_err-Inv eq v.1 key flight m (err e))
  Step-IsSound c (releases value) v = v

  new-IsSound :
      (c : ℕ) (s : State K) → new K c ≡ ok s → IsSound c (record { state = s; working = [] })
  unfolding new find
  new-IsSound c s e = elim (Bool-cases (c == 0)) [
    | inl empty ↦ absurd (ground arith)
    | inr some_room ↦
        let entries : s.entries ≡ [] = ground arith in
        (
          ground arith,
          record {
            unique = rw entries tt;
            bounded = rw entries (omega arith);
            owner = λ k f m. elim m [ ];
            worked = λ k f h. absurd (ground (arith, rw entries at h));
            flying = λ k f m. elim m [ ];
            apart = λ k j f m. elim m [ ];
          },
        )
  ]

  -- In every state that requests can bring about, there are at most `capacity` entries, under
  -- distinct keys, and the keys that are loading are those of the requests at work, each with its
  -- own unpublished flight.
  pub Reach-IsSound : {c : ℕ} {s : System K} → Reach c s → IsSound c s
  Reach-IsSound {c} (start s e) = new-IsSound c s e
  Reach-IsSound {c} (later r st) = Step-IsSound c st (Reach-IsSound r)
