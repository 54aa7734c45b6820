-- ===== src/Residency/Budget.antt =====
-- src/residency.rs: reserving bytes under the ceiling.
use hrx_rs.Common.{
  ℕ, zero, suc, ◌+◌, ◌^◌, ◌≤◌, ◌<◌, ◌≡◌, refl, ◌∙◌, Bool, inl, inr, none, some, length, arith,
  Option-cases,
}
use hrx_rs.Common.Errors.{Error, Result, ok, err, busy}
use hrx_rs.Common.Table.{find, Unique}
use hrx_rs.Lru.{ready}
use hrx_rs.Residency.Evictions.{
  resident, Wanted, is_evictable-Wanted, InUse, Evicted, pinned_all, evict_idle-Evicted,
}
use hrx_rs.Residency.{
  Resource, Usage, State, reserve, drop_charge, charge_of, evict_idle, reserve_loop,
}

module _ {K : Type 0} (eq : Discrete K) where
  -- What a reservation comes to.
  pub record Reserved (idle : ℕ → Bool) (u : Usage) (s : State K) (bytes : ℕ) (u' : Usage)
      (s' : State K) (result : Result ℕ) : Type 0 where
    pub same_limit : u'.limit ≡ u.limit
    pub bound : u'.bytes ≤ u.limit
    pub kept :
        (key : K) (r : Resource) (used : ℕ)
        → InUse eq idle s key r used
        → InUse eq idle s' key r used
    pub granted :
        result ≡ ok bytes
        → u'.bytes + resident s.own s.entries ≡ u.bytes + bytes + resident s'.own s'.entries
    pub refused :
        (e : Error)
        → result ≡ err e
        → (u.limit < u'.bytes + bytes)
          × ((key : K) (r : Resource) (used : ℕ)
              → find eq key s'.entries ≡ some (ready r used)
              → Wanted idle s'.owners s'.pins r)

  taken-Reserved :
      (idle : ℕ → Bool) (u : Usage) (s : State K) (bytes : ℕ) (taken : Usage)
      → u.bytes ≤ u.limit
      → reserve u bytes ≡ some taken
      → Reserved idle u s bytes taken s (ok bytes)
  unfolding reserve
  taken-Reserved idle u s bytes taken j e = record {
    same_limit = ground arith;
    bound = ground arith;
    kept = λ key r used held. held;
    granted = λ c. ground arith;
    refused = λ x c. absurd (ground arith);
  }

  reserve-none :
      (u : Usage) (bytes : ℕ)
      → u.bytes ≤ u.limit
      → u.limit < 2 ^ 64
      → reserve u bytes ≡ none
      → u.limit < u.bytes + bytes
  unfolding reserve
  reserve-none u bytes j k h = ground arith

  -- What evictions of idle resources leave, with all that they release.
  pub record Shrunk (idle : ℕ → Bool) (w v : Usage × State K) : Type 0 where
    pub same_limit : v.0.limit ≡ w.0.limit
    pub no_more : v.0.bytes ≤ w.0.bytes
    pub no_entry : length v.1.entries ≤ length w.1.entries
    pub unique : Unique eq v.1.entries
    pub balance :
        v.0.bytes + resident w.1.own w.1.entries ≡ w.0.bytes + resident v.1.own v.1.entries
    pub in_use :
        (key : K) (r : Resource) (used : ℕ)
        → InUse eq idle w.1 key r used
        → InUse eq idle v.1 key r used

  -- Other threads that do no more than to evict idle resources, or to pin.
  abbrev pub Calm : (ℕ → Bool) → (ℕ → Usage × State K → Usage × State K) → Type 0
  Calm idle others =
      (n : ℕ) (w : Usage × State K)
      → Unique eq w.1.entries
      → resident w.1.own w.1.entries ≤ w.0.bytes
      → Shrunk idle w (others n w)

  same-Shrunk : (idle : ℕ → Bool) (w : Usage × State K) → Unique eq w.1.entries → Shrunk idle w w
  same-Shrunk idle w u = record {
    same_limit = refl;
    no_more = omega arith;
    no_entry = omega arith;
    unique = u;
    balance = refl;
    in_use = λ key r used h. h;
  }

  -- Another thread whose own reservation evicts a resource.
  abbrev pub evict_one : (ℕ → Bool) → ℕ → Usage × State K → Usage × State K
  evict_one idle n w = elim (evict_idle eq idle w.1) [
    | none ↦ w
    | some (r, left) ↦ (drop_charge w.0 (charge_of w.1.own r), left)
  ]

  pub evict_one-Calm : (idle : ℕ → Bool) → Calm idle (evict_one idle)
  unfolding drop_charge
  evict_one-Calm idle n w u i = elim (Option-cases (evict_idle eq idle w.1)) [
    | inl nothing ↦ rw (evict_one, nothing) (same-Shrunk idle w u)
    | inr ((r, left), e) ↦
        let out = evict_idle-Evicted eq idle w.1 r left u e in
        rw (evict_one, e)
          (record {
            same_limit = refl;
            no_more = omega arith;
            no_entry = omega (arith, out.one_less);
            unique = out.unique;
            balance = omega (arith, out.balance, i);
            in_use = out.kept;
          })
  ]

  after_others :
      (idle : ℕ → Bool) (w v : Usage × State K) (bytes : ℕ) (u' : Usage) (s' : State K)
      (result : Result ℕ)
      → Shrunk idle w v
      → Reserved idle v.0 v.1 bytes u' s' result
      → Reserved idle w.0 w.1 bytes u' s' result
  after_others idle w v bytes u' s' result calm rest = record {
    same_limit = rest.same_limit ∙ calm.same_limit;
    bound = omega (arith, rest.bound, calm.same_limit);
    kept = λ key q used held. rest.kept key q used (calm.in_use key q used held);
    granted = λ c. omega (arith, rest.granted c, calm.balance);
    refused = λ e c. let r = rest.refused e c in (omega (arith, r.0, calm.same_limit), r.1);
  }

  after_eviction :
      (idle : ℕ → Bool) (u : Usage) (s : State K) (bytes : ℕ) (r : Resource) (left : State K)
      (u' : Usage) (s' : State K) (result : Result ℕ)
      → resident s.own s.entries ≤ u.bytes
      → Evicted eq idle s r left
      → Reserved idle (drop_charge u (charge_of s.own r)) left bytes u' s' result
      → Reserved idle u s bytes u' s' result
  unfolding drop_charge
  after_eviction idle u s bytes r left u' s' result i out rest = record {
    same_limit = rest.same_limit;
    bound = rest.bound;
    kept = λ key q used held. rest.kept key q used (out.kept key q used held);
    granted = λ c. omega (arith, rest.granted c, out.balance, i);
    refused = rest.refused;
  }

  -- With more rounds than entries the loop of a reservation ends.
  pub reserve_loop-Reserved :
      (fuel : ℕ) (idle : ℕ → Bool) (others : ℕ → Usage × State K → Usage × State K) (u : Usage)
      (s : State K) (bytes : ℕ)
      → Calm idle others
      → Unique eq s.entries
      → length s.entries < fuel
      → resident s.own s.entries ≤ u.bytes
      → u.bytes ≤ u.limit
      → u.limit < 2 ^ 64
      → (u' : Usage) × (s' : State K) × (result : Result ℕ) × (reserve_loop eq fuel idle others u s
            bytes
          ≡ some (u', s', result))
        × Reserved idle u s bytes u' s' result
  unfolding reserve_loop drop_charge
  reserve_loop-Reserved zero idle others u s bytes calm q h i j k = absurd (omega arith)
  reserve_loop-Reserved (suc fuel) idle others u s bytes calm q h i j k =
      elim (Option-cases (reserve u bytes)) [
        | inr (taken, e) ↦
            (taken, s, ok bytes, rw (e, reserve_loop) refl, taken-Reserved idle u s bytes taken j e)
        | inl full ↦ elim (Option-cases (evict_idle eq idle s)) [
          | inl pinned ↦ (
            u,
            s,
            err (busy "residency budget is pinned or loading"),
            rw (full, pinned, reserve_loop) refl,
            record {
              same_limit = refl;
              bound = j;
              kept = λ key r used held. held;
              granted = λ c. absurd (ground arith);
              refused = λ e c. (
                reserve-none u bytes j k full,
                λ key r used f.
                    is_evictable-Wanted idle s.owners s.pins r
                      (pinned_all eq idle s key r used q pinned f),
              );
            },
          )
          | inr ((r, left), e) ↦
              let out = evict_idle-Evicted eq idle s r left q e in
              let w : Usage × State K = (drop_charge u (charge_of s.own r), left) in
              let v = calm fuel w out.unique (omega (arith, out.balance, i)) in
              let (u', s', result, ran, rest) =
                reserve_loop-Reserved fuel idle others (others fuel w).0 (others fuel w).1 bytes
                  calm v.unique (omega (arith, out.one_less, v.no_entry))
                  (omega (arith, out.balance, i, v.balance))
                  (omega (arith, j, v.no_more, v.same_limit)) (omega (arith, k, v.same_limit)) in
              (
                u',
                s',
                result,
                rw (full, e, reserve_loop) ran,
                after_eviction idle u s bytes r left u' s' result i out
                    (after_others idle w (others fuel w) bytes u' s' result v rest),
              )
        ]
      ]
