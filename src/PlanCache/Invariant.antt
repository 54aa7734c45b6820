-- ===== src/PlanCache/Invariant.antt =====
-- src/plan_cache.rs: requests interleave at the critical sections.
use hrx_rs.Common.{
  ℕ, ◌≤◌, ◌<◌, ◌≡◌, ◌≢◌, inl, inr, Option, none, some, List, [], ◌∷◌, ◌++◌, ◌==◌, length, get_elem?,
  set, arith, In, not, keep, In-keep, keep-In, get_elem?-set_ne, subst, ◌∙◌, sym, ap,
  get_elem?-append_at, get_elem?-append_left, get_elem?-lt,
}
use hrx_rs.Common.Table.{
  find, insert, remove, Unique, find-insert, find-remove_ne, find-remove, length-insert_new,
  length-insert_old, length-remove-le, insert-Unique, remove-Unique,
}
use hrx_rs.Lru.{Entry, loading, ready}
use hrx_rs.PlanCache.{Outcome, new}

-- The requests that were elected and have not published yet, each with its key and its flight.
abbrev pub Working : Type 0 → Type 0
Working K = List (K × ℕ)

module _ {K : Type 0} (eq : Discrete K) where
  pub record Inv (capacity : ℕ) (entries : List (K × Entry ℕ)) (flights : List (Option Outcome))
      (working : Working K) : Type 0 where
    pub unique : Unique eq entries
    pub bounded : length entries ≤ capacity
    pub owner : (k : K) (f : ℕ) → In (k, f) working → find eq k entries ≡ some (loading f)
    pub worked : (k : K) (f : ℕ) → find eq k entries ≡ some (loading f) → In (k, f) working
    pub flying : (k : K) (f : ℕ) → In (k, f) working → get_elem? flights f ≡ some none
    pub apart : (k j : K) (f : ℕ) → In (k, f) working → In (j, f) working → k ≡ j

  module _ {c : ℕ} {entries : List (K × Entry ℕ)} {flights : List (Option Outcome)} {w : Working K}
      (inv : Inv c entries flights w) (key : K) where
    -- An entry that is not loading is overwritten by one that is not.
    pub hit-Inv :
        (v u t : ℕ)
        → find eq key entries ≡ some (ready v u)
        → Inv c (insert eq key (ready v t) entries) flights w
    hit-Inv v u t e = record {
      unique = insert-Unique eq key (ready v t) entries inv.unique;
      bounded =
          omega (arith, inv.bounded, length-insert_old eq key (ready v t) (ready v u) entries e);
      owner = λ k f m. ground (arith, find-insert eq key k (ready v t) entries, inv.owner k f m);
      worked = λ k f h. inv.worked k f (ground (arith, find-insert eq key k (ready v t) entries));
      flying = inv.flying;
      apart = inv.apart;
    }

    -- An entry that is not loading is taken out.
    pub evict-Inv :
        (v u : ℕ) → find eq key entries ≡ some (ready v u) → Inv c (remove eq key entries) flights w
    evict-Inv v u e = record {
      unique = remove-Unique eq key entries inv.unique;
      bounded = omega (arith, inv.bounded, length-remove-le eq key entries);
      owner = λ k f m. elim (eq key k) [
        | yes same ↦ absurd (ground (arith, inv.owner k f m))
        | no other ↦ find-remove_ne eq key k entries other ∙ inv.owner k f m
      ];
      worked = λ k f h. elim (eq key k) [
        | yes same ↦ absurd (ground (arith, find-remove eq key entries inv.unique))
        | no other ↦ inv.worked k f (sym (find-remove_ne eq key k entries other) ∙ h)
      ];
      flying = inv.flying;
      apart = inv.apart;
    }

    unused : (k : K) (f : ℕ) → In (k, f) w → f ≢ length flights
    unused k f m = omega (arith, get_elem?-lt flights f none (inv.flying k f m))

    apart_next :
        (k j : K) (f : ℕ)
        → In (k, f) ((key, length flights) ∷ w)
        → In (j, f) ((key, length flights) ∷ w)
        → k ≡ j
    apart_next k j f (inl e) (inl e') = ap (λ (q : K × ℕ). q.0) (e ∙ sym e')
    apart_next k j f (inl e) (inr m) = absurd (unused j f m (ap (λ (q : K × ℕ). q.1) e))
    apart_next k j f (inr m) (inl e) = absurd (unused k f m (ap (λ (q : K × ℕ). q.1) e))
    apart_next k j f (inr m) (inr n) = inv.apart k j f m n

    pub elect-Inv :
        find eq key entries ≡ none
        → length entries < c
        → Inv c
            (insert eq key (loading (length flights)) entries)
            (flights ++ none ∷ [])
            ((key, length flights) ∷ w)
    elect-Inv e room = record {
      unique = insert-Unique eq key (loading (length flights)) entries inv.unique;
      bounded = omega (arith, length-insert_new eq key (loading (length flights)) entries e);
      owner = λ k f m. elim m [
        | inl new ↦ ground (
          arith,
          find-insert eq key k (loading (length flights)) entries,
          ap (λ (q : K × ℕ). q.0) new,
          ap (λ (q : K × ℕ). q.1) new,
        )
        | inr old ↦
            ground
              (arith, find-insert eq key k (loading (length flights)) entries, inv.owner k f old)
      ];
      worked = λ k f h. elim (eq key k) [
        | yes same ↦
            inl (ground (arith, same, find-insert eq key k (loading (length flights)) entries))
        | no other ↦ inr (
            inv.worked k f
              (ground (arith, find-insert eq key k (loading (length flights)) entries)))
      ];
      flying = λ k f m. elim m [
        | inl new ↦ get_elem?-append_at flights none f (ap (λ (q : K × ℕ). q.1) new)
        | inr old ↦
            get_elem?-append_left flights (none ∷ []) f
              (get_elem?-lt flights f none (inv.flying k f old))
            ∙ inv.flying k f old
      ];
      apart = λ k j f m n. apart_next k j f m n;
    }

  -- The flight is over.
  abbrev pub finish : ℕ → Working K → Working K
  finish flight = keep (λ (q : K × ℕ). not (q.1 == flight))

  module _ {c : ℕ} {entries : List (K × Entry ℕ)} {flights : List (Option Outcome)} {w : Working K}
      (inv : Inv c entries flights w) (key : K) (flight : ℕ) (mine : In (key, flight) w)
      (outcome : Outcome) where
    still : (k : K) (f : ℕ) → In (k, f) (finish flight w) → In (k, f) w × (f ≢ flight)
    still k f m =
        let (old, kept) = In-keep (λ (q : K × ℕ). not (q.1 == flight)) w (k, f) m in
        (old, ground arith)

    kept_on : (k : K) (f : ℕ) → In (k, f) w → f ≢ flight → In (k, f) (finish flight w)
    kept_on k f m ne = keep-In (λ (q : K × ℕ). not (q.1 == flight)) w (k, f) m (ground arith)

    -- Another flight loads another key.
    other_key : (k : K) (f : ℕ) → In (k, f) w → f ≢ flight → key ≢ k
    other_key k f m ne same =
        absurd (ground (arith, same, inv.owner k f m, inv.owner key flight mine))

    other_flight : (k : K) (f : ℕ) → key ≢ k → In (k, f) w → f ≢ flight
    other_flight k f ne m same = ne (inv.apart key k flight mine (subst (λ g. In (k, g) w) same m))

    flying_on :
        (k : K) (f : ℕ)
        → In (k, f) (finish flight w)
        → get_elem? (set flights flight (some outcome)) f ≡ some none
    flying_on k f m =
        let (old, ne) = still k f m in
        get_elem?-set_ne flights flight f (some outcome) (λ e. ne (sym e)) ∙ inv.flying k f old

    pub publish_ok-Inv :
        (v t : ℕ)
        → Inv c
            (insert eq key (ready v t) entries)
            (set flights flight (some outcome))
            (finish flight w)
    publish_ok-Inv v t = record {
      unique = insert-Unique eq key (ready v t) entries inv.unique;
      bounded = omega (
        arith,
        inv.bounded,
        length-insert_old eq key (ready v t) (loading flight) entries (inv.owner key flight mine),
      );
      owner = λ k f m.
          let (old, ne) = still k f m in
          ground (
            arith,
            find-insert eq key k (ready v t) entries,
            inv.owner k f old,
            other_key k f old ne,
          );
      worked = λ k f h. elim (eq key k) [
        | yes same ↦ absurd (ground (arith, same, find-insert eq key k (ready v t) entries))
        | no other ↦
            let m = inv.worked k f (ground (arith, find-insert eq key k (ready v t) entries)) in
            kept_on k f m (other_flight k f other m)
      ];
      flying = flying_on;
      apart = λ k j f m n. inv.apart k j f (still k f m).0 (still j f n).0;
    }

    pub publish_err-Inv :
        Inv c (remove eq key entries) (set flights flight (some outcome)) (finish flight w)
    publish_err-Inv = record {
      unique = remove-Unique eq key entries inv.unique;
      bounded = omega (arith, inv.bounded, length-remove-le eq key entries);
      owner = λ k f m.
          let (old, ne) = still k f m in
          find-remove_ne eq key k entries (other_key k f old ne) ∙ inv.owner k f old;
      worked = λ k f h. elim (eq key k) [
        | yes same ↦ absurd (ground (arith, same, find-remove eq key entries inv.unique))
        | no other ↦
            let m = inv.worked k f (sym (find-remove_ne eq key k entries other) ∙ h) in
            kept_on k f m (other_flight k f other m)
      ];
      flying = flying_on;
      apart = λ k j f m n. inv.apart k j f (still k f m).0 (still j f n).0;
    }
