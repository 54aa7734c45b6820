-- ===== src/HostAccess/Exclusion.antt =====
-- src/execution/buffer.rs: host access and device access exclude each other.
use hrx_rs.Common.{
  ℕ, ◌≤◌, ◌≡◌, refl, ◌∙◌, sym, inl, inr, Bool, true, false, ◌&&◌, ◌||◌, List, [], ◌∷◌, In, any,
  In-any, ◌==◌, arith, Bool-cases, Option-cases,
}
use hrx_rs.Common.Errors.{ok, bind-ok}
use hrx_rs.Access.{Access, writes}
use hrx_rs.HostAccess.{
  HostState, Storages, ViewUse, whole, view_conflicts, device_conflicts, put, host_conflict, admit,
}
use hrx_rs.HostAccess.Steps.{World}

-- A use of one of the pending submissions.
abbrev pub IsPending : ViewUse → List (List ViewUse) → Type 0
IsPending u pending = (job : List ViewUse) × In job pending × In u job

-- The device may touch the allocation that the host uses.
abbrev pub touches : Storages → ViewUse → Bool
touches storages u = view_conflicts (whole storages u.view.storage) u.view

abbrev pub IsClear : HostState → Access → Type 0
IsClear host access =
    (host.external ≡ false) × (host.writer ≡ false) × (writes access ≡ true → host.readers ≡ 0)

-- One writer, or one handoff, or any number of readers.
pub record IsExclusive (host : HostState) : Type 0 where
  pub writer_alone : host.writer ≡ true → (host.readers ≡ 0) × (host.external ≡ false)
  pub handoff_alone : host.external ≡ true → host.readers ≡ 0

pub record IsApart (w : World) : Type 0 where
  pub exclusive : (id : ℕ) → IsExclusive (w.storages id).host
  pub clear :
      (u : ViewUse)
      → IsPending u w.pending
      → touches w.storages u ≡ true
      → IsClear (w.storages u.view.storage).host u.access

any-none :
    {A : Type 0} (p : A → Bool) (xs : List A) (a : A) → In a xs → any p xs ≡ false → p a ≡ false
any-none p xs a m h = elim (Bool-cases (p a)) [
  | inl found ↦ absurd (ground (arith, In-any p xs a m found))
  | inr missed ↦ missed
]

-- Nothing that is pending conflicts.
pub none_pending :
    (pending : List (List ViewUse)) (storages : Storages) (id : ℕ) (access : Access) (u : ViewUse)
    → device_conflicts pending (whole storages id) access ≡ false
    → IsPending u pending
    → (view_conflicts (whole storages id) u.view && (writes access || writes u.access)) ≡ false
unfolding device_conflicts
none_pending pending storages id access u h (job, mj, mu) =
    any-none
      (λ other.
        view_conflicts (whole storages id) other.view && (writes access || writes other.access))
      job u mu (any-none _ pending job mj h)

pub host_conflict-IsClear :
    (access : Access) (host : HostState) → host_conflict access host ≡ ok tt → IsClear host access
unfolding host_conflict
host_conflict-IsClear access host h = elim (Option-cases host.poison) [
  | inr (lost, e) ↦ absurd (ground (arith, e))
  | inl e ↦ (ground (arith, e), ground (arith, e), λ w. ground (arith, e, w))
]

pub admit-IsClear :
    (storages : Storages) (uses : List ViewUse) (u : ViewUse)
    → admit storages uses ≡ ok tt
    → In u uses
    → IsClear (storages u.view.storage).host u.access
unfolding admit
admit-IsClear storages [] u h m = elim m [ ]
admit-IsClear storages (v ∷ uses) u h m =
    let (_, first, rest) = bind-ok (host_conflict v.access (storages v.view.storage).host) _ tt h in
    elim m [
      | inl e ↦ rw e (host_conflict-IsClear v.access (storages v.view.storage).host first)
      | inr later ↦ admit-IsClear storages uses u rest later
    ]

put-other :
    (storages : Storages) (id i : ℕ) (host : HostState)
    → (i == id) ≡ false
    → put storages id host i ≡ storages i
put-other storages id i host h = rw h

pub touches-put :
    (storages : Storages) (id : ℕ) (host : HostState) (u : ViewUse)
    → touches (put storages id host) u ≡ touches storages u
unfolding view_conflicts
touches-put storages id host u = elim (Bool-cases (u.view.storage == id)) [
  | inl same ↦ rw same
  | inr other ↦ rw other
]

-- The host state of one allocation changes, and what is pending stays clear of it.
pub put-IsApart :
    (w : World) (id : ℕ) (host : HostState)
    → IsApart w
    → IsExclusive host
    → ((u : ViewUse)
        → IsPending u w.pending
        → u.view.storage ≡ id
        → touches w.storages u ≡ true
        → IsClear host u.access)
    → IsApart (record w { storages = put w.storages id host })
put-IsApart w id host apart excl clear = record {
  exclusive = λ i. elim (Bool-cases (i == id)) [
    | inl same ↦ rw same excl
    | inr other ↦ rw other (apart.exclusive i)
  ];
  clear = λ u m t.
      let before = sym (touches-put w.storages id host u) ∙ t in
      elim (Bool-cases (u.view.storage == id)) [
        | inl same ↦ rw same (clear u m (ground arith) before)
        | inr other ↦ rw other (apart.clear u m before)
      ];
}

-- Less of the allocation is used.
abbrev pub IsWeaker : HostState → HostState → Type 0
IsWeaker before after =
    (after.readers ≤ before.readers)
    × (after.writer ≡ true → before.writer ≡ true)
    × (after.external ≡ true → before.external ≡ true)

unset : (before after : Bool) → (after ≡ true → before ≡ true) → before ≡ false → after ≡ false
unset before false h e = refl
unset before true h e = absurd (ground (arith, h refl))

weaker-IsExclusive :
    (before after : HostState) → IsWeaker before after → IsExclusive before → IsExclusive after
weaker-IsExclusive before after weaker excl = record {
  writer_alone = λ h.
      let alone = excl.writer_alone (weaker.1 h) in
      (omega (arith, alone.0, weaker.0), unset before.external after.external weaker.2 alone.1);
  handoff_alone = λ h. omega (arith, excl.handoff_alone (weaker.2 h), weaker.0);
}

weaker-IsClear :
    (before after : HostState) (access : Access)
    → IsWeaker before after
    → IsClear before access
    → IsClear after access
weaker-IsClear before after access weaker clear = (
  unset before.external after.external weaker.2 clear.0,
  unset before.writer after.writer weaker.1 clear.1,
  λ h. omega (arith, clear.2 h, weaker.0),
)

pub weaker-IsApart :
    (w : World) (id : ℕ) (host : HostState)
    → IsApart w
    → IsWeaker (w.storages id).host host
    → IsApart (record w { storages = put w.storages id host })
weaker-IsApart w id host apart weaker =
    put-IsApart w id host apart
      (weaker-IsExclusive (w.storages id).host host weaker (apart.exclusive id))
      λ u m e t.
        weaker-IsClear (w.storages id).host host u.access weaker (rw e at (apart.clear u m t))
