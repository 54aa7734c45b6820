-- ===== src/HostAccess/Preservation.antt =====
-- src/execution/buffer.rs: every step keeps host access and device access apart.
use hrx_rs.Common.{
  ℕ, zero, suc, ◌<◌, ◌≤◌, ◌≡◌, refl, ◌∙◌, sym, ap, ◌⊎◌, inl, inr, Bool, true, false, ◌&&◌, ◌++◌,
  List, [], ◌∷◌, All, In, any, arith, Bool-cases, Option-cases,
}
use hrx_rs.Common.Errors.{ok, bind-ok}
use hrx_rs.Access.{read, read_write, writes}
use hrx_rs.HostAccess.{
  HostState, Storage, Storages, ViewUse, whole, view_conflicts, device_conflicts, leases,
  acquire_round, put, host_conflict, is_held, lease, host_access, admit, handoff_round, none_held,
  hand_off,
}
use hrx_rs.HostAccess.Steps.{
  World, is_idle, remove_at, Step, maps, unmaps, submits, completes, fails, hands_off, hands_back,
  Reach, here, next,
}
use hrx_rs.HostAccess.Exclusion.{
  IsPending, touches, IsExclusive, IsApart, none_pending, host_conflict-IsClear, admit-IsClear,
  put-IsApart,
}
use hrx_rs.HostAccess.Updates.{
  poison-IsApart, hand_back-IsApart, release-IsApart, IsAvailable, hand_off-IsApart,
}

-- What a round that takes the lease has seen.
pub acquire_round-leases :
    (write wait : Bool) (pending : List (List ViewUse)) (storages : Storages) (id : ℕ)
    (host : HostState)
    → acquire_round write wait pending storages id ≡ leases host
    → (is_held write (storages id).host ≡ false)
      × (device_conflicts pending (whole storages id) (host_access write) ≡ false)
      × (host ≡ lease write (storages id).host)
unfolding acquire_round
acquire_round-leases write wait pending storages id host h =
    elim (Option-cases (storages id).host.poison) [
      | inr (lost, e) ↦ absurd (ground (arith, e))
      | inl e ↦ (ground (arith, e), ground (arith, e), ground (arith, e))
    ]

-- A use that touches the allocation has not the access that a conflict asks for.
no_conflict :
    (storages : Storages) (id : ℕ) (u : ViewUse) (x : Bool)
    → u.view.storage ≡ id
    → (view_conflicts (whole storages id) u.view && x) ≡ false
    → touches storages u ≡ true
    → x ≡ false
no_conflict storages id u x e h t =
    let met : view_conflicts (whole storages id) u.view ≡ true =
      ap (λ (i : ℕ). view_conflicts (whole storages i) u.view) (sym e) ∙ t in
    rw met at h

maps-IsApart :
    (w : World) (write wait : Bool) (id : ℕ) (host : HostState)
    → acquire_round write wait w.pending w.storages id ≡ leases host
    → IsApart w
    → IsApart (record w { storages = put w.storages id host })
unfolding writes
maps-IsApart w true wait id host h apart =
    let (held, conflict, e) = acquire_round-leases true wait w.pending w.storages id host h in
    rw e (
      put-IsApart w id (lease true (w.storages id).host) apart
        (record {
          writer_alone = λ _. (ground arith, ground arith);
          handoff_alone = λ _. ground arith;
        })
        λ u m same t.
          let seen = none_pending w.pending w.storages id read_write u conflict m in
          absurd (ground (arith, no_conflict w.storages id u true same seen t)))
maps-IsApart w false wait id host h apart =
    let (held, conflict, e) = acquire_round-leases false wait w.pending w.storages id host h in
    rw e (
      put-IsApart w id (lease false (w.storages id).host) apart
        (record {
          writer_alone = λ x. absurd (ground arith);
          handoff_alone = λ x. absurd (ground arith);
        })
        λ u m same t.
          let seen = none_pending w.pending w.storages id read u conflict m in
          let reads_only = no_conflict w.storages id u (writes u.access) same seen t in
          (ground arith, ground arith, λ x. absurd (ground arith)))

IsPending-snoc :
    (u : ViewUse) (pending : List (List ViewUse)) (uses : List ViewUse)
    → IsPending u (pending ++ uses ∷ [])
    → IsPending u pending ⊎ In u uses
IsPending-snoc u [] uses (job, inl e, m) = inr (rw (sym e) m)
IsPending-snoc u [] uses (job, inr never, m) = elim never [ ]
IsPending-snoc u (first ∷ pending) uses (job, inl e, m) = inl (job, inl e, m)
IsPending-snoc u (first ∷ pending) uses (job, inr later, m) =
    elim (IsPending-snoc u pending uses (job, later, m)) [
      | inl (other, mo, mu) ↦ inl (other, inr mo, mu)
      | inr new ↦ inr new
    ]

IsPending-remove_at :
    (u : ViewUse) (i : ℕ) (pending : List (List ViewUse))
    → IsPending u (remove_at i pending)
    → IsPending u pending
IsPending-remove_at u i [] p = p
IsPending-remove_at u zero (first ∷ pending) (job, m, mu) = (job, inr m, mu)
IsPending-remove_at u (suc i) (first ∷ pending) (job, inl e, mu) = (job, inl e, mu)
IsPending-remove_at u (suc i) (first ∷ pending) (job, inr m, mu) =
    let (other, mo, mv) = IsPending-remove_at u i pending (job, m, mu) in (other, inr mo, mv)

submits-IsApart :
    (w : World) (uses : List ViewUse)
    → admit w.storages uses ≡ ok tt
    → IsApart w
    → IsApart (record w { pending = w.pending ++ uses ∷ [] })
submits-IsApart w uses h apart = record {
  exclusive = apart.exclusive;
  clear = λ u m t. elim (IsPending-snoc u w.pending uses m) [
    | inl old ↦ apart.clear u old t
    | inr new ↦ admit-IsClear w.storages uses u h new
  ];
}

none_held-free :
    (w : World) (ids : List ℕ)
    → none_held w.storages ids ≡ ok tt
    → any (λ id. device_conflicts w.pending (whole w.storages id) read_write) ids ≡ false
    → All (IsAvailable w) ids
unfolding none_held writes
none_held-free w [] h c = tt
none_held-free w (id ∷ ids) h c =
    let (_, first, rest) = bind-ok (host_conflict read_write (w.storages id).host) _ tt h in
    let clear = host_conflict-IsClear read_write (w.storages id).host first in
    let none_here : device_conflicts w.pending (whole w.storages id) read_write ≡ false =
      ground arith in
    (
      (
        clear.1,
        clear.2 refl,
        λ u m same.
            let seen = none_pending w.pending w.storages id read_write u none_here m in
            elim (Bool-cases (touches w.storages u)) [
              | inr apart ↦ apart
              | inl t ↦ absurd (ground (arith, no_conflict w.storages id u true same seen t))
            ],
      ),
      none_held-free w ids rest (ground arith),
    )

hands_off-IsApart :
    (w : World) (ids : List ℕ)
    → handoff_round w.pending w.storages ids ≡ ok true
    → IsApart w
    → IsApart (record w { storages = hand_off ids w.storages })
unfolding handoff_round
hands_off-IsApart w ids h apart =
    let (_, first, rest) = bind-ok (none_held w.storages ids) _ true h in
    hand_off-IsApart ids w apart (none_held-free w ids first (ground arith))

Step-IsApart : {w v : World} → Step w v → IsApart w → IsApart v
Step-IsApart (maps w write wait id host h) apart = maps-IsApart w write wait id host h apart
Step-IsApart (unmaps w write id h) apart = release-IsApart write w id apart
Step-IsApart (submits w uses h) apart = submits-IsApart w uses h apart
Step-IsApart (completes w i) apart = record {
  exclusive = apart.exclusive;
  clear = λ u m t. apart.clear u (IsPending-remove_at u i w.pending m) t;
}
Step-IsApart (fails w i uses lost h) apart = poison-IsApart lost uses w apart
Step-IsApart (hands_off w ids h) apart = hands_off-IsApart w ids h apart
Step-IsApart (hands_back w uncertain ids h) apart = hand_back-IsApart uncertain ids w apart

idle-IsExclusive : (host : HostState) → host ≡ is_idle → IsExclusive host
idle-IsExclusive host e =
    rw e (record { writer_alone = λ h. absurd (ground arith); handoff_alone = λ h. refl })

pub Reach-IsApart : {sizes : ℕ → Storage} {w : World} → Reach sizes w → IsApart w
Reach-IsApart (here idle) = record {
  exclusive = λ id. idle-IsExclusive _ (idle id);
  clear = λ u m t. elim m.1 [ ];
}
Reach-IsApart (next reach step) = Step-IsApart step (Reach-IsApart reach)

-- In every reachable state, while a pending submission uses a byte of an allocation, the host has no
-- mapping of the allocation for writing and no handoff of it, and none for reading if the use writes.
pub host_device_exclusion :
    {sizes : ℕ → Storage} {w : World}
    → Reach sizes w
    → (u : ViewUse) (p : ℕ) → IsPending u w.pending
    → u.view.range.start ≤ p
    → p < u.view.range.end
    → p < (w.storages u.view.storage).bytes
    → ((w.storages u.view.storage).host.external ≡ false)
      × ((w.storages u.view.storage).host.writer ≡ false)
      × (writes u.access ≡ true → (w.storages u.view.storage).host.readers ≡ 0)
unfolding view_conflicts
host_device_exclusion reach u p m a b c = (Reach-IsApart reach).clear u m (ground arith)
