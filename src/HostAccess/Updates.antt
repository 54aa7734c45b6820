-- ===== src/HostAccess/Updates.antt =====
-- src/execution/buffer.rs: changes of the host state that keep host access and device access
-- apart.
use Prim.Native.String.{String}
use hrx_rs.Common.{
  ℕ, ◌≡◌, ◌∙◌, inl, inr, Bool, true, false, List, [], ◌∷◌, some, All, ◌==◌, arith, Bool-cases,
}
use hrx_rs.HostAccess.{ViewUse, release, put, poison, hand_off, hand_back}
use hrx_rs.HostAccess.Steps.{World}
use hrx_rs.HostAccess.Exclusion.{
  IsPending, touches, touches-put, IsApart, put-IsApart, weaker-IsApart,
}

pub poison-IsApart :
    (lost : String) (uses : List ViewUse) (w : World)
    → IsApart w
    → IsApart (record w { storages = poison lost uses w.storages })
unfolding poison
poison-IsApart lost [] w apart = apart
poison-IsApart lost (u ∷ uses) w apart =
    let host = record (w.storages u.view.storage).host { poison = some lost } in
    poison-IsApart lost uses (record w { storages = put w.storages u.view.storage host })
      (weaker-IsApart w u.view.storage host apart (omega arith, λ h. h, λ h. h))

pub hand_back-IsApart :
    (uncertain : Bool) (ids : List ℕ) (w : World)
    → IsApart w
    → IsApart (record w { storages = hand_back uncertain ids w.storages })
unfolding hand_back
hand_back-IsApart uncertain [] w apart = apart
hand_back-IsApart uncertain (id ∷ ids) w apart =
    hand_back-IsApart uncertain ids _ (weaker-IsApart w id _ apart (omega arith, λ h. h, λ h. cc))

pub release-IsApart :
    (write : Bool) (w : World) (id : ℕ)
    → IsApart w
    → IsApart (record w { storages = put w.storages id (release write (w.storages id).host) })
unfolding release
release-IsApart true w id apart = weaker-IsApart w id _ apart (omega arith, λ h. cc, λ h. h)
release-IsApart false w id apart = weaker-IsApart w id _ apart (omega arith, λ h. h, λ h. h)

-- An allocation that nobody holds, and that no pending submission touches.
abbrev pub IsAvailable : World → ℕ → Type 0
IsAvailable w id =
    ((w.storages id).host.writer ≡ false)
    × ((w.storages id).host.readers ≡ 0)
    × ((u : ViewUse) → IsPending u w.pending → u.view.storage ≡ id → touches w.storages u ≡ false)

IsAvailable-put :
    (w : World) (id : ℕ) (ids : List ℕ)
    → All (IsAvailable w) ids
    → All
        (IsAvailable (record w {
          storages = put w.storages id (record (w.storages id).host { external = true });
        }))
        ids
IsAvailable-put w id [] all = tt
IsAvailable-put w id (i ∷ ids) all = (
  (
    elim (Bool-cases (i == id)) [
      | inl same ↦ let e : i ≡ id = ground arith in rw same (rw e at all.0.0)
      | inr other ↦ rw other all.0.0
    ],
    elim (Bool-cases (i == id)) [
      | inl same ↦ let e : i ≡ id = ground arith in rw same (rw e at all.0.1)
      | inr other ↦ rw other all.0.1
    ],
    λ u m e. touches-put w.storages id _ u ∙ all.0.2 u m e,
  ),
  IsAvailable-put w id ids all.1,
)

pub hand_off-IsApart :
    (ids : List ℕ) (w : World)
    → IsApart w
    → All (IsAvailable w) ids
    → IsApart (record w { storages = hand_off ids w.storages })
unfolding hand_off
hand_off-IsApart [] w apart all = apart
hand_off-IsApart (id ∷ ids) w apart all =
    let host = record (w.storages id).host { external = true } in
    hand_off-IsApart ids (record w { storages = put w.storages id host })
      (put-IsApart w id host apart
        (record {
          writer_alone = λ h. absurd (ground (arith, all.0.0));
          handoff_alone = λ h. all.0.1;
        })
        λ u m e t. absurd (ground (arith, all.0.2 u m e)))
      (IsAvailable-put w id ids all.1)
