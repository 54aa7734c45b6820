-- ===== src/Storage/Slots.antt =====
-- src/storage/mod.rs: a request keeps its payload slot while somebody owns it.
use hrx_rs.Common.{ℕ, ◌≡◌, refl, sym, subst, true, none, some, arith, ℕ_discrete}
use hrx_rs.Storage.Session.{Request, Session, is_retained, add_ticket, new_request, drop_ticket}
use hrx_rs.Storage.Steps.{
  World, at, Step, submits, clones, drops, takes, completes, returns, fails, closes,
}
use hrx_rs.Storage.Cells.{Keeps, Keeps-refl, update-Stays, set-Stays, free_slot-dead}
use hrx_rs.Storage.Preservation.{complete-Follows, stop_after_failure-Follows}
use hrx_rs.Storage.Admission.{Accepted, joined, placed, submit-Accepted}

-- The request in the slot goes on there.
abbrev Lasts : Session → ℕ → Request → Type 0
Lasts t i r = (q : Request) × (at t.slots i ≡ some q) × Keeps r q

accepted-Lasts :
    {s : Session} {file : _} {extent : _} {j : ℕ} {t : Session} (i : ℕ) (r : Request)
    → Accepted s file extent j t
    → at s.slots i ≡ some r
    → is_retained r ≡ true
    → Lasts t i r
accepted-Lasts {s = s} {extent = extent} {j = j} i r (joined met e) found kept =
    subst (λ x. Lasts x i r) (sym e)
      (update-Stays add_ticket j s.slots (λ q. (refl, refl, λ x. x)) i r found)
accepted-Lasts {s = s} {extent = extent} {j = j} i r (placed p hp met slot e) found kept =
    subst (λ x. Lasts x i r) (sym e)
      (elim (ℕ_discrete j i) [
        | yes same ↦
            absurd (ground (arith, free_slot-dead 0 s.slots j slot i r (omega arith) found))
        | no other ↦ (r, set-Stays s.slots j (new_request extent p) i r other found, Keeps-refl r)
      ])

-- A step leaves every request that is retained in its slot, with its extent and its place in the file, and
-- with an outcome if it had one.
pub Step-Stays :
    {w v : World} (i : ℕ) (r : Request)
    → Step w v
    → at w.session.slots i ≡ some r
    → is_retained r ≡ true
    → (q : Request) × (at v.session.slots i ≡ some q)
      × (q.extent ≡ r.extent)
      × (q.physical ≡ r.physical)
      × (q.outcome ≡ none → r.outcome ≡ none)
Step-Stays i r step found kept = let (q, h, (e, p, o)) = go step found kept in (q, h, e, p, o)
  where
    go :
        {w v : World}
        → Step w v
        → at w.session.slots i ≡ some r
        → is_retained r ≡ true
        → Lasts v.session i r
    go (submits w write extent content j s e) found kept =
        let (file, there, granted, accepts, how) =
          submit-Accepted write extent content w.session j s e in
        accepted-Lasts i r how found kept
    go (clones w j owns) found kept =
        update-Stays add_ticket j w.session.slots (λ q. (refl, refl, λ x. x)) i r found
    go (drops w j owns) found kept =
        update-Stays drop_ticket j w.session.slots (λ q. (refl, refl, λ x. x)) i r found
    go (takes w a b c) found kept = (r, found, Keeps-refl r)
    go (completes w answer a b) found kept =
        (complete-Follows w.running answer w.session).stays i r found
    go (returns w a b c) found kept = (r, found, Keeps-refl r)
    go (fails w e) found kept = (stop_after_failure-Follows e w.session).stays i r found
    go (closes w) found kept = (r, found, Keeps-refl r)
