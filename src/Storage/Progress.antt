-- ===== src/Storage/Progress.antt =====
-- src/storage/mod.rs: the loops of the service thread settle every request that they are given.
use hrx_rs.Common.{
  ℕ, ◌≡◌, refl, sym, ap, ◌∙◌, ◌⊎◌, inl, inr, true, Option, none, some, List, [], ◌∷◌, In, get_elem?,
  length, arith,
}
use hrx_rs.Common.Int.{ℤ}
use hrx_rs.Common.Errors.{Error, Result, ok, err}
use hrx_rs.Storage.Session.{Request, Session}
use hrx_rs.Storage.Service.{
  conclude, unqueue, account, change_slot, outcome_of, settle_cell, settle_one, settle_all,
  conclude_all, unqueue_all,
}
use hrx_rs.Storage.Steps.{at}
use hrx_rs.Storage.Cells.{at-update}

-- The request in the slot has no outcome yet.
abbrev pub Unsettled : Session → ℕ → Type 0
Unsettled s i = (r : Request) × (at s.slots i ≡ some r) × (r.outcome ≡ none)

-- A session that has failed stops.
abbrev pub IsSound : Session → Type 0
IsSound s = (e : Error) → s.failed ≡ some e → s.stop ≡ true

-- The jobs are settled and no new request is there.
pub record Progress (jobs : List ℕ) (s t : Session) : Type 0 where
  pub unsettled : (j : ℕ) → Unsettled t j → Unsettled s j × ¬ (In j jobs)
  pub pending : t.pending ≡ s.pending
  pub stops : s.stop ≡ true → t.stop ≡ true
  pub sound : IsSound s → IsSound t

pub Progress-trans :
    {a b : List ℕ} {s t u : Session} (c : List ℕ)
    → ((j : ℕ) → In j c → In j a ⊎ In j b)
    → Progress a s t
    → Progress b t u
    → Progress c s u
Progress-trans c covers f g = record {
  unsettled = λ j x.
      let (mid, later) = g.unsettled j x in
      let (before, first) = f.unsettled j mid in
      (before, λ m. elim (covers j m) [ inl x ↦ first x | inr y ↦ later y ]);
  pending = g.pending ∙ f.pending;
  stops = λ h. g.stops (f.stops h);
  sound = λ h. g.sound (f.sound h);
}

pub idle-Progress : (s : Session) → Progress [] s s
idle-Progress s = record {
  unsettled = λ j x. (x, λ m. m);
  pending = refl;
  stops = λ h. h;
  sound = λ h. h;
}

conclude-Progress :
    (outcome : Result ℕ) (i : ℕ) (s : Session)
    → Progress (i ∷ []) s (change_slot (conclude outcome) i s)
conclude-Progress outcome i s = record {
  unsettled = λ j (r, found, without).
      let (q, before, how) = at-update (conclude outcome) i s.slots j r found in
      elim how [
        | inl (e, n) ↦ (
          (q, before, ap (λ x. x.outcome) (sym e) ∙ without),
          λ m. elim m [ inl same ↦ n (sym same) | inr x ↦ x ],
        )
        | inr (e, m) ↦
            let settled : some outcome ≡ none = ap (λ x. x.outcome) (sym e) ∙ without in
            absurd (ground arith)
      ];
  pending = refl;
  stops = λ h. h;
  sound = λ h. h;
}

unqueue-Progress : (i : ℕ) (s : Session) → Progress [] s (change_slot unqueue i s)
unqueue-Progress i s = record {
  unsettled = λ j (r, found, without).
      let (q, before, how) = at-update unqueue i s.slots j r found in
      (
        (
          q,
          before,
          elim how [
            | inl (e, n) ↦ ap (λ x. x.outcome) (sym e) ∙ without
            | inr (e, m) ↦ ap (λ x. x.outcome) (sym e) ∙ without
          ],
        ),
        λ m. m,
      );
  pending = refl;
  stops = λ h. h;
  sound = λ h. h;
}

account-Progress :
    (r : Request) (outcome : Result ℕ) (s : Session) → Progress [] s (account r outcome s)
account-Progress r (ok n) s = record {
  unsettled = λ j x. (x, λ m. m);
  pending = refl;
  stops = λ h. h;
  sound = λ h. h;
}
account-Progress r (err e) s = record {
  unsettled = λ j x. (x, λ m. m);
  pending = refl;
  stops = λ h. refl;
  sound = λ h x y. refl;
}

pub conclude_all-Progress :
    (outcome : Result ℕ) (jobs : List ℕ) (s : Session)
    → Progress jobs s (conclude_all outcome jobs s)
unfolding conclude_all
conclude_all-Progress outcome [] s = idle-Progress s
conclude_all-Progress outcome (i ∷ jobs) s =
    Progress-trans (i ∷ jobs) (λ j m. elim m [ inl e ↦ inl (inl e) | inr x ↦ inr x ])
      (conclude-Progress outcome i s)
      (conclude_all-Progress outcome jobs (change_slot (conclude outcome) i s))

pub unqueue_all-Progress : (jobs : List ℕ) (s : Session) → Progress [] s (unqueue_all jobs s)
unfolding unqueue_all
unqueue_all-Progress [] s = idle-Progress s
unqueue_all-Progress (i ∷ jobs) s =
    Progress-trans [] (λ j m. inl m) (unqueue-Progress i s)
      (unqueue_all-Progress jobs (change_slot unqueue i s))

-- A slot without a request has nothing to settle.
empty-Progress : (i : ℕ) (s : Session) → at s.slots i ≡ none → Progress (i ∷ []) s s
empty-Progress i s empty = record {
  unsettled = λ j x. (
    x,
    λ m. elim m [
      | inl e ↦
          let found : at s.slots i ≡ some x.0 = ap (at s.slots) (sym e) ∙ x.1 in
          absurd (ground arith)
      | inr y ↦ y
    ],
  );
  pending = refl;
  stops = λ h. h;
  sound = λ h. h;
}

settle_cell-Progress :
    (cell : Option (Option Request)) (i : ℕ) (result : ℤ) (s : Session)
    → get_elem? s.slots i ≡ cell
    → Progress (i ∷ []) s (settle_cell cell i result s)
settle_cell-Progress none i result s e = empty-Progress i s (rw (at, e) refl)
settle_cell-Progress (some none) i result s e = empty-Progress i s (rw (at, e) refl)
settle_cell-Progress (some (some r)) i result s e =
    Progress-trans (i ∷ []) (λ j m. inr m) (account-Progress r (outcome_of r result) s)
      (conclude-Progress (outcome_of r result) i (account r (outcome_of r result) s))

pub settle_all-Progress :
    (jobs : List ℕ) (results : List ℤ) (s : Session)
    → length results ≡ length jobs
    → Progress jobs s (settle_all jobs results s)
unfolding settle_all settle_one
settle_all-Progress [] results s h = idle-Progress s
settle_all-Progress (i ∷ jobs) [] s h = absurd (omega arith)
settle_all-Progress (i ∷ jobs) (result ∷ results) s h =
    Progress-trans (i ∷ jobs) (λ j m. elim m [ inl e ↦ inl (inl e) | inr x ↦ inr x ])
      (settle_cell-Progress (get_elem? s.slots i) i result s refl)
      (settle_all-Progress jobs results (settle_one i result s) (omega arith))
