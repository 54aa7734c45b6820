-- ===== src/Storage/Preservation.antt =====
-- src/storage/mod.rs: every step keeps the retained requests apart.
use hrx_rs.Common.{
  ℕ, zero, suc, ◌+◌, ◌≡◌, refl, sym, ap, subst, ◌∙◌, inl, inr, true, Option, none, some, List, [],
  ◌∷◌, get_elem?, length, arith, Bool-cases, Option-cases,
}
use hrx_rs.Common.Int.{ℤ}
use hrx_rs.Common.Errors.{Error, Result, ok, err}
use hrx_rs.Storage.{RegisteredFile}
use hrx_rs.Storage.Session.{Request, Session, is_retained, same_identity, add_ticket, drop_ticket}
use hrx_rs.Storage.Service.{
  conclude, unqueue, grow, account, change_slot, outcome_of, settle_one, settle_all, conclude_all,
  unqueue_all, fail_pending, stop_after_failure, finish_round, complete, settle_cell, clear_pending,
  add_errors, finish_with, first_error, grow_written,
}
use hrx_rs.Storage.Steps.{at}
use hrx_rs.Storage.Cells.{Keeps, Keeps-refl, Stays, Stays-trans, update-Stays}
use hrx_rs.Storage.Exclusion.{
  identity_at, IsApart, Descends, Descends-IsApart, Descends-trans, update-Descends,
}

identity_at-grow :
    (file : RegisteredFile) (end : ℕ) (files : List RegisteredFile) (i : ℕ)
    → identity_at (grow file end files) i ≡ identity_at files i
identity_at-grow file end [] i = refl
identity_at-grow file end (f ∷ files) zero = elim (Bool-cases (same_identity f file)) [
  | inl same ↦ rw same refl
  | inr other ↦ rw other refl
]
identity_at-grow file end (f ∷ files) (suc i) = identity_at-grow file end files i

identity_at-grow_written :
    (r : Request) (files : List RegisteredFile) (i : ℕ)
    → identity_at (grow_written r files) i ≡ identity_at files i
identity_at-grow_written r files i = elim (Bool-cases r.extent.writing) [
  | inr reading ↦ rw reading refl
  | inl writing ↦ elim (Option-cases (get_elem? files r.extent.file)) [
    | inl missing ↦ rw writing (rw missing refl)
    | inr (file, found) ↦
        rw writing (rw found (identity_at-grow file (r.extent.offset + r.extent.bytes) files i))
  ]
]

-- The session goes on with the files and the retained requests that it has, or fewer.
pub record Follows (s t : Session) : Type 0 where
  pub same_identities : (i : ℕ) → identity_at t.files i ≡ identity_at s.files i
  pub descends : Descends s.slots t.slots
  pub stays : Stays s.slots t.slots

pub Follows-trans : {s t u : Session} → Follows s t → Follows t u → Follows s u
Follows-trans {s = s} {t = t} {u = u} f g = record {
  same_identities = λ i. g.same_identities i ∙ f.same_identities i;
  descends = Descends-trans s.slots t.slots u.slots f.descends g.descends;
  stays = Stays-trans s.slots t.slots u.slots f.stays g.stays;
}

change_slot-Follows :
    (change : Request → Request) (i : ℕ) (s : Session)
    → ((r : Request) → Keeps r (change r))
    → ((r : Request) → at s.slots i ≡ some r → is_retained (change r) ≡ true → is_retained r ≡ true)
    → Follows s (change_slot change i s)
change_slot-Follows change i s keeps retained = record {
  same_identities = λ i. refl;
  descends = update-Descends change i s.slots (λ r. (keeps r).0) retained;
  stays = update-Stays change i s.slots keeps;
}

conclude-Follows :
    (outcome : Result ℕ) (i : ℕ) (s : Session) → Follows s (change_slot (conclude outcome) i s)
conclude-Follows outcome i s =
    change_slot-Follows (conclude outcome) i s (λ r. (refl, refl, λ e. absurd (ground arith)))
      (λ r h k. k)

unqueue-Follows : (i : ℕ) (s : Session) → Follows s (change_slot unqueue i s)
unqueue-Follows i s =
    change_slot-Follows unqueue i s (λ r. (refl, refl, λ e. e)) (λ r h k. ground arith)

account-Follows : (r : Request) (outcome : Result ℕ) (s : Session) → Follows s (account r outcome s)
account-Follows r (ok n) s = record {
  same_identities = identity_at-grow_written r s.files;
  descends = λ i q h k. (q, h, k, refl);
  stays = λ i q h. (q, h, Keeps-refl q);
}
account-Follows r (err e) s = record {
  same_identities = λ i. refl;
  descends = λ i q h k. (q, h, k, refl);
  stays = λ i q h. (q, h, Keeps-refl q);
}

idle-Follows : (s : Session) → Follows s s
idle-Follows s = record {
  same_identities = λ i. refl;
  descends = λ i q h k. (q, h, k, refl);
  stays = λ i q h. (q, h, Keeps-refl q);
}

settle_cell-Follows :
    (cell : Option (Option Request)) (i : ℕ) (result : ℤ) (s : Session)
    → Follows s (settle_cell cell i result s)
settle_cell-Follows none i result s = idle-Follows s
settle_cell-Follows (some none) i result s = idle-Follows s
settle_cell-Follows (some (some r)) i result s =
    Follows-trans (account-Follows r (outcome_of r result) s)
      (conclude-Follows (outcome_of r result) i (account r (outcome_of r result) s))

settle_all-Follows :
    (jobs : List ℕ) (results : List ℤ) (s : Session) → Follows s (settle_all jobs results s)
unfolding settle_all settle_one
settle_all-Follows [] results s = idle-Follows s
settle_all-Follows (i ∷ jobs) [] s = idle-Follows s
settle_all-Follows (i ∷ jobs) (result ∷ results) s =
    Follows-trans (settle_cell-Follows (get_elem? s.slots i) i result s)
      (settle_all-Follows jobs results (settle_one i result s))

conclude_all-Follows :
    (outcome : Result ℕ) (jobs : List ℕ) (s : Session) → Follows s (conclude_all outcome jobs s)
unfolding conclude_all
conclude_all-Follows outcome [] s = idle-Follows s
conclude_all-Follows outcome (i ∷ jobs) s =
    Follows-trans (conclude-Follows outcome i s)
      (conclude_all-Follows outcome jobs (change_slot (conclude outcome) i s))

unqueue_all-Follows : (jobs : List ℕ) (s : Session) → Follows s (unqueue_all jobs s)
unfolding unqueue_all
unqueue_all-Follows [] s = idle-Follows s
unqueue_all-Follows (i ∷ jobs) s =
    Follows-trans (unqueue-Follows i s) (unqueue_all-Follows jobs (change_slot unqueue i s))

-- Neither the files nor the slots change.
pub same-Follows : (s t : Session) → t.files ≡ s.files → t.slots ≡ s.slots → Follows s t
same-Follows s t files slots = record {
  same_identities = λ i. ap (λ f. identity_at f i) files;
  descends = λ i q h k. (q, ap (λ c. at c i) (sym slots) ∙ h, k, refl);
  stays = λ i q h. (q, ap (λ c. at c i) slots ∙ h, Keeps-refl q);
}

fail_pending-Follows : (e : Error) (s : Session) → Follows s (fail_pending e s)
unfolding fail_pending
fail_pending-Follows e s =
    let t = conclude_all (err e) s.pending s in
    let u = unqueue_all s.pending t in
    Follows-trans (conclude_all-Follows (err e) s.pending s) (
      Follows-trans (unqueue_all-Follows s.pending t)
        (same-Follows u (clear_pending (add_errors (length s.pending) u)) refl refl))

finish_with-Follows : (failed : Option Error) (s : Session) → Follows s (finish_with failed s).0
finish_with-Follows none s = idle-Follows s
finish_with-Follows (some e) s = fail_pending-Follows e s

finish_round-Follows : (s : Session) → Follows s (finish_round s).0
unfolding finish_round
finish_round-Follows s = finish_with-Follows s.failed s

pub complete-Follows :
    (jobs : List ℕ) (answer : Result (List ℤ)) (s : Session) → Follows s (complete jobs answer s).0
unfolding complete
complete-Follows jobs (ok results) s =
    let t = settle_all jobs results s in
    Follows-trans (Follows-trans (settle_all-Follows jobs results s) (finish_round-Follows t))
      (unqueue_all-Follows jobs (finish_round t).0)
complete-Follows jobs (err e) s =
    let r = record s { failed = some e; stop = true } in
    let t = conclude_all (err e) jobs r in
    let u = fail_pending e t in
    let v = add_errors (length jobs) u in
    Follows-trans (same-Follows s r refl refl) (
      Follows-trans (conclude_all-Follows (err e) jobs r) (
        Follows-trans (fail_pending-Follows e t)
          (Follows-trans (same-Follows u v refl refl) (unqueue_all-Follows jobs v))))

pub stop_after_failure-Follows : (e : Error) (s : Session) → Follows s (stop_after_failure e s)
unfolding stop_after_failure
stop_after_failure-Follows e s =
    let r = record s { failed = some (first_error s.failed e); stop = true } in
    Follows-trans (same-Follows s r refl refl) (fail_pending-Follows e r)

pub drop_ticket-Follows : (i : ℕ) (s : Session) → Follows s (change_slot drop_ticket i s)
drop_ticket-Follows i s =
    change_slot-Follows drop_ticket i s (λ r. (refl, refl, λ e. e)) (λ r h k. ground arith)

pub add_ticket-Follows :
    (i : ℕ) (s : Session) (r : Request)
    → at s.slots i ≡ some r
    → is_retained r ≡ true
    → Follows s (change_slot add_ticket i s)
add_ticket-Follows i s r found kept =
    change_slot-Follows add_ticket i s (λ q. (refl, refl, λ e. e))
      λ q h k. let same : r ≡ q = ground arith in subst (λ x. is_retained x ≡ true) same kept

pub Follows-IsApart :
    (s t : Session) → Follows s t → IsApart s.files s.slots → IsApart t.files t.slots
Follows-IsApart s t follows apart i j r q distinct hr hq kr kq same =
    Descends-IsApart s.files s.slots t.slots follows.descends apart i j r q distinct hr hq kr kq (
      rw (sym (follows.same_identities r.extent.file))
        (rw (sym (follows.same_identities q.extent.file)) same))
