-- ===== src/Storage/Admission.antt =====
-- src/storage/mod.rs: an accepted request shares a retained read or overlaps nothing that is retained.
use hrx_rs.Common.{
  ℕ, ◌+◌, ◌*◌, ◌≤◌, ◌≡◌, ◌≢◌, refl, sym, ap, subst, ◌∙◌, ◌⊎◌, inl, inr, true, false, ◌||◌, Option,
  none, some, List, get_elem?, set, arith, dec_lt, Option-cases,
}
use hrx_rs.Common.Errors.{ok, err, bind-ok, refuse_if-ok, ◌>>=◌}
use hrx_rs.Storage.{RegisteredFile, Extent, Physical, physical}
use hrx_rs.Storage.Session.{
  Request, Session, Write, is_retained, is_file, is_overlapping, shares, overlaps, free, look,
  add_ticket, new_request, join, occupy, drop_ticket, submit, admit, with_slot, free_slot, is_open,
  write_payload, Meeting, lacks_access, bad_descriptor, resolve, fill_slot, submit_to,
}
use hrx_rs.Storage.Service.{change_slot, complete, stop_after_failure}
use hrx_rs.Storage.Steps.{
  World, at, Step, submits, clones, drops, takes, completes, returns, fails, closes, Reach, here,
  next,
}
use hrx_rs.Storage.Cells.{at-set}
use hrx_rs.Storage.Exclusion.{identity_at, same_file, agree, IsApart, look-shares, look-free}
use hrx_rs.Storage.Preservation.{
  add_ticket-Follows, drop_ticket-Follows, complete-Follows, stop_after_failure-Follows,
  Follows-IsApart,
}

-- How a request was accepted.
pub data Accepted (s : Session) (file : RegisteredFile) (extent : Extent) (i : ℕ) (t : Session)
    : Type 0 where
  joined : look s.files file extent 0 s.slots ≡ shares i → t ≡ join i s → Accepted s file extent i t
  placed :
      (p : Physical)
      → physical extent file.bytes file.alignment s.slot_bytes ≡ ok p
      → look s.files file extent 0 s.slots ≡ free
      → free_slot 0 s.slots ≡ some i
      → t ≡ occupy i (new_request extent p) s
      → Accepted s file extent i t

ok_injective : (a b : ℕ × Session) → ok a ≡ ok b → a ≡ b
ok_injective a b h = ap (λ r. elim r as (λ _. ℕ × Session) [ ok x ↦ x | err e ↦ a ]) h

fill_slot-ok :
    (write : Write) (extent : Extent) (p : Physical) (content : Option (List ℕ)) (s : Session)
    (i : ℕ) (t : Session) (slot : Option ℕ)
    → fill_slot write extent p content s slot ≡ ok (i, t)
    → (slot ≡ some i) × (t ≡ occupy i (new_request extent p) s)
fill_slot-ok write extent p content s i t none h = absurd (ground arith)
fill_slot-ok write extent p content s i t (some slot) h =
    let (_, written, rest) =
      bind-ok (write_payload write (slot * s.slot_bytes) content)
        (λ _. ok (slot, occupy slot (new_request extent p) s)) (i, t) h in
    let e : (slot, occupy slot (new_request extent p) s) ≡ (i, t) = ok_injective _ _ rest in
    let same : slot ≡ i = ap (λ x. x.0) e in
    (ap some same, sym (ap (λ x. x.1) e) ∙ ap (λ n. occupy n (new_request extent p) s) same)

resolve-Accepted :
    (write : Write) (file : RegisteredFile) (extent : Extent) (p : Physical)
    (content : Option (List ℕ)) (s : Session) (i : ℕ) (t : Session) (met : Meeting)
    → physical extent file.bytes file.alignment s.slot_bytes ≡ ok p
    → look s.files file extent 0 s.slots ≡ met
    → resolve write extent p content s met ≡ ok (i, t)
    → Accepted s file extent i t
unfolding with_slot
resolve-Accepted write file extent p content s i t (shares j) hp hm h =
    let e : (j, join j s) ≡ (i, t) = ok_injective (j, join j s) (i, t) h in
    let same : j ≡ i = ap (λ x. x.0) e in
    joined (hm ∙ ap shares same) (sym (ap (λ x. x.1) e) ∙ ap (λ n. join n s) same)
resolve-Accepted write file extent p content s i t overlaps hp hm h = absurd (ground arith)
resolve-Accepted write file extent p content s i t free hp hm h =
    let (slot, e) = fill_slot-ok write extent p content s i t (free_slot 0 s.slots) h in
    placed p hp hm slot e

submit_to-Accepted :
    (write : Write) (extent : Extent) (content : Option (List ℕ)) (s : Session) (i : ℕ)
    (t : Session) (found : Option RegisteredFile)
    → submit_to write extent content s found ≡ ok (i, t)
    → (file : RegisteredFile) × (found ≡ some file)
      × (lacks_access file extent ≡ false)
      × (is_open s ≡ ok tt)
      × Accepted s file extent i t
unfolding admit
submit_to-Accepted write extent content s i t none h = absurd (ground arith)
submit_to-Accepted write extent content s i t (some file) h =
    let (granted, rest) =
      refuse_if-ok (lacks_access file extent) bad_descriptor
        (physical extent file.bytes file.alignment s.slot_bytes >>= λ p.
          admit write file extent p content s)
        (i, t) h in
    let (p, hp, last) =
      bind-ok (physical extent file.bytes file.alignment s.slot_bytes)
        (λ p. admit write file extent p content s) (i, t) rest in
    let (_, accepts, done) =
      bind-ok (is_open s)
        (λ _. resolve write extent p content s (look s.files file extent 0 s.slots)) (i, t) last in
    (
      file,
      refl,
      granted,
      accepts,
      resolve-Accepted write file extent p content s i t (look s.files file extent 0 s.slots) hp
          refl done,
    )

pub submit-Accepted :
    (write : Write) (extent : Extent) (content : Option (List ℕ)) (s : Session) (i : ℕ)
    (t : Session)
    → submit write extent content s ≡ ok (i, t)
    → (file : RegisteredFile) × (get_elem? s.files extent.file ≡ some file)
      × (lacks_access file extent ≡ false)
      × (is_open s ≡ ok tt)
      × Accepted s file extent i t
unfolding submit
submit-Accepted write extent content s i t h =
    submit_to-Accepted write extent content s i t (get_elem? s.files extent.file) h

agree_sym : (a b : Option (ℕ × ℕ)) → agree a b ≡ agree b a
agree_sym none none = refl
agree_sym none (some b) = refl
agree_sym (some a) none = refl
agree_sym (some a) (some b) = ground arith

overlapping_sym : (a b : Extent) → is_overlapping a b ≡ is_overlapping b a
overlapping_sym a b = ground arith

identity_at-found :
    (files : List RegisteredFile) (i : ℕ) (f : RegisteredFile)
    → get_elem? files i ≡ some f
    → identity_at files i ≡ some f.identity
identity_at-found files i f found = rw (identity_at, found) refl

identity_at-missing :
    (files : List RegisteredFile) (i : ℕ) → get_elem? files i ≡ none → identity_at files i ≡ none
identity_at-missing files i missing = rw (identity_at, missing) refl

is_file-same :
    (files : List RegisteredFile) (file : RegisteredFile) (a b : Extent)
    → get_elem? files a.file ≡ some file
    → same_file files b a ≡ is_file files file b.file
is_file-same files file a b found = elim (Option-cases (get_elem? files b.file)) [
  | inl missing ↦
      ap (λ x. agree x (identity_at files a.file)) (identity_at-missing files b.file missing)
      ∙ sym (rw (is_file, missing) refl)
  | inr (g, other) ↦
      ap (λ x. agree x (identity_at files a.file)) (identity_at-found files b.file g other)
      ∙ (ap (agree (some g.identity)) (identity_at-found files a.file file found)
          ∙ sym (rw (is_file, other) refl))
]

-- The new request against one that was retained before.
new-clear :
    (s : Session) (file : RegisteredFile) (extent : Extent) (r : Request) (j : ℕ) (q : Request)
    → get_elem? s.files extent.file ≡ some file
    → look s.files file extent 0 s.slots ≡ free
    → r.extent ≡ extent
    → at s.slots j ≡ some q
    → is_retained q ≡ true
    → same_file s.files q.extent r.extent ≡ true
    → is_overlapping r.extent q.extent ≡ false
new-clear s file extent r j q found met e before kept same =
    ap (λ x. is_overlapping x q.extent) e
    ∙ look-free s.files file extent 0 s.slots j q met before kept (
        sym (is_file-same s.files file extent q.extent found)
        ∙ (ap (same_file s.files q.extent) (sym e) ∙ same))

placed-IsApart :
    (s : Session) (file : RegisteredFile) (extent : Extent) (p : Physical) (i : ℕ)
    → get_elem? s.files extent.file ≡ some file
    → look s.files file extent 0 s.slots ≡ free
    → IsApart s.files s.slots
    → IsApart s.files (set s.slots i (some (new_request extent p)))
placed-IsApart s file extent p i found met apart j k r q distinct hr hq kr kq same =
    elim (at-set s.slots i (new_request extent p) j r hr) [
      | inl (er, mr) ↦ elim (at-set s.slots i (new_request extent p) k q hq) [
        | inl (eq, mq) ↦ absurd (distinct (sym mr ∙ mq))
        | inr (before, n) ↦
            new-clear s file extent r k q found met (ap (λ x. x.extent) er) before kq (
              agree_sym (identity_at s.files q.extent.file) (identity_at s.files r.extent.file)
              ∙ same)
      ]
      | inr (before, n) ↦ elim (at-set s.slots i (new_request extent p) k q hq) [
        | inl (eq, mq) ↦
            overlapping_sym r.extent q.extent
            ∙ new-clear s file extent q j r found met (ap (λ x. x.extent) eq) before kr same
        | inr (also, m) ↦ apart j k r q distinct before also kr kq same
      ]
    ]

submits-IsApart :
    (write : Write) (extent : Extent) (content : Option (List ℕ)) (s : Session) (i : ℕ)
    (t : Session)
    → submit write extent content s ≡ ok (i, t)
    → IsApart s.files s.slots
    → IsApart t.files t.slots
submits-IsApart write extent content s i t h apart =
    let (file, found, granted, accepts, how) = submit-Accepted write extent content s i t h in
    elim how [
      | joined met e ↦
          let (j, r, m, before, kept) = look-shares s.files file extent 0 s.slots i met in
          let here : at s.slots i ≡ some r = ap (at s.slots) (omega arith) ∙ before in
          let shared =
            Follows-IsApart s (change_slot add_ticket i s) (add_ticket-Follows i s r here kept)
              apart in
          subst (λ x. IsApart x.files x.slots) (sym e) shared
      | placed p hp met slot e ↦
          subst (λ x. IsApart x.files x.slots) (sym e)
            (placed-IsApart s file extent p i found met apart)
    ]

Step-IsApart :
    {w v : World}
    → Step w v
    → IsApart w.session.files w.session.slots
    → IsApart v.session.files v.session.slots
Step-IsApart (submits w write extent content i s h) apart =
    submits-IsApart write extent content w.session i s h apart
Step-IsApart (clones w i (r, found, owned)) apart =
    Follows-IsApart w.session (change_slot add_ticket i w.session)
      (add_ticket-Follows i w.session r found (ground arith)) apart
Step-IsApart (drops w i h) apart =
    Follows-IsApart w.session (change_slot drop_ticket i w.session)
      (drop_ticket-Follows i w.session) apart
Step-IsApart (takes w a b c) apart = apart
Step-IsApart (completes w answer a b) apart =
    Follows-IsApart w.session (complete w.running answer w.session).0
      (complete-Follows w.running answer w.session) apart
Step-IsApart (returns w a b c) apart = apart
Step-IsApart (fails w e) apart =
    Follows-IsApart w.session (stop_after_failure e w.session)
      (stop_after_failure-Follows e w.session) apart
Step-IsApart (closes w) apart = apart

Reach-IsApart :
    {files : List RegisteredFile} {slot_bytes : ℕ} {w : World}
    → Reach files slot_bytes w
    → IsApart w.session.files w.session.slots
Reach-IsApart (here slots empty) = λ i j r q distinct hr. absurd (ground (arith, empty i))
Reach-IsApart (next reach step) = Step-IsApart step (Reach-IsApart reach)

-- In every reachable session, two requests of different slots that are retained and whose extents lie in
-- files of one identity, one of them a write, have no byte of the file in common.
pub retained_extents_apart :
    {files : List RegisteredFile} {slot_bytes : ℕ} {w : World}
    → Reach files slot_bytes w
    → (i j : ℕ) (r q : Request) → i ≢ j
    → at w.session.slots i ≡ some r
    → at w.session.slots j ≡ some q
    → is_retained r ≡ true
    → is_retained q ≡ true
    → same_file w.session.files r.extent q.extent ≡ true
    → (r.extent.writing || q.extent.writing) ≡ true
    → (r.extent.offset + r.extent.bytes ≤ q.extent.offset)
      ⊎ (q.extent.offset + q.extent.bytes ≤ r.extent.offset)
retained_extents_apart reach i j r q distinct hr hq kr kq same writes =
    let clear = Reach-IsApart reach i j r q distinct hr hq kr kq same in
    elim (dec_lt q.extent.offset (r.extent.offset + r.extent.bytes)) [
      | no before ↦ inl (omega arith)
      | yes under ↦ inr (ground arith)
    ]
