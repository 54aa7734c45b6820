-- ===== src/Storage/Tracking.antt =====
-- src/storage/mod.rs: a request without an outcome is queued or with the service thread.
use hrx_rs.Common.{
  ℕ, ◌≡◌, ◌≢◌, refl, sym, ap, subst, ◌∙◌, ◌⊎◌, inl, inr, Bool, true, false, Option, none, some,
  List, [], ◌∷◌, ◌++◌, In, length, arith, Option-cases, Bool-cases,
}
use hrx_rs.Common.Int.{ℤ}
use hrx_rs.Common.Errors.{Error, Result, ok, err}
use hrx_rs.Storage.{RegisteredFile, Extent}
use hrx_rs.Storage.Session.{
  Request, Session, update, is_open, join, add_ticket, drop_ticket, new_request,
}
use hrx_rs.Storage.Service.{
  change_slot, settle_all, conclude_all, unqueue_all, fail_pending, add_errors, finish_with,
  finish_round, complete, stop_after_failure, first_error,
}
use hrx_rs.Storage.Steps.{
  World, at, Answers, Step, submits, clones, drops, takes, completes, returns, fails, closes, Reach,
  here, next,
}
use hrx_rs.Storage.Cells.{at-update, at-set}
use hrx_rs.Storage.Admission.{Accepted, joined, placed, submit-Accepted}
use hrx_rs.Storage.Progress.{
  Unsettled, IsSound, Progress, Progress-trans, conclude_all-Progress, unqueue_all-Progress,
  settle_all-Progress,
}

-- What is queued is settled with the jobs, and nothing is queued any more.
record Closed (jobs : List ℕ) (s t : Session) : Type 0 where
  unsettled : (j : ℕ) → Unsettled t j → Unsettled s j × ¬ (In j jobs) × ¬ (In j s.pending)
  empty : t.pending ≡ []
  stops : s.stop ≡ true → t.stop ≡ true
  sound : IsSound s → IsSound t

fail_pending-Closed : (e : Error) (s : Session) → Closed [] s (fail_pending e s)
unfolding fail_pending
fail_pending-Closed e s =
    let t = conclude_all (err e) s.pending s in
    let all =
      Progress-trans {u = unqueue_all s.pending t} s.pending (λ j m. inl m)
        (conclude_all-Progress (err e) s.pending s) (unqueue_all-Progress s.pending t) in
    record {
      unsettled = λ j x. let (before, out) = all.unsettled j x in (before, (λ m. m), out);
      empty = refl;
      stops = all.stops;
      sound = all.sound;
    }

-- A round of the service: its jobs are settled, and it returns only if nothing is queued.
record Completed (jobs : List ℕ) (s t : Session) (leaves : Bool) : Type 0 where
  unsettled : (j : ℕ) → Unsettled t j → Unsettled s j × ¬ (In j jobs)
  queued : (j : ℕ) → Unsettled t j → In j s.pending → In j t.pending
  stops : s.stop ≡ true → t.stop ≡ true
  sound : IsSound s → IsSound t
  left : IsSound s → leaves ≡ true → (t.stop ≡ true) × (t.pending ≡ [])

finish_with-Completed :
    (jobs : List ℕ) (s t : Session) (failed : Option Error)
    → t.failed ≡ failed
    → Progress jobs s t
    → Completed jobs s (finish_with failed t).0 (finish_with failed t).1
finish_with-Completed jobs s t none h p = record {
  unsettled = p.unsettled;
  queued = λ j x m. subst (In j) (sym p.pending) m;
  stops = p.stops;
  sound = p.sound;
  left = λ x e. absurd (ground arith);
}
finish_with-Completed jobs s t (some e) h p =
    let c = fail_pending-Closed e t in
    record {
      unsettled = λ j x. p.unsettled j (c.unsettled j x).0;
      queued = λ j x m. absurd ((c.unsettled j x).2 (subst (In j) (sym p.pending) m));
      stops = λ x. c.stops (p.stops x);
      sound = λ x. c.sound (p.sound x);
      left = λ x l. (c.stops (p.sound x e h), c.empty);
    }

-- The jobs are dropped at the end.
unqueued-Completed :
    (jobs : List ℕ) (s t : Session) (leaves : Bool)
    → Completed jobs s t leaves
    → Completed jobs s (unqueue_all jobs t) leaves
unqueued-Completed jobs s t leaves c =
    let p = unqueue_all-Progress jobs t in
    record {
      unsettled = λ j x. c.unsettled j (p.unsettled j x).0;
      queued = λ j x m. subst (In j) (sym p.pending) (c.queued j (p.unsettled j x).0 m);
      stops = λ x. p.stops (c.stops x);
      sound = λ x. p.sound (c.sound x);
      left = λ x l. (p.stops (c.left x l).0, p.pending ∙ (c.left x l).1);
    }

complete-Completed :
    (jobs : List ℕ) (answer : Result (List ℤ)) (s : Session)
    → Answers jobs answer
    → Completed jobs s (complete jobs answer s).0 (complete jobs answer s).1
unfolding complete finish_round
complete-Completed jobs (ok results) s h =
    let t = settle_all jobs results s in
    unqueued-Completed jobs s (finish_with t.failed t).0 (finish_with t.failed t).1 (
      finish_with-Completed jobs s t t.failed refl
        (settle_all-Progress jobs results s (h results refl)))
complete-Completed jobs (err e) s h =
    let r = record s { failed = some e; stop = true } in
    let t = conclude_all (err e) jobs r in
    let p = conclude_all-Progress (err e) jobs r in
    let c = fail_pending-Closed e t in
    unqueued-Completed jobs s (add_errors (length jobs) (fail_pending e t)) true (record {
      unsettled = λ j x. p.unsettled j (c.unsettled j x).0;
      queued = λ j x m. absurd ((c.unsettled j x).2 (subst (In j) (sym p.pending) m));
      stops = λ x. c.stops (p.stops refl);
      sound = λ x. c.sound (p.sound (λ y z. refl));
      left = λ x l. (c.stops (p.stops refl), c.empty);
    })

Unsettled-update :
    (change : Request → Request) (i : ℕ) (s t : Session) (j : ℕ)
    → ((r : Request) → (change r).outcome ≡ r.outcome)
    → t.slots ≡ update change i s.slots
    → Unsettled t j
    → Unsettled s j
Unsettled-update change i s t j keeps e (r, found, without) =
    let (q, before, how) = at-update change i s.slots j r (ap (λ c. at c j) (sym e) ∙ found) in
    (
      q,
      before,
      elim how [
        | inl (same, n) ↦ ap (λ x. x.outcome) (sym same) ∙ without
        | inr (same, m) ↦ sym (keeps q) ∙ (ap (λ x. x.outcome) (sym same) ∙ without)
      ],
    )

is_open-running : (s : Session) → is_open s ≡ ok tt → s.stop ≡ false
is_open-running s h = elim (Option-cases s.failed) [
  | inl fine ↦ ground (arith, fine)
  | inr (e, failed) ↦ absurd (ground (arith, failed))
]

In-snoc : (xs : List ℕ) (i j : ℕ) → In j xs ⊎ (j ≡ i) → In j (xs ++ i ∷ [])
In-snoc [] i j (inl m) = elim m [ ]
In-snoc [] i j (inr e) = inl e
In-snoc (x ∷ xs) i j (inl (inl e)) = inl e
In-snoc (x ∷ xs) i j (inl (inr m)) = inr (In-snoc xs i j (inl m))
In-snoc (x ∷ xs) i j (inr e) = inr (In-snoc xs i j (inr e))

record IsTracked (w : World) : Type 0 where
  tracked : (j : ℕ) → Unsettled w.session j → In j w.session.pending ⊎ In j w.running
  sound : IsSound w.session
  closed : w.exited ≡ true → (w.session.stop ≡ true) × (w.session.pending ≡ []) × (w.running ≡ [])

-- A change of one request that keeps its outcome.
changed-IsTracked :
    (change : Request → Request) (i : ℕ) (w : World)
    → ((r : Request) → (change r).outcome ≡ r.outcome)
    → IsTracked w
    → IsTracked (record w { session = change_slot change i w.session })
changed-IsTracked change i w keeps h = record {
  tracked = λ j x.
      h.tracked j
        (Unsettled-update change i w.session (change_slot change i w.session) j keeps refl x);
  sound = h.sound;
  closed = h.closed;
}

accepted-IsTracked :
    (w : World) (file : RegisteredFile) (extent : Extent) (i : ℕ) (t : Session)
    → is_open w.session ≡ ok tt
    → Accepted w.session file extent i t
    → IsTracked w
    → IsTracked (record w { session = t })
accepted-IsTracked w file extent i t accepts how h =
    let never : w.exited ≢ true =
      λ e. absurd (ground (arith, is_open-running w.session accepts, (h.closed e).0)) in
    elim how [
      | joined met e ↦
          subst (λ x. IsTracked (record w { session = x })) (sym e)
            (record {
              tracked = λ j x.
                  h.tracked j (
                    Unsettled-update add_ticket i w.session (join i w.session) j (λ r. refl) refl
                      x);
              sound = h.sound;
              closed = λ x. absurd (never x);
            })
      | placed p hp met slot e ↦
          subst (λ x. IsTracked (record w { session = x })) (sym e)
            (record {
              tracked = λ j (r, found, without).
                  elim (at-set w.session.slots i (new_request extent p) j r found) [
                    | inl (new, same) ↦ inl (In-snoc w.session.pending i j (inr (sym same)))
                    | inr (before, n) ↦ elim (h.tracked j (r, before, without)) [
                      | inl m ↦ inl (In-snoc w.session.pending i j (inl m))
                      | inr m ↦ inr m
                    ]
                  ];
              sound = h.sound;
              closed = λ x. absurd (never x);
            })
    ]

Step-IsTracked : {w v : World} → Step w v → IsTracked w → IsTracked v
unfolding stop_after_failure
Step-IsTracked (submits w write extent content i s e) h =
    let (file, found, granted, accepts, how) =
      submit-Accepted write extent content w.session i s e in
    accepted-IsTracked w file extent i s accepts how h
Step-IsTracked (clones w i owned) h = changed-IsTracked add_ticket i w (λ r. refl) h
Step-IsTracked (drops w i owned) h = changed-IsTracked drop_ticket i w (λ r. refl) h
Step-IsTracked (takes w idle stays some_work) h = record {
  tracked =
      λ j x. elim (h.tracked j x) [ inl m ↦ inr m | inr m ↦ inr (absurd (subst (In j) idle m)) ];
  sound = h.sound;
  closed = λ e. absurd (ground arith);
}
Step-IsTracked (completes w answer working answers) h =
    let c = complete-Completed w.running answer w.session answers in
    record {
      tracked = λ j x.
          let (before, out) = c.unsettled j x in
          elim (h.tracked j before) [ inl m ↦ inl (c.queued j x m) | inr m ↦ absurd (out m) ];
      sound = c.sound h.sound;
      closed = λ e. ((c.left h.sound e).0, (c.left h.sound e).1, refl);
    }
Step-IsTracked (returns w idle empty stopped) h = record {
  tracked = h.tracked;
  sound = h.sound;
  closed = λ e. (stopped, empty, idle);
}
Step-IsTracked (fails w e) h =
    let r = record w.session { failed = some (first_error w.session.failed e); stop = true } in
    let c = fail_pending-Closed e r in
    record {
      tracked = λ j x. elim (h.tracked j (c.unsettled j x).0) [
        | inl m ↦ absurd ((c.unsettled j x).2 m)
        | inr m ↦ inr m
      ];
      sound = c.sound (λ x y. refl);
      closed = λ gone. (c.stops refl, c.empty, (h.closed gone).2);
    }
Step-IsTracked (closes w) h = record {
  tracked = h.tracked;
  sound = λ x y. refl;
  closed = λ e. (refl, (h.closed e).1, (h.closed e).2);
}

Reach-IsTracked :
    {files : List RegisteredFile} {slot_bytes : ℕ} {w : World}
    → Reach files slot_bytes w
    → IsTracked w
Reach-IsTracked (here slots empty) = record {
  tracked = λ j (r, found, x). absurd (ground (arith, empty j));
  sound = λ x y. absurd (ground arith);
  closed = λ e. absurd (ground arith);
}
Reach-IsTracked (next reach step) = Step-IsTracked step (Reach-IsTracked reach)

-- In every reachable session, a request that has no outcome yet is queued or among the jobs of the
-- service thread, and the thread has not returned.
pub no_request_stranded :
    {files : List RegisteredFile} {slot_bytes : ℕ} {w : World}
    → Reach files slot_bytes w
    → (i : ℕ) (r : Request) → at w.session.slots i ≡ some r
    → r.outcome ≡ none
    → (In i w.session.pending ⊎ In i w.running) × (w.exited ≡ false)
no_request_stranded {w = w} reach i r found without =
    let h = Reach-IsTracked reach in
    let held = h.tracked i (r, found, without) in
    (
      held,
      elim (Bool-cases w.exited) [
        | inr stays ↦ stays
        | inl gone ↦ absurd (elim held [
          | inl m ↦ subst (In i) (h.closed gone).1 m
          | inr m ↦ subst (In i) (h.closed gone).2 m
        ])
      ],
    )
