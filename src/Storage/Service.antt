-- ===== src/Storage/Service.antt =====
-- src/storage/mod.rs: the service thread of a storage session settles the requests that it has taken.
use hrx_rs.Common.{
  ℕ, suc, ◌+◌, max, Bool, true, false, Option, none, some, List, [], ◌∷◌, if◌then◌else◌, ltb,
  get_elem?, length,
}
use hrx_rs.Common.Int.{ℤ, pos, negsuc}
use hrx_rs.Common.Errors.{Error, io, os_error, unexpected_eof, Result, ok, err}
use hrx_rs.Storage.{RegisteredFile}
use hrx_rs.Storage.Session.{Request, Session, update, same_identity}

-- `*job.outcome.lock().unwrap() = Some(outcome)`
abbrev pub conclude : Result ℕ → Request → Request
conclude outcome r = record r { outcome = some outcome }

-- The queue or the service gives the request up.
abbrev pub unqueue : Request → Request
unqueue r = record r { queued = false }

-- The bytes of the physical extent up to the end of the logical one.
abbrev pub required : Request → ℕ
required r = r.physical.skip + r.extent.bytes

-- What the result of the native request is to its owners.
unfoldable pub outcome_of : Request → ℤ → Result ℕ
outcome_of r (negsuc n) = err (io (os_error (suc n)))
outcome_of r (pos n) =
    if ltb n (required r) then err (io (unexpected_eof "incomplete storage extent")) else ok n

-- `fetch_max` on the size of every registration of the file.
abbrev pub grow : RegisteredFile → ℕ → List RegisteredFile → List RegisteredFile
grow file end [] = []
grow file end (f ∷ files) =
    (if same_identity f file then record f { bytes = max f.bytes end } else f) ∷ grow file end files

abbrev pub grow_written : Request → List RegisteredFile → List RegisteredFile
grow_written r files =
    if r.extent.writing
    then elim (get_elem? files r.extent.file) [
      | none ↦ files
      | some file ↦ grow file (r.extent.offset + r.extent.bytes) files
    ]
    else files

abbrev pub first_error : Option Error → Error → Error
first_error none e = e
first_error (some first) e = first

abbrev pub account : Request → Result ℕ → Session → Session
account r (ok n) s = record s {
  files = grow_written r s.files;
  statistics = record s.statistics { completed_bytes = s.statistics.completed_bytes + n };
}
account r (err e) s = record s {
  failed = some (first_error s.failed e);
  stop = true;
  statistics = record s.statistics { errors = s.statistics.errors + 1 };
}

abbrev pub change_slot : (Request → Request) → ℕ → Session → Session
change_slot change i s = record s { slots = update change i s.slots }

abbrev pub settle_cell : Option (Option Request) → ℕ → ℤ → Session → Session
settle_cell none i result s = s
settle_cell (some none) i result s = s
settle_cell (some (some r)) i result s =
    change_slot (conclude (outcome_of r result)) i (account r (outcome_of r result) s)

-- One round of the loop over the jobs and their results.
unfoldable pub settle_one : ℕ → ℤ → Session → Session
unfolding outcome_of
settle_one i result s = settle_cell (get_elem? s.slots i) i result s

-- The loop over `jobs.iter().zip(results)`.
unfoldable pub settle_all : List ℕ → List ℤ → Session → Session
unfolding settle_one
settle_all [] results s = s
settle_all (i ∷ jobs) [] s = s
settle_all (i ∷ jobs) (result ∷ results) s = settle_all jobs results (settle_one i result s)

-- A loop that gives requests their outcome.
unfoldable pub conclude_all : Result ℕ → List ℕ → Session → Session
conclude_all outcome [] s = s
conclude_all outcome (i ∷ jobs) s = conclude_all outcome jobs (change_slot (conclude outcome) i s)

-- The owners of a list of requests drop it.
unfoldable pub unqueue_all : List ℕ → Session → Session
unqueue_all [] s = s
unqueue_all (i ∷ jobs) s = unqueue_all jobs (change_slot unqueue i s)

abbrev pub add_errors : ℕ → Session → Session
add_errors n s = record s { statistics = record s.statistics { errors = s.statistics.errors + n } }

abbrev pub clear_pending : Session → Session
clear_pending s = record s { pending = [] }

-- What is still queued fails, and the queue is cleared.
unfoldable pub fail_pending : Error → Session → Session
unfolding conclude_all unqueue_all
fail_pending e s =
    clear_pending
      (add_errors (length s.pending) (unqueue_all s.pending (conclude_all (err e) s.pending s)))

-- `stop_after_failure`
unfoldable pub stop_after_failure : Error → Session → Session
unfolding fail_pending
stop_after_failure e s =
    fail_pending e (record s { failed = some (first_error s.failed e); stop = true })

abbrev pub finish_with : Option Error → Session → Session × Bool
finish_with none s = (s, false)
finish_with (some e) s = (fail_pending e s, true)

-- The end of a round of `Worker::run`, and whether the thread returns.
unfoldable pub finish_round : Session → Session × Bool
unfolding fail_pending
finish_round s = finish_with s.failed s

-- A round of `Worker::run` from the outcome of `execute` on.
unfoldable pub complete : List ℕ → Result (List ℤ) → Session → Session × Bool
unfolding settle_all finish_round unqueue_all conclude_all fail_pending
complete jobs (ok results) s =
    let (t, returns) = finish_round (settle_all jobs results s) in (unqueue_all jobs t, returns)
complete jobs (err e) s =
    let t = conclude_all (err e) jobs (record s { failed = some e; stop = true }) in
    (unqueue_all jobs (add_errors (length jobs) (fail_pending e t)), true)
