-- ===== src/Storage/Steps.antt =====
-- src/storage/mod.rs: callers, owners of tickets and the service thread, in any order.
use hrx_rs.Common.{
  ℕ, ◌<◌, ◌≡◌, ◌≢◌, Bool, true, false, Option, none, some, List, [], get_elem?, length,
}
use hrx_rs.Common.Int.{ℤ}
use hrx_rs.Common.Errors.{Error, Result, ok}
use hrx_rs.Storage.{RegisteredFile, Extent}
use hrx_rs.Storage.Session.{Request, Statistics, Session, Write, submit, add_ticket, drop_ticket}
use hrx_rs.Storage.Service.{change_slot, complete, stop_after_failure}

-- `running` are the jobs of the round of `Worker::run`, and `exited` tells that it has returned.
pub record World : Type 0 where
  pub session : Session
  pub running : List ℕ
  pub exited : Bool

abbrev pub at : List (Option Request) → ℕ → Option Request
at cells i = elim (get_elem? cells i) [ none ↦ none | some cell ↦ cell ]

-- Somebody owns a ticket of the request in slot `i`.
abbrev pub Owns : Session → ℕ → Type 0
Owns s i = (r : Request) × (at s.slots i ≡ some r) × (0 < r.tickets)

-- `execute` gives a result for each of its jobs.
abbrev pub Answers : List ℕ → Result (List ℤ) → Type 0
Answers jobs answer = (results : List ℤ) → answer ≡ ok results → length results ≡ length jobs

pub data Step : World → World → Type 0 where
  submits :
      (w : World) (write : Write) (extent : Extent) (content : Option (List ℕ)) (i : ℕ)
      (s : Session)
      → submit write extent content w.session ≡ ok (i, s)
      → Step w (record w { session = s })
  clones :
      (w : World) (i : ℕ)
      → Owns w.session i
      → Step w (record w { session = change_slot add_ticket i w.session })
  drops :
      (w : World) (i : ℕ)
      → Owns w.session i
      → Step w (record w { session = change_slot drop_ticket i w.session })
  takes :
      (w : World)
      → w.running ≡ []
      → w.exited ≡ false
      → w.session.pending ≢ []
      → Step w
          (record w { session = record w.session { pending = [] }; running = w.session.pending })
  completes :
      (w : World) (answer : Result (List ℤ))
      → w.running ≢ []
      → Answers w.running answer
      → Step w (record {
        session = (complete w.running answer w.session).0;
        running = [];
        exited = (complete w.running answer w.session).1;
      })
  returns :
      (w : World)
      → w.running ≡ []
      → w.session.pending ≡ []
      → w.session.stop ≡ true
      → Step w (record w { exited = true })
  fails : (w : World) (e : Error) → Step w (record w { session = stop_after_failure e w.session })
  closes : (w : World) → Step w (record w { session = record w.session { stop = true } })

abbrev pub no_statistics : Statistics
no_statistics = record {
  logical_requests = 0;
  shared_reads = 0;
  completed_bytes = 0;
  errors = 0;
  peak_slots = 0;
}

-- The end of `StorageSession::new`.
abbrev pub opened : List RegisteredFile → ℕ → List (Option Request) → World
opened files slot_bytes slots = record {
  session = record {
    files = files;
    slot_bytes = slot_bytes;
    pending = [];
    slots = slots;
    stop = false;
    failed = none;
    statistics = no_statistics;
  };
  running = [];
  exited = false;
}

pub data Reach (files : List RegisteredFile) (slot_bytes : ℕ) : World → Type 0 where
  here :
      (slots : List (Option Request))
      → ((i : ℕ) → at slots i ≡ none)
      → Reach files slot_bytes (opened files slot_bytes slots)
  next : {w v : World} → Reach files slot_bytes w → Step w v → Reach files slot_bytes v
