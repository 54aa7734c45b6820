-- ===== src/Storage/Tests.antt =====
-- src/storage/mod.rs: extents with padding, and a session with a write and a read.
use hrx_rs.Common.{
  ℕ, zero, suc, ◌≡◌, ◌⊎◌, ◌≤◌, ◌+◌, refl, true, false, none, some, inl, List, [], ◌∷◌, In, length,
  arith,
}
use hrx_rs.Common.Int.{ℤ, pos, negsuc}
use hrx_rs.Common.Errors.{Result, ok, err, busy}
use hrx_rs.Storage.{RegisteredFile, Extent, Physical, aligned, physical, read_chunk_bytes}
use hrx_rs.Storage.Extents.{Covers, physical-Covers}
use hrx_rs.Storage.Chunks.{read_chunk_fits}
use hrx_rs.Storage.Session.{
  Request, Write, look, free_slot, with_slot, admit, submit, read, new_request, join, occupy,
}
use hrx_rs.Storage.Service.{complete, outcome_of, settle_all, settle_one, finish_round, unqueue_all}
use hrx_rs.Storage.Steps.{World, opened, at, submits, takes, Reach, next}
use hrx_rs.Storage.Admission.{retained_extents_apart}
use hrx_rs.Storage.Retries.{Batch, visit_all, retry_loop, execute}
use hrx_rs.Storage.Execution.{execute-answers}
use hrx_rs.Storage.Slots.{Step-Stays}
use hrx_rs.Storage.Tracking.{no_request_stranded}

abbrev direct_file : RegisteredFile
direct_file = record {
  bytes = 4000;
  alignment = 512;
  writable = true;
  readable = true;
  identity = (1, 7);
}

abbrev unaligned_read : Extent
unaligned_read = record { file = 0; offset = 700; bytes = 600; writing = false }

abbrev padded : Physical
padded = record { offset = 512; bytes = 1024; skip = 188 }

padded_read : physical unaligned_read 4000 512 4096 ≡ ok padded
unfolding physical aligned
padded_read = refl

physical-Covers_example :
    Covers unaligned_read 512 4096 padded
    × (false ≡ false → 1300 ≤ 4000)
    × (false ≡ true → (padded.skip ≡ 0) × (padded.bytes ≡ 600))
physical-Covers_example =
    physical-Covers unaligned_read 4000 512 4096 padded (omega arith) padded_read

chunk : read_chunk_bytes (direct_file ∷ []) 4096 ≡ 3585
unfolding read_chunk_bytes
chunk = refl

small_enough : 600 ≤ read_chunk_bytes (direct_file ∷ []) 4096
unfolding read_chunk_bytes
small_enough = omega arith

read_chunk_fits_example : (p : Physical) × (physical unaligned_read 4000 512 4096 ≡ ok p)
read_chunk_fits_example =
    read_chunk_fits (direct_file ∷ []) direct_file 4096 unaligned_read (inl refl) (omega arith)
      (omega arith) refl (omega arith) small_enough (omega arith) (omega arith)

abbrev plain_file : RegisteredFile
plain_file = record {
  bytes = 16;
  alignment = 1;
  writable = true;
  readable = true;
  identity = (1, 9);
}

-- A payload that accepts every write.
abbrev accepting : Write
accepting offset bytes = ok tt

abbrev opening : World
opening = opened (plain_file ∷ []) 8 (none ∷ none ∷ [])

no_requests : (i : ℕ) → at opening.session.slots i ≡ none
no_requests zero = refl
no_requests (suc zero) = refl
no_requests (suc (suc i)) = refl

opening-Reach : Reach (plain_file ∷ []) 8 opening
opening-Reach = Reach.here (none ∷ none ∷ []) no_requests

abbrev written : Extent
written = record { file = 0; offset = 4; bytes = 2; writing = true }

abbrev below : Extent
below = record { file = 0; offset = 0; bytes = 4; writing = false }

-- What a session holds of an extent of the file without alignment.
abbrev request : Extent → Request
request extent =
    new_request extent (record { offset = extent.offset; bytes = extent.bytes; skip = 0 })

abbrev with_write : World
with_write = record opening { session = occupy 0 (request written) opening.session }

abbrev with_both : World
with_both = record with_write { session = occupy 1 (request below) with_write.session }

both-Reach : Reach (plain_file ∷ []) 8 with_both
unfolding submit admit look with_slot free_slot physical aligned
both-Reach =
    next
      (next opening-Reach
        (submits opening accepting written (some (7 ∷ 8 ∷ [])) 0 with_write.session refl))
      (submits with_write accepting below none 1 with_both.session refl)

retained_extents_apart_example :
    (written.offset + written.bytes ≤ below.offset) ⊎ (below.offset + below.bytes ≤ written.offset)
retained_extents_apart_example =
    retained_extents_apart {w = with_both} both-Reach 0 1 (request written) (request below)
      (λ e. absurd (omega (arith, e))) refl refl refl refl refl refl

Step-Stays_example :
    (q : Request) × (at with_both.session.slots 0 ≡ some q)
    × (q.extent ≡ written)
    × (q.physical ≡ (request written).physical)
    × (q.outcome ≡ none → (request written).outcome ≡ none)
unfolding submit admit look with_slot free_slot physical aligned
Step-Stays_example =
    Step-Stays {w = with_write} {v = with_both} 0 (request written)
      (submits with_write accepting below none 1 with_both.session refl) refl refl

-- A read of a byte that the write touches is refused.
overlapping :
    read accepting 0 5 4 with_both.session
    ≡ err (busy "overlapping storage write is still retained")
unfolding read submit admit look with_slot free_slot physical aligned
overlapping = refl

-- An identical read gets the slot of the first.
shared : read accepting 0 0 4 with_both.session ≡ ok (1, join 1 with_both.session)
unfolding read submit admit look with_slot free_slot physical aligned
shared = refl

abbrev taken : World
taken = record with_both {
  session = record with_both.session { pending = [] };
  running = 0 ∷ 1 ∷ [];
}

taken-Reach : Reach (plain_file ∷ []) 8 taken
taken-Reach = next both-Reach (takes with_both refl refl (λ e. cc))

no_request_stranded_example :
    (In 1 taken.session.pending ⊎ In 1 taken.running) × (taken.exited ≡ false)
no_request_stranded_example =
    no_request_stranded {w = taken} taken-Reach 1 (request below) refl refl

-- The write is done and the read is short: the session fails.
short_read : (complete (0 ∷ 1 ∷ []) (ok (pos 2 ∷ pos 3 ∷ [])) taken.session).1 ≡ true
unfolding complete settle_all settle_one outcome_of finish_round
short_read = refl

grown :
    (complete (0 ∷ 1 ∷ []) (ok (pos 2 ∷ pos 4 ∷ [])) taken.session).0.statistics.completed_bytes ≡ 6
unfolding complete settle_all settle_one outcome_of finish_round unqueue_all
grown = refl

-- A device that moves two bytes at a time.
abbrev halves : Batch
halves k attempts = ok (pos 2 ∷ [])

execute-answers_example :
    (answer : Result (List ℤ)) × (execute (plain_file ∷ []) halves (request below ∷ []) 8
      ≡ some answer)
    × ((results : List ℤ) → answer ≡ ok results → length results ≡ 1)
execute-answers_example =
    execute-answers (plain_file ∷ []) halves (request below ∷ []) 8 (omega arith, tt)

retried : execute (plain_file ∷ []) halves (request below ∷ []) 8 ≡ some (ok (pos 4 ∷ []))
unfolding execute retry_loop visit_all
retried = refl

-- A device that moves nothing is not asked again, and a write gets an error.
stalled :
    execute (plain_file ∷ []) (λ k attempts. ok (pos 0 ∷ [])) (request written ∷ []) 8
    ≡ some (ok (negsuc 4 ∷ []))
unfolding execute retry_loop visit_all
stalled = refl
