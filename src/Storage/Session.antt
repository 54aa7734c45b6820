-- ===== src/Storage/Session.antt =====
-- src/storage/mod.rs: the state of a storage session and the admission of requests. A request is named
-- by its payload slot; the payload buffer is a parameter.
use hrx_rs.Common.{
  ℕ, zero, suc, ◌+◌, ◌-◌, ◌*◌, max, Bool, true, false, ◌&&◌, ◌||◌, not, Option, none, some, List,
  [], ◌∷◌, ◌++◌, if◌then◌else◌, ltb, ◌==◌, get_elem?, set, length, keep,
}
use hrx_rs.Common.Errors.{
  Error, busy, message, io, os_error, execution, cancelled, Result, ok, err, refuse_if, ◌>>=◌, ◌>>◌,
}
use hrx_rs.Storage.{RegisteredFile, Extent, Physical, physical}

-- `tickets` counts the tickets, leases and transfers that own the request; `queued` tells that the
-- queue or the service owns it.
pub record Request : Type 0 where
  pub extent : Extent
  pub physical : Physical
  pub outcome : Option (Result ℕ)
  pub tickets : ℕ
  pub queued : Bool

-- The counters that the locked state carries.
pub record Statistics : Type 0 where
  pub logical_requests : ℕ
  pub shared_reads : ℕ
  pub completed_bytes : ℕ
  pub errors : ℕ
  pub peak_slots : ℕ

-- `Shared` with its `State`.
pub record Session : Type 0 where
  pub files : List RegisteredFile
  pub slot_bytes : ℕ
  pub pending : List ℕ
  pub slots : List (Option Request)
  pub stop : Bool
  pub failed : Option Error
  pub statistics : Statistics

-- `strong_count() > 0`
abbrev pub is_retained : Request → Bool
is_retained r = r.queued || ltb 0 r.tickets

-- `Weak::upgrade`
abbrev pub upgrade : Option Request → Option Request
upgrade none = none
upgrade (some r) = if is_retained r then some r else none

abbrev pub has_owners : Option Request → Bool
has_owners cell = elim (upgrade cell) [ none ↦ false | some r ↦ true ]

abbrev pub same_identity : RegisteredFile → RegisteredFile → Bool
same_identity f g = (f.identity.0 == g.identity.0) && (f.identity.1 == g.identity.1)

abbrev pub is_file : List RegisteredFile → RegisteredFile → ℕ → Bool
is_file files file i = elim (get_elem? files i) [ none ↦ false | some f ↦ same_identity f file ]

abbrev pub has_failed : Request → Bool
has_failed r = elim r.outcome [ none ↦ false | some (ok n) ↦ false | some (err e) ↦ true ]

abbrev pub is_shareable : Extent → Request → Bool
is_shareable extent r =
    not extent.writing
    && (not r.extent.writing
        && ((r.extent.offset == extent.offset)
            && ((r.extent.bytes == extent.bytes) && not (has_failed r))))

abbrev pub is_overlapping : Extent → Extent → Bool
is_overlapping extent other =
    (extent.writing || other.writing)
    && (ltb extent.offset (other.offset + other.bytes)
        && ltb other.offset (extent.offset + extent.bytes))

-- How the loop over the retained requests ends.
pub data Meeting : Type 0 where
  shares : ℕ → Meeting
  overlaps free : Meeting

-- A retained request of the same file or of another one, that can be shared or overlaps; `later` is how
-- the rest of the loop ends.
abbrev pub react : Bool → Bool → Bool → ℕ → Meeting → Meeting
react file shareable overlapping i later =
    if file then if shareable then shares i else if overlapping then overlaps else later else later

-- One round of the loop, at slot `i`.
abbrev pub encounter :
    List RegisteredFile → RegisteredFile → Extent → ℕ → Option Request → Meeting → Meeting
encounter files file extent i none later = later
encounter files file extent i (some r) later =
    react (is_file files file r.extent.file) (is_shareable extent r)
      (is_overlapping extent r.extent) i later

-- The loop from slot `i` on.
unfoldable pub look :
    List RegisteredFile → RegisteredFile → Extent → ℕ → List (Option Request) → Meeting
look files file extent i [] = free
look files file extent i (cell ∷ cells) =
    let later = look files file extent (i + 1) cells in
    encounter files file extent i (upgrade cell) later

-- `position(|s| s.strong_count() == 0)`
unfoldable pub free_slot : ℕ → List (Option Request) → Option ℕ
free_slot i [] = none
free_slot i (cell ∷ cells) = if has_owners cell then free_slot (i + 1) cells else some i

abbrev pub update : (Request → Request) → ℕ → List (Option Request) → List (Option Request)
update change i [] = []
update change zero (none ∷ cells) = none ∷ cells
update change zero (some r ∷ cells) = some (change r) ∷ cells
update change (suc i) (cell ∷ cells) = cell ∷ update change i cells

abbrev pub add_ticket : Request → Request
add_ticket r = record r { tickets = r.tickets + 1 }

abbrev pub drop_ticket : Request → Request
drop_ticket r = record r { tickets = r.tickets - 1 }

abbrev live_slots : List (Option Request) → ℕ
live_slots cells = length (keep has_owners cells)

abbrev pub new_request : Extent → Physical → Request
new_request extent p = record {
  extent = extent;
  physical = p;
  outcome = none;
  tickets = 1;
  queued = true;
}

abbrev pub join : ℕ → Session → Session
join i s = record s {
  slots = update add_ticket i s.slots;
  statistics = record s.statistics {
    logical_requests = s.statistics.logical_requests + 1;
    shared_reads = s.statistics.shared_reads + 1;
  };
}

abbrev pub occupy : ℕ → Request → Session → Session
occupy i r s =
    let slots = set s.slots i (some r) in
    record s {
      slots = slots;
      pending = s.pending ++ i ∷ [];
      statistics = record s.statistics {
        logical_requests = s.statistics.logical_requests + 1;
        peak_slots = max s.statistics.peak_slots (live_slots slots);
      };
    }

-- `payload.write`: an offset and the bytes.
abbrev pub Write : Type 0
Write = ℕ → List ℕ → Result (Unit {0})

abbrev pub write_payload : Write → ℕ → Option (List ℕ) → Result (Unit {0})
write_payload write offset none = ok tt
write_payload write offset (some bytes) = write offset bytes

abbrev pub fill_slot :
    Write → Extent → Physical → Option (List ℕ) → Session → Option ℕ → Result (ℕ × Session)
fill_slot write extent p content s none = err (busy "all storage payload slots are retained")
fill_slot write extent p content s (some slot) =
    write_payload write (slot * s.slot_bytes) content
    >> ok (slot, occupy slot (new_request extent p) s)

-- The part of `submit` that needs a slot of its own.
unfoldable pub with_slot :
    Write → Extent → Physical → Option (List ℕ) → Session → Result (ℕ × Session)
unfolding free_slot
with_slot write extent p content s = fill_slot write extent p content s (free_slot 0 s.slots)

abbrev pub is_open : Session → Result (Unit {0})
is_open s = elim s.failed [ some e ↦ err (execution e) | none ↦ refuse_if s.stop cancelled ]

abbrev pub lacks_access : RegisteredFile → Extent → Bool
lacks_access file extent =
    (extent.writing && not file.writable) || (not extent.writing && not file.readable)

-- `libc::EBADF`
abbrev pub bad_descriptor : Error
bad_descriptor = io (os_error 9)

abbrev pub resolve :
    Write → Extent → Physical → Option (List ℕ) → Session → Meeting → Result (ℕ × Session)
resolve write extent p content s (shares i) = ok (i, join i s)
resolve write extent p content s overlaps = err (busy "overlapping storage write is still retained")
resolve write extent p content s free = with_slot write extent p content s

-- The admission of an extent of a file, with the lock held.
unfoldable pub admit :
    Write → RegisteredFile → Extent → Physical → Option (List ℕ) → Session → Result (ℕ × Session)
unfolding look with_slot
admit write file extent p content s =
    is_open s >> resolve write extent p content s (look s.files file extent 0 s.slots)

abbrev pub submit_to :
    Write → Extent → Option (List ℕ) → Session → Option RegisteredFile → Result (ℕ × Session)
submit_to write extent content s none = err (message "unregistered file index")
submit_to write extent content s (some file) =
    refuse_if (lacks_access file extent) bad_descriptor
    >> (physical extent file.bytes file.alignment s.slot_bytes >>= λ p.
        admit write file extent p content s)

-- `StorageSession::submit`
unfoldable pub submit : Write → Extent → Option (List ℕ) → Session → Result (ℕ × Session)
unfolding admit physical
submit write extent content s = submit_to write extent content s (get_elem? s.files extent.file)

-- `StorageSession::read`
unfoldable pub read : Write → ℕ → ℕ → ℕ → Session → Result (ℕ × Session)
unfolding submit
read write file offset bytes s =
    submit write (record { file = file; offset = offset; bytes = bytes; writing = false }) none s

-- `StorageSession::write`
unfoldable pub write_file : Write → ℕ → ℕ → List ℕ → Session → Result (ℕ × Session)
unfolding submit
write_file write file offset content s =
    submit write (record { file = file; offset = offset; bytes = length content; writing = true })
      (some content) s
