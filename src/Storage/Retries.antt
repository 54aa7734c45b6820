-- ===== src/Storage/Retries.antt =====
-- src/storage/mod.rs: the loop of `Worker::execute`, which retries what a native request left undone. What
-- a batch returns is a parameter, by the number of the round and its attempts.
use hrx_rs.Common.{
  ℕ, zero, suc, ◌+◌, ◌^◌, ◌%◌, Bool, true, false, ◌||◌, Option, none, some, List, [], ◌∷◌, ◌++◌,
  map, if◌then◌else◌, ltb, leb, ◌==◌, get_elem?, set,
}
use hrx_rs.Common.Int.{ℤ, pos, negsuc, sub_ℕ}
use hrx_rs.Common.Errors.{Result, ok, err}
use hrx_rs.Storage.{RegisteredFile, is_ragged}
use hrx_rs.Storage.Session.{Request}
use hrx_rs.Storage.Service.{required}

-- An attempt is a request and the bytes of it that are done.
abbrev pub Batch : Type 0
Batch = ℕ → List (Request × ℕ) → Result (List ℤ)

-- An index out of bounds would panic; the indices are those of the jobs.
abbrev pub nth : List ℕ → ℕ → ℕ
nth values i = elim (get_elem? values i) [ none ↦ 0 | some n ↦ n ]

-- `n as i32`
abbrev pub as_i32 : ℕ → ℤ
as_i32 n = let low = n % 2 ^ 32 in if ltb low (2 ^ 31) then pos low else sub_ℕ low (2 ^ 32)

pub record Pass : Type 0 where
  pub completed : List ℕ
  pub results : List ℤ
  pub retry : List ℕ
  pub failed : Bool

abbrev pub alignment_of : List RegisteredFile → ℕ → ℕ
alignment_of files i = elim (get_elem? files i) [ none ↦ 1 | some f ↦ f.alignment ]

-- What follows for a request that is done, or that cannot be retried, or that can.
abbrev pub verdict : Bool → Bool → Bool → ℕ → Pass → Pass
verdict done stuck writing i st =
    if done
    then st
    else if stuck
    then record st {
      results = if writing then set st.results i (negsuc 4) else st.results;
      failed = true;
    }
    else record st { retry = st.retry ++ i ∷ [] }

-- `c` bytes of a request are done, the last `n` of them in this round.
abbrev pub judge : List RegisteredFile → Request → ℕ → ℕ → ℕ → Pass → Pass
judge files job i n c st =
    verdict (leb (required job) c) ((n == 0) || is_ragged (alignment_of files job.extent.file) c)
      job.extent.writing i st

abbrev pub visit_job : List RegisteredFile → Option Request → ℕ → ℤ → Pass → Pass
visit_job files none i result st = st
visit_job files (some job) i (negsuc n) st = record st {
  results = set st.results i (negsuc n);
  failed = true;
}
visit_job files (some job) i (pos n) st =
    let c = nth st.completed i + n in
    judge files job i n c
      (record st { completed = set st.completed i c; results = set st.results i (as_i32 c) })

-- The loop over the results of a batch.
unfoldable pub visit_all : List RegisteredFile → List Request → List ℕ → List ℤ → Pass → Pass
visit_all files jobs [] results st = st
visit_all files jobs (i ∷ remaining) [] st = st
visit_all files jobs (i ∷ remaining) (result ∷ results) st =
    visit_all files jobs remaining results (visit_job files (get_elem? jobs i) i result st)

abbrev pub attempts_of : List Request → List ℕ → List ℕ → List (Request × ℕ)
attempts_of jobs completed [] = []
attempts_of jobs completed (i ∷ remaining) =
    let later = attempts_of jobs completed remaining in
    elim (get_elem? jobs i) [ none ↦ later | some job ↦ (job, nth completed i) ∷ later ]

-- A round of the while loop over what the batch has returned.
abbrev pub run_pass : List RegisteredFile → List Request → List ℕ → List ℤ → List ℕ → List ℤ → Pass
run_pass files jobs completed results remaining returned =
    visit_all files jobs remaining returned
      (record { completed = completed; results = results; retry = []; failed = false })

-- The while loop; `none` is a loop that ran out of fuel.
unfoldable pub retry_loop :
    List RegisteredFile
    → Batch
    → List Request
    → ℕ
    → ℕ
    → List ℕ
    → List ℤ
    → List ℕ
    → Option (Result (List ℤ))
unfolding visit_all
retry_loop files batch jobs zero k completed results remaining = none
retry_loop files batch jobs (suc fuel) k completed results [] = some (ok results)
retry_loop files batch jobs (suc fuel) k completed results (i ∷ more) =
    elim (batch k (attempts_of jobs completed (i ∷ more))) [
      | err e ↦ some (err e)
      | ok returned ↦
          let done = run_pass files jobs completed results (i ∷ more) returned in
          let rest =
            retry_loop files batch jobs fuel (k + 1) done.completed done.results done.retry in
          if done.failed then some (ok done.results) else rest
    ]

abbrev pub count_up : ℕ → List Request → List ℕ
count_up i [] = []
count_up i (job ∷ jobs) = i ∷ count_up (i + 1) jobs

-- `Worker::execute`, with as many rounds as a slot has bytes and two more.
unfoldable pub execute : List RegisteredFile → Batch → List Request → ℕ → Option (Result (List ℤ))
unfolding retry_loop
execute files batch jobs slot_bytes =
    retry_loop files batch jobs (slot_bytes + 2) 0 (map (λ job. 0) jobs) (map (λ job. pos 0) jobs)
      (count_up 0 jobs)
