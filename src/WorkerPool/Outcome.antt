-- ===== src/WorkerPool/Outcome.antt =====
-- The count of outstanding batches, and what the parent loop may conclude when it is zero.
use vycor_cpp.Prelude.{
  ℕ, ◌+◌, ◌-◌, ◌/◌, ◌≤◌, ◌<◌, ◌≡◌, refl, ap, inl, inr, Bool, true, Option, none, some, List, [],
  ◌∷◌, ◌++◌, length, take, drop, length-append, List-cases, arith,
}
use vycor_cpp.Prelude.Int.{pos}
use vycor_cpp.WorkerPool.{
  Name, Batch, WorkerFailure, crashed, BatchResult, Pool, others, sift, blame, enqueue, requeue,
  poison, failure_of, split_batch, handle_failure, handle_marker, marker_in, handle_result, Step,
  start, finish, handle, Steps, here, next, worker_count, init,
}
use vycor_cpp.WorkerPool.Rules.{handle_result-cases}
use vycor_cpp.WorkerPool.Requeue.{count, files_of, files_of_results}
use vycor_cpp.WorkerPool.Places.{settled, pending}
use vycor_cpp.WorkerPool.Accounts.{files_accounted}
use vycor_cpp.WorkerPool.Terminates.{worker_count-pos}

-- `outstanding` is the number of batches that are queued, running or finished.
abbrev pub IsCounted : Pool → Type 0
IsCounted p = p.outstanding ≡ length p.work + length p.running + length p.results

enqueue-IsCounted : (b : Batch) (p : Pool) → IsCounted p → IsCounted (enqueue b p)
unfolding enqueue
enqueue-IsCounted [] p h = h
enqueue-IsCounted (x ∷ xs) p h = omega (arith, length-append p.work ((x ∷ xs) ∷ []))

requeue-IsCounted :
    (tus : List Name) (why : WorkerFailure) (p : Pool) → IsCounted p → IsCounted (requeue tus why p)
unfolding requeue
requeue-IsCounted tus why p h =
    enqueue-IsCounted (sift tus p.retries).0
      (record p {
        retries = (sift tus p.retries).1;
        poisoned = p.poisoned ++ blame why (sift tus p.retries).2;
      })
      h

split_batch-IsCounted :
    (why : WorkerFailure) (b : Batch) (p : Pool) → IsCounted p → IsCounted (split_batch why b p)
unfolding split_batch poison
split_batch-IsCounted why [] p h = h
split_batch-IsCounted why (x ∷ []) p h = h
split_batch-IsCounted why (x ∷ y ∷ xs) p h =
    let b = x ∷ y ∷ xs in
    requeue-IsCounted (drop (length b / 2) b) why (requeue (take (length b / 2) b) why p)
      (requeue-IsCounted (take (length b / 2) b) why p h)

handle_marker-IsCounted :
    (marker : Option Name) (why : WorkerFailure) (b : Batch) (p : Pool)
    → IsCounted p
    → IsCounted (handle_marker marker why b p)
unfolding handle_marker poison
handle_marker-IsCounted none why b p h = split_batch-IsCounted why b p h
handle_marker-IsCounted (some m) why b p h =
    requeue-IsCounted (others m b) crashed (poison m why p) h

handle_result-IsCounted :
    (readable : Bool) (res : BatchResult) (p : Pool)
    → IsCounted p
    → IsCounted (handle_result readable res p)
handle_result-IsCounted readable res p h = handle_result-cases readable res p IsCounted h h (λ code.
    unfold handle_failure in
    handle_marker-IsCounted (marker_in res.marker res.batch) (failure_of code) res.batch p h)

Step-IsCounted : {workers : ℕ} {p q : Pool} → Step workers p q → IsCounted p → IsCounted q
Step-IsCounted (start p b rest e few) h = omega (arith, ap length e)
Step-IsCounted (finish p before b after code marker e) h = omega (
  arith,
  ap length e,
  length-append before (b ∷ after),
  length-append before after,
  length-append p.results (record { batch = b; exit_code = code; marker = marker } ∷ []),
)
Step-IsCounted (handle p res rest readable e) h =
    handle_result-IsCounted readable res
      (record p { results = rest; outstanding = p.outstanding - 1 }) (omega (arith, ap length e))

Steps-IsCounted : {workers n : ℕ} {p q : Pool} → Steps workers n p q → IsCounted p → IsCounted q
Steps-IsCounted here h = h
Steps-IsCounted (next s r) h = Steps-IsCounted r (Step-IsCounted s h)

init-IsCounted :
    (files : List Name) (workers override : ℕ) → IsCounted (init files workers override)
unfolding init
init-IsCounted files workers override = omega arith

-- In every state that is reached, the counter of outstanding batches is the number of batches that
-- are queued, running or in the results.
pub outstanding_counts :
    {n : ℕ} {q : Pool} (files : List Name) (workers override : ℕ)
    → Steps (worker_count workers (length files)) n (init files workers override) q
    → IsCounted q
outstanding_counts files workers override run =
    Steps-IsCounted run (init-IsCounted files workers override)

-- While a batch is outstanding the parent or a thread can go on.
IsCounted-progress :
    (workers : ℕ) (p : Pool)
    → 0 < workers
    → IsCounted p
    → 0 < p.outstanding
    → (q : Pool) × Step workers p q
IsCounted-progress workers p some_worker h busy = elim (List-cases p.results) [
  | inr (res, rest, e) ↦ (_, handle p res rest true e)
  | inl no_result ↦ elim (List-cases p.running) [
    | inr (b, after, e) ↦ (_, finish p [] b after (pos 0) none e)
    | inl idle ↦ elim (List-cases p.work) [
      | inr (b, rest, e) ↦ (_, start p b rest e (omega (arith, ap length idle)))
      | inl none_left ↦
          absurd (omega (arith, ap length idle, ap length none_left, ap length no_result))
    ]
  ]
]

-- In every state that is reached with a batch outstanding, some step is possible, so the parent
-- never waits for a result that cannot come.
pub dispatch_progress :
    {n : ℕ} {q : Pool} (files : List Name) (workers override : ℕ)
    → Steps (worker_count workers (length files)) n (init files workers override) q
    → 0 < q.outstanding
    → (r : Pool) × Step (worker_count workers (length files)) q r
dispatch_progress {q} files workers override run busy =
    IsCounted-progress (worker_count workers (length files)) q
      (worker_count-pos workers (length files)) (outstanding_counts files workers override run) busy

length-eq_zero {ℓ} : {A : Type ℓ} (xs : List A) → length xs ≡ 0 → xs ≡ []
length-eq_zero [] h = refl
length-eq_zero (x ∷ xs) h = absurd (omega arith)

IsCounted-pending : (x : Name) (p : Pool) → IsCounted p → p.outstanding ≡ 0 → pending x p ≡ 0
unfolding pending files_of files_of_results count
IsCounted-pending x p h done =
    let none_left = length-eq_zero p.work (omega arith) in
    let idle = length-eq_zero p.running (omega arith) in
    let no_result = length-eq_zero p.results (omega arith) in
    omega (
      arith,
      ap (λ l. count x (files_of l)) none_left,
      ap (λ l. count x (files_of l)) idle,
      ap (λ l. count x (files_of_results l)) no_result,
    )

-- If no file is listed twice, then in every state that any sequence of steps from the start leads
-- to, with no batch outstanding, each listed file has been absorbed, given up or abandoned exactly
-- once, whatever the workers did.
pub dispatch_settles :
    {n : ℕ} {q : Pool} (files : List Name) (workers override : ℕ)
    → ((x : Name) → count x files ≤ 1)
    → Steps (worker_count workers (length files)) n (init files workers override) q
    → q.outstanding ≡ 0
    → (x : Name) → settled x q ≡ count x files
dispatch_settles {q} files workers override once run done x = omega (
  arith,
  files_accounted files workers override once run x,
  IsCounted-pending x q (outstanding_counts files workers override run) done,
)
