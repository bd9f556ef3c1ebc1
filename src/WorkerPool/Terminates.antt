-- ===== src/WorkerPool/Terminates.antt =====
-- Why the dispatch ends: every batch that is tried again has lost a try.
use vycor_cpp.Prelude.{
  ℕ, zero, suc, ◌+◌, ◌-◌, ◌*◌, ◌/◌, ◌≤◌, ◌<◌, ◌≡◌, refl, ap, ◌∙◌, Bool, Option, none, some, List,
  [], ◌∷◌, ◌++◌, append-nil, length, take, drop, length-append, length-drop, take-append-drop,
  arith,
}
use vycor_cpp.WorkerPool.{
  Name, Batch, WorkerFailure, crashed, BatchResult, Pool, others, sift, blame, enqueue, requeue,
  poison, failure_of, split_batch, handle_failure, handle_marker, marker_in, handle_result, Step,
  start, finish, handle, Steps, here, next, make_batches, batch_size_of, worker_count, init,
}
use vycor_cpp.WorkerPool.Rules.{handle_result-cases}
use vycor_cpp.WorkerPool.Requeue.{
  weight, weight-append, weight-le, Grows, sift-Grows, sift-weight, files_of, files_of-append,
  files_of_results, files_of_results-append,
}

-- The tries that are left in the pool.
tries : Pool → ℕ
tries p =
    weight p.retries (files_of p.work)
    + weight p.retries (files_of p.running)
    + weight p.retries (files_of_results p.results)

-- Three for each try, and what each batch has before it.
measure : Pool → ℕ
measure p = 3 * tries p + 3 * length p.work + 2 * length p.running + length p.results

requeue-Grows :
    (tus : List Name) (why : WorkerFailure) (p : Pool) → Grows p.retries (requeue tus why p).retries
unfolding requeue enqueue
requeue-Grows tus why p j =
    elim (sift tus p.retries).0
      as (λ k.
        p.retries j
        ≤ (enqueue k (record p {
          retries = (sift tus p.retries).1;
          poisoned = p.poisoned ++ blame why (sift tus p.retries).2;
        })).retries
            j) [ [] ↦ sift-Grows tus p.retries j | x ∷ xs ↦ sift-Grows tus p.retries j ]

weight-files_of_one : (r : Name → ℕ) (b : Batch) → weight r (files_of (b ∷ [])) ≡ weight r b
unfolding files_of
weight-files_of_one r b = ap (weight r) (append-nil b)

enqueue-measure :
    (b : Batch) (p : Pool)
    → measure (enqueue b p) ≤ measure p + 3 * weight p.retries b + 3 * length b
unfolding enqueue measure tries
enqueue-measure [] p = omega arith
enqueue-measure (x ∷ xs) p =
    rw
      (
        files_of-append p.work ((x ∷ xs) ∷ []),
        weight-append p.retries (files_of p.work) (files_of ((x ∷ xs) ∷ [])),
        length-append p.work ((x ∷ xs) ∷ []),
        weight-files_of_one p.retries (x ∷ xs),
      )
      (omega arith)

-- Fewer tries are left when the counts have grown.
count-measure :
    (p : Pool) (r : Name → ℕ) (gone : List (Name × WorkerFailure))
    → Grows p.retries r
    → measure (record p { retries = r; poisoned = gone }) ≤ measure p
unfolding measure tries
count-measure p r gone g = omega (
  arith,
  weight-le p.retries r (files_of p.work) g,
  weight-le p.retries r (files_of p.running) g,
  weight-le p.retries r (files_of_results p.results) g,
)

requeue-measure :
    (tus : List Name) (why : WorkerFailure) (p : Pool)
    → measure (requeue tus why p) ≤ measure p + 3 * weight p.retries tus
unfolding requeue
requeue-measure tus why p =
    let after = (sift tus p.retries).1 in
    let gone = p.poisoned ++ blame why (sift tus p.retries).2 in
    omega (
      arith,
      count-measure p after gone (sift-Grows tus p.retries),
      enqueue-measure (sift tus p.retries).0 (record p { retries = after; poisoned = gone }),
      sift-weight tus p.retries,
    )

split_batch-measure :
    (why : WorkerFailure) (b : Batch) (p : Pool)
    → measure (split_batch why b p) ≤ measure p + 3 * weight p.retries b
unfolding split_batch
split_batch-measure why [] p = omega arith
split_batch-measure why (x ∷ []) p = unfold poison measure tries in omega arith
split_batch-measure why (x ∷ y ∷ xs) p =
    let b = x ∷ y ∷ xs in
    let mid = length b / 2 in
    let q = requeue (take mid b) why p in
    omega (
      arith,
      requeue-measure (take mid b) why p,
      requeue-measure (drop mid b) why q,
      weight-le p.retries q.retries (drop mid b) (requeue-Grows (take mid b) why p),
      weight-append p.retries (take mid b) (drop mid b),
      ap (weight p.retries) (take-append-drop mid b),
    )

weight-others : (r : Name → ℕ) (m : Name) (b : Batch) → weight r (others m b) ≤ weight r b
unfolding weight others
weight-others r m [] = omega arith
weight-others r m (x ∷ xs) = ground (arith, weight-others r m xs)

poison-measure :
    (m : Name) (why : WorkerFailure) (p : Pool)
    → (measure (poison m why p) ≡ measure p) × ((poison m why p).retries ≡ p.retries)
unfolding poison measure tries
poison-measure m why p = (refl, refl)

handle_marker-measure :
    (marker : Option Name) (why : WorkerFailure) (b : Batch) (p : Pool)
    → measure (handle_marker marker why b p) ≤ measure p + 3 * weight p.retries b
unfolding handle_marker poison
handle_marker-measure none why b p = split_batch-measure why b p
handle_marker-measure (some m) why b p = omega (
  arith,
  requeue-measure (others m b) crashed (poison m why p),
  poison-measure m why p,
  weight-others p.retries m b,
)

handle_failure-measure :
    (res : BatchResult) (p : Pool)
    → measure (handle_failure res p) ≤ measure p + 3 * weight p.retries res.batch
unfolding handle_failure
handle_failure-measure res p =
    handle_marker-measure (marker_in res.marker res.batch) (failure_of res.exit_code) res.batch p

handle_result-measure :
    (readable : Bool) (res : BatchResult) (p : Pool)
    → measure (handle_result readable res p) ≤ measure p + 3 * weight p.retries res.batch
handle_result-measure readable res p =
    handle_result-cases readable res p (λ q. measure q ≤ measure p + 3 * weight p.retries res.batch)
      (unfold measure tries in omega arith) (unfold measure tries in omega arith)
      (λ code. handle_failure-measure (record res { exit_code = code }) p)

weight-files_of-cons :
    (r : Name → ℕ) (b : Batch) (bs : List Batch)
    → weight r (files_of (b ∷ bs)) ≡ weight r b + weight r (files_of bs)
unfolding files_of
weight-files_of-cons r b bs = weight-append r b (files_of bs)

weight-files_of_results-one :
    (r : Name → ℕ) (res : BatchResult) → weight r (files_of_results (res ∷ [])) ≡ weight r res.batch
unfolding files_of_results
weight-files_of_results-one r res = ap (weight r) (append-nil res.batch)

handle-measure :
    (p : Pool) (res : BatchResult) (rest : List BatchResult)
    → p.results ≡ res ∷ rest
    → measure (record p { results = rest; outstanding = p.outstanding - 1 })
        + 3 * weight p.retries res.batch
      < measure p
unfolding measure tries files_of_results
handle-measure p res rest e = omega (
  arith,
  ap length e,
  ap (λ l. weight p.retries (files_of_results l)) e,
  weight-append p.retries res.batch (files_of_results rest),
)

-- Every step leaves less to do.
Step-measure : {workers : ℕ} {p q : Pool} → Step workers p q → measure q < measure p
Step-measure (start p b rest e few) =
    unfold measure tries files_of in
    omega (
      arith,
      ap length e,
      ap (λ l. weight p.retries (files_of l)) e,
      weight-append p.retries b (files_of rest),
      weight-append p.retries b (files_of p.running),
    )
Step-measure (finish p before b after code marker e) =
    unfold measure tries in
    omega (
      arith,
      ap length e,
      ap (λ l. weight p.retries (files_of l)) e,
      ap (weight p.retries) (files_of-append before (b ∷ after)),
      ap (weight p.retries) (files_of-append before after),
      weight-append p.retries (files_of before) (files_of (b ∷ after)),
      weight-append p.retries (files_of before) (files_of after),
      weight-files_of-cons p.retries b after,
      length-append before (b ∷ after),
      length-append before after,
      length-append p.results (res ∷ []),
      ap (weight p.retries) (files_of_results-append p.results (res ∷ [])),
      weight-append p.retries (files_of_results p.results) (files_of_results (res ∷ [])),
      weight-files_of_results-one p.retries res,
    )
  where
    res : BatchResult
    res = record { batch = b; exit_code = code; marker = marker }
Step-measure (handle p res rest readable e) = omega (
  arith,
  handle_result-measure readable res (record p { results = rest; outstanding = p.outstanding - 1 }),
  handle-measure p res rest e,
)

Steps-measure : {workers n : ℕ} {p q : Pool} → Steps workers n p q → n + measure q ≤ measure p
Steps-measure here = omega arith
Steps-measure (next s r) = omega (arith, Step-measure s, Steps-measure r)

length-make_batches :
    (fuel size : ℕ) (files : List Name) → length (make_batches fuel size files) ≤ fuel
unfolding make_batches
length-make_batches zero size files = omega arith
length-make_batches (suc fuel) size [] = omega arith
length-make_batches (suc fuel) size (f ∷ files) =
    omega (arith, length-make_batches fuel size (drop size (f ∷ files)))

-- The batches are the files, in their order.
pub files_of-make_batches :
    (fuel size : ℕ) (files : List Name)
    → 0 < size
    → length files ≤ fuel
    → files_of (make_batches fuel size files) ≡ files
unfolding make_batches files_of
files_of-make_batches zero size [] pos_size h = refl
files_of-make_batches zero size (f ∷ files) pos_size h = absurd (omega arith)
files_of-make_batches (suc fuel) size [] pos_size h = refl
files_of-make_batches (suc fuel) size (f ∷ files) pos_size h =
    ap (λ r. take size (f ∷ files) ++ r)
      (files_of-make_batches fuel size (drop size (f ∷ files)) pos_size
        (omega (arith, length-drop size (f ∷ files))))
    ∙ take-append-drop size (f ∷ files)

pub worker_count-pos : (workers files : ℕ) → 0 < worker_count workers files
unfolding worker_count
worker_count-pos workers files = ground arith

pub batch_size_of-pos : (override files workers : ℕ) → 0 < batch_size_of override files workers
unfolding batch_size_of
batch_size_of-pos override files workers = ground arith

weight_start : (files : List Name) → weight (λ tu. 0) files ≡ 3 * length files
unfolding weight
weight_start [] = omega arith
weight_start (f ∷ files) = omega (arith, weight_start files)

pub files_of-init :
    (files : List Name) (workers override : ℕ) → files_of (init files workers override).work ≡ files
unfolding init
files_of-init files workers override =
    files_of-make_batches (length files)
      (batch_size_of override (length files) (worker_count workers (length files))) files
      (batch_size_of-pos override (length files) (worker_count workers (length files)))
      (omega arith)

init-measure :
    (files : List Name) (workers override : ℕ)
    → measure (init files workers override) ≤ 12 * length files
unfolding measure tries init weight files_of files_of_results
init-measure files workers override = omega (
  arith,
  length-make_batches (length files)
      (batch_size_of override (length files) (worker_count workers (length files))) files,
  ap (weight (λ tu. 0)) (files_of-init files workers override),
  weight_start files,
)

-- Any sequence of steps of the dispatcher from the start has at most twelve steps for each file,
-- whatever the workers do.
pub dispatch_bound :
    {n : ℕ} {q : Pool} (files : List Name) (workers override : ℕ)
    → Steps (worker_count workers (length files)) n (init files workers override) q
    → n ≤ 12 * length files
dispatch_bound files workers override run =
    omega (arith, Steps-measure run, init-measure files workers override)
