-- ===== src/WorkerPool/Accounts.antt =====
-- Where each file is: queued, running, in a result, absorbed, poisoned or abandoned, and in one of these.
use vycor_cpp.Prelude.{
  ℕ, ◌+◌, ◌-◌, ◌≤◌, ◌≡◌, refl, sym, ap, subst, ◌∙◌, ◌⊎◌, inl, inr, Bool, true, Option, none, some,
  List, [], ◌∷◌, length, list_eq, list_eq→eq, Bool-cases, arith,
}
use vycor_cpp.WorkerPool.{
  Name, Batch, WorkerFailure, crashed, BatchResult, Pool, mem, others, poison, failure_of,
  handle_failure, handle_marker, marker_in, handle_result, Step, start, finish, handle, Steps, here,
  next, worker_count, init,
}
use vycor_cpp.WorkerPool.Rules.{handle_result-cases}
use vycor_cpp.WorkerPool.Requeue.{count, count-append, files_of, files_of_results}
use vycor_cpp.WorkerPool.Terminates.{files_of-init}
use vycor_cpp.WorkerPool.Places.{
  names, settled, pending, total, count-files_of-append, count-files_of-cons, count-files_of-one,
  count-results-append, requeue-total, poison-total, split_batch-total, count_none, count_some,
  count_other,
}

-- Without its marked file a batch holds every other file as often.
count-others :
    (x m : Name) (b : Batch)
    → mem m b ≡ true
    → count m b ≤ 1
    → count x (others m b) + count x (m ∷ []) ≡ count x b
unfolding count
count-others x m b h k = elim (Bool-cases (list_eq x m)) [
  | inl e ↦
      let same = list_eq→eq x m e in
      rw (e, same) (omega (arith, count_none m b, count_some m b h, same_count same))
  | inr e ↦ rw e (omega (arith, count_other x m b e))
]
  where
    same_count : x ≡ m → count x b ≡ count m b
    same_count e = ap (λ z. count z b) e

marker_in-cases :
    (marker : Option Name) (b : Batch)
    → (marker_in marker b ≡ none) ⊎ ((m : Name) × (marker_in marker b ≡ some m) × (mem m b ≡ true))
unfolding marker_in
marker_in-cases none b = inl refl
marker_in-cases (some m) b = elim (Bool-cases (mem m b)) [
  | inl e ↦ inr (m, rw e refl, e)
  | inr e ↦ inl (rw e refl)
]

handle_failure-total :
    (x : Name) (res : BatchResult) (p : Pool)
    → ((m : Name) → count m res.batch ≤ 1)
    → total x (handle_failure res p) ≡ total x p + count x res.batch
unfolding handle_failure
handle_failure-total x res p once = elim (marker_in-cases res.marker res.batch) [
  | inl e ↦
      subst (λ k. total x (handle_marker k why res.batch p) ≡ total x p + count x res.batch) (sym e)
        (unfold handle_marker in split_batch-total x why res.batch p)
  | inr (m, e, here_m) ↦
      subst (λ k. total x (handle_marker k why res.batch p) ≡ total x p + count x res.batch) (sym e)
        (unfold handle_marker in
          omega (
            arith,
            requeue-total x (others m res.batch) crashed (poison m why p),
            poison-total x m why p,
            count-others x m res.batch here_m (once m),
          ))
]
  where
    why : WorkerFailure
    why = failure_of res.exit_code

handle_result-total :
    (x : Name) (readable : Bool) (res : BatchResult) (p : Pool)
    → ((m : Name) → count m res.batch ≤ 1)
    → total x (handle_result readable res p) ≡ total x p + count x res.batch
handle_result-total x readable res p once =
    handle_result-cases readable res p (λ q. total x q ≡ total x p + count x res.batch)
      (unfold total in
        omega (
          arith,
          count-files_of-append x p.absorbed (res.batch ∷ []),
          count-files_of-one x res.batch,
        ))
      (unfold total in
        omega (
          arith,
          count-files_of-append x p.abandoned (res.batch ∷ []),
          count-files_of-one x res.batch,
        ))
      (λ code. handle_failure-total x (record res { exit_code = code }) p once)

take-total :
    (x : Name) (p : Pool) (res : BatchResult) (rest : List BatchResult)
    → p.results ≡ res ∷ rest
    → total x (record p { results = rest; outstanding = p.outstanding - 1 }) + count x res.batch
      ≡ total x p
unfolding total files_of_results
take-total x p res rest e = omega (
  arith,
  ap (λ l. count x (files_of_results l)) e,
  count-append x res.batch (files_of_results rest),
)

-- A step moves files between the places, and loses or doubles none.
Step-total :
    {workers : ℕ} {p q : Pool}
    → Step workers p q
    → ((m : Name) → total m p ≤ 1)
    → (x : Name) → total x q ≡ total x p
Step-total (start p b rest e few) once x =
    unfold total in
    omega (
      arith,
      ap (λ l. count x (files_of l)) e,
      count-files_of-cons x b rest,
      count-files_of-cons x b p.running,
    )
Step-total (finish p before b after code marker e) once x =
    unfold total in
    omega (
      arith,
      ap (λ l. count x (files_of l)) e,
      count-files_of-append x before (b ∷ after),
      count-files_of-append x before after,
      count-files_of-cons x b after,
      count-results-append x p.results (record { batch = b; exit_code = code; marker = marker }),
    )
Step-total (handle p res rest readable e) once x = omega (
  arith,
  handle_result-total x readable res (record p { results = rest; outstanding = p.outstanding - 1 })
      (λ m. omega (arith, take-total m p res rest e, once m)),
  take-total x p res rest e,
)

Steps-total :
    {workers n : ℕ} {p q : Pool}
    → Steps workers n p q
    → ((m : Name) → total m p ≤ 1)
    → (x : Name) → total x q ≡ total x p
Steps-total here once x = refl
Steps-total (next s r) once x =
    Steps-total r (λ m. omega (arith, Step-total s once m, once m)) x ∙ Step-total s once x

init-total :
    (x : Name) (files : List Name) (workers override : ℕ)
    → total x (init files workers override) ≡ count x files
unfolding total init files_of files_of_results names count
init-total x files workers override =
    omega (arith, ap (count x) (files_of-init files workers override))

-- If no file is listed twice, then in every state that is reached the places of each file (queued,
-- running, in a result, absorbed, given up, abandoned) count as often as it is listed.
pub files_accounted :
    {n : ℕ} {q : Pool} (files : List Name) (workers override : ℕ)
    → ((x : Name) → count x files ≤ 1)
    → Steps (worker_count workers (length files)) n (init files workers override) q
    → (x : Name) → settled x q + pending x q ≡ count x files
files_accounted files workers override once run x =
    unfold total in Steps-total run (λ m. omega (arith, at_start m, once m)) x ∙ at_start x
  where
    at_start : (m : Name) → total m (init files workers override) ≡ count m files
    at_start m = init-total m files workers override
