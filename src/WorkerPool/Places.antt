-- ===== src/WorkerPool/Places.antt =====
-- The places of a file in the pool, counted, and what the queue operations do to the counts.
use vycor_cpp.Prelude.{
  ℕ, ◌+◌, ◌/◌, ◌<◌, ◌≡◌, refl, ap, subst, ◌∙◌, inl, inr, true, false, List, [], ◌∷◌, ◌++◌,
  append-nil, length, take, drop, take-append-drop, list_eq, list_eq→eq, Bool-cases, arith,
}
use vycor_cpp.WorkerPool.{
  Name, Batch, WorkerFailure, BatchResult, Pool, mem, others, sift, blame, enqueue, requeue, poison,
  split_batch,
}
use vycor_cpp.WorkerPool.Requeue.{
  count, count-append, sift-count, files_of, files_of-append, files_of_results,
  files_of_results-append,
}

-- The names that were given up.
unfoldable pub names : List (Name × WorkerFailure) → List Name
names [] = []
names ((tu, why) ∷ l) = tu ∷ names l

names-append :
    (x : Name) (l m : List (Name × WorkerFailure))
    → count x (names (l ++ m)) ≡ count x (names l) + count x (names m)
unfolding names count
names-append x [] m = omega arith
names-append x ((tu, why) ∷ l) m = ground (arith, names-append x l m)

names-blame :
    (x : Name) (why : WorkerFailure) (l : List Name) → count x (names (blame why l)) ≡ count x l
unfolding names blame count
names-blame x why [] = refl
names-blame x why (tu ∷ l) = ground (arith, names-blame x why l)

-- How often a file is settled: absorbed, abandoned or poisoned.
unfoldable pub settled : Name → Pool → ℕ
settled x p =
    count x (files_of p.absorbed) + count x (files_of p.abandoned) + count x (names p.poisoned)

-- How often a file is pending.
unfoldable pub pending : Name → Pool → ℕ
pending x p =
    count x (files_of p.work) + count x (files_of p.running) + count x (files_of_results p.results)

unfoldable pub total : Name → Pool → ℕ
unfolding settled pending
total x p = settled x p + pending x p

pub count-files_of-append :
    (x : Name) (bs cs : List Batch)
    → count x (files_of (bs ++ cs)) ≡ count x (files_of bs) + count x (files_of cs)
count-files_of-append x bs cs =
    ap (count x) (files_of-append bs cs) ∙ count-append x (files_of bs) (files_of cs)

pub count-files_of-cons :
    (x : Name) (b : Batch) (bs : List Batch)
    → count x (files_of (b ∷ bs)) ≡ count x b + count x (files_of bs)
unfolding files_of
count-files_of-cons x b bs = count-append x b (files_of bs)

pub count-files_of-one : (x : Name) (b : Batch) → count x (files_of (b ∷ [])) ≡ count x b
unfolding files_of
count-files_of-one x b = ap (count x) (append-nil b)

pub count-results-append :
    (x : Name) (rs : List BatchResult) (res : BatchResult)
    → count x (files_of_results (rs ++ (res ∷ [])))
      ≡ count x (files_of_results rs) + count x res.batch
unfolding files_of_results
count-results-append x rs res =
    ap (count x) (files_of_results-append rs (res ∷ []))
    ∙ count-append x (files_of_results rs) (res.batch ++ [])
    ∙ ap (λ l. count x (files_of_results rs) + count x l) (append-nil res.batch)

enqueue-total : (x : Name) (b : Batch) (p : Pool) → total x (enqueue b p) ≡ total x p + count x b
unfolding enqueue total count
enqueue-total x [] p = omega arith
enqueue-total x (y ∷ ys) p =
    omega (arith, count-files_of-append x p.work ((y ∷ ys) ∷ []), count-files_of-one x (y ∷ ys))

pub requeue-total :
    (x : Name) (tus : List Name) (why : WorkerFailure) (p : Pool)
    → total x (requeue tus why p) ≡ total x p + count x tus
unfolding requeue
requeue-total x tus why p = omega (
  arith,
  enqueue-total x (sift tus p.retries).0 (record p {
    retries = (sift tus p.retries).1;
    poisoned = p.poisoned ++ blame why (sift tus p.retries).2;
  }),
  blamed,
  sift-count x tus p.retries,
)
  where
    blamed :
        total x (record p {
          retries = (sift tus p.retries).1;
          poisoned = p.poisoned ++ blame why (sift tus p.retries).2;
        })
        ≡ total x p + count x (sift tus p.retries).2
    blamed =
        unfold total in
        omega (
          arith,
          names-append x p.poisoned (blame why (sift tus p.retries).2),
          names-blame x why (sift tus p.retries).2,
        )

pub poison-total :
    (x m : Name) (why : WorkerFailure) (p : Pool)
    → total x (poison m why p) ≡ total x p + count x (m ∷ [])
unfolding poison total
poison-total x m why p = omega (arith, names-append x p.poisoned ((m, why) ∷ []), names_one)
  where
    names_one : count x (names ((m, why) ∷ [])) ≡ count x (m ∷ [])
    names_one = unfold names in refl

pub split_batch-total :
    (x : Name) (why : WorkerFailure) (b : Batch) (p : Pool)
    → total x (split_batch why b p) ≡ total x p + count x b
unfolding split_batch
split_batch-total x why [] p = unfold count in omega arith
split_batch-total x why (y ∷ []) p = poison-total x y why p
split_batch-total x why (y ∷ z ∷ ys) p =
    let b = y ∷ z ∷ ys in
    let mid = length b / 2 in
    omega (
      arith,
      requeue-total x (take mid b) why p,
      requeue-total x (drop mid b) why (requeue (take mid b) why p),
      count-append x (take mid b) (drop mid b),
      ap (count x) (take-append-drop mid b),
    )

pub count_none : (m : Name) (b : Batch) → count m (others m b) ≡ 0
unfolding others count
count_none m [] = refl
count_none m (y ∷ ys) = elim (Bool-cases (list_eq m y)) [
  | inl e ↦ rw e (count_none m ys)
  | inr e ↦ rw (e, e) (count_none m ys)
]

pub count_some : (m : Name) (b : Batch) → mem m b ≡ true → 0 < count m b
unfolding mem count
count_some m [] h = cc h
count_some m (y ∷ ys) h = ground (arith, count_some m ys)

pub count_other : (x m : Name) (b : Batch) → list_eq x m ≡ false → count x (others m b) ≡ count x b
unfolding others count
count_other x m [] h = refl
count_other x m (y ∷ ys) h = elim (Bool-cases (list_eq m y)) [
  | inl e ↦
      let differ : list_eq x y ≡ false = subst (λ z. list_eq x z ≡ false) (list_eq→eq m y e) h in
      rw (e, differ) (count_other x m ys h)
  | inr e ↦ rw e (ground (arith, count_other x m ys h))
]
