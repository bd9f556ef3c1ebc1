-- ===== src/WorkerPool/Requeue.antt =====
-- What a batch that is tried again adds to the pool.
use vycor_cpp.Prelude.{
  ℕ, suc, ◌+◌, ◌-◌, ◌≤◌, ◌≡◌, refl, sym, ap, ◌∙◌, List, [], ◌∷◌, ◌++◌, append_assoc, length,
  list_eq, list_eq_refl, if◌then◌else◌, arith,
}
use vycor_cpp.WorkerPool.{Name, Batch, BatchResult, bump, sift}

-- How often a name stands in a list.
unfoldable pub count : Name → List Name → ℕ
count x [] = 0
count x (y ∷ ys) = let later = count x ys in if list_eq x y then suc later else later

pub count-append : (x : Name) (xs ys : List Name) → count x (xs ++ ys) ≡ count x xs + count x ys
unfolding count
count-append x [] ys = omega arith
count-append x (y ∷ xs) ys = ground (arith, count-append x xs ys)

-- The tries that are left.
unfoldable pub weight : (Name → ℕ) → List Name → ℕ
weight retries [] = 0
weight retries (tu ∷ tus) = (3 - retries tu) + weight retries tus

pub weight-append :
    (retries : Name → ℕ) (xs ys : List Name)
    → weight retries (xs ++ ys) ≡ weight retries xs + weight retries ys
unfolding weight
weight-append retries [] ys = omega arith
weight-append retries (x ∷ xs) ys = omega (arith, weight-append retries xs ys)

-- Counts only grow.
abbrev pub Grows : (Name → ℕ) → (Name → ℕ) → Type 0
Grows r r' = (tu : Name) → r tu ≤ r' tu

pub weight-le : (r r' : Name → ℕ) (xs : List Name) → Grows r r' → weight r' xs ≤ weight r xs
unfolding weight
weight-le r r' [] g = omega arith
weight-le r r' (x ∷ xs) g = omega (arith, g x, weight-le r r' xs g)

bump-Grows : (tu : Name) (r : Name → ℕ) → Grows r (bump tu r)
unfolding bump
bump-Grows tu r j = ground arith

bump_self : (tu : Name) (r : Name → ℕ) → bump tu r tu ≡ r tu + 1
unfolding bump
bump_self tu r = rw (list_eq_refl tu) refl

pub sift-Grows : (tus : List Name) (r : Name → ℕ) → Grows r (sift tus r).1
unfolding sift
sift-Grows [] r j = omega arith
sift-Grows (tu ∷ tus) r j = ground (arith, bump-Grows tu r j, sift-Grows tus (bump tu r) j)

-- A file that is tried again has a try fewer.
pub sift-weight :
    (tus : List Name) (r : Name → ℕ)
    → weight (sift tus r).1 (sift tus r).0 + length (sift tus r).0 ≤ weight r tus
unfolding sift weight
sift-weight [] r = omega arith
sift-weight (tu ∷ tus) r = ground (
  arith,
  bump_self tu r,
  sift-weight tus (bump tu r),
  weight-le r (bump tu r) tus (bump-Grows tu r),
  sift-Grows tus (bump tu r) tu,
)

-- Every name is kept or dropped.
pub sift-count :
    (x : Name) (tus : List Name) (r : Name → ℕ)
    → count x (sift tus r).0 + count x (sift tus r).2 ≡ count x tus
unfolding sift count
sift-count x [] r = refl
sift-count x (tu ∷ tus) r = ground (arith, sift-count x tus (bump tu r))

-- The files of some batches, and those of finished batches.
unfoldable pub files_of : List Batch → List Name
files_of [] = []
files_of (b ∷ bs) = b ++ files_of bs

unfoldable pub files_of_results : List BatchResult → List Name
files_of_results [] = []
files_of_results (res ∷ rs) = res.batch ++ files_of_results rs

pub files_of-append : (xs ys : List Batch) → files_of (xs ++ ys) ≡ files_of xs ++ files_of ys
unfolding files_of
files_of-append [] ys = refl
files_of-append (x ∷ xs) ys =
    ap (λ r. x ++ r) (files_of-append xs ys) ∙ sym (append_assoc x (files_of xs) (files_of ys))

pub files_of_results-append :
    (xs ys : List BatchResult)
    → files_of_results (xs ++ ys) ≡ files_of_results xs ++ files_of_results ys
unfolding files_of_results
files_of_results-append [] ys = refl
files_of_results-append (x ∷ xs) ys =
    ap (λ r. x.batch ++ r) (files_of_results-append xs ys)
    ∙ sym (append_assoc x.batch (files_of_results xs) (files_of_results ys))
