-- ===== src/WorkerPool/Rules.antt =====
-- A rule for the parent's round: what holds after each of its outcomes holds after it.
use vycor_cpp.Prelude.{Bool, true, false, inl, inr, Bool-cases, if◌then◌else◌, [], ◌∷◌, ◌++◌}
use vycor_cpp.Prelude.Int.{ℤ, pos, negsuc}
use vycor_cpp.WorkerPool.{
  Pool, BatchResult, int_eq, worker_interrupted, handle_failure, handle_result,
}

pub handle_result-cases {κ} :
    (readable : Bool) (res : BatchResult) (p : Pool) (P : Pool → Type κ)
    → P (record p { absorbed = p.absorbed ++ (res.batch ∷ []) })
    → P (record p { abandoned = p.abandoned ++ (res.batch ∷ []) })
    → ((code : ℤ) → P (handle_failure (record res { exit_code = code }) p))
    → P (handle_result readable res p)
unfolding handle_result
handle_result-cases readable res p P absorb abandon fail =
    elim (Bool-cases (int_eq res.exit_code (pos 0))) [
      | inl e ↦ simp e (by_reading readable)
      | inr e ↦ elim (Bool-cases (int_eq res.exit_code worker_interrupted)) [
        | inl f ↦ simp (e, f) abandon
        | inr f ↦ simp (e, f) (fail res.exit_code)
      ]
    ]
  where
    by_reading :
        (b : Bool)
        → P (
            if b
            then record p { absorbed = p.absorbed ++ (res.batch ∷ []) }
            else handle_failure (record res { exit_code = negsuc 0 }) p)
    by_reading true = absorb
    by_reading false = fail (negsuc 0)
