-- ===== src/WorkerPool/Tests.antt =====
-- One run in which a worker crashes: its marked file is given up, and the other is tried again.
use vycor_cpp.Prelude.{
  ◌+◌, ◌≤◌, ◌≡◌, refl, true, none, list_eq, some, List, [], ◌∷◌, length, list_eq→eq, arith,
}
use vycor_cpp.Prelude.Int.{pos, negsuc}
use vycor_cpp.WorkerPool.{
  Name, BatchResult, Pool, crashed, Step, Steps, start, finish, handle, here, next, worker_count,
  init, make_batches, batch_size_of, handle_result, handle_failure, handle_marker, requeue, enqueue,
  sift, bump, poison, others, mem, marker_in, failure_of, blame,
}
use vycor_cpp.WorkerPool.Requeue.{count}
use vycor_cpp.WorkerPool.Places.{settled, pending}
use vycor_cpp.WorkerPool.Accounts.{files_accounted}
use vycor_cpp.WorkerPool.Terminates.{dispatch_bound}
use vycor_cpp.WorkerPool.Outcome.{dispatch_progress, dispatch_settles}

abbrev one : Name
one = 1 ∷ []

abbrev two : Name
two = 2 ∷ []

abbrev both : List Name
both = one ∷ two ∷ []

abbrev start_pool : Pool
unfolding init make_batches batch_size_of worker_count
start_pool = init both 1 2

-- The first worker crashed with the first file's marker in its log.
abbrev crash : BatchResult
crash = record { batch = both; exit_code = negsuc 138; marker = some one }

abbrev running_pool : Pool
unfolding init make_batches batch_size_of worker_count
running_pool = record start_pool { work = []; running = both ∷ []; shard_seq = 1 }

abbrev crashed_pool : Pool
unfolding init make_batches batch_size_of worker_count
crashed_pool = record running_pool { running = []; results = crash ∷ [] }

abbrev again_pool : Pool
unfolding init make_batches batch_size_of worker_count handle_result handle_failure handle_marker
    requeue enqueue sift bump poison others mem marker_in failure_of blame list_eq
again_pool = handle_result true crash (record crashed_pool { results = []; outstanding = 0 })

again_run : Steps (worker_count 1 (length both)) 3 (init both 1 2) again_pool
unfolding init make_batches batch_size_of worker_count handle_result handle_failure handle_marker
    requeue enqueue sift bump poison others mem marker_in failure_of blame list_eq
again_run = next (start start_pool both [] refl (omega arith)) (
    next (finish running_pool [] both [] (negsuc 138) (some one) refl)
      (next (handle crashed_pool crash [] true refl) here))

-- The other file is queued again, and the marked file has the reason of its loss.
again_pool_lem :
    (again_pool.work ≡ (two ∷ []) ∷ [])
    × (again_pool.poisoned ≡ (one, crashed) ∷ [])
    × (again_pool.retries two ≡ 1)
unfolding init make_batches batch_size_of worker_count handle_result handle_failure handle_marker
    requeue enqueue sift bump poison others mem marker_in failure_of blame list_eq
again_pool_lem = (refl, refl, refl)

done : BatchResult
done = record { batch = two ∷ []; exit_code = pos 0; marker = none }

abbrev end_pool : Pool
unfolding init make_batches batch_size_of worker_count handle_result handle_failure handle_marker
    requeue enqueue sift bump poison others mem marker_in failure_of blame list_eq done
end_pool =
    handle_result true done
      (record again_pool { work = []; running = []; results = []; outstanding = 0; shard_seq = 2 })

end_run : Steps (worker_count 1 (length both)) 6 (init both 1 2) end_pool
unfolding init make_batches batch_size_of worker_count handle_result handle_failure handle_marker
    requeue enqueue sift bump poison others mem marker_in failure_of blame list_eq done
end_run = next (start start_pool both [] refl (omega arith)) (
    next (finish running_pool [] both [] (negsuc 138) (some one) refl) (
      next (handle crashed_pool crash [] true refl) (
        next (start again_pool (two ∷ []) [] refl (omega arith)) (
          next
            (finish (record again_pool { work = []; running = (two ∷ []) ∷ []; shard_seq = 2 }) []
              (two ∷ []) [] (pos 0) none refl)
            (next
              (handle
                (record again_pool { work = []; running = []; results = done ∷ []; shard_seq = 2 })
                done [] true refl)
              here)))))

once : (x : Name) → count x both ≤ 1
unfolding count
once x = ground (arith, list_eq→eq x one, list_eq→eq x two)

dispatch_bound_example : 6 ≤ 24
dispatch_bound_example = dispatch_bound both 1 2 end_run

files_accounted_example : settled one again_pool + pending one again_pool ≡ count one both
files_accounted_example = files_accounted both 1 2 once again_run one

dispatch_progress_example : (r : Pool) × Step (worker_count 1 (length both)) again_pool r
unfolding init again_pool list_eq
dispatch_progress_example = dispatch_progress both 1 2 again_run (omega arith)

dispatch_settles_example : settled two end_pool ≡ count two both
unfolding init end_pool
dispatch_settles_example = dispatch_settles both 1 2 once end_run refl two
