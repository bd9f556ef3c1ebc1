-- ===== src/WorkerPool.antt =====
-- src/callgraph/WorkerPool.cpp, dispatchIsolated: batches of files go to worker processes, and the
-- batches that fail are split, tried again, or given up file by file. The dispatch threads and the
-- parent loop take turns in any order: a run is a sequence of steps. What a worker process does
-- enters with its step: its exit code, the last marker in its log, and whether its shard can be read.
pub mod Rules
pub mod Requeue
pub mod Terminates
pub mod Places
pub mod Accounts
pub mod Outcome
mod Tests
use vycor_cpp.Prelude.{
  ℕ, zero, suc, ◌+◌, ◌-◌, ◌*◌, ◌/◌, ◌≤◌, ◌<◌, ◌≡◌, min, max, Bool, true, false, not, Option, none,
  some, List, [], ◌∷◌, ◌++◌, length, take, drop, ltb, ◌==◌, list_eq, if◌then◌else◌,
}
use vycor_cpp.Prelude.Int.{ℤ, pos, negsuc}

abbrev pub Name : Type 0
Name = List ℕ

abbrev pub Batch : Type 0
Batch = List Name

pub data WorkerFailure : Type 0 where
  crashed timed_out : WorkerFailure

abbrev pub max_tu_retries : ℕ
max_tu_retries = 2

abbrev pub worker_timed_out : ℤ
worker_timed_out = negsuc 123

abbrev pub worker_interrupted : ℤ
worker_interrupted = negsuc 129

abbrev pub int_eq : ℤ → ℤ → Bool
int_eq (pos a) (pos b) = a == b
int_eq (pos a) (negsuc b) = false
int_eq (negsuc a) (pos b) = false
int_eq (negsuc a) (negsuc b) = a == b

-- A finished batch. `marker` is what `lastWorkerTuMarker` finds in the worker's log.
pub record BatchResult : Type 0 where
  pub batch : Batch
  pub exit_code : ℤ
  pub marker : Option Name

-- `absorbed` and `poisoned` are the calls of `consumeShard` that succeeded and those of `onPoison`;
-- `abandoned` holds the batches dropped by an interrupt.
pub record Pool : Type 0 where
  pub work : List Batch
  pub running : List Batch
  pub results : List BatchResult
  pub outstanding : ℕ
  pub shard_seq : ℕ
  pub retries : Name → ℕ
  pub absorbed : List Batch
  pub poisoned : List (Name × WorkerFailure)
  pub abandoned : List Batch

pub mem : Name → List Name → Bool
mem x [] = false
mem x (y ∷ ys) = let later = mem x ys in if list_eq x y then true else later

-- The names other than this one.
pub others : Name → List Name → List Name
others x [] = []
others x (y ∷ ys) = let rest = others x ys in if list_eq x y then rest else y ∷ rest

-- ++retries[tu]
pub bump : Name → (Name → ℕ) → Name → ℕ
bump tu retries j = if list_eq j tu then retries j + 1 else retries j

-- The names that are tried again, the counts, and the names that are given up.
pub sift : List Name → (Name → ℕ) → List Name × (Name → ℕ) × List Name
sift [] retries = ([], retries, [])
sift (tu ∷ tus) retries =
    let (kept, after, dropped) = sift tus (bump tu retries) in
    if ltb max_tu_retries (bump tu retries tu)
    then (kept, after, tu ∷ dropped)
    else (tu ∷ kept, after, dropped)

pub blame : WorkerFailure → List Name → List (Name × WorkerFailure)
blame why [] = []
blame why (tu ∷ tus) = (tu, why) ∷ blame why tus

pub enqueue : Batch → Pool → Pool
enqueue [] p = p
enqueue (tu ∷ tus) p = record p {
  outstanding = p.outstanding + 1;
  work = p.work ++ ((tu ∷ tus) ∷ []);
}

pub requeue : List Name → WorkerFailure → Pool → Pool
requeue tus why p =
    let (kept, after, dropped) = sift tus p.retries in
    enqueue kept (record p { retries = after; poisoned = p.poisoned ++ blame why dropped })

pub poison : Name → WorkerFailure → Pool → Pool
poison tu why p = record p { poisoned = p.poisoned ++ ((tu, why) ∷ []) }

pub failure_of : ℤ → WorkerFailure
failure_of code = if int_eq code worker_timed_out then timed_out else crashed

-- No marker: a single file is given up, a larger batch is split in half.
pub split_batch : WorkerFailure → Batch → Pool → Pool
split_batch why [] p = p
split_batch why (tu ∷ []) p = poison tu why p
split_batch why (tu ∷ tv ∷ tus) p =
    let all = tu ∷ tv ∷ tus in
    let mid = length all / 2 in requeue (drop mid all) why (requeue (take mid all) why p)

-- markerInBatch, with the marker.
pub marker_in : Option Name → Batch → Option Name
marker_in none b = none
marker_in (some m) b = if mem m b then some m else none

pub handle_marker : Option Name → WorkerFailure → Batch → Pool → Pool
handle_marker none why b p = split_batch why b p
handle_marker (some m) why b p = requeue (others m b) crashed (poison m why p)

pub handle_failure : BatchResult → Pool → Pool
handle_failure res p =
    handle_marker (marker_in res.marker res.batch) (failure_of res.exit_code) res.batch p

-- The parent's round on a popped result. `readable`: whether `consumeShard` returns true.
pub handle_result : Bool → BatchResult → Pool → Pool
handle_result readable res p =
    if int_eq res.exit_code (pos 0)
    then (if readable
        then record p { absorbed = p.absorbed ++ (res.batch ∷ []) }
        else handle_failure (record res { exit_code = negsuc 0 }) p)
    else if int_eq res.exit_code worker_interrupted
    then record p { abandoned = p.abandoned ++ (res.batch ∷ []) }
    else handle_failure res p

-- One step of a dispatch thread, or of the parent. At most `workers` batches are with a worker.
pub data Step (workers : ℕ) : Pool → Pool → Type 0 where
  start :
      (p : Pool) (b : Batch) (rest : List Batch)
      → p.work ≡ b ∷ rest
      → length p.running < workers
      → Step workers p
          (record p { work = rest; running = b ∷ p.running; shard_seq = p.shard_seq + 1 })
  finish :
      (p : Pool) (before : List Batch) (b : Batch) (after : List Batch) (code : ℤ)
      (marker : Option Name)
      → p.running ≡ before ++ (b ∷ after)
      → Step workers p (record p {
        running = before ++ after;
        results = p.results ++ (record { batch = b; exit_code = code; marker = marker } ∷ []);
      })
  handle :
      (p : Pool) (res : BatchResult) (rest : List BatchResult) (readable : Bool)
      → p.results ≡ res ∷ rest
      → Step workers p (
          handle_result readable res (record p { results = rest; outstanding = p.outstanding - 1 }))

-- So many steps lead from one state to the other.
pub data Steps (workers : ℕ) : ℕ → Pool → Pool → Type 0 where
  here : {p : Pool} → Steps workers 0 p p
  next : {n : ℕ} {p q r : Pool} → Step workers p q → Steps workers n q r → Steps workers (suc n) p r

-- for (i = 0; i < files.size(); i += batchSize): a batch takes a file at least, so the number of
-- files is fuel enough.
pub make_batches : ℕ → ℕ → List Name → List Batch
make_batches zero batch_size files = []
make_batches (suc fuel) batch_size [] = []
make_batches (suc fuel) batch_size (f ∷ files) =
    take batch_size (f ∷ files) ∷ make_batches fuel batch_size (drop batch_size (f ∷ files))

-- The worker count in use.
pub worker_count : ℕ → ℕ → ℕ
worker_count workers files =
    let asked = if workers == 0 then 1 else workers in
    if ltb files asked then max 1 files else asked

pub batch_size_of : ℕ → ℕ → ℕ → ℕ
batch_size_of override files workers =
    if override == 0 then min 32 (max 1 (files / (workers * 4))) else override

pub init : List Name → ℕ → ℕ → Pool
init files workers override =
    let size = batch_size_of override (length files) (worker_count workers (length files)) in
    let work = make_batches (length files) size files in
    record {
      work = work;
      running = [];
      results = [];
      outstanding = length work;
      shard_seq = 0;
      retries = λ tu. 0;
      absorbed = [];
      poisoned = [];
      abandoned = [];
    }
