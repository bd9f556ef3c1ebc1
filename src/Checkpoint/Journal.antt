-- ===== src/Checkpoint/Journal.antt =====
-- src/check/Checkpoint.cpp, class CheckCheckpoint: the journal. An unordered_map is a function from
-- keys. A file is its bytes. The mutex is left out: each call is one step. What the file system does
-- enters as arguments: whether the write lock is free, and how far a write got.
pub mod Local
pub mod Frames
pub mod Loading
pub mod Record
pub mod Open
pub mod Replay
pub mod Session
use vycor_cpp.Prelude.{
  ℕ, zero, suc, ◌+◌, ◌-◌, ◌%◌, ◌^◌, Bool, true, false, not, ◌&&◌, Option, none, some, List, [], ◌∷◌,
  ◌++◌, length, take, drop, leb, ltb, ◌==◌, list_eq, if◌then◌else◌,
}
use vycor_cpp.Checkpoint.Wire.{
  Reader, Read, ◌>>=◌, ret, need, u8, u32, u64, str, put_u8, put_u32, put_u64, put_str, fnv32,
}
use vycor_cpp.Checkpoint.Entries.{CheckIndexPayload}
use vycor_cpp.Checkpoint.Encode.{encode_index_payload}
use vycor_cpp.Checkpoint.Decode.{decode_index_payload}
use vycor_cpp.Checkpoint.Diagnostics.{
  TuStatus, indexed, TuOutcome, status_code, Diagnostic, put_outcome, read_outcome,
  encode_diagnostics, decode_diagnostics,
}

pub record FileStamp : Type 0 where
  pub path : List ℕ
  pub mtime_ns : ℕ
  pub size : ℕ

pub stamp_eq : FileStamp → FileStamp → Bool
stamp_eq a b = list_eq a.path b.path && (a.mtime_ns == b.mtime_ns && a.size == b.size)

pub record AttemptState : Type 0 where
  pub stamp : FileStamp
  pub count : ℕ
  pub why : Option TuOutcome

pub record Phase1Record : Type 0 where
  pub stamp : FileStamp
  pub outcome : TuOutcome
  pub payload : CheckIndexPayload

pub record Phase2Record : Type 0 where
  pub stamp : FileStamp
  pub index_set_hash : ℕ
  pub outcome : TuOutcome
  pub diagnostics : List Diagnostic

abbrev pub Map {ℓ} : Type ℓ → Type ℓ
Map V = List ℕ → Option V

pub insert {ℓ} : {V : Type ℓ} → List ℕ → V → Map V → Map V
insert k v m j = if list_eq j k then some v else m j

pub erase {ℓ} : {V : Type ℓ} → List ℕ → Map V → Map V
erase k m j = if list_eq j k then none else m j

-- The maps that `loadRecords` fills.
pub record Loaded : Type 0 where
  pub phase1 : Map Phase1Record
  pub phase2 : Map Phase2Record
  pub attempts : Map AttemptState

abbrev pub nothing_loaded : Loaded
nothing_loaded = record { phase1 = λ k. none; phase2 = λ k. none; attempts = λ k. none }

abbrev pub kind_attempt : ℕ
kind_attempt = 1

abbrev pub kind_phase1 : ℕ
kind_phase1 = 2

abbrev pub kind_phase2 : ℕ
kind_phase2 = 3

abbrev pub phase_index : ℕ
phase_index = 1

abbrev pub phase_analyze : ℕ
phase_analyze = 2

pub attempt_key : ℕ → List ℕ → List ℕ
attempt_key phase tu = phase ∷ 0 ∷ tu

unfoldable pub put_stamp : FileStamp → List ℕ
put_stamp s = put_u64 s.mtime_ns ++ put_u64 s.size

abbrev pub no_attempts : AttemptState
no_attempts = record { stamp = record { path = []; mtime_ns = 0; size = 0 }; count = 0; why = none }

pub count_attempt : AttemptState → FileStamp → Option TuOutcome → AttemptState
count_attempt s stamp why =
    if stamp_eq s.stamp stamp
    then record s { count = (s.count + 1) % 2 ^ 32; why = why }
    else record { stamp = stamp; count = 1; why = why }

-- `attempts_[key]`, which makes an empty state for a new key, counted and stored.
pub count_at : List ℕ → FileStamp → Option TuOutcome → Map AttemptState → Map AttemptState
count_at key stamp why m =
    let s : AttemptState = elim (m key) [ some s ↦ s | none ↦ no_attempts ] in
    insert key (count_attempt s stamp why) m

-- The fixed part of an attempt record.
pub record Attempt : Type 0 where
  pub phase : ℕ
  pub stamp : FileStamp

pub read_attempt : Read Attempt
read_attempt = do
  phase ← u8
  tu ← str
  mtime_ns ← u64
  size ← u64
  ret (record { phase = phase; stamp = record { path = tu; mtime_ns = mtime_ns; size = size } })

pub counted : Attempt → Option TuOutcome → Loaded → Loaded
counted a why st = record st {
  attempts = count_at (attempt_key a.phase a.stamp.path) a.stamp why st.attempts;
}

-- The optional trailer: the outcome that used the attempt up.
pub load_trailer : Attempt → Reader → Loaded → Loaded
load_trailer a r st = elim r.rest [
  | [] ↦ counted a none st
  | _ ∷ _ ↦ let (outcome, r') = read_outcome r in if r'.ok then counted a (some outcome) st else st
]

pub load_attempt : Reader → Loaded → Loaded
load_attempt r st = let (a, r') = read_attempt r in if r'.ok then load_trailer a r' st else st

pub read_phase1 : Read Phase1Record
read_phase1 = do
  tu ← str
  mtime_ns ← u64
  size ← u64
  outcome ← read_outcome
  payload ← decode_index_payload
  ret (record {
    stamp = record { path = tu; mtime_ns = mtime_ns; size = size };
    outcome = outcome;
    payload = payload;
  })

pub load_phase1 : Reader → Loaded → Loaded
load_phase1 r st =
    let (rec, r') = read_phase1 r in
    if r'.ok
    then record st {
      attempts = erase (attempt_key phase_index rec.stamp.path) st.attempts;
      phase1 = insert rec.stamp.path rec st.phase1;
    }
    else st

pub read_phase2 : Read Phase2Record
read_phase2 = do
  tu ← str
  mtime_ns ← u64
  size ← u64
  index_set_hash ← u64
  outcome ← read_outcome
  diagnostics ← decode_diagnostics
  ret (record {
    stamp = record { path = tu; mtime_ns = mtime_ns; size = size };
    index_set_hash = index_set_hash;
    outcome = outcome;
    diagnostics = diagnostics;
  })

pub load_phase2 : Reader → Loaded → Loaded
load_phase2 r st =
    let (rec, r') = read_phase2 r in
    if r'.ok
    then record st {
      attempts = erase (attempt_key phase_analyze rec.stamp.path) st.attempts;
      phase2 = insert rec.stamp.path rec st.phase2;
    }
    else st

-- The switch on the kind. An unknown kind is skipped.
pub load_record : ℕ → List ℕ → Loaded → Loaded
load_record kind payload st =
    let r : Reader = record { rest = payload; ok = true } in
    if kind == kind_attempt
    then load_attempt r st
    else if kind == kind_phase1
    then load_phase1 r st
    else if kind == kind_phase2
    then load_phase2 r st
    else st

-- The loop ends both at a torn record and at a checksum that does not match: either clears `ok`.
pub accept_payload : Bool → List ℕ → Read (List ℕ)
accept_payload true payload r = (payload, r)
accept_payload false payload r = ([], record r { ok = false })

pub check_sum : List ℕ → ℕ → Read (List ℕ)
check_sum payload checksum = accept_payload (checksum == fnv32 payload) payload

-- A payload of `len` bytes and its checksum.
pub sealed_bytes : ℕ → Read (List ℕ)
sealed_bytes len r =
    let (enough, r') = need (len + 4) r in
    let sealed = (u32 >>= check_sum (take len r'.rest)) (record r' { rest = drop len r'.rest }) in
    if enough then sealed else ([], r')

pub read_frame : Read (ℕ × List ℕ)
read_frame = do kind ← u8; len ← u32; payload ← sealed_bytes len; ret (kind, payload)

-- A round of the loop takes a byte at least, so the length of the data is fuel enough. `size` is the
-- length of the data, and `stream.pos` is `size - length b`.
pub load_loop : ℕ → ℕ → List ℕ → ℕ → Loaded → ℕ × Loaded
load_loop zero size b valid_end st = (valid_end, st)
load_loop (suc fuel) size [] valid_end st = (valid_end, st)
load_loop (suc fuel) size (x ∷ b) valid_end st =
    let ((kind, payload), r) = read_frame (record { rest = x ∷ b; ok = true }) in
    let later = load_loop fuel size r.rest (size - length r.rest) (load_record kind payload st) in
    if r.ok then later else (valid_end, st)

pub load_records : List ℕ → Loaded → ℕ × Loaded
load_records b st = load_loop (length b) (length b) b 0 st

unfoldable pub record_frame : ℕ → List ℕ → List ℕ
record_frame kind payload =
    put_u8 kind ++ (put_u32 (length payload % 2 ^ 32) ++ (payload ++ put_u32 (fnv32 payload)))
