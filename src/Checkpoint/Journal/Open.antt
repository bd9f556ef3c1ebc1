-- ===== src/Checkpoint/Journal/Open.antt =====
-- src/check/Checkpoint.cpp: `open`, and the questions that a resumed run asks the journal.
pub mod Reopen
pub mod Again
pub mod Tries
pub mod Answers
pub mod Resume
pub mod Header
use vycor_cpp.Prelude.{
  ℕ, zero, suc, ◌+◌, ◌-◌, ◌%◌, ◌^◌, Bool, true, false, not, ◌&&◌, Option, none, some, List, [], ◌∷◌,
  ◌++◌, length, take, drop, leb, ltb, ◌==◌, list_eq, if◌then◌else◌,
}
use vycor_cpp.Checkpoint.Wire.{
  Reader, Read, ◌>>=◌, ret, need, u8, u32, u64, str, put_u8, put_u32, put_u64, put_str, fnv32,
}
use vycor_cpp.Checkpoint.Entries.{CheckIndexPayload}
use vycor_cpp.Checkpoint.Encode.{encode_index_payload}
use vycor_cpp.Checkpoint.Decode.{decode_index_payload}
use vycor_cpp.Checkpoint.Diagnostics.{
  TuStatus, indexed, TuOutcome, status_code, Diagnostic, put_outcome, read_outcome,
  encode_diagnostics, decode_diagnostics,
}
use vycor_cpp.Checkpoint.Journal.{
  FileStamp, stamp_eq, AttemptState, Phase1Record, Phase2Record, Map, insert, erase, Loaded,
  nothing_loaded, kind_attempt, kind_phase1, kind_phase2, phase_index, phase_analyze, attempt_key,
  put_stamp, count_at, record_frame, load_records,
}
use vycor_cpp.Checkpoint.Journal.Record.{Checkpoint}

abbrev pub header_size : ℕ
header_size = 16

abbrev pub magic : List ℕ
magic = b'V' ∷ b'Y' ∷ b'C' ∷ b'J' ∷ []

abbrev pub version : ℕ
version = 11

unfoldable pub put_header : ℕ → List ℕ
put_header fingerprint = magic ++ (put_u32 version ++ put_u64 fingerprint)

unfoldable pub read_header : Read (ℕ × ℕ)
read_header = do v ← u32; f ← u64; ret (v, f)

-- Whether the file is a journal of this format and these options.
unfoldable pub is_reusable : ℕ → List ℕ → Bool
is_reusable fingerprint buf =
    let (fields, r) = read_header (record { rest = take 12 (drop 4 buf); ok = true }) in
    leb header_size (length buf)
    && (list_eq (take 4 buf) magic && (fields.0 == version && fields.1 == fingerprint))

-- How the calls of the file system end, and whether another run holds the lock.
pub record Disk : Type 0 where
  pub busy : Bool
  pub published : Bool
  pub opened : Bool
  pub resized : Bool

-- The last steps of `open`: the file is opened for appending and cut at `valid_end`.
pub open_file : Disk → List ℕ → ℕ → Loaded → Option Checkpoint
open_file d file valid_end st =
    let c : Checkpoint = record { file = take valid_end file; out = true; loaded = st } in
    if not d.opened
    then none
    else if ltb valid_end (length file)
    then if d.resized then some c else none
    else some c

pub open_fresh : Disk → ℕ → Option Checkpoint
open_fresh d fingerprint =
    if d.published then open_file d (put_header fingerprint) header_size nothing_loaded else none

pub open_reused : Disk → List ℕ → Option Checkpoint
open_reused d buf =
    let (valid_end, st) = load_records (drop header_size buf) nothing_loaded in
    open_file d buf (header_size + valid_end) st

-- `open`; `none` for the file is one that cannot be read.
pub open_journal : Disk → Option (List ℕ) → ℕ → Option Checkpoint
open_journal d file fingerprint = if d.busy then none else elim file [
  | none ↦ open_fresh d fingerprint
  | some buf ↦ if is_reusable fingerprint buf then open_reused d buf else open_fresh d fingerprint
]

-- `attempts`: the count of a key with exactly this stamp.
pub attempts : ℕ → List ℕ → FileStamp → Loaded → ℕ × Option TuOutcome
attempts phase tu stamp st = elim (st.attempts (attempt_key phase tu)) [
  | none ↦ (0, none)
  | some s ↦ if stamp_eq s.stamp stamp then (s.count, s.why) else (0, none)
]

pub is_indexed : TuStatus → Bool
is_indexed s = status_code s == 0

-- `replayPhase1`: what a clean record of this stamp contributes.
pub replay_phase1 : List ℕ → FileStamp → Loaded → Option (CheckIndexPayload × TuOutcome)
replay_phase1 tu stamp st = elim (st.phase1 tu) [
  | none ↦ none
  | some rec ↦
      if stamp_eq rec.stamp stamp && is_indexed rec.outcome.status
      then some (rec.payload, rec.outcome)
      else none
]

pub replay_phase2 : List ℕ → FileStamp → ℕ → Loaded → Option (List Diagnostic × TuOutcome)
replay_phase2 tu stamp hash st = elim (st.phase2 tu) [
  | none ↦ none
  | some rec ↦
      if stamp_eq rec.stamp stamp && (rec.index_set_hash == hash && is_indexed rec.outcome.status)
      then some (rec.diagnostics, rec.outcome)
      else none
]
