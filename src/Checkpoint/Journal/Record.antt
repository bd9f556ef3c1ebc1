-- ===== src/Checkpoint/Journal/Record.antt =====
-- src/check/Checkpoint.cpp: an open journal, and the three calls that append a record to it.
use vycor_cpp.Prelude.{ℕ, Bool, false, Option, none, some, List, [], ◌++◌, take, if◌then◌else◌}
use vycor_cpp.Checkpoint.Wire.{put_u8, put_u64, put_str}
use vycor_cpp.Checkpoint.Entries.{CheckIndexPayload}
use vycor_cpp.Checkpoint.Encode.{encode_index_payload}
use vycor_cpp.Checkpoint.Diagnostics.{TuOutcome, Diagnostic, put_outcome, encode_diagnostics}
use vycor_cpp.Checkpoint.Journal.{
  FileStamp, AttemptState, Map, erase, Loaded, kind_attempt, kind_phase1, kind_phase2, phase_index,
  phase_analyze, attempt_key, put_stamp, count_at, record_frame,
}

-- An open journal: the file, whether it can still be written, and the maps.
pub record Checkpoint : Type 0 where
  pub file : List ℕ
  pub out : Bool
  pub loaded : Loaded

-- How a write ends: all bytes are in the file, or an error after the first `n`.
pub data Write : Type 0 where
  written : Write
  failed : ℕ → Write

unfoldable pub append_record : Write → ℕ → List ℕ → Checkpoint → Checkpoint
append_record w kind payload c =
    let framed = record_frame kind payload in
    if c.out
    then elim w [
      | written ↦ record c { file = c.file ++ framed }
      | failed n ↦ record c { file = c.file ++ take n framed; out = false }
    ]
    else c

unfoldable pub put_why : Option TuOutcome → List ℕ
put_why none = []
put_why (some o) = put_outcome o

unfoldable pub attempt_payload : ℕ → List ℕ → FileStamp → Option TuOutcome → List ℕ
attempt_payload phase tu stamp why =
    put_u8 phase ++ (put_str tu ++ (put_stamp stamp ++ put_why why))

unfoldable pub with_attempts : (Map AttemptState → Map AttemptState) → Checkpoint → Checkpoint
with_attempts f c = record c { loaded = record c.loaded { attempts = f c.loaded.attempts } }

unfoldable pub record_attempt :
    Write → ℕ → List ℕ → FileStamp → Option TuOutcome → Checkpoint → Checkpoint
record_attempt w phase tu stamp why c =
    with_attempts (count_at (attempt_key phase tu) stamp why)
      (append_record w kind_attempt (attempt_payload phase tu stamp why) c)

unfoldable pub phase1_payload : List ℕ → FileStamp → CheckIndexPayload → TuOutcome → List ℕ
phase1_payload tu stamp p outcome =
    put_str tu ++ (put_stamp stamp ++ (put_outcome outcome ++ encode_index_payload p))

unfoldable pub record_phase1 :
    Write → List ℕ → FileStamp → CheckIndexPayload → TuOutcome → Checkpoint → Checkpoint
record_phase1 w tu stamp p outcome c =
    with_attempts (erase (attempt_key phase_index tu))
      (append_record w kind_phase1 (phase1_payload tu stamp p outcome) c)

unfoldable pub phase2_payload : List ℕ → FileStamp → ℕ → List Diagnostic → TuOutcome → List ℕ
phase2_payload tu stamp hash diags outcome =
    put_str tu
    ++ (put_stamp stamp ++ (put_u64 hash ++ (put_outcome outcome ++ encode_diagnostics diags)))

unfoldable pub record_phase2 :
    Write → List ℕ → FileStamp → ℕ → List Diagnostic → TuOutcome → Checkpoint → Checkpoint
record_phase2 w tu stamp hash diags outcome c =
    with_attempts (erase (attempt_key phase_analyze tu))
      (append_record w kind_phase2 (phase2_payload tu stamp hash diags outcome) c)
