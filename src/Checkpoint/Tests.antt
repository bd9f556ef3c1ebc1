-- ===== src/Checkpoint/Tests.antt =====
-- Runs of the journal on concrete records.
use vycor_cpp.Prelude.{
  ℕ, ◌+◌, ◌^◌, ◌≤◌, ◌<◌, ◌≡◌, ◌≢◌, ◌⊎◌, ◌↔◌, refl, true, false, none, some, List, [], ◌∷◌, ◌++◌,
  take, All, arith,
}
use vycor_cpp.Checkpoint.Wire.Reads.{Reads}
use vycor_cpp.Checkpoint.Samples.{contribution, hazard, clean}
use vycor_cpp.Checkpoint.Encode.{encode_index_payload}
use vycor_cpp.Checkpoint.Decode.{decode_index_payload}
use vycor_cpp.Checkpoint.Payload.{FitsPayload, payload-Reads}
use vycor_cpp.Checkpoint.Diagnostics.{TuOutcome, crashed, encode_diagnostics, decode_diagnostics}
use vycor_cpp.Checkpoint.Findings.{diagnostics-Reads}
use vycor_cpp.Checkpoint.Wire.{
  put_u8, put_u32, put_u64, put_le, put_str, put_list, put_string_pairs,
}
use vycor_cpp.Checkpoint.Encode.{put_static_init}
use vycor_cpp.Checkpoint.Diagnostics.{put_outcome, status_code, put_diagnostic}
use vycor_cpp.Checkpoint.Journal.{
  FileStamp, Phase1Record, Phase2Record, put_stamp, record_frame, nothing_loaded, load_records,
}
use vycor_cpp.Checkpoint.Journal.Record.{
  Checkpoint, Write, written, failed, attempt_payload, phase1_payload, phase2_payload, put_why,
}
use vycor_cpp.Checkpoint.Journal.Open.{
  Disk, put_header, open_journal, attempts, replay_phase1, replay_phase2,
}
use vycor_cpp.Checkpoint.Journal.Loading.{load_records_cut}
use vycor_cpp.Checkpoint.Journal.Session.{
  Call, attempt, phase1, phase2, run, recall_all, FitsRun, FitsCall, FitsFields, Torn, kind_of,
  payload_of, frame_of, kept, frames_of,
}
use vycor_cpp.Checkpoint.Journal.Open.Reopen.{fresh, reopened, Works, open_journal-run}
use vycor_cpp.Checkpoint.Journal.Open.Header.{open_journal_lem}
use vycor_cpp.Checkpoint.Journal.Open.Again.{open_journal-open_journal}
use vycor_cpp.Checkpoint.Journal.Open.Tries.{tries}
use vycor_cpp.Checkpoint.Journal.Open.Answers.{last_phase1, last_phase2, Answers1, Answers2}
use vycor_cpp.Checkpoint.Journal.Open.Resume.{replay_phase1-run, replay_phase2-run, attempts-run}

contribution-Fits : FitsPayload contribution
contribution-Fits = omega arith

payload-Reads_example : Reads decode_index_payload (encode_index_payload contribution) contribution
payload-Reads_example = payload-Reads contribution contribution-Fits

diagnostics-Reads_example :
    Reads decode_diagnostics (encode_diagnostics (hazard ∷ [])) (hazard ∷ [])
diagnostics-Reads_example = diagnostics-Reads (hazard ∷ []) (omega arith)

abbrev stamp_a : FileStamp
stamp_a = record { path = b'a' ∷ []; mtime_ns = 5; size = 300 }

abbrev dead : TuOutcome
dead = record { status = crashed; detail = b's' ∷ [] }

abbrev indexed_a : Phase1Record
indexed_a = record { stamp = stamp_a; outcome = clean; payload = contribution }

abbrev checked_a : Phase2Record
checked_a = record {
  stamp = stamp_a;
  index_set_hash = 9;
  outcome = clean;
  diagnostics = hazard ∷ [];
}

-- A first try that crashed, a second one that came through, a check, and a write that was cut short.
abbrev first_run : List (Write × Call)
first_run =
    (written, attempt 1 stamp_a none)
    ∷ (written, attempt 1 stamp_a (some dead))
    ∷ (written, phase1 indexed_a)
    ∷ (written, phase2 checked_a)
    ∷ (failed 3, attempt 2 stamp_a none)
    ∷ (written, attempt 1 stamp_a none)
    ∷ []

first_run-Fits : FitsRun first_run
unfolding FitsRun FitsCall FitsFields Torn payload_of frame_of kind_of record_frame attempt_payload
    put_why put_stamp put_u8 put_u32 put_u64 put_le put_str phase1_payload phase2_payload
    encode_index_payload encode_diagnostics put_outcome status_code put_list put_string_pairs
    put_diagnostic put_static_init
first_run-Fits = omega arith

abbrev disk : Disk
disk = record { busy = false; published = true; opened = true; resized = true }

disk-Works : Works disk
disk-Works = (refl, refl, refl, refl)

abbrev left : List ℕ
left = (run first_run (fresh 77)).file

open_journal-run_example :
    open_journal disk (some left) 77
    ≡ some (record {
      file = put_header 77 ++ frames_of (kept first_run);
      out = true;
      loaded = recall_all (kept first_run) nothing_loaded;
    })
open_journal-run_example =
    open_journal-run disk 77 first_run disk-Works (omega arith) first_run-Fits

abbrev second : Checkpoint
second = record {
  file = put_header 77 ++ frames_of (kept first_run);
  out = true;
  loaded = recall_all (kept first_run) nothing_loaded;
}

open_journal-open_journal_example : open_journal disk (some second.file) 77 ≡ some second
open_journal-open_journal_example =
    open_journal-open_journal disk disk (some left) 77 second disk-Works (omega arith)
      (open_journal-run disk 77 first_run disk-Works (omega arith) first_run-Fits)

replay_phase1-run_example :
    replay_phase1 (b'a' ∷ []) stamp_a second.loaded ≡ some (contribution, clean)
    ↔ Answers1 (last_phase1 (b'a' ∷ []) (kept first_run) none) stamp_a contribution clean
replay_phase1-run_example =
    replay_phase1-run disk 77 first_run second disk-Works (omega arith) first_run-Fits
      (open_journal-run disk 77 first_run disk-Works (omega arith) first_run-Fits) (b'a' ∷ [])
      stamp_a contribution clean

replay_phase2-run_example :
    replay_phase2 (b'a' ∷ []) stamp_a 9 second.loaded ≡ some (hazard ∷ [], clean)
    ↔ Answers2 (last_phase2 (b'a' ∷ []) (kept first_run) none) stamp_a 9 (hazard ∷ []) clean
replay_phase2-run_example =
    replay_phase2-run disk 77 first_run second disk-Works (omega arith) first_run-Fits
      (open_journal-run disk 77 first_run disk-Works (omega arith) first_run-Fits) (b'a' ∷ [])
      stamp_a 9 (hazard ∷ []) clean

attempts-run_example :
    attempts 1 (b'a' ∷ []) stamp_a second.loaded ≡ tries 1 stamp_a (kept first_run) (0, none)
attempts-run_example =
    attempts-run disk 77 first_run second disk-Works (omega arith) first_run-Fits
      (open_journal-run disk 77 first_run disk-Works (omega arith) first_run-Fits) 1 stamp_a

-- A journal that a run with other options has just made.
other_run : All (λ c. c < 2 ^ 8) (put_header 78)
unfolding put_header put_u32 put_u64 put_le
other_run = omega arith

open_journal_lem_example :
    ((b : List ℕ) × (some (put_header 78) ≡ some (put_header 77 ++ b))
      × (open_journal disk (some (put_header 78)) 77 ≡ some (reopened (put_header 77) b)))
    ⊎ (((b : List ℕ) → some (put_header 78) ≢ some (put_header 77 ++ b))
        × (open_journal disk (some (put_header 78)) 77 ≡ some (fresh 77)))
open_journal_lem_example =
    open_journal_lem disk (some (put_header 78)) 77 disk-Works (omega arith) other_run

load_records_cut_example :
    let (valid_end, st) = load_records (b'x' ∷ []) nothing_loaded in
    let (later_end, st') = load_records (b'y' ∷ []) st in
    (valid_end ≤ 1)
    × (load_records (take valid_end (b'x' ∷ []) ++ (b'y' ∷ [])) nothing_loaded
        ≡ (valid_end + later_end, st'))
load_records_cut_example = load_records_cut (b'x' ∷ []) (b'y' ∷ []) nothing_loaded
