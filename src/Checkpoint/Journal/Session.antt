-- ===== src/Checkpoint/Journal/Session.antt =====
-- A run's calls of recordAttempt, recordPhase1 and recordPhase2 as a sequence, each with the way its
-- write ends; and what the journal holds for the next run.
use vycor_cpp.Prelude.{
  ℕ, ◌^◌, ◌<◌, ◌≡◌, ◌≢◌, refl, sym, ap, ◌∙◌, true, false, Option, List, [], ◌∷◌, ◌++◌, append-nil,
  append_assoc, length, take, drop, length-drop, take-append-drop, arith,
}
use vycor_cpp.Checkpoint.Wire.Reads.{Fits}
use vycor_cpp.Checkpoint.Payload.{FitsPayload}
use vycor_cpp.Checkpoint.Diagnostics.{TuOutcome}
use vycor_cpp.Checkpoint.Findings.{FitsDiagnostics}
use vycor_cpp.Checkpoint.Journal.{
  FileStamp, Phase1Record, Phase2Record, AttemptState, Map, Loaded, kind_attempt, kind_phase1,
  kind_phase2, phase_index, phase_analyze, attempt_key, insert, erase, count_at, record_frame,
  load_record, load_records,
}
use vycor_cpp.Checkpoint.Journal.Record.{
  Checkpoint, Write, written, failed, append_record, with_attempts, record_attempt, record_phase1,
  record_phase2, attempt_payload, phase1_payload, phase2_payload,
}
use vycor_cpp.Checkpoint.Journal.Replay.{
  FitsStamp, FitsWhy, load_record-attempt, load_record-phase1, load_record-phase2,
}
use vycor_cpp.Checkpoint.Journal.Loading.{
  IsWhole, load_records-append_frame, load_records-append_torn,
}

pub data Call : Type 0 where
  attempt : ℕ → FileStamp → Option TuOutcome → Call
  phase1 : Phase1Record → Call
  phase2 : Phase2Record → Call

pub perform : Write → Call → Checkpoint → Checkpoint
perform w (attempt phase s why) c = record_attempt w phase s.path s why c
perform w (phase1 rec) c = record_phase1 w rec.stamp.path rec.stamp rec.payload rec.outcome c
perform w (phase2 rec) c =
    record_phase2 w rec.stamp.path rec.stamp rec.index_set_hash rec.diagnostics rec.outcome c

pub run : List (Write × Call) → Checkpoint → Checkpoint
run [] c = c
run ((w, k) ∷ ws) c = run ws (perform w k c)

-- What a call means: the maps as a table of the last record of each file.
unfoldable pub recall_attempts : Call → Map AttemptState → Map AttemptState
recall_attempts (attempt phase s why) = count_at (attempt_key phase s.path) s why
recall_attempts (phase1 rec) = erase (attempt_key phase_index rec.stamp.path)
recall_attempts (phase2 rec) = erase (attempt_key phase_analyze rec.stamp.path)

unfoldable pub recall : Call → Loaded → Loaded
recall (attempt phase s why) st = record st {
  attempts = recall_attempts (attempt phase s why) st.attempts;
}
recall (phase1 rec) st = record st {
  attempts = recall_attempts (phase1 rec) st.attempts;
  phase1 = insert rec.stamp.path rec st.phase1;
}
recall (phase2 rec) st = record st {
  attempts = recall_attempts (phase2 rec) st.attempts;
  phase2 = insert rec.stamp.path rec st.phase2;
}

unfoldable pub recall_all : List Call → Loaded → Loaded
recall_all [] st = st
recall_all (k ∷ ks) st = recall_all ks (recall k st)

unfoldable pub kind_of : Call → ℕ
kind_of (attempt phase s why) = kind_attempt
kind_of (phase1 rec) = kind_phase1
kind_of (phase2 rec) = kind_phase2

unfoldable pub payload_of : Call → List ℕ
payload_of (attempt phase s why) = attempt_payload phase s.path s why
payload_of (phase1 rec) = phase1_payload rec.stamp.path rec.stamp rec.payload rec.outcome
payload_of (phase2 rec) =
    phase2_payload rec.stamp.path rec.stamp rec.index_set_hash rec.diagnostics rec.outcome

-- The bytes of a call's record.
unfoldable pub frame_of : Call → List ℕ
frame_of k = record_frame (kind_of k) (payload_of k)

-- The fields fit the widths that the record gives them.
unfoldable pub FitsFields : Call → Type 0
FitsFields (attempt phase s why) = (phase < 2 ^ 8) × Fits s.path × FitsStamp s × FitsWhy why
FitsFields (phase1 rec) =
    Fits rec.stamp.path × FitsStamp rec.stamp × Fits rec.outcome.detail × FitsPayload rec.payload
FitsFields (phase2 rec) =
    Fits rec.stamp.path
    × FitsStamp rec.stamp
    × (rec.index_set_hash < 2 ^ 64)
    × Fits rec.outcome.detail
    × FitsDiagnostics rec.diagnostics

unfoldable pub FitsCall : Call → Type 0
FitsCall k = FitsFields k × Fits (payload_of k)

-- A failing write stops inside the record.
unfoldable pub Torn : Write → Call → Type 0
Torn written k = Unit
Torn (failed n) k = n < length (frame_of k)

unfoldable pub FitsRun : List (Write × Call) → Type 0
FitsRun [] = Unit
FitsRun ((w, k) ∷ ws) = FitsCall k × Torn w k × FitsRun ws

-- The calls before the first failing write.
unfoldable pub kept : List (Write × Call) → List Call
kept [] = []
kept ((written, k) ∷ ws) = k ∷ kept ws
kept ((failed n, k) ∷ ws) = []

-- The bytes that the first failing write leaves.
pub debris : List (Write × Call) → List ℕ
debris [] = []
debris ((written, k) ∷ ws) = debris ws
debris ((failed n, k) ∷ ws) = take n (frame_of k)

pub frames_of : List Call → List ℕ
frames_of [] = []
frames_of (k ∷ ks) = frame_of k ++ frames_of ks

kind_of-lt : (k : Call) → kind_of k < 2 ^ 8
unfolding kind_of
kind_of-lt (attempt phase s why) = omega arith
kind_of-lt (phase1 rec) = omega arith
kind_of-lt (phase2 rec) = omega arith

load_record-recall :
    (k : Call) (st : Loaded) → FitsCall k → load_record (kind_of k) (payload_of k) st ≡ recall k st
unfolding FitsCall FitsFields kind_of payload_of recall recall_attempts
load_record-recall (attempt phase s why) st ((p, f, g, h), _) =
    load_record-attempt phase s why st p f g h
load_record-recall (phase1 rec) st ((f, g, h, i), _) = load_record-phase1 rec st f g h i
load_record-recall (phase2 rec) st ((f, g, h, i, j), _) = load_record-phase2 rec st f g h i j

perform-append_record :
    (w : Write) (k : Call) (c : Checkpoint)
    → perform w k c
      ≡ with_attempts (recall_attempts k) (append_record w (kind_of k) (payload_of k) c)
unfolding perform kind_of payload_of recall_attempts record_attempt record_phase1 record_phase2
perform-append_record w (attempt phase s why) c = refl
perform-append_record w (phase1 rec) c = refl
perform-append_record w (phase2 rec) c = refl

perform-written :
    (k : Call) (c : Checkpoint)
    → c.out ≡ true
    → (perform written k c).file ≡ c.file ++ frame_of k × (perform written k c).out ≡ true
unfolding append_record with_attempts frame_of
perform-written k c h = rw (perform-append_record written k c, h) (refl, refl)

perform-failed :
    (n : ℕ) (k : Call) (c : Checkpoint)
    → c.out ≡ true
    → (perform (failed n) k c).file ≡ c.file ++ take n (frame_of k)
      × (perform (failed n) k c).out ≡ false
unfolding append_record with_attempts frame_of
perform-failed n k c h = rw (perform-append_record (failed n) k c, h) (refl, refl)

-- After a failed write nothing more is written.
perform-closed :
    (w : Write) (k : Call) (c : Checkpoint)
    → c.out ≡ false
    → (perform w k c).file ≡ c.file × (perform w k c).out ≡ false
unfolding append_record with_attempts
perform-closed w k c h = rw (perform-append_record w k c, h) (refl, refl)

run-closed : (ws : List (Write × Call)) (c : Checkpoint) → c.out ≡ false → (run ws c).file ≡ c.file
unfolding run
run-closed [] c h = refl
run-closed ((w, k) ∷ ws) c h =
    let (same, out) = perform-closed w k c h in run-closed ws (perform w k c) out ∙ same

-- A run leaves the records of the calls before the first failing write, and that write's bytes.
pub run-file :
    (ws : List (Write × Call)) (c : Checkpoint)
    → c.out ≡ true
    → (run ws c).file ≡ c.file ++ (frames_of (kept ws) ++ debris ws)
unfolding run kept debris frames_of
run-file [] c h = sym (append-nil c.file)
run-file ((written, k) ∷ ws) c h =
    let (same, out) = perform-written k c h in
    run-file ws (perform written k c) out
    ∙ ap (λ b. b ++ (frames_of (kept ws) ++ debris ws)) same
    ∙ append_assoc c.file (frame_of k) (frames_of (kept ws) ++ debris ws)
    ∙ ap (λ b. c.file ++ b) (sym (append_assoc (frame_of k) (frames_of (kept ws)) (debris ws)))
run-file ((failed n, k) ∷ ws) c h =
    let (same, out) = perform-failed n k c h in run-closed ws (perform (failed n) k c) out ∙ same

ne_nil : (n : ℕ) (b : List ℕ) → n < length b → drop n b ≢ []
ne_nil n b h e = omega (arith, length-drop n b, ap length e)

-- Those records and bytes load as the calls themselves.
pub load_records-kept :
    (ws : List (Write × Call)) (b : List ℕ) (st : Loaded)
    → IsWhole b st
    → FitsRun ws
    → load_records (b ++ (frames_of (kept ws) ++ debris ws)) st
      ≡ (length (b ++ frames_of (kept ws)), recall_all (kept ws) (load_records b st).1)
unfolding kept debris frames_of recall_all FitsRun Torn frame_of FitsCall
load_records-kept [] b st w h = rw (append-nil b) (λ i. (w i, (load_records b st).1))
load_records-kept ((failed n, k) ∷ ws) b st w (f, torn, h) = rw (append-nil b) (
    load_records-append_torn b st (kind_of k) (payload_of k) (take n (frame_of k))
      (drop n (frame_of k)) w (kind_of-lt k) f.1 (take-append-drop n (frame_of k))
      (ne_nil n (frame_of k) torn))
load_records-kept ((written, k) ∷ ws) b st w (f, _, h) =
    let more = load_records-append_frame b st (kind_of k) (payload_of k) w (kind_of-lt k) f.1 in
    let rest = frames_of (kept ws) ++ debris ws in
    ap (λ x. load_records x st)
      (ap (λ x. b ++ x) (append_assoc (frame_of k) (frames_of (kept ws)) (debris ws))
        ∙ sym (append_assoc b (frame_of k) rest))
    ∙ load_records-kept ws (b ++ frame_of k) st (ap (λ x. x.0) more) h
    ∙ λ i. (
      length (append_assoc b (frame_of k) (frames_of (kept ws)) i),
      recall_all (kept ws) ((ap (λ x. x.1) more ∙ load_record-recall k (load_records b st).1 f) i),
    )

pub calls : List (Write × Call) → List Call
calls [] = []
calls ((w, k) ∷ ws) = k ∷ calls ws
