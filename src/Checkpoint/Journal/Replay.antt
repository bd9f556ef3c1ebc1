-- ===== src/Checkpoint/Journal/Replay.antt =====
-- What a written record does when the journal is loaded.
use vycor_cpp.Prelude.{
  ℕ, ◌^◌, ◌<◌, ◌≡◌, refl, subst, Option, none, some, List, [], ◌∷◌, ◌++◌, append-nil, append_assoc,
}
use vycor_cpp.Checkpoint.Wire.{Read, put_u8, put_u64, put_str}
use vycor_cpp.Checkpoint.Wire.Reads.{
  Reads, Reads-bind, Reads-last, at_bytes, Fits, u8-Reads, u64-Reads, str-Reads,
}
use vycor_cpp.Checkpoint.Encode.{encode_index_payload}
use vycor_cpp.Checkpoint.Payload.{FitsPayload, payload-Reads}
use vycor_cpp.Checkpoint.Diagnostics.{TuOutcome, put_outcome, read_outcome, encode_diagnostics}
use vycor_cpp.Checkpoint.Findings.{outcome-Reads, FitsDiagnostics, diagnostics-Reads}
use vycor_cpp.Checkpoint.Journal.{
  FileStamp, Phase1Record, Phase2Record, Attempt, Loaded, kind_attempt, kind_phase1, kind_phase2,
  phase_index, phase_analyze, attempt_key, insert, erase, count_at, counted, put_stamp,
  read_attempt, read_phase1, read_phase2, load_trailer, load_attempt, load_phase1, load_phase2,
  load_record,
}
use vycor_cpp.Checkpoint.Journal.Record.{put_why, attempt_payload, phase1_payload, phase2_payload}

abbrev pub FitsStamp : FileStamp → Type 0
FitsStamp s = (s.mtime_ns < 2 ^ 64) × (s.size < 2 ^ 64)

abbrev pub FitsWhy : Option TuOutcome → Type 0
FitsWhy none = Unit
FitsWhy (some o) = Fits o.detail

attempt-Reads :
    (phase : ℕ) (s : FileStamp)
    → phase < 2 ^ 8
    → Fits s.path
    → FitsStamp s
    → Reads read_attempt
        (put_u8 phase ++ (put_str s.path ++ put_stamp s))
        (record { phase = phase; stamp = s })
unfolding read_attempt put_stamp
attempt-Reads phase s k h f = Reads-bind _ (u8-Reads phase k) (
    Reads-bind _ (str-Reads s.path h)
      (Reads-bind _ (u64-Reads s.mtime_ns f.0) (Reads-last _ (u64-Reads s.size f.1))))

-- A read of all the bytes.
at_end {ℓ} :
    {A : Type ℓ} {m : Read A} {b : List ℕ} {a : A} → Reads m b a → m (at_bytes b) ≡ (a, at_bytes [])
at_end {m = m} {b = b} {a = a} reads =
    subst (λ y. m (at_bytes y) ≡ (a, at_bytes [])) (append-nil b) (reads.run [])

load_trailer-cons :
    (a : Attempt) (o : TuOutcome) (x : ℕ) (l : List ℕ) (st : Loaded)
    → read_outcome (at_bytes (x ∷ l)) ≡ (o, at_bytes [])
    → load_trailer a (at_bytes (x ∷ l)) st ≡ counted a (some o) st
unfolding load_trailer
load_trailer-cons a o x l st h = rw h refl

load_trailer-put_why :
    (a : Attempt) (why : Option TuOutcome) (st : Loaded)
    → FitsWhy why
    → load_trailer a (at_bytes (put_why why)) st ≡ counted a why st
unfolding load_trailer put_why put_outcome put_u8
load_trailer-put_why a none st h = refl
load_trailer-put_why a (some o) st h = load_trailer-cons a o _ _ st (at_end (outcome-Reads o h))

-- A loaded attempt is counted as `recordAttempt` counts it.
pub load_record-attempt :
    (phase : ℕ) (s : FileStamp) (why : Option TuOutcome) (st : Loaded)
    → phase < 2 ^ 8
    → Fits s.path
    → FitsStamp s
    → FitsWhy why
    → load_record kind_attempt (attempt_payload phase s.path s why) st
      ≡ record st { attempts = count_at (attempt_key phase s.path) s why st.attempts }
unfolding load_record load_attempt attempt_payload counted
load_record-attempt phase s why st k h f g =
    let front = put_u8 phase ++ (put_str s.path ++ put_stamp s) in
    let bytes : put_u8 phase ++ (put_str s.path ++ (put_stamp s ++ put_why why))
        ≡ front ++ put_why why =
      rw
        (
          append_assoc (put_u8 phase) (put_str s.path ++ put_stamp s) (put_why why),
          append_assoc (put_str s.path) (put_stamp s) (put_why why),
        )
        refl in
    rw (bytes, (attempt-Reads phase s k h f).run (put_why why))
      (load_trailer-put_why (record { phase = phase; stamp = s }) why st g)

phase1-Reads :
    (rec : Phase1Record)
    → Fits rec.stamp.path
    → FitsStamp rec.stamp
    → Fits rec.outcome.detail
    → FitsPayload rec.payload
    → Reads read_phase1 (phase1_payload rec.stamp.path rec.stamp rec.payload rec.outcome) rec
unfolding phase1_payload put_stamp
phase1-Reads rec h f g k =
    let later = put_outcome rec.outcome ++ encode_index_payload rec.payload in
    rw (append_assoc (put_u64 rec.stamp.mtime_ns) (put_u64 rec.stamp.size) later) (
      unfold read_phase1 in
      Reads-bind _ (str-Reads rec.stamp.path h) (
        Reads-bind _ (u64-Reads rec.stamp.mtime_ns f.0) (
          Reads-bind _ (u64-Reads rec.stamp.size f.1) (
            Reads-bind _ (outcome-Reads rec.outcome g)
              (Reads-last _ (payload-Reads rec.payload k))))))

-- A loaded phase-1 record clears the attempts and is stored under its file.
pub load_record-phase1 :
    (rec : Phase1Record) (st : Loaded)
    → Fits rec.stamp.path
    → FitsStamp rec.stamp
    → Fits rec.outcome.detail
    → FitsPayload rec.payload
    → load_record kind_phase1 (phase1_payload rec.stamp.path rec.stamp rec.payload rec.outcome) st
      ≡ record st {
        attempts = erase (attempt_key phase_index rec.stamp.path) st.attempts;
        phase1 = insert rec.stamp.path rec st.phase1;
      }
unfolding load_record load_phase1
load_record-phase1 rec st h f g k = rw (at_end (phase1-Reads rec h f g k)) refl

phase2-Reads :
    (rec : Phase2Record)
    → Fits rec.stamp.path
    → FitsStamp rec.stamp
    → rec.index_set_hash < 2 ^ 64
    → Fits rec.outcome.detail
    → FitsDiagnostics rec.diagnostics
    → Reads read_phase2
        (phase2_payload rec.stamp.path rec.stamp rec.index_set_hash rec.diagnostics rec.outcome)
        rec
unfolding phase2_payload put_stamp
phase2-Reads rec h f i g k =
    let later =
      put_u64 rec.index_set_hash
      ++ (put_outcome rec.outcome ++ encode_diagnostics rec.diagnostics) in
    rw (append_assoc (put_u64 rec.stamp.mtime_ns) (put_u64 rec.stamp.size) later) (
      unfold read_phase2 in
      Reads-bind _ (str-Reads rec.stamp.path h) (
        Reads-bind _ (u64-Reads rec.stamp.mtime_ns f.0) (
          Reads-bind _ (u64-Reads rec.stamp.size f.1) (
            Reads-bind _ (u64-Reads rec.index_set_hash i) (
              Reads-bind _ (outcome-Reads rec.outcome g)
                (Reads-last _ (diagnostics-Reads rec.diagnostics k)))))))

-- A loaded phase-2 record likewise.
pub load_record-phase2 :
    (rec : Phase2Record) (st : Loaded)
    → Fits rec.stamp.path
    → FitsStamp rec.stamp
    → rec.index_set_hash < 2 ^ 64
    → Fits rec.outcome.detail
    → FitsDiagnostics rec.diagnostics
    → load_record kind_phase2
        (phase2_payload rec.stamp.path rec.stamp rec.index_set_hash rec.diagnostics rec.outcome)
        st
      ≡ record st {
        attempts = erase (attempt_key phase_analyze rec.stamp.path) st.attempts;
        phase2 = insert rec.stamp.path rec st.phase2;
      }
unfolding load_record load_phase2
load_record-phase2 rec st h f i g k = rw (at_end (phase2-Reads rec h f i g k)) refl
