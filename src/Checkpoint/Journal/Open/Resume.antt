-- ===== src/Checkpoint/Journal/Open/Resume.antt =====
-- A resumed run: it opens what an earlier run left, and asks.
use vycor_cpp.Prelude.{ℕ, ◌^◌, ◌<◌, ◌≡◌, ◌↔◌, true, sym, ap, subst, ◌∙◌, none, some, List, ◌++◌}
use vycor_cpp.Checkpoint.Entries.{CheckIndexPayload}
use vycor_cpp.Checkpoint.Diagnostics.{TuOutcome, Diagnostic}
use vycor_cpp.Checkpoint.Journal.{FileStamp, nothing_loaded}
use vycor_cpp.Checkpoint.Journal.Record.{Checkpoint, Write}
use vycor_cpp.Checkpoint.Journal.Open.{
  Disk, put_header, open_journal, attempts, replay_phase1, replay_phase2,
}
use vycor_cpp.Checkpoint.Journal.Session.{Call, run, recall_all, FitsRun, kept, frames_of}
use vycor_cpp.Checkpoint.Journal.Open.Reopen.{Works, fresh, open_journal-run}
use vycor_cpp.Checkpoint.Journal.Open.Tries.{tries, attempts-recall_all}
use vycor_cpp.Checkpoint.Journal.Open.Answers.{
  last_phase1, last_phase2, Answers1, Answers2, replay_phase1_iff, replay_phase2_iff,
  recall_all-phase1, recall_all-phase2,
}

module _ (d : Disk) (f : ℕ) (ws : List (Write × Call)) (c : Checkpoint) (w : Works d)
    (h : f < 2 ^ 64) (fits : FitsRun ws)
    (opens : open_journal d (some (run ws (fresh f)).file) f ≡ some c) where
  resumed : recall_all (kept ws) nothing_loaded ≡ c.loaded
  resumed =
      let same : c ≡ record {
        file = put_header f ++ frames_of (kept ws);
        out = true;
        loaded = recall_all (kept ws) nothing_loaded;
      } =
        cc (open_journal-run d f ws w h fits) in
      ap (λ x. x.loaded) (sym same)

  -- If the journal that a run left is opened again, where no other run holds the lock, the calls of
  -- the file system succeed, the fingerprint and every recorded call fit their widths and a failing
  -- write stops inside its record, then replayPhase1 on the reopened journal returns a payload and
  -- an outcome exactly if they are those of the last phase-1 record of that file among the calls
  -- before the first failing write, that record has exactly the stamp that is asked for, and its
  -- outcome is Indexed.
  pub replay_phase1-run :
      (tu : List ℕ) (stamp : FileStamp) (p : CheckIndexPayload) (o : TuOutcome)
      → replay_phase1 tu stamp c.loaded ≡ some (p, o)
        ↔ Answers1 (last_phase1 tu (kept ws) none) stamp p o
  replay_phase1-run tu stamp p o =
      subst
        (λ st.
          replay_phase1 tu stamp st ≡ some (p, o)
          ↔ Answers1 (last_phase1 tu (kept ws) none) stamp p o)
        resumed
        (subst
          (λ found.
            replay_phase1 tu stamp (recall_all (kept ws) nothing_loaded) ≡ some (p, o)
            ↔ Answers1 found stamp p o)
          (recall_all-phase1 tu (kept ws) nothing_loaded)
          (replay_phase1_iff tu stamp (recall_all (kept ws) nothing_loaded) p o))

  -- If the journal that a run left is opened again, where no other run holds the lock, the calls of
  -- the file system succeed, the fingerprint and every recorded call fit their widths and a failing
  -- write stops inside its record, then replayPhase2 on the reopened journal returns diagnostics and
  -- an outcome exactly if they are those of the last phase-2 record of that file among the calls
  -- before the first failing write, that record has exactly the stamp and the index-set hash that
  -- are asked for, and its outcome is Indexed.
  pub replay_phase2-run :
      (tu : List ℕ) (stamp : FileStamp) (n : ℕ) (p : List Diagnostic) (o : TuOutcome)
      → replay_phase2 tu stamp n c.loaded ≡ some (p, o)
        ↔ Answers2 (last_phase2 tu (kept ws) none) stamp n p o
  replay_phase2-run tu stamp n p o =
      subst
        (λ st.
          replay_phase2 tu stamp n st ≡ some (p, o)
          ↔ Answers2 (last_phase2 tu (kept ws) none) stamp n p o)
        resumed
        (subst
          (λ found.
            replay_phase2 tu stamp n (recall_all (kept ws) nothing_loaded) ≡ some (p, o)
            ↔ Answers2 found stamp n p o)
          (recall_all-phase2 tu (kept ws) nothing_loaded)
          (replay_phase2_iff tu stamp n (recall_all (kept ws) nothing_loaded) p o))

  -- If the journal that a run left is opened again, where no other run holds the lock, the calls of
  -- the file system succeed, the fingerprint and every recorded call fit their widths and a failing
  -- write stops inside its record, then attempts on the reopened journal tells, for a phase and a
  -- stamp, how many attempt records of exactly this stamp were kept since the last record of that
  -- file and phase that completed it or had another stamp, counted modulo 2^32, with the last one's
  -- reason.
  pub attempts-run :
      (phase : ℕ) (s : FileStamp)
      → attempts phase s.path s c.loaded ≡ tries phase s (kept ws) (0, none)
  unfolding attempts
  attempts-run phase s =
      ap (attempts phase s.path s) (sym resumed)
      ∙ attempts-recall_all phase s (kept ws) nothing_loaded
