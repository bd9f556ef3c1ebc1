-- ===== src/Analyzer.antt =====
-- src/check/Analyzer.cpp, runAnalysis: phase 1 after the journal was replayed. Each file is indexed,
-- in this process or by a worker whose shard file the parent reads. What the tool adds to an index
-- for a file, and how its parse ended, is an argument. The calls of the journal are kept as a list, and
-- so are those of noteOutcome; a journal that is not open has no stamps.
pub mod Isolated
mod Tests
use vycor_cpp.Prelude.{ℕ, Bool, Option, none, some, List, [], ◌∷◌, ◌++◌}
use vycor_cpp.Checkpoint.Entries.{CheckIndexPayload}
use vycor_cpp.Checkpoint.Diagnostics.{TuOutcome}
use vycor_cpp.Checkpoint.Journal.{FileStamp, phase_index}
use vycor_cpp.Checkpoint.Journal.Session.{Call, attempt, phase1}
use vycor_cpp.Checkpoint.Shard.{read_index_shard}
use vycor_cpp.GlobalIndex.{GlobalIndex, no_entries, add_each, capture, apply_to, absorb}

pub record PhaseOne : Type 0 where
  pub index : GlobalIndex
  pub calls : List Call
  pub noted : List (List ℕ × TuOutcome)

-- What the tool does for a file: the additions to its index, and how it ended.
pub record TuParse : Type 0 where
  pub file : List ℕ
  pub additions : List CheckIndexPayload
  pub outcome : TuOutcome

module _ (stamp_for : List ℕ → Option FileStamp) where
  -- The callbacks of readCheckIndexShard on an entry: its outcome, and then its payload.
  pub take_entry : List ℕ × (TuOutcome × CheckIndexPayload) → PhaseOne → PhaseOne
  take_entry (tu, (outcome, payload)) s = record {
    index = apply_to payload s.index;
    calls = elim (stamp_for tu) [
      | none ↦ s.calls
      | some st ↦
          s.calls ++ (phase1 (record { stamp = st; outcome = outcome; payload = payload }) ∷ [])
    ];
    noted = s.noted ++ ((tu, outcome) ∷ []);
  }

  -- What the dispatcher's callback does with a worker's shard file, and what it returns.
  pub take_shard : Option (List ℕ) → PhaseOne → Bool × PhaseOne
  take_shard bytes s =
      let (ok, entries) = read_index_shard bytes in (ok, add_each take_entry entries s)

  -- One task of runPerTuTasks.
  pub index_file : TuParse → PhaseOne → PhaseOne
  index_file u s =
      let shard = add_each apply_to u.additions no_entries in
      elim (stamp_for u.file) [
        | none ↦ record s {
          index = add_each apply_to u.additions s.index;
          noted = s.noted ++ ((u.file, u.outcome) ∷ []);
        }
        | some st ↦ record {
          index = absorb shard s.index;
          calls =
              s.calls
              ++ (attempt phase_index st none
                  ∷ phase1 (record { stamp = st; outcome = u.outcome; payload = capture shard })
                  ∷ []);
          noted = s.noted ++ ((u.file, u.outcome) ∷ []);
        }
      ]
