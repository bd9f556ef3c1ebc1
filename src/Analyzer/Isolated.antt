-- ===== src/Analyzer/Isolated.antt =====
-- A worker's shard gives what indexing in the same process gives.
use vycor_cpp.Prelude.{
  ℕ, ◌≡◌, refl, sym, ap, ◌∙◌, true, Option, none, some, List, [], ◌∷◌, ◌++◌, append_assoc, map,
  length, length-append, All,
}
use vycor_cpp.Checkpoint.Wire.Reads.{Fits}
use vycor_cpp.Checkpoint.Entries.{CheckIndexPayload}
use vycor_cpp.Checkpoint.Encode.{encode_index_payload}
use vycor_cpp.Checkpoint.Payload.{FitsPayload}
use vycor_cpp.Checkpoint.Diagnostics.{TuOutcome, nth}
use vycor_cpp.Checkpoint.Journal.{FileStamp, Phase1Record, phase_index}
use vycor_cpp.Checkpoint.Journal.Session.{Call, attempt, phase1, phase2}
use vycor_cpp.Checkpoint.Shard.{outcome_at, write_index_shard}
use vycor_cpp.Checkpoint.Shard.RoundTrip.{listed, FitsEntries, read_index_shard-write_index_shard}
use vycor_cpp.GlobalIndex.{GlobalIndex, no_entries, add_each, capture, apply_to, absorb}
use vycor_cpp.GlobalIndex.Restore.{apply_to-absorb}
use vycor_cpp.Analyzer.{PhaseOne, TuParse, take_entry, take_shard, index_file}

-- The index that the tool fills for a file.
abbrev pub shard_of : TuParse → GlobalIndex
shard_of u = add_each apply_to u.additions no_entries

abbrev pub captured : TuParse → List ℕ × CheckIndexPayload
captured u = (u.file, capture (shard_of u))

abbrev pub outcome_of : TuParse → TuOutcome
outcome_of u = u.outcome

abbrev entry_of : TuParse → List ℕ × (TuOutcome × CheckIndexPayload)
entry_of u = (u.file, (u.outcome, capture (shard_of u)))

outcome_at-append :
    (os ps : List TuOutcome) (o : TuOutcome) → outcome_at (os ++ (o ∷ ps)) (length os) ≡ o
unfolding outcome_at nth
outcome_at-append [] ps o = refl
outcome_at-append (p ∷ os) ps o = outcome_at-append os ps o

listed_units :
    (us : List TuParse) (os : List TuOutcome)
    → listed (os ++ map outcome_of us) (length os) (map captured us) ≡ map entry_of us
unfolding listed
listed_units [] os = refl
listed_units (u ∷ us) os =
    let later =
      rw (append_assoc os (u.outcome ∷ []) (map outcome_of us), length-append os (u.outcome ∷ []))
        at (listed_units us (os ++ (u.outcome ∷ []))) in
    rw (outcome_at-append os (map outcome_of us) u.outcome, later) refl

-- The records of files that were done: without the attempts.
pub completed : List Call → List Phase1Record
completed [] = []
completed (attempt phase st why ∷ calls) = completed calls
completed (phase1 rec ∷ calls) = rec ∷ completed calls
completed (phase2 rec ∷ calls) = completed calls

completed-append : (ks ls : List Call) → completed (ks ++ ls) ≡ completed ks ++ completed ls
unfolding completed
completed-append [] ls = refl
completed-append (attempt phase st why ∷ ks) ls = completed-append ks ls
completed-append (phase1 rec ∷ ks) ls = ap (◌∷◌ rec) (completed-append ks ls)
completed-append (phase2 rec ∷ ks) ls = completed-append ks ls

-- Another file is done, here after an attempt.
completed_file :
    (ks ls : List Call) (phase : ℕ) (st : FileStamp) (rec : Phase1Record)
    → completed ks ≡ completed ls
    → completed (ks ++ (phase1 rec ∷ []))
      ≡ completed (ls ++ (attempt phase st none ∷ phase1 rec ∷ []))
unfolding completed
completed_file ks ls phase st rec same =
    completed-append ks (phase1 rec ∷ [])
    ∙ (ap (λ l. l ++ (rec ∷ [])) same
        ∙ sym (completed-append ls (attempt phase st none ∷ phase1 rec ∷ [])))

-- The same index and outcomes, and the same completed records.
pub record Same (s t : PhaseOne) : Type 0 where
  pub index : s.index ≡ t.index
  pub noted : s.noted ≡ t.noted
  pub records : completed s.calls ≡ completed t.calls

module _ (stamp_for : List ℕ → Option FileStamp) where
  -- The journal has a stamp of the file.
  abbrev pub Stamped : TuParse → Type 0
  Stamped u = (st : FileStamp) × (stamp_for u.file ≡ some st)

  Same-step :
      (u : TuParse) (s t : PhaseOne)
      → Stamped u
      → Same s t
      → Same (take_entry stamp_for (entry_of u) s) (index_file stamp_for u t)
  unfolding take_entry index_file
  Same-step u s t (st, e) same =
      rw (e, take_entry, index_file)
        (record {
          index = apply_to-absorb (shard_of u) s.index ∙ ap (absorb (shard_of u)) same.index;
          noted = ap (λ l. l ++ ((u.file, u.outcome) ∷ [])) same.noted;
          records = completed_file s.calls t.calls phase_index st _ same.records;
        })

  Same-add_each :
      (us : List TuParse) (s t : PhaseOne)
      → All Stamped us
      → Same s t
      → Same
          (add_each (take_entry stamp_for) (map entry_of us) s)
          (add_each (index_file stamp_for) us t)
  unfolding add_each
  Same-add_each [] s t stamped same = same
  Same-add_each (u ∷ us) s t (one, stamped) same =
      Same-add_each us (take_entry stamp_for (entry_of u) s) (index_file stamp_for u t) stamped
        (Same-step u s t one same)

  -- If the journal has a stamp of each file, there are fewer than 2^32 files, and what a worker
  -- writes for them fits its fields, then the parent accepts the worker's shard file, and is left
  -- with the index, the outcomes and the completed records, in their order, that it has after
  -- indexing the same files itself.
  pub take_shard-Same :
      (us : List TuParse) (s : PhaseOne)
      → All Stamped us
      → Fits (map captured us)
      → FitsEntries encode_index_payload FitsPayload (map outcome_of us) 0 (map captured us)
      → (t : PhaseOne) × (take_shard stamp_for
            (some (write_index_shard (map captured us) (map outcome_of us)))
            s
          ≡ (true, t))
        × Same t (add_each (index_file stamp_for) us s)
  unfolding take_shard
  take_shard-Same us s stamped fits entries = (
    add_each (take_entry stamp_for) (map entry_of us) s,
    rw
        (
          read_index_shard-write_index_shard (map captured us) (map outcome_of us) fits entries,
          listed_units us [],
        )
        refl,
    Same-add_each us s s stamped (record { index = refl; noted = refl; records = refl }),
  )
