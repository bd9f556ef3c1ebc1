-- ===== src/Checkpoint/Journal/Open/Answers.antt =====
-- What a resumed run is told of a file: replayPhase1, replayPhase2 and attempts.
use vycor_cpp.Prelude.{
  ℕ, ◌≡◌, ◌↔◌, refl, ap, ◌∙◌, true, ◌&&◌, Option, none, some, List, [], ◌∷◌, list_eq, ◌==◌, ==_iff,
  if◌then◌else◌, arith,
}
use vycor_cpp.Checkpoint.Entries.{CheckIndexPayload}
use vycor_cpp.Checkpoint.Diagnostics.{
  TuStatus, indexed, partial, crashed, poisoned, skipped, timed_out, status_code, TuOutcome,
  Diagnostic,
}
use vycor_cpp.Checkpoint.Journal.{FileStamp, stamp_eq, Phase1Record, Phase2Record, insert, Loaded}
use vycor_cpp.Checkpoint.Journal.Open.{is_indexed, replay_phase1, replay_phase2}
use vycor_cpp.Checkpoint.Journal.Open.Tries.{stamp_eq_refl, stamp_eq→eq}
use vycor_cpp.Checkpoint.Journal.Session.{Call, attempt, phase1, phase2, recall, recall_all}

-- The last phase-1 record of a file among the calls.
pub last_phase1 : List ℕ → List Call → Option Phase1Record → Option Phase1Record
last_phase1 tu [] found = found
last_phase1 tu (attempt phase s why ∷ ks) found = last_phase1 tu ks found
last_phase1 tu (phase1 rec ∷ ks) found =
    last_phase1 tu ks (if list_eq tu rec.stamp.path then some rec else found)
last_phase1 tu (phase2 rec ∷ ks) found = last_phase1 tu ks found

pub last_phase2 : List ℕ → List Call → Option Phase2Record → Option Phase2Record
last_phase2 tu [] found = found
last_phase2 tu (attempt phase s why ∷ ks) found = last_phase2 tu ks found
last_phase2 tu (phase1 rec ∷ ks) found = last_phase2 tu ks found
last_phase2 tu (phase2 rec ∷ ks) found =
    last_phase2 tu ks (if list_eq tu rec.stamp.path then some rec else found)

pub recall_all-phase1 :
    (tu : List ℕ) (ks : List Call) (st : Loaded)
    → (recall_all ks st).phase1 tu ≡ last_phase1 tu ks (st.phase1 tu)
unfolding recall_all recall last_phase1 insert
recall_all-phase1 tu [] st = refl
recall_all-phase1 tu (attempt phase s why ∷ ks) st = recall_all-phase1 tu ks _
recall_all-phase1 tu (phase1 rec ∷ ks) st = recall_all-phase1 tu ks _
recall_all-phase1 tu (phase2 rec ∷ ks) st = recall_all-phase1 tu ks _

pub recall_all-phase2 :
    (tu : List ℕ) (ks : List Call) (st : Loaded)
    → (recall_all ks st).phase2 tu ≡ last_phase2 tu ks (st.phase2 tu)
unfolding recall_all recall last_phase2 insert
recall_all-phase2 tu [] st = refl
recall_all-phase2 tu (attempt phase s why ∷ ks) st = recall_all-phase2 tu ks _
recall_all-phase2 tu (phase1 rec ∷ ks) st = recall_all-phase2 tu ks _
recall_all-phase2 tu (phase2 rec ∷ ks) st = recall_all-phase2 tu ks _

indexed_iff :
    (s : TuStatus) → (is_indexed s ≡ true → s ≡ indexed) × (s ≡ indexed → is_indexed s ≡ true)
unfolding is_indexed status_code
indexed_iff indexed = (λ h. refl, λ h. refl)
indexed_iff partial = (λ h. cc h, λ h. cc h)
indexed_iff crashed = (λ h. cc h, λ h. cc h)
indexed_iff poisoned = (λ h. cc h, λ h. cc h)
indexed_iff skipped = (λ h. cc h, λ h. cc h)
indexed_iff timed_out = (λ h. cc h, λ h. cc h)

-- A record that answers the question: the last one of the file, clean, and of exactly this stamp.
abbrev pub Answers1 : Option Phase1Record → FileStamp → CheckIndexPayload → TuOutcome → Type 0
Answers1 found stamp p o =
    (rec : Phase1Record) × (found ≡ some rec)
    × (rec.stamp ≡ stamp)
    × (rec.outcome.status ≡ indexed)
    × (rec.payload ≡ p)
    × (rec.outcome ≡ o)

abbrev replayed : FileStamp → Option Phase1Record → Option (CheckIndexPayload × TuOutcome)
replayed stamp found = elim found [
  | none ↦ none
  | some rec ↦
      if stamp_eq rec.stamp stamp && is_indexed rec.outcome.status
      then some (rec.payload, rec.outcome)
      else none
]

payload_iff :
    (found : Option Phase1Record) (stamp : FileStamp) (p : CheckIndexPayload) (o : TuOutcome)
    → replayed stamp found ≡ some (p, o) ↔ Answers1 found stamp p o
payload_iff none stamp p o = (λ e. cc e, λ (rec, e, a, b, c, d). cc e)
payload_iff (some rec) stamp p o = (
  λ e.
      let clean : stamp_eq rec.stamp stamp ≡ true = ground arith in
      let whole : is_indexed rec.outcome.status ≡ true = ground arith in
      let found : ◌≡◌ {A = Option (CheckIndexPayload × TuOutcome)} (some (rec.payload, rec.outcome))
          (some (p, o)) =
        simp (clean, whole) at e in
      (
        rec,
        refl,
        stamp_eq→eq rec.stamp stamp clean,
        (indexed_iff rec.outcome.status).0 whole,
        cc,
        cc,
      ),
  λ (r, e, same, clean, payload, outcome).
      let the : rec ≡ r = cc in
      let of_stamp : stamp_eq rec.stamp stamp ≡ true =
        ap (λ x. stamp_eq x stamp) (ap (λ x. x.stamp) the ∙ same) ∙ stamp_eq_refl stamp in
      let whole : is_indexed rec.outcome.status ≡ true =
        (indexed_iff rec.outcome.status).1 (ap (λ x. x.outcome.status) the ∙ clean) in
      simp (of_stamp, whole)
        (λ i. some ((ap (λ x. x.payload) the ∙ payload) i, (ap (λ x. x.outcome) the ∙ outcome) i)),
)

pub replay_phase1_iff :
    (tu : List ℕ) (stamp : FileStamp) (st : Loaded) (p : CheckIndexPayload) (o : TuOutcome)
    → replay_phase1 tu stamp st ≡ some (p, o) ↔ Answers1 (st.phase1 tu) stamp p o
unfolding replay_phase1
replay_phase1_iff tu stamp st p o = payload_iff (st.phase1 tu) stamp p o

-- The same of phase 2, where the hash of the index set is asked for too.
abbrev pub Answers2 : Option Phase2Record → FileStamp → ℕ → List Diagnostic → TuOutcome → Type 0
Answers2 found stamp n p o =
    (rec : Phase2Record) × (found ≡ some rec)
    × (rec.stamp ≡ stamp)
    × (rec.index_set_hash ≡ n)
    × (rec.outcome.status ≡ indexed)
    × (rec.diagnostics ≡ p)
    × (rec.outcome ≡ o)

abbrev replayed_findings :
    FileStamp → ℕ → Option Phase2Record → Option (List Diagnostic × TuOutcome)
replayed_findings stamp n found = elim found [
  | none ↦ none
  | some rec ↦
      if stamp_eq rec.stamp stamp && (rec.index_set_hash == n && is_indexed rec.outcome.status)
      then some (rec.diagnostics, rec.outcome)
      else none
]

findings_iff :
    (found : Option Phase2Record) (stamp : FileStamp) (n : ℕ) (p : List Diagnostic) (o : TuOutcome)
    → replayed_findings stamp n found ≡ some (p, o) ↔ Answers2 found stamp n p o
findings_iff none stamp n p o = (λ e. cc e, λ (rec, e, a, b, c, d, f). cc e)
findings_iff (some rec) stamp n p o = (
  λ e.
      let clean : stamp_eq rec.stamp stamp ≡ true = ground arith in
      let hash : (rec.index_set_hash == n) ≡ true = ground arith in
      let whole : is_indexed rec.outcome.status ≡ true = ground arith in
      let found : ◌≡◌ {A = Option (List Diagnostic × TuOutcome)}
          (some (rec.diagnostics, rec.outcome)) (some (p, o)) =
        simp (clean, hash, whole) at e in
      (
        rec,
        refl,
        stamp_eq→eq rec.stamp stamp clean,
        (==_iff rec.index_set_hash n).0 hash,
        (indexed_iff rec.outcome.status).0 whole,
        cc,
        cc,
      ),
  λ (r, e, same, hash, clean, payload, outcome).
      let the : rec ≡ r = cc in
      let of_stamp : stamp_eq rec.stamp stamp ≡ true =
        ap (λ x. stamp_eq x stamp) (ap (λ x. x.stamp) the ∙ same) ∙ stamp_eq_refl stamp in
      let whole : is_indexed rec.outcome.status ≡ true =
        (indexed_iff rec.outcome.status).1 (ap (λ x. x.outcome.status) the ∙ clean) in
      let of_hash : (rec.index_set_hash == n) ≡ true =
        (==_iff rec.index_set_hash n).1 (ap (λ x. x.index_set_hash) the ∙ hash) in
      simp (of_stamp, of_hash, whole)
        (λ i.
          some ((ap (λ x. x.diagnostics) the ∙ payload) i, (ap (λ x. x.outcome) the ∙ outcome) i)),
)

pub replay_phase2_iff :
    (tu : List ℕ) (stamp : FileStamp) (n : ℕ) (st : Loaded) (p : List Diagnostic) (o : TuOutcome)
    → replay_phase2 tu stamp n st ≡ some (p, o) ↔ Answers2 (st.phase2 tu) stamp n p o
unfolding replay_phase2
replay_phase2_iff tu stamp n st p o = findings_iff (st.phase2 tu) stamp n p o
