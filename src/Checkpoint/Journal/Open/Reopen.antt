-- ===== src/Checkpoint/Journal/Open/Reopen.antt =====
-- `open` on what an earlier run left.
use vycor_cpp.Prelude.{
  ℕ, suc, ◌+◌, ◌^◌, ◌<◌, ◌≡◌, refl, sym, ap, ◌∙◌, inl, inr, true, false, Option, none, some, List,
  [], ◌∷◌, ◌++◌, append-nil, length, take, drop, length-append, take-append, drop-append, ltb,
  le→leb, list_eq, ◌==◌, ==_iff, Bool-cases, arith,
}
use vycor_cpp.Checkpoint.Wire.{put_u32, put_u64, put_le}
use vycor_cpp.Checkpoint.Wire.Reads.{Reads, Reads-bind, Reads-last, at_bytes, u32-Reads, u64-Reads}
use vycor_cpp.Checkpoint.Journal.{Loaded, nothing_loaded, load_records, load_loop}
use vycor_cpp.Checkpoint.Journal.Record.{Checkpoint, Write}
use vycor_cpp.Checkpoint.Journal.Open.{
  magic, version, put_header, read_header, is_reusable, Disk, open_file, open_fresh, open_reused,
  open_journal,
}
use vycor_cpp.Checkpoint.Journal.Loading.{IsWhole}
use vycor_cpp.Checkpoint.Journal.Session.{
  Call, run, recall_all, FitsRun, kept, debris, frames_of, run-file, load_records-kept,
}

pub length-put_header : (f : ℕ) → length (put_header f) ≡ 16
unfolding put_header put_u32 put_u64 put_le
length-put_header f = refl

header-Reads :
    (v f : ℕ) → v < 2 ^ 32 → f < 2 ^ 64 → Reads read_header (put_u32 v ++ put_u64 f) (v, f)
unfolding read_header
header-Reads v f h k = Reads-bind _ (u32-Reads v h) (Reads-last _ (u64-Reads f k))

header_read :
    (v f : ℕ)
    → v < 2 ^ 32
    → f < 2 ^ 64
    → read_header (at_bytes (put_u32 v ++ put_u64 f)) ≡ ((v, f), at_bytes [])
header_read v f h k =
    ap (λ b. read_header (at_bytes b)) (sym (append-nil (put_u32 v ++ put_u64 f)))
    ∙ (header-Reads v f h k).run []

take_header :
    (f : ℕ) (b : List ℕ) → take 12 (drop 4 (put_header f ++ b)) ≡ put_u32 version ++ put_u64 f
unfolding put_header put_u32 put_u64 put_le
take_header f b = refl

take-magic : (f : ℕ) (b : List ℕ) → take 4 (put_header f ++ b) ≡ magic
unfolding put_header
take-magic f b = refl

drop_header : (f : ℕ) (b : List ℕ) → drop 16 (put_header f ++ b) ≡ b
unfolding put_header put_u32 put_u64 put_le
drop_header f b = refl

eq_refl : (n : ℕ) → (n == n) ≡ true
eq_refl n = (==_iff n n).1 refl

-- A file that starts with this run's header is taken up.
pub is_reusable-put_header :
    (f : ℕ) (b : List ℕ) → f < 2 ^ 64 → is_reusable f (put_header f ++ b) ≡ true
unfolding is_reusable list_eq
is_reusable-put_header f b h =
    rw
      (
        take_header f b,
        take-magic f b,
        header_read version f (omega arith) h,
        le→leb 16 (length (put_header f ++ b))
            (omega (arith, length-append (put_header f) b, length-put_header f)),
        eq_refl f,
      )
      refl

abbrev pub Works : Disk → Type 0
Works d = (d.busy ≡ false) × (d.published ≡ true) × (d.opened ≡ true) × (d.resized ≡ true)

pub take-beyond : (h b : List ℕ) (n : ℕ) → take (length h + n) (h ++ b) ≡ h ++ take n b
take-beyond [] b n = let none_before : 0 + n ≡ n = omega arith in ap (λ k. take k b) none_before
take-beyond (x ∷ h) b n =
    let one_before : length (x ∷ h) + n ≡ suc (length h + n) = omega arith in
    ap (λ k. take k (x ∷ (h ++ b))) one_before ∙ ap (λ t. x ∷ t) (take-beyond h b n)

pub open_file_lem :
    (d : Disk) (file : List ℕ) (n : ℕ) (st : Loaded)
    → Works d
    → open_file d file n st ≡ some (record { file = take n file; out = true; loaded = st })
unfolding open_file
open_file_lem d file n st (busy, _, opened, resized) = elim (Bool-cases (ltb n (length file))) [
  | inl e ↦ rw (opened, e, resized) refl
  | inr e ↦ rw (opened, e) refl
]

-- What a file of a header and other bytes is opened as.
abbrev pub reopened : List ℕ → List ℕ → Checkpoint
reopened h b = record {
  file = h ++ take (load_records b nothing_loaded).0 b;
  out = true;
  loaded = (load_records b nothing_loaded).1;
}

pub open_reused-cut :
    (d : Disk) (h b : List ℕ)
    → Works d
    → length h ≡ 16
    → open_reused d (h ++ b) ≡ some (reopened h b)
unfolding open_reused
open_reused-cut d h b w e =
    let rest : drop 16 (h ++ b) ≡ b = ap (λ n. drop n (h ++ b)) (sym e) ∙ drop-append h b in
    let (n, st) = load_records b nothing_loaded in
    rw rest (
      open_file_lem d (h ++ b) (16 + n) st w
      ∙ ap (λ k. some (record { file = take (k + n) (h ++ b); out = true; loaded = st })) (sym e)
      ∙ ap (λ x. some (record { file = x; out = true; loaded = st })) (take-beyond h b n))

pub open_journal-reused :
    (d : Disk) (f : ℕ) (b : List ℕ)
    → Works d
    → f < 2 ^ 64
    → open_journal d (some (put_header f ++ b)) f ≡ some (reopened (put_header f) b)
unfolding open_journal
open_journal-reused d f b w h =
    simp w.0 (
      rw (is_reusable-put_header f b h)
        (open_reused-cut d (put_header f) b w (length-put_header f)))

IsWhole-nil : IsWhole [] nothing_loaded
unfolding load_records load_loop
IsWhole-nil = refl

-- A journal that a run has just made.
abbrev pub fresh : ℕ → Checkpoint
fresh f = record { file = put_header f; out = true; loaded = nothing_loaded }

pub take_all : (b : List ℕ) → take (length b) b ≡ b
take_all b = ap (take (length b)) (sym (append-nil b)) ∙ take-append b []

pub take_header_all : (f : ℕ) → take 16 (put_header f) ≡ put_header f
take_header_all f =
    ap (λ n. take n (put_header f)) (sym (length-put_header f)) ∙ take_all (put_header f)

open_file-fresh :
    (d : Disk) (f : ℕ) → Works d → open_file d (put_header f) 16 nothing_loaded ≡ some (fresh f)
open_file-fresh d f w =
    open_file_lem d (put_header f) 16 nothing_loaded w
    ∙ ap (λ b. some (record { file = b; out = true; loaded = nothing_loaded })) (take_header_all f)

-- A file that cannot be read or that the test refuses makes way for a new journal.
pub open_journal-fresh :
    (d : Disk) (file : Option (List ℕ)) (f : ℕ)
    → Works d
    → ((buf : List ℕ) → file ≡ some buf → is_reusable f buf ≡ false)
    → open_journal d file f ≡ some (fresh f)
unfolding open_journal open_fresh
open_journal-fresh d none f w h = simp w.0 (simp w.1 (open_file-fresh d f w))
open_journal-fresh d (some buf) f w h =
    simp w.0 (rw (h buf refl) (simp w.1 (open_file-fresh d f w)))

-- If no other run holds the lock, the calls of the file system succeed at the next open, the
-- fingerprint fits its field, every recorded call fits the widths of its record and a failing write
-- stops inside its record, then opening the journal that a run of recordAttempt, recordPhase1 and
-- recordPhase2 calls left gives the maps that the calls before the first failing write stand for,
-- and the file cut at the end of their records.
pub open_journal-run :
    (d : Disk) (f : ℕ) (ws : List (Write × Call))
    → Works d
    → f < 2 ^ 64
    → FitsRun ws
    → open_journal d (some (run ws (fresh f)).file) f
      ≡ some (record {
        file = put_header f ++ frames_of (kept ws);
        out = true;
        loaded = recall_all (kept ws) nothing_loaded;
      })
unfolding load_records load_loop
open_journal-run d f ws w h fits =
    let b = frames_of (kept ws) ++ debris ws in
    let loads = load_records-kept ws [] nothing_loaded IsWhole-nil fits in
    ap (λ file. open_journal d (some file) f) (run-file ws (fresh f) refl)
    ∙ open_journal-reused d f b w h
    ∙ ap (λ x. some (record { file = put_header f ++ take x.0 b; out = true; loaded = x.1 })) loads
    ∙ ap
        (λ y. some (record {
          file = put_header f ++ y;
          out = true;
          loaded = recall_all (kept ws) nothing_loaded;
        }))
        (take-append (frames_of (kept ws)) (debris ws))
