-- ===== src/Checkpoint/Journal/Open/Again.antt =====
-- `open` on a journal that was opened before, with nothing written between.
use vycor_cpp.Prelude.{
  ℕ, ◌+◌, ◌^◌, ◌≤◌, ◌<◌, ◌≡◌, refl, sym, ap, ◌∙◌, inl, inr, Bool, true, false, not, Option, none,
  some, List, [], ◌++◌, append-nil, length, take, drop, length-append, length-take, length-drop,
  take-append-drop, drop-append, take-append_le, drop-append_le, leb, ltb, leb→le, le→leb,
  Bool-cases, if◌then◌else◌, arith,
}
use vycor_cpp.Checkpoint.Journal.{Loaded, nothing_loaded, load_records, load_loop}
use vycor_cpp.Checkpoint.Journal.Record.{Checkpoint}
use vycor_cpp.Checkpoint.Journal.Open.{
  put_header, is_reusable, Disk, open_file, open_fresh, open_reused, open_journal,
}
use vycor_cpp.Checkpoint.Journal.Loading.{load_records_cut}
use vycor_cpp.Checkpoint.Journal.Open.Reopen.{
  Works, fresh, reopened, take-beyond, open_reused-cut, open_journal-reused, take_all,
  take_header_all,
}

-- Only the first sixteen bytes decide.
is_reusable-front :
    (f : ℕ) (h x y : List ℕ) → length h ≡ 16 → is_reusable f (h ++ x) ≡ is_reusable f (h ++ y)
unfolding is_reusable
is_reusable-front f h x y e =
    let middle : (z : List ℕ) → take 12 (drop 4 (h ++ z)) ≡ take 12 (drop 4 h) = λ z.
      ap (take 12) (drop-append_le 4 h z (omega arith))
      ∙ take-append_le 12 (drop 4 h) z (omega (arith, length-drop 4 h)) in
    let room : (z : List ℕ) → leb 16 (length (h ++ z)) ≡ true =
      λ z. le→leb 16 (length (h ++ z)) (omega (arith, length-append h z)) in
    rw
      (
        middle x,
        middle y,
        room x,
        room y,
        take-append_le 4 h x (omega arith),
        take-append_le 4 h y (omega arith),
      )
      refl

some_of_if {ℓ} :
    {A : Type ℓ} (b : Bool) (x : Option A) (c : A) → (if b then x else none) ≡ some c → x ≡ some c
some_of_if true x c e = e
some_of_if false x c e = cc e

none_if {ℓ} :
    {A : Type ℓ} (b : Bool) (x : Option A) (c : A) → (if b then none else x) ≡ some c → x ≡ some c
none_if true x c e = cc e
none_if false x c e = e

either_if {ℓ} :
    {A : Type ℓ} (b b' : Bool) (x : A) (c : A)
    → (if b then (if b' then some x else none) else some x) ≡ some c
    → c ≡ x
either_if true true x c e = cc e
either_if true false x c e = cc e
either_if false b' x c e = cc e

open_file-some :
    (d : Disk) (file : List ℕ) (n : ℕ) (st : Loaded) (c : Checkpoint)
    → open_file d file n st ≡ some c
    → c ≡ record { file = take n file; out = true; loaded = st }
unfolding open_file
open_file-some d file n st c e =
    either_if (ltb n (length file)) d.resized _ c (none_if (not d.opened) _ c e)

open_fresh-some : (d : Disk) (f : ℕ) (c : Checkpoint) → open_fresh d f ≡ some c → c ≡ fresh f
unfolding open_fresh
open_fresh-some d f c e =
    open_file-some d (put_header f) 16 nothing_loaded c (some_of_if d.published _ c e)
    ∙ ap (λ b. record { file = b; out = true; loaded = nothing_loaded }) (take_header_all f)

open_reused-some :
    (d : Disk) (h b : List ℕ) (c : Checkpoint)
    → length h ≡ 16
    → open_reused d (h ++ b) ≡ some c
    → c ≡ reopened h b
unfolding open_reused
open_reused-some d h b c l e =
    let rest : drop 16 (h ++ b) ≡ b = ap (λ n. drop n (h ++ b)) (sym l) ∙ drop-append h b in
    let (n, st) = load_records b nothing_loaded in
    open_file-some d (h ++ b) (16 + n) st c (simp rest at e)
    ∙ ap (λ k. record { file = take (k + n) (h ++ b); out = true; loaded = st }) (sym l)
    ∙ ap (λ x. record { file = x; out = true; loaded = st }) (take-beyond h b n)

-- A journal that opens is new, or it is what its file was opened as.
data Opened : ℕ → Checkpoint → Type 0 where
  new : {f : ℕ} {c : Checkpoint} → c ≡ fresh f → Opened f c
  old :
      {f : ℕ} {c : Checkpoint} (h b : List ℕ)
      → length h ≡ 16
      → is_reusable f (h ++ b) ≡ true
      → c ≡ reopened h b
      → Opened f c

open_reused-Opened :
    (d : Disk) (f : ℕ) (buf : List ℕ) (c : Checkpoint)
    → is_reusable f buf ≡ true
    → open_reused d buf ≡ some c
    → Opened f c
unfolding is_reusable
open_reused-Opened d f buf c r e =
    let split = take-append-drop 16 buf in
    let long : 16 ≤ length buf = leb→le 16 (length buf) (ground arith) in
    let size : length (take 16 buf) ≡ 16 = omega (arith, length-take 16 buf) in
    old (take 16 buf) (drop 16 buf) size (ap (is_reusable f) split ∙ r)
      (open_reused-some d (take 16 buf) (drop 16 buf) c size (ap (open_reused d) split ∙ e))

open_journal-Opened :
    (d : Disk) (file : Option (List ℕ)) (f : ℕ) (c : Checkpoint)
    → open_journal d file f ≡ some c
    → Opened f c
unfolding open_journal
open_journal-Opened d none f c e = new (open_fresh-some d f c (none_if d.busy _ c e))
open_journal-Opened d (some buf) f c e =
    let opens : (if is_reusable f buf then open_reused d buf else open_fresh d f) ≡ some c =
      none_if d.busy _ c e in
    elim (Bool-cases (is_reusable f buf)) [
      | inl r ↦ open_reused-Opened d f buf c r (simp r at opens)
      | inr r ↦ new (open_fresh-some d f c (simp r at opens))
    ]

-- The bytes up to the end of the last record load the same again.
load_records-again :
    (b : List ℕ)
    → load_records (take (load_records b nothing_loaded).0 b) nothing_loaded
      ≡ load_records b nothing_loaded
unfolding load_records load_loop
load_records-again b =
    let (n, st) = load_records b nothing_loaded in
    let (_, e) = load_records_cut b [] nothing_loaded in
    let none_after : n + 0 ≡ n = omega arith in
    ap (λ y. load_records y nothing_loaded) (sym (append-nil (take n b)))
    ∙ e
    ∙ ap (λ k. (k, st)) none_after

take_again : (n : ℕ) (b : List ℕ) → n ≤ length b → take n (take n b) ≡ take n b
take_again n b h =
    let size : length (take n b) ≡ n = omega (arith, length-take n b) in
    ap (λ k. take k (take n b)) (sym size) ∙ take_all (take n b)

reopened_again :
    (h b : List ℕ) → reopened h (take (load_records b nothing_loaded).0 b) ≡ reopened h b
reopened_again h b =
    let (n, st) = load_records b nothing_loaded in
    let (low, _) = load_records_cut b [] nothing_loaded in
    ap (λ x. record { file = h ++ take x.0 (take n b); out = true; loaded = x.1 })
      (load_records-again b)
    ∙ ap (λ y. record { file = h ++ y; out = true; loaded = st }) (take_again n b low)

open_Opened :
    (d : Disk) (f : ℕ) (c : Checkpoint)
    → Works d
    → f < 2 ^ 64
    → Opened f c
    → open_journal d (some c.file) f ≡ some c
unfolding open_journal load_records load_loop
open_Opened d f c w k (new e) =
    ap (λ x. open_journal d (some x.file) f) e
    ∙ ap (λ b. open_journal d (some b) f) (sym (append-nil (put_header f)))
    ∙ open_journal-reused d f [] w k
    ∙ ap (λ b. some (record { file = b; out = true; loaded = nothing_loaded }))
        (append-nil (put_header f))
    ∙ ap some (sym e)
open_Opened d f c w k (old h b size r e) =
    let n = (load_records b nothing_loaded).0 in
    ap (λ x. open_journal d (some x.file) f) e
    ∙ simp w.0
        (rw (is_reusable-front f h (take n b) b size ∙ r) (open_reused-cut d h (take n b) w size))
    ∙ ap some (reopened_again h b ∙ sym e)

-- If open has returned a journal, whatever bytes the file held, and no other run holds the lock, the
-- calls of the file system succeed and the fingerprint fits its field, then opening the file that it
-- left returns the same journal.
pub open_journal-open_journal :
    (d d' : Disk) (file : Option (List ℕ)) (f : ℕ) (c : Checkpoint)
    → Works d'
    → f < 2 ^ 64
    → open_journal d file f ≡ some c
    → open_journal d' (some c.file) f ≡ some c
open_journal-open_journal d d' file f c w h e =
    open_Opened d' f c w h (open_journal-Opened d file f c e)
