-- ===== src/Checkpoint/Journal/Open/Header.antt =====
-- Which files `open` takes up: those that begin with the header of this run, byte for byte.
use vycor_cpp.Prelude.{
  ℕ, zero, suc, ◌+◌, ◌*◌, ◌/◌, ◌%◌, ◌^◌, ◌≤◌, ◌<◌, ◌≡◌, ◌≢◌, ◌⊎◌, refl, sym, ap, ◌∙◌, inl, inr,
  Bool, true, false, ◌&&◌, Option, none, some, List, [], ◌∷◌, ◌++◌, append_assoc, length, take,
  drop, length-take, length-drop, take-append-drop, leb, leb→le, le→leb, list_eq→eq, ==_iff,
  Bool-cases, All, arith,
}
use vycor_cpp.Checkpoint.Wire.{put_le, put_u32, put_u64, need, of_le, read_le, u32, u64, ◌>>=◌, ret}
use vycor_cpp.Checkpoint.Wire.Reads.{at_bytes}
use vycor_cpp.Checkpoint.Journal.Open.{
  magic, version, put_header, read_header, is_reusable, Disk, open_journal,
}
use vycor_cpp.Checkpoint.Journal.Open.Reopen.{
  Works, fresh, reopened, take_all, is_reusable-put_header, open_journal-fresh, open_journal-reused,
}

abbrev IsBytes : List ℕ → Type 0
IsBytes = All (λ c. c < 2 ^ 8)

All-take {ℓ κ} : {A : Type ℓ} (P : A → Type κ) (n : ℕ) (xs : List A) → All P xs → All P (take n xs)
All-take P zero xs h = tt
All-take P (suc n) [] h = tt
All-take P (suc n) (x ∷ xs) (p, h) = (p, All-take P n xs h)

All-drop {ℓ κ} : {A : Type ℓ} (P : A → Type κ) (n : ℕ) (xs : List A) → All P xs → All P (drop n xs)
All-drop P zero xs h = h
All-drop P (suc n) [] h = tt
All-drop P (suc n) (x ∷ xs) (p, h) = All-drop P n xs h

-- Bytes are the little-endian form of the number that they stand for.
put_le-of_le : (bs : List ℕ) → IsBytes bs → put_le (length bs) (of_le bs) ≡ bs
unfolding put_le of_le
put_le-of_le [] h = refl
put_le-of_le (b ∷ bs) (byte, h) =
    let low : (b + 2 ^ 8 * of_le bs) % 2 ^ 8 ≡ b = omega arith in
    let high : (b + 2 ^ 8 * of_le bs) / 2 ^ 8 ≡ of_le bs = omega arith in
    rw (low, high, put_le-of_le bs h) refl

read_le-taken :
    (n : ℕ) (b : List ℕ)
    → n ≤ length b
    → read_le n (at_bytes b) ≡ (of_le (take n b), at_bytes (drop n b))
unfolding read_le need
read_le-taken n b h = rw (le→leb n (length b) h) refl

-- What the two fields of the header are read from.
read_header-fields :
    (b : List ℕ)
    → length b ≡ 12
    → (read_header (at_bytes b)).0 ≡ (of_le (take 4 b), of_le (take 8 (drop 4 b)))
unfolding read_header u32 u64 ◌>>=◌ ret
read_header-fields b e =
    rw
      (read_le-taken 4 b (omega arith), read_le-taken 8 (drop 4 b) (omega (arith, length-drop 4 b)))
      refl

-- What the test of `open` has seen of a file that it takes up.
record Seen (f : ℕ) (buf : List ℕ) : Type 0 where
  long : 16 ≤ length buf
  tagged : take 4 buf ≡ magic
  versioned : of_le (take 4 (take 12 (drop 4 buf))) ≡ version
  stamped : of_le (take 8 (drop 4 (take 12 (drop 4 buf)))) ≡ f

seen_long : (buf : List ℕ) → leb 16 (length buf) ≡ true → length (take 12 (drop 4 buf)) ≡ 12
seen_long buf h =
    let long = leb→le 16 (length buf) h in
    omega (arith, length-take 12 (drop 4 buf), length-drop 4 buf)

is_reusable-Seen : (f : ℕ) (buf : List ℕ) → is_reusable f buf ≡ true → Seen f buf
unfolding is_reusable
is_reusable-Seen f buf h =
    let (long, rest) = both _ _ h in
    let (tag, fields) = both _ _ rest in
    let (v, s) = both _ _ fields in
    let read = read_header-fields (take 12 (drop 4 buf)) (seen_long buf long) in
    record {
      long = leb→le 16 (length buf) long;
      tagged = list_eq→eq (take 4 buf) magic tag;
      versioned = sym (ap (λ (x : ℕ × ℕ). x.0) read) ∙ (==_iff _ version).0 v;
      stamped = sym (ap (λ (x : ℕ × ℕ). x.1) read) ∙ (==_iff _ f).0 s;
    }
  where
    both : (a b : Bool) → (a && b) ≡ true → (a ≡ true) × (b ≡ true)
    both true b h = (refl, h)
    both false b h = cc h

-- A field of bytes is the number's field.
put_le-field : (n v : ℕ) (bs : List ℕ) → length bs ≡ n → IsBytes bs → of_le bs ≡ v → bs ≡ put_le n v
put_le-field n v bs long bytes value =
    sym (put_le-of_le bs bytes) ∙ ap (λ k. put_le k (of_le bs)) long ∙ ap (put_le n) value

-- A file of bytes that is taken up begins with the header of this run.
is_reusable-begins :
    (f : ℕ) (buf : List ℕ)
    → IsBytes buf
    → is_reusable f buf ≡ true
    → buf ≡ put_header f ++ drop 12 (drop 4 buf)
unfolding put_header put_u32 put_u64
is_reusable-begins f buf bytes h =
    let seen = is_reusable-Seen f buf h in
    let b = drop 4 buf in
    let m = take 12 b in
    let m_bytes = All-take (λ c. c < 2 ^ 8) 12 b (All-drop (λ c. c < 2 ^ 8) 4 buf bytes) in
    let size : length m ≡ 12 =
      omega (arith, seen.long, length-take 12 (drop 4 buf), length-drop 4 buf) in
    let rest : length (drop 4 m) ≡ 8 = omega (arith, length-drop 4 m) in
    let whole : take 8 (drop 4 m) ≡ drop 4 m =
      ap (λ k. take k (drop 4 m)) (sym rest) ∙ take_all (drop 4 m) in
    let v : take 4 m ≡ put_le 4 version =
      put_le-field 4 version (take 4 m) (omega (arith, length-take 4 m))
        (All-take (λ c. c < 2 ^ 8) 4 m m_bytes) seen.versioned in
    let s : drop 4 m ≡ put_le 8 f =
      put_le-field 8 f (drop 4 m) rest (All-drop (λ c. c < 2 ^ 8) 4 m m_bytes)
        (sym (ap of_le whole) ∙ seen.stamped) in
    let header : m ≡ put_le 4 version ++ put_le 8 f =
      sym (take-append-drop 4 m) ∙ ap (λ x. x ++ drop 4 m) v ∙ ap (λ y. put_le 4 version ++ y) s in
    sym (take-append-drop 4 buf)
    ∙ ap (λ x. x ++ b) seen.tagged
    ∙ ap (λ y. magic ++ y) (sym (take-append-drop 12 b) ∙ ap (λ x. x ++ drop 12 b) header)
    ∙ sym (append_assoc magic (put_le 4 version ++ put_le 8 f) (drop 12 b))

-- The bytes of a file that can be read.
abbrev pub FileBytes : Option (List ℕ) → Type 0
FileBytes none = Unit
FileBytes (some buf) = IsBytes buf

-- If no other run holds the lock, the calls of the file system succeed, the fingerprint fits its
-- field and the file, where it can be read, holds bytes, then either the file begins with the header
-- of this format and fingerprint, byte for byte, and open returns the journal of what follows it,
-- cut where its records end, or the file cannot be read or does not begin with that header, and open
-- returns a journal that holds the header and nothing else.
pub open_journal_lem :
    (d : Disk) (file : Option (List ℕ)) (f : ℕ)
    → Works d
    → f < 2 ^ 64
    → FileBytes file
    → ((b : List ℕ) × (file ≡ some (put_header f ++ b))
        × (open_journal d file f ≡ some (reopened (put_header f) b)))
      ⊎ (((b : List ℕ) → file ≢ some (put_header f ++ b))
          × (open_journal d file f ≡ some (fresh f)))
open_journal_lem d none f w h bytes =
    inr ((λ b e. cc e), open_journal-fresh d none f w (λ buf e. cc e))
open_journal_lem d (some buf) f w h bytes = elim (Bool-cases (is_reusable f buf)) [
  | inl taken ↦
      let begins = ap some (is_reusable-begins f buf bytes taken) in
      inl (
        drop 12 (drop 4 buf),
        begins,
        ap (λ x. open_journal d x f) begins ∙ open_journal-reused d f (drop 12 (drop 4 buf)) w h,
      )
  | inr refused ↦ inr (
    (λ b e. cc (ap (is_reusable f) (some_same e), is_reusable-put_header f b h, refused)),
    open_journal-fresh d (some buf) f w (λ x e. sym (ap (is_reusable f) (some_same e)) ∙ refused),
  )
]
  where
    some_same : {x y : List ℕ} → some x ≡ some y → x ≡ y
    some_same e = cc e
