-- ===== src/Checkpoint/Wire/Reads.antt =====
-- A reader reads back what a writer appended, and leaves the bytes behind it.
use vycor_cpp.Prelude.{
  ℕ, zero, suc, ◌/◌, ◌%◌, ◌^◌, ◌<◌, ◌≡◌, refl, ap, sym, subst, true, List, [], ◌∷◌, ◌++◌,
  append_assoc, All, length, take, drop, take-append, drop-append, length-append, le→leb, arith,
}
use vycor_cpp.Checkpoint.Wire.{
  put_le, put_u8, put_u32, put_u64, put_str, put_all, put_list, put_pair, put_string_pairs, Reader,
  Read, ◌>>=◌, ret, need, of_le, read_le, u8, u32, u64, take_bytes, str, read_loop, read_list,
  read_pair, read_string_pairs,
}

abbrev pub at_bytes : List ℕ → Reader
at_bytes b = record { rest = b; ok = true }

-- `m` reads the bytes `b` as the value `a`, whatever follows them.
pub record Reads {ℓ} {A : Type ℓ} (m : Read A) (b : List ℕ) (a : A) : Type ℓ where
  pub run : (rest : List ℕ) → m (at_bytes (b ++ rest)) ≡ (a, at_bytes rest)

-- Two reads in a row.
pub Reads-bind {ℓ κ} :
    {A : Type ℓ} {B : Type κ} {m : Read A} (f : A → Read B) {b c : List ℕ} {a : A} {d : B}
    → Reads m b a
    → Reads (f a) c d
    → Reads (m >>= f) (b ++ c) d
unfolding ◌>>=◌
Reads-bind f {b = b} {c = c} p q = record {
  run = λ rest. rw (append_assoc b c rest, p.run (c ++ rest)) (q.run rest);
}

-- The last read, whose value the result holds.
pub Reads-last {ℓ κ} :
    {A : Type ℓ} {B : Type κ} {m : Read A} (g : A → B) {b : List ℕ} {a : A}
    → Reads m b a
    → Reads (m >>= λ x. ret (g x)) b (g a)
unfolding ◌>>=◌ ret
Reads-last g p = record { run = λ rest. rw (p.run rest) }

of_le-put_u32 : (v : ℕ) → v < 2 ^ 32 → of_le (put_le 4 v) ≡ v
unfolding of_le put_le
of_le-put_u32 v h = omega arith

of_le-put_u64 : (v : ℕ) → v < 2 ^ 64 → of_le (put_le 8 v) ≡ v
unfolding of_le put_le
of_le-put_u64 v h = omega arith

of_le-put_u8 : (v : ℕ) → v < 2 ^ 8 → of_le (put_le 1 v) ≡ v
unfolding of_le put_le
of_le-put_u8 v h = omega arith

length-put_le : (n v : ℕ) → length (put_le n v) ≡ n
unfolding put_le
length-put_le zero v = refl
length-put_le (suc n) v = ap suc (length-put_le n (v / 2 ^ 8))

-- `need` finds the bytes of the next item.
need_prefix :
    (b rest : List ℕ) → need (length b) (at_bytes (b ++ rest)) ≡ (true, at_bytes (b ++ rest))
unfolding need
need_prefix b rest =
    rw (le→leb (length b) (length (b ++ rest)) (omega (arith, length-append b rest))) refl

take_bytes-Reads : (s : List ℕ) → Reads (take_bytes (length s)) s s
unfolding take_bytes
take_bytes-Reads s = record {
  run = λ rest. rw (need_prefix s rest, take-append s rest, drop-append s rest) refl;
}

read_le-Reads : (n v : ℕ) → of_le (put_le n v) ≡ v → Reads (read_le n) (put_le n v) v
unfolding read_le
read_le-Reads n v h = record {
  run = λ rest.
      let b = put_le n v in
      let e = length-put_le n v in
      let fits : need n (at_bytes (b ++ rest)) ≡ (true, at_bytes (b ++ rest)) =
        subst (λ k. need k (at_bytes (b ++ rest)) ≡ (true, at_bytes (b ++ rest))) e
          (need_prefix b rest) in
      let first : take n (b ++ rest) ≡ b =
        subst (λ k. take k (b ++ rest) ≡ b) e (take-append b rest) in
      let later : drop n (b ++ rest) ≡ rest =
        subst (λ k. drop k (b ++ rest) ≡ rest) e (drop-append b rest) in
      rw (fits, first, later, h) refl;
}

pub u8-Reads : (v : ℕ) → v < 2 ^ 8 → Reads u8 (put_u8 v) v
unfolding u8 put_u8
u8-Reads v h = read_le-Reads 1 v (of_le-put_u8 v h)

pub u32-Reads : (v : ℕ) → v < 2 ^ 32 → Reads u32 (put_u32 v) v
unfolding u32 put_u32
u32-Reads v h = read_le-Reads 4 v (of_le-put_u32 v h)

pub u64-Reads : (v : ℕ) → v < 2 ^ 64 → Reads u64 (put_u64 v) v
unfolding u64 put_u64
u64-Reads v h = read_le-Reads 8 v (of_le-put_u64 v h)

-- A length that fits its field.
abbrev pub Fits {ℓ} : {A : Type ℓ} → List A → Type 0
Fits s = length s < 2 ^ 32

pub count-Reads {ℓ} :
    {A : Type ℓ} (s : List A) → Fits s → Reads u32 (put_u32 (length s % 2 ^ 32)) (length s)
count-Reads s h =
    let same : length s % 2 ^ 32 ≡ length s = omega arith in
    subst (λ k. Reads u32 (put_u32 k) (length s)) (sym same) (u32-Reads (length s) h)

pub str-Reads : (s : List ℕ) → Fits s → Reads str (put_str s) s
unfolding str put_str
str-Reads s h = Reads-bind _ (count-Reads s h) (take_bytes-Reads s)

module _ {ℓ κ} {A : Type ℓ} (P : A → Type κ) (m : Read A) (put : A → List ℕ)
    (item : (a : A) → P a → Reads m (put a) a) where
  read_loop-Reads : (xs : List A) → All P xs → Reads (read_loop (length xs) m) (put_all put xs) xs
  unfolding read_loop put_all
  read_loop-Reads [] h = record { run = λ rest. refl }
  read_loop-Reads (x ∷ xs) h = record {
    run = λ rest.
        rw
          (
            append_assoc (put x) (put_all put xs) rest,
            (item x h.0).run (put_all put xs ++ rest),
            (read_loop-Reads xs h.1).run rest,
          )
          refl;
  }

  pub read_list-Reads :
      (xs : List A) → Fits xs → All P xs → Reads (read_list m) (put_list put xs) xs
  unfolding read_list put_list
  read_list-Reads xs f h = Reads-bind _ (count-Reads xs f) (read_loop-Reads xs h)

pub read_pair-Reads : (p : List ℕ × List ℕ) → Fits p.0 × Fits p.1 → Reads read_pair (put_pair p) p
unfolding read_pair put_pair
read_pair-Reads p h = Reads-bind _ (str-Reads p.0 h.0) (Reads-last _ (str-Reads p.1 h.1))

-- A list whose strings all fit.
abbrev pub FitsStrings : List (List ℕ) → Type 0
FitsStrings xs = Fits xs × All Fits xs

abbrev pub FitsPairs : List (List ℕ × List ℕ) → Type 0
FitsPairs xs = Fits xs × All (λ p. Fits p.0 × Fits p.1) xs

pub strings-Reads :
    (xs : List (List ℕ)) → FitsStrings xs → Reads (read_list str) (put_list put_str xs) xs
strings-Reads xs h = read_list-Reads Fits str put_str str-Reads xs h.0 h.1

pub string_pairs-Reads :
    (xs : List (List ℕ × List ℕ)) → FitsPairs xs → Reads read_string_pairs (put_string_pairs xs) xs
unfolding read_string_pairs put_string_pairs
string_pairs-Reads xs h =
    read_list-Reads (λ p. Fits p.0 × Fits p.1) read_pair put_pair read_pair-Reads xs h.0 h.1
