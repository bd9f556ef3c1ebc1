-- ===== src/Utf8/Decode.antt =====
-- The tests of one sequence against the encoding of code points.
use vycor_cpp.Prelude.{
  ℕ, ◌+◌, ◌/◌, ◌%◌, ◌-◌, ◌*◌, ◌^◌, ◌≤◌, ◌<◌, ◌≡◌, ◌≢◌, refl, ◌⊎◌, inl, inr, ◌↔◌, Bool, true, false,
  ◌&&◌, List, [], ◌∷◌, ◌++◌, length, ltb, leb, ◌==◌, ==_iff, list_eq, list_eq→eq, if-intro,
  Bool-cases, arith,
}
use vycor_cpp.Prelude.Table.{table_holds, table_row}
use vycor_cpp.Utf8.{
  escape_base, is_cont, seq_two, seq_three, seq_four, seq_len, is_escape_code_point, append_escape,
  escape_value, must_escape,
}
use vycor_cpp.Utf8.Spec.{Bytes, IsScalar, encode}

is_cont_table : table_holds (λ x. is_cont (0x80 + x)) 64 ≡ true
unfolding table_holds is_cont
is_cont_table = refl

is_cont_of_low : (x : ℕ) → is_cont (0x80 + x % 64) ≡ true
is_cont_of_low x = table_row (λ y. is_cont (0x80 + y)) 64 is_cont_table (x % 64) (omega arith)

abbrev implies : Bool → Bool → Bool
implies true b = b
implies false b = true

is_cont_range_table : table_holds (λ c. implies (is_cont c) (leb 0x80 c && ltb c 0xC0)) 256 ≡ true
unfolding table_holds is_cont
is_cont_range_table = refl

is_cont_range : (c : ℕ) → c < 256 → is_cont c ≡ true → (0x80 ≤ c) × (c < 0xC0)
is_cont_range c b h = ground (arith, table_row _ 256 is_cont_range_table c b)

-- The encoding of a scalar value is one sequence, whatever follows.
pub seq_len-encode : (p : ℕ) (t : List ℕ) → IsScalar p → seq_len (encode p ++ t) ≡ length (encode p)
unfolding seq_len seq_two seq_three seq_four encode
seq_len-encode p t h =
    ground (arith, is_cont_of_low p, is_cont_of_low (p / 64), is_cont_of_low (p / 4096))

-- A sequence that the code finds is the encoding of a scalar value.
abbrev pub Starts : List ℕ → ℕ → Type 0
Starts s n = (p : ℕ) × (t : List ℕ) × IsScalar p × (s ≡ encode p ++ t) × (n ≡ length (encode p))

pub is_escape-encode :
    (p : ℕ) (t : List ℕ)
    → IsScalar p
    → 0x10000 ≤ p
    → is_escape_code_point (encode p ++ t) ≡ leb 0x10FF80 p
unfolding is_escape_code_point encode
is_escape-encode p t h k = ground arith

pub length-encode_four : (p : ℕ) → ((length (encode p) == 4) ≡ true) ↔ (0x10000 ≤ p)
unfolding encode
length-encode_four p = ground arith

escape_table : table_holds (λ b. list_eq (append_escape b) (encode (escape_base + b))) 256 ≡ true
unfolding table_holds append_escape encode list_eq
escape_table = refl

pub append_escape_lem : (b : ℕ) → b < 256 → append_escape b ≡ encode (escape_base + b)
append_escape_lem b h = list_eq→eq _ _ (table_row _ 256 escape_table b h)

encode_one : (c : ℕ) → c < 0x80 → encode c ≡ c ∷ []
unfolding encode
encode_one c h = ground arith

encode_two :
    (c d : ℕ)
    → 0xC2 ≤ c
    → c ≤ 0xDF
    → 0x80 ≤ d
    → d < 0xC0
    → encode ((c - 0xC0) * 64 + (d - 0x80)) ≡ c ∷ d ∷ []
unfolding encode
encode_two c d a b e f = ground arith

encode_three :
    (c d e : ℕ)
    → 0xE0 ≤ c
    → c ≤ 0xEF
    → 0x80 ≤ d
    → d < 0xC0
    → 0x80 ≤ e
    → e < 0xC0
    → 0x800 ≤ (c - 0xE0) * 4096 + (d - 0x80) * 64 + (e - 0x80)
    → encode ((c - 0xE0) * 4096 + (d - 0x80) * 64 + (e - 0x80)) ≡ c ∷ d ∷ e ∷ []
unfolding encode
encode_three c d e = ground arith

encode_four :
    (c d e f : ℕ)
    → 0xF0 ≤ c
    → c ≤ 0xF4
    → 0x80 ≤ d
    → d < 0xC0
    → 0x80 ≤ e
    → e < 0xC0
    → 0x80 ≤ f
    → f < 0xC0
    → 0x10000 ≤ (c - 0xF0) * 262144 + (d - 0x80) * 4096 + (e - 0x80) * 64 + (f - 0x80)
    → encode ((c - 0xF0) * 262144 + (d - 0x80) * 4096 + (e - 0x80) * 64 + (f - 0x80))
      ≡ c ∷ d ∷ e ∷ f ∷ []
unfolding encode
encode_four c d e f = ground arith

starts :
    {n : ℕ} (p : ℕ) (u t : List ℕ) → IsScalar p → encode p ≡ u → n ≡ length u → Starts (u ++ t) n
starts p u t h e l = (p, t, h, rw e refl, rw e l)

module _ (c : ℕ) (bound : c < 256) where
  two-Starts :
      (r : List ℕ) → Bytes r → 0xC2 ≤ c → c ≤ 0xDF → seq_two r ≢ 0 → Starts (c ∷ r) (seq_two r)
  unfolding seq_two
  two-Starts [] b l u h = absurd (h refl)
  two-Starts (d ∷ r) (b, _) l u h = elim (Bool-cases (is_cont d)) [
    | inr e ↦ absurd (h (rw e))
    | inl e ↦
        let (lo, hi) = is_cont_range d b e in
        starts ((c - 0xC0) * 64 + (d - 0x80)) (c ∷ d ∷ []) r (ground arith)
          (encode_two c d l u lo hi) (rw e)
  ]

  three-Starts :
      (r : List ℕ)
      → Bytes r
      → 0xE0 ≤ c
      → c ≤ 0xEF
      → seq_three c r ≢ 0
      → Starts (c ∷ r) (seq_three c r)
  unfolding seq_three
  three-Starts [] b l u h = absurd (h refl)
  three-Starts (d ∷ []) b l u h = absurd (h refl)
  three-Starts (d ∷ e ∷ r) (bd, rest) l u h =
      let conts : (is_cont d ≡ true) × (is_cont e ≡ true) = ground arith in
      let (ld, ud) = is_cont_range d bd conts.0 in
      let (le, ue) = is_cont_range e rest.0 conts.1 in
      starts ((c - 0xE0) * 4096 + (d - 0x80) * 64 + (e - 0x80)) (c ∷ d ∷ e ∷ []) r (ground arith)
        (encode_three c d e l u ld ud le ue (ground arith)) (ground arith)

  four-Starts :
      (r : List ℕ)
      → Bytes r
      → 0xF0 ≤ c
      → c ≤ 0xF4
      → seq_four c r ≢ 0
      → Starts (c ∷ r) (seq_four c r)
  unfolding seq_four
  four-Starts [] b l u h = absurd (h refl)
  four-Starts (d ∷ []) b l u h = absurd (h refl)
  four-Starts (d ∷ e ∷ []) b l u h = absurd (h refl)
  four-Starts (d ∷ e ∷ f ∷ r) (bd, rest) l u h =
      let conts : (is_cont d ≡ true) × (is_cont e ≡ true) × (is_cont f ≡ true) = ground arith in
      let (ld, ud) = is_cont_range d bd conts.0 in
      let (le, ue) = is_cont_range e rest.0 conts.1 in
      let (lf, uf) = is_cont_range f rest.1.0 conts.2 in
      starts ((c - 0xF0) * 262144 + (d - 0x80) * 4096 + (e - 0x80) * 64 + (f - 0x80))
        (c ∷ d ∷ e ∷ f ∷ []) r (ground arith)
        (encode_four c d e f l u ld ud le ue lf uf (ground arith)) (ground arith)

-- What the code takes for a sequence is the encoding of a scalar value.
pub seq_len-Starts : (s : List ℕ) → Bytes s → seq_len s ≢ 0 → Starts s (seq_len s)
unfolding seq_len
seq_len-Starts [] b h = absurd (h refl)
seq_len-Starts (c ∷ r) (bc, br) h =
    if-intro P (ltb c 0x80)
      (λ e _. starts c (c ∷ []) r (ground arith) (encode_one c (ground arith)) refl)
      (λ _.
        if-intro P (leb 0xC2 c && leb c 0xDF)
          (λ e. two-Starts c bc r br (ground arith) (ground arith))
          (λ _.
            if-intro P (leb 0xE0 c && leb c 0xEF)
              (λ e. three-Starts c bc r br (ground arith) (ground arith))
              (λ _.
                if-intro P (leb 0xF0 c && leb c 0xF4)
                  (λ e. four-Starts c bc r br (ground arith) (ground arith))
                  (λ _ k. absurd (k refl)))))
      h
  where
    P : ℕ → Type 0
    P n = n ≢ 0 → Starts (c ∷ r) n

escape_value_table : table_holds (λ b. escape_value (append_escape b) % 2 ^ 8 == b) 256 ≡ true
unfolding table_holds append_escape escape_value
escape_value_table = refl

-- The value that an escape carries.
pub escape_value-append_escape :
    (b : ℕ) (t : List ℕ) → b < 256 → escape_value (append_escape b ++ t) % 2 ^ 8 ≡ b
unfolding append_escape escape_value
escape_value-append_escape b t h = (==_iff _ b).0 (table_row _ 256 escape_value_table b h)

-- The length of an encoding, from one to four bytes.
pub encode_cons : (p : ℕ) → (c : ℕ) × (u : List ℕ) × (encode p ≡ c ∷ u)
unfolding encode
encode_cons p =
    if-intro (λ l. (c : ℕ) × (u : List ℕ) × (l ≡ c ∷ u)) (ltb p 0x80) (λ _. (_, _, refl))
      (λ _.
        if-intro (λ l. (c : ℕ) × (u : List ℕ) × (l ≡ c ∷ u)) (ltb p 0x800) (λ _. (_, _, refl))
          (λ _.
            if-intro (λ l. (c : ℕ) × (u : List ℕ) × (l ≡ c ∷ u)) (ltb p 0x10000) (λ _. (_, _, refl))
              (λ _. (_, _, refl))))

-- What a loop does at the head of its input: escape a byte, or copy a code point.
abbrev pub Escapes : ℕ → List ℕ → Type 0
Escapes c r = (must_escape (c ∷ r) ≡ true) × (0x80 ≤ c)

abbrev pub Copies : ℕ → List ℕ → Type 0
Copies c r =
    (p : ℕ) × (t : List ℕ) × IsScalar p
    × (p < 0x10FF80)
    × (c ∷ r ≡ encode p ++ t)
    × (must_escape (c ∷ r) ≡ false)
    × (seq_len (c ∷ r) ≡ length (encode p))

pub seq_len_ascii : (c : ℕ) (r : List ℕ) → c < 0x80 → seq_len (c ∷ r) ≡ 1
unfolding seq_len
seq_len_ascii c r h = ground arith

escape_head : (p c : ℕ) (r t : List ℕ) → 0x10000 ≤ p → c ∷ r ≡ encode p ++ t → 0x80 ≤ c
unfolding encode
escape_head p c r t h e = ground arith

pub length-encode_pos : (p : ℕ) → 0 < length (encode p)
length-encode_pos p = let (c, u, e) = encode_cons p in rw e (omega arith)

-- Of the scalar values only those of the reserved range are escaped.
pub must_escape-encode :
    (p : ℕ) (t : List ℕ) → IsScalar p → must_escape (encode p ++ t) ≡ leb 0x10FF80 p
unfolding must_escape
must_escape-encode p t h =
    rw (seq_len-encode p t h)
      (ground (arith, length-encode_pos p, length-encode_four p, is_escape-encode p t h))

no_sequence : (c : ℕ) (r : List ℕ) → (seq_len (c ∷ r) == 0) ≡ true → must_escape (c ∷ r) ≡ true
unfolding must_escape
no_sequence c r e = rw e

-- The two cases of a round of a loop.
pub head_cases : (c : ℕ) (r : List ℕ) → Bytes (c ∷ r) → Escapes c r ⊎ Copies c r
head_cases c r b = elim (Bool-cases (seq_len (c ∷ r) == 0)) [
  | inl e ↦ inl (no_sequence c r e, ground (arith, seq_len_ascii c r))
  | inr e ↦ sequence (seq_len-Starts (c ∷ r) b (ground arith))
]
  where
    sequence : Starts (c ∷ r) (seq_len (c ∷ r)) → Escapes c r ⊎ Copies c r
    sequence (p, t, h, s, n) = elim (Bool-cases (leb 0x10FF80 p)) [
      | inl m ↦ inl (rw (s, must_escape-encode p t h) m, escape_head p c r t (ground arith) s)
      | inr m ↦ inr (p, t, h, ground arith, s, rw (s, must_escape-encode p t h) m, n)
    ]
