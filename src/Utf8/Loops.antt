-- ===== src/Utf8/Loops.antt =====
-- Utf8.h: one round of the loops of `needsIndexEscape` and `toIndexText`.
use vycor_cpp.Prelude.{
  ℕ, zero, suc, ◌+◌, ◌≤◌, ◌<◌, ◌≡◌, refl, sym, ap, ◌∙◌, inl, inr, true, false, List, [], ◌∷◌, ◌++◌,
  length, drop, take-append, drop-append, length-append, ltb, Bool-cases, ltb→lt, le→ltb, subst,
  arith,
}
use vycor_cpp.Utf8.{escape_base, seq_len, append_escape, must_escape, needs_loop, to_loop}
use vycor_cpp.Utf8.Spec.{Bytes, IsScalar, IsUtf8, encode, encode_all}
use vycor_cpp.Utf8.Decode.{head_cases, append_escape_lem, seq_len_ascii, length-encode_pos}

pub Bytes-append_right : (u t : List ℕ) → Bytes (u ++ t) → Bytes t
Bytes-append_right [] t b = b
Bytes-append_right (x ∷ u) t b = Bytes-append_right u t b.1

-- The two kinds of round of `to_loop`.
pub to_loop-escape :
    (fuel c : ℕ) (r : List ℕ)
    → must_escape (c ∷ r) ≡ true
    → to_loop (suc fuel) (c ∷ r) ≡ append_escape c ++ to_loop fuel r
unfolding to_loop
to_loop-escape fuel c r e = rw e

pub to_loop-copy :
    (fuel c : ℕ) (r u t : List ℕ)
    → must_escape (c ∷ r) ≡ false
    → c ∷ r ≡ u ++ t
    → seq_len (c ∷ r) ≡ length u
    → to_loop (suc fuel) (c ∷ r) ≡ u ++ to_loop fuel t
unfolding to_loop
to_loop-copy fuel c r u t e s n = rw (e, n, s, take-append u t, drop-append u t)

pub encode_all-append_one : (p : ℕ) (t : List ℕ) → IsScalar p → IsUtf8 t → IsUtf8 (encode p ++ t)
unfolding encode_all
encode_all-append_one p t h (ps, all, e) = (p ∷ ps, (h, all), ap (◌++◌ (encode p)) e)

pub escape_IsScalar : (c : ℕ) → c < 256 → IsScalar (escape_base + c)
escape_IsScalar c h = (inr (omega arith), omega arith)

pub to_loop-IsUtf8 : (fuel : ℕ) (s : List ℕ) → Bytes s → IsUtf8 (to_loop fuel s)
unfolding to_loop encode_all
to_loop-IsUtf8 zero s b = ([], tt, refl)
to_loop-IsUtf8 (suc fuel) [] b = ([], tt, refl)
to_loop-IsUtf8 (suc fuel) (c ∷ r) b = elim (head_cases c r b) [
  | inl (e, _) ↦
      rw (to_loop-escape fuel c r e, append_escape_lem c b.0)
        (encode_all-append_one (escape_base + c) _ (escape_IsScalar c b.0)
          (to_loop-IsUtf8 fuel r b.1))
  | inr (p, t, h, _, s, e, n) ↦ rw (to_loop-copy fuel c r (encode p) t e s n) (
      encode_all-append_one p _ h
        (to_loop-IsUtf8 fuel t (Bytes-append_right (encode p) t (subst Bytes s b))))
]

pub needs_loop-copy :
    (fuel c : ℕ) (r u t : List ℕ)
    → must_escape (c ∷ r) ≡ false
    → c ∷ r ≡ u ++ t
    → seq_len (c ∷ r) ≡ length u
    → needs_loop (suc fuel) (c ∷ r) ≡ needs_loop fuel t
unfolding needs_loop
needs_loop-copy fuel c r u t e s n = elim (Bool-cases (ltb c 0x80)) [
  | inl a ↦ ground (arith, ap (needs_loop fuel) (rest a))
  | inr a ↦ rw (a, e, n, s, drop-append u t)
]
  where
    rest : ltb c 0x80 ≡ true → r ≡ t
    rest a =
        ap (λ k. drop k (c ∷ r)) (sym (seq_len_ascii c r (ltb→lt c 0x80 a)) ∙ n)
        ∙ ap (drop (length u)) s
        ∙ drop-append u t

pub needs_loop-escape :
    (fuel c : ℕ) (r : List ℕ)
    → must_escape (c ∷ r) ≡ true
    → 0x80 ≤ c
    → needs_loop (suc fuel) (c ∷ r) ≡ true
unfolding needs_loop
needs_loop-escape fuel c r e h = rw (e, le→ltb c 0x80 h)

-- The rest after a copied code point is shorter than the input.
pub copied_shorter :
    (fuel c p : ℕ) (r t : List ℕ)
    → c ∷ r ≡ encode p ++ t
    → length (c ∷ r) ≤ suc fuel
    → length t ≤ fuel
copied_shorter fuel c p r t s l =
    omega (arith, ap length s, length-append (encode p) t, length-encode_pos p)

pub needs_loop-zero : (s : List ℕ) → needs_loop zero s ≡ false
unfolding needs_loop
needs_loop-zero s = refl

pub needs_loop-nil : (fuel : ℕ) → needs_loop fuel [] ≡ false
unfolding needs_loop
needs_loop-nil zero = refl
needs_loop-nil (suc fuel) = refl

-- Without a byte to escape the loop copies its input.
pub to_loop-of_clean :
    (fuel : ℕ) (s : List ℕ)
    → Bytes s
    → length s ≤ fuel
    → needs_loop fuel s ≡ false
    → to_loop fuel s ≡ s
unfolding to_loop
to_loop-of_clean zero [] b l e = refl
to_loop-of_clean zero (c ∷ r) b l e = absurd (omega arith)
to_loop-of_clean (suc fuel) [] b l e = refl
to_loop-of_clean (suc fuel) (c ∷ r) b l e = elim (head_cases c r b) [
  | inl (m, h) ↦ cc (needs_loop-escape fuel c r m h, e)
  | inr (p, t, h, _, s, m, n) ↦
      rw (to_loop-copy fuel c r (encode p) t m s n, s)
        (ap (◌++◌ (encode p)) (
          to_loop-of_clean fuel t (Bytes-append_right (encode p) t (subst Bytes s b))
            (copied_shorter fuel c p r t s l)
            (sym (needs_loop-copy fuel c r (encode p) t m s n) ∙ e)))
]
