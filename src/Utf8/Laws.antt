-- ===== src/Utf8/Laws.antt =====
-- The laws of index text: it is valid UTF-8, and the escape is exact and reversible.
use vycor_cpp.Prelude.{
  ℕ, zero, suc, ◌≤◌, ◌<◌, ◌≡◌, ◌≢◌, sym, ap, ◌∙◌, inl, inr, ◌↔◌, true, false, List, [], ◌∷◌, ◌++◌,
  All, length, length-append, if◌then◌else◌, Bool-cases, lt→leb_false, subst, arith,
}
use vycor_cpp.Utf8.{
  append_escape, needs_loop, needs_index_escape, to_loop, to_index_text, from_index_text,
}
use vycor_cpp.Utf8.Spec.{Bytes, IsScalar, IsUtf8, encode, encode_all}
use vycor_cpp.Utf8.Decode.{head_cases, seq_len-encode, must_escape-encode, encode_cons}
use vycor_cpp.Utf8.Loops.{
  to_loop-IsUtf8, Bytes-append_right, to_loop-escape, to_loop-copy, needs_loop-copy, copied_shorter,
  needs_loop-zero, needs_loop-nil, to_loop-of_clean,
}
use vycor_cpp.Utf8.Reads.{length-append_escape, from_loop-to_loop, from_loop-of_clean}

-- fromIndexText undoes toIndexText on every byte string, so the escape is injective.
pub from_index_text-to_index_text : (s : List ℕ) → Bytes s → from_index_text (to_index_text s) ≡ s
unfolding from_index_text to_index_text needs_index_escape
from_index_text-to_index_text s b = elim (Bool-cases (needs_loop (length s) s)) [
  | inl e ↦ rw e (from_loop-to_loop (length s) s b (omega arith) _ (omega arith))
  | inr e ↦ rw e (from_loop-of_clean (length s) s b (omega arith) e)
]

-- The index text of every byte string is the UTF-8 encoding of some sequence of Unicode scalar
-- values.
pub to_index_text-IsUtf8 : (s : List ℕ) → Bytes s → IsUtf8 (to_index_text s)
unfolding to_index_text needs_index_escape
to_index_text-IsUtf8 s b = elim (Bool-cases (needs_loop (length s) s)) [
  | inl e ↦ rw e (to_loop-IsUtf8 (length s) s b)
  | inr e ↦ rw e (
      subst IsUtf8 (to_loop-of_clean (length s) s b (omega arith) e)
        (to_loop-IsUtf8 (length s) s b))
]

-- An escape makes the text longer.
length-to_loop_ge :
    (fuel : ℕ) (s : List ℕ) → Bytes s → length s ≤ fuel → length s ≤ length (to_loop fuel s)
length-to_loop_ge fuel [] b l = omega arith
length-to_loop_ge zero (c ∷ r) b l = absurd (omega arith)
length-to_loop_ge (suc fuel) (c ∷ r) b l = elim (head_cases c r b) [
  | inl (m, h) ↦ rw (to_loop-escape fuel c r m) (
      omega (
        arith,
        length-append (append_escape c) (to_loop fuel r),
        length-append_escape c,
        length-to_loop_ge fuel r b.1 (omega arith),
      ))
  | inr (p, t, h, q, s, m, n) ↦
      let rest = Bytes-append_right (encode p) t (subst Bytes s b) in
      rw (to_loop-copy fuel c r (encode p) t m s n) (
        omega (
          arith,
          ap length s,
          length-append (encode p) t,
          length-append (encode p) (to_loop fuel t),
          length-to_loop_ge fuel t rest (copied_shorter fuel c p r t s l),
        ))
]

length-to_loop_gt :
    (fuel : ℕ) (s : List ℕ)
    → Bytes s
    → length s ≤ fuel
    → needs_loop fuel s ≡ true
    → length s < length (to_loop fuel s)
unfolding needs_loop
length-to_loop_gt zero s b l e = cc
length-to_loop_gt (suc fuel) [] b l e = cc
length-to_loop_gt (suc fuel) (c ∷ r) b l e = elim (head_cases c r b) [
  | inl (m, h) ↦ rw (to_loop-escape fuel c r m) (
      omega (
        arith,
        length-append (append_escape c) (to_loop fuel r),
        length-append_escape c,
        length-to_loop_ge fuel r b.1 (omega arith),
      ))
  | inr (p, t, h, q, s, m, n) ↦
      let rest = Bytes-append_right (encode p) t (subst Bytes s b) in
      let later = sym (needs_loop-copy fuel c r (encode p) t m s n) ∙ e in
      rw (to_loop-copy fuel c r (encode p) t m s n) (
        omega (
          arith,
          ap length s,
          length-append (encode p) t,
          length-append (encode p) (to_loop fuel t),
          length-to_loop_gt fuel t rest (copied_shorter fuel c p r t s l) later,
        ))
]

-- needsIndexEscape is true exactly if toIndexText changes the byte string.
pub needs_index_escape_iff :
    (s : List ℕ) → Bytes s → (needs_index_escape s ≡ true) ↔ (to_index_text s ≢ s)
unfolding needs_index_escape to_index_text
needs_index_escape_iff s b = elim (Bool-cases (needs_loop (length s) s)) [
  | inl e ↦ (
    λ _ same. absurd (
        omega (
          arith,
          length-to_loop_gt (length s) s b (omega arith) e,
          ap length (subst (λ x. (if x then to_loop (length s) s else s) ≡ s) e same),
        )),
    λ _. e,
  )
  | inr e ↦ (λ yes_needs. cc (yes_needs, e), λ changed. absurd (changed (rw e)))
]

encode_all-needs_loop :
    (fuel : ℕ) (ps : List ℕ)
    → All IsScalar ps
    → All (λ p. p < 0x10FF80) ps
    → needs_loop fuel (encode_all ps) ≡ false
unfolding encode_all
encode_all-needs_loop zero ps h k = needs_loop-zero (encode_all ps)
encode_all-needs_loop (suc fuel) [] h k = needs_loop-nil (suc fuel)
encode_all-needs_loop (suc fuel) (p ∷ ps) h k =
    let (x, u, e) = encode_cons p in
    let cons : x ∷ u ++ encode_all ps ≡ encode p ++ encode_all ps =
      ap (λ y. y ++ encode_all ps) (sym e) in
    sym (ap (needs_loop (suc fuel)) cons)
    ∙ needs_loop-copy fuel x (u ++ encode_all ps) (encode p) (encode_all ps)
        (rw (cons, must_escape-encode p (encode_all ps) h.0) (lt→leb_false p 0x10FF80 k.0)) cons
        (rw (cons, seq_len-encode p (encode_all ps) h.0))
    ∙ encode_all-needs_loop fuel ps h.1 k.1

-- The UTF-8 encoding of scalar values below U+10FF80 is its own index text.
pub to_index_text-encode_all :
    (ps : List ℕ)
    → All IsScalar ps
    → All (λ p. p < 0x10FF80) ps
    → to_index_text (encode_all ps) ≡ encode_all ps
unfolding to_index_text needs_index_escape
to_index_text-encode_all ps h k = rw (encode_all-needs_loop _ ps h k)
