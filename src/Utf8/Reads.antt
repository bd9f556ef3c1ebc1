-- ===== src/Utf8/Reads.antt =====
-- Utf8.h: `fromIndexText` reads back what `toIndexText` writes.
use vycor_cpp.Prelude.{
  ℕ, zero, suc, ◌+◌, ◌^◌, ◌%◌, ◌≤◌, ◌<◌, ◌≡◌, refl, sym, ap, ◌∙◌, inl, inr, true, false, ◌&&◌, List,
  [], ◌∷◌, ◌++◌, length, drop, take-append, drop-append, length-append, ◌==◌, le→leb, lt→leb_false,
  ==_iff, subst, arith,
}
use vycor_cpp.Utf8.{
  escape_base, seq_len, is_escape_code_point, append_escape, must_escape, needs_loop, to_loop,
  escape_value, from_loop,
}
use vycor_cpp.Utf8.Spec.{Bytes, IsScalar, encode}
use vycor_cpp.Utf8.Decode.{
  head_cases, seq_len-encode, must_escape-encode, is_escape-encode, append_escape_lem,
  escape_value-append_escape, encode_cons, length-encode_pos, length-encode_four,
}
use vycor_cpp.Utf8.Loops.{
  Bytes-append_right, to_loop-escape, to_loop-copy, escape_IsScalar, copied_shorter,
  to_loop-of_clean,
}

pub from_loop-escape :
    (fuel c : ℕ) (r : List ℕ)
    → seq_len (c ∷ r) ≡ 4
    → is_escape_code_point (c ∷ r) ≡ true
    → from_loop (suc fuel) (c ∷ r)
      ≡ (escape_value (c ∷ r) % 2 ^ 8) ∷ from_loop fuel (drop 4 (c ∷ r))
unfolding from_loop
from_loop-escape fuel c r n e = rw (n, e)

pub clean_tests :
    (s : List ℕ)
    → must_escape s ≡ false
    → ((seq_len s == 0) ≡ false) × ((seq_len s == 4 && is_escape_code_point s) ≡ false)
unfolding must_escape
clean_tests s e = ground arith

pub from_loop-copy :
    (fuel c : ℕ) (r u t : List ℕ)
    → must_escape (c ∷ r) ≡ false
    → c ∷ r ≡ u ++ t
    → seq_len (c ∷ r) ≡ length u
    → from_loop (suc fuel) (c ∷ r) ≡ u ++ from_loop fuel t
unfolding from_loop
from_loop-copy fuel c r u t e s n =
    let (some_sequence, no_escape) = clean_tests (c ∷ r) e in
    rw (no_escape, some_sequence, n, s, take-append u t, drop-append u t)

-- Reading back an escape gives its byte.
pub from_loop-append_escape :
    (fuel c : ℕ) (t : List ℕ)
    → 0x80 ≤ c
    → c < 256
    → from_loop (suc fuel) (append_escape c ++ t) ≡ c ∷ from_loop fuel t
from_loop-append_escape fuel c t l h =
    unfold append_escape in
    from_loop-escape fuel _ _ four reserved
    ∙ ap (λ x. x ∷ from_loop fuel t) (escape_value-append_escape c t h)
  where
    scalar : IsScalar (escape_base + c)
    scalar = escape_IsScalar c h

    four : seq_len (append_escape c ++ t) ≡ 4
    four =
        rw (append_escape_lem c h, seq_len-encode (escape_base + c) t scalar)
          ((==_iff _ 4).0 ((length-encode_four (escape_base + c)).1 (omega arith)))

    reserved : is_escape_code_point (append_escape c ++ t) ≡ true
    reserved =
        rw (append_escape_lem c h, is_escape-encode (escape_base + c) t scalar (omega arith))
          (le→leb 0x10FF80 (escape_base + c) (omega arith))

pub length-append_escape : (c : ℕ) → length (append_escape c) ≡ 4
unfolding append_escape
length-append_escape c = refl

-- One round of `from_loop`, given what the later rounds do.
pub from_loop-escape_step :
    (room c : ℕ) (t r : List ℕ)
    → 0x80 ≤ c
    → c < 256
    → length (append_escape c ++ t) ≤ room
    → ((g : ℕ) → length t ≤ g → from_loop g t ≡ r)
    → from_loop room (append_escape c ++ t) ≡ c ∷ r
from_loop-escape_step zero c t r l h k later =
    absurd (omega (arith, length-append (append_escape c) t, length-append_escape c))
from_loop-escape_step (suc room) c t r l h k later =
    from_loop-append_escape room c t l h
    ∙ ap (λ x. c ∷ x)
        (later room (omega (arith, length-append (append_escape c) t, length-append_escape c)))

pub from_loop-copy_step :
    (room p : ℕ) (t r : List ℕ)
    → IsScalar p
    → p < 0x10FF80
    → length (encode p ++ t) ≤ room
    → ((g : ℕ) → length t ≤ g → from_loop g t ≡ r)
    → from_loop room (encode p ++ t) ≡ encode p ++ r
from_loop-copy_step zero p t r h k l later =
    absurd (omega (arith, length-append (encode p) t, length-encode_pos p))
from_loop-copy_step (suc room) p t r h k l later =
    let (x, u, e) = encode_cons p in
    let cons : x ∷ u ++ t ≡ encode p ++ t = ap (λ y. y ++ t) (sym e) in
    ap (λ y. from_loop (suc room) (y ++ t)) e
    ∙ from_loop-copy room x (u ++ t) (encode p) t
        (rw (cons, must_escape-encode p t h) (lt→leb_false p 0x10FF80 k)) cons
        (rw (cons, seq_len-encode p t h))
    ∙ ap (◌++◌ (encode p))
        (later room (omega (arith, length-append (encode p) t, length-encode_pos p)))

pub from_loop-nil : (room : ℕ) → from_loop room [] ≡ []
unfolding from_loop
from_loop-nil zero = refl
from_loop-nil (suc room) = refl

pub to_loop-nil : (fuel : ℕ) → to_loop fuel [] ≡ []
unfolding to_loop
to_loop-nil zero = refl
to_loop-nil (suc fuel) = refl

pub from_loop-to_loop :
    (fuel : ℕ) (s : List ℕ)
    → Bytes s
    → length s ≤ fuel
    → (room : ℕ) → length (to_loop fuel s) ≤ room
    → from_loop room (to_loop fuel s) ≡ s
from_loop-to_loop fuel [] b l room k = ap (from_loop room) (to_loop-nil fuel) ∙ from_loop-nil room
from_loop-to_loop zero (c ∷ r) b l room k = absurd (omega arith)
from_loop-to_loop (suc fuel) (c ∷ r) b l room k = elim (head_cases c r b) [
  | inl (m, h) ↦
      let e = to_loop-escape fuel c r m in
      ap (from_loop room) e
      ∙ from_loop-escape_step room c (to_loop fuel r) r h b.0 (subst (λ x. length x ≤ room) e k)
          (from_loop-to_loop fuel r b.1 (omega arith))
  | inr (p, t, h, q, s, m, n) ↦
      let e = to_loop-copy fuel c r (encode p) t m s n in
      ap (from_loop room) e
      ∙ from_loop-copy_step room p (to_loop fuel t) t h q (subst (λ x. length x ≤ room) e k) (
          from_loop-to_loop fuel t (Bytes-append_right (encode p) t (subst Bytes s b))
            (copied_shorter fuel c p r t s l))
      ∙ sym s
]

-- Clean text is read back as it is.
pub from_loop-of_clean :
    (fuel : ℕ) (s : List ℕ)
    → Bytes s
    → length s ≤ fuel
    → needs_loop fuel s ≡ false
    → from_loop fuel s ≡ s
from_loop-of_clean fuel s b l e =
    let same = to_loop-of_clean fuel s b l e in
    ap (from_loop fuel) (sym same)
    ∙ from_loop-to_loop fuel s b l fuel (subst (λ x. length x ≤ fuel) (sym same) l)
