-- ===== src/Utf8/Tests.antt =====
-- Utf8.h at concrete inputs.
use vycor_cpp.Prelude.{
  ℕ, zero, suc, ◌≤◌, ◌≡◌, ◌≢◌, refl, ap, ◌∙◌, sym, subst, ◌↔◌, Bool, true, false, List, [], ◌∷◌,
  ◌++◌, All, length, drop, drop-append, length-append, ◌==◌, if◌then◌else◌, arith,
}
use vycor_cpp.Utf8.{
  seq_len, needs_index_escape, needs_loop, to_loop, must_escape, seq_three, is_cont, append_escape,
  to_index_text, from_index_text, lookup_text,
}
use vycor_cpp.Utf8.Spec.{Bytes, IsScalar, IsUtf8, encode, encode_all}
use vycor_cpp.Utf8.Decode.{seq_len-Starts, seq_len-encode, encode_cons, length-encode_pos}
use vycor_cpp.Utf8.Loops.{Bytes-append_right}
use vycor_cpp.Utf8.Lookup.{lookup_text_lem}
use vycor_cpp.Utf8.Laws.{
  from_index_text-to_index_text, to_index_text-IsUtf8, needs_index_escape_iff,
  to_index_text-encode_all,
}

-- "a\xe9" and U+10FF80.
abbrev latin : List ℕ
latin = 0x61 ∷ 0xE9 ∷ 0xF4 ∷ 0x8F ∷ 0xBE ∷ 0x80 ∷ []

latin_text : to_index_text (0x61 ∷ 0xE9 ∷ []) ≡ 0x61 ∷ 0xF4 ∷ 0x8F ∷ 0xBF ∷ 0xA9 ∷ []
unfolding to_index_text needs_index_escape needs_loop to_loop must_escape seq_len seq_three is_cont
    append_escape
latin_text = refl

from_index_text-to_index_text_example : from_index_text (to_index_text latin) ≡ latin
from_index_text-to_index_text_example = from_index_text-to_index_text latin (omega arith)

to_index_text-IsUtf8_example : IsUtf8 (to_index_text latin)
to_index_text-IsUtf8_example = to_index_text-IsUtf8 latin (omega arith)

needs_index_escape_iff_example : (needs_index_escape latin ≡ true) ↔ (to_index_text latin ≢ latin)
needs_index_escape_iff_example = needs_index_escape_iff latin (omega arith)

-- U+0061, U+00E9, U+20AC and U+1F600.
abbrev text : List ℕ
text = 0x61 ∷ 0xE9 ∷ 0x20AC ∷ 0x1F600 ∷ []

to_index_text-encode_all_example : to_index_text (encode_all text) ≡ encode_all text
to_index_text-encode_all_example = to_index_text-encode_all text (omega arith) (omega arith)

-- A checker that meets the hypothesis on `isUTF8`.
strict_loop : ℕ → List ℕ → Bool
strict_loop fuel [] = true
strict_loop zero (c ∷ r) = false
strict_loop (suc fuel) (c ∷ r) =
    let rest = strict_loop fuel (drop (seq_len (c ∷ r)) (c ∷ r)) in
    if seq_len (c ∷ r) == 0 then false else rest

strict : List ℕ → Bool
strict t = strict_loop (length t) t

strict_loop-copy :
    (fuel c p : ℕ) (r t : List ℕ)
    → c ∷ r ≡ encode p ++ t
    → seq_len (c ∷ r) ≡ length (encode p)
    → strict_loop (suc fuel) (c ∷ r) ≡ strict_loop fuel t
unfolding strict_loop
strict_loop-copy fuel c p r t s n =
    let positive : (seq_len (c ∷ r) == 0) ≡ false = ground (arith, length-encode_pos p) in
    rw (positive, n, s, drop-append (encode p) t)

strict_loop_sound : (fuel : ℕ) (t : List ℕ) → Bytes t → strict_loop fuel t ≡ true → IsUtf8 t
unfolding strict_loop encode_all
strict_loop_sound fuel [] b e = ([], tt, refl)
strict_loop_sound zero (c ∷ r) b e = cc
strict_loop_sound (suc fuel) (c ∷ r) b e =
    let found : seq_len (c ∷ r) ≢ 0 = λ z. ground arith in
    let (p, t, h, s, n) = seq_len-Starts (c ∷ r) b found in
    let (ps, all, eq) =
      strict_loop_sound fuel t (Bytes-append_right (encode p) t (subst Bytes s b))
        (sym (strict_loop-copy fuel c p r t s n) ∙ e) in
    (p ∷ ps, (h, all), s ∙ ap (◌++◌ (encode p)) eq)

strict_loop_complete :
    (fuel : ℕ) (ps : List ℕ)
    → All IsScalar ps
    → length (encode_all ps) ≤ fuel
    → strict_loop fuel (encode_all ps) ≡ true
unfolding strict_loop encode_all
strict_loop_complete fuel [] h l = refl
strict_loop_complete zero (p ∷ ps) h l =
    absurd (omega (arith, length-append (encode p) (encode_all ps), length-encode_pos p))
strict_loop_complete (suc fuel) (p ∷ ps) h l =
    let (x, u, e) = encode_cons p in
    let cons : x ∷ u ++ encode_all ps ≡ encode p ++ encode_all ps =
      ap (λ y. y ++ encode_all ps) (sym e) in
    sym (ap (strict_loop (suc fuel)) cons)
    ∙ strict_loop-copy fuel x p (u ++ encode_all ps) (encode_all ps) cons
        (rw cons (seq_len-encode p (encode_all ps) h.0))
    ∙ strict_loop_complete fuel ps h.1
        (omega (arith, length-append (encode p) (encode_all ps), length-encode_pos p))

strict_accepts : (t : List ℕ) → Bytes t → (strict t ≡ true) ↔ IsUtf8 t
unfolding strict
strict_accepts t b = (
  strict_loop_sound (length t) t b,
  λ (ps, h, e). rw e (strict_loop_complete (length (encode_all ps)) ps h (omega arith)),
)

lookup_text_lem_example :
    IsUtf8 (lookup_text strict latin)
    × (IsUtf8 latin → lookup_text strict latin ≡ latin)
    × ((IsUtf8 latin → ⊥) → lookup_text strict latin ≡ to_index_text latin)
    × (lookup_text strict (lookup_text strict latin) ≡ lookup_text strict latin)
lookup_text_lem_example = lookup_text_lem strict strict_accepts latin (omega arith)
