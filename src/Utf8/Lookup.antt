-- ===== src/Utf8/Lookup.antt =====
-- Utf8.h: keys of unknown provenance. `is_utf8` is `llvm::json::isUTF8`, which accepts a byte string
-- if and only if it is the UTF-8 text of scalar values.
use vycor_cpp.Prelude.{
  ℕ, ◌≡◌, refl, inl, inr, ◌↔◌, Bool, true, List, [], ◌∷◌, ◌++◌, All, Bool-cases, arith,
}
use vycor_cpp.Utf8.{lookup_text, to_index_text}
use vycor_cpp.Utf8.Spec.{Bytes, IsScalar, IsUtf8, encode, encode_all}
use vycor_cpp.Utf8.Laws.{to_index_text-IsUtf8}

All-append {ℓ κ} :
    {A : Type ℓ} (P : A → Type κ) (xs ys : List A) → All P xs → All P ys → All P (xs ++ ys)
All-append P [] ys h k = k
All-append P (x ∷ xs) ys h k = (h.0, All-append P xs ys h.1 k)

Bytes-encode : (p : ℕ) → IsScalar p → Bytes (encode p)
unfolding encode
Bytes-encode p h = ground arith

pub Bytes-encode_all : (ps : List ℕ) → All IsScalar ps → Bytes (encode_all ps)
unfolding encode_all
Bytes-encode_all [] h = tt
Bytes-encode_all (p ∷ ps) h =
    All-append _ (encode p) (encode_all ps) (Bytes-encode p h.0) (Bytes-encode_all ps h.1)

Bytes-IsUtf8 : (t : List ℕ) → IsUtf8 t → Bytes t
Bytes-IsUtf8 t (ps, h, e) = rw e (Bytes-encode_all ps h)

-- If is_utf8 accepts exactly the UTF-8 texts among the byte strings, then for every byte string the
-- lookup key is UTF-8, a UTF-8 argument is taken as it is, any other becomes its index text, and a
-- second conversion changes nothing.
pub lookup_text_lem :
    (is_utf8 : List ℕ → Bool)
    → ((t : List ℕ) → Bytes t → (is_utf8 t ≡ true) ↔ IsUtf8 t)
    → (s : List ℕ) → Bytes s
    → IsUtf8 (lookup_text is_utf8 s)
      × (IsUtf8 s → lookup_text is_utf8 s ≡ s)
      × ((IsUtf8 s → ⊥) → lookup_text is_utf8 s ≡ to_index_text s)
      × (lookup_text is_utf8 (lookup_text is_utf8 s) ≡ lookup_text is_utf8 s)
unfolding lookup_text
lookup_text_lem is_utf8 accepts s b = elim (Bool-cases (is_utf8 s)) [
  | inl e ↦
      rw e ((accepts s b).0 e, λ _. refl, λ not_utf8. absurd (not_utf8 ((accepts s b).0 e)), rw e)
  | inr e ↦
      let valid = to_index_text-IsUtf8 s b in
      let accepted = (accepts (to_index_text s) (Bytes-IsUtf8 _ valid)).1 valid in
      rw e (valid, λ utf8. cc ((accepts s b).1 utf8, e), λ _. refl, rw accepted)
]
