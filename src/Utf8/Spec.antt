-- ===== src/Utf8/Spec.antt =====
-- What UTF-8 is, independent of the code: the encoding of the Unicode scalar values.
use vycor_cpp.Prelude.{
  ℕ, ◌+◌, ◌/◌, ◌%◌, ◌≤◌, ◌<◌, ◌≡◌, ◌⊎◌, List, [], ◌∷◌, ◌++◌, All, ltb, if◌then◌else◌,
}

abbrev pub Bytes : List ℕ → Type 0
Bytes s = All (λ c. c < 256) s

-- A code point that is no surrogate.
abbrev pub IsScalar : ℕ → Type 0
IsScalar p = ((p < 0xD800) ⊎ (0xE000 ≤ p)) × (p < 0x110000)

unfoldable pub encode : ℕ → List ℕ
encode p =
    if ltb p 0x80
    then p ∷ []
    else if ltb p 0x800
    then (0xC0 + p / 64) ∷ (0x80 + p % 64) ∷ []
    else if ltb p 0x10000
    then (0xE0 + p / 4096) ∷ (0x80 + p / 64 % 64) ∷ (0x80 + p % 64) ∷ []
    else (0xF0 + p / 262144) ∷ (0x80 + p / 4096 % 64) ∷ (0x80 + p / 64 % 64) ∷ (0x80 + p % 64) ∷ []

unfoldable pub encode_all : List ℕ → List ℕ
encode_all [] = []
encode_all (p ∷ ps) = encode p ++ encode_all ps

-- `t` is the UTF-8 text of some scalar values.
abbrev pub IsUtf8 : List ℕ → Type 0
IsUtf8 t = (ps : List ℕ) × All IsScalar ps × (t ≡ encode_all ps)

-- The part of plane 16 that stands for escaped bytes.
abbrev pub IsReserved : ℕ → Type 0
IsReserved p = 0x10FF80 ≤ p
