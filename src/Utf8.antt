-- ===== src/Utf8.antt =====
-- include/vycor/callgraph/Utf8.h: index text, the reversible escape that makes every string of the
-- indexes valid UTF-8. A string is the list of its bytes, and the suffix of `s` from `i` is the list
-- that a loop has left. Each loop takes the length of its input as fuel, and uses up at least one
-- byte in a round. `llvm::json::isUTF8` is a parameter of `lookup_text`.
pub mod Spec
pub mod Decode
pub mod Loops
pub mod Reads
pub mod Laws
pub mod Lookup
mod Tests
use vycor_cpp.Prelude.{
  ℕ, zero, suc, ◌+◌, ◌-◌, ◌*◌, ◌/◌, ◌^◌, ◌%◌, bit_and, bit_or, Bool, true, false, not, ◌&&◌, ◌||◌,
  List, [], ◌∷◌, ◌++◌, length, take, drop, ltb, leb, ◌==◌, if◌then◌else◌,
}

abbrev pub escape_base : ℕ
escape_base = 0x10FF00

is_cont : ℕ → Bool
is_cont c = bit_and c 0xC0 == 0x80

-- The branches of `seq_len` for two, three and four bytes, after the first byte `c`.
seq_two : List ℕ → ℕ
seq_two (d ∷ r) = if is_cont d then 2 else 0
seq_two [] = 0

seq_three : ℕ → List ℕ → ℕ
seq_three c (d ∷ e ∷ r) =
    if not (is_cont d) || not (is_cont e)
    then 0
    else if c == 0xE0 && ltb d 0xA0
    then 0
    else if c == 0xED && ltb 0x9F d
    then 0
    else 3
seq_three c (d ∷ []) = 0
seq_three c [] = 0

seq_four : ℕ → List ℕ → ℕ
seq_four c (d ∷ e ∷ f ∷ r) =
    if not (is_cont d) || not (is_cont e) || not (is_cont f)
    then 0
    else if c == 0xF0 && ltb d 0x90
    then 0
    else if c == 0xF4 && ltb 0x8F d
    then 0
    else 4
seq_four c (d ∷ e ∷ []) = 0
seq_four c (d ∷ []) = 0
seq_four c [] = 0

-- The loops call it with bytes left.
pub seq_len : List ℕ → ℕ
seq_len [] = 0
seq_len (c ∷ r) =
    if ltb c 0x80
    then 1
    else if leb 0xC2 c && leb c 0xDF
    then seq_two r
    else if leb 0xE0 c && leb c 0xEF
    then seq_three c r
    else if leb 0xF0 c && leb c 0xF4
    then seq_four c r
    else 0

-- It is called on a sequence of four bytes.
pub is_escape_code_point : List ℕ → Bool
is_escape_code_point (c ∷ d ∷ e ∷ r) = c == 0xF4 && d == 0x8F && leb 0xBE e
is_escape_code_point (c ∷ d ∷ []) = false
is_escape_code_point (c ∷ []) = false
is_escape_code_point [] = false

-- The bytes that `appendEscape` pushes: the four bytes of U+10FF00 + b.
pub append_escape : ℕ → List ℕ
append_escape b =
    let cp = escape_base + b in
    bit_or 0xF0 (cp / 2 ^ 18)
    ∷ bit_or 0x80 (bit_and (cp / 2 ^ 12) 0x3F)
    ∷ bit_or 0x80 (bit_and (cp / 2 ^ 6) 0x3F)
    ∷ bit_or 0x80 (bit_and cp 0x3F)
    ∷ []

-- The test on the sequence at the head: no sequence, or a code point of the escape range.
pub must_escape : List ℕ → Bool
must_escape s = seq_len s == 0 || seq_len s == 4 && is_escape_code_point s

unfoldable pub needs_loop : ℕ → List ℕ → Bool
needs_loop zero s = false
needs_loop (suc fuel) [] = false
needs_loop (suc fuel) (c ∷ r) =
    let ascii = needs_loop fuel r in
    let rest = needs_loop fuel (drop (seq_len (c ∷ r)) (c ∷ r)) in
    if ltb c 0x80 then ascii else if must_escape (c ∷ r) then true else rest

unfoldable pub needs_index_escape : List ℕ → Bool
needs_index_escape s = needs_loop (length s) s

pub to_loop : ℕ → List ℕ → List ℕ
to_loop zero s = []
to_loop (suc fuel) [] = []
to_loop (suc fuel) (c ∷ r) =
    let escaped = append_escape c ++ to_loop fuel r in
    let n = seq_len (c ∷ r) in
    let copied = take n (c ∷ r) ++ to_loop fuel (drop n (c ∷ r)) in
    if must_escape (c ∷ r) then escaped else copied

pub to_index_text : List ℕ → List ℕ
to_index_text s = if needs_index_escape s then to_loop (length s) s else s

-- The low bits of the four bytes of an escape; the loop has seen that they are there.
pub escape_value : List ℕ → ℕ
escape_value (c ∷ d ∷ e ∷ f ∷ r) =
    bit_or (bit_and c 0x07 * 2 ^ 18)
      (bit_or (bit_and d 0x3F * 2 ^ 12) (bit_or (bit_and e 0x3F * 2 ^ 6) (bit_and f 0x3F)))
    - escape_base
escape_value s = 0

pub from_loop : ℕ → List ℕ → List ℕ
from_loop zero t = []
from_loop (suc fuel) [] = []
from_loop (suc fuel) (c ∷ r) =
    let n = seq_len (c ∷ r) in
    let unescaped = (escape_value (c ∷ r) % 2 ^ 8) ∷ from_loop fuel (drop 4 (c ∷ r)) in
    let len = if n == 0 then 1 else n in
    let copied = take len (c ∷ r) ++ from_loop fuel (drop len (c ∷ r)) in
    if n == 4 && is_escape_code_point (c ∷ r) then unescaped else copied

pub from_index_text : List ℕ → List ℕ
from_index_text t = from_loop (length t) t

-- `is_utf8` is `isValidUtf8`, that is `llvm::json::isUTF8`.
pub lookup_text : (List ℕ → Bool) → List ℕ → List ℕ
lookup_text is_utf8 s = if is_utf8 s then s else to_index_text s
