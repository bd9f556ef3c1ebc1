-- ===== src/Checkpoint/Wire.antt =====
-- src/check/Checkpoint.cpp: the little-endian writers and the bounds-checked reader. A writer is the
-- list of the bytes that it appends. A reader keeps the bytes from `pos` on.
pub mod Reads
use vycor_cpp.Prelude.{
  ℕ, zero, suc, ◌+◌, ◌-◌, ◌*◌, ◌/◌, ◌%◌, ◌^◌, Bool, true, false, ◌&&◌, List, [], ◌∷◌, ◌++◌, length,
  take, drop, leb, bit_xor, if◌then◌else◌,
}

-- The low `n` bytes of `v`, the lowest first.
unfoldable pub put_le : ℕ → ℕ → List ℕ
put_le zero v = []
put_le (suc n) v = (v % 2 ^ 8) ∷ put_le n (v / 2 ^ 8)

unfoldable pub put_u8 : ℕ → List ℕ
unfolding put_le
put_u8 v = put_le 1 v

unfoldable pub put_u32 : ℕ → List ℕ
unfolding put_le
put_u32 v = put_le 4 v

unfoldable pub put_u64 : ℕ → List ℕ
unfolding put_le
put_u64 v = put_le 8 v

unfoldable pub put_str : List ℕ → List ℕ
unfolding put_u32
put_str s = put_u32 (length s % 2 ^ 32) ++ s

unfoldable pub put_all {ℓ} : {A : Type ℓ} → (A → List ℕ) → List A → List ℕ
put_all put [] = []
put_all put (x ∷ xs) = put x ++ put_all put xs

-- A count and the elements, as every list is written.
unfoldable pub put_list {ℓ} : {A : Type ℓ} → (A → List ℕ) → List A → List ℕ
unfolding put_u32 put_all
put_list put xs = put_u32 (length xs % 2 ^ 32) ++ put_all put xs

unfoldable pub put_pair : List ℕ × List ℕ → List ℕ
unfolding put_str
put_pair p = put_str p.0 ++ put_str p.1

unfoldable pub put_string_pairs : List (List ℕ × List ℕ) → List ℕ
unfolding put_list put_pair
put_string_pairs v = put_list put_pair v

pub record Reader : Type 0 where
  pub rest : List ℕ
  pub ok : Bool

abbrev pub Read {ℓ} : Type ℓ → Type ℓ
Read A = Reader → A × Reader

-- A do block reads in order. It is shut, so that a proof follows the steps.
infixl 5 ◌>>=◌
unfoldable pub ◌>>=◌ {ℓ κ} : {A : Type ℓ} {B : Type κ} → Read A → (A → Read B) → Read B
◌>>=◌ m f r = let (a, r') = m r in f a r'

unfoldable pub ret {ℓ} : {A : Type ℓ} → A → Read A
ret a r = (a, r)

unfoldable pub need : ℕ → Read Bool
need n r = if r.ok && leb n (length r.rest) then (true, r) else (false, record r { ok = false })

unfoldable pub of_le : List ℕ → ℕ
of_le [] = 0
of_le (b ∷ bs) = b + 2 ^ 8 * of_le bs

-- `u8`, `u32` and `u64` for one, four and eight bytes.
unfoldable pub read_le : ℕ → Read ℕ
unfolding need of_le
read_le n r =
    let (enough, r') = need n r in
    if enough then (of_le (take n r'.rest), record r' { rest = drop n r'.rest }) else (0, r')

unfoldable pub u8 : Read ℕ
unfolding read_le
u8 = read_le 1

unfoldable pub u32 : Read ℕ
unfolding read_le
u32 = read_le 4

unfoldable pub u64 : Read ℕ
unfolding read_le
u64 = read_le 8

unfoldable pub take_bytes : ℕ → Read (List ℕ)
unfolding need
take_bytes n r =
    let (enough, r') = need n r in
    if enough then (take n r'.rest, record r' { rest = drop n r'.rest }) else ([], r')

unfoldable pub str : Read (List ℕ)
unfolding u32 take_bytes
str = do n ← u32; take_bytes n

-- for (i = 0; i < n && r.ok; ++i) push_back(m())
unfoldable pub read_loop {ℓ} : {A : Type ℓ} → ℕ → Read A → Read (List A)
read_loop zero m r = ([], r)
read_loop (suc n) m r = elim r.ok [
  | true ↦ let (a, r') = m r in let (later, r'') = read_loop n m r' in (a ∷ later, r'')
  | false ↦ ([], r)
]

unfoldable pub read_list {ℓ} : {A : Type ℓ} → Read A → Read (List A)
unfolding u32 read_loop
read_list m = do n ← u32; read_loop n m

unfoldable pub read_pair : Read (List ℕ × List ℕ)
unfolding str
read_pair = do a ← str; b ← str; ret (a, b)

unfoldable pub read_string_pairs : Read (List (List ℕ × List ℕ))
unfolding read_list read_pair
read_string_pairs = read_list read_pair

-- FNV-1a over 32 bits.
unfoldable pub fnv_from : ℕ → List ℕ → ℕ
fnv_from h [] = h
fnv_from h (b ∷ bs) = fnv_from (bit_xor h b * 16777619 % 2 ^ 32) bs

unfoldable pub fnv32 : List ℕ → ℕ
unfolding fnv_from
fnv32 s = fnv_from 2166136261 s
