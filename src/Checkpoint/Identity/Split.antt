-- ===== src/Checkpoint/Identity/Split.antt =====
-- Reading back what the keys and the canonical text are put together from.
use vycor_cpp.Prelude.{
  ℕ, zero, suc, ◌+◌, ◌-◌, ◌*◌, ◌/◌, ◌%◌, ◌<◌, ◌≡◌, refl, ap, ◌∙◌, ◌≢◌, ◌⊎◌, inl, inr, Option, none,
  some, List, [], ◌∷◌, ◌++◌, ltb, ◌==◌, Bool-cases, if◌then◌else◌, All, arith,
}
use vycor_cpp.GlobalIndex.Entries.{digits}
use vycor_cpp.Checkpoint.Identity.{each_ended}

-- The byte does not occur.
abbrev pub Free : ℕ → List ℕ → Type 0
Free d = All (λ c. c ≢ d)

pub Free-append : (d : ℕ) (u v : List ℕ) → Free d u → Free d v → Free d (u ++ v)
Free-append d [] v free free' = free'
Free-append d (c ∷ u) v (ne, free) free' = (ne, Free-append d u v free free')

-- Before and after the first occurrence of a byte.
pub split_first : ℕ → List ℕ → List ℕ × List ℕ
split_first d [] = ([], [])
split_first d (c ∷ cs) = let (u, v) = split_first d cs in if c == d then ([], cs) else (c ∷ u, v)

pub split_first-append : (d : ℕ) (u v : List ℕ) → Free d u → split_first d (u ++ (d ∷ v)) ≡ (u, v)
unfolding split_first
split_first-append d [] v free = ground arith
split_first-append d (c ∷ u) v (ne, free) = ground (arith, split_first-append d u v free)

-- Before and after its last occurrence.
pub split_last : ℕ → List ℕ → Option (List ℕ × List ℕ)
split_last d [] = none
split_last d (c ∷ cs) = elim (split_last d cs) [
  | some (u, v) ↦ some (c ∷ u, v)
  | none ↦ if c == d then some ([], cs) else none
]

split_last-none : (d : ℕ) (v : List ℕ) → Free d v → split_last d v ≡ none
unfolding split_last
split_last-none d [] free = refl
split_last-none d (c ∷ v) (ne, free) = rw (split_last-none d v free) (ground arith)

pub split_last-append :
    (d : ℕ) (u v : List ℕ) → Free d v → split_last d (u ++ (d ∷ v)) ≡ some (u, v)
unfolding split_last
split_last-append d [] v free = rw (split_last-none d v free) (ground arith)
split_last-append d (c ∷ u) v free = rw (split_last-append d u v free) refl

-- The texts that each end at the byte.
pub pieces : ℕ → List ℕ → List (List ℕ)
pieces d [] = []
pieces d (c ∷ cs) =
    let rest = pieces d cs in
    if c == d then [] ∷ rest else elim rest [ [] ↦ (c ∷ []) ∷ [] | p ∷ ps ↦ (c ∷ p) ∷ ps ]

pieces-append :
    (d : ℕ) (k rest : List ℕ) → Free d k → pieces d (k ++ (d ∷ rest)) ≡ k ∷ pieces d rest
unfolding pieces
pieces-append d [] rest free = ground arith
pieces-append d (c ∷ k) rest (ne, free) = rw (pieces-append d k rest free) (ground arith)

pub pieces-each_ended :
    (d : ℕ) (ks : List (List ℕ)) → All (Free d) ks → pieces d (each_ended d ks) ≡ ks
unfolding each_ended pieces
pieces-each_ended d [] free = refl
pieces-each_ended d (k ∷ ks) (free, all) =
    pieces-append d k (each_ended d ks) free ∙ ap (◌∷◌ k) (pieces-each_ended d ks all)

-- The number that decimal digits stand for.
pub value : ℕ → List ℕ → ℕ
value acc [] = acc
value acc (c ∷ cs) = value (acc * 10 + (c - 48)) cs

value-snoc :
    (acc : ℕ) (cs : List ℕ) (c : ℕ) → value acc (cs ++ (c ∷ [])) ≡ value acc cs * 10 + (c - 48)
unfolding value
value-snoc acc [] c = refl
value-snoc acc (d ∷ cs) c = value-snoc (acc * 10 + (d - 48)) cs c

-- 10 ^ fuel
abbrev pub tens : ℕ → ℕ
tens zero = 1
tens (suc fuel) = 10 * tens fuel

pub value-digits : (fuel n : ℕ) → n < tens fuel → value 0 (digits fuel n) ≡ n
unfolding digits value
value-digits zero n h = omega arith
value-digits (suc fuel) n h = elim (Bool-cases (ltb n 10)) [
  | inl e ↦ rw e (ground arith)
  | inr e ↦
      rw (e, value-snoc 0 (digits fuel (n / 10)) (48 + n % 10))
        (omega (arith, value-digits fuel (n / 10) (omega arith)))
]

pub Free-digits : (d fuel n : ℕ) → (d < 48) ⊎ (57 < d) → Free d (digits fuel n)
unfolding digits
Free-digits d zero n far = tt
Free-digits d (suc fuel) n far = elim (Bool-cases (ltb n 10)) [
  | inl e ↦ rw e (ground arith)
  | inr e ↦ rw e (
      Free-append d (digits fuel (n / 10)) ((48 + n % 10) ∷ []) (Free-digits d fuel (n / 10) far)
        (ground arith))
]
