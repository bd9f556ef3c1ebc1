-- ===== src/CallGraph/Edges/Keys.antt =====
-- The map from edge keys to indices, and sums over the edges.
use vycor_cpp.Prelude.{
  ℕ, zero, suc, ◌+◌, ◌≤◌, ◌≡◌, refl, ap, subst, ◌∙◌, inl, inr, true, none, some, List, [], ◌∷◌,
  ◌++◌, Bool-cases, if◌then◌else◌, arith,
}
use vycor_cpp.CallGraph.Maps.{get_elem?, set}
use vycor_cpp.CallGraph.Edges.{EdgeKey, key_eq, find_key, erase_key, emplace_key}

pub key_eq_refl : (k : EdgeKey) → key_eq k k ≡ true
unfolding key_eq
key_eq_refl k = ground arith

pub key_eq→eq : (j k : EdgeKey) → key_eq j k ≡ true → j ≡ k
unfolding key_eq
key_eq→eq j k h = ground arith

pub key_eq_sym : (j k : EdgeKey) → key_eq j k ≡ key_eq k j
unfolding key_eq
key_eq_sym j k = ground arith

emplace_key-new :
    (k : EdgeKey) (i : ℕ) (m : List (EdgeKey × ℕ))
    → find_key k m ≡ none
    → emplace_key k i m ≡ (k, i) ∷ m
unfolding emplace_key
emplace_key-new k i m h = rw (h, emplace_key) refl

pub find_key-emplace :
    (j k : EdgeKey) (i : ℕ) (m : List (EdgeKey × ℕ))
    → find_key k m ≡ none
    → find_key j (emplace_key k i m) ≡ (if key_eq j k then some i else find_key j m)
find_key-emplace j k i m h = ap (find_key j) (emplace_key-new k i m h) ∙ unfold find_key in refl

pub find_key-erase :
    (j k : EdgeKey) (m : List (EdgeKey × ℕ))
    → find_key j (erase_key k m) ≡ (if key_eq j k then none else find_key j m)
unfolding find_key erase_key
find_key-erase j k [] = ground arith
find_key-erase j k ((l, i) ∷ m) = elim (Bool-cases (key_eq k l)) [
  | inl e ↦
      subst
        (λ z.
          find_key j (if key_eq k z then erase_key k m else (z, i) ∷ erase_key k m)
          ≡ (if key_eq j k then none else (if key_eq j z then some i else find_key j m)))
        (key_eq→eq k l e) (rw (key_eq_refl k) (ground (arith, find_key-erase j k m)))
  | inr e ↦ rw e (ground (arith, find_key-erase j k m, clash))
]
  where
    clash : key_eq j k ≡ true → key_eq j l ≡ key_eq k l
    clash h = ap (λ z. key_eq z l) (key_eq→eq j k h)

module _ {ℓ} {A : Type ℓ} where
  unfoldable pub total : (A → ℕ) → List A → ℕ
  total f [] = 0
  total f (x ∷ xs) = f x + total f xs

  pub total-push : (f : A → ℕ) (xs : List A) (x : A) → total f (xs ++ (x ∷ [])) ≡ total f xs + f x
  unfolding total
  total-push f [] x = omega arith
  total-push f (y ∷ xs) x = omega (arith, total-push f xs x)

  pub total-set :
      (f : A → ℕ) (xs : List A) (i : ℕ) (old new : A)
      → get_elem? xs i ≡ some old
      → total f (set xs i new) + f old ≡ total f xs + f new
  unfolding total get_elem? set
  total-set f [] i old new h = cc h
  total-set f (x ∷ xs) zero old new h = omega (arith, ap f (same x old h))
    where
      same : (a b : A) → some a ≡ some b → a ≡ b
      same a b e = cc e
  total-set f (x ∷ xs) (suc i) old new h = omega (arith, total-set f xs i old new h)

  pub total-at :
      (f : A → ℕ) (xs : List A) (i : ℕ) (x : A) → get_elem? xs i ≡ some x → f x ≤ total f xs
  unfolding total get_elem?
  total-at f [] i x h = cc h
  total-at f (y ∷ xs) zero x h = omega (arith, ap f (same y x h))
    where
      same : (a b : A) → some a ≡ some b → a ≡ b
      same a b e = cc e
  total-at f (y ∷ xs) (suc i) x h = omega (arith, total-at f xs i x h)
