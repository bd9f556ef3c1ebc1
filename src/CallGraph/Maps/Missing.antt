-- ===== src/CallGraph/Maps/Missing.antt =====
-- How many ids of a list a map or a set does not know yet: the measure of the walks.
use vycor_cpp.Prelude.{
  ℕ, suc, ◌≤◌, ◌<◌, ◌≡◌, subst, inl, inr, Bool, true, false, List, [], ◌∷◌, length, ◌==◌, ==_iff,
  Bool-cases, if◌then◌else◌, arith,
}
use vycor_cpp.CallGraph.Maps.{mem}

pub missing : (ℕ → Bool) → List ℕ → ℕ
missing known [] = 0
missing known (x ∷ xs) = let rest = missing known xs in if known x then rest else suc rest

pub missing_all : (known : ℕ → Bool) (xs : List ℕ) → missing known xs ≤ length xs
unfolding missing
missing_all known [] = omega arith
missing_all known (x ∷ xs) = ground (arith, missing_all known xs)

module _ (known known' : ℕ → Bool) (more : (x : ℕ) → known x ≡ true → known' x ≡ true) where
  pub missing_less : (xs : List ℕ) → missing known' xs ≤ missing known xs
  unfolding missing
  missing_less [] = omega arith
  missing_less (x ∷ xs) = elim (Bool-cases (known x)) [
    | inl e ↦ rw (e, more x e) (missing_less xs)
    | inr e ↦ rw e (ground (arith, missing_less xs))
  ]

  -- One more id is known.
  pub missing_new :
      (k : ℕ) (xs : List ℕ)
      → mem k xs ≡ true
      → known k ≡ false
      → known' k ≡ true
      → missing known' xs < missing known xs
  unfolding missing mem
  missing_new k [] h fresh now = cc h
  missing_new k (x ∷ xs) h fresh now = elim (Bool-cases (k == x)) [
    | inl e ↦
        let same = (==_iff k x).0 e in
        let fresh' : known x ≡ false = subst (λ z. known z ≡ false) same fresh in
        let now' : known' x ≡ true = subst (λ z. known' z ≡ true) same now in
        rw (fresh', now') (omega (arith, missing_less xs))
    | inr e ↦
        let rest = missing_new k xs (rw e at h) fresh now in
        elim (Bool-cases (known x)) [
          | inl y ↦ rw (y, more x y) rest
          | inr y ↦ rw y (ground (arith, rest))
        ]
  ]
