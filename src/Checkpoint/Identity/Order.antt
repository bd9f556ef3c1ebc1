-- ===== src/Checkpoint/Identity/Order.antt =====
-- Sorted texts do not depend on the order in which they came.
use mathlib.Core.List.{Perm, Permᴰ}
use mathlib.Core.List.Perm
use mathlib.Core.Logic.{∥∥₁_elim}
use vycor_cpp.Prelude.{
  ℕ, ◌≡◌, refl, ap, ◌∙◌, ◌↔◌, inl, inr, true, false, List, [], ◌∷◌, Bool-cases, arith,
}
use vycor_cpp.GlobalIndex.Entries.{lex_lt}
use vycor_cpp.Checkpoint.Identity.{insert_key, sort_keys}

lex_lt_asymm : (x y : List ℕ) → lex_lt x y ≡ true → lex_lt y x ≡ false
unfolding lex_lt
lex_lt_asymm [] [] h = cc
lex_lt_asymm [] (d ∷ y) h = refl
lex_lt_asymm (c ∷ x) [] h = cc
lex_lt_asymm (c ∷ x) (d ∷ y) h = ground (arith, lex_lt_asymm x y)

lex_lt_antisymm : (x y : List ℕ) → lex_lt x y ≡ false → lex_lt y x ≡ false → x ≡ y
unfolding lex_lt
lex_lt_antisymm [] [] h k = refl
lex_lt_antisymm [] (d ∷ y) h k = cc
lex_lt_antisymm (c ∷ x) [] h k = cc
lex_lt_antisymm (c ∷ x) (d ∷ y) h k = ground (arith, lex_lt_antisymm x y)

-- z < x and y ≤ z
lex_lt_of_le : (x y z : List ℕ) → lex_lt z x ≡ true → lex_lt z y ≡ false → lex_lt y x ≡ true
unfolding lex_lt
lex_lt_of_le [] y z h k = cc
lex_lt_of_le (c ∷ x) [] z h k = refl
lex_lt_of_le (c ∷ x) (d ∷ y) [] h k = cc
lex_lt_of_le (c ∷ x) (d ∷ y) (e ∷ z) h k = ground (arith, lex_lt_of_le x y z)

insert_key_comm :
    (x y : List ℕ) (l : List (List ℕ))
    → insert_key x (insert_key y l) ≡ insert_key y (insert_key x l)
unfolding insert_key
insert_key_comm x y [] = ground (arith, lex_lt_asymm x y, lex_lt_antisymm x y)
insert_key_comm x y (z ∷ zs) = ground (
  arith,
  lex_lt_asymm x y,
  lex_lt_antisymm x y,
  lex_lt_of_le x y z,
  lex_lt_of_le y x z,
  insert_key_comm x y zs,
)

insert_key-perm : (k : List ℕ) (l : List (List ℕ)) → Perm (insert_key k l) (k ∷ l)
unfolding insert_key
insert_key-perm k [] = Perm.rfl
insert_key-perm k (j ∷ js) = elim (Bool-cases (lex_lt j k)) [
  | inl e ↦ rw e (Perm.trans (Perm.cons j (insert_key-perm k js)) (Perm.swap k j js))
  | inr e ↦ rw e Perm.rfl
]

sort_keys-perm : (l : List (List ℕ)) → Perm (sort_keys l) l
unfolding sort_keys
sort_keys-perm [] = Perm.rfl
sort_keys-perm (k ∷ ks) =
    Perm.trans (insert_key-perm k (sort_keys ks)) (Perm.cons k (sort_keys-perm ks))

sort_keys-eq : {k l : List (List ℕ)} → Permᴰ k l → sort_keys k ≡ sort_keys l
unfolding sort_keys
sort_keys-eq Permᴰ.nil = refl
sort_keys-eq (Permᴰ.cons {b = b} {l₁ = l} e d) =
    ap (λ x. insert_key x (sort_keys l)) e ∙ ap (insert_key b) (sort_keys-eq d)
sort_keys-eq (Permᴰ.swap {a = a} {b = b} {a' = a'} {l = l} e f) =
    insert_key_comm a b (sort_keys l)
    ∙ (ap (λ x. insert_key x (insert_key a (sort_keys l))) f
        ∙ ap (λ x. insert_key a' (insert_key x (sort_keys l))) e)
sort_keys-eq (Permᴰ.trans d e) = sort_keys-eq d ∙ sort_keys-eq e

pub sort_keys-eq_iff : (k l : List (List ℕ)) → (sort_keys k ≡ sort_keys l) ↔ Perm k l
sort_keys-eq_iff k l = (
  λ e. Perm.trans (rw (← e) (Perm.symm (sort_keys-perm k))) (sort_keys-perm l),
  λ p. ∥∥₁_elim p (hlevel) sort_keys-eq,
)
