-- ===== src/GlobalIndex/Restore/Keyed.antt =====
-- A list with distinct keys is restored when its entries are added to an empty one.
use vycor_cpp.Prelude.{
  ◌≡◌, refl, sym, ap, ◌∙◌, inl, inr, false, List, [], ◌∷◌, ◌++◌, append-nil, append_assoc, list_eq,
  Bool-cases, All,
}
use vycor_cpp.GlobalIndex.{add_each}
use vycor_cpp.GlobalIndex.Types.{Name}
use vycor_cpp.GlobalIndex.Entries.{merge_at}
use vycor_cpp.GlobalIndex.Invariant.{has_key, Distinct, list_eq-false}

module _ {ℓ} {A : Type ℓ} (key : A → Name) where
  has_key-snoc :
      (k : Name) (xs : List A) (y : A)
      → has_key key k xs ≡ false
      → list_eq k (key y) ≡ false
      → has_key key k (xs ++ (y ∷ [])) ≡ false
  unfolding has_key
  has_key-snoc k [] y h other = rw other refl
  has_key-snoc k (x ∷ xs) y h other = elim (Bool-cases (list_eq k (key x))) [
    | inl e ↦ cc (rw e at h)
    | inr e ↦ rw (e, has_key-snoc k xs y (rw e at h) other) refl
  ]

  -- None of the keys of `ys` is one of `xs`.
  abbrev pub Apart : List A → List A → Type 0
  Apart xs = All (λ y. has_key key (key y) xs ≡ false)

  pub Apart-snoc :
      (xs : List A) (x : A) (ys : List A)
      → has_key key (key x) ys ≡ false
      → Apart xs ys
      → Apart (xs ++ (x ∷ [])) ys
  unfolding has_key
  Apart-snoc xs x [] fresh apart = tt
  Apart-snoc xs x (y ∷ ys) fresh (one, apart) = elim (Bool-cases (list_eq (key x) (key y))) [
    | inl e ↦ cc (rw e at fresh)
    | inr e ↦ (
      has_key-snoc (key y) xs x one (list_eq-false (key x) (key y) e),
      Apart-snoc xs x ys (rw e at fresh) apart,
    )
  ]

  pub Apart-nil : (ys : List A) → Apart [] ys
  unfolding has_key
  Apart-nil [] = tt
  Apart-nil (y ∷ ys) = (refl, Apart-nil ys)

  module _ (merge : A → A → A) where
    merge_at-new :
        (e : A) (xs : List A)
        → has_key key (key e) xs ≡ false
        → merge_at key merge e xs ≡ xs ++ (e ∷ [])
    unfolding has_key merge_at
    merge_at-new e [] h = refl
    merge_at-new e (x ∷ xs) h = elim (Bool-cases (list_eq (key e) (key x))) [
      | inl d ↦ cc (rw d at h)
      | inr d ↦ rw (d, merge_at-new e xs (rw d at h)) refl
    ]

    add_each-merge_at :
        (es xs : List A)
        → Apart xs es
        → Distinct key es
        → add_each (merge_at key merge) es xs ≡ xs ++ es
    unfolding add_each Distinct
    add_each-merge_at [] xs apart distinct = sym (append-nil xs)
    add_each-merge_at (e ∷ es) xs (one, apart) (fresh, distinct) =
        ap (add_each (merge_at key merge) es) (merge_at-new e xs one)
        ∙ (add_each-merge_at es (xs ++ (e ∷ [])) (Apart-snoc xs e es fresh apart) distinct
            ∙ append_assoc xs (e ∷ []) es)

    -- A list with distinct keys, from nothing.
    pub restore_list : (es : List A) → Distinct key es → add_each (merge_at key merge) es [] ≡ es
    restore_list es distinct = add_each-merge_at es [] (Apart-nil es) distinct
