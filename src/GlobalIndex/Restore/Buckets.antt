-- ===== src/GlobalIndex/Restore/Buckets.antt =====
-- Buckets are restored when the entries that they list are added to none. An entry is added to the
-- bucket of its key by `into`; `items` lists a bucket's entries as they are added again.
use vycor_cpp.Prelude.{
  ◌≡◌, refl, sym, ap, subst, ◌∙◌, inl, inr, false, List, [], ◌∷◌, ◌++◌, append-nil, append_assoc,
  list_eq, list_eq_refl, list_eq→eq, Bool-cases, if◌then◌else◌, All,
}
use vycor_cpp.GlobalIndex.{add_each}
use vycor_cpp.GlobalIndex.Types.{Name, Buckets}
use vycor_cpp.GlobalIndex.Invariant.{has_key, Distinct, list_eq-false}
use vycor_cpp.GlobalIndex.Restore.Keyed.{Apart, Apart-snoc, Apart-nil}

add_each-append {ℓ κ} :
    {I : Type ℓ} {G : Type κ} (add : I → G → G) (is js : List I) (g : G)
    → add_each add (is ++ js) g ≡ add_each add js (add_each add is g)
unfolding add_each
add_each-append add [] js g = refl
add_each-append add (i ∷ is) js g = add_each-append add is js (add i g)

-- The name of a bucket.
abbrev pub name_of {ℓ} : {A : Type ℓ} → Name × List A → Name
name_of b = b.0

-- Distinct names, each with a bucket that is as `W` says.
abbrev pub IsBuckets {ℓ} : {A : Type ℓ} → (Name → List A → Type 0) → Buckets A → Type 0
IsBuckets W m = Distinct name_of m × All (λ b. W b.0 b.1) m

module _ {ℓ} {I A : Type ℓ} (key : I → Name) (into : I → List A → List A) where
  unfoldable pub add_in : I → Buckets A → Buckets A
  add_in i [] = (key i, into i []) ∷ []
  add_in i ((k, es) ∷ m) =
      let later = add_in i m in if list_eq (key i) k then (k, into i es) ∷ m else (k, es) ∷ later

  abbrev AllAt : Name → List I → Type 0
  AllAt k = All (λ i. key i ≡ k)

  add_in-new :
      (i : I) (k : Name) (m : Buckets A)
      → key i ≡ k
      → has_key name_of k m ≡ false
      → add_in i m ≡ m ++ ((k, into i []) ∷ [])
  unfolding has_key add_in
  add_in-new i k [] e h = ap (λ x. (x, into i []) ∷ []) e
  add_in-new i k ((j, es) ∷ m) e h = elim (Bool-cases (list_eq k j)) [
    | inl d ↦ cc (rw d at h)
    | inr d ↦ rw (e, d, add_in-new i k m e (rw d at h)) refl
  ]

  add_in-last :
      (i : I) (k : Name) (es : List A) (m : Buckets A)
      → key i ≡ k
      → has_key name_of k m ≡ false
      → add_in i (m ++ ((k, es) ∷ [])) ≡ m ++ ((k, into i es) ∷ [])
  unfolding has_key add_in
  add_in-last i k es [] e h = rw (e, list_eq_refl k) refl
  add_in-last i k es ((j, fs) ∷ m) e h = elim (Bool-cases (list_eq k j)) [
    | inl d ↦ cc (rw d at h)
    | inr d ↦ rw (e, d, add_in-last i k es m e (rw d at h)) refl
  ]

  add_each-last :
      (is : List I) (k : Name) (es : List A) (m : Buckets A)
      → AllAt k is
      → has_key name_of k m ≡ false
      → add_each add_in is (m ++ ((k, es) ∷ [])) ≡ m ++ ((k, add_each into is es) ∷ [])
  unfolding add_each
  add_each-last [] k es m at h = refl
  add_each-last (i ∷ is) k es m (e, at) h =
      ap (add_each add_in is) (add_in-last i k es m e h) ∙ add_each-last is k (into i es) m at h

  module _ (items : Name → List A → List I) where
    unfoldable pub listed : Buckets A → List I
    listed [] = []
    listed ((k, es) ∷ m) = items k es ++ listed m

    -- What a bucket lists makes it up again: some entries, all with its key.
    abbrev pub Whole : Name → List A → Type ℓ
    Whole k es =
        (i : I) × (is : List I) × (items k es ≡ i ∷ is)
        × AllAt k (i ∷ is)
        × (add_each into (i ∷ is) [] ≡ es)

    module _ (W : Name → List A → Type 0) (whole : (k : Name) (es : List A) → W k es → Whole k es)
        (begin : (i : I) → W (key i) (into i []))
        (step : (i : I) (es : List A) → W (key i) es → W (key i) (into i es)) where
      add_bucket :
          (k : Name) (es : List A) (m : Buckets A)
          → Whole k es
          → has_key name_of k m ≡ false
          → add_each add_in (items k es) m ≡ m ++ ((k, es) ∷ [])
      unfolding add_each
      add_bucket k es m (i, is, e, (here, at), made) h =
          ap (λ l. add_each add_in l m) e
          ∙ (ap (add_each add_in is) (add_in-new i k m here h)
              ∙ (add_each-last is k (into i []) m at h ∙ ap (λ x. m ++ ((k, x) ∷ [])) made))

      add_each-listed :
          (m n : Buckets A)
          → Apart name_of n m
          → IsBuckets W m
          → add_each add_in (listed m) n ≡ n ++ m
      unfolding add_each listed Distinct
      add_each-listed [] n apart h = sym (append-nil n)
      add_each-listed ((k, es) ∷ m) n (one, apart) ((fresh, distinct), (w, all)) =
          add_each-append add_in (items k es) (listed m) n
          ∙ (ap (add_each add_in (listed m)) (add_bucket k es n (whole k es w) one)
              ∙ (add_each-listed m (n ++ ((k, es) ∷ []))
                    (Apart-snoc name_of n (k, es) m fresh apart) (distinct, all)
                  ∙ append_assoc n ((k, es) ∷ []) m))

      -- Buckets, from none.
      pub restore_buckets : (m : Buckets A) → IsBuckets W m → add_each add_in (listed m) [] ≡ m
      restore_buckets m h = add_each-listed m [] (Apart-nil name_of m) h

      has_key-add_in :
          (k : Name) (i : I) (m : Buckets A)
          → list_eq k (key i) ≡ false
          → has_key name_of k (add_in i m) ≡ has_key name_of k m
      unfolding has_key add_in
      has_key-add_in k i [] h = rw h refl
      has_key-add_in k i ((j, es) ∷ m) h = elim (Bool-cases (list_eq (key i) j)) [
        | inl d ↦ rw d refl
        | inr d ↦ rw (d, has_key-add_in k i m h) refl
      ]

      -- An entry more.
      pub add_in-IsBuckets : (i : I) (m : Buckets A) → IsBuckets W m → IsBuckets W (add_in i m)
      unfolding has_key add_in Distinct
      add_in-IsBuckets i [] h = ((refl, tt), (begin i, tt))
      add_in-IsBuckets i ((j, es) ∷ m) ((fresh, distinct), (w, all)) =
          elim (Bool-cases (list_eq (key i) j)) [
            | inl d ↦
                let same = list_eq→eq (key i) j d in
                let kept : W j (into i es) =
                  subst (λ x. W x (into i es)) same
                    (step i es (subst (λ x. W x es) (sym same) w)) in
                rw d ((fresh, distinct), (kept, all))
            | inr d ↦
                let (more, rest) = add_in-IsBuckets i m (distinct, all) in
                rw d ((has_key-add_in j i m (list_eq-false (key i) j d) ∙ fresh, more), (w, rest))
          ]
