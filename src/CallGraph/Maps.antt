-- ===== src/CallGraph/Maps.antt =====
-- The containers of the call graph. An unordered_map from ids is an association list in the order of
-- insertion, which stands for its unspecified order; a set is a list with no element twice.
pub mod Missing
use vycor_cpp.Prelude.{
  ℕ, zero, suc, ◌<◌, ◌≡◌, refl, sym, ap, subst, ◌∙◌, ◌⊎◌, inl, inr, Bool, true, false, Option, none,
  some, List, [], ◌∷◌, ◌++◌, length, ltb, ◌==◌, ==_iff, Bool-cases, if◌then◌else◌, arith,
}

abbrev pub Map {ℓ} : Type ℓ → Type ℓ
Map V = List (ℕ × V)

module _ {ℓ} {V : Type ℓ} where
  -- find
  unfoldable pub get : ℕ → Map V → Option V
  get k [] = none
  get k ((j, v) ∷ m) = let later = get k m in if k == j then some v else later

  -- operator[], assigned
  unfoldable pub put : ℕ → V → Map V → Map V
  put k v [] = (k, v) ∷ []
  put k v ((j, w) ∷ m) = let later = put k v m in if k == j then (j, v) ∷ m else (j, w) ∷ later

  -- erase
  unfoldable pub del : ℕ → Map V → Map V
  del k [] = []
  del k ((j, w) ∷ m) = let later = del k m in if k == j then later else (j, w) ∷ later

  pub get-put :
      (j k : ℕ) (v : V) (m : Map V) → get j (put k v m) ≡ (if j == k then some v else get j m)
  unfolding get put
  get-put j k v [] = refl
  get-put j k v ((i, w) ∷ m) = ground (arith, get-put j k v m)

  pub get-del : (j k : ℕ) (m : Map V) → get j (del k m) ≡ (if j == k then none else get j m)
  unfolding get del
  get-del j k [] = ground arith
  get-del j k ((i, w) ∷ m) = ground (arith, get-del j k m)

  -- deque::operator[] and its assignment
  unfoldable pub get_elem? : List V → ℕ → Option V
  get_elem? [] i = none
  get_elem? (x ∷ xs) zero = some x
  get_elem? (x ∷ xs) (suc i) = get_elem? xs i

  unfoldable pub set : List V → ℕ → V → List V
  set [] i v = []
  set (x ∷ xs) zero v = v ∷ xs
  set (x ∷ xs) (suc i) v = x ∷ set xs i v

  pub length-set : (xs : List V) (i : ℕ) (v : V) → length (set xs i v) ≡ length xs
  unfolding set
  length-set [] i v = refl
  length-set (x ∷ xs) zero v = refl
  length-set (x ∷ xs) (suc i) v = ap suc (length-set xs i v)

  pub get_elem?-set :
      (xs : List V) (i j : ℕ) (v : V)
      → i < length xs
      → get_elem? (set xs i v) j ≡ (if j == i then some v else get_elem? xs j)
  unfolding get_elem? set
  get_elem?-set [] i j v h = absurd (omega arith)
  get_elem?-set (x ∷ xs) zero zero v h = refl
  get_elem?-set (x ∷ xs) zero (suc j) v h = ground arith
  get_elem?-set (x ∷ xs) (suc i) zero v h = ground arith
  get_elem?-set (x ∷ xs) (suc i) (suc j) v h = ground (arith, get_elem?-set xs i j v)

  pub get_elem?-push :
      (xs : List V) (j : ℕ) (v : V)
      → get_elem? (xs ++ (v ∷ [])) j ≡ (if j == length xs then some v else get_elem? xs j)
  unfolding get_elem?
  get_elem?-push [] zero v = refl
  get_elem?-push [] (suc j) v = ground arith
  get_elem?-push (x ∷ xs) zero v = ground arith
  get_elem?-push (x ∷ xs) (suc j) v = ground (arith, get_elem?-push xs j v)

  pub get_elem?-below : (xs : List V) (i : ℕ) {v : V} → get_elem? xs i ≡ some v → i < length xs
  unfolding get_elem?
  get_elem?-below [] i h = cc h
  get_elem?-below (x ∷ xs) zero h = omega arith
  get_elem?-below (x ∷ xs) (suc i) h = omega (arith, get_elem?-below xs i h)

or_empty {ℓ} : {A : Type ℓ} → Option (List A) → List A
or_empty none = []
or_empty (some xs) = xs

-- The vector of a key, empty if the key is missing.
unfoldable pub bucket {ℓ} : {A : Type ℓ} → ℕ → Map (List A) → List A
unfolding or_empty
bucket k m = or_empty (get k m)

-- m[k].push_back(x)
unfoldable pub push {ℓ} : {A : Type ℓ} → ℕ → A → Map (List A) → Map (List A)
push k x m = put k (bucket k m ++ (x ∷ [])) m

module _ {ℓ} {A : Type ℓ} where
  or_empty-if :
      (b : Bool) (o p : Option (List A))
      → or_empty (if b then o else p) ≡ (if b then or_empty o else or_empty p)
  or_empty-if true o p = refl
  or_empty-if false o p = refl

  pub bucket-put :
      (j k : ℕ) (xs : List A) (m : Map (List A))
      → bucket j (put k xs m) ≡ (if j == k then xs else bucket j m)
  unfolding bucket or_empty
  bucket-put j k xs m = ap or_empty (get-put j k xs m) ∙ or_empty-if (j == k) (some xs) (get j m)

  pub bucket-push :
      (j k : ℕ) (x : A) (m : Map (List A))
      → bucket j (push k x m) ≡ (if j == k then bucket k m ++ (x ∷ []) else bucket j m)
  unfolding push
  bucket-push j k x m = bucket-put j k (bucket k m ++ (x ∷ [])) m

  pub bucket-del :
      (j k : ℕ) (m : Map (List A)) → bucket j (del k m) ≡ (if j == k then [] else bucket j m)
  unfolding bucket or_empty
  bucket-del j k m = ap or_empty (get-del j k m) ∙ or_empty-if (j == k) none (get j m)

-- std::find, set::count
unfoldable pub mem : ℕ → List ℕ → Bool
mem x [] = false
mem x (y ∷ ys) = let later = mem x ys in if x == y then true else later

-- if (find(v, x) == v.end()) v.push_back(x), set::insert
unfoldable pub push_new : ℕ → List ℕ → List ℕ
push_new x ys = if mem x ys then ys else ys ++ (x ∷ [])

-- std::set::insert, which keeps the elements in order
unfoldable pub set_insert : ℕ → List ℕ → List ℕ
set_insert x [] = x ∷ []
set_insert x (y ∷ ys) =
    let later = set_insert x ys in
    if ltb x y then x ∷ y ∷ ys else if x == y then y ∷ ys else y ∷ later

-- vec.erase(remove(x)), set::erase
unfoldable pub without : ℕ → List ℕ → List ℕ
without x [] = []
without x (y ∷ ys) = let rest = without x ys in if x == y then rest else y ∷ rest

-- vec.erase(remove_if(in dead))
unfoldable pub remove_all : List ℕ → List ℕ → List ℕ
remove_all dead [] = []
remove_all dead (y ∷ ys) = let rest = remove_all dead ys in if mem y dead then rest else y ∷ rest

pub mem-append : (x : ℕ) (xs ys : List ℕ) → mem x (xs ++ ys) ≡ (if mem x xs then true else mem x ys)
unfolding mem
mem-append x [] ys = refl
mem-append x (y ∷ xs) ys = ground (arith, mem-append x xs ys)

pub mem-push_new :
    (x y : ℕ) (ys : List ℕ) → mem x (push_new y ys) ≡ (if x == y then true else mem x ys)
unfolding mem push_new
mem-push_new x y ys = ground (arith, mem-append x ys (y ∷ []), ==_iff x y, ap (λ z. mem z ys))

pub mem-set_insert :
    (x y : ℕ) (ys : List ℕ) → mem x (set_insert y ys) ≡ (if x == y then true else mem x ys)
unfolding mem set_insert
mem-set_insert x y [] = refl
mem-set_insert x y (z ∷ ys) = ground (arith, mem-set_insert x y ys)

pub mem-remove_all :
    (x : ℕ) (dead ys : List ℕ)
    → mem x (remove_all dead ys) ≡ (if mem x dead then false else mem x ys)
unfolding mem remove_all
mem-remove_all x dead [] = ground arith
mem-remove_all x dead (y ∷ ys) = elim (Bool-cases (mem y dead)) [
  | inl e ↦ elim (Bool-cases (x == y)) [
    | inl same ↦
        let e' : mem x dead ≡ true = subst (λ z. mem z dead ≡ true) (sym ((==_iff x y).0 same)) e in
        rw (e, e') (ground (arith, mem-remove_all x dead ys))
    | inr other ↦ rw (e, other) (mem-remove_all x dead ys)
  ]
  | inr e ↦ elim (Bool-cases (x == y)) [
    | inl same ↦
        let e' : mem x dead ≡ false =
          subst (λ z. mem z dead ≡ false) (sym ((==_iff x y).0 same)) e in
        rw (e, e', same) refl
    | inr other ↦ rw (e, other) (ground (arith, mem-remove_all x dead ys))
  ]
]

-- What stands in a vector after a push into one.
module _ (i k n c : ℕ) (m : Map (List ℕ)) where
  pub mem-push_old : mem i (bucket c m) ≡ true → mem i (bucket c (push k n m)) ≡ true
  mem-push_old h = elim (Bool-cases (c == k)) [
    | inl e ↦
        let same = (==_iff c k).0 e in
        let h' : mem i (bucket k m) ≡ true = subst (λ z. mem i (bucket z m) ≡ true) same h in
        rw (bucket-push c k n m, e, mem-append i (bucket k m) (n ∷ []), h') refl
    | inr e ↦ rw (bucket-push c k n m, e) h
  ]

  mem-one : (i == n) ≡ false → mem i (n ∷ []) ≡ false
  unfolding mem
  mem-one f = rw f refl

  pub mem-push_inv :
      mem i (bucket c (push k n m)) ≡ true → (mem i (bucket c m) ≡ true) ⊎ ((c ≡ k) × (i ≡ n))
  mem-push_inv h = elim (Bool-cases (c == k)) [
    | inl e ↦
        let same = (==_iff c k).0 e in
        elim (Bool-cases (mem i (bucket k m))) [
          | inl d ↦ inl (subst (λ z. mem i (bucket z m) ≡ true) (sym same) d)
          | inr d ↦ elim (Bool-cases (i == n)) [
            | inl f ↦ inr (same, (==_iff i n).0 f)
            | inr f ↦
                cc (
                  rw (bucket-push c k n m, e, mem-append i (bucket k m) (n ∷ []), d) at h,
                  mem-one f,
                )
          ]
        ]
    | inr e ↦ inl (rw (bucket-push c k n m, e) at h)
  ]

pub mem-push_self : (k n : ℕ) (m : Map (List ℕ)) → mem n (bucket k (push k n m)) ≡ true
unfolding mem
mem-push_self k n m = elim (Bool-cases (mem n (bucket k m))) [
  | inl d ↦ mem-push_old n k n k m d
  | inr d ↦ rw (bucket-push k k n m, self k, mem-append n (bucket k m) (n ∷ []), d, self n) refl
]
  where
    self : (j : ℕ) → (j == j) ≡ true
    self j = (==_iff j j).1 refl
