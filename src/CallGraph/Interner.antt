-- ===== src/CallGraph/Interner.antt =====
-- include/vycor/callgraph/StringInterner.h: strings and their ids. The mutex is left out: each call is
-- one step. `index` is the map from strings to ids, its latest entry first.
use vycor_cpp.Prelude.{
  ℕ, suc, ◌+◌, ◌%◌, ◌^◌, ◌<◌, ◌≡◌, ◌↔◌, refl, sym, subst, inl, inr, Bool, true, false, Option, none,
  some, List, [], ◌∷◌, ◌++◌, length, list_eq, list_eq_refl, list_eq→eq, ◌==◌, Option-cases,
  if◌then◌else◌, arith,
}
use vycor_cpp.CallGraph.Maps.{get_elem?, get_elem?-push, get_elem?-below}

abbrev pub Text : Type 0
Text = List ℕ

pub record StringInterner : Type 0 where
  pub strings : List Text
  pub index : List (Text × ℕ)

abbrev pub no_strings : StringInterner
no_strings = record { strings = []; index = [] }

unfoldable pub lookup_text : Text → List (Text × ℕ) → Option ℕ
lookup_text s [] = none
lookup_text s ((u, i) ∷ m) = let later = lookup_text s m in if list_eq s u then some i else later

unfoldable pub find : Text → StringInterner → Option ℕ
find s t = lookup_text s t.index

-- The string of an id; `none` where the source reads out of bounds.
pub resolve : ℕ → StringInterner → Option Text
resolve id t = get_elem? t.strings id

unfoldable pub intern : Text → StringInterner → ℕ × StringInterner
intern s t = elim (find s t) [
  | some id ↦ (id, t)
  | none ↦
      let id = length t.strings % 2 ^ 32 in
      (id, record { strings = t.strings ++ (s ∷ []); index = (s, id) ∷ t.index })
]

-- rebuildIndex: `emplace` keeps the first id of a string.
rebuild_from : ℕ → List Text → List (Text × ℕ) → List (Text × ℕ)
rebuild_from i [] m = m
rebuild_from i (s ∷ ss) m =
    rebuild_from (suc i) ss (elim (lookup_text s m) [ some id ↦ m | none ↦ (s, i % 2 ^ 32) ∷ m ])

pub install_strings : List Text → StringInterner → Bool × StringInterner
install_strings ss t = elim t.strings [
  | [] ↦ (true, record { strings = ss; index = rebuild_from 0 ss [] })
  | x ∷ xs ↦ (false, t)
]

pub payload_bytes : List Text → ℕ
payload_bytes [] = 0
payload_bytes (s ∷ ss) = length s + payload_bytes ss

-- The index holds the strings, each at its position.
abbrev pub IsInterned : StringInterner → Type 0
IsInterned t = (s : Text) (i : ℕ) → (find s t ≡ some i) ↔ (resolve i t ≡ some s)

intern-found : (s : Text) (t : StringInterner) (i : ℕ) → find s t ≡ some i → intern s t ≡ (i, t)
unfolding intern
intern-found s t i e = rw (e, intern) refl

-- The interner with a new string at its end.
abbrev extended : Text → StringInterner → StringInterner
extended s t = record {
  strings = t.strings ++ (s ∷ []);
  index = (s, length t.strings % 2 ^ 32) ∷ t.index;
}

intern-new :
    (s : Text) (t : StringInterner)
    → find s t ≡ none
    → intern s t ≡ (length t.strings % 2 ^ 32, extended s t)
unfolding intern
intern-new s t e = rw (e, intern) refl

resolve-extended :
    (s : Text) (t : StringInterner) (i : ℕ)
    → resolve i (extended s t) ≡ (if i == length t.strings then some s else resolve i t)
unfolding resolve
resolve-extended s t i = get_elem?-push t.strings i s

find-extended :
    (s : Text) (t : StringInterner) (u : Text)
    → length t.strings < 2 ^ 32
    → find u (extended s t) ≡ (if list_eq u s then some (length t.strings) else find u t)
unfolding find lookup_text
find-extended s t u few =
    let at_end : length t.strings % 2 ^ 32 ≡ length t.strings = omega arith in rw at_end refl

resolve-below :
    (t : StringInterner) (i : ℕ) (u : Text) → resolve i t ≡ some u → i < length t.strings
unfolding resolve
resolve-below t i u h = get_elem?-below t.strings i h

extended-IsInterned :
    (s : Text) (t : StringInterner)
    → IsInterned t
    → length t.strings < 2 ^ 32
    → find s t ≡ none
    → IsInterned (extended s t)
extended-IsInterned s t inv few new u i = (
  λ h. ground (
    arith,
    find-extended s t u few,
    resolve-extended s t i,
    (inv u i).0,
    resolve-below t i u,
    list_eq→eq u s,
    list_eq→eq s u,
  ),
  λ h. ground (
    arith,
    find-extended s t u few,
    resolve-extended s t i,
    (inv u i).1,
    (inv s i).1,
    list_eq→eq u s,
    list_eq_refl u,
    new_at u,
  ),
)
  where
    new_at : (v : Text) → v ≡ s → find v t ≡ none
    new_at v e = subst (λ w. find w t ≡ none) (sym e) new

-- If the index of an interner has each string at its position and fewer than 2^32 strings are
-- interned, then this holds after another is interned, its id resolves to it, and every id keeps its
-- string.
pub intern_lem :
    (s : Text) (t : StringInterner)
    → IsInterned t
    → length t.strings < 2 ^ 32
    → IsInterned (intern s t).1
      × (resolve (intern s t).0 (intern s t).1 ≡ some s)
      × ((j : ℕ) (u : Text) → resolve j t ≡ some u → resolve j (intern s t).1 ≡ some u)
intern_lem s t inv few = elim (Option-cases (find s t)) [
  | inr (i, e) ↦ rw (intern-found s t i e) (inv, (inv s i).0 e, λ j u h. h)
  | inl e ↦ rw (intern-new s t e) (
    extended-IsInterned s t inv few e,
    ground (arith, resolve-extended s t (length t.strings % 2 ^ 32)),
    λ j u h. ground (arith, resolve-extended s t j, resolve-below t j u),
  )
]

pub no_strings-IsInterned : IsInterned no_strings
unfolding find lookup_text resolve get_elem?
no_strings-IsInterned s i = (λ h. cc h, λ h. cc h)
