-- ===== src/GlobalIndex/Restore/Edges.antt =====
-- Buckets that are sets of type names.
use vycor_cpp.Prelude.{
  ◌<◌, ◌≡◌, refl, sym, ap, subst, ◌∙◌, inl, inr, Bool, true, false, List, [], ◌∷◌, ◌++◌, length,
  list_eq, Bool-cases, if◌then◌else◌, All, arith,
}
use vycor_cpp.GlobalIndex.{add_each}
use vycor_cpp.GlobalIndex.Types.{Name, Buckets, mem, push_new, add_edge, pairs_of, for_each_edge}
use vycor_cpp.GlobalIndex.Entries.{merge_at, keep}
use vycor_cpp.GlobalIndex.Invariant.{has_key, Distinct, merge_at-Distinct}
use vycor_cpp.GlobalIndex.Restore.Keyed.{restore_list}
use vycor_cpp.GlobalIndex.Restore.Buckets.{
  add_in, listed, Whole, IsBuckets, restore_buckets, add_in-IsBuckets,
}
use vycor_cpp.GlobalIndex.Restore.Pushed.{add_each-same}

abbrev itself : Name → Name
itself x = x

abbrev into : Name × Name → List Name → List Name
into p = merge_at itself keep p.1

abbrev source : Name × Name → Name
source p = p.0

mem-has_key : (x : Name) (xs : List Name) → mem x xs ≡ has_key itself x xs
unfolding mem has_key
mem-has_key x [] = refl
mem-has_key x (y ∷ ys) = rw (mem-has_key x ys) refl

push_new-merge_at : (x : Name) (xs : List Name) → push_new x xs ≡ merge_at itself keep x xs
unfolding push_new mem merge_at keep
push_new-merge_at x [] = refl
push_new-merge_at x (y ∷ ys) = elim (Bool-cases (list_eq x y)) [
  | inl d ↦ rw d refl
  | inr d ↦ rw d (later (mem x ys) (push_new-merge_at x ys))
]
  where
    later :
        (b : Bool)
        → (if b then ys else ys ++ (x ∷ [])) ≡ merge_at itself keep x ys
        → (if b then y ∷ ys else y ∷ (ys ++ (x ∷ []))) ≡ y ∷ merge_at itself keep x ys
    later true e = ap (◌∷◌ y) e
    later false e = ap (◌∷◌ y) e

-- Some names, each once.
abbrev pub IsNames : Name → List Name → Type 0
IsNames k xs = (0 < length xs) × Distinct itself xs

length-merge_at : (x : Name) (xs : List Name) → 0 < length (merge_at itself keep x xs)
unfolding merge_at
length-merge_at x [] = omega arith
length-merge_at x (y ∷ ys) = ground arith

IsNames-step : (p : Name × Name) (xs : List Name) → Distinct itself xs → IsNames p.0 (into p xs)
IsNames-step p xs h =
    (length-merge_at p.1 xs, merge_at-Distinct itself keep (λ x e. unfold keep in refl) p.1 xs h)

IsNames-begin : (p : Name × Name) → IsNames p.0 (into p [])
unfolding Distinct
IsNames-begin p = IsNames-step p [] tt

add_each-pairs :
    (k : Name) (xs done : List Name)
    → add_each into (pairs_of k xs) done ≡ add_each (merge_at itself keep) xs done
unfolding add_each pairs_of
add_each-pairs k [] done = refl
add_each-pairs k (x ∷ xs) done = add_each-pairs k xs (merge_at itself keep x done)

pairs-source : (k : Name) (xs : List Name) → All (λ (p : Name × Name). source p ≡ k) (pairs_of k xs)
unfolding pairs_of
pairs-source k [] = tt
pairs-source k (x ∷ xs) = (refl, pairs-source k xs)

IsNames-Whole : (k : Name) (xs : List Name) → IsNames k xs → Whole source into pairs_of k xs
unfolding pairs_of
IsNames-Whole k [] h = absurd (omega (arith, h.0))
IsNames-Whole k (x ∷ xs) h = (
  (k, x),
  pairs_of k xs,
  refl,
  (refl, pairs-source k xs),
  add_each-pairs k (x ∷ xs) [] ∙ restore_list itself keep (x ∷ xs) h.1,
)

abbrev add_pair : Name × Name → Buckets Name → Buckets Name
add_pair p = add_edge p.0 p.1

add_edge-add_in : (p : Name × Name) (m : Buckets Name) → add_pair p m ≡ add_in source into p m
unfolding add_edge add_in merge_at
add_edge-add_in p [] = refl
add_edge-add_in p ((k, xs) ∷ m) = rw (push_new-merge_at p.1 xs, add_edge-add_in p m) refl

edges_listed : (m : Buckets Name) → listed source into pairs_of m ≡ for_each_edge m
unfolding listed for_each_edge
edges_listed [] = refl
edges_listed ((k, xs) ∷ m) = ap (λ l. pairs_of k xs ++ l) (edges_listed m)

abbrev pub NameSets : Buckets Name → Type 0
NameSets = IsBuckets IsNames

pub add_edge-NameSets : (a b : Name) (m : Buckets Name) → NameSets m → NameSets (add_edge a b m)
add_edge-NameSets a b m h = subst NameSets (sym (add_edge-add_in (a, b) m)) (
    add_in-IsBuckets source into pairs_of IsNames IsNames-Whole IsNames-begin
      (λ p xs k. IsNames-step p xs k.1) (a, b) m h)

pub restore_edges :
    (m : Buckets Name)
    → NameSets m
    → add_each (λ (p : Name × Name). add_edge p.0 p.1) (for_each_edge m) [] ≡ m
restore_edges m h =
    add_each-same add_pair (add_in source into) add_edge-add_in (for_each_edge m) []
    ∙ (ap (λ l. add_each (add_in source into) l []) (sym (edges_listed m))
        ∙ restore_buckets source into pairs_of IsNames IsNames-Whole IsNames-begin
            (λ p xs k. IsNames-step p xs k.1) m h)
