-- ===== src/PathSearch/Answer/Bounds.antt =====
-- What a caller of findCallerPaths can rely on, whatever it asks.
use vycor_cpp.Prelude.{
  ℕ, suc, ◌≤◌, ◌<◌, ◌≡◌, refl, ap, sym, subst, inl, inr, Bool, true, false, not, ◌&&◌, ◌||◌, List,
  [], ◌∷◌, length, map, ltb, ◌==◌, Bool-cases, arith,
}
use vycor_cpp.CallGraph.{CallGraph, links_of}
use vycor_cpp.CallGraph.Interner.{Text}
use vycor_cpp.CallGraph.Refs.{EdgeRef, callee_refs_of}
use vycor_cpp.PathSearch.{
  Graph, SearchLimits, CycleRule, capped, ready, find_paths, path_search_depth_cap,
}
use vycor_cpp.PathSearch.Order.{graph_of}
use vycor_cpp.PathSearch.Chains.{AllFound, nil, cons}
use vycor_cpp.PathSearch.Found.{find_paths-IsRight}
use vycor_cpp.PathSearch.Answer.{
  PathHop, PathSearchResult, no_stops, complete, hop_list, hop_of, find_caller_paths, is_empty,
  resolve_ids, start_ids, sorted_ids, ordered_targets,
}

pub data AllSized (longest : ℕ) : List (List PathHop) → Type 0 where
  no_more : AllSized longest []
  sized_path :
      {hops : List PathHop} {paths : List (List PathHop)}
      → 0 < length hops
      → length hops ≤ longest
      → AllSized longest paths
      → AllSized longest (hops ∷ paths)

-- Paths of the asked lengths, no more than were asked for, and none without both ends known.
pub record IsAnswer (limits : SearchLimits) (r : PathSearchResult) : Type 0 where
  pub sized : AllSized (capped limits).max_depth r.paths
  pub few : 0 < limits.max_paths → length r.paths ≤ limits.max_paths
  pub unknown :
      r.target_known && r.start_known ≡ false
      → (r.paths ≡ []) × (r.stops ≡ no_stops) × (complete r ≡ false)

length-map {ℓ κ} :
    {A : Type ℓ} {B : Type κ} (f : A → B) (xs : List A) → length (map f xs) ≡ length xs
length-map f [] = refl
length-map f (x ∷ xs) = ap suc (length-map f xs)

length-hop_list :
    (f : EdgeRef → PathHop) (ps : List (List EdgeRef)) → length (hop_list f ps) ≡ length ps
unfolding hop_list
length-hop_list f [] = refl
length-hop_list f (p ∷ ps) = ap suc (length-hop_list f ps)

hop_list-AllSized :
    (f : EdgeRef → PathHop) {g : Graph} {targets : List ℕ} {ps : List (List EdgeRef)}
    → AllFound g targets ps
    → AllSized g.limits.max_depth (hop_list f ps)
unfolding hop_list
hop_list-AllSized f nil = no_more
hop_list-AllSized f {g} (cons {path = p} found rest) =
    sized_path (subst (λ n. 0 < n) (sym (length-map f p)) found.some_edge)
      (subst (λ n. n ≤ g.limits.max_depth) (sym (length-map f p)) found.short)
      (hop_list-AllSized f rest)

capped-paths : (limits : SearchLimits) → (capped limits).max_paths ≡ limits.max_paths
unfolding capped
capped-paths limits =
    elim (Bool-cases (limits.max_depth == 0 || ltb path_search_depth_cap limits.max_depth)) [
      | inl e ↦ rw e refl
      | inr e ↦ rw e refl
    ]

-- One end that is not known is enough.
not_complete : (p q r s t : Bool) → p && q ≡ false → p && q && r && s && t ≡ false
not_complete true true r s t h = cc h
not_complete true false r s t h = refl
not_complete false q r s t h = refl

both_known : (a b : Bool) → a || b ≡ false → not a && not b ≡ true
both_known true b h = cc h
both_known false true h = cc h
both_known false false h = refl

-- Whatever it is asked, findCallerPaths returns no empty path and none with more hops than the depth
-- limit in use, no more paths than a path limit that is given, and, when the target or every start
-- is unknown, no path, no stop reason and no claim to be complete.
pub find_caller_paths-IsAnswer :
    (valid : Text → Bool) (rounds : ℕ) (g : CallGraph) (target : Text) (starts : List Text)
    (limits : SearchLimits) (cycles : CycleRule) (filter : EdgeRef → Bool)
    → IsAnswer limits (find_caller_paths valid rounds g target starts limits cycles filter)
unfolding find_caller_paths graph_of ready
find_caller_paths-IsAnswer valid rounds g target starts limits cycles filter =
    let targets = resolve_ids valid g target in
    let start_set = sorted_ids (start_ids valid g starts) in
    elim (Bool-cases (is_empty targets || is_empty start_set)) [
      | inl e ↦ rw e (record {
        sized = no_more;
        few = λ h. omega arith;
        unknown = λ h. (
          refl,
          refl,
          unfold complete in
              not_complete (not (is_empty targets)) (not (is_empty start_set)) true true true h,
        );
      })
      | inr e ↦
          let view = graph_of g filter start_set limits cycles in
          let callees = λ (id : ℕ). callee_refs_of id (links_of g) in
          let right = (find_paths-IsRight callees rounds view (ordered_targets g targets)).0 in
          let found = (find_paths callees rounds view (ordered_targets g targets)).found in
          rw e (record {
            sized = hop_list-AllSized (hop_of valid g) right.all_found;
            few = λ h.
                subst (λ n. n ≤ limits.max_paths) (sym (length-hop_list (hop_of valid g) found))
                  (subst (λ m. length found ≤ m) (capped-paths limits)
                    (right.few (subst (λ m. 0 < m) (sym (capped-paths limits)) h)));
            unknown = λ h. absurd (cc (h, both_known (is_empty targets) (is_empty start_set) e));
          })
    ]
