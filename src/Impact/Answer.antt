-- ===== src/Impact/Answer.antt =====
-- src/impact/ImpactSearch.cpp, findImpact on names and its result, in a call graph. `valid` is llvm::json::isUTF8, which the queries of the call graph take.
use vycor_cpp.Prelude.{
  ℕ, Bool, false, not, ◌&&◌, ◌||◌, List, [], ◌∷◌, ◌++◌, length, map, ltb, ◌==◌, list_eq,
  if◌then◌else◌,
}
use vycor_cpp.CallGraph.{CallGraph, links_of, stored_in_degree, text_lt}
use vycor_cpp.CallGraph.Interner.{Text}
use vycor_cpp.CallGraph.Maps.{Map}
use vycor_cpp.CallGraph.Edges.{StoredEdge}
use vycor_cpp.CallGraph.Refs.{EdgeRef, caller_refs_of}
use vycor_cpp.PathSearch.Order.{sort_refs, text_of}
use vycor_cpp.PathSearch.Answer.{
  PathHop, SkippedHub, Stops, resolve_ids, ordered_targets, display_of, hop_of, hub_list,
  sorted_hubs, is_empty,
}
use vycor_cpp.Impact.{ImpactLimits, Reached, Tally, walk_from, path_of}

pub record AffectedFunction : Type 0 where
  pub usr : Text
  pub name : Text
  pub depth : ℕ
  pub changed_usr : Text
  pub path : List PathHop

pub record ImpactResult : Type 0 where
  pub changed : List Text
  pub unknown : List Text
  pub affected : List AffectedFunction
  pub skipped_hubs : List SkippedHub
  pub stops : Stops
  pub expansions : ℕ

pub is_complete : ImpactResult → Bool
is_complete r = not r.stops.work_budget && not r.stops.hub_pruned

pub is_exhaustive : ImpactResult → Bool
is_exhaustive r = is_complete r && not r.stops.depth_limit && not r.stops.path_limit

-- std::unique: of equal neighbours, the first.
unique_ids : List ℕ → List ℕ
unique_ids [] = []
unique_ids (i ∷ is) =
    let rest = unique_ids is in elim is [ [] ↦ i ∷ [] | j ∷ js ↦ if i == j then rest else i ∷ rest ]

-- std::sort and std::unique on texts, a text at a time.
insert_text : Text → List Text → List Text
insert_text s [] = s ∷ []
insert_text s (u ∷ us) =
    let rest = insert_text s us in
    if list_eq s u then u ∷ us else if text_lt s u then s ∷ u ∷ us else u ∷ rest

-- std::tie(depth, usr)
affected_lt : AffectedFunction → AffectedFunction → Bool
affected_lt a b = ltb a.depth b.depth || a.depth == b.depth && text_lt a.usr b.usr

insert_affected : AffectedFunction → List AffectedFunction → List AffectedFunction
insert_affected a [] = a ∷ []
insert_affected a (b ∷ bs) =
    let rest = insert_affected a bs in if affected_lt a b then a ∷ b ∷ bs else b ∷ rest

-- The callers of the stored edges.
unfoldable pub stored_callers : List StoredEdge → List ℕ
stored_callers [] = []
stored_callers (se ∷ ses) = se.caller ∷ stored_callers ses

-- The callers in canonical order.
abbrev pub sorted_callers : CallGraph → ℕ → List EdgeRef
sorted_callers g node = sort_refs (text_of g) (caller_refs_of node (links_of g))

-- The walk in a call graph.
unfoldable pub impact_walk :
    CallGraph → (EdgeRef → Bool) → ImpactLimits → List ℕ → Map Reached × Tally
impact_walk g filter limits seeds =
    walk_from (sorted_callers g) (λ node. stored_in_degree node g) filter limits seeds
      (length (stored_callers g.store.edges))

module _ (valid : Text → Bool) where
  known_seeds : CallGraph → List Text → List ℕ
  known_seeds g [] = []
  known_seeds g (name ∷ names) = resolve_ids valid g name ++ known_seeds g names

  unknown_names : CallGraph → List Text → List Text
  unknown_names g [] = []
  unknown_names g (name ∷ names) =
      let rest = unknown_names g names in
      if is_empty (resolve_ids valid g name) then insert_text name rest else rest

  affected_of : CallGraph → Map Reached → Map Reached → List AffectedFunction
  affected_of g m [] = []
  affected_of g m ((id, rc) ∷ rest) =
      let others = affected_of g m rest in
      if rc.depth == 0
      then others
      else insert_affected
          (record {
            usr = text_of g id;
            name = display_of valid g id;
            depth = rc.depth;
            changed_usr = text_of g rc.origin;
            path = map (hop_of valid g) (path_of rc.depth id m);
          })
          others

  pub find_impact : CallGraph → List Text → ImpactLimits → (EdgeRef → Bool) → ImpactResult
  find_impact g changed limits filter =
      let seeds = unique_ids (ordered_targets g (known_seeds g changed)) in
      let (m, t) = impact_walk g filter limits seeds in
      record {
        changed = map (text_of g) seeds;
        unknown = unknown_names g changed;
        affected = affected_of g m m;
        skipped_hubs = sorted_hubs (hub_list valid g t.hubs);
        stops = record {
          path_limit = false;
          depth_limit = t.depth_stop;
          work_budget = t.work_stop;
          hub_pruned = t.hub_stop;
        };
        expansions = t.expansions;
      }
