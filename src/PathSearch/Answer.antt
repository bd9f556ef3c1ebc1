-- ===== src/PathSearch/Answer.antt =====
-- src/callgraph/PathSearch.cpp, resolveIds and findCallerPaths on names, with
-- include/vycor/callgraph/PathSearch.h, the result. `valid` is llvm::json::isUTF8, which the queries of
-- the call graph take; the rounds of the corridor are an argument. A path is a list of its hops.
pub mod Bounds
use vycor_cpp.Prelude.{
  ℕ, zero, suc, ◌+◌, ◌≤◌, ◌<◌, ◌≡◌, refl, ap, sym, subst, ◌∙◌, inl, inr, Bool, true, false, not,
  ◌&&◌, ◌||◌, Option, none, some, List, [], ◌∷◌, ◌++◌, length, ltb, ◌==◌, map, Bool-cases,
  if◌then◌else◌, if-intro, arith,
}
use vycor_cpp.CallGraph.{CallGraph, links_of, find_node, usrs_for_name, text_lt}
use vycor_cpp.CallGraph.Interner.{Text, find}
use vycor_cpp.CallGraph.Nodes.{CallGraphNode}
use vycor_cpp.CallGraph.Edges.{EdgeKind, Confidence, ExecutionContext}
use vycor_cpp.CallGraph.Refs.{EdgeRef, callee_refs_of, caller_refs_of}
use vycor_cpp.CallGraph.Maps.{Map, mem}
use vycor_cpp.PathSearch.{
  Search, SearchLimits, CycleRule, capped, ready, find_paths, path_search_depth_cap,
}
use vycor_cpp.PathSearch.Order.{graph_of, text_of}
use vycor_cpp.PathSearch.Chains.{AllFound, nil, cons}
use vycor_cpp.PathSearch.Found.{find_paths-IsRight}

pub record PathHop : Type 0 where
  pub caller_usr : Text
  pub callee_usr : Text
  pub caller : Text
  pub callee : Text
  pub call_site : Text
  pub kind : EdgeKind
  pub confidence : Confidence
  pub exec_context : ExecutionContext
  pub indirection_depth : ℕ

pub record SkippedHub : Type 0 where
  pub usr : Text
  pub name : Text
  pub in_degree : ℕ

-- StopReason
pub record Stops : Type 0 where
  pub path_limit : Bool
  pub depth_limit : Bool
  pub work_budget : Bool
  pub hub_pruned : Bool

abbrev pub no_stops : Stops
no_stops = record {
  path_limit = false;
  depth_limit = false;
  work_budget = false;
  hub_pruned = false;
}

pub record PathSearchResult : Type 0 where
  pub paths : List (List PathHop)
  pub skipped_hubs : List SkippedHub
  pub stops : Stops
  pub expansions : ℕ
  pub target_known : Bool
  pub start_known : Bool

pub complete : PathSearchResult → Bool
complete r =
    r.target_known
    && r.start_known
    && not r.stops.path_limit
    && not r.stops.work_budget
    && not r.stops.hub_pruned

pub exhaustive : PathSearchResult → Bool
exhaustive r = complete r && not r.stops.depth_limit

pub is_empty {ℓ} : {A : Type ℓ} → List A → Bool
is_empty [] = true
is_empty (x ∷ xs) = false

-- std::sort and std::unique on ids, an id at a time.
insert_id : ℕ → List ℕ → List ℕ
insert_id i [] = i ∷ []
insert_id i (j ∷ js) =
    let rest = insert_id i js in if i == j then j ∷ js else if ltb i j then i ∷ j ∷ js else j ∷ rest

sorted_ids : List ℕ → List ℕ
sorted_ids [] = []
sorted_ids (i ∷ is) = insert_id i (sorted_ids is)

-- The order of the targets, by their usrs.
insert_target : CallGraph → ℕ → List ℕ → List ℕ
insert_target g i [] = i ∷ []
insert_target g i (j ∷ js) =
    let rest = insert_target g i js in
    if text_lt (text_of g i) (text_of g j) then i ∷ j ∷ js else j ∷ rest

pub ordered_targets : CallGraph → List ℕ → List ℕ
ordered_targets g [] = []
ordered_targets g (i ∷ is) = insert_target g i (ordered_targets g is)

-- std::sort by usr
insert_hub : SkippedHub → List SkippedHub → List SkippedHub
insert_hub h [] = h ∷ []
insert_hub h (k ∷ ks) =
    let rest = insert_hub h ks in if text_lt h.usr k.usr then h ∷ k ∷ ks else k ∷ rest

pub sorted_hubs : List SkippedHub → List SkippedHub
sorted_hubs [] = []
sorted_hubs (h ∷ hs) = insert_hub h (sorted_hubs hs)

hop_list : (EdgeRef → PathHop) → List (List EdgeRef) → List (List PathHop)
hop_list f [] = []
hop_list f (p ∷ ps) = map f p ∷ hop_list f ps

module _ (valid : Text → Bool) where
  -- The lambda of resolveIds.
  referenced : CallGraph → ℕ → Bool
  referenced g id =
      elim (find_node valid (text_of g id) g) [ none ↦ false | some node ↦ true ]
      || not (is_empty (caller_refs_of id (links_of g)))
      || not (is_empty (callee_refs_of id (links_of g)))

  known_ids : CallGraph → List Text → List ℕ
  known_ids g [] = []
  known_ids g (usr ∷ usrs) =
      let rest = known_ids g usrs in
      elim (find usr g.interner) [
        | none ↦ rest
        | some id ↦ if referenced g id then id ∷ rest else rest
      ]

  pub resolve_ids : CallGraph → Text → List ℕ
  resolve_ids g name =
      let ids = known_ids g (usrs_for_name valid name g) in
      sorted_ids (if is_empty ids then known_ids g (name ∷ []) else ids)

  start_ids : CallGraph → List Text → List ℕ
  start_ids g [] = []
  start_ids g (s ∷ ss) = resolve_ids g s ++ start_ids g ss

  -- The lambda displayOf.
  pub display_of : CallGraph → ℕ → Text
  display_of g id = elim (find_node valid (text_of g id) g) [
    | none ↦ text_of g id
    | some node ↦ node.qualified_name
  ]

  pub hop_of : CallGraph → EdgeRef → PathHop
  hop_of g e = record {
    caller_usr = text_of g e.caller;
    callee_usr = text_of g e.callee;
    caller = display_of g e.caller;
    callee = display_of g e.callee;
    call_site = text_of g e.call_site;
    kind = e.kind;
    confidence = e.confidence;
    exec_context = e.exec_context;
    indirection_depth = e.indirection_depth;
  }

  pub hub_list : CallGraph → Map ℕ → List SkippedHub
  hub_list g [] = []
  hub_list g ((id, deg) ∷ m) =
      record { usr = text_of g id; name = display_of g id; in_degree = deg } ∷ hub_list g m

  pub find_caller_paths :
      ℕ
      → CallGraph
      → Text
      → List Text
      → SearchLimits
      → CycleRule
      → (EdgeRef → Bool)
      → PathSearchResult
  find_caller_paths rounds g target starts limits cycles filter =
      let targets = resolve_ids g target in
      let start_set = sorted_ids (start_ids g starts) in
      let st =
        find_paths (λ id. callee_refs_of id (links_of g)) rounds
          (graph_of g filter start_set limits cycles) (ordered_targets g targets) in
      if is_empty targets || is_empty start_set
      then record {
        paths = [];
        skipped_hubs = [];
        stops = no_stops;
        expansions = 0;
        target_known = not (is_empty targets);
        start_known = not (is_empty start_set);
      }
      else record {
        paths = hop_list (hop_of g) st.found;
        skipped_hubs = sorted_hubs (hub_list g st.hubs);
        stops = record {
          path_limit = st.truncated;
          depth_limit = st.depth_stop;
          work_budget = st.work_stop;
          hub_pruned = st.hub_stop;
        };
        expansions = st.expansions;
        target_known = not (is_empty targets);
        start_known = not (is_empty start_set);
      }
