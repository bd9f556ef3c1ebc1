-- ===== src/PathSearch/Tests.antt =====
-- A chain of calls 0 → 1 → 2, searched from 2 back to 0.
use vycor_cpp.Prelude.{
  ℕ, zero, suc, ◌+◌, ◌≤◌, ◌≡◌, refl, ap, sym, subst, true, false, List, [], ◌∷◌, arith,
}
use vycor_cpp.CallGraph.Edges.{direct_call, proven, synchronous}
use vycor_cpp.CallGraph.{CallGraph, CallGraphEdge, no_graph, add_edge, links_of}
use vycor_cpp.CallGraph.Edges.Keys.{total}
use vycor_cpp.CallGraph.Edges.Registers.{registrations}
use vycor_cpp.CallGraph.Refs.{EdgeRef, callee_refs_of}
use vycor_cpp.CallGraph.Woven.{Reach, here, next, edge}
use vycor_cpp.PathSearch.{
  Graph, SearchLimits, simple_nodes, Search, new_search, search_targets, path_limit_hit, capped,
  corridor, corridor_round, corridor_edges, start_distances, is_dead, visit_node, record_path,
  expand, both_flags, bury, corridor_caller, is_excluded, on_path_edge, same_edge, turn_of, dfs,
  ready, find_paths, path_search_depth_cap,
}
use vycor_cpp.PathSearch.Chains.{In, first, CallPath, here, hop, IsRight}
use vycor_cpp.PathSearch.Found.{find_paths-IsRight}
use vycor_cpp.PathSearch.Order.{graph_of}
use vycor_cpp.CallGraph.Maps.{get, put, mem}
use vycor_cpp.PathSearch.Complete.{Has, stopped, In-only}
use vycor_cpp.PathSearch.Exhaustive.{find_paths-Has}
use vycor_cpp.PathSearch.Order.Calls.{AllFromStart, find_paths-AllFromStart}
use vycor_cpp.PathSearch.Answer.{find_caller_paths}
use vycor_cpp.PathSearch.Answer.Bounds.{IsAnswer, find_caller_paths-IsAnswer}
use vycor_cpp.PathSearch.Fuel.{dfs_fuel}

abbrev call : ℕ → ℕ → EdgeRef
call a b = record {
  caller = a;
  callee = b;
  call_site = 7;
  kind = direct_call;
  confidence = proven;
  exec_context = synchronous;
  indirection_depth = 0;
}

abbrev callers : ℕ → List EdgeRef
callers zero = []
callers (suc zero) = call 0 1 ∷ []
callers (suc (suc zero)) = call 1 2 ∷ []
callers (suc (suc (suc n))) = []

abbrev callees : ℕ → List EdgeRef
callees zero = call 0 1 ∷ []
callees (suc zero) = call 1 2 ∷ []
callees (suc (suc n)) = []

abbrev limits : SearchLimits
limits = record { max_paths = 100; max_depth = 20; max_fan_in = 1000; max_work = 2000000 }

abbrev chain : Graph
chain = record {
  callers_of = callers;
  stored_in_degree = λ n. 1;
  filter = λ e. true;
  starts = 0 ∷ [];
  min_from_start = [];
  limits = limits;
  cycles = simple_nodes;
}

find_paths-IsRight_example :
    IsRight (ready callees 3 chain) (2 ∷ []) (find_paths callees 3 chain (2 ∷ []))
    × ((ready callees 3 chain).limits.max_depth ≤ path_search_depth_cap)
find_paths-IsRight_example = find_paths-IsRight callees 3 chain (2 ∷ [])

dfs_fuel_example :
    dfs (5 + suc chain.limits.max_depth) chain 2 0 [] [] new_search
    ≡ dfs (suc chain.limits.max_depth) chain 2 0 [] [] new_search
dfs_fuel_example = dfs_fuel 5 chain 2 new_search (omega arith)

abbrev main_calls : CallGraphEdge
main_calls = record {
  caller_name = 77 ∷ [];
  callee_name = 66 ∷ [];
  kind = direct_call;
  confidence = proven;
  call_site = 49 ∷ [];
  indirection_depth = 0;
  exec_context = synchronous;
  caller_usr = [];
  callee_usr = [];
}

abbrev small : CallGraph
small = add_edge main_calls (116 ∷ []) no_graph

small-Reach : Reach small
unfolding registrations total
small-Reach = next here (edge no_graph main_calls (116 ∷ []) (λ k. omega arith))

find_paths-AllFromStart_example :
    AllFromStart
      (links_of small)
      (0 ∷ [])
      (1 ∷ [])
      (find_paths
        (λ id. callee_refs_of id (links_of small))
        3
        (graph_of small (λ e. true) (0 ∷ []) limits simple_nodes)
        (1 ∷ [])).found
find_paths-AllFromStart_example =
    find_paths-AllFromStart small small-Reach (λ e. true) (0 ∷ []) limits simple_nodes
      (λ id. callee_refs_of id (links_of small)) 3 (1 ∷ [])

find_caller_paths-IsAnswer_example : IsAnswer limits (
    find_caller_paths
      (λ s. true)
      3
      small
      (66 ∷ [])
      ((77 ∷ []) ∷ [])
      limits
      simple_nodes
      (λ e. true))
find_caller_paths-IsAnswer_example =
    find_caller_paths-IsAnswer (λ s. true) 3 small (66 ∷ []) ((77 ∷ []) ∷ []) limits simple_nodes
      (λ e. true)

abbrev chain_ids : List ℕ
chain_ids = 1 ∷ 2 ∷ []

callees_inside : (x : ℕ) (e : EdgeRef) → In e (callees x) → mem e.callee chain_ids ≡ true
unfolding mem
callees_inside zero e k = ap (λ (z : EdgeRef). mem z.callee chain_ids) (In-only k)
callees_inside (suc zero) e k = ap (λ (z : EdgeRef). mem z.callee chain_ids) (In-only k)
callees_inside (suc (suc n)) e k = elim k [ ]

agrees_with :
    (a b : ℕ)
    → In (call a b) (callees a)
    → (e : EdgeRef) → e ≡ call a b
    → (d : EdgeRef) × In d (callees e.caller) × (chain.filter d ≡ true) × (d.callee ≡ b)
agrees_with a b k e same =
    subst
      (λ (z : EdgeRef). (d : EdgeRef) × In d (callees z.caller) × (true ≡ true) × (d.callee ≡ b))
      (sym same) (call a b, k, refl, refl)

callers_agree :
    (n : ℕ) (e : EdgeRef)
    → In e (chain.callers_of n)
    → chain.filter e ≡ true
    → (d : EdgeRef) × In d (callees e.caller) × (chain.filter d ≡ true) × (d.callee ≡ n)
callers_agree zero e k pass = elim k [ ]
callers_agree (suc zero) e k pass = agrees_with 0 1 first e (In-only k)
callers_agree (suc (suc zero)) e k pass = agrees_with 1 2 first e (In-only k)
callers_agree (suc (suc (suc n))) e k pass = elim k [ ]

chain_free : stopped (find_paths callees 3 chain (2 ∷ [])) ≡ false
unfolding find_paths search_targets path_limit_hit get ready capped corridor corridor_round
    corridor_edges start_distances put dfs is_dead visit_node record_path mem expand both_flags bury
    corridor_caller is_excluded on_path_edge same_edge turn_of
chain_free = refl

long_path : CallPath (ready callees 3 chain) 2 (call 0 1 ∷ call 1 2 ∷ []) (0 ∷ 1 ∷ 2 ∷ [])
unfolding ready is_excluded mem
long_path = hop (call 0 1) (hop (call 1 2) here first refl refl) first refl refl

find_paths-Has_example : Has (call 0 1 ∷ call 1 2 ∷ []) (find_paths callees 3 chain (2 ∷ [])).found
unfolding mem
find_paths-Has_example =
    find_paths-Has chain callees chain_ids callees_inside callers_agree refl 3 (omega arith) 2
      (call 0 1 ∷ call 1 2 ∷ []) 0 (1 ∷ 2 ∷ []) chain_free long_path refl (omega arith)

-- Two starts that are both targets, as overloads of one name are, where the first calls the second.
abbrev overloads : Graph
overloads = record chain { starts = 0 ∷ 1 ∷ [] }

abbrev both_searched : Search
both_searched = find_paths callees 3 overloads (0 ∷ 1 ∷ [])

-- The search from 0 has marked it dead at depth 0, so the call from 0 to 1 is not found, and nothing
-- tells that it is missing.
overloads_missed : (both_searched.found ≡ []) × (stopped both_searched ≡ false)
unfolding find_paths search_targets path_limit_hit get ready capped corridor corridor_round
    corridor_edges start_distances put dfs is_dead visit_node record_path mem expand both_flags bury
    corridor_caller is_excluded on_path_edge same_edge turn_of
overloads_missed = (refl, refl)

-- Searched alone, 1 has it.
overloads_alone : (find_paths callees 3 overloads (1 ∷ [])).found ≡ (call 0 1 ∷ []) ∷ []
unfolding find_paths search_targets path_limit_hit get ready capped corridor corridor_round
    corridor_edges start_distances put dfs is_dead visit_node record_path mem expand both_flags bury
    corridor_caller is_excluded on_path_edge same_edge turn_of
overloads_alone = refl
