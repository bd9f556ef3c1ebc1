-- ===== src/CallGraph/Tests.antt =====
-- A call through a base method, which an override adds to: the stored edge, and the edge to the
-- override that the queries add.
use vycor_cpp.Prelude.{ℕ, ◌≡◌, ◌≢◌, ◌↔◌, refl, true, some, List, [], ◌∷◌, length, arith}
use vycor_cpp.CallGraph.{
  CallGraph, CallGraphEdge, no_graph, links_of, add_edge, add_method_override, edge_count,
}
use vycor_cpp.CallGraph.Maps.{get, mem, bucket}
use vycor_cpp.CallGraph.Interner.{
  Text, no_strings, resolve, intern, IsInterned, no_strings-IsInterned, intern_lem,
}
use vycor_cpp.CallGraph.Edges.{
  StoredEdge, EdgeKey, EdgeStore, key_of, virtual_dispatch, plausible, synchronous, no_edges,
  register, remove_edges, compact_edges,
}
use vycor_cpp.CallGraph.Edges.Keys.{total}
use vycor_cpp.CallGraph.Edges.Registers.{
  IsStore, no_edges-IsStore, registrations, Registered, register_lem, alive,
}
use vycor_cpp.CallGraph.Edges.Releases.{remove_edges-IsStore}
use vycor_cpp.CallGraph.Edges.Takes.{refs_at}
use vycor_cpp.CallGraph.Edges.Withdraws.{add_all, remove-add_all}
use vycor_cpp.CallGraph.Edges.Compacts.{compact_edges_lem}
use vycor_cpp.CallGraph.Relations.{transitive_closure}
use vycor_cpp.CallGraph.Relations.Closure.{Reaches, transitive_closure_lem}
use vycor_cpp.CallGraph.Refs.{callee_refs_of, caller_refs_of}
use vycor_cpp.CallGraph.Refs.Gathers.{any}
use vycor_cpp.CallGraph.Refs.Callees.{IsWoven, goes_to, comes_from, Calls}
use vycor_cpp.CallGraph.Refs.Agree.{callee_refs_of-Calls}
use vycor_cpp.CallGraph.Woven.{
  Reach, here, next, edge, over, Reach-IsGraph, Reach-agree, Reach-edge_count,
}

abbrev base_method : Text
base_method = 66 ∷ []

abbrev override_method : Text
override_method = 68 ∷ []

abbrev main_name : Text
main_name = 77 ∷ []

abbrev dispatch : CallGraphEdge
dispatch = record {
  caller_name = main_name;
  callee_name = base_method;
  kind = virtual_dispatch;
  confidence = plausible;
  call_site = 49 ∷ [];
  indirection_depth = 0;
  exec_context = synchronous;
  caller_usr = [];
  callee_usr = [];
}

abbrev with_call : CallGraph
with_call = add_edge dispatch (116 ∷ []) no_graph

abbrev with_override : CallGraph
with_override = add_method_override base_method override_method with_call

with_override-Reach : Reach with_override
unfolding registrations total
with_override-Reach =
    next (next here (edge no_graph dispatch (116 ∷ []) (λ k. omega arith)))
      (over with_call base_method override_method)

Reach-agree_example :
    any (goes_to 4 2) (callee_refs_of 0 (links_of with_override))
    ≡ any (comes_from 0 2) (caller_refs_of 4 (links_of with_override))
Reach-agree_example = Reach-agree with_override-Reach 0 4 2

Reach-edge_count_example : edge_count with_override ≡ total alive with_override.store.edges
Reach-edge_count_example = Reach-edge_count with_override-Reach

IsWoven-links_of : IsWoven (links_of with_override)
unfolding links_of
IsWoven-links_of =
    let inv = Reach-IsGraph with_override-Reach in
    record {
      linked = inv.stored.linked;
      overrides_reversed = inv.overrides_reversed;
      returns_reversed = inv.returns_reversed;
    }

callee_refs_of-Calls_example :
    any (goes_to 4 2) (callee_refs_of 0 (links_of with_override)) ≡ true
    ↔ Calls (links_of with_override) 0 4 2
callee_refs_of-Calls_example = callee_refs_of-Calls (links_of with_override) 0 4 2 IsWoven-links_of

intern_lem_example :
    IsInterned (intern main_name no_strings).1
    × (resolve (intern main_name no_strings).0 (intern main_name no_strings).1 ≡ some main_name)
    × ((j : ℕ) (u : Text)
        → resolve j no_strings ≡ some u
        → resolve j (intern main_name no_strings).1 ≡ some u)
intern_lem_example = intern_lem main_name no_strings no_strings-IsInterned (omega arith)

transitive_closure_lem_example :
    mem 3 (transitive_closure 1 ((1, 2 ∷ []) ∷ (2, 3 ∷ 1 ∷ []) ∷ [])) ≡ true
    ↔ (◌≢◌ {A = ℕ} 3 1) × Reaches ((1, 2 ∷ []) ∷ (2, 3 ∷ 1 ∷ []) ∷ []) 1 3
transitive_closure_lem_example = transitive_closure_lem 1 ((1, 2 ∷ []) ∷ (2, 3 ∷ 1 ∷ []) ∷ []) 3

abbrev stored : StoredEdge
stored = record {
  caller = 0;
  callee = 1;
  call_site = 2;
  kind = virtual_dispatch;
  confidence = plausible;
  exec_context = synchronous;
  indirection_depth = 0;
  refs = 1;
}

no_registrations : (k : EdgeKey) → registrations k no_edges ≡ 0
unfolding registrations total
no_registrations k = refl

stored-Registered : Registered stored no_edges (register stored no_edges)
stored-Registered =
    register_lem stored no_edges no_edges-IsStore (omega arith)
      (omega (arith, no_registrations (key_of stored)))

abbrev two_stored : List StoredEdge
two_stored = stored ∷ record stored { callee = 5 } ∷ stored ∷ []

remove-add_all_example :
    refs_at 0 (remove_edges (7 ∷ []) (add_all 7 two_stored no_edges)).1.edges
    ≡ refs_at 0 no_edges.edges
unfolding bucket get
remove-add_all_example =
    remove-add_all 7 two_stored no_edges no_edges-IsStore (omega arith)
      (λ k. omega (arith, no_registrations k)) refl 0

abbrev one_stored : EdgeStore
one_stored = (register stored no_edges).1

compact_edges_lem_example :
    IsStore (compact_edges (remove_edges (7 ∷ []) one_stored).1)
    × ((k : EdgeKey)
        → registrations k (compact_edges (remove_edges (7 ∷ []) one_stored).1)
          ≡ registrations k (remove_edges (7 ∷ []) one_stored).1)
    × (length (compact_edges (remove_edges (7 ∷ []) one_stored).1).edges
        ≡ (compact_edges (remove_edges (7 ∷ []) one_stored).1).live_edge_count)
compact_edges_lem_example =
    compact_edges_lem (remove_edges (7 ∷ []) one_stored).1
      (remove_edges-IsStore (7 ∷ []) one_stored stored-Registered.kept)
