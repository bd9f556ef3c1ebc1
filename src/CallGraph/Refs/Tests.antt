-- ===== src/CallGraph/Refs/Tests.antt =====
-- A dispatch on a method with an override, and a call through a function that returns another.
use vycor_cpp.Prelude.{ℕ, ◌≡◌, refl, List, [], ◌∷◌, map}
use vycor_cpp.CallGraph.Maps.{get, put, bucket, push, push_new, set_insert, mem, get_elem?}
use vycor_cpp.CallGraph.Edges.{
  StoredEdge, virtual_dispatch, function_pointer_return, plausible, synchronous, no_edges, register,
  append_edge, add_refs, emplace_key, find_key, key_eq, key_of, kind_code, confidence_code,
  context_code,
}
use vycor_cpp.CallGraph.Relations.{
  no_pairs, add_override, add_return, transitive_closure, walk, visit, targets,
}
use vycor_cpp.CallGraph.Refs.{
  EdgeRef, Links, is_virtual, is_return, is_plausible, is_shown, is_dispatch, is_deferred, has_pair,
  keep, mark, offer, ref_to, joined_kind, for_edges, show_callee, offer_callees, expand_dispatch,
  expand_returns, callee_refs_of,
}

abbrev call_base : StoredEdge
call_base = record {
  caller = 1;
  callee = 2;
  call_site = 9;
  kind = virtual_dispatch;
  confidence = plausible;
  exec_context = synchronous;
  indirection_depth = 0;
  refs = 1;
}

abbrev call_picked : StoredEdge
call_picked = record call_base { callee = 5; call_site = 8; kind = function_pointer_return }

links : Links
unfolding register append_edge add_refs emplace_key find_key key_eq key_of kind_code confidence_code
    context_code push put bucket get add_override add_return push_new set_insert mem
links = record {
  store = (register call_picked (register call_base no_edges).1).1;
  overrides = add_override 2 3 no_pairs;
  returns = add_return 5 6 no_pairs;
}

callees : List EdgeRef → List ℕ
callees l = map (λ (r : EdgeRef). r.callee) l

-- The stored edge, the override, and the returned function.
callees_of_main : callees (callee_refs_of 1 links) ≡ 2 ∷ 3 ∷ 6 ∷ []
unfolding callees links callee_refs_of for_edges show_callee expand_dispatch expand_returns
    offer_callees offer keep mark has_pair ref_to joined_kind is_virtual is_return is_plausible
    is_shown is_dispatch is_deferred transitive_closure walk visit targets get_elem? bucket get mem
callees_of_main = refl
