-- ===== src/CallGraph/Sample.antt =====
-- A graph of one call, as addEdge builds it and callerRefsOf shows it.
use vycor_cpp.Prelude.{◌≡◌, refl, list_eq, [], ◌∷◌}
use vycor_cpp.CallGraph.{
  CallGraph, CallGraphEdge, no_graph, add_edge, links_of, intern_raw, intern_tu, index_text,
}
use vycor_cpp.CallGraph.Interner.{Text, find, intern, lookup_text}
use vycor_cpp.CallGraph.Maps.{get, put, bucket, push, get_elem?}
use vycor_cpp.CallGraph.Relations.{transitive_closure}
use vycor_cpp.CallGraph.Edges.{
  direct_call, proven, synchronous, register, tag, find_key, append_edge,
}
use vycor_cpp.CallGraph.Refs.{
  EdgeRef, caller_refs_of, for_nodes, for_edges, show_caller, is_shown, keep, mark, is_return,
  ref_to,
}
use vycor_cpp.Utf8.{needs_index_escape, needs_loop}

abbrev pub call : Text → Text → CallGraphEdge
call a b = record {
  caller_name = a;
  callee_name = b;
  kind = direct_call;
  confidence = proven;
  call_site = 49 ∷ [];
  indirection_depth = 0;
  exec_context = synchronous;
  caller_usr = [];
  callee_usr = [];
}

abbrev pub calls : CallGraph
calls = add_edge (call (66 ∷ []) (65 ∷ [])) (116 ∷ []) no_graph

abbrev pub shown : EdgeRef
shown = record {
  caller = 0;
  callee = 1;
  call_site = 2;
  kind = direct_call;
  confidence = proven;
  exec_context = synchronous;
  indirection_depth = 0;
}

pub calls-shown : caller_refs_of 1 (links_of calls) ≡ shown ∷ []
unfolding needs_loop list_eq add_edge intern_raw intern_tu index_text needs_index_escape intern find
    lookup_text register tag find_key append_edge get put bucket push get_elem? transitive_closure
    caller_refs_of for_nodes for_edges show_caller is_shown keep mark is_return ref_to links_of
calls-shown = refl
