-- ===== src/PathSearch/Order.antt =====
-- src/callgraph/PathSearch.cpp, sortCallerRefsCanonically, and the search over a call graph. The
-- comparison is the source's; std::sort is an insertion sort, since references that compare equal
-- agree in every field but the callee, which the callers of one node share.
pub mod Calls
use vycor_cpp.Prelude.{ℕ, Bool, List, [], ◌∷◌, ltb, ◌==◌, if◌then◌else◌}
use vycor_cpp.CallGraph.{or_empty, CallGraph, links_of, stored_in_degree, text_lt}
use vycor_cpp.CallGraph.Interner.{Text, resolve}
use vycor_cpp.CallGraph.Edges.{kind_code, confidence_code, context_code}
use vycor_cpp.CallGraph.Refs.{EdgeRef, caller_refs_of}
use vycor_cpp.PathSearch.{Graph, SearchLimits, CycleRule}

-- The comparison, with the texts of ids.
pub ref_lt : (ℕ → Text) → EdgeRef → EdgeRef → Bool
ref_lt text a b =
    if a.caller == b.caller
    then (if a.call_site == b.call_site
        then (if kind_code a.kind == kind_code b.kind
            then (if confidence_code a.confidence == confidence_code b.confidence
                then (if context_code a.exec_context == context_code b.exec_context
                    then ltb a.indirection_depth b.indirection_depth
                    else ltb (context_code a.exec_context) (context_code b.exec_context))
                else ltb (confidence_code a.confidence) (confidence_code b.confidence))
            else ltb (kind_code a.kind) (kind_code b.kind))
        else text_lt (text a.call_site) (text b.call_site))
    else text_lt (text a.caller) (text b.caller)

unfoldable pub insert_ref : (ℕ → Text) → EdgeRef → List EdgeRef → List EdgeRef
insert_ref text e [] = e ∷ []
insert_ref text e (d ∷ ds) =
    let rest = insert_ref text e ds in if ref_lt text d e then d ∷ rest else e ∷ d ∷ ds

unfoldable pub sort_refs : (ℕ → Text) → List EdgeRef → List EdgeRef
sort_refs text [] = []
sort_refs text (e ∷ es) = insert_ref text e (sort_refs text es)

-- interner.resolve
pub text_of : CallGraph → ℕ → Text
text_of g id = or_empty (resolve id g.interner)

-- The search's view of a call graph; `ready` sets the corridor.
unfoldable pub graph_of : CallGraph → (EdgeRef → Bool) → List ℕ → SearchLimits → CycleRule → Graph
graph_of g filter starts limits cycles = record {
  callers_of = λ node. sort_refs (text_of g) (caller_refs_of node (links_of g));
  stored_in_degree = λ node. stored_in_degree node g;
  filter = filter;
  starts = starts;
  min_from_start = [];
  limits = limits;
  cycles = cycles;
}
