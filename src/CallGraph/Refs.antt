-- ===== src/CallGraph/Refs.antt =====
-- src/callgraph/CallGraph.cpp, calleeRefsOf and callerRefsOf: the edges of a node, with those that
-- virtual dispatch and returned function pointers add when they are asked for.
pub mod Gathers
pub mod Callees
pub mod Callers
pub mod Agree
mod Tests
use vycor_cpp.Prelude.{
  ℕ, Bool, true, false, not, ◌&&◌, ◌||◌, Option, none, some, List, [], ◌∷◌, ◌++◌, ◌==◌,
  if◌then◌else◌,
}
use vycor_cpp.CallGraph.Maps.{Map, bucket, get_elem?}
use vycor_cpp.CallGraph.Edges.{
  EdgeKind, virtual_dispatch, function_pointer, thread_entry, function_pointer_return, Confidence,
  plausible, ExecutionContext, synchronous, StoredEdge, EdgeStore,
}
use vycor_cpp.CallGraph.Relations.{Relation, transitive_closure}

pub record EdgeRef : Type 0 where
  pub caller : ℕ
  pub callee : ℕ
  pub call_site : ℕ
  pub kind : EdgeKind
  pub confidence : Confidence
  pub exec_context : ExecutionContext
  pub indirection_depth : ℕ

-- What the queries read of the graph.
pub record Links : Type 0 where
  pub store : EdgeStore
  pub overrides : Relation
  pub returns : Relation

pub is_virtual : EdgeKind → Bool
is_virtual k = elim k [ virtual_dispatch ↦ true | _ ↦ false ]

unfoldable pub is_return : EdgeKind → Bool
is_return k = elim k [ function_pointer_return ↦ true | _ ↦ false ]

pub is_plausible : Confidence → Bool
is_plausible c = elim c [ plausible ↦ true | _ ↦ false ]

unfoldable pub ref_to : ℕ → EdgeKind → StoredEdge → EdgeRef
ref_to callee kind se = record {
  caller = se.caller;
  callee = callee;
  call_site = se.call_site;
  kind = kind;
  confidence = se.confidence;
  exec_context = se.exec_context;
  indirection_depth = se.indirection_depth;
}

-- The kind of an edge that a returned function pointer adds.
pub joined_kind : ExecutionContext → EdgeKind
joined_kind c = elim c [ synchronous ↦ function_pointer | _ ↦ thread_entry ]

pub has_pair : ℕ → ℕ → List (ℕ × ℕ) → Bool
has_pair a b [] = false
has_pair a b ((p, q) ∷ l) = let later = has_pair a b l in if p == a && q == b then true else later

-- The locals `result` and `seen`.
pub record Gather : Type 0 where
  pub result : List EdgeRef
  pub seen : List (ℕ × ℕ)

-- result.push_back(r)
unfoldable pub keep : EdgeRef → Gather → Gather
keep r g = record g { result = g.result ++ (r ∷ []) }

unfoldable pub mark : ℕ → ℕ → Gather → Gather
mark p q g = record g { seen = (p, q) ∷ g.seen }

-- if (!seen.insert({p, q}).second) continue; result.push_back(r)
pub offer : ℕ → ℕ → EdgeRef → Gather → Gather
offer p q r g = if has_pair p q g.seen then g else keep r (mark p q g)

-- A loop over the indices of edges.
unfoldable pub for_edges :
    (StoredEdge → Gather → Gather) → List StoredEdge → List ℕ → Gather → Gather
for_edges body edges [] g = g
for_edges body edges (idx ∷ idxs) g =
    for_edges body edges idxs (elim (get_elem? edges idx) [ none ↦ g | some se ↦ body se g ])

-- se.refs != 0 and the kind is not the deferred one
unfoldable pub is_shown : StoredEdge → Bool
is_shown se = not (se.refs == 0) && not (is_return se.kind)

-- se.refs != 0, VirtualDispatch and Plausible
pub is_dispatch : StoredEdge → Bool
is_dispatch se = not (se.refs == 0) && is_virtual se.kind && is_plausible se.confidence

-- se.refs != 0 and FunctionPointerReturn
pub is_deferred : StoredEdge → Bool
is_deferred se = not (se.refs == 0) && is_return se.kind

pub show_callee : StoredEdge → Gather → Gather
show_callee se g =
    if is_shown se
    then keep (ref_to se.callee se.kind se)
        (if is_virtual se.kind then mark se.callee se.call_site g else g)
    else g

pub offer_callees : List ℕ → EdgeKind → StoredEdge → Gather → Gather
offer_callees [] kind se g = g
offer_callees (callee ∷ callees) kind se g =
    offer_callees callees kind se (offer callee se.call_site (ref_to callee kind se) g)

pub expand_dispatch : Relation → StoredEdge → Gather → Gather
expand_dispatch overrides se g =
    if is_dispatch se
    then offer_callees (transitive_closure se.callee overrides.forward) se.kind se g
    else g

pub expand_returns : Relation → StoredEdge → Gather → Gather
expand_returns returns se g =
    if is_deferred se
    then offer_callees (bucket se.callee returns.forward) (joined_kind se.exec_context) se g
    else g

pub callee_refs_of : ℕ → Links → List EdgeRef
callee_refs_of caller l =
    let out = bucket caller l.store.out_edges in
    let edges = l.store.edges in
    (for_edges (expand_returns l.returns) edges out (
      for_edges (expand_dispatch l.overrides) edges out
        (for_edges show_callee edges out (record { result = []; seen = [] })))).result

unfoldable pub show_caller : StoredEdge → Gather → Gather
show_caller se g =
    if is_shown se then keep (ref_to se.callee se.kind se) (mark se.caller se.call_site g) else g

pub offer_dispatch : ℕ → StoredEdge → Gather → Gather
offer_dispatch callee se g =
    if is_dispatch se then offer se.caller se.call_site (ref_to callee se.kind se) g else g

pub offer_deferred : ℕ → StoredEdge → Gather → Gather
offer_deferred callee se g =
    if is_deferred se
    then offer se.caller se.call_site (ref_to callee (joined_kind se.exec_context) se) g
    else g

-- The body, at the in-edges of each of these nodes.
unfoldable pub for_nodes : (StoredEdge → Gather → Gather) → EdgeStore → List ℕ → Gather → Gather
for_nodes body st [] g = g
for_nodes body st (node ∷ nodes) g =
    for_nodes body st nodes (for_edges body st.edges (bucket node st.in_edges) g)

unfoldable pub caller_refs_of : ℕ → Links → List EdgeRef
caller_refs_of callee l =
    (for_nodes (offer_deferred callee) l.store (bucket callee l.returns.reverse) (
      for_nodes (offer_dispatch callee) l.store (transitive_closure callee l.overrides.reverse) (
        for_edges show_caller l.store.edges (bucket callee l.store.in_edges)
          (record { result = []; seen = [] })))).result
