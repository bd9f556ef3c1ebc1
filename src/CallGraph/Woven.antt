-- ===== src/CallGraph/Woven.antt =====
-- The graph through any sequence of its operations.
use vycor_cpp.Prelude.{ℕ, ◌≡◌, refl, sym, subst, List, [], if-intro, arith}
use vycor_cpp.CallGraph.{
  CallGraph, CallGraphEdge, no_graph, links_of, intern_raw, intern_tu, intern_pair, add_node,
  add_edge, add_derived_class, add_method_override, add_effective_impl, add_function_return,
  remove_tus, compact, edge_count, tu_ids,
}
use vycor_cpp.CallGraph.Maps.{get, bucket, mem}
use vycor_cpp.CallGraph.Interner.{Text}
use vycor_cpp.CallGraph.Nodes.{CallGraphNode}
use vycor_cpp.CallGraph.Edges.{StoredEdge, key_of, register}
use vycor_cpp.CallGraph.Edges.Keys.{total}
use vycor_cpp.CallGraph.Edges.Registers.{IsStore, no_edges-IsStore, Registered, register_lem, alive}
use vycor_cpp.CallGraph.Edges.Releases.{remove_edges-IsStore, tag-IsStore}
use vycor_cpp.CallGraph.Edges.Compacts.{compact_edges_lem}
use vycor_cpp.CallGraph.Relations.Reverse.{
  IsReversed, add_override-IsReversed, add_return-IsReversed,
}
use vycor_cpp.CallGraph.Refs.{callee_refs_of, caller_refs_of}
use vycor_cpp.CallGraph.Refs.Gathers.{any}
use vycor_cpp.CallGraph.Refs.Callees.{IsWoven, goes_to, comes_from}
use vycor_cpp.CallGraph.Refs.Agree.{callee_refs_of-caller_refs_of}
use vycor_cpp.CallGraph.Absorb.{absorb}
use vycor_cpp.CallGraph.Absorb.Keeps.{IsGraph, HasRoom, absorb-IsGraph}

-- One call that changes a graph.
pub data Step : CallGraph → CallGraph → Type 0 where
  node : (g : CallGraph) (n : CallGraphNode) (tu : Text) → Step g (add_node n tu g)
  edge :
      (g : CallGraph) (e : CallGraphEdge) (tu : Text) → HasRoom g.store 1 → Step g (add_edge e tu g)
  derived : (g : CallGraph) (a b : Text) → Step g (add_derived_class a b g)
  over : (g : CallGraph) (a b : Text) → Step g (add_method_override a b g)
  impl : (g : CallGraph) (a b : Text) → Step g (add_effective_impl a b g)
  return : (g : CallGraph) (a b : Text) → Step g (add_function_return a b g)
  merge :
      (g shard : CallGraph)
      → HasRoom g.store (total (λ se. se.refs) shard.store.edges)
      → Step g (absorb shard g)
  remove : (g : CallGraph) (paths : List Text) → Step g (remove_tus paths g).1
  squeeze : (g : CallGraph) → Step g (compact g)

pub data Reach : CallGraph → Type 0 where
  here : Reach no_graph
  next : {g h : CallGraph} → Reach g → Step g h → Reach h

no_graph-IsGraph : IsGraph no_graph
unfolding bucket mem get
no_graph-IsGraph = record {
  stored = no_edges-IsStore;
  overrides_reversed = λ x y. refl;
  returns_reversed = λ x y. refl;
}

-- A graph with the same links.
same_links :
    (g : CallGraph) {h : CallGraph}
    → IsGraph g
    → h.store ≡ g.store
    → h.overrides ≡ g.overrides
    → h.returns ≡ g.returns
    → IsGraph h
same_links g inv a b c = record {
  stored = subst IsStore (sym a) inv.stored;
  overrides_reversed = subst IsReversed (sym b) inv.overrides_reversed;
  returns_reversed = subst IsReversed (sym c) inv.returns_reversed;
}

Step-IsGraph : {g h : CallGraph} → Step g h → IsGraph g → IsGraph h
unfolding add_node add_edge add_derived_class add_method_override add_effective_impl
    add_function_return remove_tus compact
Step-IsGraph (node g n tu) inv =
    if-intro IsGraph g.read_only (λ e. inv) (λ e. same_links g inv refl refl refl)
Step-IsGraph (edge g e tu room) inv =
    let (caller, t1) = intern_raw e.caller_name g.interner in
    let (callee, t2) = intern_raw e.callee_name t1 in
    let (site, t3) = intern_raw e.call_site t2 in
    let se : StoredEdge = record {
      caller = caller;
      callee = callee;
      call_site = site;
      kind = e.kind;
      confidence = e.confidence;
      exec_context = e.exec_context;
      indirection_depth = e.indirection_depth;
      refs = 1;
    } in
    let done : Registered se g.store (register se g.store) =
      register_lem se g.store inv.stored (omega arith) (room (key_of se)) in
    if-intro IsGraph g.read_only (λ h. inv)
      (λ h. record {
        stored =
            tag-IsStore (intern_tu tu t3).0 (register se g.store).0 (register se g.store).1
              done.kept;
        overrides_reversed = inv.overrides_reversed;
        returns_reversed = inv.returns_reversed;
      })
Step-IsGraph (derived g a b) inv =
    if-intro IsGraph g.read_only (λ e. inv) (λ e. same_links g inv refl refl refl)
Step-IsGraph (over g a b) inv =
    let (base, by, t) = intern_pair a b g.interner in
    if-intro IsGraph g.read_only (λ e. inv)
      (λ e. record {
        stored = inv.stored;
        overrides_reversed = add_override-IsReversed base by g.overrides inv.overrides_reversed;
        returns_reversed = inv.returns_reversed;
      })
Step-IsGraph (impl g a b) inv =
    if-intro IsGraph g.read_only (λ e. inv) (λ e. same_links g inv refl refl refl)
Step-IsGraph (return g a b) inv =
    let (fn, ret, t) = intern_pair a b g.interner in
    if-intro IsGraph g.read_only (λ e. inv)
      (λ e. record {
        stored = inv.stored;
        overrides_reversed = inv.overrides_reversed;
        returns_reversed = add_return-IsReversed fn ret g.returns inv.returns_reversed;
      })
Step-IsGraph (merge g shard room) inv = absorb-IsGraph shard g inv room
Step-IsGraph (remove g paths) inv =
    if-intro (λ (r : ℕ × CallGraph). IsGraph r.1) g.read_only (λ e. inv)
      (λ e. record {
        stored = remove_edges-IsStore (tu_ids paths g.interner []) g.store inv.stored;
        overrides_reversed = inv.overrides_reversed;
        returns_reversed = inv.returns_reversed;
      })
Step-IsGraph (squeeze g) inv =
    if-intro IsGraph g.read_only (λ e. inv)
      (λ e. record {
        stored = (compact_edges_lem g.store inv.stored).0;
        overrides_reversed = inv.overrides_reversed;
        returns_reversed = inv.returns_reversed;
      })

pub Reach-IsGraph : {g : CallGraph} → Reach g → IsGraph g
Reach-IsGraph here = no_graph-IsGraph
Reach-IsGraph (next r s) = Step-IsGraph s (Reach-IsGraph r)

pub Reach-IsWoven : {g : CallGraph} → Reach g → IsWoven (links_of g)
unfolding links_of
Reach-IsWoven {g} r =
    let inv = Reach-IsGraph r in
    record {
      linked = inv.stored.linked;
      overrides_reversed = inv.overrides_reversed;
      returns_reversed = inv.returns_reversed;
    }

-- In every graph that any sequence of the mutating calls builds from the empty graph, where no edge
-- comes to 2^32 registrations, calleeRefsOf of a caller has a reference to a callee at a call site
-- exactly if callerRefsOf of the callee has one from the caller at that call site, the references
-- added for overrides and returned functions included.
pub Reach-agree :
    {g : CallGraph}
    → Reach g
    → (caller callee site : ℕ)
    → any (goes_to callee site) (callee_refs_of caller (links_of g))
      ≡ any (comes_from caller site) (caller_refs_of callee (links_of g))
Reach-agree {g} r caller callee site =
    callee_refs_of-caller_refs_of (links_of g) caller callee site (Reach-IsWoven r)

-- In every graph that any sequence of the mutating calls builds from the empty graph, where no edge
-- comes to 2^32 registrations, edgeCount is the number of stored edges that have a registration.
pub Reach-edge_count : {g : CallGraph} → Reach g → edge_count g ≡ total alive g.store.edges
unfolding edge_count
Reach-edge_count r = (Reach-IsGraph r).stored.counted
