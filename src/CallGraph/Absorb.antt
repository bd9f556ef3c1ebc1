-- ===== src/CallGraph/Absorb.antt =====
-- src/callgraph/CallGraph.cpp, absorb, which merges a shard into the graph. Without the case of a graph
-- that absorbs itself, which returns at once.
pub mod Keeps
use vycor_cpp.Prelude.{
  ℕ, zero, suc, ◌+◌, ◌^◌, ◌≤◌, ◌<◌, ◌==◌, Bool, true, false, Option, none, some, List, [], ◌∷◌,
  ◌++◌, if◌then◌else◌,
}
use vycor_cpp.CallGraph.{CallGraph}
use vycor_cpp.CallGraph.Maps.{Map, get, put, bucket, push, push_new, set_insert, get_elem?}
use vycor_cpp.CallGraph.Interner.{Text, StringInterner, intern}
use vycor_cpp.CallGraph.Nodes.{CallGraphNode, NodeStore, merge_node, contribute}
use vycor_cpp.CallGraph.Edges.{StoredEdge, EdgeStore, register}
use vycor_cpp.CallGraph.Relations.{Relation, add_override, add_return}

-- Every string of the shard, in the order of its ids: the new id of each.
pub intern_all : List Text → StringInterner → List ℕ × StringInterner
intern_all [] t = ([], t)
intern_all (s ∷ ss) t =
    let (id, t1) = intern s t in let (ids, t2) = intern_all ss t1 in (id ∷ ids, t2)

-- remap[id]; an id of the shard has an entry.
pub remapped : List ℕ → ℕ → ℕ
remapped remap id = elim (get_elem? remap id) [ none ↦ 0 | some new ↦ new ]

contribute_all : ℕ → List ℕ → NodeStore → NodeStore
contribute_all name [] ns = ns
contribute_all name (tu ∷ tus) ns = contribute_all name tus (contribute name tu ns)

pub map_ids : List ℕ → List ℕ → List ℕ
map_ids remap [] = []
map_ids remap (id ∷ ids) = remapped remap id ∷ map_ids remap ids

-- The display name is interned, which finds it, since the shard's strings are all in.
pub absorb_nodes :
    List ℕ → NodeStore → Map CallGraphNode → StringInterner × NodeStore → StringInterner × NodeStore
absorb_nodes remap shard [] (t, ns) = (t, ns)
absorb_nodes remap shard ((id, node) ∷ nodes) (t, ns) =
    let name = remapped remap id in
    let (display, t') = intern node.qualified_name t in
    let merged = merge_node name display node ns in
    let t'' : StringInterner = elim (get name ns.nodes) [ none ↦ t' | some old ↦ t ] in
    absorb_nodes remap shard nodes
      (t'', contribute_all name (map_ids remap (bucket id shard.contributors)) merged)

-- The edges, from the index `i` of the shard: the store, and the new index of each live edge.
pub absorb_edges : List ℕ → ℕ → List StoredEdge → EdgeStore → Map ℕ → EdgeStore × Map ℕ
absorb_edges remap i [] st edge_remap = (st, edge_remap)
absorb_edges remap i (src ∷ srcs) st edge_remap =
    let skipped = absorb_edges remap (suc i) srcs st edge_remap in
    let se = record src {
      caller = remapped remap src.caller;
      callee = remapped remap src.callee;
      call_site = remapped remap src.call_site;
    } in
    let (idx, st') = register se st in
    let stored = absorb_edges remap (suc i) srcs st' (put i idx edge_remap) in
    if src.refs == 0 then skipped else stored

absorb_tags : ℕ → Map ℕ → List ℕ → Map (List ℕ) → Map (List ℕ)
absorb_tags tu edge_remap [] m = m
absorb_tags tu edge_remap (i ∷ is) m =
    absorb_tags tu edge_remap is (elim (get i edge_remap) [ none ↦ m | some idx ↦ push tu idx m ])

pub absorb_tu_edges : List ℕ → Map ℕ → Map (List ℕ) → Map (List ℕ) → Map (List ℕ)
absorb_tu_edges remap edge_remap [] m = m
absorb_tu_edges remap edge_remap ((tu, idxs) ∷ tus) m =
    let id = remapped remap tu in
    absorb_tu_edges remap edge_remap tus (absorb_tags id edge_remap idxs (put id (bucket id m) m))

push_each : (ℕ → List ℕ → List ℕ) → List ℕ → List ℕ → List ℕ
push_each add [] ys = ys
push_each add (x ∷ xs) ys = push_each add xs (add x ys)

-- derivedClasses_ and effectiveImplClasses_, each with its way to add an element.
pub absorb_lists : (ℕ → List ℕ → List ℕ) → List ℕ → Map (List ℕ) → Map (List ℕ) → Map (List ℕ)
absorb_lists add remap [] m = m
absorb_lists add remap ((k, xs) ∷ rest) m =
    let id = remapped remap k in
    absorb_lists add remap rest (put id (push_each add (map_ids remap xs) (bucket id m)) m)

pub relate_each : (ℕ → ℕ → Relation → Relation) → ℕ → List ℕ → Relation → Relation
relate_each add k [] r = r
relate_each add k (x ∷ xs) r = relate_each add k xs (add k x r)

-- methodOverrides_ and functionReturns_, with their reverses.
pub absorb_relation : (ℕ → ℕ → Relation → Relation) → List ℕ → Map (List ℕ) → Relation → Relation
absorb_relation add remap [] r = r
absorb_relation add remap ((k, xs) ∷ rest) r =
    absorb_relation add remap rest (relate_each add (remapped remap k) (map_ids remap xs) r)

pub absorb : CallGraph → CallGraph → CallGraph
absorb shard g =
    let (remap, t1) = intern_all shard.interner.strings g.interner in
    let (t2, ns) = absorb_nodes remap shard.nodes shard.nodes.nodes (t1, g.nodes) in
    let (st, edge_remap) = absorb_edges remap 0 shard.store.edges g.store [] in
    if g.read_only then g else record g {
      interner = t2;
      nodes = ns;
      store = record st {
        tu_edges = absorb_tu_edges remap edge_remap shard.store.tu_edges st.tu_edges;
      };
      derived_classes = absorb_lists push_new remap shard.derived_classes g.derived_classes;
      overrides = absorb_relation add_override remap shard.overrides.forward g.overrides;
      effective_impls = absorb_lists set_insert remap shard.effective_impls g.effective_impls;
      returns = absorb_relation add_return remap shard.returns.forward g.returns;
    }
