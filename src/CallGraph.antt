-- ===== src/CallGraph.antt =====
-- src/callgraph/CallGraph.cpp, class CallGraph, over the parts in the child modules. The mutex is left
-- out: each call is one step. Without the `reserve` calls, the test hook of addEdge, and the warning
-- of a read-only graph, which returns unchanged. `isValidUtf8` is a parameter of the queries by name.
pub mod Maps
pub mod Interner
pub mod Nodes
pub mod Edges
pub mod Relations
pub mod Refs
pub mod Absorb
pub mod Woven
pub mod Sample
mod Tests
use vycor_cpp.Prelude.{
  ℕ, zero, suc, ◌+◌, ◌<◌, Bool, true, false, not, Option, none, some, List, [], ◌∷◌, ◌++◌, length,
  map, ltb, ◌==◌, list_eq, if◌then◌else◌,
}
use vycor_cpp.Utf8.{needs_index_escape, to_index_text, lookup_text}
use vycor_cpp.CallGraph.Maps.{Map, get, put, bucket, mem, push_new, set_insert, get_elem?}
use vycor_cpp.CallGraph.Interner.{Text, StringInterner, no_strings, find, resolve, intern}
use vycor_cpp.CallGraph.Nodes.{
  CallGraphNode, NodeStore, no_nodes, is_empty, merge_node, contribute, remove_nodes,
}
use vycor_cpp.CallGraph.Edges.{
  EdgeKind, Confidence, ExecutionContext, StoredEdge, EdgeStore, no_edges, register, tag,
  remove_edges, compact_edges,
}
use vycor_cpp.CallGraph.Relations.{Relation, no_pairs, add_override, add_return, transitive_closure}
use vycor_cpp.CallGraph.Refs.{EdgeRef, Links, callee_refs_of, caller_refs_of}

pub record CallGraphEdge : Type 0 where
  pub caller_name : Text
  pub callee_name : Text
  pub kind : EdgeKind
  pub confidence : Confidence
  pub call_site : Text
  pub indirection_depth : ℕ
  pub exec_context : ExecutionContext
  pub caller_usr : Text
  pub callee_usr : Text

pub record CallGraph : Type 0 where
  pub interner : StringInterner
  pub nodes : NodeStore
  pub store : EdgeStore
  pub derived_classes : Map (List ℕ)
  pub overrides : Relation
  pub effective_impls : Map (List ℕ)
  pub returns : Relation
  pub read_only : Bool

abbrev pub no_graph : CallGraph
no_graph = record {
  interner = no_strings;
  nodes = no_nodes;
  store = no_edges;
  derived_classes = [];
  overrides = no_pairs;
  effective_impls = [];
  returns = no_pairs;
  read_only = false;
}

unfoldable pub links_of : CallGraph → Links
links_of g = record { store = g.store; overrides = g.overrides; returns = g.returns }

-- makeIndexText
pub index_text : Text → Text
index_text s = if needs_index_escape s then to_index_text s else s

pub intern_raw : Text → StringInterner → ℕ × StringInterner
intern_raw s t = intern (index_text s) t

-- The id of a TU path, if there is one.
pub intern_tu : Text → StringInterner → Option ℕ × StringInterner
intern_tu [] t = (none, t)
intern_tu (c ∷ s) t = let (tu, t') = intern_raw (c ∷ s) t in (some tu, t')

contribute_to : ℕ → Option ℕ → NodeStore → NodeStore
contribute_to name none ns = ns
contribute_to name (some tu) ns = contribute name tu ns

-- The node as it is stored.
pub node_text : CallGraphNode → CallGraphNode
node_text node = record node {
  usr = index_text (if is_empty node.usr then node.qualified_name else node.usr);
  qualified_name = index_text node.qualified_name;
  file = index_text node.file;
  enclosing_class = index_text node.enclosing_class;
}

pub add_node : CallGraphNode → Text → CallGraph → CallGraph
add_node node tu_path g =
    let stored = node_text node in
    let (name, t1) = intern stored.usr g.interner in
    let (display, t2) = intern stored.qualified_name t1 in
    let (tu, t3) = intern_tu tu_path t2 in
    if g.read_only then g else record g {
      interner = t3;
      nodes = contribute_to name tu (merge_node name display stored g.nodes);
    }

pub add_edge : CallGraphEdge → Text → CallGraph → CallGraph
add_edge edge tu_path g =
    let (caller, t1) = intern_raw edge.caller_name g.interner in
    let (callee, t2) = intern_raw edge.callee_name t1 in
    let (site, t3) = intern_raw edge.call_site t2 in
    let (tu, t4) = intern_tu tu_path t3 in
    let se : StoredEdge = record {
      caller = caller;
      callee = callee;
      call_site = site;
      kind = edge.kind;
      confidence = edge.confidence;
      exec_context = edge.exec_context;
      indirection_depth = edge.indirection_depth;
      refs = 1;
    } in
    let (idx, st) = register se g.store in
    if g.read_only then g else record g { interner = t4; store = tag tu idx st }

-- Two names, interned one after the other.
pub intern_pair : Text → Text → StringInterner → ℕ × ℕ × StringInterner
intern_pair a b t = let (x, t1) = intern_raw a t in let (y, t2) = intern_raw b t1 in (x, y, t2)

pub add_derived_class : Text → Text → CallGraph → CallGraph
add_derived_class base_class derived_class g =
    let (base, derived, t) = intern_pair base_class derived_class g.interner in
    if g.read_only then g else record g {
      interner = t;
      derived_classes =
          put base (push_new derived (bucket base g.derived_classes)) g.derived_classes;
    }

pub add_method_override : Text → Text → CallGraph → CallGraph
add_method_override base_method override_method g =
    let (base, over, t) = intern_pair base_method override_method g.interner in
    if g.read_only
    then g
    else record g { interner = t; overrides = add_override base over g.overrides }

pub add_effective_impl : Text → Text → CallGraph → CallGraph
add_effective_impl concrete_class impl_method g =
    let (impl, cls, t) = intern_pair impl_method concrete_class g.interner in
    if g.read_only then g else record g {
      interner = t;
      effective_impls = put impl (set_insert cls (bucket impl g.effective_impls)) g.effective_impls;
    }

pub add_function_return : Text → Text → CallGraph → CallGraph
add_function_return func_name returned_func g =
    let (fn, ret, t) = intern_pair func_name returned_func g.interner in
    if g.read_only then g else record g { interner = t; returns = add_return fn ret g.returns }

-- The ids of the TUs that the graph knows, each once.
pub tu_ids : List Text → StringInterner → List ℕ → List ℕ
tu_ids [] t seen = []
tu_ids (path ∷ paths) t seen =
    let skipped = tu_ids paths t seen in
    elim (find (to_index_text path) t) [
      | none ↦ skipped
      | some tu ↦
          let taken = tu ∷ tu_ids paths t (tu ∷ seen) in if mem tu seen then skipped else taken
    ]

pub remove_tus : List Text → CallGraph → ℕ × CallGraph
remove_tus paths g =
    let tus = tu_ids paths g.interner [] in
    let (removed, st) = remove_edges tus g.store in
    if g.read_only
    then (0, g)
    else (removed, record g { store = st; nodes = remove_nodes g.interner tus g.nodes })

pub compact : CallGraph → CallGraph
compact g = if g.read_only then g else record g { store = compact_edges g.store }

pub display_for : ℕ → CallGraph → Option Text
display_for id g = elim (get id g.nodes.nodes) [
  | some node ↦ some node.qualified_name
  | none ↦ resolve id g.interner
]

pub node_count : CallGraph → ℕ
node_count g = length g.nodes.nodes

pub edge_count : CallGraph → ℕ
edge_count g = g.store.live_edge_count

live_at : EdgeStore → List ℕ → ℕ
live_at st [] = 0
live_at st (idx ∷ idxs) =
    let later = live_at st idxs in
    elim (get_elem? st.edges idx) [
      | none ↦ later
      | some se ↦ if ltb 0 se.refs then suc later else later
    ]

pub stored_in_degree : ℕ → CallGraph → ℕ
stored_in_degree id g = live_at g.store (bucket id g.store.in_edges)

-- Byte by byte.
pub text_lt : Text → Text → Bool
text_lt [] [] = false
text_lt [] (d ∷ u) = true
text_lt (c ∷ s) [] = false
text_lt (c ∷ s) (d ∷ u) =
    let rest = text_lt s u in if ltb c d then true else if ltb d c then false else rest

smallest : CallGraph → List ℕ → Option CallGraphNode → Option CallGraphNode
smallest g [] best = best
smallest g (id ∷ ids) best = smallest g ids (elim (get id g.nodes.nodes) [
  | none ↦ best
  | some node ↦ elim best [
    | none ↦ some node
    | some old ↦ if text_lt node.usr old.usr then some node else some old
  ]
])

-- The texts of ids; an id that the graph holds has one.
texts : (ℕ → Option Text) → List ℕ → List Text
texts f [] = []
texts f (id ∷ ids) = elim (f id) [ none ↦ texts f ids | some s ↦ s ∷ texts f ids ]

-- The ids of these lists, each once, in the order of their first occurrence.
each_once : List ℕ → List ℕ → List ℕ
each_once [] seen = []
each_once (id ∷ ids) seen =
    let skipped = each_once ids seen in
    let taken = id ∷ each_once ids (id ∷ seen) in if mem id seen then skipped else taken

concat_map : (ℕ → List ℕ) → List ℕ → List ℕ
concat_map f [] = []
concat_map f (id ∷ ids) = f id ++ concat_map f ids

-- The empty text, where the source reads out of bounds.
pub or_empty : Option Text → Text
or_empty none = []
or_empty (some s) = s

pub materialize : CallGraph → EdgeRef → CallGraphEdge
materialize g r = record {
  caller_name = or_empty (display_for r.caller g);
  callee_name = or_empty (display_for r.callee g);
  kind = r.kind;
  confidence = r.confidence;
  call_site = or_empty (resolve r.call_site g.interner);
  indirection_depth = r.indirection_depth;
  exec_context = r.exec_context;
  caller_usr = or_empty (resolve r.caller g.interner);
  callee_usr = or_empty (resolve r.callee g.interner);
}

refs_of_all : (ℕ → List EdgeRef) → List ℕ → List EdgeRef
refs_of_all f [] = []
refs_of_all f (id ∷ ids) = f id ++ refs_of_all f ids

module _ (valid : Text → Bool) where
  pub find_text : Text → CallGraph → Option ℕ
  find_text s g = find (lookup_text valid s) g.interner

  pub resolve_usr_ids : Text → CallGraph → List ℕ
  resolve_usr_ids name g = elim (find_text name g) [
    | none ↦ []
    | some id ↦ elim (get id g.nodes.nodes) [
      | some node ↦ id ∷ []
      | none ↦ elim (bucket id g.nodes.by_name) [ [] ↦ id ∷ [] | i ∷ is ↦ i ∷ is ]
    ]
  ]

  pub usrs_for_name : Text → CallGraph → List Text
  usrs_for_name name g = texts (λ id. resolve id g.interner) (resolve_usr_ids name g)

  pub find_node : Text → CallGraph → Option CallGraphNode
  find_node name g = smallest g (resolve_usr_ids name g) none

  pub callees_of : Text → CallGraph → List CallGraphEdge
  callees_of name g =
      map (materialize g)
        (refs_of_all (λ id. callee_refs_of id (links_of g)) (resolve_usr_ids name g))

  pub callers_of : Text → CallGraph → List CallGraphEdge
  callers_of name g =
      map (materialize g)
        (refs_of_all (λ id. caller_refs_of id (links_of g)) (resolve_usr_ids name g))

  pub get_overrides : Text → CallGraph → List Text
  get_overrides base_method g =
      texts (λ id. display_for id g)
        (each_once
          (concat_map (λ id. bucket id g.overrides.forward) (resolve_usr_ids base_method g)) [])

  pub get_transitive_overrides : Text → CallGraph → List Text
  get_transitive_overrides base_method g =
      texts (λ id. display_for id g)
        (each_once
          (concat_map (λ id. transitive_closure id g.overrides.forward)
            (resolve_usr_ids base_method g))
          [])

  pub get_overridden_bases : Text → CallGraph → List Text
  get_overridden_bases method g =
      texts (λ id. display_for id g)
        (each_once
          (concat_map (λ id. transitive_closure id g.overrides.reverse) (resolve_usr_ids method g))
          [])

  pub get_classes_for_impl : Text → CallGraph → List Text
  get_classes_for_impl impl_method g =
      texts (λ id. resolve id g.interner)
        (each_once (concat_map (λ id. bucket id g.effective_impls) (resolve_usr_ids impl_method g))
          [])
