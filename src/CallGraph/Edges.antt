-- ===== src/CallGraph/Edges.antt =====
-- The edges of the call graph: src/callgraph/CallGraph.cpp, the parts of addEdge, absorb, removeTUs
-- and compact that work on edges_, edgeIndex_, outEdges_, inEdges_, tuEdges_ and liveEdgeCount_.
-- An index that no edge has does not occur (Edges/Invariant); the functions do nothing at one.
pub mod Keys
pub mod Invariant
pub mod Changes
pub mod Registers
pub mod Releases
pub mod Takes
pub mod Withdraws
pub mod Compacts
use vycor_cpp.Prelude.{
  ℕ, zero, suc, ◌+◌, ◌-◌, ◌%◌, ◌^◌, Bool, true, false, ◌&&◌, Option, none, some, List, [], ◌∷◌,
  ◌++◌, length, ◌==◌, if◌then◌else◌,
}
use vycor_cpp.CallGraph.Maps.{
  Map, get, put, del, bucket, push, mem, push_new, remove_all, get_elem?, set,
}

pub data EdgeKind : Type 0 where
  direct_call virtual_dispatch function_pointer constructor_call destructor_call operator_call
        template_instantiation lambda_call thread_entry function_pointer_return :
      EdgeKind

pub data Confidence : Type 0 where
  proven plausible unknown : Confidence

pub data ExecutionContext : Type 0 where
  synchronous thread_spawn async_task packaged_task invoke : ExecutionContext

unfoldable pub kind_code : EdgeKind → ℕ
kind_code direct_call = 0
kind_code virtual_dispatch = 1
kind_code function_pointer = 2
kind_code constructor_call = 3
kind_code destructor_call = 4
kind_code operator_call = 5
kind_code template_instantiation = 6
kind_code lambda_call = 7
kind_code thread_entry = 8
kind_code function_pointer_return = 9

unfoldable pub confidence_code : Confidence → ℕ
confidence_code proven = 0
confidence_code plausible = 1
confidence_code unknown = 2

unfoldable pub context_code : ExecutionContext → ℕ
context_code synchronous = 0
context_code thread_spawn = 1
context_code async_task = 2
context_code packaged_task = 3
context_code invoke = 4

pub record StoredEdge : Type 0 where
  pub caller : ℕ
  pub callee : ℕ
  pub call_site : ℕ
  pub kind : EdgeKind
  pub confidence : Confidence
  pub exec_context : ExecutionContext
  pub indirection_depth : ℕ
  pub refs : ℕ

pub record EdgeKey : Type 0 where
  pub caller : ℕ
  pub callee : ℕ
  pub call_site : ℕ
  pub kind : ℕ
  pub confidence : ℕ
  pub exec_context : ℕ
  pub indirection_depth : ℕ

unfoldable pub key_of : StoredEdge → EdgeKey
key_of se = record {
  caller = se.caller;
  callee = se.callee;
  call_site = se.call_site;
  kind = kind_code se.kind;
  confidence = confidence_code se.confidence;
  exec_context = context_code se.exec_context;
  indirection_depth = se.indirection_depth;
}

-- EdgeKey::operator==
unfoldable pub key_eq : EdgeKey → EdgeKey → Bool
key_eq a b =
    a.caller == b.caller
    && a.callee == b.callee
    && a.call_site == b.call_site
    && a.kind == b.kind
    && a.confidence == b.confidence
    && a.exec_context == b.exec_context
    && a.indirection_depth == b.indirection_depth

unfoldable pub find_key : EdgeKey → List (EdgeKey × ℕ) → Option ℕ
find_key k [] = none
find_key k ((j, i) ∷ m) = let later = find_key k m in if key_eq k j then some i else later

pub erase_key : EdgeKey → List (EdgeKey × ℕ) → List (EdgeKey × ℕ)
erase_key k [] = []
erase_key k ((j, i) ∷ m) = let rest = erase_key k m in if key_eq k j then rest else (j, i) ∷ rest

-- `emplace` keeps an entry that is there.
unfoldable pub emplace_key : EdgeKey → ℕ → List (EdgeKey × ℕ) → List (EdgeKey × ℕ)
emplace_key k i m = elim (find_key k m) [ some j ↦ m | none ↦ (k, i) ∷ m ]

pub record EdgeStore : Type 0 where
  pub edges : List StoredEdge
  pub edge_index : List (EdgeKey × ℕ)
  pub out_edges : Map (List ℕ)
  pub in_edges : Map (List ℕ)
  pub tu_edges : Map (List ℕ)
  pub live_edge_count : ℕ

abbrev pub no_edges : EdgeStore
no_edges = record {
  edges = [];
  edge_index = [];
  out_edges = [];
  in_edges = [];
  tu_edges = [];
  live_edge_count = 0;
}

-- The four statements that store a new edge, at its index.
unfoldable pub append_edge : StoredEdge → EdgeStore → EdgeStore
append_edge se st =
    let idx = length st.edges in
    record st {
      out_edges = push se.caller idx st.out_edges;
      in_edges = push se.callee idx st.in_edges;
      edges = st.edges ++ (se ∷ []);
      edge_index = emplace_key (key_of se) idx st.edge_index;
    }

-- edges_[idx].refs += n
unfoldable pub add_refs : ℕ → ℕ → EdgeStore → EdgeStore
add_refs idx n st = elim (get_elem? st.edges idx) [
  | none ↦ st
  | some old ↦ record st {
    edges = set st.edges idx (record old { refs = (old.refs + n) % 2 ^ 32 });
  }
]

-- The dedup probe of addEdge (where `refs` is 1) and of absorb: the index of the edge, and the store.
unfoldable pub register : StoredEdge → EdgeStore → ℕ × EdgeStore
register se st = elim (find_key (key_of se) st.edge_index) [
  | some idx ↦ (idx, add_refs idx se.refs st)
  | none ↦
      let st' = append_edge se st in
      (length st.edges, record st' { live_edge_count = st.live_edge_count + 1 })
]

-- if (!tuPath.empty()) tuEdges_[tuId].push_back(idx)
unfoldable pub tag : Option ℕ → ℕ → EdgeStore → EdgeStore
tag none idx st = st
tag (some tu) idx st = record st { tu_edges = push tu idx st.tu_edges }

-- The locals of the first pass of removeTUs.
pub record Release : Type 0 where
  pub store : EdgeStore
  pub removed : ℕ
  pub dead : List ℕ
  pub callers : List ℕ
  pub callees : List ℕ

-- The body of its inner loop, at an edge.
pub release_edge : ℕ → StoredEdge → Release → Release
release_edge idx edge r =
    let st = r.store in
    let less = set st.edges idx (record edge { refs = edge.refs - 1 }) in
    if edge.refs == 0
    then r
    else if edge.refs - 1 == 0
    then record {
      store = record st {
        edges = less;
        edge_index = erase_key (key_of edge) st.edge_index;
        live_edge_count = st.live_edge_count - 1;
      };
      removed = r.removed + 1;
      dead = push_new idx r.dead;
      callers = push_new edge.caller r.callers;
      callees = push_new edge.callee r.callees;
    }
    else record r { store = record st { edges = less } }

pub release_idx : ℕ → Release → Release
release_idx idx r = elim (get_elem? r.store.edges idx) [
  | none ↦ r
  | some edge ↦ release_edge idx edge r
]

pub release_all : List ℕ → Release → Release
release_all [] r = r
release_all (idx ∷ idxs) r = release_all idxs (release_idx idx r)

-- The outer loop, over the ids of the TUs.
pub release_tus : List ℕ → Release → Release
release_tus [] r = r
release_tus (tu ∷ tus) r =
    let after = release_all (bucket tu r.store.tu_edges) r in
    release_tus tus
      (record after { store = record after.store { tu_edges = del tu after.store.tu_edges } })

-- Each affected vector is scrubbed once.
pub scrub : List ℕ → List ℕ → Map (List ℕ) → Map (List ℕ)
scrub [] dead m = m
scrub (c ∷ cs) dead m = scrub cs dead (put c (remove_all dead (bucket c m)) m)

-- What removeTUs does to the edges, and how many it removed.
pub remove_edges : List ℕ → EdgeStore → ℕ × EdgeStore
remove_edges tus st =
    let r =
      release_tus tus (record { store = st; removed = 0; dead = []; callers = []; callees = [] }) in
    (
      r.removed,
      record r.store {
        out_edges = scrub r.callers r.dead r.store.out_edges;
        in_edges = scrub r.callees r.dead r.store.in_edges;
      },
    )

-- The loop of compact over the edges, from the index `old`: the store so far, and the new indices.
pub compact_from : ℕ → List StoredEdge → EdgeStore → Map ℕ → EdgeStore × Map ℕ
compact_from old [] st remap = (st, remap)
compact_from old (se ∷ ses) st remap =
    let skipped = compact_from (suc old) ses st remap in
    let stored = compact_from (suc old) ses (append_edge se st) (put old (length st.edges) remap) in
    if se.refs == 0 then skipped else stored

pub remap_indices : Map ℕ → List ℕ → List ℕ
remap_indices remap [] = []
remap_indices remap (old ∷ olds) =
    let rest = remap_indices remap olds in elim (get old remap) [ none ↦ rest | some i ↦ i ∷ rest ]

pub compact_tus : Map ℕ → Map (List ℕ) → Map (List ℕ)
compact_tus remap [] = []
compact_tus remap ((tu, idxs) ∷ m) =
    let rest = compact_tus remap m in
    elim (remap_indices remap idxs) [ [] ↦ rest | i ∷ is ↦ (tu, i ∷ is) ∷ rest ]

pub compact_edges : EdgeStore → EdgeStore
compact_edges st =
    let (fresh, remap) = compact_from 0 st.edges no_edges [] in
    record st {
      edges = fresh.edges;
      edge_index = fresh.edge_index;
      out_edges = fresh.out_edges;
      in_edges = fresh.in_edges;
      tu_edges = compact_tus remap st.tu_edges;
    }
