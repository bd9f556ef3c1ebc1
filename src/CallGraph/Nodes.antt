-- ===== src/CallGraph/Nodes.antt =====
-- The nodes of the call graph: src/callgraph/CallGraph.cpp, the parts of addNode, absorb and removeTUs
-- that work on nodes_, byName_, nodeContributors_ and tuNodes_, on interned ids.
use vycor_cpp.Prelude.{ℕ, Bool, true, false, ◌||◌, none, some, List, [], ◌∷◌, ◌==◌, if◌then◌else◌}
use vycor_cpp.CallGraph.Maps.{Map, get, put, del, bucket, push, mem, push_new, set_insert, without}
use vycor_cpp.CallGraph.Interner.{Text, StringInterner, find}

pub record CallGraphNode : Type 0 where
  pub qualified_name : Text
  pub file : Text
  pub line : ℕ
  pub is_entry_point : Bool
  pub is_virtual : Bool
  pub enclosing_class : Text
  pub usr : Text

pub record NodeStore : Type 0 where
  pub nodes : Map CallGraphNode
  pub by_name : Map (List ℕ)
  pub contributors : Map (List ℕ)
  pub tu_nodes : Map (List ℕ)

abbrev pub no_nodes : NodeStore
no_nodes = record { nodes = []; by_name = []; contributors = []; tu_nodes = [] }

pub is_empty : Text → Bool
is_empty [] = true
is_empty (c ∷ s) = false

-- What a second registration fills in.
pub backfill : CallGraphNode → CallGraphNode → CallGraphNode
backfill node old = record old {
  file = if is_empty node.file then old.file else node.file;
  line = if node.line == 0 then old.line else node.line;
  is_entry_point = old.is_entry_point || node.is_entry_point;
  is_virtual = old.is_virtual || node.is_virtual;
  enclosing_class =
      if is_empty node.enclosing_class then old.enclosing_class else node.enclosing_class;
}

-- The node of a usr id, with the id of its display name.
pub merge_node : ℕ → ℕ → CallGraphNode → NodeStore → NodeStore
merge_node name display node ns = elim (get name ns.nodes) [
  | none ↦ record ns {
    by_name = put display (push_new name (bucket display ns.by_name)) ns.by_name;
    nodes = put name node ns.nodes;
  }
  | some old ↦ record ns { nodes = put name (backfill node old) ns.nodes }
]

-- if (nodeContributors_[nameId].insert(tuId).second) tuNodes_[tuId].push_back(nameId)
pub contribute : ℕ → ℕ → NodeStore → NodeStore
contribute name tu ns = if mem tu (bucket name ns.contributors) then ns else record ns {
  contributors = put name (set_insert tu (bucket name ns.contributors)) ns.contributors;
  tu_nodes = push tu name ns.tu_nodes;
}

-- Drops the node, and its entry under its display name.
pub drop_node : StringInterner → ℕ → NodeStore → NodeStore
drop_node strings id ns = elim (get id ns.nodes) [
  | none ↦ ns
  | some node ↦ record ns {
    by_name = elim (find node.qualified_name strings) [
      | none ↦ ns.by_name
      | some display ↦ elim (get display ns.by_name) [
        | none ↦ ns.by_name
        | some ids ↦ elim (without id ids) [
          | [] ↦ del display ns.by_name
          | i ∷ is ↦ put display (i ∷ is) ns.by_name
        ]
      ]
    ];
    nodes = del id ns.nodes;
  }
]

-- One node that the TU contributed.
pub withdraw_node : StringInterner → ℕ → ℕ → NodeStore → NodeStore
withdraw_node strings tu id ns = elim (get id ns.contributors) [
  | none ↦ ns
  | some tus ↦ elim (without tu tus) [
    | [] ↦
        let after = drop_node strings id ns in
        record after { contributors = del id after.contributors }
    | t ∷ ts ↦ record ns { contributors = put id (t ∷ ts) ns.contributors }
  ]
]

pub withdraw_all : StringInterner → ℕ → List ℕ → NodeStore → NodeStore
withdraw_all strings tu [] ns = ns
withdraw_all strings tu (id ∷ ids) ns = withdraw_all strings tu ids (withdraw_node strings tu id ns)

-- The last loop of removeTUs.
pub remove_nodes : StringInterner → List ℕ → NodeStore → NodeStore
remove_nodes strings [] ns = ns
remove_nodes strings (tu ∷ tus) ns =
    let after = withdraw_all strings tu (bucket tu ns.tu_nodes) ns in
    remove_nodes strings tus (record after { tu_nodes = del tu after.tu_nodes })
