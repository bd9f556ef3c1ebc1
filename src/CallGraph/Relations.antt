-- ===== src/CallGraph/Relations.antt =====
-- src/callgraph/CallGraph.cpp, transitiveClosure and the relation maps. The stack's back is the head
-- of the list. A round takes a node from the stack and a node is pushed once at most, so the number
-- of the relation's targets, and two, is fuel enough.
pub mod Closure
pub mod Reverse
use vycor_cpp.Prelude.{
  ℕ, zero, suc, ◌+◌, Bool, true, false, Option, none, some, List, [], ◌∷◌, ◌++◌, length,
  if◌then◌else◌,
}
use vycor_cpp.CallGraph.Maps.{Map, get, put, bucket, mem, push_new, set_insert}

-- The locals of transitiveClosure.
pub record Walk : Type 0 where
  pub result : List ℕ
  pub stack : List ℕ
  pub visited : List ℕ

-- for (SId next : it->second) if (visited.insert(next).second) …
unfoldable pub visit : List ℕ → Walk → Walk
visit [] w = w
visit (next ∷ nexts) w = visit nexts (
    if mem next w.visited then w else record {
      result = w.result ++ (next ∷ []);
      stack = next ∷ w.stack;
      visited = next ∷ w.visited;
    })

unfoldable pub walk : ℕ → Map (List ℕ) → List ℕ → List ℕ → List ℕ → Walk
walk zero relation result stack visited = record {
  result = result;
  stack = stack;
  visited = visited;
}
walk (suc fuel) relation result [] visited = record {
  result = result;
  stack = [];
  visited = visited;
}
walk (suc fuel) relation result (cur ∷ stack) visited =
    let w =
      visit (bucket cur relation) (record { result = result; stack = stack; visited = visited }) in
    walk fuel relation w.result w.stack w.visited

unfoldable pub targets : Map (List ℕ) → List ℕ
targets [] = []
targets ((k, xs) ∷ m) = xs ++ targets m

unfoldable pub transitive_closure : ℕ → Map (List ℕ) → List ℕ
transitive_closure start relation = elim (get start relation) [
  | none ↦ []
  | some xs ↦
      (walk (suc (suc (length (targets relation)))) relation [] (start ∷ []) (start ∷ [])).result
]

-- A relation with its reverse: methodOverrides_ and overrideBases_.
pub record Relation : Type 0 where
  pub forward : Map (List ℕ)
  pub reverse : Map (List ℕ)

abbrev pub no_pairs : Relation
no_pairs = record { forward = []; reverse = [] }

-- addMethodOverride, on ids: each of the two vectors is probed.
unfoldable pub add_override : ℕ → ℕ → Relation → Relation
add_override base over r = record {
  forward = put base (push_new over (bucket base r.forward)) r.forward;
  reverse = put over (push_new base (bucket over r.reverse)) r.reverse;
}

-- addFunctionReturn, on ids: the forward map has sets, and the reverse is extended if the pair is
-- new.
unfoldable pub add_return : ℕ → ℕ → Relation → Relation
add_return fn ret r = if mem ret (bucket fn r.forward) then r else record {
  forward = put fn (set_insert ret (bucket fn r.forward)) r.forward;
  reverse = put ret (bucket ret r.reverse ++ (fn ∷ [])) r.reverse;
}
