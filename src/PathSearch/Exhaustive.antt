-- ===== src/PathSearch/Exhaustive.antt =====
-- The whole search of findCallerPaths, with the corridor that it makes itself.
pub mod InGraph
use vycor_cpp.Prelude.{
  ℕ, zero, suc, ◌+◌, ◌≤◌, ◌<◌, ◌≡◌, refl, sym, ap, subst, Bool, true, false, List, [], ◌∷◌, length,
  Bool-cases, inl, inr, ◌||◌, ◌==◌, ltb, if◌then◌else◌, arith,
}
use vycor_cpp.CallGraph.Maps.{mem}
use vycor_cpp.CallGraph.Refs.{EdgeRef}
use vycor_cpp.PathSearch.{
  Graph, CycleRule, simple_nodes, capped, ready, find_paths, path_search_depth_cap, new_search,
  search_targets,
}
use vycor_cpp.PathSearch.Chains.{In, CallPath}
use vycor_cpp.PathSearch.Complete.{Has, stopped, Up, at_start, call}
use vycor_cpp.PathSearch.Complete.Ends.{search_targets-Has}
use vycor_cpp.PathSearch.Corridor.{corridor-Up}

module _ (g : Graph) (callees_of : ℕ → List EdgeRef) (ids : List ℕ)
    (inside : (x : ℕ) (e : EdgeRef) → In e (callees_of x) → mem e.callee ids ≡ true)
    (agree : (n : ℕ) (e : EdgeRef)
      → In e (g.callers_of n)
      → g.filter e ≡ true
      → (d : EdgeRef) × In d (callees_of e.caller) × (g.filter d ≡ true) × (d.callee ≡ n))
    (simple : g.cycles ≡ simple_nodes) (rounds : ℕ) (enough : length ids < rounds) where
  abbrev view : Graph
  view = ready callees_of rounds g

  Up-ready : {n : ℕ} → Up view n → Up g n
  unfolding ready
  Up-ready (at_start h) = at_start h
  Up-ready (call e k pass up) = call e k pass (Up-ready up)

  positive : 0 < view.limits.max_depth
  unfolding ready capped
  positive = ground arith

  -- If no node may occur twice on a path, the callees that the corridor asks for lie in a list that
  -- is shorter than its rounds, and every admitted call among the callers of a node is among the
  -- callees of its caller, then a search from one target that no limit has stopped finds every path:
  -- each non-empty chain of admitted calls from a start to the target in which no node comes twice.
  pub find_paths-Has :
      (t : ℕ) (full : List EdgeRef) (s : ℕ) (nodes : List ℕ)
      → stopped (find_paths callees_of rounds g (t ∷ [])) ≡ false
      → CallPath view t full (s ∷ nodes)
      → mem s g.starts ≡ true
      → 0 < length full
      → Has full (find_paths callees_of rounds g (t ∷ [])).found
  unfolding find_paths ready
  find_paths-Has t full s nodes free calls start long =
      search_targets-Has view simple positive
        (λ n up. corridor-Up g callees_of ids inside rounds enough agree n (Up-ready up)) t full s
        nodes free calls start long
