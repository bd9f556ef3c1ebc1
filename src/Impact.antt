-- ===== src/Impact.antt =====
-- src/impact/ImpactSearch.cpp and include/vycor/impact/ImpactSearch.h, findImpact: the breadth-first
-- walk from the changed functions along their callers. The callers of a node in canonical order, its
-- stored in-degree and the filter are arguments of the walk; Impact/Answer takes them from the call
-- graph. A node is queued once, so the callers there are and the seeds bound the rounds
-- (Impact/Exact).
pub mod Waves
pub mod Steps
pub mod Exact
pub mod Seeds
pub mod Shortest
pub mod Answer
pub mod Callers
mod Tests
use vycor_cpp.Prelude.{
  ℕ, zero, suc, ◌+◌, Bool, true, false, not, ◌&&◌, ◌||◌, Option, none, some, List, [], ◌∷◌, ◌++◌,
  length, ltb, leb, ◌==◌, if◌then◌else◌,
}
use vycor_cpp.CallGraph.Maps.{Map, get, put}
use vycor_cpp.CallGraph.Refs.{EdgeRef}

pub record ImpactLimits : Type 0 where
  pub max_depth : ℕ
  pub max_fan_in : ℕ
  pub max_work : ℕ

-- struct Reach; a changed node has no edge.
pub record Reached : Type 0 where
  pub depth : ℕ
  pub parent : ℕ
  pub edge : Option EdgeRef
  pub origin : ℕ

pub record Frontier : Type 0 where
  pub reached : Map Reached
  pub queue : List ℕ

-- The stops, the hubs and the expansions.
pub record Tally : Type 0 where
  pub hubs : Map ℕ
  pub depth_stop : Bool
  pub hub_stop : Bool
  pub work_stop : Bool
  pub expansions : ℕ

abbrev pub no_tally : Tally
no_tally = record {
  hubs = [];
  depth_stop = false;
  hub_stop = false;
  work_stop = false;
  expansions = 0;
}

-- reached[node], which has an entry for every node of the queue.
pub at : ℕ → Map Reached → Reached
at node m = elim (get node m) [
  | none ↦ record { depth = 0; parent = 0; edge = none; origin = 0 }
  | some r ↦ r
]

pub is_known : ℕ → Map Reached → Bool
is_known x m = elim (get x m) [ none ↦ false | some r ↦ true ]

pub seed_all : List ℕ → Frontier → Frontier
seed_all [] f = f
seed_all (s ∷ ss) f =
    let seed : Reached = record { depth = 0; parent = 0; edge = none; origin = s } in
    seed_all ss (record {
      reached = if is_known s f.reached then f.reached else put s seed f.reached;
      queue = f.queue ++ (s ∷ []);
    })

-- What becomes of the node at the front of the queue.
pub data Turn : Type 0 where
  too_deep hub out_of_work expand : Turn

module _ (filter : EdgeRef → Bool) where
  pub admitted : EdgeRef → Map Reached → Bool
  admitted e m = filter e && not (is_known e.caller m)

  pub any_admitted : List EdgeRef → Map Reached → Bool
  any_admitted [] m = false
  any_admitted (e ∷ es) m = let later = any_admitted es m in if admitted e m then true else later

  pub reach_callers : ℕ → Reached → List EdgeRef → Frontier → Frontier
  reach_callers node r [] f = f
  reach_callers node r (e ∷ es) f =
      let rc : Reached = record {
        depth = r.depth + 1;
        parent = node;
        edge = some e;
        origin = r.origin;
      } in
      reach_callers node r es (
        if admitted e f.reached
        then record { reached = put e.caller rc f.reached; queue = f.queue ++ (e.caller ∷ []) }
        else f)

module _ (callers_of : ℕ → List EdgeRef) (degree : ℕ → ℕ) (filter : EdgeRef → Bool)
    (limits : ImpactLimits) where
  pub turn_of : ℕ → Reached → Tally → Turn
  turn_of node r t =
      if not (limits.max_depth == 0) && leb limits.max_depth r.depth
      then too_deep
      else if ltb 0 r.depth && not (limits.max_fan_in == 0) && ltb limits.max_fan_in (degree node)
      then hub
      else if not (limits.max_work == 0) && leb limits.max_work t.expansions
      then out_of_work
      else expand

  -- while (!queue.empty())
  pub search : ℕ → List ℕ → Map Reached → Tally → Map Reached × Tally
  search zero queue m t = (m, t)
  search (suc fuel) [] m t = (m, t)
  search (suc fuel) (node ∷ queue) m t =
      let f =
        reach_callers filter node (at node m) (callers_of node)
          (record { reached = m; queue = queue }) in
      elim (turn_of node (at node m) t) [
        | too_deep ↦
            search fuel queue m
              (record t { depth_stop = t.depth_stop || any_admitted filter (callers_of node) m })
        | hub ↦
            search fuel queue m (record t { hubs = put node (degree node) t.hubs; hub_stop = true })
        | out_of_work ↦ (m, record t { work_stop = true })
        | expand ↦ search fuel f.queue f.reached (record t { expansions = t.expansions + 1 })
      ]

  -- From the changed functions, with as many callers as there may be.
  abbrev pub walk_from : List ℕ → ℕ → Map Reached × Tally
  walk_from seeds many =
      let start = seed_all seeds (record { reached = []; queue = [] }) in
      search (suc (length seeds + many)) start.queue start.reached no_tally

-- The edges from a reached node to its changed node, for so many edges.
pub path_of : ℕ → ℕ → Map Reached → List EdgeRef
path_of zero x m = []
path_of (suc n) x m =
    let step = at x m in
    let rest = path_of n step.parent m in
    if step.depth == 0 then [] else elim step.edge [ none ↦ [] | some e ↦ e ∷ rest ]
