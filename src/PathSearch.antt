-- ===== src/PathSearch.antt =====
-- src/callgraph/PathSearch.cpp, the depth-first search of findCallerPaths from a target back to the
-- starts. The graph enters by its queries (Graph), with the callers of a node in their canonical
-- order, and with its callees for the corridor. A path is kept in the direction of the calls, so its
-- latest edge is the head; the source reverses it at the end. What the source pushes before a call
-- and pops after it is an argument. The depth of a call is at most max_depth, which is never 0, so
-- max_depth and one more is fuel enough (PathSearch/Fuel). The rounds of the corridor are an argument:
-- each but the last reaches a new id, so one more than the number of callees is enough (Corridor).
pub mod Chains
pub mod Found
pub mod Fuel
pub mod Order
pub mod Corridor
pub mod Complete
pub mod Exhaustive
pub mod Answer
mod Tests
use vycor_cpp.Prelude.{
  ℕ, zero, suc, ◌+◌, ◌-◌, Bool, true, false, not, ◌&&◌, ◌||◌, Option, none, some, List, [], ◌∷◌,
  ◌++◌, length, ltb, leb, ◌==◌, if◌then◌else◌,
}
use vycor_cpp.CallGraph.Maps.{Map, get, put, mem}
use vycor_cpp.CallGraph.Refs.{EdgeRef}

-- kPathSearchDepthCap
abbrev pub path_search_depth_cap : ℕ
path_search_depth_cap = 1000

pub record SearchLimits : Type 0 where
  pub max_paths : ℕ
  pub max_depth : ℕ
  pub max_fan_in : ℕ
  pub max_work : ℕ

pub data CycleRule : Type 0 where
  simple_nodes simple_edges : CycleRule

-- What the search asks of the graph, and what it is given.
pub record Graph : Type 0 where
  pub callers_of : ℕ → List EdgeRef
  pub stored_in_degree : ℕ → ℕ
  pub filter : EdgeRef → Bool
  pub starts : List ℕ
  pub min_from_start : Map ℕ
  pub limits : SearchLimits
  pub cycles : CycleRule

-- StopReason, as the bits of `stops`, and the rest of the state that outlives a call.
pub record Search : Type 0 where
  pub dead_at : Map ℕ
  pub found : List (List EdgeRef)
  pub hubs : Map ℕ
  pub depth_stop : Bool
  pub work_stop : Bool
  pub hub_stop : Bool
  pub expansions : ℕ
  pub truncated : Bool

abbrev pub new_search : Search
new_search = record {
  dead_at = [];
  found = [];
  hubs = [];
  depth_stop = false;
  work_stop = false;
  hub_stop = false;
  expansions = 0;
  truncated = false;
}

-- kFound and kBlocked
pub record Flags : Type 0 where
  pub is_found : Bool
  pub is_blocked : Bool

abbrev pub no_flags : Flags
no_flags = record { is_found = false; is_blocked = false }

abbrev pub blocked : Flags
blocked = record { is_found = false; is_blocked = true }

pub both_flags : Flags → Flags → Flags
both_flags a b = record {
  is_found = a.is_found || b.is_found;
  is_blocked = a.is_blocked || b.is_blocked;
}

pub path_limit_hit : SearchLimits → Search → Bool
path_limit_hit limits st = not (limits.max_paths == 0) && leb limits.max_paths (length st.found)

-- The limits in use: no search goes below the cap.
pub capped : SearchLimits → SearchLimits
capped limits =
    if limits.max_depth == 0 || ltb path_search_depth_cap limits.max_depth
    then record limits { max_depth = path_search_depth_cap }
    else limits

pub corridor_caller : Graph → List EdgeRef → Bool
corridor_caller g [] = false
corridor_caller g (e ∷ es) =
    let later = corridor_caller g es in
    if not (g.filter e)
    then later
    else elim (get e.caller g.min_from_start) [ some d ↦ true | none ↦ later ]

-- EdgeKey: an edge of the path, under CycleRule::SimpleEdges.
pub same_edge : EdgeRef → EdgeRef → Bool
same_edge a b = a.caller == b.caller && a.callee == b.callee && a.call_site == b.call_site

pub on_path_edge : EdgeRef → List EdgeRef → Bool
on_path_edge e [] = false
on_path_edge e (d ∷ ds) = let later = on_path_edge e ds in if same_edge e d then true else later

pub is_excluded : CycleRule → EdgeRef → List EdgeRef → List ℕ → Bool
is_excluded simple_nodes e path nodes = mem e.caller nodes
is_excluded simple_edges e path nodes = on_path_edge e path

-- A caller that the corridor has, at its distance: whether the walk goes on along the edge.
pub data Turn : Type 0 where
  skip too_deep excluded follow : Turn

pub turn_of : Graph → ℕ → List EdgeRef → List ℕ → EdgeRef → Turn
turn_of g depth path nodes e =
    if not (g.filter e) then skip else elim (get e.caller g.min_from_start) [
      | none ↦ skip
      | some d ↦
          if not (g.limits.max_depth == 0) && ltb g.limits.max_depth (d + depth + 1)
          then too_deep
          else if is_excluded g.cycles e path nodes
          then excluded
          else follow
    ]

-- The loop over the callers of a node; `go` is the call of dfs along an edge.
pub expand :
    (EdgeRef → Search → Flags × Search)
    → Graph
    → ℕ
    → List EdgeRef
    → List ℕ
    → List EdgeRef
    → Flags
    → Search
    → Flags × Search
expand go g depth path nodes [] flags st = (flags, st)
expand go g depth path nodes (e ∷ es) flags st = elim (turn_of g depth path nodes e) [
  | skip ↦ expand go g depth path nodes es flags st
  | too_deep ↦ expand go g depth path nodes es flags (record st { depth_stop = true })
  | excluded ↦ expand go g depth path nodes es (both_flags flags blocked) st
  | follow ↦
      let (more, st') = go e st in
      let flags' = both_flags flags more in
      if path_limit_hit g.limits st'
      then (
        both_flags flags' blocked,
        record st' { truncated = st'.truncated || not (length es == 0) },
      )
      else expand go g depth path nodes es flags' st'
]

-- if (startSet.count(node) && depth > 0) found.push_back(currentEdges)
pub record_path : Graph → ℕ → ℕ → List EdgeRef → Search → Flags × Search
record_path g node depth path st =
    if mem node g.starts && ltb 0 depth
    then (
      record { is_found = true; is_blocked = false },
      record st { found = st.found ++ (path ∷ []) },
    )
    else (no_flags, st)

-- deadAt keeps the least depth at which the node led nowhere.
pub bury : ℕ → ℕ → Search → Search
bury node depth st = record st {
  dead_at = elim (get node st.dead_at) [
    | none ↦ put node depth st.dead_at
    | some old ↦ if ltb depth old then put node depth st.dead_at else st.dead_at
  ];
}

pub is_dead : ℕ → ℕ → Search → Bool
is_dead node depth st = elim (get node st.dead_at) [ none ↦ false | some old ↦ leb old depth ]

-- The body of dfs below a node that is not dead.
pub visit_node :
    (EdgeRef → Search → Flags × Search)
    → Graph
    → ℕ
    → ℕ
    → List EdgeRef
    → List ℕ
    → Search
    → Flags × Search
visit_node go g node depth path nodes st =
    let (flags, st1) = record_path g node depth path st in
    let callers = g.callers_of node in
    if not (g.limits.max_fan_in == 0)
      && ltb 0 depth
      && ltb g.limits.max_fan_in (g.stored_in_degree node)
    then (flags, record st1 { hubs = put node (g.stored_in_degree node) st1.hubs; hub_stop = true })
    else if not (g.limits.max_depth == 0) && leb g.limits.max_depth depth
    then (flags, record st1 { depth_stop = st1.depth_stop || corridor_caller g callers })
    else if path_limit_hit g.limits st1
    then (
      both_flags flags blocked,
      record st1 { truncated = st1.truncated || corridor_caller g callers },
    )
    else expand go g depth path nodes callers flags st1

pub dfs : ℕ → Graph → ℕ → ℕ → List EdgeRef → List ℕ → Search → Flags × Search
dfs zero g node depth path above st = (blocked, st)
dfs (suc fuel) g node depth path above st =
    let go =
      λ (e : EdgeRef) (s : Search). dfs fuel g e.caller (suc depth) (e ∷ path) (node ∷ above) s in
    let counted = record st { expansions = st.expansions + 1 } in
    if path_limit_hit g.limits st
    then (blocked, record st { truncated = true })
    else if not (g.limits.max_work == 0) && leb g.limits.max_work st.expansions
    then (blocked, record st { work_stop = true })
    else if is_dead node depth counted
    then (no_flags, counted)
    else (let (flags, st') = visit_node go g node depth path (node ∷ above) counted in
        (flags, if flags.is_found || flags.is_blocked then st' else bury node depth st'))

-- The loop over the targets, in the order of their usrs.
pub search_targets : Graph → List ℕ → Search → Search
search_targets g [] st = st
search_targets g (t ∷ ts) st = elim (path_limit_hit g.limits st) [
  | true ↦ record st { truncated = true }
  | false ↦ elim (get t g.min_from_start) [
    | none ↦ search_targets g ts st
    | some d ↦
        if not (g.limits.max_depth == 0) && ltb g.limits.max_depth d
        then search_targets g ts (record st { depth_stop = true })
        else search_targets g ts (dfs (suc g.limits.max_depth) g t 0 [] [] st).1
  ]
]

-- One node's callees in a round of the corridor, at the distance of the round.
pub corridor_edges : Graph → ℕ → List EdgeRef → Map ℕ → List ℕ → Map ℕ × List ℕ
corridor_edges g dist [] m next = (m, next)
corridor_edges g dist (e ∷ es) m next =
    let skipped = corridor_edges g dist es m next in
    let reached = corridor_edges g dist es (put e.callee dist m) (next ++ (e.callee ∷ [])) in
    if not (g.filter e)
    then skipped
    else elim (get e.callee m) [ some d ↦ skipped | none ↦ reached ]

pub corridor_round : (ℕ → List EdgeRef) → Graph → ℕ → List ℕ → Map ℕ → List ℕ → Map ℕ × List ℕ
corridor_round callees_of g dist [] m next = (m, next)
corridor_round callees_of g dist (node ∷ frontier) m next =
    let (m', next') = corridor_edges g dist (callees_of node) m next in
    corridor_round callees_of g dist frontier m' next'

-- while (!frontier.empty()), for so many rounds.
pub corridor : (ℕ → List EdgeRef) → Graph → ℕ → ℕ → List ℕ → Map ℕ → Map ℕ
corridor callees_of g zero dist frontier m = m
corridor callees_of g (suc rounds) dist [] m = m
corridor callees_of g (suc rounds) dist (node ∷ frontier) m =
    let (m', next) = corridor_round callees_of g (suc dist) (node ∷ frontier) m [] in
    corridor callees_of g rounds (suc dist) next m'

pub start_distances : List ℕ → Map ℕ
start_distances [] = []
start_distances (s ∷ ss) = put s 0 (start_distances ss)

-- The search with its capped limits and its corridor.
pub ready : (ℕ → List EdgeRef) → ℕ → Graph → Graph
ready callees_of rounds g = record g {
  limits = capped g.limits;
  min_from_start = corridor callees_of g rounds 0 g.starts (start_distances g.starts);
}

-- The search of findCallerPaths on ids: the paths and the stops are in the state.
pub find_paths : (ℕ → List EdgeRef) → ℕ → Graph → List ℕ → Search
find_paths callees_of rounds g targets =
    search_targets (ready callees_of rounds g) targets new_search
