-- ===== src/Impact/Callers.antt =====
-- What findImpact finds in a call graph: the callers of the changed functions, and all of them.
use vycor_cpp.Prelude.{
  ℕ, zero, suc, ◌≤◌, ◌<◌, ◌≡◌, ◌↔◌, refl, ==_iff, ap, subst, Bool, true, false, some, List, [], ◌∷◌,
  length, ◌==◌, arith,
}
use vycor_cpp.CallGraph.{CallGraph, links_of, stored_in_degree}
use vycor_cpp.CallGraph.Maps.{Map, get, mem, get_elem?}
use vycor_cpp.CallGraph.Edges.{StoredEdge}
use vycor_cpp.CallGraph.Refs.{EdgeRef}
use vycor_cpp.CallGraph.Woven.{Reach}
use vycor_cpp.PathSearch.Chains.{In}
use vycor_cpp.PathSearch.Order.Calls.{sorted_callers-Calls}
use vycor_cpp.Impact.{no_tally, ImpactLimits, Reached, Tally, is_known}
use vycor_cpp.Impact.Answer.{stored_callers, sorted_callers, impact_walk}
use vycor_cpp.Impact.Exact.{NoStop, search-NoStop}
use vycor_cpp.Impact.Waves.{Within, known}
use vycor_cpp.Impact.Shortest.{Chain, Leads, near, everything, reached-Leads}

stored_callers-mem :
    (ses : List StoredEdge) (i : ℕ) {se : StoredEdge}
    → get_elem? ses i ≡ some se
    → mem se.caller (stored_callers ses) ≡ true
unfolding get_elem? mem stored_callers
stored_callers-mem [] i h = cc h
stored_callers-mem (s ∷ ses) zero {se} h =
    let is : se ≡ s = cc h in
    let same : (se.caller == s.caller) ≡ true =
      (==_iff se.caller s.caller).1 (ap (λ (z : StoredEdge). z.caller) is) in
    rw same refl
stored_callers-mem (s ∷ ses) (suc i) h = ground (arith, stored_callers-mem ses i h)

module _ (g : CallGraph) (r : Reach g) (filter : EdgeRef → Bool) (limits : ImpactLimits)
    (seeds : List ℕ) where
  -- A caller that the graph shows is the caller of a stored edge.
  inside :
      (x : ℕ) (e : EdgeRef)
      → In e (sorted_callers g x)
      → mem e.caller (stored_callers g.store.edges) ≡ true
  unfolding links_of
  inside x e k =
      let call = sorted_callers-Calls g r x e k in
      subst (λ z. mem z (stored_callers g.store.edges) ≡ true) call.from
        (stored_callers-mem g.store.edges call.idx call.at_idx)

  abbrev walk : Map Reached × Tally
  walk = impact_walk g filter limits seeds

  abbrev Calling : List EdgeRef → ℕ → ℕ → Type 0
  Calling = Chain (sorted_callers g) filter

  -- In every such graph, whatever stops the walk, the path rebuilt from a reached function along the
  -- stored parents is a chain of admitted calls from it to the changed function stored as its
  -- origin, with as many edges as its depth.
  pub impact_walk-Leads :
      (x : ℕ) (entry : Reached)
      → get x walk.0 ≡ some entry
      → Leads (sorted_callers g) filter seeds walk.0 x entry.depth entry
  unfolding impact_walk
  impact_walk-Leads x entry h =
      reached-Leads (sorted_callers g) (λ node. stored_in_degree node g) filter limits seeds
        (stored_callers g.store.edges) inside x entry h

  -- In every such graph, when neither a hub nor the work limit has stopped the walk, every function
  -- from which a chain of admitted calls leads to a changed one, with no more edges than the depth
  -- limit if there is one, is reached, at a depth of at most the edges of the chain.
  pub impact_walk-Within :
      walk.1.hub_stop ≡ false
      → walk.1.work_stop ≡ false
      → (es : List EdgeRef) (x s : ℕ) → Calling es x s
      → mem s seeds ≡ true
      → (0 < limits.max_depth → length es ≤ limits.max_depth)
      → Within walk.0 x (length es)
  unfolding impact_walk
  impact_walk-Within no_hub no_break es x s path changed fits =
      near (sorted_callers g) (λ node. stored_in_degree node g) filter limits seeds
        (stored_callers g.store.edges) inside no_hub no_break path changed fits

  -- A chain of admitted calls to a changed function.
  pub record IsCaller (x : ℕ) : Type 0 where
    pub target : ℕ
    pub changed : mem target seeds ≡ true
    pub path : List EdgeRef
    pub calls : Calling path x target

  -- In every graph that any sequence of the mutating calls builds, where no edge comes to 2^32
  -- registrations: when no limit has stopped the walk of findImpact, it has reached a function
  -- exactly if a chain of admitted calls, in the edges that callerRefsOf shows, leads from it to a
  -- changed function.
  pub impact_walk-IsCaller :
      walk.1.hub_stop ≡ false
      → walk.1.work_stop ≡ false
      → walk.1.depth_stop ≡ false
      → (x : ℕ) → is_known x walk.0 ≡ true ↔ IsCaller x
  unfolding impact_walk is_known
  impact_walk-IsCaller no_hub no_break no_cut x = (
    λ h.
        let (entry, found) = known x walk.0 h in
        let l = impact_walk-Leads x entry found in
        record { target = entry.origin; changed = l.changed; path = _; calls = l.path },
    λ c.
        let (entry, found) =
          everything (sorted_callers g) (λ node. stored_in_degree node g) filter limits seeds
            (stored_callers g.store.edges) inside no_hub no_break no_cut c.calls c.changed in
        rw (found, is_known) refl,
  )

-- With no limits the affected functions are all the callers.
pub impact_walk-NoStop :
    (g : CallGraph) (filter : EdgeRef → Bool) (limits : ImpactLimits) (seeds : List ℕ)
    → limits.max_depth ≡ 0
    → limits.max_fan_in ≡ 0
    → limits.max_work ≡ 0
    → NoStop no_tally (impact_walk g filter limits seeds).1
unfolding impact_walk
impact_walk-NoStop g filter limits seeds a b c =
    search-NoStop (sorted_callers g) (λ node. stored_in_degree node g) filter limits a b c _ _ _
      no_tally
