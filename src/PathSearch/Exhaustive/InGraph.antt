-- ===== src/PathSearch/Exhaustive/InGraph.antt =====
-- The search in a call graph with a filter that admits every call.
use vycor_cpp.Prelude.{
  ℕ, zero, suc, ◌<◌, ◌≡◌, refl, ap, subst, inl, inr, Bool, true, false, some, List, [], ◌∷◌, ◌++◌,
  length, ◌==◌, ==_iff, Bool-cases, arith,
}
use vycor_cpp.CallGraph.{CallGraph, links_of}
use vycor_cpp.CallGraph.Maps.{Map, mem, mem-append, get_elem?}
use vycor_cpp.CallGraph.Edges.{StoredEdge}
use vycor_cpp.CallGraph.Relations.{targets}
use vycor_cpp.CallGraph.Relations.Closure.{
  Reaches, first, more, mem-targets, transitive_closure_lem,
}
use vycor_cpp.CallGraph.Refs.{EdgeRef, callee_refs_of}
use vycor_cpp.CallGraph.Refs.Gathers.{any}
use vycor_cpp.CallGraph.Refs.Callees.{goes_to, Calls, callee_refs_of_sound, callee_refs_of_complete}
use vycor_cpp.CallGraph.Woven.{Reach, Reach-IsWoven}
use vycor_cpp.PathSearch.{SearchLimits, simple_nodes, ready, find_paths}
use vycor_cpp.PathSearch.Chains.{In, CallPath}
use vycor_cpp.PathSearch.Chains as Chains
use vycor_cpp.PathSearch.Order.{graph_of}
use vycor_cpp.PathSearch.Order.Calls.{In-any, sorted_callers-Calls}
use vycor_cpp.PathSearch.Complete.{Has, stopped}
use vycor_cpp.PathSearch.Exhaustive.{find_paths-Has}

-- The callees of the stored edges, then what overrides and returns add.
stored_callees : List StoredEdge → List ℕ
stored_callees [] = []
stored_callees (se ∷ ses) = se.callee ∷ stored_callees ses

pub callee_ids : CallGraph → List ℕ
callee_ids g =
    stored_callees g.store.edges ++ (targets g.overrides.forward ++ targets g.returns.forward)

stored_callees-mem :
    (ses : List StoredEdge) (i : ℕ) {se : StoredEdge}
    → get_elem? ses i ≡ some se
    → mem se.callee (stored_callees ses) ≡ true
unfolding get_elem? mem stored_callees
stored_callees-mem [] i h = cc h
stored_callees-mem (s ∷ ses) zero {se} h =
    let is : se ≡ s = cc h in
    let same : (se.callee == s.callee) ≡ true =
      (==_iff se.callee s.callee).1 (ap (λ (z : StoredEdge). z.callee) is) in
    rw same refl
stored_callees-mem (s ∷ ses) (suc i) h = ground (arith, stored_callees-mem ses i h)

Reaches-mem : {m : Map (List ℕ)} {a b : ℕ} → Reaches m a b → mem b (targets m) ≡ true
Reaches-mem {m} {a} {b} (first l) = mem-targets a b m l
Reaches-mem {m} {a} {b} (more y r l) = mem-targets y b m l

any-In :
    (t : EdgeRef → Bool) (es : List EdgeRef)
    → any t es ≡ true
    → (d : EdgeRef) × In d es × (t d ≡ true)
unfolding any
any-In t [] h = cc h
any-In t (e ∷ es) h = elim (Bool-cases (t e)) [
  | inl passes ↦ (e, Chains.first, passes)
  | inr fails ↦ let (d, k, passes) = any-In t es (rw fails at h) in (d, Chains.later k, passes)
]

module _ (g : CallGraph) (r : Reach g) where
  abbrev callees : ℕ → List EdgeRef
  callees id = callee_refs_of id (links_of g)

  inside : (x : ℕ) (e : EdgeRef) → In e (callees x) → mem e.callee (callee_ids g) ≡ true
  unfolding links_of callee_ids goes_to
  inside x e k =
      let c : Calls (links_of g) x e.callee e.call_site =
        callee_refs_of_sound (links_of g) x e.callee e.call_site (Reach-IsWoven r)
          (In-any (goes_to e.callee e.call_site) (ground arith) k) in
      let m =
        mem-append e.callee (stored_callees g.store.edges)
          (targets g.overrides.forward ++ targets g.returns.forward) in
      let n = mem-append e.callee (targets g.overrides.forward) (targets g.returns.forward) in
      elim c.how [
        | inl (live, to) ↦
            let h : mem e.callee (stored_callees g.store.edges) ≡ true =
              subst (λ z. mem z (stored_callees g.store.edges) ≡ true) to
                (stored_callees-mem g.store.edges c.idx c.at_idx) in
            rw (m, h) refl
        | inr (inl (live, over)) ↦
            let h : mem e.callee (targets g.overrides.forward) ≡ true =
              Reaches-mem
                ((transitive_closure_lem c.edge.callee g.overrides.forward e.callee).0 over).1 in
            ground (arith, m, n, h)
        | inr (inr (live, ret)) ↦
            let h : mem e.callee (targets g.returns.forward) ≡ true =
              mem-targets c.edge.callee e.callee g.returns.forward ret in
            ground (arith, m, n, h)
      ]

  module _ (starts : List ℕ) (limits : SearchLimits) (rounds : ℕ)
      (enough : length (callee_ids g) < rounds) where
    pub find_paths_complete :
        (t : ℕ) (full : List EdgeRef) (s : ℕ) (nodes : List ℕ)
        → stopped
            (find_paths callees rounds (graph_of g (λ e. true) starts limits simple_nodes) (t ∷ []))
          ≡ false
        → CallPath
            (ready callees rounds (graph_of g (λ e. true) starts limits simple_nodes))
            t
            full
            (s ∷ nodes)
        → mem s starts ≡ true
        → 0 < length full
        → Has full
            (find_paths callees rounds
              (graph_of g (λ e. true) starts limits simple_nodes)
              (t ∷ [])).found
    unfolding graph_of goes_to
    find_paths_complete t full s nodes free calls start long =
        find_paths-Has (graph_of g (λ e. true) starts limits simple_nodes) callees (callee_ids g)
          inside agree refl rounds enough t full s nodes free calls start long
      where
        agree :
            (n : ℕ) (e : EdgeRef)
            → In e ((graph_of g (λ e. true) starts limits simple_nodes).callers_of n)
            → true ≡ true
            → (d : EdgeRef) × In d (callees e.caller) × (true ≡ true) × (d.callee ≡ n)
        agree n e k pass =
            let shown =
              callee_refs_of_complete (links_of g) e.caller n e.call_site (Reach-IsWoven r)
                (sorted_callers-Calls g r n e k) in
            let (d, j, to) = any-In (goes_to n e.call_site) (callees e.caller) shown in
            (d, j, refl, (==_iff d.callee n).0 (ground (arith, to)))
