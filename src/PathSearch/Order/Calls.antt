-- ===== src/PathSearch/Order/Calls.antt =====
-- The paths that the search finds in a call graph are chains of calls that the graph stores.
use vycor_cpp.Prelude.{ℕ, ◌≡◌, refl, inl, inr, Bool, true, List, [], ◌∷◌, Bool-cases, arith}
use vycor_cpp.CallGraph.{CallGraph, links_of}
use vycor_cpp.CallGraph.Interner.{Text}
use vycor_cpp.CallGraph.Maps.{mem}
use vycor_cpp.CallGraph.Woven.{Reach, Reach-IsWoven}
use vycor_cpp.CallGraph.Refs.{EdgeRef, Links, caller_refs_of}
use vycor_cpp.CallGraph.Refs.Gathers.{any}
use vycor_cpp.CallGraph.Refs.Callees.{comes_from, Calls}
use vycor_cpp.CallGraph.Refs.Callers.{caller_refs_of_sound}
use vycor_cpp.PathSearch.{Graph, SearchLimits, CycleRule, ready, find_paths}
use vycor_cpp.PathSearch.Chains.{In, first, later, CallPath, here, hop, AllFound, nil, cons}
use vycor_cpp.PathSearch.Found.{find_paths-IsRight}
use vycor_cpp.PathSearch.Order.{ref_lt, insert_ref, sort_refs, graph_of, text_of}

-- Calls that the graph stores, each from the node at the same place to the next one.
pub data Chain (l : Links) (target : ℕ) : List EdgeRef → List ℕ → Type 0 where
  end : Chain l target [] (target ∷ [])
  link :
      {path : List EdgeRef} {node : ℕ} {nodes : List ℕ} (e : EdgeRef)
      → Calls l e.caller node e.call_site
      → Chain l target path (node ∷ nodes)
      → Chain l target (e ∷ path) (e.caller ∷ node ∷ nodes)

-- A chain of calls from a start to a target.
pub record FromStart (l : Links) (starts targets : List ℕ) (path : List EdgeRef) : Type 0 where
  pub target : ℕ
  pub aimed : mem target targets ≡ true
  pub start : ℕ
  pub nodes : List ℕ
  pub chain : Chain l target path (start ∷ nodes)
  pub started : mem start starts ≡ true

pub data AllFromStart (l : Links) (starts targets : List ℕ) : List (List EdgeRef) → Type 0 where
  none_left : AllFromStart l starts targets []
  also :
      {path : List EdgeRef} {paths : List (List EdgeRef)}
      → FromStart l starts targets path
      → AllFromStart l starts targets paths
      → AllFromStart l starts targets (path ∷ paths)

In-swap : {x e d : EdgeRef} {es : List EdgeRef} → In x (d ∷ e ∷ es) → In x (e ∷ d ∷ es)
In-swap first = later first
In-swap (later first) = first
In-swap (later (later k)) = later (later k)

In-under :
    {x d : EdgeRef} {es fs : List EdgeRef} → (In x es → In x fs) → In x (d ∷ es) → In x (d ∷ fs)
In-under f first = first
In-under f (later k) = later (f k)

pub insert_ref-In :
    (text : ℕ → Text) (e : EdgeRef) (ds : List EdgeRef) (x : EdgeRef)
    → In x (insert_ref text e ds)
    → In x (e ∷ ds)
unfolding insert_ref
insert_ref-In text e [] x h = h
insert_ref-In text e (d ∷ ds) x h =
    let rec = insert_ref-In text e ds x in
    elim (Bool-cases (ref_lt text d e)) [
      | inl lt ↦ In-swap (In-under rec (rw lt at h))
      | inr ge ↦ rw ge at h
    ]

pub sort_refs-In :
    (text : ℕ → Text) (es : List EdgeRef) (x : EdgeRef) → In x (sort_refs text es) → In x es
unfolding sort_refs
sort_refs-In text [] x h = h
sort_refs-In text (e ∷ es) x h =
    In-under (sort_refs-In text es x) (insert_ref-In text e (sort_refs text es) x h)

pub In-any :
    (t : EdgeRef → Bool) {x : EdgeRef} {es : List EdgeRef} → t x ≡ true → In x es → any t es ≡ true
unfolding any
In-any t h first = rw h refl
In-any t h (later k) = ground (arith, In-any t h k)

-- A caller that the graph shows has a stored edge that calls.
pub sorted_callers-Calls :
    (g : CallGraph)
    → Reach g
    → (node : ℕ) (e : EdgeRef) → In e (sort_refs (text_of g) (caller_refs_of node (links_of g)))
    → Calls (links_of g) e.caller node e.call_site
unfolding comes_from
sorted_callers-Calls g r node e k =
    caller_refs_of_sound (links_of g) e.caller node e.call_site (Reach-IsWoven r) (
      In-any (comes_from e.caller e.call_site) (ground arith)
        (sort_refs-In (text_of g) (caller_refs_of node (links_of g)) e k))

module _ (g : CallGraph) (r : Reach g) (filter : EdgeRef → Bool) (starts : List ℕ)
    (limits : SearchLimits) (cycles : CycleRule) (callees_of : ℕ → List EdgeRef) (rounds : ℕ) where
  abbrev view : Graph
  view = ready callees_of rounds (graph_of g filter starts limits cycles)

  shown-Calls :
      (node : ℕ) (e : EdgeRef)
      → In e (view.callers_of node)
      → Calls (links_of g) e.caller node e.call_site
  unfolding ready graph_of
  shown-Calls node e k = sorted_callers-Calls g r node e k

  CallPath-Chain :
      {target : ℕ} {path : List EdgeRef} {nodes : List ℕ}
      → CallPath view target path nodes
      → Chain (links_of g) target path nodes
  CallPath-Chain here = end
  CallPath-Chain (hop {node = node} e calls k admitted allowed) =
      link e (shown-Calls node e k) (CallPath-Chain calls)

  AllFound-AllFromStart :
      {targets : List ℕ} {paths : List (List EdgeRef)}
      → AllFound view targets paths
      → AllFromStart (links_of g) starts targets paths
  unfolding ready graph_of
  AllFound-AllFromStart nil = none_left
  AllFound-AllFromStart (cons f fs) =
      also
        (record {
          target = f.target;
          aimed = f.aimed;
          start = f.start;
          nodes = f.nodes;
          chain = CallPath-Chain f.calls;
          started = f.started;
        })
        (AllFound-AllFromStart fs)

  -- In every graph that any sequence of the mutating calls builds, where no edge comes to 2^32
  -- registrations, each path that the search returns, whatever its limits, filter and rounds of the
  -- corridor, is a chain from a start to a target of calls that live stored edges make: as they are
  -- stored, by dispatch to an override, or through a function that returns the callee.
  pub find_paths-AllFromStart :
      (targets : List ℕ)
      → AllFromStart
          (links_of g)
          starts
          targets
          (find_paths callees_of rounds (graph_of g filter starts limits cycles) targets).found
  find_paths-AllFromStart targets =
      AllFound-AllFromStart
        (find_paths-IsRight callees_of rounds (graph_of g filter starts limits cycles)
          targets).0.all_found
