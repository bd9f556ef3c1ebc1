-- ===== src/PathSearch/Chains.antt =====
-- What a right result of the search is: paths of admitted edges from a start to a target.
use vycor_cpp.Prelude.{
  ℕ, suc, ◌+◌, ◌≤◌, ◌<◌, ◌≡◌, refl, ◌⊎◌, inl, inr, true, false, not, ◌&&◌, List, [], ◌∷◌, ◌++◌,
  length, ltb, ◌==◌, Bool-cases, Option-cases, arith,
}
use vycor_cpp.CallGraph.Maps.{get, mem}
use vycor_cpp.CallGraph.Refs.{EdgeRef}
use vycor_cpp.PathSearch.{
  Graph, CycleRule, Search, Flags, is_excluded, Turn, skip, too_deep, excluded, follow, turn_of,
}

-- `e` stands in the list.
pub data In : EdgeRef → List EdgeRef → Type 0 where
  first : {e : EdgeRef} {es : List EdgeRef} → In e (e ∷ es)
  later : {e d : EdgeRef} {es : List EdgeRef} → In e es → In e (d ∷ es)

-- No edge, or no node, twice, as the rule says.
abbrev pub Allowed : CycleRule → EdgeRef → List EdgeRef → List ℕ → Type 0
Allowed rule e path nodes = is_excluded rule e path nodes ≡ false

-- A path of calls to the target, with its nodes from its first caller on: each edge is one that the
-- graph shows among the callers of the next node, passes the filter, and obeys the cycle rule.
pub data CallPath (g : Graph) (target : ℕ) : List EdgeRef → List ℕ → Type 0 where
  here : CallPath g target [] (target ∷ [])
  hop :
      {path : List EdgeRef} {node : ℕ} {nodes : List ℕ} (e : EdgeRef)
      → CallPath g target path (node ∷ nodes)
      → In e (g.callers_of node)
      → g.filter e ≡ true
      → Allowed g.cycles e path (node ∷ nodes)
      → CallPath g target (e ∷ path) (e.caller ∷ node ∷ nodes)

-- A path that may be returned.
pub record IsFound (g : Graph) (targets : List ℕ) (path : List EdgeRef) : Type 0 where
  pub target : ℕ
  pub aimed : mem target targets ≡ true
  pub start : ℕ
  pub nodes : List ℕ
  pub calls : CallPath g target path (start ∷ nodes)
  pub started : mem start g.starts ≡ true
  pub some_edge : 0 < length path
  pub short : length path ≤ g.limits.max_depth

pub data AllFound (g : Graph) (targets : List ℕ) : List (List EdgeRef) → Type 0 where
  nil : AllFound g targets []
  cons :
      {path : List EdgeRef} {paths : List (List EdgeRef)}
      → IsFound g targets path
      → AllFound g targets paths
      → AllFound g targets (path ∷ paths)

pub AllFound-push :
    (g : Graph) (targets : List ℕ) (paths : List (List EdgeRef)) (path : List EdgeRef)
    → AllFound g targets paths
    → IsFound g targets path
    → AllFound g targets (paths ++ (path ∷ []))
AllFound-push g targets [] path nil f = cons f nil
AllFound-push g targets (p ∷ ps) path (cons h hs) f = cons h (AllFound-push g targets ps path hs f)

-- The paths so far are right, and no more than were asked for.
pub record IsRight (g : Graph) (targets : List ℕ) (st : Search) : Type 0 where
  pub all_found : AllFound g targets st.found
  pub few : 0 < g.limits.max_paths → length st.found ≤ g.limits.max_paths

-- A call along an edge keeps what was found right.
abbrev pub Keeps :
    Graph → List ℕ → ℕ → List EdgeRef → List ℕ → (EdgeRef → Search → Flags × Search) → Type 0
Keeps g targets node path nodes go =
    (e : EdgeRef) (st : Search)
    → In e (g.callers_of node)
    → g.filter e ≡ true
    → Allowed g.cycles e path nodes
    → suc (length path) ≤ g.limits.max_depth
    → IsRight g targets st
    → IsRight g targets (go e st).1

-- What it takes to go on along an edge.
pub follow-inv :
    (g : Graph) (depth : ℕ) (path : List EdgeRef) (nodes : List ℕ) (e : EdgeRef)
    → 0 < g.limits.max_depth
    → turn_of g depth path nodes e ≡ follow
    → (g.filter e ≡ true) × Allowed g.cycles e path nodes × (suc depth ≤ g.limits.max_depth)
unfolding turn_of
follow-inv g depth path nodes e positive h = elim (Bool-cases (g.filter e)) [
  | inr f ↦ cc (rw f at h)
  | inl f ↦ elim (Option-cases (get e.caller g.min_from_start)) [
    | inl none_yet ↦ cc (rw (f, none_yet, turn_of) at h)
    | inr (d, at_d) ↦
        elim (Bool-cases
          (not (g.limits.max_depth == 0) && ltb g.limits.max_depth (d + depth + 1))) [
            | inl deep ↦ cc (rw (f, at_d, turn_of, deep) at h)
            | inr fits ↦ elim (Bool-cases (is_excluded g.cycles e path nodes)) [
              | inl out ↦ cc (rw (f, at_d, turn_of, fits, out) at h)
              | inr allowed ↦ (f, allowed, ground arith)
            ]
          ]
  ]
]

pub Turn-cases : (t : Turn) → (t ≡ skip) ⊎ ((t ≡ too_deep) ⊎ ((t ≡ excluded) ⊎ (t ≡ follow)))
Turn-cases skip = inl refl
Turn-cases too_deep = inr (inl refl)
Turn-cases excluded = inr (inr (inl refl))
Turn-cases follow = inr (inr (inr refl))
