-- ===== src/PathSearch/Fuel.antt =====
-- The fuel of the search is enough: with more of it nothing changes.
use vycor_cpp.Prelude.{
  ℕ, zero, suc, ◌+◌, ◌≤◌, ◌<◌, ◌≡◌, refl, sym, ap, ◌∙◌, inl, inr, true, not, ◌&&◌, ◌||◌, List, [],
  ◌∷◌, length, ltb, leb, ◌==◌, if◌then◌else◌, arith,
}
use vycor_cpp.CallGraph.Maps.{put}
use vycor_cpp.CallGraph.Refs.{EdgeRef}
use vycor_cpp.PathSearch.{
  Graph, Search, Flags, no_flags, blocked, both_flags, path_limit_hit, corridor_caller, turn_of,
  expand, record_path, bury, is_dead, visit_node, dfs,
}
use vycor_cpp.PathSearch.Chains.{Turn-cases, follow-inv}

module _ (g : Graph) (positive : 0 < g.limits.max_depth) (depth : ℕ)
    (go go' : EdgeRef → Search → Flags × Search)
    (same : (e : EdgeRef) (s : Search) → suc depth ≤ g.limits.max_depth → go e s ≡ go' e s) where
  expand_same :
      (path : List EdgeRef) (nodes : List ℕ) (es : List EdgeRef) (flags : Flags) (st : Search)
      → expand go g depth path nodes es flags st ≡ expand go' g depth path nodes es flags st
  unfolding expand
  expand_same path nodes [] flags st = refl
  expand_same path nodes (e ∷ es) flags st = elim (Turn-cases (turn_of g depth path nodes e)) [
    | inl t ↦ rw (t, expand) (expand_same path nodes es flags st)
    | inr (inl t) ↦
        rw (t, expand) (expand_same path nodes es flags (record st { depth_stop = true }))
    | inr (inr (inl t)) ↦ rw (t, expand) (expand_same path nodes es (both_flags flags blocked) st)
    | inr (inr (inr t)) ↦
        let fits = (follow-inv g depth path nodes e positive t).2 in
        rw (t, expand, same e st fits)
          (ap
            (λ (z : Flags × Search).
              if path_limit_hit g.limits (go' e st).1
              then (
                both_flags (both_flags flags (go' e st).0) blocked,
                record (go' e st).1 { truncated = (go' e st).1.truncated || not (length es == 0) },
              )
              else z)
            (expand_same path nodes es (both_flags flags (go' e st).0) (go' e st).1))
  ]

  visit_node_same :
      (node : ℕ) (path : List EdgeRef) (nodes : List ℕ) (st : Search)
      → visit_node go g node depth path nodes st ≡ visit_node go' g node depth path nodes st
  unfolding visit_node
  visit_node_same node path nodes st =
      let r = record_path g node depth path st in
      ap
        (λ (z : Flags × Search).
          if not (g.limits.max_fan_in == 0)
            && ltb 0 depth
            && ltb g.limits.max_fan_in (g.stored_in_degree node)
          then (
            r.0,
            record r.1 { hubs = put node (g.stored_in_degree node) r.1.hubs; hub_stop = true },
          )
          else if not (g.limits.max_depth == 0) && leb g.limits.max_depth depth
          then (
            r.0,
            record r.1 { depth_stop = r.1.depth_stop || corridor_caller g (g.callers_of node) },
          )
          else if path_limit_hit g.limits r.1
          then (
            both_flags r.0 blocked,
            record r.1 { truncated = r.1.truncated || corridor_caller g (g.callers_of node) },
          )
          else z)
        (expand_same path nodes (g.callers_of node) r.0 r.1)

pub dfs-suc :
    (fuel : ℕ) (g : Graph) (node depth : ℕ) (path : List EdgeRef) (above : List ℕ) (st : Search)
    → 0 < g.limits.max_depth
    → depth ≤ g.limits.max_depth
    → g.limits.max_depth < depth + fuel
    → dfs fuel g node depth path above st ≡ dfs (suc fuel) g node depth path above st
unfolding dfs
dfs-suc zero g node depth path above st positive fits enough = absurd (omega arith)
dfs-suc (suc fuel) g node depth path above st positive fits enough =
    let counted : Search = record st { expansions = st.expansions + 1 } in
    ap
      (λ (z : Flags × Search).
        if path_limit_hit g.limits st
        then (blocked, record st { truncated = true })
        else if not (g.limits.max_work == 0) && leb g.limits.max_work st.expansions
        then (blocked, record st { work_stop = true })
        else if is_dead node depth counted
        then (no_flags, counted)
        else (z.0, if z.0.is_found || z.0.is_blocked then z.1 else bury node depth z.1))
      (visit_node_same g positive depth
        (λ e s. dfs fuel g e.caller (suc depth) (e ∷ path) (node ∷ above) s)
        (λ e s. dfs (suc fuel) g e.caller (suc depth) (e ∷ path) (node ∷ above) s)
        (λ e s deeper.
          dfs-suc fuel g e.caller (suc depth) (e ∷ path) (node ∷ above) s positive deeper
            (omega arith))
        node path (node ∷ above) counted)

-- With a depth limit, the search from a target calls itself no deeper than the limit: more fuel than
-- one more than the limit changes neither what it returns nor its state.
pub dfs_fuel :
    (more : ℕ) (g : Graph) (target : ℕ) (st : Search)
    → 0 < g.limits.max_depth
    → dfs (more + suc g.limits.max_depth) g target 0 [] [] st
      ≡ dfs (suc g.limits.max_depth) g target 0 [] [] st
dfs_fuel zero g target st positive =
    let plain : 0 + suc g.limits.max_depth ≡ suc g.limits.max_depth = omega arith in
    ap (λ f. dfs f g target 0 [] [] st) plain
dfs_fuel (suc more) g target st positive =
    let moved : suc more + suc g.limits.max_depth ≡ suc (more + suc g.limits.max_depth) =
      omega arith in
    ap (λ f. dfs f g target 0 [] [] st) moved
    ∙ sym (
        dfs-suc (more + suc g.limits.max_depth) g target 0 [] [] st positive (omega arith)
          (omega arith))
    ∙ dfs_fuel more g target st positive
