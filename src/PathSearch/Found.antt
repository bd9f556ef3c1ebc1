-- ===== src/PathSearch/Found.antt =====
-- What the search finds: paths of admitted edges from a start to the target, within the limits.
use vycor_cpp.Prelude.{
  ℕ, zero, suc, ◌+◌, ◌≤◌, ◌<◌, ◌≡◌, refl, sym, subst, inl, inr, true, false, not, ◌&&◌, ◌||◌, List,
  [], ◌∷◌, length, length-append, ltb, leb, ◌==◌, Bool-cases, Option-cases, if-intro, arith,
}
use vycor_cpp.CallGraph.Maps.{get, mem}
use vycor_cpp.CallGraph.Refs.{EdgeRef}
use vycor_cpp.PathSearch.{
  Graph, SearchLimits, Search, new_search, Flags, blocked, both_flags, path_limit_hit, turn_of,
  expand, record_path, bury, is_dead, visit_node, dfs, search_targets, capped,
  path_search_depth_cap, ready, find_paths,
}
use vycor_cpp.PathSearch.Chains.{
  In, first, later, CallPath, here, hop, AllFound, nil, AllFound-push, IsRight, Keeps, follow-inv,
  Turn-cases,
}

-- Only the paths count.
same_found :
    (g : Graph) (targets : List ℕ) (st : Search) {st' : Search}
    → IsRight g targets st
    → st'.found ≡ st.found
    → IsRight g targets st'
same_found g targets st inv e = record {
  all_found = subst (AllFound g targets) (sym e) inv.all_found;
  few = λ h. subst (λ (l : List (List EdgeRef)). length l ≤ g.limits.max_paths) (sym e) (inv.few h);
}

module _ (g : Graph) (targets : List ℕ) (positive : 0 < g.limits.max_depth) where
  expand-IsRight :
      (go : EdgeRef → Search → Flags × Search) (node : ℕ) (path : List EdgeRef) (nodes : List ℕ)
      (es : List EdgeRef) (flags : Flags) (st : Search)
      → Keeps g targets node path nodes go
      → ((e : EdgeRef) → In e es → In e (g.callers_of node))
      → IsRight g targets st
      → IsRight g targets (expand go g (length path) path nodes es flags st).1
  unfolding expand
  expand-IsRight go node path nodes [] flags st keeps inside inv = inv
  expand-IsRight go node path nodes (e ∷ es) flags st keeps inside inv =
      elim (Turn-cases (turn_of g (length path) path nodes e)) [
        | inl t ↦
            rw (t, expand)
              (expand-IsRight go node path nodes es flags st keeps (λ d h. inside d (later h)) inv)
        | inr (inl t) ↦
            rw (t, expand)
              (expand-IsRight go node path nodes es flags (record st { depth_stop = true }) keeps
                (λ d h. inside d (later h)) (same_found g targets st inv refl))
        | inr (inr (inl t)) ↦
            rw (t, expand)
              (expand-IsRight go node path nodes es (both_flags flags blocked) st keeps
                (λ d h. inside d (later h)) inv)
        | inr (inr (inr t)) ↦
            let (passes, allowed, fits) = follow-inv g (length path) path nodes e positive t in
            let after = keeps e st (inside e first) passes allowed fits inv in
            rw (t, expand)
              (if-intro (λ (r : Flags × Search). IsRight g targets r.1)
                (path_limit_hit g.limits (go e st).1)
                (λ full. same_found g targets (go e st).1 after refl)
                (λ open_limit.
                  expand-IsRight go node path nodes es (both_flags flags (go e st).0) (go e st).1
                    keeps (λ d h. inside d (later h)) after))
      ]

  record_path-IsRight :
      (node : ℕ) (target : ℕ) (path : List EdgeRef) (above : List ℕ) (st : Search)
      → mem target targets ≡ true
      → CallPath g target path (node ∷ above)
      → length path ≤ g.limits.max_depth
      → path_limit_hit g.limits st ≡ false
      → IsRight g targets st
      → IsRight g targets (record_path g node (length path) path st).1
  unfolding record_path path_limit_hit
  record_path-IsRight node target path above st aimed calls short open_limit inv =
      if-intro (λ (r : Flags × Search). IsRight g targets r.1)
        (mem node g.starts && ltb 0 (length path))
        (λ h. record {
          all_found = AllFound-push g targets st.found path inv.all_found (record {
            target = target;
            aimed = aimed;
            start = node;
            nodes = above;
            calls = calls;
            started = ground arith;
            some_edge = ground arith;
            short = short;
          });
          few = λ k. ground (arith, length-append st.found (path ∷ []));
        })
        (λ h. inv)

  visit_node-IsRight :
      (go : EdgeRef → Search → Flags × Search) (node target : ℕ) (path : List EdgeRef)
      (above : List ℕ) (st : Search)
      → Keeps g targets node path (node ∷ above) go
      → mem target targets ≡ true
      → CallPath g target path (node ∷ above)
      → length path ≤ g.limits.max_depth
      → path_limit_hit g.limits st ≡ false
      → IsRight g targets st
      → IsRight g targets (visit_node go g node (length path) path (node ∷ above) st).1
  unfolding visit_node
  visit_node-IsRight go node target path above st keeps aimed calls short open_limit inv =
      let r = record_path g node (length path) path st in
      let after = record_path-IsRight node target path above st aimed calls short open_limit inv in
      if-intro (λ (q : Flags × Search). IsRight g targets q.1)
        (not (g.limits.max_fan_in == 0)
          && ltb 0 (length path)
          && ltb g.limits.max_fan_in (g.stored_in_degree node))
        (λ h. same_found g targets r.1 after refl)
        (λ h.
          if-intro (λ (q : Flags × Search). IsRight g targets q.1)
            (not (g.limits.max_depth == 0) && leb g.limits.max_depth (length path))
            (λ k. same_found g targets r.1 after refl)
            (λ k.
              if-intro (λ (q : Flags × Search). IsRight g targets q.1) (path_limit_hit g.limits r.1)
                (λ full. same_found g targets r.1 after refl)
                (λ more.
                  expand-IsRight go node path (node ∷ above) (g.callers_of node) r.0 r.1 keeps
                    (λ e i. i) after)))

  dfs-IsRight :
      (fuel node target : ℕ) (path : List EdgeRef) (above : List ℕ) (st : Search)
      → mem target targets ≡ true
      → CallPath g target path (node ∷ above)
      → length path ≤ g.limits.max_depth
      → IsRight g targets st
      → IsRight g targets (dfs fuel g node (length path) path above st).1
  unfolding dfs path_limit_hit
  dfs-IsRight zero node target path above st aimed calls short inv = inv
  dfs-IsRight (suc fuel) node target path above st aimed calls short inv =
      let counted : Search = record st { expansions = st.expansions + 1 } in
      let go = λ (e : EdgeRef) (s : Search).
        dfs fuel g e.caller (suc (length path)) (e ∷ path) (node ∷ above) s in
      if-intro (λ (q : Flags × Search). IsRight g targets q.1) (path_limit_hit g.limits st)
        (λ full. same_found g targets st inv refl)
        (λ open_limit.
          if-intro (λ (q : Flags × Search). IsRight g targets q.1)
            (not (g.limits.max_work == 0) && leb g.limits.max_work st.expansions)
            (λ spent. same_found g targets st inv refl)
            (λ more.
              if-intro (λ (q : Flags × Search). IsRight g targets q.1)
                (is_dead node (length path) counted) (λ dead. same_found g targets st inv refl)
                (λ alive.
                  let after =
                    visit_node-IsRight go node target path above counted
                      (λ e s inside passes allowed fits right.
                        dfs-IsRight fuel e.caller target (e ∷ path) (node ∷ above) s aimed
                          (hop e calls inside passes allowed) fits right)
                      aimed calls short open_limit (same_found g targets st inv refl) in
                  let r = visit_node go g node (length path) path (node ∷ above) counted in
                  if-intro (IsRight g targets) (r.0.is_found || r.0.is_blocked) (λ h. after)
                    (λ h. same_found g targets r.1 after (unfold bury in refl)))))

  search_targets-IsRight :
      (ts : List ℕ) (st : Search)
      → ((t : ℕ) → mem t ts ≡ true → mem t targets ≡ true)
      → IsRight g targets st
      → IsRight g targets (search_targets g ts st)
  unfolding search_targets mem
  search_targets-IsRight [] st among inv = inv
  search_targets-IsRight (t ∷ ts) st among inv = elim (Bool-cases (path_limit_hit g.limits st)) [
    | inl full ↦ rw (full, search_targets) (same_found g targets st inv refl)
    | inr more ↦ elim (Option-cases (get t g.min_from_start)) [
      | inl e ↦
          rw (more, search_targets, e)
            (search_targets-IsRight ts st (λ x h. among x (ground arith)) inv)
      | inr (d, e) ↦
          rw (more, search_targets, e)
            (if-intro (IsRight g targets)
              (not (g.limits.max_depth == 0) && ltb g.limits.max_depth d)
              (λ deep.
                search_targets-IsRight ts (record st { depth_stop = true })
                  (λ x h. among x (ground arith)) (same_found g targets st inv refl))
              (λ fits.
                search_targets-IsRight ts (dfs (suc g.limits.max_depth) g t 0 [] [] st).1
                  (λ x h. among x (ground arith))
                  (dfs-IsRight (suc g.limits.max_depth) t t [] [] st (among t (ground arith)) here
                    (omega arith) inv)))
    ]
  ]

search_targets_lem :
    (g : Graph) (ts : List ℕ)
    → 0 < g.limits.max_depth
    → IsRight g ts (search_targets g ts new_search)
search_targets_lem g ts positive =
    search_targets-IsRight g ts positive ts new_search (λ t h. h)
      (record { all_found = nil; few = λ h. omega arith })

capped-positive : (limits : SearchLimits) → 0 < (capped limits).max_depth
unfolding capped
capped-positive limits = ground arith

-- Every path that the search returns is a non-empty chain of admitted calls from a start to a
-- target, each among the callers that the graph shows, that obeys the cycle rule; no path is longer
-- than the depth limit in use, which is at most the cap; and there are no more of them than the path
-- limit.
pub find_paths-IsRight :
    (callees_of : ℕ → List EdgeRef) (rounds : ℕ) (g : Graph) (ts : List ℕ)
    → IsRight (ready callees_of rounds g) ts (find_paths callees_of rounds g ts)
      × ((ready callees_of rounds g).limits.max_depth ≤ path_search_depth_cap)
unfolding find_paths ready capped
find_paths-IsRight callees_of rounds g ts =
    (search_targets_lem (ready callees_of rounds g) ts (capped-positive g.limits), ground arith)
