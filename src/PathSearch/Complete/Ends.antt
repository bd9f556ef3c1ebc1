-- ===== src/PathSearch/Complete/Ends.antt =====
-- A call of dfs and the whole search.
use vycor_cpp.Prelude.{
  ℕ, zero, suc, ◌+◌, ◌≤◌, ◌<◌, ◌≡◌, refl, sym, subst, inl, inr, true, false, not, ◌&&◌, ◌||◌, some,
  List, [], ◌∷◌, length, ltb, leb, ◌==◌, ==_iff, Bool-cases, Option-cases, if-intro, arith,
}
use vycor_cpp.CallGraph.Maps.{get, get-put, mem}
use vycor_cpp.CallGraph.Refs.{EdgeRef}
use vycor_cpp.PathSearch.{
  Graph, simple_nodes, Search, new_search, Flags, path_limit_hit, is_excluded, bury, is_dead,
  visit_node, dfs, search_targets,
}
use vycor_cpp.PathSearch.Chains.{CallPath, here, hop}
use vycor_cpp.PathSearch.Complete.{Has, stopped, Up, Leads, ends, goes, Leads-Up, DeadSound, Done}
use vycor_cpp.PathSearch.Complete.Visits.{visit_node-Done}

module _ (g : Graph) (simple : g.cycles ≡ simple_nodes) (positive : 0 < g.limits.max_depth)
    (corridor : (n : ℕ) → Up g n → (d : ℕ) × (get n g.min_from_start ≡ some d)) where
  bury-DeadSound :
      (node depth : ℕ) (st : Search)
      → ¬ Up g node
      → DeadSound g st
      → DeadSound g (bury node depth st)
  unfolding bury
  bury-DeadSound node depth st away ok n d h = elim (Bool-cases (n == node)) [
    | inl e ↦ subst (λ z. ¬ Up g z) (sym ((==_iff n node).0 e)) away
    | inr e ↦ elim (Option-cases (get node st.dead_at)) [
      | inl fresh ↦ ok n d (rw (fresh, bury, get-put n node depth st.dead_at, e) at h)
      | inr (old, at_old) ↦ elim (Bool-cases (ltb depth old)) [
        | inl less ↦ ok n d (rw (at_old, bury, less, get-put n node depth st.dead_at, e) at h)
        | inr more ↦ ok n d (rw (at_old, bury, more) at h)
      ]
    ]
  ]

  buried-Done :
      (path : List EdgeRef) (node : ℕ) (nodes : List ℕ) (st : Search) (flags : Flags) (st' : Search)
      → flags.is_found || flags.is_blocked ≡ false
      → Done g path node nodes st (flags, st')
      → Done g path node nodes st (flags, bury node (length path) st')
  unfolding bury
  buried-Done path node nodes st flags st' none_set done = record {
    stays = done.stays;
    grows = done.grows;
    good = λ ok. elim (done.good ok) [
      | inl cut ↦ inl cut
      | inr a ↦ inr (record {
        dead = λ long.
            bury-DeadSound node (length path) st'
              (a.barren (ground (arith, none_set)) (ground (arith, none_set)) long) (a.dead long);
        whole = a.whole;
        barren = a.barren;
      })
    ];
  }

  dead-Up :
      (node depth : ℕ) (st : Search) → is_dead node depth st ≡ true → DeadSound g st → ¬ Up g node
  unfolding is_dead
  dead-Up node depth st h ok = elim (Option-cases (get node st.dead_at)) [
    | inl e ↦ cc (rw (e, is_dead) at h)
    | inr (d, e) ↦ ok node d e
  ]

  pub dfs-Done :
      (fuel : ℕ) (path : List EdgeRef) (node : ℕ) (above : List ℕ) (st : Search)
      → length path ≤ g.limits.max_depth
      → g.limits.max_depth < length path + fuel
      → Done g path node (node ∷ above) st (dfs fuel g node (length path) path above st)
  unfolding dfs
  dfs-Done zero path node above st fits enough = absurd (omega arith)
  dfs-Done (suc fuel) path node above st fits enough =
      let counted : Search = record st { expansions = st.expansions + 1 } in
      let go = λ (e : EdgeRef) (s : Search).
        dfs fuel g e.caller (suc (length path)) (e ∷ path) (node ∷ above) s in
      let D = Done g path node (node ∷ above) st in
      if-intro (Done g path node (node ∷ above) st) (path_limit_hit g.limits st)
        (λ full. record { stays = λ h. refl; grows = λ p h. h; good = λ ok. inl refl })
        (λ open_limit.
          if-intro (Done g path node (node ∷ above) st)
            (not (g.limits.max_work == 0) && leb g.limits.max_work st.expansions)
            (λ spent. record {
              stays = λ h. ground arith;
              grows = λ p h. h;
              good = λ ok. inl (ground arith);
            })
            (λ more.
              if-intro (Done g path node (node ∷ above) st) (is_dead node (length path) counted)
                (λ dead. record {
                  stays = λ h. h;
                  grows = λ p h. h;
                  good = λ ok.
                      let away = dead-Up node (length path) counted dead ok in
                      inr (record {
                        dead = λ h. ok;
                        whole = λ full s leads start long. absurd (away (Leads-Up g leads start));
                        barren = λ f b h. away;
                      });
                })
                (λ alive.
                  let r = visit_node go g node (length path) path (node ∷ above) counted in
                  let done =
                    visit_node-Done g simple positive corridor path node (node ∷ above) go counted
                      (λ e s deeper.
                        dfs-Done fuel (e ∷ path) e.caller (node ∷ above) s deeper (omega arith)) in
                  if-intro (λ st'. Done g path node (node ∷ above) st (r.0, st'))
                    (r.0.is_found || r.0.is_blocked)
                    (λ h. record { stays = done.stays; grows = done.grows; good = done.good })
                    (λ h.
                      buried-Done path node (node ∷ above) st r.0 r.1 h
                        (record { stays = done.stays; grows = done.grows; good = done.good })))))

  CallPath-Leads :
      {target : ℕ} {full : List EdgeRef} {s : ℕ} {path : List EdgeRef} {nodes : List ℕ}
      → CallPath g target path nodes
      → ((node : ℕ) (rest : List ℕ) → nodes ≡ node ∷ rest → Leads g full s path node nodes)
      → Leads g full s [] target (target ∷ [])
  unfolding is_excluded
  CallPath-Leads here on = on _ [] refl
  CallPath-Leads {full = full} {s = s}
        (hop {path = path} {node = node} {nodes = nodes} e calls k pass allowed) on =
      let free : mem e.caller (node ∷ nodes) ≡ false = rw (simple, is_excluded) at allowed in
      CallPath-Leads calls (λ n rest same.
        subst (λ z. Leads g full s path z (node ∷ nodes)) (cc same)
          (goes e k pass free (on e.caller (node ∷ nodes) refl)))

  new_search-DeadSound : DeadSound g new_search
  unfolding get
  new_search-DeadSound n k h = cc h

  -- The whole search from one target.
  pub search_targets-Has :
      (t : ℕ) (full : List EdgeRef) (s : ℕ) (nodes : List ℕ)
      → stopped (search_targets g (t ∷ []) new_search) ≡ false
      → CallPath g t full (s ∷ nodes)
      → mem s g.starts ≡ true
      → 0 < length full
      → Has full (search_targets g (t ∷ []) new_search).found
  unfolding search_targets path_limit_hit
  search_targets-Has t full s nodes free calls start long =
      let leads : Leads g full s [] t (t ∷ []) =
        CallPath-Leads calls
          (λ n rest same. subst (λ z. Leads g full s full z (s ∷ nodes)) (cc same) ends) in
      let begun : path_limit_hit g.limits new_search ≡ false = ground arith in
      let (d, at_t) = corridor t (Leads-Up g leads start) in
      let done = dfs-Done (suc g.limits.max_depth) [] t [] new_search (omega arith) (omega arith) in
      let claim : stopped (search_targets g (t ∷ []) new_search) ≡ false
          → Has full (search_targets g (t ∷ []) new_search).found =
        rw (begun, search_targets, at_t)
          (if-intro (λ st. stopped st ≡ false → Has full st.found)
            (not (g.limits.max_depth == 0) && ltb g.limits.max_depth d)
            (λ deep f. absurd (ground (arith, f)))
            (λ near f. elim (done.good new_search-DeadSound) [
              | inl cut ↦ cc (cut, f)
              | inr a ↦ a.whole full s leads start long
            ])) in
      claim free
