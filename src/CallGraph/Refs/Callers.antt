-- ===== src/CallGraph/Refs/Callers.antt =====
-- callerRefsOf shows exactly the calls to its node.
use vycor_cpp.Prelude.{
  ℕ, ◌≡◌, ◌↔◌, refl, sym, ap, subst, ◌∙◌, inl, inr, Bool, true, ◌&&◌, ◌||◌, List, [], ◌==◌,
  Bool-cases, arith,
}
use vycor_cpp.CallGraph.Maps.{bucket, mem}
use vycor_cpp.CallGraph.Edges.{StoredEdge}
use vycor_cpp.CallGraph.Edges.Invariant.{some-eq}
use vycor_cpp.CallGraph.Relations.{transitive_closure}
use vycor_cpp.CallGraph.Relations.Closure.{transitive_closure_lem}
use vycor_cpp.CallGraph.Relations.Reverse.{Reaches-iff}
use vycor_cpp.CallGraph.Refs.{
  Links, Gather, has_pair, is_shown, is_dispatch, is_deferred, joined_kind, ref_to, show_caller,
  offer_dispatch, offer_deferred, caller_refs_of, for_edges, for_nodes,
}
use vycor_cpp.CallGraph.Refs.Gathers.{
  any, any_at, any_in, Adds, IsKept, offer-Adds, keep-mark-Adds, skip-Adds, for_edges-Adds,
  for_nodes-Adds, any_at→, any_at-intro, any_in→, any_in-intro,
}
use vycor_cpp.CallGraph.Refs.Callees.{comes_from, IsWoven, How, How-live, Calls, either}

module _ (l : Links) (caller callee site : ℕ) where
  -- An edge that passes the test `live` and leaves the caller at the site.
  at_site : (StoredEdge → Bool) → StoredEdge → Bool
  at_site live se = live se && (se.caller == caller && se.call_site == site)

  show_caller-Adds :
      (se : StoredEdge) (g : Gather)
      → IsKept caller site (comes_from caller site) g
      → Adds caller site (comes_from caller site) (at_site is_shown se) g (show_caller se g)
  unfolding show_caller at_site
  show_caller-Adds se g kept = elim (Bool-cases (is_shown se)) [
    | inr e ↦ rw e (skip-Adds caller site (comes_from caller site) g kept)
    | inl e ↦ rw e (
        unfold comes_from ref_to in
        keep-mark-Adds caller site (comes_from caller site) se.caller se.call_site
          (ref_to se.callee se.kind se) g refl kept)
  ]

  offer_dispatch-Adds :
      (se : StoredEdge) (g : Gather)
      → IsKept caller site (comes_from caller site) g
      → Adds caller site
          (comes_from caller site)
          (at_site is_dispatch se)
          g
          (offer_dispatch callee se g)
  unfolding offer_dispatch at_site
  offer_dispatch-Adds se g kept = elim (Bool-cases (is_dispatch se)) [
    | inr e ↦ rw e (skip-Adds caller site (comes_from caller site) g kept)
    | inl e ↦ rw e (
        offer-Adds caller site (comes_from caller site) se.caller se.call_site
          (ref_to callee se.kind se) g (unfold comes_from ref_to in refl) kept)
  ]

  offer_deferred-Adds :
      (se : StoredEdge) (g : Gather)
      → IsKept caller site (comes_from caller site) g
      → Adds caller site
          (comes_from caller site)
          (at_site is_deferred se)
          g
          (offer_deferred callee se g)
  unfolding offer_deferred at_site
  offer_deferred-Adds se g kept = elim (Bool-cases (is_deferred se)) [
    | inr e ↦ rw e (skip-Adds caller site (comes_from caller site) g kept)
    | inl e ↦ rw e (
        offer-Adds caller site (comes_from caller site) se.caller se.call_site
          (ref_to callee (joined_kind se.exec_context) se) g (unfold comes_from ref_to in refl)
          kept)
  ]

  abbrev bases : List ℕ
  bases = transitive_closure callee l.overrides.reverse

  abbrev returners : List ℕ
  returners = bucket callee l.returns.reverse

  caller_refs_of-any :
      any (comes_from caller site) (caller_refs_of callee l)
      ≡ (any_at (at_site is_shown) l.store.edges (bucket callee l.store.in_edges)
          || any_in (at_site is_dispatch) l.store bases)
        || any_in (at_site is_deferred) l.store returners
  unfolding caller_refs_of has_pair any
  caller_refs_of-any =
      let edges = l.store.edges in
      let none_yet : Gather = record { result = []; seen = [] } in
      let g = for_edges show_caller edges (bucket callee l.store.in_edges) none_yet in
      let h = for_nodes (offer_dispatch callee) l.store bases g in
      let first : Adds caller site (comes_from caller site)
          (any_at (at_site is_shown) edges (bucket callee l.store.in_edges)) none_yet g =
        for_edges-Adds caller site (comes_from caller site) show_caller (at_site is_shown) edges
          show_caller-Adds (bucket callee l.store.in_edges) none_yet (λ e. cc e) in
      let second : Adds caller site (comes_from caller site)
          (any_in (at_site is_dispatch) l.store bases) g h =
        for_nodes-Adds caller site (comes_from caller site) (offer_dispatch callee)
          (at_site is_dispatch) l.store offer_dispatch-Adds bases g first.0 in
      let third =
        for_nodes-Adds caller site (comes_from caller site) (offer_deferred callee)
          (at_site is_deferred) l.store offer_deferred-Adds returners h second.0 in
      third.1
      ∙ ap (λ b. b || any_in (at_site is_deferred) l.store returners)
          (second.1 ∙ ap (λ b. b || any_in (at_site is_dispatch) l.store bases) first.1)

  at_site→ :
      (live : StoredEdge → Bool) (se : StoredEdge)
      → at_site live se ≡ true
      → (live se ≡ true) × (se.caller ≡ caller) × (se.call_site ≡ site)
  unfolding at_site
  at_site→ live se h = (ground arith, ground arith, ground arith)

  at_site-intro :
      (live : StoredEdge → Bool) (se : StoredEdge)
      → live se ≡ true
      → se.caller ≡ caller
      → se.call_site ≡ site
      → at_site live se ≡ true
  unfolding at_site
  at_site-intro live se h e p = ground arith

  module _ (woven : IsWoven l) where
    -- The closures in the two directions fit.
    override_iff :
        (base : ℕ)
        → mem base bases ≡ true ↔ (mem callee (transitive_closure base l.overrides.forward) ≡ true)
    override_iff base =
        let up = transitive_closure_lem callee l.overrides.reverse base in
        let down = transitive_closure_lem base l.overrides.forward callee in
        let both = Reaches-iff l.overrides woven.overrides_reversed base callee in
        (
          λ h. down.1 ((λ e. (up.0 h).0 (sym e)), both.1 (up.0 h).1),
          λ h. up.1 ((λ e. (down.0 h).0 (sym e)), both.0 (down.0 h).1),
        )

    call_of :
        (node : ℕ) (live : StoredEdge → Bool)
        → ((se : StoredEdge) → live se ≡ true → se.callee ≡ node → How l callee se)
        → any_at (at_site live) l.store.edges (bucket node l.store.in_edges) ≡ true
        → Calls l caller callee site
    call_of node live meaning h =
        let (i, se, m, e, k) =
          any_at→ (at_site live) l.store.edges (bucket node l.store.in_edges) h in
        let (d, at_i, to_node) = woven.linked.entered node i m in
        let (is_live, from, place) = at_site→ live se k in
        record {
          idx = i;
          edge = se;
          at_idx = e;
          from = from;
          place = place;
          how =
              meaning se is_live
                (ap (λ (z : StoredEdge). z.callee) (some-eq (sym e ∙ at_i)) ∙ to_node);
        }

    pub caller_refs_of_sound :
        any (comes_from caller site) (caller_refs_of callee l) ≡ true → Calls l caller callee site
    caller_refs_of_sound h = elim (either _ _ (sym caller_refs_of-any ∙ h)) [
      | inl first_two ↦ elim (either _ _ first_two) [
        | inl x ↦ call_of callee is_shown (λ se live to. inl (live, to)) x
        | inr x ↦
            let (base, m, y) = any_in→ (at_site is_dispatch) l.store bases x in
            call_of base is_dispatch
              (λ se live to. inr (
                inl
                  (live, (override_iff se.callee).0 (subst (λ z. mem z bases ≡ true) (sym to) m))))
              y
      ]
      | inr x ↦
          let (fn, m, y) = any_in→ (at_site is_deferred) l.store returners x in
          call_of fn is_deferred
            (λ se live to. inr (
              inr (
                live,
                woven.returns_reversed se.callee callee
                    ∙ subst (λ z. mem z returners ≡ true) (sym to) m,
              )))
            y
    ]

    pub caller_refs_of_complete :
        Calls l caller callee site → any (comes_from caller site) (caller_refs_of callee l) ≡ true
    caller_refs_of_complete c = caller_refs_of-any ∙ by_how c.how
      where
        found_by :
            (live : StoredEdge → Bool)
            → live c.edge ≡ true
            → any_at (at_site live) l.store.edges (bucket c.edge.callee l.store.in_edges) ≡ true
        found_by live k =
            any_at-intro (at_site live) l.store.edges (bucket c.edge.callee l.store.in_edges) c.idx
              c.edge (woven.linked.entering c.idx c.edge c.at_idx (How-live l callee c.edge c.how))
              c.at_idx (at_site-intro live c.edge k c.from c.place)

        by_how :
            How l callee c.edge
            → (any_at (at_site is_shown) l.store.edges (bucket callee l.store.in_edges)
                  || any_in (at_site is_dispatch) l.store bases)
                || any_in (at_site is_deferred) l.store returners
              ≡ true
        by_how (inl (h, e)) =
            let here =
              subst
                (λ z. any_at (at_site is_shown) l.store.edges (bucket z l.store.in_edges) ≡ true) e
                (found_by is_shown h) in
            ground (arith, here)
        by_how (inr (inl (h, m))) = ground (
          arith,
          any_in-intro (at_site is_dispatch) l.store bases c.edge.callee
              ((override_iff c.edge.callee).1 m) (found_by is_dispatch h),
        )
        by_how (inr (inr (h, m))) = ground (
          arith,
          any_in-intro (at_site is_deferred) l.store returners c.edge.callee
              (sym (woven.returns_reversed c.edge.callee callee) ∙ m) (found_by is_deferred h),
        )
