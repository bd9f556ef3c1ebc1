-- ===== src/CallGraph/Refs/Callees.antt =====
-- calleeRefsOf shows exactly the calls of its node.
use vycor_cpp.Prelude.{
  ℕ, ◌<◌, ◌≡◌, refl, sym, ap, subst, ◌∙◌, ◌⊎◌, inl, inr, Bool, true, ◌&&◌, ◌||◌, some, [], ◌==◌,
  Bool-cases, arith,
}
use vycor_cpp.CallGraph.Maps.{bucket, get_elem?, mem}
use vycor_cpp.CallGraph.Edges.{StoredEdge}
use vycor_cpp.CallGraph.Edges.Invariant.{IsLinked, some-eq}
use vycor_cpp.CallGraph.Relations.{transitive_closure}
use vycor_cpp.CallGraph.Relations.Reverse.{IsReversed}
use vycor_cpp.CallGraph.Refs.{
  EdgeRef, Links, Gather, has_pair, is_shown, is_dispatch, is_deferred, is_virtual, joined_kind,
  ref_to, show_callee, expand_dispatch, expand_returns, callee_refs_of, for_edges,
}
use vycor_cpp.CallGraph.Refs.Gathers.{
  any, any_at, Adds, IsKept, keep-Adds, keep-mark-Adds, skip-Adds, for_edges-Adds,
  offer_callees-Adds, any_at→, any_at-intro,
}

-- The references to a callee, and those from a caller, at a call site.
unfoldable pub goes_to : ℕ → ℕ → EdgeRef → Bool
goes_to callee site r = r.callee == callee && r.call_site == site

unfoldable pub comes_from : ℕ → ℕ → EdgeRef → Bool
comes_from caller site r = r.caller == caller && r.call_site == site

-- The links of the graph fit together.
pub record IsWoven (l : Links) : Type 0 where
  pub linked : IsLinked l.store
  pub overrides_reversed : IsReversed l.overrides
  pub returns_reversed : IsReversed l.returns

-- How a stored edge calls a function: as it is, by dynamic dispatch to an override of its callee, or
-- because its callee returns the function.
abbrev pub How : Links → ℕ → StoredEdge → Type 0
How l callee se =
    ((is_shown se ≡ true) × (se.callee ≡ callee))
    ⊎ (((is_dispatch se ≡ true)
          × (mem callee (transitive_closure se.callee l.overrides.forward) ≡ true))
        ⊎ ((is_deferred se ≡ true) × (mem callee (bucket se.callee l.returns.forward) ≡ true)))

pub either : (a b : Bool) → a || b ≡ true → (a ≡ true) ⊎ (b ≡ true)
either a b h = ground arith

-- A shown, dispatched or deferred edge is live.
pub How-live : (l : Links) (callee : ℕ) (se : StoredEdge) → How l callee se → 0 < se.refs
unfolding is_shown is_dispatch is_deferred
How-live l callee se (inl h) = ground arith
How-live l callee se (inr (inl h)) = ground arith
How-live l callee se (inr (inr h)) = ground arith

-- A stored edge that stands for this call: shown as it is, by dynamic dispatch to an override, or
-- through a function that returns the callee.
pub record Calls (l : Links) (caller callee site : ℕ) : Type 0 where
  pub idx : ℕ
  pub edge : StoredEdge
  pub at_idx : get_elem? l.store.edges idx ≡ some edge
  pub from : edge.caller ≡ caller
  pub place : edge.call_site ≡ site
  pub how : How l callee edge

module _ (l : Links) (caller callee site : ℕ) where
  shows : StoredEdge → Bool
  shows se = is_shown se && (se.callee == callee && se.call_site == site)

  dispatches : StoredEdge → Bool
  dispatches se =
      is_dispatch se
      && (mem callee (transitive_closure se.callee l.overrides.forward) && se.call_site == site)

  defers : StoredEdge → Bool
  defers se =
      is_deferred se && (mem callee (bucket se.callee l.returns.forward) && se.call_site == site)

  show_callee-Adds :
      (se : StoredEdge) (g : Gather)
      → IsKept callee site (goes_to callee site) g
      → Adds callee site (goes_to callee site) (shows se) g (show_callee se g)
  unfolding show_callee shows
  show_callee-Adds se g kept = elim (Bool-cases (is_shown se)) [
    | inr e ↦ rw e (skip-Adds callee site (goes_to callee site) g kept)
    | inl e ↦ elim (Bool-cases (is_virtual se.kind)) [
      | inl v ↦
          rw (e, v)
            (unfold goes_to ref_to in
              keep-mark-Adds callee site (goes_to callee site) se.callee se.call_site
                (ref_to se.callee se.kind se) g refl kept)
      | inr v ↦
          rw (e, v)
            (unfold goes_to ref_to in
              keep-Adds callee site (goes_to callee site) (ref_to se.callee se.kind se) g kept)
    ]
  ]

  expand_dispatch-Adds :
      (se : StoredEdge) (g : Gather)
      → IsKept callee site (goes_to callee site) g
      → Adds callee site (goes_to callee site) (dispatches se) g (expand_dispatch l.overrides se g)
  unfolding expand_dispatch dispatches
  expand_dispatch-Adds se g kept = elim (Bool-cases (is_dispatch se)) [
    | inr e ↦ rw e (skip-Adds callee site (goes_to callee site) g kept)
    | inl e ↦ rw e (
        offer_callees-Adds callee site (goes_to callee site) se.kind se
          (λ c. unfold goes_to ref_to in refl) (transitive_closure se.callee l.overrides.forward) g
          kept)
  ]

  expand_returns-Adds :
      (se : StoredEdge) (g : Gather)
      → IsKept callee site (goes_to callee site) g
      → Adds callee site (goes_to callee site) (defers se) g (expand_returns l.returns se g)
  unfolding expand_returns defers
  expand_returns-Adds se g kept = elim (Bool-cases (is_deferred se)) [
    | inr e ↦ rw e (skip-Adds callee site (goes_to callee site) g kept)
    | inl e ↦ rw e (
        offer_callees-Adds callee site (goes_to callee site) (joined_kind se.exec_context) se
          (λ c. unfold goes_to ref_to in refl) (bucket se.callee l.returns.forward) g kept)
  ]

  callee_refs_of-any :
      any (goes_to callee site) (callee_refs_of caller l)
      ≡ (any_at shows l.store.edges (bucket caller l.store.out_edges)
          || any_at dispatches l.store.edges (bucket caller l.store.out_edges))
        || any_at defers l.store.edges (bucket caller l.store.out_edges)
  unfolding callee_refs_of has_pair any
  callee_refs_of-any =
      let out = bucket caller l.store.out_edges in
      let edges = l.store.edges in
      let none_yet : Gather = record { result = []; seen = [] } in
      let g = for_edges show_callee edges out none_yet in
      let h = for_edges (expand_dispatch l.overrides) edges out g in
      let first : Adds callee site (goes_to callee site) (any_at shows edges out) none_yet g =
        for_edges-Adds callee site (goes_to callee site) show_callee shows edges show_callee-Adds
          out none_yet (λ e. cc e) in
      let second : Adds callee site (goes_to callee site) (any_at dispatches edges out) g h =
        for_edges-Adds callee site (goes_to callee site) (expand_dispatch l.overrides) dispatches
          edges expand_dispatch-Adds out g first.0 in
      let third =
        for_edges-Adds callee site (goes_to callee site) (expand_returns l.returns) defers edges
          expand_returns-Adds out h second.0 in
      third.1
      ∙ ap (λ b. b || any_at defers edges out)
          (second.1 ∙ ap (λ b. b || any_at dispatches edges out) first.1)

  shows-How : (se : StoredEdge) → shows se ≡ true → (se.call_site ≡ site) × How l callee se
  unfolding shows
  shows-How se k = (ground arith, inl (ground arith, ground arith))

  dispatches-How :
      (se : StoredEdge) → dispatches se ≡ true → (se.call_site ≡ site) × How l callee se
  unfolding dispatches
  dispatches-How se k = (ground arith, inr (inl (ground arith, ground arith)))

  defers-How : (se : StoredEdge) → defers se ≡ true → (se.call_site ≡ site) × How l callee se
  unfolding defers
  defers-How se k = (ground arith, inr (inr (ground arith, ground arith)))

  shows-intro :
      (se : StoredEdge)
      → is_shown se ≡ true
      → se.callee ≡ callee
      → se.call_site ≡ site
      → shows se ≡ true
  unfolding shows
  shows-intro se h e p = ground arith

  dispatches-intro :
      (se : StoredEdge)
      → is_dispatch se ≡ true
      → mem callee (transitive_closure se.callee l.overrides.forward) ≡ true
      → se.call_site ≡ site
      → dispatches se ≡ true
  unfolding dispatches
  dispatches-intro se h m p = ground arith

  defers-intro :
      (se : StoredEdge)
      → is_deferred se ≡ true
      → mem callee (bucket se.callee l.returns.forward) ≡ true
      → se.call_site ≡ site
      → defers se ≡ true
  unfolding defers
  defers-intro se h m p = ground arith

  module _ (woven : IsWoven l) where
    call_of :
        (w : StoredEdge → Bool)
        → ((se : StoredEdge) → w se ≡ true → (se.call_site ≡ site) × How l callee se)
        → any_at w l.store.edges (bucket caller l.store.out_edges) ≡ true
        → Calls l caller callee site
    call_of w meaning h =
        let (i, se, m, e, k) = any_at→ w l.store.edges (bucket caller l.store.out_edges) h in
        let (d, at_i, from) = woven.linked.left caller i m in
        record {
          idx = i;
          edge = se;
          at_idx = e;
          from = ap (λ (z : StoredEdge). z.caller) (some-eq (sym e ∙ at_i)) ∙ from;
          place = (meaning se k).0;
          how = (meaning se k).1;
        }

    pub callee_refs_of_sound :
        any (goes_to callee site) (callee_refs_of caller l) ≡ true → Calls l caller callee site
    callee_refs_of_sound h = elim (either _ _ (sym callee_refs_of-any ∙ h)) [
      | inl first_two ↦ elim (either _ _ first_two) [
        | inl x ↦ call_of shows shows-How x
        | inr x ↦ call_of dispatches dispatches-How x
      ]
      | inr x ↦ call_of defers defers-How x
    ]

    pub callee_refs_of_complete :
        Calls l caller callee site → any (goes_to callee site) (callee_refs_of caller l) ≡ true
    callee_refs_of_complete c = callee_refs_of-any ∙ by_how c.how
      where
        among : mem c.idx (bucket caller l.store.out_edges) ≡ true
        among =
            subst (λ z. mem c.idx (bucket z l.store.out_edges) ≡ true) c.from
              (woven.linked.leaving c.idx c.edge c.at_idx (How-live l callee c.edge c.how))

        found_by :
            (w : StoredEdge → Bool)
            → w c.edge ≡ true
            → any_at w l.store.edges (bucket caller l.store.out_edges) ≡ true
        found_by w k =
            any_at-intro w l.store.edges (bucket caller l.store.out_edges) c.idx c.edge among
              c.at_idx k

        by_how :
            How l callee c.edge
            → (any_at shows l.store.edges (bucket caller l.store.out_edges)
                  || any_at dispatches l.store.edges (bucket caller l.store.out_edges))
                || any_at defers l.store.edges (bucket caller l.store.out_edges)
              ≡ true
        by_how (inl (h, e)) = rw (found_by shows (shows-intro c.edge h e c.place)) refl
        by_how (inr (inl (h, m))) =
            ground (arith, found_by dispatches (dispatches-intro c.edge h m c.place))
        by_how (inr (inr (h, m))) =
            ground (arith, found_by defers (defers-intro c.edge h m c.place))
