-- ===== src/Impact/Exact.antt =====
-- The walk's end: what is reached, how, and which callers are not.
use vycor_cpp.Prelude.{
  ℕ, zero, suc, ◌+◌, ◌≤◌, ◌<◌, ◌≡◌, refl, sym, ap, subst, ◌∙◌, ◌⊎◌, inl, inr, Bool, true, false,
  ◌||◌, some, List, [], ◌∷◌, length, ◌==◌, ==_iff, Bool-cases, arith,
}
use vycor_cpp.CallGraph.Maps.{Map, get, put, mem}
use vycor_cpp.CallGraph.Refs.{EdgeRef}
use vycor_cpp.PathSearch.Chains.{In}
use vycor_cpp.Impact.{
  ImpactLimits, Reached, Frontier, Tally, at, is_known, admitted, any_admitted, reach_callers, Turn,
  too_deep, hub, out_of_work, expand, turn_of, search,
}
use vycor_cpp.Impact.Waves.{Within, Extends, Within-Extends, known, Waves, front, at-found, Shallow}
use vycor_cpp.Impact.Steps.{In-cases, unreached, Good, Grown, reach_callers_lem}

Turn-cases : (t : Turn) → (t ≡ too_deep) ⊎ ((t ≡ hub) ⊎ ((t ≡ out_of_work) ⊎ (t ≡ expand)))
Turn-cases too_deep = inl refl
Turn-cases hub = inr (inl refl)
Turn-cases out_of_work = inr (inr (inl refl))
Turn-cases expand = inr (inr (inr refl))

module _ (callers_of : ℕ → List EdgeRef) (degree : ℕ → ℕ) (filter : EdgeRef → Bool)
    (limits : ImpactLimits) (seeds ids : List ℕ)
    (inside : (x : ℕ) (e : EdgeRef) → In e (callers_of x) → mem e.caller ids ≡ true) where
  -- Every admitted caller is reached.
  abbrev pub Known : Map Reached → ℕ → Type 0
  Known m x =
      (e : EdgeRef)
      → In e (callers_of x)
      → filter e ≡ true
      → (p : Reached) × (get e.caller m ≡ some p)

  -- Why no more callers of a reached node are sought.
  pub data Settled (m : Map Reached) (t : Tally) (x : ℕ) (r : Reached) : Type 0 where
    opened :
        ((e : EdgeRef) → In e (callers_of x) → filter e ≡ true → Within m e.caller (suc r.depth))
        → Settled m t x r
    pruned : t.hub_stop ≡ true → Settled m t x r
    broken_off : t.work_stop ≡ true → Settled m t x r
    cut_off :
        0 < limits.max_depth
        → limits.max_depth ≤ r.depth
        → (t.depth_stop ≡ true) ⊎ Known m x
        → Settled m t x r

  -- Stops are not taken back.
  pub record Later (t t' : Tally) : Type 0 where
    hub_stays : t.hub_stop ≡ true → t'.hub_stop ≡ true
    depth_stays : t.depth_stop ≡ true → t'.depth_stop ≡ true
    work_stays : t.work_stop ≡ true → t'.work_stop ≡ true

  Settled-later :
      (m m' : Map Reached) (t t' : Tally) (x : ℕ) (r : Reached)
      → Extends m m'
      → Later t t'
      → Settled m t x r
      → Settled m' t' x r
  Settled-later m m' t t' x r ext l (opened f) =
      opened (λ e k p. Within-Extends m m' e.caller (suc r.depth) ext (f e k p))
  Settled-later m m' t t' x r ext l (pruned h) = pruned (l.hub_stays h)
  Settled-later m m' t t' x r ext l (broken_off h) = broken_off (l.work_stays h)
  Settled-later m m' t t' x r ext l (cut_off a b (inl h)) = cut_off a b (inl (l.depth_stays h))
  Settled-later m m' t t' x r ext l (cut_off a b (inr f)) =
      cut_off a b (inr (λ e k p. let (s, found) = f e k p in (s, ext e.caller s found)))

  -- Everything reached waits in the queue or is settled.
  abbrev Explored : List ℕ → Map Reached → Tally → Type 0
  Explored queue m t =
      (x : ℕ) (r : Reached) → get x m ≡ some r → (mem x queue ≡ true) ⊎ Settled m t x r

  pub record Ended (m : Map Reached) (result : Map Reached × Tally) : Type 0 where
    pub good : Good callers_of filter limits seeds ids inside result.0
    pub extends : Extends m result.0
    pub settled : (x : ℕ) (r : Reached) → get x result.0 ≡ some r → Settled result.0 result.1 x r

  none_admitted :
      (m : Map Reached) (es : List EdgeRef)
      → any_admitted filter es m ≡ false
      → (e : EdgeRef) → In e es
      → filter e ≡ true
      → (p : Reached) × (get e.caller m ≡ some p)
  unfolding any_admitted admitted
  none_admitted m [] h e k pass = elim k [ ]
  none_admitted m (d ∷ es) h e k pass = elim (In-cases k) [
    | inr behind ↦ none_admitted m es (ground arith) e behind pass
    | inl same ↦
        let pass' : filter d ≡ true = subst (λ z. filter z ≡ true) same pass in
        known e.caller m
          (subst (λ (z : EdgeRef). is_known z.caller m ≡ true) (sym same) (ground (arith, pass')))
  ]

  -- The inversions of a turn.
  turn_deep :
      (node : ℕ) (r : Reached) (t : Tally)
      → turn_of callers_of degree filter limits node r t ≡ too_deep
      → (0 < limits.max_depth) × (limits.max_depth ≤ r.depth)
  unfolding turn_of
  turn_deep node r t h = ground arith

  turn_expand :
      (node : ℕ) (r : Reached) (t : Tally)
      → turn_of callers_of degree filter limits node r t ≡ expand
      → 0 < limits.max_depth
      → suc r.depth ≤ limits.max_depth
  unfolding turn_of
  turn_expand node r t h positive = ground arith

  -- The front leaves the queue: it is settled, or its admitted callers are queued in its place.
  pop-Explored :
      (node : ℕ) (queue : List ℕ) (m : Map Reached) (t t' : Tally)
      → Later t t'
      → ((r : Reached) → get node m ≡ some r → Settled m t' node r)
      → Explored (node ∷ queue) m t
      → Explored queue m t'
  unfolding mem
  pop-Explored node queue m t t' l settled explored x r h = elim (explored x r h) [
    | inr s ↦ inr (Settled-later m m t t' x r (λ y q k. k) l s)
    | inl k ↦ elim (Bool-cases (x == node)) [
      | inr other ↦ inl (rw other at k)
      | inl e ↦
          let same = (==_iff x node).0 e in
          inr (
            subst (λ z. Settled m t' z r) (sym same)
              (settled r (subst (λ z. get z m ≡ some r) same h)))
    ]
  ]

  grow-Explored :
      (node d : ℕ) (queue : List ℕ) (m : Map Reached) (t t' : Tally) (f : Frontier)
      → Later t t'
      → ((r : Reached) → get node m ≡ some r → r.depth ≡ d)
      → Grown callers_of filter limits seeds ids inside d
          (callers_of node)
          (record { reached = m; queue = queue })
          f
      → Explored (node ∷ queue) m t
      → Explored f.queue f.reached t'
  unfolding mem
  grow-Explored node d queue m t t' f l deep grown explored x r h = elim (grown.fresh x r h) [
    | inr q ↦ inl q
    | inl old ↦ elim (explored x r old) [
      | inr s ↦ inr (Settled-later m f.reached t t' x r grown.extends l s)
      | inl k ↦ elim (Bool-cases (x == node)) [
        | inr other ↦ inl (grown.old_queue x (rw other at k))
        | inl e ↦
            let same = (==_iff x node).0 e in
            let at_d = deep r (subst (λ z. get z m ≡ some r) same old) in
            inr (
              opened (λ c j pass.
                subst (λ n. Within f.reached c.caller (suc n)) (sym at_d)
                  (grown.opened c (subst (λ z. In c (callers_of z)) same j) pass)))
      ]
    ]
  ]

  stop_or_Known :
      (node : ℕ) (m : Map Reached) (t : Tally)
      → (t.depth_stop || any_admitted filter (callers_of node) m ≡ true) ⊎ Known m node
  stop_or_Known node m t = elim (Bool-cases (any_admitted filter (callers_of node) m)) [
    | inl e ↦ inl (ground (arith, e))
    | inr e ↦ inr (none_admitted m (callers_of node) e)
  ]

  pub search_lem :
      (fuel : ℕ) (queue : List ℕ) (m : Map Reached) (t : Tally) (d : ℕ)
      → length queue + unreached m ids < fuel
      → Good callers_of filter limits seeds ids inside m
      → Waves m d queue
      → Shallow m d
      → Explored queue m t
      → Ended m (search callers_of degree filter limits fuel queue m t)
  unfolding search mem
  search_lem zero queue m t d enough good waves shallow explored = absurd (omega arith)
  search_lem (suc fuel) [] m t d enough good waves shallow explored = record {
    good = good;
    extends = λ x r h. h;
    settled = λ x r h. elim (explored x r h) [ inl k ↦ cc k | inr s ↦ s ];
  }
  search_lem (suc fuel) (node ∷ queue) m t d enough good waves shallow explored =
      let (d', a, waves', shallow') = front waves shallow in
      let r : Reached = at node m in
      let here : r ≡ a.reach = at-found node m a.reach a.found in
      let found : get node m ≡ some r = a.found ∙ ap some (sym here) in
      let deep : d' ≡ r.depth = cc (a.deep, here) in
      let only : (s : Reached) → get node m ≡ some s → s ≡ r = λ s h. cc (h, found) in
      elim (Turn-cases (turn_of callers_of degree filter limits node (at node m) t)) [
        | inl e ↦
            let t' : Tally = record t {
              depth_stop = t.depth_stop || any_admitted filter (callers_of node) m;
            } in
            rw (e, search)
              (search_lem fuel queue m t' d' (omega arith) good waves' shallow' (
                pop-Explored node queue m t t'
                  (record {
                    hub_stays = λ h. h;
                    depth_stays = λ h. ground (arith, h);
                    work_stays = λ h. h;
                  })
                  (λ s h.
                    subst (λ (z : Reached). Settled m t' node z) (sym (only s h))
                      (cut_off (turn_deep node r t e).0 (turn_deep node r t e).1
                        (stop_or_Known node m t)))
                  explored))
        | inr (inl e) ↦
            let t' : Tally = record t { hubs = put node (degree node) t.hubs; hub_stop = true } in
            rw (e, search)
              (search_lem fuel queue m t' d' (omega arith) good waves' shallow' (
                pop-Explored node queue m t t'
                  (record { hub_stays = λ h. refl; depth_stays = λ h. h; work_stays = λ h. h })
                  (λ s h. pruned refl) explored))
        | inr (inr (inl e)) ↦
            rw (e, search)
              (record { good = good; extends = λ x r h. h; settled = λ x r h. broken_off refl })
        | inr (inr (inr e)) ↦
            let begun : Frontier = record { reached = m; queue = queue } in
            let f : Frontier = reach_callers filter node r (callers_of node) begun in
            let grown : Grown callers_of filter limits seeds ids inside r.depth (callers_of node)
                begun f =
              reach_callers_lem callers_of filter limits seeds ids inside node r
                (turn_expand node r t e) (callers_of node) begun (λ c k. k) found good
                (subst (λ z. Waves m z queue) deep waves') (subst (Shallow m) deep shallow') in
            let t' : Tally = record t { expansions = t.expansions + 1 } in
            let later_on : Later t t' = record {
              hub_stays = λ h. h;
              depth_stays = λ h. h;
              work_stays = λ h. h;
            } in
            let ended =
              search_lem fuel f.queue f.reached t' r.depth (omega (arith, grown.bounded)) grown.good
                grown.waves grown.shallow
                (grow-Explored node r.depth queue m t t' f later_on
                  (λ s h. ap (λ (z : Reached). z.depth) (only s h)) grown explored) in
            rw (e, search)
              (record {
                good = ended.good;
                extends = λ x s h. ended.extends x s (grown.extends x s h);
                settled = ended.settled;
              })
      ]

-- A limit of 0 stops nothing.
pub record NoStop (t t' : Tally) : Type 0 where
  pub no_hub : t'.hub_stop ≡ t.hub_stop
  pub no_break : t'.work_stop ≡ t.work_stop
  pub no_cut : t'.depth_stop ≡ t.depth_stop

module _ (callers_of : ℕ → List EdgeRef) (degree : ℕ → ℕ) (filter : EdgeRef → Bool)
    (limits : ImpactLimits) (any_depth : limits.max_depth ≡ 0) (any_fan_in : limits.max_fan_in ≡ 0)
    (any_work : limits.max_work ≡ 0) where
  always_expand :
      (node : ℕ) (r : Reached) (t : Tally)
      → turn_of callers_of degree filter limits node r t ≡ expand
  unfolding turn_of
  always_expand node r t = ground (arith, any_depth, any_fan_in, any_work)

  pub search-NoStop :
      (fuel : ℕ) (queue : List ℕ) (m : Map Reached) (t : Tally)
      → NoStop t (search callers_of degree filter limits fuel queue m t).1
  unfolding search
  search-NoStop zero queue m t = record { no_hub = refl; no_break = refl; no_cut = refl }
  search-NoStop (suc fuel) [] m t = record { no_hub = refl; no_break = refl; no_cut = refl }
  search-NoStop (suc fuel) (node ∷ queue) m t =
      let f : Frontier =
        reach_callers filter node (at node m) (callers_of node)
          (record { reached = m; queue = queue }) in
      let rest =
        search-NoStop fuel f.queue f.reached (record t { expansions = t.expansions + 1 }) in
      rw (always_expand node (at node m) t, search)
        (record { no_hub = rest.no_hub; no_break = rest.no_break; no_cut = rest.no_cut })
