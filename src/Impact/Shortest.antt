-- ===== src/Impact/Shortest.antt =====
-- The whole walk from the changed functions: the affected functions, their depths and their paths.
use vycor_cpp.Prelude.{
  ℕ, zero, suc, ◌+◌, ◌≤◌, ◌<◌, ◌≡◌, refl, sym, ap, subst, ◌∙◌, inl, inr, Bool, true, false, some,
  List, [], ◌∷◌, length, ◌==◌, arith,
}
use vycor_cpp.CallGraph.Maps.{Map, get, mem}
use vycor_cpp.CallGraph.Maps.Missing.{missing_all}
use vycor_cpp.CallGraph.Refs.{EdgeRef}
use vycor_cpp.PathSearch.Chains.{In}
use vycor_cpp.Impact.{
  ImpactLimits, Reached, Frontier, Tally, no_tally, is_known, seed_all, search, path_of,
}
use vycor_cpp.Impact.Waves.{Within, none_left, Level-Waves, at-found}
use vycor_cpp.Impact.Steps.{Good, root, via}
use vycor_cpp.Impact.Exact.{opened, pruned, broken_off, cut_off, Ended, search_lem}
use vycor_cpp.Impact.Seeds.{Seeded, seed_all_lem}

-- Admitted calls from `x` to `y`, with their edges.
pub data Chain (callers_of : ℕ → List EdgeRef) (filter : EdgeRef → Bool)
    : List EdgeRef → ℕ → ℕ → Type 0 where
  end : {x : ℕ} → Chain callers_of filter [] x x
  link :
      {es : List EdgeRef} {y z : ℕ} (e : EdgeRef)
      → In e (callers_of y)
      → filter e ≡ true
      → Chain callers_of filter es y z
      → Chain callers_of filter (e ∷ es) e.caller z

module _ (callers_of : ℕ → List EdgeRef) (filter : EdgeRef → Bool) (seeds : List ℕ) where
  abbrev pub Calling : List EdgeRef → ℕ → ℕ → Type 0
  Calling = Chain callers_of filter

  -- The stored parents lead to the changed function, one edge for each step of the depth.
  pub record Leads (m : Map Reached) (x n : ℕ) (r : Reached) : Type 0 where
    pub path : Calling (path_of n x m) x r.origin
    pub changed : mem r.origin seeds ≡ true
    pub long : length (path_of n x m) ≡ r.depth

module _ (callers_of : ℕ → List EdgeRef) (degree : ℕ → ℕ) (filter : EdgeRef → Bool)
    (limits : ImpactLimits) (seeds ids : List ℕ)
    (inside : (x : ℕ) (e : EdgeRef) → In e (callers_of x) → mem e.caller ids ≡ true) where
  abbrev start : Frontier
  start = seed_all seeds (record { reached = []; queue = [] })

  abbrev pub whole : Map Reached × Tally
  whole =
      search callers_of degree filter limits (suc (length seeds + length ids)) start.queue
        start.reached no_tally

  started : Seeded seeds seeds (record { reached = []; queue = [] }) start
  unfolding get
  started =
      seed_all_lem seeds seeds (record { reached = []; queue = [] }) (λ s h. h)
        (record { roots = λ x r h. cc h; queued = λ x r h. cc h; level = none_left })

  walked : Ended callers_of degree filter limits seeds ids inside start.reached whole
  walked =
      search_lem callers_of degree filter limits seeds ids inside (suc (length seeds + length ids))
        start.queue start.reached no_tally 0
        (omega (arith, started.bounded, missing_all (λ x. is_known x start.reached) ids))
        (record {
          linked = λ x r h. let (a, b, c) = started.begun.roots x r h in root a b c;
          capped = λ x r h positive. omega (arith, (started.begun.roots x r h).0);
        })
        (Level-Waves started.begun.level) (λ x r h. omega (arith, (started.begun.roots x r h).0))
        (λ x r h. inl (started.begun.queued x r h))

  path_flat :
      (n x : ℕ) (r : Reached) (m : Map Reached)
      → get x m ≡ some r
      → r.depth ≡ 0
      → path_of n x m ≡ []
  unfolding path_of
  path_flat zero x r m h flat = refl
  path_flat (suc n) x r m h flat = rw (at-found x m r h, flat) refl

  path_deep :
      (n x d : ℕ) (r : Reached) (e : EdgeRef) (m : Map Reached)
      → get x m ≡ some r
      → r.depth ≡ suc d
      → r.edge ≡ some e
      → path_of (suc n) x m ≡ e ∷ path_of n r.parent m
  unfolding path_of
  path_deep n x d r e m h deep edge =
      let positive : (suc d == 0) ≡ false = ground arith in
      rw (at-found x m r h, deep, edge, positive)
        (ap (λ (z : Reached). e ∷ path_of n z.parent m) (at-found x m r h))

  Leads-root :
      (n x : ℕ) (r : Reached) (m : Map Reached)
      → get x m ≡ some r
      → r.depth ≡ 0
      → r.origin ≡ x
      → mem x seeds ≡ true
      → Leads callers_of filter seeds m x n r
  Leads-root n x r m h flat own changed =
      let is = path_flat n x r m h flat in
      record {
        path =
            subst (λ es. Chain callers_of filter es x r.origin) (sym is)
              (subst (Chain callers_of filter [] x) (sym own) end);
        changed = subst (λ z. mem z seeds ≡ true) (sym own) changed;
        long = ap length is ∙ sym flat;
      }

  path_of-Leads :
      (n x : ℕ) (r : Reached) (m : Map Reached)
      → Good callers_of filter limits seeds ids inside m
      → get x m ≡ some r
      → r.depth ≤ n
      → Leads callers_of filter seeds m x n r
  path_of-Leads zero x r m good h fits = elim (good.linked x r h) [
    | root flat own changed ↦ Leads-root zero x r m h flat own changed
    | via e p edge caller k pass parent deep origin ↦ absurd (omega (arith, deep))
  ]
  path_of-Leads (suc n) x r m good h fits =
      let up = λ (p : Reached) (at_parent : get r.parent m ≡ some p) (less : p.depth ≤ n).
        path_of-Leads n r.parent p m good at_parent less in
      elim (good.linked x r h) [
        | root flat own changed ↦ Leads-root (suc n) x r m h flat own changed
        | via e p edge caller k pass parent deep origin ↦
            let rest = up p parent (omega (arith, deep)) in
            let is = path_deep n x p.depth r e m h deep edge in
            record {
              path =
                  subst (λ es. Chain callers_of filter es x r.origin) (sym is)
                    (subst (λ z. Chain callers_of filter (e ∷ path_of n r.parent m) z r.origin)
                      caller
                      (subst (Chain callers_of filter (e ∷ path_of n r.parent m) e.caller)
                        (sym origin) (link e k pass rest.path)));
              changed = subst (λ z. mem z seeds ≡ true) (sym origin) rest.changed;
              long = ap length is ∙ ap suc rest.long ∙ sym deep;
            }
      ]

  -- A chain within the depth limit is followed, unless the walk was broken off or a hub was left out.
  pub near :
      whole.1.hub_stop ≡ false
      → whole.1.work_stop ≡ false
      → {es : List EdgeRef} {x s : ℕ} → Chain callers_of filter es x s
      → mem s seeds ≡ true
      → (0 < limits.max_depth → length es ≤ limits.max_depth)
      → Within whole.0 x (length es)
  near no_hub no_break {x = x} end changed fits =
      let (r, found) = started.reached x changed in
      record {
        reach = r;
        found = walked.extends x r found;
        near = omega (arith, (started.begun.roots x r found).0);
      }
  near no_hub no_break (link {es = es} {y = y} e k pass rest) changed fits =
      let w = near no_hub no_break rest changed (λ h. omega (arith, fits h)) in
      elim (walked.settled y w.reach w.found) [
        | opened f ↦
            let v = f e k pass in
            record { reach = v.reach; found = v.found; near = omega (arith, v.near, w.near) }
        | pruned h ↦ cc (h, no_hub)
        | broken_off h ↦ cc (h, no_break)
        | cut_off positive cut all ↦ absurd (omega (arith, w.near, fits positive))
      ]

  -- With no stop at all, every chain is followed.
  pub everything :
      whole.1.hub_stop ≡ false
      → whole.1.work_stop ≡ false
      → whole.1.depth_stop ≡ false
      → {es : List EdgeRef} {x s : ℕ} → Chain callers_of filter es x s
      → mem s seeds ≡ true
      → (r : Reached) × (get x whole.0 ≡ some r)
  everything no_hub no_break no_cut {x = x} end changed =
      let (r, found) = started.reached x changed in (r, walked.extends x r found)
  everything no_hub no_break no_cut (link {y = y} e k pass rest) changed =
      let (r, found) = everything no_hub no_break no_cut rest changed in
      elim (walked.settled y r found) [
        | opened f ↦ let v = f e k pass in (v.reach, v.found)
        | pruned h ↦ cc (h, no_hub)
        | broken_off h ↦ cc (h, no_break)
        | cut_off positive cut (inl h) ↦ cc (h, no_cut)
        | cut_off positive cut (inr f) ↦ f e k pass
      ]

  pub reached-Leads :
      (x : ℕ) (r : Reached)
      → get x whole.0 ≡ some r
      → Leads callers_of filter seeds whole.0 x r.depth r
  reached-Leads x r h = path_of-Leads r.depth x r whole.0 walked.good h (omega arith)

  pub reached-capped :
      (x : ℕ) (r : Reached)
      → get x whole.0 ≡ some r
      → 0 < limits.max_depth
      → r.depth ≤ limits.max_depth
  reached-capped = walked.good.capped
