-- ===== src/PathSearch/Complete/Calls.antt =====
-- The calls of dfs in a search that nothing stops: each finds all that goes on from its path.
use vycor_cpp.Prelude.{
  ℕ, suc, ◌+◌, ◌≤◌, ◌<◌, ◌≡◌, refl, subst, inl, inr, true, false, not, ◌&&◌, some, List, [], ◌∷◌,
  length, ltb, ◌==◌, Bool-cases, Option-cases, if-intro, arith,
}
use vycor_cpp.CallGraph.Maps.{get, mem}
use vycor_cpp.CallGraph.Refs.{EdgeRef}
use vycor_cpp.PathSearch.{
  Graph, simple_nodes, Search, Flags, blocked, both_flags, path_limit_hit, corridor_caller,
  is_excluded, skip, excluded, turn_of, expand,
}
use vycor_cpp.PathSearch.Chains.{In, Turn-cases, follow-inv}
use vycor_cpp.PathSearch.Complete.{
  In-first, In-only, Up, Leads, Done, Swept, Swept-cons, Swept-pass, Swept-stop, cut-Swept,
}

module _ (g : Graph) (simple : g.cycles ≡ simple_nodes) (positive : 0 < g.limits.max_depth)
    (corridor : (n : ℕ) → Up g n → (d : ℕ) × (get n g.min_from_start ≡ some d)) where
  skip-inv :
      (depth : ℕ) (path : List EdgeRef) (nodes : List ℕ) (e : EdgeRef)
      → turn_of g depth path nodes e ≡ skip
      → g.filter e ≡ true
      → ¬ Up g e.caller
  unfolding turn_of
  skip-inv depth path nodes e t pass up =
      let (d, at_d) = corridor e.caller up in
      elim (Bool-cases (not (g.limits.max_depth == 0) && ltb g.limits.max_depth (d + depth + 1))) [
        | inl deep ↦ cc (rw (pass, at_d, turn_of, deep) at t)
        | inr fits ↦ elim (Bool-cases (is_excluded g.cycles e path nodes)) [
          | inl out ↦ cc (rw (pass, at_d, turn_of, fits, out) at t)
          | inr allowed ↦ cc (rw (pass, at_d, turn_of, fits, allowed) at t)
        ]
      ]

  excluded-inv :
      (depth : ℕ) (path : List EdgeRef) (nodes : List ℕ) (e : EdgeRef)
      → turn_of g depth path nodes e ≡ excluded
      → mem e.caller nodes ≡ true
  unfolding turn_of is_excluded
  excluded-inv depth path nodes e h = elim (Bool-cases (g.filter e)) [
    | inr f ↦ cc (rw f at h)
    | inl f ↦ elim (Option-cases (get e.caller g.min_from_start)) [
      | inl none_yet ↦ cc (rw (f, none_yet, turn_of) at h)
      | inr (d, at_d) ↦
          elim (Bool-cases
            (not (g.limits.max_depth == 0) && ltb g.limits.max_depth (d + depth + 1))) [
              | inl deep ↦ cc (rw (f, at_d, turn_of, deep) at h)
              | inr fits ↦ elim (Bool-cases (mem e.caller nodes)) [
                | inl out ↦ out
                | inr allowed ↦ cc (rw (f, at_d, turn_of, fits, simple, allowed) at h)
              ]
            ]
    ]
  ]

  pub no_callers :
      (es : List EdgeRef)
      → corridor_caller g es ≡ false
      → (e : EdgeRef) → In e es
      → g.filter e ≡ true
      → ¬ Up g e.caller
  unfolding corridor_caller
  no_callers [] h e k pass up = elim k [ ]
  no_callers (d ∷ es) h e k pass up = elim (In-first k) [
    | inl k' ↦
        let same : e ≡ d = In-only k' in
        let (x, at_x) = corridor d.caller (subst (λ (z : EdgeRef). Up g z.caller) same up) in
        cc (rw (subst (λ z. g.filter z ≡ true) same pass, at_x, corridor_caller) at h)
    | inr k' ↦ elim (Bool-cases (g.filter d)) [
      | inr f ↦ no_callers es (rw f at h) e k' pass up
      | inl f ↦ elim (Option-cases (get d.caller g.min_from_start)) [
        | inl n ↦ no_callers es (rw (f, n, corridor_caller) at h) e k' pass up
        | inr (x, n) ↦ cc (rw (f, n, corridor_caller) at h)
      ]
    ]
  ]

  Done-Swept :
      (path : List EdgeRef) (nodes : List ℕ) (e : EdgeRef) (flags : Flags) (st : Search)
      (r : Flags × Search)
      → Done g (e ∷ path) e.caller (e.caller ∷ nodes) st r
      → Swept g path nodes (e ∷ []) flags st (both_flags flags r.0, r.1)
  unfolding both_flags
  Done-Swept path nodes e flags st r done = record {
    stays = done.stays;
    grows = done.grows;
    found_stays = λ h. ground (arith, h);
    blocked_stays = λ h. ground (arith, h);
    good = λ sound. elim (done.good sound) [
      | inl cut ↦ inl cut
      | inr a ↦ inr (record {
        dead = a.dead (omega arith);
        whole = λ full s d k pass free leads start long.
            a.whole full s
              (subst (λ (z : EdgeRef). Leads g full s (z ∷ path) z.caller (z.caller ∷ nodes))
                (In-only k) leads)
              start long;
        barren = λ x y d k pass up.
            a.barren (ground (arith, x)) (ground (arith, y)) (omega arith)
              (subst (λ (z : EdgeRef). Up g z.caller) (In-only k) up);
      })
    ];
  }

  pub expand-Swept :
      (go : EdgeRef → Search → Flags × Search) (path : List EdgeRef) (nodes : List ℕ)
      (es : List EdgeRef) (flags : Flags) (st : Search)
      → ((e : EdgeRef) (s : Search)
          → suc (length path) ≤ g.limits.max_depth
          → Done g (e ∷ path) e.caller (e.caller ∷ nodes) s (go e s))
      → Swept g path nodes es flags st (expand go g (length path) path nodes es flags st)
  unfolding expand both_flags
  expand-Swept go path nodes [] flags st step = record {
    stays = λ h. h;
    grows = λ p h. h;
    found_stays = λ h. h;
    blocked_stays = λ h. h;
    good = λ sound. inr (record {
      dead = sound;
      whole = λ full s d k pass free leads start long. elim k [ ];
      barren = λ x y d k pass. elim k [ ];
    });
  }
  expand-Swept go path nodes (e ∷ es) flags st step =
      elim (Turn-cases (turn_of g (length path) path nodes e)) [
        | inl t ↦
            rw (t, expand)
              (Swept-cons g path nodes e es flags flags st st _
                (Swept-pass g path nodes e flags flags st (λ h. h) (λ h. h)
                  (λ pass free. skip-inv (length path) path nodes e t pass)
                  (λ h pass. skip-inv (length path) path nodes e t pass))
                (expand-Swept go path nodes es flags st step))
        | inr (inl t) ↦
            rw (t, expand)
              (Swept-cons g path nodes e es flags flags st (record st { depth_stop = true }) _
                (Swept-stop g path nodes (e ∷ []) flags st (record st { depth_stop = true })
                  (ground arith) refl)
                (expand-Swept go path nodes es flags (record st { depth_stop = true }) step))
        | inr (inr (inl t)) ↦
            rw (t, expand)
              (Swept-cons g path nodes e es flags (both_flags flags blocked) st st _
                (Swept-pass g path nodes e flags (both_flags flags blocked) st
                  (λ h. ground (arith, h)) (λ h. ground (arith, h))
                  (λ pass free. cc (free, excluded-inv (length path) path nodes e t))
                  (λ h pass. absurd (ground (arith, h))))
                (expand-Swept go path nodes es (both_flags flags blocked) st step))
        | inr (inr (inr t)) ↦
            let fits = (follow-inv g (length path) path nodes e positive t).2 in
            let r = go e st in
            let done : Done g (e ∷ path) e.caller (e.caller ∷ nodes) st r = step e st fits in
            let mid : Flags = both_flags flags r.0 in
            rw (t, expand)
              (Swept-cons g path nodes e es flags mid st r.1 _
                (Done-Swept path nodes e flags st r done)
                (if-intro (Swept g path nodes es mid r.1) (path_limit_hit g.limits r.1)
                  (λ full. cut-Swept g path nodes es mid r.1)
                  (λ more. expand-Swept go path nodes es mid r.1 step)))
      ]
