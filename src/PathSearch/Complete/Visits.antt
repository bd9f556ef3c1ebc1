-- ===== src/PathSearch/Complete/Visits.antt =====
-- What visit_node does in a search that nothing stops.
use vycor_cpp.Prelude.{
  ℕ, suc, ◌≤◌, ◌<◌, ◌≡◌, refl, subst, ◌∙◌, inl, inr, true, false, not, ◌&&◌, ◌||◌, some, List, [],
  ◌∷◌, length, ltb, leb, ◌==◌, Bool-cases, if-intro, arith,
}
use vycor_cpp.CallGraph.Maps.{get, mem}
use vycor_cpp.CallGraph.Refs.{EdgeRef}
use vycor_cpp.PathSearch.{
  Graph, simple_nodes, Search, Flags, blocked, both_flags, path_limit_hit, corridor_caller,
  record_path, visit_node,
}
use vycor_cpp.PathSearch.Chains.{In}
use vycor_cpp.PathSearch.Complete.Calls.{no_callers, expand-Swept}
use vycor_cpp.PathSearch.Complete.{
  Has, Has-append, Has-pushed, stopped, Up, at_start, call, Leads, ends, goes, Leads-Up, DeadSound,
  Good, Done,
}

module _ (g : Graph) (simple : g.cycles ≡ simple_nodes) (positive : 0 < g.limits.max_depth)
    (corridor : (n : ℕ) → Up g n → (d : ℕ) × (get n g.min_from_start ≡ some d)) where
  -- What recording the path does.
  pub record Recorded (path : List EdgeRef) (node : ℕ) (st : Search) (out : Flags × Search)
      : Type 0 where
    grows : (p : List EdgeRef) → Has p st.found → Has p out.1.found
    same_dead : out.1.dead_at ≡ st.dead_at
    same_stop : stopped out.1 ≡ stopped st
    ends_here :
        mem node g.starts ≡ true → 0 < length path → Has path out.1.found × (out.0.is_found ≡ true)

  record_path-Recorded :
      (path : List EdgeRef) (node : ℕ) (st : Search)
      → Recorded path node st (record_path g node (length path) path st)
  unfolding record_path
  record_path-Recorded path node st =
      if-intro (Recorded path node st) (mem node g.starts && ltb 0 (length path))
        (λ h. record {
          grows = λ p k. Has-append (path ∷ []) k;
          same_dead = refl;
          same_stop = refl;
          ends_here = λ start long. (Has-pushed path st.found, refl);
        })
        (λ h. record {
          grows = λ p k. k;
          same_dead = refl;
          same_stop = refl;
          ends_here = λ start long. absurd (ground (arith, h));
        })

  -- A path that goes on ends here, or goes to a caller.
  Leads-whole :
      {found : List (List EdgeRef)} {full : List EdgeRef} {s : ℕ} {path : List EdgeRef} {node : ℕ}
      {nodes : List ℕ}
      → Leads g full s path node nodes
      → (mem node g.starts ≡ true → 0 < length path → Has path found)
      → ((e : EdgeRef)
          → In e (g.callers_of node)
          → g.filter e ≡ true
          → mem e.caller nodes ≡ false
          → Leads g full s (e ∷ path) e.caller (e.caller ∷ nodes)
          → Has full found)
      → mem s g.starts ≡ true
      → 0 < length full
      → Has full found
  Leads-whole ends here_too further start long = here_too start long
  Leads-whole (goes e k pass free rest) here_too further start long = further e k pass free rest

  module _ (path : List EdgeRef) (node : ℕ) (nodes : List ℕ) where
    -- No caller leads to a start.
    Good-leaf :
        (flags : Flags) (st : Search)
        → DeadSound g st
        → (mem node g.starts ≡ true → 0 < length path → Has path st.found × (flags.is_found ≡ true))
        → ((e : EdgeRef) → In e (g.callers_of node) → g.filter e ≡ true → ¬ Up g e.caller)
        → Good g path node nodes flags st
    Good-leaf flags st sound here_too none_up = record {
      dead = λ h. sound;
      whole = λ full s leads start long.
          Leads-whole leads (λ at_s far. (here_too at_s far).0)
            (λ e k pass free rest. absurd (none_up e k pass (Leads-Up g rest start))) start long;
      barren = λ f b long up. elim up [
        | at_start start ↦ cc (f, (here_too start long).1)
        | call e k pass further ↦ none_up e k pass further
      ];
    }

    pub visit_node-Done :
        (go : EdgeRef → Search → Flags × Search) (st : Search)
        → ((e : EdgeRef) (s : Search)
            → suc (length path) ≤ g.limits.max_depth
            → Done g (e ∷ path) e.caller (e.caller ∷ nodes) s (go e s))
        → Done g path node nodes st (visit_node go g node (length path) path nodes st)
    unfolding visit_node both_flags
    visit_node-Done go st step =
        let r = record_path g node (length path) path st in
        let rec = record_path-Recorded path node st in
        let sound : DeadSound g st → DeadSound g r.1 =
          λ ok n d h. ok n d (subst (λ m. get n m ≡ some d) rec.same_dead h) in
        let callers = g.callers_of node in
        let swept = expand-Swept g simple positive corridor go path nodes callers r.0 r.1 step in
        if-intro (Done g path node nodes st)
          (not (g.limits.max_fan_in == 0)
            && ltb 0 (length path)
            && ltb g.limits.max_fan_in (g.stored_in_degree node))
          (λ h. record {
            stays = λ k. ground arith;
            grows = rec.grows;
            good = λ ok. inl (ground arith);
          })
          (λ h.
            if-intro (Done g path node nodes st)
              (not (g.limits.max_depth == 0) && leb g.limits.max_depth (length path))
              (λ k. record {
                stays = λ s. ground (arith, rec.same_stop, s);
                grows = rec.grows;
                good = λ ok. elim (Bool-cases (corridor_caller g callers)) [
                  | inl up ↦ inl (ground (arith, up))
                  | inr away ↦ inr (
                      Good-leaf r.0
                        (record r.1 { depth_stop = r.1.depth_stop || corridor_caller g callers })
                        (sound ok) rec.ends_here
                        (no_callers g simple positive corridor callers away))
                ];
              })
              (λ k.
                if-intro (Done g path node nodes st) (path_limit_hit g.limits r.1)
                  (λ full. record {
                    stays = λ s. ground (arith, rec.same_stop, s);
                    grows = rec.grows;
                    good = λ ok. elim (Bool-cases (corridor_caller g callers)) [
                      | inl up ↦ inl (ground (arith, up))
                      | inr away ↦ inr (
                          Good-leaf (both_flags r.0 blocked)
                            (record r.1 { truncated = r.1.truncated || corridor_caller g callers })
                            (sound ok)
                            (λ start long. (
                              (rec.ends_here start long).0,
                              ground (arith, (rec.ends_here start long).1),
                            ))
                            (no_callers g simple positive corridor callers away))
                    ];
                  })
                  (λ more. record {
                    stays = λ s. swept.stays (rec.same_stop ∙ s);
                    grows = λ p h. swept.grows p (rec.grows p h);
                    good = λ ok. elim (swept.good (sound ok)) [
                      | inl cut ↦ inl cut
                      | inr a ↦ inr (record {
                        dead = λ h. a.dead;
                        whole = λ full s leads start long.
                            Leads-whole leads
                              (λ at_s far. swept.grows path (rec.ends_here at_s far).0)
                              (λ e k pass free rest. a.whole full s e k pass free rest start long)
                              start long;
                        barren = λ f b long up. elim up [
                          | at_start start ↦ cc (f, swept.found_stays (rec.ends_here start long).1)
                          | call e k pass further ↦ a.barren f b e k pass further
                        ];
                      })
                    ];
                  })))
