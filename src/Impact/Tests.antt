-- ===== src/Impact/Tests.antt =====
-- A function calls another, which is changed.
use vycor_cpp.Prelude.{◌≡◌, ◌↔◌, refl, Bool, true, [], ◌∷◌, arith}
use vycor_cpp.CallGraph.{no_graph}
use vycor_cpp.CallGraph.Maps.{mem}
use vycor_cpp.CallGraph.Edges.Keys.{total}
use vycor_cpp.CallGraph.Edges.Registers.{registrations}
use vycor_cpp.CallGraph.Refs.{EdgeRef}
use vycor_cpp.CallGraph.Woven.{Reach, here, next, edge}
use vycor_cpp.CallGraph.Sample.{call, calls, shown, calls-shown}
use vycor_cpp.PathSearch.Chains.{In, first}
use vycor_cpp.PathSearch.Order.{sort_refs, insert_ref}
use vycor_cpp.Impact.{ImpactLimits, no_tally, is_known}
use vycor_cpp.Impact.Answer.{impact_walk, sorted_callers}
use vycor_cpp.Impact.Exact.{NoStop}
use vycor_cpp.Impact.Waves.{Within}
use vycor_cpp.Impact.Shortest.{end, link, Leads}
use vycor_cpp.Impact.Callers.{
  IsCaller, impact_walk-NoStop, impact_walk-Leads, impact_walk-Within, impact_walk-IsCaller,
}

calls-Reach : Reach calls
unfolding registrations total
calls-Reach = next here (edge no_graph (call (66 ∷ []) (65 ∷ [])) (116 ∷ []) (λ k. omega arith))

abbrev limits : ImpactLimits
limits = record { max_depth = 0; max_fan_in = 0; max_work = 0 }

abbrev any_edge : EdgeRef → Bool
any_edge e = true

-- No limits.
open_stops : NoStop no_tally (impact_walk calls any_edge limits (1 ∷ [])).1
open_stops = impact_walk-NoStop calls any_edge limits (1 ∷ []) refl refl refl

impact_walk-IsCaller_example :
    is_known 0 (impact_walk calls any_edge limits (1 ∷ [])).0 ≡ true
    ↔ IsCaller calls calls-Reach any_edge limits (1 ∷ []) 0
impact_walk-IsCaller_example =
    impact_walk-IsCaller calls calls-Reach any_edge limits (1 ∷ []) open_stops.no_hub
      open_stops.no_break open_stops.no_cut 0

-- The call, as the walk sees it.
shown_caller : In shown (sorted_callers calls 1)
unfolding sort_refs insert_ref
shown_caller = rw calls-shown first

caller_entry : Within (impact_walk calls any_edge limits (1 ∷ [])).0 0 1
unfolding mem
caller_entry =
    impact_walk-Within calls calls-Reach any_edge limits (1 ∷ []) open_stops.no_hub
      open_stops.no_break (shown ∷ []) 0 1 (link shown shown_caller refl end) refl
      (λ h. omega arith)

impact_walk-Within_example : Within (impact_walk calls any_edge limits (1 ∷ [])).0 0 1
unfolding mem
impact_walk-Within_example =
    impact_walk-Within calls calls-Reach any_edge limits (1 ∷ []) open_stops.no_hub
      open_stops.no_break (shown ∷ []) 0 1 (link shown shown_caller refl end) refl
      (λ h. omega arith)

impact_walk-Leads_example :
    Leads
      (sorted_callers calls)
      any_edge
      (1 ∷ [])
      (impact_walk calls any_edge limits (1 ∷ [])).0
      0
      caller_entry.reach.depth
      caller_entry.reach
impact_walk-Leads_example =
    impact_walk-Leads calls calls-Reach any_edge limits (1 ∷ []) 0 caller_entry.reach
      caller_entry.found
