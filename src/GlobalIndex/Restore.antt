-- ===== src/GlobalIndex/Restore.antt =====
-- An index is what capture lists of it: applyTo makes it again from nothing, as a run does that
-- replays a journal or reads the shards of its workers.
mod Keyed
mod Buckets
mod Pushed
mod Merged
mod Edges
mod Filling
use vycor_cpp.Prelude.{ℕ, ◌≡◌, refl, ap, ◌∙◌, List, [], ◌∷◌}
use vycor_cpp.Checkpoint.Entries.{
  FunctionOverloadEntry, DeductionGuideEntry, CoveragePropertyEntry, SpecializationEntry,
  DefaultArgEntry, ExceptionSpecEntry, OdrEntry, StaticInitEntry, FunctionSummaryEntry,
  HeaderStaticEntry, CheckIndexPayload,
}
use vycor_cpp.GlobalIndex.{
  GlobalIndex, no_entries, add_function_overload, add_deduction_guide, add_coverage_property,
  add_odr_entry, add_specialization, add_default_arg, add_static_init, add_function_summary,
  add_header_static, add_exception_spec, add_each, with_types, add_entries, capture, apply_to,
  absorb,
}
use vycor_cpp.GlobalIndex.Types.{
  Name, TypeRelationIndex, no_relations, all_of, for_each_edge, push_at, add_edge, add_base,
  add_ctor_edge, add_conv_op_edge, add_edges, absorb_relations,
}
use vycor_cpp.GlobalIndex.Entries.{
  merge_at, keep, odr_key, merge_odr, add_specialization_to, default_arg_key, static_init_key,
  merge_summary, header_static_key, merge_header_static, exception_spec_key,
}
use vycor_cpp.GlobalIndex.Invariant.{Distinct, WellFormed, add_each-keeps, apply_to-WellFormed}
use vycor_cpp.GlobalIndex.Restore.Keyed.{restore_list}
use vycor_cpp.GlobalIndex.Restore.Pushed.{Appended, push_at-Appended, restore-Appended}
use vycor_cpp.GlobalIndex.Restore.Merged.{
  Templates, add_specialization_to-Templates, restore-Templates,
}
use vycor_cpp.GlobalIndex.Restore.Edges.{NameSets, add_edge-NameSets, restore_edges}
use vycor_cpp.GlobalIndex.Restore.Filling.{Related, Filled, add_types, apply_to-Filled}

-- A field of the index is filled by what is added to it alone.
add_each-field {ℓ κ μ} :
    {A : Type ℓ} {F : Type κ} {G : Type μ} (wrap : F → G) (f : A → F → F) (add : A → G → G)
    → ((e : A) (x : F) → add e (wrap x) ≡ wrap (f e x))
    → (es : List A) (x : F) → add_each add es (wrap x) ≡ wrap (add_each f es x)
unfolding add_each
add_each-field wrap f add same [] x = refl
add_each-field wrap f add same (e ∷ es) x =
    ap (add_each add es) (same e x) ∙ add_each-field wrap f add same es (f e x)

add_types-capture :
    (g : GlobalIndex) → Related g.types → add_types (capture g) no_relations ≡ g.types
unfolding add_types capture add_base add_ctor_edge add_conv_op_edge
add_types-capture g (a, b, c) =
    let t = g.types in
    rw
      (
        add_each-field (λ x. record no_relations { bases = x }) (λ e. add_edge e.0 e.1)
            (λ e. add_base e.0 e.1) (λ e x. refl) (for_each_edge t.bases) [],
        restore_edges t.bases a,
        add_each-field (λ x. record no_relations { bases = t.bases; ctor_edges = x })
            (λ e. add_edge e.0 e.1) (λ e. add_ctor_edge e.0 e.1) (λ e x. refl)
            (for_each_edge t.ctor_edges) [],
        restore_edges t.ctor_edges b,
        add_each-field
            (λ x. record no_relations {
              bases = t.bases;
              ctor_edges = t.ctor_edges;
              conv_op_edges = x;
            })
            (λ e. add_edge e.0 e.1) (λ e. add_conv_op_edge e.0 e.1) (λ e x. refl)
            (for_each_edge t.conv_op_edges) [],
        restore_edges t.conv_op_edges c,
      )
      refl

fill {ℓ κ μ} :
    {A : Type ℓ} {F : Type κ} {G : Type μ} (wrap : F → G) (f : A → F → F) (add : A → G → G)
    → ((e : A) (x : F) → add e (wrap x) ≡ wrap (f e x))
    → (es : List A) {start target : F} {g : G} → g ≡ wrap start
    → add_each f es start ≡ target
    → add_each add es g ≡ wrap target
fill wrap f add same es {start} before made =
    ap (add_each add es) before ∙ (add_each-field wrap f add same es start ∙ ap wrap made)

-- The entries from nothing, one field after the other.
add_entries-capture :
    (g : GlobalIndex)
    → WellFormed g
    → Filled g
    → add_entries (capture g) no_entries ≡ record g { types = no_relations }
unfolding WellFormed Filled add_entries capture add_function_overload add_deduction_guide
    add_coverage_property add_odr_entry add_specialization add_default_arg add_static_init
    add_function_summary add_header_static add_exception_spec
add_entries-capture g (odr, args, inits, summaries, statics, specs) (a, b, c, d, t) =
    let g1 = record no_entries { overloads = g.overloads } in
    let g2 = record g1 { guides = g.guides } in
    let g3 = record g2 { coverage_props = g.coverage_props } in
    let g4 = record g3 { odr_entries = g.odr_entries } in
    let g5 = record g4 { specializations = g.specializations } in
    let g6 = record g5 { default_args = g.default_args } in
    let g7 = record g6 { static_inits = g.static_inits } in
    let g8 = record g7 { function_summaries = g.function_summaries } in
    let g9 = record g8 { header_statics = g.header_statics } in
    let p1 =
      fill (λ x. record no_entries { overloads = x }) (λ e. push_at e.qualified_name e)
        add_function_overload (λ e x. refl) (all_of g.overloads) (refl)
        (restore-Appended (λ x. x.qualified_name) g.overloads a) in
    let p2 =
      fill (λ x. record g1 { guides = x }) (λ e. push_at e.template_name e) add_deduction_guide
        (λ e x. refl) (all_of g.guides) (p1) (restore-Appended (λ x. x.template_name) g.guides b) in
    let p3 =
      fill (λ x. record g2 { coverage_props = x }) (λ e. push_at e.enclosing_class e)
        add_coverage_property (λ e x. refl) (all_of g.coverage_props) (p2)
        (restore-Appended (λ x. x.enclosing_class) g.coverage_props c) in
    let p4 =
      fill (λ x. record g3 { odr_entries = x }) (merge_at odr_key merge_odr) add_odr_entry
        (λ e x. refl) g.odr_entries (p3) (restore_list odr_key merge_odr g.odr_entries odr) in
    let p5 =
      fill (λ x. record g4 { specializations = x }) add_specialization_to add_specialization
        (λ e x. refl) (all_of g.specializations) (p4) (restore-Templates g.specializations d) in
    let p6 =
      fill (λ x. record g5 { default_args = x }) (merge_at default_arg_key keep) add_default_arg
        (λ e x. refl) g.default_args (p5) (restore_list default_arg_key keep g.default_args args) in
    let p7 =
      fill (λ x. record g6 { static_inits = x }) (merge_at static_init_key keep) add_static_init
        (λ e x. refl) g.static_inits (p6)
        (restore_list static_init_key keep g.static_inits inits) in
    let p8 =
      fill (λ x. record g7 { function_summaries = x })
        (merge_at (λ x. x.qualified_name) merge_summary) add_function_summary (λ e x. refl)
        g.function_summaries (p7)
        (restore_list (λ x. x.qualified_name) merge_summary g.function_summaries summaries) in
    let p9 =
      fill (λ x. record g8 { header_statics = x }) (merge_at header_static_key merge_header_static)
        add_header_static (λ e x. refl) g.header_statics (p8)
        (restore_list header_static_key merge_header_static g.header_statics statics) in
    fill (λ x. record g9 { exception_specs = x }) (merge_at exception_spec_key keep)
      add_exception_spec (λ e x. refl) g.exception_specs (p9)
      (restore_list exception_spec_key keep g.exception_specs specs)

restore_index : (g : GlobalIndex) → WellFormed g → Filled g → apply_to (capture g) no_entries ≡ g
unfolding Filled apply_to with_types add_types
restore_index g well (a, b, c, d, t) =
    ap (with_types (add_types (capture g))) (add_entries-capture g well (a, b, c, d, t))
    ∙ ap (λ x. record g { types = x }) (add_types-capture g t)

add_edges-add_each :
    (add : Name → Name → TypeRelationIndex → TypeRelationIndex) (es : List (Name × Name))
    (t : TypeRelationIndex)
    → add_edges add es t ≡ add_each (λ e. add e.0 e.1) es t
unfolding add_edges add_each
add_edges-add_each add [] t = refl
add_edges-add_each add ((a, b) ∷ es) t = add_edges-add_each add es (add a b t)

pub apply_to-absorb : (shard g : GlobalIndex) → apply_to (capture shard) g ≡ absorb shard g
unfolding apply_to absorb capture with_types absorb_relations
apply_to-absorb shard g =
    rw
      (
        add_edges-add_each add_base,
        add_edges-add_each add_ctor_edge,
        add_edges-add_each add_conv_op_edge,
      )
      refl

-- An index that any sequence of payloads has filled from nothing is made again from nothing by
-- applying what capture lists of it; and applying this to any index is the same as absorbing it.
pub apply_to-capture :
    (ps : List CheckIndexPayload) (g : GlobalIndex)
    → (apply_to (capture (add_each apply_to ps no_entries)) no_entries
        ≡ add_each apply_to ps no_entries)
      × (apply_to (capture (add_each apply_to ps no_entries)) g
          ≡ absorb (add_each apply_to ps no_entries) g)
unfolding WellFormed Filled Distinct
apply_to-capture ps g = (
  restore_index (add_each apply_to ps no_entries)
      (add_each-keeps WellFormed apply_to apply_to-WellFormed ps no_entries
        (tt, tt, tt, tt, tt, tt))
      (add_each-keeps Filled apply_to apply_to-Filled ps no_entries
        ((tt, tt), (tt, tt), (tt, tt), (tt, tt), ((tt, tt), (tt, tt), (tt, tt)))),
  apply_to-absorb (add_each apply_to ps no_entries) g,
)
