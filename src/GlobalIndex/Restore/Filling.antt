-- ===== src/GlobalIndex/Restore/Filling.antt =====
-- What an index keeps in its buckets, whatever is added to it.
use vycor_cpp.Prelude.{List}
use vycor_cpp.Checkpoint.Entries.{
  FunctionOverloadEntry, DeductionGuideEntry, CoveragePropertyEntry, SpecializationEntry,
  DefaultArgEntry, ExceptionSpecEntry, OdrEntry, StaticInitEntry, FunctionSummaryEntry,
  HeaderStaticEntry, CheckIndexPayload,
}
use vycor_cpp.GlobalIndex.{
  GlobalIndex, add_function_overload, add_deduction_guide, add_coverage_property, add_odr_entry,
  add_specialization, add_default_arg, add_static_init, add_function_summary, add_header_static,
  add_exception_spec, add_each, with_types, add_entries, apply_to,
}
use vycor_cpp.GlobalIndex.Types.{TypeRelationIndex, add_base, add_ctor_edge, add_conv_op_edge}
use vycor_cpp.GlobalIndex.Invariant.{add_each-keeps}
use vycor_cpp.GlobalIndex.Restore.Pushed.{Appended, push_at-Appended}
use vycor_cpp.GlobalIndex.Restore.Merged.{Templates, add_specialization_to-Templates}
use vycor_cpp.GlobalIndex.Restore.Edges.{NameSets, add_edge-NameSets}

-- The edges of the type relations are sets.
abbrev pub Related : TypeRelationIndex → Type 0
Related t = NameSets t.bases × NameSets t.ctor_edges × NameSets t.conv_op_edges

-- Each bucket has some entries, all of its name.
unfoldable pub Filled : GlobalIndex → Type 0
Filled g =
    Appended (λ x. x.qualified_name) g.overloads
    × Appended (λ x. x.template_name) g.guides
    × Appended (λ x. x.enclosing_class) g.coverage_props
    × Templates g.specializations
    × Related g.types

add_function_overload-Filled :
    (e : FunctionOverloadEntry) (g : GlobalIndex) → Filled g → Filled (add_function_overload e g)
unfolding add_function_overload Filled
add_function_overload-Filled e g (a, b, c, d, t) =
    (push_at-Appended (λ x. x.qualified_name) e g.overloads a, b, c, d, t)

add_deduction_guide-Filled :
    (e : DeductionGuideEntry) (g : GlobalIndex) → Filled g → Filled (add_deduction_guide e g)
unfolding add_deduction_guide Filled
add_deduction_guide-Filled e g (a, b, c, d, t) =
    (a, push_at-Appended (λ x. x.template_name) e g.guides b, c, d, t)

add_coverage_property-Filled :
    (e : CoveragePropertyEntry) (g : GlobalIndex) → Filled g → Filled (add_coverage_property e g)
unfolding add_coverage_property Filled
add_coverage_property-Filled e g (a, b, c, d, t) =
    (a, b, push_at-Appended (λ x. x.enclosing_class) e g.coverage_props c, d, t)

add_odr_entry-Filled : (e : OdrEntry) (g : GlobalIndex) → Filled g → Filled (add_odr_entry e g)
unfolding add_odr_entry Filled
add_odr_entry-Filled e g h = h

add_specialization-Filled :
    (e : SpecializationEntry) (g : GlobalIndex) → Filled g → Filled (add_specialization e g)
unfolding add_specialization Filled
add_specialization-Filled e g (a, b, c, d, t) =
    (a, b, c, add_specialization_to-Templates e g.specializations d, t)

add_default_arg-Filled :
    (e : DefaultArgEntry) (g : GlobalIndex) → Filled g → Filled (add_default_arg e g)
unfolding add_default_arg Filled
add_default_arg-Filled e g h = h

add_static_init-Filled :
    (e : StaticInitEntry) (g : GlobalIndex) → Filled g → Filled (add_static_init e g)
unfolding add_static_init Filled
add_static_init-Filled e g h = h

add_function_summary-Filled :
    (e : FunctionSummaryEntry) (g : GlobalIndex) → Filled g → Filled (add_function_summary e g)
unfolding add_function_summary Filled
add_function_summary-Filled e g h = h

add_header_static-Filled :
    (e : HeaderStaticEntry) (g : GlobalIndex) → Filled g → Filled (add_header_static e g)
unfolding add_header_static Filled
add_header_static-Filled e g h = h

add_exception_spec-Filled :
    (e : ExceptionSpecEntry) (g : GlobalIndex) → Filled g → Filled (add_exception_spec e g)
unfolding add_exception_spec Filled
add_exception_spec-Filled e g h = h

each {ℓ} :
    {A : Type ℓ} (add : A → GlobalIndex → GlobalIndex)
    → ((e : A) (g : GlobalIndex) → Filled g → Filled (add e g))
    → (es : List A) (g : GlobalIndex) → Filled g
    → Filled (add_each add es g)
each add step = add_each-keeps Filled add step

add_entries-Filled : (p : CheckIndexPayload) (g : GlobalIndex) → Filled g → Filled (add_entries p g)
unfolding add_entries
add_entries-Filled p g h = each add_exception_spec add_exception_spec-Filled p.exception_specs _ (
    each add_header_static add_header_static-Filled p.header_statics _ (
      each add_function_summary add_function_summary-Filled p.function_summaries _ (
        each add_static_init add_static_init-Filled p.static_inits _ (
          each add_default_arg add_default_arg-Filled p.default_args _ (
            each add_specialization add_specialization-Filled p.specializations _ (
              each add_odr_entry add_odr_entry-Filled p.odr_entries _ (
                each add_coverage_property add_coverage_property-Filled p.coverage _ (
                  each add_deduction_guide add_deduction_guide-Filled p.guides _ (
                    each add_function_overload add_function_overload-Filled p.overloads g h)))))))))

unfoldable pub add_types : CheckIndexPayload → TypeRelationIndex → TypeRelationIndex
add_types p t =
    add_each (λ e. add_conv_op_edge e.0 e.1) p.conv_op_edges
      (add_each (λ e. add_ctor_edge e.0 e.1) p.ctor_edges
        (add_each (λ e. add_base e.0 e.1) p.base_edges t))

add_types-Related :
    (p : CheckIndexPayload) (t : TypeRelationIndex) → Related t → Related (add_types p t)
unfolding add_types add_base add_ctor_edge add_conv_op_edge
add_types-Related p t h =
    add_each-keeps Related (λ e. add_conv_op_edge e.0 e.1)
      (λ e i (a, b, c). (a, b, add_edge-NameSets e.0 e.1 i.conv_op_edges c)) p.conv_op_edges _
      (add_each-keeps Related (λ e. add_ctor_edge e.0 e.1)
        (λ e i (a, b, c). (a, add_edge-NameSets e.0 e.1 i.ctor_edges b, c)) p.ctor_edges _
        (add_each-keeps Related (λ e. add_base e.0 e.1)
          (λ e i (a, b, c). (add_edge-NameSets e.0 e.1 i.bases a, b, c)) p.base_edges t h))

pub apply_to-Filled : (p : CheckIndexPayload) (g : GlobalIndex) → Filled g → Filled (apply_to p g)
unfolding apply_to with_types add_types Filled
apply_to-Filled p g h =
    let (a, b, c, d, t) = add_entries-Filled p g h in
    (a, b, c, d, add_types-Related p (add_entries p g).types t)
