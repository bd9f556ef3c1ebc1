-- ===== src/GlobalIndex.antt =====
-- src/check/GlobalIndex.cpp, class GlobalIndex, and CheckIndexPayload::capture and applyTo of
-- src/check/Checkpoint.cpp. A map from interned strings is the list of its keys with their entries, in
-- the order of insertion, which stands for the unspecified order of an unordered_map; a name that is
-- not interned has no key. A set of keys, or a map from keys to positions, that is kept beside a vector
-- is read off the vector. The mutexes are left out: each call is one step.
pub mod Types
pub mod Entries
pub mod Invariant
pub mod Restore
mod Tests
use vycor_cpp.Prelude.{
  ℕ, zero, suc, ◌+◌, ◌%◌, ◌≤◌, ◌≡◌, refl, Bool, true, false, not, ◌&&◌, Option, none, some, List,
  [], ◌∷◌, ◌++◌, length, ltb, list_eq, ◌==◌, if◌then◌else◌,
}
use vycor_cpp.Checkpoint.Entries.{
  FunctionOverloadEntry, DeductionGuideEntry, CoveragePropertyEntry, OdrEntry, SpecializationEntry,
  DefaultArgEntry, StaticInitEntry, FunctionSummaryEntry, HeaderStaticEntry, ExceptionSpecEntry,
  CheckIndexPayload,
}
use vycor_cpp.GlobalIndex.Types.{
  Buckets, push_at, found_at, all_of, TypeRelationIndex, no_relations, add_base, add_ctor_edge,
  add_conv_op_edge, absorb_relations, for_each_edge,
}
use vycor_cpp.GlobalIndex.Entries.{
  merge_at, keep, odr_key, merge_odr, same_specialization, merge_specialization,
  add_specialization_to, default_arg_key, static_init_key, merge_summary, header_static_key,
  merge_header_static, exception_spec_key, find_by,
}

pub record GlobalIndex : Type 0 where
  pub overloads : Buckets FunctionOverloadEntry
  pub guides : Buckets DeductionGuideEntry
  pub coverage_props : Buckets CoveragePropertyEntry
  pub odr_entries : List OdrEntry
  pub specializations : Buckets SpecializationEntry
  pub default_args : List DefaultArgEntry
  pub static_inits : List StaticInitEntry
  pub function_summaries : List FunctionSummaryEntry
  pub header_statics : List HeaderStaticEntry
  pub exception_specs : List ExceptionSpecEntry
  pub types : TypeRelationIndex

abbrev pub no_entries : GlobalIndex
no_entries = record {
  overloads = [];
  guides = [];
  coverage_props = [];
  odr_entries = [];
  specializations = [];
  default_args = [];
  static_inits = [];
  function_summaries = [];
  header_statics = [];
  exception_specs = [];
  types = no_relations;
}

pub add_function_overload : FunctionOverloadEntry → GlobalIndex → GlobalIndex
add_function_overload e g = record g { overloads = push_at e.qualified_name e g.overloads }

pub add_deduction_guide : DeductionGuideEntry → GlobalIndex → GlobalIndex
add_deduction_guide e g = record g { guides = push_at e.template_name e g.guides }

pub add_coverage_property : CoveragePropertyEntry → GlobalIndex → GlobalIndex
add_coverage_property e g = record g {
  coverage_props = push_at e.enclosing_class e g.coverage_props;
}

pub add_odr_entry : OdrEntry → GlobalIndex → GlobalIndex
add_odr_entry e g = record g { odr_entries = merge_at odr_key merge_odr e g.odr_entries }

pub add_specialization : SpecializationEntry → GlobalIndex → GlobalIndex
add_specialization e g = record g { specializations = add_specialization_to e g.specializations }

pub add_default_arg : DefaultArgEntry → GlobalIndex → GlobalIndex
add_default_arg e g = record g { default_args = merge_at default_arg_key keep e g.default_args }

unfoldable pub add_static_init : StaticInitEntry → GlobalIndex → GlobalIndex
add_static_init e g = record g { static_inits = merge_at static_init_key keep e g.static_inits }

pub add_function_summary : FunctionSummaryEntry → GlobalIndex → GlobalIndex
add_function_summary e g = record g {
  function_summaries = merge_at (λ x. x.qualified_name) merge_summary e g.function_summaries;
}

pub add_header_static : HeaderStaticEntry → GlobalIndex → GlobalIndex
add_header_static e g = record g {
  header_statics = merge_at header_static_key merge_header_static e g.header_statics;
}

pub add_exception_spec : ExceptionSpecEntry → GlobalIndex → GlobalIndex
add_exception_spec e g = record g {
  exception_specs = merge_at exception_spec_key keep e g.exception_specs;
}

pub find_overloads : List ℕ → GlobalIndex → List FunctionOverloadEntry
find_overloads name g = found_at name g.overloads

pub find_deduction_guides : List ℕ → GlobalIndex → List DeductionGuideEntry
find_deduction_guides name g = found_at name g.guides

pub find_class_methods : List ℕ → GlobalIndex → List CoveragePropertyEntry
find_class_methods name g = found_at name g.coverage_props

pub find_specializations : List ℕ → GlobalIndex → List SpecializationEntry
find_specializations name g = found_at name g.specializations

pub find_function_summary : List ℕ → GlobalIndex → Option FunctionSummaryEntry
find_function_summary name g = find_by (λ x. x.qualified_name) name g.function_summaries

-- The first entry of the name: `emplace` does not overwrite.
pub find_static_init : List ℕ → GlobalIndex → Option StaticInitEntry
find_static_init name g = find_by (λ x. x.qualified_name) name g.static_inits

-- for (const auto &e : es) into.add(e)
unfoldable pub add_each {ℓ κ} : {A : Type ℓ} {G : Type κ} → (A → G → G) → List A → G → G
add_each add [] g = g
add_each add (e ∷ es) g = add_each add es (add e g)

unfoldable pub with_types : (TypeRelationIndex → TypeRelationIndex) → GlobalIndex → GlobalIndex
with_types f g = record g { types = f g.types }

-- `CheckIndexPayload::capture`
unfoldable pub capture : GlobalIndex → CheckIndexPayload
capture g = record {
  overloads = all_of g.overloads;
  guides = all_of g.guides;
  coverage = all_of g.coverage_props;
  odr_entries = g.odr_entries;
  specializations = all_of g.specializations;
  default_args = g.default_args;
  static_inits = g.static_inits;
  function_summaries = g.function_summaries;
  header_statics = g.header_statics;
  exception_specs = g.exception_specs;
  base_edges = for_each_edge g.types.bases;
  ctor_edges = for_each_edge g.types.ctor_edges;
  conv_op_edges = for_each_edge g.types.conv_op_edges;
}

-- The entries of the ten lists.
unfoldable pub add_entries : CheckIndexPayload → GlobalIndex → GlobalIndex
add_entries p g = add_each add_exception_spec p.exception_specs (
    add_each add_header_static p.header_statics (
      add_each add_function_summary p.function_summaries (
        add_each add_static_init p.static_inits (
          add_each add_default_arg p.default_args (
            add_each add_specialization p.specializations (
              add_each add_odr_entry p.odr_entries (
                add_each add_coverage_property p.coverage (
                  add_each add_deduction_guide p.guides
                    (add_each add_function_overload p.overloads g)))))))))

-- `CheckIndexPayload::applyTo`
unfoldable pub apply_to : CheckIndexPayload → GlobalIndex → GlobalIndex
apply_to p g =
    with_types
      (λ t.
        add_each (λ e. add_conv_op_edge e.0 e.1) p.conv_op_edges
          (add_each (λ e. add_ctor_edge e.0 e.1) p.ctor_edges
            (add_each (λ e. add_base e.0 e.1) p.base_edges t)))
      (add_entries p g)

-- `absorb` adds what `capture` lists.
pub absorb : GlobalIndex → GlobalIndex → GlobalIndex
absorb shard g = with_types (absorb_relations shard.types) (add_entries (capture shard) g)
