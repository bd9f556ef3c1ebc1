-- ===== src/Checkpoint/Entries.antt =====
-- include/vycor/check/GlobalIndex.h: the entries of the index, and the payload of
-- include/vycor/check/Checkpoint.h. A string is the list of its bytes, an `unsigned` a number below
-- 2^32.
use vycor_cpp.Prelude.{ℕ, Bool, List}
use vycor_cpp.Prelude.Int.{ℤ}

pub record FunctionOverloadEntry : Type 0 where
  pub qualified_name : List ℕ
  pub header_path : List ℕ
  pub param_types : List (List ℕ)
  pub return_type : List ℕ
  pub source_line : ℕ

pub record DeductionGuideEntry : Type 0 where
  pub template_name : List ℕ
  pub header_path : List ℕ
  pub param_types : List (List ℕ)
  pub deduced_type : List ℕ
  pub source_line : ℕ

pub record CoveragePropertyEntry : Type 0 where
  pub qualified_name : List ℕ
  pub header_path : List ℕ
  pub source_line : ℕ
  pub enclosing_class : List ℕ
  pub gva_linkage : ℤ
  pub is_inlined : Bool
  pub is_constexpr : Bool
  pub is_defaulted : Bool
  pub is_trivial : Bool
  pub is_virtual : Bool
  pub is_static_method : Bool
  pub is_implicitly_instantiable : Bool
  pub templated_kind : ℤ
  pub storage_class : ℤ
  pub formal_linkage : ℤ
  pub body_stmt_count : ℕ
  pub signature : List ℕ

pub record OdrEntry : Type 0 where
  pub qualified_name : List ℕ
  pub signature : List ℕ
  pub is_class : Bool
  pub enclosing_class : List ℕ
  pub file_path : List ℕ
  pub line : ℕ
  pub odr_hash : ℕ
  pub tu_path : List ℕ

pub record SpecializationEntry : Type 0 where
  pub template_name : List ℕ
  pub args_string : List ℕ
  pub header_path : List ℕ
  pub line : ℕ
  pub resolution_summary : List ℕ

pub record DefaultArgEntry : Type 0 where
  pub qualified_name : List ℕ
  pub signature : List ℕ
  pub param_index : ℕ
  pub param_name : List ℕ
  pub default_text : List ℕ
  pub file_path : List ℕ
  pub line : ℕ

pub record StaticInitEntry : Type 0 where
  pub qualified_name : List ℕ
  pub file_path : List ℕ
  pub line : ℕ
  pub dynamic_init : Bool
  pub is_constructor_fn : Bool
  pub referenced_globals : List (List ℕ)
  pub called_functions : List (List ℕ)

pub record FunctionSummaryEntry : Type 0 where
  pub qualified_name : List ℕ
  pub file_path : List ℕ
  pub line : ℕ
  pub is_noexcept : Bool
  pub has_uncaught_throw : Bool
  pub called_functions : List (List ℕ)
  pub unguarded_calls : List (List ℕ)
  pub unguarded_call_sites : List (List ℕ × List ℕ)
  pub uncaught_throw_site : List ℕ
  pub referenced_globals : List (List ℕ)

pub record HeaderStaticEntry : Type 0 where
  pub name : List ℕ
  pub file_path : List ℕ
  pub line : ℕ
  pub is_const : Bool
  pub tu_paths : List (List ℕ)

pub record ExceptionSpecEntry : Type 0 where
  pub qualified_name : List ℕ
  pub signature : List ℕ
  pub is_noexcept : Bool
  pub file_path : List ℕ
  pub line : ℕ

-- One translation unit's complete contribution to the index.
pub record CheckIndexPayload : Type 0 where
  pub overloads : List FunctionOverloadEntry
  pub guides : List DeductionGuideEntry
  pub coverage : List CoveragePropertyEntry
  pub odr_entries : List OdrEntry
  pub specializations : List SpecializationEntry
  pub default_args : List DefaultArgEntry
  pub static_inits : List StaticInitEntry
  pub function_summaries : List FunctionSummaryEntry
  pub header_statics : List HeaderStaticEntry
  pub exception_specs : List ExceptionSpecEntry
  pub base_edges : List (List ℕ × List ℕ)
  pub ctor_edges : List (List ℕ × List ℕ)
  pub conv_op_edges : List (List ℕ × List ℕ)
