-- ===== src/Checkpoint/Encode.antt =====
-- src/check/Checkpoint.cpp: `encodeIndexPayload`, with a function for each kind of entry.
use vycor_cpp.Prelude.{ℕ, Bool, List, ◌++◌, bit_or, if◌then◌else◌}
use vycor_cpp.Prelude.Int.{to_u32}
use vycor_cpp.Checkpoint.Wire.{put_u8, put_u32, put_u64, put_str, put_list, put_string_pairs}
use vycor_cpp.Checkpoint.Entries.{
  FunctionOverloadEntry, DeductionGuideEntry, CoveragePropertyEntry, OdrEntry, SpecializationEntry,
  DefaultArgEntry, StaticInitEntry, FunctionSummaryEntry, HeaderStaticEntry, ExceptionSpecEntry,
  CheckIndexPayload,
}

-- `b ? 1 : 0`
unfoldable pub put_bool : Bool → List ℕ
put_bool b = put_u8 (if b then 1 else 0)

-- `b ? mask : 0`
unfoldable pub flag : Bool → ℕ → ℕ
flag b mask = if b then mask else 0

unfoldable pub put_overload : FunctionOverloadEntry → List ℕ
put_overload e =
    put_str e.qualified_name
    ++ (put_str e.header_path
        ++ (put_list put_str e.param_types ++ (put_str e.return_type ++ (put_u32 e.source_line))))

unfoldable pub put_guide : DeductionGuideEntry → List ℕ
put_guide e =
    put_str e.template_name
    ++ (put_str e.header_path
        ++ (put_list put_str e.param_types ++ (put_str e.deduced_type ++ (put_u32 e.source_line))))

unfoldable pub coverage_flags : CoveragePropertyEntry → ℕ
coverage_flags e =
    bit_or
      (bit_or
        (bit_or
          (bit_or
            (bit_or (bit_or (flag e.is_inlined 0x01) (flag e.is_constexpr 0x02))
              (flag e.is_defaulted 0x04))
            (flag e.is_trivial 0x08))
          (flag e.is_virtual 0x10))
        (flag e.is_static_method 0x20))
      (flag e.is_implicitly_instantiable 0x40)

unfoldable pub put_coverage : CoveragePropertyEntry → List ℕ
put_coverage e =
    put_str e.qualified_name
    ++ (put_str e.header_path
        ++ (put_u32 e.source_line
            ++ (put_str e.enclosing_class
                ++ (put_u32 (to_u32 e.gva_linkage)
                    ++ (put_u8 (coverage_flags e)
                        ++ (put_u32 (to_u32 e.templated_kind)
                            ++ (put_u32 (to_u32 e.storage_class)
                                ++ (put_u32 (to_u32 e.formal_linkage)
                                    ++ (put_u32 e.body_stmt_count ++ (put_str e.signature))))))))))

unfoldable pub put_odr_entry : OdrEntry → List ℕ
put_odr_entry e =
    put_str e.qualified_name
    ++ (put_str e.signature
        ++ (put_bool e.is_class
            ++ (put_str e.enclosing_class
                ++ (put_str e.file_path
                    ++ (put_u32 e.line ++ (put_u64 e.odr_hash ++ (put_str e.tu_path)))))))

unfoldable pub put_specialization : SpecializationEntry → List ℕ
put_specialization e =
    put_str e.template_name
    ++ (put_str e.args_string
        ++ (put_str e.header_path ++ (put_u32 e.line ++ (put_str e.resolution_summary))))

unfoldable pub put_default_arg : DefaultArgEntry → List ℕ
put_default_arg e =
    put_str e.qualified_name
    ++ (put_str e.signature
        ++ (put_u32 e.param_index
            ++ (put_str e.param_name
                ++ (put_str e.default_text ++ (put_str e.file_path ++ (put_u32 e.line))))))

unfoldable pub static_init_flags : StaticInitEntry → ℕ
static_init_flags e = bit_or (flag e.dynamic_init 0x01) (flag e.is_constructor_fn 0x02)

unfoldable pub put_static_init : StaticInitEntry → List ℕ
put_static_init e =
    put_str e.qualified_name
    ++ (put_str e.file_path
        ++ (put_u32 e.line
            ++ (put_u8 (static_init_flags e)
                ++ (put_list put_str e.referenced_globals
                    ++ (put_list put_str e.called_functions)))))

unfoldable pub function_summary_flags : FunctionSummaryEntry → ℕ
function_summary_flags e = bit_or (flag e.is_noexcept 0x01) (flag e.has_uncaught_throw 0x02)

unfoldable pub put_function_summary : FunctionSummaryEntry → List ℕ
put_function_summary e =
    put_str e.qualified_name
    ++ (put_str e.file_path
        ++ (put_u32 e.line
            ++ (put_u8 (function_summary_flags e)
                ++ (put_list put_str e.called_functions
                    ++ (put_list put_str e.unguarded_calls
                        ++ (put_string_pairs e.unguarded_call_sites
                            ++ (put_str e.uncaught_throw_site
                                ++ (put_list put_str e.referenced_globals))))))))

unfoldable pub put_header_static : HeaderStaticEntry → List ℕ
put_header_static e =
    put_str e.name
    ++ (put_str e.file_path
        ++ (put_u32 e.line ++ (put_bool e.is_const ++ (put_list put_str e.tu_paths))))

unfoldable pub put_exception_spec : ExceptionSpecEntry → List ℕ
put_exception_spec e =
    put_str e.qualified_name
    ++ (put_str e.signature
        ++ (put_bool e.is_noexcept ++ (put_str e.file_path ++ (put_u32 e.line))))

unfoldable pub encode_index_payload : CheckIndexPayload → List ℕ
encode_index_payload p =
    put_list put_overload p.overloads
    ++ (put_list put_guide p.guides
        ++ (put_list put_coverage p.coverage
            ++ (put_string_pairs p.base_edges
                ++ (put_string_pairs p.ctor_edges
                    ++ (put_string_pairs p.conv_op_edges
                        ++ (put_list put_odr_entry p.odr_entries
                            ++ (put_list put_specialization p.specializations
                                ++ (put_list put_default_arg p.default_args
                                    ++ (put_list put_static_init p.static_inits
                                        ++ (put_list put_function_summary p.function_summaries
                                            ++ (put_list put_header_static p.header_statics
                                                ++ (put_list put_exception_spec
                                                    p.exception_specs))))))))))))
