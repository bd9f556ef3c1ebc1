-- ===== src/Checkpoint/Payload.antt =====
-- Each kind of entry, and the whole payload, is read back as it was written.
use vycor_cpp.Prelude.{◌^◌, ◌<◌, subst, All}
use vycor_cpp.Prelude.Int.{IsInt32}
use vycor_cpp.Checkpoint.Wire.Reads.{
  Reads, Reads-bind, Reads-last, Fits, FitsStrings, FitsPairs, u8-Reads, u32-Reads, u64-Reads,
  str-Reads, read_list-Reads, strings-Reads, string_pairs-Reads,
}
use vycor_cpp.Checkpoint.Entries.{
  FunctionOverloadEntry, DeductionGuideEntry, CoveragePropertyEntry, OdrEntry, SpecializationEntry,
  DefaultArgEntry, StaticInitEntry, FunctionSummaryEntry, HeaderStaticEntry, ExceptionSpecEntry,
  CheckIndexPayload,
}
use vycor_cpp.Checkpoint.Encode.{
  put_overload, put_guide, put_coverage, put_odr_entry, put_specialization, put_default_arg,
  put_static_init, put_function_summary, put_header_static, put_exception_spec, coverage_flags,
  static_init_flags, function_summary_flags, encode_index_payload,
}
use vycor_cpp.Checkpoint.Decode.{
  read_overload, read_guide, read_coverage, read_odr_entry, read_specialization, read_default_arg,
  read_static_init, read_function_summary, read_header_static, read_exception_spec,
  decode_index_payload,
}
use vycor_cpp.Checkpoint.Flags.{
  bool-Reads, int-Reads, coverage_flags_lt, static_init_flags_lt, function_summary_flags_lt,
  coverage_flags_read, static_init_flags_read, function_summary_flags_read,
}

-- What the fixed widths can hold.
abbrev pub FitsFunctionOverloadEntry : FunctionOverloadEntry → Type 0
FitsFunctionOverloadEntry e =
    Fits e.qualified_name
    × Fits e.header_path
    × FitsStrings e.param_types
    × Fits e.return_type
    × (e.source_line < 2 ^ 32)

abbrev pub FitsDeductionGuideEntry : DeductionGuideEntry → Type 0
FitsDeductionGuideEntry e =
    Fits e.template_name
    × Fits e.header_path
    × FitsStrings e.param_types
    × Fits e.deduced_type
    × (e.source_line < 2 ^ 32)

abbrev pub FitsCoveragePropertyEntry : CoveragePropertyEntry → Type 0
FitsCoveragePropertyEntry e =
    Fits e.qualified_name
    × Fits e.header_path
    × (e.source_line < 2 ^ 32)
    × Fits e.enclosing_class
    × IsInt32 e.gva_linkage
    × IsInt32 e.templated_kind
    × IsInt32 e.storage_class
    × IsInt32 e.formal_linkage
    × (e.body_stmt_count < 2 ^ 32)
    × Fits e.signature

abbrev pub FitsOdrEntry : OdrEntry → Type 0
FitsOdrEntry e =
    Fits e.qualified_name
    × Fits e.signature
    × Fits e.enclosing_class
    × Fits e.file_path
    × (e.line < 2 ^ 32)
    × (e.odr_hash < 2 ^ 64)
    × Fits e.tu_path

abbrev pub FitsSpecializationEntry : SpecializationEntry → Type 0
FitsSpecializationEntry e =
    Fits e.template_name
    × Fits e.args_string
    × Fits e.header_path
    × (e.line < 2 ^ 32)
    × Fits e.resolution_summary

abbrev pub FitsDefaultArgEntry : DefaultArgEntry → Type 0
FitsDefaultArgEntry e =
    Fits e.qualified_name
    × Fits e.signature
    × (e.param_index < 2 ^ 32)
    × Fits e.param_name
    × Fits e.default_text
    × Fits e.file_path
    × (e.line < 2 ^ 32)

abbrev pub FitsStaticInitEntry : StaticInitEntry → Type 0
FitsStaticInitEntry e =
    Fits e.qualified_name
    × Fits e.file_path
    × (e.line < 2 ^ 32)
    × FitsStrings e.referenced_globals
    × FitsStrings e.called_functions

abbrev pub FitsFunctionSummaryEntry : FunctionSummaryEntry → Type 0
FitsFunctionSummaryEntry e =
    Fits e.qualified_name
    × Fits e.file_path
    × (e.line < 2 ^ 32)
    × FitsStrings e.called_functions
    × FitsStrings e.unguarded_calls
    × FitsPairs e.unguarded_call_sites
    × Fits e.uncaught_throw_site
    × FitsStrings e.referenced_globals

abbrev pub FitsHeaderStaticEntry : HeaderStaticEntry → Type 0
FitsHeaderStaticEntry e =
    Fits e.name × Fits e.file_path × (e.line < 2 ^ 32) × FitsStrings e.tu_paths

abbrev pub FitsExceptionSpecEntry : ExceptionSpecEntry → Type 0
FitsExceptionSpecEntry e =
    Fits e.qualified_name × Fits e.signature × Fits e.file_path × (e.line < 2 ^ 32)

abbrev pub FitsPayload : CheckIndexPayload → Type 0
FitsPayload p =
    (Fits p.overloads × All FitsFunctionOverloadEntry p.overloads)
    × (Fits p.guides × All FitsDeductionGuideEntry p.guides)
    × (Fits p.coverage × All FitsCoveragePropertyEntry p.coverage)
    × FitsPairs p.base_edges
    × FitsPairs p.ctor_edges
    × FitsPairs p.conv_op_edges
    × (Fits p.odr_entries × All FitsOdrEntry p.odr_entries)
    × (Fits p.specializations × All FitsSpecializationEntry p.specializations)
    × (Fits p.default_args × All FitsDefaultArgEntry p.default_args)
    × (Fits p.static_inits × All FitsStaticInitEntry p.static_inits)
    × (Fits p.function_summaries × All FitsFunctionSummaryEntry p.function_summaries)
    × (Fits p.header_statics × All FitsHeaderStaticEntry p.header_statics)
    × (Fits p.exception_specs × All FitsExceptionSpecEntry p.exception_specs)

pub overload-Reads :
    (e : FunctionOverloadEntry)
    → FitsFunctionOverloadEntry e
    → Reads read_overload (put_overload e) e
unfolding read_overload put_overload
overload-Reads e h = Reads-bind _ (str-Reads e.qualified_name h.0) (
    Reads-bind _ (str-Reads e.header_path h.1) (
      Reads-bind _ (strings-Reads e.param_types h.2)
        (Reads-bind _ (str-Reads e.return_type h.3) (Reads-last _ (u32-Reads e.source_line h.4)))))

pub guide-Reads :
    (e : DeductionGuideEntry) → FitsDeductionGuideEntry e → Reads read_guide (put_guide e) e
unfolding read_guide put_guide
guide-Reads e h = Reads-bind _ (str-Reads e.template_name h.0) (
    Reads-bind _ (str-Reads e.header_path h.1) (
      Reads-bind _ (strings-Reads e.param_types h.2)
        (Reads-bind _ (str-Reads e.deduced_type h.3) (Reads-last _ (u32-Reads e.source_line h.4)))))

pub coverage-Reads :
    (e : CoveragePropertyEntry)
    → FitsCoveragePropertyEntry e
    → Reads read_coverage (put_coverage e) e
unfolding read_coverage put_coverage
coverage-Reads e h = subst (Reads read_coverage (put_coverage e)) (coverage_flags_read e) (
    Reads-bind _ (str-Reads e.qualified_name h.0) (
      Reads-bind _ (str-Reads e.header_path h.1) (
        Reads-bind _ (u32-Reads e.source_line h.2) (
          Reads-bind _ (str-Reads e.enclosing_class h.3) (
            Reads-bind _ (int-Reads e.gva_linkage h.4) (
              Reads-bind _ (u8-Reads (coverage_flags e) (coverage_flags_lt e)) (
                Reads-bind _ (int-Reads e.templated_kind h.5) (
                  Reads-bind _ (int-Reads e.storage_class h.6) (
                    Reads-bind _ (int-Reads e.formal_linkage h.7) (
                      Reads-bind _ (u32-Reads e.body_stmt_count h.8)
                        (Reads-last _ (str-Reads e.signature h.9))))))))))))

pub odr_entry-Reads : (e : OdrEntry) → FitsOdrEntry e → Reads read_odr_entry (put_odr_entry e) e
unfolding read_odr_entry put_odr_entry
odr_entry-Reads e h = Reads-bind _ (str-Reads e.qualified_name h.0) (
    Reads-bind _ (str-Reads e.signature h.1) (
      Reads-bind _ (bool-Reads e.is_class) (
        Reads-bind _ (str-Reads e.enclosing_class h.2) (
          Reads-bind _ (str-Reads e.file_path h.3) (
            Reads-bind _ (u32-Reads e.line h.4) (
              Reads-bind _ (u64-Reads e.odr_hash h.5) (Reads-last _ (str-Reads e.tu_path h.6))))))))

pub specialization-Reads :
    (e : SpecializationEntry)
    → FitsSpecializationEntry e
    → Reads read_specialization (put_specialization e) e
unfolding read_specialization put_specialization
specialization-Reads e h = Reads-bind _ (str-Reads e.template_name h.0) (
    Reads-bind _ (str-Reads e.args_string h.1) (
      Reads-bind _ (str-Reads e.header_path h.2)
        (Reads-bind _ (u32-Reads e.line h.3) (Reads-last _ (str-Reads e.resolution_summary h.4)))))

pub default_arg-Reads :
    (e : DefaultArgEntry) → FitsDefaultArgEntry e → Reads read_default_arg (put_default_arg e) e
unfolding read_default_arg put_default_arg
default_arg-Reads e h = Reads-bind _ (str-Reads e.qualified_name h.0) (
    Reads-bind _ (str-Reads e.signature h.1) (
      Reads-bind _ (u32-Reads e.param_index h.2) (
        Reads-bind _ (str-Reads e.param_name h.3) (
          Reads-bind _ (str-Reads e.default_text h.4)
            (Reads-bind _ (str-Reads e.file_path h.5) (Reads-last _ (u32-Reads e.line h.6)))))))

pub static_init-Reads :
    (e : StaticInitEntry) → FitsStaticInitEntry e → Reads read_static_init (put_static_init e) e
unfolding read_static_init put_static_init
static_init-Reads e h =
    subst (Reads read_static_init (put_static_init e)) (static_init_flags_read e) (
      Reads-bind _ (str-Reads e.qualified_name h.0) (
        Reads-bind _ (str-Reads e.file_path h.1) (
          Reads-bind _ (u32-Reads e.line h.2) (
            Reads-bind _ (u8-Reads (static_init_flags e) (static_init_flags_lt e)) (
              Reads-bind _ (strings-Reads e.referenced_globals h.3)
                (Reads-last _ (strings-Reads e.called_functions h.4)))))))

pub function_summary-Reads :
    (e : FunctionSummaryEntry)
    → FitsFunctionSummaryEntry e
    → Reads read_function_summary (put_function_summary e) e
unfolding read_function_summary put_function_summary
function_summary-Reads e h =
    subst (Reads read_function_summary (put_function_summary e)) (function_summary_flags_read e) (
      Reads-bind _ (str-Reads e.qualified_name h.0) (
        Reads-bind _ (str-Reads e.file_path h.1) (
          Reads-bind _ (u32-Reads e.line h.2) (
            Reads-bind _ (u8-Reads (function_summary_flags e) (function_summary_flags_lt e)) (
              Reads-bind _ (strings-Reads e.called_functions h.3) (
                Reads-bind _ (strings-Reads e.unguarded_calls h.4) (
                  Reads-bind _ (string_pairs-Reads e.unguarded_call_sites h.5) (
                    Reads-bind _ (str-Reads e.uncaught_throw_site h.6)
                      (Reads-last _ (strings-Reads e.referenced_globals h.7))))))))))

pub header_static-Reads :
    (e : HeaderStaticEntry)
    → FitsHeaderStaticEntry e
    → Reads read_header_static (put_header_static e) e
unfolding read_header_static put_header_static
header_static-Reads e h = Reads-bind _ (str-Reads e.name h.0) (
    Reads-bind _ (str-Reads e.file_path h.1) (
      Reads-bind _ (u32-Reads e.line h.2)
        (Reads-bind _ (bool-Reads e.is_const) (Reads-last _ (strings-Reads e.tu_paths h.3)))))

pub exception_spec-Reads :
    (e : ExceptionSpecEntry)
    → FitsExceptionSpecEntry e
    → Reads read_exception_spec (put_exception_spec e) e
unfolding read_exception_spec put_exception_spec
exception_spec-Reads e h = Reads-bind _ (str-Reads e.qualified_name h.0) (
    Reads-bind _ (str-Reads e.signature h.1) (
      Reads-bind _ (bool-Reads e.is_noexcept)
        (Reads-bind _ (str-Reads e.file_path h.2) (Reads-last _ (u32-Reads e.line h.3)))))

-- If every string, list and number of an index payload fits its field, decodeIndexPayload reads back
-- exactly the payload that encodeIndexPayload wrote, and stops at its end, whatever bytes follow.
pub payload-Reads :
    (p : CheckIndexPayload) → FitsPayload p → Reads decode_index_payload (encode_index_payload p) p
unfolding decode_index_payload encode_index_payload
payload-Reads p h =
    Reads-bind _
      (read_list-Reads FitsFunctionOverloadEntry read_overload put_overload overload-Reads
        p.overloads h.0.0 h.0.1)
      (Reads-bind _
        (read_list-Reads FitsDeductionGuideEntry read_guide put_guide guide-Reads p.guides h.1.0
          h.1.1)
        (Reads-bind _
          (read_list-Reads FitsCoveragePropertyEntry read_coverage put_coverage coverage-Reads
            p.coverage h.2.0 h.2.1)
          (Reads-bind _ (string_pairs-Reads p.base_edges h.3) (
            Reads-bind _ (string_pairs-Reads p.ctor_edges h.4) (
              Reads-bind _ (string_pairs-Reads p.conv_op_edges h.5) (
                Reads-bind _
                  (read_list-Reads FitsOdrEntry read_odr_entry put_odr_entry odr_entry-Reads
                    p.odr_entries h.6.0 h.6.1)
                  (Reads-bind _
                    (read_list-Reads FitsSpecializationEntry read_specialization put_specialization
                      specialization-Reads p.specializations h.7.0 h.7.1)
                    (Reads-bind _
                      (read_list-Reads FitsDefaultArgEntry read_default_arg put_default_arg
                        default_arg-Reads p.default_args h.8.0 h.8.1)
                      (Reads-bind _
                        (read_list-Reads FitsStaticInitEntry read_static_init put_static_init
                          static_init-Reads p.static_inits h.9.0 h.9.1)
                        (Reads-bind _
                          (read_list-Reads FitsFunctionSummaryEntry read_function_summary
                            put_function_summary function_summary-Reads p.function_summaries h.10.0
                            h.10.1)
                          (Reads-bind _
                            (read_list-Reads FitsHeaderStaticEntry read_header_static
                              put_header_static header_static-Reads p.header_statics h.11.0 h.11.1)
                            (Reads-last _ (
                              read_list-Reads FitsExceptionSpecEntry read_exception_spec
                                put_exception_spec exception_spec-Reads p.exception_specs h.12.0
                                h.12.1)))))))))))))
