-- ===== src/Checkpoint/Decode.antt =====
-- src/check/Checkpoint.cpp: `decodeIndexPayload`, with a function for each kind of entry.
use vycor_cpp.Prelude.{ℕ, Bool, not, ◌==◌, bit_and}
use vycor_cpp.Prelude.Int.{ℤ, of_u32}
use vycor_cpp.Checkpoint.Wire.{Read, ◌>>=◌, ret, u8, u32, u64, str, read_list, read_string_pairs}
use vycor_cpp.Checkpoint.Entries.{
  FunctionOverloadEntry, DeductionGuideEntry, CoveragePropertyEntry, OdrEntry, SpecializationEntry,
  DefaultArgEntry, StaticInitEntry, FunctionSummaryEntry, HeaderStaticEntry, ExceptionSpecEntry,
  CheckIndexPayload,
}

-- `r.u8() != 0`
unfoldable pub read_bool : Read Bool
read_bool = do v ← u8; ret (not (v == 0))

-- `static_cast<int>(static_cast<int32_t>(r.u32()))`
unfoldable pub read_int : Read ℤ
read_int = do v ← u32; ret (of_u32 v)

-- `flags & mask` as a bool.
unfoldable pub has_flag : ℕ → ℕ → Bool
has_flag flags mask = not (bit_and flags mask == 0)

unfoldable pub read_overload : Read FunctionOverloadEntry
read_overload = do
  qualified_name ← str
  header_path ← str
  param_types ← read_list str
  return_type ← str
  source_line ← u32
  ret (record {
    qualified_name = qualified_name;
    header_path = header_path;
    param_types = param_types;
    return_type = return_type;
    source_line = source_line;
  })

unfoldable pub read_guide : Read DeductionGuideEntry
read_guide = do
  template_name ← str
  header_path ← str
  param_types ← read_list str
  deduced_type ← str
  source_line ← u32
  ret (record {
    template_name = template_name;
    header_path = header_path;
    param_types = param_types;
    deduced_type = deduced_type;
    source_line = source_line;
  })

unfoldable pub read_coverage : Read CoveragePropertyEntry
read_coverage = do
  qualified_name ← str
  header_path ← str
  source_line ← u32
  enclosing_class ← str
  gva_linkage ← read_int
  flags ← u8
  templated_kind ← read_int
  storage_class ← read_int
  formal_linkage ← read_int
  body_stmt_count ← u32
  signature ← str
  ret (record {
    qualified_name = qualified_name;
    header_path = header_path;
    source_line = source_line;
    enclosing_class = enclosing_class;
    gva_linkage = gva_linkage;
    is_inlined = has_flag flags 0x01;
    is_constexpr = has_flag flags 0x02;
    is_defaulted = has_flag flags 0x04;
    is_trivial = has_flag flags 0x08;
    is_virtual = has_flag flags 0x10;
    is_static_method = has_flag flags 0x20;
    is_implicitly_instantiable = has_flag flags 0x40;
    templated_kind = templated_kind;
    storage_class = storage_class;
    formal_linkage = formal_linkage;
    body_stmt_count = body_stmt_count;
    signature = signature;
  })

unfoldable pub read_odr_entry : Read OdrEntry
read_odr_entry = do
  qualified_name ← str
  signature ← str
  is_class ← read_bool
  enclosing_class ← str
  file_path ← str
  line ← u32
  odr_hash ← u64
  tu_path ← str
  ret (record {
    qualified_name = qualified_name;
    signature = signature;
    is_class = is_class;
    enclosing_class = enclosing_class;
    file_path = file_path;
    line = line;
    odr_hash = odr_hash;
    tu_path = tu_path;
  })

unfoldable pub read_specialization : Read SpecializationEntry
read_specialization = do
  template_name ← str
  args_string ← str
  header_path ← str
  line ← u32
  resolution_summary ← str
  ret (record {
    template_name = template_name;
    args_string = args_string;
    header_path = header_path;
    line = line;
    resolution_summary = resolution_summary;
  })

unfoldable pub read_default_arg : Read DefaultArgEntry
read_default_arg = do
  qualified_name ← str
  signature ← str
  param_index ← u32
  param_name ← str
  default_text ← str
  file_path ← str
  line ← u32
  ret (record {
    qualified_name = qualified_name;
    signature = signature;
    param_index = param_index;
    param_name = param_name;
    default_text = default_text;
    file_path = file_path;
    line = line;
  })

unfoldable pub read_static_init : Read StaticInitEntry
read_static_init = do
  qualified_name ← str
  file_path ← str
  line ← u32
  flags ← u8
  referenced_globals ← read_list str
  called_functions ← read_list str
  ret (record {
    qualified_name = qualified_name;
    file_path = file_path;
    line = line;
    dynamic_init = has_flag flags 0x01;
    is_constructor_fn = has_flag flags 0x02;
    referenced_globals = referenced_globals;
    called_functions = called_functions;
  })

unfoldable pub read_function_summary : Read FunctionSummaryEntry
read_function_summary = do
  qualified_name ← str
  file_path ← str
  line ← u32
  flags ← u8
  called_functions ← read_list str
  unguarded_calls ← read_list str
  unguarded_call_sites ← read_string_pairs
  uncaught_throw_site ← str
  referenced_globals ← read_list str
  ret (record {
    qualified_name = qualified_name;
    file_path = file_path;
    line = line;
    is_noexcept = has_flag flags 0x01;
    has_uncaught_throw = has_flag flags 0x02;
    called_functions = called_functions;
    unguarded_calls = unguarded_calls;
    unguarded_call_sites = unguarded_call_sites;
    uncaught_throw_site = uncaught_throw_site;
    referenced_globals = referenced_globals;
  })

unfoldable pub read_header_static : Read HeaderStaticEntry
read_header_static = do
  name ← str
  file_path ← str
  line ← u32
  is_const ← read_bool
  tu_paths ← read_list str
  ret (record {
    name = name;
    file_path = file_path;
    line = line;
    is_const = is_const;
    tu_paths = tu_paths;
  })

unfoldable pub read_exception_spec : Read ExceptionSpecEntry
read_exception_spec = do
  qualified_name ← str
  signature ← str
  is_noexcept ← read_bool
  file_path ← str
  line ← u32
  ret (record {
    qualified_name = qualified_name;
    signature = signature;
    is_noexcept = is_noexcept;
    file_path = file_path;
    line = line;
  })

-- The caller looks at the `ok` that is left.
unfoldable pub decode_index_payload : Read CheckIndexPayload
decode_index_payload = do
  overloads ← read_list read_overload
  guides ← read_list read_guide
  coverage ← read_list read_coverage
  base_edges ← read_string_pairs
  ctor_edges ← read_string_pairs
  conv_op_edges ← read_string_pairs
  odr_entries ← read_list read_odr_entry
  specializations ← read_list read_specialization
  default_args ← read_list read_default_arg
  static_inits ← read_list read_static_init
  function_summaries ← read_list read_function_summary
  header_statics ← read_list read_header_static
  exception_specs ← read_list read_exception_spec
  ret (record {
    overloads = overloads;
    guides = guides;
    coverage = coverage;
    base_edges = base_edges;
    ctor_edges = ctor_edges;
    conv_op_edges = conv_op_edges;
    odr_entries = odr_entries;
    specializations = specializations;
    default_args = default_args;
    static_inits = static_inits;
    function_summaries = function_summaries;
    header_statics = header_statics;
    exception_specs = exception_specs;
  })
