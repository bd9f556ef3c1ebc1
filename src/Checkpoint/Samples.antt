-- ===== src/Checkpoint/Samples.antt =====
-- Sample records for the tests.
use vycor_cpp.Prelude.{true, false, [], ◌∷◌}
use vycor_cpp.Checkpoint.Entries.{CheckIndexPayload, StaticInitEntry}
use vycor_cpp.Checkpoint.Diagnostics.{TuOutcome, Diagnostic, indexed, static_init_hazard}

abbrev pub counter : StaticInitEntry
counter = record {
  qualified_name = b'n' ∷ [];
  file_path = b'a' ∷ [];
  line = 7;
  dynamic_init = true;
  is_constructor_fn = false;
  referenced_globals = (b'm' ∷ []) ∷ [];
  called_functions = [];
}

abbrev pub contribution : CheckIndexPayload
contribution = record {
  overloads = [];
  guides = [];
  coverage = [];
  odr_entries = [];
  specializations = [];
  default_args = [];
  static_inits = counter ∷ [];
  function_summaries = [];
  header_statics = [];
  exception_specs = [];
  base_edges = ((b'D' ∷ []), (b'B' ∷ [])) ∷ [];
  ctor_edges = [];
  conv_op_edges = [];
}

abbrev pub hazard : Diagnostic
hazard = record {
  kind = static_init_hazard;
  call_location = b'a' ∷ [];
  resolved_decl = [];
  better_decl = [];
  missing_header = [];
  message = b'm' ∷ [];
  check_name = b'c' ∷ [];
  entities = (b'n' ∷ []) ∷ [];
  scope = [];
  file = b'a' ∷ [];
}

abbrev pub clean : TuOutcome
clean = record { status = indexed; detail = [] }
