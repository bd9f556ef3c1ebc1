-- ===== src/Checkpoint/Diagnostics.antt =====
-- include/vycor/check/GlobalIndex.h `Diagnostic`, include/vycor/callgraph/TuOutcome.h, and their wire
-- form in src/check/Checkpoint.cpp.
use vycor_cpp.Prelude.{ℕ, zero, suc, true, false, Option, none, some, List, [], ◌∷◌, ◌++◌}
use vycor_cpp.Checkpoint.Wire.{
  put_u8, put_u32, put_str, put_list, Read, ◌>>=◌, ret, u8, u32, str, read_list,
}

pub data TuStatus : Type 0 where
  indexed partial crashed poisoned skipped timed_out : TuStatus

pub record TuOutcome : Type 0 where
  pub status : TuStatus
  pub detail : List ℕ

-- The enumerators in order, from 0.
unfoldable pub status_code : TuStatus → ℕ
status_code indexed = 0
status_code partial = 1
status_code crashed = 2
status_code poisoned = 3
status_code skipped = 4
status_code timed_out = 5

abbrev statuses : List TuStatus
statuses = indexed ∷ partial ∷ crashed ∷ poisoned ∷ skipped ∷ timed_out ∷ []

pub data Kind : Type 0 where
  adl_fallback adl_ambiguity adl_same_score ctad_fallback coverage_gva_mismatch
        coverage_discardable_odr coverage_available_externally coverage_property_divergence
        dead_code_pessimistic dead_code_optimistic odr_duplicate_definition odr_divergent_definition
        specialization_invisible default_arg_divergent static_init_order_dependency
        static_init_hazard exception_escape header_static_duplicated exception_spec_divergent
        custom :
      Kind

unfoldable pub kind_code : Kind → ℕ
kind_code adl_fallback = 0
kind_code adl_ambiguity = 1
kind_code adl_same_score = 2
kind_code ctad_fallback = 3
kind_code coverage_gva_mismatch = 4
kind_code coverage_discardable_odr = 5
kind_code coverage_available_externally = 6
kind_code coverage_property_divergence = 7
kind_code dead_code_pessimistic = 8
kind_code dead_code_optimistic = 9
kind_code odr_duplicate_definition = 10
kind_code odr_divergent_definition = 11
kind_code specialization_invisible = 12
kind_code default_arg_divergent = 13
kind_code static_init_order_dependency = 14
kind_code static_init_hazard = 15
kind_code exception_escape = 16
kind_code header_static_duplicated = 17
kind_code exception_spec_divergent = 18
kind_code custom = 19

abbrev kinds : List Kind
kinds =
    adl_fallback ∷ adl_ambiguity ∷ adl_same_score ∷ ctad_fallback ∷ coverage_gva_mismatch
    ∷ coverage_discardable_odr ∷ coverage_available_externally ∷ coverage_property_divergence
    ∷ dead_code_pessimistic ∷ dead_code_optimistic ∷ odr_duplicate_definition
    ∷ odr_divergent_definition ∷ specialization_invisible ∷ default_arg_divergent
    ∷ static_init_order_dependency ∷ static_init_hazard ∷ exception_escape
    ∷ header_static_duplicated ∷ exception_spec_divergent ∷ custom ∷ []

pub record Diagnostic : Type 0 where
  pub kind : Kind
  pub call_location : List ℕ
  pub resolved_decl : List ℕ
  pub better_decl : List ℕ
  pub missing_header : List ℕ
  pub message : List ℕ
  pub check_name : List ℕ
  pub entities : List (List ℕ)
  pub scope : List ℕ
  pub file : List ℕ

unfoldable pub nth {ℓ} : {A : Type ℓ} → List A → ℕ → Option A
nth [] n = none
nth (x ∷ xs) zero = some x
nth (x ∷ xs) (suc n) = nth xs n

-- The enumerator of a code, unless the code is past the last one.
unfoldable pub status_of : ℕ → Option TuStatus
unfolding nth
status_of n = nth statuses n

unfoldable pub kind_of : ℕ → Option Kind
unfolding nth
kind_of n = nth kinds n

unfoldable pub put_outcome : TuOutcome → List ℕ
put_outcome o = put_u8 (status_code o.status) ++ put_str o.detail

-- A status past `TimedOut` clears `ok`; the outcome read is then not used.
unfoldable pub accept_status : ℕ → List ℕ → Read TuOutcome
accept_status code detail r = elim (status_of code) [
  | some status ↦ (record { status = status; detail = detail }, r)
  | none ↦ (record { status = skipped; detail = detail }, record r { ok = false })
]

unfoldable pub read_outcome : Read TuOutcome
read_outcome = do code ← u8; detail ← str; accept_status code detail

unfoldable pub put_diagnostic : Diagnostic → List ℕ
put_diagnostic d =
    put_u32 (kind_code d.kind)
    ++ (put_str d.call_location
        ++ (put_str d.resolved_decl
            ++ (put_str d.better_decl
                ++ (put_str d.missing_header
                    ++ (put_str d.message
                        ++ (put_str d.check_name
                            ++ (put_list put_str d.entities
                                ++ (put_str d.scope ++ (put_str d.file)))))))))

unfoldable pub encode_diagnostics : List Diagnostic → List ℕ
encode_diagnostics diags = put_list put_diagnostic diags

-- The fields behind the kind.
unfoldable pub read_diagnostic : Kind → Read Diagnostic
read_diagnostic kind = do
  call_location ← str
  resolved_decl ← str
  better_decl ← str
  missing_header ← str
  message ← str
  check_name ← str
  entities ← read_list str
  scope ← str
  file ← str
  ret (record {
    kind = kind;
    call_location = call_location;
    resolved_decl = resolved_decl;
    better_decl = better_decl;
    missing_header = missing_header;
    message = message;
    check_name = check_name;
    entities = entities;
    scope = scope;
    file = file;
  })

-- A kind past `Custom` clears `ok` and ends the loop.
unfoldable pub diagnostics_loop : ℕ → Read (List Diagnostic)
diagnostics_loop zero r = ([], r)
diagnostics_loop (suc n) r = elim r.ok [
  | true ↦
      let (code, r₁) = u32 r in
      elim (kind_of code) [
        | some kind ↦
            let (d, r₂) = read_diagnostic kind r₁ in
            let (later, r₃) = diagnostics_loop n r₂ in (d ∷ later, r₃)
        | none ↦ ([], record r₁ { ok = false })
      ]
  | false ↦ ([], r)
]

unfoldable pub decode_diagnostics : Read (List Diagnostic)
decode_diagnostics = do n ← u32; diagnostics_loop n
