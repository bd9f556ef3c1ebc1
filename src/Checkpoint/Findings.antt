-- ===== src/Checkpoint/Findings.antt =====
-- Outcomes and diagnostics are read back as they were written.
use vycor_cpp.Prelude.{
  ℕ, zero, suc, ◌^◌, ◌<◌, ◌≡◌, refl, some, List, [], ◌∷◌, ◌++◌, append_assoc, All, length, arith,
}
use vycor_cpp.Checkpoint.Wire.{put_u32, put_str, put_all, put_list, Reader, ◌>>=◌, u32, str}
use vycor_cpp.Checkpoint.Wire.Reads.{
  Reads, Reads-bind, Reads-last, at_bytes, Fits, FitsStrings, count-Reads, u8-Reads, u32-Reads,
  str-Reads, strings-Reads,
}
use vycor_cpp.Checkpoint.Diagnostics.{
  TuStatus, indexed, partial, crashed, poisoned, skipped, timed_out, TuOutcome, Kind, adl_fallback,
  adl_ambiguity, adl_same_score, ctad_fallback, coverage_gva_mismatch, coverage_discardable_odr,
  coverage_available_externally, coverage_property_divergence, dead_code_pessimistic,
  dead_code_optimistic, odr_duplicate_definition, odr_divergent_definition,
  specialization_invisible, default_arg_divergent, static_init_order_dependency, static_init_hazard,
  exception_escape, header_static_duplicated, exception_spec_divergent, custom, Diagnostic,
  status_code, kind_code, status_of, kind_of, put_outcome, accept_status, read_outcome,
  put_diagnostic, encode_diagnostics, read_diagnostic, diagnostics_loop, decode_diagnostics,
}

status_of-status_code : (s : TuStatus) → status_of (status_code s) ≡ some s
unfolding status_of status_code
status_of-status_code indexed = refl
status_of-status_code partial = refl
status_of-status_code crashed = refl
status_of-status_code poisoned = refl
status_of-status_code skipped = refl
status_of-status_code timed_out = refl

status_code_lt : (s : TuStatus) → status_code s < 2 ^ 8
unfolding status_code
status_code_lt indexed = omega arith
status_code_lt partial = omega arith
status_code_lt crashed = omega arith
status_code_lt poisoned = omega arith
status_code_lt skipped = omega arith
status_code_lt timed_out = omega arith

kind_of-kind_code : (k : Kind) → kind_of (kind_code k) ≡ some k
unfolding kind_of kind_code
kind_of-kind_code adl_fallback = refl
kind_of-kind_code adl_ambiguity = refl
kind_of-kind_code adl_same_score = refl
kind_of-kind_code ctad_fallback = refl
kind_of-kind_code coverage_gva_mismatch = refl
kind_of-kind_code coverage_discardable_odr = refl
kind_of-kind_code coverage_available_externally = refl
kind_of-kind_code coverage_property_divergence = refl
kind_of-kind_code dead_code_pessimistic = refl
kind_of-kind_code dead_code_optimistic = refl
kind_of-kind_code odr_duplicate_definition = refl
kind_of-kind_code odr_divergent_definition = refl
kind_of-kind_code specialization_invisible = refl
kind_of-kind_code default_arg_divergent = refl
kind_of-kind_code static_init_order_dependency = refl
kind_of-kind_code static_init_hazard = refl
kind_of-kind_code exception_escape = refl
kind_of-kind_code header_static_duplicated = refl
kind_of-kind_code exception_spec_divergent = refl
kind_of-kind_code custom = refl

kind_code_lt : (k : Kind) → kind_code k < 2 ^ 32
unfolding kind_code
kind_code_lt adl_fallback = omega arith
kind_code_lt _ = omega arith

accept_status-status_code :
    (s : TuStatus) (detail : List ℕ) (r : Reader)
    → accept_status (status_code s) detail r ≡ (record { status = s; detail = detail }, r)
unfolding accept_status status_code status_of
accept_status-status_code indexed detail r = refl
accept_status-status_code _ detail r = refl

accept_status-Reads :
    (o : TuOutcome) (b : List ℕ)
    → Reads str b o.detail
    → Reads (str >>= accept_status (status_code o.status)) b o
unfolding ◌>>=◌
accept_status-Reads o b p = record {
  run = λ rest. rw (p.run rest) (accept_status-status_code o.status o.detail (at_bytes rest));
}

pub outcome-Reads : (o : TuOutcome) → Fits o.detail → Reads read_outcome (put_outcome o) o
unfolding read_outcome put_outcome
outcome-Reads o h =
    Reads-bind _ (u8-Reads (status_code o.status) (status_code_lt o.status))
      (accept_status-Reads o _ (str-Reads o.detail h))

abbrev pub FitsDiagnostic : Diagnostic → Type 0
FitsDiagnostic d =
    Fits d.call_location
    × Fits d.resolved_decl
    × Fits d.better_decl
    × Fits d.missing_header
    × Fits d.message
    × Fits d.check_name
    × FitsStrings d.entities
    × Fits d.scope
    × Fits d.file

read_diagnostic-Reads :
    (d : Diagnostic)
    → FitsDiagnostic d
    → Reads
        (read_diagnostic d.kind)
        (put_str d.call_location
          ++ (put_str d.resolved_decl
              ++ (put_str d.better_decl
                  ++ (put_str d.missing_header
                      ++ (put_str d.message
                          ++ (put_str d.check_name
                              ++ (put_list put_str d.entities
                                  ++ (put_str d.scope ++ (put_str d.file)))))))))
        d
unfolding read_diagnostic
read_diagnostic-Reads d h = Reads-bind _ (str-Reads d.call_location h.0) (
    Reads-bind _ (str-Reads d.resolved_decl h.1) (
      Reads-bind _ (str-Reads d.better_decl h.2) (
        Reads-bind _ (str-Reads d.missing_header h.3) (
          Reads-bind _ (str-Reads d.message h.4) (
            Reads-bind _ (str-Reads d.check_name h.5) (
              Reads-bind _ (strings-Reads d.entities h.6)
                (Reads-bind _ (str-Reads d.scope h.7) (Reads-last _ (str-Reads d.file h.8)))))))))

abbrev pub FitsDiagnostics : List Diagnostic → Type 0
FitsDiagnostics ds = Fits ds × All FitsDiagnostic ds

diagnostics_loop-zero : (r : Reader) → diagnostics_loop zero r ≡ ([], r)
unfolding diagnostics_loop
diagnostics_loop-zero r = refl

diagnostics_step :
    (n : ℕ) (b c e : List ℕ) (d : Diagnostic) (ds : List Diagnostic) (r : Reader)
    → u32 (at_bytes b) ≡ (kind_code d.kind, at_bytes c)
    → read_diagnostic d.kind (at_bytes c) ≡ (d, at_bytes e)
    → diagnostics_loop n (at_bytes e) ≡ (ds, r)
    → diagnostics_loop (suc n) (at_bytes b) ≡ (d ∷ ds, r)
unfolding diagnostics_loop
diagnostics_step n b c e d ds r p q s =
    rw (p, kind_of-kind_code d.kind, p, q, s, diagnostics_loop) refl

diagnostics_loop-Reads :
    (ds : List Diagnostic)
    → All FitsDiagnostic ds
    → Reads (diagnostics_loop (length ds)) (put_all put_diagnostic ds) ds
unfolding put_all put_diagnostic
diagnostics_loop-Reads [] h = record { run = λ rest. diagnostics_loop-zero (at_bytes rest) }
diagnostics_loop-Reads (d ∷ ds) h = record {
  run = λ rest.
      let later = put_all put_diagnostic ds ++ rest in
      rw
        (
          append_assoc (put_diagnostic d) (put_all put_diagnostic ds) rest,
          append_assoc (put_u32 (kind_code d.kind)) _ later,
        )
        (diagnostics_step (length ds) _ _ later d ds (at_bytes rest)
          ((u32-Reads (kind_code d.kind) (kind_code_lt d.kind)).run _)
          ((read_diagnostic-Reads d h.0).run later) ((diagnostics_loop-Reads ds h.1).run rest));
}

-- If every string and list of the diagnostics fits its field, decodeDiagnostics reads back exactly
-- the diagnostics that encodeDiagnostics wrote, and stops at their end, whatever bytes follow.
pub diagnostics-Reads :
    (ds : List Diagnostic)
    → FitsDiagnostics ds
    → Reads decode_diagnostics (encode_diagnostics ds) ds
unfolding decode_diagnostics encode_diagnostics put_list
diagnostics-Reads ds h = Reads-bind _ (count-Reads ds h.0) (diagnostics_loop-Reads ds h.1)
