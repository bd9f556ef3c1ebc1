-- ===== src/Checkpoint/Identity/Tests.antt =====
-- The identity of concrete stamps and options.
use mathlib.Core.List.{Perm}
use vycor_cpp.Prelude.{
  ℕ, ◌^◌, ◌<◌, ◌≡◌, refl, ◌↔◌, true, false, Option, none, some, List, [], ◌∷◌, ◌++◌, list_eq, arith,
}
use vycor_cpp.GlobalIndex.Entries.{digits, to_string, lex_lt}
use vycor_cpp.Checkpoint.Journal.{FileStamp}
use vycor_cpp.Checkpoint.Identity.{
  codes, fnv64, fnv64_seed, insert_key, sort_keys, stamp_key, stamp_set_hash, AnalysisOptions,
  create_checks, flag_char, each_ended, canon_flags, canon, check_options_fingerprint,
}
use vycor_cpp.Checkpoint.Identity.Stamps.{stamp_text, stamp_set_hash-text}
use vycor_cpp.Checkpoint.Identity.Options.{SameFlags, check_options_fingerprint-canon}

abbrev old : FileStamp
old = record { path = codes "b.cpp"; mtime_ns = 12; size = 300 }

abbrev new : FileStamp
new = record { path = codes "a.cpp"; mtime_ns = 0; size = 7 }

abbrev defaults : AnalysisOptions
defaults = record {
  warn_same_score = false;
  model_convertibility = false;
  enable_odr_diag = false;
  enable_adl_diag = true;
  enable_ctad_diag = true;
  enable_specialization_diag = true;
  enable_default_arg_diag = true;
  enable_static_init_order_diag = true;
  enable_exception_escape_diag = false;
  include_call_site_locations = false;
  enable_header_static_diag = true;
  enable_exception_spec_diag = true;
  absolute_paths = false;
  project_root = codes "/p";
  disabled_checks = codes "x" ∷ [];
}

-- The checks x, a factory without one, z and y.
abbrev registered : List (Option (List ℕ))
registered = some (codes "x") ∷ none ∷ some (codes "z") ∷ some (codes "y") ∷ []

stamp_set_hash-text_example :
    (stamp_set_hash (old ∷ new ∷ []) ≡ fnv64 (stamp_text (old ∷ new ∷ [])) fnv64_seed)
    × ((stamp_text (old ∷ new ∷ []) ≡ stamp_text (new ∷ old ∷ []))
        ↔ Perm (old ∷ new ∷ []) (new ∷ old ∷ []))
stamp_set_hash-text_example =
    stamp_set_hash-text (old ∷ new ∷ []) (new ∷ old ∷ []) (omega arith) (omega arith)

old_and_new : stamp_text (old ∷ new ∷ []) ≡ codes "a.cpp|0|7\nb.cpp|12|300\n"
unfolding each_ended sort_keys insert_key stamp_key digits to_string lex_lt
old_and_new = refl

-- The published hash of the text "a".
fnv64_a : fnv64 (codes "a") fnv64_seed ≡ 0xaf63dc4c8601ec8c
unfolding fnv64
fnv64_a = refl

check_options_fingerprint-canon_example :
    (check_options_fingerprint (codes "1.0") defaults registered < 2 ^ 64)
    × ((canon (codes "1.0") defaults registered ≡ canon (codes "1.0") defaults []) ↔ (
        SameFlags defaults defaults
        × (defaults.project_root ≡ defaults.project_root)
        × Perm (create_checks registered (codes "x" ∷ [])) (create_checks [] (codes "x" ∷ []))))
unfolding create_checks list_eq
check_options_fingerprint-canon_example =
    check_options_fingerprint-canon (codes "1.0") defaults defaults registered [] (omega arith)
      (omega arith) (omega arith) (omega arith)

defaults-canon :
    canon (codes "1.0") defaults registered
    ≡ codes "1.0|v1|ws=0|mc=0|odr=0|adl=1|ctad=1|spec=1|defarg=1|sinit=1|xesc=0|xescloc=0|hsd=1|"
      ++ codes "xsd=1|abs=0|root=/p|checks=y,z,"
unfolding canon canon_flags flag_char each_ended sort_keys insert_key create_checks lex_lt list_eq
defaults-canon = refl
