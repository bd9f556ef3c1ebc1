-- ===== src/Checkpoint/Identity/Options.antt =====
-- checkOptionsFingerprint: what is hashed, and what it tells of the options.
use mathlib.Core.List.{Perm}
use vycor_cpp.Prelude.{
  ℕ, ◌^◌, ◌<◌, ◌≡◌, refl, sym, ap, ◌∙◌, ◌↔◌, Bool, true, false, Option, List, [], ◌∷◌, ◌++◌,
  drop-append, drop, length, All, arith,
}
use vycor_cpp.Checkpoint.Identity.{
  fnv64_seed, sort_keys, each_ended, AnalysisOptions, create_checks, flag_char, canon_flags, canon,
  codes, check_options_fingerprint,
}
use vycor_cpp.Checkpoint.Identity.Split.{
  Free, split_first, split_first-append, pieces, pieces-each_ended,
}
use vycor_cpp.Checkpoint.Identity.Order.{sort_keys-eq_iff}
use vycor_cpp.Checkpoint.Identity.Stamps.{fnv64-lt, Free-sort_keys}

-- The flags that the fingerprint reads are the same.
pub record SameFlags (o p : AnalysisOptions) : Type 0 where
  pub warn_same_score : o.warn_same_score ≡ p.warn_same_score
  pub model_convertibility : o.model_convertibility ≡ p.model_convertibility
  pub enable_odr_diag : o.enable_odr_diag ≡ p.enable_odr_diag
  pub enable_adl_diag : o.enable_adl_diag ≡ p.enable_adl_diag
  pub enable_ctad_diag : o.enable_ctad_diag ≡ p.enable_ctad_diag
  pub enable_specialization_diag : o.enable_specialization_diag ≡ p.enable_specialization_diag
  pub enable_default_arg_diag : o.enable_default_arg_diag ≡ p.enable_default_arg_diag
  pub enable_static_init_order_diag :
      o.enable_static_init_order_diag ≡ p.enable_static_init_order_diag
  pub enable_exception_escape_diag : o.enable_exception_escape_diag ≡ p.enable_exception_escape_diag
  pub include_call_site_locations : o.include_call_site_locations ≡ p.include_call_site_locations
  pub enable_header_static_diag : o.enable_header_static_diag ≡ p.enable_header_static_diag
  pub enable_exception_spec_diag : o.enable_exception_spec_diag ≡ p.enable_exception_spec_diag
  pub absolute_paths : o.absolute_paths ≡ p.absolute_paths

flag_char-injective : (a b : Bool) → flag_char a ≡ flag_char b → a ≡ b
unfolding flag_char
flag_char-injective true true e = refl
flag_char-injective false false e = refl
flag_char-injective true false e = absurd (omega (arith, e))
flag_char-injective false true e = absurd (omega (arith, e))

-- The byte at a position.
byte_at : ℕ → List ℕ → ℕ
byte_at i t = elim (drop i t) [ [] ↦ 0 | c ∷ cs ↦ c ]

canon_flags-SameFlags :
    (o p : AnalysisOptions) (u v : List ℕ) → canon_flags o u ≡ canon_flags p v → SameFlags o p
unfolding canon_flags byte_at
canon_flags-SameFlags o p u v e = record {
  warn_same_score = flag_char-injective _ _ (ap (byte_at 7) e);
  model_convertibility = flag_char-injective _ _ (ap (byte_at 12) e);
  enable_odr_diag = flag_char-injective _ _ (ap (byte_at 18) e);
  enable_adl_diag = flag_char-injective _ _ (ap (byte_at 24) e);
  enable_ctad_diag = flag_char-injective _ _ (ap (byte_at 31) e);
  enable_specialization_diag = flag_char-injective _ _ (ap (byte_at 38) e);
  enable_default_arg_diag = flag_char-injective _ _ (ap (byte_at 47) e);
  enable_static_init_order_diag = flag_char-injective _ _ (ap (byte_at 55) e);
  enable_exception_escape_diag = flag_char-injective _ _ (ap (byte_at 62) e);
  include_call_site_locations = flag_char-injective _ _ (ap (byte_at 72) e);
  enable_header_static_diag = flag_char-injective _ _ (ap (byte_at 78) e);
  enable_exception_spec_diag = flag_char-injective _ _ (ap (byte_at 84) e);
  absolute_paths = flag_char-injective _ _ (ap (byte_at 90) e);
}

canon_flags-rest :
    (o p : AnalysisOptions) (u v : List ℕ) → canon_flags o u ≡ canon_flags p v → u ≡ v
unfolding canon_flags
canon_flags-rest o p u v e = ap (drop 97) e

SameFlags-canon_flags :
    (o p : AnalysisOptions) (u : List ℕ) → SameFlags o p → canon_flags o u ≡ canon_flags p u
unfolding canon_flags
SameFlags-canon_flags o p u same =
    rw
      (
        same.warn_same_score, same.model_convertibility, same.enable_odr_diag, same.enable_adl_diag,
        same.enable_ctad_diag, same.enable_specialization_diag, same.enable_default_arg_diag,
        same.enable_static_init_order_diag, same.enable_exception_escape_diag,
        same.include_call_site_locations, same.enable_header_static_diag,
        same.enable_exception_spec_diag, same.absolute_paths,
      )
      refl

module _ (version : List ℕ) (o p : AnalysisOptions) (fs gs : List (Option (List ℕ)))
    (root : Free b'|' o.project_root) (root' : Free b'|' p.project_root)
    (names : All (Free b',') (create_checks fs o.disabled_checks))
    (names' : All (Free b',') (create_checks gs p.disabled_checks)) where
  abbrev checks : List (List ℕ)
  checks = create_checks fs o.disabled_checks

  abbrev checks' : List (List ℕ)
  checks' = create_checks gs p.disabled_checks

  tail : List (List ℕ) → List ℕ
  tail ks = codes "checks=" ++ each_ended b',' (sort_keys ks)

  -- What the equal texts tell of the options.
  canon_sound :
      canon version o fs ≡ canon version p gs
      → SameFlags o p × (o.project_root ≡ p.project_root) × Perm checks checks'
  unfolding canon tail
  canon_sound e =
      let flags =
        sym (drop-append version _) ∙ (ap (drop (length version)) e ∙ drop-append version _) in
      let rest = canon_flags-rest o p _ _ flags in
      let parts =
        sym (split_first-append b'|' o.project_root (tail checks) root)
        ∙ (ap (split_first b'|') rest
            ∙ split_first-append b'|' p.project_root (tail checks') root') in
      let ended = ap (λ (t : List ℕ × List ℕ). drop 7 t.1) parts in
      let sorted =
        sym (pieces-each_ended b',' (sort_keys checks) (Free-sort_keys b',' checks names))
        ∙ (ap (pieces b',') ended
            ∙ pieces-each_ended b',' (sort_keys checks') (Free-sort_keys b',' checks' names')) in
      (
        canon_flags-SameFlags o p _ _ flags,
        ap (λ (t : List ℕ × List ℕ). t.0) parts,
        (sort_keys-eq_iff checks checks').0 sorted,
      )

  canon_complete :
      SameFlags o p
      → o.project_root ≡ p.project_root
      → Perm checks checks'
      → canon version o fs ≡ canon version p gs
  unfolding canon
  canon_complete same e perm =
      rw (SameFlags-canon_flags o p _ same, e, (sort_keys-eq_iff checks checks').1 perm) refl

  -- The fingerprint fits 64 bits. If no root has the byte | and no name of a check a comma, then for
  -- one version two sets of options have the same text exactly if their flags that it names and
  -- their roots are equal and the names of their checks are permutations of one another.
  pub check_options_fingerprint-canon :
      (check_options_fingerprint version o fs < 2 ^ 64)
      × ((canon version o fs ≡ canon version p gs)
          ↔ (SameFlags o p × (o.project_root ≡ p.project_root) × Perm checks checks'))
  unfolding check_options_fingerprint
  check_options_fingerprint-canon = (
    fnv64-lt (canon version o fs) fnv64_seed (omega arith),
    (canon_sound, λ (same, e, perm). canon_complete same e perm),
  )
