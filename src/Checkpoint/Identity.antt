-- ===== src/Checkpoint/Identity.antt =====
-- src/check/Checkpoint.cpp: what a journal and its phase-2 records are bound to: the hash of the
-- options that shape them, and the hash of a set of files. src/ext/Extensions.cpp: createChecks.
-- The version string of the build is an argument.
mod Split
mod Order
mod Stamps
mod Options
mod Tests
use Prim.Native.Char.{code}
use Prim.Native.String.{String}
use vycor_cpp.Prelude.{
  ℕ, ◌*◌, ◌%◌, ◌^◌, Bool, Option, none, some, List, [], ◌∷◌, ◌++◌, map, bit_xor, list_eq, ◌||◌,
  false, if◌then◌else◌,
}
use vycor_cpp.GlobalIndex.Entries.{to_string, lex_lt}
use vycor_cpp.Checkpoint.Journal.{FileStamp}

-- The bytes of an ASCII literal.
abbrev pub codes : String → List ℕ
codes String.[] = []
codes (String.◌∷◌ c s) = code c ∷ codes s

-- FNV-1a over 64 bits.
pub fnv64 : List ℕ → ℕ → ℕ
fnv64 [] h = h
fnv64 (b ∷ bs) h = fnv64 bs (bit_xor h b * 1099511628211 % 2 ^ 64)

abbrev pub fnv64_seed : ℕ
fnv64_seed = 14695981039346656037

-- std::sort on strings. Equal ones cannot be told apart.
pub insert_key : List ℕ → List (List ℕ) → List (List ℕ)
insert_key k [] = k ∷ []
insert_key k (j ∷ js) = let rest = insert_key k js in if lex_lt j k then j ∷ rest else k ∷ j ∷ js

pub sort_keys : List (List ℕ) → List (List ℕ)
sort_keys [] = []
sort_keys (k ∷ ks) = insert_key k (sort_keys ks)

pub stamp_key : FileStamp → List ℕ
stamp_key s = s.path ++ (b'|' ∷ to_string s.mtime_ns ++ (b'|' ∷ to_string s.size))

pub hash_lines : List (List ℕ) → ℕ → ℕ
hash_lines [] h = h
hash_lines (k ∷ ks) h = hash_lines ks (fnv64 (0x0A ∷ []) (fnv64 k h))

pub stamp_set_hash : List FileStamp → ℕ
unfolding hash_lines
stamp_set_hash stamps = hash_lines (sort_keys (map stamp_key stamps)) fnv64_seed

-- The fields of AnalysisOptions that the fingerprint reads.
pub record AnalysisOptions : Type 0 where
  warn_same_score : Bool
  model_convertibility : Bool
  enable_odr_diag : Bool
  enable_adl_diag : Bool
  enable_ctad_diag : Bool
  enable_specialization_diag : Bool
  enable_default_arg_diag : Bool
  enable_static_init_order_diag : Bool
  enable_exception_escape_diag : Bool
  include_call_site_locations : Bool
  enable_header_static_diag : Bool
  enable_exception_spec_diag : Bool
  absolute_paths : Bool
  project_root : List ℕ
  disabled_checks : List (List ℕ)

is_disabled : List ℕ → List (List ℕ) → Bool
is_disabled name [] = false
is_disabled name (d ∷ ds) = list_eq d name || is_disabled name ds

-- ExtensionRegistry::createChecks, by the names of the checks. A factory may return none.
pub create_checks : List (Option (List ℕ)) → List (List ℕ) → List (List ℕ)
unfolding is_disabled
create_checks [] disabled = []
create_checks (none ∷ factories) disabled = create_checks factories disabled
create_checks (some name ∷ factories) disabled =
    let rest = create_checks factories disabled in
    if is_disabled name disabled then rest else name ∷ rest

pub flag_char : Bool → ℕ
flag_char on = if on then b'1' else b'0'

-- Each text with a byte after it.
pub each_ended : ℕ → List (List ℕ) → List ℕ
each_ended d [] = []
each_ended d (n ∷ ns) = n ++ (d ∷ each_ended d ns)

-- Labels with a flag after each.
pub labelled : List (List ℕ × Bool) → List ℕ → List ℕ
labelled [] rest = rest
labelled ((label, on) ∷ l) rest = label ++ (flag_char on ∷ labelled l rest)

-- The flags in canon, with what follows them.
pub canon_flags : AnalysisOptions → List ℕ → List ℕ
unfolding labelled
canon_flags o rest =
    labelled
      ((codes "|v1|ws=", o.warn_same_score)
        ∷ (codes "|mc=", o.model_convertibility)
        ∷ (codes "|odr=", o.enable_odr_diag)
        ∷ (codes "|adl=", o.enable_adl_diag)
        ∷ (codes "|ctad=", o.enable_ctad_diag)
        ∷ (codes "|spec=", o.enable_specialization_diag)
        ∷ (codes "|defarg=", o.enable_default_arg_diag)
        ∷ (codes "|sinit=", o.enable_static_init_order_diag)
        ∷ (codes "|xesc=", o.enable_exception_escape_diag)
        ∷ (codes "|xescloc=", o.include_call_site_locations)
        ∷ (codes "|hsd=", o.enable_header_static_diag)
        ∷ (codes "|xsd=", o.enable_exception_spec_diag)
        ∷ (codes "|abs=", o.absolute_paths)
        ∷ [])
      (codes "|root=" ++ rest)

pub canon : List ℕ → AnalysisOptions → List (Option (List ℕ)) → List ℕ
canon version o factories =
    version
    ++ canon_flags o (
        o.project_root
        ++ (codes "|checks="
            ++ each_ended b',' (sort_keys (create_checks factories o.disabled_checks))))

pub check_options_fingerprint : List ℕ → AnalysisOptions → List (Option (List ℕ)) → ℕ
check_options_fingerprint version o factories = fnv64 (canon version o factories) fnv64_seed
