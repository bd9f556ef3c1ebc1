-- ===== src/GlobalIndex/Entries.antt =====
-- src/check/GlobalIndex.cpp: the keys under which entries are one and the same, and how two such
-- entries merge.
use vycor_cpp.Prelude.{
  ℕ, zero, suc, ◌+◌, ◌%◌, ◌/◌, Bool, true, false, not, ◌&&◌, Option, none, some, List, [], ◌∷◌,
  ◌++◌, ltb, list_eq, ◌==◌, if◌then◌else◌,
}
use vycor_cpp.Checkpoint.Entries.{
  OdrEntry, SpecializationEntry, DefaultArgEntry, StaticInitEntry, FunctionSummaryEntry,
  HeaderStaticEntry, ExceptionSpecEntry,
}
use vycor_cpp.GlobalIndex.Types.{Buckets, push_new}

-- The digits of a number below 10 ^ fuel.
unfoldable pub digits : ℕ → ℕ → List ℕ
digits zero n = []
digits (suc fuel) n =
    let front = digits fuel (n / 10) in
    if ltb n 10 then (48 + n) ∷ [] else front ++ ((48 + n % 10) ∷ [])

-- std::to_string. A number of 64 bits has at most twenty digits.
unfoldable pub to_string : ℕ → List ℕ
to_string n = digits 20 n

-- The order of byte strings.
unfoldable pub lex_lt : List ℕ → List ℕ → Bool
lex_lt xs [] = false
lex_lt [] (y ∷ ys) = true
lex_lt (x ∷ xs) (y ∷ ys) =
    let later = lex_lt xs ys in if ltb x y then true else if x == y then later else false

unfoldable pub is_empty : List ℕ → Bool
is_empty [] = true
is_empty (x ∷ xs) = false

-- The site that a merge keeps: the smallest that is not empty.
unfoldable pub merge_site : List ℕ → List ℕ → List ℕ
merge_site existing new =
    let smaller = lex_lt new existing in
    if is_empty new
    then existing
    else if is_empty existing
    then new
    else if smaller
    then new
    else existing

-- The first entry of the same key takes the new one in; without one the new entry is appended.
unfoldable pub merge_at {ℓ} : {A : Type ℓ} → (A → List ℕ) → (A → A → A) → A → List A → List A
merge_at key merge e [] = e ∷ []
merge_at key merge e (x ∷ xs) =
    let later = merge_at key merge e xs in
    if list_eq (key e) (key x) then merge x e ∷ xs else x ∷ later

unfoldable pub find_by {ℓ} : {A : Type ℓ} → (A → List ℕ) → List ℕ → List A → Option A
find_by key k [] = none
find_by key k (x ∷ xs) = let later = find_by key k xs in if list_eq k (key x) then some x else later

-- An entry that is already there is left as it is.
unfoldable pub keep {ℓ} : {A : Type ℓ} → A → A → A
keep existing new = existing

pub bar : List ℕ → List ℕ → List ℕ
bar a b = a ++ (b'|' ∷ b)

unfoldable pub odr_key : OdrEntry → List ℕ
odr_key e = bar e.qualified_name (
    e.signature
    ++ (b'|'
        ∷ (if e.is_class then b'c' else b'f')
        ∷ b'|'
        ∷ bar e.file_path (bar (to_string e.line) (to_string e.odr_hash))))

unfoldable pub merge_odr : OdrEntry → OdrEntry → OdrEntry
merge_odr existing e = record existing { tu_path = merge_site existing.tu_path e.tu_path }

pub default_arg_key : DefaultArgEntry → List ℕ
default_arg_key e = bar e.qualified_name (
    bar e.signature
      (bar (to_string e.param_index) (bar e.default_text (bar e.file_path (to_string e.line)))))

pub static_init_key : StaticInitEntry → List ℕ
static_init_key e = bar e.qualified_name (bar e.file_path (to_string e.line))

unfoldable pub header_static_key : HeaderStaticEntry → List ℕ
header_static_key e = bar e.file_path (to_string e.line)

pub exception_spec_key : ExceptionSpecEntry → List ℕ
exception_spec_key e = bar e.qualified_name (
    bar e.signature
      ((if e.is_noexcept then b'1' else b'0') ∷ b'|' ∷ bar e.file_path (to_string e.line)))

-- for (name : from) if (find(into, name) == end) into.push_back(name)
unfoldable pub merge_lists : List (List ℕ) → List (List ℕ) → List (List ℕ)
merge_lists into [] = into
merge_lists into (x ∷ from) = merge_lists (push_new x into) from

unfoldable pub merge_header_static : HeaderStaticEntry → HeaderStaticEntry → HeaderStaticEntry
merge_header_static existing e = record existing {
  tu_paths = merge_lists existing.tu_paths e.tu_paths;
}

-- One call site: by its first component, with the smaller second one kept.
pub merge_pair : List ℕ × List ℕ → List ℕ × List ℕ → List ℕ × List ℕ
merge_pair existing new = (existing.0, merge_site existing.1 new.1)

pub merge_sites : List (List ℕ × List ℕ) → List (List ℕ × List ℕ) → List (List ℕ × List ℕ)
merge_sites into [] = into
merge_sites into (p ∷ from) = merge_sites (merge_at (λ x. x.0) merge_pair p into) from

unfoldable pub or : Bool → Bool → Bool
or a b = if a then true else b

unfoldable pub merge_summary : FunctionSummaryEntry → FunctionSummaryEntry → FunctionSummaryEntry
merge_summary existing e = record existing {
  is_noexcept = or existing.is_noexcept e.is_noexcept;
  has_uncaught_throw = or existing.has_uncaught_throw e.has_uncaught_throw;
  uncaught_throw_site = merge_site existing.uncaught_throw_site e.uncaught_throw_site;
  called_functions = merge_lists existing.called_functions e.called_functions;
  unguarded_calls = merge_lists existing.unguarded_calls e.unguarded_calls;
  referenced_globals = merge_lists existing.referenced_globals e.referenced_globals;
  unguarded_call_sites = merge_sites existing.unguarded_call_sites e.unguarded_call_sites;
}

unfoldable pub same_specialization : SpecializationEntry → SpecializationEntry → Bool
same_specialization existing e =
    list_eq existing.args_string e.args_string
    && (list_eq existing.header_path e.header_path && existing.line == e.line)

-- "explicit specialization declaration"
abbrev explicit_declaration : List ℕ
explicit_declaration =
    b'e' ∷ b'x' ∷ b'p' ∷ b'l' ∷ b'i' ∷ b'c' ∷ b'i' ∷ b't' ∷ b' ' ∷ b's' ∷ b'p' ∷ b'e' ∷ b'c' ∷ b'i'
    ∷ b'a' ∷ b'l' ∷ b'i' ∷ b'z' ∷ b'a' ∷ b't' ∷ b'i' ∷ b'o' ∷ b'n' ∷ b' ' ∷ b'd' ∷ b'e' ∷ b'c'
    ∷ b'l' ∷ b'a' ∷ b'r' ∷ b'a' ∷ b't' ∷ b'i' ∷ b'o' ∷ b'n' ∷ []

-- The summary that a merge keeps: a definition's rather than a declaration's.
pub merge_resolution : List ℕ → List ℕ → List ℕ
merge_resolution existing new =
    let better = list_eq existing explicit_declaration && not (list_eq new explicit_declaration) in
    if is_empty new
    then existing
    else if is_empty existing
    then new
    else if better
    then new
    else existing

unfoldable pub merge_specialization :
    SpecializationEntry → SpecializationEntry → SpecializationEntry
merge_specialization existing e = record existing {
  resolution_summary = merge_resolution existing.resolution_summary e.resolution_summary;
}

unfoldable pub add_to_bucket :
    SpecializationEntry → List SpecializationEntry → List SpecializationEntry
add_to_bucket e [] = e ∷ []
add_to_bucket e (x ∷ xs) =
    let later = add_to_bucket e xs in
    if same_specialization x e then merge_specialization x e ∷ xs else x ∷ later

unfoldable pub add_specialization_to :
    SpecializationEntry → Buckets SpecializationEntry → Buckets SpecializationEntry
add_specialization_to e [] = (e.template_name, e ∷ []) ∷ []
add_specialization_to e ((k, es) ∷ m) =
    let later = add_specialization_to e m in
    if list_eq e.template_name k then (k, add_to_bucket e es) ∷ m else (k, es) ∷ later
