-- ===== src/GlobalIndex/Invariant.antt =====
-- No two entries of the index have the same key, whatever is added to it.
use vycor_cpp.Prelude.{
  ℕ, ◌≡◌, refl, sym, ap, ◌∙◌, inl, inr, Bool, true, false, List, [], ◌∷◌, list_eq, list_eq_refl,
  list_eq→eq, Bool-cases, if◌then◌else◌,
}
use vycor_cpp.Checkpoint.Entries.{
  FunctionOverloadEntry, DeductionGuideEntry, CoveragePropertyEntry, SpecializationEntry,
  DefaultArgEntry, ExceptionSpecEntry, OdrEntry, StaticInitEntry, FunctionSummaryEntry,
  HeaderStaticEntry, CheckIndexPayload,
}
use vycor_cpp.GlobalIndex.{
  GlobalIndex, add_function_overload, add_deduction_guide, add_coverage_property, add_odr_entry,
  add_specialization, add_default_arg, add_static_init, add_function_summary, add_header_static,
  add_exception_spec, add_each, with_types, add_entries, capture, apply_to, absorb,
}
use vycor_cpp.GlobalIndex.Entries.{
  merge_at, keep, odr_key, merge_odr, default_arg_key, static_init_key, merge_summary,
  header_static_key, merge_header_static, exception_spec_key,
}

pub list_eq-false : (x y : List ℕ) → list_eq x y ≡ false → list_eq y x ≡ false
list_eq-false x y h = elim (Bool-cases (list_eq y x)) [
  | inr e ↦ e
  | inl e ↦ let same = list_eq→eq y x e in cc (h, ap (λ z. list_eq z y) (sym same), list_eq_refl y)
]

module _ {ℓ} {A : Type ℓ} (key : A → List ℕ) where
  unfoldable pub has_key : List ℕ → List A → Bool
  has_key k [] = false
  has_key k (x ∷ xs) = let later = has_key k xs in if list_eq k (key x) then true else later

  unfoldable pub Distinct : List A → Type 0
  Distinct [] = Unit
  Distinct (x ∷ xs) = (has_key (key x) xs ≡ false) × Distinct xs

  module _ (merge : A → A → A) (same : (x e : A) → key (merge x e) ≡ key x) where
    has_key-merge_at :
        (k : List ℕ) (e : A) (xs : List A)
        → list_eq k (key e) ≡ false
        → has_key k (merge_at key merge e xs) ≡ has_key k xs
    unfolding has_key merge_at
    has_key-merge_at k e [] h = rw h refl
    has_key-merge_at k e (x ∷ xs) h = elim (Bool-cases (list_eq (key e) (key x))) [
      | inl d ↦ rw (d, same x e) refl
      | inr d ↦ rw (d, has_key-merge_at k e xs h) refl
    ]

    pub merge_at-Distinct : (e : A) (xs : List A) → Distinct xs → Distinct (merge_at key merge e xs)
    unfolding has_key merge_at Distinct
    merge_at-Distinct e [] h = (refl, h)
    merge_at-Distinct e (x ∷ xs) (h, later) = elim (Bool-cases (list_eq (key e) (key x))) [
      | inl d ↦ rw d (rw (same x e) h, later)
      | inr d ↦ rw d (
        has_key-merge_at (key x) e xs (list_eq-false (key e) (key x) d) ∙ h,
        merge_at-Distinct e xs later,
      )
    ]

unfoldable pub WellFormed : GlobalIndex → Type 0
WellFormed g =
    Distinct odr_key g.odr_entries
    × Distinct default_arg_key g.default_args
    × Distinct static_init_key g.static_inits
    × Distinct (λ x. x.qualified_name) g.function_summaries
    × Distinct header_static_key g.header_statics
    × Distinct exception_spec_key g.exception_specs

pub add_each-keeps {ℓ κ μ} :
    {A : Type ℓ} {G : Type κ} (P : G → Type μ) (add : A → G → G)
    → ((e : A) (g : G) → P g → P (add e g))
    → (es : List A) (g : G) → P g
    → P (add_each add es g)
unfolding add_each
add_each-keeps P add step [] g h = h
add_each-keeps P add step (e ∷ es) g h = add_each-keeps P add step es (add e g) (step e g h)

-- What an entry's key reads is not merged.
keep-key {ℓ} : {A : Type ℓ} (key : A → List ℕ) (x e : A) → key (keep x e) ≡ key x
unfolding keep
keep-key key x e = refl

merge_odr-key : (x e : OdrEntry) → odr_key (merge_odr x e) ≡ odr_key x
unfolding merge_odr odr_key
merge_odr-key x e = refl

merge_summary-name :
    (x e : FunctionSummaryEntry) → (merge_summary x e).qualified_name ≡ x.qualified_name
unfolding merge_summary
merge_summary-name x e = refl

merge_header_static-key :
    (x e : HeaderStaticEntry) → header_static_key (merge_header_static x e) ≡ header_static_key x
unfolding merge_header_static header_static_key
merge_header_static-key x e = refl

add_odr_entry-WellFormed :
    (e : OdrEntry) (g : GlobalIndex) → WellFormed g → WellFormed (add_odr_entry e g)
unfolding add_odr_entry WellFormed
add_odr_entry-WellFormed e g (a, b, c, d, f, i) =
    (merge_at-Distinct odr_key merge_odr merge_odr-key e g.odr_entries a, b, c, d, f, i)

add_default_arg-WellFormed :
    (e : DefaultArgEntry) (g : GlobalIndex) → WellFormed g → WellFormed (add_default_arg e g)
unfolding add_default_arg WellFormed
add_default_arg-WellFormed e g (a, b, c, d, f, i) = (
  a,
  merge_at-Distinct default_arg_key keep (keep-key default_arg_key) e g.default_args b,
  c,
  d,
  f,
  i,
)

add_static_init-WellFormed :
    (e : StaticInitEntry) (g : GlobalIndex) → WellFormed g → WellFormed (add_static_init e g)
unfolding add_static_init WellFormed
add_static_init-WellFormed e g (a, b, c, d, f, i) = (
  a,
  b,
  merge_at-Distinct static_init_key keep (keep-key static_init_key) e g.static_inits c,
  d,
  f,
  i,
)

add_function_summary-WellFormed :
    (e : FunctionSummaryEntry) (g : GlobalIndex)
    → WellFormed g
    → WellFormed (add_function_summary e g)
unfolding add_function_summary WellFormed
add_function_summary-WellFormed e g (a, b, c, d, f, i) = (
  a,
  b,
  c,
  merge_at-Distinct (λ x. x.qualified_name) merge_summary merge_summary-name e g.function_summaries
      d,
  f,
  i,
)

add_header_static-WellFormed :
    (e : HeaderStaticEntry) (g : GlobalIndex) → WellFormed g → WellFormed (add_header_static e g)
unfolding add_header_static WellFormed
add_header_static-WellFormed e g (a, b, c, d, f, i) = (
  a,
  b,
  c,
  d,
  merge_at-Distinct header_static_key merge_header_static merge_header_static-key e g.header_statics
      f,
  i,
)

add_exception_spec-WellFormed :
    (e : ExceptionSpecEntry) (g : GlobalIndex) → WellFormed g → WellFormed (add_exception_spec e g)
unfolding add_exception_spec WellFormed
add_exception_spec-WellFormed e g (a, b, c, d, f, i) = (
  a,
  b,
  c,
  d,
  f,
  merge_at-Distinct exception_spec_key keep (keep-key exception_spec_key) e g.exception_specs i,
)

add_function_overload-WellFormed :
    (e : FunctionOverloadEntry) (g : GlobalIndex)
    → WellFormed g
    → WellFormed (add_function_overload e g)
unfolding add_function_overload WellFormed
add_function_overload-WellFormed e g h = h

add_deduction_guide-WellFormed :
    (e : DeductionGuideEntry) (g : GlobalIndex)
    → WellFormed g
    → WellFormed (add_deduction_guide e g)
unfolding add_deduction_guide WellFormed
add_deduction_guide-WellFormed e g h = h

add_coverage_property-WellFormed :
    (e : CoveragePropertyEntry) (g : GlobalIndex)
    → WellFormed g
    → WellFormed (add_coverage_property e g)
unfolding add_coverage_property WellFormed
add_coverage_property-WellFormed e g h = h

add_specialization-WellFormed :
    (e : SpecializationEntry) (g : GlobalIndex) → WellFormed g → WellFormed (add_specialization e g)
unfolding add_specialization WellFormed
add_specialization-WellFormed e g h = h

each {ℓ} :
    {A : Type ℓ} (add : A → GlobalIndex → GlobalIndex)
    → ((e : A) (g : GlobalIndex) → WellFormed g → WellFormed (add e g))
    → (es : List A) (g : GlobalIndex) → WellFormed g
    → WellFormed (add_each add es g)
each add step = add_each-keeps WellFormed add step

add_entries-WellFormed :
    (p : CheckIndexPayload) (g : GlobalIndex) → WellFormed g → WellFormed (add_entries p g)
unfolding add_entries
add_entries-WellFormed p g h =
    each add_exception_spec add_exception_spec-WellFormed p.exception_specs _ (
      each add_header_static add_header_static-WellFormed p.header_statics _ (
        each add_function_summary add_function_summary-WellFormed p.function_summaries _ (
          each add_static_init add_static_init-WellFormed p.static_inits _ (
            each add_default_arg add_default_arg-WellFormed p.default_args _ (
              each add_specialization add_specialization-WellFormed p.specializations _ (
                each add_odr_entry add_odr_entry-WellFormed p.odr_entries _ (
                  each add_coverage_property add_coverage_property-WellFormed p.coverage _ (
                    each add_deduction_guide add_deduction_guide-WellFormed p.guides _ (
                      each add_function_overload add_function_overload-WellFormed p.overloads g
                        h)))))))))

-- If no two ODR entries, default arguments, static initialisers, function summaries, header statics
-- or exception specifications of an index have the same key, the same holds after any payload is
-- applied to it, whatever duplicates the payload has.
pub apply_to-WellFormed :
    (p : CheckIndexPayload) (g : GlobalIndex) → WellFormed g → WellFormed (apply_to p g)
unfolding apply_to with_types WellFormed
apply_to-WellFormed p g h = add_entries-WellFormed p g h

-- The same after it absorbs any shard.
absorb-WellFormed : (shard g : GlobalIndex) → WellFormed g → WellFormed (absorb shard g)
unfolding absorb with_types WellFormed
absorb-WellFormed shard g h = add_entries-WellFormed (capture shard) g h
