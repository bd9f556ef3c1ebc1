-- ===== src/GlobalIndex/Restore/Merged.antt =====
-- Buckets into whose entries others are merged: the specializations.
use vycor_cpp.Prelude.{
  ◌≡◌, refl, sym, ap, subst, ◌∙◌, inl, inr, false, List, [], ◌∷◌, ◌++◌, append-nil, append_assoc,
  Bool-cases, All, arith,
}
use vycor_cpp.Checkpoint.Entries.{SpecializationEntry}
use vycor_cpp.GlobalIndex.{add_each}
use vycor_cpp.GlobalIndex.Types.{Name, Buckets, all_of}
use vycor_cpp.GlobalIndex.Entries.{
  same_specialization, merge_specialization, add_to_bucket, add_specialization_to,
}
use vycor_cpp.GlobalIndex.Restore.Buckets.{
  add_in, Whole, IsBuckets, restore_buckets, add_in-IsBuckets,
}
use vycor_cpp.GlobalIndex.Restore.Pushed.{HasKey, add_each-same, all_listed}

-- No entry is merged into an earlier one.
abbrev pub Differ : List SpecializationEntry → Type 0
Differ [] = Unit
Differ (x ∷ xs) = All (λ y. same_specialization x y ≡ false) xs × Differ xs

abbrev pub IsTemplate : Name → List SpecializationEntry → Type 0
IsTemplate k es = HasKey (λ x. x.template_name) k es × Differ es

-- No entry of the list takes this one in.
abbrev TakesNone : SpecializationEntry → List SpecializationEntry → Type 0
TakesNone e = All (λ x. same_specialization x e ≡ false)

TakesNone-snoc :
    (e x : SpecializationEntry) (es : List SpecializationEntry)
    → TakesNone e es
    → same_specialization x e ≡ false
    → TakesNone e (es ++ (x ∷ []))
TakesNone-snoc e x [] none here = (here, tt)
TakesNone-snoc e x (y ∷ es) (one, none) here = (one, TakesNone-snoc e x es none here)

add_to_bucket-new :
    (e : SpecializationEntry) (es : List SpecializationEntry)
    → TakesNone e es
    → add_to_bucket e es ≡ es ++ (e ∷ [])
unfolding add_to_bucket
add_to_bucket-new e [] h = refl
add_to_bucket-new e (x ∷ es) (one, h) = rw (one, add_to_bucket-new e es h) refl

-- Entries none of which is taken in by one that is there.
abbrev Fresh : List SpecializationEntry → List SpecializationEntry → Type 0
Fresh done = All (λ e. TakesNone e done)

Fresh-snoc :
    (done es : List SpecializationEntry) (x : SpecializationEntry)
    → Fresh done es
    → All (λ y. same_specialization x y ≡ false) es
    → Fresh (done ++ (x ∷ [])) es
Fresh-snoc done [] x fresh h = tt
Fresh-snoc done (e ∷ es) x (one, fresh) (here, h) =
    (TakesNone-snoc e x done one here, Fresh-snoc done es x fresh h)

add_each-add_to_bucket :
    (es done : List SpecializationEntry)
    → Fresh done es
    → Differ es
    → add_each add_to_bucket es done ≡ done ++ es
unfolding add_each
add_each-add_to_bucket [] done fresh differ = sym (append-nil done)
add_each-add_to_bucket (e ∷ es) done (one, fresh) (apart, differ) =
    ap (add_each add_to_bucket es) (add_to_bucket-new e done one)
    ∙ (add_each-add_to_bucket es (done ++ (e ∷ [])) (Fresh-snoc done es e fresh apart) differ
        ∙ append_assoc done (e ∷ []) es)

Fresh-nil : (es : List SpecializationEntry) → Fresh [] es
Fresh-nil [] = tt
Fresh-nil (e ∷ es) = (tt, Fresh-nil es)

IsTemplate-Whole :
    (k : Name) (es : List SpecializationEntry)
    → IsTemplate k es
    → Whole (λ x. x.template_name) add_to_bucket (λ j fs. fs) k es
IsTemplate-Whole k [] h = absurd (omega (arith, h.0.0))
IsTemplate-Whole k (e ∷ es) (named, differ) =
    (e, es, refl, named.1, add_each-add_to_bucket (e ∷ es) [] (Fresh-nil (e ∷ es)) differ)

-- What an entry that is left in place keeps, and what a merged one does.
same-add_to_bucket :
    (x e : SpecializationEntry) (es : List SpecializationEntry)
    → same_specialization x e ≡ false
    → All (λ y. same_specialization x y ≡ false) es
    → All (λ y. same_specialization x y ≡ false) (add_to_bucket e es)
unfolding add_to_bucket
same-add_to_bucket x e [] h all = (h, tt)
same-add_to_bucket x e (y ∷ es) h (one, all) = elim (Bool-cases (same_specialization y e)) [
  | inl d ↦ rw d (merged x y e one, all)
  | inr d ↦ rw d (one, same-add_to_bucket x e es h all)
]
  where
    merged :
        (x y e : SpecializationEntry)
        → same_specialization x y ≡ false
        → same_specialization x (merge_specialization y e) ≡ false
    merged x y e h = unfold same_specialization merge_specialization in h

Differ-add_to_bucket :
    (e : SpecializationEntry) (es : List SpecializationEntry)
    → Differ es
    → Differ (add_to_bucket e es)
unfolding add_to_bucket
Differ-add_to_bucket e [] h = (tt, tt)
Differ-add_to_bucket e (x ∷ es) (apart, differ) = elim (Bool-cases (same_specialization x e)) [
  | inl d ↦ rw d (from_merged x e es apart, differ)
  | inr d ↦ rw d (same-add_to_bucket x e es d apart, Differ-add_to_bucket e es differ)
]
  where
    from_merged :
        (x e : SpecializationEntry) (l : List SpecializationEntry)
        → All (λ y. same_specialization x y ≡ false) l
        → All (λ y. same_specialization (merge_specialization x e) y ≡ false) l
    from_merged x e [] h = tt
    from_merged x e (y ∷ l) (one, h) =
        (unfold same_specialization merge_specialization in one, from_merged x e l h)

HasKey-add_to_bucket :
    (k : Name) (e : SpecializationEntry) (es : List SpecializationEntry)
    → e.template_name ≡ k
    → All (λ x. x.template_name ≡ k) es
    → HasKey (λ x. x.template_name) k (add_to_bucket e es)
unfolding add_to_bucket
HasKey-add_to_bucket k e [] here all = (omega arith, (here, tt))
HasKey-add_to_bucket k e (x ∷ es) here (one, all) = elim (Bool-cases (same_specialization x e)) [
  | inl d ↦ rw d (omega arith, (named x e one, all))
  | inr d ↦ rw d (omega arith, (one, (HasKey-add_to_bucket k e es here all).1))
]
  where
    named :
        (x e : SpecializationEntry)
        → x.template_name ≡ k
        → (merge_specialization x e).template_name ≡ k
    named x e h = unfold merge_specialization in h

IsTemplate-begin : (e : SpecializationEntry) → IsTemplate e.template_name (add_to_bucket e [])
IsTemplate-begin e =
    (HasKey-add_to_bucket e.template_name e [] refl tt, Differ-add_to_bucket e [] tt)

IsTemplate-step :
    (e : SpecializationEntry) (es : List SpecializationEntry)
    → IsTemplate e.template_name es
    → IsTemplate e.template_name (add_to_bucket e es)
IsTemplate-step e es h =
    (HasKey-add_to_bucket e.template_name e es refl h.0.1, Differ-add_to_bucket e es h.1)

add_specialization_to-add_in :
    (e : SpecializationEntry) (m : Buckets SpecializationEntry)
    → add_specialization_to e m ≡ add_in (λ x. x.template_name) add_to_bucket e m
unfolding add_specialization_to add_in add_to_bucket
add_specialization_to-add_in e [] = refl
add_specialization_to-add_in e ((k, es) ∷ m) = rw (add_specialization_to-add_in e m) refl

abbrev pub Templates : Buckets SpecializationEntry → Type 0
Templates = IsBuckets IsTemplate

pub add_specialization_to-Templates :
    (e : SpecializationEntry) (m : Buckets SpecializationEntry)
    → Templates m
    → Templates (add_specialization_to e m)
add_specialization_to-Templates e m h = subst Templates (sym (add_specialization_to-add_in e m)) (
    add_in-IsBuckets (λ x. x.template_name) add_to_bucket (λ k es. es) IsTemplate IsTemplate-Whole
      IsTemplate-begin IsTemplate-step e m h)

pub restore-Templates :
    (m : Buckets SpecializationEntry)
    → Templates m
    → add_each add_specialization_to (all_of m) [] ≡ m
restore-Templates m h =
    add_each-same add_specialization_to (add_in (λ x. x.template_name) add_to_bucket)
      add_specialization_to-add_in (all_of m) []
    ∙ (ap (λ l. add_each (add_in (λ x. x.template_name) add_to_bucket) l [])
          (sym (all_listed (λ x. x.template_name) add_to_bucket m))
        ∙ restore_buckets (λ x. x.template_name) add_to_bucket (λ k es. es) IsTemplate
            IsTemplate-Whole IsTemplate-begin IsTemplate-step m h)
