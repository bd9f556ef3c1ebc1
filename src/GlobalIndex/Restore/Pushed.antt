-- ===== src/GlobalIndex/Restore/Pushed.antt =====
-- Buckets to which entries are appended.
use vycor_cpp.Prelude.{
  ◌<◌, ◌≡◌, refl, sym, ap, subst, ◌∙◌, List, [], ◌∷◌, ◌++◌, append-nil, append_assoc, length, All,
  arith,
}
use vycor_cpp.GlobalIndex.{add_each}
use vycor_cpp.GlobalIndex.Types.{Name, Buckets, push_at, all_of}
use vycor_cpp.GlobalIndex.Restore.Buckets.{
  add_in, listed, Whole, IsBuckets, restore_buckets, add_in-IsBuckets,
}

-- A function that adds in the same way gives the same.
pub add_each-same {ℓ κ} :
    {A : Type ℓ} {G : Type κ} (f h : A → G → G)
    → ((e : A) (g : G) → f e g ≡ h e g)
    → (es : List A) (g : G) → add_each f es g ≡ add_each h es g
unfolding add_each
add_each-same f h same [] g = refl
add_each-same f h same (e ∷ es) g =
    ap (add_each f es) (same e g) ∙ add_each-same f h same es (h e g)

pub all_listed {ℓ} :
    {A : Type ℓ} (key : A → Name) (into : A → List A → List A) (m : Buckets A)
    → listed key into (λ k es. es) m ≡ all_of m
unfolding listed all_of
all_listed key into [] = refl
all_listed key into ((k, es) ∷ m) = ap (λ l. es ++ l) (all_listed key into m)

module _ {A : Type 0} (key : A → Name) where
  abbrev pub appended : A → List A → List A
  appended e es = es ++ (e ∷ [])

  abbrev pub HasKey : Name → List A → Type 0
  HasKey k es = (0 < length es) × All (λ e. key e ≡ k) es

  add_each-appended : (es done : List A) → add_each appended es done ≡ done ++ es
  unfolding add_each
  add_each-appended [] done = sym (append-nil done)
  add_each-appended (e ∷ es) done =
      add_each-appended es (done ++ (e ∷ [])) ∙ append_assoc done (e ∷ []) es

  appended-Whole : (k : Name) (es : List A) → HasKey k es → Whole key appended (λ j fs. fs) k es
  appended-Whole k [] h = absurd (omega arith)
  appended-Whole k (e ∷ es) h = (e, es, refl, h.1, add_each-appended (e ∷ es) [])

  HasKey-snoc :
      (k : Name) (e : A) (es : List A)
      → key e ≡ k
      → All (λ x. key x ≡ k) es
      → All (λ x. key x ≡ k) (es ++ (e ∷ []))
  HasKey-snoc k e [] here all = (here, tt)
  HasKey-snoc k e (x ∷ es) here (one, all) = (one, HasKey-snoc k e es here all)

  appended-HasKey : (e : A) (es : List A) → HasKey (key e) es → HasKey (key e) (appended e es)
  appended-HasKey e [] h = absurd (omega arith)
  appended-HasKey e (x ∷ es) h = (omega arith, HasKey-snoc (key e) e (x ∷ es) refl h.1)

  push_at-add_in : (e : A) (m : Buckets A) → push_at (key e) e m ≡ add_in key appended e m
  unfolding push_at add_in
  push_at-add_in e [] = refl
  push_at-add_in e ((k, es) ∷ m) = rw (push_at-add_in e m) refl

  -- Buckets to which entries are appended.
  abbrev pub Appended : Buckets A → Type 0
  Appended = IsBuckets HasKey

  pub push_at-Appended : (e : A) (m : Buckets A) → Appended m → Appended (push_at (key e) e m)
  push_at-Appended e m h = subst Appended (sym (push_at-add_in e m)) (
      add_in-IsBuckets key appended (λ k es. es) HasKey appended-Whole
        (λ x. (omega arith, (refl, tt))) appended-HasKey e m h)

  pub restore-Appended :
      (m : Buckets A) → Appended m → add_each (λ e. push_at (key e) e) (all_of m) [] ≡ m
  restore-Appended m h =
      add_each-same (λ e. push_at (key e) e) (add_in key appended) push_at-add_in (all_of m) []
      ∙ (ap (λ l. add_each (add_in key appended) l []) (sym (all_listed key appended m))
          ∙ restore_buckets key appended (λ k es. es) HasKey appended-Whole
              (λ x. (omega arith, (refl, tt))) appended-HasKey m h)
