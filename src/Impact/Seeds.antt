-- ===== src/Impact/Seeds.antt =====
-- The walk begins with the changed functions, at depth 0.
use vycor_cpp.Prelude.{
  ℕ, ◌+◌, ◌≡◌, refl, sym, subst, inl, inr, true, none, some, List, [], ◌∷◌, ◌++◌, length,
  length-append, ◌==◌, ==_iff, Bool-cases, if◌then◌else◌, arith,
}
use vycor_cpp.CallGraph.Maps.{get, put, get-put, mem, mem-append}
use vycor_cpp.Impact.{Reached, Frontier, is_known, seed_all}
use vycor_cpp.Impact.Waves.{
  Extends, put-Extends, not_known, known, Level, Level-push, Level-Extends,
}
use vycor_cpp.Impact.Steps.{get-put_self}

module _ (seeds : List ℕ) where
  -- Only changed functions are reached, and they wait in the queue.
  pub record Begun (f : Frontier) : Type 0 where
    pub roots :
        (x : ℕ) (r : Reached)
        → get x f.reached ≡ some r
        → (r.depth ≡ 0) × (r.origin ≡ x) × (mem x seeds ≡ true)
    pub queued : (x : ℕ) (r : Reached) → get x f.reached ≡ some r → mem x f.queue ≡ true
    pub level : Level f.reached 0 f.queue

  pub record Seeded (ss : List ℕ) (f f' : Frontier) : Type 0 where
    pub begun : Begun f'
    pub extends : Extends f.reached f'.reached
    pub reached : (s : ℕ) → mem s ss ≡ true → (r : Reached) × (get s f'.reached ≡ some r)
    pub bounded : length f'.queue ≡ length f.queue + length ss

  abbrev pub seed : ℕ → Reached
  seed s = record { depth = 0; parent = 0; edge = none; origin = s }

  -- A changed function joins the queue.
  abbrev pub seeded : ℕ → Frontier → Frontier
  seeded s f = record {
    reached = if is_known s f.reached then f.reached else put s (seed s) f.reached;
    queue = f.queue ++ (s ∷ []);
  }

  pub record OneMore (s : ℕ) (f f' : Frontier) : Type 0 where
    pub begun : Begun f'
    pub extends : Extends f.reached f'.reached
    pub reached : (r : Reached) × (get s f'.reached ≡ some r)

  seeded_lem : (s : ℕ) (f : Frontier) → mem s seeds ≡ true → Begun f → OneMore s f (seeded s f)
  unfolding mem
  seeded_lem s f inside b = elim (Bool-cases (is_known s f.reached)) [
    | inl old ↦
        let (r, found) = known s f.reached old in
        rw old (record {
          begun = record {
            roots = b.roots;
            queued = λ x q h. rw (mem-append x f.queue (s ∷ []), b.queued x q h) refl;
            level =
                Level-push b.level
                  (record { reach = r; found = found; deep = (b.roots s r found).0 });
          };
          extends = λ x q h. h;
          reached = (r, found);
        })
    | inr new ↦
        let ext = put-Extends s (seed s) f.reached (not_known s f.reached new) in
        let one = get-put_self s (seed s) f.reached in
        rw new (record {
          begun = record {
            roots = λ x r h. elim (Bool-cases (x == s)) [
              | inl e ↦
                  let same = (==_iff x s).0 e in
                  let is : seed s ≡ r = cc (rw (get-put x s (seed s) f.reached, e) at h) in
                  subst (λ (z : Reached). (z.depth ≡ 0) × (z.origin ≡ x) × (mem x seeds ≡ true)) is
                    (refl, sym same, subst (λ z. mem z seeds ≡ true) (sym same) inside)
              | inr e ↦ b.roots x r (rw (get-put x s (seed s) f.reached, e) at h)
            ];
            queued = λ x r h. elim (Bool-cases (x == s)) [
              | inl e ↦ rw (mem-append x f.queue (s ∷ []), e) (ground arith)
              | inr e ↦
                  rw
                    (
                      mem-append x f.queue (s ∷ []),
                      b.queued x r (rw (get-put x s (seed s) f.reached, e) at h),
                    )
                    refl
            ];
            level =
                Level-push (Level-Extends ext b.level)
                  (record { reach = seed s; found = one; deep = refl });
          };
          extends = ext;
          reached = (seed s, one);
        })
  ]

  pub seed_all_lem :
      (ss : List ℕ) (f : Frontier)
      → ((s : ℕ) → mem s ss ≡ true → mem s seeds ≡ true)
      → Begun f
      → Seeded ss f (seed_all ss f)
  unfolding seed_all mem
  seed_all_lem [] f inside b = record {
    begun = b;
    extends = λ x r h. h;
    reached = λ s h. cc h;
    bounded = omega arith;
  }
  seed_all_lem (s ∷ ss) f inside b =
      let one = seeded_lem s f (inside s (ground arith)) b in
      let rest = seed_all_lem ss (seeded s f) (λ x h. inside x (ground arith)) one.begun in
      record {
        begun = rest.begun;
        extends = λ x r h. rest.extends x r (one.extends x r h);
        reached = λ x h. elim (Bool-cases (x == s)) [
          | inr e ↦ rest.reached x (rw e at h)
          | inl e ↦
              let (r, found) = one.reached in
              (
                r,
                subst (λ z. get z (seed_all ss (seeded s f)).reached ≡ some r)
                    (sym ((==_iff x s).0 e)) (rest.extends s r found),
              )
        ];
        bounded = omega (arith, rest.bounded, length-append f.queue (s ∷ []));
      }
