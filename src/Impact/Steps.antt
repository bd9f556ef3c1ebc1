-- ===== src/Impact/Steps.antt =====
-- What expanding one node does: its admitted callers are reached one edge further away.
use vycor_cpp.Prelude.{
  ℕ, suc, ◌+◌, ◌≤◌, ◌<◌, ◌≡◌, ◌∙◌, refl, sym, subst, ◌⊎◌, inl, inr, Bool, true, false, none, some,
  List, [], ◌∷◌, ◌++◌, length, length-append, ◌==◌, ==_iff, Bool-cases, if◌then◌else◌, arith,
}
use vycor_cpp.CallGraph.Maps.{Map, get, put, get-put, mem, mem-append}
use vycor_cpp.CallGraph.Maps.Missing.{missing, missing_new}
use vycor_cpp.CallGraph.Refs.{EdgeRef}
use vycor_cpp.PathSearch.Chains.{In, first, later}
use vycor_cpp.Impact.{ImpactLimits, Reached, Frontier, is_known, admitted, reach_callers}
use vycor_cpp.Impact.Waves.{
  Within, Extends, Within-Extends, put-Extends, not_known, known, Waves, Waves-push, Waves-Extends,
  Shallow,
}

is_known-put :
    (x k : ℕ) (v : Reached) (m : Map Reached)
    → is_known x (put k v m) ≡ (if x == k then true else is_known x m)
unfolding is_known
is_known-put x k v m = elim (Bool-cases (x == k)) [
  | inl e ↦ rw (e, is_known, get-put x k v m, e) refl
  | inr e ↦ rw (e, is_known, get-put x k v m, e) refl
]

-- How many of these ids are not reached.
abbrev pub unreached : Map Reached → List ℕ → ℕ
unreached m = missing (λ x. is_known x m)

unreached_new :
    (k : ℕ) (v : Reached) (m : Map Reached) (xs : List ℕ)
    → mem k xs ≡ true
    → is_known k m ≡ false
    → unreached (put k v m) xs < unreached m xs
unreached_new k v m xs h fresh =
    let self : (k == k) ≡ true = ground arith in
    missing_new (λ x. is_known x m) (λ x. is_known x (put k v m))
      (λ x e. is_known-put x k v m ∙ ground (arith, e)) k xs h fresh
      (rw (is_known-put k k v m, self) refl)

pub In-cases : {x e : EdgeRef} {es : List EdgeRef} → In x (e ∷ es) → (x ≡ e) ⊎ In x es
In-cases first = inl refl
In-cases (later k) = inr k

pub get-put_self : (k : ℕ) (v : Reached) (m : Map Reached) → get k (put k v m) ≡ some v
get-put_self k v m = let self : (k == k) ≡ true = ground arith in rw (get-put k k v m, self) refl

module _ (callers_of : ℕ → List EdgeRef) (filter : EdgeRef → Bool) (limits : ImpactLimits)
    (seeds ids : List ℕ)
    (inside : (x : ℕ) (e : EdgeRef) → In e (callers_of x) → mem e.caller ids ≡ true) where
  -- Where an entry comes from.
  pub data Linked (m : Map Reached) (x : ℕ) (r : Reached) : Type 0 where
    root : r.depth ≡ 0 → r.origin ≡ x → mem x seeds ≡ true → Linked m x r
    via :
        (e : EdgeRef) (p : Reached)
        → r.edge ≡ some e
        → e.caller ≡ x
        → In e (callers_of r.parent)
        → filter e ≡ true
        → get r.parent m ≡ some p
        → r.depth ≡ suc p.depth
        → r.origin ≡ p.origin
        → Linked m x r

  -- Every entry has its origin, within the depth limit.
  pub record Good (m : Map Reached) : Type 0 where
    pub linked : (x : ℕ) (r : Reached) → get x m ≡ some r → Linked m x r
    pub capped :
        (x : ℕ) (r : Reached) → get x m ≡ some r → 0 < limits.max_depth → r.depth ≤ limits.max_depth

  Linked-Extends :
      (m m' : Map Reached) (x : ℕ) (r : Reached) → Extends m m' → Linked m x r → Linked m' x r
  Linked-Extends m m' x r ext (root a b c) = root a b c
  Linked-Extends m m' x r ext (via e p a b c d f g h) = via e p a b c d (ext _ p f) g h

  -- What reaching some callers of a node at depth `d` does.
  pub record Grown (d : ℕ) (es : List EdgeRef) (f f' : Frontier) : Type 0 where
    pub good : Good f'.reached
    pub waves : Waves f'.reached d f'.queue
    pub shallow : Shallow f'.reached d
    pub extends : Extends f.reached f'.reached
    pub opened : (e : EdgeRef) → In e es → filter e ≡ true → Within f'.reached e.caller (suc d)
    pub old_queue : (y : ℕ) → mem y f.queue ≡ true → mem y f'.queue ≡ true
    pub fresh :
        (y : ℕ) (r : Reached)
        → get y f'.reached ≡ some r
        → (get y f.reached ≡ some r) ⊎ (mem y f'.queue ≡ true)
    pub bounded :
        length f'.queue + unreached f'.reached ids ≤ length f.queue + unreached f.reached ids

  module _ (node : ℕ) (r : Reached)
      (room : 0 < limits.max_depth → suc r.depth ≤ limits.max_depth) where
    -- The entry of a caller.
    abbrev entry : EdgeRef → Reached
    entry e = record { depth = r.depth + 1; parent = node; edge = some e; origin = r.origin }

    abbrev reach_one : EdgeRef → Frontier → Frontier
    reach_one e f = record {
      reached = put e.caller (entry e) f.reached;
      queue = f.queue ++ (e.caller ∷ []);
    }

    put-Good :
        (e : EdgeRef) (m : Map Reached)
        → In e (callers_of node)
        → filter e ≡ true
        → get e.caller m ≡ none
        → get node m ≡ some r
        → Good m
        → Good (put e.caller (entry e) m)
    put-Good e m k pass fresh here good =
        let ext = put-Extends e.caller (entry e) m fresh in
        record {
          linked = λ x s h. elim (Bool-cases (x == e.caller)) [
            | inl same ↦
                let is : entry e ≡ s = cc (rw (get-put x e.caller (entry e) m, same) at h) in
                subst (Linked (put e.caller (entry e) m) x) is (
                  via e r refl (sym ((==_iff x e.caller).0 same)) k pass (ext node r here)
                    (omega arith) refl)
            | inr other ↦
                Linked-Extends m (put e.caller (entry e) m) x s ext
                  (good.linked x s (rw (get-put x e.caller (entry e) m, other) at h))
          ];
          capped = λ x s h positive. elim (Bool-cases (x == e.caller)) [
            | inl same ↦
                let is : entry e ≡ s = cc (rw (get-put x e.caller (entry e) m, same) at h) in
                subst (λ (z : Reached). z.depth ≤ limits.max_depth) is
                  (omega (arith, room positive))
            | inr other ↦ good.capped x s (rw (get-put x e.caller (entry e) m, other) at h) positive
          ];
        }

    put-Grown :
        (e : EdgeRef) (es : List EdgeRef) (f f' : Frontier)
        → is_known e.caller f.reached ≡ false
        → In e (callers_of node)
        → Grown r.depth es (reach_one e f) f'
        → Grown r.depth (e ∷ es) f f'
    unfolding mem
    put-Grown e es f f' unknown k rest =
        let fresh = not_known e.caller f.reached unknown in
        let ext = put-Extends e.caller (entry e) f.reached fresh in
        record {
          good = rest.good;
          waves = rest.waves;
          shallow = rest.shallow;
          extends = λ x s h. rest.extends x s (ext x s h);
          opened = λ x h pass. elim (In-cases h) [
            | inr behind ↦ rest.opened x behind pass
            | inl same ↦ record {
              reach = entry e;
              found =
                  subst (λ (z : EdgeRef). get z.caller f'.reached ≡ some (entry e)) (sym same)
                    (rest.extends e.caller (entry e) (get-put_self e.caller (entry e) f.reached));
              near = omega arith;
            }
          ];
          old_queue =
              λ y h. rest.old_queue y (ground (arith, mem-append y f.queue (e.caller ∷ []), h));
          fresh = λ y s h. elim (rest.fresh y s h) [
            | inr q ↦ inr q
            | inl old ↦ elim (Bool-cases (y == e.caller)) [
              | inl same ↦ inr (
                  rest.old_queue y (rw (mem-append y f.queue (e.caller ∷ []), same) (ground arith)))
              | inr other ↦ inl (rw (get-put y e.caller (entry e) f.reached, other) at old)
            ]
          ];
          bounded = omega (
            arith,
            rest.bounded,
            length-append f.queue (e.caller ∷ []),
            unreached_new e.caller (entry e) f.reached ids (inside node e k) unknown,
          );
        }

    skip-Grown :
        (e : EdgeRef) (es : List EdgeRef) (f f' : Frontier)
        → (filter e ≡ true → Within f.reached e.caller (suc r.depth))
        → Grown r.depth es f f'
        → Grown r.depth (e ∷ es) f f'
    skip-Grown e es f f' before rest = record {
      good = rest.good;
      waves = rest.waves;
      shallow = rest.shallow;
      extends = rest.extends;
      opened = λ x h pass. elim (In-cases h) [
        | inr behind ↦ rest.opened x behind pass
        | inl same ↦ Within-Extends f.reached f'.reached x.caller (suc r.depth) rest.extends (
            subst (λ (z : EdgeRef). Within f.reached z.caller (suc r.depth)) (sym same)
              (before (subst (λ z. filter z ≡ true) same pass)))
      ];
      old_queue = rest.old_queue;
      fresh = rest.fresh;
      bounded = rest.bounded;
    }

    put-Shallow :
        (e : EdgeRef) (m : Map Reached)
        → Shallow m r.depth
        → Shallow (put e.caller (entry e) m) r.depth
    put-Shallow e m shallow x s h = elim (Bool-cases (x == e.caller)) [
      | inl same ↦
          let is : entry e ≡ s = cc (rw (get-put x e.caller (entry e) m, same) at h) in
          subst (λ (z : Reached). z.depth ≤ suc r.depth) is (omega arith)
      | inr other ↦ shallow x s (rw (get-put x e.caller (entry e) m, other) at h)
    ]

    pub reach_callers_lem :
        (es : List EdgeRef) (f : Frontier)
        → ((e : EdgeRef) → In e es → In e (callers_of node))
        → get node f.reached ≡ some r
        → Good f.reached
        → Waves f.reached r.depth f.queue
        → Shallow f.reached r.depth
        → Grown r.depth es f (reach_callers filter node r es f)
    unfolding reach_callers admitted
    reach_callers_lem [] f sub here good waves shallow = record {
      good = good;
      waves = waves;
      shallow = shallow;
      extends = λ x s h. h;
      opened = λ e h pass. elim h [ ];
      old_queue = λ y h. h;
      fresh = λ y s h. inl h;
      bounded = omega arith;
    }
    reach_callers_lem (e ∷ es) f sub here good waves shallow = elim (Bool-cases (filter e)) [
      | inr out ↦ rw out (
          skip-Grown e es f _ (λ pass. cc (pass, out))
            (reach_callers_lem es f (λ x k. sub x (later k)) here good waves shallow))
      | inl pass ↦ elim (Bool-cases (is_known e.caller f.reached)) [
        | inl old ↦
            let (s, found) = known e.caller f.reached old in
            rw (pass, old)
              (skip-Grown e es f _
                (λ p. record { reach = s; found = found; near = shallow e.caller s found })
                (reach_callers_lem es f (λ x k. sub x (later k)) here good waves shallow))
        | inr new ↦
            let fresh = not_known e.caller f.reached new in
            let ext = put-Extends e.caller (entry e) f.reached fresh in
            let one = get-put_self e.caller (entry e) f.reached in
            rw (pass, new)
              (put-Grown e es f _ new (sub e first) (
                reach_callers_lem es (reach_one e f) (λ x k. sub x (later k)) (ext node r here)
                  (put-Good e f.reached (sub e first) pass fresh here good)
                  (Waves-push (Waves-Extends ext waves)
                    (record { reach = entry e; found = one; deep = omega arith }))
                  (put-Shallow e f.reached shallow)))
      ]
    ]
