-- ===== src/CallGraph/Relations/Closure.antt =====
-- transitiveClosure finds what the relation leads to, and nothing else.
use vycor_cpp.Prelude.{
  ℕ, zero, suc, ◌+◌, ◌≤◌, ◌<◌, ◌≡◌, ◌≢◌, ◌↔◌, refl, sym, ap, subst, ◌⊎◌, inl, inr, true, false,
  none, some, List, [], ◌∷◌, ◌++◌, length, ◌==◌, ==_iff, Bool-cases, Option-cases, if◌then◌else◌,
  arith,
}
use vycor_cpp.CallGraph.Maps.{Map, get, bucket, mem, mem-append}
use vycor_cpp.CallGraph.Maps.Missing.{missing, missing_all, missing_new}
use vycor_cpp.CallGraph.Relations.{Walk, visit, walk, targets, transitive_closure}

-- One step of the relation.
abbrev pub Leads : Map (List ℕ) → ℕ → ℕ → Type 0
Leads m x y = mem y (bucket x m) ≡ true

-- One step or more.
pub data Reaches (m : Map (List ℕ)) (start : ℕ) : ℕ → Type 0 where
  first : {y : ℕ} → Leads m start y → Reaches m start y
  more : {z : ℕ} (y : ℕ) → Reaches m start y → Leads m y z → Reaches m start z

-- How many of these are not visited.
abbrev unseen : List ℕ → List ℕ → ℕ
unseen visited = missing (λ x. mem x visited)

unseen_new :
    (x : ℕ) (visited xs : List ℕ)
    → mem x xs ≡ true
    → mem x visited ≡ false
    → unseen (x ∷ visited) xs < unseen visited xs
unfolding mem
unseen_new x visited xs h new =
    missing_new (λ y. mem y visited) (λ y. mem y (x ∷ visited)) (λ y e. ground (arith, e)) x xs h
      new (ground arith)

pub mem-targets : (x y : ℕ) (m : Map (List ℕ)) → Leads m x y → mem y (targets m) ≡ true
unfolding targets bucket get mem
mem-targets x y [] h = h
mem-targets x y ((k, xs) ∷ m) h = elim (Bool-cases (x == k)) [
  | inl e ↦ rw (mem-append y xs (targets m), rw e at h) refl
  | inr e ↦ ground (arith, mem-append y xs (targets m), mem-targets x y m (rw e at h))
]

module _ (m : Map (List ℕ)) (start : ℕ) where
  -- What the walk has seen is reached; the result is what it has seen, without the start.
  record Sound (w : Walk) : Type 0 where
    reached : (x : ℕ) → mem x w.visited ≡ true → (x ≡ start) ⊎ Reaches m start x
    found : (x : ℕ) → mem x w.visited ≡ (if x == start then true else mem x w.result)
    apart : mem start w.result ≡ false

  -- What visiting some successors of a seen node does.
  record Visited (nexts : List ℕ) (w w' : Walk) : Type 0 where
    sound : Sound w'
    all_seen : (y : ℕ) → mem y nexts ≡ true → mem y w'.visited ≡ true
    old_seen : (y : ℕ) → mem y w.visited ≡ true → mem y w'.visited ≡ true
    old_stack : (y : ℕ) → mem y w.stack ≡ true → mem y w'.stack ≡ true
    new_stack :
        (y : ℕ) → mem y w'.visited ≡ true → (mem y w.visited ≡ true) ⊎ (mem y w'.stack ≡ true)
    stack_seen :
        (y : ℕ) → mem y w'.stack ≡ true → (mem y w.stack ≡ true) ⊎ (mem y w'.visited ≡ true)
    bounded :
        length w'.stack + unseen w'.visited (targets m)
        ≤ length w.stack + unseen w.visited (targets m)

  -- The walk after a new node is seen.
  abbrev seen_new : ℕ → Walk → Walk
  seen_new next w = record {
    result = w.result ++ (next ∷ []);
    stack = next ∷ w.stack;
    visited = next ∷ w.visited;
  }

  seen_new-Sound :
      (next : ℕ) (w : Walk)
      → Reaches m start next
      → mem next w.visited ≡ false
      → Sound w
      → Sound (seen_new next w)
  unfolding mem
  seen_new-Sound next w r fresh inv = record {
    reached = λ x h. elim (Bool-cases (x == next)) [
      | inl e ↦ inr (subst (Reaches m start) (sym ((==_iff x next).0 e)) r)
      | inr e ↦ inv.reached x (rw e at h)
    ];
    found = λ x. elim (Bool-cases (x == next)) [
      | inl e ↦
          let same = (==_iff x next).0 e in ground (arith, mem-append x w.result (next ∷ []), e)
      | inr e ↦ ground (arith, mem-append x w.result (next ∷ []), inv.found x, e)
    ];
    apart = elim (Bool-cases (start == next)) [
      | inl e ↦
          let begun : mem next w.visited ≡ true =
            subst (λ z. mem z w.visited ≡ true) ((==_iff start next).0 e)
              (ground (arith, inv.found start)) in
          cc (begun, fresh)
      | inr e ↦ ground (arith, mem-append start w.result (next ∷ []), inv.apart, e)
    ];
  }

  visit-Visited :
      (nexts : List ℕ) (w : Walk)
      → ((y : ℕ) → mem y nexts ≡ true → Reaches m start y × (mem y (targets m) ≡ true))
      → Sound w
      → Visited nexts w (visit nexts w)
  unfolding visit mem
  visit-Visited [] w inside inv = record {
    sound = inv;
    all_seen = λ y h. cc h;
    old_seen = λ y h. h;
    old_stack = λ y h. h;
    new_stack = λ y h. inl h;
    stack_seen = λ y h. inl h;
    bounded = omega arith;
  }
  visit-Visited (next ∷ nexts) w inside inv = elim (Bool-cases (mem next w.visited)) [
    | inl e ↦
        let rest = visit-Visited nexts w (λ y h. inside y (ground arith)) inv in
        rw e (record {
          sound = rest.sound;
          all_seen = λ y h. elim (Bool-cases (y == next)) [
            | inl same ↦
                rest.old_seen y
                  (subst (λ z. mem z w.visited ≡ true) (sym ((==_iff y next).0 same)) e)
            | inr other ↦ rest.all_seen y (rw other at h)
          ];
          old_seen = rest.old_seen;
          old_stack = rest.old_stack;
          new_stack = rest.new_stack;
          stack_seen = rest.stack_seen;
          bounded = rest.bounded;
        })
    | inr e ↦
        let (reached, target) = inside next here in
        let rest =
          visit-Visited nexts (seen_new next w) (λ y h. inside y (ground arith))
            (seen_new-Sound next w reached e inv) in
        rw e (record {
          sound = rest.sound;
          all_seen = λ y h. elim (Bool-cases (y == next)) [
            | inl same ↦ rest.old_seen y (rw same refl)
            | inr other ↦ rest.all_seen y (rw other at h)
          ];
          old_seen = λ y h. rest.old_seen y (ground arith);
          old_stack = λ y h. rest.old_stack y (ground arith);
          new_stack = λ y h. elim (rest.new_stack y h) [
            | inl k ↦ elim (Bool-cases (y == next)) [
              | inl same ↦ inr (rest.old_stack y (rw same refl))
              | inr other ↦ inl (rw other at k)
            ]
            | inr k ↦ inr k
          ];
          stack_seen = λ y h. elim (rest.stack_seen y h) [
            | inl k ↦ elim (Bool-cases (y == next)) [
              | inl same ↦ inr (rest.old_seen y (rw same refl))
              | inr other ↦ inl (rw other at k)
            ]
            | inr k ↦ inr k
          ];
          bounded = omega (arith, rest.bounded, unseen_new next w.visited (targets m) target e);
        })
  ]
    where
      here : mem next (next ∷ nexts) ≡ true
      here = ground arith

  -- A seen node is on the stack, or its successors are seen.
  abbrev Explored : List ℕ → List ℕ → Type 0
  Explored stack visited =
      (x : ℕ)
      → mem x visited ≡ true
      → (mem x stack ≡ true) ⊎ ((y : ℕ) → Leads m x y → mem y visited ≡ true)

  record Closed (w : Walk) : Type 0 where
    sound : Sound w
    closed : (x y : ℕ) → mem x w.visited ≡ true → Leads m x y → mem y w.visited ≡ true
    begun : mem start w.visited ≡ true

  walk-Closed :
      (fuel : ℕ) (result stack visited : List ℕ)
      → length stack + unseen visited (targets m) < fuel
      → Sound (record { result = result; stack = stack; visited = visited })
      → Explored stack visited
      → ((x : ℕ) → mem x stack ≡ true → mem x visited ≡ true)
      → mem start visited ≡ true
      → Closed (walk fuel m result stack visited)
  unfolding walk mem
  walk-Closed zero result stack visited enough inv explored inside begun = absurd (omega arith)
  walk-Closed (suc fuel) result [] visited enough inv explored inside begun = record {
    sound = inv;
    closed = λ x y h l. elim (explored x h) [ inl k ↦ cc k | inr all ↦ all y l ];
    begun = begun;
  }
  walk-Closed (suc fuel) result (cur ∷ stack) visited enough inv explored inside begun =
      let w : Walk = record { result = result; stack = stack; visited = visited } in
      let w' : Walk = visit (bucket cur m) w in
      let cur_seen : mem cur visited ≡ true = inside cur (ground arith) in
      let v : Visited (bucket cur m) w w' =
        visit-Visited (bucket cur m) w
          (λ y h. (
            elim (inv.reached cur cur_seen) [
              | inl e ↦ first (subst (λ z. Leads m z y) e h)
              | inr r ↦ more cur r h
            ],
            mem-targets cur y m h,
          ))
          (record { reached = inv.reached; found = inv.found; apart = inv.apart }) in
      walk-Closed fuel w'.result w'.stack w'.visited (omega (arith, v.bounded)) v.sound
        (λ x h. elim (v.new_stack x h) [
          | inr on_stack ↦ inl on_stack
          | inl before ↦ elim (explored x before) [
            | inr all ↦ inr (λ y l. v.old_seen y (all y l))
            | inl on_stack ↦ elim (Bool-cases (x == cur)) [
              | inl same ↦
                  inr (λ y l. v.all_seen y (subst (λ z. Leads m z y) ((==_iff x cur).0 same) l))
              | inr other ↦ inl (v.old_stack x (rw other at on_stack))
            ]
          ]
        ])
        (λ x h. elim (v.stack_seen x h) [
          | inl old ↦ v.old_seen x (inside x (ground arith))
          | inr new ↦ new
        ])
        (v.old_seen start begun)

  Closed-Reaches : (w : Walk) → Closed w → (x : ℕ) → Reaches m start x → mem x w.visited ≡ true
  Closed-Reaches w c x (first l) = c.closed start x c.begun l
  Closed-Reaches w c x (more y r l) = c.closed y x (Closed-Reaches w c y r) l

  whole_walk : Closed (walk (suc (suc (length (targets m)))) m [] (start ∷ []) (start ∷ []))
  unfolding mem
  whole_walk =
      walk-Closed (suc (suc (length (targets m)))) [] (start ∷ []) (start ∷ [])
        (omega (arith, missing_all (λ y. mem y (start ∷ [])) (targets m)))
        (record { reached = λ x h. inl (only x h); found = λ x. refl; apart = refl }) (λ x h. inl h)
        (λ x h. h) (only_self start)
    where
      only : (x : ℕ) → mem x (start ∷ []) ≡ true → x ≡ start
      only x h = ground arith

      only_self : (x : ℕ) → mem x (x ∷ []) ≡ true
      only_self x = ground arith

  no_start : get start m ≡ none → (x : ℕ) → Reaches m start x → mem x [] ≡ true
  unfolding bucket mem
  no_start e x (first l) = rw e at l
  no_start e x (more y r l) = cc (no_start e y r)

-- For any relation and any start, transitiveClosure lists exactly the ids other than the start that
-- a chain of one pair or more leads to; chains may be circular, and the fuel of the walk is always
-- enough.
pub transitive_closure_lem :
    (start : ℕ) (m : Map (List ℕ)) (x : ℕ)
    → mem x (transitive_closure start m) ≡ true ↔ (x ≢ start) × Reaches m start x
transitive_closure_lem start m x = elim (Option-cases (get start m)) [
  | inl e ↦
      subst (λ l. mem x l ≡ true ↔ (x ≢ start) × Reaches m start x) (sym (closure_none e))
        (λ h. cc (h, none_in x), λ h. no_start m start e x h.1)
  | inr (xs, e) ↦
      let w = walk (suc (suc (length (targets m)))) m [] (start ∷ []) (start ∷ []) in
      let c : Closed m start w = whole_walk m start in
      subst (λ l. mem x l ≡ true ↔ (x ≢ start) × Reaches m start x) (sym (closure_some xs e))
        (
          λ h. in_result w c h,
          λ h. ground (arith, c.sound.found x, Closed-Reaches m start w c x h.1, h.0),
        )
]
  where
    closure_none : get start m ≡ none → transitive_closure start m ≡ []
    closure_none e = unfold transitive_closure in rw (e, transitive_closure) refl

    closure_some :
        (xs : List ℕ)
        → get start m ≡ some xs
        → transitive_closure start m
          ≡ (walk (suc (suc (length (targets m)))) m [] (start ∷ []) (start ∷ [])).result
    closure_some xs e = unfold transitive_closure in rw (e, transitive_closure) refl

    none_in : (y : ℕ) → mem y [] ≡ false
    none_in y = unfold mem in refl

    in_result :
        (w : Walk) → Closed m start w → mem x w.result ≡ true → (x ≢ start) × Reaches m start x
    in_result w c h =
        let differ : x ≢ start = λ e. cc (c.sound.apart, ap (λ z. mem z w.result) e, h) in
        (
          differ,
          elim (c.sound.reached x (ground (arith, c.sound.found x))) [
            | inl e ↦ absurd (differ e)
            | inr r ↦ r
          ],
        )
