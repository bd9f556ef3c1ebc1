-- ===== src/GlobalIndex/Types/Bases.antt =====
-- The search of isBaseOrSelf finds exactly the chains of bases.
use vycor_cpp.Prelude.{
  ℕ, zero, suc, ◌+◌, ◌≤◌, ◌<◌, ◌≡◌, ◌≢◌, ◌↔◌, ◌⊎◌, refl, sym, ap, subst, inl, inr, true, false,
  List, [], ◌∷◌, length, list_eq, list_eq_refl, list_eq→eq, Bool-cases, if◌then◌else◌, arith,
}
use vycor_cpp.GlobalIndex.Types.{
  Name, Buckets, found_at, mem, edge_count, push_all, search_bases, TypeRelationIndex,
  is_base_or_self,
}

-- `y` is a direct base of `x`.
abbrev pub Base : Buckets Name → Name → Name → Type 0
Base m x y = mem y (found_at x m) ≡ true

-- A chain of one direct base or more.
pub data Derives : Buckets Name → Name → Name → Type 0 where
  direct : {m : Buckets Name} {x y : Name} → Base m x y → Derives m x y
  chain : {m : Buckets Name} {x z : Name} (y : Name) → Base m x y → Derives m y z → Derives m x z

mem-cons : (x y : Name) (ys : List Name) → mem x (y ∷ ys) ≡ true → (x ≡ y) ⊎ (mem x ys ≡ true)
unfolding mem
mem-cons x y ys h = elim (Bool-cases (list_eq x y)) [
  | inl e ↦ inl (list_eq→eq x y e)
  | inr e ↦ inr (simp e at h)
]

mem_here : (x : Name) (ys : List Name) → mem x (x ∷ ys) ≡ true
unfolding mem
mem_here x ys = rw (list_eq_refl x) refl

mem_later : (x y : Name) (ys : List Name) → mem x ys ≡ true → mem x (y ∷ ys) ≡ true
unfolding mem
mem_later x y ys h = elim (Bool-cases (list_eq x y)) [ inl e ↦ rw e refl | inr e ↦ rw e h ]

mem-push_all :
    (x : Name) (xs stack : List Name)
    → mem x (push_all xs stack) ≡ true
    → (mem x xs ≡ true) ⊎ (mem x stack ≡ true)
unfolding push_all
mem-push_all x [] stack h = inr h
mem-push_all x (y ∷ ys) stack h = elim (mem-push_all x ys (y ∷ stack) h) [
  | inl e ↦ inl (mem_later x y ys e)
  | inr e ↦ elim (mem-cons x y stack e) [
    | inl p ↦ inl (subst (λ z. mem z (y ∷ ys) ≡ true) (sym p) (mem_here y ys))
    | inr p ↦ inr p
  ]
]

push_all-old :
    (x : Name) (xs stack : List Name) → mem x stack ≡ true → mem x (push_all xs stack) ≡ true
unfolding push_all
push_all-old x [] stack h = h
push_all-old x (y ∷ ys) stack h = push_all-old x ys (y ∷ stack) (mem_later x y stack h)

push_all-new :
    (x : Name) (xs stack : List Name) → mem x xs ≡ true → mem x (push_all xs stack) ≡ true
unfolding push_all mem
push_all-new x [] stack h = cc h
push_all-new x (y ∷ ys) stack h = elim (mem-cons x y ys h) [
  | inl p ↦
      push_all-old x ys (y ∷ stack)
        (subst (λ z. mem z (y ∷ stack) ≡ true) (sym p) (mem_here y stack))
  | inr p ↦ push_all-new x ys (y ∷ stack) p
]

length-push_all : (xs stack : List Name) → length (push_all xs stack) ≡ length xs + length stack
unfolding push_all
length-push_all [] stack = omega arith
length-push_all (y ∷ ys) stack = omega (arith, length-push_all ys (y ∷ stack))

module _ (m : Buckets Name) (base start : Name) where
  -- What the search finds is there.
  search_bases_sound :
      (fuel : ℕ) (seen stack : List Name)
      → ((x : Name) → mem x stack ≡ true → (y : Name) → Derives m x y → Derives m start y)
      → search_bases fuel m base seen stack ≡ true
      → Derives m start base
  unfolding search_bases
  search_bases_sound zero seen stack h e = cc e
  search_bases_sound (suc fuel) seen [] h e = cc e
  search_bases_sound (suc fuel) seen (cur ∷ stack) h e = elim (Bool-cases (mem cur seen)) [
    | inl s ↦
        search_bases_sound fuel seen stack (λ x k. h x (mem_later x cur stack k))
          (simp (search_bases, s) at e)
    | inr s ↦ elim (Bool-cases (mem base (found_at cur m))) [
      | inl b ↦ h cur (mem_here cur stack) base (direct b)
      | inr b ↦
          search_bases_sound fuel (cur ∷ seen) (push_all (found_at cur m) stack)
            (λ x k y d. elim (mem-push_all x (found_at cur m) stack k) [
              | inl p ↦ h cur (mem_here cur stack) y (chain x p d)
              | inr p ↦ h x (mem_later x cur stack p) y d
            ])
            (simp (search_bases, s, b) at e)
    ]
  ]

-- The edges of the names that are not seen yet.
unseen_edges : Buckets Name → List Name → ℕ
unseen_edges [] seen = 0
unseen_edges ((k, xs) ∷ m) seen =
    let later = unseen_edges m seen in if mem k seen then later else length xs + later

unseen_edges-nil : (m : Buckets Name) → unseen_edges m [] ≡ edge_count m
unfolding unseen_edges edge_count mem
unseen_edges-nil [] = refl
unseen_edges-nil ((k, xs) ∷ m) = ap (λ n. length xs + n) (unseen_edges-nil m)

-- Seeing more names leaves no more edges.
unseen_edges_less :
    (m : Buckets Name) (cur : Name) (seen : List Name)
    → unseen_edges m (cur ∷ seen) ≤ unseen_edges m seen
unfolding unseen_edges
unseen_edges_less [] cur seen = omega arith
unseen_edges_less ((k, xs) ∷ m) cur seen = elim (Bool-cases (mem k seen)) [
  | inl e ↦ rw (mem_later k cur seen e, e) (unseen_edges_less m cur seen)
  | inr e ↦ elim (Bool-cases (mem k (cur ∷ seen))) [
    | inl d ↦ rw (d, e) (omega (arith, unseen_edges_less m cur seen))
    | inr d ↦ rw (d, e) (omega (arith, unseen_edges_less m cur seen))
  ]
]

unseen_edges-found_at :
    (m : Buckets Name) (cur : Name) (seen : List Name)
    → mem cur seen ≡ false
    → length (found_at cur m) + unseen_edges m (cur ∷ seen) ≤ unseen_edges m seen
unfolding unseen_edges found_at
unseen_edges-found_at [] cur seen h = omega arith
unseen_edges-found_at ((k, xs) ∷ m) cur seen h = elim (Bool-cases (list_eq cur k)) [
  | inl e ↦
      let same = list_eq→eq cur k e in
      let here : mem k (cur ∷ seen) ≡ true =
        subst (λ z. mem z (cur ∷ seen) ≡ true) same (mem_here cur seen) in
      let fresh : mem k seen ≡ false = subst (λ z. mem z seen ≡ false) same h in
      rw (e, here, fresh) (omega (arith, unseen_edges_less m cur seen))
  | inr e ↦ elim (Bool-cases (mem k seen)) [
    | inl d ↦ rw (e, mem_later k cur seen d, d) (unseen_edges-found_at m cur seen h)
    | inr d ↦ elim (Bool-cases (mem k (cur ∷ seen))) [
      | inl c ↦ rw (e, c, d) (omega (arith, unseen_edges-found_at m cur seen h))
      | inr c ↦ rw (e, c, d) (omega (arith, unseen_edges-found_at m cur seen h))
    ]
  ]
]

module _ (m : Buckets Name) (base : Name) where
  -- What was seen leads to names that were seen or are on the stack, and to no direct base sought.
  abbrev Explored : List Name → List Name → Type 0
  Explored seen stack =
      (x : Name)
      → mem x seen ≡ true
      → (y : Name) → Base m x y
      → (y ≢ base) × ((mem y seen ≡ true) ⊎ (mem y stack ≡ true))

  Explored-closed :
      (seen : List Name)
      → Explored seen []
      → (x z : Name) → mem x seen ≡ true
      → Derives m x z
      → z ≢ base
  unfolding mem
  Explored-closed seen inv x z h (direct b) = (inv x h z b).0
  Explored-closed seen inv x z h (chain y b d) = elim (inv x h y b).1 [
    | inl k ↦ Explored-closed seen inv y z k d
    | inr k ↦ cc k
  ]

  Explored-step :
      (seen stack : List Name) (cur : Name)
      → Explored seen (cur ∷ stack)
      → mem base (found_at cur m) ≡ false
      → Explored (cur ∷ seen) (push_all (found_at cur m) stack)
  Explored-step seen stack cur inv none x h y b = elim (mem-cons x cur seen h) [
    | inl p ↦
        let found : mem y (found_at cur m) ≡ true = subst (λ z. mem y (found_at z m) ≡ true) p b in
        (
          λ e. cc (none, found, ap (λ z. mem z (found_at cur m)) e),
          inr (push_all-new y (found_at cur m) stack found),
        )
    | inr k ↦
        let (ne, where_y) = inv x k y b in
        (
          ne,
          elim where_y [
            | inl s ↦ inl (mem_later y cur seen s)
            | inr s ↦ elim (mem-cons y cur stack s) [
              | inl q ↦ inl (subst (λ z. mem z (cur ∷ seen) ≡ true) (sym q) (mem_here cur seen))
              | inr q ↦ inr (push_all-old y (found_at cur m) stack q)
            ]
          ],
        )
  ]

  -- A search that finds nothing has looked at every chain.
  search_bases_complete :
      (fuel : ℕ) (seen stack : List Name)
      → unseen_edges m seen + length stack < fuel
      → Explored seen stack
      → search_bases fuel m base seen stack ≡ false
      → (x z : Name) → (mem x seen ≡ true) ⊎ (mem x stack ≡ true)
      → Derives m x z
      → z ≢ base
  unfolding search_bases mem
  search_bases_complete zero seen stack l inv e x z h d = absurd (omega arith)
  search_bases_complete (suc fuel) seen [] l inv e x z h d = elim h [
    | inl k ↦ Explored-closed seen inv x z k d
    | inr k ↦ cc k
  ]
  search_bases_complete (suc fuel) seen (cur ∷ stack) l inv e x z h d =
      elim (Bool-cases (mem cur seen)) [
        | inl s ↦
            let move : (y : Name)
                → mem y (cur ∷ stack) ≡ true
                → (mem y seen ≡ true) ⊎ (mem y stack ≡ true) =
              λ y k. elim (mem-cons y cur stack k) [
                | inl p ↦ inl (subst (λ w. mem w seen ≡ true) (sym p) s)
                | inr p ↦ inr p
              ] in
            search_bases_complete fuel seen stack (omega arith)
              (λ a b c f.
                ((inv a b c f).0, elim (inv a b c f).1 [ inl k ↦ inl k | inr k ↦ move c k ]))
              (simp (search_bases, s) at e) x z (elim h [ inl k ↦ inl k | inr k ↦ move x k ]) d
        | inr s ↦ elim (Bool-cases (mem base (found_at cur m))) [
          | inl b ↦ cc (simp (search_bases, s, b) at e)
          | inr b ↦
              search_bases_complete fuel (cur ∷ seen) (push_all (found_at cur m) stack)
                (omega (
                  arith,
                  length-push_all (found_at cur m) stack,
                  unseen_edges-found_at m cur seen s,
                ))
                (Explored-step seen stack cur inv b) (simp (search_bases, s, b) at e) x z
                (elim h [
                  | inl k ↦ inl (mem_later x cur seen k)
                  | inr k ↦ elim (mem-cons x cur stack k) [
                    | inl p ↦
                        inl (subst (λ w. mem w (cur ∷ seen) ≡ true) (sym p) (mem_here cur seen))
                    | inr p ↦ inr (push_all-old x (found_at cur m) stack p)
                  ]
                ])
                d
        ]
      ]

-- For any two type names and any table of direct bases, isBaseOrSelf is true exactly if the names
-- are the same or a chain of direct bases leads from the first to the second; chains may be
-- circular, and the fuel of the search is always enough.
pub is_base_or_self_lem :
    (derived maybe_base : Name) (t : TypeRelationIndex)
    → is_base_or_self derived maybe_base t ≡ true
      ↔ (derived ≡ maybe_base) ⊎ Derives t.bases derived maybe_base
unfolding is_base_or_self mem
is_base_or_self_lem derived maybe_base t = elim (Bool-cases (list_eq derived maybe_base)) [
  | inl e ↦ (λ h. inl (list_eq→eq derived maybe_base e), λ h. rw e refl)
  | inr e ↦ (
    λ h.
        inr (
          search_bases_sound t.bases maybe_base derived fuel [] (derived ∷ []) start (simp e at h)),
    λ h. elim h [
      | inl p ↦ cc (e, ap (list_eq derived) p, list_eq_refl derived)
      | inr d ↦ simp e (reached d)
    ],
  )
]
  where
    fuel : ℕ
    fuel = suc (suc (edge_count t.bases))

    start :
        (x : Name)
        → mem x (derived ∷ []) ≡ true
        → (y : Name) → Derives t.bases x y
        → Derives t.bases derived y
    start x h y d = elim (mem-cons x derived [] h) [
      | inl p ↦ subst (λ w. Derives t.bases w y) p d
      | inr p ↦ cc p
    ]

    reached :
        Derives t.bases derived maybe_base
        → search_bases fuel t.bases maybe_base [] (derived ∷ []) ≡ true
    reached d = elim (Bool-cases (search_bases fuel t.bases maybe_base [] (derived ∷ []))) [
      | inl k ↦ k
      | inr k ↦ absurd (
          search_bases_complete t.bases maybe_base fuel [] (derived ∷ [])
            (omega (arith, unseen_edges-nil t.bases)) (λ x h y b. cc h) k derived maybe_base
            (inr (mem_here derived [])) d refl)
    ]
