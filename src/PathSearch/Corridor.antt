-- ===== src/PathSearch/Corridor.antt =====
-- With rounds enough the corridor has every node that a start leads to.
use vycor_cpp.Prelude.{
  ℕ, zero, suc, ◌+◌, ◌≤◌, ◌<◌, ◌≡◌, ◌∙◌, refl, sym, ap, subst, ◌⊎◌, inl, inr, Bool, true, false,
  none, some, List, [], ◌∷◌, ◌++◌, length, List-cases, length-append, ◌==◌, ==_iff, Bool-cases,
  Option-cases, if◌then◌else◌, arith,
}
use vycor_cpp.CallGraph.Maps.{Map, get, put, get-put, mem, mem-append}
use vycor_cpp.CallGraph.Maps.Missing.{missing, missing_all, missing_new}
use vycor_cpp.CallGraph.Refs.{EdgeRef}
use vycor_cpp.PathSearch.{Graph, corridor_edges, corridor_round, corridor, start_distances}
use vycor_cpp.PathSearch.Chains.{In, first, later}
use vycor_cpp.PathSearch.Complete.{In-first, In-only, Up, at_start, call}

-- Whether a node has a distance.
abbrev pub has : Map ℕ → ℕ → Bool
has m x = elim (get x m) [ none ↦ false | some d ↦ true ]

has-put : (x k d : ℕ) (m : Map ℕ) → has (put k d m) x ≡ (if x == k then true else has m x)
has-put x k d m = elim (Bool-cases (x == k)) [
  | inl e ↦ rw (e, has, get-put x k d m, e) refl
  | inr e ↦ rw (e, has, get-put x k d m, e) refl
]

module _ (g : Graph) (callees_of : ℕ → List EdgeRef) (ids : List ℕ)
    (inside : (x : ℕ) (e : EdgeRef) → In e (callees_of x) → mem e.callee ids ≡ true) where
  -- What a part of a round does; `es` are the admitted edges it has followed.
  record Spread (es : List EdgeRef) (m : Map ℕ) (next : List ℕ) (out : Map ℕ × List ℕ)
      : Type 0 where
    keeps : (x : ℕ) → has m x ≡ true → has out.0 x ≡ true
    follows : (e : EdgeRef) → In e es → g.filter e ≡ true → has out.0 e.callee ≡ true
    queued : (x : ℕ) → has out.0 x ≡ true → (has m x ≡ true) ⊎ (mem x out.1 ≡ true)
    old_next : (x : ℕ) → mem x next ≡ true → mem x out.1 ≡ true
    bounded : length out.1 + missing (has out.0) ids ≤ length next + missing (has m) ids

  Spread-skip :
      (e : EdgeRef) (es : List EdgeRef) (m : Map ℕ) (next : List ℕ) (out : Map ℕ × List ℕ)
      → (g.filter e ≡ true → has m e.callee ≡ true)
      → Spread es m next out
      → Spread (e ∷ es) m next out
  Spread-skip e es m next out before rest = record {
    keeps = rest.keeps;
    follows = λ x k pass. elim (In-first k) [
      | inr k' ↦ rest.follows x k' pass
      | inl k' ↦
          subst (λ (z : EdgeRef). has out.0 z.callee ≡ true) (sym (In-only k'))
            (rest.keeps e.callee (before (subst (λ z. g.filter z ≡ true) (In-only k') pass)))
    ];
    queued = rest.queued;
    old_next = rest.old_next;
    bounded = rest.bounded;
  }

  corridor_edges-Spread :
      (dist : ℕ) (es : List EdgeRef) (m : Map ℕ) (next : List ℕ)
      → ((e : EdgeRef) → In e es → mem e.callee ids ≡ true)
      → Spread es m next (corridor_edges g dist es m next)
  unfolding corridor_edges mem
  corridor_edges-Spread dist [] m next among = record {
    keeps = λ x h. h;
    follows = λ e k pass. elim k [ ];
    queued = λ x h. inl h;
    old_next = λ x h. h;
    bounded = omega arith;
  }
  corridor_edges-Spread dist (e ∷ es) m next among =
      let rest = corridor_edges-Spread dist es m next (λ d k. among d (later k)) in
      elim (Bool-cases (g.filter e)) [
        | inr out ↦ rw out (Spread-skip e es m next _ (λ pass. cc (pass, out)) rest)
        | inl pass ↦ elim (Option-cases (get e.callee m)) [
          | inr (d, old) ↦
              rw (pass, corridor_edges, old)
                (Spread-skip e es m next _ (λ p. rw (old, has) refl) rest)
          | inl new ↦
              let m' : Map ℕ = put e.callee dist m in
              let next' : List ℕ = next ++ (e.callee ∷ []) in
              let self : (e.callee == e.callee) ≡ true = ground arith in
              let now : has m' e.callee ≡ true = has-put e.callee e.callee dist m ∙ rw self refl in
              let fresh : has m e.callee ≡ false = rw (new, has) refl in
              let more : (x : ℕ) → has m x ≡ true → has m' x ≡ true =
                λ x h. has-put x e.callee dist m ∙ ground (arith, h) in
              let r = corridor_edges-Spread dist es m' next' (λ d k. among d (later k)) in
              rw (pass, corridor_edges, new)
                (record {
                  keeps = λ x h. r.keeps x (more x h);
                  follows = λ x k p. elim (In-first k) [
                    | inr k' ↦ r.follows x k' p
                    | inl k' ↦
                        r.keeps x.callee
                          (subst (λ (z : EdgeRef). has m' z.callee ≡ true) (sym (In-only k')) now)
                  ];
                  queued = λ x h. elim (r.queued x h) [
                    | inr q ↦ inr q
                    | inl k ↦ elim (Bool-cases (x == e.callee)) [
                      | inl same ↦ inr (
                          r.old_next x
                            (rw (mem-append x next (e.callee ∷ []), same) (ground arith)))
                      | inr other ↦ inl (sym (has-put x e.callee dist m ∙ rw other refl) ∙ k)
                    ]
                  ];
                  old_next = λ x h. r.old_next x (rw (mem-append x next (e.callee ∷ []), h) refl);
                  bounded = omega (
                    arith,
                    r.bounded,
                    length-append next (e.callee ∷ []),
                    missing_new (has m) (has m') more e.callee ids (among e first) fresh now,
                  );
                })
        ]
      ]

  -- All admitted calls of a node lead to nodes that have a distance.
  abbrev pub Closed : Map ℕ → ℕ → Type 0
  Closed m x = (e : EdgeRef) → In e (callees_of x) → g.filter e ≡ true → has m e.callee ≡ true

  record Rounded (frontier : List ℕ) (m : Map ℕ) (next : List ℕ) (out : Map ℕ × List ℕ)
      : Type 0 where
    keeps : (x : ℕ) → has m x ≡ true → has out.0 x ≡ true
    closes : (x : ℕ) → mem x frontier ≡ true → Closed out.0 x
    queued : (x : ℕ) → has out.0 x ≡ true → (has m x ≡ true) ⊎ (mem x out.1 ≡ true)
    old_next : (x : ℕ) → mem x next ≡ true → mem x out.1 ≡ true
    bounded : length out.1 + missing (has out.0) ids ≤ length next + missing (has m) ids

  corridor_round-Rounded :
      (dist : ℕ) (frontier : List ℕ) (m : Map ℕ) (next : List ℕ)
      → Rounded frontier m next (corridor_round callees_of g dist frontier m next)
  unfolding corridor_round mem
  corridor_round-Rounded dist [] m next = record {
    keeps = λ x h. h;
    closes = λ x k. cc k;
    queued = λ x h. inl h;
    old_next = λ x h. h;
    bounded = omega arith;
  }
  corridor_round-Rounded dist (node ∷ frontier) m next =
      let out = corridor_edges g dist (callees_of node) m next in
      let one = corridor_edges-Spread dist (callees_of node) m next (λ e k. inside node e k) in
      let rest = corridor_round-Rounded dist frontier out.0 out.1 in
      record {
        keeps = λ x h. rest.keeps x (one.keeps x h);
        closes = λ x k. elim (Bool-cases (x == node)) [
          | inr other ↦ rest.closes x (rw other at k)
          | inl same ↦ λ e j pass.
              rest.keeps e.callee
                (one.follows e (subst (λ z. In e (callees_of z)) ((==_iff x node).0 same) j) pass)
        ];
        queued = λ x h. elim (rest.queued x h) [
          | inr q ↦ inr q
          | inl k ↦ elim (one.queued x k) [ inl j ↦ inl j | inr q ↦ inr (rest.old_next x q) ]
        ];
        old_next = λ x h. rest.old_next x (one.old_next x h);
        bounded = omega (arith, rest.bounded, one.bounded);
      }

  corridor-empty : (rounds dist : ℕ) (m : Map ℕ) → corridor callees_of g rounds dist [] m ≡ m
  unfolding corridor
  corridor-empty zero dist m = refl
  corridor-empty (suc rounds) dist m = refl

  -- The corridor keeps what it has, and is closed in the end.
  record Whole (m m' : Map ℕ) : Type 0 where
    keeps : (x : ℕ) → has m x ≡ true → has m' x ≡ true
    closed : (x : ℕ) → has m' x ≡ true → Closed m' x

  corridor-Whole :
      (rounds dist : ℕ) (frontier : List ℕ) (m : Map ℕ)
      → missing (has m) ids < rounds
      → ((x : ℕ) → has m x ≡ true → (mem x frontier ≡ true) ⊎ Closed m x)
      → Whole m (corridor callees_of g rounds dist frontier m)
  unfolding corridor mem
  corridor-Whole zero dist frontier m enough ready = absurd (omega arith)
  corridor-Whole (suc rounds) dist [] m enough ready = record {
    keeps = λ x h. h;
    closed = λ x h. elim (ready x h) [ inl k ↦ cc k | inr c ↦ c ];
  }
  corridor-Whole (suc rounds) dist (node ∷ frontier) m enough ready =
      let out = corridor_round callees_of g (suc dist) (node ∷ frontier) m [] in
      let r : Rounded (node ∷ frontier) m [] out =
        corridor_round-Rounded (suc dist) (node ∷ frontier) m [] in
      let ready' : (x : ℕ) → has out.0 x ≡ true → (mem x out.1 ≡ true) ⊎ Closed out.0 x = λ x h.
        elim (r.queued x h) [
          | inr q ↦ inl q
          | inl old ↦ elim (ready x old) [
            | inl k ↦ inr (r.closes x k)
            | inr c ↦ inr (λ e j pass. r.keeps e.callee (c e j pass))
          ]
        ] in
      let rest : Whole out.0 (corridor callees_of g rounds (suc dist) out.1 out.0) =
        elim (List-cases out.1) [
          | inl e ↦
              subst (λ l. Whole out.0 (corridor callees_of g rounds (suc dist) l out.0)) (sym e)
                (subst (Whole out.0) (sym (corridor-empty rounds (suc dist) out.0)) (record {
                  keeps = λ x h. h;
                  closed = λ x h. elim (ready' x h) [
                    | inl k ↦ cc (subst (λ l. mem x l ≡ true) e k)
                    | inr c ↦ c
                  ];
                }))
          | inr (x, others, e) ↦
              let long : length out.1 ≡ suc (length others) = ap length e in
              corridor-Whole rounds (suc dist) out.1 out.0 (omega (arith, r.bounded, long)) ready'
        ] in
      record { keeps = λ x h. rest.keeps x (r.keeps x h); closed = rest.closed }

  start-has : (ss : List ℕ) (x : ℕ) → has (start_distances ss) x ≡ mem x ss
  unfolding start_distances mem get
  start-has [] x = refl
  start-has (s ∷ ss) x =
      has-put x s 0 (start_distances ss) ∙ ap (λ b. if x == s then true else b) (start-has ss x)

  module _ (rounds : ℕ) (enough : length ids < rounds)
      (agree : (n : ℕ) (e : EdgeRef)
        → In e (g.callers_of n)
        → g.filter e ≡ true
        → (d : EdgeRef) × In d (callees_of e.caller) × (g.filter d ≡ true) × (d.callee ≡ n)) where
    abbrev final : Map ℕ
    final = corridor callees_of g rounds 0 g.starts (start_distances g.starts)

    whole : Whole (start_distances g.starts) final
    whole =
        corridor-Whole rounds 0 g.starts (start_distances g.starts)
          (omega (arith, missing_all (has (start_distances g.starts)) ids))
          (λ x h. inl (sym (start-has g.starts x) ∙ h))

    Up-has : {n : ℕ} → Up g n → has final n ≡ true
    Up-has (at_start {n = n} h) = whole.keeps n (start-has g.starts n ∙ h)
    Up-has (call {n = n} e k pass up) =
        let (d, j, admitted, is_n) = agree n e k pass in
        subst (λ z. has final z ≡ true) is_n (whole.closed e.caller (Up-has up) d j admitted)

    pub corridor-Up : (n : ℕ) → Up g n → (d : ℕ) × (get n final ≡ some d)
    corridor-Up n up = elim (Option-cases (get n final)) [
      | inl e ↦ cc (Up-has up, no_distance e)
      | inr z ↦ z
    ]
      where
        no_distance : get n final ≡ none → has final n ≡ false
        no_distance e = rw (e, has) refl
