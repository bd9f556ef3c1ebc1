-- ===== src/CallGraph/Edges/Takes.antt =====
-- What removing TUs takes from the registrations of an edge.
use vycor_cpp.Prelude.{
  ℕ, suc, ◌+◌, ◌-◌, ◌≡◌, refl, ap, ◌∙◌, inl, inr, Bool, true, Option, none, some, List, [], ◌∷◌,
  ◌==◌, ==_iff, Bool-cases, Option-cases, if◌then◌else◌, if-intro, arith,
}
use vycor_cpp.CallGraph.Maps.{Map, bucket, del, get_elem?, get_elem?-set, get_elem?-below, set}
use vycor_cpp.CallGraph.Edges.{
  StoredEdge, EdgeStore, Release, release_edge, release_idx, release_all, release_tus, remove_edges,
}

-- The registrations of the edge at an index; none, where there is no edge.
unfoldable pub refs_at : ℕ → List StoredEdge → ℕ
refs_at i edges = elim (get_elem? edges i) [ none ↦ 0 | some se ↦ se.refs ]

refs_at-none : (i : ℕ) (edges : List StoredEdge) → get_elem? edges i ≡ none → refs_at i edges ≡ 0
unfolding refs_at
refs_at-none i edges e = rw (e, refs_at) refl

pub refs_at-some :
    (i : ℕ) (edges : List StoredEdge) (se : StoredEdge)
    → get_elem? edges i ≡ some se
    → refs_at i edges ≡ se.refs
unfolding refs_at
refs_at-some i edges se e = rw (e, refs_at) refl

pub refs_at-set :
    (edges : List StoredEdge) (i j : ℕ) (old new : StoredEdge)
    → get_elem? edges i ≡ some old
    → refs_at j (set edges i new) ≡ (if j == i then new.refs else refs_at j edges)
unfolding refs_at
refs_at-set edges i j old new h = elim (Bool-cases (j == i)) [
  | inl e ↦ rw e (
      refs_at-some j (set edges i new) new
        (at_j ∙ ap (λ b. if b then some new else get_elem? edges j) e))
  | inr e ↦ rw e (same_at (at_j ∙ ap (λ b. if b then some new else get_elem? edges j) e))
]
  where
    at_j : get_elem? (set edges i new) j ≡ (if j == i then some new else get_elem? edges j)
    at_j = get_elem?-set edges i j new (get_elem?-below edges i h)

    same_at :
        get_elem? (set edges i new) j ≡ get_elem? edges j
        → refs_at j (set edges i new) ≡ refs_at j edges
    same_at e = ap (λ (o : Option StoredEdge). elim o [ none ↦ 0 | some se ↦ se.refs ]) e

-- How often an index stands in a list, and in the lists of some TUs.
unfoldable pub times : ℕ → List ℕ → ℕ
times i [] = 0
times i (j ∷ js) = let later = times i js in if i == j then suc later else later

unfoldable pub held : ℕ → List ℕ → Map (List ℕ) → ℕ
held i [] m = 0
held i (tu ∷ tus) m = times i (bucket tu m) + held i tus (del tu m)

module _ (idx i : ℕ) (edge : StoredEdge) (r : Release)
    (at_idx : get_elem? r.store.edges idx ≡ some edge) where
  one_less : ℕ
  one_less = if i == idx then 1 else 0

  -- A change of this edge to one registration fewer.
  less_at :
      refs_at i (set r.store.edges idx (record edge { refs = edge.refs - 1 }))
      ≡ refs_at i r.store.edges - one_less
  unfolding one_less
  less_at = elim (Bool-cases (i == idx)) [
    | inl e ↦
        let here = (==_iff i idx).0 e in
        omega (
          arith,
          changed e,
          ap {B = ℕ} (λ b. if b then 1 else 0) e,
          refs_at-some i r.store.edges edge (ap (get_elem? r.store.edges) here ∙ at_idx),
        )
    | inr e ↦ omega (arith, changed e, ap {B = ℕ} (λ b. if b then 1 else 0) e)
  ]
    where
      changed :
          {b : Bool}
          → (i == idx) ≡ b
          → refs_at i (set r.store.edges idx (record edge { refs = edge.refs - 1 }))
            ≡ (if b then edge.refs - 1 else refs_at i r.store.edges)
      changed e =
          refs_at-set r.store.edges idx i edge (record edge { refs = edge.refs - 1 }) at_idx
          ∙ ap (λ b. if b then edge.refs - 1 else refs_at i r.store.edges) e

  release_edge-refs_at :
      refs_at i (release_edge idx edge r).store.edges ≡ refs_at i r.store.edges - one_less
  unfolding release_edge one_less
  release_edge-refs_at =
      if-intro (λ (q : Release). refs_at i q.store.edges ≡ refs_at i r.store.edges - one_less)
        (edge.refs == 0) (λ none_left. untouched none_left)
        (λ some_left.
          if-intro (λ (q : Release). refs_at i q.store.edges ≡ refs_at i r.store.edges - one_less)
            (edge.refs - 1 == 0) (λ last. less_at) (λ others. less_at))
    where
      untouched :
          (edge.refs == 0) ≡ true → refs_at i r.store.edges ≡ refs_at i r.store.edges - one_less
      untouched z = elim (Bool-cases (i == idx)) [
        | inl e ↦
            let here = (==_iff i idx).0 e in
            omega (
              arith,
              (==_iff edge.refs 0).0 z,
              refs_at-some i r.store.edges edge (ap (get_elem? r.store.edges) here ∙ at_idx),
            )
        | inr e ↦ omega (arith, ap {B = ℕ} (λ b. if b then 1 else 0) e)
      ]

  release_edge-tu_edges : (release_edge idx edge r).store.tu_edges ≡ r.store.tu_edges
  unfolding release_edge
  release_edge-tu_edges =
      if-intro (λ (q : Release). q.store.tu_edges ≡ r.store.tu_edges) (edge.refs == 0)
        (λ none_left. refl)
        (λ some_left.
          if-intro (λ (q : Release). q.store.tu_edges ≡ r.store.tu_edges) (edge.refs - 1 == 0)
            (λ last. refl) (λ others. refl))

release_idx-refs_at :
    (idx i : ℕ) (r : Release)
    → refs_at i (release_idx idx r).store.edges
      ≡ refs_at i r.store.edges - (if i == idx then 1 else 0)
unfolding release_idx
release_idx-refs_at idx i r = elim (Option-cases (get_elem? r.store.edges idx)) [
  | inl e ↦ rw (e, release_idx) (missing e)
  | inr (edge, e) ↦ rw (e, release_idx) (unfold one_less in release_edge-refs_at idx i edge r e)
]
  where
    missing :
        get_elem? r.store.edges idx ≡ none
        → refs_at i r.store.edges ≡ refs_at i r.store.edges - (if i == idx then 1 else 0)
    missing e = elim (Bool-cases (i == idx)) [
      | inl same ↦ omega (
        arith,
        refs_at-none i r.store.edges (ap (get_elem? r.store.edges) ((==_iff i idx).0 same) ∙ e),
      )
      | inr other ↦ omega (arith, ap {B = ℕ} (λ b. if b then 1 else 0) other)
    ]

release_idx-tu_edges :
    (idx : ℕ) (r : Release) → (release_idx idx r).store.tu_edges ≡ r.store.tu_edges
unfolding release_idx
release_idx-tu_edges idx r = elim (Option-cases (get_elem? r.store.edges idx)) [
  | inl e ↦ rw (e, release_idx) refl
  | inr (edge, e) ↦ rw (e, release_idx) (release_edge-tu_edges idx 0 edge r e)
]

release_all-refs_at :
    (idxs : List ℕ) (i : ℕ) (r : Release)
    → refs_at i (release_all idxs r).store.edges ≡ refs_at i r.store.edges - times i idxs
unfolding release_all times
release_all-refs_at [] i r = omega arith
release_all-refs_at (idx ∷ idxs) i r =
    ground (arith, release_all-refs_at idxs i (release_idx idx r), release_idx-refs_at idx i r)

release_all-tu_edges :
    (idxs : List ℕ) (r : Release) → (release_all idxs r).store.tu_edges ≡ r.store.tu_edges
unfolding release_all
release_all-tu_edges [] r = refl
release_all-tu_edges (idx ∷ idxs) r =
    release_all-tu_edges idxs (release_idx idx r) ∙ release_idx-tu_edges idx r

release_tus-refs_at :
    (tus : List ℕ) (i : ℕ) (r : Release)
    → refs_at i (release_tus tus r).store.edges
      ≡ refs_at i r.store.edges - held i tus r.store.tu_edges
unfolding release_tus held
release_tus-refs_at [] i r = omega arith
release_tus-refs_at (tu ∷ tus) i r =
    let idxs = bucket tu r.store.tu_edges in
    let after = release_all idxs r in
    let later =
      release_tus-refs_at tus i
        (record after { store = record after.store { tu_edges = del tu after.store.tu_edges } }) in
    omega (
      arith,
      later,
      release_all-refs_at idxs i r,
      ap (λ m. held i tus (del tu m)) (release_all-tu_edges idxs r),
    )

-- Removing TUs takes from each edge as many registrations as its index stands in the lists of these
-- TUs, down to none.
pub remove_edges-refs_at :
    (tus : List ℕ) (i : ℕ) (st : EdgeStore)
    → refs_at i (remove_edges tus st).1.edges ≡ refs_at i st.edges - held i tus st.tu_edges
unfolding remove_edges
remove_edges-refs_at tus i st =
    release_tus-refs_at tus i
      (record { store = st; removed = 0; dead = []; callers = []; callees = [] })
