-- ===== src/CallGraph/Refs/Gathers.antt =====
-- What the loops of the two queries gather, at one pair of the ids that they remember.
use vycor_cpp.Prelude.{
  ℕ, ◌≡◌, refl, ap, subst, ◌∙◌, inl, inr, Bool, true, false, ◌&&◌, ◌||◌, Option, none, some, List,
  [], ◌∷◌, ◌++◌, ◌==◌, ==_iff, Bool-cases, Option-cases, if◌then◌else◌, arith,
}
use vycor_cpp.CallGraph.Maps.{bucket, get_elem?, mem}
use vycor_cpp.CallGraph.Edges.{EdgeKind, StoredEdge, EdgeStore}
use vycor_cpp.CallGraph.Refs.{
  EdgeRef, Gather, has_pair, keep, mark, offer, for_edges, for_nodes, ref_to, offer_callees,
}

unfoldable pub any {ℓ} : {A : Type ℓ} → (A → Bool) → List A → Bool
any t [] = false
any t (x ∷ xs) = let later = any t xs in t x || later

pub any-push {ℓ} :
    {A : Type ℓ} (t : A → Bool) (xs : List A) (x : A) → any t (xs ++ (x ∷ [])) ≡ any t xs || t x
unfolding any
any-push t [] x = ground arith
any-push t (y ∷ xs) x = ground (arith, any-push t xs x)

-- One of the edges at these indices passes the test.
unfoldable pub any_at : (StoredEdge → Bool) → List StoredEdge → List ℕ → Bool
any_at w edges [] = false
any_at w edges (idx ∷ idxs) =
    let later = any_at w edges idxs in
    elim (get_elem? edges idx) [ none ↦ later | some se ↦ w se || later ]

unfoldable pub any_in : (StoredEdge → Bool) → EdgeStore → List ℕ → Bool
any_in w st [] = false
any_in w st (node ∷ nodes) = any_at w st.edges (bucket node st.in_edges) || any_in w st nodes

-- The references with the pair (a, b) of ids pass the test `t`.
module _ (a b : ℕ) (t : EdgeRef → Bool) where
  -- A pair that was seen has its reference in the result.
  abbrev pub IsKept : Gather → Type 0
  IsKept g = has_pair a b g.seen ≡ true → any t g.result ≡ true

  -- A step that adds a reference with the pair exactly if `w`.
  abbrev pub Adds : Bool → Gather → Gather → Type 0
  Adds w g g' = IsKept g' × (any t g'.result ≡ any t g.result || w)

  pub offer-Adds :
      (p q : ℕ) (r : EdgeRef) (g : Gather)
      → t r ≡ (p == a && q == b)
      → IsKept g
      → Adds (p == a && q == b) g (offer p q r g)
  unfolding offer keep mark has_pair
  offer-Adds p q r g h kept = elim (Bool-cases (has_pair p q g.seen)) [
    | inl e ↦
        let again : (p == a && q == b) ≡ true → any t g.result ≡ true = λ k. kept (
          subst (λ z. has_pair z b g.seen ≡ true) ((==_iff p a).0 (ground arith))
            (subst (λ z. has_pair p z g.seen ≡ true) ((==_iff q b).0 (ground arith)) e)) in
        rw e (kept, absorbed (any t g.result) (p == a && q == b) again)
    | inr e ↦ rw e (
      λ k. ground (arith, any-push t g.result r, h, kept),
      any-push t g.result r ∙ ap (λ w. any t g.result || w) h,
    )
  ]
    where
      absorbed : (c w : Bool) → (w ≡ true → c ≡ true) → c ≡ c || w
      absorbed c w k = ground arith

  pub keep-Adds : (r : EdgeRef) (g : Gather) → IsKept g → Adds (t r) g (keep r g)
  unfolding keep
  keep-Adds r g kept = (λ h. ground (arith, any-push t g.result r, kept h), any-push t g.result r)

  -- A pair is remembered together with its reference.
  pub keep-mark-Adds :
      (p q : ℕ) (r : EdgeRef) (g : Gather)
      → t r ≡ (p == a && q == b)
      → IsKept g
      → Adds (t r) g (keep r (mark p q g))
  unfolding keep mark has_pair
  keep-mark-Adds p q r g h kept =
      (λ k. ground (arith, any-push t g.result r, h, kept), any-push t g.result r)

  pub skip-Adds : (g : Gather) → IsKept g → Adds false g g
  skip-Adds g kept = (kept, ground arith)

  Adds-trans : (v w : Bool) (f g h : Gather) → Adds v f g → Adds w g h → Adds (v || w) f h
  Adds-trans v w f g h x y = (y.0, ground (arith, x.1, y.1))

  pub for_edges-Adds :
      (body : StoredEdge → Gather → Gather) (w : StoredEdge → Bool) (edges : List StoredEdge)
      → ((se : StoredEdge) (g : Gather) → IsKept g → Adds (w se) g (body se g))
      → (idxs : List ℕ) (g : Gather) → IsKept g
      → Adds (any_at w edges idxs) g (for_edges body edges idxs g)
  unfolding for_edges any_at
  for_edges-Adds body w edges step [] g kept = skip-Adds g kept
  for_edges-Adds body w edges step (idx ∷ idxs) g kept = elim (Option-cases (get_elem? edges idx)) [
    | inl e ↦ rw (e, for_edges, any_at) (for_edges-Adds body w edges step idxs g kept)
    | inr (se, e) ↦
        let first = step se g kept in
        rw (e, for_edges, any_at)
          (Adds-trans (w se) (any_at w edges idxs) g (body se g)
            (for_edges body edges idxs (body se g)) first
            (for_edges-Adds body w edges step idxs (body se g) first.0))
  ]

  pub for_nodes-Adds :
      (body : StoredEdge → Gather → Gather) (w : StoredEdge → Bool) (st : EdgeStore)
      → ((se : StoredEdge) (g : Gather) → IsKept g → Adds (w se) g (body se g))
      → (nodes : List ℕ) (g : Gather) → IsKept g
      → Adds (any_in w st nodes) g (for_nodes body st nodes g)
  unfolding for_nodes any_in
  for_nodes-Adds body w st step [] g kept = skip-Adds g kept
  for_nodes-Adds body w st step (node ∷ nodes) g kept =
      let g' = for_edges body st.edges (bucket node st.in_edges) g in
      let first = for_edges-Adds body w st.edges step (bucket node st.in_edges) g kept in
      Adds-trans (any_at w st.edges (bucket node st.in_edges)) (any_in w st nodes) g g'
        (for_nodes body st nodes g') first (for_nodes-Adds body w st step nodes g' first.0)

  pub offer_callees-Adds :
      (kind : EdgeKind) (se : StoredEdge)
      → ((callee : ℕ) → t (ref_to callee kind se) ≡ (callee == a && se.call_site == b))
      → (callees : List ℕ) (g : Gather) → IsKept g
      → Adds (mem a callees && se.call_site == b) g (offer_callees callees kind se g)
  unfolding offer_callees mem
  offer_callees-Adds kind se h [] g kept = skip-Adds g kept
  offer_callees-Adds kind se h (callee ∷ callees) g kept =
      let g' = offer callee se.call_site (ref_to callee kind se) g in
      let first = offer-Adds callee se.call_site (ref_to callee kind se) g (h callee) kept in
      let both =
        Adds-trans (callee == a && se.call_site == b) (mem a callees && se.call_site == b) g g'
          (offer_callees callees kind se g') first
          (offer_callees-Adds kind se h callees g' first.0) in
      (
        both.0,
        both.1 ∙ ap (λ w. any t g.result || w) (joined callee (mem a callees) (se.call_site == b)),
      )
    where
      joined :
          (callee : ℕ) (m s : Bool)
          → (callee == a && s) || (m && s) ≡ (if a == callee then true else m) && s
      joined callee m s = ground arith

-- What `any_at` and `any_in` find.
pub any_at→ :
    (w : StoredEdge → Bool) (edges : List StoredEdge) (idxs : List ℕ)
    → any_at w edges idxs ≡ true
    → (i : ℕ) × (se : StoredEdge) × (mem i idxs ≡ true)
      × (get_elem? edges i ≡ some se)
      × (w se ≡ true)
unfolding any_at mem
any_at→ w edges [] h = cc h
any_at→ w edges (idx ∷ idxs) h = elim (Option-cases (get_elem? edges idx)) [
  | inl e ↦ later (any_at→ w edges idxs (rw (e, any_at) at h))
  | inr (se, e) ↦ elim (Bool-cases (w se)) [
    | inl k ↦ (idx, se, ground arith, e, k)
    | inr k ↦ later (any_at→ w edges idxs (rw (e, any_at, k) at h))
  ]
]
  where
    later :
        ((i : ℕ) × (se : StoredEdge) × (mem i idxs ≡ true)
          × (get_elem? edges i ≡ some se)
          × (w se ≡ true))
        → (i : ℕ) × (se : StoredEdge) × (mem i (idx ∷ idxs) ≡ true)
          × (get_elem? edges i ≡ some se)
          × (w se ≡ true)
    later (i, se, m, e, k) = (i, se, ground arith, e, k)

pub any_at-intro :
    (w : StoredEdge → Bool) (edges : List StoredEdge) (idxs : List ℕ) (i : ℕ) (se : StoredEdge)
    → mem i idxs ≡ true
    → get_elem? edges i ≡ some se
    → w se ≡ true
    → any_at w edges idxs ≡ true
unfolding any_at mem
any_at-intro w edges [] i se m h k = cc m
any_at-intro w edges (idx ∷ idxs) i se m h k = elim (Bool-cases (i == idx)) [
  | inl e ↦
      let at_idx : get_elem? edges idx ≡ some se =
        subst (λ z. get_elem? edges z ≡ some se) ((==_iff i idx).0 e) h in
      rw (at_idx, any_at, k) refl
  | inr e ↦ kept (get_elem? edges idx) (any_at-intro w edges idxs i se (rw e at m) h k)
]
  where
    kept :
        (o : Option StoredEdge)
        → any_at w edges idxs ≡ true
        → elim o [ none ↦ any_at w edges idxs | some d ↦ w d || any_at w edges idxs ] ≡ true
    kept none later = later
    kept (some d) later = ground arith

pub any_in→ :
    (w : StoredEdge → Bool) (st : EdgeStore) (nodes : List ℕ)
    → any_in w st nodes ≡ true
    → (node : ℕ) × (mem node nodes ≡ true) × (any_at w st.edges (bucket node st.in_edges) ≡ true)
unfolding any_in mem
any_in→ w st [] h = cc h
any_in→ w st (node ∷ nodes) h = elim (Bool-cases (any_at w st.edges (bucket node st.in_edges))) [
  | inl k ↦ (node, ground arith, k)
  | inr k ↦ later (any_in→ w st nodes (rw k at h))
]
  where
    later :
        ((n : ℕ) × (mem n nodes ≡ true) × (any_at w st.edges (bucket n st.in_edges) ≡ true))
        → (n : ℕ) × (mem n (node ∷ nodes) ≡ true)
          × (any_at w st.edges (bucket n st.in_edges) ≡ true)
    later (n, m, k) = (n, ground arith, k)

pub any_in-intro :
    (w : StoredEdge → Bool) (st : EdgeStore) (nodes : List ℕ) (node : ℕ)
    → mem node nodes ≡ true
    → any_at w st.edges (bucket node st.in_edges) ≡ true
    → any_in w st nodes ≡ true
unfolding any_in mem
any_in-intro w st [] node m h = cc m
any_in-intro w st (n ∷ nodes) node m h = elim (Bool-cases (node == n)) [
  | inl e ↦
      let here : any_at w st.edges (bucket n st.in_edges) ≡ true =
        subst (λ z. any_at w st.edges (bucket z st.in_edges) ≡ true) ((==_iff node n).0 e) h in
      rw here refl
  | inr e ↦ ground (arith, any_in-intro w st nodes node (rw e at m) h)
]
