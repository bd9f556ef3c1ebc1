-- ===== src/CallGraph/Edges/Changes.antt =====
-- What stays linked when the refs of one live edge change.
use vycor_cpp.Prelude.{
  ℕ, ◌<◌, ◌≡◌, refl, sym, ap, subst, ◌∙◌, ◌⊎◌, inl, inr, true, some, List, ◌==◌, ==_iff, Bool-cases,
  if◌then◌else◌, arith,
}
use vycor_cpp.CallGraph.Maps.{Map, bucket, mem, get_elem?, get_elem?-set, get_elem?-below, set}
use vycor_cpp.CallGraph.Edges.{StoredEdge, EdgeKey, EdgeStore, key_of, key_eq, find_key, erase_key}
use vycor_cpp.CallGraph.Edges.Keys.{key_eq_refl, key_eq→eq, find_key-erase}
use vycor_cpp.CallGraph.Edges.Invariant.{
  Leaving, Left, Indexed, Found, IsLinked, caller_of, callee_of, some-eq,
}

module _ (edges : List StoredEdge) (i : ℕ) (old : StoredEdge) (n : ℕ)
    (at_i : get_elem? edges i ≡ some old) (live : 0 < old.refs) where
  abbrev now : StoredEdge
  now = record old { refs = n }

  abbrev changed : List StoredEdge
  changed = set edges i now

  changed_at : (j : ℕ) → get_elem? changed j ≡ (if j == i then some now else get_elem? edges j)
  changed_at j = get_elem?-set edges i j now (get_elem?-below edges i at_i)

  pub changed_here : get_elem? changed i ≡ some now
  changed_here = ground (arith, changed_at i)

  pub changed_cases :
      (j : ℕ) (e : StoredEdge)
      → get_elem? changed j ≡ some e
      → ((j ≡ i) × (e ≡ now)) ⊎ (get_elem? edges j ≡ some e)
  changed_cases j e h = elim (Bool-cases (j == i)) [
    | inl same ↦ inl ((==_iff j i).0 same, some-eq (sym h ∙ (rw same at (changed_at j))))
    | inr other ↦ inr (sym (rw other at (changed_at j)) ∙ h)
  ]

  -- An edge is still there, with its fields but the refs.
  changed_kept :
      (j : ℕ) (e : StoredEdge)
      → get_elem? edges j ≡ some e
      → (get_elem? changed j ≡ some e) ⊎ ((j ≡ i) × (e ≡ old))
  changed_kept j e h = elim (Bool-cases (j == i)) [
    | inl same ↦
        let at_j = (==_iff j i).0 same in
        inr (at_j, some-eq (sym h ∙ ap (get_elem? edges) at_j ∙ at_i))
    | inr other ↦ inl (rw other at (changed_at j) ∙ h)
  ]

  Leaving-set :
      (end : StoredEdge → ℕ) (m : Map (List ℕ))
      → end now ≡ end old
      → Leaving end edges m
      → Leaving end changed m
  Leaving-set end m ends inv j e h alive = elim (changed_cases j e h) [
    | inl (at_j, same) ↦
        subst (λ z. mem j (bucket z m) ≡ true) (sym (ap end same ∙ ends))
          (subst (λ z. mem z (bucket (end old) m) ≡ true) (sym at_j) (inv i old at_i live))
    | inr before ↦ inv j e before alive
  ]

  Left-set :
      (end : StoredEdge → ℕ) (m : Map (List ℕ))
      → end now ≡ end old
      → Left end edges m
      → Left end changed m
  Left-set end m ends inv c j h =
      let (e, at_j, end_e) = inv c j h in
      elim (changed_kept j e at_j) [
        | inl kept ↦ (e, kept, end_e)
        | inr (here, same) ↦ (
          now,
          subst (λ z. get_elem? changed z ≡ some now) (sym here) changed_here,
          ends ∙ ap end (sym same) ∙ end_e,
        )
      ]

  Indexed-set : (m : List (EdgeKey × ℕ)) → 0 < n → Indexed edges m → Indexed changed m
  unfolding key_of
  Indexed-set m still inv k j h =
      let (e, at_j, key, alive) = inv k j h in
      elim (changed_kept j e at_j) [
        | inl kept ↦ (e, kept, key, alive)
        | inr (here, same) ↦ (
          now,
          subst (λ z. get_elem? changed z ≡ some now) (sym here) changed_here,
          ap key_of (sym same) ∙ key,
          still,
        )
      ]

  Found-set : (m : List (EdgeKey × ℕ)) → Found edges m → Found changed m
  unfolding key_of
  Found-set m inv j e h alive = elim (changed_cases j e h) [
    | inl (at_j, same) ↦
        ap (λ z. find_key (key_of z) m) same ∙ inv i old at_i live ∙ ap some (sym at_j)
    | inr before ↦ inv j e before alive
  ]

  Indexed-erase :
      (m : List (EdgeKey × ℕ)) → Indexed edges m → Indexed changed (erase_key (key_of old) m)
  Indexed-erase m inv k j h = elim (Bool-cases (key_eq k (key_of old))) [
    | inl e ↦ cc (rw (find_key-erase k (key_of old) m, e) at h)
    | inr other ↦
        let (e, at_j, key, alive) = inv k j (rw (find_key-erase k (key_of old) m, other) at h) in
        elim (changed_kept j e at_j) [
          | inl kept ↦ (e, kept, key, alive)
          | inr (here, same) ↦ cc (
            other,
            ap (λ z. key_eq z (key_of old)) (sym key ∙ ap key_of same),
            key_eq_refl (key_of old),
          )
        ]
  ]

  Found-erase :
      (m : List (EdgeKey × ℕ)) → n ≡ 0 → Found edges m → Found changed (erase_key (key_of old) m)
  Found-erase m gone inv j e h alive = elim (changed_cases j e h) [
    | inl (at_j, same) ↦ absurd (omega (arith, ap (λ (z : StoredEdge). z.refs) same))
    | inr before ↦ elim (Bool-cases (key_eq (key_of e) (key_of old))) [
      | inl clash ↦
          let here : j ≡ i = some-eq (
            sym (inv j e before alive)
            ∙ ap (λ z. find_key z m) (key_eq→eq (key_of e) (key_of old) clash)
            ∙ inv i old at_i live) in
          absurd (
            omega (
              arith,
              ap (λ (z : StoredEdge). z.refs)
                  (some-eq (sym h ∙ ap (get_elem? changed) here ∙ changed_here)),
            ))
      | inr other ↦ rw (find_key-erase (key_of e) (key_of old) m, other) (inv j e before alive)
    ]
  ]

-- The refs of a live edge change to another positive number.
pub set-IsLinked :
    (st : EdgeStore) (i : ℕ) (old : StoredEdge) (n : ℕ)
    → get_elem? st.edges i ≡ some old
    → 0 < old.refs
    → 0 < n
    → IsLinked st
    → IsLinked (record st { edges = set st.edges i (record old { refs = n }) })
set-IsLinked st i old n at_i live still inv = record {
  indexed = Indexed-set st.edges i old n at_i live st.edge_index still inv.indexed;
  found = Found-set st.edges i old n at_i live st.edge_index inv.found;
  leaving = Leaving-set st.edges i old n at_i live caller_of st.out_edges refl inv.leaving;
  left = Left-set st.edges i old n at_i live caller_of st.out_edges refl inv.left;
  entering = Leaving-set st.edges i old n at_i live callee_of st.in_edges refl inv.entering;
  entered = Left-set st.edges i old n at_i live callee_of st.in_edges refl inv.entered;
}

-- A live edge loses its last registration, and its key leaves the index.
pub erase-IsLinked :
    (st : EdgeStore) (i : ℕ) (old : StoredEdge) (n : ℕ)
    → get_elem? st.edges i ≡ some old
    → 0 < old.refs
    → n ≡ 0
    → IsLinked st
    → IsLinked (record st {
      edges = set st.edges i (record old { refs = n });
      edge_index = erase_key (key_of old) st.edge_index;
    })
erase-IsLinked st i old n at_i live gone inv = record {
  indexed = Indexed-erase st.edges i old n at_i live st.edge_index inv.indexed;
  found = Found-erase st.edges i old n at_i live st.edge_index gone inv.found;
  leaving = Leaving-set st.edges i old n at_i live caller_of st.out_edges refl inv.leaving;
  left = Left-set st.edges i old n at_i live caller_of st.out_edges refl inv.left;
  entering = Leaving-set st.edges i old n at_i live callee_of st.in_edges refl inv.entering;
  entered = Left-set st.edges i old n at_i live callee_of st.in_edges refl inv.entered;
}
