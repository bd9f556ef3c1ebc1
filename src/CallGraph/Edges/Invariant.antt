-- ===== src/CallGraph/Edges/Invariant.antt =====
-- What links the edges of the store with its three indexes.
use vycor_cpp.Prelude.{
  ℕ, ◌<◌, ◌≡◌, refl, sym, ap, subst, ◌∙◌, ◌⊎◌, inl, inr, true, false, none, some, List, [], ◌∷◌,
  ◌++◌, length, ◌==◌, ==_iff, Bool-cases, arith,
}
use vycor_cpp.CallGraph.Maps.{
  Map, get, bucket, push, mem, mem-push_old, mem-push_inv, mem-push_self, get_elem?, get_elem?-push,
  get_elem?-below,
}
use vycor_cpp.CallGraph.Edges.{
  StoredEdge, EdgeKey, EdgeStore, key_of, key_eq, find_key, emplace_key, append_edge, no_edges,
}
use vycor_cpp.CallGraph.Edges.Keys.{key_eq_refl, key_eq→eq, find_key-emplace}

-- Each live edge stands in the vector of its end.
abbrev pub Leaving : (StoredEdge → ℕ) → List StoredEdge → Map (List ℕ) → Type 0
Leaving end edges m =
    (i : ℕ) (se : StoredEdge)
    → get_elem? edges i ≡ some se
    → 0 < se.refs
    → mem i (bucket (end se) m) ≡ true

-- What stands in a vector is an edge with this end.
abbrev pub Left : (StoredEdge → ℕ) → List StoredEdge → Map (List ℕ) → Type 0
Left end edges m =
    (c i : ℕ)
    → mem i (bucket c m) ≡ true
    → (se : StoredEdge) × (get_elem? edges i ≡ some se) × (end se ≡ c)

-- The index has the live edges, each under its key.
abbrev pub Indexed : List StoredEdge → List (EdgeKey × ℕ) → Type 0
Indexed edges m =
    (k : EdgeKey) (i : ℕ)
    → find_key k m ≡ some i
    → (se : StoredEdge) × (get_elem? edges i ≡ some se) × (key_of se ≡ k) × (0 < se.refs)

abbrev pub Found : List StoredEdge → List (EdgeKey × ℕ) → Type 0
Found edges m =
    (i : ℕ) (se : StoredEdge)
    → get_elem? edges i ≡ some se
    → 0 < se.refs
    → find_key (key_of se) m ≡ some i

abbrev pub caller_of : StoredEdge → ℕ
caller_of se = se.caller

abbrev pub callee_of : StoredEdge → ℕ
callee_of se = se.callee

pub record IsLinked (st : EdgeStore) : Type 0 where
  pub indexed : Indexed st.edges st.edge_index
  pub found : Found st.edges st.edge_index
  pub leaving : Leaving (λ se. se.caller) st.edges st.out_edges
  pub left : Left (λ se. se.caller) st.edges st.out_edges
  pub entering : Leaving (λ se. se.callee) st.edges st.in_edges
  pub entered : Left (λ se. se.callee) st.edges st.in_edges

nothing_left : (c i : ℕ) → mem i (bucket c []) ≡ false
unfolding mem bucket get
nothing_left c i = refl

pub no_edges-IsLinked : IsLinked no_edges
unfolding find_key get_elem?
no_edges-IsLinked = record {
  indexed = λ k i h. cc h;
  found = λ i se h. cc h;
  leaving = λ i se h. cc h;
  left = λ c i h. cc (h, nothing_left c i);
  entering = λ i se h. cc h;
  entered = λ c i h. cc (h, nothing_left c i);
}

pub some-eq {ℓ} : {A : Type ℓ} {a b : A} → some a ≡ some b → a ≡ b
some-eq h = cc h

-- A new edge at the end of the edges.
module _ (edges : List StoredEdge) (se : StoredEdge) where
  abbrev more : List StoredEdge
  more = edges ++ (se ∷ [])

  pub old_at :
      (i : ℕ) (old : StoredEdge) → get_elem? edges i ≡ some old → get_elem? more i ≡ some old
  old_at i old h = ground (arith, get_elem?-push edges i se, get_elem?-below edges i h)

  pub new_at : get_elem? more (length edges) ≡ some se
  new_at = ground (arith, get_elem?-push edges (length edges) se)

  at_cases :
      (i : ℕ) (e : StoredEdge)
      → get_elem? more i ≡ some e
      → ((i ≡ length edges) × (e ≡ se)) ⊎ (get_elem? edges i ≡ some e)
  at_cases i e h = elim (Bool-cases (i == length edges)) [
    | inl same ↦ inl (
      (==_iff i (length edges)).0 same,
      some-eq (sym h ∙ (rw same at (get_elem?-push edges i se))),
    )
    | inr other ↦ inr (sym (rw other at (get_elem?-push edges i se)) ∙ h)
  ]

  Leaving-push :
      (end : StoredEdge → ℕ) (m : Map (List ℕ))
      → Leaving end edges m
      → Leaving end more (push (end se) (length edges) m)
  Leaving-push end m inv i e h live = elim (at_cases i e h) [
    | inl (at_end, same) ↦
        subst (λ z. mem i (bucket (end z) (push (end se) (length edges) m)) ≡ true) (sym same)
          (subst (λ z. mem z (bucket (end se) (push (end se) (length edges) m)) ≡ true) (sym at_end)
            (mem-push_self (end se) (length edges) m))
    | inr before ↦ mem-push_old i (end se) (length edges) (end e) m (inv i e before live)
  ]

  Left-push :
      (end : StoredEdge → ℕ) (m : Map (List ℕ))
      → Left end edges m
      → Left end more (push (end se) (length edges) m)
  Left-push end m inv c i h = elim (mem-push_inv i (end se) (length edges) c m h) [
    | inl old ↦ let (e, at_i, end_e) = inv c i old in (e, old_at i e at_i, end_e)
    | inr (same, at_end) ↦
        (se, subst (λ z. get_elem? more z ≡ some se) (sym at_end) new_at, sym same)
  ]

  Indexed-push :
      (m : List (EdgeKey × ℕ))
      → find_key (key_of se) m ≡ none
      → 0 < se.refs
      → Indexed edges m
      → Indexed more (emplace_key (key_of se) (length edges) m)
  Indexed-push m new live inv k i h = elim (Bool-cases (key_eq k (key_of se))) [
    | inl e ↦
        let found_end = rw (find_key-emplace k (key_of se) (length edges) m new, e) at h in
        (
          se,
          subst (λ z. get_elem? more z ≡ some se) (some-eq found_end) new_at,
          sym (key_eq→eq k (key_of se) e),
          live,
        )
    | inr e ↦
        let (old, at_i, key, alive) =
          inv k i (rw (find_key-emplace k (key_of se) (length edges) m new, e) at h) in
        (old, old_at i old at_i, key, alive)
  ]

  Found-push :
      (m : List (EdgeKey × ℕ))
      → find_key (key_of se) m ≡ none
      → Found edges m
      → Found more (emplace_key (key_of se) (length edges) m)
  Found-push m new inv i e h live = elim (at_cases i e h) [
    | inl (at_end, same) ↦
        rw
          (
            find_key-emplace (key_of e) (key_of se) (length edges) m new,
            same,
            key_eq_refl (key_of se),
          )
          (ap some (sym at_end))
    | inr before ↦ elim (Bool-cases (key_eq (key_of e) (key_of se))) [
      | inl clash ↦ cc (
        inv i e before live,
        ap (λ z. find_key z m) (key_eq→eq (key_of e) (key_of se) clash),
        new,
      )
      | inr other ↦
          rw (find_key-emplace (key_of e) (key_of se) (length edges) m new, other)
            (inv i e before live)
    ]
  ]

pub append_edge-IsLinked :
    (se : StoredEdge) (st : EdgeStore)
    → find_key (key_of se) st.edge_index ≡ none
    → 0 < se.refs
    → IsLinked st
    → IsLinked (append_edge se st)
unfolding append_edge
append_edge-IsLinked se st new live inv = record {
  indexed = Indexed-push st.edges se st.edge_index new live inv.indexed;
  found = Found-push st.edges se st.edge_index new inv.found;
  leaving = Leaving-push st.edges se caller_of st.out_edges inv.leaving;
  left = Left-push st.edges se caller_of st.out_edges inv.left;
  entering = Leaving-push st.edges se callee_of st.in_edges inv.entering;
  entered = Left-push st.edges se callee_of st.in_edges inv.entered;
}
