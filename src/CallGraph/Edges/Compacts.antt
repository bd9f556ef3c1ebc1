-- ===== src/CallGraph/Edges/Compacts.antt =====
-- Compaction: the live edges, with their registrations, and nothing else.
use vycor_cpp.Prelude.{
  ℕ, suc, ◌+◌, ◌<◌, ◌≡◌, refl, sym, ap, ◌∙◌, inl, inr, false, none, some, List, [], ◌∷◌, ◌++◌,
  length, length-append, ◌==◌, ==_iff, Bool-cases, arith,
}
use vycor_cpp.CallGraph.Maps.{Map, get_elem?, put}
use vycor_cpp.CallGraph.Edges.{
  StoredEdge, EdgeKey, EdgeStore, key_of, key_eq, find_key, append_edge, no_edges, compact_from,
  compact_edges,
}
use vycor_cpp.CallGraph.Edges.Keys.{key_eq→eq, find_key-emplace, total, total-push}
use vycor_cpp.CallGraph.Edges.Invariant.{IsLinked, no_edges-IsLinked, append_edge-IsLinked, some-eq}
use vycor_cpp.CallGraph.Edges.Registers.{alive, share, share_lem, registrations, IsStore}

-- A live edge shares its key with no other live edge.
abbrev Unique : List StoredEdge → Type 0
Unique edges =
    (i j : ℕ) (d e : StoredEdge)
    → get_elem? edges i ≡ some d
    → get_elem? edges j ≡ some e
    → 0 < d.refs
    → 0 < e.refs
    → key_of d ≡ key_of e
    → i ≡ j

abbrev AllNew : List StoredEdge → List (EdgeKey × ℕ) → Type 0
AllNew ses m =
    (i : ℕ) (e : StoredEdge) → get_elem? ses i ≡ some e → 0 < e.refs → find_key (key_of e) m ≡ none

IsStore-Unique : (st : EdgeStore) → IsLinked st → Unique st.edges
IsStore-Unique st inv i j d e at_i at_j live_d live_e same = some-eq (
    sym (inv.found i d at_i live_d)
    ∙ ap (λ k. find_key k st.edge_index) same
    ∙ inv.found j e at_j live_e)

compact_from-IsLinked :
    (ses : List StoredEdge) (old : ℕ) (st : EdgeStore) (remap : Map ℕ)
    → Unique ses
    → AllNew ses st.edge_index
    → IsLinked st
    → IsLinked (compact_from old ses st remap).0
unfolding compact_from
compact_from-IsLinked [] old st remap unique new inv = inv
compact_from-IsLinked (se ∷ ses) old st remap unique new inv = elim (Bool-cases (se.refs == 0)) [
  | inl dead ↦ rw dead (
      compact_from-IsLinked ses (suc old) st remap later
        (λ i e at_i. unfold get_elem? in new (suc i) e at_i) inv)
  | inr live ↦ rw live (
      compact_from-IsLinked ses (suc old) (append_edge se st) (put old (length st.edges) remap)
        later (still_new (some_refs live))
        (append_edge-IsLinked se st (first_new (some_refs live)) (some_refs live) inv))
]
  where
    some_refs : (se.refs == 0) ≡ false → 0 < se.refs
    some_refs h = ground arith

    later : Unique ses
    later i j d e at_i at_j live_d live_e same =
        unfold get_elem? in omega (arith, unique (suc i) (suc j) d e at_i at_j live_d live_e same)

    first_new : 0 < se.refs → find_key (key_of se) st.edge_index ≡ none
    first_new live = unfold get_elem? in new 0 se refl live

    still_new : 0 < se.refs → AllNew ses (append_edge se st).edge_index
    still_new live i e at_i live_e =
        let before : find_key (key_of e) st.edge_index ≡ none =
          unfold get_elem? in new (suc i) e at_i live_e in
        elim (Bool-cases (key_eq (key_of e) (key_of se))) [
          | inl clash ↦ absurd (
              unfold get_elem? in
              omega (
                arith,
                unique (suc i) 0 e se at_i refl live_e live
                    (key_eq→eq (key_of e) (key_of se) clash),
              ))
          | inr other ↦
              unfold append_edge in
              rw
                (
                  find_key-emplace (key_of e) (key_of se) (length st.edges) st.edge_index
                      (first_new live),
                  other,
                )
                before
        ]

append_edge-edges :
    (se : StoredEdge) (st : EdgeStore) → (append_edge se st).edges ≡ st.edges ++ (se ∷ [])
unfolding append_edge
append_edge-edges se st = refl

compact_from-total :
    (f : StoredEdge → ℕ)
    → ((se : StoredEdge) → se.refs ≡ 0 → f se ≡ 0)
    → (ses : List StoredEdge) (old : ℕ) (st : EdgeStore) (remap : Map ℕ)
    → total f (compact_from old ses st remap).0.edges ≡ total f st.edges + total f ses
unfolding compact_from total
compact_from-total f dead_zero [] old st remap = omega arith
compact_from-total f dead_zero (se ∷ ses) old st remap = elim (Bool-cases (se.refs == 0)) [
  | inl dead ↦ rw dead (
      omega (
        arith,
        compact_from-total f dead_zero ses (suc old) st remap,
        dead_zero se ((==_iff se.refs 0).0 dead),
      ))
  | inr live ↦ rw live (
      omega (
        arith,
        ap (total f) (append_edge-edges se st),
        compact_from-total f dead_zero ses (suc old) (append_edge se st)
            (put old (length st.edges) remap),
        total-push f st.edges se,
      ))
]

-- Only live edges are left.
compact_from-length :
    (ses : List StoredEdge) (old : ℕ) (st : EdgeStore) (remap : Map ℕ)
    → length (compact_from old ses st remap).0.edges ≡ length st.edges + total alive ses
unfolding compact_from total alive
compact_from-length [] old st remap = omega arith
compact_from-length (se ∷ ses) old st remap = elim (Bool-cases (se.refs == 0)) [
  | inl dead ↦ rw dead (omega (arith, compact_from-length ses (suc old) st remap))
  | inr live ↦ rw live (
      omega (
        arith,
        ap length (append_edge-edges se st),
        compact_from-length ses (suc old) (append_edge se st) (put old (length st.edges) remap),
        length-append st.edges (se ∷ []),
      ))
]

compact_edges-IsStore : (st : EdgeStore) → IsStore st → IsStore (compact_edges st)
unfolding compact_edges
compact_edges-IsStore st inv =
    let l =
      compact_from-IsLinked st.edges 0 no_edges [] (IsStore-Unique st inv.linked)
        (λ i e at_i live. unfold find_key in refl) no_edges-IsLinked in
    record {
      linked = record {
        indexed = l.indexed;
        found = l.found;
        leaving = l.leaving;
        left = l.left;
        entering = l.entering;
        entered = l.entered;
      };
      counted = omega (
        arith,
        inv.counted,
        compact_from-total alive alive_dead st.edges 0 no_edges [],
        total_none,
      );
    }
  where
    alive_dead : (se : StoredEdge) → se.refs ≡ 0 → alive se ≡ 0
    alive_dead se h = unfold alive in ground arith

    total_none : total alive [] ≡ 0
    total_none = unfold total in refl

compact_edges-registrations :
    (k : EdgeKey) (st : EdgeStore) → registrations k (compact_edges st) ≡ registrations k st
unfolding compact_edges registrations total
compact_edges-registrations k st =
    omega (arith, compact_from-total (share k) dead_share st.edges 0 no_edges [])
  where
    dead_share : (se : StoredEdge) → se.refs ≡ 0 → share k se ≡ 0
    dead_share se h = ground (arith, share_lem k se)

compact_edges-length :
    (st : EdgeStore)
    → IsStore st
    → length (compact_edges st).edges ≡ (compact_edges st).live_edge_count
unfolding compact_edges
compact_edges-length st inv = omega (arith, compact_from-length st.edges 0 no_edges [], inv.counted)

-- If the indexes fit, compaction keeps them fitting, keeps the registrations of every key, and
-- leaves as many edges as are live.
pub compact_edges_lem :
    (st : EdgeStore)
    → IsStore st
    → IsStore (compact_edges st)
      × ((k : EdgeKey) → registrations k (compact_edges st) ≡ registrations k st)
      × (length (compact_edges st).edges ≡ (compact_edges st).live_edge_count)
compact_edges_lem st inv = (
  compact_edges-IsStore st inv,
  λ k. compact_edges-registrations k st,
  compact_edges-length st inv,
)
