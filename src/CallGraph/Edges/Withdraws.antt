-- ===== src/CallGraph/Edges/Withdraws.antt =====
-- What removing TUs takes away: as many registrations of each edge as these TUs hold.
use vycor_cpp.Prelude.{
  ℕ, zero, suc, ◌+◌, ◌%◌, ◌^◌, ◌<◌, ◌≡◌, refl, sym, ap, subst, ◌∙◌, inl, inr, Bool, true, some,
  List, [], ◌∷◌, ◌++◌, length, ◌==◌, ==_iff, Bool-cases, Option-cases, if◌then◌else◌, All, arith,
}
use vycor_cpp.CallGraph.Maps.{Map, bucket, push, bucket-push, get_elem?}
use vycor_cpp.CallGraph.Edges.{
  StoredEdge, EdgeKey, EdgeStore, key_of, key_eq, find_key, remove_edges, register, append_edge,
  tag,
}
use vycor_cpp.CallGraph.Edges.Registers.{
  registrations, IsStore, Registered, register_lem, register-hit, register-miss, hit, miss,
  refs-registrations,
}
use vycor_cpp.CallGraph.Edges.Releases.{retagged}
use vycor_cpp.CallGraph.Edges.Takes.{
  refs_at, refs_at-some, refs_at-set, times, held, remove_edges-refs_at,
}

-- The edges of one TU, registered one after the other.
unfoldable pub add_all : ℕ → List StoredEdge → EdgeStore → EdgeStore
add_all tu [] st = st
add_all tu (se ∷ ses) st = let (idx, st') = register se st in add_all tu ses (tag (some tu) idx st')

refs_at-push :
    (i : ℕ) (se : StoredEdge) (edges : List StoredEdge)
    → refs_at i (edges ++ (se ∷ [])) ≡ refs_at i edges + (if i == length edges then se.refs else 0)
unfolding refs_at get_elem?
refs_at-push zero se [] = ground arith
refs_at-push (suc i) se [] = ground arith
refs_at-push zero se (x ∷ edges) = ground arith
refs_at-push (suc i) se (x ∷ edges) = ground (arith, refs_at-push i se edges)

times-push :
    (i j : ℕ) (js : List ℕ) → times i (js ++ (j ∷ [])) ≡ times i js + (if i == j then 1 else 0)
unfolding times
times-push i j [] = ground arith
times-push i j (k ∷ js) = ground (arith, times-push i j js)

register-refs_at :
    (se : StoredEdge) (st : EdgeStore) (i : ℕ)
    → IsStore st
    → registrations (key_of se) st + se.refs < 2 ^ 32
    → refs_at i (register se st).1.edges
      ≡ refs_at i st.edges + (if i == (register se st).0 then se.refs else 0)
register-refs_at se st i inv few = elim (Option-cases (find_key (key_of se) st.edge_index)) [
  | inl e ↦ subst Adds (sym (register-miss se st e)) added_new
  | inr (idx, e) ↦
      let (old, at_idx, same, live) = inv.linked.indexed (key_of se) idx e in
      subst Adds (sym (register-hit se st idx old e at_idx)) (added_old idx old at_idx same)
]
  where
    Adds : ℕ × EdgeStore → Type 0
    Adds r = refs_at i r.1.edges ≡ refs_at i st.edges + (if i == r.0 then se.refs else 0)

    added_new :
        refs_at i (miss se st).edges
        ≡ refs_at i st.edges + (if i == length st.edges then se.refs else 0)
    added_new = unfold append_edge in refs_at-push i se st.edges

    added_old :
        (idx : ℕ) (old : StoredEdge)
        → get_elem? st.edges idx ≡ some old
        → key_of old ≡ key_of se
        → refs_at i (hit idx old se.refs st).edges
          ≡ refs_at i st.edges + (if i == idx then se.refs else 0)
    added_old idx old at_idx same = elim (Bool-cases (i == idx)) [
      | inl e ↦
          let here = (==_iff i idx).0 e in
          rw e (
            omega (
              arith,
              changed e,
              refs-registrations st idx old (key_of se) at_idx same,
              refs_at-some i st.edges old (ap (get_elem? st.edges) here ∙ at_idx),
            ))
      | inr e ↦ rw e (omega (arith, changed e))
    ]
      where
        changed :
            {b : Bool}
            → (i == idx) ≡ b
            → refs_at i (hit idx old se.refs st).edges
              ≡ (if b then (old.refs + se.refs) % 2 ^ 32 else refs_at i st.edges)
        changed e =
            refs_at-set st.edges idx i old (record old { refs = (old.refs + se.refs) % 2 ^ 32 })
              at_idx
            ∙ ap (λ b. if b then (old.refs + se.refs) % 2 ^ 32 else refs_at i st.edges) e

register-tu_edges :
    (se : StoredEdge) (st : EdgeStore) → IsStore st → (register se st).1.tu_edges ≡ st.tu_edges
unfolding append_edge
register-tu_edges se st inv = elim (Option-cases (find_key (key_of se) st.edge_index)) [
  | inl e ↦ ap (λ (r : ℕ × EdgeStore). r.1.tu_edges) (register-miss se st e)
  | inr (idx, e) ↦
      let (old, at_idx, same, live) = inv.linked.indexed (key_of se) idx e in
      ap (λ (r : ℕ × EdgeStore). r.1.tu_edges) (register-hit se st idx old e at_idx)
]

registrations-retagged :
    (k : EdgeKey) (st : EdgeStore) (m : Map (List ℕ))
    → registrations k (record st { tu_edges = m }) ≡ registrations k st
unfolding registrations
registrations-retagged k st m = refl

-- The edges of a TU with no tag yet raise the refs of each index by the times it is tagged.
add_all-refs_at :
    (tu : ℕ) (ses : List StoredEdge) (st : EdgeStore) (i : ℕ)
    → IsStore st
    → All (λ se. se.refs ≡ 1) ses
    → ((k : EdgeKey) → registrations k st + length ses < 2 ^ 32)
    → IsStore (add_all tu ses st)
      × (refs_at i (add_all tu ses st).edges + times i (bucket tu st.tu_edges)
          ≡ refs_at i st.edges + times i (bucket tu (add_all tu ses st).tu_edges))
unfolding add_all tag
add_all-refs_at tu [] st i inv ones few = (inv, refl)
add_all-refs_at tu (se ∷ ses) st i inv ones few =
    let r = register se st in
    let done : Registered se st r =
      register_lem se st inv (omega arith) (omega (arith, few (key_of se))) in
    let m = push tu r.0 r.1.tu_edges in
    let (after, rest) =
      add_all-refs_at tu ses (record r.1 { tu_edges = m }) i (retagged r.1 m done.kept) ones.1
        (λ k. still_few k done.more) in
    (
      after,
      omega (
        arith,
        rest,
        register-refs_at se st i inv (omega (arith, few (key_of se))),
        ap (λ (l : List ℕ). times i l) tagged,
        times-push i r.0 (bucket tu r.1.tu_edges),
        ap (λ (l : Map (List ℕ)). times i (bucket tu l)) (register-tu_edges se st inv),
        as_one r.0,
      ),
    )
  where
    tagged :
        bucket tu (push tu (register se st).0 (register se st).1.tu_edges)
        ≡ bucket tu (register se st).1.tu_edges ++ ((register se st).0 ∷ [])
    tagged = self ((==_iff tu tu).1 refl)
      where
        self :
            (tu == tu) ≡ true
            → bucket tu (push tu (register se st).0 (register se st).1.tu_edges)
              ≡ bucket tu (register se st).1.tu_edges ++ ((register se st).0 ∷ [])
        self e = rw (bucket-push tu tu (register se st).0 (register se st).1.tu_edges, e) refl

    as_one : (idx : ℕ) → (if i == idx then se.refs else 0) ≡ (if i == idx then 1 else 0)
    as_one idx = ap (λ n. if i == idx then n else 0) ones.0

    still_few :
        (k : EdgeKey)
        → ((j : EdgeKey)
            → registrations j (register se st).1
              ≡ registrations j st + (if key_eq j (key_of se) then se.refs else 0))
        → registrations k (record (register se st).1 {
          tu_edges = push tu (register se st).0 (register se st).1.tu_edges;
        })
            + length ses
          < 2 ^ 32
    still_few k more = ground (
      arith,
      registrations-retagged k (register se st).1
          (push tu (register se st).0 (register se st).1.tu_edges),
      more k,
      few k,
    )

-- If the indexes fit, a TU has no edges, and there is room for the registrations below 2^32, then
-- registering any list of edges under the TU and removing the TU leaves at each index as many
-- registrations as before.
pub remove-add_all :
    (tu : ℕ) (ses : List StoredEdge) (st : EdgeStore)
    → IsStore st
    → All (λ se. se.refs ≡ 1) ses
    → ((k : EdgeKey) → registrations k st + length ses < 2 ^ 32)
    → bucket tu st.tu_edges ≡ []
    → (i : ℕ) → refs_at i (remove_edges (tu ∷ []) (add_all tu ses st)).1.edges ≡ refs_at i st.edges
unfolding held times
remove-add_all tu ses st inv ones few untagged i = omega (
  arith,
  remove_edges-refs_at (tu ∷ []) i (add_all tu ses st),
  (add_all-refs_at tu ses st i inv ones few).1,
  ap (times i) untagged,
)
