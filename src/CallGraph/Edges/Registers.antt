-- ===== src/CallGraph/Edges/Registers.antt =====
-- Registering an edge: the dedup probe keeps one live edge for a key, and counts its registrations.
use vycor_cpp.Prelude.{
  ℕ, ◌+◌, ◌%◌, ◌^◌, ◌≤◌, ◌<◌, ◌≡◌, refl, sym, ap, subst, ◌∙◌, inl, inr, Bool, true, false, none,
  some, length, ◌==◌, Bool-cases, Option-cases, if◌then◌else◌, arith,
}
use vycor_cpp.CallGraph.Maps.{get_elem?, set}
use vycor_cpp.CallGraph.Edges.{
  StoredEdge, EdgeKey, EdgeStore, key_of, key_eq, find_key, append_edge, add_refs, register,
  no_edges,
}
use vycor_cpp.CallGraph.Edges.Keys.{key_eq_refl, total, total-push, total-set, total-at}
use vycor_cpp.CallGraph.Edges.Invariant.{IsLinked, new_at, append_edge-IsLinked, no_edges-IsLinked}
use vycor_cpp.CallGraph.Edges.Changes.{set-IsLinked, changed_here}

unfoldable pub alive : StoredEdge → ℕ
alive se = if se.refs == 0 then 0 else 1

unfoldable pub share : EdgeKey → StoredEdge → ℕ
share k se = if key_eq k (key_of se) then se.refs else 0

-- How many registrations the edge with this key has.
unfoldable pub registrations : EdgeKey → EdgeStore → ℕ
registrations k st = total (share k) st.edges

-- The indexes fit the edges, and the counter is the number of live edges.
pub record IsStore (st : EdgeStore) : Type 0 where
  pub linked : IsLinked st
  pub counted : st.live_edge_count ≡ total alive st.edges

pub no_edges-IsStore : IsStore no_edges
unfolding total
no_edges-IsStore = record { linked = no_edges-IsLinked; counted = refl }

-- The store after a hit at an index, and after a miss.
abbrev pub hit : ℕ → StoredEdge → ℕ → EdgeStore → EdgeStore
hit idx old n st = record st {
  edges = set st.edges idx (record old { refs = (old.refs + n) % 2 ^ 32 });
}

abbrev pub miss : StoredEdge → EdgeStore → EdgeStore
miss se st = record (append_edge se st) { live_edge_count = st.live_edge_count + 1 }

pub register-hit :
    (se : StoredEdge) (st : EdgeStore) (idx : ℕ) (old : StoredEdge)
    → find_key (key_of se) st.edge_index ≡ some idx
    → get_elem? st.edges idx ≡ some old
    → register se st ≡ (idx, hit idx old se.refs st)
unfolding register
register-hit se st idx old e at_idx = rw (e, register) (ap (λ s. (idx, s)) (added))
  where
    added : add_refs idx se.refs st ≡ hit idx old se.refs st
    added = unfold add_refs in rw (at_idx, add_refs) refl

pub register-miss :
    (se : StoredEdge) (st : EdgeStore)
    → find_key (key_of se) st.edge_index ≡ none
    → register se st ≡ (length st.edges, miss se st)
unfolding register
register-miss se st e = rw (e, register) refl

-- What registering an edge promises.
pub record Registered (se : StoredEdge) (st : EdgeStore) (r : ℕ × EdgeStore) : Type 0 where
  pub kept : IsStore r.1
  pub more :
      (k : EdgeKey)
      → registrations k r.1 ≡ registrations k st + (if key_eq k (key_of se) then se.refs else 0)
  pub there : (e : StoredEdge) × (get_elem? r.1.edges r.0 ≡ some e) × (key_of e ≡ key_of se)

pub alive_live : (se : StoredEdge) → 0 < se.refs → alive se ≡ 1
unfolding alive
alive_live se h = ground arith

-- Another number of refs, and the same key.
pub share_changed :
    (k : EdgeKey) (old : StoredEdge) (n : ℕ)
    → share k (record old { refs = n }) ≡ (if key_eq k (key_of old) then n else 0)
unfolding share key_of
share_changed k old n = refl

pub share_lem :
    (k : EdgeKey) (old : StoredEdge) → share k old ≡ (if key_eq k (key_of old) then old.refs else 0)
unfolding share
share_lem k old = refl

-- An edge has at most the registrations of its key.
pub refs-registrations :
    (st : EdgeStore) (i : ℕ) (old : StoredEdge) (k : EdgeKey)
    → get_elem? st.edges i ≡ some old
    → key_of old ≡ k
    → old.refs ≤ registrations k st
unfolding registrations
refs-registrations st i old k at_i same =
    let own : share k old ≡ old.refs =
      share_lem k old
      ∙ ap (λ z. if key_eq k z then old.refs else 0) same
      ∙ ap (λ b. if b then old.refs else 0) (key_eq_refl k) in
    omega (arith, total-at (share k) st.edges i old at_i, own)

module _ (se : StoredEdge) (st : EdgeStore) (idx : ℕ) (old : StoredEdge) (inv : IsStore st)
    (some_refs : 0 < se.refs) (few : registrations (key_of se) st + se.refs < 2 ^ 32)
    (at_idx : get_elem? st.edges idx ≡ some old) (same : key_of old ≡ key_of se)
    (live : 0 < old.refs) where
  fits : (old.refs + se.refs) % 2 ^ 32 ≡ old.refs + se.refs
  fits = omega (arith, refs-registrations st idx old (key_of se) at_idx same)

  hit-IsStore : IsStore (hit idx old se.refs st)
  hit-IsStore = record {
    linked =
        set-IsLinked st idx old ((old.refs + se.refs) % 2 ^ 32) at_idx live (omega (arith, fits))
          inv.linked;
    counted =
        let now = record old { refs = (old.refs + se.refs) % 2 ^ 32 } in
        omega (
          arith,
          fits,
          total-set alive st.edges idx old now at_idx,
          alive_live old live,
          alive_live now (omega (arith, fits)),
          inv.counted,
        );
  }

  hit-registrations :
      (k : EdgeKey)
      → registrations k (hit idx old se.refs st)
        ≡ registrations k st + (if key_eq k (key_of se) then se.refs else 0)
  unfolding registrations
  hit-registrations k = elim (Bool-cases (key_eq k (key_of se))) [
    | inl e ↦ rw e (omega (arith, fits, changed_total, was e, is e))
    | inr e ↦ rw e (omega (arith, changed_total, was_not e, is_not e))
  ]
    where
      changed_total :
          total (share k) (set st.edges idx (record old { refs = (old.refs + se.refs) % 2 ^ 32 }))
            + share k old
          ≡ total (share k) st.edges + share k (record old { refs = (old.refs + se.refs) % 2 ^ 32 })
      changed_total =
          total-set (share k) st.edges idx old (record old { refs = (old.refs + se.refs) % 2 ^ 32 })
            at_idx

      at_key :
          (m : ℕ)
          → (if key_eq k (key_of old) then m else 0) ≡ (if key_eq k (key_of se) then m else 0)
      at_key m = ap (λ z. if key_eq k z then m else 0) same

      pick :
          (m : ℕ) (b : Bool)
          → key_eq k (key_of se) ≡ b
          → (if key_eq k (key_of old) then m else 0) ≡ (if b then m else 0)
      pick m b e = at_key m ∙ ap (λ c. if c then m else 0) e

      was : key_eq k (key_of se) ≡ true → share k old ≡ old.refs
      was e = share_lem k old ∙ pick old.refs true e

      is :
          key_eq k (key_of se) ≡ true
          → share k (record old { refs = (old.refs + se.refs) % 2 ^ 32 })
            ≡ (old.refs + se.refs) % 2 ^ 32
      is e =
          share_changed k old ((old.refs + se.refs) % 2 ^ 32)
          ∙ pick ((old.refs + se.refs) % 2 ^ 32) true e

      was_not : key_eq k (key_of se) ≡ false → share k old ≡ 0
      was_not e = share_lem k old ∙ pick old.refs false e

      is_not :
          key_eq k (key_of se) ≡ false
          → share k (record old { refs = (old.refs + se.refs) % 2 ^ 32 }) ≡ 0
      is_not e =
          share_changed k old ((old.refs + se.refs) % 2 ^ 32)
          ∙ pick ((old.refs + se.refs) % 2 ^ 32) false e

  hit-Registered : Registered se st (idx, hit idx old se.refs st)
  unfolding key_of
  hit-Registered = record {
    kept = hit-IsStore;
    more = hit-registrations;
    there = (
      record old { refs = (old.refs + se.refs) % 2 ^ 32 },
      changed_here st.edges idx old ((old.refs + se.refs) % 2 ^ 32) at_idx live,
      same,
    );
  }

miss-Registered :
    (se : StoredEdge) (st : EdgeStore)
    → IsStore st
    → 0 < se.refs
    → find_key (key_of se) st.edge_index ≡ none
    → Registered se st (length st.edges, miss se st)
unfolding append_edge registrations
miss-Registered se st inv some_refs new = record {
  kept = record {
    linked = miss_linked (append_edge-IsLinked se st new some_refs inv.linked);
    counted = omega (arith, total-push alive st.edges se, alive_live se some_refs, inv.counted);
  };
  more = λ k.
      total-push (share k) st.edges se ∙ ap (λ n. total (share k) st.edges + n) (share_lem k se);
  there = (se, new_at st.edges se, refl);
}
  where
    miss_linked : IsLinked (append_edge se st) → IsLinked (miss se st)
    miss_linked l = record {
      indexed = l.indexed;
      found = l.found;
      leaving = l.leaving;
      left = l.left;
      entering = l.entering;
      entered = l.entered;
    }

-- If the indexes fit and there is room below 2^32, registering an edge keeps them fitting, adds its
-- registrations to its own key and to no other, and the index it returns has an edge with this key.
pub register_lem :
    (se : StoredEdge) (st : EdgeStore)
    → IsStore st
    → 0 < se.refs
    → registrations (key_of se) st + se.refs < 2 ^ 32
    → Registered se st (register se st)
register_lem se st inv some_refs few = elim (Option-cases (find_key (key_of se) st.edge_index)) [
  | inl e ↦
      subst (Registered se st) (sym (register-miss se st e)) (miss-Registered se st inv some_refs e)
  | inr (idx, e) ↦
      let (old, at_idx, same, live) = inv.linked.indexed (key_of se) idx e in
      subst (Registered se st) (sym (register-hit se st idx old e at_idx))
        (hit-Registered se st idx old inv some_refs few at_idx same live)
]
