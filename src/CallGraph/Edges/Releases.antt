-- ===== src/CallGraph/Edges/Releases.antt =====
-- Removing TUs: a live edge keeps its place in the indexes until its last registration is released.
use vycor_cpp.Prelude.{
  ℕ, ◌-◌, ◌<◌, ◌≡◌, refl, sym, ap, subst, ◌∙◌, inl, inr, true, false, Option, none, some, List, [],
  ◌∷◌, ◌==◌, ==_iff, Bool-cases, Option-cases, if-intro, arith,
}
use vycor_cpp.CallGraph.Maps.{
  Map, bucket, put, del, mem, push_new, remove_all, bucket-put, mem-push_new, mem-remove_all,
  get_elem?, set,
}
use vycor_cpp.CallGraph.Edges.{
  StoredEdge, EdgeStore, key_of, erase_key, Release, release_edge, release_idx, release_all,
  release_tus, scrub, tag, remove_edges,
}
use vycor_cpp.CallGraph.Edges.Keys.{total-set}
use vycor_cpp.CallGraph.Edges.Invariant.{IsLinked, Leaving, Left, some-eq}
use vycor_cpp.CallGraph.Edges.Changes.{set-IsLinked, erase-IsLinked, changed_cases, changed_here}
use vycor_cpp.CallGraph.Edges.Registers.{alive, alive_live, IsStore}

-- The marked edges have no registration left.
abbrev pub AllDead : List ℕ → List StoredEdge → Type 0
AllDead dead edges =
    (i : ℕ) (se : StoredEdge) → mem i dead ≡ true → get_elem? edges i ≡ some se → se.refs ≡ 0

pub record IsReleasing (r : Release) : Type 0 where
  pub fits : IsStore r.store
  pub gone : AllDead r.dead r.store.edges

AllDead-set :
    (dead : List ℕ) (edges : List StoredEdge) (idx : ℕ) (old : StoredEdge) (n : ℕ)
    → get_elem? edges idx ≡ some old
    → 0 < old.refs
    → AllDead dead edges
    → AllDead dead (set edges idx (record old { refs = n }))
AllDead-set dead edges idx old n at_idx live gone i se marked at_i =
    elim (changed_cases edges idx old n at_idx live i se at_i) [
      | inl (here, same) ↦
          absurd (omega (arith, gone idx old (subst (λ z. mem z dead ≡ true) here marked) at_idx))
      | inr before ↦ gone i se marked before
    ]

AllDead-new :
    (dead : List ℕ) (edges : List StoredEdge) (idx : ℕ) (edge : StoredEdge)
    → get_elem? edges idx ≡ some edge
    → edge.refs ≡ 0
    → AllDead dead edges
    → AllDead (push_new idx dead) edges
AllDead-new dead edges idx edge at_idx zero_refs gone i se marked at_i =
    elim (Bool-cases (i == idx)) [
      | inl same ↦
          let here = (==_iff i idx).0 same in
          ap (λ (z : StoredEdge). z.refs) (some-eq (sym at_i ∙ ap (get_elem? edges) here ∙ at_idx))
          ∙ zero_refs
      | inr other ↦ gone i se (rw (mem-push_new i idx dead, other) at marked) at_i
    ]

release_edge-IsReleasing :
    (idx : ℕ) (edge : StoredEdge) (r : Release)
    → get_elem? r.store.edges idx ≡ some edge
    → IsReleasing r
    → IsReleasing (release_edge idx edge r)
unfolding release_edge
release_edge-IsReleasing idx edge r at_idx inv =
    if-intro IsReleasing (edge.refs == 0) (λ none_left. inv)
      (λ some_left.
        if-intro IsReleasing (edge.refs - 1 == 0)
          (λ last. record {
            fits = record {
              linked = erase_linked (
                  erase-IsLinked r.store idx edge (edge.refs - 1) at_idx (live some_left)
                    ((==_iff (edge.refs - 1) 0).0 last) inv.fits.linked);
              counted = omega (
                arith,
                total-set alive r.store.edges idx edge less at_idx,
                alive_live edge (live some_left),
                alive_dead last,
                inv.fits.counted,
              );
            };
            gone =
                AllDead-new r.dead (set r.store.edges idx less) idx less
                  (changed_here r.store.edges idx edge (edge.refs - 1) at_idx (live some_left))
                  ((==_iff (edge.refs - 1) 0).0 last)
                  (AllDead-set r.dead r.store.edges idx edge (edge.refs - 1) at_idx (live some_left)
                    inv.gone);
          })
          (λ others. record {
            fits = record {
              linked =
                  set-IsLinked r.store idx edge (edge.refs - 1) at_idx (live some_left)
                    (still some_left others) inv.fits.linked;
              counted = omega (
                arith,
                total-set alive r.store.edges idx edge less at_idx,
                alive_live edge (live some_left),
                alive_live less (still some_left others),
                inv.fits.counted,
              );
            };
            gone =
                AllDead-set r.dead r.store.edges idx edge (edge.refs - 1) at_idx (live some_left)
                  inv.gone;
          }))
  where
    less : StoredEdge
    less = record edge { refs = edge.refs - 1 }

    live : (edge.refs == 0) ≡ false → 0 < edge.refs
    live h = ground arith

    still : (edge.refs == 0) ≡ false → (edge.refs - 1 == 0) ≡ false → 0 < edge.refs - 1
    still h k = ground arith

    alive_dead : (edge.refs - 1 == 0) ≡ true → alive less ≡ 0
    alive_dead h = unfold alive in rw h refl

    erase_linked :
        IsLinked (record r.store {
          edges = set r.store.edges idx less;
          edge_index = erase_key (key_of edge) r.store.edge_index;
        })
        → IsLinked (record r.store {
          edges = set r.store.edges idx less;
          edge_index = erase_key (key_of edge) r.store.edge_index;
          live_edge_count = r.store.live_edge_count - 1;
        })
    erase_linked l = record {
      indexed = l.indexed;
      found = l.found;
      leaving = l.leaving;
      left = l.left;
      entering = l.entering;
      entered = l.entered;
    }

release_idx-IsReleasing : (idx : ℕ) (r : Release) → IsReleasing r → IsReleasing (release_idx idx r)
unfolding release_idx
release_idx-IsReleasing idx r inv = elim (Option-cases (get_elem? r.store.edges idx)) [
  | inl e ↦ rw (e, release_idx) inv
  | inr (edge, e) ↦ rw (e, release_idx) (release_edge-IsReleasing idx edge r e inv)
]

release_all-IsReleasing :
    (idxs : List ℕ) (r : Release) → IsReleasing r → IsReleasing (release_all idxs r)
unfolding release_all
release_all-IsReleasing [] r inv = inv
release_all-IsReleasing (idx ∷ idxs) r inv =
    release_all-IsReleasing idxs (release_idx idx r) (release_idx-IsReleasing idx r inv)

-- The indexes do not mention the TUs.
pub retagged :
    (st : EdgeStore) (m : Map (List ℕ)) → IsStore st → IsStore (record st { tu_edges = m })
retagged st m inv = record {
  linked = record {
    indexed = inv.linked.indexed;
    found = inv.linked.found;
    leaving = inv.linked.leaving;
    left = inv.linked.left;
    entering = inv.linked.entering;
    entered = inv.linked.entered;
  };
  counted = inv.counted;
}

release_tus-IsReleasing :
    (tus : List ℕ) (r : Release) → IsReleasing r → IsReleasing (release_tus tus r)
unfolding release_tus
release_tus-IsReleasing [] r inv = inv
release_tus-IsReleasing (tu ∷ tus) r inv =
    let after = release_all (bucket tu r.store.tu_edges) r in
    let inv' = release_all-IsReleasing (bucket tu r.store.tu_edges) r inv in
    release_tus-IsReleasing tus
      (record after { store = record after.store { tu_edges = del tu after.store.tu_edges } })
      (record {
        fits = retagged after.store (del tu after.store.tu_edges) inv'.fits;
        gone = inv'.gone;
      })

scrub-old :
    (cs dead : List ℕ) (m : Map (List ℕ)) (c i : ℕ)
    → mem i (bucket c (scrub cs dead m)) ≡ true
    → mem i (bucket c m) ≡ true
unfolding scrub
scrub-old [] dead m c i h = h
scrub-old (d ∷ cs) dead m c i h =
    let before = scrub-old cs dead (put d (remove_all dead (bucket d m)) m) c i h in
    elim (Bool-cases (c == d)) [
      | inl e ↦
          let now = rw (bucket-put c d (remove_all dead (bucket d m)) m, e) at before in
          subst (λ z. mem i (bucket z m) ≡ true) (sym ((==_iff c d).0 e))
            (ground (arith, now, mem-remove_all i dead (bucket d m)))
      | inr e ↦ rw (bucket-put c d (remove_all dead (bucket d m)) m, e) at before
    ]

scrub-kept :
    (cs dead : List ℕ) (m : Map (List ℕ)) (c i : ℕ)
    → mem i dead ≡ false
    → mem i (bucket c m) ≡ true
    → mem i (bucket c (scrub cs dead m)) ≡ true
unfolding scrub
scrub-kept [] dead m c i live h = h
scrub-kept (d ∷ cs) dead m c i live h =
    scrub-kept cs dead (put d (remove_all dead (bucket d m)) m) c i live
      (elim (Bool-cases (c == d)) [
        | inl e ↦
            let h' : mem i (bucket d m) ≡ true =
              subst (λ z. mem i (bucket z m) ≡ true) ((==_iff c d).0 e) h in
            rw (bucket-put c d (remove_all dead (bucket d m)) m, e)
              (ground (arith, mem-remove_all i dead (bucket d m)))
        | inr e ↦ rw (bucket-put c d (remove_all dead (bucket d m)) m, e) h
      ])

module _ (end : StoredEdge → ℕ) (edges : List StoredEdge) (cs dead : List ℕ)
    (m : Map (List ℕ)) where
  Leaving-scrub : AllDead dead edges → Leaving end edges m → Leaving end edges (scrub cs dead m)
  Leaving-scrub gone inv i se at_i live = elim (Bool-cases (mem i dead)) [
    | inl marked ↦ absurd (omega (arith, gone i se marked at_i))
    | inr unmarked ↦ scrub-kept cs dead m (end se) i unmarked (inv i se at_i live)
  ]

  Left-scrub : Left end edges m → Left end edges (scrub cs dead m)
  Left-scrub inv c i h = inv c i (scrub-old cs dead m c i h)

pub remove_edges-IsStore :
    (tus : List ℕ) (st : EdgeStore) → IsStore st → IsStore (remove_edges tus st).1
unfolding remove_edges mem
remove_edges-IsStore tus st inv =
    let start : Release = record {
      store = st;
      removed = 0;
      dead = [];
      callers = [];
      callees = [];
    } in
    let r = release_tus tus start in
    let done : IsReleasing r =
      release_tus-IsReleasing tus start (record { fits = inv; gone = λ i se marked. cc marked }) in
    let edges = r.store.edges in
    record {
      linked = record {
        indexed = done.fits.linked.indexed;
        found = done.fits.linked.found;
        leaving =
            Leaving-scrub (λ se. se.caller) edges r.callers r.dead r.store.out_edges done.gone
              done.fits.linked.leaving;
        left =
            Left-scrub (λ se. se.caller) edges r.callers r.dead r.store.out_edges
              done.fits.linked.left;
        entering =
            Leaving-scrub (λ se. se.callee) edges r.callees r.dead r.store.in_edges done.gone
              done.fits.linked.entering;
        entered =
            Left-scrub (λ se. se.callee) edges r.callees r.dead r.store.in_edges
              done.fits.linked.entered;
      };
      counted = done.fits.counted;
    }

pub tag-IsStore : (tu : Option ℕ) (idx : ℕ) (st : EdgeStore) → IsStore st → IsStore (tag tu idx st)
unfolding tag
tag-IsStore none idx st inv = inv
tag-IsStore (some tu) idx st inv = retagged st _ inv
