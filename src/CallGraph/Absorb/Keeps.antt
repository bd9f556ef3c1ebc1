-- ===== src/CallGraph/Absorb/Keeps.antt =====
-- What absorb keeps, with room for the shard's registrations.
use vycor_cpp.Prelude.{
  ℕ, suc, ◌+◌, ◌^◌, ◌<◌, inl, inr, List, [], ◌∷◌, ◌==◌, Bool-cases, if-intro, arith,
}
use vycor_cpp.CallGraph.{CallGraph}
use vycor_cpp.CallGraph.Maps.{Map, put}
use vycor_cpp.CallGraph.Edges.{StoredEdge, EdgeKey, EdgeStore, key_of, register}
use vycor_cpp.CallGraph.Edges.Keys.{total}
use vycor_cpp.CallGraph.Edges.Registers.{IsStore, registrations, Registered, register_lem}
use vycor_cpp.CallGraph.Edges.Releases.{retagged}
use vycor_cpp.CallGraph.Relations.{Relation, add_override, add_return}
use vycor_cpp.CallGraph.Relations.Reverse.{
  IsReversed, add_override-IsReversed, add_return-IsReversed,
}
use vycor_cpp.CallGraph.Absorb.{
  remapped, map_ids, intern_all, absorb_edges, absorb_tu_edges, relate_each, absorb_relation,
  absorb,
}

-- The indexes of the edges fit, and so do the relations and their reverses.
pub record IsGraph (g : CallGraph) : Type 0 where
  pub stored : IsStore g.store
  pub overrides_reversed : IsReversed g.overrides
  pub returns_reversed : IsReversed g.returns

-- No edge comes to 2^32 registrations by so many more.
abbrev pub HasRoom : EdgeStore → ℕ → Type 0
HasRoom st n = (k : EdgeKey) → registrations k st + n < 2 ^ 32

absorb_edges-IsStore :
    (remap : List ℕ) (srcs : List StoredEdge) (i : ℕ) (st : EdgeStore) (edge_remap : Map ℕ)
    → IsStore st
    → HasRoom st (total (λ se. se.refs) srcs)
    → IsStore (absorb_edges remap i srcs st edge_remap).0
unfolding absorb_edges total
absorb_edges-IsStore remap [] i st edge_remap inv room = inv
absorb_edges-IsStore remap (src ∷ srcs) i st edge_remap inv room =
    elim (Bool-cases (src.refs == 0)) [
      | inl e ↦
          rw e
            (absorb_edges-IsStore remap srcs (suc i) st edge_remap inv (λ k. omega (arith, room k)))
      | inr e ↦
          let se : StoredEdge = record src {
            caller = remapped remap src.caller;
            callee = remapped remap src.callee;
            call_site = remapped remap src.call_site;
          } in
          let done : Registered se st (register se st) =
            register_lem se st inv (ground arith) (omega (arith, room (key_of se))) in
          rw e (
            absorb_edges-IsStore remap srcs (suc i) (register se st).1
              (put i (register se st).0 edge_remap) done.kept
              (λ k. ground (arith, done.more k, room k)))
    ]

relate_each-IsReversed :
    (add : ℕ → ℕ → Relation → Relation)
    → ((a b : ℕ) (r : Relation) → IsReversed r → IsReversed (add a b r))
    → (k : ℕ) (xs : List ℕ) (r : Relation) → IsReversed r
    → IsReversed (relate_each add k xs r)
unfolding relate_each
relate_each-IsReversed add keeps k [] r inv = inv
relate_each-IsReversed add keeps k (x ∷ xs) r inv =
    relate_each-IsReversed add keeps k xs (add k x r) (keeps k x r inv)

absorb_relation-IsReversed :
    (add : ℕ → ℕ → Relation → Relation)
    → ((a b : ℕ) (r : Relation) → IsReversed r → IsReversed (add a b r))
    → (remap : List ℕ) (m : Map (List ℕ)) (r : Relation) → IsReversed r
    → IsReversed (absorb_relation add remap m r)
unfolding absorb_relation
absorb_relation-IsReversed add keeps remap [] r inv = inv
absorb_relation-IsReversed add keeps remap ((k, xs) ∷ m) r inv =
    absorb_relation-IsReversed add keeps remap m
      (relate_each add (remapped remap k) (map_ids remap xs) r)
      (relate_each-IsReversed add keeps (remapped remap k) (map_ids remap xs) r inv)

pub absorb-IsGraph :
    (shard g : CallGraph)
    → IsGraph g
    → HasRoom g.store (total (λ se. se.refs) shard.store.edges)
    → IsGraph (absorb shard g)
unfolding absorb
absorb-IsGraph shard g inv room =
    let remap = (intern_all shard.interner.strings g.interner).0 in
    let (st, edge_remap) = absorb_edges remap 0 shard.store.edges g.store [] in
    if-intro IsGraph g.read_only (λ e. inv)
      (λ e. record {
        stored =
            retagged st (absorb_tu_edges remap edge_remap shard.store.tu_edges st.tu_edges)
              (absorb_edges-IsStore remap shard.store.edges 0 g.store [] inv.stored room);
        overrides_reversed =
            absorb_relation-IsReversed add_override add_override-IsReversed remap
              shard.overrides.forward g.overrides inv.overrides_reversed;
        returns_reversed =
            absorb_relation-IsReversed add_return add_return-IsReversed remap shard.returns.forward
              g.returns inv.returns_reversed;
      })
