-- ===== src/PathSearch/Complete.antt =====
-- A search from one target that nothing stops finds every simple path.
pub mod Calls
pub mod Visits
pub mod Ends
use vycor_cpp.Prelude.{
  ℕ, zero, suc, ◌+◌, ◌-◌, ◌≤◌, ◌<◌, ◌≡◌, refl, sym, ap, subst, ◌∙◌, ◌⊎◌, inl, inr, Bool, true,
  false, not, ◌&&◌, ◌||◌, Option, none, some, List, [], ◌∷◌, ◌++◌, length, length-append, ltb, leb,
  ◌==◌, ==_iff, Bool-cases, Option-cases, if◌then◌else◌, if-intro, arith,
}
use vycor_cpp.CallGraph.Maps.{Map, get, put, get-put, mem}
use vycor_cpp.CallGraph.Refs.{EdgeRef}
use vycor_cpp.PathSearch.{
  Graph, SearchLimits, CycleRule, simple_nodes, simple_edges, Search, new_search, Flags, no_flags,
  blocked, both_flags, path_limit_hit, corridor_caller, is_excluded, Turn, skip, too_deep, excluded,
  follow, turn_of, expand, record_path, bury, is_dead, visit_node, dfs, search_targets,
}
use vycor_cpp.PathSearch.Chains.{In, first, later, CallPath, here, hop, Turn-cases, follow-inv}

-- A path among those found.
pub data Has (p : List EdgeRef) : List (List EdgeRef) → Type 0 where
  last : {ps : List (List EdgeRef)} → Has p (p ∷ ps)
  before : {q : List EdgeRef} {ps : List (List EdgeRef)} → Has p ps → Has p (q ∷ ps)

Has-append :
    {p : List EdgeRef} {ps : List (List EdgeRef)} (qs : List (List EdgeRef))
    → Has p ps
    → Has p (ps ++ qs)
Has-append qs last = last
Has-append qs (before h) = before (Has-append qs h)

Has-pushed : (p : List EdgeRef) (ps : List (List EdgeRef)) → Has p (ps ++ (p ∷ []))
Has-pushed p [] = last
Has-pushed p (q ∷ ps) = before (Has-pushed p ps)

-- Some limit has cut the search.
abbrev pub stopped : Search → Bool
stopped st = st.truncated || st.depth_stop || st.work_stop || st.hub_stop

pub In-first : {x e : EdgeRef} {es : List EdgeRef} → In x (e ∷ es) → In x (e ∷ []) ⊎ In x es
In-first first = inl first
In-first (later k) = inr k

pub In-only : {x e : EdgeRef} → In x (e ∷ []) → x ≡ e
In-only first = refl
In-only (later k) = elim k [ ]

module _ (g : Graph) where
  -- Admitted calls from a start down to `n`.
  pub data Up : ℕ → Type 0 where
    at_start : {n : ℕ} → mem n g.starts ≡ true → Up n
    call : {n : ℕ} (e : EdgeRef) → In e (g.callers_of n) → g.filter e ≡ true → Up e.caller → Up n

  -- How a path goes on from `node`, where it has passed `nodes`: to the path `full`, from `s`.
  pub data Leads (full : List EdgeRef) (s : ℕ) : List EdgeRef → ℕ → List ℕ → Type 0 where
    ends : {nodes : List ℕ} → Leads full s full s nodes
    goes :
        {path : List EdgeRef} {node : ℕ} {nodes : List ℕ} (e : EdgeRef)
        → In e (g.callers_of node)
        → g.filter e ≡ true
        → mem e.caller nodes ≡ false
        → Leads full s (e ∷ path) e.caller (e.caller ∷ nodes)
        → Leads full s path node nodes

  pub Leads-Up :
      {full : List EdgeRef} {s : ℕ} {path : List EdgeRef} {node : ℕ} {nodes : List ℕ}
      → Leads full s path node nodes
      → mem s g.starts ≡ true
      → Up node
  Leads-Up ends h = at_start h
  Leads-Up (goes e k pass new rest) h = call e k pass (Leads-Up rest h)

  -- Where the search has turned back for good, no start leads.
  abbrev pub DeadSound : Search → Type 0
  DeadSound st = (n d : ℕ) → get n st.dead_at ≡ some d → ¬ Up n

  record Good (path : List EdgeRef) (node : ℕ) (nodes : List ℕ) (flags : Flags) (st : Search)
      : Type 0 where
    dead : 0 < length path → DeadSound st
    whole :
        (full : List EdgeRef) (s : ℕ)
        → Leads full s path node nodes
        → mem s g.starts ≡ true
        → 0 < length full
        → Has full st.found
    barren : flags.is_found ≡ false → flags.is_blocked ≡ false → 0 < length path → ¬ Up node

  -- What a call of dfs does, unless a limit has cut it.
  record Done (path : List EdgeRef) (node : ℕ) (nodes : List ℕ) (st : Search) (out : Flags × Search)
      : Type 0 where
    stays : stopped st ≡ true → stopped out.1 ≡ true
    grows : (p : List EdgeRef) → Has p st.found → Has p out.1.found
    good : DeadSound st → (stopped out.1 ≡ true) ⊎ Good path node nodes out.0 out.1

  record SweptGood (path : List EdgeRef) (nodes : List ℕ) (es : List EdgeRef) (flags : Flags)
      (st : Search) : Type 0 where
    dead : DeadSound st
    whole :
        (full : List EdgeRef) (s : ℕ) (e : EdgeRef)
        → In e es
        → g.filter e ≡ true
        → mem e.caller nodes ≡ false
        → Leads full s (e ∷ path) e.caller (e.caller ∷ nodes)
        → mem s g.starts ≡ true
        → 0 < length full
        → Has full st.found
    barren :
        flags.is_found ≡ false
        → flags.is_blocked ≡ false
        → (e : EdgeRef) → In e es
        → g.filter e ≡ true
        → ¬ Up e.caller

  -- What the loop over some callers does; and one caller.
  record Swept (path : List EdgeRef) (nodes : List ℕ) (es : List EdgeRef) (flags : Flags)
      (st : Search) (out : Flags × Search) : Type 0 where
    stays : stopped st ≡ true → stopped out.1 ≡ true
    grows : (p : List EdgeRef) → Has p st.found → Has p out.1.found
    found_stays : flags.is_found ≡ true → out.0.is_found ≡ true
    blocked_stays : flags.is_blocked ≡ true → out.0.is_blocked ≡ true
    good : DeadSound st → (stopped out.1 ≡ true) ⊎ SweptGood path nodes es out.0 out.1

  none_stays : (a b : Bool) → (a ≡ true → b ≡ true) → b ≡ false → a ≡ false
  none_stays true b f h = cc (f refl, h)
  none_stays false b f h = refl

  -- One caller, then the others.
  Swept-cons :
      (path : List EdgeRef) (nodes : List ℕ) (e : EdgeRef) (es : List EdgeRef) (flags mid : Flags)
      (st st' : Search) (out : Flags × Search)
      → Swept path nodes (e ∷ []) flags st (mid, st')
      → Swept path nodes es mid st' out
      → Swept path nodes (e ∷ es) flags st out
  Swept-cons path nodes e es flags mid st st' out one rest = record {
    stays = λ h. rest.stays (one.stays h);
    grows = λ p h. rest.grows p (one.grows p h);
    found_stays = λ h. rest.found_stays (one.found_stays h);
    blocked_stays = λ h. rest.blocked_stays (one.blocked_stays h);
    good = λ sound. elim (one.good sound) [
      | inl cut ↦ inl (rest.stays cut)
      | inr a ↦ elim (rest.good a.dead) [
        | inl cut ↦ inl cut
        | inr b ↦ inr (record {
          dead = b.dead;
          whole = λ full s d k pass free leads start positive. elim (In-first k) [
            | inl k' ↦ rest.grows full (a.whole full s d k' pass free leads start positive)
            | inr k' ↦ b.whole full s d k' pass free leads start positive
          ];
          barren = λ f h d k pass. elim (In-first k) [
            | inl k' ↦
                a.barren (none_stays mid.is_found out.0.is_found rest.found_stays f)
                  (none_stays mid.is_blocked out.0.is_blocked rest.blocked_stays h) d k' pass
            | inr k' ↦ b.barren f h d k' pass
          ];
        })
      ]
    ];
  }

  -- A caller that the state does not depend on.
  Swept-pass :
      (path : List EdgeRef) (nodes : List ℕ) (e : EdgeRef) (flags mid : Flags) (st : Search)
      → (flags.is_found ≡ true → mid.is_found ≡ true)
      → (flags.is_blocked ≡ true → mid.is_blocked ≡ true)
      → (g.filter e ≡ true → mem e.caller nodes ≡ false → ¬ Up e.caller)
      → (mid.is_blocked ≡ false → g.filter e ≡ true → ¬ Up e.caller)
      → Swept path nodes (e ∷ []) flags st (mid, st)
  Swept-pass path nodes e flags mid st f b away barren = record {
    stays = λ h. h;
    grows = λ p h. h;
    found_stays = f;
    blocked_stays = b;
    good = λ sound. inr (record {
      dead = sound;
      whole = λ full s d k pass free leads start positive.
          let same = In-only k in
          absurd (
            subst (λ (z : EdgeRef). g.filter z ≡ true → mem z.caller nodes ≡ false → ¬ Up z.caller)
              (sym same) away pass free (Leads-Up leads start));
      barren = λ x y d k pass.
          subst (λ (z : EdgeRef). g.filter z ≡ true → ¬ Up z.caller) (sym (In-only k)) (barren y)
            pass;
    });
  }

  Swept-stop :
      (path : List EdgeRef) (nodes : List ℕ) (es : List EdgeRef) (flags : Flags) (st st' : Search)
      → stopped st' ≡ true
      → st'.found ≡ st.found
      → Swept path nodes es flags st (flags, st')
  Swept-stop path nodes es flags st st' cut same = record {
    stays = λ h. cut;
    grows = λ p h. subst (Has p) (sym same) h;
    found_stays = λ h. h;
    blocked_stays = λ h. h;
    good = λ sound. inl cut;
  }

  -- The limit of paths breaks the loop off.
  cut-Swept :
      (path : List EdgeRef) (nodes : List ℕ) (es : List EdgeRef) (flags : Flags) (st : Search)
      → Swept path nodes es flags st
          (both_flags flags blocked, record st { truncated = st.truncated || not (length es == 0) })
  unfolding both_flags
  cut-Swept path nodes [] flags st = record {
    stays = λ h. ground (arith, h);
    grows = λ p h. h;
    found_stays = λ h. ground (arith, h);
    blocked_stays = λ h. ground (arith, h);
    good = λ sound. inr (record {
      dead = sound;
      whole = λ full s d k pass free leads start positive. elim k [ ];
      barren = λ x y d k pass. elim k [ ];
    });
  }
  cut-Swept path nodes (e ∷ es) flags st = record {
    stays = λ h. ground arith;
    grows = λ p h. h;
    found_stays = λ h. ground (arith, h);
    blocked_stays = λ h. ground (arith, h);
    good = λ sound. inl (ground arith);
  }
