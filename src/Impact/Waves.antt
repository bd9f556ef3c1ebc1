-- ===== src/Impact/Waves.antt =====
-- What the walk knows of a reached node, and that the queue goes from depth to depth.
use vycor_cpp.Prelude.{
  ℕ, suc, ◌≤◌, ◌≡◌, refl, ap, inl, inr, true, false, none, some, List, [], ◌∷◌, ◌++◌, ◌==◌, ==_iff,
  Bool-cases, Option-cases, arith,
}
use vycor_cpp.CallGraph.Maps.{Map, get, put, get-put}
use vycor_cpp.Impact.{Reached, at, is_known}

-- `x` is reached at this depth or nearer.
pub record Within (m : Map Reached) (x depth : ℕ) : Type 0 where
  pub reach : Reached
  pub found : get x m ≡ some reach
  pub near : reach.depth ≤ depth

-- Entries stay as they are.
abbrev pub Extends : Map Reached → Map Reached → Type 0
Extends m m' = (x : ℕ) (r : Reached) → get x m ≡ some r → get x m' ≡ some r

pub Within-Extends : (m m' : Map Reached) (x d : ℕ) → Extends m m' → Within m x d → Within m' x d
Within-Extends m m' x d ext w = record {
  reach = w.reach;
  found = ext x w.reach w.found;
  near = w.near;
}

pub put-Extends : (k : ℕ) (v : Reached) (m : Map Reached) → get k m ≡ none → Extends m (put k v m)
put-Extends k v m fresh x r h = elim (Bool-cases (x == k)) [
  | inl e ↦ cc (h, fresh, ap (λ z. get z m) ((==_iff x k).0 e))
  | inr e ↦ rw (get-put x k v m, e) h
]

pub at-found : (x : ℕ) (m : Map Reached) (r : Reached) → get x m ≡ some r → at x m ≡ r
unfolding at
at-found x m r h = rw (h, at) refl

pub not_known : (x : ℕ) (m : Map Reached) → is_known x m ≡ false → get x m ≡ none
unfolding is_known
not_known x m h = elim (Option-cases (get x m)) [
  | inl e ↦ e
  | inr (r, e) ↦ cc (rw (e, is_known) at h)
]

pub known : (x : ℕ) (m : Map Reached) → is_known x m ≡ true → (r : Reached) × (get x m ≡ some r)
unfolding is_known
known x m h = elim (Option-cases (get x m)) [ inl e ↦ cc (rw (e, is_known) at h) | inr z ↦ z ]

-- `x` is reached at this depth.
pub record At (m : Map Reached) (x depth : ℕ) : Type 0 where
  pub reach : Reached
  pub found : get x m ≡ some reach
  pub deep : reach.depth ≡ depth

-- A queue of nodes at one depth.
pub data Level (m : Map Reached) (d : ℕ) : List ℕ → Type 0 where
  none_left : Level m d []
  also : {x : ℕ} {queue : List ℕ} → At m x d → Level m d queue → Level m d (x ∷ queue)

-- A queue of nodes at depth `d`, then of nodes one deeper.
pub data Waves (m : Map Reached) (d : ℕ) : List ℕ → Type 0 where
  now : {x : ℕ} {queue : List ℕ} → At m x d → Waves m d queue → Waves m d (x ∷ queue)
  then_on : {queue : List ℕ} → Level m (suc d) queue → Waves m d queue

-- Nothing is deeper than one more than the front of the queue.
abbrev pub Shallow : Map Reached → ℕ → Type 0
Shallow m d = (x : ℕ) (r : Reached) → get x m ≡ some r → r.depth ≤ suc d

module _ {m : Map Reached} where
  pub Level-push :
      {d x : ℕ} {queue : List ℕ} → Level m d queue → At m x d → Level m d (queue ++ (x ∷ []))
  Level-push none_left a = also a none_left
  Level-push (also b l) a = also b (Level-push l a)

  pub Waves-push :
      {d x : ℕ} {queue : List ℕ} → Waves m d queue → At m x (suc d) → Waves m d (queue ++ (x ∷ []))
  Waves-push (now b w) a = now b (Waves-push w a)
  Waves-push (then_on l) a = then_on (Level-push l a)

  pub Level-Waves : {d : ℕ} {queue : List ℕ} → Level m d queue → Waves m d queue
  Level-Waves none_left = then_on none_left
  Level-Waves (also a l) = now a (Level-Waves l)

  -- The front of the queue has the depth of the wave.
  pub front :
      {d x : ℕ} {queue : List ℕ}
      → Waves m d (x ∷ queue)
      → Shallow m d
      → (d' : ℕ) × At m x d' × Waves m d' queue × Shallow m d'
  front {d = d} (now a w) s = (d, a, w, s)
  front {d = d} (then_on (also a l)) s = (suc d, a, Level-Waves l, λ x r h. omega (arith, s x r h))

  pub At-Extends : {m' : Map Reached} {x d : ℕ} → Extends m m' → At m x d → At m' x d
  At-Extends {x = x} ext a = record {
    reach = a.reach;
    found = ext x a.reach a.found;
    deep = a.deep;
  }

  pub Level-Extends :
      {m' : Map Reached} {d : ℕ} {queue : List ℕ}
      → Extends m m'
      → Level m d queue
      → Level m' d queue
  Level-Extends ext none_left = none_left
  Level-Extends ext (also a l) = also (At-Extends ext a) (Level-Extends ext l)

  pub Waves-Extends :
      {m' : Map Reached} {d : ℕ} {queue : List ℕ}
      → Extends m m'
      → Waves m d queue
      → Waves m' d queue
  Waves-Extends ext (now a w) = now (At-Extends ext a) (Waves-Extends ext w)
  Waves-Extends ext (then_on l) = then_on (Level-Extends ext l)
