-- ===== src/CallGraph/Relations/Reverse.antt =====
-- A relation and the reverse that is kept beside it.
use vycor_cpp.Prelude.{
  ℕ, ◌≡◌, ◌↔◌, refl, sym, ap, ◌∙◌, inl, inr, Bool, true, List, [], ◌∷◌, ◌++◌, ◌&&◌, ◌==◌, ==_iff,
  Bool-cases, if◌then◌else◌, arith,
}
use vycor_cpp.CallGraph.Maps.{
  Map, bucket, put, push_new, set_insert, mem, bucket-put, mem-append, mem-push_new, mem-set_insert,
}
use vycor_cpp.CallGraph.Relations.{Relation, add_override, add_return}
use vycor_cpp.CallGraph.Relations.Closure.{Leads, Reaches, first, more}

-- Each pair stands in both maps, or in neither.
abbrev pub IsReversed : Relation → Type 0
IsReversed r = (x y : ℕ) → mem y (bucket x r.forward) ≡ mem x (bucket y r.reverse)

-- What a vector holds after an element is added to one.
mem-put :
    (x y k e : ℕ) (m : Map (List ℕ)) (xs : List ℕ)
    → ((z : ℕ) → mem z xs ≡ (if z == e then true else mem z (bucket k m)))
    → mem y (bucket x (put k xs m)) ≡ (if x == k && y == e then true else mem y (bucket x m))
mem-put x y k e m xs h = elim (Bool-cases (x == k)) [
  | inl same ↦
      rw (bucket-put x k xs m, same, h y)
        (ap (λ z. if y == e then true else mem y (bucket z m)) (sym ((==_iff x k).0 same)))
  | inr other ↦ rw (bucket-put x k xs m, other) refl
]

both_ways :
    (x y k e : ℕ) (a b : Bool)
    → a ≡ b
    → (if x == k && y == e then true else a) ≡ (if y == e && x == k then true else b)
both_ways x y k e a b h = ground arith

pub add_override-IsReversed :
    (base over : ℕ) (r : Relation) → IsReversed r → IsReversed (add_override base over r)
unfolding add_override
add_override-IsReversed base over r inv x y =
    mem-put x y base over r.forward (push_new over (bucket base r.forward))
      (λ z. mem-push_new z over (bucket base r.forward))
    ∙ both_ways x y base over (mem y (bucket x r.forward)) (mem x (bucket y r.reverse)) (inv x y)
    ∙ sym (
        mem-put y x over base r.reverse (push_new base (bucket over r.reverse))
          (λ z. mem-push_new z base (bucket over r.reverse)))

pub add_return-IsReversed :
    (fn ret : ℕ) (r : Relation) → IsReversed r → IsReversed (add_return fn ret r)
unfolding add_return
add_return-IsReversed fn ret r inv = elim (Bool-cases (mem ret (bucket fn r.forward))) [
  | inl e ↦ rw e inv
  | inr e ↦ rw e (λ x y.
      mem-put x y fn ret r.forward (set_insert ret (bucket fn r.forward))
        (λ z. mem-set_insert z ret (bucket fn r.forward))
      ∙ both_ways x y fn ret (mem y (bucket x r.forward)) (mem x (bucket y r.reverse)) (inv x y)
      ∙ sym (
          mem-put y x ret fn r.reverse (bucket ret r.reverse ++ (fn ∷ [])) (λ z.
            mem-append z (bucket ret r.reverse) (fn ∷ [])
            ∙ pushed z (mem z (bucket ret r.reverse)))))
]
  where
    pushed :
        (z : ℕ) (b : Bool) → (if b then true else mem z (fn ∷ [])) ≡ (if z == fn then true else b)
    pushed z b = unfold mem in ground arith

-- A chain is followed from its other end.
Reaches-cons : (m : Map (List ℕ)) (x y z : ℕ) → Leads m x y → Reaches m y z → Reaches m x z
Reaches-cons m x y z l (first k) = more y (first l) k
Reaches-cons m x y z l (more w r k) = more w (Reaches-cons m x y w l r) k

Reaches-reverse :
    (m n : Map (List ℕ))
    → ((x y : ℕ) → mem y (bucket x m) ≡ mem x (bucket y n))
    → (x z : ℕ) → Reaches m x z
    → Reaches n z x
Reaches-reverse m n inv x z (first l) = first (sym (inv x z) ∙ l)
Reaches-reverse m n inv x z (more y r l) =
    Reaches-cons n z y x (sym (inv y z) ∙ l) (Reaches-reverse m n inv x y r)

pub Reaches-iff :
    (r : Relation) → IsReversed r → (x z : ℕ) → Reaches r.forward x z ↔ Reaches r.reverse z x
Reaches-iff r inv x z = (
  Reaches-reverse r.forward r.reverse inv x z,
  Reaches-reverse r.reverse r.forward (λ a b. sym (inv b a)) z x,
)
