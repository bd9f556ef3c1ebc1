-- ===== src/CallGraph/Refs/Agree.antt =====
-- The queries in the two directions show the same calls.
use vycor_cpp.Prelude.{ℕ, ◌≡◌, ◌↔◌, refl, sym, Bool, true, false}
use vycor_cpp.CallGraph.Refs.{Links, callee_refs_of, caller_refs_of}
use vycor_cpp.CallGraph.Refs.Gathers.{any}
use vycor_cpp.CallGraph.Refs.Callees.{
  goes_to, comes_from, IsWoven, Calls, callee_refs_of_sound, callee_refs_of_complete,
}
use vycor_cpp.CallGraph.Refs.Callers.{caller_refs_of_sound, caller_refs_of_complete}

-- In a graph whose indexes and reverse relations fit together, calleeRefsOf has a reference to a
-- callee at a call site exactly if a live stored edge of the caller at that site calls it: as it is
-- stored, as a plausible dispatch on a method that it overrides, or through a function that returns
-- it.
pub callee_refs_of-Calls :
    (l : Links) (caller callee site : ℕ)
    → IsWoven l
    → any (goes_to callee site) (callee_refs_of caller l) ≡ true ↔ Calls l caller callee site
callee_refs_of-Calls l caller callee site woven = (
  callee_refs_of_sound l caller callee site woven,
  callee_refs_of_complete l caller callee site woven,
)

pub callee_refs_of-caller_refs_of :
    (l : Links) (caller callee site : ℕ)
    → IsWoven l
    → any (goes_to callee site) (callee_refs_of caller l)
      ≡ any (comes_from caller site) (caller_refs_of callee l)
callee_refs_of-caller_refs_of l caller callee site woven =
    same_truth _ _
      (λ h.
        caller_refs_of_complete l caller callee site woven
          (callee_refs_of_sound l caller callee site woven h))
      (λ h.
        callee_refs_of_complete l caller callee site woven
          (caller_refs_of_sound l caller callee site woven h))
  where
    same_truth : (a b : Bool) → (a ≡ true → b ≡ true) → (b ≡ true → a ≡ true) → a ≡ b
    same_truth true b f g = sym (f refl)
    same_truth false true f g = cc (g refl)
    same_truth false false f g = refl
