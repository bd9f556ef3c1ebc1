-- ===== src/Checkpoint/Journal/Open/Tries.antt =====
-- What `attempts` tells a resumed run: how often a file was tried.
use vycor_cpp.Prelude.{
  ℕ, ◌+◌, ◌%◌, ◌^◌, ◌≡◌, refl, sym, ap, ◌∙◌, inl, inr, true, false, Option, none, some, List, [],
  ◌∷◌, list_eq, list_eq_refl, list_eq→eq, ==_iff, Bool-cases, if◌then◌else◌, arith,
}
use vycor_cpp.Checkpoint.Diagnostics.{TuOutcome}
use vycor_cpp.Checkpoint.Journal.{
  FileStamp, stamp_eq, AttemptState, Map, insert, erase, Loaded, attempt_key, count_at,
  count_attempt, no_attempts, phase_index, phase_analyze,
}
use vycor_cpp.Checkpoint.Journal.Open.{attempts}
use vycor_cpp.Checkpoint.Journal.Session.{
  Call, attempt, phase1, phase2, recall, recall_attempts, recall_all,
}

pub stamp_eq_refl : (s : FileStamp) → stamp_eq s s ≡ true
unfolding stamp_eq
stamp_eq_refl s =
    rw (list_eq_refl s.path, (==_iff s.mtime_ns s.mtime_ns).1 refl, (==_iff s.size s.size).1 refl)
      refl

pub stamp_eq→eq : (a b : FileStamp) → stamp_eq a b ≡ true → a ≡ b
unfolding stamp_eq
stamp_eq→eq a b h =
    let same : list_eq a.path b.path ≡ true = ground arith in
    let time : a.mtime_ns ≡ b.mtime_ns = ground arith in
    let size : a.size ≡ b.size = ground arith in
    let path = list_eq→eq a.path b.path same in
    λ i. record { path = path i; mtime_ns = time i; size = size i }

unfoldable pub tries : ℕ → FileStamp → List Call → ℕ × Option TuOutcome → ℕ × Option TuOutcome
tries phase s [] acc = acc
tries phase s (attempt phase' s' why ∷ ks) acc = tries phase s ks (
    if list_eq (attempt_key phase s.path) (attempt_key phase' s'.path)
    then (if stamp_eq s' s then ((acc.0 + 1) % 2 ^ 32, why) else (0, none))
    else acc)
tries phase s (phase1 rec ∷ ks) acc = tries phase s ks (
    if list_eq (attempt_key phase s.path) (attempt_key phase_index rec.stamp.path)
    then (0, none)
    else acc)
tries phase s (phase2 rec ∷ ks) acc = tries phase s ks (
    if list_eq (attempt_key phase s.path) (attempt_key phase_analyze rec.stamp.path)
    then (0, none)
    else acc)

attempts_erase :
    (phase : ℕ) (s : FileStamp) (key : List ℕ) (st : Loaded) (m : Map AttemptState)
    → m ≡ st.attempts
    → attempts phase s.path s (record st { attempts = erase key m })
      ≡ (if list_eq (attempt_key phase s.path) key then (0, none) else attempts phase s.path s st)
unfolding attempts erase
attempts_erase phase s key st m h = elim (Bool-cases (list_eq (attempt_key phase s.path) key)) [
  | inl e ↦ rw (e, attempts, erase) refl
  | inr e ↦ rw (e, h, attempts, erase) refl
]

-- `attempts` on the state that is found.
abbrev told : FileStamp → Option AttemptState → ℕ × Option TuOutcome
told s found = elim found [
  | none ↦ (0, none)
  | some x ↦ if stamp_eq x.stamp s then (x.count, x.why) else (0, none)
]

stamp_eq-count :
    (x : AttemptState) (s s' : FileStamp) (why : Option TuOutcome)
    → told s (some (count_attempt x s' why))
      ≡ (if stamp_eq s' s then (((told s (some x)).0 + 1) % 2 ^ 32, why) else (0, none))
unfolding count_attempt
stamp_eq-count x s s' why = elim (Bool-cases (stamp_eq x.stamp s')) [
  | inl e ↦ rw (e, ap (λ y. stamp_eq y s) (stamp_eq→eq x.stamp s' e)) (ground arith)
  | inr e ↦ elim (Bool-cases (stamp_eq s' s)) [
    | inl k ↦
        let other : stamp_eq x.stamp s ≡ false =
          ap (stamp_eq x.stamp) (sym (stamp_eq→eq s' s k)) ∙ e in
        rw (e, k, other) refl
    | inr k ↦ rw (e, k) refl
  ]
]

nothing_told : (s : FileStamp) → (told s (some no_attempts)).0 ≡ 0
nothing_told s = ground arith

found_count :
    (found : Option AttemptState) (s s' : FileStamp) (why : Option TuOutcome)
    → told s (some (count_attempt (elim found [ some x ↦ x | none ↦ no_attempts ]) s' why))
      ≡ (if stamp_eq s' s then (((told s found).0 + 1) % 2 ^ 32, why) else (0, none))
found_count none s s' why =
    stamp_eq-count no_attempts s s' why
    ∙ ap (λ n. if stamp_eq s' s then ((n + 1) % 2 ^ 32, why) else (0, none)) (nothing_told s)
found_count (some x) s s' why = stamp_eq-count x s s' why

attempts_count :
    (phase : ℕ) (s s' : FileStamp) (key : List ℕ) (why : Option TuOutcome) (st : Loaded)
    → attempts phase s.path s (record st { attempts = count_at key s' why st.attempts }) ≡ (
        if list_eq (attempt_key phase s.path) key
        then (if stamp_eq s' s
            then (((attempts phase s.path s st).0 + 1) % 2 ^ 32, why)
            else (0, none))
        else attempts phase s.path s st)
unfolding attempts count_at insert count_attempt
attempts_count phase s s' key why st = elim (Bool-cases (list_eq (attempt_key phase s.path) key)) [
  | inl e ↦
      let same = list_eq→eq (attempt_key phase s.path) key e in
      rw (e, attempts, count_at, insert)
        (found_count (st.attempts key) s s' why
          ∙ ap
              (λ k.
                if stamp_eq s' s
                then (((told s (st.attempts k)).0 + 1) % 2 ^ 32, why)
                else (0, none))
              (sym same))
  | inr e ↦ rw (e, attempts, count_at, insert) refl
]

-- The answer of `attempts` counts the tries of this stamp since the last other one or result.
pub attempts-recall_all :
    (phase : ℕ) (s : FileStamp) (ks : List Call) (st : Loaded)
    → attempts phase s.path s (recall_all ks st) ≡ tries phase s ks (attempts phase s.path s st)
unfolding recall_all recall recall_attempts tries insert attempts
attempts-recall_all phase s [] st = refl
attempts-recall_all phase s (attempt phase' s' why ∷ ks) st =
    attempts-recall_all phase s ks _
    ∙ ap (tries phase s ks) (attempts_count phase s s' (attempt_key phase' s'.path) why st)
attempts-recall_all phase s (phase1 rec ∷ ks) st =
    attempts-recall_all phase s ks _
    ∙ ap (tries phase s ks)
        (attempts_erase phase s (attempt_key phase_index rec.stamp.path) st st.attempts refl)
attempts-recall_all phase s (phase2 rec ∷ ks) st =
    attempts-recall_all phase s ks _
    ∙ ap (tries phase s ks)
        (attempts_erase phase s (attempt_key phase_analyze rec.stamp.path) st st.attempts refl)
