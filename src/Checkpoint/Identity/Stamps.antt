-- ===== src/Checkpoint/Identity/Stamps.antt =====
-- checkStampSetHash: what is hashed, and what it tells of the stamps.
use mathlib.Core.List.{Perm}
use mathlib.Core.List.Perm
use vycor_cpp.Prelude.{
  ℕ, ◌*◌, ◌%◌, ◌^◌, ◌<◌, ◌≡◌, refl, sym, ap, subst, ◌∙◌, ◌↔◌, inl, inr, none, some, List, [], ◌∷◌,
  ◌++◌, map, bit_xor, All, if-intro, arith,
}
use vycor_cpp.GlobalIndex.Entries.{to_string, digits, lex_lt}
use vycor_cpp.Checkpoint.Journal.{FileStamp}
use vycor_cpp.Checkpoint.Identity.{
  fnv64, fnv64_seed, insert_key, sort_keys, stamp_key, hash_lines, stamp_set_hash, each_ended,
}
use vycor_cpp.Checkpoint.Identity.Split.{
  Free, Free-append, split_last, split_last-append, pieces, pieces-each_ended, value, value-digits,
  Free-digits,
}
use vycor_cpp.Checkpoint.Identity.Order.{sort_keys-eq_iff}

-- The numbers fit their fields, and the path is on one line.
abbrev pub IsStamp : FileStamp → Type 0
IsStamp s = Free 0x0A s.path × (s.mtime_ns < 2 ^ 64) × (s.size < 2 ^ 64)

-- The text that is hashed.
abbrev pub stamp_text : List FileStamp → List ℕ
stamp_text stamps = each_ended 0x0A (sort_keys (map stamp_key stamps))

fnv64-append : (u v : List ℕ) (h : ℕ) → fnv64 (u ++ v) h ≡ fnv64 v (fnv64 u h)
unfolding fnv64
fnv64-append [] v h = refl
fnv64-append (b ∷ u) v h = fnv64-append u v (bit_xor h b * 1099511628211 % 2 ^ 64)

pub fnv64-lt : (u : List ℕ) (h : ℕ) → h < 2 ^ 64 → fnv64 u h < 2 ^ 64
unfolding fnv64
fnv64-lt [] h fits = fits
fnv64-lt (b ∷ u) h fits = fnv64-lt u (bit_xor h b * 1099511628211 % 2 ^ 64) (omega arith)

hash_lines_lem : (ks : List (List ℕ)) (h : ℕ) → hash_lines ks h ≡ fnv64 (each_ended 0x0A ks) h
unfolding fnv64 hash_lines each_ended
hash_lines_lem [] h = refl
hash_lines_lem (k ∷ ks) h =
    hash_lines_lem ks (fnv64 (0x0A ∷ []) (fnv64 k h))
    ∙ (sym (fnv64-append (0x0A ∷ []) (each_ended 0x0A ks) (fnv64 k h))
        ∙ sym (fnv64-append k (0x0A ∷ each_ended 0x0A ks) h))

-- The stamp that a key was made of.
stamp_of : List ℕ → FileStamp
stamp_of key = elim (split_last b'|' key) [
  | none ↦ record { path = []; mtime_ns = 0; size = 0 }
  | some (front, size) ↦ elim (split_last b'|' front) [
    | none ↦ record { path = []; mtime_ns = 0; size = 0 }
    | some (path, mtime) ↦ record { path = path; mtime_ns = value 0 mtime; size = value 0 size }
  ]
]

regroup : (u v w : List ℕ) (d : ℕ) → u ++ (d ∷ v ++ (d ∷ w)) ≡ (u ++ (d ∷ v)) ++ (d ∷ w)
regroup [] v w d = refl
regroup (c ∷ u) v w d = ap (◌∷◌ c) (regroup u v w d)

stamp_of_lem :
    (key front size path mtime : List ℕ)
    → split_last b'|' key ≡ some (front, size)
    → split_last b'|' front ≡ some (path, mtime)
    → stamp_of key ≡ record { path = path; mtime_ns = value 0 mtime; size = value 0 size }
unfolding stamp_of
stamp_of_lem key front size path mtime e f = rw (e, stamp_of) (rw f refl)

stamp_of-digits :
    (s : FileStamp)
    → stamp_of (stamp_key s) ≡ record {
      path = s.path;
      mtime_ns = value 0 (digits 20 s.mtime_ns);
      size = value 0 (digits 20 s.size);
    }
unfolding stamp_key to_string
stamp_of-digits s = rw (regroup s.path (digits 20 s.mtime_ns) (digits 20 s.size) b'|') (
    stamp_of_lem _ _ _ _ _
      (split_last-append b'|' (s.path ++ (b'|' ∷ digits 20 s.mtime_ns)) (digits 20 s.size)
        (Free-digits b'|' 20 s.size (inr (omega arith))))
      (split_last-append b'|' s.path (digits 20 s.mtime_ns)
        (Free-digits b'|' 20 s.mtime_ns (inr (omega arith)))))

stamp_of-stamp_key : (s : FileStamp) → IsStamp s → stamp_of (stamp_key s) ≡ s
stamp_of-stamp_key s (line, mtime, size) =
    rw
      (
        stamp_of-digits s,
        value-digits 20 s.mtime_ns (omega arith),
        value-digits 20 s.size (omega arith),
      )
      refl

stamps_of-map : (l : List FileStamp) → All IsStamp l → map stamp_of (map stamp_key l) ≡ l
stamps_of-map [] all = refl
stamps_of-map (s ∷ l) (one, all) =
    ap (λ x. x ∷ map stamp_of (map stamp_key l)) (stamp_of-stamp_key s one)
    ∙ ap (◌∷◌ s) (stamps_of-map l all)

Free-keys : (l : List FileStamp) → All IsStamp l → All (Free 0x0A) (map stamp_key l)
unfolding stamp_key to_string
Free-keys [] all = tt
Free-keys (s ∷ l) ((line, mtime, size), all) = (
  Free-append 0x0A s.path _ line (
    omega arith,
    Free-append 0x0A (digits 20 s.mtime_ns) _ (Free-digits 0x0A 20 s.mtime_ns (inl (omega arith)))
        (omega arith, Free-digits 0x0A 20 s.size (inl (omega arith))),
  ),
  Free-keys l all,
)

Free-insert_key :
    (d : ℕ) (k : List ℕ) (l : List (List ℕ))
    → Free d k
    → All (Free d) l
    → All (Free d) (insert_key k l)
unfolding insert_key
Free-insert_key d k [] free all = (free, tt)
Free-insert_key d k (j ∷ js) free (one, all) =
    if-intro (All (Free d)) (lex_lt j k) (λ e. (one, Free-insert_key d k js free all))
      (λ e. (free, (one, all)))

pub Free-sort_keys : (d : ℕ) (l : List (List ℕ)) → All (Free d) l → All (Free d) (sort_keys l)
unfolding sort_keys
Free-sort_keys d [] all = tt
Free-sort_keys d (k ∷ l) (one, all) = Free-insert_key d k (sort_keys l) one (Free-sort_keys d l all)

-- The hash is 64-bit FNV-1a of a text. If no path has a line break and the numbers fit 64 bits, two
-- lists of stamps have the same text exactly if one is a permutation of the other.
pub stamp_set_hash-text :
    (stamps others : List FileStamp)
    → All IsStamp stamps
    → All IsStamp others
    → (stamp_set_hash stamps ≡ fnv64 (stamp_text stamps) fnv64_seed)
      × ((stamp_text stamps ≡ stamp_text others) ↔ Perm stamps others)
unfolding stamp_set_hash
stamp_set_hash-text stamps others fit fit' =
    let keys = sort_keys (map stamp_key stamps) in
    let keys' = sort_keys (map stamp_key others) in
    let whole = pieces-each_ended 0x0A keys (Free-sort_keys 0x0A _ (Free-keys stamps fit)) in
    let whole' = pieces-each_ended 0x0A keys' (Free-sort_keys 0x0A _ (Free-keys others fit')) in
    let same = sort_keys-eq_iff (map stamp_key stamps) (map stamp_key others) in
    (
      hash_lines_lem keys fnv64_seed,
      (
        λ e.
            let sorted : keys ≡ keys' = sym whole ∙ (ap (pieces 0x0A) e ∙ whole') in
            subst (λ l. Perm l others) (stamps_of-map stamps fit)
              (subst (Perm (map stamp_of (map stamp_key stamps))) (stamps_of-map others fit')
                (Perm.map stamp_of (same.0 sorted))),
        λ p. ap (each_ended 0x0A) (same.1 (Perm.map stamp_key p)),
      ),
    )
