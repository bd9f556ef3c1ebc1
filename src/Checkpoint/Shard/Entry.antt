-- ===== src/Checkpoint/Shard/Entry.antt =====
-- One shard entry, and a shard of such entries.
use vycor_cpp.Prelude.{
  ℕ, suc, ◌%◌, ◌^◌, ◌≡◌, refl, sym, ap, subst, ◌∙◌, true, some, List, [], ◌∷◌, ◌++◌, append-nil,
  append_assoc, length, take, drop, length-append, take-append, drop-append, leb, le→leb,
  list_eq_refl, arith,
}
use vycor_cpp.Checkpoint.Wire.{Reader, Read, put_u32, put_str, put_list, put_all, fnv32}
use vycor_cpp.Checkpoint.Wire.Reads.{
  Reads, Reads-bind, Reads-last, at_bytes, Fits, u32-Reads, str-Reads, count-Reads,
}
use vycor_cpp.Checkpoint.Journal.Frames.{sealed_bytes-Reads, length-put_u32}
use vycor_cpp.Checkpoint.Shard.{
  shard_version, put_entry, write_shard, decode_payload, read_entry, shard_loop, accept_version,
  read_entries, read_shard,
}

module _ {ℓ} {A : Type ℓ} (dec : Read A) where
  pub decode_payload-Reads :
      (p : List ℕ) (a : A) → Reads dec p a → Reads (decode_payload dec p) [] a
  unfolding decode_payload
  decode_payload-Reads p a reads =
      let all = subst (λ y. dec (at_bytes y) ≡ (a, at_bytes [])) (append-nil p) (reads.run []) in
      record { run = λ rest. rw all refl }

  -- An entry as written, and what it stands for.
  pub record Good (e : List ℕ × List ℕ) (a : List ℕ × A) : Type ℓ where
    pub fits_tu : Fits e.0
    pub fits : Fits e.1
    pub same : e.0 ≡ a.0
    pub reads : Reads dec e.1 a.1

  pub read_entry-Reads :
      (e : List ℕ × List ℕ) (a : List ℕ × A) → Good e a → Reads (read_entry dec) (put_entry e) a
  unfolding read_entry put_entry
  read_entry-Reads (tu, p) a g =
      let sealed = p ++ put_u32 (fnv32 p) in
      let bytes : sealed ++ [] ≡ sealed = append-nil sealed in
      let value : (tu, a.1) ≡ a = λ i. (g.same i, a.1) in
      subst (λ b. Reads (read_entry dec) (put_str tu ++ (put_u32 (length p % 2 ^ 32) ++ b)) a) bytes
        (subst
          (Reads (read_entry dec) (put_str tu ++ (put_u32 (length p % 2 ^ 32) ++ (sealed ++ []))))
          value
          (Reads-bind _ (str-Reads tu g.fits_tu) (
            Reads-bind _ (count-Reads p g.fits) (
              Reads-bind _ (sealed_bytes-Reads p)
                (Reads-last _ (decode_payload-Reads p a.1 g.reads))))))

  pub data Goods : List (List ℕ × List ℕ) → List (List ℕ × A) → Type ℓ where
    done : Goods [] []
    more :
        {e : List ℕ × List ℕ} {a : List ℕ × A} {es : List (List ℕ × List ℕ)}
        {found : List (List ℕ × A)}
        → Good e a
        → Goods es found
        → Goods (e ∷ es) (a ∷ found)

  pub shard_loop_next :
      (n : ℕ) (r : Reader) (b : List ℕ) (e : List ℕ × A) (l : List (List ℕ × A)) (r' : Reader)
      → read_entry dec r ≡ (e, at_bytes b)
      → shard_loop dec n (at_bytes b) ≡ (l, r')
      → shard_loop dec (suc n) r ≡ (e ∷ l, r')
  unfolding shard_loop
  shard_loop_next n r b e l r' h k = rw (shard_loop, h, h, k) refl

  pub shard_loop-Goods :
      {es : List (List ℕ × List ℕ)} {found : List (List ℕ × A)}
      → Goods es found
      → Reads (shard_loop dec (length es)) (put_all put_entry es) found
  unfolding shard_loop put_all
  shard_loop-Goods done = record { run = λ rest. refl }
  shard_loop-Goods (more {e = e} {a = a} {es = es} g later) = record {
    run = λ rest. rw (append_assoc (put_entry e) (put_all put_entry es) rest) (
        shard_loop_next (length es) _ (put_all put_entry es ++ rest) a _ (at_bytes rest)
          ((read_entry-Reads e a g).run (put_all put_entry es ++ rest))
          ((shard_loop-Goods later).run rest));
  }

  pub accept_version-Reads : Reads (accept_version shard_version) [] shard_version
  unfolding accept_version
  accept_version-Reads = record { run = λ rest. refl }

  pub read_entries-Goods :
      {es : List (List ℕ × List ℕ)} {found : List (List ℕ × A)}
      → Fits es
      → Goods es found
      → Reads (read_entries dec) (put_u32 shard_version ++ put_list put_entry es) found
  unfolding read_entries put_list
  read_entries-Goods {es = es} h g =
      Reads-bind _ (u32-Reads shard_version (omega arith))
        (Reads-bind _ accept_version-Reads (Reads-bind _ (count-Reads es h) (shard_loop-Goods g)))

  -- The header of a written shard is accepted.
  pub read_shard-Goods :
      (magic : List ℕ) {es : List (List ℕ × List ℕ)} {found : List (List ℕ × A)}
      → length magic ≡ 4
      → Fits es
      → Goods es found
      → read_shard magic dec (some (write_shard magic es)) ≡ (true, found)
  unfolding read_shard write_shard
  read_shard-Goods magic {es = es} {found = found} l h g =
      let body = put_u32 shard_version ++ put_list put_entry es in
      let rest : drop 4 (magic ++ body) ≡ body =
        ap (λ n. drop n (magic ++ body)) (sym l) ∙ drop-append magic body in
      let front : take 4 (magic ++ body) ≡ magic =
        ap (λ n. take n (magic ++ body)) (sym l) ∙ take-append magic body in
      let long : leb 8 (length (magic ++ body)) ≡ true = le→leb 8 _ (
        omega (
          arith,
          length-append magic body,
          length-append (put_u32 shard_version) (put_list put_entry es),
          length-put_u32 shard_version,
        )) in
      let all =
        subst (λ y. read_entries dec (at_bytes y) ≡ (found, at_bytes [])) (append-nil body)
          ((read_entries-Goods h g).run []) in
      rw (rest, front, long, list_eq_refl magic, all) refl
