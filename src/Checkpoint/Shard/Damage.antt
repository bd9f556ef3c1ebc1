-- ===== src/Checkpoint/Shard/Damage.antt =====
-- What the callbacks see of a shard that ends in bytes that are no entry.
use vycor_cpp.Prelude.{
  ℕ, suc, ◌+◌, ◌^◌, ◌<◌, ◌≡◌, refl, sym, ap, ◌∙◌, true, false, Bool-cases, inl, inr, some, List, [],
  ◌++◌, append_assoc, length, take, drop, length-append, take-append, drop-append, leb, le→leb,
  list_eq_refl, arith,
}
use vycor_cpp.Checkpoint.Wire.{
  Reader, Read, ◌>>=◌, ret, u32, str, take_bytes, read_le, need, put_u32, put_all,
}
use vycor_cpp.Checkpoint.Wire.Reads.{at_bytes, u32-Reads}
use vycor_cpp.Checkpoint.Journal.{sealed_bytes}
use vycor_cpp.Checkpoint.Journal.Frames.{length-put_u32}
use vycor_cpp.Checkpoint.Shard.{
  shard_version, put_entry, decode_payload, read_entry, shard_loop, read_entries, read_shard,
}
use vycor_cpp.Checkpoint.Journal.Local.{sealed_bytes-sticky}
use vycor_cpp.Checkpoint.Shard.Entry.{
  Goods, done, more, read_entry-Reads, shard_loop_next, accept_version-Reads,
}

module _ {ℓ} {A : Type ℓ} (dec : Read A) (bad : List ℕ)
    (h : (read_entry dec (at_bytes bad)).1.ok ≡ false) where
  shard_loop-bad :
      (m : ℕ) → shard_loop dec (suc m) (at_bytes bad) ≡ ([], (read_entry dec (at_bytes bad)).1)
  unfolding shard_loop
  shard_loop-bad m = rw (shard_loop, h) refl

  shard_loop-damaged :
      (m : ℕ) {es : List (List ℕ × List ℕ)} {found : List (List ℕ × A)}
      → Goods dec es found
      → shard_loop dec (length es + suc m) (at_bytes (put_all put_entry es ++ bad))
        ≡ (found, (read_entry dec (at_bytes bad)).1)
  unfolding put_all
  shard_loop-damaged m done =
      ap (λ k. shard_loop dec k (at_bytes bad)) (omega arith) ∙ shard_loop-bad m
  shard_loop-damaged m (more {e = e} {a = a} {es = es} g later) =
      rw (append_assoc (put_entry e) (put_all put_entry es) bad) (
        ap (λ k. shard_loop dec k (at_bytes (put_entry e ++ (put_all put_entry es ++ bad))))
          (omega arith)
        ∙ shard_loop_next dec (length es + suc m) _ (put_all put_entry es ++ bad) a _ _
            ((read_entry-Reads dec e a g).run (put_all put_entry es ++ bad))
            (shard_loop-damaged m later))

  read_entries-damaged :
      (n m : ℕ) {es : List (List ℕ × List ℕ)} {found : List (List ℕ × A)}
      → n < 2 ^ 32
      → n ≡ length es + suc m
      → Goods dec es found
      → read_entries dec
          (at_bytes (put_u32 shard_version ++ (put_u32 n ++ (put_all put_entry es ++ bad))))
        ≡ (found, (read_entry dec (at_bytes bad)).1)
  unfolding read_entries ◌>>=◌
  read_entries-damaged n m {es = es} {found = found} l e g =
      let rest = put_all put_entry es ++ bad in
      rw
        (
          (u32-Reads shard_version (omega arith)).run (put_u32 n ++ rest),
          (accept_version-Reads dec).run (put_u32 n ++ rest),
          (u32-Reads n l).run rest,
        )
        (ap (λ k. shard_loop dec k (at_bytes rest)) e ∙ shard_loop-damaged m g)

-- If a shard's header announces more entries than its good entries, which are followed by bytes that
-- are no entry, readShardFile returns false after its callback has seen all the good entries.
pub read_shard-damaged {ℓ} :
    {A : Type ℓ} (dec : Read A) (magic bad : List ℕ) (n m : ℕ) (es : List (List ℕ × List ℕ))
    (found : List (List ℕ × A))
    → length magic ≡ 4
    → n < 2 ^ 32
    → n ≡ length es + suc m
    → Goods dec es found
    → (read_entry dec (at_bytes bad)).1.ok ≡ false
    → read_shard magic dec
        (some (magic ++ (put_u32 shard_version ++ (put_u32 n ++ (put_all put_entry es ++ bad)))))
      ≡ (false, found)
unfolding read_shard
read_shard-damaged dec magic bad n m es found size l e g h =
    let later = put_u32 n ++ (put_all put_entry es ++ bad) in
    let body = put_u32 shard_version ++ later in
    let rest : drop 4 (magic ++ body) ≡ body =
      ap (λ k. drop k (magic ++ body)) (sym size) ∙ drop-append magic body in
    let front : take 4 (magic ++ body) ≡ magic =
      ap (λ k. take k (magic ++ body)) (sym size) ∙ take-append magic body in
    let long : leb 8 (length (magic ++ body)) ≡ true = le→leb 8 _ (
      omega (
        arith,
        length-append magic body,
        length-append (put_u32 shard_version) later,
        length-put_u32 shard_version,
      )) in
    rw (rest, front, long, list_eq_refl magic, read_entries-damaged dec bad h n m l e g)
      (λ i. (h i, found))

-- Where the bytes end there is no entry.
decode_payload-sticky {ℓ} :
    {A : Type ℓ} (dec : Read A) (p : List ℕ) (r : Reader)
    → r.ok ≡ false
    → (decode_payload dec p r).1.ok ≡ false
unfolding decode_payload
decode_payload-sticky dec p r h = elim (Bool-cases (dec (at_bytes p)).1.ok) [
  | inl e ↦ rw e h
  | inr e ↦ rw e refl
]

pub read_entry-nil {ℓ} : {A : Type ℓ} (dec : Read A) → (read_entry dec (at_bytes [])).1.ok ≡ false
unfolding read_entry ◌>>=◌ ret str u32 take_bytes read_le need
read_entry-nil dec =
    decode_payload-sticky dec (sealed_bytes 0 nowhere).0 (sealed_bytes 0 nowhere).1
      (sealed_bytes-sticky 0 nowhere refl)
  where
    nowhere : Reader
    nowhere = record { rest = []; ok = false }
