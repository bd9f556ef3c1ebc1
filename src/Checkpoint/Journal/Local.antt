-- ===== src/Checkpoint/Journal/Local.antt =====
-- A successful read depends only on the bytes that it takes: the same bytes are read alike, whatever
-- follows them. So no record can be read from a part of its bytes.
use vycor_cpp.Prelude.{
  ℕ, ◌+◌, ◌≡◌, refl, sym, ap, subst, ◌∙◌, inl, inr, Bool, true, false, List, [], ◌++◌, append-nil,
  append_assoc, length, take, drop, take-append, drop-append, take-append-drop, length-take,
  length-drop, length-append, leb, leb→le, le→leb, ◌==◌, Bool-cases, arith,
}
use vycor_cpp.Checkpoint.Wire.{Reader, Read, ◌>>=◌, ret, need, u8, u32, fnv32, read_le, of_le}
use vycor_cpp.Checkpoint.Wire.Reads.{Reads, Reads-bind, at_bytes}
use vycor_cpp.Checkpoint.Journal.{accept_payload, check_sum, sealed_bytes, read_frame}

pub record Local {ℓ} {A : Type ℓ} (m : Read A) : Type ℓ where
  pub took :
      (b : List ℕ) (a : A) (rest : List ℕ)
      → m (at_bytes b) ≡ (a, at_bytes rest)
      → (front : List ℕ) × (b ≡ front ++ rest) × Reads m front a
  pub sticky : (r : Reader) → r.ok ≡ false → (m r).1.ok ≡ false

-- The reader after a successful read is at the rest, and has not failed.
pub at_rest {ℓ} :
    {A : Type ℓ} (m : Read A) (r : Reader)
    → (m r).1.ok ≡ true
    → m r ≡ ((m r).0, at_bytes (m r).1.rest)
at_rest m r h = λ i. ((m r).0, record { rest = (m r).1.rest; ok = h i })

need_split : (n : ℕ) (b : List ℕ) → leb n (length b) ≡ true → length (take n b) ≡ n
need_split n b h = omega (arith, length-take n b, leb→le n (length b) h)

need_enough :
    (n : ℕ) (b rest : List ℕ)
    → length b ≡ n
    → need n (at_bytes (b ++ rest)) ≡ (true, at_bytes (b ++ rest))
unfolding need
need_enough n b rest h =
    rw (le→leb n (length (b ++ rest)) (omega (arith, length-append b rest))) refl

take_front : (n : ℕ) (b rest : List ℕ) → length b ≡ n → take n (b ++ rest) ≡ b
take_front n b rest h = subst (λ k. take k (b ++ rest) ≡ b) h (take-append b rest)

drop_front : (n : ℕ) (b rest : List ℕ) → length b ≡ n → drop n (b ++ rest) ≡ rest
drop_front n b rest h = subst (λ k. drop k (b ++ rest) ≡ rest) h (drop-append b rest)

-- A successful read of `n` bytes.
read_le_value :
    (n : ℕ) (b rest : List ℕ)
    → length b ≡ n
    → read_le n (at_bytes (b ++ rest)) ≡ (of_le b, at_bytes rest)
unfolding read_le
read_le_value n b rest h =
    rw (need_enough n b rest h, take_front n b rest h, drop_front n b rest h) refl

read_le_fails :
    (n : ℕ) (b : List ℕ) → leb n (length b) ≡ false → (read_le n (at_bytes b)).1.ok ≡ false
unfolding read_le need
read_le_fails n b h = rw h refl

read_le_sticky : (n : ℕ) (r : Reader) → r.ok ≡ false → (read_le n r).1.ok ≡ false
unfolding read_le need
read_le_sticky n r h = ground arith

read_le-Local : (n : ℕ) → Local (read_le n)
read_le-Local n = record { took = took; sticky = read_le_sticky n }
  where
    here :
        (b : List ℕ)
        → leb n (length b) ≡ true
        → read_le n (at_bytes b) ≡ (of_le (take n b), at_bytes (drop n b))
    here b h =
        subst (λ x. read_le n (at_bytes x) ≡ (of_le (take n b), at_bytes (drop n b)))
          (take-append-drop n b) (read_le_value n (take n b) (drop n b) (need_split n b h))

    took :
        (b : List ℕ) (a : ℕ) (rest : List ℕ)
        → read_le n (at_bytes b) ≡ (a, at_bytes rest)
        → (front : List ℕ) × (b ≡ front ++ rest) × Reads (read_le n) front a
    took b a rest h = elim (Bool-cases (leb n (length b))) [
      | inr short ↦ cc (read_le_fails n b short, ap (λ x. x.1.ok) h)
      | inl e ↦
          let same = sym (here b e) ∙ h in
          (
            take n b,
            sym (take-append-drop n b) ∙ ap (λ x. take n b ++ x.1.rest) same,
            record {
              run = λ rest.
                  read_le_value n (take n b) rest (need_split n b e)
                  ∙ ap (λ x. (x.0, at_bytes rest)) same;
            },
          )
    ]

pub u8-Local : Local u8
unfolding u8
u8-Local = read_le-Local 1

pub u32-Local : Local u32
unfolding u32
u32-Local = read_le-Local 4

module _ {ℓ κ} {A : Type ℓ} {B : Type κ} (m : Read A) (f : A → Read B) where
  bind_ok : ((a : A) → Local (f a)) → (r : Reader) → ((m >>= f) r).1.ok ≡ true → (m r).1.ok ≡ true
  unfolding ◌>>=◌
  bind_ok p r h = elim (Bool-cases (m r).1.ok) [
    | inl e ↦ e
    | inr e ↦ cc ((p (m r).0).sticky (m r).1 e, h)
  ]

  bind_second :
      (r : Reader) (b : List ℕ) → m r ≡ ((m r).0, at_bytes b) → (m >>= f) r ≡ f (m r).0 (at_bytes b)
  unfolding ◌>>=◌
  bind_second r b h = ap (λ x. f (m r).0 x.1) h

  bind_sticky :
      Local m → ((a : A) → Local (f a)) → (r : Reader) → r.ok ≡ false → ((m >>= f) r).1.ok ≡ false
  unfolding ◌>>=◌
  bind_sticky l p r h = (p (m r).0).sticky (m r).1 (l.sticky r h)

  pub bind-Local : Local m → ((a : A) → Local (f a)) → Local (m >>= f)
  bind-Local l p = record { took = took; sticky = bind_sticky l p }
    where
      took :
          (b : List ℕ) (d : B) (rest : List ℕ)
          → (m >>= f) (at_bytes b) ≡ (d, at_bytes rest)
          → (front : List ℕ) × (b ≡ front ++ rest) × Reads (m >>= f) front d
      took b d rest h =
          let first = at_rest m (at_bytes b) (bind_ok p (at_bytes b) (ap (λ x. x.1.ok) h)) in
          let second = sym (bind_second (at_bytes b) _ first) ∙ h in
          let (u, s, reads) = l.took b _ _ first in
          let (v, t, later) = (p (m (at_bytes b)).0).took _ d rest second in
          (u ++ v, s ∙ ap (◌++◌ u) t ∙ sym (append_assoc u v rest), Reads-bind f reads later)

pub ret-Local {ℓ} : {A : Type ℓ} (a : A) → Local (ret a)
unfolding ret
ret-Local a = record {
  took =
      λ b c rest h. ([], ap (λ x. x.1.rest) h, record { run = λ y. ap (λ x. (x.0, at_bytes y)) h });
  sticky = λ r h. h;
}

accept_payload-Local : (same : Bool) (p : List ℕ) → Local (accept_payload same p)
unfolding accept_payload
accept_payload-Local true p = ret-Local' p
  where
    ret-Local' : (p : List ℕ) → Local (accept_payload true p)
    ret-Local' p = record {
      took = λ b c rest h.
          ([], ap (λ x. x.1.rest) h, record { run = λ y. ap (λ x. (x.0, at_bytes y)) h });
      sticky = λ r h. h;
    }
accept_payload-Local false p = record {
  took = λ b c rest h. cc (ap (λ x. x.1.ok) h);
  sticky = λ r h. refl;
}

check_sum-Local : (p : List ℕ) (checksum : ℕ) → Local (check_sum p checksum)
unfolding check_sum
check_sum-Local p checksum = accept_payload-Local (checksum == fnv32 p) p

-- What follows `need` in `sealed_bytes`.
abbrev seal : List ℕ → Read (List ℕ)
seal payload = u32 >>= check_sum payload

seal-Local : (p : List ℕ) → Local (seal p)
seal-Local p = bind-Local u32 (check_sum p) u32-Local (check_sum-Local p)

u32_short : (b : List ℕ) → leb 4 (length b) ≡ false → (u32 (at_bytes b)).1.ok ≡ false
unfolding u32
u32_short b h = read_le_fails 4 b h

-- The checksum takes four bytes.
length-seal : (p front a : List ℕ) → Reads (seal p) front a → leb 4 (length front) ≡ true
length-seal p front a reads = elim (Bool-cases (leb 4 (length front))) [
  | inl e ↦ e
  | inr e ↦
      let all =
        subst (λ x. seal p (at_bytes x) ≡ (a, at_bytes [])) (append-nil front) (reads.run []) in
      let ok =
        bind_ok u32 (check_sum p) (check_sum-Local p) (at_bytes front) (ap (λ x. x.1.ok) all) in
      cc (u32_short front e, ok)
]

pub sealed_bytes-enough :
    (len : ℕ) (b rest : List ℕ)
    → length b ≡ len
    → leb 4 (length rest) ≡ true
    → sealed_bytes len (at_bytes (b ++ rest)) ≡ seal b (at_bytes rest)
unfolding sealed_bytes need
sealed_bytes-enough len b rest h k =
    rw
      (
        le→leb (len + 4) (length (b ++ rest))
            (omega (arith, length-append b rest, leb→le 4 (length rest) k)),
        take_front len b rest h,
        drop_front len b rest h,
      )
      refl

sealed_bytes-short :
    (len : ℕ) (b : List ℕ)
    → leb (len + 4) (length b) ≡ false
    → (sealed_bytes len (at_bytes b)).1.ok ≡ false
unfolding sealed_bytes need
sealed_bytes-short len b h = rw h refl

pub sealed_bytes-sticky : (len : ℕ) (r : Reader) → r.ok ≡ false → (sealed_bytes len r).1.ok ≡ false
unfolding sealed_bytes need
sealed_bytes-sticky len r h = rw h

sealed_bytes-Local : (len : ℕ) → Local (sealed_bytes len)
sealed_bytes-Local len = record { took = took; sticky = sealed_bytes-sticky len }
  where
    took :
        (b a rest : List ℕ)
        → sealed_bytes len (at_bytes b) ≡ (a, at_bytes rest)
        → (front : List ℕ) × (b ≡ front ++ rest) × Reads (sealed_bytes len) front a
    took b a rest h = elim (Bool-cases (leb (len + 4) (length b))) [
      | inr e ↦ cc (sealed_bytes-short len b e, ap (λ x. x.1.ok) h)
      | inl e ↦
          let room = leb→le (len + 4) (length b) e in
          let size : length (take len b) ≡ len = omega (arith, length-take len b) in
          let later : leb 4 (length (drop len b)) ≡ true =
            le→leb 4 _ (omega (arith, length-drop len b)) in
          let split = sym (take-append-drop len b) in
          let second =
            sym (sealed_bytes-enough len (take len b) (drop len b) size later)
            ∙ ap (λ x. sealed_bytes len (at_bytes x)) (sym split)
            ∙ h in
          let (v, t, reads) = (seal-Local (take len b)).took (drop len b) a rest second in
          (
            take len b ++ v,
            split ∙ ap (◌++◌ (take len b)) t ∙ sym (append_assoc (take len b) v rest),
            record {
              run = λ y.
                  let four = leb→le 4 (length v) (length-seal (take len b) v a reads) in
                  rw (append_assoc (take len b) v y) (
                    sealed_bytes-enough len (take len b) (v ++ y) size
                      (le→leb 4 _ (omega (arith, length-append v y)))
                    ∙ reads.run y);
            },
          )
    ]

pub read_frame-Local : Local read_frame
unfolding read_frame
read_frame-Local = bind-Local u8 _ u8-Local (λ kind.
    bind-Local u32 _ u32-Local
      (λ len. bind-Local (sealed_bytes len) _ (sealed_bytes-Local len) (λ p. ret-Local (kind, p))))
