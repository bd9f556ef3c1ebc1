-- ===== src/Checkpoint/Journal/Frames.antt =====
-- The journal as a sequence of records and a tail that holds no record.
use vycor_cpp.Prelude.{
  ℕ, zero, suc, ◌*◌, ◌%◌, ◌^◌, ◌≤◌, ◌<◌, ◌≡◌, ◌≢◌, refl, sym, ap, subst, ◌∙◌, inl, inr, true, false,
  List, [], ◌∷◌, ◌++◌, append-nil, append_assoc, length, length-append, leb, le→leb, bit_xor,
  ==_iff, Bool-cases, arith,
}
use vycor_cpp.Checkpoint.Wire.{
  Reader, ◌>>=◌, ret, need, u8, u32, put_u32, put_le, fnv32, fnv_from, read_le,
}
use vycor_cpp.Checkpoint.Wire.Reads.{
  Reads, Reads-bind, Reads-last, at_bytes, Fits, u8-Reads, u32-Reads, count-Reads,
}
use vycor_cpp.Checkpoint.Journal.{accept_payload, check_sum, sealed_bytes, read_frame, record_frame}
use vycor_cpp.Checkpoint.Journal.Local.{at_rest, read_frame-Local, sealed_bytes-enough}

nil_of_append : (xs ys : List ℕ) → xs ++ ys ≡ [] → ys ≡ []
nil_of_append [] ys h = h
nil_of_append (x ∷ xs) ys h = cc

abbrev pub Frame : Type 0
Frame = ℕ × List ℕ

fnv_from_lt : (h : ℕ) (s : List ℕ) → h < 2 ^ 32 → fnv_from h s < 2 ^ 32
unfolding fnv_from
fnv_from_lt h [] l = l
fnv_from_lt h (b ∷ s) l = fnv_from_lt (bit_xor h b * 16777619 % 2 ^ 32) s (omega arith)

fnv32_lt : (s : List ℕ) → fnv32 s < 2 ^ 32
unfolding fnv32
fnv32_lt s = fnv_from_lt 2166136261 s (omega arith)

pub length-put_u32 : (v : ℕ) → length (put_u32 v) ≡ 4
unfolding put_u32 put_le
length-put_u32 v = refl

check_sum_same : (p : List ℕ) (r : Reader) → check_sum p (fnv32 p) r ≡ (p, r)
unfolding check_sum accept_payload
check_sum_same p r = rw ((==_iff (fnv32 p) (fnv32 p)).1 refl) refl

pub sealed_bytes-Reads : (p : List ℕ) → Reads (sealed_bytes (length p)) (p ++ put_u32 (fnv32 p)) p
unfolding ◌>>=◌
sealed_bytes-Reads p = record {
  run = λ rest.
      let sum = put_u32 (fnv32 p) in
      let four : leb 4 (length (sum ++ rest)) ≡ true =
        le→leb 4 _ (omega (arith, length-append sum rest, length-put_u32 (fnv32 p))) in
      rw (append_assoc p sum rest) (
        sealed_bytes-enough (length p) p (sum ++ rest) refl four
        ∙ rw ((u32-Reads (fnv32 p) (fnv32_lt p)).run rest) (check_sum_same p (at_bytes rest)));
}

-- A record of the journal is read back.
pub record_frame-Reads :
    (kind : ℕ) (p : List ℕ)
    → kind < 2 ^ 8
    → Fits p
    → Reads read_frame (record_frame kind p) (kind, p)
unfolding read_frame record_frame
record_frame-Reads kind p k h =
    Reads-bind _ (u8-Reads kind k)
      (Reads-bind _ (count-Reads p h) (Reads-last _ (sealed_bytes-Reads p)))

pub no_frame-nil : (read_frame (at_bytes [])).1.ok ≡ false
unfolding read_frame ◌>>=◌ u8 u32 read_le need sealed_bytes ret check_sum accept_payload
no_frame-nil = refl

-- Every record takes some bytes.
front-ne-nil : (front : List ℕ) (f : Frame) → Reads read_frame front f → 0 < length front
front-ne-nil [] f reads = cc (no_frame-nil, ap (λ x. x.1.ok) (reads.run []))
front-ne-nil (x ∷ front) f reads = omega arith

pub data Frames : List ℕ → List Frame → List ℕ → Type 0 where
  stop : {b tail : List ℕ} → tail ≡ b → (read_frame (at_bytes b)).1.ok ≡ false → Frames b [] tail
  next :
      {b rest tail : List ℕ} {fs : List Frame} (f : Frame)
      → read_frame (at_bytes b) ≡ (f, at_bytes rest)
      → Frames rest fs tail
      → Frames b (f ∷ fs) tail

frame_front :
    (b rest : List ℕ) (f : Frame)
    → read_frame (at_bytes b) ≡ (f, at_bytes rest)
    → (front : List ℕ) × (b ≡ front ++ rest) × Reads read_frame front f
frame_front b rest f h = read_frame-Local.took b f rest h

pub frame_shorter :
    (b rest : List ℕ) (f : Frame)
    → read_frame (at_bytes b) ≡ (f, at_bytes rest)
    → length rest < length b
frame_shorter b rest f h =
    let (front, s, reads) = frame_front b rest f h in
    omega (arith, ap length s, length-append front rest, front-ne-nil front f reads)

-- Every byte string is some records and a tail.
pub Frames-total :
    (fuel : ℕ) (b : List ℕ)
    → length b ≤ fuel
    → (fs : List Frame) × (tail : List ℕ) × Frames b fs tail
Frames-total zero [] h = ([], [], stop refl no_frame-nil)
Frames-total zero (x ∷ b) h = absurd (omega arith)
Frames-total (suc fuel) b h = elim (Bool-cases (read_frame (at_bytes b)).1.ok) [
  | inr e ↦ ([], b, stop refl e)
  | inl e ↦
      let first = at_rest read_frame (at_bytes b) e in
      let shorter = frame_shorter b _ _ first in
      let (fs, tail, later) = Frames-total fuel (read_frame (at_bytes b)).1.rest (omega arith) in
      (_ ∷ fs, tail, next _ first later)
]

-- The records stand before the tail, and are read alike before any other bytes.
pub Frames-front :
    {b tail : List ℕ} {fs : List Frame}
    → Frames b fs tail
    → (front : List ℕ) × (b ≡ front ++ tail)
      × ((x t : List ℕ) (gs : List Frame) → Frames x gs t → Frames (front ++ x) (fs ++ gs) t)
Frames-front (stop e h) = ([], sym e, λ x t gs more. more)
Frames-front (next {b = b} {rest = rest} {tail = tail} {fs = fs} f h later) =
    let (u, s, reads) = frame_front b rest f h in
    let (v, t, extend) = Frames-front later in
    (
      u ++ v,
      s ∙ ap (◌++◌ u) t ∙ sym (append_assoc u v tail),
      λ x t gs more.
          subst (λ y. Frames y ((f ∷ fs) ++ gs) t) (sym (append_assoc u v x))
            (next f (reads.run (v ++ x)) (extend x t gs more)),
    )

-- A part of a record's bytes holds no record.
pub torn_frame :
    (kind : ℕ) (p t more : List ℕ)
    → kind < 2 ^ 8
    → Fits p
    → t ++ more ≡ record_frame kind p
    → more ≢ []
    → (read_frame (at_bytes t)).1.ok ≡ false
torn_frame kind p t more k h s cut = elim (Bool-cases (read_frame (at_bytes t)).1.ok) [
  | inr e ↦ e
  | inl e ↦
      let first = at_rest read_frame (at_bytes t) e in
      let (front, split, reads) = frame_front t _ _ first in
      let rest = (read_frame (at_bytes t)).1.rest in
      let whole = (record_frame-Reads kind p k h).run [] in
      let bytes =
        sym (append_assoc front rest more)
        ∙ ap (λ y. y ++ more) (sym split)
        ∙ s
        ∙ sym (append-nil (record_frame kind p)) in
      let ends =
        sym (ap (λ y. (read_frame (at_bytes y)).1.rest) bytes)
        ∙ ap (λ y. y.1.rest) (reads.run (rest ++ more)) in
      absurd (cut (nil_of_append rest more (sym ends ∙ ap (λ y. y.1.rest) whole)))
]
