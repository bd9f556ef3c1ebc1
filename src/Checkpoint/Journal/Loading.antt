-- ===== src/Checkpoint/Journal/Loading.antt =====
-- `loadRecords` applies the records before the tail in order, and returns where they end.
use vycor_cpp.Prelude.{
  ℕ, zero, suc, ◌+◌, ◌-◌, ◌^◌, ◌≤◌, ◌<◌, ◌≡◌, ◌≢◌, refl, sym, ap, subst, ◌∙◌, false, List, [], ◌∷◌,
  ◌++◌, append-nil, length, take, take-append, length-append, arith,
}
use vycor_cpp.Checkpoint.Wire.Reads.{at_bytes, Fits}
use vycor_cpp.Checkpoint.Journal.{
  Loaded, load_record, read_frame, record_frame, load_loop, load_records,
}
use vycor_cpp.Checkpoint.Journal.Frames.{
  Frame, Frames, stop, next, no_frame-nil, frame_shorter, Frames-total, Frames-front,
  record_frame-Reads, torn_frame,
}

-- The records applied in order.
pub load_all : List Frame → Loaded → Loaded
load_all [] st = st
load_all (f ∷ fs) st = load_all fs (load_record f.0 f.1 st)

pub load_all-append :
    (fs gs : List Frame) (st : Loaded) → load_all (fs ++ gs) st ≡ load_all gs (load_all fs st)
unfolding load_all
load_all-append [] gs st = refl
load_all-append (f ∷ fs) gs st = load_all-append fs gs (load_record f.0 f.1 st)

load_loop-stop :
    (fuel size : ℕ) (b : List ℕ) (valid_end : ℕ) (st : Loaded)
    → (read_frame (at_bytes b)).1.ok ≡ false
    → load_loop fuel size b valid_end st ≡ (valid_end, st)
unfolding load_loop
load_loop-stop zero size b valid_end st h = refl
load_loop-stop (suc fuel) size [] valid_end st h = refl
load_loop-stop (suc fuel) size (x ∷ b) valid_end st h = rw h refl

load_loop-next :
    (fuel size : ℕ) (b rest : List ℕ) (f : Frame) (valid_end : ℕ) (st : Loaded)
    → read_frame (at_bytes b) ≡ (f, at_bytes rest)
    → load_loop (suc fuel) size b valid_end st
      ≡ load_loop fuel size rest (size - length rest) (load_record f.0 f.1 st)
unfolding load_loop
load_loop-next fuel size [] rest f valid_end st h = cc (no_frame-nil, ap (λ x. x.1.ok) h)
load_loop-next fuel size (x ∷ b) rest f valid_end st h = rw h refl

load_loop-Frames :
    {b tail : List ℕ} {fs : List Frame}
    → Frames b fs tail
    → (fuel size : ℕ) (st : Loaded) → length b ≤ fuel
    → load_loop fuel size b (size - length b) st ≡ (size - length tail, load_all fs st)
unfolding load_all
load_loop-Frames (stop {b = b} e h) fuel size st l =
    load_loop-stop fuel size b (size - length b) st h ∙ rw e refl
load_loop-Frames (next {b = b} {rest = rest} f h later) zero size st l =
    absurd (omega (arith, frame_shorter b rest f h))
load_loop-Frames (next {b = b} {rest = rest} f h later) (suc fuel) size st l =
    load_loop-next fuel size b rest f (size - length b) st h
    ∙ load_loop-Frames later fuel size (load_record f.0 f.1 st)
        (omega (arith, frame_shorter b rest f h))

pub load_records-Frames :
    {b tail : List ℕ} {fs : List Frame} (st : Loaded)
    → Frames b fs tail
    → load_records b st ≡ (length b - length tail, load_all fs st)
unfolding load_records
load_records-Frames {b} st frames =
    let start : length b - length b ≡ 0 = omega arith in
    ap (λ k. load_loop (length b) (length b) b k st) (sym start)
    ∙ (load_loop-Frames frames (length b) (length b) st (omega arith))

take_to : (front tail b : List ℕ) → b ≡ front ++ tail → take (length b - length tail) b ≡ front
take_to front tail b s =
    let size : length b - length tail ≡ length front =
      omega (arith, ap length s, length-append front tail) in
    rw (size, s) (take-append front tail)

cut_lem :
    (b x front tail end : List ℕ) (fs gs : List Frame) (st : Loaded)
    → b ≡ front ++ tail
    → Frames b fs tail
    → Frames x gs end
    → Frames (front ++ x) (fs ++ gs) end
    → length end ≤ length x
    → let (valid_end, st') = load_records b st in
      let (later_end, st'') = load_records x st' in
      (valid_end ≤ length b)
      × (load_records (take valid_end b ++ x) st ≡ (valid_end + later_end, st''))
cut_lem b x front tail end fs gs st s before after both l =
    rw (load_records-Frames st before, load_records-Frames (load_all fs st) after)
      (
        omega arith,
        rw (take_to front tail b s)
            (load_records-Frames st both ∙ λ i. (sizes i, load_all-append fs gs st i)),
      )
  where
    sizes : length (front ++ x) - length end ≡ length b - length tail + (length x - length end)
    sizes = omega (arith, ap length s, length-append front tail, length-append front x)

-- For any bytes and any maps, loadRecords returns a length within the bytes, and the bytes cut at
-- that length, followed by any others, load as the first bytes and then the others, with the
-- returned lengths added.
pub load_records_cut :
    (b x : List ℕ) (st : Loaded)
    → let (valid_end, st') = load_records b st in
      let (later_end, st'') = load_records x st' in
      (valid_end ≤ length b)
      × (load_records (take valid_end b ++ x) st ≡ (valid_end + later_end, st''))
load_records_cut b x st =
    let (fs, tail, frames) = Frames-total (length b) b (omega arith) in
    let (gs, end, more) = Frames-total (length x) x (omega arith) in
    let (front, s, extend) = Frames-front frames in
    let (front', s', _) = Frames-front more in
    cut_lem b x front tail end fs gs st s frames more (extend x end gs more)
      (omega (arith, ap length s', length-append front' end))

-- A file of whole records.
abbrev pub IsWhole : List ℕ → Loaded → Type 0
IsWhole b st = (load_records b st).0 ≡ length b

load_records-whole :
    (b x : List ℕ) (st : Loaded)
    → IsWhole b st
    → load_records (b ++ x) st ≡ (
      length b + (load_records x (load_records b st).1).0,
      (load_records x (load_records b st).1).1,
    )
load_records-whole b x st w =
    let (_, e) = load_records_cut b x st in
    let all : take (load_records b st).0 b ≡ b =
      ap (λ k. take k b) w ∙ ap (take (length b)) (sym (append-nil b)) ∙ take-append b [] in
    ap (λ y. load_records (y ++ x) st) (sym all)
    ∙ e
    ∙ ap
        (λ n.
          (n + (load_records x (load_records b st).1).0, (load_records x (load_records b st).1).1))
        w

one_frame :
    (st : Loaded) (kind : ℕ) (p : List ℕ)
    → kind < 2 ^ 8
    → Fits p
    → load_records (record_frame kind p) st ≡ (length (record_frame kind p), load_record kind p st)
unfolding load_all
one_frame st kind p k h =
    let f = record_frame kind p in
    let reads =
      subst (λ y. read_frame (at_bytes y) ≡ ((kind, p), at_bytes [])) (append-nil f)
        ((record_frame-Reads kind p k h).run []) in
    load_records-Frames st (next (kind, p) reads (stop refl no_frame-nil))
    ∙ ap (λ n. (n, load_record kind p st)) (omega arith)

-- A record appended whole is loaded after the others.
pub load_records-append_frame :
    (b : List ℕ) (st : Loaded) (kind : ℕ) (p : List ℕ)
    → IsWhole b st
    → kind < 2 ^ 8
    → Fits p
    → load_records (b ++ record_frame kind p) st
      ≡ (length (b ++ record_frame kind p), load_record kind p (load_records b st).1)
load_records-append_frame b st kind p w k h =
    let f = record_frame kind p in
    let one = one_frame (load_records b st).1 kind p k h in
    load_records-whole b f st w
    ∙ ap (λ y. (length b + y.0, y.1)) one
    ∙ ap (λ n. (n, load_record kind p (load_records b st).1)) (sym (length-append b f))

-- A record that was cut short is not loaded, and changes nothing of what stands before it.
pub load_records-append_torn :
    (b : List ℕ) (st : Loaded) (kind : ℕ) (p t more : List ℕ)
    → IsWhole b st
    → kind < 2 ^ 8
    → Fits p
    → t ++ more ≡ record_frame kind p
    → more ≢ []
    → load_records (b ++ t) st ≡ (length b, (load_records b st).1)
unfolding load_all
load_records-append_torn b st kind p t more w k h s cut =
    let torn =
      load_records-Frames (load_records b st).1 (stop refl (torn_frame kind p t more k h s cut)) in
    load_records-whole b t st w
    ∙ ap (λ y. (length b + y.0, y.1)) torn
    ∙ ap (λ n. (n, (load_records b st).1)) (omega arith)
