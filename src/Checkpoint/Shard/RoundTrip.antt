-- ===== src/Checkpoint/Shard/RoundTrip.antt =====
-- The three kinds of shard files are read back as they were written.
use vycor_cpp.Prelude.{ℕ, suc, ◌+◌, ◌≡◌, refl, ap, true, some, List, [], ◌∷◌, ◌++◌, length, arith}
use vycor_cpp.Checkpoint.Wire.{Read}
use vycor_cpp.Checkpoint.Wire.Reads.{Reads, Reads-bind, Reads-last, Fits}
use vycor_cpp.Checkpoint.Entries.{CheckIndexPayload}
use vycor_cpp.Checkpoint.Encode.{encode_index_payload}
use vycor_cpp.Checkpoint.Decode.{decode_index_payload}
use vycor_cpp.Checkpoint.Payload.{FitsPayload, payload-Reads}
use vycor_cpp.Checkpoint.Diagnostics.{
  TuOutcome, Diagnostic, put_outcome, encode_diagnostics, decode_diagnostics,
}
use vycor_cpp.Checkpoint.Findings.{outcome-Reads, FitsDiagnostics, diagnostics-Reads}
use vycor_cpp.Checkpoint.Shard.{
  index_shard_magic, diag_shard_magic, global_index_magic, write_shard, read_shard, outcome_at,
  encode_entries, write_index_shard, write_diag_shard, with_outcome, read_index_shard,
  read_diag_shard, merged, write_global_index_file, read_global_index_file,
}
use vycor_cpp.Checkpoint.Shard.Entry.{Goods, done, more, read_shard-Goods}

-- Each file with its outcome and what was written for it, from entry `i` on.
unfoldable pub listed {ℓ} :
    {P : Type ℓ} → List TuOutcome → ℕ → List (List ℕ × P) → List (List ℕ × (TuOutcome × P))
listed outcomes i [] = []
listed outcomes i (e ∷ es) = (e.0, (outcome_at outcomes i, e.1)) ∷ listed outcomes (i + 1) es

module _ {ℓ} {P : Type ℓ} (enc : P → List ℕ) (FitsP : P → Type 0) where
  unfoldable pub FitsEntries : List TuOutcome → ℕ → List (List ℕ × P) → Type 0
  FitsEntries outcomes i [] = Unit
  FitsEntries outcomes i (e ∷ es) =
      Fits e.0
      × Fits (outcome_at outcomes i).detail
      × FitsP e.1
      × Fits (put_outcome (outcome_at outcomes i) ++ enc e.1)
      × FitsEntries outcomes (i + 1) es

  pub length-encode_entries :
      (outcomes : List TuOutcome) (i : ℕ) (es : List (List ℕ × P))
      → length (encode_entries enc outcomes i es) ≡ length es
  unfolding encode_entries
  length-encode_entries outcomes i [] = refl
  length-encode_entries outcomes i (e ∷ es) = ap suc (length-encode_entries outcomes (i + 1) es)

  module _ (dec : Read P) (reads : (p : P) → FitsP p → Reads dec (enc p) p) where
    with_outcome-Reads :
        (o : TuOutcome) (p : P)
        → Fits o.detail
        → FitsP p
        → Reads (with_outcome dec) (put_outcome o ++ enc p) (o, p)
    unfolding with_outcome
    with_outcome-Reads o p h f = Reads-bind _ (outcome-Reads o h) (Reads-last _ (reads p f))

    encode_entries-Goods :
        (outcomes : List TuOutcome) (i : ℕ) (es : List (List ℕ × P))
        → FitsEntries outcomes i es
        → Goods (with_outcome dec) (encode_entries enc outcomes i es) (listed outcomes i es)
    unfolding encode_entries listed FitsEntries
    encode_entries-Goods outcomes i [] h = done
    encode_entries-Goods outcomes i (e ∷ es) (a, b, c, d, later) =
        more
          (record {
            fits_tu = a;
            fits = d;
            same = refl;
            reads = with_outcome-Reads (outcome_at outcomes i) e.1 b c;
          })
          (encode_entries-Goods outcomes (i + 1) es later)

    read_shard-encode_entries :
        (magic : List ℕ) (outcomes : List TuOutcome) (es : List (List ℕ × P))
        → length magic ≡ 4
        → Fits es
        → FitsEntries outcomes 0 es
        → read_shard magic
            (with_outcome dec)
            (some (write_shard magic (encode_entries enc outcomes 0 es)))
          ≡ (true, listed outcomes 0 es)
    read_shard-encode_entries magic outcomes es l h g =
        read_shard-Goods (with_outcome dec) magic l
          (omega (arith, length-encode_entries outcomes 0 es))
          (encode_entries-Goods outcomes 0 es g)

-- If there are fewer than 2^32 entries and every field fits its width, readCheckIndexShard of the
-- bytes of writeCheckIndexShard succeeds and calls back, in order, with every file, its payload and
-- the outcome of the same position, or the skipped outcome where no outcome was given.
pub read_index_shard-write_index_shard :
    (tus : List (List ℕ × CheckIndexPayload)) (outcomes : List TuOutcome)
    → Fits tus
    → FitsEntries encode_index_payload FitsPayload outcomes 0 tus
    → read_index_shard (some (write_index_shard tus outcomes)) ≡ (true, listed outcomes 0 tus)
unfolding read_index_shard write_index_shard
read_index_shard-write_index_shard tus outcomes h g =
    read_shard-encode_entries encode_index_payload FitsPayload decode_index_payload payload-Reads
      index_shard_magic outcomes tus refl h g

-- If there are fewer than 2^32 entries and every field fits its width, readCheckDiagShard of the
-- bytes of writeCheckDiagShard succeeds and calls back, in order, with every file, its diagnostics
-- and the outcome of the same position, or the skipped outcome where no outcome was given.
pub read_diag_shard-write_diag_shard :
    (tus : List (List ℕ × List Diagnostic)) (outcomes : List TuOutcome)
    → Fits tus
    → FitsEntries encode_diagnostics FitsDiagnostics outcomes 0 tus
    → read_diag_shard (some (write_diag_shard tus outcomes)) ≡ (true, listed outcomes 0 tus)
unfolding read_diag_shard write_diag_shard
read_diag_shard-write_diag_shard tus outcomes h g =
    read_shard-encode_entries encode_diagnostics FitsDiagnostics decode_diagnostics
      diagnostics-Reads diag_shard_magic outcomes tus refl h g

-- If every field of a payload and its encoding fit their widths, readGlobalIndexFile of the bytes of
-- writeGlobalIndexFile succeeds and yields that payload once.
pub read_global_index_file-write_global_index_file :
    (p : CheckIndexPayload)
    → FitsPayload p
    → Fits (encode_index_payload p)
    → read_global_index_file (some (write_global_index_file p)) ≡ (true, (merged, p) ∷ [])
unfolding read_global_index_file write_global_index_file
read_global_index_file-write_global_index_file p h f =
    read_shard-Goods decode_index_payload global_index_magic refl (omega arith) (
      more (record { fits_tu = omega arith; fits = f; same = refl; reads = payload-Reads p h })
        done)
