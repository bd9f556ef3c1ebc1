-- ===== src/Checkpoint/Shard/Tests.antt =====
-- Shard files on concrete entries.
use vycor_cpp.Prelude.{ℕ, ◌++◌, ◌≡◌, refl, true, false, some, List, [], ◌∷◌, arith}
use vycor_cpp.Checkpoint.Wire.{
  put_u8, put_u32, put_le, put_str, put_list, put_all, put_string_pairs,
}
use vycor_cpp.Checkpoint.Wire.Reads.{Fits}
use vycor_cpp.Checkpoint.Entries.{CheckIndexPayload}
use vycor_cpp.Checkpoint.Encode.{encode_index_payload, put_static_init}
use vycor_cpp.Checkpoint.Decode.{decode_index_payload}
use vycor_cpp.Checkpoint.Payload.{FitsPayload, payload-Reads}
use vycor_cpp.Checkpoint.Diagnostics.{
  nth, Diagnostic, put_outcome, status_code, encode_diagnostics, put_diagnostic, kind_code,
}
use vycor_cpp.Checkpoint.Findings.{FitsDiagnostics}
use vycor_cpp.Checkpoint.Samples.{contribution, hazard, clean}
use vycor_cpp.Checkpoint.Shard.{
  shard_version, global_index_magic, put_entry, read_shard, outcome_at, write_index_shard,
  read_index_shard, merged,
}
use vycor_cpp.Checkpoint.Shard.Entry.{Goods, done, more}
use vycor_cpp.Checkpoint.Shard.RoundTrip.{listed, FitsEntries, read_index_shard-write_index_shard}
use vycor_cpp.Checkpoint.Shard.Damage.{read_entry-nil, read_shard-damaged}

abbrev unit_a : List (List ℕ × CheckIndexPayload)
unit_a = ((b'a' ∷ []), contribution) ∷ ((b'b' ∷ []), contribution) ∷ []

unit_a-Fits : FitsEntries encode_index_payload FitsPayload (clean ∷ []) 0 unit_a
unfolding FitsEntries outcome_at put_outcome status_code encode_index_payload put_static_init
    put_list put_all put_string_pairs put_str put_u8 put_u32 put_le nth
unit_a-Fits = omega arith

read_index_shard-write_index_shard_example :
    read_index_shard (some (write_index_shard unit_a (clean ∷ [])))
    ≡ (true, listed (clean ∷ []) 0 unit_a)
read_index_shard-write_index_shard_example =
    read_index_shard-write_index_shard unit_a (clean ∷ []) (omega arith) unit_a-Fits

abbrev findings_a : List (List ℕ × List Diagnostic)
findings_a = ((b'a' ∷ []), hazard ∷ []) ∷ []

findings_a-Fits : FitsEntries encode_diagnostics FitsDiagnostics (clean ∷ []) 0 findings_a
unfolding FitsEntries outcome_at put_outcome status_code encode_diagnostics put_diagnostic kind_code
    put_list put_all put_str put_u8 put_u32 put_le nth
findings_a-Fits = omega arith

contribution-Fits : FitsPayload contribution
contribution-Fits = omega arith

encoded-Fits : Fits (encode_index_payload contribution)
unfolding encode_index_payload put_static_init put_list put_all put_string_pairs put_str put_u8
    put_u32 put_le nth
encoded-Fits = omega arith

-- One good entry, and nothing where the second one should be.
one_entry :
    Goods decode_index_payload
      ((merged, encode_index_payload contribution) ∷ [])
      ((merged, contribution) ∷ [])
one_entry =
    more
      (record {
        fits_tu = omega arith;
        fits = encoded-Fits;
        same = refl;
        reads = payload-Reads contribution contribution-Fits;
      })
      done

read_shard-damaged_example :
    read_shard global_index_magic decode_index_payload (
      some (
        global_index_magic
        ++ (put_u32 shard_version
            ++ (put_u32 2
                ++ (put_all put_entry ((merged, encode_index_payload contribution) ∷ []) ++ [])))))
    ≡ (false, (merged, contribution) ∷ [])
read_shard-damaged_example =
    read_shard-damaged decode_index_payload global_index_magic [] 2 0
      ((merged, encode_index_payload contribution) ∷ []) ((merged, contribution) ∷ []) refl
      (omega arith) refl one_entry (read_entry-nil decode_index_payload)
