-- ===== src/Analyzer/Tests.antt =====
-- Phase 1 on concrete files.
use vycor_cpp.Prelude.{ℕ, ◌≡◌, refl, true, Option, some, List, [], ◌∷◌, map, arith}
use vycor_cpp.Checkpoint.Wire.{
  put_u8, put_u32, put_le, put_str, put_list, put_all, put_string_pairs,
}
use vycor_cpp.Checkpoint.Encode.{encode_index_payload, put_static_init}
use vycor_cpp.Checkpoint.Payload.{FitsPayload}
use vycor_cpp.Checkpoint.Diagnostics.{nth, put_outcome, status_code}
use vycor_cpp.Checkpoint.Samples.{contribution, clean}
use vycor_cpp.Checkpoint.Journal.{FileStamp}
use vycor_cpp.Checkpoint.Shard.{outcome_at, write_index_shard}
use vycor_cpp.Checkpoint.Shard.RoundTrip.{FitsEntries}
use vycor_cpp.GlobalIndex.{
  no_entries, add_each, add_entries, with_types, capture, apply_to, add_static_init,
}
use vycor_cpp.GlobalIndex.Entries.{merge_at}
use vycor_cpp.GlobalIndex.Types.{add_edge, add_base, all_of, pairs_of, for_each_edge}
use vycor_cpp.Analyzer.{PhaseOne, TuParse, take_shard, index_file}
use vycor_cpp.Analyzer.Isolated.{captured, outcome_of, Same, take_shard-Same}

abbrev nothing : PhaseOne
nothing = record { index = no_entries; calls = []; noted = [] }

abbrev unit_a : TuParse
unit_a = record { file = b'a' ∷ []; additions = contribution ∷ []; outcome = clean }

abbrev unit_b : TuParse
unit_b = record { file = b'b' ∷ []; additions = contribution ∷ []; outcome = clean }

abbrev units : List TuParse
units = unit_a ∷ unit_b ∷ []

abbrev stamp_for : List ℕ → Option FileStamp
stamp_for tu = some (record { path = tu; mtime_ns = 5; size = 300 })

units-Fits :
    FitsEntries encode_index_payload FitsPayload (map outcome_of units) 0 (map captured units)
unfolding FitsEntries outcome_at put_outcome status_code encode_index_payload put_static_init
    put_list put_all put_string_pairs put_str put_u8 put_u32 put_le nth add_each add_entries
    with_types capture apply_to add_static_init merge_at add_edge add_base all_of pairs_of
    for_each_edge
units-Fits = omega arith

take_shard-Same_example :
    (t : PhaseOne) × (take_shard stamp_for
        (some (write_index_shard (map captured units) (map outcome_of units)))
        nothing
      ≡ (true, t))
    × Same t (add_each (index_file stamp_for) units nothing)
take_shard-Same_example =
    take_shard-Same stamp_for units nothing
      (
        (record { path = b'a' ∷ []; mtime_ns = 5; size = 300 }, refl),
        ((record { path = b'b' ∷ []; mtime_ns = 5; size = 300 }, refl), tt),
      )
      (omega arith) units-Fits
