-- ===== src/GlobalIndex/Tests.antt =====
-- The index on concrete entries.
use vycor_cpp.Prelude.{◌≡◌, ◌↔◌, ◌⊎◌, true, false, List, [], ◌∷◌}
use vycor_cpp.Checkpoint.Entries.{CheckIndexPayload, OdrEntry}
use vycor_cpp.GlobalIndex.{no_entries, apply_to, absorb, add_each, capture}
use vycor_cpp.GlobalIndex.Types.{Name, TypeRelationIndex, is_base_or_self}
use vycor_cpp.GlobalIndex.Types.Bases.{Derives, is_base_or_self_lem}
use vycor_cpp.GlobalIndex.Restore.{apply_to-capture}

abbrev site : OdrEntry
site = record {
  qualified_name = b'f' ∷ [];
  signature = [];
  is_class = false;
  enclosing_class = [];
  file_path = b'h' ∷ [];
  line = 3;
  odr_hash = 12;
  tu_path = b'b' ∷ [];
}

abbrev seen_twice : CheckIndexPayload
seen_twice = record {
  overloads = [];
  guides = [];
  coverage = [];
  odr_entries = site ∷ record site { tu_path = b'a' ∷ [] } ∷ record site { line = 4 } ∷ [];
  specializations = [];
  default_args = [];
  static_inits = [];
  function_summaries = [];
  header_statics = [];
  exception_specs = [];
  base_edges = ((b'D' ∷ []), (b'B' ∷ [])) ∷ [];
  ctor_edges = [];
  conv_op_edges = [];
}

abbrev twice : List CheckIndexPayload
twice = seen_twice ∷ seen_twice ∷ []

apply_to-capture_example :
    (apply_to (capture (add_each apply_to twice no_entries)) no_entries
      ≡ add_each apply_to twice no_entries)
    × (apply_to (capture (add_each apply_to twice no_entries)) (apply_to seen_twice no_entries)
        ≡ absorb (add_each apply_to twice no_entries) (apply_to seen_twice no_entries))
apply_to-capture_example = apply_to-capture twice (apply_to seen_twice no_entries)

abbrev animals : TypeRelationIndex
animals = record {
  bases = ((b'D' ∷ []), (b'B' ∷ []) ∷ []) ∷ ((b'B' ∷ []), (b'A' ∷ []) ∷ (b'D' ∷ []) ∷ []) ∷ [];
  ctor_edges = [];
  conv_op_edges = [];
}

abbrev dog : Name
dog = b'D' ∷ []

abbrev animal : Name
animal = b'A' ∷ []

is_base_or_self_lem_example :
    is_base_or_self dog animal animals ≡ true ↔ (dog ≡ animal) ⊎ Derives animals.bases dog animal
is_base_or_self_lem_example = is_base_or_self_lem dog animal animals
