-- ===== src/GlobalIndex/Types.antt =====
-- src/check/GlobalIndex.cpp, class TypeRelationIndex: which types derive from and convert to which.
pub mod Bases
use vycor_cpp.Prelude.{
  ℕ, zero, suc, ◌+◌, Bool, true, false, not, ◌&&◌, Option, none, some, List, [], ◌∷◌, ◌++◌, length,
  list_eq, if◌then◌else◌,
}

abbrev pub Name : Type 0
Name = List ℕ

abbrev pub Buckets {ℓ} : Type ℓ → Type ℓ
Buckets A = List (List ℕ × List A)

-- m[key].push_back(e)
unfoldable pub push_at {ℓ} : {A : Type ℓ} → List ℕ → A → Buckets A → Buckets A
push_at key e [] = (key, e ∷ []) ∷ []
push_at key e ((k, es) ∷ m) =
    let later = push_at key e m in
    if list_eq key k then (k, es ++ (e ∷ [])) ∷ m else (k, es) ∷ later

unfoldable pub found_at {ℓ} : {A : Type ℓ} → List ℕ → Buckets A → List A
found_at key [] = []
found_at key ((k, es) ∷ m) = let later = found_at key m in if list_eq key k then es else later

-- All the entries, key by key.
unfoldable pub all_of {ℓ} : {A : Type ℓ} → Buckets A → List A
all_of [] = []
all_of ((k, es) ∷ m) = es ++ all_of m

-- std::find
unfoldable pub mem : Name → List Name → Bool
mem x [] = false
mem x (y ∷ ys) = let later = mem x ys in if list_eq x y then true else later

unfoldable pub push_new : Name → List Name → List Name
push_new x ys = if mem x ys then ys else ys ++ (x ∷ [])

unfoldable pub add_edge : Name → Name → Buckets Name → Buckets Name
add_edge key x [] = (key, x ∷ []) ∷ []
add_edge key x ((k, xs) ∷ m) =
    let later = add_edge key x m in
    if list_eq key k then (k, push_new x xs) ∷ m else (k, xs) ∷ later

unfoldable pub pairs_of : Name → List Name → List (Name × Name)
pairs_of k [] = []
pairs_of k (x ∷ xs) = (k, x) ∷ pairs_of k xs

-- `forEachBase` and the two like it.
unfoldable pub for_each_edge : Buckets Name → List (Name × Name)
for_each_edge [] = []
for_each_edge ((k, xs) ∷ m) = pairs_of k xs ++ for_each_edge m

pub record TypeRelationIndex : Type 0 where
  pub bases : Buckets Name
  pub ctor_edges : Buckets Name
  pub conv_op_edges : Buckets Name

abbrev pub no_relations : TypeRelationIndex
no_relations = record { bases = []; ctor_edges = []; conv_op_edges = [] }

unfoldable pub add_base : Name → Name → TypeRelationIndex → TypeRelationIndex
add_base derived base t = record t { bases = add_edge derived base t.bases }

unfoldable pub add_ctor_edge : Name → Name → TypeRelationIndex → TypeRelationIndex
add_ctor_edge to_type from_type t = record t {
  ctor_edges = add_edge to_type from_type t.ctor_edges;
}

unfoldable pub add_conv_op_edge : Name → Name → TypeRelationIndex → TypeRelationIndex
add_conv_op_edge from_type to_type t = record t {
  conv_op_edges = add_edge from_type to_type t.conv_op_edges;
}

-- One call of the given `add` for every edge.
unfoldable pub add_edges :
    (Name → Name → TypeRelationIndex → TypeRelationIndex)
    → List (Name × Name)
    → TypeRelationIndex
    → TypeRelationIndex
add_edges add [] t = t
add_edges add ((a, b) ∷ es) t = add_edges add es (add a b t)

unfoldable pub absorb_relations : TypeRelationIndex → TypeRelationIndex → TypeRelationIndex
absorb_relations other t = add_edges add_conv_op_edge (for_each_edge other.conv_op_edges) (
    add_edges add_ctor_edge (for_each_edge other.ctor_edges)
      (add_edges add_base (for_each_edge other.bases) t))

-- Every edge is pushed at most once, so this is fuel enough for the search, with two more.
unfoldable pub edge_count : Buckets Name → ℕ
edge_count [] = 0
edge_count ((k, xs) ∷ m) = length xs + edge_count m

-- for (SId b : it->second) { ...; stack.push_back(b); }
unfoldable pub push_all : List Name → List Name → List Name
push_all [] stack = stack
push_all (x ∷ xs) stack = push_all xs (x ∷ stack)

-- The stack has its top first. A name without an entry has no base.
unfoldable pub search_bases : ℕ → Buckets Name → Name → List Name → List Name → Bool
search_bases zero m base seen stack = false
search_bases (suc fuel) m base seen [] = false
search_bases (suc fuel) m base seen (cur ∷ stack) = elim (mem cur seen) [
  | true ↦ search_bases fuel m base seen stack
  | false ↦ elim (mem base (found_at cur m)) [
    | true ↦ true
    | false ↦ search_bases fuel m base (cur ∷ seen) (push_all (found_at cur m) stack)
  ]
]

unfoldable pub is_base_or_self : Name → Name → TypeRelationIndex → Bool
is_base_or_self derived maybe_base t =
    let later =
      search_bases (suc (suc (edge_count t.bases))) t.bases maybe_base [] (derived ∷ []) in
    if list_eq derived maybe_base then true else later

-- '*' at the end.
unfoldable pub ends_in_star : Name → Bool
ends_in_star [] = false
ends_in_star (x ∷ []) = list_eq (x ∷ []) (b'*' ∷ [])
ends_in_star (x ∷ y ∷ s) = ends_in_star (y ∷ s)

unfoldable pub pop_back : Name → Name
pop_back [] = []
pop_back (x ∷ []) = []
pop_back (x ∷ y ∷ s) = x ∷ pop_back (y ∷ s)

unfoldable pub strip_pointer : Name → Name
strip_pointer s = if ends_in_star s then pop_back s else s

-- The derived-to-base step: both or neither lose a '*'.
unfoldable pub converts_to_base : Name → Name → TypeRelationIndex → Bool
converts_to_base from to t =
    let from_class = strip_pointer from in
    let to_class = strip_pointer to in
    let from_same = list_eq from_class from in
    let to_same = list_eq to_class to in
    let base = is_base_or_self from_class to_class t in
    if not (from_same && to_same)
    then (not from_same && not to_same) && base
    else base && not (list_eq from_class to_class)

-- The names of the builtin arithmetic types.
abbrev arithmetic_names : List Name
arithmetic_names =
    (b'b' ∷ b'o' ∷ b'o' ∷ b'l' ∷ [])
    ∷ (b'c' ∷ b'h' ∷ b'a' ∷ b'r' ∷ [])
    ∷ (b's' ∷ b'i' ∷ b'g' ∷ b'n' ∷ b'e' ∷ b'd' ∷ b'c' ∷ b'h' ∷ b'a' ∷ b'r' ∷ [])
    ∷ (b'u' ∷ b'n' ∷ b's' ∷ b'i' ∷ b'g' ∷ b'n' ∷ b'e' ∷ b'd' ∷ b'c' ∷ b'h' ∷ b'a' ∷ b'r' ∷ [])
    ∷ (b'w' ∷ b'c' ∷ b'h' ∷ b'a' ∷ b'r' ∷ b'_' ∷ b't' ∷ [])
    ∷ (b'c' ∷ b'h' ∷ b'a' ∷ b'r' ∷ b'8' ∷ b'_' ∷ b't' ∷ [])
    ∷ (b'c' ∷ b'h' ∷ b'a' ∷ b'r' ∷ b'1' ∷ b'6' ∷ b'_' ∷ b't' ∷ [])
    ∷ (b'c' ∷ b'h' ∷ b'a' ∷ b'r' ∷ b'3' ∷ b'2' ∷ b'_' ∷ b't' ∷ [])
    ∷ (b's' ∷ b'h' ∷ b'o' ∷ b'r' ∷ b't' ∷ [])
    ∷ (b's' ∷ b'h' ∷ b'o' ∷ b'r' ∷ b't' ∷ b'i' ∷ b'n' ∷ b't' ∷ [])
    ∷ (b'u' ∷ b'n' ∷ b's' ∷ b'i' ∷ b'g' ∷ b'n' ∷ b'e' ∷ b'd' ∷ b's' ∷ b'h' ∷ b'o' ∷ b'r' ∷ b't'
        ∷ [])
    ∷ (b'u' ∷ b'n' ∷ b's' ∷ b'i' ∷ b'g' ∷ b'n' ∷ b'e' ∷ b'd' ∷ b's' ∷ b'h' ∷ b'o' ∷ b'r' ∷ b't'
        ∷ b'i' ∷ b'n' ∷ b't' ∷ [])
    ∷ (b'i' ∷ b'n' ∷ b't' ∷ [])
    ∷ (b'u' ∷ b'n' ∷ b's' ∷ b'i' ∷ b'g' ∷ b'n' ∷ b'e' ∷ b'd' ∷ [])
    ∷ (b'u' ∷ b'n' ∷ b's' ∷ b'i' ∷ b'g' ∷ b'n' ∷ b'e' ∷ b'd' ∷ b'i' ∷ b'n' ∷ b't' ∷ [])
    ∷ (b'l' ∷ b'o' ∷ b'n' ∷ b'g' ∷ [])
    ∷ (b'l' ∷ b'o' ∷ b'n' ∷ b'g' ∷ b'i' ∷ b'n' ∷ b't' ∷ [])
    ∷ (b'u' ∷ b'n' ∷ b's' ∷ b'i' ∷ b'g' ∷ b'n' ∷ b'e' ∷ b'd' ∷ b'l' ∷ b'o' ∷ b'n' ∷ b'g' ∷ [])
    ∷ (b'u' ∷ b'n' ∷ b's' ∷ b'i' ∷ b'g' ∷ b'n' ∷ b'e' ∷ b'd' ∷ b'l' ∷ b'o' ∷ b'n' ∷ b'g' ∷ b'i'
        ∷ b'n' ∷ b't' ∷ [])
    ∷ (b'l' ∷ b'o' ∷ b'n' ∷ b'g' ∷ b'l' ∷ b'o' ∷ b'n' ∷ b'g' ∷ [])
    ∷ (b'l' ∷ b'o' ∷ b'n' ∷ b'g' ∷ b'l' ∷ b'o' ∷ b'n' ∷ b'g' ∷ b'i' ∷ b'n' ∷ b't' ∷ [])
    ∷ (b'u' ∷ b'n' ∷ b's' ∷ b'i' ∷ b'g' ∷ b'n' ∷ b'e' ∷ b'd' ∷ b'l' ∷ b'o' ∷ b'n' ∷ b'g' ∷ b'l'
        ∷ b'o' ∷ b'n' ∷ b'g' ∷ [])
    ∷ (b'u' ∷ b'n' ∷ b's' ∷ b'i' ∷ b'g' ∷ b'n' ∷ b'e' ∷ b'd' ∷ b'l' ∷ b'o' ∷ b'n' ∷ b'g' ∷ b'l'
        ∷ b'o' ∷ b'n' ∷ b'g' ∷ b'i' ∷ b'n' ∷ b't' ∷ [])
    ∷ (b'f' ∷ b'l' ∷ b'o' ∷ b'a' ∷ b't' ∷ [])
    ∷ (b'd' ∷ b'o' ∷ b'u' ∷ b'b' ∷ b'l' ∷ b'e' ∷ [])
    ∷ (b'l' ∷ b'o' ∷ b'n' ∷ b'g' ∷ b'd' ∷ b'o' ∷ b'u' ∷ b'b' ∷ b'l' ∷ b'e' ∷ [])
    ∷ []

unfoldable pub is_arithmetic_type_name : Name → Bool
is_arithmetic_type_name name = mem name arithmetic_names

unfoldable pub is_convertible : Name → Name → TypeRelationIndex → Bool
is_convertible from to t =
    let base = converts_to_base from to t in
    let by_ctor = mem from (found_at to t.ctor_edges) in
    let by_conversion = mem to (found_at from t.conv_op_edges) in
    if list_eq from to
    then true
    else if is_arithmetic_type_name from && is_arithmetic_type_name to
    then true
    else if base
    then true
    else if by_ctor
    then true
    else by_conversion
