-- ===== src/Checkpoint/Shard.antt =====
-- src/check/Checkpoint.cpp, the shard files: what a worker process writes and its parent reads. A
-- written file is its bytes. What a reader's callbacks see is the list of the entries in order.
pub mod Entry
pub mod RoundTrip
pub mod Damage
mod Tests
use vycor_cpp.Prelude.{
  ℕ, zero, suc, ◌+◌, ◌%◌, ◌^◌, Bool, true, false, ◌&&◌, Option, none, some, List, [], ◌∷◌, ◌++◌,
  length, take, drop, leb, ◌==◌, list_eq, if◌then◌else◌,
}
use vycor_cpp.Checkpoint.Wire.{
  Reader, Read, ◌>>=◌, ret, u32, str, put_u32, put_str, put_list, put_all, fnv32,
}
use vycor_cpp.Checkpoint.Entries.{CheckIndexPayload}
use vycor_cpp.Checkpoint.Encode.{encode_index_payload}
use vycor_cpp.Checkpoint.Decode.{decode_index_payload}
use vycor_cpp.Checkpoint.Diagnostics.{
  TuOutcome, skipped, Diagnostic, nth, put_outcome, read_outcome, encode_diagnostics,
  decode_diagnostics,
}
use vycor_cpp.Checkpoint.Journal.{accept_payload, sealed_bytes}

abbrev pub shard_version : ℕ
shard_version = 11

abbrev pub index_shard_magic : List ℕ
index_shard_magic = b'V' ∷ b'Y' ∷ b'A' ∷ b'I' ∷ []

abbrev pub diag_shard_magic : List ℕ
diag_shard_magic = b'V' ∷ b'Y' ∷ b'A' ∷ b'D' ∷ []

abbrev pub global_index_magic : List ℕ
global_index_magic = b'V' ∷ b'Y' ∷ b'G' ∷ b'I' ∷ []

-- A file and the bytes of its payload.
pub put_entry : List ℕ × List ℕ → List ℕ
put_entry (tu, payload) =
    put_str tu ++ (put_u32 (length payload % 2 ^ 32) ++ (payload ++ put_u32 (fnv32 payload)))

pub write_shard : List ℕ → List (List ℕ × List ℕ) → List ℕ
write_shard magic entries = magic ++ (put_u32 shard_version ++ put_list put_entry entries)

-- The payload has its own reader: bytes that it leaves over are not looked at.
pub decode_payload {ℓ} : {A : Type ℓ} → Read A → List ℕ → Read A
decode_payload dec payload r =
    let (a, r') = dec (record { rest = payload; ok = true }) in
    if r'.ok then (a, r) else (a, record r { ok = false })

pub read_entry {ℓ} : {A : Type ℓ} → Read A → Read (List ℕ × A)
read_entry dec = do
  tu ← str
  len ← u32
  payload ← sealed_bytes len
  a ← decode_payload dec payload
  ret (tu, a)

-- The callback has seen the entries before the first one that fails.
pub shard_loop {ℓ} : {A : Type ℓ} → Read A → ℕ → Read (List (List ℕ × A))
shard_loop dec zero r = ([], r)
shard_loop dec (suc n) r =
    let (e, r') = read_entry dec r in
    elim r'.ok [
      | true ↦ let (later, r'') = shard_loop dec n r' in (e ∷ later, r'')
      | false ↦ ([], r')
    ]

pub accept_version : ℕ → Read ℕ
accept_version v r = if v == shard_version then (v, r) else (v, record r { ok = false })

pub read_entries {ℓ} : {A : Type ℓ} → Read A → Read (List (List ℕ × A))
read_entries dec = do v ← u32; _ ← accept_version v; n ← u32; shard_loop dec n

-- `readShardFile`: what it returns, and the entries that the callback has seen.
pub read_shard {ℓ} : {A : Type ℓ} → List ℕ → Read A → Option (List ℕ) → Bool × List (List ℕ × A)
read_shard magic dec none = (false, [])
read_shard magic dec (some buf) =
    let (entries, r) = read_entries dec (record { rest = drop 4 buf; ok = true }) in
    if leb 8 (length buf) && list_eq (take 4 buf) magic then (r.ok, entries) else (false, [])

-- "no outcome reported"
abbrev no_outcome_text : List ℕ
no_outcome_text =
    b'n' ∷ b'o' ∷ b' ' ∷ b'o' ∷ b'u' ∷ b't' ∷ b'c' ∷ b'o' ∷ b'm' ∷ b'e' ∷ b' ' ∷ b'r' ∷ b'e' ∷ b'p'
    ∷ b'o' ∷ b'r' ∷ b't' ∷ b'e' ∷ b'd' ∷ []

abbrev pub no_outcome : TuOutcome
no_outcome = record { status = skipped; detail = no_outcome_text }

unfoldable pub outcome_at : List TuOutcome → ℕ → TuOutcome
outcome_at outcomes i = elim (nth outcomes i) [ some o ↦ o | none ↦ no_outcome ]

-- The loop from entry `i` on.
unfoldable pub encode_entries {ℓ} :
    {P : Type ℓ} → (P → List ℕ) → List TuOutcome → ℕ → List (List ℕ × P) → List (List ℕ × List ℕ)
encode_entries enc outcomes i [] = []
encode_entries enc outcomes i ((tu, p) ∷ tus) =
    (tu, put_outcome (outcome_at outcomes i) ++ enc p) ∷ encode_entries enc outcomes (i + 1) tus

pub write_index_shard : List (List ℕ × CheckIndexPayload) → List TuOutcome → List ℕ
write_index_shard tus outcomes =
    write_shard index_shard_magic (encode_entries encode_index_payload outcomes 0 tus)

pub write_diag_shard : List (List ℕ × List Diagnostic) → List TuOutcome → List ℕ
write_diag_shard tus outcomes =
    write_shard diag_shard_magic (encode_entries encode_diagnostics outcomes 0 tus)

-- An entry's outcome, and then what it holds.
pub with_outcome {ℓ} : {P : Type ℓ} → Read P → Read (TuOutcome × P)
with_outcome dec = do outcome ← read_outcome; p ← dec; ret (outcome, p)

pub read_index_shard : Option (List ℕ) → Bool × List (List ℕ × (TuOutcome × CheckIndexPayload))
read_index_shard = read_shard index_shard_magic (with_outcome decode_index_payload)

pub read_diag_shard : Option (List ℕ) → Bool × List (List ℕ × (TuOutcome × List Diagnostic))
read_diag_shard = read_shard diag_shard_magic (with_outcome decode_diagnostics)

abbrev pub merged : List ℕ
merged = b'<' ∷ b'm' ∷ b'e' ∷ b'r' ∷ b'g' ∷ b'e' ∷ b'd' ∷ b'>' ∷ []

-- `CheckIndexPayload::capture` and `applyTo` stand outside: the payload is what the index holds.
pub write_global_index_file : CheckIndexPayload → List ℕ
write_global_index_file p = write_shard global_index_magic ((merged, encode_index_payload p) ∷ [])

pub read_global_index_file : Option (List ℕ) → Bool × List (List ℕ × CheckIndexPayload)
read_global_index_file = read_shard global_index_magic decode_index_payload
