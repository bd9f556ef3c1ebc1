-- ===== src/Checkpoint/Flags.antt =====
-- The flag bytes and the fields of one byte or word.
use vycor_cpp.Prelude.{
  ℕ, ◌^◌, ◌<◌, ◌≡◌, refl, subst, Bool, true, false, not, ◌&&◌, leb, bit_or, arith,
}
use vycor_cpp.Prelude.Int.{ℤ, to_u32, of_u32, IsInt32, of_u32-to_u32, to_u32_lt}
use vycor_cpp.Checkpoint.Wire.{put_u32}
use vycor_cpp.Checkpoint.Wire.Reads.{Reads, Reads-last, u8-Reads, u32-Reads}
use vycor_cpp.Checkpoint.Entries.{CoveragePropertyEntry, StaticInitEntry, FunctionSummaryEntry}
use vycor_cpp.Checkpoint.Encode.{
  put_bool, flag, coverage_flags, static_init_flags, function_summary_flags,
}
use vycor_cpp.Checkpoint.Decode.{read_bool, read_int, has_flag}

abbrev Bool_eq : Bool → Bool → Bool
Bool_eq true b = b
Bool_eq false b = not b

Bool_eq→eq : (a b : Bool) → Bool_eq a b ≡ true → a ≡ b
Bool_eq→eq a b h = ground arith

-- A test that passes for both values of a Boolean.
both : (Bool → Bool) → Bool
both p = p true && p false

both_sound : (p : Bool → Bool) → both p ≡ true → (b : Bool) → p b ≡ true
unfolding both
both_sound p h true = ground arith
both_sound p h false = ground arith

pub bool-Reads : (b : Bool) → Reads read_bool (put_bool b) b
unfolding read_bool put_bool
bool-Reads true = Reads-last _ (u8-Reads 1 (omega arith))
bool-Reads false = Reads-last _ (u8-Reads 0 (omega arith))

pub int-Reads : (i : ℤ) → IsInt32 i → Reads read_int (put_u32 (to_u32 i)) i
unfolding read_int
int-Reads i h =
    subst (Reads read_int (put_u32 (to_u32 i))) (of_u32-to_u32 i h)
      (Reads-last of_u32 (u32-Reads (to_u32 i) (to_u32_lt i)))

abbrev flags_seven : Bool → Bool → Bool → Bool → Bool → Bool → Bool → ℕ
flags_seven a b c d e f g =
    bit_or
      (bit_or
        (bit_or (bit_or (bit_or (bit_or (flag a 0x01) (flag b 0x02)) (flag c 0x04)) (flag d 0x08))
          (flag e 0x10))
        (flag f 0x20))
      (flag g 0x40)

-- Every flag can be read back from the byte.
abbrev check_seven : Bool → Bool → Bool → Bool → Bool → Bool → Bool → Bool
check_seven a b c d e f g =
    Bool_eq (has_flag (flags_seven a b c d e f g) 0x01) a
    && Bool_eq (has_flag (flags_seven a b c d e f g) 0x02) b
    && Bool_eq (has_flag (flags_seven a b c d e f g) 0x04) c
    && Bool_eq (has_flag (flags_seven a b c d e f g) 0x08) d
    && Bool_eq (has_flag (flags_seven a b c d e f g) 0x10) e
    && Bool_eq (has_flag (flags_seven a b c d e f g) 0x20) f
    && Bool_eq (has_flag (flags_seven a b c d e f g) 0x40) g
    && not (Bool_eq (leb (flags_seven a b c d e f g) 0xFF) false)

table_seven :
    both (λ a.
      both (λ b.
        both (λ c. both (λ d. both (λ e. both (λ f. both (λ g. check_seven a b c d e f g)))))))
    ≡ true
unfolding both flag has_flag
table_seven = refl

check_seven-true : (a b c d e f g : Bool) → check_seven a b c d e f g ≡ true
check_seven-true a b c d e f g =
    both_sound _
      (both_sound _
        (both_sound _
          (both_sound _ (both_sound _ (both_sound _ (both_sound _ (table_seven) a) b) c) d) e)
        f)
      g

pub coverage_flags_lt : (e : CoveragePropertyEntry) → coverage_flags e < 2 ^ 8
unfolding coverage_flags
coverage_flags_lt e = ground (
  arith,
  check_seven-true e.is_inlined e.is_constexpr e.is_defaulted e.is_trivial e.is_virtual
      e.is_static_method e.is_implicitly_instantiable,
)

pub coverage_flags_read :
    (e : CoveragePropertyEntry)
    → record e {
      is_inlined = has_flag (coverage_flags e) 0x01;
      is_constexpr = has_flag (coverage_flags e) 0x02;
      is_defaulted = has_flag (coverage_flags e) 0x04;
      is_trivial = has_flag (coverage_flags e) 0x08;
      is_virtual = has_flag (coverage_flags e) 0x10;
      is_static_method = has_flag (coverage_flags e) 0x20;
      is_implicitly_instantiable = has_flag (coverage_flags e) 0x40;
    }
      ≡ e
unfolding coverage_flags
coverage_flags_read e = ground (
  arith,
  check_seven-true e.is_inlined e.is_constexpr e.is_defaulted e.is_trivial e.is_virtual
      e.is_static_method e.is_implicitly_instantiable,
)

abbrev flags_two : Bool → Bool → ℕ
flags_two a b = bit_or (flag a 0x01) (flag b 0x02)

-- Every flag can be read back from the byte.
abbrev check_two : Bool → Bool → Bool
check_two a b =
    Bool_eq (has_flag (flags_two a b) 0x01) a
    && Bool_eq (has_flag (flags_two a b) 0x02) b
    && not (Bool_eq (leb (flags_two a b) 0xFF) false)

table_two : both (λ a. both (λ b. check_two a b)) ≡ true
unfolding both flag has_flag
table_two = refl

check_two-true : (a b : Bool) → check_two a b ≡ true
check_two-true a b = both_sound _ (both_sound _ (table_two) a) b

pub static_init_flags_lt : (e : StaticInitEntry) → static_init_flags e < 2 ^ 8
unfolding static_init_flags
static_init_flags_lt e = ground (arith, check_two-true e.dynamic_init e.is_constructor_fn)

pub static_init_flags_read :
    (e : StaticInitEntry)
    → record e {
      dynamic_init = has_flag (static_init_flags e) 0x01;
      is_constructor_fn = has_flag (static_init_flags e) 0x02;
    }
      ≡ e
unfolding static_init_flags
static_init_flags_read e = ground (arith, check_two-true e.dynamic_init e.is_constructor_fn)

pub function_summary_flags_lt : (e : FunctionSummaryEntry) → function_summary_flags e < 2 ^ 8
unfolding function_summary_flags
function_summary_flags_lt e = ground (arith, check_two-true e.is_noexcept e.has_uncaught_throw)

pub function_summary_flags_read :
    (e : FunctionSummaryEntry)
    → record e {
      is_noexcept = has_flag (function_summary_flags e) 0x01;
      has_uncaught_throw = has_flag (function_summary_flags e) 0x02;
    }
      ≡ e
unfolding function_summary_flags
function_summary_flags_read e = ground (arith, check_two-true e.is_noexcept e.has_uncaught_throw)
