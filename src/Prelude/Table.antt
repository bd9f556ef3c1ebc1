-- ===== src/Prelude/Table.antt =====
-- A Boolean fact about every number of a small range, checked by evaluation.
use Prim.Native.Nat.{ℕ, zero, suc, ◌<◌}
use mathlib.Core.Path.{◌≡◌}
use mathlib.Core.Bool.{Bool, true, ◌&&◌}
use native.Mathlib.Omega.{arith}

-- The table of `test` has no false row before row `rows`.
unfoldable pub table_holds : (ℕ → Bool) → ℕ → Bool
table_holds test zero = true
table_holds test (suc rows) = let earlier = table_holds test rows in test rows && earlier

-- So every row can be looked up.
pub table_row :
    (test : ℕ → Bool) (rows : ℕ)
    → table_holds test rows ≡ true
    → (row : ℕ) → row < rows
    → test row ≡ true
unfolding table_holds
table_row test zero h row below = absurd (omega arith)
table_row test (suc rows) h row below =
    let earlier : table_holds test rows ≡ true → row < rows → test row ≡ true =
      λ e b. table_row test rows e row b in
    ground (arith, earlier)
