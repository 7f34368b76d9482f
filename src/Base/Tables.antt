-- ===== src/Base/Tables.antt =====
-- What holds for every index of a table, found by evaluation.
use Prim.Native.Nat.{ℕ, zero, suc, ◌<◌}
use mathlib.Core.Path.{◌≡◌}
use mathlib.Core.Bool.{Bool, true, ◌&&◌}
use native.Mathlib.Omega.{arith}

-- The test holds at the first `size` indices.
unfoldable pub table_holds : (ℕ → Bool) → ℕ → Bool
table_holds test zero = true
table_holds test (suc size) = table_holds test size && test size

pub table_holds_lem :
    (test : ℕ → Bool) (size i : ℕ) → table_holds test size ≡ true → i < size → test i ≡ true
unfolding table_holds
table_holds_lem test zero i whole inside = absurd (omega arith)
table_holds_lem test (suc size) i whole inside =
    let before = table_holds_lem test size i in ground (arith, before)
