-- ===== src/Base/Table.antt =====
-- Facts about bits over a small range, checked value by value.
use Prim.Native.Nat.{ℕ, zero, suc, ◌<◌}
use mathlib.Core.Path.{◌≡◌}
use mathlib.Core.Bool.{Bool, true, false}
use native.Mathlib.Omega.{arith}
use ius.Base.Tests.{if◌then◌else◌}

unfoldable pub all_below : (ℕ → Bool) → ℕ → Bool
all_below test zero = true
all_below test (suc top) = let lower = all_below test top in if test top then lower else false

pub all_below_sound :
    (test : ℕ → Bool) (top n : ℕ) → n < top → all_below test top ≡ true → test n ≡ true
unfolding all_below
all_below_sound test (suc top) n lt h = ground (arith, all_below_sound test top n)
all_below_sound test zero n lt h = absurd (omega arith)
