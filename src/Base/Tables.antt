-- ===== src/Base/Tables.antt =====
-- Checking a property of every small number by evaluation.
use Prim.Native.Nat.{ℕ, zero, suc, ◌<◌}
use mathlib.Core.Path.{◌≡◌}
use mathlib.Core.Bool.{Bool, true, false, ◌&&◌}
use native.Mathlib.Omega.{arith}

unfoldable pub all_below : (ℕ → Bool) → ℕ → Bool
all_below p zero = true
all_below p (suc limit) = all_below p limit && p limit

pub all_below_sound :
    (p : ℕ → Bool) (limit i : ℕ) → i < limit → all_below p limit ≡ true → p i ≡ true
unfolding all_below
all_below_sound p zero i below passed = absurd (omega arith)
all_below_sound p (suc limit) i below passed = ground (arith, all_below_sound p limit i)

abbrev pub bool_eq : Bool → Bool → Bool
bool_eq true b = b
bool_eq false true = false
bool_eq false false = true
