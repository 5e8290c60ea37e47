-- ===== src/Base/Words.antt =====
-- Machine integers as natural numbers: the checked operations of `u64` and of `usize` on the
-- 64-bit target.
use Prim.Native.Nat.{ℕ, ◌+◌, ◌*◌, ◌^◌}
use mathlib.Core.List.{List}
use mathlib.Core.Option.{Option, none, some}
use lazers.Base.Tests.{ltb, if◌then◌else◌}

-- One more than `u64::MAX`.
abbrev pub word : ℕ
word = 2 ^ 64

abbrev pub checked_add : ℕ → ℕ → Option ℕ
checked_add a b = if ltb (a + b) word then some (a + b) else none

abbrev pub checked_mul : ℕ → ℕ → Option ℕ
checked_mul a b = if ltb (a * b) word then some (a * b) else none

abbrev pub Bytes : Type 0
Bytes = List ℕ
