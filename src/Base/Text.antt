-- ===== src/Base/Text.antt =====
-- Byte strings: equality, membership, and the test for a leading slash. A `&str` is the list of its
-- bytes; the programs here never split a character.
use Prim.Native.Nat.{ℕ, zero, suc, ◌+◌, ◌/◌, ◌%◌}
use Prim.Native.Char.{code}
use Prim.Native.String.{String}
use mathlib.Core.Path.{◌≡◌, refl}
use mathlib.Core.Logic.{◌↔◌}
use mathlib.Core.Bool.{Bool, true, false, ◌&&◌, ◌||◌}
use mathlib.Core.List.{List, [], ◌∷◌}
use mathlib.Core.Option.{Option, none, some}
use native.Mathlib.Omega.{arith}
use lazers.Base.Tests.{◌==◌, leb, ltb, if◌then◌else◌}
use lazers.Base.Words.{Bytes}

unfoldable pub equal : Bytes → Bytes → Bool
equal [] [] = true
equal (x ∷ xs) (y ∷ ys) = x == y && equal xs ys
equal _ _ = false

unfoldable pub contains : ℕ → Bytes → Bool
contains b [] = false
contains b (x ∷ xs) = x == b || contains b xs

unfoldable pub starts_with : ℕ → Bytes → Bool
starts_with b [] = false
starts_with b (x ∷ xs) = x == b

abbrev pub is_nil {ℓ} : {A : Type ℓ} → List A → Bool
is_nil [] = true
is_nil (x ∷ xs) = false

pub equal_iff : (xs ys : Bytes) → (equal xs ys ≡ true) ↔ (xs ≡ ys)
unfolding equal
equal_iff [] [] = ground arith
equal_iff [] (y ∷ ys) = ground arith
equal_iff (x ∷ xs) [] = ground arith
equal_iff (x ∷ xs) (y ∷ ys) = ground (arith, equal_iff xs ys)

pub equal_self : (a : Bytes) → equal a a ≡ true
equal_self a = (equal_iff a a).1 refl

-- The bytes of an ASCII literal.
abbrev pub codes : String → Bytes
codes String.[] = []
codes (String.◌∷◌ c s) = code c ∷ codes s

within : ℕ → ℕ → ℕ → Bool
within low high b = leb low b && leb b high

abbrev continuation : ℕ → Bool
unfolding within
continuation b = within 128 191 b

-- What may follow a leading byte of a character of two, three or four bytes.
second_of : ℕ → ℕ → Bool
unfolding within
second_of lead b =
    if lead == 224
    then within 160 191 b
    else if lead == 237
    then within 128 159 b
    else if lead == 240
    then within 144 191 b
    else if lead == 244
    then within 128 143 b
    else within 128 191 b

-- How many bytes follow the leading byte of a character; `none` for a byte that leads none.
following : ℕ → Option ℕ
unfolding within
following b =
    if leb b 127
    then some 0
    else if within 194 223 b
    then some 1
    else if within 224 239 b
    then some 2
    else if within 240 244 b
    then some 3
    else none

-- The validity that `core::str::from_utf8` tests: the state is the number of bytes that the current
-- character still needs, and whether its second byte is the next, after which leading byte.
is_utf8_after : Bool → ℕ → ℕ → Bytes → Bool
unfolding within second_of following
is_utf8_after second lead zero [] = true
is_utf8_after second lead (suc n) [] = false
is_utf8_after second lead zero (b ∷ bs) = elim (following b) [
  | none ↦ false
  | some n ↦ is_utf8_after true b n bs
]
is_utf8_after second lead (suc n) (b ∷ bs) =
    (if second then second_of lead b else continuation b) && is_utf8_after false lead n bs

-- `core::str::from_utf8(bytes).ok()`
unfoldable pub from_utf8 : Bytes → Option Bytes
unfolding is_utf8_after
from_utf8 bytes = if is_utf8_after false 0 0 bytes then some bytes else none

-- The decimal digits of a number, before those that are there; a `u64` has 20 digits at most.
unfoldable pub digits_before : ℕ → ℕ → Bytes → Bytes
digits_before zero n digits = digits
digits_before (suc fuel) n digits =
    let rest = digits_before fuel (n / 10) ((n % 10 + b'0') ∷ digits) in
    if ltb n 10 then (n + b'0') ∷ digits else rest

-- `Display` of a `usize`
abbrev pub decimal : ℕ → Bytes
decimal n = digits_before 20 n []
