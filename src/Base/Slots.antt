-- ===== src/Base/Slots.antt =====
-- The loops by which the kernel opens and closes a gap in a fixed array whose first `count` slots
-- are in use (kernel/kernel/src/memory/allocator.rs, kernel/kernel/src/env.rs). On the used part
-- they insert and erase one item, which is how the components' models write them.
use Prim.Native.Nat.{ℕ, zero, suc, ◌+◌, ◌≤◌, ◌<◌}
use mathlib.Core.Path.{◌≡◌, refl, ap, ◌∙◌}
use mathlib.Core.List.{List, [], ◌∷◌}
use mathlib.Core.Option.{none, some}
use native.Mathlib.Decide.{dec_lt}
use native.Mathlib.Omega.{arith}
use lazers.Base.Lists.{
  length, get_elem?, set, take, length-set, get_elem?-set_self, get_elem?-set_ne, get_elem?_of_lt,
}

module _ {ℓ} {A : Type ℓ} where
  -- `slots[to] = slots[from]`
  abbrev pub copy_slot : List A → ℕ → ℕ → List A
  copy_slot xs from to = elim (get_elem? xs from) [ none ↦ xs | some v ↦ set xs to v ]

  -- `while i + 1 < count { slots[i] = slots[i + 1]; i += 1 }`, by the rounds `count - 1 - i`.
  unfoldable pub shift_down : List A → ℕ → ℕ → List A
  shift_down xs i zero = xs
  shift_down xs i (suc n) = shift_down (copy_slot xs (suc i) i) (suc i) n

  -- `while shift > at { slots[shift] = slots[shift - 1]; shift -= 1 }`, by the rounds `count - at`.
  pub shift_up : List A → ℕ → ℕ → List A
  shift_up xs at zero = xs
  shift_up xs at (suc n) = shift_up (copy_slot xs (at + n) (suc (at + n))) at n

  abbrev pub erase_idx : List A → ℕ → List A
  erase_idx [] i = []
  erase_idx (x ∷ xs) zero = xs
  erase_idx (x ∷ xs) (suc i) = x ∷ erase_idx xs i

  abbrev pub insert_idx : List A → ℕ → A → List A
  insert_idx xs zero v = v ∷ xs
  insert_idx [] (suc i) v = v ∷ []
  insert_idx (x ∷ xs) (suc i) v = x ∷ insert_idx xs i v

  copy_slot-cons :
      (x : A) (xs : List A) (from to : ℕ)
      → copy_slot (x ∷ xs) (suc from) (suc to) ≡ x ∷ copy_slot xs from to
  copy_slot-cons x xs from to = ground arith

  length-copy_slot : (xs : List A) (from to : ℕ) → length (copy_slot xs from to) ≡ length xs
  length-copy_slot xs from to =
      elim (get_elem? xs from)
        as (λ o. length (elim o [ none ↦ xs | some v ↦ set xs to v ]) ≡ length xs) [
          | none ↦ refl
          | some v ↦ length-set xs to v
        ]

  shift_down-cons :
      (x : A) (xs : List A) (i n : ℕ) → shift_down (x ∷ xs) (suc i) n ≡ x ∷ shift_down xs i n
  unfolding shift_down
  shift_down-cons x xs i zero = refl
  shift_down-cons x xs i (suc n) =
      rw copy_slot-cons (shift_down-cons x (copy_slot xs (suc i) i) (suc i) n)

  shift_down-head :
      (x : A) (xs : List A) (n : ℕ) → n ≤ length xs → take n (shift_down (x ∷ xs) 0 n) ≡ take n xs
  unfolding shift_down
  shift_down-head x xs zero h = refl
  shift_down-head x [] (suc n) h = absurd (omega arith)
  shift_down-head x (y ∷ ys) (suc n) h =
      rw shift_down-cons (ap (◌∷◌ y) (shift_down-head y ys n (omega arith)))

  -- Closing the gap at `i` erases that item from the used part.
  pub take-shift_down :
      (xs : List A) (i n : ℕ)
      → suc (n + i) ≤ length xs
      → take (n + i) (shift_down xs i n) ≡ erase_idx (take (suc (n + i)) xs) i
  take-shift_down [] i n h = absurd (omega arith)
  take-shift_down (x ∷ xs) zero n h =
      let e : n + zero ≡ n = omega arith in rw e (shift_down-head x xs n (omega arith))
  take-shift_down (x ∷ xs) (suc i) n h =
      let e : n + suc i ≡ suc (n + i) = omega arith in
      rw (e, shift_down-cons) (ap (◌∷◌ x) (take-shift_down xs i n (omega arith)))

  shift_up-cons :
      (x : A) (xs : List A) (at n : ℕ) → shift_up (x ∷ xs) (suc at) n ≡ x ∷ shift_up xs at n
  unfolding shift_up
  shift_up-cons x xs at zero = refl
  shift_up-cons x xs at (suc n) =
      let e : suc at + n ≡ suc (at + n) = omega arith in
      rw (e, copy_slot-cons) (shift_up-cons x (copy_slot xs (at + n) (suc (at + n))) at n)

  length-shift_up : (xs : List A) (at n : ℕ) → length (shift_up xs at n) ≡ length xs
  unfolding shift_up
  length-shift_up xs at zero = refl
  length-shift_up xs at (suc n) =
      length-shift_up (copy_slot xs (at + n) (suc (at + n))) at n
      ∙ length-copy_slot xs (at + n) (suc (at + n))

  get_elem?-copy_slot_ne :
      (xs : List A) (from to j : ℕ) → to < j → get_elem? (copy_slot xs from to) j ≡ get_elem? xs j
  get_elem?-copy_slot_ne xs from to j h =
      elim (get_elem? xs from)
        as (λ o. get_elem? (elim o [ none ↦ xs | some v ↦ set xs to v ]) j ≡ get_elem? xs j) [
          | none ↦ refl
          | some v ↦ get_elem?-set_ne xs to j v (omega arith)
        ]

  shift_up_above : (xs : List A) (n j : ℕ) → n < j → get_elem? (shift_up xs 0 n) j ≡ get_elem? xs j
  unfolding shift_up
  shift_up_above xs zero j h = refl
  shift_up_above xs (suc n) j h =
      shift_up_above (copy_slot xs (0 + n) (suc (0 + n))) n j (omega arith)
      ∙ get_elem?-copy_slot_ne xs (0 + n) (suc (0 + n)) j (omega arith)

  take-ext :
      (n : ℕ) (xs ys : List A)
      → ((j : ℕ) → j < n → get_elem? xs j ≡ get_elem? ys j)
      → take n xs ≡ take n ys
  take-ext zero xs ys h = refl
  take-ext (suc n) [] [] h = refl
  take-ext (suc n) [] (y ∷ ys) h = absurd (cc (h 0 (omega arith)))
  take-ext (suc n) (x ∷ xs) [] h = absurd (cc (h 0 (omega arith)))
  take-ext (suc n) (x ∷ xs) (y ∷ ys) h =
      let e : x ≡ y = cc (h 0 (omega arith)) in
      rw (e, take-ext n xs ys (λ j k. h (suc j) (omega arith)))

  get_elem?-copy_slot_self :
      (xs : List A) (from to : ℕ)
      → to < length xs
      → from < length xs
      → get_elem? (copy_slot xs from to) to ≡ get_elem? xs from
  get_elem?-copy_slot_self xs from to h k =
      let (v, e) = get_elem?_of_lt xs from k in rw (e, copy_slot) (get_elem?-set_self xs to v h)

  get_elem?-copy_slot_below :
      (xs : List A) (from to j : ℕ) → j < to → get_elem? (copy_slot xs from to) j ≡ get_elem? xs j
  get_elem?-copy_slot_below xs from to j h =
      elim (get_elem? xs from)
        as (λ o. get_elem? (elim o [ none ↦ xs | some v ↦ set xs to v ]) j ≡ get_elem? xs j) [
          | none ↦ refl
          | some v ↦ get_elem?-set_ne xs to j v (omega arith)
        ]

  -- The loop moves each item of the gap's right side up by one slot.
  shift_up_moves :
      (xs : List A) (n j : ℕ)
      → j < n
      → n < length xs
      → get_elem? (shift_up xs 0 n) (suc j) ≡ get_elem? xs j
  unfolding shift_up
  shift_up_moves xs zero j h k = absurd (omega arith)
  shift_up_moves xs (suc n) j h k =
      let e : 0 + n ≡ n = omega arith in
      let xs' = copy_slot xs n (suc n) in
      rw e (elim (dec_lt j n) [
        | yes below ↦
            shift_up_moves xs' n j below (omega (arith, length-copy_slot xs n (suc n)))
            ∙ get_elem?-copy_slot_below xs n (suc n) j (omega arith)
        | no top ↦
            let same : j ≡ n = omega arith in
            rw same (
              shift_up_above xs' n (suc n) (omega arith)
              ∙ get_elem?-copy_slot_self xs n (suc n) (omega arith) (omega arith))
      ])

  shift_up-head :
      (xs : List A) (n : ℕ) (v : A)
      → n < length xs
      → (j : ℕ) → j < suc n
      → get_elem? (set (shift_up xs 0 n) 0 v) j ≡ get_elem? (v ∷ xs) j
  shift_up-head xs n v h zero k =
      get_elem?-set_self (shift_up xs 0 n) 0 v (omega (arith, length-shift_up xs 0 n))
  shift_up-head xs n v h (suc j) k =
      get_elem?-set_ne (shift_up xs 0 n) 0 (suc j) v (omega arith)
      ∙ shift_up_moves xs n j (omega arith) h

  -- Opening a gap at `at` and writing `v` there inserts `v` into the used part.
  pub take-shift_up :
      (xs : List A) (at n : ℕ) (v : A)
      → n + at < length xs
      → take (suc (n + at)) (set (shift_up xs at n) at v) ≡ insert_idx (take (n + at) xs) at v
  take-shift_up [] at n v h = absurd (omega arith)
  take-shift_up (x ∷ xs) zero n v h =
      let e : n + zero ≡ n = omega arith in
      rw e (
        take-ext (suc n) (set (shift_up (x ∷ xs) 0 n) 0 v) (v ∷ x ∷ xs)
          (shift_up-head (x ∷ xs) n v (omega arith)))
  take-shift_up (x ∷ xs) (suc at) n v h =
      let e : n + suc at ≡ suc (n + at) = omega arith in
      rw (e, shift_up-cons) (ap (◌∷◌ x) (take-shift_up xs at n v (omega arith)))
