-- ===== src/Scheduler/Lookup.antt =====
-- Lookups in the scheduler's tables after a change.
use lazers.Base.{
  ℕ, zero, suc, ◌<◌, Option, none, some, List, [], ◌∷◌, ◌≡◌, ◌≢◌, refl, inl, inr, arith,
}
use mathlib.Core.Path.{subst}
use mathlib.Core.Logic.{◌⊎◌}
use lazers.Base.Tests.{if◌then◌else◌, ◌==◌, Bool-cases, Option-cases}
use lazers.Base.Lists.{
  length, get_elem?, set, get_elem?-set_self, get_elem?-set_ne, lt_of_get_elem?,
}
use lazers.Base.Results.{and_then}
use lazers.Process.{first_free}
use lazers.Scheduler.State.{slot}

module _ {ℓ} {A : Type ℓ} where
  pub slot-set_self :
      (xs : List (Option A)) (i : ℕ) (o : Option A) → i < length xs → slot (set xs i o) i ≡ o
  slot-set_self xs i o h = rw (get_elem?-set_self xs i o h, slot)

  pub slot-set_ne :
      (xs : List (Option A)) (i j : ℕ) (o : Option A) → i ≢ j → slot (set xs i o) j ≡ slot xs j
  slot-set_ne xs i j o h = rw (get_elem?-set_ne xs i j o h, slot)

  -- A slot that is in use is in range.
  pub lt_of_slot : (xs : List (Option A)) (i : ℕ) {a : A} → slot xs i ≡ some a → i < length xs
  lt_of_slot xs i h = elim (Option-cases (get_elem? xs i)) [
    | inl outside ↦ absurd (cc (rw (outside, slot) at h))
    | inr (o, e) ↦ lt_of_get_elem? xs i e
  ]

  pub slot-set :
      (xs : List (Option A)) (i j : ℕ) (o : Option A)
      → i < length xs
      → slot (set xs i o) j ≡ (if i == j then o else slot xs j)
  slot-set xs i j o h = elim (Bool-cases (i == j)) [
    | inl same ↦ let e : j ≡ i = ground arith in rw same (rw e (slot-set_self xs i o h))
    | inr other ↦ rw other (slot-set_ne xs i j o (ground arith))
  ]

  -- The free slot that is found is empty.
  pub first_free_lem :
      (xs : List (Option A)) (i : ℕ) → first_free xs ≡ some i → (i < length xs) × (slot xs i ≡ none)
  unfolding first_free
  first_free_lem [] i h = absurd (cc)
  first_free_lem (none ∷ xs) i h = let e : i ≡ 0 = cc in rw e (omega arith, refl)
  first_free_lem (some a ∷ xs) i h = elim (Option-cases (first_free xs)) [
    | inl full ↦ absurd (cc (rw (full, and_then) at h))
    | inr (j, e) ↦
        let at_j : suc j ≡ i = cc (rw (e, and_then) at h) in
        let (inside, empty) = first_free_lem xs j e in
        subst (λ k. (k < suc (length xs)) × (slot (some a ∷ xs) k ≡ none)) at_j (omega arith, empty)
  ]

  -- There is none only if every slot is in use.
  pub first_free-none :
      (xs : List (Option A)) (i : ℕ)
      → first_free xs ≡ none
      → i < length xs
      → (a : A) × (slot xs i ≡ some a)
  unfolding first_free
  first_free-none [] i h k = elim k [ ]
  first_free-none (none ∷ xs) i h k = absurd (cc)
  first_free-none (some a ∷ xs) zero h k = (a, refl)
  first_free-none (some a ∷ xs) (suc i) h k = elim (Option-cases (first_free xs)) [
    | inl full ↦ first_free-none xs i full (omega arith)
    | inr (j, e) ↦ absurd (cc (rw (e, and_then) at h))
  ]

-- Where a slot's content comes from after another is filled.
pub slot-set-cases :
    {A : Type 0} (xs : List (Option A)) (i j : ℕ) (u : A) {v : A}
    → i < length xs
    → slot (set xs i (some u)) j ≡ some v
    → ((i ≡ j) × (u ≡ v)) ⊎ ((i ≢ j) × (slot xs j ≡ some v))
slot-set-cases xs i j u h at_j =
    let after = slot-set xs i j (some u) h in
    elim (Bool-cases (i == j)) [
      | inl same ↦ inl (ground arith, cc (at_j, rw same at after))
      | inr other ↦ inr (ground arith, cc (at_j, rw other at after))
    ]

-- A property of each slot that is in use, checked slot by slot.
abbrev pub InSlots : {A : Type 0} → (ℕ → A → Type 0) → List (Option A) → Type 0
InSlots p [] = Unit {0}
InSlots p (none ∷ xs) = InSlots (λ i. p (suc i)) xs
InSlots p (some a ∷ xs) = p 0 a × InSlots (λ i. p (suc i)) xs

pub InSlots-slot :
    {A : Type 0} (p : ℕ → A → Type 0) (xs : List (Option A)) (i : ℕ) (a : A)
    → InSlots p xs
    → slot xs i ≡ some a
    → p i a
InSlots-slot p [] i a all h = absurd (cc)
InSlots-slot p (none ∷ xs) zero a all h = absurd (cc)
InSlots-slot p (none ∷ xs) (suc i) a all h = InSlots-slot (λ i. p (suc i)) xs i a all h
InSlots-slot p (some b ∷ xs) zero a (here, _) h = let e : b ≡ a = cc in subst (p 0) e here
InSlots-slot p (some b ∷ xs) (suc i) a (_, all) h = InSlots-slot (λ i. p (suc i)) xs i a all h
