-- ===== src/Allocator/Insert.antt =====
-- `insert_range`, and `add_region` and `free_contiguous_pages` which are calls of it: the invariant
-- of the allocator, when the capacity suffices, and the set of free addresses afterwards.
use lazers.Base.{
  ℕ, zero, suc, ◌≤◌, ◌<◌, Bool, ◌||◌, some, List, [], ◌∷◌, ◌≡◌, refl, ap, ◌∙◌, ◌⊎◌, inl, inr, arith,
}
use lazers.Base.Tests.{leb, Bool-cases}
use lazers.Base.Lists.{length}
use lazers.Base.Slots.{insert_idx}
use lazers.Allocator.{PhysicalAllocator, absorb, insert_at, insert_range, max_free_ranges}
use lazers.Allocator.Cover.{in_range, covers, covers-insert_idx, covers-absorb}
use lazers.Allocator.Order.{
  length-absorb, IsOrdered, IsOrdered-AllProper, absorb-MergeInv, insert_at-IsOrdered,
}
use lazers.Allocator.Region.{new}

-- The regions ascend with gaps between them, and they fit the array.
pub record IsValid (a : PhysicalAllocator) : Type 0 where
  pub ordered : IsOrdered 0 a.regions
  pub fits : length a.regions ≤ max_free_ranges

abbrev pub free : PhysicalAllocator → ℕ → Bool
free a = covers a.regions

length-insert_idx {ℓ} :
    {A : Type ℓ} (xs : List A) (i : ℕ) (v : A) → length (insert_idx xs i v) ≡ suc (length xs)
length-insert_idx xs zero v = refl
length-insert_idx [] (suc i) v = refl
length-insert_idx (x ∷ xs) (suc i) v = ap suc (length-insert_idx xs i v)

-- What a proper range leaves.
abbrev inserted : ℕ → ℕ → PhysicalAllocator → PhysicalAllocator
inserted s e a =
    let m = absorb s e a.regions in
    record { regions = insert_idx m.kept (insert_at m.start m.kept) (new m.start m.end) }

insert_range-cases :
    (s e : ℕ) (a : PhysicalAllocator) {b : PhysicalAllocator}
    → insert_range s e a ≡ some b
    → ((e ≤ s) × (b ≡ a))
      ⊎ ((s < e) × (length (absorb s e a.regions).kept < max_free_ranges) × (b ≡ inserted s e a))
unfolding insert_range
insert_range-cases s e a h = ground arith

inserted_lem :
    (s e : ℕ) (a : PhysicalAllocator)
    → IsValid a
    → s < e
    → length (absorb s e a.regions).kept < max_free_ranges
    → IsValid (inserted s e a) × ((x : ℕ) → free (inserted s e a) x ≡ (free a x || in_range s e x))
inserted_lem s e a v h k =
    let m = absorb s e a.regions in
    let i = absorb-MergeInv a.regions 0 s e h v.ordered in
    let at = insert_at m.start m.kept in
    (
      record {
        ordered =
            insert_at-IsOrdered m.kept 0 m.start m.end (omega arith) i.proper i.ordered i.apart;
        fits = omega (arith, length-insert_idx m.kept at (new m.start m.end));
      },
      λ x.
          covers-insert_idx m.kept at (new m.start m.end) x
          ∙ covers-absorb a.regions s e x h (IsOrdered-AllProper a.regions 0 v.ordered),
    )

-- An insertion into a valid allocator that does not panic keeps it valid, and afterwards an address is free exactly
-- if it was free before or lies in the range.
pub insert_range_lem :
    (s e : ℕ) (a : PhysicalAllocator) {b : PhysicalAllocator}
    → IsValid a
    → insert_range s e a ≡ some b
    → IsValid b × ((x : ℕ) → free b x ≡ (free a x || in_range s e x))
insert_range_lem s e a v h = elim (insert_range-cases s e a h) [
  | inl (empty, same) ↦ rw same (v, λ x. ground arith)
  | inr (proper, room, same) ↦ rw same (inserted_lem s e a v proper room)
]

-- An insertion that leaves a free slot after merging does not panic.
pub insert_range_mergeable :
    (s e : ℕ) (a : PhysicalAllocator)
    → length (absorb s e a.regions).kept < max_free_ranges
    → (b : PhysicalAllocator) × (insert_range s e a ≡ some b)
unfolding insert_range
insert_range_mergeable s e a h = elim (Bool-cases (leb e s)) [
  | inl empty ↦ (a, rw empty)
  | inr proper ↦ (inserted s e a, ground arith)
]

-- With a free slot in the table an insertion does not panic.
pub insert_range_total :
    (s e : ℕ) (a : PhysicalAllocator)
    → length a.regions < max_free_ranges
    → (b : PhysicalAllocator) × (insert_range s e a ≡ some b)
insert_range_total s e a h =
    insert_range_mergeable s e a (omega (arith, length-absorb a.regions s e))
