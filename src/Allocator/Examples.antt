-- ===== src/Allocator/Examples.antt =====
-- The allocator run on concrete regions, and its theorems at inputs that meet their hypotheses.
use mathlib.Core.Logic.{◌⊎◌}
use mathlib.Core.Bool.{true}
use lazers.Base.{ℕ, ◌*◌, not, ◌&&◌, ◌||◌, some, List, [], ◌∷◌, ◌≡◌, refl, arith}
use lazers.Base.Slots.{shift_down}
use lazers.Base.Results.{ok, err}
use lazers.Allocator.{
  PhysicalAllocator, Memory, allocator_exhausted, allocate_page, allocate_contiguous_pages,
  free_contiguous_pages, insert_range, reserve_range, empty_allocator,
}
use lazers.Allocator.Allocate.{
  Allocated, allocate_contiguous_pages_lem, allocate_contiguous_pages_complete, free-allocate,
  is_ok,
}
use lazers.Allocator.Cover.{in_range}
use lazers.Allocator.FirstFit.{has_room}
use lazers.Allocator.Insert.{IsValid, free, insert_range_lem}
use lazers.Allocator.Region.{new, page_size}
use lazers.Allocator.Reserve.{reserve_range_lem}

abbrev two_regions : PhysicalAllocator
two_regions = record { regions = new 0x1000 0x3000 ∷ new 0x8000 0x9000 ∷ [] }

abbrev one_region : PhysicalAllocator
one_region = record { regions = new 0x1000 0x9000 ∷ [] }

abbrev dirty : Memory
dirty a = 0xaa

two_regions-IsValid : IsValid two_regions
two_regions-IsValid = omega arith

one_region-IsValid : IsValid one_region
one_region-IsValid = omega arith

-- Adjacent ranges become one region.
merges_adjacent : insert_range 0x3000 0x8000 two_regions ≡ some one_region
unfolding insert_range
merges_adjacent = refl

splits :
    reserve_range 0x3000 0x8000 one_region
    ≡ some (record { regions = new 0x1000 0x3000 ∷ new 0x8000 0x9000 ∷ [] })
unfolding reserve_range
splits = refl

allocates_second : (allocate_contiguous_pages two_regions dirty 2).0 ≡ ok 0x1000
unfolding allocate_contiguous_pages
allocates_second = refl

exhausts : (allocate_page empty_allocator dirty).0 ≡ err allocator_exhausted
unfolding allocate_page
exhausts = refl

page_taken : (allocate_page two_regions dirty).0 ≡ ok 0x1000
unfolding allocate_page
page_taken = refl

allocate_contiguous_pages_lem_example :
    Allocated
      (2 * page_size)
      two_regions
      dirty
      0x1000
      (allocate_contiguous_pages two_regions dirty 2).1
      (allocate_contiguous_pages two_regions dirty 2).2
allocate_contiguous_pages_lem_example =
    allocate_contiguous_pages_lem two_regions dirty 2 0x1000 two_regions-IsValid allocates_second

allocate_contiguous_pages_complete_example :
    let (res, b, memory') = allocate_contiguous_pages two_regions dirty 3 in
    (is_ok res ≡ has_room (3 * page_size) two_regions.regions)
    × ((is_ok res ≡ true) ⊎ ((b ≡ two_regions) × (memory' ≡ dirty)))
    × (is_ok (allocate_page two_regions dirty).0 ≡ has_room page_size two_regions.regions)
allocate_contiguous_pages_complete_example =
    allocate_contiguous_pages_complete two_regions dirty 3 (omega arith) (omega arith)

free-allocate_example :
    free_contiguous_pages 0x1000 2 (allocate_contiguous_pages two_regions dirty 2).1
    ≡ some two_regions
free-allocate_example =
    free-allocate two_regions dirty 2 0x1000 two_regions-IsValid (omega arith) allocates_second

insert_range_lem_example :
    IsValid one_region
    × ((x : ℕ) → free one_region x ≡ (free two_regions x || in_range 0x3000 0x8000 x))
insert_range_lem_example =
    insert_range_lem 0x3000 0x8000 two_regions two_regions-IsValid merges_adjacent

reserve_range_lem_example :
    IsValid two_regions
    × ((x : ℕ) → free two_regions x ≡ (free one_region x && not (in_range 0x3000 0x8000 x)))
reserve_range_lem_example = reserve_range_lem 0x3000 0x8000 one_region one_region-IsValid splits

abbrev slots : List ℕ
slots = 10 ∷ 20 ∷ 30 ∷ 40 ∷ 0 ∷ 0 ∷ []

shifts : shift_down slots 1 2 ≡ 10 ∷ 30 ∷ 40 ∷ 40 ∷ 0 ∷ 0 ∷ []
unfolding shift_down
shifts = refl
