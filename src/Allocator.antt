-- ===== src/Allocator.antt =====
-- The physical page allocator, kernel/kernel/src/memory/allocator.rs. `PhysicalAllocator.regions` is
-- the part of the array that is in use, `regions[0..count]`; the loops that open and close a gap in
-- the array are those of Base/Slots, where they are proved to insert and to erase one item.
pub mod Region
pub mod Cover
pub mod Order
pub mod FirstFit
pub mod Allocate
mod Examples
pub mod Insert
pub mod Unique
pub mod Reserve
use lazers.Base.{
  ℕ, zero, suc, ◌+◌, ◌-◌, ◌*◌, ◌%◌, min, max, Bool, true, false, ◌&&◌, ◌||◌, Option, none, some,
  List, [], ◌∷◌, ◌++◌,
}
use lazers.Base.Tests.{ltb, leb, ◌==◌, if◌then◌else◌}
use lazers.Base.Lists.{length}
use lazers.Base.Slots.{insert_idx}
use lazers.Base.Words.{word}
use lazers.Base.Results.{Result, ok, err, and_then}
use lazers.Elf.{ElfError}
use Region.{PhysicalRegion, page_size}

-- `MAX_FREE_RANGES` of kernel/kernel/src/memory/types.rs.
abbrev pub max_free_ranges : ℕ
max_free_ranges = 128

pub record PhysicalAllocator : Type 0 where
  pub regions : List PhysicalRegion

-- `MemoryError` of kernel/kernel/src/memory/types.rs; the allocator itself reports only that it is
-- exhausted.
pub data MemoryError : Type 0 where
  no_usable_memory address_space_uninitialized allocator_exhausted : MemoryError
  invalid_kernel_buffer_size shared_kernel_mapping_capacity_exceeded : MemoryError
  elf : ElfError → MemoryError
  user_image_out_of_range invalid_startup_arguments startup_arguments_too_large : MemoryError
  segment_overlap_capacity_exceeded owned_page_capacity_exceeded : MemoryError

-- The bytes of physical memory, and `write_bytes(at, 0, len)`.
abbrev pub Memory : Type 0
Memory = ℕ → ℕ

abbrev pub write_zeros : ℕ → ℕ → Memory → Memory
write_zeros at len memory a = if leb at a && ltb a (at + len) then 0 else memory a

abbrev pub empty_allocator : PhysicalAllocator
empty_allocator = record { regions = [] }

-- The first region that gives what `take` asks of it; it is removed if that leaves it empty.
pub first_fit :
    (PhysicalRegion → Option (ℕ × PhysicalRegion))
    → List PhysicalRegion
    → Option (ℕ × List PhysicalRegion)
unfolding Region.is_empty
first_fit take [] = none
first_fit take (r ∷ rs) =
    let later = first_fit take rs in
    elim (take r) [
      | some (at, left) ↦ some (at, if Region.is_empty left then rs else left ∷ rs)
      | none ↦ and_then later λ found. some (found.0, r ∷ found.1)
    ]

-- The new allocator, the address or the error, and the memory with the pages zeroed.
abbrev pub finish_allocation :
    PhysicalAllocator
    → Memory
    → ℕ
    → Option (ℕ × List PhysicalRegion)
    → Result MemoryError ℕ × PhysicalAllocator × Memory
finish_allocation a memory bytes none = (err allocator_exhausted, a, memory)
finish_allocation a memory bytes (some (at, rs)) =
    (ok at, record { regions = rs }, write_zeros at bytes memory)

unfoldable pub allocate_page :
    PhysicalAllocator → Memory → Result MemoryError ℕ × PhysicalAllocator × Memory
unfolding first_fit Region.allocate_page
allocate_page a memory =
    finish_allocation a memory page_size (first_fit Region.allocate_page a.regions)

unfoldable pub allocate_contiguous_pages :
    PhysicalAllocator → Memory → ℕ → Result MemoryError ℕ × PhysicalAllocator × Memory
unfolding first_fit Region.allocate_contiguous_pages
allocate_contiguous_pages a memory count =
    finish_allocation a memory (count * page_size)
      (first_fit (λ r. Region.allocate_contiguous_pages r count) a.regions)

-- The merge loop of `insert_range`: the regions kept, and the range grown by those absorbed.
pub record Merged : Type 0 where
  pub kept : List PhysicalRegion
  pub start : ℕ
  pub end : ℕ

pub absorb : ℕ → ℕ → List PhysicalRegion → Merged
absorb s e [] = record { kept = []; start = s; end = e }
absorb s e (r ∷ rs) =
    let apart = ltb r.end s || ltb e r.start in
    let m = absorb (if apart then s else min s r.start) (if apart then e else max e r.end) rs in
    if apart then record m { kept = r ∷ m.kept } else m

-- The loop that finds `insert_at`.
pub insert_at : ℕ → List PhysicalRegion → ℕ
insert_at s [] = 0
insert_at s (r ∷ rs) = let later = insert_at s rs in if ltb r.start s then suc later else 0

-- `none` is the failed assertion on the capacity.
unfoldable pub insert_range : ℕ → ℕ → PhysicalAllocator → Option PhysicalAllocator
unfolding absorb insert_at
insert_range s e a =
    if leb e s
    then some a
    else let m = absorb s e a.regions in
      if ltb (length m.kept) max_free_ranges
      then some (record {
        regions = insert_idx m.kept (insert_at m.start m.kept) (Region.new m.start m.end);
      })
      else none

unfoldable pub add_region : ℕ → ℕ → PhysicalAllocator → Option PhysicalAllocator
unfolding insert_range
add_region s e a = insert_range s e a

-- `u64` arithmetic wraps.
unfoldable pub free_contiguous_pages : ℕ → ℕ → PhysicalAllocator → Option PhysicalAllocator
unfolding insert_range
free_contiguous_pages s count a =
    if count == 0 then some a else insert_range s ((s + (count * page_size) % word) % word) a

-- One round of the loop of `reserve_range`, at `count` regions: the new count and what stands in
-- the place of the region.
pub reserve_one : ℕ → ℕ → ℕ → PhysicalRegion → Option (ℕ × List PhysicalRegion)
reserve_one s e count r =
    if leb r.end s || leb e r.start
    then some (count, r ∷ [])
    else if leb s r.start && leb r.end e
    then some (count - 1, [])
    else if leb s r.start
    then some (count, record r { start = min e r.end } ∷ [])
    else if leb r.end e
    then some (count, record r { end = max s r.start } ∷ [])
    else if ltb count max_free_ranges
    then some (count + 1, record r { end = s } ∷ Region.new e r.end ∷ [])
    else none

pub reserve_loop : ℕ → ℕ → ℕ → List PhysicalRegion → Option (List PhysicalRegion)
unfolding reserve_one
reserve_loop s e count [] = some []
reserve_loop s e count (r ∷ rs) =
    and_then (reserve_one s e count r)
      λ one. and_then (reserve_loop s e one.0 rs) λ rest. some (one.1 ++ rest)

unfoldable pub reserve_range : ℕ → ℕ → PhysicalAllocator → Option PhysicalAllocator
unfolding reserve_loop
reserve_range s e a =
    if leb e s
    then some a
    else and_then (reserve_loop s e (length a.regions) a.regions)
        λ rs. some (record { regions = rs })
