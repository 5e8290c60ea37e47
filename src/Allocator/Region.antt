-- ===== src/Allocator/Region.antt =====
-- `PhysicalRegion` of kernel/kernel/src/memory/allocator.rs: one free range of physical addresses.
use lazers.Base.{ℕ, Bool, Option, none, some, ◌||◌}
use lazers.Base.Tests.{ltb, leb, ◌==◌, if◌then◌else◌}
use lazers.Base.Words.{checked_add, checked_mul}
use lazers.Base.Results.{and_then}

-- `PAGE_SIZE` of kernel/kernel/src/memory/types.rs.
abbrev pub page_size : ℕ
page_size = 4096

pub record PhysicalRegion : Type 0 where
  pub start : ℕ
  pub end : ℕ

abbrev pub new : ℕ → ℕ → PhysicalRegion
new s e = record { start = s; end = e }

unfoldable pub is_empty : PhysicalRegion → Bool
is_empty r = r.start == 0 || leb r.end r.start

-- A method that takes from the front returns the address and the region left.
unfoldable pub allocate_page : PhysicalRegion → Option (ℕ × PhysicalRegion)
unfolding is_empty
allocate_page r =
    if is_empty r
    then none
    else and_then (checked_add r.start page_size)
        λ next. if ltb r.end next then none else some (r.start, record r { start = next })

unfoldable pub allocate_contiguous_pages : PhysicalRegion → ℕ → Option (ℕ × PhysicalRegion)
unfolding is_empty
allocate_contiguous_pages r count =
    if count == 0 || is_empty r
    then none
    else and_then (checked_mul count page_size) λ bytes.
      and_then (checked_add r.start bytes)
        λ e. if ltb r.end e then none else some (r.start, record r { start = e })
