-- ===== src/Allocator/Allocate.antt =====
-- `allocate_page` and `allocate_contiguous_pages`: what a success takes and zeroes, when they fail,
-- and that freeing what was allocated restores the allocator.
use mathlib.Core.Logic.{◌⊎◌}
use lazers.Base.{
  ℕ, ◌+◌, ◌*◌, ◌%◌, ◌<◌, Bool, true, false, not, ◌&&◌, Option, none, some, List, ◌≡◌, refl, ap, ◌∙◌,
  inl, inr, arith,
}
use lazers.Base.Tests.{◌==◌, Bool-cases}
use lazers.Base.Words.{word}
use lazers.Base.Results.{Result, ok, err}
use lazers.Allocator.{
  PhysicalAllocator, Memory, first_fit, allocate_page, allocate_contiguous_pages,
  free_contiguous_pages, insert_range, write_zeros, finish_allocation,
}
use lazers.Allocator.Cover.{in_range}
use lazers.Allocator.FirstFit.{
  TakesFront, first_fit-Taken, first_fit-has_room, AllBounded, has_room, fits_in, is_some,
}
use lazers.Allocator.Insert.{IsValid, free, insert_range_lem, insert_range_mergeable}
use lazers.Allocator.Unique.{eq_of_SameCover}
use lazers.Allocator.Region
use lazers.Allocator.Region.{PhysicalRegion, page_size}

abbrev pub is_ok {ℓ κ} : {E : Type ℓ} {A : Type κ} → Result E A → Bool
is_ok (ok a) = true
is_ok (err e) = false

page-TakesFront :
    (r : PhysicalRegion) (p : ℕ) (left : PhysicalRegion)
    → Region.allocate_page r ≡ some (p, left)
    → TakesFront page_size r p left
unfolding Region.allocate_page
page-TakesFront r p left h = ground arith

contiguous-TakesFront :
    (count : ℕ) (r : PhysicalRegion) (p : ℕ) (left : PhysicalRegion)
    → Region.allocate_contiguous_pages r count ≡ some (p, left)
    → TakesFront (count * page_size) r p left
unfolding Region.allocate_contiguous_pages
contiguous-TakesFront count r p left h = ground arith

-- `size` bytes at `p` are allocated: they were free, they are no longer, they are zeroed, and
-- nothing else changes.
pub record Allocated (size : ℕ) (a : PhysicalAllocator) (memory : Memory) (p : ℕ)
    (b : PhysicalAllocator) (memory' : Memory) : Type 0 where
  pub valid : IsValid b
  pub nonzero : 0 < p
  pub was_free : (x : ℕ) → in_range p (p + size) x ≡ true → free a x ≡ true
  pub taken : (x : ℕ) → free b x ≡ (free a x && not (in_range p (p + size) x))
  pub zeroed : (x : ℕ) → in_range p (p + size) x ≡ true → memory' x ≡ 0
  pub kept : (x : ℕ) → in_range p (p + size) x ≡ false → memory' x ≡ memory x

taken-Allocated :
    (size : ℕ) (take : PhysicalRegion → Option (ℕ × PhysicalRegion))
    (front : (r : PhysicalRegion) (p : ℕ) (left : PhysicalRegion)
      → take r ≡ some (p, left)
      → TakesFront size r p left)
    (a : PhysicalAllocator) (memory : Memory) (p : ℕ) (out : List PhysicalRegion)
    → IsValid a
    → first_fit take a.regions ≡ some (p, out)
    → Allocated size a memory p (record { regions = out }) (write_zeros p size memory)
taken-Allocated size take front a memory p out v h =
    let t = first_fit-Taken size take front a.regions 0 p out v.ordered h in
    record {
      valid = record { ordered = t.ordered; fits = omega (arith, t.shorter, v.fits) };
      nonzero = t.nonzero;
      was_free = t.was_free;
      taken = t.taken;
      zeroed = λ x k. rw k;
      kept = λ x k. rw k;
    }

-- Inserting what was taken gives the old regions again.
taken-insert :
    (size : ℕ) (take : PhysicalRegion → Option (ℕ × PhysicalRegion))
    (front : (r : PhysicalRegion) (p : ℕ) (left : PhysicalRegion)
      → take r ≡ some (p, left)
      → TakesFront size r p left)
    (a : PhysicalAllocator) (p : ℕ) (out : List PhysicalRegion)
    → IsValid a
    → first_fit take a.regions ≡ some (p, out)
    → insert_range p (p + size) (record { regions = out }) ≡ some a
taken-insert size take front a p out v h =
    let t = first_fit-Taken size take front a.regions 0 p out v.ordered h in
    let b : PhysicalAllocator = record { regions = out } in
    let w : IsValid b = record { ordered = t.ordered; fits = omega (arith, t.shorter, v.fits) } in
    let (c, e) = insert_range_mergeable p (p + size) b (omega (arith, t.mergeable, v.fits)) in
    let (u, same) = insert_range_lem p (p + size) b w e in
    let back : c.regions ≡ a.regions =
      eq_of_SameCover 0 c.regions a.regions u.ordered v.ordered
        (λ x. ground (arith, same x, t.taken x, t.was_free x)) in
    e ∙ ap (λ rs. some (record { regions = rs })) back

finish-ok :
    (a : PhysicalAllocator) (memory : Memory) (bytes p : ℕ)
    (found : Option (ℕ × List PhysicalRegion))
    → (finish_allocation a memory bytes found).0 ≡ ok p
    → (out : List PhysicalRegion) × (found ≡ some (p, out))
finish-ok a memory bytes p none h = absurd (cc)
finish-ok a memory bytes p (some (q, out)) h = (out, cc)

is_ok-finish_allocation :
    (a : PhysicalAllocator) (memory : Memory) (bytes : ℕ) (found : Option (ℕ × List PhysicalRegion))
    → is_ok (finish_allocation a memory bytes found).0 ≡ is_some found
is_ok-finish_allocation a memory bytes none = refl
is_ok-finish_allocation a memory bytes (some f) = refl

-- In a valid allocator, an allocated page was free, is no longer, and is zeroed; nothing else
-- changes, and the allocator stays valid.
pub allocate_page_lem :
    (a : PhysicalAllocator) (memory : Memory) (p : ℕ)
    → IsValid a
    → (allocate_page a memory).0 ≡ ok p
    → let (res, b, memory') = allocate_page a memory in Allocated page_size a memory p b memory'
unfolding allocate_page
allocate_page_lem a memory p v h =
    let (out, e) = finish-ok a memory page_size p _ h in
    rw e (taken-Allocated page_size Region.allocate_page page-TakesFront a memory p out v e)

-- In a valid allocator, allocated contiguous pages were free, are no longer, and are zeroed;
-- nothing else changes, and the allocator stays valid.
pub allocate_contiguous_pages_lem :
    (a : PhysicalAllocator) (memory : Memory) (count p : ℕ)
    → IsValid a
    → (allocate_contiguous_pages a memory count).0 ≡ ok p
    → let (res, b, memory') = allocate_contiguous_pages a memory count in
      Allocated (count * page_size) a memory p b memory'
unfolding allocate_contiguous_pages
allocate_contiguous_pages_lem a memory count p v h =
    let (out, e) = finish-ok a memory (count * page_size) p _ h in
    rw e (
      taken-Allocated (count * page_size) (λ r. Region.allocate_contiguous_pages r count)
        (contiguous-TakesFront count) a memory p out v e)

finish-err :
    (a : PhysicalAllocator) (memory : Memory) (bytes : ℕ) (found : Option (ℕ × List PhysicalRegion))
    → let (res, b, memory') = finish_allocation a memory bytes found in
      (is_ok res ≡ true) ⊎ ((b ≡ a) × (memory' ≡ memory))
finish-err a memory bytes none = inr (refl, refl)
finish-err a memory bytes (some f) = inl refl

page_fits :
    (r : PhysicalRegion) → r.end < word → is_some (Region.allocate_page r) ≡ fits_in page_size r
unfolding Region.allocate_page
page_fits r h = ground arith

contiguous_fits :
    (count : ℕ)
    → 0 < count
    → (r : PhysicalRegion) → r.end < word
    → is_some (Region.allocate_contiguous_pages r count) ≡ fits_in (count * page_size) r
unfolding Region.allocate_contiguous_pages
contiguous_fits count h r k = ground arith

free_contiguous_lem :
    (b : PhysicalAllocator) (count p : ℕ)
    → 0 < count * page_size
    → p + count * page_size < word
    → free_contiguous_pages p count b ≡ insert_range p (p + count * page_size) b
unfolding free_contiguous_pages
free_contiguous_lem b count p h k =
    let e : (p + (count * page_size) % word) % word ≡ p + count * page_size = omega arith in
    elim (Bool-cases (count == 0)) [
      | inl nothing ↦ absurd (ground arith)
      | inr some_pages ↦ rw (some_pages, e)
    ]

-- If all regions end below the 64-bit limit, an allocation of one or more contiguous pages
-- succeeds exactly if one region that does not start at address 0 holds them, and one that fails
-- changes nothing; an allocation of a page succeeds exactly if such a region holds a page.
pub allocate_contiguous_pages_complete :
    (a : PhysicalAllocator) (memory : Memory) (count : ℕ)
    → AllBounded a.regions
    → 0 < count
    → let (res, b, memory') = allocate_contiguous_pages a memory count in
      (is_ok res ≡ has_room (count * page_size) a.regions)
      × ((is_ok res ≡ true) ⊎ ((b ≡ a) × (memory' ≡ memory)))
      × (is_ok (allocate_page a memory).0 ≡ has_room page_size a.regions)
unfolding allocate_contiguous_pages allocate_page
allocate_contiguous_pages_complete a memory count bounded h =
    let found = first_fit (λ r. Region.allocate_contiguous_pages r count) a.regions in
    (
      is_ok-finish_allocation a memory (count * page_size) found
          ∙ first_fit-has_room (count * page_size) _ (contiguous-TakesFront count) a.regions bounded
              (contiguous_fits count h),
      finish-err a memory (count * page_size) found,
      is_ok-finish_allocation a memory page_size _
          ∙ first_fit-has_room page_size _ page-TakesFront a.regions bounded page_fits,
    )

-- In a valid allocator, freeing allocated pages that end below 2 ^ 64 at once gives the allocator
-- from before the allocation.
pub free-allocate :
    (a : PhysicalAllocator) (memory : Memory) (count p : ℕ)
    → IsValid a
    → p + count * page_size < word
    → (allocate_contiguous_pages a memory count).0 ≡ ok p
    → free_contiguous_pages p count (allocate_contiguous_pages a memory count).1 ≡ some a
unfolding allocate_contiguous_pages
free-allocate a memory count p v small h =
    let (out, e) = finish-ok a memory (count * page_size) p _ h in
    let t =
      first_fit-Taken (count * page_size) _ (contiguous-TakesFront count) a.regions 0 p out
        v.ordered e in
    rw e (
      free_contiguous_lem (record { regions = out }) count p t.positive small
      ∙ taken-insert (count * page_size) _ (contiguous-TakesFront count) a p out v e)
