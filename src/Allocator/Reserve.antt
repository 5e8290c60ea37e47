-- ===== src/Allocator/Reserve.antt =====
-- `reserve_range`: the invariant, when the capacity suffices, and the set of free addresses
-- afterwards.
use lazers.Base.{
  ℕ, suc, ◌+◌, ◌≤◌, ◌<◌, not, ◌&&◌, none, some, List, [], ◌∷◌, ◌++◌, ◌≡◌, refl, ◌⊎◌, inl, inr,
  arith,
}
use lazers.Base.Tests.{leb, Bool-cases, Option-cases}
use lazers.Base.Lists.{length, length-append}
use lazers.Base.Results.{and_then-eq-some}
use lazers.Allocator.{PhysicalAllocator, reserve_one, reserve_loop, reserve_range, max_free_ranges}
use lazers.Allocator.Cover.{in_range, covers-reserve_loop}
use lazers.Allocator.Order.{IsOrdered, IsOrdered-le}
use lazers.Allocator.Insert.{IsValid, free}
use lazers.Allocator.Region.{PhysicalRegion}

reserve_one-IsOrdered :
    (lo s e count : ℕ) (r : PhysicalRegion) (rest : List PhysicalRegion)
    {out : ℕ × List PhysicalRegion}
    → s < e
    → lo ≤ r.start
    → r.start < r.end
    → IsOrdered (suc r.end) rest
    → reserve_one s e count r ≡ some out
    → IsOrdered lo (out.1 ++ rest)
unfolding reserve_one
reserve_one-IsOrdered lo s e count r rest h a b c k =
    ground (arith, IsOrdered-le rest (suc r.end) lo, IsOrdered-le rest (suc r.end) (suc s))

reserve_loop-IsOrdered :
    (rs : List PhysicalRegion) (lo s e count : ℕ) {out : List PhysicalRegion}
    → s < e
    → IsOrdered lo rs
    → reserve_loop s e count rs ≡ some out
    → IsOrdered lo out
unfolding reserve_loop
reserve_loop-IsOrdered [] lo s e count h o k = ground arith
reserve_loop-IsOrdered (r ∷ rs) lo s e count {out} h (a, b, c) k =
    let (one, e1, k1) = and_then-eq-some (reserve_one s e count r) _ k in
    let (rest, e2, k2) = and_then-eq-some (reserve_loop s e one.0 rs) _ k1 in
    let o = reserve_loop-IsOrdered rs (suc r.end) s e one.0 h c e2 in
    let same : out ≡ one.1 ++ rest = cc k2 in
    rw same (reserve_one-IsOrdered lo s e count r rest h a b o e1)

-- The count that the loop carries is the number of regions.
reserve_one-count :
    (s e count : ℕ) (r : PhysicalRegion) (n : ℕ) {out : ℕ × List PhysicalRegion}
    → suc n ≤ count
    → count ≤ max_free_ranges
    → reserve_one s e count r ≡ some out
    → (out.0 + 1 ≡ count + length out.1) × (out.0 ≤ max_free_ranges) × (n ≤ out.0)
unfolding reserve_one
reserve_one-count s e count r n h k q = ground arith

reserve_loop_above :
    (rs : List PhysicalRegion) (lo s e count : ℕ)
    → IsOrdered lo rs
    → e < lo
    → reserve_loop s e count rs ≡ some rs
unfolding reserve_loop reserve_one
reserve_loop_above [] lo s e count o h = refl
reserve_loop_above (r ∷ rs) lo s e count (a, b, c) h =
    ground (arith, reserve_loop_above rs (suc r.end) s e count c (omega arith))

length-reserve_loop :
    (rs : List PhysicalRegion) (s e count : ℕ) {out : List PhysicalRegion}
    → length rs ≤ count
    → count ≤ max_free_ranges
    → reserve_loop s e count rs ≡ some out
    → length out + count ≤ max_free_ranges + length rs
unfolding reserve_loop
length-reserve_loop [] s e count h k q = ground arith
length-reserve_loop (r ∷ rs) s e count {out} h k q =
    let (one, e1, q1) = and_then-eq-some (reserve_one s e count r) _ q in
    let (rest, e2, q2) = and_then-eq-some (reserve_loop s e one.0 rs) _ q1 in
    let (c1, c2, c3) = reserve_one-count s e count r (length rs) h k e1 in
    let same : out ≡ one.1 ++ rest = cc q2 in
    rw same (omega (arith, length-append one.1 rest, length-reserve_loop rs s e one.0 c3 c2 e2))

reserve_one-ne-none :
    (s e count : ℕ) (r : PhysicalRegion)
    → count < max_free_ranges
    → ¬ (reserve_one s e count r ≡ none)
unfolding reserve_one
reserve_one-ne-none s e count r h = ground arith

-- The count grows only where the range ends inside the region.
reserve_one_grows :
    (s e count : ℕ) (r : PhysicalRegion) {out : ℕ × List PhysicalRegion}
    → count < max_free_ranges
    → reserve_one s e count r ≡ some out
    → (out.0 < max_free_ranges) ⊎ (e < r.end)
unfolding reserve_one
reserve_one_grows s e count r h k = ground arith

reserve_loop_total :
    (rs : List PhysicalRegion) (lo s e count : ℕ)
    → s < e
    → count < max_free_ranges
    → IsOrdered lo rs
    → (out : List PhysicalRegion) × (reserve_loop s e count rs ≡ some out)
unfolding reserve_loop
reserve_loop_total [] lo s e count h k o = ([], refl)
reserve_loop_total (r ∷ rs) lo s e count h k (a, b, c) =
    elim (Option-cases (reserve_one s e count r)) [
      | inl panics ↦ absurd (reserve_one-ne-none s e count r k panics)
      | inr (one, e1) ↦ elim (reserve_one_grows s e count r k e1) [
        | inl room ↦
            let (rest, e2) = reserve_loop_total rs (suc r.end) s e one.0 h room c in
            (one.1 ++ rest, rw (e1, e2))
        | inr last ↦
            let e2 = reserve_loop_above rs (suc r.end) s e one.0 c (omega arith) in
            (one.1 ++ rs, rw (e1, e2))
      ]
    ]

reserve_range-cases :
    (s e : ℕ) (a : PhysicalAllocator) {b : PhysicalAllocator}
    → reserve_range s e a ≡ some b
    → ((e ≤ s) × (b ≡ a))
      ⊎ ((s < e) × (reserve_loop s e (length a.regions) a.regions ≡ some b.regions))
unfolding reserve_range
reserve_range-cases s e a h = ground arith

-- A reservation in a valid allocator that does not panic keeps it valid, and afterwards an address is free exactly
-- if it was free before and lies outside the range.
pub reserve_range_lem :
    (s e : ℕ) (a : PhysicalAllocator) {b : PhysicalAllocator}
    → IsValid a
    → reserve_range s e a ≡ some b
    → IsValid b × ((x : ℕ) → free b x ≡ (free a x && not (in_range s e x)))
reserve_range_lem s e a v h = elim (reserve_range-cases s e a h) [
  | inl (empty, same) ↦ rw same (v, λ x. ground arith)
  | inr (proper, done) ↦ (
    record {
      ordered = reserve_loop-IsOrdered a.regions 0 s e (length a.regions) proper v.ordered done;
      fits =
          omega
            (arith, length-reserve_loop a.regions s e (length a.regions) (omega arith) v.fits done);
    },
    λ x. covers-reserve_loop a.regions s e (length a.regions) x proper done,
  )
]

-- In a valid allocator with a free slot in the table a reservation does not panic.
pub reserve_range_total :
    (s e : ℕ) (a : PhysicalAllocator)
    → IsValid a
    → length a.regions < max_free_ranges
    → (b : PhysicalAllocator) × (reserve_range s e a ≡ some b)
unfolding reserve_range
reserve_range_total s e a v h = elim (Bool-cases (leb e s)) [
  | inl empty ↦ (a, rw empty)
  | inr proper ↦
      let (out, done) =
        reserve_loop_total a.regions 0 s e (length a.regions) (ground arith) h v.ordered in
      (record { regions = out }, rw (proper, done))
]
