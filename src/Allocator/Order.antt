-- ===== src/Allocator/Order.antt =====
-- The order of the allocator's regions: they ascend, none is empty, and between two of them lies at
-- least one address that is not free, so that adjacent free ranges are one region.
use lazers.Base.{
  ℕ, suc, ◌≤◌, ◌<◌, min, max, false, ◌||◌, List, [], ◌∷◌, ◌≡◌, refl, ◌⊎◌, inl, inr, arith,
}
use lazers.Base.Tests.{ltb, Bool-cases}
use lazers.Base.Slots.{insert_idx}
use lazers.Base.Lists.{length}
use lazers.Allocator.{absorb, insert_at}
use lazers.Allocator.Cover.{covers, AllProper}
use lazers.Allocator.Region.{PhysicalRegion, new}

-- The regions are in order, and the first starts at `lo` or above.
abbrev pub IsOrdered : ℕ → List PhysicalRegion → Type 0
IsOrdered lo [] = Unit
IsOrdered lo (r ∷ rs) = (lo ≤ r.start) × (r.start < r.end) × IsOrdered (suc r.end) rs

abbrev pub AllApart : ℕ → ℕ → List PhysicalRegion → Type 0
AllApart s e [] = Unit
AllApart s e (r ∷ rs) = ((r.end < s) ⊎ (e < r.start)) × AllApart s e rs

pub IsOrdered-le :
    (rs : List PhysicalRegion) (lo lo' : ℕ) → lo' ≤ lo → IsOrdered lo rs → IsOrdered lo' rs
IsOrdered-le [] lo lo' h o = tt
IsOrdered-le (r ∷ rs) lo lo' h (a, b, c) = (omega arith, b, c)

pub IsOrdered-AllProper : (rs : List PhysicalRegion) (lo : ℕ) → IsOrdered lo rs → AllProper rs
IsOrdered-AllProper [] lo o = tt
IsOrdered-AllProper (r ∷ rs) lo (a, b, c) = (b, IsOrdered-AllProper rs (suc r.end) c)

-- Nothing below `lo` is covered.
pub covers_below :
    (rs : List PhysicalRegion) (lo x : ℕ) → IsOrdered lo rs → x < lo → covers rs x ≡ false
covers_below [] lo x o h = refl
covers_below (r ∷ rs) lo x (a, b, c) h =
    ground (arith, covers_below rs (suc r.end) x c (omega arith))

AllApart-above :
    (rs : List PhysicalRegion) (lo s e : ℕ) → IsOrdered lo rs → e < lo → AllApart s e rs
AllApart-above [] lo s e o h = tt
AllApart-above (r ∷ rs) lo s e (a, b, c) h =
    (inr (omega arith), AllApart-above rs (suc r.end) s e c (omega arith))

-- What lies wholly above the range is not merged into it.
absorb_above :
    (rs : List PhysicalRegion) (lo s e : ℕ)
    → IsOrdered lo rs
    → e < lo
    → absorb s e rs ≡ record { kept = rs; start = s; end = e }
unfolding absorb
absorb_above [] lo s e o h = refl
absorb_above (r ∷ rs) lo s e (a, b, c) h =
    ground (arith, absorb_above rs (suc r.end) s e c (omega arith))

-- What is known of the outcome of a merge.
pub record MergeInv (lo s : ℕ) (kept : List PhysicalRegion) (ms me : ℕ) : Type 0 where
  pub proper : ms < me
  pub low : min s lo ≤ ms
  pub ordered : IsOrdered lo kept
  pub apart : AllApart ms me kept

pub absorb-MergeInv :
    (rs : List PhysicalRegion) (lo s e : ℕ)
    → s < e
    → IsOrdered lo rs
    → let m = absorb s e rs in MergeInv lo s m.kept m.start m.end
unfolding absorb
absorb-MergeInv [] lo s e h o = ground arith
absorb-MergeInv (r ∷ rs) lo s e h (a, b, c) = elim (Bool-cases (ltb r.end s || ltb e r.start)) [
  | inr touching ↦
      let i = absorb-MergeInv rs (suc r.end) (min s r.start) (max e r.end) (omega arith) c in
      rw touching (record {
        proper = i.proper;
        low = omega (arith, i.low);
        ordered = IsOrdered-le _ (suc r.end) lo (omega arith) i.ordered;
        apart = i.apart;
      })
  | inl away ↦ rw away (
      let i = absorb-MergeInv rs (suc r.end) s e h c in
      record {
        proper = i.proper;
        low = ground (arith, i.low, absorb_above rs (suc r.end) s e c);
        ordered = (a, b, i.ordered);
        apart = (ground (arith, i.low, absorb_above rs (suc r.end) s e c), i.apart);
      })
]

pub insert_at-IsOrdered :
    (rs : List PhysicalRegion) (lo s e : ℕ)
    → lo ≤ s
    → s < e
    → IsOrdered lo rs
    → AllApart s e rs
    → IsOrdered lo (insert_idx rs (insert_at s rs) (new s e))
unfolding insert_at
insert_at-IsOrdered [] lo s e h k o p = (h, k, tt)
insert_at-IsOrdered (r ∷ rs) lo s e h k (a, b, c) (d, p) = elim (Bool-cases (ltb r.start s)) [
  | inl before ↦ rw before (a, b, insert_at-IsOrdered rs (suc r.end) s e (ground arith) k c p)
  | inr after ↦ rw after (h, k, (ground arith, b, c))
]

pub length-absorb : (rs : List PhysicalRegion) (s e : ℕ) → length (absorb s e rs).kept ≤ length rs
unfolding absorb
length-absorb [] s e = omega arith
length-absorb (r ∷ rs) s e = elim (Bool-cases (ltb r.end s || ltb e r.start)) [
  | inl apart ↦ rw apart (omega (arith, length-absorb rs s e))
  | inr touching ↦ rw touching (omega (arith, length-absorb rs (min s r.start) (max e r.end)))
]

-- A region that touches the range is merged.
pub length-absorb_touching :
    (r : PhysicalRegion) (rs : List PhysicalRegion) (s e : ℕ)
    → r.start ≤ e
    → s ≤ r.end
    → length (absorb s e (r ∷ rs)).kept ≤ length rs
unfolding absorb
length-absorb_touching r rs s e h k = ground (arith, length-absorb rs (min s r.start) (max e r.end))

-- A region below the range is kept.
pub length-absorb_below :
    (r : PhysicalRegion) (rs : List PhysicalRegion) (s e : ℕ)
    → r.end < s
    → length (absorb s e (r ∷ rs)).kept ≡ suc (length (absorb s e rs).kept)
unfolding absorb
length-absorb_below r rs s e h = ground arith
