-- ===== src/Allocator/FirstFit.antt =====
-- The search for a region that `allocate_page` and `allocate_contiguous_pages` share, for any method
-- of a region that takes `size` bytes from its front.
use lazers.Base.{
  ℕ, suc, ◌+◌, ◌≤◌, ◌<◌, Bool, true, false, not, ◌&&◌, ◌||◌, Option, none, some, List, [], ◌∷◌, ◌≡◌,
  refl, sym, ◌∙◌, inl, inr, arith,
}
use lazers.Base.Tests.{leb, if◌then◌else◌, ◌==◌, Option-cases}
use lazers.Base.Lists.{length}
use lazers.Base.Words.{word}
use lazers.Base.Results.{and_then, and_then-eq-some}
use lazers.Allocator.{first_fit, absorb}
use lazers.Allocator.Cover.{in_range, covers}
use lazers.Allocator.Order.{
  IsOrdered, IsOrdered-le, covers_below, length-absorb, length-absorb_touching, length-absorb_below,
}
use lazers.Allocator.Region.{PhysicalRegion, is_empty}

-- What a method takes from region `r`: the address `p`, leaving `left`.
pub record TakesFront (size : ℕ) (r : PhysicalRegion) (p : ℕ) (left : PhysicalRegion) : Type 0 where
  pub at_start : p ≡ r.start
  pub moved : left.start ≡ p + size
  pub same_end : left.end ≡ r.end
  pub within : p + size ≤ r.end
  pub nonzero : 0 < p
  pub positive : 0 < size

-- The region can give `size` bytes.
abbrev pub fits_in : ℕ → PhysicalRegion → Bool
fits_in size r = not (r.start == 0) && leb (r.start + size) r.end

abbrev pub has_room : ℕ → List PhysicalRegion → Bool
has_room size [] = false
has_room size (r ∷ rs) = fits_in size r || has_room size rs

-- Region ends are `u64` values.
abbrev pub AllBounded : List PhysicalRegion → Type 0
AllBounded [] = Unit
AllBounded (r ∷ rs) = (r.end < word) × AllBounded rs

abbrev pub is_some {ℓ} : {A : Type ℓ} → Option A → Bool
is_some none = false
is_some (some a) = true

module _ (size : ℕ) (take : PhysicalRegion → Option (ℕ × PhysicalRegion))
    (front : (r : PhysicalRegion) (p : ℕ) (left : PhysicalRegion)
      → take r ≡ some (p, left)
      → TakesFront size r p left) where
  -- What the search has done to regions that start at `lo` or above.
  pub record Taken (lo : ℕ) (rs : List PhysicalRegion) (p : ℕ) (out : List PhysicalRegion)
      : Type 0 where
    pub nonzero : 0 < p
    pub positive : 0 < size
    pub low : lo ≤ p
    pub ordered : IsOrdered lo out
    pub shorter : length out ≤ length rs
    pub was_free : (x : ℕ) → in_range p (p + size) x ≡ true → covers rs x ≡ true
    pub taken : (x : ℕ) → covers out x ≡ (covers rs x && not (in_range p (p + size) x))
    pub mergeable : length (absorb p (p + size) out).kept < length rs

  Taken-here :
      (lo : ℕ) (r : PhysicalRegion) (rs : List PhysicalRegion) (p : ℕ) (left : PhysicalRegion)
      → IsOrdered lo (r ∷ rs)
      → take r ≡ some (p, left)
      → Taken lo (r ∷ rs) p (if is_empty left then rs else left ∷ rs)
  unfolding is_empty
  Taken-here lo r rs p left (a, b, c) h =
      let f = front r p left h in
      record {
        nonzero = f.nonzero;
        positive = f.positive;
        low = omega (arith, f.at_start);
        ordered = ground (arith, f.at_start, f.moved, f.same_end, IsOrdered-le rs (suc r.end) lo);
        shorter = ground arith;
        was_free = λ x k. ground (arith, f.at_start, f.within, f.positive);
        taken = λ x. ground (
          arith,
          f.at_start,
          f.moved,
          f.same_end,
          f.within,
          f.positive,
          covers_below rs (suc r.end) x c,
        );
        mergeable = ground (
          arith,
          f.at_start,
          f.moved,
          f.same_end,
          f.within,
          f.positive,
          length-absorb rs p (p + size),
          length-absorb_touching left rs p (p + size),
        );
      }

  -- A region that gives nothing stays in front of what the search leaves of the others.
  Taken-later :
      (lo : ℕ) (r : PhysicalRegion) (rs out : List PhysicalRegion) (p : ℕ)
      → IsOrdered lo (r ∷ rs)
      → Taken (suc r.end) rs p out
      → Taken lo (r ∷ rs) p (r ∷ out)
  Taken-later lo r rs out p (a, b, c) t = record {
    nonzero = t.nonzero;
    positive = t.positive;
    low = omega (arith, t.low);
    ordered = (a, b, t.ordered);
    shorter = omega (arith, t.shorter);
    was_free = λ x k. ground (arith, t.was_free x k);
    taken = λ x. ground (arith, t.taken x, t.low);
    mergeable = omega (arith, t.low, t.mergeable, length-absorb_below r out p (p + size));
  }

  first_fit-none :
      (r : PhysicalRegion) (rs : List PhysicalRegion)
      → take r ≡ none
      → first_fit take (r ∷ rs)
        ≡ and_then (first_fit take rs) (λ found. some (found.0, r ∷ found.1))
  unfolding first_fit
  first_fit-none r rs h = rw (h, first_fit)

  first_fit-some :
      (r : PhysicalRegion) (rs : List PhysicalRegion) (p : ℕ) (left : PhysicalRegion)
      → take r ≡ some (p, left)
      → first_fit take (r ∷ rs) ≡ some (p, if is_empty left then rs else left ∷ rs)
  unfolding first_fit
  first_fit-some r rs p left h = rw (h, first_fit)

  -- A search that finds a region takes `size` free bytes from it and nothing else.
  pub first_fit-Taken :
      (rs : List PhysicalRegion) (lo p : ℕ) (out : List PhysicalRegion)
      → IsOrdered lo rs
      → first_fit take rs ≡ some (p, out)
      → Taken lo rs p out
  first_fit-Taken [] lo p out o h = absurd (unfold first_fit in cc)
  first_fit-Taken (r ∷ rs) lo p out o h = elim (Option-cases (take r)) [
    | inl nothing ↦
        let (found, e, k) =
          and_then-eq-some (first_fit take rs) _ (sym (first_fit-none r rs nothing) ∙ h) in
        let p' : p ≡ found.0 = cc in
        let out' : out ≡ r ∷ found.1 = cc in
        rw (p', out')
          (Taken-later lo r rs found.1 found.0 o
            (first_fit-Taken rs (suc r.end) found.0 found.1 o.2 e))
    | inr ((q, left), e) ↦
        let k = sym (first_fit-some r rs q left e) ∙ h in
        let p' : p ≡ q = cc in
        let out' : out ≡ (if is_empty left then rs else left ∷ rs) = cc in
        rw (p', out') (Taken-here lo r rs q left o e)
  ]

  -- The search succeeds exactly if a region has room, where no region reaches the last address.
  pub first_fit-has_room :
      (rs : List PhysicalRegion)
      → AllBounded rs
      → ((r : PhysicalRegion) → r.end < word → is_some (take r) ≡ fits_in size r)
      → is_some (first_fit take rs) ≡ has_room size rs
  unfolding first_fit
  first_fit-has_room [] b h = refl
  first_fit-has_room (r ∷ rs) b h = ground (arith, h r b.0, first_fit-has_room rs b.1 h)
