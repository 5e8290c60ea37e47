-- ===== src/Allocator/Unique.antt =====
-- The regions are a normal form of the set of free addresses: two ordered lists that cover the same
-- addresses are equal.
use lazers.Base.{ℕ, suc, ◌≤◌, List, [], ◌∷◌, ◌≡◌, refl, sym, ap, ◌∙◌, arith}
use native.Mathlib.Decide.{dec_lt}
use lazers.Allocator.Cover.{covers}
use lazers.Allocator.Order.{IsOrdered, covers_below}
use lazers.Allocator.Region.{PhysicalRegion}

abbrev SameCover : List PhysicalRegion → List PhysicalRegion → Type 0
SameCover rs qs = (x : ℕ) → covers rs x ≡ covers qs x

-- The first address covered by `q ∷ qs` is no lower than that of `r ∷ rs`.
start-le :
    (lo : ℕ) (r q : PhysicalRegion) (rs qs : List PhysicalRegion)
    → IsOrdered lo (r ∷ rs)
    → IsOrdered lo (q ∷ qs)
    → SameCover (r ∷ rs) (q ∷ qs)
    → r.start ≤ q.start
start-le lo r q rs qs (a, b, c) (d, e, f) same = elim (dec_lt q.start r.start) [
  | no h ↦ omega arith
  | yes h ↦
      absurd
        (ground (arith, same q.start, covers_below (r ∷ rs) r.start q.start (omega arith, b, c) h))
]

end-le :
    (lo : ℕ) (r q : PhysicalRegion) (rs qs : List PhysicalRegion)
    → IsOrdered lo (r ∷ rs)
    → IsOrdered lo (q ∷ qs)
    → r.start ≡ q.start
    → SameCover (r ∷ rs) (q ∷ qs)
    → r.end ≤ q.end
end-le lo r q rs qs (a, b, c) (d, e, f) s same = elim (dec_lt q.end r.end) [
  | no h ↦ omega arith
  | yes h ↦ absurd (ground (arith, same q.end, covers_below qs (suc q.end) q.end f (omega arith)))
]

tail-SameCover :
    (r : PhysicalRegion) (rs qs : List PhysicalRegion)
    → IsOrdered (suc r.end) rs
    → IsOrdered (suc r.end) qs
    → SameCover (r ∷ rs) (r ∷ qs)
    → SameCover rs qs
tail-SameCover r rs qs o p same x = elim (dec_lt x (suc r.end)) [
  | yes h ↦ covers_below rs (suc r.end) x o h ∙ sym (covers_below qs (suc r.end) x p h)
  | no h ↦ ground (arith, same x)
]

pub eq_of_SameCover :
    (lo : ℕ) (rs qs : List PhysicalRegion)
    → IsOrdered lo rs
    → IsOrdered lo qs
    → SameCover rs qs
    → rs ≡ qs
eq_of_SameCover lo [] [] o p same = refl
eq_of_SameCover lo [] (q ∷ qs) o p same = absurd (ground (arith, same q.start))
eq_of_SameCover lo (r ∷ rs) [] o p same = absurd (ground (arith, same r.start))
eq_of_SameCover lo (r ∷ rs) (q ∷ qs) o p same =
    let s : r.start ≡ q.start =
      omega
        (arith, start-le lo r q rs qs o p same, start-le lo q r qs rs p o (λ x. sym (same x))) in
    let e : r.end ≡ q.end = omega (
      arith,
      end-le lo r q rs qs o p s same,
      end-le lo q r qs rs p o (sym s) (λ x. sym (same x)),
    ) in
    let w : q ≡ r = cc in
    let p' = rw w at p in
    let same' = rw w at same in
    rw w (
      ap (◌∷◌ r)
        (eq_of_SameCover (suc r.end) rs qs o.2 p'.2 (tail-SameCover r rs qs o.2 p'.2 same')))
