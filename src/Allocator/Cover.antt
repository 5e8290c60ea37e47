-- ===== src/Allocator/Cover.antt =====
-- The set of free addresses: which addresses the regions of the allocator cover, and what merging
-- and inserting a range and reserving one do to that set.
use lazers.Base.{
  ℕ, zero, suc, ◌<◌, min, max, Bool, false, not, ◌&&◌, ◌||◌, some, List, [], ◌∷◌, ◌++◌, ◌≡◌, refl,
  inl, inr, arith,
}
use lazers.Base.Tests.{ltb, leb, Bool-cases}
use lazers.Base.Slots.{insert_idx}
use lazers.Base.Results.{and_then-eq-some}
use lazers.Allocator.{absorb, reserve_one, reserve_loop}
use lazers.Allocator.Region.{PhysicalRegion}

abbrev pub in_range : ℕ → ℕ → ℕ → Bool
in_range s e x = leb s x && ltb x e

abbrev pub covers : List PhysicalRegion → ℕ → Bool
covers [] x = false
covers (r ∷ rs) x = in_range r.start r.end x || covers rs x

-- Every region holds an address.
abbrev pub AllProper : List PhysicalRegion → Type 0
AllProper [] = Unit
AllProper (r ∷ rs) = (r.start < r.end) × AllProper rs

pub covers-insert_idx :
    (rs : List PhysicalRegion) (i : ℕ) (r : PhysicalRegion) (x : ℕ)
    → covers (insert_idx rs i r) x ≡ (covers rs x || in_range r.start r.end x)
covers-insert_idx rs zero r x = ground arith
covers-insert_idx [] (suc i) r x = ground arith
covers-insert_idx (q ∷ rs) (suc i) r x = ground (arith, covers-insert_idx rs i r x)

pub covers-append :
    (rs qs : List PhysicalRegion) (x : ℕ) → covers (rs ++ qs) x ≡ (covers rs x || covers qs x)
covers-append [] qs x = refl
covers-append (r ∷ rs) qs x = ground (arith, covers-append rs qs x)

-- Merging neither adds an address nor loses one.
pub covers-absorb :
    (rs : List PhysicalRegion) (s e x : ℕ)
    → s < e
    → AllProper rs
    → let m = absorb s e rs in
      (covers m.kept x || in_range m.start m.end x) ≡ (covers rs x || in_range s e x)
unfolding absorb
covers-absorb [] s e x h p = refl
covers-absorb (r ∷ rs) s e x h p = elim (Bool-cases (ltb r.end s || ltb e r.start)) [
  | inl apart ↦ rw apart (ground (arith, covers-absorb rs s e x h p.1))
  | inr touching ↦
      rw touching
        (ground (arith, covers-absorb rs (min s r.start) (max e r.end) x (omega arith) p.1))
]

covers-reserve_one :
    (s e count x : ℕ) (r : PhysicalRegion) {out : ℕ × List PhysicalRegion}
    → s < e
    → reserve_one s e count r ≡ some out
    → covers out.1 x ≡ (in_range r.start r.end x && not (in_range s e x))
unfolding reserve_one
covers-reserve_one s e count x r h k = ground arith

-- Reserving takes away the addresses of the range, and no other.
pub covers-reserve_loop :
    (rs : List PhysicalRegion) (s e count x : ℕ) {out : List PhysicalRegion}
    → s < e
    → reserve_loop s e count rs ≡ some out
    → covers out x ≡ (covers rs x && not (in_range s e x))
unfolding reserve_loop
covers-reserve_loop [] s e count x h k = ground arith
covers-reserve_loop (r ∷ rs) s e count x h k =
    let (one, e1, k1) = and_then-eq-some (reserve_one s e count r) _ k in
    let (rest, e2, k2) = and_then-eq-some (reserve_loop s e one.0 rs) _ k1 in
    ground (
      arith,
      covers-append one.1 rest x,
      covers-reserve_one s e count x r h e1,
      covers-reserve_loop rs s e one.0 x h e2,
    )
