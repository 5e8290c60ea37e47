-- ===== src/Gpt/Names.antt =====
-- The name of a partition (kernel/kernel/src/storage/gpt.rs).
use lazers.Base.{ℕ, suc, ◌-◌, ◌≤◌, true, List, [], ◌∷◌, ◌++◌, ◌≡◌, ◌↔◌, refl, inl, inr, arith}
use lazers.Base.Tests.{ltb, Bool-cases}
use lazers.Base.Lists.{length}
use lazers.Base.Words.{Bytes}
use lazers.Base.Lists.{replicate}
use lazers.Gpt.{GptPartition, max_name_len, matches, name_matches}

abbrev pub padded : ℕ → Bytes → List ℕ
padded n text = text ++ replicate (n - length text) 0

matches_iff :
    (us : List ℕ) (text : Bytes)
    → length text ≤ length us
    → (matches us text ≡ true) ↔ (us ≡ padded (length us) text)
unfolding matches
matches_iff [] [] fits = (λ h. refl, λ h. refl)
matches_iff [] (byte ∷ text) fits = absurd (omega (arith, fits))
matches_iff (unit ∷ us) [] fits =
    let ih = matches_iff us [] (omega arith) in
    let one_more : suc (length us) - 0 ≡ suc (length us) = omega arith in
    let same : length us - 0 ≡ length us = omega arith in
    let step : padded (suc (length us)) [] ≡ 0 ∷ padded (length us) [] = rw (one_more, same) refl in
    rw step (ground (arith, ih))
matches_iff (unit ∷ us) (byte ∷ text) fits =
    let ih = matches_iff us text (omega (arith, fits)) in
    let one_less : suc (length us) - suc (length text) ≡ length us - length text = omega arith in
    rw one_less (ground (arith, ih))

-- A name of 36 units matches a text exactly if it is the text with zeros behind it. A text that is longer
-- matches none.
pub name_matches_iff :
    (partition : GptPartition) (text : Bytes)
    → length partition.name ≡ max_name_len
    → (name_matches partition text ≡ true)
      ↔ ((length text ≤ max_name_len) × (partition.name ≡ padded max_name_len text))
unfolding name_matches
name_matches_iff partition text full = elim (Bool-cases (ltb max_name_len (length text))) [
  | inl long ↦ rw long (ground (arith, long))
  | inr short ↦
      let fits : length text ≤ length partition.name = ground (arith, short, full) in
      let same = matches_iff partition.name text fits in
      rw (short) (ground (arith, rw full at same, short))
]
