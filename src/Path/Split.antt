-- ===== src/Path/Split.antt =====
-- Normalised paths, kernel/kernel/src/storage/path.rs: what their components are, and that they stay as
-- they are when they are normalised again.
use lazers.Base.{ℕ, ◌≤◌, false, ◌||◌, some, List, [], ◌∷◌, ◌++◌, ◌≡◌, refl, inl, inr, arith}
use lazers.Base.Tests.{ltb, leb, ◌==◌, Bool-cases}
use mathlib.Core.Path.{subst}
use lazers.Base.Lists.{length}
use lazers.Base.Words.{Bytes}
use lazers.Base.Text.{equal, is_nil, contains}
use lazers.Path.{max_path_components, split, dot, dot_dot}
use lazers.Path.Stack.{render, outside, enter, AllFilled, length-render_step}

abbrev pub NoSlash : Bytes → Type 0
NoSlash part = contains b'/' part ≡ false

-- A component as it stands in a normalised path.
abbrev pub Plain : Bytes → Type 0
Plain part = ((is_nil part || equal part dot) ≡ false) × (equal part dot_dot ≡ false) × NoSlash part

abbrev pub AllPlain : List Bytes → Type 0
AllPlain [] = Unit {0}
AllPlain (part ∷ parts) = Plain part × AllPlain parts

abbrev pub AllNoSlash : List Bytes → Type 0
AllNoSlash [] = Unit {0}
AllNoSlash (part ∷ parts) = NoSlash part × AllNoSlash parts

split-cons : (bs : Bytes) → (part : Bytes) × (parts : List Bytes) × (split bs ≡ part ∷ parts)
unfolding split
split-cons [] = ([], [], refl)
split-cons (b ∷ bs) = elim (Bool-cases (b == b'/')) [
  | inl slash ↦ ([], split bs, rw slash refl)
  | inr other ↦ let (part, parts, e) = split-cons bs in (b ∷ part, parts, rw (other, e) refl)
]

pub split-AllNoSlash : (bs : Bytes) → AllNoSlash (split bs)
unfolding split contains
split-AllNoSlash [] = (refl, tt)
split-AllNoSlash (b ∷ bs) = elim (Bool-cases (b == b'/')) [
  | inl slash ↦ rw slash (refl, split-AllNoSlash bs)
  | inr other ↦
      let (part, parts, e) = split-cons bs in
      let rest = subst AllNoSlash e (split-AllNoSlash bs) in rw (other, e) (rw other rest.0, rest.1)
]

pub split-append_slash : (xs ys : Bytes) → split (xs ++ (b'/' ∷ ys)) ≡ split xs ++ split ys
unfolding split
split-append_slash [] ys = refl
split-append_slash (x ∷ xs) ys = elim (Bool-cases (x == b'/')) [
  | inl slash ↦ rw (slash, split-append_slash xs ys) refl
  | inr other ↦ let (part, parts, e) = split-cons xs in rw (other, split-append_slash xs ys, e) refl
]

pub split-NoSlash : (part : Bytes) → NoSlash part → split part ≡ part ∷ []
unfolding split contains
split-NoSlash [] h = refl
split-NoSlash (b ∷ bs) h =
    let other : (b == b'/') ≡ false = ground arith in
    let rest : NoSlash bs = ground arith in rw (other, split-NoSlash bs rest) refl

-- A stack that the walk can be at: plain components, at most 64 of them, and a text that fits.
abbrev pub IsCanonical : ℕ → List Bytes → Type 0
IsCanonical size parts =
    AllPlain parts × (length parts ≤ max_path_components) × (length (render parts) ≤ size)

pub plain-AllFilled : (parts : List Bytes) → AllPlain parts → AllFilled parts
plain-AllFilled [] h = tt
plain-AllFilled (part ∷ parts) ((filled, _, _), rest) = (ground arith, plain-AllFilled parts rest)

pub length-outside :
    (part : Bytes) (parts : List Bytes)
    → AllPlain parts
    → length (render parts) ≤ length (render (part ∷ parts))
length-outside part parts h = omega (arith, length-render_step part parts (plain-AllFilled parts h))

outside-IsCanonical :
    (size : ℕ) (parts : List Bytes) → IsCanonical size parts → IsCanonical size (outside parts)
outside-IsCanonical size [] h = h
outside-IsCanonical size (part ∷ parts) ((_, plain), count, fits) =
    (plain, omega arith, omega (arith, length-outside part parts plain))

pub enter-IsCanonical :
    (size : ℕ) (part : Bytes) (parts : List Bytes) {after : List Bytes}
    → NoSlash part
    → IsCanonical size parts
    → enter size part parts ≡ some after
    → IsCanonical size after
unfolding enter
enter-IsCanonical size part parts {after} bare canonical h =
    elim (Bool-cases (is_nil part || equal part dot)) [
      | inl stays ↦
          let e : parts ≡ after = cc (rw stays at h) in subst (IsCanonical size) e canonical
      | inr moves ↦ elim (Bool-cases (equal part dot_dot)) [
        | inl up ↦
            let e : outside parts ≡ after = cc (rw (moves, up) at h) in
            subst (IsCanonical size) e (outside-IsCanonical size parts canonical)
        | inr down ↦
            elim (Bool-cases (
              leb max_path_components (length parts)
              || ltb size (length (render (part ∷ parts))))) [
                | inl full ↦ absurd (cc (rw (moves, down, full) at h))
                | inr fits ↦
                    let e : part ∷ parts ≡ after = cc (rw (moves, down, fits) at h) in
                    subst (IsCanonical size) e
                      (((moves, down, bare), canonical.0), ground arith, ground arith)
              ]
      ]
    ]
