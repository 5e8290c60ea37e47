-- ===== src/Path/Stack.antt =====
-- A path as the stack of its components, and how it refines kernel/kernel/src/storage/path.rs.
use lazers.Base.{
  ℕ, suc, ◌+◌, ◌<◌, true, false, ◌||◌, Option, none, some, List, [], ◌∷◌, ◌++◌, ◌≡◌, refl, ap, inl,
  inr, arith,
}
use lazers.Base.Tests.{ltb, leb, if◌then◌else◌, ◌==◌, Bool-cases}
use lazers.Base.Lists.{take-append, length, take, length-append}
use lazers.Base.Words.{Bytes}
use lazers.Base.Text.{equal, is_nil}
use lazers.Base.Results.{Result, ok, err, and_then}
use lazers.Path.{
  StorageError, invalid_path, Walk, max_path_components, ascend, separator, descend, walk_part, dot,
  dot_dot,
}

-- The text of a path whose components are on the stack, the last one on top.
abbrev pub render : List Bytes → Bytes
render [] = b'/' ∷ []
render (part ∷ []) = b'/' ∷ part
render (part ∷ outer ∷ parts) = render (outer ∷ parts) ++ (b'/' ∷ part)

abbrev pub starts_of : List Bytes → List ℕ
starts_of [] = []
starts_of (part ∷ parts) = length (render parts) ∷ starts_of parts

abbrev pub walk_of : List Bytes → Walk
walk_of parts = record { text = render parts; starts = starts_of parts }

abbrev pub outside : List Bytes → List Bytes
outside [] = []
outside (part ∷ parts) = parts

-- A step on the stack: nothing for an empty component and `.`, out for `..`, and in otherwise if the
-- result has at most 64 components and fits.
unfoldable pub enter : ℕ → Bytes → List Bytes → Option (List Bytes)
enter size part parts =
    if is_nil part || equal part dot
    then some parts
    else if equal part dot_dot
    then some (outside parts)
    else if leb max_path_components (length parts) || ltb size (length (render (part ∷ parts)))
    then none
    else some (part ∷ parts)

abbrev pub enter_all : ℕ → List Bytes → List Bytes → Option (List Bytes)
enter_all size [] parts = some parts
enter_all size (part ∷ rest) parts = and_then (enter size part parts) (enter_all size rest)

abbrev pub walked : Option (List Bytes) → Result StorageError Walk
walked none = err invalid_path
walked (some parts) = ok (walk_of parts)

-- No component is empty.
abbrev pub AllFilled : List Bytes → Type 0
AllFilled [] = Unit {0}
AllFilled (part ∷ parts) = (is_nil part ≡ false) × AllFilled parts

length-filled : (part : Bytes) → is_nil part ≡ false → 0 < length part
length-filled [] h = absurd (cc)
length-filled (b ∷ bs) h = omega arith

pub length-render : (parts : List Bytes) → 0 < length (render parts)
length-render [] = omega arith
length-render (part ∷ []) = omega arith
length-render (part ∷ outer ∷ parts) =
    omega (arith, length-append (render (outer ∷ parts)) (b'/' ∷ part))

-- Only the root has a text of one byte.
length-render_cons :
    (part : Bytes) (parts : List Bytes) → is_nil part ≡ false → 1 < length (render (part ∷ parts))
length-render_cons part [] h = omega (arith, length-filled part h)
length-render_cons part (outer ∷ parts) h =
    omega (arith, length-append (render (outer ∷ parts)) (b'/' ∷ part), length-filled part h)

take-render :
    (part : Bytes) (parts : List Bytes)
    → take (length (render parts)) (render (part ∷ parts)) ≡ render parts
take-render part [] = refl
take-render part (outer ∷ parts) = take-append (render (outer ∷ parts)) (b'/' ∷ part)

render-append :
    (part : Bytes) (parts : List Bytes)
    → AllFilled parts
    → render parts ++ (separator (length (render parts)) ++ part) ≡ render (part ∷ parts)
render-append part [] h = refl
render-append part (outer ∷ parts) (filled, _) =
    let deep : ltb 1 (length (render (outer ∷ parts))) ≡ true =
      ground (arith, length-render_cons outer parts filled) in
    rw deep refl

pub length-render_step :
    (part : Bytes) (parts : List Bytes)
    → AllFilled parts
    → length (render parts) + length part + (if length (render parts) == 1 then 0 else 1)
      ≡ length (render (part ∷ parts))
length-render_step part [] h = omega arith
length-render_step part (outer ∷ parts) (filled, _) =
    let deep : (length (render (outer ∷ parts)) == 1) ≡ false =
      ground (arith, length-render_cons outer parts filled) in
    rw deep (omega (arith, length-append (render (outer ∷ parts)) (b'/' ∷ part)))

length-starts_of : (parts : List Bytes) → length (starts_of parts) ≡ length parts
length-starts_of [] = refl
length-starts_of (part ∷ parts) = ap suc (length-starts_of parts)

ascend-outside :
    (parts : List Bytes) → ascend (starts_of parts) (walk_of parts) ≡ walk_of (outside parts)
ascend-outside [] = refl
ascend-outside (part ∷ parts) =
    ap (λ (text : Bytes). record { text = text; starts = starts_of parts }) (take-render part parts)

pub walk_part-enter :
    (size : ℕ) (part : Bytes) (parts : List Bytes)
    → AllFilled parts
    → walk_part size part (walk_of parts) ≡ walked (enter size part parts)
unfolding walk_part enter descend
walk_part-enter size part parts filled = elim (Bool-cases (is_nil part || equal part dot)) [
  | inl stays ↦ rw stays refl
  | inr moves ↦ elim (Bool-cases (equal part dot_dot)) [
    | inl up ↦ rw (moves, up) (ap ok (ascend-outside parts))
    | inr down ↦
        rw (moves, down, length-starts_of parts, length-render_step part parts filled)
          (rw (render-append part parts filled)
            (elim (Bool-cases (
              leb max_path_components (length parts)
              || ltb size (length (render (part ∷ parts))))) [
                | inl full ↦ rw full refl
                | inr fits ↦ rw fits refl
              ]))
  ]
]
