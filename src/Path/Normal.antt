-- ===== src/Path/Normal.antt =====
-- What kernel/kernel/src/storage/path.rs computes: the walk along the components of both paths.
use lazers.Base.{
  ℕ, ◌<◌, false, ◌||◌, Option, none, some, List, [], ◌∷◌, ◌++◌, ◌≡◌, refl, ap, ◌∙◌, inl, inr, arith,
}
use lazers.Base.Tests.{ltb, leb, if◌then◌else◌, ◌==◌, Bool-cases, Option-cases}
use mathlib.Core.Path.{subst}
use lazers.Base.Lists.{length}
use lazers.Base.Words.{Bytes}
use lazers.Base.Text.{equal, is_nil, starts_with}
use lazers.Base.Results.{Result, ok, err, ◌>>=◌, and_then, and_then-eq-some}
use lazers.Path.{
  StorageError, invalid_path, max_path_components, normalize_path_parts, at_root, finish, split,
  normalize_path, dot, dot_dot,
}
use lazers.Path.Stack.{
  render, walk_of, outside, enter, enter_all, walked, AllFilled, walk_part-enter,
}

outside-AllFilled : (parts : List Bytes) → AllFilled parts → AllFilled (outside parts)
outside-AllFilled [] h = h
outside-AllFilled (part ∷ parts) (_, h) = h

enter-AllFilled :
    (size : ℕ) (part : Bytes) (parts : List Bytes) {after : List Bytes}
    → AllFilled parts
    → enter size part parts ≡ some after
    → AllFilled after
unfolding enter
enter-AllFilled size part parts {after} filled h =
    elim (Bool-cases (is_nil part || equal part dot)) [
      | inl stays ↦ let e : parts ≡ after = cc (rw stays at h) in subst AllFilled e filled
      | inr moves ↦ elim (Bool-cases (equal part dot_dot)) [
        | inl up ↦
            let e : outside parts ≡ after = cc (rw (moves, up) at h) in
            subst AllFilled e (outside-AllFilled parts filled)
        | inr down ↦
            elim (Bool-cases (
              leb max_path_components (length parts)
              || ltb size (length (render (part ∷ parts))))) [
                | inl full ↦ absurd (cc (rw (moves, down, full) at h))
                | inr fits ↦
                    let e : part ∷ parts ≡ after = cc (rw (moves, down, fits) at h) in
                    subst AllFilled e (ground arith, filled)
              ]
      ]
    ]

parts-enter_all :
    (size : ℕ) (rest : List Bytes) (parts : List Bytes)
    → AllFilled parts
    → normalize_path_parts size rest (walk_of parts) ≡ walked (enter_all size rest parts)
unfolding normalize_path_parts
parts-enter_all size [] parts filled = refl
parts-enter_all size (part ∷ rest) parts filled = elim (Option-cases (enter size part parts)) [
  | inl refused ↦ rw (walk_part-enter size part parts filled, refused, and_then) refl
  | inr (after, e) ↦
      rw (walk_part-enter size part parts filled, e, and_then)
        (parts-enter_all size rest after (enter-AllFilled size part parts filled e))
]

pub enter_all-append :
    (size : ℕ) (xs ys parts : List Bytes)
    → enter_all size (xs ++ ys) parts ≡ and_then (enter_all size xs parts) (enter_all size ys)
enter_all-append size [] ys parts = refl
enter_all-append size (x ∷ xs) ys parts = elim (Option-cases (enter size x parts)) [
  | inl refused ↦ rw (refused, and_then) refl
  | inr (after, e) ↦ rw (e, and_then) (enter_all-append size xs ys after)
]

enter_all-AllFilled :
    (size : ℕ) (rest parts : List Bytes) {after : List Bytes}
    → AllFilled parts
    → enter_all size rest parts ≡ some after
    → AllFilled after
enter_all-AllFilled size [] parts {after} filled h =
    let e : parts ≡ after = cc in subst AllFilled e filled
enter_all-AllFilled size (part ∷ rest) parts filled h =
    let (mid, e, later) = and_then-eq-some (enter size part parts) (enter_all size rest) h in
    enter_all-AllFilled size rest mid (enter-AllFilled size part parts filled e) later

-- The components to walk along: of the path, and before them those of the directory if the path is
-- not absolute.
abbrev pub components : Bytes → Bytes → List Bytes
components cwd path = if starts_with b'/' path then split path else split cwd ++ split path

abbrev pub answer : Option (List Bytes) → Result StorageError Bytes
answer none = err invalid_path
answer (some parts) = ok (render parts)

finish-walked : (o : Option (List Bytes)) → finish (walked o) ≡ answer o
finish-walked none = refl
finish-walked (some parts) = refl

both_walked :
    (size : ℕ) (xs ys : List Bytes)
    → (normalize_path_parts size xs at_root >>= normalize_path_parts size ys)
      ≡ walked (and_then (enter_all size xs []) (enter_all size ys))
both_walked size xs ys = elim (Option-cases (enter_all size xs [])) [
  | inl refused ↦ rw (parts-enter_all size xs [] tt, refused, and_then) refl
  | inr (mid, e) ↦
      rw (parts-enter_all size xs [] tt, e, and_then)
        (parts-enter_all size ys mid (enter_all-AllFilled size xs [] tt e))
]

-- With a buffer that is not empty, a path that is not empty gives the text of the stack at which a walk
-- along the components from the root ends, or the error if the walk has more than 64 components or
-- does not fit at some point.
pub normalize_path-enter_all :
    (size : ℕ) (cwd path : Bytes)
    → 0 < size
    → is_nil path ≡ false
    → normalize_path size cwd path ≡ some (answer (enter_all size (components cwd path) []))
unfolding normalize_path
normalize_path-enter_all size cwd path room given =
    let there : (size == 0) ≡ false = ground arith in
    elim (Bool-cases (starts_with b'/' path)) [
      | inl absolute ↦
          rw (given, there, absolute)
            (ap some (ap finish (parts-enter_all size (split path) [] tt) ∙ finish-walked _))
      | inr relative ↦
          rw (given, there, relative, enter_all-append size (split cwd) (split path) [])
            (ap some (ap finish (both_walked size (split cwd) (split path)) ∙ finish-walked _))
    ]
