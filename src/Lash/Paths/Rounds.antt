-- ===== src/Lash/Paths/Rounds.antt =====
-- The loop over the segments of a name ends, and what it comes to (user/lash/src/paths.rs).
use lazers.Base.{ℕ, zero, suc, ◌≤◌, ◌<◌, false, [], ◌∷◌, ◌≡◌, refl, inl, inr, arith}
use lazers.Base.Tests.{◌==◌, Bool-cases, if◌then◌else◌}
use lazers.Base.Lists.{length, drop, length-drop}
use lazers.Base.Words.{Bytes}
use lazers.Base.Results.{Result, ok, err}
use lazers.Base.Text.{is_nil}
use lazers.Lash.Paths.{NormalizedPath, skip_slashes, before_byte, enter_segment, enter_segments}
use lazers.Base.Results.{◌>>=◌}
use lazers.Base.{true, Option, none, some, ◌≢◌, ap, ◌∙◌, sym, List}
use lazers.Path.{split, onto_first}
use lazers.Lash.Paths.{ResolutionError, after_segment}

length-skip_slashes : (bs : Bytes) → length (skip_slashes bs) ≤ length bs
unfolding skip_slashes
length-skip_slashes [] = omega arith
length-skip_slashes (b ∷ bs) = elim (Bool-cases (b == b'/')) [
  | inl e ↦ rw e (omega (arith, length-skip_slashes bs))
  | inr e ↦ rw e (omega arith)
]

-- What is behind the slashes starts with a segment that has a byte.
length-first_segment :
    (bs : Bytes)
    → is_nil (skip_slashes bs) ≡ false
    → 0 < length (before_byte b'/' (skip_slashes bs))
unfolding skip_slashes before_byte
length-first_segment [] some_left = absurd (ground arith)
length-first_segment (b ∷ bs) some_left = elim (Bool-cases (b == b'/')) [
  | inl e ↦ rw e (length-first_segment bs (rw e at some_left))
  | inr e ↦ rw (e, before_byte, e) (omega arith)
]

-- The parts of a text that have a byte.
unfoldable pub filled : List Bytes → List Bytes
filled [] = []
filled (part ∷ parts) = let rest = filled parts in if is_nil part then rest else part ∷ rest

-- The segments of a name, what stands between its slashes.
abbrev pub segments : Bytes → List Bytes
segments name = filled (split name)

-- All segments entered in their order, up to the first error.
unfoldable pub enter_all : List Bytes → NormalizedPath → Result ResolutionError NormalizedPath
enter_all [] path = ok path
enter_all (segment ∷ others) path = enter_segment segment path >>= enter_all others

abbrev tail : List Bytes → List Bytes
tail [] = []
tail (part ∷ parts) = parts

segments-skip_slashes : (bs : Bytes) → segments (skip_slashes bs) ≡ segments bs
unfolding skip_slashes split filled
segments-skip_slashes [] = refl
segments-skip_slashes (b ∷ bs) = elim (Bool-cases (b == b'/')) [
  | inl e ↦ rw e (segments-skip_slashes bs)
  | inr e ↦
      let kept : skip_slashes (b ∷ bs) ≡ b ∷ bs = rw (skip_slashes, e) refl in ap segments kept
]

split-first : (bs : Bytes) → split bs ≡ before_byte b'/' bs ∷ tail (split bs)
unfolding split before_byte
split-first [] = refl
split-first (b ∷ bs) = elim (Bool-cases (b == b'/')) [
  | inl e ↦ rw e refl
  | inr e ↦ rw e (
      ap (onto_first b) (split-first bs)
      ∙ ap (λ parts. (b ∷ before_byte b'/' bs) ∷ tail parts)
          (sym (ap (onto_first b) (split-first bs))))
]

filled-tail :
    (bs : Bytes) → filled (tail (split bs)) ≡ segments (drop (length (before_byte b'/' bs)) bs)
unfolding split before_byte filled
filled-tail [] = refl
filled-tail (b ∷ bs) = elim (Bool-cases (b == b'/')) [
  | inl e ↦ rw (e, split, e, filled) refl
  | inr e ↦
      rw e (ap (λ parts. filled (tail (onto_first b parts))) (split-first bs) ∙ filled-tail bs)
]

filled-first :
    (part : Bytes) (parts : List Bytes)
    → 0 < length part
    → filled (part ∷ parts) ≡ part ∷ filled parts
unfolding filled
filled-first [] parts some_bytes = absurd (omega arith)
filled-first (b ∷ bs) parts some_bytes = refl

-- The segments of a text that starts with one.
segments-first :
    (bs : Bytes)
    → 0 < length (before_byte b'/' bs)
    → segments bs ≡ before_byte b'/' bs ∷ segments (drop (length (before_byte b'/' bs)) bs)
segments-first bs some_bytes =
    ap filled (split-first bs)
    ∙ filled-first (before_byte b'/' bs) (tail (split bs)) some_bytes
    ∙ ap (λ parts. before_byte b'/' bs ∷ parts) (filled-tail bs)

-- A round is shorter than its text by a byte at least.
length-round :
    (bs : Bytes)
    → is_nil (skip_slashes bs) ≡ false
    → let rest = skip_slashes bs in length (drop (length (before_byte b'/' rest)) rest) < length bs
length-round bs some_left =
    let rest = skip_slashes bs in
    omega (
      arith,
      length-drop (length (before_byte b'/' rest)) rest,
      length-skip_slashes bs,
      length-first_segment bs some_left,
      some_bytes rest some_left,
    )
  where
    some_bytes : (xs : Bytes) → is_nil xs ≡ false → 0 < length xs
    some_bytes [] none_left = absurd (ground arith)
    some_bytes (x ∷ xs) none_left = omega arith

after_segment-some :
    (r : Result ResolutionError NormalizedPath)
    (rest : NormalizedPath → Option (Result ResolutionError NormalizedPath))
    (others : NormalizedPath → Result ResolutionError NormalizedPath)
    → ((path : NormalizedPath) → rest path ≡ some (others path))
    → after_segment rest r ≡ some (r >>= others)
after_segment-some (ok path) rest others same = same path
after_segment-some (err e) rest others same = refl

no_segments : (bs : Bytes) → is_nil (skip_slashes bs) ≡ true → segments bs ≡ []
unfolding filled split
no_segments bs nothing = sym (segments-skip_slashes bs) ∙ of_nil (skip_slashes bs) nothing
  where
    of_nil : (xs : Bytes) → is_nil xs ≡ true → segments xs ≡ []
    of_nil [] h = refl
    of_nil (x ∷ xs) h = absurd (cc h)

-- The loop over the segments of a name ends by its own test within as many rounds as the name has bytes,
-- and one, and it comes to what entering one after the other comes to of the parts between the slashes
-- that have a byte: the path, or the first error.
pub enter_segments-segments :
    (n : ℕ) (bytes : Bytes) (path : NormalizedPath)
    → length bytes < n
    → enter_segments n bytes path ≡ some (enter_all (segments bytes) path)
unfolding enter_segments enter_all
enter_segments-segments zero bytes path enough = absurd (omega arith)
enter_segments-segments (suc n) bytes path enough =
    let rest = skip_slashes bytes in
    let segment = before_byte b'/' rest in
    elim (Bool-cases (is_nil rest)) [
      | inl e ↦
          rw (e, enter_segments)
            (ap (λ parts. some (enter_all parts path)) (sym (no_segments bytes e)))
      | inr e ↦
          let parts : segments bytes ≡ segment ∷ segments (drop (length segment) rest) =
            sym (segments-skip_slashes bytes)
            ∙ segments-first rest (length-first_segment bytes e) in
          rw (e, enter_segments)
            (after_segment-some (enter_segment segment path) _
                (enter_all (segments (drop (length segment) rest)))
                (λ path'.
                  enter_segments-segments n (drop (length segment) rest) path'
                    (omega (arith, length-round bytes e, enough)))
              ∙ ap (λ l. some (enter_all l path)) (sym parts))
    ]

pub enter_segments-returns :
    (n : ℕ) (bytes : Bytes) (path : NormalizedPath)
    → length bytes < n
    → enter_segments n bytes path ≢ none
enter_segments-returns n bytes path enough returns_none =
    let e = enter_segments-segments n bytes path enough in absurd (cc)
