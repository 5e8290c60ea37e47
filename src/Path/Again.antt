-- ===== src/Path/Again.antt =====
-- Normalising a path twice, kernel/kernel/src/storage/path.rs.
use lazers.Base.{
  ℕ, ◌<◌, true, false, ◌||◌, Option, none, some, List, [], ◌∷◌, ◌++◌, ◌≡◌, refl, sym, ◌∙◌, inl, inr,
  arith,
}
use lazers.Base.Tests.{ltb, leb, Bool-cases}
use mathlib.Core.Path.{subst}
use lazers.Base.Lists.{length}
use lazers.Base.Words.{Bytes}
use lazers.Base.Text.{is_nil, starts_with}
use lazers.Base.Results.{ok, and_then, and_then-eq-some}
use lazers.Path.{max_path_components, split, normalize_path}
use lazers.Path.Stack.{render, enter, enter_all}
use lazers.Path.Normal.{components, answer, enter_all-append, normalize_path-enter_all}
use lazers.Path.Split.{
  AllNoSlash, IsCanonical, split-AllNoSlash, split-append_slash, split-NoSlash, length-outside,
  enter-IsCanonical,
}

enter_all-IsCanonical :
    (size : ℕ) (rest parts : List Bytes) {after : List Bytes}
    → AllNoSlash rest
    → IsCanonical size parts
    → enter_all size rest parts ≡ some after
    → IsCanonical size after
enter_all-IsCanonical size [] parts {after} bare canonical h =
    let e : parts ≡ after = cc in subst (IsCanonical size) e canonical
enter_all-IsCanonical size (part ∷ rest) parts (bare, others) canonical h =
    let (mid, e, later) = and_then-eq-some (enter size part parts) (enter_all size rest) h in
    enter_all-IsCanonical size rest mid others (enter-IsCanonical size part parts bare canonical e)
      later

append-AllNoSlash : (xs ys : List Bytes) → AllNoSlash xs → AllNoSlash ys → AllNoSlash (xs ++ ys)
append-AllNoSlash [] ys bare others = others
append-AllNoSlash (x ∷ xs) ys (bare, rest) others = (bare, append-AllNoSlash xs ys rest others)

components-AllNoSlash : (cwd path : Bytes) → AllNoSlash (components cwd path)
components-AllNoSlash cwd path = elim (Bool-cases (starts_with b'/' path)) [
  | inl absolute ↦ rw absolute (split-AllNoSlash path)
  | inr relative ↦
      rw relative
        (append-AllNoSlash (split cwd) (split path) (split-AllNoSlash cwd) (split-AllNoSlash path))
]

enter-Plain :
    (size : ℕ) (part : Bytes) (parts : List Bytes)
    → IsCanonical size (part ∷ parts)
    → enter size part parts ≡ some (part ∷ parts)
unfolding enter
enter-Plain size part parts (((moves, down, _), _), count, fits) =
    let room : (leb max_path_components (length parts) || ltb size (length (render (part ∷ parts))))
        ≡ false =
      ground arith in
    rw (moves, down, room) refl

split_nil : split [] ≡ [] ∷ []
split_nil = unfold split in refl

split_root : split (b'/' ∷ []) ≡ [] ∷ [] ∷ []
split_root = unfold split in refl

enter_nil : (size : ℕ) (parts : List Bytes) → enter size [] parts ≡ some parts
enter_nil size parts = unfold enter in refl

-- Walking along the text of a stack leads to that stack.
enter_all-render :
    (size : ℕ) (parts : List Bytes)
    → IsCanonical size parts
    → enter_all size (split (render parts)) [] ≡ some parts
enter_all-render size [] canonical =
    rw (split_root, enter_nil size [], and_then, enter_nil size []) refl
enter_all-render size (part ∷ []) canonical =
    let bare = canonical.0.0.2 in
    rw
      (
        split-append_slash [] part,
        split-NoSlash part bare,
        split_nil,
        enter_nil,
        and_then,
        enter-Plain size part [] canonical,
      )
      refl
enter_all-render size (part ∷ outer ∷ parts) canonical =
    let ((plain, rest), count, fits) = canonical in
    let below : IsCanonical size (outer ∷ parts) =
      (rest, omega arith, omega (arith, length-outside part (outer ∷ parts) rest)) in
    rw
      (
        split-append_slash (render (outer ∷ parts)) part,
        split-NoSlash part plain.2,
        enter_all-append size (split (render (outer ∷ parts))) (part ∷ []) [],
        enter_all-render size (outer ∷ parts) below,
        and_then,
        enter-Plain size part (outer ∷ parts) canonical,
      )
      refl

answer-ok :
    (o : Option (List Bytes)) {text : Bytes}
    → answer o ≡ ok text
    → (parts : List Bytes) × (o ≡ some parts) × (text ≡ render parts)
answer-ok none h = absurd (cc)
answer-ok (some parts) h = (parts, refl, cc)

-- A path that is normalised into a buffer of the given size is the text of at most 64 components,
-- none of which is empty, `.` or `..` or has a slash, and fits.
pub normalize_path-IsCanonical :
    (size : ℕ) (cwd path : Bytes) {text : Bytes}
    → 0 < size
    → normalize_path size cwd path ≡ some (ok text)
    → (parts : List Bytes) × (text ≡ render parts) × IsCanonical size parts
unfolding normalize_path
normalize_path-IsCanonical size cwd path {text} room h = elim (Bool-cases (is_nil path)) [
  | inl empty ↦ absurd (cc (rw (empty, normalize_path) at h))
  | inr given ↦
      let whole : answer (enter_all size (components cwd path) []) ≡ ok text =
        cc (normalize_path-enter_all size cwd path room given, h) in
      let (parts, e, same) = answer-ok (enter_all size (components cwd path) []) whole in
      (
        parts,
        same,
        enter_all-IsCanonical size (components cwd path) [] (components-AllNoSlash cwd path)
            (tt, omega arith, omega arith) e,
      )
]

append-slash :
    (xs ys : Bytes)
    → starts_with b'/' xs ≡ true
    → (starts_with b'/' (xs ++ ys) ≡ true) × (is_nil (xs ++ ys) ≡ false)
unfolding starts_with
append-slash [] ys h = absurd (cc)
append-slash (x ∷ xs) ys h = (h, refl)

render-slash :
    (parts : List Bytes)
    → (starts_with b'/' (render parts) ≡ true) × (is_nil (render parts) ≡ false)
unfolding starts_with
render-slash [] = (refl, refl)
render-slash (part ∷ []) = (refl, refl)
render-slash (part ∷ outer ∷ parts) =
    append-slash (render (outer ∷ parts)) (b'/' ∷ part) (render-slash (outer ∷ parts)).0

-- A path that is normalised stays as it is when it is normalised again, into a buffer of the same
-- size and whatever the directory.
pub normalize_path-again :
    (size : ℕ) (cwd path elsewhere : Bytes) {text : Bytes}
    → 0 < size
    → normalize_path size cwd path ≡ some (ok text)
    → normalize_path size elsewhere text ≡ some (ok text)
normalize_path-again size cwd path elsewhere room h =
    let (parts, same, canonical) = normalize_path-IsCanonical size cwd path room h in
    let (slash, given) = render-slash parts in
    let again : normalize_path size elsewhere (render parts) ≡ some (ok (render parts)) =
      normalize_path-enter_all size elsewhere (render parts) room given
      ∙ rw (slash, enter_all-render size parts canonical) refl in
    subst (λ t. normalize_path size elsewhere t ≡ some (ok t)) (sym same) again
