-- ===== src/Lash/Segments/Trim.antt =====
-- `trim_spaces_range` of user/lash/src/lib.rs finds the text of a range less the spaces at its ends.
use lazers.Base.{
  ℕ, zero, suc, ◌+◌, ◌-◌, true, some, [], ◌∷◌, ◌++◌, ◌≡◌, refl, sym, ap, ◌∙◌, ◌⊎◌, inl, inr, arith,
}
use lazers.Base.Tests.{lt→ltb, ltb, if◌then◌else◌, ◌==◌, Bool-cases}
use mathlib.Core.Path.{subst}
use mathlib.Core.List.{append_assoc}
use lazers.Base.Lists.{length, get_elem?, slice, length-append}
use lazers.Base.Words.{Bytes}
use lazers.Lash.Segments.{trimmed_start, trimmed_end, trim_spaces_range}
use lazers.Lash.Tokens.Refine.Cells.{slice-append}

unfoldable pub trim_left : Bytes → Bytes
trim_left [] = []
trim_left (b ∷ bs) = let rest = trim_left bs in if b == b' ' then rest else b ∷ bs

-- A byte before what is left of the bytes behind it.
abbrev kept : ℕ → Bytes → Bytes
kept b [] = if b == b' ' then [] else b ∷ []
kept b (c ∷ cs) = b ∷ c ∷ cs

unfoldable pub trim_right : Bytes → Bytes
trim_right [] = []
trim_right (b ∷ bs) = kept b (trim_right bs)

abbrev pub trim : Bytes → Bytes
trim bs = trim_right (trim_left bs)

-- The bytes of `line` from `start` to `end` are `text`.
abbrev pub Range : Bytes → ℕ → ℕ → Bytes → Type 0
Range line start end text =
    (before : Bytes) × (after : Bytes) × (line ≡ before ++ (text ++ after))
    × (start ≡ length before)
    × (end ≡ start + length text)

pub Range-slice :
    (line : Bytes) (start end : ℕ) (text : Bytes)
    → Range line start end text
    → slice line start end ≡ some text
Range-slice line start end text (before, after, shape, at, to) =
    rw (shape, to, at) (slice-append before text after)

Range-size :
    (line text : Bytes) (start end : ℕ) → Range line start end text → end - start ≡ length text
Range-size line text start end (before, after, shape, at, to) = omega arith

get_elem?-middle :
    (before after : Bytes) (b : ℕ) → get_elem? (before ++ (b ∷ after)) (length before) ≡ some b
get_elem?-middle [] after b = refl
get_elem?-middle (x ∷ before) after b = get_elem?-middle before after b

Range-first :
    (line : Bytes) (start end b : ℕ) (bs : Bytes)
    → Range line start end (b ∷ bs)
    → get_elem? line start ≡ some b
Range-first line start end b bs (before, after, shape, at, to) =
    rw (shape, at) (get_elem?-middle before (bs ++ after) b)

Range-rest :
    (line : Bytes) (start end b : ℕ) (bs : Bytes)
    → Range line start end (b ∷ bs)
    → Range line (suc start) end bs
Range-rest line start end b bs (before, after, shape, at, to) = (
  before ++ (b ∷ []),
  after,
  shape ∙ sym (append_assoc before (b ∷ []) (bs ++ after)),
  omega (arith, at, length-append before (b ∷ [])),
  omega (arith, to),
)

trimmed_start-Range :
    (line text : Bytes) (start end : ℕ)
    → Range line start end text
    → Range line (trimmed_start (length text) line start end) end (trim_left text)
unfolding trimmed_start trim_left
trimmed_start-Range line [] start end range = range
trimmed_start-Range line (b ∷ bs) start end range =
    let (before, after, shape, at, to) = range in
    let room : ltb start end ≡ true = lt→ltb start end (omega (arith, to)) in
    rw (room, Range-first line start end b bs range)
      (elim (Bool-cases (b == b' ')) [
        | inl e ↦
            rw e
              (trimmed_start-Range line bs (suc start) end (Range-rest line start end b bs range))
        | inr e ↦ rw e range
      ])

-- A list is empty or has a last item.
last_cases : (xs : Bytes) → (xs ≡ []) ⊎ ((init : Bytes) × (b : ℕ) × (xs ≡ init ++ (b ∷ [])))
last_cases [] = inl refl
last_cases (x ∷ xs) = elim (last_cases xs) [
  | inl e ↦ inr ([], x, ap (λ l. x ∷ l) e)
  | inr (init, b, e) ↦ inr (x ∷ init, b, ap (λ l. x ∷ l) e)
]

kept-append : (x b : ℕ) (init : Bytes) → kept x (init ++ (b ∷ [])) ≡ x ∷ (init ++ (b ∷ []))
kept-append x b [] = refl
kept-append x b (y ∷ init) = refl

pub trim_right-last :
    (init : Bytes) (b : ℕ)
    → trim_right (init ++ (b ∷ [])) ≡ (if b == b' ' then trim_right init else init ++ (b ∷ []))
unfolding trim_right
trim_right-last [] b = refl
trim_right-last (x ∷ init) b = elim (Bool-cases (b == b' ')) [
  | inl e ↦ rw (trim_right-last init b, e) refl
  | inr e ↦ rw (trim_right-last init b, e) (kept-append x b init)
]

Range-last :
    (line : Bytes) (start end b : ℕ) (init : Bytes)
    → Range line start end (init ++ (b ∷ []))
    → (get_elem? line (end - 1) ≡ some b) × Range line start (end - 1) init
Range-last line start end b init (before, after, shape, at, to) =
    let whole : line ≡ (before ++ init) ++ (b ∷ after) =
      shape
      ∙ ap (λ l. before ++ l) (append_assoc init (b ∷ []) after)
      ∙ sym (append_assoc before init (b ∷ after)) in
    let one_less : end - 1 ≡ length (before ++ init) =
      omega (arith, to, at, length-append before init, length-append init (b ∷ [])) in
    (
      rw (one_less, whole) (get_elem?-middle (before ++ init) after b),
      (
        before,
        b ∷ after,
        whole ∙ append_assoc before init (b ∷ after),
        at,
        omega (arith, to, length-append init (b ∷ [])),
      ),
    )

trimmed_end-Range :
    (n : ℕ) (line text : Bytes) (start end : ℕ)
    → n ≡ length text
    → Range line start end text
    → Range line start (trimmed_end n line start end) (trim_right text)
unfolding trimmed_end
trimmed_end-Range zero line [] start end size range = unfold trim_right in range
trimmed_end-Range zero line (x ∷ text) start end size range = absurd (omega arith)
trimmed_end-Range (suc n) line text start end size range = elim (last_cases text) [
  | inl e ↦ absurd (omega (arith, size, ap length e))
  | inr (init, b, e) ↦
      let (found, shorter) =
        Range-last line start end b init (subst (Range line start end) e range) in
      let (before, after, shape, at, to) = range in
      let room : ltb start end ≡ true = lt→ltb start end (omega (arith, size, to)) in
      rw (room, found, e, trim_right-last init b)
        (elim (Bool-cases (b == b' ')) [
          | inl g ↦ rw g (
              trimmed_end-Range n line init start (end - 1)
                (omega (arith, size, ap length e, length-append init (b ∷ []))) shorter)
          | inr g ↦ rw g (subst (Range line start end) e range)
        ])
]

-- The range found is the range of the trimmed text.
pub trim_spaces_range-Range :
    (line text : Bytes) (start end : ℕ)
    → Range line start end text
    → Range line
        (trim_spaces_range line start end).0
        (trim_spaces_range line start end).1
        (trim text)
unfolding trim_spaces_range
trim_spaces_range-Range line text start end range =
    let first = trimmed_start (end - start) line start end in
    let at_first : Range line first end (trim_left text) =
      subst (λ n. Range line (trimmed_start n line start end) end (trim_left text))
        (sym (Range-size line text start end range))
        (trimmed_start-Range line text start end range) in
    trimmed_end-Range (end - first) line (trim_left text) first end
      (Range-size line (trim_left text) first end at_first) at_first
