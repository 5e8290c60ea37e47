-- ===== src/Lash/Segments/Read.antt =====
-- Reading the commands and the operators back out of the arrays, `SegmentScan::segment` and
-- `SegmentScan::operator_before` of user/lash/src/lib.rs.
use lazers.Base.{
  ℕ, zero, suc, ◌+◌, ◌-◌, ◌≤◌, ◌<◌, false, ◌||◌, Option, some, List, [], ◌∷◌, ◌≡◌, refl, ap, ◌∙◌,
  arith,
}
use lazers.Base.Tests.{lt→leb_false, ltb, leb, ◌==◌}
use lazers.Base.Lists.{length, get_elem?, slice}
use lazers.Base.Words.{Bytes}
use lazers.Base.Results.{and_then}
use lazers.Lash.{SegmentOperator, max_chain_segments}
use lazers.Lash.Tokens.Refine.Cells.{Filled-get_elem?}
use lazers.Lash.Segments.{SegmentScan, segment, segment_at, operator_before}
use lazers.Lash.Segments.Agree.{Spans, nothing, more, Recorded, Linked, length-Spans}

unfoldable pub segments_from : ℕ → ℕ → SegmentScan → Bytes → Option (List Bytes)
segments_from zero index s line = some []
segments_from (suc count) index s line = and_then (segment s line index) λ there.
    and_then there
      λ text. and_then (segments_from count (suc index) s line) λ texts. some (text ∷ texts)

-- The texts of all segments; `none` if one of them cannot be read.
unfoldable pub segment_texts : SegmentScan → Bytes → Option (List Bytes)
segment_texts s line = segments_from s.count 0 s line

unfoldable pub operators_from : ℕ → ℕ → SegmentScan → Option (List SegmentOperator)
operators_from zero index s = some []
operators_from (suc count) index s = and_then (operator_before s index) λ operator.
    and_then (operators_from count (suc index) s) λ operators. some (operator ∷ operators)

-- The operators before the second segment and those behind it.
unfoldable pub segment_operators : SegmentScan → Option (List SegmentOperator)
segment_operators s = operators_from (s.count - 1) 1 s

-- From `i` on, `xs` has what `ys` has.
abbrev From {ℓ} : {A : Type ℓ} → ℕ → List A → List A → Type ℓ
From i xs ys = (k : ℕ) → k < length ys → get_elem? xs (i + k) ≡ get_elem? ys k

From-first :
    {A : Type 0} (i : ℕ) (xs : List A) (y : A) (ys : List A)
    → From i xs (y ∷ ys)
    → get_elem? xs i ≡ some y
From-first i xs y ys from = let same : i + 0 ≡ i = omega arith in rw same at (from 0 (omega arith))

From-rest :
    {A : Type 0} (i : ℕ) (xs : List A) (y : A) (ys : List A)
    → From i xs (y ∷ ys)
    → From (suc i) xs ys
From-rest i xs y ys from k below =
    let moved : i + suc k ≡ suc i + k = omega arith in rw moved at (from (suc k) (omega arith))

segment_at-read :
    (start end : ℕ) (line text : Bytes)
    → slice line start end ≡ some text
    → segment_at (some start) (some end) line ≡ some (some text)
unfolding segment_at
segment_at-read start end line text found = ap (λ o. and_then o λ t. some (some t)) found

segment-read :
    (s : SegmentScan) (line : Bytes) (i start end : ℕ) (text : Bytes)
    → i < s.count
    → get_elem? s.starts i ≡ some start
    → get_elem? s.ends i ≡ some end
    → slice line start end ≡ some text
    → segment s line i ≡ some (some text)
unfolding segment
segment-read s line i start end text below at to found =
    let inside : leb s.count i ≡ false = lt→leb_false s.count i below in
    rw (inside, at, to) (segment_at-read start end line text found)

segments_from-Spans :
    (s : SegmentScan) (line : Bytes) (i : ℕ) (ss es : List ℕ) (ts : List Bytes)
    → Spans line ss es ts
    → From i s.starts ss
    → From i s.ends es
    → i + length ts ≤ s.count
    → segments_from (length ts) i s line ≡ some ts
unfolding segments_from
segments_from-Spans s line i _ _ _ nothing starts ends room = refl
segments_from-Spans s line i _ _ _ (more start end text ss es ts found spans) starts ends room =
    rw
      (
        segment-read s line i start end text (omega arith) (From-first i _ _ _ starts)
            (From-first i _ _ _ ends) found,
        segments_from-Spans s line (suc i) ss es ts spans (From-rest i _ _ _ starts)
            (From-rest i _ _ _ ends) (omega arith),
      )
      refl

operator_before-read :
    (s : SegmentScan) (i : ℕ) (o : SegmentOperator)
    → suc i < s.count
    → get_elem? s.operators i ≡ some o
    → operator_before s (suc i) ≡ some o
unfolding operator_before
operator_before-read s i o below found =
    let outside : (suc i == 0) || ltb (s.count - 1) (suc i) ≡ false = ground arith in
    let previous : suc i - 1 ≡ i = omega arith in rw (outside, previous, found) refl

operators_from-From :
    (s : SegmentScan) (i : ℕ) (ops : List SegmentOperator)
    → From i s.operators ops
    → i + length ops < s.count
    → operators_from (length ops) (suc i) s ≡ some ops
unfolding operators_from
operators_from-From s i [] from room = refl
operators_from-From s i (o ∷ ops) from room =
    rw
      (
        operator_before-read s i o (omega arith) (From-first i _ _ _ from),
        operators_from-From s (suc i) ops (From-rest i _ _ _ from) (omega arith),
      )
      refl

pub segment_texts-Recorded :
    (line : Bytes) (s : SegmentScan) (ts : List Bytes)
    → Recorded line s ts
    → segment_texts s line ≡ some ts
unfolding segment_texts
segment_texts-Recorded line s ts rec =
    let (a, b) = length-Spans line rec.starts_of rec.ends_of ts rec.spans in
    ap (λ n. segments_from n 0 s line) rec.counted
    ∙ segments_from-Spans s line 0 rec.starts_of rec.ends_of ts rec.spans
        (λ k below.
          Filled-get_elem? max_chain_segments s.starts rec.starts_of k rec.starts_filled below)
        (λ k below. Filled-get_elem? max_chain_segments s.ends rec.ends_of k rec.ends_filled below)
        (omega (arith, rec.counted))

pub segment_operators-Linked :
    (s : SegmentScan) (ops : List SegmentOperator)
    → Linked s ops
    → s.count ≡ suc (length ops)
    → segment_operators s ≡ some ops
unfolding segment_operators
segment_operators-Linked s ops linked size =
    let fewer : s.count - 1 ≡ length ops = omega (arith, size) in
    ap (λ n. operators_from n 1 s) fewer
    ∙ operators_from-From s 0 ops
        (λ k below. Filled-get_elem? (max_chain_segments - 1) s.operators ops k linked below)
        (omega (arith, size))

pub segment_operators-empty : (s : SegmentScan) → s.count ≡ 0 → segment_operators s ≡ some []
unfolding segment_operators operators_from
segment_operators-empty s none_there = ap (λ n. operators_from (n - 1) 1 s) none_there
