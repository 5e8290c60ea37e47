-- ===== src/Lash/Segments/Agree.antt =====
-- The steps of `scan_segments` (user/lash/src/lib.rs) on the arrays of ranges, beside the same steps on
-- texts.
use lazers.Base.{
  ℕ, suc, ◌+◌, ◌-◌, ◌≤◌, ◌<◌, some, List, [], ◌∷◌, ◌++◌, ◌≡◌, refl, sym, ap, ◌∙◌, arith,
}
use lazers.Base.Tests.{◌==◌}
use mathlib.Core.List.{append_assoc}
use lazers.Base.Lists.{length, slice, length-append}
use lazers.Base.Words.{Bytes}
use lazers.Base.Text.{is_nil}
use lazers.Base.Results.{Result, ok, err}
use lazers.Lash.{ParseError, ParseState, SegmentOperator, resource_unavailable, max_chain_segments}
use lazers.Lash.Tokens.Refine.Cells.{Filled, Filled-set}
use lazers.Lash.Segments.{SegmentScan, Scan, with_segment, with_operator, trim_spaces_range}
use lazers.Lash.Segments.Trim.{Range, trim, trim_spaces_range-Range}
use lazers.Lash.Segments.Pieces.{Cutting, cut_off}

-- Range by range, the texts that a line has there.
pub data Spans (line : Bytes) : List ℕ → List ℕ → List Bytes → Type 0 where
  nothing : Spans line [] [] []
  more :
      (s e : ℕ) (t : Bytes) (ss es : List ℕ) (ts : List Bytes)
      → slice line s e ≡ some t
      → Spans line ss es ts
      → Spans line (s ∷ ss) (e ∷ es) (t ∷ ts)

Spans-append :
    (line : Bytes) (ss es : List ℕ) (ts : List Bytes) (s e : ℕ) (t : Bytes)
    → Spans line ss es ts
    → slice line s e ≡ some t
    → Spans line (ss ++ (s ∷ [])) (es ++ (e ∷ [])) (ts ++ (t ∷ []))
Spans-append line _ _ _ s e t nothing found = more s e t [] [] [] found nothing
Spans-append line _ _ _ s e t (more s' e' t' ss es ts first spans) found =
    more s' e' t' _ _ _ first (Spans-append line ss es ts s e t spans found)

pub length-Spans :
    (line : Bytes) (ss es : List ℕ) (ts : List Bytes)
    → Spans line ss es ts
    → (length ss ≡ length ts) × (length es ≡ length ts)
length-Spans line _ _ _ nothing = (refl, refl)
length-Spans line _ _ _ (more s e t ss es ts first spans) =
    let (a, b) = length-Spans line ss es ts spans in (ap suc a, ap suc b)

-- The arrays hold the ranges of `texts` in `line`.
pub record Recorded (line : Bytes) (s : SegmentScan) (texts : List Bytes) : Type 0 where
  pub starts_of : List ℕ
  pub ends_of : List ℕ
  pub counted : s.count ≡ length texts
  pub starts_filled : Filled max_chain_segments s.starts starts_of
  pub ends_filled : Filled max_chain_segments s.ends ends_of
  pub spans : Spans line starts_of ends_of texts

abbrev pub Linked : SegmentScan → List SegmentOperator → Type 0
Linked s operators = Filled (max_chain_segments - 1) s.operators operators

pub record Represents (line rest : Bytes) (s : Scan) (c : Cutting) : Type 0 where
  pub same_state : s.state ≡ c.mode
  pub before : Bytes
  pub shape : line ≡ before ++ (c.current ++ rest)
  pub starts_at : s.segment_start ≡ length before
  pub ends_at : s.index ≡ s.segment_start + length c.current
  pub paired : length c.operators ≡ length c.texts
  pub fits : length c.texts < max_chain_segments
  pub recorded : Recorded line s.segments c.texts
  pub linked : Linked s.segments c.operators

pub data Agree (line rest : Bytes) (m : Result ParseError Scan) (n : Result ParseError Cutting)
    : Type 0 where
  same :
      (s : Scan) (c : Cutting)
      → m ≡ ok s
      → n ≡ ok c
      → Represents line rest s c
      → Agree line rest m n
  failed : (e : ParseError) → m ≡ err e → n ≡ err e → Agree line rest m n
  large :
      (c : Cutting)
      → m ≡ err resource_unavailable
      → n ≡ ok c
      → max_chain_segments ≤ length c.texts
      → Agree line rest m n
  both : (e : ParseError) → m ≡ err resource_unavailable → n ≡ err e → Agree line rest m n

pub with_segment-Recorded :
    (line : Bytes) (s : SegmentScan) (texts : List Bytes) (start end : ℕ) (text : Bytes)
    → Recorded line s texts
    → length texts < max_chain_segments
    → slice line start end ≡ some text
    → Recorded line (with_segment start end s) (texts ++ (text ∷ []))
with_segment-Recorded line s texts start end text rec room found =
    let (a, b) = length-Spans line rec.starts_of rec.ends_of texts rec.spans in
    record {
      starts_of = rec.starts_of ++ (start ∷ []);
      ends_of = rec.ends_of ++ (end ∷ []);
      counted = omega (arith, rec.counted, length-append texts (text ∷ []));
      starts_filled =
          Filled-set max_chain_segments s.starts rec.starts_of s.count start rec.starts_filled
            (omega (arith, rec.counted, a)) (omega (arith, a));
      ends_filled =
          Filled-set max_chain_segments s.ends rec.ends_of s.count end rec.ends_filled
            (omega (arith, rec.counted, b)) (omega (arith, b));
      spans = Spans-append line _ _ texts start end text rec.spans found;
    }

pub keep-Represents :
    (line bs rest : Bytes) (s : Scan) (c : Cutting) (state mode : ParseState)
    → state ≡ mode
    → Represents line (bs ++ rest) s c
    → Represents line rest
        (record s { index = s.index + length bs; state = state })
        (record c { current = c.current ++ bs; mode = mode })
keep-Represents line bs rest s c state mode agree rep = record {
  same_state = agree;
  before = rep.before;
  shape = rep.shape ∙ ap (λ l. rep.before ++ l) (sym (append_assoc c.current bs rest));
  starts_at = rep.starts_at;
  ends_at = omega (arith, rep.ends_at, length-append c.current bs);
  paired = rep.paired;
  fits = rep.fits;
  recorded = rep.recorded;
  linked = rep.linked;
}

pub cut_off-Represents :
    (line operator_bytes rest : Bytes) (s : Scan) (c : Cutting) (operator : SegmentOperator)
    (start end : ℕ) (text : Bytes)
    → Represents line (operator_bytes ++ rest) s c
    → slice line start end ≡ some text
    → suc (length c.texts) < max_chain_segments
    → Represents line rest
        (record s {
          segments = with_segment start end (with_operator operator s.segments);
          index = s.index + length operator_bytes;
          segment_start = s.index + length operator_bytes;
        })
        (cut_off operator text c)
cut_off-Represents line operator_bytes rest s c operator start end text rep found room =
    let at : s.segments.count ≡ length c.operators =
      omega (arith, rep.paired, rep.recorded.counted) in
    record {
      same_state = rep.same_state;
      before = rep.before ++ (c.current ++ operator_bytes);
      shape =
          rep.shape
          ∙ ap (λ l. rep.before ++ l) (sym (append_assoc c.current operator_bytes rest))
          ∙ sym (append_assoc rep.before (c.current ++ operator_bytes) rest);
      starts_at = omega (
        arith,
        rep.starts_at,
        rep.ends_at,
        length-append rep.before (c.current ++ operator_bytes),
        length-append c.current operator_bytes,
      );
      ends_at = omega arith;
      paired = omega (
        arith,
        rep.paired,
        length-append c.texts (text ∷ []),
        length-append c.operators (operator ∷ []),
      );
      fits = omega (arith, length-append c.texts (text ∷ []), room);
      recorded =
          with_segment-Recorded line (with_operator operator s.segments) c.texts start end text
            (record {
              starts_of = rep.recorded.starts_of;
              ends_of = rep.recorded.ends_of;
              counted = rep.recorded.counted;
              starts_filled = rep.recorded.starts_filled;
              ends_filled = rep.recorded.ends_filled;
              spans = rep.recorded.spans;
            })
            rep.fits found;
      linked =
          Filled-set (max_chain_segments - 1) s.segments.operators c.operators s.segments.count
            operator rep.linked at (omega (arith, room, rep.paired));
    }

-- The range that the code trims out of the current segment.
pub current-Range :
    (line rest : Bytes) (s : Scan) (c : Cutting)
    → Represents line rest s c
    → Range line
        (trim_spaces_range line s.segment_start s.index).0
        (trim_spaces_range line s.segment_start s.index).1
        (trim c.current)
current-Range line rest s c rep =
    trim_spaces_range-Range line c.current s.segment_start s.index
      (rep.before, rest, rep.shape, rep.starts_at, rep.ends_at)

pub Range-empty :
    (line : Bytes) (start end : ℕ) (text : Bytes)
    → Range line start end text
    → (start == end) ≡ is_nil text
Range-empty line start end [] (before, after, shape, at, to) = ground arith
Range-empty line start end (b ∷ bs) (before, after, shape, at, to) = ground arith
