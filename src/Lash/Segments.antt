-- ===== src/Lash/Segments.antt =====
-- The segments of a command line, `scan_segments` of user/lash/src/lib.rs. The loop runs over the bytes
-- that are left of the line; the reads of the line are all in range, `space_at` is `false` elsewhere.
pub mod Pieces
pub mod Trim
pub mod Agree
pub mod Rounds
pub mod Read
pub mod Whole
pub mod Kept
pub mod Script
pub mod Examples
use lazers.Base.{
  ℕ, zero, suc, ◌+◌, ◌-◌, ◌*◌, ◌/◌, ◌%◌, ◌^◌, ◌≤◌, ◌<◌, min, max, Bool, true, false, not, ◌&&◌,
  ◌||◌, Option, none, some, List, [], ◌∷◌, ◌++◌, map, ◌≡◌, ◌≢◌, ◌↔◌, refl, sym, ap, ◌∙◌, ◌⊎◌, inl,
  inr, arith,
}
use lazers.Base.Tests.{ltb, leb, if◌then◌else◌, ◌==◌, Bool-cases, Option-cases}
use lazers.Base.Lists.{length, set, get_elem?, replicate, slice}
use lazers.Base.Words.{Bytes}
use lazers.Base.Results.{and_then, Result, ok, err, ◌>>=◌, ◌>>◌, refuse}
use lazers.Lash.{
  ParseError, ParseState, SegmentOperator, and, or, sequence, unmatched_single_quote,
  unmatched_double_quote, trailing_backslash, invalid_syntax, resource_unavailable, unquoted,
  single_quoted, double_quoted, max_chain_segments,
}
use lazers.Lash.Tokens.{escapes}

pub record SegmentScan : Type 0 where
  pub starts : List ℕ
  pub ends : List ℕ
  pub operators : List SegmentOperator
  pub count : ℕ

abbrev pub new : SegmentScan
new = record {
  starts = replicate max_chain_segments 0;
  ends = replicate max_chain_segments 0;
  operators = replicate (max_chain_segments - 1) sequence;
  count = 0;
}

-- A slice out of the line is a panic, `none`, and so is a read of an array out of range.
unfoldable pub segment_at : Option ℕ → Option ℕ → Bytes → Option (Option Bytes)
segment_at (some start) (some end) line = and_then (slice line start end) λ text. some (some text)
segment_at _ _ line = none

unfoldable pub segment : SegmentScan → Bytes → ℕ → Option (Option Bytes)
segment s line index =
    if leb s.count index
    then some none
    else segment_at (get_elem? s.starts index) (get_elem? s.ends index) line

unfoldable pub operator_before : SegmentScan → ℕ → Option SegmentOperator
operator_before s index =
    if index == 0 || ltb (s.count - 1) index then none else get_elem? s.operators (index - 1)

abbrev pub with_segment : ℕ → ℕ → SegmentScan → SegmentScan
with_segment start end s = record s {
  starts = set s.starts s.count start;
  ends = set s.ends s.count end;
  count = suc s.count;
}

abbrev pub with_operator : SegmentOperator → SegmentScan → SegmentScan
with_operator operator s = record s { operators = set s.operators s.count operator }

unfoldable pub push : ℕ → ℕ → Option SegmentOperator → SegmentScan → Result ParseError SegmentScan
push start end none s =
    refuse (leb max_chain_segments s.count) resource_unavailable >> ok (with_segment start end s)
push start end (some operator) s =
    refuse (leb max_chain_segments s.count) resource_unavailable
    >> refuse (leb (max_chain_segments - 1) s.count) resource_unavailable
    >> ok (with_segment start end (with_operator operator s))

abbrev pub is_space : Option ℕ → Bool
is_space none = false
is_space (some b) = b == b' '

abbrev pub space_at : Bytes → ℕ → Bool
space_at bytes i = is_space (get_elem? bytes i)

-- The two loops of `trim_spaces_range`, by the rounds that the range leaves room for.
unfoldable pub trimmed_start : ℕ → Bytes → ℕ → ℕ → ℕ
trimmed_start zero bytes start end = start
trimmed_start (suc n) bytes start end =
    let rest = trimmed_start n bytes (suc start) end in
    if ltb start end && space_at bytes start then rest else start

unfoldable pub trimmed_end : ℕ → Bytes → ℕ → ℕ → ℕ
trimmed_end zero bytes start end = end
trimmed_end (suc n) bytes start end =
    let rest = trimmed_end n bytes start (end - 1) in
    if ltb start end && space_at bytes (end - 1) then rest else end

unfoldable pub trim_spaces_range : Bytes → ℕ → ℕ → ℕ × ℕ
trim_spaces_range bytes start end =
    let first = trimmed_start (end - start) bytes start end in
    (first, trimmed_end (end - first) bytes first end)

-- The local variables of `scan_segments`.
pub record Scan : Type 0 where
  pub segments : SegmentScan
  pub segment_start : ℕ
  pub index : ℕ
  pub state : ParseState

abbrev pub advance : ℕ → Scan → Scan
advance width s = record s { index = s.index + width }

abbrev pub enter : ParseState → Scan → Scan
enter state s = record s { index = s.index + 1; state = state }

abbrev pub push_range : Option SegmentOperator → ℕ × ℕ → SegmentScan → Result ParseError SegmentScan
push_range operator (start, end) segments =
    refuse (start == end) invalid_syntax >> push start end operator segments

-- An operator of so many bytes stands at the index.
unfoldable pub end_segment : SegmentOperator → ℕ → Bytes → Scan → Result ParseError Scan
end_segment operator width line s =
    push_range (some operator) (trim_spaces_range line s.segment_start s.index) s.segments
    >>= λ segments.
        ok (record s {
          segments = segments;
          index = s.index + width;
          segment_start = s.index + width;
        })

-- A byte that is read together with the next one: a backslash, or the first of an operator of two.
unfoldable pub takes_two : ParseState → ℕ → ℕ → Bool
takes_two unquoted byte next =
    byte == b'\\' || (byte == b'&' && next == b'&') || (byte == b'|' && next == b'|')
takes_two single_quoted byte next = false
takes_two double_quoted byte next = byte == b'\\'

unfoldable pub scan_two : ℕ → Bytes → Scan → Result ParseError Scan
scan_two byte line s =
    if byte == b'&'
    then end_segment and 2 line s
    else if byte == b'|'
    then end_segment or 2 line s
    else ok (advance 2 s)

unfoldable pub scan_one : ParseState → ℕ → Bytes → Scan → Result ParseError Scan
scan_one unquoted byte line s =
    if byte == b'\''
    then ok (enter single_quoted s)
    else if byte == b'"'
    then ok (enter double_quoted s)
    else if byte == b';'
    then end_segment sequence 1 line s
    else ok (advance 1 s)
scan_one single_quoted byte line s =
    if byte == b'\'' then ok (enter unquoted s) else ok (advance 1 s)
scan_one double_quoted byte line s =
    if byte == b'"' then ok (enter unquoted s) else ok (advance 1 s)

unfoldable pub scan_bytes : Bytes → Bytes → Scan → Result ParseError Scan
scan_bytes line [] s = ok s
scan_bytes line (byte ∷ []) s =
    if escapes s.state byte then err trailing_backslash else scan_one s.state byte line s
scan_bytes line (byte ∷ next ∷ rest) s = elim (takes_two s.state byte next) [
  | true ↦ scan_two byte line s >>= scan_bytes line rest
  | false ↦ scan_one s.state byte line s >>= scan_bytes line (next ∷ rest)
]

-- The last range: an empty one is a line without commands, if it is the only one.
unfoldable pub push_last : ℕ × ℕ → SegmentScan → Result ParseError SegmentScan
push_last (start, end) segments =
    if start == end
    then if segments.count == 0 then ok segments else err invalid_syntax
    else push start end none segments

unfoldable pub finish_scan : ParseState → Bytes → Scan → Result ParseError SegmentScan
finish_scan single_quoted line s = err unmatched_single_quote
finish_scan double_quoted line s = err unmatched_double_quote
finish_scan unquoted line s =
    push_last (trim_spaces_range line s.segment_start (length line)) s.segments

abbrev pub at_line_start : Scan
at_line_start = record { segments = new; segment_start = 0; index = 0; state = unquoted }

unfoldable pub scan_segments : Bytes → Result ParseError SegmentScan
scan_segments line = scan_bytes line line at_line_start >>= λ s. finish_scan s.state line s
