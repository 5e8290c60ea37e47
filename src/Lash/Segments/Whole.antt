-- ===== src/Lash/Segments/Whole.antt =====
-- `scan_segments` of user/lash/src/lib.rs against the chain that the line stands for.
use lazers.Base.{
  ℕ, ◌-◌, ◌≤◌, ◌<◌, true, false, some, List, [], ◌∷◌, ◌++◌, ◌≡◌, refl, sym, ap, ◌⊎◌, inl, inr,
  arith,
}
use lazers.Base.Tests.{lt→leb_false, leb, if◌then◌else◌, ◌==◌, Bool-cases}
use mathlib.Core.Path.{subst}
use lazers.Base.Lists.{length, replicate, length-append}
use lazers.Base.Words.{Bytes}
use lazers.Base.Text.{is_nil}
use lazers.Base.Results.{Result, ok, err, ◌>>=◌, Result-cases}
use lazers.Lash.{
  ParseError, ParseState, sequence, trailing_backslash, invalid_syntax, resource_unavailable,
  unquoted, single_quoted, double_quoted, max_chain_segments,
}
use lazers.Lash.Tokens.{escapes}
use lazers.Lash.Segments.{
  SegmentScan, Scan, scan_bytes, scan_segments, scan_one, scan_two, takes_two, finish_scan,
  push_last, push, trim_spaces_range, at_line_start,
}
use lazers.Lash.Segments.Trim.{trim, Range, Range-slice, trim_spaces_range-Range}
use lazers.Lash.Segments.Pieces.{
  Cutting, cut_one, cut_bytes, cut_bytes-grows, cut_end, chained, Chain, uncut, pieces,
}
use lazers.Lash.Segments.Read.{
  segment_texts, segment_operators, segment_texts-Recorded, segment_operators-Linked,
  segment_operators-empty,
}
use lazers.Lash.Segments.Rounds.{scan_one-Agree, scan_two-Agree}
use lazers.Lash.Segments.Agree.{
  Represents, Agree, same, failed, large, both, Range-empty, with_segment-Recorded, nothing,
}

Agree-step :
    (line rest bs : Bytes) (m : Result ParseError Scan) (n : Result ParseError Cutting)
    → Agree line bs m n
    → ((s : Scan) (c : Cutting)
        → Represents line bs s c
        → Agree line [] (scan_bytes line bs s) (cut_bytes bs c))
    → Agree line [] (m >>= scan_bytes line bs) (n >>= cut_bytes bs)
Agree-step line rest bs m n (same s c e f rep) k = rw (e, f) (k s c rep)
Agree-step line rest bs m n (failed bad e f) k = rw (e, f) (failed bad refl refl)
Agree-step line rest bs m n (both bad e f) k = rw (e, f) (both bad refl refl)
Agree-step line rest bs m n (large c e f many) k = elim (Result-cases (cut_bytes bs c)) [
  | inl (d, g) ↦ large d (rw e refl) (rw f g) (omega (arith, many, cut_bytes-grows bs c d g))
  | inr (bad, g) ↦ both bad (rw e refl) (rw f g)
]

scan_bytes-Agree :
    (line bs : Bytes) (s : Scan) (c : Cutting)
    → Represents line bs s c
    → Agree line [] (scan_bytes line bs s) (cut_bytes bs c)
unfolding scan_bytes cut_bytes
scan_bytes-Agree line [] s c rep = same s c refl refl rep
scan_bytes-Agree line (byte ∷ []) s c rep =
    subst
      (λ state.
        Agree line []
          (if escapes state byte then err trailing_backslash else scan_one state byte line s)
          (if escapes c.mode byte then err trailing_backslash else cut_one c.mode byte c))
      (sym rep.same_state)
      (elim (Bool-cases (escapes c.mode byte)) [
        | inl e ↦ rw e (failed trailing_backslash refl refl)
        | inr e ↦ rw e (scan_one-Agree line [] c.mode byte s c rep)
      ])
scan_bytes-Agree line (byte ∷ next ∷ rest) s c rep =
    subst
      (λ state.
        Agree line []
          (elim (takes_two state byte next) [
            | true ↦ scan_two byte line s >>= scan_bytes line rest
            | false ↦ scan_one state byte line s >>= scan_bytes line (next ∷ rest)
          ])
          (cut_bytes (byte ∷ next ∷ rest) c))
      (sym rep.same_state)
      (elim (Bool-cases (takes_two c.mode byte next)) [
        | inl e ↦
            rw (e, cut_bytes)
              (Agree-step line [] rest _ _ (scan_two-Agree line rest byte next s c rep)
                (scan_bytes-Agree line rest))
        | inr e ↦
            rw (e, cut_bytes)
              (Agree-step line [] (next ∷ rest) _ _
                (scan_one-Agree line (next ∷ rest) c.mode byte s c rep)
                (scan_bytes-Agree line (next ∷ rest)))
      ])

-- What `scan_segments` may come to beside `pieces`, by the capacities of the arrays.
pub data Outcome (line : Bytes) (m : Result ParseError SegmentScan) (n : Result ParseError Chain)
    : Type 0 where
  scanned :
      (s : SegmentScan) (ch : Chain)
      → m ≡ ok s
      → n ≡ ok ch
      → length ch.commands ≤ max_chain_segments
      → segment_texts s line ≡ some ch.commands
      → segment_operators s ≡ some ch.links
      → Outcome line m n
  refused : (e : ParseError) → m ≡ err e → n ≡ err e → Outcome line m n
  too_many :
      (ch : Chain)
      → m ≡ err resource_unavailable
      → n ≡ ok ch
      → max_chain_segments < length ch.commands
      → Outcome line m n
  too_many_first : (e : ParseError) → m ≡ err resource_unavailable → n ≡ err e → Outcome line m n

last-Range :
    (line : Bytes) (s : Scan) (c : Cutting)
    → Represents line [] s c
    → Range line
        (trim_spaces_range line s.segment_start (length line)).0
        (trim_spaces_range line s.segment_start (length line)).1
        (trim c.current)
last-Range line s c rep = trim_spaces_range-Range line c.current s.segment_start (length line) (
  rep.before,
  [],
  rep.shape,
  rep.starts_at,
  omega (
    arith,
    ap length rep.shape,
    rep.starts_at,
    length-append rep.before (c.current ++ []),
    length-append c.current [],
  ),
)

count-is_nil : (ts : List Bytes) (n : ℕ) → n ≡ length ts → (n == 0) ≡ is_nil ts
count-is_nil [] n size = ground arith
count-is_nil (t ∷ ts) n size = ground arith

nil_or_not : (ts : List Bytes) → (ts ≡ []) ⊎ (is_nil ts ≡ false)
nil_or_not [] = inl refl
nil_or_not (t ∷ ts) = inr refl

push_last-Outcome :
    (line : Bytes) (s : Scan) (c : Cutting) (start end : ℕ) (text : Bytes)
    → Represents line [] s c
    → Range line start end text
    → Outcome line (push_last (start, end) s.segments) (chained text c)
unfolding push_last push
push_last-Outcome line s c start end [] rep range =
    rw
      (
        Range-empty line start end [] range,
        count-is_nil c.texts s.segments.count rep.recorded.counted,
      )
      (elim (nil_or_not c.texts) [
        | inl e ↦
            let size : s.segments.count ≡ 0 = omega (arith, rep.recorded.counted, ap length e) in
            rw e (
              scanned s.segments _ refl refl (omega arith)
                (subst (λ ts. segment_texts s.segments line ≡ some ts) e
                  (segment_texts-Recorded line s.segments c.texts rep.recorded))
                (segment_operators-empty s.segments size))
        | inr e ↦ rw e (refused invalid_syntax refl refl)
      ])
push_last-Outcome line s c start end (b ∷ bs) rep range =
    let room : leb max_chain_segments s.segments.count ≡ false =
      lt→leb_false _ _ (omega (arith, rep.fits, rep.recorded.counted)) in
    rw (Range-empty line start end (b ∷ bs) range, room)
      (scanned _ _ refl refl (omega (arith, rep.fits, length-append c.texts ((b ∷ bs) ∷ [])))
        (segment_texts-Recorded line _ _ (
          with_segment-Recorded line s.segments c.texts start end (b ∷ bs) rep.recorded rep.fits
            (Range-slice line start end (b ∷ bs) range)))
        (segment_operators-Linked _ c.operators rep.linked
          (omega (arith, rep.paired, rep.recorded.counted))))

finish_scan-Outcome :
    (line : Bytes) (mode : ParseState) (s : Scan) (c : Cutting)
    → Represents line [] s c
    → Outcome line (finish_scan mode line s) (cut_end mode c)
unfolding finish_scan cut_end
finish_scan-Outcome line single_quoted s c rep = refused _ refl refl
finish_scan-Outcome line double_quoted s c rep = refused _ refl refl
finish_scan-Outcome line unquoted s c rep =
    push_last-Outcome line s c _ _ (trim c.current) rep (last-Range line s c rep)

large-Outcome :
    (line : Bytes) (mode : ParseState) (c : Cutting)
    → max_chain_segments ≤ length c.texts
    → Outcome line (err resource_unavailable) (cut_end mode c)
unfolding cut_end
large-Outcome line single_quoted c many = too_many_first _ refl refl
large-Outcome line double_quoted c many = too_many_first _ refl refl
large-Outcome line unquoted c many = large-chained (trim c.current) c many
  where
    large-chained :
        (text : Bytes) (c : Cutting)
        → max_chain_segments ≤ length c.texts
        → Outcome line (err resource_unavailable) (chained text c)
    large-chained [] c many = elim (nil_or_not c.texts) [
      | inl e ↦ absurd (omega (arith, many, ap length e))
      | inr e ↦ rw e (too_many_first invalid_syntax refl refl)
    ]
    large-chained (b ∷ bs) c many =
        too_many _ refl refl (omega (arith, many, length-append c.texts ((b ∷ bs) ∷ [])))

Agree-Outcome :
    (line : Bytes) (m : Result ParseError Scan) (n : Result ParseError Cutting)
    → Agree line [] m n
    → Outcome line (m >>= λ s. finish_scan s.state line s) (n >>= λ c. cut_end c.mode c)
Agree-Outcome line m n (same s c e f rep) =
    rw (e, f)
      (subst (λ state. Outcome line (finish_scan state line s) (cut_end c.mode c))
        (sym rep.same_state) (finish_scan-Outcome line c.mode s c rep))
Agree-Outcome line m n (failed bad e f) = rw (e, f) (refused bad refl refl)
Agree-Outcome line m n (large c e f many) = rw (e, f) (large-Outcome line c.mode c many)
Agree-Outcome line m n (both bad e f) = rw (e, f) (too_many_first bad refl refl)

at_line_start-Represents : (line : Bytes) → Represents line line at_line_start uncut
at_line_start-Represents line = record {
  same_state = refl;
  before = [];
  shape = refl;
  starts_at = refl;
  ends_at = refl;
  paired = refl;
  fits = omega arith;
  recorded = record {
    starts_of = [];
    ends_of = [];
    counted = refl;
    starts_filled = (replicate max_chain_segments 0, refl, refl);
    ends_filled = (replicate max_chain_segments 0, refl, refl);
    spans = nothing;
  };
  linked = (replicate (max_chain_segments - 1) sequence, refl, refl);
}

-- Of every line, `scan_segments` and the reference `pieces` agree up to the capacity of the arrays. Either
-- both succeed, at most 32 commands are there, and the segments and operators read back are the commands
-- and links of the reference; or both fail with the same error; or the scan reports
-- `resource_unavailable`, and then the reference fails or has more than 32 commands.
pub scan_segments-pieces : (line : Bytes) → Outcome line (scan_segments line) (pieces line)
unfolding scan_segments pieces
scan_segments-pieces line =
    Agree-Outcome line _ _
      (scan_bytes-Agree line line at_line_start uncut (at_line_start-Represents line))
