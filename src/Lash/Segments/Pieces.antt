-- ===== src/Lash/Segments/Pieces.antt =====
-- The commands of a line as texts, with the operators between them: what `scan_segments` of
-- user/lash/src/lib.rs reads a line as, when no capacity is in the way.
use lazers.Base.{ℕ, ◌≤◌, true, false, List, [], ◌∷◌, ◌++◌, ◌≡◌, inl, inr, arith}
use lazers.Base.Tests.{if◌then◌else◌, ◌==◌, Bool-cases}
use lazers.Base.Lists.{length, length-append}
use lazers.Base.Words.{Bytes}
use lazers.Base.Text.{is_nil}
use lazers.Base.Results.{Result, ok, err, ◌>>=◌, >>=-eq-ok}
use lazers.Lash.{
  ParseError, ParseState, SegmentOperator, and, or, sequence, unmatched_single_quote,
  unmatched_double_quote, trailing_backslash, invalid_syntax, unquoted, single_quoted,
  double_quoted,
}
use lazers.Lash.Tokens.{escapes}
use lazers.Lash.Segments.{takes_two}
use lazers.Lash.Segments.Trim.{trim}

-- The commands that are complete with the operator behind each, and the text since the last one.
pub record Cutting : Type 0 where
  pub mode : ParseState
  pub texts : List Bytes
  pub operators : List SegmentOperator
  pub current : Bytes

abbrev pub keep : Bytes → Cutting → Cutting
keep bs c = record c { current = c.current ++ bs }

abbrev pub turn : ParseState → ℕ → Cutting → Cutting
turn mode byte c = record c { current = c.current ++ (byte ∷ []); mode = mode }

abbrev pub cut_off : SegmentOperator → Bytes → Cutting → Cutting
cut_off operator text c = record c {
  texts = c.texts ++ (text ∷ []);
  operators = c.operators ++ (operator ∷ []);
  current = [];
}

unfoldable pub cut : SegmentOperator → Cutting → Result ParseError Cutting
cut operator c =
    if is_nil (trim c.current) then err invalid_syntax else ok (cut_off operator (trim c.current) c)

unfoldable pub cut_two : ℕ → ℕ → Cutting → Result ParseError Cutting
cut_two byte next c =
    if byte == b'&'
    then cut and c
    else if byte == b'|'
    then cut or c
    else ok (keep (byte ∷ next ∷ []) c)

unfoldable pub cut_one : ParseState → ℕ → Cutting → Result ParseError Cutting
cut_one unquoted byte c =
    if byte == b'\''
    then ok (turn single_quoted byte c)
    else if byte == b'"'
    then ok (turn double_quoted byte c)
    else if byte == b';'
    then cut sequence c
    else ok (keep (byte ∷ []) c)
cut_one single_quoted byte c =
    if byte == b'\'' then ok (turn unquoted byte c) else ok (keep (byte ∷ []) c)
cut_one double_quoted byte c =
    if byte == b'"' then ok (turn unquoted byte c) else ok (keep (byte ∷ []) c)

unfoldable pub cut_bytes : Bytes → Cutting → Result ParseError Cutting
cut_bytes [] c = ok c
cut_bytes (byte ∷ []) c =
    if escapes c.mode byte then err trailing_backslash else cut_one c.mode byte c
cut_bytes (byte ∷ next ∷ rest) c = elim (takes_two c.mode byte next) [
  | true ↦ cut_two byte next c >>= cut_bytes rest
  | false ↦ cut_one c.mode byte c >>= cut_bytes (next ∷ rest)
]

-- A chain: the text of each command, and the operators between them.
pub record Chain : Type 0 where
  pub commands : List Bytes
  pub links : List SegmentOperator

abbrev pub chained : Bytes → Cutting → Result ParseError Chain
chained [] c =
    if is_nil c.texts then ok (record { commands = []; links = [] }) else err invalid_syntax
chained (b ∷ bs) c = ok (record { commands = c.texts ++ ((b ∷ bs) ∷ []); links = c.operators })

unfoldable pub cut_end : ParseState → Cutting → Result ParseError Chain
cut_end single_quoted c = err unmatched_single_quote
cut_end double_quoted c = err unmatched_double_quote
cut_end unquoted c = chained (trim c.current) c

abbrev pub uncut : Cutting
uncut = record { mode = unquoted; texts = []; operators = []; current = [] }

-- The chain that a line stands for.
unfoldable pub pieces : Bytes → Result ParseError Chain
pieces line = cut_bytes line uncut >>= λ c. cut_end c.mode c

-- The number of complete commands never falls.
cut-grows :
    (operator : SegmentOperator) (c d : Cutting)
    → cut operator c ≡ ok d
    → length c.texts ≤ length d.texts
unfolding cut
cut-grows operator c d h = ground (arith, length-append c.texts (trim c.current ∷ []))

cut_two-grows :
    (byte next : ℕ) (c d : Cutting) → cut_two byte next c ≡ ok d → length c.texts ≤ length d.texts
unfolding cut_two
cut_two-grows byte next c d h = ground (arith, cut-grows and c d, cut-grows or c d)

cut_one-grows :
    (mode : ParseState) (byte : ℕ) (c d : Cutting)
    → cut_one mode byte c ≡ ok d
    → length c.texts ≤ length d.texts
unfolding cut_one
cut_one-grows unquoted byte c d h = ground (arith, cut-grows sequence c d)
cut_one-grows single_quoted byte c d h = ground arith
cut_one-grows double_quoted byte c d h = ground arith

pub cut_bytes-grows :
    (bs : Bytes) (c d : Cutting) → cut_bytes bs c ≡ ok d → length c.texts ≤ length d.texts
unfolding cut_bytes
cut_bytes-grows [] c d h = ground arith
cut_bytes-grows (byte ∷ []) c d h = ground (arith, cut_one-grows c.mode byte c d)
cut_bytes-grows (byte ∷ next ∷ rest) c d h = elim (Bool-cases (takes_two c.mode byte next)) [
  | inl e ↦
      let (mid, first, then_rest) =
        >>=-eq-ok (cut_two byte next c) (cut_bytes rest) (rw (e, cut_bytes) at h) in
      omega (arith, cut_two-grows byte next c mid first, cut_bytes-grows rest mid d then_rest)
  | inr e ↦
      let (mid, first, then_rest) =
        >>=-eq-ok (cut_one c.mode byte c) (cut_bytes (next ∷ rest)) (rw (e, cut_bytes) at h) in
      omega (
        arith,
        cut_one-grows c.mode byte c mid first,
        cut_bytes-grows (next ∷ rest) mid d then_rest,
      )
]
