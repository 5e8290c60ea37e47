-- ===== src/Lash/Segments/Rounds.antt =====
-- One byte of the line, or the two of an operator, read by `scan_segments` and by the reference
-- (user/lash/src/lib.rs).
use lazers.Base.{ℕ, ◌-◌, Bool, true, false, [], ◌∷◌, ◌++◌, ◌≡◌, refl, inl, inr, arith}
use lazers.Base.Tests.{lt→leb_false, leb_false→lt, leb→le, leb, if◌then◌else◌, ◌==◌, Bool-cases}
use lazers.Base.Lists.{length, length-append}
use lazers.Base.Words.{Bytes}
use lazers.Base.Text.{is_nil}
use lazers.Base.Results.{Result, ok}
use lazers.Lash.{
  ParseError, ParseState, SegmentOperator, and, or, sequence, invalid_syntax, unquoted,
  single_quoted, double_quoted, max_chain_segments,
}
use lazers.Lash.Segments.{Scan, push, end_segment, advance, enter, scan_one, scan_two}
use lazers.Lash.Segments.Trim.{Range-slice, trim}
use lazers.Lash.Segments.Pieces.{Cutting, cut, keep, turn, cut_one, cut_two}
use lazers.Lash.Segments.Agree.{
  Represents, Agree, same, failed, large, keep-Represents, cut_off-Represents, current-Range,
  Range-empty,
}

end_segment-Agree :
    (line operator_bytes rest : Bytes) (s : Scan) (c : Cutting) (operator : SegmentOperator)
    → Represents line (operator_bytes ++ rest) s c
    → Agree line rest (end_segment operator (length operator_bytes) line s) (cut operator c)
unfolding end_segment cut push
end_segment-Agree line operator_bytes rest s c operator rep =
    let range = current-Range line (operator_bytes ++ rest) s c rep in
    rw (Range-empty line _ _ (trim c.current) range) (elim (Bool-cases (is_nil (trim c.current))) [
      | inl e ↦ rw e (failed invalid_syntax refl refl)
      | inr e ↦
          let room : leb max_chain_segments s.segments.count ≡ false =
            lt→leb_false _ _ (omega (arith, rep.fits, rep.recorded.counted)) in
          elim (Bool-cases (leb (max_chain_segments - 1) s.segments.count)) [
            | inl full ↦
                rw (e, room, full)
                  (large _ refl refl (
                    omega (
                      arith,
                      leb→le _ _ full,
                      rep.recorded.counted,
                      length-append c.texts (trim c.current ∷ []),
                    )))
            | inr free ↦
                rw (e, room, free)
                  (same _ _ refl refl (
                    cut_off-Represents line operator_bytes rest s c operator _ _ (trim c.current)
                      rep (Range-slice line _ _ (trim c.current) range)
                      (omega (arith, leb_false→lt _ _ free, rep.recorded.counted))))
          ]
    ])

keep-Agree :
    (line bs rest : Bytes) (s : Scan) (c : Cutting)
    → Represents line (bs ++ rest) s c
    → Agree line rest (ok (advance (length bs) s)) (ok (keep bs c))
keep-Agree line bs rest s c rep =
    same _ _ refl refl (keep-Represents line bs rest s c s.state c.mode rep.same_state rep)

turn-Agree :
    (line rest : Bytes) (mode : ParseState) (byte : ℕ) (s : Scan) (c : Cutting)
    → Represents line (byte ∷ rest) s c
    → Agree line rest (ok (enter mode s)) (ok (turn mode byte c))
turn-Agree line rest mode byte s c rep =
    same _ _ refl refl (keep-Represents line (byte ∷ []) rest s c mode mode refl rep)

Agree-if :
    (line rest : Bytes) (b : Bool) (m m' : Result ParseError Scan)
    (n n' : Result ParseError Cutting)
    → Agree line rest m n
    → Agree line rest m' n'
    → Agree line rest (if b then m else m') (if b then n else n')
Agree-if line rest true m m' n n' f g = f
Agree-if line rest false m m' n n' f g = g

pub scan_one-Agree :
    (line rest : Bytes) (mode : ParseState) (byte : ℕ) (s : Scan) (c : Cutting)
    → Represents line (byte ∷ rest) s c
    → Agree line rest (scan_one mode byte line s) (cut_one mode byte c)
unfolding scan_one cut_one
scan_one-Agree line rest unquoted byte s c rep =
    Agree-if line rest (byte == b'\'') _ _ _ _ (turn-Agree line rest single_quoted byte s c rep) (
      Agree-if line rest (byte == b'"') _ _ _ _ (turn-Agree line rest double_quoted byte s c rep) (
        Agree-if line rest (byte == b';') _ _ _ _
          (end_segment-Agree line (byte ∷ []) rest s c sequence rep)
          (keep-Agree line (byte ∷ []) rest s c rep)))
scan_one-Agree line rest single_quoted byte s c rep =
    Agree-if line rest (byte == b'\'') _ _ _ _ (turn-Agree line rest unquoted byte s c rep)
      (keep-Agree line (byte ∷ []) rest s c rep)
scan_one-Agree line rest double_quoted byte s c rep =
    Agree-if line rest (byte == b'"') _ _ _ _ (turn-Agree line rest unquoted byte s c rep)
      (keep-Agree line (byte ∷ []) rest s c rep)

pub scan_two-Agree :
    (line rest : Bytes) (byte next : ℕ) (s : Scan) (c : Cutting)
    → Represents line (byte ∷ next ∷ rest) s c
    → Agree line rest (scan_two byte line s) (cut_two byte next c)
unfolding scan_two cut_two
scan_two-Agree line rest byte next s c rep =
    let both_bytes = byte ∷ next ∷ [] in
    Agree-if line rest (byte == b'&') _ _ _ _ (end_segment-Agree line both_bytes rest s c and rep) (
      Agree-if line rest (byte == b'|') _ _ _ _ (end_segment-Agree line both_bytes rest s c or rep)
        (keep-Agree line both_bytes rest s c rep))
