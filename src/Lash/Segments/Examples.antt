-- ===== src/Lash/Segments/Examples.antt =====
-- The segment scanner run on the lines of the tests in user/lash/src/lib.rs, and its theorems at inputs
-- that meet their hypotheses.
use lazers.Base.{List, none, some, [], ◌∷◌, Option, ◌≡◌, refl, arith}
use lazers.Base.Words.{Bytes}
use lazers.Base.Text.{codes}
use lazers.Base.Results.{Result, ok, err}
use lazers.Lash.{
  ParseError, SegmentOperator, and, or, sequence, invalid_syntax, unmatched_single_quote,
  unmatched_double_quote, trailing_backslash, resource_unavailable,
}
use lazers.Lash.Tokens.{escapes}
use lazers.Lash.Tokens.Quote.{command_line}
use lazers.Lash.Segments.{
  SegmentScan, scan_segments, scan_bytes, scan_one, scan_two, takes_two, end_segment, finish_scan,
  push_last, push, trim_spaces_range, trimmed_start, trimmed_end, segment, segment_at,
  operator_before,
}
use lazers.Lash.Segments.Pieces.{pieces}
use lazers.Lash.Segments.Read.{segment_texts, segments_from, segment_operators, operators_from}
use lazers.Lash.Segments.Whole.{Outcome, scan_segments-pieces}
use lazers.Lash.Segments.Script.{Script, write, lines, links_of, WordedScript, scan_segments-write}

abbrev texts_of : Bytes → Result ParseError SegmentScan → Option (List Bytes)
texts_of line (ok s) = segment_texts s line
texts_of line (err e) = none

abbrev operators_of : Result ParseError SegmentScan → Option (List SegmentOperator)
operators_of (ok s) = segment_operators s
operators_of (err e) = none

abbrev chained_line : Bytes
chained_line = codes "echo a && echo b || echo c ; echo d"

tracks_operator_order :
    (texts_of chained_line (scan_segments chained_line)
      ≡ some (codes "echo a" ∷ codes "echo b" ∷ codes "echo c" ∷ codes "echo d" ∷ []))
    × (operators_of (scan_segments chained_line) ≡ some (and ∷ or ∷ sequence ∷ []))
unfolding scan_segments scan_bytes scan_one scan_two takes_two end_segment finish_scan push_last
    push trim_spaces_range trimmed_start trimmed_end escapes segment segment_at operator_before
    segment_texts segments_from segment_operators operators_from
tracks_operator_order = (refl, refl)

abbrev quoting_line : Bytes
quoting_line = codes "echo \"a ; b\" a\\;b 'x || y'"

respects_quotes_and_escapes :
    texts_of quoting_line (scan_segments quoting_line) ≡ some (quoting_line ∷ [])
unfolding scan_segments scan_bytes scan_one scan_two takes_two end_segment finish_scan push_last
    push trim_spaces_range trimmed_start trimmed_end escapes segment segment_at segment_texts
    segments_from
respects_quotes_and_escapes = refl

rejects_invalid_syntax :
    (scan_segments (codes "|| echo") ≡ err invalid_syntax)
    × (scan_segments (codes "echo ||") ≡ err invalid_syntax)
    × (scan_segments (codes "echo ; ; ls") ≡ err invalid_syntax)
    × (scan_segments (codes "echo || && ls") ≡ err invalid_syntax)
unfolding scan_segments scan_bytes scan_one scan_two takes_two end_segment finish_scan push_last
    push trim_spaces_range trimmed_start trimmed_end escapes
rejects_invalid_syntax = (refl, refl, refl, refl)

reports_errors :
    (scan_segments (codes "echo 'oops") ≡ err unmatched_single_quote)
    × (scan_segments (codes "echo \"oops") ≡ err unmatched_double_quote)
    × (scan_segments (codes "echo hello\\") ≡ err trailing_backslash)
    × (scan_segments (codes "a;a;a;a;a;a;a;a;a;a;a;a;a;a;a;a;a;a;a;a;a;a;a;a;a;a;a;a;a;a;a;a;a")
        ≡ err resource_unavailable)
unfolding scan_segments scan_bytes scan_one scan_two takes_two end_segment finish_scan push_last
    push trim_spaces_range trimmed_start trimmed_end escapes
reports_errors = (refl, refl, refl, refl)

abbrev pub two_commands : Script
two_commands = record {
  first = codes "echo" ∷ codes "a ; b" ∷ [];
  others = (and, codes "ls" ∷ codes "&&" ∷ []) ∷ [];
}

pub two_commands-WordedScript : WordedScript two_commands
two_commands-WordedScript = (refl, (refl, tt))

scan_segments-pieces_example :
    Outcome chained_line (scan_segments chained_line) (pieces chained_line)
scan_segments-pieces_example = scan_segments-pieces chained_line

scan_segments-write_example :
    (s : SegmentScan) × (scan_segments (write two_commands) ≡ ok s)
    × (segment_texts s (write two_commands)
        ≡ some (command_line two_commands.first ∷ lines two_commands.others))
    × (segment_operators s ≡ some (links_of two_commands.others))
scan_segments-write_example =
    scan_segments-write two_commands two_commands-WordedScript (omega arith)
