-- ===== src/Lash/Tokens/Examples.antt =====
-- The token parser run on the lines of the tests in user/lash/src/lib.rs, and its theorems at inputs that
-- meet their hypotheses.
use lazers.Base.{List, none, some, [], ◌∷◌, map, Option, ◌≡◌, refl, arith}
use lazers.Base.Words.{Bytes}
use lazers.Base.Text.{codes, from_utf8}
use lazers.Base.Results.{Result, ok, err}
use lazers.Lash.{
  ParseError, unmatched_single_quote, unmatched_double_quote, trailing_backslash,
  resource_unavailable,
}
use lazers.Lash.Tokens.{
  TokenizedCommand, parse, parse_bytes, read_byte, read_escaped, escapes, finish_parse, open_token,
  close_token, push_byte, start_token, finish_token, push_token_byte, token, token_at,
}
use lazers.Lash.Tokens.Words.{words, Fits}
use lazers.Lash.Tokens.Refine.Read.{tokens, tokens_from}
use lazers.Lash.Tokens.Refine.Whole.{Outcome, parse-words}
use lazers.Lash.Tokens.Quote.{command_line, parse-command_line}

abbrev tokens_of : Result ParseError TokenizedCommand → Option (List (Option Bytes))
tokens_of (ok p) = tokens p
tokens_of (err e) = none

abbrev shown : List Bytes → Option (List (Option Bytes))
shown ws = some (map some ws)

splits_and_collapses_spaces :
    tokens_of (parse (codes "echo   hello   world"))
    ≡ shown (codes "echo" ∷ codes "hello" ∷ codes "world" ∷ [])
unfolding parse parse_bytes read_byte read_escaped escapes finish_parse open_token close_token
    push_byte start_token finish_token push_token_byte token token_at tokens tokens_from from_utf8
splits_and_collapses_spaces = refl

preserves_quoted_arguments :
    tokens_of (parse (codes "echo foo\"bar\" 'a b' ''"))
    ≡ shown (codes "echo" ∷ codes "foobar" ∷ codes "a b" ∷ [] ∷ [])
unfolding parse parse_bytes read_byte read_escaped escapes finish_parse open_token close_token
    push_byte start_token finish_token push_token_byte token token_at tokens tokens_from from_utf8
preserves_quoted_arguments = refl

handles_escapes :
    tokens_of (parse (codes "echo a\\ b \\\"x\\\""))
    ≡ shown (codes "echo" ∷ codes "a b" ∷ codes "\"x\"" ∷ [])
unfolding parse parse_bytes read_byte read_escaped escapes finish_parse open_token close_token
    push_byte start_token finish_token push_token_byte token token_at tokens tokens_from from_utf8
handles_escapes = refl

reports_errors :
    (parse (codes "echo 'oops") ≡ err unmatched_single_quote)
    × (parse (codes "echo \"oops") ≡ err unmatched_double_quote)
    × (parse (codes "echo hello\\") ≡ err trailing_backslash)
unfolding parse parse_bytes read_byte read_escaped escapes finish_parse open_token close_token
    push_byte start_token finish_token push_token_byte
reports_errors = (refl, refl, refl)

reports_too_many_arguments :
    parse (codes "a a a a a a a a a a a a a a a a a") ≡ err resource_unavailable
unfolding parse parse_bytes read_byte read_escaped escapes finish_parse open_token close_token
    push_byte start_token finish_token push_token_byte
reports_too_many_arguments = refl

abbrev greeting : List Bytes
greeting = codes "echo" ∷ codes "a && b" ∷ [] ∷ codes "it's" ∷ []

greeting-Fits : Fits greeting
greeting-Fits = (omega arith, omega arith)

parse-words_example : Outcome (parse (codes "echo 'a b' c\\ d")) (words (codes "echo 'a b' c\\ d"))
parse-words_example = parse-words (codes "echo 'a b' c\\ d")

parse-command_line_example :
    (p : TokenizedCommand) × (parse (command_line greeting) ≡ ok p)
    × (tokens p ≡ some (map from_utf8 greeting))
parse-command_line_example = parse-command_line greeting greeting-Fits
