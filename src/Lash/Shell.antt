-- ===== src/Lash/Shell.antt =====
-- Executing a line, user/lash/src/shell.rs: its segments in their order, each if the operator before it
-- and the status so far allow it.
pub mod Chain
pub mod Spawn
pub mod Examples
use lazers.Base.{
  ℕ, zero, suc, ◌+◌, ◌-◌, ◌*◌, ◌/◌, ◌%◌, ◌^◌, ◌≤◌, ◌<◌, min, max, Bool, true, false, not, ◌&&◌,
  ◌||◌, Option, none, some, List, [], ◌∷◌, ◌++◌, map, ◌≡◌, ◌≢◌, ◌↔◌, refl, sym, ap, ◌∙◌, ◌⊎◌, inl,
  inr, arith,
}
use lazers.Base.Tests.{ltb, leb, if◌then◌else◌, ◌==◌, Bool-cases, Option-cases}
use lazers.Base.Words.{Bytes}
use lazers.Base.Text.{codes, equal, is_nil}
use lazers.Base.Results.{Result, ok, err, and_then}
use lazers.Lash.{ParseError, SegmentOperator, and, or, sequence, resource_unavailable}
use lazers.Lash.Tokens.{TokenizedCommand, parse}
use lazers.Lash.Segments.{SegmentScan, scan_segments, segment, operator_before}
use lazers.Lash.System.{System, Program, return, exit, ◌>>=◌, ◌>>◌, println, token_or_empty, unwrap}
use lazers.Lash.Commands.{
  ExecutionMode, interactive, batch, is_interactive, fail_with, not_found_status, run_command,
}
use lazers.Lash.Builtins.{run_cd, run_env, run_set, run_unset, run_where}

abbrev allows : SegmentOperator → ℕ → Bool
allows and last_status = last_status == 0
allows or last_status = not (last_status == 0)
allows sequence last_status = true

module _ {W : Type 0} (sys : System W) where
  unfoldable pub print_parse_error : ExecutionMode → Program W (Unit {0})
  print_parse_error mode =
      println sys (codes "lash: parse error")
      >> (if is_interactive mode then println sys [] else return tt)

  abbrev parse_failure : ParseError → ExecutionMode → Program W ℕ
  parse_failure resource_unavailable mode =
      fail_with sys (codes "lash: unable to parse command: resource unavailable")
  parse_failure _ mode = print_parse_error mode >> return 1

  abbrev dispatch : Bytes → TokenizedCommand → ExecutionMode → Program W ℕ
  dispatch command tokens mode =
      if equal command (codes "cd")
      then run_cd sys tokens
      else if equal command (codes "env")
      then run_env sys tokens
      else if equal command (codes "set")
      then run_set sys tokens
      else if equal command (codes "unset")
      then run_unset sys tokens
      else if equal command (codes "where")
      then run_where sys tokens
      else if equal command (codes "exit")
      then exit 0
      else if not (is_nil command)
      then run_command sys command tokens mode
      else not_found_status sys command

  abbrev execute_tokens : Result ParseError TokenizedCommand → ExecutionMode → Program W ℕ
  execute_tokens (ok tokens) mode =
      if tokens.count == 0
      then return 0
      else (token_or_empty tokens 0 >>= λ command. dispatch command tokens mode)
  execute_tokens (err e) mode = parse_failure e mode

  unfoldable pub execute_segment : Bytes → ExecutionMode → Program W ℕ
  execute_segment line mode = execute_tokens (parse line) mode

  -- Whether the segment runs; an operator that is missing is a panic.
  abbrev should_run : SegmentScan → ℕ → ℕ → Program W Bool
  should_run segments index last_status =
      if index == 0
      then return true
      else (unwrap (operator_before segments index) >>= λ operator.
          return (allows operator last_status))

  -- `count` segments from `index` on.
  unfoldable pub execute_from : ℕ → ℕ → SegmentScan → Bytes → ExecutionMode → ℕ → Program W ℕ
  execute_from zero index segments line mode last_status = return last_status
  execute_from (suc count) index segments line mode last_status =
      should_run segments index last_status >>= λ runs.
      (if runs
        then (unwrap (and_then (segment segments line index) (λ text. text)) >>= λ text.
            execute_segment text mode)
        else return last_status)
      >>= execute_from count (suc index) segments line mode

  abbrev execute_segments : Result ParseError SegmentScan → Bytes → ExecutionMode → Program W ℕ
  execute_segments (ok segments) line mode = execute_from segments.count 0 segments line mode 0
  execute_segments (err e) line mode = parse_failure e mode

  unfoldable pub execute_line : Bytes → ExecutionMode → Program W ℕ
  execute_line line mode = execute_segments (scan_segments line) line mode
