-- ===== src/Lash/Commands.antt =====
-- Running and finding commands, user/lash/src/commands.rs.
use lazers.Base.{
  ℕ, zero, suc, ◌-◌, Bool, true, false, not, ◌&&◌, ◌||◌, Option, none, some, List, [], ◌∷◌, ◌++◌,
}
use lazers.Base.Tests.{if◌then◌else◌, ◌==◌}
use mathlib.Core.Option as Optional
use lazers.Base.Words.{Bytes}
use lazers.Base.Text.{decimal, codes, contains, starts_with}
use lazers.Base.Results.{Result, ok, err}
use lazers.Lash.{max_command_args}
use lazers.Lash.Tokens.{TokenizedCommand}
use lazers.Lash.System.{
  System, Program, SpawnError, return, calls, ◌>>=◌, ◌>>◌, println, token_or_empty, invalid_path,
  file_not_found, invalid_executable, resource_unavailable,
}
use lazers.Lash.Paths.{
  ResolutionError, PathSearchStep, PathSearchOutcome, continue, matched, finished, no_matches,
  returned,
}
use lazers.Lash.Paths.Search.{probe_path, with_path_candidates}
use lazers.Lash.Paths as Paths

-- user/lash/src/shell.rs
pub data ExecutionMode : Type 0 where
  interactive batch : ExecutionMode

abbrev pub is_interactive : ExecutionMode → Bool
is_interactive interactive = true
is_interactive batch = false

abbrev pub cannot_run : Bytes
cannot_run = codes "lash: unable to run command: resource unavailable"

abbrev pub cannot_resolve : Bytes
cannot_resolve = codes "lash: unable to resolve command: resource unavailable"

module _ {W : Type 0} (sys : System W) where
  abbrev pub fail_with : Bytes → Program W ℕ
  fail_with message = println sys message >> return 1

  abbrev pub command_not_found : Bytes → Program W (Unit {0})
  command_not_found command = println sys (codes "lash: command not found: " ++ command)

  abbrev pub not_found_status : Bytes → Program W ℕ
  not_found_status command = command_not_found command >> return 1

  unfoldable pub report_command_status : ℕ → ExecutionMode → Program W ℕ
  report_command_status status mode =
      if not (status == 0) && is_interactive mode
      then println sys (codes "lash: command exited with status " ++ decimal status)
        >> println sys []
        >> return status
      else return status

  abbrev print_invalid_path : Bytes → Program W ℕ
  print_invalid_path path = fail_with (codes "lash: invalid path: " ++ path)

  -- The result of `spawn_wait` on a candidate from PATH, as a step of the search.
  abbrev candidate_step : Bytes → ExecutionMode → Result SpawnError ℕ → Program W (PathSearchStep ℕ)
  candidate_step candidate mode (ok status) =
      report_command_status status mode >>= λ code. return (finished code)
  candidate_step candidate mode (err file_not_found) = return continue
  candidate_step candidate mode (err invalid_path) =
      print_invalid_path candidate >>= λ code. return (finished code)
  candidate_step candidate mode (err invalid_executable) =
      fail_with (codes "lash: invalid executable: " ++ candidate) >>= λ code. return (finished code)
  candidate_step candidate mode (err resource_unavailable) =
      fail_with cannot_run >>= λ code. return (finished code)

  abbrev run_outcome : Bytes → Result ResolutionError (PathSearchOutcome ℕ) → Program W ℕ
  run_outcome command (ok (returned status)) = return status
  run_outcome command (ok matched) = not_found_status command
  run_outcome command (ok no_matches) = not_found_status command
  run_outcome command (err Paths.invalid_path) = print_invalid_path command
  run_outcome command (err Paths.resource_unavailable) = fail_with cannot_run

  unfoldable pub run_path_command : Bytes → List Bytes → ExecutionMode → Program W ℕ
  run_path_command command arguments mode =
      with_path_candidates sys
        (λ candidate. calls (sys.spawn_wait candidate arguments) >>= candidate_step candidate mode)
        command
      >>= run_outcome command

  abbrev probe_step : Bytes → Result ResolutionError Bool → Program W (PathSearchStep ℕ)
  probe_step candidate (ok true) = println sys candidate >> return matched
  probe_step candidate (ok false) = return continue
  probe_step candidate (err Paths.invalid_path) =
      print_invalid_path candidate >>= λ code. return (finished code)
  probe_step candidate (err Paths.resource_unavailable) =
      fail_with cannot_resolve >>= λ code. return (finished code)

  abbrev match_outcome : Bytes → Result ResolutionError (PathSearchOutcome ℕ) → Program W ℕ
  match_outcome command (ok matched) = return 0
  match_outcome command (ok (returned status)) = return status
  match_outcome command (ok no_matches) = not_found_status command
  match_outcome command (err Paths.invalid_path) = print_invalid_path command
  match_outcome command (err Paths.resource_unavailable) = fail_with cannot_resolve

  unfoldable pub print_path_matches : Bytes → Program W ℕ
  print_path_matches command =
      with_path_candidates sys (λ candidate. probe_path sys candidate >>= probe_step candidate)
        command
      >>= match_outcome command

  abbrev where_outcome : Bytes → Bytes → Result ResolutionError Bool → Program W ℕ
  where_outcome display_name path (ok true) = println sys path >> return 0
  where_outcome display_name path (ok false) = not_found_status display_name
  where_outcome display_name path (err Paths.invalid_path) = print_invalid_path path
  where_outcome display_name path (err Paths.resource_unavailable) = fail_with cannot_resolve

  unfoldable pub print_explicit_where : Bytes → Bytes → Program W ℕ
  print_explicit_where display_name path = probe_path sys path >>= where_outcome display_name path

  abbrev pub spawn_outcome : Bytes → Bytes → ExecutionMode → Result SpawnError ℕ → Program W ℕ
  spawn_outcome display_name path mode (ok status) = report_command_status status mode
  spawn_outcome display_name path mode (err file_not_found) = not_found_status display_name
  spawn_outcome display_name path mode (err invalid_path) = print_invalid_path path
  spawn_outcome display_name path mode (err invalid_executable) =
      fail_with (codes "lash: invalid executable: " ++ path)
  spawn_outcome display_name path mode (err resource_unavailable) = fail_with cannot_run

  unfoldable pub run_command_at_path : Bytes → Bytes → List Bytes → ExecutionMode → Program W ℕ
  run_command_at_path display_name path arguments mode =
      calls (sys.spawn_wait path arguments) >>= spawn_outcome display_name path mode

  -- The words from `index` on, `count` of them; `room` is what the array of arguments has left.
  unfoldable pub collect_arguments : ℕ → ℕ → ℕ → TokenizedCommand → Program W (Option (List Bytes))
  collect_arguments zero index room tokens = return (some [])
  collect_arguments (suc count) index zero tokens = return none
  collect_arguments (suc count) index (suc room) tokens =
      token_or_empty tokens index >>= λ argument.
      collect_arguments count (suc index) room tokens >>= λ rest.
      return (Optional.map (λ arguments. argument ∷ arguments) rest)

  abbrev with_arguments : Bytes → ExecutionMode → Option (List Bytes) → Program W ℕ
  with_arguments command mode none =
      fail_with (codes "lash: unable to parse command: resource unavailable")
  with_arguments command mode (some arguments) =
      if starts_with b'/' command || contains b'/' command
      then run_command_at_path command command arguments mode
      else run_path_command command arguments mode

  unfoldable pub run_command : Bytes → TokenizedCommand → ExecutionMode → Program W ℕ
  run_command command tokens mode =
      collect_arguments (tokens.count - 1) 1 max_command_args tokens >>= with_arguments command mode
