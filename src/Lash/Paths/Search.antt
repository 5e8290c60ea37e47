-- ===== src/Lash/Paths/Search.antt =====
-- The calls of user/lash/src/paths.rs: the working directory, a probe for a file, and the candidates of a
-- command in the directories of PATH.
use lazers.Base.{List, []}
use lazers.Base.Tests.{◌==◌}
use lazers.Path.{onto_first}
use lazers.Base.{◌+◌, Bool, true, false, Option, none, some, ◌∷◌, ◌++◌}
use lazers.Base.Tests.{ltb, if◌then◌else◌}
use lazers.Base.Lists.{length}
use lazers.Base.Words.{Bytes}
use lazers.Base.Text.{starts_with, from_utf8, codes}
use lazers.Base.Results.{Result, ok, err, ok_or}
use lazers.Lash.{line_capacity}
use lazers.Lash.System.{
  System, Program, return, asks, ◌>>=◌, GetCwdError, GetEnvError, ReadFileError, not_found,
  not_a_file, buffer_too_small,
}
use lazers.Lash.System as Sys
use lazers.Lash.Paths.{
  ResolutionError, PathSearchStep, PathSearchOutcome, NormalizedPath, invalid_path,
  resource_unavailable, continue, matched, finished, no_matches, returned, root_text,
  path_buffer_capacity, command_path_capacity,
}
use lazers.Lash.Paths.Normalize.{normalize_from}

-- `core::str::from_utf8(bytes).unwrap_or(instead)`
abbrev pub text_or : Bytes → Option Bytes → Bytes
text_or instead none = instead
text_or instead (some text) = text

abbrev normalized : Bytes → Result GetCwdError Bytes → Result ResolutionError NormalizedPath
normalized input (ok cwd) = normalize_from (text_or root_text (from_utf8 cwd)) input
normalized input (err e) = err resource_unavailable

abbrev probed : Result ReadFileError Bytes → Result ResolutionError Bool
probed (ok bytes) = ok true
probed (err buffer_too_small) = ok true
probed (err not_found) = ok false
probed (err not_a_file) = ok false
probed (err Sys.invalid_path) = err invalid_path
probed (err Sys.resource_unavailable) = err resource_unavailable

abbrev loaded : Result GetEnvError Bytes → Option Bytes
loaded (ok path) = from_utf8 path
loaded (err e) = none

unfoldable pub build_path_candidate : Bytes → Bytes → Result ResolutionError Bytes
build_path_candidate entry command =
    if ltb command_path_capacity (length entry + 1 + length command)
    then err resource_unavailable
    else ok_or (from_utf8 (entry ++ (b'/' ∷ command))) invalid_path

-- The text up to the first `:`, the text behind it up to the next, and so on.
unfoldable pub path_entries : Bytes → List Bytes
path_entries [] = [] ∷ []
path_entries (b ∷ bs) =
    let rest = path_entries bs in if b == b':' then [] ∷ rest else onto_first b rest

module _ {W : Type 0} (sys : System W) where
  unfoldable pub normalize_command_path : Bytes → Program W (Result ResolutionError NormalizedPath)
  normalize_command_path input =
      asks (sys.getcwd line_capacity) >>= λ cwd. return (normalized input cwd)

  -- The probe reads into a buffer of one byte.
  unfoldable pub probe_path : Bytes → Program W (Result ResolutionError Bool)
  probe_path path = asks (sys.read_file path 1) >>= λ bytes. return (probed bytes)

  unfoldable pub load_path : Program W (Option Bytes)
  load_path =
      asks (sys.get_env (codes "PATH") path_buffer_capacity) >>= λ path. return (loaded path)

  module _ {A : Type 0} (visitor : Bytes → Program W (PathSearchStep A)) where
    abbrev visited :
        Result ResolutionError Bytes → Program W (Result ResolutionError (PathSearchStep A))
    visited (ok candidate) = visitor candidate >>= λ step. return (ok step)
    visited (err e) = return (err e)

    -- What one entry of PATH leads to; an entry that is not absolute is passed over.
    unfoldable pub visit_entry :
        Bytes → Bytes → Program W (Result ResolutionError (PathSearchStep A))
    visit_entry command entry =
        if starts_with b'/' entry
        then visited (build_path_candidate entry command)
        else return (ok continue)

    abbrev outcome : Bool → PathSearchOutcome A
    outcome true = matched
    outcome false = no_matches

    -- Whether the search ends with this step, and whether a candidate has matched by now.
    abbrev go_on :
        Bool
        → (Bool → Program W (Result ResolutionError (PathSearchOutcome A)))
        → Result ResolutionError (PathSearchStep A)
        → Program W (Result ResolutionError (PathSearchOutcome A))
    go_on seen rest (err e) = return (err e)
    go_on seen rest (ok continue) = rest seen
    go_on seen rest (ok matched) = rest true
    go_on seen rest (ok (finished value)) = return (ok (returned value))

    -- The loop over the entries of PATH that are left.
    unfoldable pub search_entries :
        Bytes → List Bytes → Bool → Program W (Result ResolutionError (PathSearchOutcome A))
    search_entries command [] seen = return (ok (outcome seen))
    search_entries command (entry ∷ others) seen =
        visit_entry command entry >>= go_on seen (search_entries command others)

    abbrev searched :
        Bytes → Option Bytes → Program W (Result ResolutionError (PathSearchOutcome A))
    searched command none = return (ok no_matches)
    searched command (some path) = search_entries command (path_entries path) false

    unfoldable pub with_path_candidates :
        Bytes → Program W (Result ResolutionError (PathSearchOutcome A))
    with_path_candidates command = load_path >>= searched command
