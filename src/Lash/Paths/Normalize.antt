-- ===== src/Lash/Paths/Normalize.antt =====
-- A name made absolute, `normalize_command_path` of user/lash/src/paths.rs from the working directory on.
use lazers.Base.{suc, Option, none, some, ◌≢◌, refl, arith}
use lazers.Base.Tests.{ltb, if◌then◌else◌}
use lazers.Base.Lists.{length}
use lazers.Base.Words.{Bytes}
use lazers.Base.Results.{Result, ok, err}
use lazers.Base.Lists.{replicate, overwrite}
use lazers.Base.Text.{starts_with}
use lazers.Base.Results.{◌>>=◌}
use lazers.Lash.{line_capacity}
use lazers.Lash.Paths.{
  ResolutionError, resource_unavailable, NormalizedPath, root_text, at_least_root, enter_segments,
}
use lazers.Lash.Paths.Rounds.{enter_segments-returns}

-- The value of a loop that ends.
abbrev value {ℓ} : {A : Type ℓ} (o : Option A) → o ≢ none → A
value none ends = absurd (ends refl)
value (some a) ends = a

-- The loop over the segments; there are no more rounds than bytes, and one.
abbrev all_entered : Bytes → NormalizedPath → Result ResolutionError NormalizedPath
all_entered input path =
    value (enter_segments (suc (length input)) input path)
      (enter_segments-returns (suc (length input)) input path (omega arith))

abbrev blank_output : Bytes
blank_output = replicate line_capacity 0

-- The name against a working directory that could be read.
unfoldable pub normalize_from : Bytes → Bytes → Result ResolutionError NormalizedPath
normalize_from cwd input =
    (if starts_with b'/' input
      then ok (record { bytes = overwrite blank_output 0 root_text; len = 1 })
      else if ltb line_capacity (length cwd)
      then err resource_unavailable
      else ok (record { bytes = overwrite blank_output 0 cwd; len = length cwd }))
    >>= all_entered input
    >>= λ path. ok (at_least_root path)
