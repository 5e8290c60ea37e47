-- ===== src/Lash/Paths.antt =====
-- The paths of user/lash/src/paths.rs: a name made absolute against the working directory, and the
-- search for a command through the entries of PATH.
pub mod Search
pub mod Rounds
pub mod Normalize
pub mod Examples
use lazers.Base.{
  ℕ, zero, suc, ◌+◌, ◌-◌, ◌*◌, ◌/◌, ◌%◌, ◌^◌, ◌≤◌, ◌<◌, min, max, Bool, true, false, not, ◌&&◌,
  ◌||◌, Option, none, some, List, [], ◌∷◌, ◌++◌, map, ◌≡◌, ◌≢◌, ◌↔◌, refl, sym, ap, ◌∙◌, ◌⊎◌, inl,
  inr, arith,
}
use lazers.Base.Tests.{ltb, leb, if◌then◌else◌, ◌==◌, Bool-cases, Option-cases}
use lazers.Base.Lists.{length, get_elem?, take, drop, replicate, overwrite, set}
use lazers.Base.Words.{Bytes}
use lazers.Base.Text.{codes, equal, is_nil, starts_with, from_utf8}
use lazers.Base.Results.{Result, ok, err, ok_or, ◌>>=◌}
use lazers.Lash.{line_capacity}

abbrev pub path_buffer_capacity : ℕ
path_buffer_capacity = 128

abbrev pub command_path_capacity : ℕ
command_path_capacity = line_capacity + 1 + 128

pub data ResolutionError : Type 0 where
  invalid_path resource_unavailable : ResolutionError

pub data PathSearchStep (A : Type 0) : Type 0 where
  continue matched : PathSearchStep A
  finished : A → PathSearchStep A

pub data PathSearchOutcome (A : Type 0) : Type 0 where
  no_matches matched : PathSearchOutcome A
  returned : A → PathSearchOutcome A

-- `output` and `len`.
pub record NormalizedPath : Type 0 where
  pub bytes : Bytes
  pub len : ℕ

unfoldable pub as_str : NormalizedPath → Result ResolutionError Bytes
as_str path = ok_or (from_utf8 (take path.len path.bytes)) invalid_path

abbrev pub is_slash : Option ℕ → Bool
is_slash none = false
is_slash (some b) = b == b'/'

-- `while len > 0 && output[len] != b'/' { len -= 1; }`
unfoldable pub back_to_slash : Bytes → ℕ → ℕ
back_to_slash output zero = zero
back_to_slash output (suc n) =
    let rest = back_to_slash output n in if is_slash (get_elem? output (suc n)) then suc n else rest

-- `if len == 0 { output[0] = b'/'; len = 1; }`
abbrev pub at_least_root : NormalizedPath → NormalizedPath
at_least_root path =
    if path.len == 0 then record { bytes = set path.bytes 0 b'/'; len = 1 } else path

abbrev pub go_up : NormalizedPath → NormalizedPath
go_up path =
    if ltb 1 path.len
    then at_least_root (record path { len = back_to_slash path.bytes (path.len - 1) })
    else path

unfoldable pub push_slash : NormalizedPath → Result ResolutionError NormalizedPath
push_slash path =
    if ltb 1 path.len && not (is_slash (get_elem? path.bytes (path.len - 1)))
    then if leb line_capacity path.len
      then err resource_unavailable
      else ok (record { bytes = set path.bytes path.len b'/'; len = path.len + 1 })
    else ok path

unfoldable pub push_segment : Bytes → NormalizedPath → Result ResolutionError NormalizedPath
push_segment segment path =
    if ltb line_capacity (path.len + length segment)
    then err resource_unavailable
    else ok
        (record { bytes = overwrite path.bytes path.len segment; len = path.len + length segment })

unfoldable pub enter_segment : Bytes → NormalizedPath → Result ResolutionError NormalizedPath
enter_segment segment path =
    if equal segment (codes ".")
    then ok path
    else if equal segment (codes "..")
    then ok (go_up path)
    else (push_slash (at_least_root path) >>= push_segment segment)

unfoldable pub skip_slashes : Bytes → Bytes
skip_slashes [] = []
skip_slashes (b ∷ bs) = let rest = skip_slashes bs in if b == b'/' then rest else b ∷ bs

-- The bytes before the first `stop`, and how many they are.
unfoldable pub before_byte : ℕ → Bytes → Bytes
before_byte stop [] = []
before_byte stop (b ∷ bs) = let rest = before_byte stop bs in if b == stop then [] else b ∷ rest

-- On to the rest of the name, or out of the function.
abbrev pub after_segment :
    (NormalizedPath → Option (Result ResolutionError NormalizedPath))
    → Result ResolutionError NormalizedPath
    → Option (Result ResolutionError NormalizedPath)
after_segment rest (ok path) = rest path
after_segment rest (err e) = some (err e)

-- The loop over the segments of the name, on fuel; `none` if it has not ended within that many rounds.
unfoldable pub enter_segments :
    ℕ → Bytes → NormalizedPath → Option (Result ResolutionError NormalizedPath)
enter_segments zero bytes path = none
enter_segments (suc n) bytes path =
    let rest = skip_slashes bytes in
    let segment = before_byte b'/' rest in
    elim (is_nil rest) [
      | true ↦ some (ok path)
      | false ↦
          after_segment (enter_segments n (drop (length segment) rest)) (enter_segment segment path)
    ]

abbrev pub root_text : Bytes
root_text = b'/' ∷ []
