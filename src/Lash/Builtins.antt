-- ===== src/Lash/Builtins.antt =====
-- The commands that the shell carries out itself, user/lash/src/builtins.rs.
use lazers.Base.{ℕ, zero, suc, ◌+◌, ◌-◌, Bool, true, false, not, Option, none, some, [], ◌∷◌, ◌++◌}
use lazers.Base.Tests.{ltb, if◌then◌else◌, ◌==◌}
use lazers.Base.Lists.{length}
use lazers.Base.Words.{Bytes}
use lazers.Base.Text.{codes, contains, starts_with, from_utf8, is_nil}
use lazers.Base.Results.{Result, ok, err}
use lazers.Lash.{line_capacity}
use lazers.Lash.Tokens.{TokenizedCommand, token}
use lazers.Lash.System.{
  System, Program, ListEnvError, SetEnvError, UnsetEnvError, ChdirError, return, calls, asks, ◌>>=◌,
  ◌>>◌, write, unwrap, token_or_empty, invalid_path, not_found, resource_unavailable,
  buffer_too_small, invalid_key, key_too_long, value_too_long, capacity_exceeded,
}
use lazers.Lash.Paths.{ResolutionError, NormalizedPath, as_str}
use lazers.Lash.Paths as Paths
use lazers.Lash.Paths.Search.{text_or, normalize_command_path}
use lazers.Lash.Commands.{fail_with, cannot_resolve, print_explicit_where, print_path_matches}

abbrev pub env_list_buffer_capacity : ℕ
env_list_buffer_capacity = 1024

module _ {W : Type 0} (sys : System W) where
  abbrev changed : Bytes → Result ChdirError (Unit {0}) → Program W ℕ
  changed path (ok done) = return 0
  changed path (err invalid_path) = fail_with sys (codes "lash: directory not found: " ++ path)
  changed path (err not_found) = fail_with sys (codes "lash: directory not found: " ++ path)
  changed path (err resource_unavailable) =
      fail_with sys (codes "lash: unable to change directory: resource unavailable")

  abbrev target : TokenizedCommand → Program W Bytes
  target tokens =
      if ltb 1 tokens.count
      then (unwrap (token tokens 1) >>= λ path. return (text_or (codes "/") path))
      else return (codes "/")

  unfoldable pub run_cd : TokenizedCommand → Program W ℕ
  run_cd tokens = target tokens >>= λ path. calls (sys.chdir path) >>= changed path

  abbrev listed : Result ListEnvError Bytes → Program W ℕ
  listed (ok entries) = (if is_nil entries then return tt else write sys entries) >> return 0
  listed (err buffer_too_small) =
      fail_with sys (codes "lash: unable to list environment: buffer too small")
  listed (err resource_unavailable) =
      fail_with sys (codes "lash: unable to list environment: resource unavailable")

  unfoldable pub run_env : TokenizedCommand → Program W ℕ
  run_env tokens =
      if not (tokens.count == 1)
      then fail_with sys (codes "lash: usage: env")
      else (asks (sys.list_env env_list_buffer_capacity) >>= listed)

  -- A value so far and the next word of it, if they fit; the first word has no blank before it.
  abbrev join_word : Bool → Bytes → Bytes → Option Bytes
  join_word first value word =
      if ltb line_capacity (length value + (if first then 0 else 1) + length word)
      then none
      else some (value ++ ((if first then [] else b' ' ∷ []) ++ word))

  -- The words from `index` on, `count` of them, joined; `none` if the value is too long.
  unfoldable pub join_words :
      ℕ → ℕ → Bool → Option Bytes → TokenizedCommand → Program W (Option Bytes)
  join_words zero index first value tokens = return value
  join_words (suc count) index first none tokens = return none
  join_words (suc count) index first (some value) tokens = token_or_empty tokens index >>= λ word.
      join_words count (suc index) false (join_word first value word) tokens

  abbrev was_set : Bytes → Result SetEnvError (Unit {0}) → Program W ℕ
  was_set key (ok done) = return 0
  was_set key (err invalid_key) = fail_with sys (codes "lash: invalid environment key: " ++ key)
  was_set key (err key_too_long) = fail_with sys (codes "lash: environment key too long: " ++ key)
  was_set key (err value_too_long) =
      fail_with sys (codes "lash: environment value too long for key: " ++ key)
  was_set key (err capacity_exceeded) =
      fail_with sys (codes "lash: unable to set environment: capacity exceeded")
  was_set key (err resource_unavailable) =
      fail_with sys (codes "lash: unable to set environment: resource unavailable")

  abbrev set_joined : Bytes → Option Bytes → Program W ℕ
  set_joined key none = fail_with sys (codes "lash: unable to set environment: value too long")
  set_joined key (some value) =
      calls (sys.set_env key (text_or [] (from_utf8 value))) >>= was_set key

  unfoldable pub run_set : TokenizedCommand → Program W ℕ
  run_set tokens =
      if ltb tokens.count 3
      then fail_with sys (codes "lash: usage: set KEY VALUE...")
      else (token_or_empty tokens 1 >>= λ key.
          join_words (tokens.count - 2) 2 true (some []) tokens >>= set_joined key)

  abbrev was_unset : Bytes → Result UnsetEnvError (Unit {0}) → Program W ℕ
  was_unset key (ok done) = return 0
  was_unset key (err invalid_key) = fail_with sys (codes "lash: invalid environment key: " ++ key)
  was_unset key (err not_found) =
      fail_with sys (codes "lash: environment variable not found: " ++ key)
  was_unset key (err resource_unavailable) =
      fail_with sys (codes "lash: unable to unset environment: resource unavailable")

  unfoldable pub run_unset : TokenizedCommand → Program W ℕ
  run_unset tokens =
      if not (tokens.count == 2)
      then fail_with sys (codes "lash: usage: unset KEY")
      else (token_or_empty tokens 1 >>= λ key. calls (sys.unset_env key) >>= was_unset key)

  abbrev or_name : Bytes → Result ResolutionError Bytes → Bytes
  or_name name (ok text) = text
  or_name name (err e) = name

  abbrev where_at : Bytes → Result ResolutionError NormalizedPath → Program W ℕ
  where_at name (ok path) = print_explicit_where sys name (or_name name (as_str path))
  where_at name (err Paths.invalid_path) = fail_with sys (codes "lash: invalid path: " ++ name)
  where_at name (err Paths.resource_unavailable) = fail_with sys cannot_resolve

  abbrev where_named : Bytes → Program W ℕ
  where_named name =
      if starts_with b'/' name
      then print_explicit_where sys name name
      else if contains b'/' name
      then (normalize_command_path sys name >>= where_at name)
      else print_path_matches sys name

  unfoldable pub run_where : TokenizedCommand → Program W ℕ
  run_where tokens =
      if not (tokens.count == 2)
      then fail_with sys (codes "lash: usage: where NAME")
      else (token_or_empty tokens 1 >>= where_named)
