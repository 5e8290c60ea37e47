-- ===== src/Syscall/RoundTrip.antt =====
-- What the kernel reports is what the program is told: the raw results of kernel/kernel/src/syscall.rs
-- read back by libs/liblazer/src, and the arguments of a child laid out by it.
pub mod Environment
pub mod Files
pub mod Spawn
use lazers.Base.{
  ℕ, ◌+◌, ◌-◌, ◌≤◌, ◌<◌, false, List, [], ◌∷◌, ◌++◌, ◌≡◌, ◌↔◌, refl, sym, ap, ◌∙◌, inl, inr, arith,
}
use lazers.Base.Tests.{ltb, if◌then◌else◌, ◌==◌, Bool-cases}
use mathlib.Core.List.{append_assoc, append-nil}
use lazers.Base.Lists.{length, length-append}
use lazers.Base.Words.{Bytes, word}
use lazers.Base.Text.{contains}
use lazers.Base.Results.{Result, ok, err}
use lazers.Path.{
  onto_first, StorageError, memory, path_not_absolute, invalid_short_name, not_a_directory,
  file_not_found,
}
use lazers.Path as Storage
use lazers.Scheduler.Services.{EnvironmentAccessError}
use lazers.Scheduler.Services as Services
use lazers.Syscall.Errors.{
  GetEnvError, SetEnvError, UnsetEnvError, ListEnvError, ReadDirError, ChdirError, ReadFileError,
  invalid_path, resource_unavailable, invalid_key, not_found, buffer_too_small, key_too_long,
  value_too_long, capacity_exceeded, not_a_file,
}
use lazers.Syscall.Handlers.{
  spawn_status, read_dir_status, chdir_status, read_file_status, get_env_status, set_env_status,
  unset_env_status, list_env_status,
}
use lazers.Syscall.Wrappers.{
  spawn_wait_result, read_dir_result, chdir_result, read_file_result, get_env_result,
  set_env_result, unset_env_result, list_env_result, serialize_spawn_args, max_spawn_arg_data,
}

-- A length that is no code of a failure.
abbrev pub length_of : {E : Type 0} → Result E ℕ → ℕ
length_of (ok len) = len
length_of (err e) = 0

abbrev pub SmallResult : {E : Type 0} → Result E ℕ → Type 0
SmallResult r = length_of r < word - 5
