-- ===== src/Syscall/Abi.antt =====
-- The numbers of the system calls and their raw results, libs/kernel-abi/src/lib.rs.
use lazers.Base.{ℕ, ◌-◌}
use lazers.Base.Words.{word}
use lazers.Syscall.Errors.{
  SpawnError, GetEnvError, SetEnvError, UnsetEnvError, ListEnvError, ReadDirError, ChdirError,
  GetCwdError, ReadFileError, invalid_path, file_not_found, invalid_executable,
  resource_unavailable, invalid_key, not_found, buffer_too_small, key_too_long, value_too_long,
  capacity_exceeded, not_a_file,
}

pub data Syscall : Type 0 where
  read write yield exit spawn_wait read_dir chdir get_cwd read_file get_env : Syscall
  set_env unset_env list_env spawn_wait_silent : Syscall

-- `Syscall::.. as usize`
abbrev pub number : Syscall → ℕ
number read = 0
number write = 1
number yield = 2
number exit = 3
number spawn_wait = 4
number read_dir = 5
number chdir = 6
number get_cwd = 7
number read_file = 8
number get_env = 9
number set_env = 10
number unset_env = 11
number list_env = 12
number spawn_wait_silent = 13

-- `usize::MAX - n`
abbrev pub code : ℕ → ℕ
code n = word - 1 - n

-- The raw results that stand for the failures of each call, `usize::MAX` downwards.
abbrev pub spawn_wait_code : SpawnError → ℕ
spawn_wait_code invalid_path = code 0
spawn_wait_code file_not_found = code 1
spawn_wait_code invalid_executable = code 2
spawn_wait_code resource_unavailable = code 3

abbrev pub read_dir_code : ReadDirError → ℕ
read_dir_code invalid_path = code 0
read_dir_code not_found = code 1
read_dir_code buffer_too_small = code 2
read_dir_code resource_unavailable = code 3

abbrev pub chdir_code : ChdirError → ℕ
chdir_code invalid_path = code 0
chdir_code not_found = code 1
chdir_code resource_unavailable = code 2

abbrev pub getcwd_code : GetCwdError → ℕ
getcwd_code buffer_too_small = code 0
getcwd_code resource_unavailable = code 1

abbrev pub read_file_code : ReadFileError → ℕ
read_file_code invalid_path = code 0
read_file_code not_found = code 1
read_file_code not_a_file = code 2
read_file_code buffer_too_small = code 3
read_file_code resource_unavailable = code 4

abbrev pub get_env_code : GetEnvError → ℕ
get_env_code invalid_key = code 0
get_env_code not_found = code 1
get_env_code buffer_too_small = code 2
get_env_code resource_unavailable = code 3

abbrev pub set_env_code : SetEnvError → ℕ
set_env_code invalid_key = code 0
set_env_code key_too_long = code 1
set_env_code value_too_long = code 2
set_env_code capacity_exceeded = code 3
set_env_code resource_unavailable = code 4

abbrev pub unset_env_code : UnsetEnvError → ℕ
unset_env_code invalid_key = code 0
unset_env_code not_found = code 1
unset_env_code resource_unavailable = code 2

abbrev pub list_env_code : ListEnvError → ℕ
list_env_code buffer_too_small = code 0
list_env_code resource_unavailable = code 1
