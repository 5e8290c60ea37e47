-- ===== src/Syscall/Handlers.antt =====
-- The handlers of the system calls, kernel/kernel/src/syscall.rs. Each takes the machine to the machine
-- afterwards and the raw result; `none` is a panic. A text is read before the buffer is written.
use lazers.Base.{ℕ, Option, none, some}
use lazers.Base.Lists.{length}
use lazers.Base.Words.{Bytes}
use lazers.Base.Text.{from_utf8}
use lazers.Base.Results.{Result, ok, err, and_then}
use lazers.Path.{
  StorageError, path_not_absolute, invalid_short_name, not_a_directory, file_not_found,
}
use lazers.Path as Storage
use lazers.Terminal.{TerminalEndpoint}
use lazers.Scheduler.State.{SchedulerState}
use lazers.Scheduler.Services.{
  RootFs, EnvironmentAccessError, key_too_long, value_too_long, capacity_exceeded,
  current_process_read, current_process_write, current_process_read_dir, current_process_chdir,
  current_process_getcwd, current_process_read_file, current_process_get_env,
  current_process_set_env, current_process_unset_env, current_process_list_env,
}
use lazers.Scheduler.Services as Services
use lazers.Syscall.Errors.{
  SpawnError, invalid_path, not_found, buffer_too_small, resource_unavailable, not_a_file,
  invalid_key,
}
use lazers.Syscall.Errors as Errors
use lazers.Syscall.Abi.{
  spawn_wait_code, read_dir_code, chdir_code, getcwd_code, read_file_code, get_env_code,
  set_env_code, unset_env_code, list_env_code,
}
use lazers.Syscall.UserMemory.{Memory, user_slice, store}

pub record Machine : Type 0 where
  pub scheduler : SchedulerState
  pub memory : Memory
  pub terminal : TerminalEndpoint

-- A slice of user memory that is read as a `&str`.
abbrev pub user_text : Memory → ℕ → ℕ → Option Bytes
user_text mem address len = and_then (user_slice mem address len) from_utf8

abbrev pub Reply : Type 0
Reply = Option (Machine × ℕ)

abbrev pub reply : Machine → ℕ → Reply
reply m status = some (m, status)

abbrev pub with_memory : Memory → Machine → Machine
with_memory mem m = record m { memory = mem }

-- A buffer at an address, as it is afterwards.
abbrev pub filled : ℕ → Bytes → Machine → Machine
filled address buffer m = with_memory (store address buffer m.memory) m

abbrev pub read_into : ℕ → Machine → Bytes × TerminalEndpoint → Reply
read_into address m (bytes, terminal) =
    reply (record m { memory = store address bytes m.memory; terminal = terminal }) (length bytes)

abbrev pub read_slice : ℕ → ℕ → Machine → Option Bytes → Reply
read_slice fd address m none = reply m 0
read_slice fd address m (some buffer) =
    and_then (current_process_read fd (length buffer) m.scheduler m.terminal) (read_into address m)

unfoldable pub syscall_read : ℕ → ℕ → ℕ → Machine → Reply
syscall_read fd address len m = read_slice fd address m (user_slice m.memory address len)

abbrev pub written : Machine → ℕ × TerminalEndpoint → Reply
written m (count, terminal) = reply (record m { terminal = terminal }) count

abbrev pub write_slice : ℕ → Machine → Option Bytes → Reply
write_slice fd m none = reply m 0
write_slice fd m (some buffer) =
    and_then (current_process_write fd buffer m.scheduler m.terminal) (written m)

unfoldable pub syscall_write : ℕ → ℕ → ℕ → Machine → Reply
syscall_write fd address len m = write_slice fd m (user_slice m.memory address len)

unfoldable pub spawn_status : Result Services.SpawnError ℕ → ℕ
spawn_status (ok status) = status
spawn_status (err Services.invalid_path) = spawn_wait_code invalid_path
spawn_status (err Services.file_not_found) = spawn_wait_code Errors.file_not_found
spawn_status (err Services.invalid_executable) = spawn_wait_code Errors.invalid_executable
spawn_status (err Services.resource_unavailable) = spawn_wait_code resource_unavailable

unfoldable pub read_dir_status : Result StorageError ℕ → ℕ
read_dir_status (ok len) = len
read_dir_status (err Storage.invalid_path) = read_dir_code invalid_path
read_dir_status (err path_not_absolute) = read_dir_code invalid_path
read_dir_status (err invalid_short_name) = read_dir_code invalid_path
read_dir_status (err file_not_found) = read_dir_code not_found
read_dir_status (err not_a_directory) = read_dir_code not_found
read_dir_status (err Storage.buffer_too_small) = read_dir_code buffer_too_small
read_dir_status (err _) = read_dir_code resource_unavailable

unfoldable pub chdir_status : Result StorageError (Unit {0}) → ℕ
chdir_status (ok done) = 0
chdir_status (err Storage.invalid_path) = chdir_code invalid_path
chdir_status (err path_not_absolute) = chdir_code invalid_path
chdir_status (err invalid_short_name) = chdir_code invalid_path
chdir_status (err file_not_found) = chdir_code not_found
chdir_status (err not_a_directory) = chdir_code not_found
chdir_status (err _) = chdir_code resource_unavailable

unfoldable pub read_file_status : Result StorageError ℕ → ℕ
read_file_status (ok len) = len
read_file_status (err Storage.invalid_path) = read_file_code invalid_path
read_file_status (err path_not_absolute) = read_file_code invalid_path
read_file_status (err invalid_short_name) = read_file_code invalid_path
read_file_status (err file_not_found) = read_file_code not_found
read_file_status (err Storage.not_a_file) = read_file_code not_a_file
read_file_status (err Storage.buffer_too_small) = read_file_code buffer_too_small
read_file_status (err _) = read_file_code resource_unavailable

unfoldable pub get_env_status : Result EnvironmentAccessError ℕ → ℕ
get_env_status (ok len) = len
get_env_status (err Services.not_found) = get_env_code not_found
get_env_status (err Services.buffer_too_small) = get_env_code buffer_too_small
get_env_status (err Services.resource_unavailable) = get_env_code resource_unavailable
get_env_status (err _) = get_env_code invalid_key

unfoldable pub set_env_status : Result EnvironmentAccessError (Unit {0}) → ℕ
set_env_status (ok done) = 0
set_env_status (err Services.invalid_key) = set_env_code invalid_key
set_env_status (err key_too_long) = set_env_code Errors.key_too_long
set_env_status (err value_too_long) = set_env_code Errors.value_too_long
set_env_status (err capacity_exceeded) = set_env_code Errors.capacity_exceeded
set_env_status (err _) = set_env_code resource_unavailable

unfoldable pub unset_env_status : Result EnvironmentAccessError (Unit {0}) → ℕ
unset_env_status (ok done) = 0
unset_env_status (err Services.not_found) = unset_env_code not_found
unset_env_status (err Services.resource_unavailable) = unset_env_code resource_unavailable
unset_env_status (err Services.buffer_too_small) = unset_env_code resource_unavailable
unset_env_status (err _) = unset_env_code invalid_key

unfoldable pub list_env_status : Result EnvironmentAccessError ℕ → ℕ
list_env_status (ok len) = len
list_env_status (err Services.buffer_too_small) = list_env_code buffer_too_small
list_env_status (err capacity_exceeded) = list_env_code buffer_too_small
list_env_status (err _) = list_env_code resource_unavailable

-- A call that fills a buffer: its contents afterwards, and the status.
abbrev pub fill_reply : {E : Type 0} → (Result E ℕ → ℕ) → ℕ → Machine → Bytes × Result E ℕ → Reply
fill_reply status address m (buffer, result) = reply (filled address buffer m) (status result)

-- A call that changes the scheduler's state.
abbrev pub change_reply :
    {E : Type 0}
    → (Result E (Unit {0}) → ℕ)
    → Machine
    → SchedulerState × Result E (Unit {0})
    → Reply
change_reply status m (s, result) = reply (record m { scheduler = s }) (status result)

module _ (fs : RootFs) where
  abbrev pub read_dir_in : ℕ → Machine → Bytes → Option Bytes → Reply
  read_dir_in address m path none = reply m (read_dir_code resource_unavailable)
  read_dir_in address m path (some buffer) =
      and_then (current_process_read_dir fs path buffer m.scheduler)
        (fill_reply read_dir_status address m)

  abbrev pub read_dir_at : ℕ → ℕ → Machine → Option Bytes → Reply
  read_dir_at address len m none = reply m (read_dir_code invalid_path)
  read_dir_at address len m (some path) =
      read_dir_in address m path (user_slice m.memory address len)

  unfoldable pub syscall_read_dir : ℕ → ℕ → ℕ → ℕ → Machine → Reply
  syscall_read_dir path_address path_len address len m =
      read_dir_at address len m (user_text m.memory path_address path_len)

  abbrev pub chdir_at : Machine → Option Bytes → Reply
  chdir_at m none = reply m (chdir_code invalid_path)
  chdir_at m (some path) =
      and_then (current_process_chdir fs path m.scheduler) (change_reply chdir_status m)

  unfoldable pub syscall_chdir : ℕ → ℕ → Machine → Reply
  syscall_chdir path_address path_len m = chdir_at m (user_text m.memory path_address path_len)

  abbrev pub read_file_in : ℕ → Machine → Bytes → Option Bytes → Reply
  read_file_in address m path none = reply m (read_file_code resource_unavailable)
  read_file_in address m path (some buffer) =
      and_then (current_process_read_file fs path buffer m.scheduler)
        (fill_reply read_file_status address m)

  abbrev pub read_file_at : ℕ → ℕ → Machine → Option Bytes → Reply
  read_file_at address len m none = reply m (read_file_code invalid_path)
  read_file_at address len m (some path) =
      read_file_in address m path (user_slice m.memory address len)

  unfoldable pub syscall_read_file : ℕ → ℕ → ℕ → ℕ → Machine → Reply
  syscall_read_file path_address path_len address len m =
      read_file_at address len m (user_text m.memory path_address path_len)

-- Both branches of the source on a failure give the same code.
abbrev pub getcwd_reply : ℕ → Machine → Option (Bytes × ℕ) → Reply
getcwd_reply address m none = reply m (getcwd_code buffer_too_small)
getcwd_reply address m (some (buffer, len)) = reply (filled address buffer m) len

abbrev pub getcwd_in : ℕ → Machine → Option Bytes → Reply
getcwd_in address m none = reply m (getcwd_code resource_unavailable)
getcwd_in address m (some buffer) =
    and_then (current_process_getcwd buffer m.scheduler) (getcwd_reply address m)

unfoldable pub syscall_getcwd : ℕ → ℕ → Machine → Reply
syscall_getcwd address len m = getcwd_in address m (user_slice m.memory address len)

abbrev pub get_env_in : ℕ → Machine → Bytes → Option Bytes → Reply
get_env_in address m key none = reply m (get_env_code resource_unavailable)
get_env_in address m key (some buffer) =
    and_then (current_process_get_env key buffer m.scheduler) (fill_reply get_env_status address m)

abbrev pub get_env_at : ℕ → ℕ → Machine → Option Bytes → Reply
get_env_at address len m none = reply m (get_env_code invalid_key)
get_env_at address len m (some key) = get_env_in address m key (user_slice m.memory address len)

unfoldable pub syscall_get_env : ℕ → ℕ → ℕ → ℕ → Machine → Reply
syscall_get_env key_address key_len address len m =
    get_env_at address len m (user_text m.memory key_address key_len)

abbrev pub set_env_in : Machine → Bytes → Option Bytes → Reply
set_env_in m key none = reply m (set_env_code resource_unavailable)
set_env_in m key (some value) =
    and_then (current_process_set_env key value m.scheduler) (change_reply set_env_status m)

abbrev pub set_env_at : ℕ → ℕ → Machine → Option Bytes → Reply
set_env_at value_address value_len m none = reply m (set_env_code invalid_key)
set_env_at value_address value_len m (some key) =
    set_env_in m key (user_text m.memory value_address value_len)

unfoldable pub syscall_set_env : ℕ → ℕ → ℕ → ℕ → Machine → Reply
syscall_set_env key_address key_len value_address value_len m =
    set_env_at value_address value_len m (user_text m.memory key_address key_len)

abbrev pub unset_env_at : Machine → Option Bytes → Reply
unset_env_at m none = reply m (unset_env_code invalid_key)
unset_env_at m (some key) =
    and_then (current_process_unset_env key m.scheduler) (change_reply unset_env_status m)

unfoldable pub syscall_unset_env : ℕ → ℕ → Machine → Reply
syscall_unset_env key_address key_len m = unset_env_at m (user_text m.memory key_address key_len)

abbrev pub list_env_in : ℕ → Machine → Option Bytes → Reply
list_env_in address m none = reply m (list_env_code resource_unavailable)
list_env_in address m (some buffer) =
    and_then (current_process_list_env buffer m.scheduler) (fill_reply list_env_status address m)

unfoldable pub syscall_list_env : ℕ → ℕ → Machine → Reply
syscall_list_env address len m = list_env_in address m (user_slice m.memory address len)
