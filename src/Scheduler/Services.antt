-- ===== src/Scheduler/Services.antt =====
-- What the system calls ask of the current process, kernel/kernel/src/scheduler/services.rs. The root
-- file system (kernel/kernel/src/storage/rootfs.rs) is an interface; `none` is a panic, or a call of the
-- file system that does not come back.
use lazers.Base.{ℕ, Bool, true, false, Option, none, some, [], ◌++◌, ◌≡◌}
use lazers.Base.Tests.{ltb, if◌then◌else◌}
use lazers.Base.Lists.{length, set, drop}
use lazers.Base.Words.{Bytes}
use lazers.Base.Text.{from_utf8}
use lazers.Base.Results.{Result, ok, err, ok_or, and_then, ◌>>=◌, Whenever}
use lazers.Env
use lazers.Env.{EnvironmentError}
use lazers.Path.{
  StorageError, normalize_path, path_not_absolute, invalid_short_name, not_a_file,
  root_fs_unavailable,
}
use lazers.Path as Storage
use lazers.Process.{Process, max_cwd_len, copy_cwd_into, set_cwd, read, write, remove_env, set_env}
use lazers.Terminal.{TerminalEndpoint}
use lazers.Thread.{ThreadId, ProcessId}
use lazers.Scheduler.State.{SchedulerState, thread, process}

pub data SpawnError : Type 0 where
  invalid_path file_not_found invalid_executable resource_unavailable : SpawnError

pub data EnvironmentAccessError : Type 0 where
  invalid_key not_found buffer_too_small key_too_long value_too_long capacity_exceeded :
      EnvironmentAccessError
  resource_unavailable : EnvironmentAccessError

abbrev pub map_environment_error : EnvironmentError → EnvironmentAccessError
map_environment_error Env.invalid_key = invalid_key
map_environment_error Env.key_too_long = key_too_long
map_environment_error Env.value_too_long = value_too_long
map_environment_error Env.capacity_exceeded = capacity_exceeded

abbrev pub map_storage_spawn_error : StorageError → SpawnError
map_storage_spawn_error Storage.invalid_path = invalid_path
map_storage_spawn_error path_not_absolute = invalid_path
map_storage_spawn_error invalid_short_name = invalid_path
map_storage_spawn_error Storage.file_not_found = file_not_found
map_storage_spawn_error not_a_file = file_not_found
map_storage_spawn_error _ = resource_unavailable

pub record RootFs : Type 0 where
  pub ensure_dir : Bytes → Option (Result StorageError (Unit {0}))
  pub read_file_into : Bytes → Bytes → Option (Bytes × Result StorageError ℕ)
  pub read_dir : Bytes → Bytes → Option (Bytes × Result StorageError ℕ)

-- A call of a file system that leaves a buffer as long as it was, if it comes back.
abbrev pub KeepsSize : (Bytes → Bytes → Option (Bytes × Result StorageError ℕ)) → Type 0
KeepsSize call =
    (path buffer : Bytes) → Whenever (call path buffer) (λ x. length x.0 ≡ length buffer)

-- `NormalizedPath::resolve` and `as_str`.
unfoldable pub resolve : Bytes → Bytes → Option (Result StorageError Bytes)
resolve cwd path =
    and_then (normalize_path max_cwd_len cwd path)
      λ found. some (found >>= λ text. ok_or (from_utf8 text) Storage.invalid_path)

-- The process of the current thread with its id, if there is a current thread.
abbrev pub current_process_of :
    Option ThreadId → SchedulerState → Option (Option (ProcessId × Process))
current_process_of none s = some none
current_process_of (some current) s =
    and_then (thread current s)
      λ t. and_then (process t.process_id s) λ p. some (some (t.process_id, p))

abbrev pub current_process : SchedulerState → Option (Option (ProcessId × Process))
current_process s = current_process_of s.current_thread s

-- A change through `process_mut(id)`.
abbrev pub put_process : ProcessId → Process → SchedulerState → SchedulerState
put_process id p s = record s { processes = set s.processes id (some p) }

abbrev pub copied :
    Bytes → Result EnvironmentError (Option Bytes) → Bytes × Result EnvironmentAccessError ℕ
copied buffer (err e) = (buffer, err (map_environment_error e))
copied buffer (ok none) = (buffer, err not_found)
copied buffer (ok (some value)) =
    if ltb (length buffer) (length value)
    then (buffer, err buffer_too_small)
    else (value ++ drop (length value) buffer, ok (length value))

abbrev pub looked_up :
    Bytes → Bytes → Option (ProcessId × Process) → Bytes × Result EnvironmentAccessError ℕ
looked_up key buffer none = (buffer, err resource_unavailable)
looked_up key buffer (some (id, p)) = copied buffer (Env.get key p.env)

-- The buffer afterwards, and the result.
unfoldable pub current_process_get_env :
    Bytes → Bytes → SchedulerState → Option (Bytes × Result EnvironmentAccessError ℕ)
current_process_get_env key buffer s =
    and_then (current_process s) λ p. some (looked_up key buffer p)

abbrev pub map_listing : Bytes × Result EnvironmentError ℕ → Bytes × Result EnvironmentAccessError ℕ
map_listing (buffer, ok len) = (buffer, ok len)
map_listing (buffer, err e) = (buffer, err (map_environment_error e))

abbrev pub listed : Bytes → Option (ProcessId × Process) → Bytes × Result EnvironmentAccessError ℕ
listed buffer none = (buffer, err resource_unavailable)
listed buffer (some (id, p)) = map_listing (Env.write_listing_into p.env buffer)

unfoldable pub current_process_list_env :
    Bytes → SchedulerState → Option (Bytes × Result EnvironmentAccessError ℕ)
current_process_list_env buffer s = and_then (current_process s) λ p. some (listed buffer p)

abbrev pub stored :
    ProcessId
    → SchedulerState
    → Result EnvironmentError Process
    → SchedulerState × Result EnvironmentAccessError (Unit {0})
stored id s (ok p) = (put_process id p s, ok tt)
stored id s (err e) = (s, err (map_environment_error e))

abbrev pub env_set :
    Bytes
    → Bytes
    → SchedulerState
    → Option (ProcessId × Process)
    → SchedulerState × Result EnvironmentAccessError (Unit {0})
env_set key value s none = (s, err resource_unavailable)
env_set key value s (some (id, p)) = stored id s (set_env key value p)

unfoldable pub current_process_set_env :
    Bytes
    → Bytes
    → SchedulerState
    → Option (SchedulerState × Result EnvironmentAccessError (Unit {0}))
current_process_set_env key value s = and_then (current_process s) λ p. some (env_set key value s p)

abbrev removed :
    ProcessId
    → SchedulerState
    → Result EnvironmentError (Bool × Process)
    → SchedulerState × Result EnvironmentAccessError (Unit {0})
removed id s (ok (true, p)) = (put_process id p s, ok tt)
removed id s (ok (false, p)) = (put_process id p s, err not_found)
removed id s (err e) = (s, err (map_environment_error e))

abbrev env_unset :
    Bytes
    → SchedulerState
    → Option (ProcessId × Process)
    → SchedulerState × Result EnvironmentAccessError (Unit {0})
env_unset key s none = (s, err resource_unavailable)
env_unset key s (some (id, p)) = removed id s (remove_env key p)

unfoldable pub current_process_unset_env :
    Bytes → SchedulerState → Option (SchedulerState × Result EnvironmentAccessError (Unit {0}))
current_process_unset_env key s = and_then (current_process s) λ p. some (env_unset key s p)

abbrev pub cwd_copied : Bytes → Option (ProcessId × Process) → Option (Bytes × ℕ)
cwd_copied buffer none = none
cwd_copied buffer (some (id, p)) = copy_cwd_into p buffer

unfoldable pub current_process_getcwd : Bytes → SchedulerState → Option (Option (Bytes × ℕ))
current_process_getcwd buffer s = and_then (current_process s) λ p. some (cwd_copied buffer p)

abbrev moved :
    ProcessId → SchedulerState → Option Process → SchedulerState × Result StorageError (Unit {0})
moved id s none = (s, err Storage.invalid_path)
moved id s (some p) = (put_process id p s, ok tt)

module _ (fs : RootFs) where
  abbrev moved_to :
      ProcessId
      → Process
      → SchedulerState
      → Bytes
      → Result StorageError (Unit {0})
      → SchedulerState × Result StorageError (Unit {0})
  moved_to id p s path (ok exists) = moved id s (set_cwd path p)
  moved_to id p s path (err e) = (s, err e)

  abbrev changed_to :
      ProcessId
      → Process
      → SchedulerState
      → Result StorageError Bytes
      → Option (SchedulerState × Result StorageError (Unit {0}))
  changed_to id p s (ok path) =
      and_then (fs.ensure_dir path) λ exists. some (moved_to id p s path exists)
  changed_to id p s (err e) = some (s, err e)

  abbrev cwd_changed :
      Bytes
      → SchedulerState
      → Option (ProcessId × Process)
      → Option (SchedulerState × Result StorageError (Unit {0}))
  cwd_changed path s none = some (s, err root_fs_unavailable)
  cwd_changed path s (some (id, p)) = and_then (resolve p.cwd path) (changed_to id p s)

  unfoldable pub current_process_chdir :
      Bytes → SchedulerState → Option (SchedulerState × Result StorageError (Unit {0}))
  current_process_chdir path s = and_then (current_process s) (cwd_changed path s)

  -- A call of the file system on a path of the current process.
  abbrev pub on_path :
      (Bytes → Bytes → Option (Bytes × Result StorageError ℕ))
      → Bytes
      → Result StorageError Bytes
      → Option (Bytes × Result StorageError ℕ)
  on_path call buffer (ok path) = call path buffer
  on_path call buffer (err e) = some (buffer, err e)

  abbrev pub from_cwd :
      (Bytes → Bytes → Option (Bytes × Result StorageError ℕ))
      → Bytes
      → Bytes
      → Option (ProcessId × Process)
      → Option (Bytes × Result StorageError ℕ)
  from_cwd call path buffer none = some (buffer, err root_fs_unavailable)
  from_cwd call path buffer (some (id, p)) = and_then (resolve p.cwd path) (on_path call buffer)

  unfoldable pub current_process_read_file :
      Bytes → Bytes → SchedulerState → Option (Bytes × Result StorageError ℕ)
  current_process_read_file path buffer s =
      and_then (current_process s) (from_cwd fs.read_file_into path buffer)

  unfoldable pub current_process_read_dir :
      Bytes → Bytes → SchedulerState → Option (Bytes × Result StorageError ℕ)
  current_process_read_dir path buffer s =
      and_then (current_process s) (from_cwd fs.read_dir path buffer)

abbrev pub bytes_read :
    ℕ → ℕ → TerminalEndpoint → Option (ProcessId × Process) → Bytes × TerminalEndpoint
bytes_read fd size t none = ([], t)
bytes_read fd size t (some (id, p)) = read fd size p t

-- The bytes that were read, for a buffer of the given size.
unfoldable pub current_process_read :
    ℕ → ℕ → SchedulerState → TerminalEndpoint → Option (Bytes × TerminalEndpoint)
current_process_read fd size s t = and_then (current_process s) λ p. some (bytes_read fd size t p)

abbrev bytes_written :
    ℕ → Bytes → TerminalEndpoint → Option (ProcessId × Process) → ℕ × TerminalEndpoint
bytes_written fd buffer t none = (0, t)
bytes_written fd buffer t (some (id, p)) = write fd buffer p t

unfoldable pub current_process_write :
    ℕ → Bytes → SchedulerState → TerminalEndpoint → Option (ℕ × TerminalEndpoint)
current_process_write fd buffer s t =
    and_then (current_process s) λ p. some (bytes_written fd buffer t p)
