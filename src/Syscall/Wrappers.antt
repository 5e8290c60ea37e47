-- ===== src/Syscall/Wrappers.antt =====
-- The wrappers of a user program, libs/liblazer/src: the raw result read back as a result, the arguments
-- of a child laid out in a buffer, and a call from end to end.
use lazers.Base.{ℕ, ◌+◌, Option, none, some, List, [], ◌∷◌, ◌++◌}
use lazers.Base.Tests.{ltb, if◌then◌else◌, ◌==◌}
use lazers.Base.Lists.{length}
use lazers.Base.Words.{Bytes}
use lazers.Base.Text.{contains}
use lazers.Base.Results.{Result, ok, err, and_then}
use lazers.Scheduler.Services.{RootFs}
use lazers.Syscall.Errors.{
  SpawnError, GetEnvError, SetEnvError, UnsetEnvError, ListEnvError, ReadDirError, ChdirError,
  GetCwdError, ReadFileError, invalid_path, file_not_found, invalid_executable,
  resource_unavailable, invalid_key, not_found, buffer_too_small, key_too_long, value_too_long,
  capacity_exceeded, not_a_file,
}
use lazers.Syscall.Abi.{
  Syscall, number, spawn_wait_code, read_dir_code, chdir_code, getcwd_code, read_file_code,
  get_env_code, set_env_code, unset_env_code, list_env_code,
}
use lazers.Syscall.Abi as Abi
use lazers.Syscall.Handlers.{Machine}
use lazers.Syscall.Dispatch.{TrapFrame, Trap, dispatch, returns}

-- The codes of a call in the order in which its wrapper tests them.
abbrev one_of : {E A : Type 0} → ℕ → List (ℕ × E) → Result E A → Result E A
one_of status [] otherwise = otherwise
one_of status ((code, e) ∷ more) otherwise =
    if status == code then err e else one_of status more otherwise

abbrev coded : {E : Type 0} → (E → ℕ) → E → ℕ × E
coded code e = (code e, e)

unfoldable pub spawn_wait_result : ℕ → Result SpawnError ℕ
spawn_wait_result status =
    one_of status
      (coded spawn_wait_code invalid_path
        ∷ coded spawn_wait_code file_not_found
        ∷ coded spawn_wait_code invalid_executable
        ∷ coded spawn_wait_code resource_unavailable
        ∷ [])
      (ok status)

unfoldable pub read_dir_result : ℕ → Result ReadDirError ℕ
read_dir_result status =
    one_of status
      (coded read_dir_code invalid_path
        ∷ coded read_dir_code not_found
        ∷ coded read_dir_code buffer_too_small
        ∷ coded read_dir_code resource_unavailable
        ∷ [])
      (ok status)

unfoldable pub chdir_result : ℕ → Result ChdirError (Unit {0})
chdir_result status =
    if status == 0
    then ok tt
    else one_of status
        (coded chdir_code invalid_path
          ∷ coded chdir_code not_found
          ∷ coded chdir_code resource_unavailable
          ∷ [])
        (err resource_unavailable)

unfoldable pub getcwd_result : ℕ → Result GetCwdError ℕ
getcwd_result status =
    one_of status (coded getcwd_code buffer_too_small ∷ coded getcwd_code resource_unavailable ∷ [])
      (ok status)

unfoldable pub read_file_result : ℕ → Result ReadFileError ℕ
read_file_result status =
    one_of status
      (coded read_file_code invalid_path
        ∷ coded read_file_code not_found
        ∷ coded read_file_code not_a_file
        ∷ coded read_file_code buffer_too_small
        ∷ coded read_file_code resource_unavailable
        ∷ [])
      (ok status)

unfoldable pub get_env_result : ℕ → Result GetEnvError ℕ
get_env_result status =
    one_of status
      (coded get_env_code invalid_key
        ∷ coded get_env_code not_found
        ∷ coded get_env_code buffer_too_small
        ∷ coded get_env_code resource_unavailable
        ∷ [])
      (ok status)

unfoldable pub set_env_result : ℕ → Result SetEnvError (Unit {0})
set_env_result status =
    if status == 0
    then ok tt
    else one_of status
        (coded set_env_code invalid_key
          ∷ coded set_env_code key_too_long
          ∷ coded set_env_code value_too_long
          ∷ coded set_env_code capacity_exceeded
          ∷ coded set_env_code resource_unavailable
          ∷ [])
        (err resource_unavailable)

unfoldable pub unset_env_result : ℕ → Result UnsetEnvError (Unit {0})
unset_env_result status =
    if status == 0
    then ok tt
    else one_of status
        (coded unset_env_code invalid_key
          ∷ coded unset_env_code not_found
          ∷ coded unset_env_code resource_unavailable
          ∷ [])
        (err resource_unavailable)

unfoldable pub list_env_result : ℕ → Result ListEnvError ℕ
list_env_result status =
    one_of status
      (coded list_env_code buffer_too_small ∷ coded list_env_code resource_unavailable ∷ [])
      (ok status)

abbrev pub max_spawn_arg_data : ℕ
max_spawn_arg_data = 512

pub data SpawnSerializeError : Type 0 where
  invalid_utf8 too_large : SpawnSerializeError

-- The arguments behind those that are written, each ended by a zero.
unfoldable pub serialize_spawn_args : List Bytes → Bytes → Result SpawnSerializeError Bytes
serialize_spawn_args [] written = ok written
serialize_spawn_args (arg ∷ args) written =
    if contains 0 arg
    then err invalid_utf8
    else if ltb max_spawn_arg_data (length written + (length arg + 1))
    then err too_large
    else serialize_spawn_args args (written ++ (arg ++ (0 ∷ [])))

-- The registers of a call, the others being of no interest to it.
abbrev pub frame_of : Syscall → ℕ → ℕ → ℕ → ℕ → TrapFrame
frame_of call arg0 arg1 arg2 arg3 = record {
  rax = number call;
  rbx = 0;
  rcx = arg3;
  rdx = arg2;
  rbp = 0;
  rdi = arg0;
  rsi = arg1;
  r8 = 0;
  r9 = 0;
  r10 = 0;
  r11 = 0;
  r12 = 0;
  r13 = 0;
  r14 = 0;
  r15 = 0;
  vector = 0;
  error_code = 0;
  rip = 0;
  cs = 0;
  rflags = 0;
  rsp = 0;
  ss = 0;
}

abbrev answered : Trap → Option (Machine × ℕ)
answered (returns m frame) = some (m, frame.rax)
answered _ = none

-- `syscall4` for a call that comes back at once.
unfoldable pub syscall4 : RootFs → Syscall → ℕ → ℕ → ℕ → ℕ → Machine → Option (Machine × ℕ)
syscall4 fs call arg0 arg1 arg2 arg3 m =
    and_then (dispatch fs (frame_of call arg0 arg1 arg2 arg3) m) answered

abbrev read_back : {A : Type 0} → (ℕ → A) → Option (Machine × ℕ) → Option (Machine × A)
read_back result called = and_then called λ (m, status). some (m, result status)

module _ (fs : RootFs) where
  unfoldable pub get_env : ℕ → ℕ → ℕ → ℕ → Machine → Option (Machine × Result GetEnvError ℕ)
  get_env key key_len buffer buffer_len m =
      read_back get_env_result (syscall4 fs Abi.get_env key key_len buffer buffer_len m)

  unfoldable pub set_env :
      ℕ → ℕ → ℕ → ℕ → Machine → Option (Machine × Result SetEnvError (Unit {0}))
  set_env key key_len value value_len m =
      read_back set_env_result (syscall4 fs Abi.set_env key key_len value value_len m)

  unfoldable pub unset_env : ℕ → ℕ → Machine → Option (Machine × Result UnsetEnvError (Unit {0}))
  unset_env key key_len m = read_back unset_env_result (syscall4 fs Abi.unset_env key key_len 0 0 m)

  unfoldable pub list_env : ℕ → ℕ → Machine → Option (Machine × Result ListEnvError ℕ)
  list_env buffer buffer_len m =
      read_back list_env_result (syscall4 fs Abi.list_env buffer buffer_len 0 0 m)

  unfoldable pub chdir : ℕ → ℕ → Machine → Option (Machine × Result ChdirError (Unit {0}))
  chdir path path_len m = read_back chdir_result (syscall4 fs Abi.chdir path path_len 0 0 m)

  unfoldable pub getcwd : ℕ → ℕ → Machine → Option (Machine × Result GetCwdError ℕ)
  getcwd buffer buffer_len m =
      read_back getcwd_result (syscall4 fs Abi.get_cwd buffer buffer_len 0 0 m)

  unfoldable pub read_file : ℕ → ℕ → ℕ → ℕ → Machine → Option (Machine × Result ReadFileError ℕ)
  read_file path path_len buffer buffer_len m =
      read_back read_file_result (syscall4 fs Abi.read_file path path_len buffer buffer_len m)

  unfoldable pub read_dir : ℕ → ℕ → ℕ → ℕ → Machine → Option (Machine × Result ReadDirError ℕ)
  read_dir path path_len buffer buffer_len m =
      read_back read_dir_result (syscall4 fs Abi.read_dir path path_len buffer buffer_len m)
