-- ===== src/Syscall/Dispatch.antt =====
-- The dispatch of a trap, `dispatch` of kernel/kernel/src/syscall.rs. A call that gives the processor away
-- ends in what the scheduler is asked for (kernel/kernel/src/scheduler/core.rs).
use lazers.Base.{ℕ, Bool, true, false, Option, none, some}
use lazers.Base.Tests.{if◌then◌else◌, ◌==◌}
use lazers.Base.Words.{Bytes}
use lazers.Base.Results.{and_then}
use lazers.Scheduler.Services.{RootFs}
use lazers.Syscall.Errors.{invalid_path, resource_unavailable}
use lazers.Syscall.Abi.{
  Syscall, number, read, write, yield, exit, spawn_wait, read_dir, chdir, get_cwd, read_file,
  get_env, set_env, unset_env, list_env, spawn_wait_silent, spawn_wait_code,
}
use lazers.Syscall.UserMemory.{user_slice}
use lazers.Syscall.Handlers.{
  Machine, Reply, user_text, syscall_read, syscall_write, syscall_read_dir, syscall_chdir,
  syscall_getcwd, syscall_read_file, syscall_get_env, syscall_set_env, syscall_unset_env,
  syscall_list_env,
}

-- kernel/kernel/src/arch.rs
pub record TrapFrame : Type 0 where
  pub rax : ℕ
  pub rbx : ℕ
  pub rcx : ℕ
  pub rdx : ℕ
  pub rbp : ℕ
  pub rdi : ℕ
  pub rsi : ℕ
  pub r8 : ℕ
  pub r9 : ℕ
  pub r10 : ℕ
  pub r11 : ℕ
  pub r12 : ℕ
  pub r13 : ℕ
  pub r14 : ℕ
  pub r15 : ℕ
  pub vector : ℕ
  pub error_code : ℕ
  pub rip : ℕ
  pub cs : ℕ
  pub rflags : ℕ
  pub rsp : ℕ
  pub ss : ℕ

-- Where a trap leads: back to the program, to another thread and then back with 0, out of the process,
-- or to a child with this path and these arguments, its output nulled or not; then `rax` is the
-- `spawn_status` of what comes of it.
pub data Trap : Type 0 where
  returns : Machine → TrapFrame → Trap
  yields : Machine → TrapFrame → Trap
  exits : Machine → ℕ → Trap
  spawns : Machine → Bool → Bytes → Bytes → Trap

abbrev pub with_rax : ℕ → TrapFrame → TrapFrame
with_rax status frame = record frame { rax = status }

abbrev pub returned : TrapFrame → Reply → Option Trap
returned frame result = and_then result λ (m, status). some (returns m (with_rax status frame))

abbrev pub spawn_with : Machine → TrapFrame → Bool → Bytes → Option Bytes → Option Trap
spawn_with m frame silent path none =
    some (returns m (with_rax (spawn_wait_code resource_unavailable) frame))
spawn_with m frame silent path (some argv_tail) = some (spawns m silent path argv_tail)

abbrev pub spawn_at : Machine → TrapFrame → Bool → Option Bytes → Option Trap
spawn_at m frame silent none = some (returns m (with_rax (spawn_wait_code invalid_path) frame))
spawn_at m frame silent (some path) =
    spawn_with m frame silent path (user_slice m.memory frame.rdx frame.rcx)

-- `syscall_spawn_wait` and `syscall_spawn_wait_silent`
unfoldable pub syscall_spawn_wait : Bool → TrapFrame → Machine → Option Trap
syscall_spawn_wait silent frame m = spawn_at m frame silent (user_text m.memory frame.rdi frame.rsi)

abbrev pub is_call : TrapFrame → Syscall → Bool
is_call frame call = frame.rax == number call

unfoldable pub dispatch : RootFs → TrapFrame → Machine → Option Trap
dispatch fs frame m =
    if is_call frame read
    then returned frame (syscall_read frame.rdi frame.rsi frame.rdx m)
    else if is_call frame write
    then returned frame (syscall_write frame.rdi frame.rsi frame.rdx m)
    else if is_call frame yield
    then some (yields m (with_rax 0 frame))
    else if is_call frame exit
    then some (exits m frame.rdi)
    else if is_call frame spawn_wait
    then syscall_spawn_wait false frame m
    else if is_call frame spawn_wait_silent
    then syscall_spawn_wait true frame m
    else if is_call frame read_dir
    then returned frame (syscall_read_dir fs frame.rdi frame.rsi frame.rdx frame.rcx m)
    else if is_call frame chdir
    then returned frame (syscall_chdir fs frame.rdi frame.rsi m)
    else if is_call frame get_cwd
    then returned frame (syscall_getcwd frame.rdi frame.rsi m)
    else if is_call frame read_file
    then returned frame (syscall_read_file fs frame.rdi frame.rsi frame.rdx frame.rcx m)
    else if is_call frame get_env
    then returned frame (syscall_get_env frame.rdi frame.rsi frame.rdx frame.rcx m)
    else if is_call frame set_env
    then returned frame (syscall_set_env frame.rdi frame.rsi frame.rdx frame.rcx m)
    else if is_call frame unset_env
    then returned frame (syscall_unset_env frame.rdi frame.rsi m)
    else if is_call frame list_env
    then returned frame (syscall_list_env frame.rdi frame.rsi m)
    else some (returns m (with_rax 0 frame))
