-- ===== src/Syscall/Safe/Calls.antt =====
-- Each handler leaves kernel memory as it was, and so does the dispatch (kernel/kernel/src/syscall.rs).
use lazers.Base.{ℕ, Bool, true, false, Option, none, some}
use lazers.Base.Tests.{if◌then◌else◌}
use lazers.Base.Lists.{length}
use lazers.Base.Words.{Bytes}
use lazers.Scheduler.Services.{
  KeepsSize, RootFs, current_process_get_env, current_process_list_env, current_process_set_env,
  current_process_unset_env, current_process_chdir, current_process_getcwd,
  current_process_read_file, current_process_read_dir, current_process_read, current_process_write,
}
use lazers.Syscall.UserMemory.{user_slice}
use lazers.Syscall.Handlers.{
  Machine, Reply, user_text, read_slice, write_slice, read_dir_in, read_dir_at, chdir_at,
  read_file_in, read_file_at, getcwd_in, get_env_in, get_env_at, set_env_in, set_env_at,
  unset_env_at, list_env_in, read_dir_status, chdir_status, read_file_status, get_env_status,
  set_env_status, unset_env_status, list_env_status, syscall_read, syscall_write, syscall_read_dir,
  syscall_chdir, syscall_getcwd, syscall_read_file, syscall_get_env, syscall_set_env,
  syscall_unset_env, syscall_list_env,
}
use lazers.Syscall.Dispatch.{
  TrapFrame, Trap, dispatch, returned, returns, syscall_spawn_wait, is_call, with_rax, spawn_with,
  spawn_at, yields, exits, spawns,
}
use lazers.Syscall.Safe.Filled.{
  length-get_env, length-list_env, length-getcwd, length-read_file, length-read_dir, length-read,
}
use lazers.Syscall.Abi.{
  read, write, yield, exit, spawn_wait, spawn_wait_silent, read_dir, chdir, get_cwd, read_file,
  get_env, set_env, unset_env, list_env,
}
use lazers.Syscall.Safe.{
  Untouched, Untouched-option, Untouched-slice, change-Untouched, fill-Untouched, read-Untouched,
  write-Untouched, getcwd-Untouched, same_kernel, SameKernel,
}

syscall_read-Untouched : (fd a n : ℕ) (m : Machine) → Untouched m (syscall_read fd a n m)
unfolding syscall_read
syscall_read-Untouched fd a n m =
    Untouched-slice m a n (read_slice fd a m) (same_kernel m) λ buffer valid size.
      read-Untouched a n buffer m (current_process_read fd (length buffer) m.scheduler m.terminal)
        valid size (length-read fd (length buffer) m.scheduler m.terminal)

syscall_write-Untouched : (fd a n : ℕ) (m : Machine) → Untouched m (syscall_write fd a n m)
unfolding syscall_write
syscall_write-Untouched fd a n m =
    Untouched-option m (user_slice m.memory a n) (write_slice fd m) (same_kernel m)
      λ buffer. write-Untouched m (current_process_write fd buffer m.scheduler m.terminal)

syscall_getcwd-Untouched : (a n : ℕ) (m : Machine) → Untouched m (syscall_getcwd a n m)
unfolding syscall_getcwd
syscall_getcwd-Untouched a n m =
    Untouched-slice m a n (getcwd_in a m) (same_kernel m) λ buffer valid size.
      getcwd-Untouched a n buffer m (current_process_getcwd buffer m.scheduler) valid size
        (length-getcwd buffer m.scheduler)

syscall_list_env-Untouched : (a n : ℕ) (m : Machine) → Untouched m (syscall_list_env a n m)
unfolding syscall_list_env
syscall_list_env-Untouched a n m =
    Untouched-slice m a n (list_env_in a m) (same_kernel m) λ buffer valid size.
      fill-Untouched list_env_status a n buffer m (current_process_list_env buffer m.scheduler)
        valid size (length-list_env buffer m.scheduler)

syscall_get_env-Untouched : (k l a n : ℕ) (m : Machine) → Untouched m (syscall_get_env k l a n m)
unfolding syscall_get_env
syscall_get_env-Untouched k l a n m =
    Untouched-option m (user_text m.memory k l) (get_env_at a n m) (same_kernel m) λ key.
      Untouched-slice m a n (get_env_in a m key) (same_kernel m) λ buffer valid size.
        fill-Untouched get_env_status a n buffer m (current_process_get_env key buffer m.scheduler)
          valid size (length-get_env key buffer m.scheduler)

syscall_set_env-Untouched : (k l a n : ℕ) (m : Machine) → Untouched m (syscall_set_env k l a n m)
unfolding syscall_set_env
syscall_set_env-Untouched k l a n m =
    Untouched-option m (user_text m.memory k l) (set_env_at a n m) (same_kernel m) λ key.
      Untouched-option m (user_text m.memory a n) (set_env_in m key) (same_kernel m)
        λ value. change-Untouched set_env_status m (current_process_set_env key value m.scheduler)

syscall_unset_env-Untouched : (k l : ℕ) (m : Machine) → Untouched m (syscall_unset_env k l m)
unfolding syscall_unset_env
syscall_unset_env-Untouched k l m =
    Untouched-option m (user_text m.memory k l) (unset_env_at m) (same_kernel m)
      λ key. change-Untouched unset_env_status m (current_process_unset_env key m.scheduler)

-- Kernel memory in the machine that a trap leads to is as it was; nothing is said if there is none.
abbrev pub KernelKept : Machine → Option Trap → Type 0
KernelKept m none = Unit
KernelKept m (some (returns m' frame)) = SameKernel m.memory m'.memory
KernelKept m (some (yields m' frame)) = SameKernel m.memory m'.memory
KernelKept m (some (exits m' status)) = SameKernel m.memory m'.memory
KernelKept m (some (spawns m' silent path arguments)) = SameKernel m.memory m'.memory

record Keeps (m : Machine) (t : Option Trap) : Type 0 where
  pub kept : KernelKept m t

-- A call is either the one asked for or one of the others.
Keeps-if :
    {m : Machine} (b : Bool) {t t' : Option Trap}
    → Keeps m t
    → Keeps m t'
    → Keeps m (if b then t else t')
Keeps-if true first others = first
Keeps-if false first others = others

Keeps-returned :
    (frame : TrapFrame) {m : Machine} (r : Reply) → Untouched m r → Keeps m (returned frame r)
Keeps-returned frame none untouched = record { kept = tt }
Keeps-returned frame (some (m', status)) untouched = record { kept = untouched }

syscall_spawn_wait-Keeps :
    (silent : Bool) (frame : TrapFrame) (m : Machine) → Keeps m (syscall_spawn_wait silent frame m)
unfolding syscall_spawn_wait
syscall_spawn_wait-Keeps silent frame m = Keeps-spawn_at (user_text m.memory frame.rdi frame.rsi)
  where
    Keeps-spawn_with :
        (path : Bytes) (o : Option Bytes) → Keeps m (spawn_with m frame silent path o)
    Keeps-spawn_with path none = record { kept = same_kernel m }
    Keeps-spawn_with path (some argv_tail) = record { kept = same_kernel m }

    Keeps-spawn_at : (o : Option Bytes) → Keeps m (spawn_at m frame silent o)
    Keeps-spawn_at none = record { kept = same_kernel m }
    Keeps-spawn_at (some path) = Keeps-spawn_with path (user_slice m.memory frame.rdx frame.rcx)

module _ (fs : RootFs) (reads : KeepsSize fs.read_file_into) (lists : KeepsSize fs.read_dir) where
  syscall_chdir-Untouched : (k l : ℕ) (m : Machine) → Untouched m (syscall_chdir fs k l m)
  unfolding syscall_chdir
  syscall_chdir-Untouched k l m =
      Untouched-option m (user_text m.memory k l) (chdir_at fs m) (same_kernel m)
        λ path. change-Untouched chdir_status m (current_process_chdir fs path m.scheduler)

  syscall_read_file-Untouched :
      (k l a n : ℕ) (m : Machine) → Untouched m (syscall_read_file fs k l a n m)
  unfolding syscall_read_file
  syscall_read_file-Untouched k l a n m =
      Untouched-option m (user_text m.memory k l) (read_file_at fs a n m) (same_kernel m) λ path.
        Untouched-slice m a n (read_file_in fs a m path) (same_kernel m) λ buffer valid size.
          fill-Untouched read_file_status a n buffer m
            (current_process_read_file fs path buffer m.scheduler) valid size
            (length-read_file fs path buffer m.scheduler reads)

  syscall_read_dir-Untouched :
      (k l a n : ℕ) (m : Machine) → Untouched m (syscall_read_dir fs k l a n m)
  unfolding syscall_read_dir
  syscall_read_dir-Untouched k l a n m =
      Untouched-option m (user_text m.memory k l) (read_dir_at fs a n m) (same_kernel m) λ path.
        Untouched-slice m a n (read_dir_in fs a m path) (same_kernel m) λ buffer valid size.
          fill-Untouched read_dir_status a n buffer m
            (current_process_read_dir fs path buffer m.scheduler) valid size
            (length-read_dir fs path buffer m.scheduler lists)

  dispatch-Keeps : (frame : TrapFrame) (m : Machine) → Keeps m (dispatch fs frame m)
  unfolding dispatch
  dispatch-Keeps frame m =
      let unchanged : (t : Option Trap) → KernelKept m t → Keeps m t =
        λ t same. record { kept = same } in
      let a = frame.rdi in
      let b = frame.rsi in
      let c = frame.rdx in
      let d = frame.rcx in
      Keeps-if (is_call frame read) (Keeps-returned frame _ (syscall_read-Untouched a b c m)) (
        Keeps-if (is_call frame write) (Keeps-returned frame _ (syscall_write-Untouched a b c m)) (
          Keeps-if (is_call frame yield)
            (unchanged (some (yields m (with_rax 0 frame))) (same_kernel m))
            (Keeps-if (is_call frame exit) (unchanged (some (exits m frame.rdi)) (same_kernel m)) (
              Keeps-if (is_call frame spawn_wait) (syscall_spawn_wait-Keeps false frame m) (
                Keeps-if (is_call frame spawn_wait_silent) (syscall_spawn_wait-Keeps true frame m) (
                  Keeps-if (is_call frame read_dir)
                    (Keeps-returned frame _ (syscall_read_dir-Untouched a b c d m))
                    (Keeps-if (is_call frame chdir)
                      (Keeps-returned frame _ (syscall_chdir-Untouched a b m))
                      (Keeps-if (is_call frame get_cwd)
                        (Keeps-returned frame _ (syscall_getcwd-Untouched a b m))
                        (Keeps-if (is_call frame read_file)
                          (Keeps-returned frame _ (syscall_read_file-Untouched a b c d m))
                          (Keeps-if (is_call frame get_env)
                            (Keeps-returned frame _ (syscall_get_env-Untouched a b c d m))
                            (Keeps-if (is_call frame set_env)
                              (Keeps-returned frame _ (syscall_set_env-Untouched a b c d m))
                              (Keeps-if (is_call frame unset_env)
                                (Keeps-returned frame _ (syscall_unset_env-Untouched a b m))
                                (Keeps-if (is_call frame list_env)
                                  (Keeps-returned frame _ (syscall_list_env-Untouched a b m))
                                  (unchanged (some (returns m (with_rax 0 frame)))
                                    (same_kernel m)))))))))))))))

  -- If the file system leaves every buffer as long as it was, no trap that is dispatched changes a byte
  -- below the base of the program's image or above the top of its stack, whatever the registers hold;
  -- nothing is said of a panic or of a call of the file system that does not come back.
  pub dispatch-KernelKept : (frame : TrapFrame) (m : Machine) → KernelKept m (dispatch fs frame m)
  dispatch-KernelKept frame m = (dispatch-Keeps frame m).kept
