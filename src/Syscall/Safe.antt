-- ===== src/Syscall/Safe.antt =====
-- No system call writes to kernel memory (kernel/kernel/src/syscall.rs).
mod Filled
pub mod Calls
use lazers.Base.{
  ℕ, zero, suc, ◌+◌, ◌-◌, ◌*◌, ◌/◌, ◌%◌, ◌^◌, ◌≤◌, ◌<◌, min, max, Bool, true, false, not, ◌&&◌,
  ◌||◌, Option, none, some, List, [], ◌∷◌, ◌++◌, map, ◌≡◌, ◌≢◌, ◌↔◌, refl, sym, ap, ◌∙◌, ◌⊎◌, inl,
  inr, arith,
}
use lazers.Base.Tests.{ltb, leb, if◌then◌else◌, ◌==◌, Bool-cases, Option-cases}
use lazers.Base.Lists.{length, drop, length-append, length-drop}
use lazers.Base.Words.{Bytes, word}
use lazers.Base.Results.{Result, ok, err, and_then, and_then-eq-some, Whenever}
use lazers.Base.Text.{from_utf8}
use lazers.Scheduler.State.{SchedulerState}
use lazers.Scheduler.Services.{
  KeepsSize, RootFs, current_process_get_env, current_process_list_env, current_process_set_env,
  current_process_unset_env, current_process_chdir, current_process_getcwd,
  current_process_read_file, current_process_read_dir, current_process_read, current_process_write,
}
use lazers.Terminal.{TerminalEndpoint}
use lazers.Syscall.UserMemory.{
  Memory, store, bytes_at, user_slice, validate_user_buffer, user_image_base, user_stack_top,
}
use lazers.Syscall.Buffers.{validate_user_buffer_iff}
use lazers.Syscall.Handlers.{
  Machine, Reply, user_text, filled, fill_reply, change_reply, read_into, written, read_slice,
  write_slice, read_dir_in, read_dir_at, chdir_at, read_file_in, read_file_at, getcwd_reply,
  getcwd_in, get_env_in, get_env_at, set_env_in, set_env_at, unset_env_at, list_env_in,
  read_dir_status, chdir_status, read_file_status, get_env_status, set_env_status, unset_env_status,
  list_env_status, syscall_read, syscall_write, syscall_read_dir, syscall_chdir, syscall_getcwd,
  syscall_read_file, syscall_get_env, syscall_set_env, syscall_unset_env, syscall_list_env,
}
use lazers.Syscall.Dispatch.{
  TrapFrame, Trap, dispatch, returned, returns, syscall_spawn_wait, yields, exits, spawns,
}
use lazers.Syscall.Safe.Filled.{
  length-get_env, length-list_env, length-getcwd, length-read_file, length-read_dir, length-read,
}

-- An address below the base of the image of programs or above the top of their stack.
abbrev pub IsKernel : ℕ → Type 0
IsKernel a = (a < user_image_base) ⊎ (user_stack_top ≤ a)

abbrev pub SameKernel : Memory → Memory → Type 0
SameKernel mem mem' = (a : ℕ) → IsKernel a → mem' a ≡ mem a

pub store-outside :
    (address : ℕ) (bs : Bytes) (mem : Memory) (a : ℕ)
    → (a < address) ⊎ (address + length bs ≤ a)
    → store address bs mem a ≡ mem a
store-outside address [] mem a outside = refl
store-outside address (b ∷ bs) mem a outside =
    let other : (a == address) ≡ false = ground arith in
    store-outside (suc address) bs _ a (ground arith) ∙ rw other refl

pub length-bytes_at : (mem : Memory) (address len : ℕ) → length (bytes_at mem address len) ≡ len
length-bytes_at mem address zero = refl
length-bytes_at mem address (suc len) = ap suc (length-bytes_at mem (suc address) len)

-- A buffer that was accepted is written without a change of kernel memory.
store-SameKernel :
    (address len : ℕ) (bs : Bytes) (mem : Memory)
    → validate_user_buffer address len ≡ true
    → length bs ≤ len
    → SameKernel mem (store address bs mem)
store-SameKernel address len bs mem valid fits a kernel =
    elim ((validate_user_buffer_iff address len).0 valid) [
      | inl empty ↦ store-empty address bs mem a (omega (arith, empty, fits))
      | inr (low, high, _) ↦
          store-outside address bs mem a (ground (arith, kernel, low, high, fits))
    ]
  where
    store-empty :
        (address : ℕ) (bs : Bytes) (mem : Memory) (a : ℕ)
        → length bs ≡ 0
        → store address bs mem a ≡ mem a
    store-empty address [] mem a empty = refl
    store-empty address (b ∷ bs) mem a empty = absurd (omega arith)

pub same_kernel : (m : Machine) → SameKernel m.memory m.memory
same_kernel m a kernel = refl

-- A handler leaves kernel memory as it was, unless it panics.
abbrev pub Untouched : Machine → Reply → Type 0
Untouched m none = Unit
Untouched m (some (m', status)) = SameKernel m.memory m'.memory

pub Untouched-option :
    {A : Type 0} (m : Machine) (o : Option A) (next : Option A → Reply)
    → Untouched m (next none)
    → ((x : A) → Untouched m (next (some x)))
    → Untouched m (next o)
Untouched-option m none next refused given = refused
Untouched-option m (some x) next refused given = given x

-- A handler that is given a slice: what it does with none, and with one that was accepted.
pub Untouched-slice :
    (m : Machine) (address len : ℕ) (next : Option Bytes → Reply)
    → Untouched m (next none)
    → ((buffer : Bytes)
        → validate_user_buffer address len ≡ true
        → length buffer ≡ len
        → Untouched m (next (some buffer)))
    → Untouched m (next (user_slice m.memory address len))
unfolding user_slice
Untouched-slice m address len next refused given =
    elim (Bool-cases (validate_user_buffer address len)) [
      | inl e ↦
          rw e (given (bytes_at m.memory address len) e (length-bytes_at m.memory address len))
      | inr e ↦ rw e refused
    ]

pub change-Untouched :
    {E : Type 0} (status : Result E (Unit {0}) → ℕ) (m : Machine)
    (o : Option (SchedulerState × Result E (Unit {0})))
    → Untouched m (and_then o (change_reply status m))
change-Untouched status m none = tt
change-Untouched status m (some (s, result)) = same_kernel m

pub fill-Untouched :
    {E : Type 0} (status : Result E ℕ → ℕ) (address len : ℕ) (buffer : Bytes) (m : Machine)
    (o : Option (Bytes × Result E ℕ))
    → validate_user_buffer address len ≡ true
    → length buffer ≡ len
    → Whenever o (λ x. length x.0 ≤ length buffer)
    → Untouched m (and_then o (fill_reply status address m))
fill-Untouched status address len buffer m none valid size fits = tt
fill-Untouched status address len buffer m (some (bytes, result)) valid size fits =
    store-SameKernel address len bytes m.memory valid (omega (arith, fits, size))

pub read-Untouched :
    (address len : ℕ) (buffer : Bytes) (m : Machine) (o : Option (Bytes × TerminalEndpoint))
    → validate_user_buffer address len ≡ true
    → length buffer ≡ len
    → Whenever o (λ x. length x.0 ≤ length buffer)
    → Untouched m (and_then o (read_into address m))
read-Untouched address len buffer m none valid size fits = tt
read-Untouched address len buffer m (some (bytes, t)) valid size fits =
    store-SameKernel address len bytes m.memory valid (omega (arith, fits, size))

pub write-Untouched :
    (m : Machine) (o : Option (ℕ × TerminalEndpoint)) → Untouched m (and_then o (written m))
write-Untouched m none = tt
write-Untouched m (some (count, t)) = same_kernel m

pub getcwd-Untouched :
    (address len : ℕ) (buffer : Bytes) (m : Machine) (o : Option (Option (Bytes × ℕ)))
    → validate_user_buffer address len ≡ true
    → length buffer ≡ len
    → Whenever o (λ r. Whenever r (λ x. length x.0 ≤ length buffer))
    → Untouched m (and_then o (getcwd_reply address m))
getcwd-Untouched address len buffer m none valid size fits = tt
getcwd-Untouched address len buffer m (some none) valid size fits = same_kernel m
getcwd-Untouched address len buffer m (some (some (bytes, count))) valid size fits =
    store-SameKernel address len bytes m.memory valid (omega (arith, fits, size))
