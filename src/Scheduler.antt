-- ===== src/Scheduler.antt =====
-- The transitions of the cooperative scheduler, kernel/kernel/src/scheduler/state.rs, and the parts of
-- kernel/kernel/src/scheduler/core.rs that change its state. The context pointers of a switch are the
-- threads whose contexts they point to; the switch itself is the machine's.
pub mod Lookup
pub mod Next
pub mod Valid
pub mod Switch
pub mod Fair
pub mod Wait
pub mod Exit
pub mod Leave
pub mod Program
pub mod Child
pub mod Spawn
pub mod Examples
pub mod State
pub mod Services
use lazers.Base.{
  ℕ, zero, suc, ◌+◌, ◌-◌, ◌*◌, ◌/◌, ◌%◌, ◌^◌, ◌≤◌, ◌<◌, min, max, Bool, true, false, not, ◌&&◌,
  ◌||◌, Option, none, some, List, [], ◌∷◌, ◌++◌, map, ◌≡◌, ◌≢◌, ◌↔◌, refl, sym, ap, ◌∙◌, ◌⊎◌, inl,
  inr, arith,
}
use lazers.Base.Tests.{ltb, leb, if◌then◌else◌, ◌==◌, Bool-cases, Option-cases}
use lazers.Base.Lists.{length, get_elem?, set}
use lazers.Base.Words.{Bytes}
use lazers.Base.Text.{codes}
use lazers.Base.Results.{Result, ok, err, and_then}
use lazers.Process
use lazers.Process.{
  Process, AddressSpace, OwnedPages, ProcessExitAction, continue, shutdown_system, first_free,
  inherit_stdio_into, inherit_stdio_silent_into, inherit_cwd_into, inherit_env_into,
  take_owned_pages,
}
use lazers.Thread
use lazers.Thread.{
  Thread, ThreadId, ProcessId, ThreadState, runnable, running, blocked, ThreadStart, user,
  set_state, block_for_child, wake, set_wait_result, take_wait_result,
}
use State.{
  SchedulerState, process, thread, update_process, update_thread, try_create_thread,
  next_runnable_thread, activation, slot, ThreadActivation,
}

pub record PreparedSwitch : Type 0 where
  pub current_context : ThreadId
  pub next_context : ThreadId
  pub next_space : AddressSpace
  pub next_stack_top : ℕ

-- The switch from `current` to `next`; both contexts must exist.
unfoldable pub prepared : ThreadId → ThreadId → SchedulerState → Option PreparedSwitch
prepared current next s = and_then (thread current s) λ _. and_then (activation next s) λ a.
    some (record {
      current_context = current;
      next_context = next;
      next_space = a.address_space;
      next_stack_top = a.kernel_stack_top;
    })

-- `next` becomes the running thread.
unfoldable pub make_current : ThreadId → SchedulerState → Option SchedulerState
make_current next s =
    and_then (update_thread next (set_state running) s)
      λ s'. some (record s' { current_thread = some next })

-- The state after the operation beside its result.
abbrev pub Step : Type 0 → Type 0
Step A = Option (Option A × SchedulerState)

-- The end of both switches: `next` becomes current in place of `current`.
unfoldable pub hand_over : ThreadId → ThreadId → SchedulerState → Step PreparedSwitch
hand_over current next s =
    and_then (make_current next s)
      λ s'. and_then (prepared current next s') λ switch. some (some switch, s')

abbrev pub vacated : Bool → ThreadState
vacated true = blocked
vacated false = runnable

unfoldable pub switch_from :
    Bool → ThreadId → SchedulerState → Option ThreadId → Step PreparedSwitch
switch_from block_current current s none = some (none, s)
switch_from block_current current s (some next) =
    if next == current && not block_current
    then some (none, s)
    else and_then (update_thread current (set_state (vacated block_current)) s)
        (hand_over current next)

unfoldable pub switch_at : Bool → SchedulerState → Option ThreadId → Step PreparedSwitch
switch_at block_current s none = some (none, s)
switch_at block_current s (some current) =
    and_then (next_runnable_thread (some current) s) (switch_from block_current current s)

unfoldable pub prepare_switch : Bool → SchedulerState → Step PreparedSwitch
prepare_switch block_current s = switch_at block_current s s.current_thread

unfoldable pub wait_to : ThreadId → SchedulerState → Option ThreadId → Step PreparedSwitch
wait_to current s none = some (none, s)
wait_to current s (some next) = hand_over current next s

unfoldable pub wait_at : ProcessId → SchedulerState → Option ThreadId → Step PreparedSwitch
wait_at child s none = some (none, s)
wait_at child s (some current) =
    and_then (update_thread current (block_for_child child) s)
      λ s'. and_then (next_runnable_thread (some current) s') (wait_to current s')

unfoldable pub prepare_wait_for_child : ProcessId → SchedulerState → Step PreparedSwitch
prepare_wait_for_child child s = wait_at child s s.current_thread

pub record ExitedThreadSwitch : Type 0 where
  pub next_context : ThreadId
  pub next_space : AddressSpace
  pub next_stack_top : ℕ
  pub released_pages : OwnedPages

pub data ProcessExit : Type 0 where
  switch_to : ExitedThreadSwitch → ProcessExit
  shutdown : OwnedPages → ProcessExit

-- Who runs after an exit: the thread that waits, woken with the status, or the next one that can.
unfoldable pub after_exit :
    Option ThreadId → ℕ → ThreadId → SchedulerState → Option (Option ThreadId × SchedulerState)
after_exit (some waiting) status current s =
    and_then (update_thread waiting (λ t. wake (set_wait_result status t)) s)
      λ s'. some (some waiting, s')
after_exit none status current s =
    and_then (next_runnable_thread (some current) s) λ found. some (found, s)

abbrev pub is_shutdown : ProcessExitAction → Bool
is_shutdown shutdown_system = true
is_shutdown continue = false

-- The thread and the process of the exiting thread leave their tables, so that nothing is left of
-- the exit status and the waiting thread that were noted in the process.
abbrev pub remove_exited : ThreadId → ProcessId → SchedulerState → SchedulerState
remove_exited current id s = record s {
  threads = set s.threads current none;
  processes = set s.processes id none;
}

unfoldable pub finish_exit : OwnedPages → Option ThreadId × SchedulerState → Step ProcessExit
finish_exit released (none, s) = some (none, s)
finish_exit released (some next, s) = and_then (make_current next s) λ s'.
    and_then (activation next s') λ a. some (
      some (
          switch_to (record {
            next_context = next;
            next_space = a.address_space;
            next_stack_top = a.kernel_stack_top;
            released_pages = released;
          })),
      s',
    )

unfoldable pub exit_at : ℕ → SchedulerState → Option ThreadId → Step ProcessExit
exit_at status s none = some (none, s)
exit_at status s (some current) = and_then (thread current s) λ t.
    and_then (process t.process_id s) λ p.
      let s1 = remove_exited current t.process_id s in
      if is_shutdown p.exit_action
      then some (some (shutdown p.owned_pages), record s1 { current_thread = none })
      else and_then (after_exit p.waiting_thread status current s1) (finish_exit p.owned_pages)

unfoldable pub prepare_exit_current_process : ℕ → SchedulerState → Step ProcessExit
prepare_exit_current_process status s = exit_at status s s.current_thread

-- The scheduling that `start` does; `none` inside is a halt.
unfoldable pub start : SchedulerState → Step ThreadActivation
start s = and_then (next_runnable_thread none s) λ found. elim found [
  | none ↦ some (none, s)
  | some id ↦ and_then (make_current id s) λ s'. and_then (activation id s') λ a. some (some a, s')
]

unfoldable pub yield_now : SchedulerState → Step PreparedSwitch
yield_now s = prepare_switch false s

unfoldable pub take_result : SchedulerState → Option ThreadId → Step ℕ
take_result s none = some (none, s)
take_result s (some current) = and_then (thread current s) λ t.
    and_then (update_thread current (λ u. (take_wait_result u).1) s) λ s'. some (t.wait_result, s')

-- The end of `wait_for_child`, when the waiting thread runs again.
unfoldable pub finish_wait : SchedulerState → Step ℕ
finish_wait s = take_result s s.current_thread
