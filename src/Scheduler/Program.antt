-- ===== src/Scheduler/Program.antt =====
-- Starting a program in a child process, kernel/kernel/src/scheduler/state.rs, `spawn_child_process`.
use lazers.Base.{ℕ, Bool, Option, none, some}
use lazers.Base.Tests.{if◌then◌else◌}
use lazers.Base.Lists.{set}
use lazers.Base.Text.{codes}
use lazers.Base.Results.{Result, ok, err, and_then}
use lazers.Process
use lazers.Process.{
  Process, AddressSpace, OwnedPages, ProcessExitAction, continue, shutdown_system, first_free,
  inherit_stdio_into, inherit_stdio_silent_into, inherit_cwd_into, inherit_env_into,
  take_owned_pages,
}
use lazers.Thread.{ThreadId, ProcessId, user}
use lazers.Scheduler.State.{SchedulerState, process, thread, try_create_thread}

pub record LoadedUserProgram : Type 0 where
  pub address_space : AddressSpace
  pub entry_point : ℕ
  pub user_stack_top : ℕ
  pub owned_pages : OwnedPages

-- The child before it is entered in the table: its streams, directory and environment are the
-- parent's.
unfoldable pub inherit : Bool → Process → Process → Option Process
inherit silent parent child =
    and_then
      (if silent then inherit_stdio_silent_into parent child else inherit_stdio_into parent child)
      λ c1.
        and_then (inherit_cwd_into parent c1)
          λ c2. elim (inherit_env_into parent c2) [ ok c3 ↦ some c3 | err e ↦ none ]

-- The child is entered and gets a thread; without a thread it is taken out again.
unfoldable pub enter_child :
    ProcessId
    → Process
    → LoadedUserProgram
    → SchedulerState
    → Result LoadedUserProgram ProcessId × SchedulerState
enter_child i child program s =
    let s1 = record s { processes = set s.processes i (some child) } in
    let start =
      user
        (record { entry_point = program.entry_point; user_stack_top = program.user_stack_top }) in
    elim (try_create_thread (codes "user-child-main") i start s1) [
      | some (_, s2) ↦ (ok i, s2)
      | none ↦ (
        err (record program {
          address_space = child.address_space;
          owned_pages = child.owned_pages;
        }),
        record s1 { processes = set s1.processes i none },
      )
    ]

-- On failure the program is handed back; its address space and pages are the child's, which the
-- inheritance leaves alone.
unfoldable pub spawn_child_process :
    ThreadId
    → LoadedUserProgram
    → Bool
    → SchedulerState
    → Option (Result LoadedUserProgram ProcessId × SchedulerState)
spawn_child_process parent_thread program silent s = and_then (thread parent_thread s) λ t.
    elim (first_free s.processes) [
      | none ↦ some (err program, s)
      | some i ↦ and_then (process t.process_id s) λ parent.
          let fresh =
            Process.new i (codes "user-child") program.address_space program.owned_pages continue in
          elim (inherit silent parent fresh) [
            | none ↦ some (err program, s)
            | some child ↦
                some
                  (enter_child i (record child { waiting_thread = some parent_thread }) program s)
          ]
    ]
