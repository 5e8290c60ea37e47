-- ===== src/Scheduler/State.antt =====
-- The state of the cooperative scheduler, kernel/kernel/src/scheduler/state.rs: its tables, the
-- creation of processes and threads, and the search for a thread to run. `none` as the outcome of an
-- operation is a panic (`expect`). The stacks of the threads are the addresses at which they end.
use lazers.Base.{ℕ, zero, suc, ◌+◌, ◌-◌, ◌%◌, Bool, false, Option, none, some, List}
use lazers.Base.Tests.{if◌then◌else◌, ◌==◌}
use lazers.Base.Lists.{length, get_elem?, set, replicate}
use lazers.Base.Words.{Bytes}
use lazers.Base.Results.{and_then}
use lazers.Process
use lazers.Process.{
  Process, AddressSpace, OwnedPages, ProcessExitAction, KernelObject, terminal_endpoint, first_free,
  install_stdio,
}
use lazers.Thread
use lazers.Thread.{
  Thread, ThreadId, ProcessId, ThreadContext, ThreadState, ThreadStart, can_run, zeroed,
}

abbrev pub max_processes : ℕ
max_processes = 8

abbrev pub max_threads : ℕ
max_threads = 12

pub record SchedulerState : Type 0 where
  pub processes : List (Option Process)
  pub threads : List (Option Thread)
  pub stacks : ℕ → ℕ
  pub current_thread : Option ThreadId
  pub idle_thread : Option ThreadId
  pub bootstrap_context : ThreadContext

abbrev pub new : (ℕ → ℕ) → SchedulerState
new stacks = record {
  processes = replicate max_processes none;
  threads = replicate max_threads none;
  stacks = stacks;
  current_thread = none;
  idle_thread = none;
  bootstrap_context = zeroed;
}

unfoldable pub reset : SchedulerState → SchedulerState
reset s = new s.stacks

-- `self.processes[id].as_ref().expect(..)`, and so for threads.
abbrev pub slot {ℓ} : {A : Type ℓ} → List (Option A) → ℕ → Option A
slot xs i = elim (get_elem? xs i) [ none ↦ none | some o ↦ o ]

abbrev pub process : ProcessId → SchedulerState → Option Process
process id s = slot s.processes id

abbrev pub thread : ThreadId → SchedulerState → Option Thread
thread id s = slot s.threads id

-- A change through `process_mut` and `thread_mut`.
unfoldable pub update_process :
    ProcessId → (Process → Process) → SchedulerState → Option SchedulerState
update_process id f s =
    and_then (process id s) λ p. some (record s { processes = set s.processes id (some (f p)) })

unfoldable pub update_thread : ThreadId → (Thread → Thread) → SchedulerState → Option SchedulerState
update_thread id f s =
    and_then (thread id s) λ t. some (record s { threads = set s.threads id (some (f t)) })

pub record ProcessConfig : Type 0 where
  pub name : Bytes
  pub address_space : AddressSpace
  pub terminal : Bool
  pub owned_pages : OwnedPages
  pub exit_action : ProcessExitAction

-- A configuration with a terminal endpoint installs it three times.
abbrev pub configured : ProcessConfig → ProcessId → Option Process
configured config id =
    let p = Process.new id config.name config.address_space config.owned_pages config.exit_action in
    if config.terminal
    then install_stdio terminal_endpoint terminal_endpoint terminal_endpoint p
    else some p

unfoldable pub try_create_process :
    ProcessConfig → SchedulerState → Option (ProcessId × SchedulerState)
try_create_process config s = and_then (first_free s.processes) λ i.
    and_then (configured config i)
      λ p. some (i, record s { processes = set s.processes i (some p) })

abbrev pub aligned_top : ℕ → ℕ
aligned_top stack_top = stack_top - stack_top % 16

abbrev pub initial_context_for : ℕ → SchedulerState → ThreadContext × ℕ
initial_context_for i s =
    (record zeroed { rsp = aligned_top (s.stacks i) - 8 }, aligned_top (s.stacks i))

unfoldable pub try_create_thread :
    Bytes → ProcessId → ThreadStart → SchedulerState → Option (ThreadId × SchedulerState)
try_create_thread name process_id start s = and_then (first_free s.threads) λ i.
    let (context, top) = initial_context_for i s in
    some (
      i,
      record s {
        threads = set s.threads i (some (Thread.new i name process_id start context top));
      },
    )

-- Whether the slot holds a thread that can run and is not the idle one.
unfoldable pub candidate : Option ThreadId → Option Thread → Option ThreadId
candidate idle none = none
candidate idle (some t) =
    if elim idle [ none ↦ false | some i ↦ i == t.id ]
    then none
    else if can_run t.state
    then some t.id
    else none

-- The loop of `next_non_idle_runnable_thread`, from `offset`, with `left` rounds to go.
unfoldable pub scan_threads : List (Option Thread) → Option ThreadId → ℕ → ℕ → ℕ → Option ThreadId
scan_threads threads idle start zero offset = none
scan_threads threads idle start (suc left) offset =
    let found = candidate idle (slot threads ((start + offset) % length threads)) in
    elim found [ some id ↦ some id | none ↦ scan_threads threads idle start left (suc offset) ]

abbrev pub start_after : Option ThreadId → ℕ → ℕ
start_after none count = 0
start_after (some id) count = (id + 1) % count

unfoldable pub next_non_idle_runnable_thread : Option ThreadId → SchedulerState → Option ThreadId
next_non_idle_runnable_thread current s =
    scan_threads s.threads s.idle_thread (start_after current (length s.threads)) (length s.threads)
      0

-- A panic if the idle thread does not exist.
unfoldable pub next_runnable_thread : Option ThreadId → SchedulerState → Option (Option ThreadId)
next_runnable_thread current s = elim (next_non_idle_runnable_thread current s) [
  | some id ↦ some (some id)
  | none ↦ elim s.idle_thread [
    | none ↦ some none
    | some idle ↦ and_then (thread idle s) λ t. some (if can_run t.state then some idle else none)
  ]
]

pub record ThreadActivation : Type 0 where
  pub thread_id : ThreadId
  pub kernel_stack_top : ℕ
  pub address_space : AddressSpace

unfoldable pub activation : ThreadId → SchedulerState → Option ThreadActivation
activation id s = and_then (thread id s) λ t. and_then (process t.process_id s) λ p. some (record {
  thread_id = id;
  kernel_stack_top = t.kernel_stack_top;
  address_space = p.address_space;
})
