-- ===== src/Scheduler/Examples.antt =====
-- Tests of the scheduler and the witnesses of what is proved of it: a shell in process 1, its child in
-- process 2, and the idle thread.
use lazers.Base.{ℕ, suc, ◌*◌, ◌≤◌, true, Option, none, some, [], ◌∷◌, ◌≡◌, refl, arith}
use mathlib.Core.Path.{subst}
use lazers.Base.Text.{codes}
use lazers.Base.Results.{Result}
use lazers.Process
use lazers.Process.{Process, terminal_endpoint, null, continue}
use lazers.Thread
use lazers.Thread.{
  Thread, ThreadId, ProcessId, ThreadContext, zeroed, kernel, running, blocked, waiting_for_child,
}
use lazers.Scheduler.Lookup.{InSlots-slot}
use lazers.Scheduler.Next.{HasThreads, Ready}
use lazers.Scheduler.Valid.{IsSound, IsValid}
use lazers.Scheduler.Switch.{yield_now-IsValid}
use lazers.Scheduler.Fair.{yields, yields-reach}
use mathlib.Core.Logic.{◌≢◌}
use lazers.Scheduler.{prepare_wait_for_child}
use lazers.Scheduler.Wait.{prepare_wait-blocks}
use lazers.Scheduler.Exit.{Alone, prepare_exit-wakes}
use lazers.Scheduler.{ProcessExit}
use lazers.Scheduler.Leave.{HasWaiter, prepare_exit-total}
use lazers.Scheduler.Child.{Spawned}
use lazers.Scheduler.Spawn.{spawn_child_process-Spawned}
use lazers.Scheduler.{
  PreparedSwitch, ExitedThreadSwitch, switch_to, prepare_exit_current_process, finish_wait,
  yield_now,
}
use lazers.Scheduler.Program.{LoadedUserProgram, spawn_child_process}
use lazers.Scheduler.State
use lazers.Scheduler.State.{
  SchedulerState, process, thread, next_non_idle_runnable_thread, scan_threads, candidate,
}

abbrev idle_process : Process
idle_process = Process.new 0 (codes "kernel") 4096 [] continue

abbrev pub shell : Process
shell = record (Process.new 1 (codes "lash") 8192 (8192 ∷ []) continue) {
  handles = some terminal_endpoint ∷ some terminal_endpoint ∷ some null ∷ [];
  stdio = record { stdin = 0; stdout = 1; stderr = 2 };
}

abbrev child : Process
child = record (Process.new 2 (codes "user-child") 12288 (12288 ∷ []) continue) {
  waiting_thread = some 1;
}

abbrev main_thread : ThreadId → ProcessId → Thread
main_thread id process_id = Thread.new id (codes "main") process_id (kernel 0) zeroed 65536

abbrev stacks : ℕ → ℕ
stacks i = 65536 * suc i

abbrev tables : Thread → Thread → ThreadId → SchedulerState
tables shell_thread child_thread current = record (State.new stacks) {
  processes = some idle_process ∷ some shell ∷ some child ∷ none ∷ none ∷ none ∷ none ∷ none ∷ [];
  threads =
      some (main_thread 0 0)
      ∷ some shell_thread
      ∷ some child_thread
      ∷ none
      ∷ none
      ∷ none
      ∷ none
      ∷ none
      ∷ none
      ∷ none
      ∷ none
      ∷ none
      ∷ [];
  current_thread = some current;
  idle_thread = some 0;
}

-- The shell runs, and its child could.
abbrev pub shell_runs : SchedulerState
shell_runs = tables (record (main_thread 1 1) { state = running }) (main_thread 2 2) 1

-- The child runs, and the shell waits for it.
abbrev child_runs : SchedulerState
child_runs =
    tables (record (main_thread 1 1) { state = blocked; block_reason = waiting_for_child 2 })
      (record (main_thread 2 2) { state = running }) 2

shell_first : next_non_idle_runnable_thread (some 2) shell_runs ≡ some 1
unfolding next_non_idle_runnable_thread scan_threads candidate
shell_first = refl

child_next : next_non_idle_runnable_thread (some 1) shell_runs ≡ some 2
unfolding next_non_idle_runnable_thread scan_threads candidate
child_next = refl

shell_runs-HasThreads : HasThreads shell_runs
shell_runs-HasThreads =
    (refl, λ i t. InSlots-slot (λ j u. u.id ≡ j) shell_runs.threads i t (refl, (refl, (refl, tt))))

-- Whatever the two threads of the shell and its child do, if they keep their ids and processes.
tables-IsSound :
    (a b : Thread) (c : ThreadId)
    → a.id ≡ 1
    → b.id ≡ 2
    → a.process_id ≡ 1
    → b.process_id ≡ 2
    → IsSound (tables a b c)
tables-IsSound a b c at_1 at_2 in_1 in_2 =
    let s = tables a b c in
    (
      (refl, λ i t. InSlots-slot (λ j u. u.id ≡ j) s.threads i t (refl, (at_1, (at_2, tt)))),
      refl,
      λ i t.
          InSlots-slot (λ j u. (p : Process) × (process u.process_id s ≡ some p)) s.threads i t
            ((idle_process, refl), ((shell, rw in_1 refl), ((child, rw in_2 refl), tt))),
      λ d h.
          let e : 0 ≡ d = cc in
          (main_thread 0 0, subst (λ k. thread k s ≡ some (main_thread 0 0)) e refl),
    )

shell_runs-IsValid : IsValid shell_runs
shell_runs-IsValid = (
  tables-IsSound _ _ 1 refl refl refl refl,
  λ c h.
      let e : 1 ≡ c = cc in
      subst (λ k. (t : Thread) × (thread k shell_runs ≡ some t) × (t.state ≡ running)) e
        (_, refl, refl),
  λ i t.
      InSlots-slot (λ j u. u.state ≡ running → some 1 ≡ some j) shell_runs.threads i t
        ((λ h. absurd (cc)), ((λ h. refl), ((λ h. absurd (cc)), tt))),
)

child_runs-IsValid : IsValid child_runs
child_runs-IsValid = (
  tables-IsSound _ _ 2 refl refl refl refl,
  λ c h.
      let e : 2 ≡ c = cc in
      subst (λ k. (t : Thread) × (thread k child_runs ≡ some t) × (t.state ≡ running)) e
        (_, refl, refl),
  λ i t.
      InSlots-slot (λ j u. u.state ≡ running → some 2 ≡ some j) child_runs.threads i t
        ((λ h. absurd (cc)), ((λ h. absurd (cc)), ((λ h. refl), tt))),
)

-- The child is ready while the shell runs.
child-Ready : Ready shell_runs 2
child-Ready = (_, refl, refl, λ h. absurd (cc))

child-Alone : Alone child_runs 2 (record (main_thread 2 2) { state = running })
child-Alone = (
  λ i v.
      InSlots-slot (λ j u. u.process_id ≡ 2 → j ≡ 2) child_runs.threads i v
        ((λ h. absurd (cc)), ((λ h. absurd (cc)), ((λ h. refl), tt))),
  λ h. absurd (cc),
)

yield_now-IsValid_example :
    (r : Option PreparedSwitch) × (s' : SchedulerState) × (yield_now shell_runs ≡ some (r, s'))
    × IsValid s'
yield_now-IsValid_example = yield_now-IsValid shell_runs shell_runs-IsValid

yields-reach_example :
    (n : ℕ) × (s' : SchedulerState) × (n ≤ 12)
    × (yields n shell_runs ≡ some s')
    × IsValid s'
    × (s'.current_thread ≡ some 2)
yields-reach_example = yields-reach shell_runs shell_runs-IsValid 1 2 refl child-Ready

prepare_exit-wakes_example :
    (e : ExitedThreadSwitch) × (s' : SchedulerState) × (prepare_exit_current_process 7 child_runs
      ≡ some (some (switch_to e), s'))
    × (e.next_context ≡ 1)
    × (e.released_pages ≡ 12288 ∷ [])
    × (s'.current_thread ≡ some 1)
    × (thread 2 s' ≡ none)
    × (process 2 s' ≡ none)
    × IsValid s'
    × ((s2 : SchedulerState) × (finish_wait s' ≡ some (some 7, s2)))
prepare_exit-wakes_example =
    prepare_exit-wakes 7 child_runs 2 1 child_runs-IsValid refl refl refl child-Alone refl refl refl
      (omega arith)

abbrev program : LoadedUserProgram
program = record {
  address_space = 20480;
  entry_point = 4198400;
  user_stack_top = 2147483648;
  owned_pages = 20480 ∷ 24576 ∷ [];
}

spawn_child_process-Spawned_example :
    (r : Result LoadedUserProgram ProcessId × SchedulerState) × (spawn_child_process 1 program true
        shell_runs
      ≡ some r)
    × Spawned 1 shell program shell_runs r
    × IsSound r.1
spawn_child_process-Spawned_example =
    spawn_child_process-Spawned shell_runs 1 program true
      (tables-IsSound (record (main_thread 1 1) { state = running }) (main_thread 2 2) 1 refl refl
        refl refl)
      refl refl

prepare_wait-blocks_example :
    (r : ThreadId) × (w : PreparedSwitch) × (s' : SchedulerState) × (u : Thread)
    × (prepare_wait_for_child 2 shell_runs ≡ some (some w, s'))
    × (w.current_context ≡ 1)
    × (w.next_context ≡ r)
    × (r ≢ 1)
    × IsValid s'
    × (s'.current_thread ≡ some r)
    × (thread 1 s' ≡ some u)
    × (u.state ≡ blocked)
    × (u.block_reason ≡ waiting_for_child 2)
prepare_wait-blocks_example =
    prepare_wait-blocks 2 shell_runs shell_runs-IsValid 1 2 refl child-Ready (omega arith)

child-HasWaiter : HasWaiter child_runs 2 child
child-HasWaiter w waits =
    let e : 1 ≡ w = cc in
    subst (λ k. (u : Thread) × (thread k child_runs ≡ some u) × (k ≢ 2)) e (_, refl, omega arith)

prepare_exit-total_example :
    (r : Option ProcessExit) × (s' : SchedulerState) × (prepare_exit_current_process 7 child_runs
      ≡ some (r, s'))
    × IsSound s'
    × (thread 2 s' ≡ none)
    × (process 2 s' ≡ none)
prepare_exit-total_example =
    prepare_exit-total 7 child_runs 2 child_runs-IsValid refl refl refl child-Alone child-HasWaiter
