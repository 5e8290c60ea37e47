-- ===== src/Scheduler/Leave.antt =====
-- The exit of a process on every path, prepare_exit_current_process of
-- kernel/kernel/src/scheduler/state.rs.
use lazers.Base.{ℕ, false, Option, none, some, ◌≡◌, ◌≢◌, refl, ap, ◌∙◌, inl, inr}
use lazers.Base.Tests.{Bool-cases, Option-cases}
use lazers.Base.Results.{and_then}
use lazers.Process.{Process, ProcessExitAction, continue, shutdown_system}
use lazers.Thread.{Thread, ThreadId, running, set_state}
use lazers.Scheduler.Lookup.{slot-set_self, slot-set_ne, lt_of_slot}
use lazers.Scheduler.Valid.{IsSound, IsValid, made_current, next_runnable_thread-total}
use lazers.Scheduler.Exit.{Alone, remove_exited-IsSound, finish_exit-some, prepare_exit-wakes}
use lazers.Scheduler.{
  ProcessExit, switch_to, shutdown, prepare_exit_current_process, exit_at, after_exit, finish_exit,
  remove_exited, is_shutdown,
}
use lazers.Scheduler.State.{SchedulerState, thread, process}

-- Whoever waits for the process exists and is not the thread `c`.
abbrev pub HasWaiter : SchedulerState → ThreadId → Process → Type 0
HasWaiter s c p =
    (w : ThreadId) → p.waiting_thread ≡ some w → (u : Thread) × (thread w s ≡ some u) × (w ≢ c)

not_shutdown : (action : ProcessExitAction) → is_shutdown action ≡ false → action ≡ continue
not_shutdown continue h = refl
not_shutdown shutdown_system h = absurd (cc)

-- In a valid state, let the current thread be the only one of its process, and let whoever waits for the
-- process exist. An exit does not panic: whether it shuts the system down, wakes a parent, or goes on
-- with another thread or with none, the process and its thread are gone and the tables are sound.
pub prepare_exit-total :
    (status : ℕ) (s : SchedulerState) (c : ThreadId) {t : Thread} {p : Process}
    → IsValid s
    → s.current_thread ≡ some c
    → thread c s ≡ some t
    → process t.process_id s ≡ some p
    → Alone s c t
    → HasWaiter s c p
    → (r : Option ProcessExit) × (s' : SchedulerState) × (prepare_exit_current_process status s
        ≡ some (r, s'))
      × IsSound s'
      × (thread c s' ≡ none)
      × (process t.process_id s' ≡ none)
unfolding prepare_exit_current_process exit_at after_exit finish_exit
prepare_exit-total status s c {t} {p} valid is_current at_c owned alone waiter =
    let pid = t.process_id in
    let s1 = remove_exited c pid s in
    let (sound1, none1) = remove_exited-IsSound s c valid is_current at_c owned alone in
    let gone : thread c s1 ≡ none = slot-set_self s.threads c none (lt_of_slot s.threads c at_c) in
    let ended : process pid s1 ≡ none =
      slot-set_self s.processes pid none (lt_of_slot s.processes pid owned) in
    elim (Bool-cases (is_shutdown p.exit_action)) [
      | inl off ↦ (
        some (shutdown p.owned_pages),
        record s1 { current_thread = none },
        ap (exit_at status s) is_current ∙ rw (at_c, owned, and_then, off) refl,
        sound1,
        gone,
        ended,
      )
      | inr on ↦ elim (Option-cases p.waiting_thread) [
        | inr (w, waits) ↦
            let (u, at_w, w_c) = waiter w waits in
            let (e, s', done, _, _, _, gone', ended', valid', _) =
              prepare_exit-wakes status s c w valid is_current at_c owned alone
                (not_shutdown p.exit_action on) waits at_w w_c in
            (some (switch_to e), s', done, valid'.0, gone', ended')
        | inl nobody ↦ elim (next_runnable_thread-total s1 (some c) sound1) [
          | inl nothing ↦ (
            none,
            s1,
            ap (exit_at status s) is_current
                ∙ rw (at_c, owned, and_then, on, nobody, after_exit, nothing) refl,
            sound1,
            gone,
            ended,
          )
          | inr (n, v, found, at_n, _) ↦
              let (e, done, _, _, valid') = finish_exit-some s1 p.owned_pages n sound1 none1 at_n in
              let n_c : n ≢ c = λ same. absurd (cc (ap (λ k. thread k s1) same, gone, at_n)) in
              (
                some (switch_to e),
                made_current n v s1,
                ap (exit_at status s) is_current
                    ∙ rw (at_c, owned, and_then, on, nobody, after_exit, found) done,
                valid'.0,
                slot-set_ne s1.threads n c (some (set_state running v)) n_c ∙ gone,
                ended,
              )
        ]
      ]
    ]
