-- ===== src/Scheduler/Exit.antt =====
-- A parent that waits for its child, and the child's exit: prepare_wait_for_child and
-- prepare_exit_current_process of kernel/kernel/src/scheduler/state.rs.
use lazers.Base.{ℕ, none, some, ◌≡◌, ◌≢◌, refl, sym, ap, ◌∙◌, inl, inr, arith}
use lazers.Base.Tests.{◌==◌, Bool-cases}
use lazers.Base.Lists.{length-set}
use lazers.Base.Results.{and_then}
use lazers.Process.{Process, continue, OwnedPages}
use lazers.Thread.{
  Thread, ThreadId, ProcessId, running, set_state, wake, set_wait_result, take_wait_result,
}
use lazers.Scheduler.Lookup.{slot-set, slot-set_self, slot-set_ne, lt_of_slot}
use lazers.Scheduler.Valid.{
  IsSound, IsValid, NoneRunning, with_thread, thread-with, with_thread-IsSound,
  update_thread-eq-some, make_current-eq-some, made_current, made_current-IsValid,
}
use lazers.Scheduler.{
  ExitedThreadSwitch, switch_to, prepare_exit_current_process, exit_at, after_exit, finish_exit,
  remove_exited, finish_wait, take_result,
}
use lazers.Scheduler.State.{SchedulerState, thread, process, activation}

-- `c` is the only thread of its process, and not the idle one.
abbrev pub Alone : SchedulerState → ThreadId → Thread → Type 0
Alone s c t =
    ((i : ThreadId) (v : Thread) → thread i s ≡ some v → v.process_id ≡ t.process_id → i ≡ c)
    × (s.idle_thread ≢ some c)

thread-removed :
    (s : SchedulerState) (c i : ThreadId) (pid : ProcessId) {t v : Thread}
    → thread c s ≡ some t
    → thread i (remove_exited c pid s) ≡ some v
    → (c ≢ i) × (thread i s ≡ some v)
thread-removed s c i pid at_c at_i =
    let after = slot-set s.threads c i none (lt_of_slot s.threads c at_c) in
    elim (Bool-cases (c == i)) [
      | inl same ↦ absurd (cc (at_i, rw same at after))
      | inr other ↦ (ground arith, cc (at_i, rw other at after))
    ]

-- Once the exiting thread and its process are gone, nothing refers to either, and no thread runs.
pub remove_exited-IsSound :
    (s : SchedulerState) (c : ThreadId) {t : Thread} {p : Process}
    → IsValid s
    → s.current_thread ≡ some c
    → thread c s ≡ some t
    → process t.process_id s ≡ some p
    → Alone s c t
    → IsSound (remove_exited c t.process_id s) × NoneRunning (remove_exited c t.process_id s)
remove_exited-IsSound s c {t} (((size, ids), processes, owners, idle), _, only) is_current at_c
      owned (alone, not_idle) =
    let pid = t.process_id in
    (
      (
        (
          length-set s.threads c none ∙ size,
          λ i v at_i. ids i v (thread-removed s c i pid at_c at_i).1,
        ),
        length-set s.processes pid none ∙ processes,
        λ i v at_i.
            let (other, before) = thread-removed s c i pid at_c at_i in
            let (q, has) = owners i v before in
            (
              q,
              slot-set_ne s.processes pid v.process_id none
                    (λ e. other (sym (alone i v before (sym e))))
                  ∙ has,
            ),
        λ d is_idle.
            let (v, at_d) = idle d is_idle in
            (v, slot-set_ne s.threads c d none (λ e. not_idle (is_idle ∙ ap some (sym e))) ∙ at_d),
      ),
      λ i v at_i runs.
          let (other, before) = thread-removed s c i pid at_c at_i in
          let now = only i v before runs in let e : c ≡ i = cc in other e,
    )

-- The last part of an exit, with a thread `n` to go on with.
pub finish_exit-some :
    (s : SchedulerState) (released : OwnedPages) (n : ThreadId) {u : Thread}
    → IsSound s
    → NoneRunning s
    → thread n s ≡ some u
    → (e : ExitedThreadSwitch) × (finish_exit released (some n, s)
        ≡ some (some (switch_to e), made_current n u s))
      × (e.next_context ≡ n)
      × (e.released_pages ≡ released)
      × IsValid (made_current n u s)
unfolding finish_exit activation
finish_exit-some s released n {u} sound none_running at_n =
    let s' = made_current n u s in
    let valid = made_current-IsValid s n sound none_running at_n in
    let (v, at_n', _) = valid.1 n refl in
    let (p, owned) = valid.0.2 n v at_n' in
    (
      record {
        next_context = n;
        next_space = p.address_space;
        next_stack_top = v.kernel_stack_top;
        released_pages = released;
      },
      rw (make_current-eq-some s n at_n, and_then, at_n', owned) refl,
      refl,
      refl,
      valid,
    )

-- In a valid state, let the current thread be the only one of its process, whose exit does not shut
-- the system down and which another thread `w` waits for. When the process exits, the switch goes
-- to `w` and hands over the pages of the process; the process and its thread are gone, the state is
-- valid, and what `w` gets out of its wait is the status of the exit.
pub prepare_exit-wakes :
    (status : ℕ) (s : SchedulerState) (c w : ThreadId) {t u : Thread} {p : Process}
    → IsValid s
    → s.current_thread ≡ some c
    → thread c s ≡ some t
    → process t.process_id s ≡ some p
    → Alone s c t
    → p.exit_action ≡ continue
    → p.waiting_thread ≡ some w
    → thread w s ≡ some u
    → w ≢ c
    → (e : ExitedThreadSwitch) × (s' : SchedulerState) × (prepare_exit_current_process status s
        ≡ some (some (switch_to e), s'))
      × (e.next_context ≡ w)
      × (e.released_pages ≡ p.owned_pages)
      × (s'.current_thread ≡ some w)
      × (thread c s' ≡ none)
      × (process t.process_id s' ≡ none)
      × IsValid s'
      × ((s2 : SchedulerState) × (finish_wait s' ≡ some (some status, s2)))
unfolding prepare_exit_current_process exit_at after_exit finish_wait take_result
prepare_exit-wakes status s c w {t} {u} {p} valid is_current at_c owned alone goes_on waits at_w
      w_c =
    let pid = t.process_id in
    let s1 = remove_exited c pid s in
    let u1 = wake (set_wait_result status u) in
    let s2 = with_thread w u1 s1 in
    let (sound1, none1) = remove_exited-IsSound s c valid is_current at_c owned alone in
    let at_w1 = slot-set_ne s.threads c w none (λ e. w_c (sym e)) ∙ at_w in
    let sound2 = with_thread-IsSound s1 w u1 sound1 at_w1 refl refl in
    let none2 : NoneRunning s2 = λ i v at_i runs. elim (thread-with s1 w i u1 at_w1 at_i) [
      | inl (_, e) ↦ absurd (cc (ap (λ x. x.state) e ∙ runs))
      | inr (_, before) ↦ none1 i v before runs
    ] in
    let at_w2 = slot-set_self s1.threads w (some u1) (lt_of_slot s1.threads w at_w1) in
    let (e, done, to, pages, valid3) = finish_exit-some s2 p.owned_pages w sound2 none2 at_w2 in
    let s3 = made_current w u1 s2 in
    let woken = update_thread-eq-some s1 w (λ x. wake (set_wait_result status x)) at_w1 in
    let at_w3 =
      slot-set_self s2.threads w (some (set_state running u1)) (lt_of_slot s2.threads w at_w2) in
    let gone1 = slot-set_self s.threads c none (lt_of_slot s.threads c at_c) in
    (
      e,
      s3,
      ap (exit_at status s) is_current
          ∙ rw (at_c, owned, goes_on, waits, and_then, after_exit, woken) done,
      to,
      pages,
      refl,
      slot-set_ne s2.threads w c (some (set_state running u1)) w_c
          ∙ slot-set_ne s1.threads w c (some u1) w_c
          ∙ gone1,
      slot-set_self s.processes pid none (lt_of_slot s.processes pid owned),
      valid3,
      (
        with_thread w (take_wait_result (set_state running u1)).1 s3,
        rw (at_w3, update_thread-eq-some s3 w (λ x. (take_wait_result x).1) at_w3, and_then) refl,
      ),
    )
