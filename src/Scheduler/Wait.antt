-- ===== src/Scheduler/Wait.antt =====
-- Waiting for a child, prepare_wait_for_child of kernel/kernel/src/scheduler/state.rs.
use lazers.Base.{some, ◌≡◌, ◌≢◌, refl, ap, ◌∙◌}
use mathlib.Core.Path.{subst}
use lazers.Base.Results.{and_then}
use lazers.Thread.{
  Thread, ThreadId, ProcessId, can_run, running, blocked, waiting_for_child, set_state,
  block_for_child,
}
use lazers.Scheduler.Lookup.{slot-set_self, slot-set_ne, lt_of_slot}
use lazers.Scheduler.Next.{Ready, lt_of_thread, next-nearest}
use lazers.Scheduler.Valid.{
  IsValid, with_thread, with_thread-IsSound, update_thread-eq-some, made_current,
}
use lazers.Scheduler.Switch.{handover}
use lazers.Scheduler.{PreparedSwitch, prepare_wait_for_child, wait_at, wait_to}
use lazers.Scheduler.State.{SchedulerState, thread, next_runnable_thread}

-- In a valid state with another thread that is ready, let the current thread `c` wait for a child. It
-- is then blocked on that child, the switch goes from it to a thread other than itself, and the state
-- is valid.
pub prepare_wait-blocks :
    (child : ProcessId) (s : SchedulerState)
    → IsValid s
    → (c i : ThreadId) → s.current_thread ≡ some c
    → Ready s i
    → c ≢ i
    → (r : ThreadId) × (w : PreparedSwitch) × (s' : SchedulerState) × (u : Thread)
      × (prepare_wait_for_child child s ≡ some (some w, s'))
      × (w.current_context ≡ c)
      × (w.next_context ≡ r)
      × (r ≢ c)
      × IsValid s'
      × (s'.current_thread ≡ some r)
      × (thread c s' ≡ some u)
      × (u.state ≡ blocked)
      × (u.block_reason ≡ waiting_for_child child)
unfolding prepare_wait_for_child wait_at wait_to next_runnable_thread
prepare_wait-blocks child s valid c i is_current (ti, at_i, runs, not_idle) c_i =
    let (t, at_c, _) = valid.1 c is_current in
    let u = block_for_child child t in
    let s1 = with_thread c u s in
    let c_range = lt_of_slot s.threads c at_c in
    let at_c1 = slot-set_self s.threads c (some u) c_range in
    let sound1 = with_thread-IsSound s c u valid.0 at_c refl refl in
    let ready1 : Ready s1 i = (ti, slot-set_ne s.threads c i (some u) c_i ∙ at_i, runs, not_idle) in
    let c_ok = lt_of_thread s valid.0.0 c at_c in
    let (r, e, (v, at_r, r_runs, _), _, _) = next-nearest s1 sound1.0 c i c_ok ready1 in
    let r_c : r ≢ c = λ same.
      let at_c2 = subst (λ k. thread k s1 ≡ some v) same at_r in
      let u_v : u ≡ v = cc in absurd (cc (ap (λ x. can_run x.state) u_v, r_runs)) in
    let found : next_runnable_thread (some c) s1 ≡ some (some r) =
      rw (e, next_runnable_thread) refl in
    let (w, done, from, to, after) =
      handover s c r u valid is_current at_c refl refl (λ k. absurd (cc)) at_r in
    (
      r,
      w,
      made_current r v s1,
      u,
      ap (wait_at child s) is_current
          ∙ rw (update_thread-eq-some s c (block_for_child child) at_c, and_then, found) done,
      from,
      to,
      r_c,
      after,
      refl,
      slot-set_ne s1.threads r c (some (set_state running v)) r_c ∙ at_c1,
      refl,
      refl,
    )
