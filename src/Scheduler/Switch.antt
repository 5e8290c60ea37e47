-- ===== src/Scheduler/Switch.antt =====
-- Giving up the processor: yield_now of kernel/kernel/src/scheduler/core.rs and the two switches of
-- kernel/kernel/src/scheduler/state.rs that keep the current thread.
use lazers.Base.{
  ℕ, ◌≤◌, ◌<◌, false, Option, none, some, ◌≡◌, ◌≢◌, refl, sym, ap, ◌∙◌, ◌⊎◌, inl, inr, arith,
}
use lazers.Base.Tests.{◌==◌, Bool-cases, Option-cases}
use mathlib.Core.Path.{subst}
use lazers.Base.Lists.{set}
use lazers.Base.Results.{and_then}
use lazers.Thread.{Thread, ThreadId, running, runnable, set_state}
use lazers.Scheduler.Lookup.{slot-set, slot-set_self, slot-set_ne, lt_of_slot}
use lazers.Scheduler.Next.{Ready, distance, lt_of_thread, next-nearest}
use lazers.Scheduler.Valid.{
  IsValid, with_thread, with_thread-IsSound, with_thread-NoneRunning, update_thread-eq-some,
  make_current-eq-some, made_current, made_current-IsValid, prepared-total,
  next_runnable_thread-total,
}
use lazers.Scheduler.{PreparedSwitch, prepare_switch, yield_now, switch_at, switch_from, hand_over}
use lazers.Scheduler.State.{SchedulerState, thread, next_runnable_thread}

-- A thread that exists still does after a change of one.
thread-with-some :
    (s : SchedulerState) (c n : ThreadId) (u : Thread) {t v : Thread}
    → thread c s ≡ some t
    → thread n s ≡ some v
    → (w : Thread) × (thread n (with_thread c u s) ≡ some w)
thread-with-some s c n u {t} {v} at_c at_n = elim (Bool-cases (c == n)) [
  | inl same ↦ (u, rw same at (slot-set s.threads c n (some u) (lt_of_slot s.threads c at_c)))
  | inr other ↦ (v, slot-set_ne s.threads c n (some u) (ground arith) ∙ at_n)
]

-- The current thread leaves the running state and `n` enters it: what both switches do.
pub handover :
    (s : SchedulerState) (c n : ThreadId) (u : Thread) {t v : Thread}
    → IsValid s
    → s.current_thread ≡ some c
    → thread c s ≡ some t
    → u.id ≡ t.id
    → u.process_id ≡ t.process_id
    → u.state ≢ running
    → thread n (with_thread c u s) ≡ some v
    → (w : PreparedSwitch) × (hand_over c n (with_thread c u s)
        ≡ some (some w, made_current n v (with_thread c u s)))
      × (w.current_context ≡ c)
      × (w.next_context ≡ n)
      × IsValid (made_current n v (with_thread c u s))
unfolding hand_over
handover s c n u {t} {v} (sound, current, only) is_current at_c same_id same_process stopped at_n =
    let s1 = with_thread c u s in
    let s2 = made_current n v s1 in
    let sound1 = with_thread-IsSound s c u sound at_c same_id same_process in
    let none_running = with_thread-NoneRunning s c u only is_current at_c stopped in
    let valid = made_current-IsValid s1 n sound1 none_running at_n in
    let in_table = slot-set_self s.threads c (some u) (lt_of_slot s.threads c at_c) in
    let (_, still) = thread-with-some s1 n c (set_state running v) at_n in_table in
    let (_, at_n2, _) = valid.1 n refl in
    let (w, e, from, to, _) = prepared-total s2 c n valid.0 still at_n2 in
    (w, rw (make_current-eq-some s1 n at_n, and_then, e) refl, from, to, valid)

-- A yield to a thread that was found.
yield_to :
    (s : SchedulerState) (c n : ThreadId) {t v : Thread}
    → IsValid s
    → s.current_thread ≡ some c
    → thread c s ≡ some t
    → next_runnable_thread (some c) s ≡ some (some n)
    → thread n s ≡ some v
    → n ≢ c
    → (w : PreparedSwitch) × (yield_now s
        ≡ some (some w, made_current n v (with_thread c (set_state runnable t) s)))
      × (w.current_context ≡ c)
      × (w.next_context ≡ n)
      × IsValid (made_current n v (with_thread c (set_state runnable t) s))
unfolding yield_now prepare_switch switch_at switch_from
yield_to s c n {t} valid is_current at_c found at_n other =
    let u = set_state runnable t in
    let differs : (n == c) ≡ false = ground (arith, other) in
    let at_n1 = slot-set_ne s.threads c n (some u) (λ e. other (sym e)) ∙ at_n in
    let (w, e, from, to, after) =
      handover s c n u valid is_current at_c refl refl (λ k. absurd (cc)) at_n1 in
    let stops = update_thread-eq-some s c (set_state runnable) at_c in
    (w, ap (switch_at false s) is_current ∙ rw (found, and_then, differs, stops) e, from, to, after)

-- Yielding in a valid state does not panic and leaves a valid state: one thread runs, it is the
-- current one, and every thread is in its slot and has its process.
pub yield_now-IsValid :
    (s : SchedulerState)
    → IsValid s
    → (r : Option PreparedSwitch) × (s' : SchedulerState) × (yield_now s ≡ some (r, s'))
      × IsValid s'
unfolding yield_now prepare_switch switch_at switch_from
yield_now-IsValid s valid = elim (Option-cases s.current_thread) [
  | inl idle ↦ (none, s, ap (switch_at false s) idle, valid)
  | inr (c, is_current) ↦
      let (t, at_c, _) = valid.1 c is_current in
      elim (next_runnable_thread-total s (some c) valid.0) [
        | inl nothing ↦
            (none, s, ap (switch_at false s) is_current ∙ rw (nothing, and_then) refl, valid)
        | inr (n, v, found, at_n, _) ↦ elim (Bool-cases (n == c)) [
          | inl same ↦
              (none, s, ap (switch_at false s) is_current ∙ rw (found, and_then, same) refl, valid)
          | inr other ↦
              let (w, e, _, _, after) =
                yield_to s c n valid is_current at_c found at_n (ground arith) in
              (some w, made_current n v (with_thread c (set_state runnable t) s), e, after)
        ]
      ]
]

-- A thread is as far from itself as can be.
full : (c i : ℕ) → c < 12 → i < 12 → distance c c ≤ distance c i → c ≡ i
full c i hc hi h = omega arith

-- A thread that neither stops nor starts stays ready.
Ready-kept :
    (s : SchedulerState) (c n i : ThreadId) (u v : Thread)
    → c ≢ i
    → n ≢ i
    → Ready s i
    → Ready (made_current n v (with_thread c u s)) i
Ready-kept s c n i u v c_i n_i (t, at_i, runs, not_idle) = (
  t,
  slot-set_ne (set s.threads c (some u)) n i (some (set_state running v)) n_i
      ∙ slot-set_ne s.threads c i (some u) c_i
      ∙ at_i,
  runs,
  not_idle,
)

-- In a valid state, let `i` be another thread that is ready. A yield then switches away from the
-- current thread `c` to a thread that is `i` itself or one from which `i` is nearer than it was from
-- `c`; in the latter case `i` is still ready.
pub yield_now-nearer :
    (s : SchedulerState)
    → IsValid s
    → (c i : ThreadId) → s.current_thread ≡ some c
    → Ready s i
    → c ≢ i
    → (r : ThreadId) × (w : PreparedSwitch) × (s' : SchedulerState) × (yield_now s
        ≡ some (some w, s'))
      × (w.current_context ≡ c)
      × (w.next_context ≡ r)
      × IsValid s'
      × (s'.current_thread ≡ some r)
      × ((r ≡ i) ⊎ ((distance r i < distance c i) × Ready s' i))
unfolding next_runnable_thread
yield_now-nearer s valid c i is_current ready c_i =
    let (t, at_c, _) = valid.1 c is_current in
    let threads = valid.0.0 in
    let c_ok = lt_of_thread s threads c at_c in
    let i_ok = lt_of_thread s threads i ready.1 in
    let (r, e, (v, at_r, _, _), near, arrived) = next-nearest s threads c i c_ok ready in
    let r_c : r ≢ c = λ e.
      let same = subst (λ k. distance c k ≤ distance c i) e near in c_i (full c i c_ok i_ok same) in
    let found : next_runnable_thread (some c) s ≡ some (some r) =
      rw (e, next_runnable_thread) refl in
    let (w, done, from, to, after) = yield_to s c r valid is_current at_c found at_r r_c in
    (
      r,
      w,
      _,
      done,
      from,
      to,
      after,
      refl,
      elim (Bool-cases (r == i)) [
        | inl here ↦ inl (ground arith)
        | inr other ↦
            let r_i : r ≢ i = ground arith in
            elim arrived [
              | inl here ↦ inl here
              | inr nearer ↦ inr (nearer, Ready-kept s c r i (set_state runnable t) v c_i r_i ready)
            ]
      ],
    )
