-- ===== src/Scheduler/Fair.antt =====
-- Runs of threads that only yield, kernel/kernel/src/scheduler/core.rs, yield_now.
use lazers.Base.{ℕ, zero, suc, ◌≤◌, ◌<◌, Option, some, ◌≡◌, refl, ap, ◌∙◌, inl, inr, arith}
use lazers.Base.Tests.{◌==◌, Bool-cases}
use lazers.Base.Results.{and_then}
use lazers.Thread.{ThreadId}
use lazers.Scheduler.Next.{Ready, distance}
use lazers.Scheduler.Valid.{IsValid}
use lazers.Scheduler.Switch.{yield_now-nearer}
use lazers.Scheduler.{yield_now}
use lazers.Scheduler.State.{SchedulerState}

-- The state after a number of yields, each by the thread that is then the current one.
abbrev pub yields : ℕ → SchedulerState → Option SchedulerState
yields zero s = some s
yields (suc n) s = and_then (yield_now s) λ r. yields n r.1

-- `i` runs after at most as many yields as it is far from the current thread.
runs_within :
    (d : ℕ) (s : SchedulerState)
    → IsValid s
    → (c i : ThreadId) → s.current_thread ≡ some c
    → Ready s i
    → distance c i < d
    → (n : ℕ) × (s' : SchedulerState) × (n ≤ d)
      × (yields n s ≡ some s')
      × IsValid s'
      × (s'.current_thread ≡ some i)
runs_within zero s valid c i is_current ready h = absurd (omega arith)
runs_within (suc d) s valid c i is_current ready h = elim (Bool-cases (c == i)) [
  | inl here ↦
      let e : c ≡ i = ground arith in (0, s, omega arith, refl, valid, is_current ∙ ap some e)
  | inr other ↦
      let (r, w, s', done, _, _, valid', at_r, next) =
        yield_now-nearer s valid c i is_current ready (ground arith) in
      elim next [
        | inl here ↦ (1, s', omega arith, rw (done, and_then) refl, valid', at_r ∙ ap some here)
        | inr (nearer, ready') ↦
            let (n, s2, bound, e, valid2, runs) =
              runs_within d s' valid' r i at_r ready' (omega arith) in
            (suc n, s2, omega arith, rw (done, and_then) e, valid2, runs)
      ]
]

-- In a valid state, a thread that is ready becomes the current one after at most twelve yields,
-- whoever the threads are that yield, without a panic and with a valid state at the end.
pub yields-reach :
    (s : SchedulerState)
    → IsValid s
    → (c i : ThreadId) → s.current_thread ≡ some c
    → Ready s i
    → (n : ℕ) × (s' : SchedulerState) × (n ≤ 12)
      × (yields n s ≡ some s')
      × IsValid s'
      × (s'.current_thread ≡ some i)
yields-reach s valid c i is_current ready =
    let near : distance c i < 12 = omega arith in runs_within 12 s valid c i is_current ready near
