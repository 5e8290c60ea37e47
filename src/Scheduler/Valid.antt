-- ===== src/Scheduler/Valid.antt =====
-- What the scheduler's tables keep to, and the changes of kernel/kernel/src/scheduler/state.rs that
-- keep it: which threads exist, who owns them, and which one runs.
use lazers.Base.{true, Option, none, some, ◌≡◌, ◌≢◌, refl, sym, ap, ◌∙◌, ◌⊎◌, inl, inr, arith}
use lazers.Base.Tests.{◌==◌, Bool-cases, Option-cases}
use mathlib.Core.Path.{subst}
use lazers.Base.Lists.{length, set, length-set}
use lazers.Base.Results.{and_then}
use lazers.Process.{Process}
use lazers.Thread.{Thread, ThreadId, can_run, running, set_state}
use lazers.Scheduler.Lookup.{slot-set-cases, slot-set_self, slot-set_ne, lt_of_slot}
use lazers.Scheduler.Next.{HasThreads, next-Ready}
use lazers.Scheduler.{PreparedSwitch, prepared, make_current}
use lazers.Scheduler.State.{
  SchedulerState, thread, process, max_processes, update_thread, activation, next_runnable_thread,
  next_non_idle_runnable_thread,
}

-- Each thread belongs to a process in the table.
abbrev pub HasOwners : SchedulerState → Type 0
HasOwners s =
    (i : ThreadId) (t : Thread)
    → thread i s ≡ some t
    → (p : Process) × (process t.process_id s ≡ some p)

abbrev pub HasIdle : SchedulerState → Type 0
HasIdle s = (d : ThreadId) → s.idle_thread ≡ some d → (t : Thread) × (thread d s ≡ some t)

abbrev pub IsSound : SchedulerState → Type 0
IsSound s = HasThreads s × (length s.processes ≡ max_processes) × HasOwners s × HasIdle s

abbrev pub HasCurrent : SchedulerState → Type 0
HasCurrent s =
    (c : ThreadId)
    → s.current_thread ≡ some c
    → (t : Thread) × (thread c s ≡ some t) × (t.state ≡ running)

-- Only the current thread is in the running state.
abbrev pub OnlyCurrent : SchedulerState → Type 0
OnlyCurrent s =
    (i : ThreadId) (t : Thread)
    → thread i s ≡ some t
    → t.state ≡ running
    → s.current_thread ≡ some i

abbrev pub IsValid : SchedulerState → Type 0
IsValid s = IsSound s × HasCurrent s × OnlyCurrent s

abbrev pub NoneRunning : SchedulerState → Type 0
NoneRunning s = (i : ThreadId) (t : Thread) → thread i s ≡ some t → t.state ≢ running

-- The state with another thread in slot `c`.
abbrev pub with_thread : ThreadId → Thread → SchedulerState → SchedulerState
with_thread c u s = record s { threads = set s.threads c (some u) }

abbrev pub made_current : ThreadId → Thread → SchedulerState → SchedulerState
made_current n t s = record (with_thread n (set_state running t) s) { current_thread = some n }

pub thread-with :
    (s : SchedulerState) (c j : ThreadId) (u : Thread) {t v : Thread}
    → thread c s ≡ some t
    → thread j (with_thread c u s) ≡ some v
    → ((c ≡ j) × (u ≡ v)) ⊎ ((c ≢ j) × (thread j s ≡ some v))
thread-with s c j u at_c = slot-set-cases s.threads c j u (lt_of_slot s.threads c at_c)

-- A change of a thread that keeps its id and its process.
pub with_thread-IsSound :
    (s : SchedulerState) (c : ThreadId) (u : Thread) {t : Thread}
    → IsSound s
    → thread c s ≡ some t
    → u.id ≡ t.id
    → u.process_id ≡ t.process_id
    → IsSound (with_thread c u s)
with_thread-IsSound s c u {t} ((size, ids), processes, owners, idle) at_c same_id same_process = (
  (
    length-set s.threads c (some u) ∙ size,
    λ i v at_i. elim (thread-with s c i u at_c at_i) [
      | inl (here, e) ↦ ap (λ x. x.id) (sym e) ∙ same_id ∙ ids c t at_c ∙ here
      | inr (_, before) ↦ ids i v before
    ],
  ),
  processes,
  λ i v at_i. elim (thread-with s c i u at_c at_i) [
    | inl (here, e) ↦
        let (p, owned) = owners c t at_c in
        (p, subst (λ k. process k s ≡ some p) (sym same_process ∙ ap (λ x. x.process_id) e) owned)
    | inr (_, before) ↦ owners i v before
  ],
  λ d is_idle. elim (Bool-cases (c == d)) [
    | inl here ↦
        let e : c ≡ d = ground arith in
        (
          u,
          subst (λ k. thread k (with_thread c u s) ≡ some u) e
              (slot-set_self s.threads c (some u) (lt_of_slot s.threads c at_c)),
        )
    | inr there ↦
        let (v, at_d) = idle d is_idle in
        (v, slot-set_ne s.threads c d (some u) (ground arith) ∙ at_d)
  ],
)

pub update_thread-eq-some :
    (s : SchedulerState) (c : ThreadId) (f : Thread → Thread) {t : Thread}
    → thread c s ≡ some t
    → update_thread c f s ≡ some (with_thread c (f t) s)
unfolding update_thread
update_thread-eq-some s c f h = rw (h, and_then) refl

pub make_current-eq-some :
    (s : SchedulerState) (n : ThreadId) {t : Thread}
    → thread n s ≡ some t
    → make_current n s ≡ some (made_current n t s)
unfolding make_current
make_current-eq-some s n h = rw (update_thread-eq-some s n (set_state running) h, and_then) refl

-- If no thread runs, any thread can be made the current one.
pub made_current-IsValid :
    (s : SchedulerState) (n : ThreadId) {t : Thread}
    → IsSound s
    → NoneRunning s
    → thread n s ≡ some t
    → IsValid (made_current n t s)
made_current-IsValid s n {t} sound none_running at_n =
    let u = set_state running t in
    (
      with_thread-IsSound s n u sound at_n refl refl,
      λ c is_current.
          let e : n ≡ c = cc in
          (
            u,
            subst (λ k. thread k (with_thread n u s) ≡ some u) e
                (slot-set_self s.threads n (some u) (lt_of_slot s.threads n at_n)),
            refl,
          ),
      λ i v at_i runs. elim (thread-with s n i u at_n at_i) [
        | inl (here, _) ↦ ap some here
        | inr (_, before) ↦ absurd (none_running i v before runs)
      ],
    )

-- If a thread that is the only one to run stops, none runs.
pub with_thread-NoneRunning :
    (s : SchedulerState) (c : ThreadId) (u : Thread) {t : Thread}
    → OnlyCurrent s
    → s.current_thread ≡ some c
    → thread c s ≡ some t
    → u.state ≢ running
    → NoneRunning (with_thread c u s)
with_thread-NoneRunning s c u only is_current at_c stopped i v at_i runs =
    elim (thread-with s c i u at_c at_i) [
      | inl (_, e) ↦ stopped (ap (λ x. x.state) e ∙ runs)
      | inr (other, before) ↦ let now = only i v before runs in let e : c ≡ i = cc in other e
    ]

-- The switch between two threads that exist, and to the second one's stack and address space.
pub prepared-total :
    (s : SchedulerState) (c n : ThreadId) {t u : Thread}
    → IsSound s
    → thread c s ≡ some t
    → thread n s ≡ some u
    → (w : PreparedSwitch) × (prepared c n s ≡ some w)
      × (w.current_context ≡ c)
      × (w.next_context ≡ n)
      × (w.next_stack_top ≡ u.kernel_stack_top)
unfolding prepared activation
prepared-total s c n {t} {u} (_, _, owners, _) at_c at_n =
    let (p, owned) = owners n u at_n in
    (
      record {
        current_context = c;
        next_context = n;
        next_space = p.address_space;
        next_stack_top = u.kernel_stack_top;
      },
      rw (at_c, at_n, owned, and_then) refl,
      refl,
      refl,
      refl,
    )

-- The search does not panic, and what it finds exists and can run.
pub next_runnable_thread-total :
    (s : SchedulerState) (c : Option ThreadId)
    → IsSound s
    → (next_runnable_thread c s ≡ some none)
      ⊎ ((n : ThreadId) × (t : Thread) × (next_runnable_thread c s ≡ some (some n))
          × (thread n s ≡ some t)
          × (can_run t.state ≡ true))
unfolding next_runnable_thread
next_runnable_thread-total s c (threads, _, _, idle) =
    elim (Option-cases (next_non_idle_runnable_thread c s)) [
      | inr (n, e) ↦
          let (t, at_n, runs, _) = (next-Ready s threads c n e).0 in
          inr (n, t, rw (e, next_runnable_thread) refl, at_n, runs)
      | inl nothing ↦ elim (Option-cases s.idle_thread) [
        | inl no_idle ↦ inl (rw (nothing, next_runnable_thread, no_idle) refl)
        | inr (d, e) ↦
            let (t, at_d) = idle d e in
            elim (Bool-cases (can_run t.state)) [
              | inl runs ↦ inr (
                d,
                t,
                rw (nothing, next_runnable_thread, e, at_d, runs, and_then) refl,
                at_d,
                runs,
              )
              | inr stopped ↦
                  inl (rw (nothing, next_runnable_thread, e, at_d, stopped, and_then) refl)
            ]
      ]
    ]
