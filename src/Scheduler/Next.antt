-- ===== src/Scheduler/Next.antt =====
-- The search for the next thread: the round robin of
-- kernel/kernel/src/scheduler/state.rs, next_non_idle_runnable_thread.
use lazers.Base.{
  ℕ, zero, suc, ◌+◌, ◌-◌, ◌%◌, ◌≤◌, ◌<◌, true, false, Option, none, some, ◌≡◌, ◌≢◌, refl, sym, ap,
  ◌∙◌, ◌⊎◌, inl, inr, arith,
}
use lazers.Base.Tests.{ltb, ◌==◌, Bool-cases, Option-cases}
use mathlib.Core.Path.{subst}
use lazers.Base.Lists.{length}
use lazers.Scheduler.Lookup.{lt_of_slot}
use lazers.Thread.{Thread, ThreadId, can_run}
use lazers.Scheduler.State.{
  SchedulerState, slot, thread, max_threads, candidate, scan_threads, start_after,
  next_non_idle_runnable_thread,
}

-- Thread `i` can run, and it is not the idle thread.
abbrev pub Ready : SchedulerState → ThreadId → Type 0
Ready s i =
    (t : Thread) × (thread i s ≡ some t) × (can_run t.state ≡ true) × (s.idle_thread ≢ some i)

-- The table has its twelve slots, and each thread is in the slot of its id.
abbrev pub HasThreads : SchedulerState → Type 0
HasThreads s =
    (length s.threads ≡ max_threads)
    × ((i : ThreadId) (t : Thread) → thread i s ≡ some t → t.id ≡ i)

-- How many slots are passed over on the way from the slot after `c` to slot `i`, around the table.
abbrev pub distance : ThreadId → ThreadId → ℕ
distance c i = (i + 11 - c) % 12

candidate-some :
    (idle : Option ThreadId) (o : Option Thread) {r : ThreadId}
    → candidate idle o ≡ some r
    → (t : Thread) × (o ≡ some t) × (t.id ≡ r) × (can_run t.state ≡ true) × (idle ≢ some r)
unfolding candidate
candidate-some idle none h = absurd (cc)
candidate-some none (some t) h = elim (Bool-cases (can_run t.state)) [
  | inl e ↦ (t, refl, cc (rw e at h), e, λ k. absurd (cc))
  | inr e ↦ absurd (cc (rw e at h))
]
candidate-some (some i) (some t) {r} h = elim (Bool-cases (i == t.id)) [
  | inl same ↦ absurd (cc (rw same at h))
  | inr other ↦ elim (Bool-cases (can_run t.state)) [
    | inl e ↦
        let at_r : t.id ≡ r = cc (rw (other, e) at h) in
        (t, refl, at_r, e, λ k. let i_r : i ≡ r = cc in ground arith)
    | inr e ↦ absurd (cc (rw (other, e) at h))
  ]
]

candidate-Ready :
    (s : SchedulerState)
    → HasThreads s
    → (i : ThreadId) → Ready s i
    → candidate s.idle_thread (thread i s) ≡ some i
unfolding candidate
candidate-Ready s (_, ids) i (t, at_i, runs, not_idle) =
    let id = ids i t at_i in
    rw at_i (elim (Option-cases s.idle_thread) [
      | inl none_idle ↦ rw (none_idle, runs, id) refl
      | inr (j, e) ↦
          let other : (j == t.id) ≡ false = elim (Bool-cases (j == t.id)) [
            | inl same ↦
                let j_i : j ≡ t.id = ground arith in absurd (not_idle (e ∙ ap some (j_i ∙ id)))
            | inr differs ↦ differs
          ] in
          rw (e, other, runs, id) refl
    ])

-- The slot that a scan looks at in a round.
abbrev probe : SchedulerState → ℕ → ℕ → Option ThreadId
probe s start m = candidate s.idle_thread (slot s.threads ((start + m) % length s.threads))

scan-some :
    (s : SchedulerState) (start left offset : ℕ) {r : ThreadId}
    → scan_threads s.threads s.idle_thread start left offset ≡ some r
    → (k : ℕ) × (offset ≤ k)
      × (k < offset + left)
      × (probe s start k ≡ some r)
      × ((m : ℕ) → offset ≤ m → m < k → probe s start m ≡ none)
unfolding scan_threads
scan-some s start zero offset h = absurd (cc)
scan-some s start (suc left) offset {r} h = elim (Option-cases (probe s start offset)) [
  | inl nothing ↦
      let (k, low, high, found, before) =
        scan-some s start left (suc offset) (rw (nothing, scan_threads) at h) in
      (
        k,
        omega arith,
        omega arith,
        found,
        λ m m_low m_high. elim (Bool-cases (m == offset)) [
          | inl here ↦ let e : m ≡ offset = ground arith in rw e nothing
          | inr there ↦ before m (ground arith) m_high
        ],
      )
  | inr (q, e) ↦ (
    offset,
    omega arith,
    omega arith,
    e ∙ rw (e, scan_threads) at h,
    λ m m_low m_high. absurd (omega arith),
  )
]

scan-none :
    (s : SchedulerState) (start left offset m : ℕ)
    → scan_threads s.threads s.idle_thread start left offset ≡ none
    → offset ≤ m
    → m < offset + left
    → probe s start m ≡ none
unfolding scan_threads
scan-none s start zero offset m h low high = absurd (omega arith)
scan-none s start (suc left) offset m h low high = elim (Option-cases (probe s start offset)) [
  | inl nothing ↦ elim (Bool-cases (m == offset)) [
    | inl here ↦ let e : m ≡ offset = ground arith in rw e nothing
    | inr there ↦
        scan-none s start left (suc offset) m (rw (nothing, scan_threads) at h) (ground arith)
          (omega arith)
  ]
  | inr (q, e) ↦ absurd (cc (rw (e, scan_threads) at h))
]

pub lt_of_thread :
    (s : SchedulerState) → HasThreads s → (i : ThreadId) {t : Thread} → thread i s ≡ some t → i < 12
lt_of_thread s (size, _) i h = subst (λ n. i < n) size (lt_of_slot s.threads i h)

-- If the table has its slots and each thread is in the slot of its id, what the search finds after
-- `c` is a thread that can run, it is not the idle one, and its id is in range.
pub next-Ready :
    (s : SchedulerState)
    → HasThreads s
    → (c : Option ThreadId) (r : ThreadId) → next_non_idle_runnable_thread c s ≡ some r
    → Ready s r × (r < 12)
unfolding next_non_idle_runnable_thread
next-Ready s valid c r h =
    let (k, _, _, found, _) = scan-some s _ (length s.threads) 0 h in
    let (t, at_k, id, runs, not_idle) = candidate-some s.idle_thread _ found in
    let same = valid.1 _ t at_k in
    let at_r : thread r s ≡ some t = subst (λ j. thread j s ≡ some t) (sym same ∙ id) at_k in
    ((t, at_r, runs, not_idle), lt_of_thread s valid r at_r)

around : (c i : ℕ) → i < 12 → c < 12 → (start_after (some c) 12 + distance c i) % 12 ≡ i
around c i h k = omega arith

around-distance : (c k : ℕ) → k < 12 → c < 12 → distance c ((start_after (some c) 12 + k) % 12) ≡ k
around-distance c k h hc = omega arith

nearer :
    (c r i : ℕ)
    → c < 12
    → r < 12
    → i < 12
    → distance c r < distance c i
    → distance r i < distance c i
nearer c r i hc hr hi h = omega arith

same_distance : (c r i : ℕ) → c < 12 → r < 12 → i < 12 → distance c r ≡ distance c i → r ≡ i
same_distance c r i hc hr hi h = omega arith

-- A thread that is ready is probed in the round of its distance.
probe-Ready :
    (s : SchedulerState)
    → HasThreads s
    → (c i : ThreadId) → c < 12
    → Ready s i
    → probe s (start_after (some c) (length s.threads)) (distance c i) ≡ some i
probe-Ready s valid c i c_ok ready =
    let i_ok = lt_of_thread s valid i ready.1 in
    rw (valid.0, around c i i_ok c_ok) (candidate-Ready s valid i ready)

-- A thread that is found is at the distance of its round.
distance-probe :
    (s : SchedulerState)
    → HasThreads s
    → (c r : ThreadId) (k : ℕ) → c < 12
    → k < 12
    → probe s (start_after (some c) (length s.threads)) k ≡ some r
    → distance c r ≡ k
distance-probe s valid c r k c_ok k_ok h =
    let (t, at_k, id, _, _) = candidate-some s.idle_thread _ h in
    let same = valid.1 _ t at_k in
    let at_r : (start_after (some c) 12 + k) % 12 ≡ r = rw valid.0 at (sym same ∙ id) in
    subst (λ j. distance c j ≡ k) at_r (around-distance c k k_ok c_ok)

-- If the table has its slots and each thread is in the slot of its id, and if `i` is ready, the
-- search after `c` finds a thread that is ready and at most as far from `c` as `i` is; it is `i`
-- itself, or `i` is nearer to it than to `c`.
pub next-nearest :
    (s : SchedulerState)
    → HasThreads s
    → (c i : ThreadId) → c < 12
    → Ready s i
    → (r : ThreadId) × (next_non_idle_runnable_thread (some c) s ≡ some r)
      × Ready s r
      × (distance c r ≤ distance c i)
      × ((r ≡ i) ⊎ (distance r i < distance c i))
unfolding next_non_idle_runnable_thread
next-nearest s valid c i c_ok ready =
    let start = start_after (some c) (length s.threads) in
    let at_i = probe-Ready s valid c i c_ok ready in
    let i_ok = lt_of_thread s valid i ready.1 in
    let d_ok : distance c i < length s.threads = rw valid.0 (omega arith) in
    elim (Option-cases (next_non_idle_runnable_thread (some c) s)) [
      | inl nothing ↦ absurd (
          cc (
            at_i,
            scan-none s start (length s.threads) 0 (distance c i) nothing (omega arith)
                (omega (arith, d_ok)),
          ))
      | inr (r, e) ↦
          let (is_ready, r_ok) = next-Ready s valid (some c) r e in
          let (k, low, high, found, before) = scan-some s start (length s.threads) 0 e in
          let k_ok : k < 12 = subst (λ n. k < n) valid.0 (omega (arith, high)) in
          let far = distance-probe s valid c r k c_ok k_ok found in
          elim (Bool-cases (ltb (distance c i) k)) [
            | inl beyond ↦ absurd (cc (at_i, before (distance c i) (omega arith) (ground arith)))
            | inr within ↦ (
              r,
              e,
              is_ready,
              ground (arith, far),
              elim (Bool-cases (distance c r == distance c i)) [
                | inl equal ↦ inl (same_distance c r i c_ok r_ok i_ok (ground arith))
                | inr other ↦ inr (nearer c r i c_ok r_ok i_ok (ground (arith, far)))
              ],
            )
          ]
    ]
