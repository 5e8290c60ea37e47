-- ===== src/Scheduler/Spawn.antt =====
-- Starting a child, kernel/kernel/src/scheduler/state.rs, `spawn_child_process`.
use lazers.Base.{ℕ, ◌<◌, Bool, none, some, ◌≡◌, refl, sym, ap, ◌∙◌, inl, inr}
use lazers.Base.Tests.{Option-cases}
use mathlib.Core.Path.{subst}
use lazers.Base.Lists.{length, set, length-set}
use lazers.Base.Text.{codes}
use lazers.Base.Results.{Result, ok, err, and_then}
use lazers.Process
use lazers.Process.{
  Process, AddressSpace, OwnedPages, continue, first_free, inherit_stdio_into,
  inherit_stdio_silent_into, inherit_cwd_into, inherit_env_into,
}
use lazers.Thread.{Thread, ThreadId, ProcessId}
use lazers.Scheduler.Lookup.{slot-set-cases, slot-set_self, slot-set_ne, lt_of_slot, first_free_lem}
use lazers.Scheduler.Valid.{IsSound}
use lazers.Scheduler.Program.{LoadedUserProgram, inherit, enter_child, spawn_child_process}
use lazers.Scheduler.State.{SchedulerState, slot, thread, process}
use lazers.Scheduler.Child.{inherit-eq, Spawned, enter_child-Spawned}

-- A child that is entered has its process: the tables stay sound.
entered-IsSound :
    (s : SchedulerState) (i k : ℕ) (child : Process) (v : Thread)
    → IsSound s
    → process i s ≡ none
    → i < length s.processes
    → thread k s ≡ none
    → k < length s.threads
    → v.id ≡ k
    → v.process_id ≡ i
    → IsSound (record s {
      processes = set s.processes i (some child);
      threads = set s.threads k (some v);
    })
entered-IsSound s i k child v ((size, ids), processes, owners, idle) free_i i_ok free_k k_ok at_k
      owned =
    (
      (
        length-set s.threads k (some v) ∙ size,
        λ j t at_j. elim (slot-set-cases s.threads k j v k_ok at_j) [
          | inl (here, e) ↦ ap (λ x. x.id) (sym e) ∙ at_k ∙ here
          | inr (_, before) ↦ ids j t before
        ],
      ),
      length-set s.processes i (some child) ∙ processes,
      λ j t at_j. elim (slot-set-cases s.threads k j v k_ok at_j) [
        | inl (_, e) ↦ (
          child,
          ap (slot (set s.processes i (some child))) (ap (λ x. x.process_id) (sym e) ∙ owned)
              ∙ slot-set_self s.processes i (some child) i_ok,
        )
        | inr (_, before) ↦
            let (p, has) = owners j t before in
            (
              p,
              slot-set_ne s.processes i t.process_id (some child)
                    (λ e. absurd (cc (e, has, free_i)))
                  ∙ has,
            )
      ],
      λ d is_idle.
          let (t, at_d) = idle d is_idle in
          (t, slot-set_ne s.threads k d (some v) (λ e. absurd (cc (e, free_k, at_d))) ∙ at_d),
    )

-- So spawning leaves the tables sound.
Spawned-IsSound :
    (s : SchedulerState) (parent_thread : ThreadId) (parent : Process) (program : LoadedUserProgram)
    (r : Result LoadedUserProgram ProcessId × SchedulerState)
    → IsSound s
    → Spawned parent_thread parent program s r
    → IsSound r.1
Spawned-IsSound s parent_thread parent program (err _, s') sound (_, same) =
    subst IsSound (sym same) sound
Spawned-IsSound s parent_thread parent program (ok i, s') sound
      (free_i, (child, k, v, e, at_i, _, _, _, _, free_k, at_v, at_k, owned, _, _)) =
    let ps =
      ap (λ (x : SchedulerState). length x.processes) e ∙ length-set s.processes i (some child) in
    let ts = ap (λ (x : SchedulerState). length x.threads) e ∙ length-set s.threads k (some v) in
    let i_ok = subst (λ n. i < n) ps (lt_of_slot s'.processes i at_i) in
    let k_ok = subst (λ n. k < n) ts (lt_of_slot s'.threads k at_v) in
    subst IsSound (sym e) (entered-IsSound s i k child v sound free_i i_ok free_k k_ok at_k owned)

-- In a sound state, spawning by a thread that exists does not panic: it starts a child as
-- `Spawned` says or refuses it, and the state is sound again.
pub spawn_child_process-Spawned :
    (s : SchedulerState) (parent_thread : ThreadId) (program : LoadedUserProgram) (silent : Bool)
    {t : Thread} {parent : Process}
    → IsSound s
    → thread parent_thread s ≡ some t
    → process t.process_id s ≡ some parent
    → (r : Result LoadedUserProgram ProcessId × SchedulerState) × (spawn_child_process parent_thread
          program silent s
        ≡ some r)
      × Spawned parent_thread parent program s r
      × IsSound r.1
unfolding spawn_child_process
spawn_child_process-Spawned s parent_thread program silent {t} {parent} sound at_t owned =
    elim (Option-cases (first_free s.processes)) [
      | inl full ↦ ((err program, s), rw (at_t, and_then, full) refl, (refl, refl), sound)
      | inr (i, e) ↦
          let (i_ok, empty) = first_free_lem s.processes i e in
          let fresh =
            Process.new i (codes "user-child") program.address_space program.owned_pages continue in
          elim (Option-cases (inherit silent parent fresh)) [
            | inl refused ↦
                ((err program, s), rw (at_t, and_then, e, owned, refused) refl, (refl, refl), sound)
            | inr (child, taken) ↦
                let same = inherit-eq silent parent fresh child taken in
                let waiting : Process = record child { waiting_thread = some parent_thread } in
                let spawned =
                  enter_child-Spawned s parent_thread parent waiting program i i_ok empty refl
                    (ap (λ x. x.address_space) same) (ap (λ x. x.owned_pages) same)
                    (ap (λ x. x.cwd) same) in
                let r = enter_child i waiting program s in
                (
                  r,
                  rw (at_t, and_then, e, owned, taken) refl,
                  spawned,
                  Spawned-IsSound s parent_thread parent program r sound spawned,
                )
          ]
    ]
