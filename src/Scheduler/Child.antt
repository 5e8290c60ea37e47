-- ===== src/Scheduler/Child.antt =====
-- The child that spawning enters, kernel/kernel/src/scheduler/state.rs, `try_create_thread` and
-- `spawn_child_process`.
use lazers.Base.{
  ℕ, zero, suc, ◌<◌, Bool, Option, none, some, List, [], ◌∷◌, ◌≡◌, refl, sym, ap, ◌∙◌, ◌⊎◌, inl,
  inr, arith,
}
use lazers.Base.Tests.{if◌then◌else◌, Option-cases}
use mathlib.Core.Path.{subst}
use lazers.Base.Lists.{length, set}
use lazers.Base.Words.{Bytes}
use lazers.Base.Text.{codes}
use lazers.Base.Results.{Result, ok, err, Result-cases, and_then, and_then-eq-some}
use lazers.Process.{
  Process, AddressSpace, OwnedPages, first_free, inherit_stdio_into, inherit_stdio_silent_into,
  inherit_cwd_into, inherit_env_into,
}
use lazers.Process.Inherit.{streams-same, inherit_cwd_into-eq, inherit_env_into-eq}
use lazers.Thread
use lazers.Thread.{Thread, ThreadId, ProcessId, ThreadStart, user, runnable}
use lazers.Scheduler.Lookup.{slot-set_self, first_free_lem}
use lazers.Scheduler.Program.{LoadedUserProgram, inherit, enter_child}
use lazers.Scheduler.State.{
  SchedulerState, slot, thread, process, try_create_thread, initial_context_for,
}

-- What a child is before it is entered: it has the program's memory and the parent's directory.
pub inherit-eq :
    (silent : Bool) (parent p q : Process)
    → inherit silent parent p ≡ some q
    → q ≡ record p { handles = q.handles; stdio = q.stdio; cwd = parent.cwd; env = q.env }
unfolding inherit
inherit-eq silent parent p q h =
    let (a, ea, ha) =
      and_then-eq-some
        (if silent then inherit_stdio_silent_into parent p else inherit_stdio_into parent p) _ h in
    let (b, eb, hb) = and_then-eq-some (inherit_cwd_into parent a) _ ha in
    elim (Result-cases (inherit_env_into parent b)) [
      | inl (c, ec) ↦
          let at_q : c ≡ q = cc (rw ec at hb) in
          let to_a = streams-same silent parent p a ea in
          let to_b = inherit_cwd_into-eq parent a b eb in
          let to_c = inherit_env_into-eq parent b c ec in
          let whole =
            sym at_q
            ∙ to_c
            ∙ ap (λ (x : Process). record x { env = c.env }) to_b
            ∙ ap (λ (x : Process). record x { cwd = parent.cwd; env = c.env }) to_a in
          subst
            (λ (x : Process).
              x ≡ record p { handles = x.handles; stdio = x.stdio; cwd = parent.cwd; env = x.env })
            (sym whole) refl
      | inr (e, ec) ↦ absurd (cc (rw ec at hb))
    ]

-- A new thread goes into a free slot, and nothing else changes.
try_create_thread-cases :
    (name : Bytes) (pid : ProcessId) (start : ThreadStart) (s : SchedulerState)
    → (try_create_thread name pid start s ≡ none)
      ⊎ ((k : ThreadId) × (v : Thread) × (try_create_thread name pid start s
            ≡ some (k, record s { threads = set s.threads k (some v) }))
          × (k < length s.threads)
          × (thread k s ≡ none)
          × (v.id ≡ k)
          × (v.process_id ≡ pid)
          × (v.start ≡ start)
          × (v.state ≡ runnable))
unfolding try_create_thread
try_create_thread-cases name pid start s = elim (Option-cases (first_free s.threads)) [
  | inl full ↦ inl (rw (full, and_then) refl)
  | inr (k, e) ↦
      let (inside, empty) = first_free_lem s.threads k e in
      let (context, top) = initial_context_for k s in
      inr (
        k,
        Thread.new k name pid start context top,
        rw (e, and_then) refl,
        inside,
        empty,
        refl,
        refl,
        refl,
        refl,
      )
]

-- Setting a slot twice, and setting an empty slot to empty.
set-undone :
    {A : Type 0} (xs : List (Option A)) (i : ℕ) (o : Option A)
    → i < length xs
    → slot xs i ≡ none
    → set (set xs i o) i none ≡ xs
set-undone [] i o h e = refl
set-undone (none ∷ xs) zero o h e = refl
set-undone (some a ∷ xs) zero o h e = absurd (cc)
set-undone (x ∷ xs) (suc i) o h e = ap (λ ys. x ∷ ys) (set-undone xs i o (omega arith) e)

-- What spawning leaves behind. A child is in a slot that was free, with the program's memory and
-- the parent's directory, and its exit is awaited by the parent; a thread that can run, in a slot
-- that was free, starts at the program's entry; all else is as before. A program that is refused
-- is handed back, and nothing has changed.
abbrev pub Spawned :
    ThreadId
    → Process
    → LoadedUserProgram
    → SchedulerState
    → Result LoadedUserProgram ProcessId × SchedulerState
    → Type 0
Spawned parent_thread parent program s (err refused, s') = (refused ≡ program) × (s' ≡ s)
Spawned parent_thread parent program s (ok i, s') =
    (process i s ≡ none)
    × ((child : Process) × (k : ThreadId) × (v : Thread) × (s' ≡ record s {
      processes = set s.processes i (some child);
      threads = set s.threads k (some v);
    })
        × (process i s' ≡ some child)
        × (child.waiting_thread ≡ some parent_thread)
        × (child.address_space ≡ program.address_space)
        × (child.owned_pages ≡ program.owned_pages)
        × (child.cwd ≡ parent.cwd)
        × (thread k s ≡ none)
        × (thread k s' ≡ some v)
        × (v.id ≡ k)
        × (v.process_id ≡ i)
        × (v.state ≡ runnable)
        × (v.start
            ≡ user (record {
              entry_point = program.entry_point;
              user_stack_top = program.user_stack_top;
            })))

pub enter_child-Spawned :
    (s : SchedulerState) (parent_thread : ThreadId) (parent child : Process)
    (program : LoadedUserProgram) (i : ProcessId)
    → i < length s.processes
    → process i s ≡ none
    → child.waiting_thread ≡ some parent_thread
    → child.address_space ≡ program.address_space
    → child.owned_pages ≡ program.owned_pages
    → child.cwd ≡ parent.cwd
    → Spawned parent_thread parent program s (enter_child i child program s)
unfolding enter_child
enter_child-Spawned s parent_thread parent child program i inside empty waits space pages cwd =
    let s1 = record s { processes = set s.processes i (some child) } in
    let start =
      user
        (record { entry_point = program.entry_point; user_stack_top = program.user_stack_top }) in
    elim (try_create_thread-cases (codes "user-child-main") i start s1) [
      | inl full ↦
          let handed : LoadedUserProgram = record program {
            address_space = child.address_space;
            owned_pages = child.owned_pages;
          } in
          let back = set-undone s.processes i (some child) inside empty in
          let done : enter_child i child program s ≡ (err handed, s) =
            rw (full, enter_child)
              (ap (λ (ps : List (Option Process)). (err handed, record s { processes = ps }))
                back) in
          subst (Spawned parent_thread parent program s) (sym done) (
            ap
                  (λ (a : AddressSpace). record program {
                    address_space = a;
                    owned_pages = child.owned_pages;
                  })
                  space
                ∙ ap (λ (pages : OwnedPages). record program { owned_pages = pages }) pages,
            refl,
          )
      | inr (k, v, e, k_ok, free, at_k, owned, starts, runs) ↦
          let done : enter_child i child program s
              ≡ (ok i, record s1 { threads = set s.threads k (some v) }) =
            rw (e, enter_child) refl in
          subst (Spawned parent_thread parent program s) (sym done) (
            empty,
            (
              child,
              k,
              v,
              refl,
              slot-set_self s.processes i (some child) inside,
              waits,
              space,
              pages,
              cwd,
              free,
              slot-set_self s.threads k (some v) k_ok,
              at_k,
              owned,
              runs,
              starts,
            ),
          )
    ]
