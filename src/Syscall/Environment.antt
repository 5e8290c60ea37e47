-- ===== src/Syscall/Environment.antt =====
-- A variable that one system call sets is what the next one reads (kernel/kernel/src/syscall.rs,
-- kernel/kernel/src/scheduler/services.rs).
use lazers.Base.{
  ℕ, suc, ◌≤◌, true, false, Option, none, some, [], ◌∷◌, ◌++◌, ◌≡◌, refl, sym, ap, ◌∙◌, inl, arith,
}
use lazers.Base.Tests.{ltb, if◌then◌else◌, ◌==◌}
use lazers.Base.Lists.{length, drop}
use lazers.Base.Words.{Bytes}
use lazers.Base.Results.{Result, ok, err, and_then, and_then-eq-some}
use lazers.Base.Text.{equal_self}
use mathlib.Core.Path.{subst}
use lazers.Scheduler.Lookup.{slot-set_self, lt_of_slot}
use lazers.Env as Env
use lazers.Env.Access.{get-set}
use lazers.Process.{Process, set_env, with_env}
use lazers.Thread.{ProcessId, ThreadId}
use lazers.Scheduler.State.{SchedulerState, thread, process}
use lazers.Scheduler.Services.{
  EnvironmentAccessError, current_process, current_process_of, put_process, copied, looked_up,
  env_set, stored, current_process_set_env, current_process_get_env,
}
use lazers.Scheduler.Services as Services
use lazers.Syscall.Safe.{store-outside, length-bytes_at}
use lazers.Syscall.UserMemory.{Memory, store, user_slice, bytes_at, validate_user_buffer}
use lazers.Syscall.Handlers.{
  Machine, user_text, filled, set_env_at, set_env_in, set_env_status, get_env_status,
  syscall_set_env, syscall_get_env, change_reply,
}

-- The process that is found is found again, as it was put there.
process-put_process :
    (id : ProcessId) (p p' : Process) (s : SchedulerState)
    → process id s ≡ some p
    → process id (put_process id p' s) ≡ some p'
process-put_process id p p' s found =
    slot-set_self s.processes id (some p') (lt_of_slot s.processes id found)

current_process-put_process :
    (c : Option ThreadId) (id : ProcessId) (p p' : Process) (s : SchedulerState)
    → current_process_of c s ≡ some (some (id, p))
    → current_process_of c (put_process id p' s) ≡ some (some (id, p'))
current_process-put_process none id p p' s now = absurd (cc now)
current_process-put_process (some c) id p p' s now =
    let (t, there, rest) = and_then-eq-some (thread c s) _ now in
    let (q, found, last) = and_then-eq-some (process t.process_id s) _ rest in
    let same : t.process_id ≡ id = cc last in
    let again : process id s ≡ some p = sym (ap (λ i. process i s) same) ∙ cc (found, last) in
    rw there (
      subst
        (λ i.
          and_then {B = Option (ProcessId × Process)} (process i (put_process id p' s))
            (λ r. some (some (i, r)))
          ≡ some (some (id, p')))
        (sym same)
        (ap (λ o. and_then {B = Option (ProcessId × Process)} o (λ r. some (some (id, r))))
          (process-put_process id p p' s again)))

stored-ok :
    (id : ProcessId) (s s' : SchedulerState) (r : Result Env.EnvironmentError Process)
    → stored id s r ≡ (s', ok tt)
    → (p' : Process) × (r ≡ ok p') × (put_process id p' s ≡ s')
stored-ok id s s' (ok p') h = (p', refl, ap (λ x. x.0) h)
stored-ok id s s' (err e) h = absurd (cc (ap (λ x. x.1) h))

with_env-ok :
    (p p' : Process) (r : Result Env.EnvironmentError Env.Environment)
    → with_env p r ≡ ok p'
    → r ≡ ok p'.env
with_env-ok p p' (ok env) h = ap (λ e. ok e) (env_of-ok (record p { env = env }) p' h)
  where
    env_of-ok :
        (q q' : Process)
        → Path (Result Env.EnvironmentError Process) (ok q) (ok q')
        → q.env ≡ q'.env
    env_of-ok q q' h = let same : q ≡ q' = cc h in ap (λ x. x.env) same
with_env-ok p p' (err e) h = absurd (cc h)

copied-some :
    (value buffer : Bytes)
    → length value ≤ length buffer
    → copied buffer (ok (some value)) ≡ (value ++ drop (length value) buffer, ok (length value))
copied-some value buffer room =
    let fits : ltb (length buffer) (length value) ≡ false = ground (arith, room) in rw fits refl

-- A variable that is set in the environment of the current process is found there.
current_process_get_env-set_env :
    (key value buffer : Bytes) (s s' : SchedulerState)
    → current_process_set_env key value s ≡ some (s', ok tt)
    → length value ≤ length buffer
    → current_process_get_env key buffer s'
      ≡ some (value ++ drop (length value) buffer, ok (length value))
unfolding current_process_set_env current_process_get_env
current_process_get_env-set_env key value buffer s s' done room =
    let (o, now, rest) = and_then-eq-some (current_process s) _ done in after_set o now (cc rest)
  where
    after_set :
        (o : Option (ProcessId × Process))
        → current_process s ≡ some o
        → env_set key value s o ≡ (s', ok tt)
        → and_then (current_process s') (λ q. some (looked_up key buffer q))
          ≡ some (value ++ drop (length value) buffer, ok (length value))
    after_set none now h = absurd (cc (ap (λ x. x.1) h))
    after_set (some (id, p)) now h =
        let (p', set_ok, put) = stored-ok id s s' (set_env key value p) h in
        let found : Env.get key p'.env ≡ ok (some value) =
          get-set key value p.env key (with_env-ok p p' (Env.set key value p.env) set_ok)
          ∙ rw (equal_self key) refl in
        subst
          (λ q.
            and_then (current_process q) (λ r. some (looked_up key buffer r))
            ≡ some (value ++ drop (length value) buffer, ok (length value)))
          put
          (rw (current_process-put_process s.current_thread id p p' s now, found)
            (ap (λ x. some x) (copied-some value buffer room)))

set_env_status-zero :
    (r : Result EnvironmentAccessError (Unit {0})) → set_env_status r ≡ 0 → r ≡ ok tt
unfolding set_env_status
set_env_status-zero (ok done) h = refl
set_env_status-zero (err Services.invalid_key) h = absurd (omega arith)
set_env_status-zero (err Services.not_found) h = absurd (omega arith)
set_env_status-zero (err Services.buffer_too_small) h = absurd (omega arith)
set_env_status-zero (err Services.key_too_long) h = absurd (omega arith)
set_env_status-zero (err Services.value_too_long) h = absurd (omega arith)
set_env_status-zero (err Services.capacity_exceeded) h = absurd (omega arith)
set_env_status-zero (err Services.resource_unavailable) h = absurd (omega arith)

-- What has been stored is read at the same address.
bytes_at-store :
    (xs ys : Bytes) (address : ℕ) (mem : Memory)
    → bytes_at (store address (xs ++ ys) mem) address (length xs) ≡ xs
bytes_at-store [] ys address mem = refl
bytes_at-store (x ∷ xs) ys address mem =
    let here : (address == address) ≡ true = ground arith in
    let first : store (suc address) (xs ++ ys) (λ a. if a == address then x else mem a) address
        ≡ x =
      store-outside (suc address) (xs ++ ys) _ address (inl (omega arith)) ∙ rw here refl in
    rw first (ap (λ l. x ∷ l) (bytes_at-store xs ys (suc address) _))

-- A variable that a program has set, the call having reported 0, is what a later call reads into a valid
-- buffer that is large enough: the status is the length of the value, and the bytes at the address of the
-- buffer are the value.
pub syscall_get_env-set_env :
    (k kl v vl a n : ℕ) (m m' : Machine) (key value : Bytes)
    → user_text m.memory k kl ≡ some key
    → user_text m.memory v vl ≡ some value
    → validate_user_buffer a n ≡ true
    → length value ≤ n
    → syscall_set_env k kl v vl m ≡ some (m', 0)
    → (m'' : Machine) × (syscall_get_env k kl a n m' ≡ some (m'', length value))
      × (bytes_at m''.memory a (length value) ≡ value)
unfolding syscall_set_env syscall_get_env user_slice get_env_status
syscall_get_env-set_env k kl v vl a n m m' key value is_key is_value valid room done =
    let set_done : set_env_in m key (some value) ≡ some (m', 0) =
      sym (ap (set_env_in m key) is_value) ∙ sym (ap (set_env_at v vl m) is_key) ∙ done in
    let ((s', r), changed, last) =
      and_then-eq-some (current_process_set_env key value m.scheduler)
        (change_reply set_env_status m) set_done in
    let no_error : r ≡ ok tt = set_env_status-zero r (cc last) in
    let buffer = bytes_at m.memory a n in
    let after : Machine = record m { scheduler = s' } in
    let same : after ≡ m' = cc last in
    let got : current_process_get_env key buffer s'
        ≡ some (value ++ drop (length value) buffer, ok (length value)) =
      current_process_get_env-set_env key value buffer m.scheduler s'
        (changed ∙ ap (λ x. some (s', x)) no_error)
        (omega (arith, room, length-bytes_at m.memory a n)) in
    let answered : syscall_get_env k kl a n after
        ≡ some (filled a (value ++ drop (length value) buffer) after, length value) =
      rw (is_key, valid, got) refl in
    (
      filled a (value ++ drop (length value) buffer) after,
      ap (syscall_get_env k kl a n) (sym same) ∙ answered,
      bytes_at-store value (drop (length value) buffer) a m.memory,
    )
