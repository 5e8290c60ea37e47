-- ===== src/Syscall/Safe/Filled.antt =====
-- What the services of a process fill of a buffer is no longer than the buffer
-- (kernel/kernel/src/scheduler/services.rs).
use lazers.Base.{
  ◌∷◌, ap, [], ℕ, zero, suc, ◌≤◌, Option, none, some, ◌≡◌, refl, ◌∙◌, inl, inr, arith,
}
use lazers.Base.Tests.{ltb, Bool-cases, Option-cases}
use lazers.Base.Lists.{length}
use lazers.Base.Words.{Bytes}
use lazers.Base.Results.{Result, ok, err, Whenever, Whenever-and_then}
use lazers.Env as Env
use lazers.Env.Listing.{length-overwrite, write_listing_into_lem}
use lazers.Path.{StorageError}
use lazers.Process.{Process, read, read_from, read_byte, copy_cwd_into, KernelObject, resolve_fd}
use lazers.Terminal.{TerminalEndpoint}
use lazers.Thread.{ProcessId}
use lazers.Scheduler.State.{SchedulerState}
use lazers.Scheduler.Services.{
  RootFs, KeepsSize, resolve, copied, looked_up, map_listing, listed, cwd_copied, on_path, from_cwd,
  bytes_read, current_process, current_process_get_env, current_process_list_env,
  current_process_getcwd, current_process_read_file, current_process_read_dir, current_process_read,
}

length-copied :
    (buffer : Bytes) (r : Result Env.EnvironmentError (Option Bytes))
    → length (copied buffer r).0 ≡ length buffer
length-copied buffer (err e) = refl
length-copied buffer (ok none) = refl
length-copied buffer (ok (some value)) = elim (Bool-cases (ltb (length buffer) (length value))) [
  | inl e ↦ rw e refl
  | inr e ↦ rw e (length-overwrite value buffer (ground (arith, e)))
]

length-looked_up :
    (key buffer : Bytes) (o : Option (ProcessId × Process))
    → length (looked_up key buffer o).0 ≡ length buffer
length-looked_up key buffer none = refl
length-looked_up key buffer (some (id, p)) = length-copied buffer (Env.get key p.env)

length-map_listing :
    (x : Bytes × Result Env.EnvironmentError ℕ) → length (map_listing x).0 ≡ length x.0
length-map_listing (buffer, ok len) = refl
length-map_listing (buffer, err e) = refl

length-listed :
    (buffer : Bytes) (o : Option (ProcessId × Process)) → length (listed buffer o).0 ≡ length buffer
length-listed buffer none = refl
length-listed buffer (some (id, p)) =
    length-map_listing (Env.write_listing_into p.env buffer)
    ∙ (write_listing_into_lem p.env buffer).0

pub length-get_env :
    (key buffer : Bytes) (s : SchedulerState)
    → Whenever (current_process_get_env key buffer s) (λ x. length x.0 ≤ length buffer)
unfolding current_process_get_env
length-get_env key buffer s =
    Whenever-and_then (current_process s) (λ p. some (looked_up key buffer p)) _
      λ p. omega (arith, length-looked_up key buffer p)

pub length-list_env :
    (buffer : Bytes) (s : SchedulerState)
    → Whenever (current_process_list_env buffer s) (λ x. length x.0 ≤ length buffer)
unfolding current_process_list_env
length-list_env buffer s =
    Whenever-and_then (current_process s) (λ p. some (listed buffer p)) _
      λ p. omega (arith, length-listed buffer p)

length-copy_cwd_into :
    (p : Process) (buffer : Bytes)
    → Whenever (copy_cwd_into p buffer) (λ x. length x.0 ≤ length buffer)
unfolding copy_cwd_into
length-copy_cwd_into p buffer = elim (Bool-cases (ltb (length buffer) (length p.cwd))) [
  | inl e ↦ rw e tt
  | inr e ↦ rw e (omega (arith, length-overwrite p.cwd buffer (ground (arith, e))))
]

length-cwd_copied :
    (buffer : Bytes) (o : Option (ProcessId × Process))
    → Whenever (cwd_copied buffer o) (λ x. length x.0 ≤ length buffer)
length-cwd_copied buffer none = tt
length-cwd_copied buffer (some (id, p)) = length-copy_cwd_into p buffer

pub length-getcwd :
    (buffer : Bytes) (s : SchedulerState)
    → Whenever (current_process_getcwd buffer s) (λ o. Whenever o (λ x. length x.0 ≤ length buffer))
unfolding current_process_getcwd
length-getcwd buffer s =
    Whenever-and_then (current_process s) (λ p. some (cwd_copied buffer p)) _
      (length-cwd_copied buffer)

module _ (fs : RootFs) (call : Bytes → Bytes → Option (Bytes × Result StorageError ℕ))
    (keeps : KeepsSize call) where
  length-on_path :
      (buffer : Bytes) (found : Result StorageError Bytes)
      → Whenever (on_path fs call buffer found) (λ x. length x.0 ≤ length buffer)
  length-on_path buffer (ok path) = shorter (call path buffer) (keeps path buffer)
    where
      shorter :
          (o : Option (Bytes × Result StorageError ℕ))
          → Whenever o (λ x. length x.0 ≡ length buffer)
          → Whenever o (λ x. length x.0 ≤ length buffer)
      shorter none h = tt
      shorter (some x) h = omega (arith, h)
  length-on_path buffer (err e) = omega arith

  length-from_cwd :
      (path buffer : Bytes) (o : Option (ProcessId × Process))
      → Whenever (from_cwd fs call path buffer o) (λ x. length x.0 ≤ length buffer)
  length-from_cwd path buffer none = omega arith
  length-from_cwd path buffer (some (id, p)) =
      Whenever-and_then (resolve p.cwd path) (on_path fs call buffer) _ (length-on_path buffer)

pub length-read_file :
    (fs : RootFs) (path buffer : Bytes) (s : SchedulerState)
    → KeepsSize fs.read_file_into
    → Whenever (current_process_read_file fs path buffer s) (λ x. length x.0 ≤ length buffer)
unfolding current_process_read_file
length-read_file fs path buffer s keeps =
    Whenever-and_then (current_process s) (from_cwd fs fs.read_file_into path buffer) _
      (length-from_cwd fs fs.read_file_into keeps path buffer)

pub length-read_dir :
    (fs : RootFs) (path buffer : Bytes) (s : SchedulerState)
    → KeepsSize fs.read_dir
    → Whenever (current_process_read_dir fs path buffer s) (λ x. length x.0 ≤ length buffer)
unfolding current_process_read_dir
length-read_dir fs path buffer s keeps =
    Whenever-and_then (current_process s) (from_cwd fs fs.read_dir path buffer) _
      (length-from_cwd fs fs.read_dir keeps path buffer)

length-read_from :
    (size : ℕ) (object : KernelObject) (t : TerminalEndpoint)
    → length (read_from size object t).0 ≤ size
unfolding read_from
length-read_from zero object t = omega arith
length-read_from (suc size) object t =
    length-next (read_byte object t) (λ t'. length-read_from size object t')
  where
    length-next :
        (next : Option ℕ × TerminalEndpoint)
        → ((t' : TerminalEndpoint) → length (read_from size object t').0 ≤ size)
        → length
            (elim next.0 as (λ _. Bytes × TerminalEndpoint) [
              | none ↦ ([], next.1)
              | some b ↦ let later = read_from size object next.1 in (b ∷ later.0, later.1)
            ]).0
          ≤ suc size
    length-next (none, t') later = omega arith
    length-next (some b, t') later = omega (arith, later t')

length-bytes_read :
    (fd size : ℕ) (t : TerminalEndpoint) (o : Option (ProcessId × Process))
    → length (bytes_read fd size t o).0 ≤ size
unfolding read
length-bytes_read fd size t none = omega arith
length-bytes_read fd size t (some (id, p)) = elim (Option-cases (resolve_fd fd p)) [
  | inl e ↦
      let same : read fd size p t ≡ ([], t) = rw (e, read) refl in
      omega (arith, ap (λ x. length x.0) same)
  | inr (object, e) ↦
      let same : read fd size p t ≡ read_from size object t = rw (e, read) refl in
      omega (arith, ap (λ x. length x.0) same, length-read_from size object t)
]

pub length-read :
    (fd size : ℕ) (s : SchedulerState) (t : TerminalEndpoint)
    → Whenever (current_process_read fd size s t) (λ x. length x.0 ≤ size)
unfolding current_process_read
length-read fd size s t =
    Whenever-and_then (current_process s) (λ p. some (bytes_read fd size t p)) _
      λ p. length-bytes_read fd size t p
