-- ===== src/Process.antt =====
-- Processes and their handles, kernel/kernel/src/process.rs and kernel/kernel/src/io.rs. The terminal
-- endpoint is the primary one: an operation on it takes its state and returns the new one.
-- `Process.cwd` is the part of its buffer that is in use, and `owned_pages` likewise.
pub mod Inherit
pub mod Streams
pub mod Examples
use lazers.Base.{
  ℕ, zero, suc, ◌+◌, ◌-◌, ◌*◌, ◌/◌, ◌%◌, ◌^◌, ◌≤◌, ◌<◌, min, max, Bool, true, false, not, ◌&&◌,
  ◌||◌, Option, none, some, List, [], ◌∷◌, ◌++◌, map, ◌≡◌, ◌≢◌, ◌↔◌, refl, sym, ap, ◌∙◌, ◌⊎◌, inl,
  inr, arith,
}
use lazers.Base.Tests.{ltb, leb, if◌then◌else◌, ◌==◌, Bool-cases, Option-cases}
use lazers.Base.Lists.{length, get_elem?, set, replicate, drop}
use lazers.Base.Words.{Bytes}
use lazers.Base.Text.{is_nil, starts_with}
use lazers.Base.Results.{Result, ok, err, and_then}
use lazers.Env
use lazers.Env.{Environment, EnvironmentError}
use lazers.Terminal.{TerminalEndpoint, pop_input_byte, push_output_byte}
use lazers.Thread.{ThreadId, ProcessId}

abbrev pub max_process_handles : ℕ
max_process_handles = 8

abbrev pub max_cwd_len : ℕ
max_cwd_len = 256

abbrev pub HandleId : Type 0
HandleId = ℕ

pub data KernelObject : Type 0 where
  terminal_endpoint null : KernelObject

pub record StdioHandles : Type 0 where
  pub stdin : HandleId
  pub stdout : HandleId
  pub stderr : HandleId

abbrev pub default_invalid_handle : ℕ
default_invalid_handle = 2 ^ 64 - 1

abbrev pub empty_stdio : StdioHandles
empty_stdio = record {
  stdin = default_invalid_handle;
  stdout = default_invalid_handle;
  stderr = default_invalid_handle;
}

pub data ProcessState : Type 0 where
  running : ProcessState
  exited : ℕ → ProcessState

pub data ProcessExitAction : Type 0 where
  continue shutdown_system : ProcessExitAction

-- An address space is the physical address of its root table.
abbrev pub AddressSpace : Type 0
AddressSpace = ℕ

abbrev pub OwnedPages : Type 0
OwnedPages = List ℕ

pub record Process : Type 0 where
  pub id : ProcessId
  pub name : Bytes
  pub address_space : AddressSpace
  pub handles : List (Option KernelObject)
  pub stdio : StdioHandles
  pub state : ProcessState
  pub waiting_thread : Option ThreadId
  pub cwd : Bytes
  pub env : Environment
  pub owned_pages : OwnedPages
  pub exit_action : ProcessExitAction

abbrev pub new : ProcessId → Bytes → AddressSpace → OwnedPages → ProcessExitAction → Process
new id name address_space owned_pages exit_action = record {
  id = id;
  name = name;
  address_space = address_space;
  handles = replicate max_process_handles none;
  stdio = empty_stdio;
  state = running;
  waiting_thread = none;
  cwd = b'/' ∷ [];
  env = Env.new;
  owned_pages = owned_pages;
  exit_action = exit_action;
}

-- The first empty slot, from index `i` on.
unfoldable pub first_free {ℓ} : {A : Type ℓ} → List (Option A) → Option ℕ
first_free [] = none
first_free (none ∷ xs) = some 0
first_free (some a ∷ xs) = and_then (first_free xs) λ i. some (suc i)

unfoldable pub install_handle : KernelObject → Process → Option (HandleId × Process)
install_handle object p =
    and_then (first_free p.handles)
      λ i. some (i, record p { handles = set p.handles i (some object) })

abbrev pub set_stdio : StdioHandles → Process → Process
set_stdio stdio p = record p { stdio = stdio }

abbrev pub mark_exited : ℕ → Process → Process
mark_exited status p = record p { state = exited status }

abbrev pub set_waiting_thread : ThreadId → Process → Process
set_waiting_thread id p = record p { waiting_thread = some id }

abbrev pub with_env :
    Process → Result EnvironmentError Environment → Result EnvironmentError Process
with_env p (ok env) = ok (record p { env = env })
with_env p (err e) = err e

abbrev pub set_env : Bytes → Bytes → Process → Result EnvironmentError Process
set_env key value p = with_env p (Env.set key value p.env)

abbrev pub remove_env : Bytes → Process → Result EnvironmentError (Bool × Process)
remove_env key p = elim (Env.remove key p.env) [
  | ok (found, env) ↦ ok (found, record p { env = env })
  | err e ↦ err e
]

abbrev pub clear_env : Process → Process
clear_env p = record p { env = Env.clear p.env }

abbrev pub take_waiting_thread : Process → Option ThreadId × Process
take_waiting_thread p = (p.waiting_thread, record p { waiting_thread = none })

abbrev pub take_owned_pages : Process → OwnedPages × Process
take_owned_pages p = (p.owned_pages, record p { owned_pages = [] })

abbrev pub resolve_handle : HandleId → Process → Option KernelObject
resolve_handle handle p = and_then (get_elem? p.handles handle) λ slot. slot

unfoldable pub resolve_fd : ℕ → Process → Option KernelObject
resolve_fd fd p =
    if fd == 0
    then resolve_handle p.stdio.stdin p
    else if fd == 1
    then resolve_handle p.stdio.stdout p
    else if fd == 2
    then resolve_handle p.stdio.stderr p
    else none

-- Three objects become the child's standard streams.
unfoldable pub install_stdio : KernelObject → KernelObject → KernelObject → Process → Option Process
install_stdio input output error child = and_then (install_handle input child) λ a.
    and_then (install_handle output a.1) λ b.
      and_then (install_handle error b.1)
        λ c. some (set_stdio (record { stdin = a.0; stdout = b.0; stderr = c.0 }) c.1)

-- The child with its inheritance; the source looks the parent's objects up between the installs,
-- which do not change the parent.
unfoldable pub inherit_stdio_into : Process → Process → Option Process
inherit_stdio_into p child = and_then (resolve_fd 0 p) λ input.
    and_then (resolve_fd 1 p)
      λ output. and_then (resolve_fd 2 p) λ error. install_stdio input output error child

unfoldable pub inherit_stdio_silent_into : Process → Process → Option Process
inherit_stdio_silent_into p child =
    and_then (resolve_fd 0 p) λ input. install_stdio input null null child

unfoldable pub set_cwd : Bytes → Process → Option Process
set_cwd cwd p =
    if is_nil cwd || not (starts_with b'/' cwd) || ltb max_cwd_len (length cwd)
    then none
    else some (record p { cwd = cwd })

unfoldable pub inherit_cwd_into : Process → Process → Option Process
inherit_cwd_into p child = set_cwd p.cwd child

unfoldable pub inherit_env_into : Process → Process → Result EnvironmentError Process
inherit_env_into p child = elim (Env.inherit_into p.env child.env) [
  | ok env ↦ ok (record child { env = env })
  | err e ↦ err e
]

-- The buffer afterwards, and the length copied.
unfoldable pub copy_cwd_into : Process → Bytes → Option (Bytes × ℕ)
copy_cwd_into p buffer =
    if ltb (length buffer) (length p.cwd)
    then none
    else some (p.cwd ++ drop (length p.cwd) buffer, length p.cwd)

abbrev pub read_byte : KernelObject → TerminalEndpoint → Option ℕ × TerminalEndpoint
read_byte terminal_endpoint t = pop_input_byte t
read_byte null t = (none, t)

abbrev pub write_byte : KernelObject → ℕ → TerminalEndpoint → Bool × TerminalEndpoint
write_byte terminal_endpoint b t = push_output_byte b t
write_byte null b t = (true, t)

-- The bytes read into a buffer of the given size.
unfoldable pub read_from : ℕ → KernelObject → TerminalEndpoint → Bytes × TerminalEndpoint
read_from zero object t = ([], t)
read_from (suc size) object t =
    let next = read_byte object t in
    elim next.0 [
      | none ↦ ([], next.1)
      | some b ↦ let later = read_from size object next.1 in (b ∷ later.0, later.1)
    ]

unfoldable pub read : ℕ → ℕ → Process → TerminalEndpoint → Bytes × TerminalEndpoint
read fd size p t = elim (resolve_fd fd p) [ none ↦ ([], t) | some object ↦ read_from size object t ]

-- How many bytes the object accepted.
unfoldable pub write_to : Bytes → KernelObject → TerminalEndpoint → ℕ × TerminalEndpoint
write_to [] object t = (0, t)
write_to (b ∷ bs) object t =
    let done = write_byte object b t in
    elim done.0 [
      | false ↦ (0, done.1)
      | true ↦ let later = write_to bs object done.1 in (suc later.0, later.1)
    ]

unfoldable pub write : ℕ → Bytes → Process → TerminalEndpoint → ℕ × TerminalEndpoint
write fd buffer p t = elim (resolve_fd fd p) [
  | none ↦ (0, t)
  | some object ↦ write_to buffer object t
]
