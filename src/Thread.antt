-- ===== src/Thread.antt =====
-- Threads, kernel/kernel/src/thread.rs.
use lazers.Base.{ℕ, Bool, true, false, Option, none, some}
use lazers.Base.Words.{Bytes}

-- An index into the scheduler's tables.
abbrev pub ThreadId : Type 0
ThreadId = ℕ

abbrev pub ProcessId : Type 0
ProcessId = ℕ

pub record ThreadContext : Type 0 where
  pub rsp : ℕ
  pub rbx : ℕ
  pub rbp : ℕ
  pub r12 : ℕ
  pub r13 : ℕ
  pub r14 : ℕ
  pub r15 : ℕ

abbrev pub zeroed : ThreadContext
zeroed = record { rsp = 0; rbx = 0; rbp = 0; r12 = 0; r13 = 0; r14 = 0; r15 = 0 }

pub data ThreadState : Type 0 where
  runnable running blocked : ThreadState

pub data ThreadBlockReason : Type 0 where
  not_blocked : ThreadBlockReason
  waiting_for_child : ProcessId → ThreadBlockReason

pub record UserThreadStart : Type 0 where
  pub entry_point : ℕ
  pub user_stack_top : ℕ

-- A kernel thread starts at the address of its function.
pub data ThreadStart : Type 0 where
  kernel : ℕ → ThreadStart
  user : UserThreadStart → ThreadStart

pub record Thread : Type 0 where
  pub id : ThreadId
  pub name : Bytes
  pub process_id : ProcessId
  pub start : ThreadStart
  pub state : ThreadState
  pub block_reason : ThreadBlockReason
  pub wait_result : Option ℕ
  pub context : ThreadContext
  pub kernel_stack_top : ℕ

abbrev pub new : ThreadId → Bytes → ProcessId → ThreadStart → ThreadContext → ℕ → Thread
new id name process_id start context kernel_stack_top = record {
  id = id;
  name = name;
  process_id = process_id;
  start = start;
  state = runnable;
  block_reason = not_blocked;
  wait_result = none;
  context = context;
  kernel_stack_top = kernel_stack_top;
}

abbrev pub set_state : ThreadState → Thread → Thread
set_state state t = record t { state = state }

abbrev pub block_for_child : ProcessId → Thread → Thread
block_for_child process_id t = record t {
  state = blocked;
  block_reason = waiting_for_child process_id;
}

abbrev pub wake : Thread → Thread
wake t = record t { state = runnable; block_reason = not_blocked }

abbrev pub set_wait_result : ℕ → Thread → Thread
set_wait_result status t = record t { wait_result = some status }

abbrev pub take_wait_result : Thread → Option ℕ × Thread
take_wait_result t = (t.wait_result, record t { wait_result = none })

-- `matches!(state, ThreadState::Runnable | ThreadState::Running)`
abbrev pub can_run : ThreadState → Bool
can_run runnable = true
can_run running = true
can_run blocked = false
