-- ===== src/Terminal.antt =====
-- The terminal of the primary session, kernel/kernel/src/terminal.rs, and the loop of the terminal
-- thread that serves it, `terminal_thread_entry` of kernel/kernel/src/main.rs. What goes to the
-- console is the list of bytes written there, oldest first; the serial line, which all of the kernel
-- shares, is a field of the endpoint.
pub mod Session
mod Examples
use lazers.Base.{
  ℕ, zero, suc, ◌+◌, ◌-◌, ◌*◌, ◌/◌, ◌%◌, ◌^◌, ◌≤◌, ◌<◌, min, max, Bool, true, false, not, ◌&&◌,
  ◌||◌, Option, none, some, List, [], ◌∷◌, ◌++◌, map, ◌≡◌, ◌≢◌, ◌↔◌, refl, sym, ap, ◌∙◌, ◌⊎◌, inl,
  inr, arith,
}
use lazers.Base.Tests.{ltb, leb, if◌then◌else◌, ◌==◌, Bool-cases, Option-cases}
use lazers.Base.Lists.{length}
use lazers.Base.Words.{Bytes}
use lazers.KeyCode.{KeyEvent, key_event_to_input_byte}
use lazers.Keyboard.{KeyboardState, poll, pop_event, event_queue_capacity}
use lazers.Ring
use lazers.Serial.{SerialLine, unused, write_byte}
use lazers.Ring.{Ring}

abbrev pub terminal_input_capacity : ℕ
terminal_input_capacity = 256

abbrev pub terminal_output_capacity : ℕ
terminal_output_capacity = 1024

pub record TerminalEndpoint : Type 0 where
  pub input : Ring ℕ
  pub output : Ring ℕ
  pub serial : SerialLine

abbrev pub new : TerminalEndpoint
new = record {
  input = Ring.new terminal_input_capacity 0;
  output = Ring.new terminal_output_capacity 0;
  serial = unused;
}

-- A pop of `ByteQueue` leaves the byte in its slot.
abbrev pub keep : ℕ → ℕ
keep b = b

unfoldable pub push_input_byte : ℕ → TerminalEndpoint → Bool × TerminalEndpoint
push_input_byte b t = let (done, q) = Ring.push b t.input in (done, record t { input = q })

unfoldable pub pop_input_byte : TerminalEndpoint → Option ℕ × TerminalEndpoint
pop_input_byte t = let (b, q) = Ring.pop keep t.input in (b, record t { input = q })

-- The byte is written to the serial line even if the queue refuses it.
unfoldable pub push_output_byte : ℕ → TerminalEndpoint → Bool × TerminalEndpoint
push_output_byte b t =
    let (done, q) = Ring.push b t.output in
    (done, record t { output = q; serial = write_byte b t.serial })

unfoldable pub pop_output_byte : TerminalEndpoint → Option ℕ × TerminalEndpoint
pop_output_byte t = let (b, q) = Ring.pop keep t.output in (b, record t { output = q })

unfoldable pub handle_key_event : KeyEvent → TerminalEndpoint → TerminalEndpoint
unfolding push_input_byte
handle_key_event event t = elim (key_event_to_input_byte event) [
  | none ↦ t
  | some b ↦ (push_input_byte b t).1
]

-- The bytes written to the console, and the endpoint afterwards.
unfoldable pub flush_output : TerminalEndpoint → Bytes × TerminalEndpoint
flush_output t =
    let (bytes, q) = Ring.drain (suc terminal_output_capacity) keep t.output in
    (bytes, record t { output = q })

-- `while let Some(event) = keyboard::pop_event() { surface.handle_key_event(event); }`
unfoldable pub handle_events :
    ℕ → KeyboardState → TerminalEndpoint → KeyboardState × TerminalEndpoint
handle_events zero k t = (k, t)
handle_events (suc fuel) k t =
    let next = pop_event k in
    elim next.0 [ none ↦ (next.1, t) | some e ↦ handle_events fuel next.1 (handle_key_event e t) ]

-- One round of the terminal thread, up to its `yield_now`: the console bytes and the new states.
unfoldable pub terminal_round :
    List (ℕ × ℕ) → KeyboardState → TerminalEndpoint → Bytes × KeyboardState × TerminalEndpoint
unfolding handle_events flush_output
terminal_round readings k t =
    let (k1, t1) = handle_events (suc event_queue_capacity) (poll readings k) t in
    let (bytes, t2) = flush_output t1 in (bytes, k1, t2)
