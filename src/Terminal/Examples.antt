-- ===== src/Terminal/Examples.antt =====
-- The terminal on concrete key events, and its theorem at inputs that meet its hypotheses.
use lazers.Serial.{unused}
use lazers.Base.{ℕ, false, none, some, List, [], ◌∷◌, ◌≡◌, refl, arith}
use lazers.KeyCode.{KeyEvent, key_a, pressed, key_event_to_input_byte}
use lazers.Keyboard.{initial, poll, pop_event, process_byte, event_queue_capacity}
use lazers.Ring
use lazers.Ring.{capacity}
use lazers.Ring.Refine.{Holds, new-Holds, push-Holds}
use lazers.Terminal.{
  TerminalEndpoint, new, terminal_round, terminal_input_capacity, terminal_output_capacity,
  handle_key_event,
}
use lazers.Terminal.Session.{HoldsEvents, arrive, typed, terminal_round_lem}

-- Typing `a` puts one byte in the input queue.
types_a : (terminal_round ((1, 0x1e) ∷ (1, 0x9e) ∷ []) initial new).2.input.len ≡ 1
unfolding terminal_round poll process_byte Ring.push Ring.pop pop_event handle_key_event
    key_event_to_input_byte
types_a = refl

abbrev a_down : List (ℕ × ℕ)
a_down = (1, 0x1e) ∷ []

abbrev a_pressed : KeyEvent
a_pressed = record { key = key_a; state = pressed; shift_active = false }

-- An endpoint with one byte of output.
abbrev shows_x : TerminalEndpoint
shows_x = record new { output = (Ring.push b'x' new.output).1 }

shows_x-output : Holds shows_x.output (b'x' ∷ [])
shows_x-output =
    (push-Holds b'x' new.output [] (new-Holds terminal_output_capacity 0 (omega arith))).0

input-empty : Holds new.input []
input-empty = new-Holds terminal_input_capacity 0 (omega arith)

a_down-events : HoldsEvents (poll a_down initial) (a_pressed ∷ [])
unfolding poll process_byte
a_down-events =
    (push-Holds (some a_pressed) initial.queue []
      (new-Holds event_queue_capacity none (omega arith))).0

queue_size : capacity (poll a_down initial).queue ≡ event_queue_capacity
unfolding poll process_byte
queue_size = refl

output_size : capacity shows_x.output ≡ terminal_output_capacity
unfolding Ring.push
output_size = refl

terminal_round_lem_example :
    let (console, k', t') = terminal_round a_down initial shows_x in
    (console ≡ b'x' ∷ [])
    × HoldsEvents k' []
    × Holds t'.input (arrive (capacity shows_x.input) [] (typed (a_pressed ∷ [])))
    × Holds t'.output []
    × (t'.serial ≡ unused)
terminal_round_lem_example =
    terminal_round_lem a_down initial shows_x (a_pressed ∷ []) [] (b'x' ∷ []) a_down-events
      queue_size input-empty shows_x-output output_size

typed_a : typed (a_pressed ∷ []) ≡ b'a' ∷ []
unfolding key_event_to_input_byte
typed_a = refl
