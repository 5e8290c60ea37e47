-- ===== src/Keyboard.antt =====
-- The keyboard driver, kernel/kernel/src/keyboard.rs: the scan code decoder and the queue of key events.
-- What the controller's ports give is a list of readings, a status byte and a data byte each.
pub mod Shift
pub mod Typing
mod Examples
use lazers.Base.{
  ℕ, zero, suc, ◌+◌, ◌-◌, ◌*◌, ◌/◌, ◌%◌, ◌^◌, ◌≤◌, ◌<◌, min, max, Bool, true, false, not, ◌&&◌,
  ◌||◌, Option, none, some, List, [], ◌∷◌, ◌++◌, map, ◌≡◌, ◌≢◌, ◌↔◌, refl, sym, ap, ◌∙◌, ◌⊎◌, inl,
  inr, arith,
}
use lazers.Base.Tests.{ltb, leb, if◌then◌else◌, ◌==◌, Bool-cases, Option-cases}
use Prim.Native.Nat.{bit_and}
use lazers.Base.Lists.{length}
use lazers.KeyCode.{
  KeyCode, left_shift, right_shift, KeyState, pressed, released, KeyEvent, decode_key, is_unknown,
}
use lazers.Ring
use lazers.Ring.{Ring}

abbrev pub event_queue_capacity : ℕ
event_queue_capacity = 64

-- The slots of `EventQueue` hold options, and a pop empties its slot.
abbrev pub EventQueue : Type 0
EventQueue = Ring (Option KeyEvent)

pub record KeyboardState : Type 0 where
  pub left_shift_active : Bool
  pub right_shift_active : Bool
  pub extended_prefix : Bool
  pub queue : EventQueue

abbrev pub initial : KeyboardState
initial = record {
  left_shift_active = false;
  right_shift_active = false;
  extended_prefix = false;
  queue = Ring.new event_queue_capacity none;
}

abbrev pub shift_active : KeyboardState → Bool
shift_active k = k.left_shift_active || k.right_shift_active

unfoldable pub decode_set1 : Bool → ℕ → Option KeyEvent
unfolding decode_key is_unknown
decode_set1 shift byte =
    let key = decode_key (bit_and byte 0x7f) in
    if is_unknown key
    then none
    else some (record {
      key = key;
      state = if bit_and byte 0x80 == 0 then pressed else released;
      shift_active = shift;
    })

-- Every extended scan code decodes to the unknown key.
unfoldable pub decode_extended : Bool → ℕ → Option KeyEvent
decode_extended shift byte = none

abbrev pub is_pressed : KeyState → Bool
is_pressed pressed = true
is_pressed released = false

-- The `match` on `event.key` in `process_byte`.
abbrev pub note_left : KeyCode → KeyState → Bool → Bool
note_left left_shift s old = is_pressed s
note_left key s old = old

abbrev pub note_right : KeyCode → KeyState → Bool → Bool
note_right right_shift s old = is_pressed s
note_right key s old = old

-- What `process_byte` does with the decoded event.
abbrev pub note_event : Option KeyEvent → KeyboardState → KeyboardState
note_event none k = k
note_event (some e) k =
    let left = note_left e.key e.state k.left_shift_active in
    let right = note_right e.key e.state k.right_shift_active in
    record k {
      left_shift_active = left;
      right_shift_active = right;
      queue = (Ring.push (some (record e { shift_active = left || right })) k.queue).1;
    }

unfoldable pub process_byte : ℕ → KeyboardState → KeyboardState
unfolding Ring.push decode_set1 decode_extended
process_byte byte k =
    if byte == 0xe0
    then record k { extended_prefix = true }
    else if k.extended_prefix
    then note_event (decode_extended (shift_active k) byte) (record k { extended_prefix = false })
    else note_event (decode_set1 (shift_active k) byte) k

unfoldable pub process_bytes : List ℕ → KeyboardState → KeyboardState
process_bytes [] k = k
process_bytes (b ∷ bs) k = process_bytes bs (process_byte b k)

-- One reading of the controller.
abbrev pub read_controller_byte : ℕ × ℕ → Option ℕ
read_controller_byte (status, byte) =
    if bit_and status 0x01 == 0
    then none
    else if not (bit_and status 0x20 == 0)
    then none
    else some byte

-- The loop ends at the first reading that gives no byte.
unfoldable pub poll : List (ℕ × ℕ) → KeyboardState → KeyboardState
poll [] k = k
poll (r ∷ rs) k = elim (read_controller_byte r) [ none ↦ k | some b ↦ poll rs (process_byte b k) ]

unfoldable pub pop_event : KeyboardState → Option KeyEvent × KeyboardState
unfolding Ring.pop
pop_event k =
    let (slot, q) = Ring.pop (λ _. none) k.queue in
    (elim slot [ none ↦ none | some e ↦ e ], record k { queue = q })
