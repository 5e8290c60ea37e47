-- ===== src/Keyboard/Typing.antt =====
-- Every printable ASCII character can be typed: some scan codes, with the shift key or without, give it.
use lazers.Base.{
  ℕ, zero, suc, ◌+◌, ◌-◌, ◌≤◌, ◌<◌, Bool, true, false, Option, none, some, List, [], ◌∷◌, ◌≡◌, refl,
  arith,
}
use lazers.Base.Tests.{◌==◌}
use lazers.Base.Tables.{all_below, all_below_sound}
use lazers.Base.Text.{equal, equal_iff}
use lazers.KeyCode.{decode_key, key_byte, key_event_to_input_byte}
use lazers.Keyboard.{KeyboardState, initial, process_byte, process_bytes, pop_event}

-- The bytes that the events in the queue type, as the terminal thread takes them.
unfoldable pub take_typed : ℕ → KeyboardState → List ℕ
unfolding pop_event key_event_to_input_byte
take_typed zero k = []
take_typed (suc fuel) k =
    let next = pop_event k in
    elim next.0 [
      | none ↦ []
      | some e ↦
          let later = take_typed fuel next.1 in
          elim (key_event_to_input_byte e) [ none ↦ later | some b ↦ b ∷ later ]
    ]

-- The bytes typed by scan codes from a keyboard that was idle.
unfoldable pub types : List ℕ → List ℕ
unfolding process_bytes process_byte take_typed
types codes = take_typed 65 (process_bytes codes initial)

abbrev gives : ℕ → Bool → ℕ → Bool
gives b shift c = elim (key_byte (decode_key c) shift) [ none ↦ false | some d ↦ d == b ]

-- The first scan code from `c` on, of `left`, that gives `b`.
find_code : ℕ → ℕ → ℕ → Bool → Option ℕ
unfolding decode_key key_byte
find_code zero c b shift = none
find_code (suc left) c b shift = elim (gives b shift c) [
  | true ↦ some c
  | false ↦ find_code left (suc c) b shift
]

keys_for : ℕ → List ℕ
unfolding find_code
keys_for b = elim (find_code 0x40 0 b false) [
  | some c ↦ c ∷ []
  | none ↦ elim (find_code 0x40 0 b true) [ some c ↦ 0x2a ∷ c ∷ [] | none ↦ [] ]
]

abbrev typed_row : ℕ → Bool
typed_row i = equal (types (keys_for (0x20 + i))) ((0x20 + i) ∷ [])

typed_table : all_below typed_row 0x5f ≡ true
unfolding all_below types keys_for equal
typed_table = refl

-- For every printable ASCII character there are scan codes that type it and nothing else.
pub printable_typed : (b : ℕ) → 0x20 ≤ b → b < 0x7f → (codes : List ℕ) × (types codes ≡ b ∷ [])
printable_typed b lo hi =
    let e : 0x20 + (b - 0x20) ≡ b = omega arith in
    (
      keys_for b,
      (equal_iff _ _).0
          (rw e at (all_below_sound typed_row 0x5f (b - 0x20) (omega arith) typed_table)),
    )
