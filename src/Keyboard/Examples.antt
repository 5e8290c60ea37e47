-- ===== src/Keyboard/Examples.antt =====
-- The keyboard on concrete scan codes, and its theorems at inputs that meet their hypotheses.
use lazers.Base.{ℕ, List, [], ◌∷◌, ◌≡◌, refl, arith}
use lazers.Keyboard.{initial, process_byte, poll}
use lazers.Keyboard.Typing.{types}
use lazers.Ring
use lazers.Ring.{Op, put, take, accepted, taken}
use lazers.Ring.Refine.{run_refines, new-Holds, Holds}

types_capital : types (0x2a ∷ 0x1e ∷ 0xaa ∷ 0x1e ∷ []) ≡ b'A' ∷ b'a' ∷ []
unfolding types
types_capital = refl

-- A reading without data ends the poll.
poll_stops : poll ((1, 0x2a) ∷ (0, 0xaa) ∷ (1, 0xaa) ∷ []) initial ≡ process_byte 0x2a initial
unfolding poll
poll_stops = refl

abbrev shift_codes : List ℕ
shift_codes = 0x2a ∷ 0xe0 ∷ 0xaa ∷ 0x36 ∷ 0xb6 ∷ []

abbrev calls : List (Op ℕ)
calls = put 1 ∷ put 2 ∷ put 3 ∷ take ∷ put 4 ∷ take ∷ take ∷ take ∷ []

abbrev keep : ℕ → ℕ
keep b = b

small-Holds : Holds {A = ℕ} (Ring.new 2 0) []
small-Holds = new-Holds 2 0 (omega arith)

run_refines_example : Ring.run keep (Ring.new 2 0) calls ≡ Ring.run_fifo 2 [] calls
run_refines_example = run_refines keep calls (Ring.new 2 0) [] small-Holds
