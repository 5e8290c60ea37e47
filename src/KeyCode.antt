-- ===== src/KeyCode.antt =====
-- The key codes, `KeyCode` and `decode_key` of kernel/kernel/src/keyboard.rs, and the byte that a
-- key event types, `key_event_to_input_byte` of kernel/kernel/src/terminal.rs.
use lazers.Base.{ℕ, Bool, true, false, Option, none, some}
use lazers.Base.Tests.{if◌then◌else◌, ◌==◌}

pub data KeyCode : Type 0 where
  key_a key_b key_c key_d key_e key_f key_g key_h key_i key_j key_k key_l key_m key_n : KeyCode
  key_o key_p key_q key_r key_s key_t key_u key_v key_w key_x key_y key_z digit_0 : KeyCode
  digit_1 digit_2 digit_3 digit_4 digit_5 digit_6 digit_7 digit_8 digit_9 space minus : KeyCode
  equals left_bracket right_bracket backslash semicolon apostrophe grave comma period : KeyCode
  slash enter backspace left_shift right_shift unknown : KeyCode

pub data KeyState : Type 0 where
  pressed released : KeyState

pub record KeyEvent : Type 0 where
  pub key : KeyCode
  pub state : KeyState
  pub shift_active : Bool

unfoldable pub decode_key : ℕ → KeyCode
decode_key scan_code =
    if scan_code == 0x02
    then digit_1
    else if scan_code == 0x03
    then digit_2
    else if scan_code == 0x04
    then digit_3
    else if scan_code == 0x05
    then digit_4
    else if scan_code == 0x06
    then digit_5
    else if scan_code == 0x07
    then digit_6
    else if scan_code == 0x08
    then digit_7
    else if scan_code == 0x09
    then digit_8
    else if scan_code == 0x0a
    then digit_9
    else if scan_code == 0x0b
    then digit_0
    else if scan_code == 0x0c
    then minus
    else if scan_code == 0x0d
    then equals
    else if scan_code == 0x0e
    then backspace
    else if scan_code == 0x10
    then key_q
    else if scan_code == 0x11
    then key_w
    else if scan_code == 0x12
    then key_e
    else if scan_code == 0x13
    then key_r
    else if scan_code == 0x14
    then key_t
    else if scan_code == 0x15
    then key_y
    else if scan_code == 0x16
    then key_u
    else if scan_code == 0x17
    then key_i
    else if scan_code == 0x18
    then key_o
    else if scan_code == 0x19
    then key_p
    else if scan_code == 0x1a
    then left_bracket
    else if scan_code == 0x1b
    then right_bracket
    else if scan_code == 0x1c
    then enter
    else if scan_code == 0x1e
    then key_a
    else if scan_code == 0x1f
    then key_s
    else if scan_code == 0x20
    then key_d
    else if scan_code == 0x21
    then key_f
    else if scan_code == 0x22
    then key_g
    else if scan_code == 0x23
    then key_h
    else if scan_code == 0x24
    then key_j
    else if scan_code == 0x25
    then key_k
    else if scan_code == 0x26
    then key_l
    else if scan_code == 0x27
    then semicolon
    else if scan_code == 0x28
    then apostrophe
    else if scan_code == 0x29
    then grave
    else if scan_code == 0x2a
    then left_shift
    else if scan_code == 0x2b
    then backslash
    else if scan_code == 0x2c
    then key_z
    else if scan_code == 0x2d
    then key_x
    else if scan_code == 0x2e
    then key_c
    else if scan_code == 0x2f
    then key_v
    else if scan_code == 0x30
    then key_b
    else if scan_code == 0x31
    then key_n
    else if scan_code == 0x32
    then key_m
    else if scan_code == 0x33
    then comma
    else if scan_code == 0x34
    then period
    else if scan_code == 0x35
    then slash
    else if scan_code == 0x36
    then right_shift
    else if scan_code == 0x39
    then space
    else unknown

unfoldable pub is_unknown : KeyCode → Bool
is_unknown unknown = true
is_unknown key = false

abbrev pub shifted_byte : ℕ → ℕ → Bool → ℕ
shifted_byte normal shifted shift_active = if shift_active then shifted else normal

-- What a pressed key types.
unfoldable pub key_byte : KeyCode → Bool → Option ℕ
key_byte enter shifted = some b'\n'
key_byte backspace shifted = some 0x7f
key_byte key_a shifted = some (shifted_byte b'a' b'A' shifted)
key_byte key_b shifted = some (shifted_byte b'b' b'B' shifted)
key_byte key_c shifted = some (shifted_byte b'c' b'C' shifted)
key_byte key_d shifted = some (shifted_byte b'd' b'D' shifted)
key_byte key_e shifted = some (shifted_byte b'e' b'E' shifted)
key_byte key_f shifted = some (shifted_byte b'f' b'F' shifted)
key_byte key_g shifted = some (shifted_byte b'g' b'G' shifted)
key_byte key_h shifted = some (shifted_byte b'h' b'H' shifted)
key_byte key_i shifted = some (shifted_byte b'i' b'I' shifted)
key_byte key_j shifted = some (shifted_byte b'j' b'J' shifted)
key_byte key_k shifted = some (shifted_byte b'k' b'K' shifted)
key_byte key_l shifted = some (shifted_byte b'l' b'L' shifted)
key_byte key_m shifted = some (shifted_byte b'm' b'M' shifted)
key_byte key_n shifted = some (shifted_byte b'n' b'N' shifted)
key_byte key_o shifted = some (shifted_byte b'o' b'O' shifted)
key_byte key_p shifted = some (shifted_byte b'p' b'P' shifted)
key_byte key_q shifted = some (shifted_byte b'q' b'Q' shifted)
key_byte key_r shifted = some (shifted_byte b'r' b'R' shifted)
key_byte key_s shifted = some (shifted_byte b's' b'S' shifted)
key_byte key_t shifted = some (shifted_byte b't' b'T' shifted)
key_byte key_u shifted = some (shifted_byte b'u' b'U' shifted)
key_byte key_v shifted = some (shifted_byte b'v' b'V' shifted)
key_byte key_w shifted = some (shifted_byte b'w' b'W' shifted)
key_byte key_x shifted = some (shifted_byte b'x' b'X' shifted)
key_byte key_y shifted = some (shifted_byte b'y' b'Y' shifted)
key_byte key_z shifted = some (shifted_byte b'z' b'Z' shifted)
key_byte digit_0 shifted = some (shifted_byte b'0' b')' shifted)
key_byte digit_1 shifted = some (shifted_byte b'1' b'!' shifted)
key_byte digit_2 shifted = some (shifted_byte b'2' b'@' shifted)
key_byte digit_3 shifted = some (shifted_byte b'3' b'#' shifted)
key_byte digit_4 shifted = some (shifted_byte b'4' b'$' shifted)
key_byte digit_5 shifted = some (shifted_byte b'5' b'%' shifted)
key_byte digit_6 shifted = some (shifted_byte b'6' b'^' shifted)
key_byte digit_7 shifted = some (shifted_byte b'7' b'&' shifted)
key_byte digit_8 shifted = some (shifted_byte b'8' b'*' shifted)
key_byte digit_9 shifted = some (shifted_byte b'9' b'(' shifted)
key_byte space shifted = some b' '
key_byte minus shifted = some (shifted_byte b'-' b'_' shifted)
key_byte equals shifted = some (shifted_byte b'=' b'+' shifted)
key_byte left_bracket shifted = some (shifted_byte b'[' b'{' shifted)
key_byte right_bracket shifted = some (shifted_byte b']' b'}' shifted)
key_byte backslash shifted = some (shifted_byte b'\\' b'|' shifted)
key_byte semicolon shifted = some (shifted_byte b';' b':' shifted)
key_byte apostrophe shifted = some (shifted_byte b'\'' b'"' shifted)
key_byte grave shifted = some (shifted_byte b'`' b'~' shifted)
key_byte comma shifted = some (shifted_byte b',' b'<' shifted)
key_byte period shifted = some (shifted_byte b'.' b'>' shifted)
key_byte slash shifted = some (shifted_byte b'/' b'?' shifted)
key_byte left_shift shifted = none
key_byte right_shift shifted = none
key_byte unknown shifted = none

unfoldable pub key_event_to_input_byte : KeyEvent → Option ℕ
unfolding key_byte
key_event_to_input_byte event = elim event.state [
  | pressed ↦ key_byte event.key event.shift_active
  | released ↦ none
]
