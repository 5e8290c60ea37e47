-- ===== src/Serial.antt =====
-- The serial line, kernel/kernel/src/serial.rs: whether a port was found, and the bytes that have been
-- sent, oldest first. The registers that set up the port, and the wait for the port before each byte, are
-- the machine's.
use lazers.Base.{ℕ, Bool, false, not, [], ◌∷◌, ◌++◌}
use lazers.Base.Tests.{if◌then◌else◌, ◌==◌}
use lazers.Base.Words.{Bytes}

-- `SERIAL_READY`, and what has been sent.
pub record SerialLine : Type 0 where
  pub ready : Bool
  pub sent : Bytes

-- Before the start, `AtomicBool::new(false)`.
abbrev pub unused : SerialLine
unused = record { ready = false; sent = [] }

-- Given what `probe_port` answers.
unfoldable pub init : Bool → SerialLine → SerialLine
init found line = record line { ready = found }

abbrev pub write_raw_byte : ℕ → SerialLine → SerialLine
write_raw_byte byte line = record line { sent = line.sent ++ (byte ∷ []) }

-- A line feed is sent behind a carriage return.
unfoldable pub write_byte : ℕ → SerialLine → SerialLine
write_byte byte line =
    if not line.ready
    then line
    else if byte == b'\n'
    then write_raw_byte byte (write_raw_byte 13 line)
    else write_raw_byte byte line
