-- ===== src/Process/Examples.antt =====
-- Tests of the processes and the witnesses of what is proved of them.
use lazers.Base.{true}
use lazers.Serial.{write_byte}
use lazers.Base.{ℕ, none, some, [], ◌∷◌, ◌≡◌, refl}
use lazers.Base.Text.{codes, starts_with}
use lazers.Base.Results.{and_then}
use lazers.Process
use lazers.Process.{
  Process, terminal_endpoint, null, continue, install_stdio, install_handle, first_free,
  inherit_stdio_into, inherit_stdio_silent_into, resolve_fd, set_cwd, copy_cwd_into,
}
use native.Mathlib.Omega.{arith}
use lazers.Ring
use lazers.Ring.Refine.{Holds}
use lazers.Terminal
use lazers.Terminal.{TerminalEndpoint, push_output_byte}
use lazers.Process.{write, write_to, read}
use lazers.Process.Streams.{Written, write-Written}

abbrev with_streams : Process
with_streams = record (Process.new 1 (codes "lash") 4096 (8192 ∷ []) continue) {
  handles = none ∷ some terminal_endpoint ∷ some null ∷ none ∷ [];
  stdio = record { stdin = 1; stdout = 1; stderr = 2 };
}

silent_stdout :
    and_then
      (inherit_stdio_silent_into with_streams (Process.new 2 (codes "child") 0 [] continue))
      (resolve_fd 1)
    ≡ some null
unfolding inherit_stdio_silent_into resolve_fd install_stdio install_handle first_free
silent_stdout = refl

relative_directory : set_cwd (codes "bin") with_streams ≡ none
unfolding set_cwd starts_with
relative_directory = refl

copied_directory : copy_cwd_into with_streams (1 ∷ 2 ∷ []) ≡ some (b'/' ∷ 2 ∷ [], 1)
unfolding copy_cwd_into
copied_directory = refl

-- A queue of two places that holds one byte, so that a write of three is short.
abbrev half_full : TerminalEndpoint
half_full = record Terminal.new {
  serial = record { ready = true; sent = [] };
  output = record (Ring.new 2 0) { slots = 7 ∷ 0 ∷ []; write_index = 1; len = 1 };
}

abbrev waiting_input : TerminalEndpoint
waiting_input = record Terminal.new {
  input = record (Ring.new 2 0) { slots = 5 ∷ 0 ∷ []; write_index = 1; len = 1 };
}

one-Holds :
    (b : ℕ)
    → Holds (record (Ring.new 2 0) { slots = b ∷ 0 ∷ []; write_index = 1; len = 1 }) (b ∷ [])
one-Holds b = record {
  nonempty = omega arith;
  read_in = omega arith;
  write_at = refl;
  count = refl;
  fits = omega arith;
  items = λ j h. let e : j ≡ 0 = omega arith in rw e refl;
}

-- One byte is accepted, and two go to the serial line, the second as two.
short_write : (write 1 (1 ∷ 10 ∷ 3 ∷ []) with_streams half_full).0 ≡ 1
unfolding write write_to push_output_byte resolve_fd Ring.push
short_write = refl

refused_byte_logged :
    (write 1 (1 ∷ 10 ∷ 3 ∷ []) with_streams half_full).1.serial.sent ≡ 1 ∷ 13 ∷ 10 ∷ []
unfolding write write_to push_output_byte write_byte resolve_fd Ring.push
refused_byte_logged = refl

write-Written_example :
    Written (1 ∷ 10 ∷ 3 ∷ []) half_full (7 ∷ []) (write 1 (1 ∷ 10 ∷ 3 ∷ []) with_streams half_full)
unfolding resolve_fd
write-Written_example =
    write-Written 1 (1 ∷ 10 ∷ 3 ∷ []) with_streams half_full (7 ∷ []) refl (one-Holds 7)
