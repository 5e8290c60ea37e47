-- ===== src/Process/Streams.antt =====
-- The bytes that a process writes to the terminal and reads from it, kernel/kernel/src/process.rs, `read`
-- and `write`.
use lazers.Base.{
  ℕ, zero, suc, ◌-◌, ◌<◌, min, true, false, Option, none, some, [], ◌∷◌, ◌++◌, ◌≡◌, refl, sym, ap,
  ◌∙◌, inl, inr, arith,
}
use lazers.Base.Tests.{ltb, if◌then◌else◌, Bool-cases}
use mathlib.Core.Path.{subst}
use mathlib.Core.List.{append-nil, append_assoc}
use lazers.Base.Lists.{length, take, drop, length-append}
use lazers.Base.Words.{Bytes}
use lazers.Ring.{capacity}
use lazers.Ring.Refine.{Holds, push-Holds, pop-some, pop-none, popped, popped-Holds}
use lazers.Terminal.{TerminalEndpoint, push_output_byte, pop_input_byte, keep}
use lazers.Base.Tests.{◌==◌}
use lazers.Serial.{SerialLine, write_byte}
use lazers.Process.{Process, terminal_endpoint, resolve_fd, read, write, read_from, write_to}

-- One byte of output: it is queued if there is room, and written to the serial line in any case.
push_output_byte_lem :
    (b : ℕ) (t : TerminalEndpoint) (xs : Bytes)
    → Holds t.output xs
    → let (done, t') = push_output_byte b t in
      (done ≡ ltb (length xs) (capacity t.output))
      × Holds t'.output (if ltb (length xs) (capacity t.output) then xs ++ (b ∷ []) else xs)
      × (capacity t'.output ≡ capacity t.output)
      × (t'.serial ≡ write_byte b t.serial)
      × (t'.input ≡ t.input)
unfolding push_output_byte
push_output_byte_lem b t xs h = let p = push-Holds b t.output xs h in (p.1, p.0, p.2, refl, refl)

write_to-accepted :
    (b : ℕ) (bs : Bytes) (t : TerminalEndpoint)
    → (push_output_byte b t).0 ≡ true
    → write_to (b ∷ bs) terminal_endpoint t ≡ (
        let later = write_to bs terminal_endpoint (push_output_byte b t).1 in
        (suc later.0, later.1))
unfolding write_to
write_to-accepted b bs t h = rw (h, write_to) refl

write_to-refused :
    (b : ℕ) (bs : Bytes) (t : TerminalEndpoint)
    → (push_output_byte b t).0 ≡ false
    → write_to (b ∷ bs) terminal_endpoint t ≡ (0, (push_output_byte b t).1)
unfolding write_to
write_to-refused b bs t h = rw (h, write_to) refl

write_to-nil : (t : TerminalEndpoint) → write_to [] terminal_endpoint t ≡ (0, t)
write_to-nil t = unfold write_to in refl

-- The bytes as the serial line carries them, a carriage return before each line feed.
abbrev pub on_wire : Bytes → Bytes
on_wire [] = []
on_wire (b ∷ bs) = if b == b'\n' then 13 ∷ b ∷ on_wire bs else b ∷ on_wire bs

-- The line after bytes were written to it: they are sent if there is a port.
abbrev pub logged : Bytes → SerialLine → SerialLine
logged bs line = if line.ready then record line { sent = line.sent ++ on_wire bs } else line

abbrev sending : Bytes → SerialLine
sending bs = record { ready = true; sent = bs }

logged-nil : (line : SerialLine) → logged [] line ≡ line
logged-nil line = elim (Bool-cases line.ready) [
  | inl e ↦ rw e (ap sending (append-nil line.sent))
  | inr e ↦ rw e refl
]

logged-cons :
    (b : ℕ) (bs : Bytes) (line : SerialLine) → logged (b ∷ bs) line ≡ logged bs (write_byte b line)
unfolding write_byte
logged-cons b bs line = elim (Bool-cases line.ready) [
  | inr e ↦ rw e refl
  | inl e ↦ elim (Bool-cases (b == b'\n')) [
    | inl f ↦
        rw (e, f)
          (ap sending (
            sym (
              append_assoc (line.sent ++ (13 ∷ [])) (b ∷ []) (on_wire bs)
              ∙ append_assoc line.sent (13 ∷ []) (b ∷ on_wire bs))))
    | inr f ↦ rw (e, f) (ap sending (sym (append_assoc line.sent (b ∷ []) (on_wire bs))))
  ]
]

-- What a write leaves behind when `n` bytes were accepted.
abbrev pub Written : Bytes → TerminalEndpoint → Bytes → ℕ × TerminalEndpoint → Type 0
Written bs t xs (n, t') =
    (n ≡ min (length bs) (capacity t.output - length xs))
    × Holds t'.output (xs ++ take n bs)
    × (t'.serial ≡ logged (take (suc n) bs) t.serial)
    × (t'.input ≡ t.input)

written :
    (bs : Bytes) (t : TerminalEndpoint) (xs : Bytes)
    → Holds t.output xs
    → Written bs t xs (write_to bs terminal_endpoint t)
written [] t xs h =
    subst (Written [] t xs) (sym (write_to-nil t))
      (omega arith, subst (Holds t.output) (sym (append-nil xs)) h, sym (logged-nil t.serial), refl)
written (b ∷ bs) t xs h =
    let (done, holds, same, serial, input) = push_output_byte_lem b t xs h in
    let t1 = (push_output_byte b t).1 in
    elim (Bool-cases (ltb (length xs) (capacity t.output))) [
      | inr full ↦
          let at_xs : Holds t1.output xs = rw full at holds in
          subst (Written (b ∷ bs) t xs) (sym (write_to-refused b bs t (done ∙ full))) (
            ground arith,
            subst (Holds t1.output) (sym (append-nil xs)) at_xs,
            serial ∙ sym (logged-nil _) ∙ sym (logged-cons b [] t.serial),
            input,
          )
      | inl room ↦
          let at_more : Holds t1.output (xs ++ (b ∷ [])) = rw room at holds in
          let space : length xs < capacity t.output = ground arith in
          let more = take (suc (write_to bs terminal_endpoint t1).0) bs in
          let (count, queued, sent, untouched) = written bs t1 (xs ++ (b ∷ [])) at_more in
          subst (Written (b ∷ bs) t xs) (sym (write_to-accepted b bs t (done ∙ room))) (
            omega (arith, count, same, space, length-append xs (b ∷ [])),
            subst (Holds _) (append_assoc xs (b ∷ []) _) queued,
            sent ∙ ap (logged more) serial ∙ sym (logged-cons b more t.serial),
            untouched ∙ input,
          )
    ]

-- Let the output queue of the terminal hold `xs`, and let a descriptor stand for the terminal. A write
-- accepts as many bytes as there are and the queue has room for, and queues these behind `xs`. If
-- a serial port was found, the accepted bytes are sent to it as well, and after them the byte that was
-- refused, if one was, with a carriage return before each line feed. If none was found, nothing is sent.
pub write-Written :
    (fd : ℕ) (buffer : Bytes) (p : Process) (t : TerminalEndpoint) (xs : Bytes)
    → resolve_fd fd p ≡ some terminal_endpoint
    → Holds t.output xs
    → Written buffer t xs (write fd buffer p t)
unfolding write
write-Written fd buffer p t xs found h = rw (found, write) (written buffer t xs h)

-- What is read, and what is left behind.
abbrev pub TakenIn : ℕ → TerminalEndpoint → Bytes → Bytes × TerminalEndpoint → Type 0
TakenIn size t xs (bytes, t') =
    (bytes ≡ take size xs)
    × Holds t'.input (drop size xs)
    × (t'.output ≡ t.output)
    × (t'.serial ≡ t.serial)

pop_input_byte-some :
    (t : TerminalEndpoint) (x : ℕ) (xs : Bytes)
    → Holds t.input (x ∷ xs)
    → pop_input_byte t ≡ (some x, record t { input = popped keep x t.input })
unfolding pop_input_byte
pop_input_byte-some t x xs h = rw (pop-some keep t.input x xs h) refl

pop_input_byte-none : (t : TerminalEndpoint) → Holds t.input [] → pop_input_byte t ≡ (none, t)
unfolding pop_input_byte
pop_input_byte-none t h = rw (pop-none keep t.input h) refl

-- How a read goes on after a byte was asked for.
abbrev read_next : ℕ → Option ℕ × TerminalEndpoint → Bytes × TerminalEndpoint
read_next size next = elim next.0 [
  | none ↦ ([], next.1)
  | some b ↦ let later = read_from size terminal_endpoint next.1 in (b ∷ later.0, later.1)
]

read_from-suc :
    (size : ℕ) (t : TerminalEndpoint)
    → read_from (suc size) terminal_endpoint t ≡ read_next size (pop_input_byte t)
unfolding read_from
read_from-suc size t = refl

taken_in :
    (size : ℕ) (t : TerminalEndpoint) (xs : Bytes)
    → Holds t.input xs
    → TakenIn size t xs (read_from size terminal_endpoint t)
taken_in zero t xs h = unfold read_from in (refl, h, refl, refl)
taken_in (suc size) t [] h =
    subst (TakenIn (suc size) t [])
      (sym (read_from-suc size t ∙ ap (read_next size) (pop_input_byte-none t h)))
      (refl, h, refl, refl)
taken_in (suc size) t (x ∷ xs) h =
    let t1 = record t { input = popped keep x t.input } in
    let (bytes, rest, output, serial) = taken_in size t1 xs (popped-Holds keep t.input x xs h) in
    subst (TakenIn (suc size) t (x ∷ xs))
      (sym (read_from-suc size t ∙ ap (read_next size) (pop_input_byte-some t x xs h)))
      (ap (λ bs. x ∷ bs) bytes, rest, output, serial)

-- Let the input queue of the terminal hold `xs`, and let a descriptor stand for the terminal. A read
-- into a buffer takes the oldest bytes, as many as there are and the buffer holds, and leaves the
-- others, the output and the serial line as they are.
pub read-TakenIn :
    (fd size : ℕ) (p : Process) (t : TerminalEndpoint) (xs : Bytes)
    → resolve_fd fd p ≡ some terminal_endpoint
    → Holds t.input xs
    → TakenIn size t xs (read fd size p t)
unfolding read
read-TakenIn fd size p t xs found h = rw (found, read) (taken_in size t xs h)
