-- ===== src/Lash/Editor.antt =====
-- The line that is being typed, user/lash/src/repl.rs, and the start of the shell, which reads lines or
-- executes the one that it is given (user/lash/src/shell.rs).
pub mod Typed
use lazers.Base.{
  ℕ, zero, suc, ◌+◌, ◌-◌, ◌*◌, ◌/◌, ◌%◌, ◌^◌, ◌≤◌, ◌<◌, min, max, Bool, true, false, not, ◌&&◌,
  ◌||◌, Option, none, some, List, [], ◌∷◌, ◌++◌, map, ◌≡◌, ◌≢◌, ◌↔◌, refl, sym, ap, ◌∙◌, ◌⊎◌, inl,
  inr, arith,
}
use lazers.Base.Tests.{ltb, leb, if◌then◌else◌, ◌==◌, Bool-cases, Option-cases}
use lazers.Base.Lists.{length, set, take, replicate}
use lazers.Base.Words.{Bytes}
use lazers.Base.Text.{codes, from_utf8, equal}
use lazers.Base.Results.{Result, ok, err}
use lazers.Lash.{line_capacity}
use lazers.Lash.System.{
  System, Program, GetCwdError, return, exit, asks, ◌>>=◌, ◌>>◌, println, write,
}
use lazers.Lash.Paths.{root_text}
use lazers.Lash.Paths.Search.{text_or}
use lazers.Lash.Commands.{interactive, batch}
use lazers.Lash.Shell.{execute_line}

-- `Shell`, less the buffers that its calls fill.
pub record Editor : Type 0 where
  pub line : Bytes
  pub len : ℕ

abbrev pub blank_editor : Editor
blank_editor = record { line = replicate line_capacity 0; len = 0 }

abbrev prompt_text : Result GetCwdError Bytes → Bytes
prompt_text (ok cwd) = text_or root_text (from_utf8 cwd)
prompt_text (err e) = root_text

module _ {W : Type 0} (sys : System W) where
  unfoldable pub print_prompt : Program W (Unit {0})
  print_prompt =
      asks (sys.getcwd line_capacity) >>= λ cwd. write sys (prompt_text cwd ++ codes " > ")

  unfoldable pub append_printable : ℕ → Editor → Program W Editor
  append_printable byte ed =
      if leb line_capacity ed.len
      then return ed
      else (write sys (byte ∷ [])
          >> return (record { line = set ed.line ed.len byte; len = ed.len + 1 }))

  unfoldable pub backspace : Editor → Program W Editor
  backspace ed =
      if ed.len == 0
      then return ed
      else (write sys (127 ∷ []) >> return (record ed { len = ed.len - 1 }))

  unfoldable pub submit_line : Editor → Program W Editor
  submit_line ed =
      println sys []
      >> execute_line sys (take ed.len ed.line) interactive
      >> print_prompt
      >> return (record ed { len = 0 })

  -- One byte that `run_interactive` has read.
  unfoldable pub handle_byte : ℕ → Editor → Program W Editor
  handle_byte byte ed =
      if byte == b'\n'
      then submit_line ed
      else if byte == 127
      then backspace ed
      else if leb 32 byte && leb byte 126
      then append_printable byte ed
      else return ed

  unfoldable pub handle_bytes : Bytes → Editor → Program W Editor
  handle_bytes [] ed = return ed
  handle_bytes (byte ∷ bytes) ed = handle_byte byte ed >>= handle_bytes bytes

  -- The bytes that are read one by one; a read that brings none and the yields change nothing here.
  unfoldable pub run_interactive : Bytes → Program W Editor
  run_interactive bytes =
      println sys (codes "Lash !!") >> print_prompt >> handle_bytes bytes blank_editor

  abbrev run_string : List Bytes → Program W Editor
  run_string [] = println sys (codes "lash: missing command string") >> exit 1
  run_string (line ∷ args) = execute_line sys line batch >>= λ status. exit status

  -- The arguments are the program's name and what follows it.
  unfoldable pub start : List Bytes → Bytes → Program W Editor
  start (name ∷ option ∷ args) bytes =
      if equal option (codes "-c") then run_string args else run_interactive bytes
  start _ bytes = run_interactive bytes
