-- ===== src/Lash/Shell/Examples.antt =====
-- The shell run on a small system whose world is what has been written, and its theorems at inputs that
-- meet their hypotheses.
use lazers.Base.{List, true, false, some, [], ◌∷◌, ◌++◌, map, ◌≡◌, refl, arith}
use lazers.Base.Tests.{if◌then◌else◌}
use lazers.Base.Words.{Bytes}
use lazers.Base.Text.{codes, equal, contains, from_utf8}
use lazers.Base.Results.{ok, err}
use lazers.Lash.{and}
use lazers.Lash.Tokens.Quote.{command_line}
use lazers.Lash.Tokens.Words.{Fits}
use lazers.Lash.Segments.Pieces.{Chain}
use lazers.Lash.System.{
  System, calls, return, ◌>>=◌, ◌>>◌, println, file_not_found, not_found, resource_unavailable,
}
use lazers.Lash.Commands.{interactive, batch, spawn_outcome}
use lazers.Lash.Shell.{execute_segment, execute_line}
use lazers.Lash.Shell.Spawn.{execute_segment-path}
use lazers.Lash.Editor.{start, Editor, blank_editor, handle_bytes, print_prompt}
use lazers.Lash.Editor.Typed.{type_bytes, echo_bytes, handle_bytes-enter}

-- A system with one program, which writes its path and succeeds.
abbrev pub small_system : System Bytes
small_system = record {
  spawn_wait = λ path arguments written.
      if equal path (codes "/bin/ls")
      then (written ++ path, ok 0)
      else (written, err file_not_found);
  get_env = λ key size written. err not_found;
  set_env = λ key value written. (written, err resource_unavailable);
  unset_env = λ key written. (written, err not_found);
  list_env = λ size written. ok [];
  chdir = λ path written. (written, err not_found);
  getcwd = λ size written. ok (codes "/");
  read_file = λ path size written.
      if equal path (codes "/notes") then ok (codes "buy milk") else err not_found;
  read_dir = λ path size written. ok (codes "bin\nnotes\n");
  stdout_write = λ text written. written ++ text;
}

abbrev two_lists : Bytes
two_lists = codes "/bin/ls && /bin/ls"

abbrev two_lists_chain : Chain
two_lists_chain = record { commands = codes "/bin/ls" ∷ codes "/bin/ls" ∷ []; links = and ∷ [] }

abbrev ls_arguments : List Bytes
ls_arguments = codes "a b" ∷ []

ls-Fits : Fits (codes "/bin/ls" ∷ ls_arguments)
ls-Fits = (omega arith, omega arith)

ls_utf8 : map from_utf8 (codes "/bin/ls" ∷ ls_arguments) ≡ map some (codes "/bin/ls" ∷ ls_arguments)
unfolding from_utf8
ls_utf8 = refl

ls_slash : contains b'/' (codes "/bin/ls") ≡ true
unfolding contains
ls_slash = refl

execute_segment-path_example :
    execute_segment small_system (command_line (codes "/bin/ls" ∷ ls_arguments)) batch []
    ≡ (calls (small_system.spawn_wait (codes "/bin/ls") ls_arguments)
          >>= spawn_outcome small_system (codes "/bin/ls") (codes "/bin/ls") batch)
        []
execute_segment-path_example =
    execute_segment-path small_system (codes "/bin/ls") ls_arguments batch [] ls-Fits ls_utf8
      ls_slash

-- `l`, `x`, erased, and `s`.
abbrev keys : Bytes
keys = b'l' ∷ b'x' ∷ 127 ∷ b's' ∷ []

keys_no_line : contains b'\n' keys ≡ false
unfolding contains
keys_no_line = refl

handle_bytes-enter_example :
    (ed : Editor) × (handle_bytes small_system (keys ++ (b'\n' ∷ [])) blank_editor []
      ≡ (println small_system []
            >> execute_line small_system (type_bytes keys []) interactive
            >> print_prompt small_system
            >> return ed)
          (echo_bytes small_system keys [] []))
    × (ed.len ≡ 0)
handle_bytes-enter_example = handle_bytes-enter small_system keys [] keys_no_line

starts_with_a_string :
    start small_system (codes "lash" ∷ codes "-c" ∷ []) [] []
    ≡ (codes "lash: missing command string\n", err 1)
unfolding start equal
starts_with_a_string = refl
