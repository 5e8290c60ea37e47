-- ===== src/Programs.antt =====
-- The programs user/echo, user/pwd, user/cat and user/ls, over the same interface to the system as the
-- shell. The arguments are those that libs/liblazer/src/runtime.rs hands out, the program's name first;
-- every program exits.
pub mod Examples
use lazers.Base.{ℕ, ◌*◌, Bool, true, false, List, [], ◌∷◌, ◌++◌}
use lazers.Base.Lists.{drop}
use lazers.Base.Words.{Bytes}
use lazers.Base.Text.{codes, from_utf8}
use lazers.Base.Results.{Result, ok, err}
use lazers.Lash.Paths.{root_text}
use lazers.Lash.Paths.Search.{text_or}
use lazers.Lash.System.{
  System, Program, GetCwdError, ReadFileError, ReadDirError, return, exit, asks, ◌>>=◌, ◌>>◌, write,
  println, invalid_path, not_found, not_a_file, buffer_too_small, resource_unavailable,
}

abbrev pub cwd_buffer_size : ℕ
cwd_buffer_size = 256

abbrev pub file_buffer_size : ℕ
file_buffer_size = 32 * 1024

abbrev pub directory_buffer_size : ℕ
directory_buffer_size = 1024

-- The first argument behind the name, or `otherwise`.
abbrev first_argument : Bytes → List Bytes → Bytes
first_argument otherwise [] = otherwise
first_argument otherwise (name ∷ []) = otherwise
first_argument otherwise (name ∷ path ∷ args) = path

module _ {W : Type 0} (sys : System W) where
  -- The loop over the arguments; `first` is whether none has been printed yet.
  unfoldable pub print_args : Bool → List Bytes → Program W (Unit {0})
  print_args first [] = return tt
  print_args true (arg ∷ args) = write sys arg >> print_args false args
  print_args false (arg ∷ args) = write sys (codes " ") >> write sys arg >> print_args false args

  unfoldable pub echo : List Bytes → Program W (Unit {0})
  echo args = print_args true (drop 1 args) >> println sys [] >> exit 0

  abbrev shown_cwd : Result GetCwdError Bytes → Program W (Unit {0})
  shown_cwd (ok cwd) = println sys (text_or root_text (from_utf8 cwd)) >> exit 0
  shown_cwd (err buffer_too_small) = println sys (codes "pwd: path too large") >> exit 1
  shown_cwd (err resource_unavailable) =
      println sys (codes "pwd: unable to read working directory") >> exit 1

  unfoldable pub pwd : Program W (Unit {0})
  pwd = asks (sys.getcwd cwd_buffer_size) >>= shown_cwd

  abbrev shown_file : Bytes → Result ReadFileError Bytes → Program W (Unit {0})
  shown_file path (ok text) = write sys text >> exit 0
  shown_file path (err invalid_path) = println sys (codes "cat: invalid path: " ++ path) >> exit 1
  shown_file path (err not_found) = println sys (codes "cat: file not found: " ++ path) >> exit 1
  shown_file path (err not_a_file) = println sys (codes "cat: not a file: " ++ path) >> exit 1
  shown_file path (err buffer_too_small) = println sys (codes "cat: file too large") >> exit 1
  shown_file path (err resource_unavailable) =
      println sys (codes "cat: unable to read file") >> exit 1

  unfoldable pub cat : List Bytes → Program W (Unit {0})
  cat [] = println sys (codes "cat: missing path") >> exit 1
  cat (name ∷ []) = println sys (codes "cat: missing path") >> exit 1
  cat (name ∷ path ∷ args) = asks (sys.read_file path file_buffer_size) >>= shown_file path

  abbrev shown_directory : Bytes → Result ReadDirError Bytes → Program W (Unit {0})
  shown_directory path (ok listing) = write sys listing >> exit 0
  shown_directory path (err invalid_path) =
      println sys (codes "ls: invalid path: " ++ path) >> exit 1
  shown_directory path (err not_found) =
      println sys (codes "ls: directory not found: " ++ path) >> exit 1
  shown_directory path (err buffer_too_small) = println sys (codes "ls: output too large") >> exit 1
  shown_directory path (err resource_unavailable) =
      println sys (codes "ls: unable to read directory") >> exit 1

  unfoldable pub ls : List Bytes → Program W (Unit {0})
  ls args =
      let path = first_argument (codes ".") args in
      asks (sys.read_dir path directory_buffer_size) >>= shown_directory path
