-- ===== src/Lash/System.antt =====
-- What the shell asks of the system, libs/liblazer/src, as an interface over the state `W` of the world:
-- the calls with their results, a filled buffer given by its bytes. A program ends in a result, or it
-- exits with a code, which is `err`; a panic exits with 1 (libs/liblazer/src/runtime.rs).
pub use lazers.Syscall.Errors.{
  SpawnError, GetEnvError, SetEnvError, UnsetEnvError, ListEnvError, ReadDirError, ChdirError,
  GetCwdError, ReadFileError, invalid_path, file_not_found, invalid_executable,
  resource_unavailable, invalid_key, not_found, buffer_too_small, key_too_long, value_too_long,
  capacity_exceeded, not_a_file,
}
use lazers.Base.{ℕ, Option, none, some, List, [], ◌∷◌, ◌++◌}
use lazers.Base.Words.{Bytes}
use lazers.Base.Results.{Result, ok, err}
use lazers.Lash.Tokens.{TokenizedCommand, token}

pub record System (W : Type 0) : Type 0 where
  pub spawn_wait : Bytes → List Bytes → W → W × Result SpawnError ℕ
  pub get_env : Bytes → ℕ → W → Result GetEnvError Bytes
  pub set_env : Bytes → Bytes → W → W × Result SetEnvError (Unit {0})
  pub unset_env : Bytes → W → W × Result UnsetEnvError (Unit {0})
  pub list_env : ℕ → W → Result ListEnvError Bytes
  pub chdir : Bytes → W → W × Result ChdirError (Unit {0})
  pub getcwd : ℕ → W → Result GetCwdError Bytes
  pub read_file : Bytes → ℕ → W → Result ReadFileError Bytes
  pub read_dir : Bytes → ℕ → W → Result ReadDirError Bytes
  pub stdout_write : Bytes → W → W

abbrev pub Program : Type 0 → Type 0 → Type 0
Program W A = W → W × Result ℕ A

module _ {W : Type 0} where
  abbrev pub return : {A : Type 0} → A → Program W A
  return a w = (w, ok a)

  abbrev pub exit : {A : Type 0} → ℕ → Program W A
  exit code w = (w, err code)

  -- What follows a program that has come to a result.
  abbrev pub resume : {A B : Type 0} → (A → Program W B) → W × Result ℕ A → W × Result ℕ B
  resume next (w, ok a) = next a w
  resume next (w, err code) = (w, err code)

  infixl 5 ◌>>=◌ ◌>>◌
  abbrev pub ◌>>=◌ : {A B : Type 0} → Program W A → (A → Program W B) → Program W B
  first >>= next = λ w. resume next (first w)

  abbrev pub ◌>>◌ : {A B : Type 0} → Program W A → Program W B → Program W B
  first >> second = first >>= λ _. second

  -- A call that changes the world.
  abbrev pub calls : {A : Type 0} → (W → W × A) → Program W A
  calls call w = ((call w).0, ok (call w).1)

  -- A call that only looks.
  abbrev pub asks : {A : Type 0} → (W → A) → Program W A
  asks look w = (w, ok (look w))

  -- A value that is missing is a panic.
  abbrev pub unwrap : {A : Type 0} → Option A → Program W A
  unwrap none = exit 1
  unwrap (some a) = return a

  module _ (sys : System W) where
    abbrev pub write : Bytes → Program W (Unit {0})
    write text w = (sys.stdout_write text w, ok tt)

    -- `println!`, its pieces written as one.
    abbrev pub println : Bytes → Program W (Unit {0})
    println text = write (text ++ (b'\n' ∷ []))

abbrev or_empty : Option Bytes → Bytes
or_empty none = []
or_empty (some text) = text

-- `tokens.token(index).unwrap_or("")`
abbrev pub token_or_empty : {W : Type 0} → TokenizedCommand → ℕ → Program W Bytes
token_or_empty tokens index = unwrap (token tokens index) >>= λ text. return (or_empty text)
