-- ===== src/Path.antt =====
-- Paths made absolute, kernel/kernel/src/storage/path.rs. The buffer is the part of it that is in use,
-- beside its size; the starts of the components are those in use, the last one first.
pub mod Stack
pub mod Normal
pub mod Split
pub mod Again
pub mod Examples
use lazers.Base.{
  ℕ, zero, suc, ◌+◌, ◌-◌, ◌*◌, ◌/◌, ◌%◌, ◌^◌, ◌≤◌, ◌<◌, min, max, Bool, true, false, not, ◌&&◌,
  ◌||◌, Option, none, some, List, [], ◌∷◌, ◌++◌, map, ◌≡◌, ◌≢◌, ◌↔◌, refl, sym, ap, ◌∙◌, ◌⊎◌, inl,
  inr, arith,
}
use lazers.Base.Tests.{ltb, leb, if◌then◌else◌, ◌==◌, Bool-cases, Option-cases}
use lazers.Allocator.{MemoryError}
use lazers.Base.Lists.{length, take}
use lazers.Base.Words.{Bytes}
use lazers.Base.Text.{equal, is_nil, starts_with}
use lazers.Base.Results.{Result, ok, err, ◌>>=◌}

-- storage/mod.rs; only one of these errors is used here.
pub data StorageError : Type 0 where
  memory : MemoryError → StorageError
  ahci_controller_not_found ahci_port_not_found ahci_command_timeout ahci_task_file_error :
      StorageError
  invalid_gpt_header invalid_partition_table missing_esp_partition : StorageError
  missing_system_partition invalid_fat32_boot_sector invalid_path path_not_absolute : StorageError
  invalid_short_name file_not_found not_a_file not_a_directory buffer_too_small : StorageError
  root_fs_unavailable : StorageError

abbrev pub max_path_components : ℕ
max_path_components = 64

abbrev pub onto_first : ℕ → List Bytes → List Bytes
onto_first b [] = (b ∷ []) ∷ []
onto_first b (part ∷ parts) = (b ∷ part) ∷ parts

-- `source.split('/')`
unfoldable pub split : Bytes → List Bytes
split [] = [] ∷ []
split (b ∷ bs) = if b == b'/' then [] ∷ split bs else onto_first b (split bs)

pub record Walk : Type 0 where
  pub text : Bytes
  pub starts : List ℕ

abbrev pub ascend : List ℕ → Walk → Walk
ascend [] w = w
ascend (start ∷ starts) w = record { text = take start w.text; starts = starts }

abbrev pub separator : ℕ → Bytes
separator previous_len = if ltb 1 previous_len then b'/' ∷ [] else []

unfoldable pub descend : ℕ → Bytes → Walk → Result StorageError Walk
descend size part w =
    if leb max_path_components (length w.starts)
      || ltb size (length w.text + length part + (if length w.text == 1 then 0 else 1))
    then err invalid_path
    else ok (record {
      text = w.text ++ (separator (length w.text) ++ part);
      starts = length w.text ∷ w.starts;
    })

abbrev pub dot : Bytes
dot = b'.' ∷ []

abbrev pub dot_dot : Bytes
dot_dot = b'.' ∷ b'.' ∷ []

unfoldable pub walk_part : ℕ → Bytes → Walk → Result StorageError Walk
walk_part size part w =
    if is_nil part || equal part dot
    then ok w
    else if equal part dot_dot
    then ok (ascend w.starts w)
    else descend size part w

unfoldable pub normalize_path_parts : ℕ → List Bytes → Walk → Result StorageError Walk
normalize_path_parts size [] w = ok w
normalize_path_parts size (part ∷ parts) w =
    walk_part size part w >>= normalize_path_parts size parts

abbrev pub at_root : Walk
at_root = record { text = b'/' ∷ []; starts = [] }

abbrev pub finish : Result StorageError Walk → Result StorageError Bytes
finish (ok w) = ok w.text
finish (err e) = err e

-- A buffer of size 0 is a panic, `none`.
unfoldable pub normalize_path : ℕ → Bytes → Bytes → Option (Result StorageError Bytes)
normalize_path size cwd path =
    if is_nil path
    then some (err invalid_path)
    else if size == 0
    then none
    else if starts_with b'/' path
    then some (finish (normalize_path_parts size (split path) at_root))
    else some (
        finish (
          normalize_path_parts size (split cwd) at_root >>= normalize_path_parts size (split path)))
