-- ===== src/Fat/Directory.antt =====
-- Directories and paths, kernel/kernel/src/storage/fat32.rs. A result is `none` if the walk over a chain
-- has not come to its end within the fuel.
use lazers.Base.{ℕ, ◌+◌, ◌*◌, Option, some, List, [], ◌∷◌, ◌++◌}
use lazers.Base.Tests.{ltb, if◌then◌else◌}
use lazers.Base.Lists.{length, take, drop}
use lazers.Base.Words.{Bytes}
use lazers.Base.Text.{equal, is_nil, starts_with}
use lazers.Base.Results.{Result, ok, err, and_then}
use lazers.Path.{
  StorageError, path_not_absolute, file_not_found, not_a_file, not_a_directory, buffer_too_small,
  split,
}
use lazers.Fat.{
  BlockDevice, Fat32, FatDirectoryEntry, FatResolvedPath, root_directory, directory, file, le_at,
  byte_at, has_bit,
}
use lazers.Fat.Names.{make_short_name, display_short_name, is_dot_entry}
use lazers.Fat.Scan.{
  EntryKind, end_mark, passed_over, named, kind_of, Visit, next, done, scan_chain,
}

abbrev pub entry_of : Bytes → FatDirectoryEntry
entry_of entry = record {
  first_cluster = le_at 2 entry 20 * 65536 + le_at 2 entry 26;
  size = le_at 4 entry 28;
  is_directory = has_bit 4 (byte_at entry 11);
}

abbrev pub Found : Type 0
Found = Result StorageError FatDirectoryEntry

-- One entry in the search for a short name.
abbrev pub find_at : Bytes → EntryKind → Bytes → Visit (Unit {0}) Found
find_at name end_mark entry = done (err file_not_found)
find_at name passed_over entry = next tt
find_at name named entry =
    if equal (take 11 entry) name then done (ok (entry_of entry)) else next tt

abbrev pub find_entry : Bytes → Bytes → Unit {0} → Visit (Unit {0}) Found
find_entry name entry _ = find_at name (kind_of entry) entry

abbrev pub find_failed : StorageError → Unit {0} → Found
find_failed e _ = err e

-- The part of a buffer that has been written, and the result.
abbrev pub Written : Type 0
Written = Bytes × Result StorageError ℕ

-- A line of the listing, if the buffer of `size` bytes has room for it.
abbrev pub list_name : ℕ → Bytes → Bytes → Visit Bytes Written
list_name size name out =
    if is_dot_entry name
    then next out
    else if ltb size (length out + (length name + 1))
    then done (out, err buffer_too_small)
    else next (out ++ (name ++ (b'\n' ∷ [])))

abbrev pub list_at : ℕ → EntryKind → Bytes → Bytes → Visit Bytes Written
list_at size end_mark entry out = done (out, ok (length out))
list_at size passed_over entry out = next out
list_at size named entry out = list_name size (display_short_name (take 11 entry)) out

abbrev pub list_entry : ℕ → Bytes → Bytes → Visit Bytes Written
list_entry size entry out = list_at size (kind_of entry) entry out

abbrev pub list_failed : StorageError → Bytes → Written
list_failed e out = (out, err e)

-- The buffer after its front has been written.
abbrev pub over_buffer : Bytes → Written → Bytes × Result StorageError ℕ
over_buffer buffer (out, result) = (out ++ drop (length out) buffer, result)

-- `path.split('/').filter(|component| !component.is_empty())`
unfoldable pub components : List Bytes → List Bytes
components [] = []
components (part ∷ parts) = let rest = components parts in if is_nil part then rest else part ∷ rest

-- What the last component of a path is.
abbrev pub resolved : Found → Result StorageError FatResolvedPath
resolved (err e) = err e
resolved (ok entry) = ok (if entry.is_directory then directory entry.first_cluster else file entry)

module _ (device : BlockDevice) (fs : Fat32) where
  abbrev pub search : ℕ → ℕ → Result StorageError Bytes → Option Found
  search fuel start_cluster (ok name) =
      scan_chain (find_entry name) find_failed device fuel fs start_cluster tt
  search fuel start_cluster (err e) = some (err e)

  unfoldable pub find_in_directory : ℕ → ℕ → Bytes → Option Found
  find_in_directory fuel start_cluster component =
      search fuel start_cluster (make_short_name component)

  -- From an entry on the way to the rest of the path.
  abbrev enter :
      (ℕ → Option (Result StorageError FatResolvedPath))
      → Found
      → Option (Result StorageError FatResolvedPath)
  enter rest (err e) = some (err e)
  enter rest (ok entry) =
      if entry.is_directory then rest entry.first_cluster else some (err file_not_found)

  unfoldable pub resolve_components :
      ℕ → List Bytes → ℕ → Option (Result StorageError FatResolvedPath)
  resolve_components fuel [] cluster = some (ok root_directory)
  resolve_components fuel (component ∷ []) cluster =
      and_then (find_in_directory fuel cluster component) λ found. some (resolved found)
  resolve_components fuel (component ∷ following ∷ rest) cluster =
      and_then (find_in_directory fuel cluster component)
        (enter (resolve_components fuel (following ∷ rest)))

  unfoldable pub resolve_absolute : ℕ → Bytes → Option (Result StorageError FatResolvedPath)
  resolve_absolute fuel path =
      if starts_with b'/' path
      then resolve_components fuel (components (split path)) fs.root_cluster
      else some (err path_not_absolute)

  abbrev file_only : Result StorageError FatResolvedPath → Found
  file_only (err e) = err e
  file_only (ok (file entry)) = ok entry
  file_only (ok _) = err not_a_file

  unfoldable pub open_absolute : ℕ → Bytes → Option Found
  open_absolute fuel path = and_then (resolve_absolute fuel path) λ found. some (file_only found)

  abbrev pub directory_only : Result StorageError FatResolvedPath → Result StorageError ℕ
  directory_only (err e) = err e
  directory_only (ok root_directory) = ok fs.root_cluster
  directory_only (ok (directory cluster)) = ok cluster
  directory_only (ok (file entry)) = err not_a_directory

  abbrev done_only : Result StorageError ℕ → Result StorageError (Unit {0})
  done_only (ok cluster) = ok tt
  done_only (err e) = err e

  unfoldable pub ensure_dir : ℕ → Bytes → Option (Result StorageError (Unit {0}))
  ensure_dir fuel path =
      and_then (resolve_absolute fuel path) λ found. some (done_only (directory_only found))

  abbrev pub list_from : ℕ → Bytes → Result StorageError ℕ → Option (Bytes × Result StorageError ℕ)
  list_from fuel buffer (err e) = some (buffer, err e)
  list_from fuel buffer (ok cluster) =
      and_then (scan_chain (list_entry (length buffer)) list_failed device fuel fs cluster [])
        λ written. some (over_buffer buffer written)

  -- The buffer afterwards, and the result.
  unfoldable pub read_dir : ℕ → Bytes → Bytes → Option (Bytes × Result StorageError ℕ)
  read_dir fuel path buffer =
      and_then (resolve_absolute fuel path) λ found. list_from fuel buffer (directory_only found)
