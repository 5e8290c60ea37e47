-- ===== src/Root.antt =====
-- The root file system, kernel/kernel/src/storage/rootfs.rs. Whatever finds and starts the controller of
-- the disk, its result is an argument; so is the allocation of a kernel buffer. A result is `none` if the
-- call does not come back within the fuel for chains of clusters.
pub mod Safe
pub mod System
pub mod Contents
pub mod Examples
use lazers.Base.{
  ℕ, zero, suc, ◌+◌, ◌-◌, ◌*◌, ◌/◌, ◌%◌, ◌^◌, ◌≤◌, ◌<◌, min, max, Bool, true, false, not, ◌&&◌,
  ◌||◌, Option, none, some, List, [], ◌∷◌, ◌++◌, map, ◌≡◌, ◌≢◌, ◌↔◌, refl, sym, ap, ◌∙◌, ◌⊎◌, inl,
  inr, arith,
}
use lazers.Base.Tests.{ltb, leb, if◌then◌else◌, ◌==◌, Bool-cases, Option-cases}
use lazers.Base.Lists.{length, drop, length-append, length-drop}
use lazers.Base.Words.{Bytes, word}
use lazers.Base.Results.{Result, ok, err, and_then, and_then-eq-some}
use lazers.Base.Results.{ok_or, ◌>>=◌}
use lazers.Base.Text.{codes}
use lazers.Allocator.{MemoryError}
use lazers.Path.{
  StorageError, memory, missing_esp_partition, missing_system_partition, root_fs_unavailable,
}
use lazers.Fat.{BlockDevice, Fat32, FatDirectoryEntry, mount}
use lazers.Fat.Directory.{open_absolute, ensure_dir, read_dir}
use lazers.Fat.File as File
use lazers.Gpt.{GptPartition, read, find_by_type, find_by_name, efi_system_partition_guid}
use lazers.Scheduler.Services.{RootFs}

-- A file system with its device.
pub record Mounted : Type 0 where
  pub device : BlockDevice
  pub fs : Fat32

abbrev pub system_name : Bytes
system_name = codes "LAZERS-SYSTEM"

abbrev pub mount_partition : BlockDevice → GptPartition → Result StorageError Mounted
mount_partition device system = mount device system.start_lba system.sector_count >>= λ fs.
    ok (record { device = device; fs = fs })

unfoldable pub mount_root_fs : Result StorageError BlockDevice → Result StorageError Mounted
mount_root_fs started = started >>= λ device. read device >>= λ partitions.
    ok_or (find_by_type efi_system_partition_guid partitions) missing_esp_partition >>= λ esp.
    ok_or (find_by_name system_name partitions) missing_system_partition >>= mount_partition device

abbrev pub slot_after :
    Option Mounted → Result StorageError Mounted → Option Mounted × Result StorageError (Unit {0})
slot_after slot (ok mounted) = (some mounted, ok tt)
slot_after slot (err e) = (slot, err e)

-- The slot `ROOT_FS` afterwards, and the result.
unfoldable pub init_root_fs :
    Result StorageError BlockDevice
    → Option Mounted
    → Option Mounted × Result StorageError (Unit {0})
init_root_fs started slot = slot_after slot (mount_root_fs started)

module _ (fuel : ℕ) where
  abbrev pub read_found :
      Mounted
      → Bytes
      → Result StorageError FatDirectoryEntry
      → Option (Bytes × Result StorageError ℕ)
  read_found mounted buffer (err e) = some (buffer, err e)
  read_found mounted buffer (ok entry) = File.read_file mounted.device mounted.fs entry buffer

  unfoldable pub read_file_into : Mounted → Bytes → Bytes → Option (Bytes × Result StorageError ℕ)
  read_file_into mounted path buffer =
      and_then (open_absolute mounted.device mounted.fs fuel path) (read_found mounted buffer)

  -- With the assertion that the count is the length of the buffer; `none` if it fails.
  abbrev pub asserted : Bytes × Result StorageError ℕ → Option (Result StorageError Bytes)
  asserted (buffer, err e) = some (err e)
  asserted (buffer, ok count) = if count == length buffer then some (ok buffer) else none

  abbrev pub load_into :
      Mounted → FatDirectoryEntry → Result MemoryError Bytes → Option (Result StorageError Bytes)
  load_into mounted entry (err e) = some (err (memory e))
  load_into mounted entry (ok buffer) =
      and_then (File.read_file mounted.device mounted.fs entry buffer) asserted

  abbrev pub load :
      (ℕ → Result MemoryError Bytes)
      → Mounted
      → Result StorageError FatDirectoryEntry
      → Option (Result StorageError Bytes)
  load allocate mounted (err e) = some (err e)
  load allocate mounted (ok entry) = load_into mounted entry (allocate entry.size)

  -- `RootFs::read_file`, the contents in a kernel buffer.
  unfoldable pub read_file :
      (ℕ → Result MemoryError Bytes) → Mounted → Bytes → Option (Result StorageError Bytes)
  read_file allocate mounted path =
      and_then (open_absolute mounted.device mounted.fs fuel path) (load allocate mounted)

  unfoldable pub read_root_file_into :
      Option Mounted → Bytes → Bytes → Option (Bytes × Result StorageError ℕ)
  read_root_file_into none path buffer = some (buffer, err root_fs_unavailable)
  read_root_file_into (some mounted) path buffer = read_file_into mounted path buffer

  unfoldable pub read_root_dir :
      Option Mounted → Bytes → Bytes → Option (Bytes × Result StorageError ℕ)
  read_root_dir none path buffer = some (buffer, err root_fs_unavailable)
  read_root_dir (some mounted) path buffer = read_dir mounted.device mounted.fs fuel path buffer

  unfoldable pub ensure_root_dir : Option Mounted → Bytes → Option (Result StorageError (Unit {0}))
  ensure_root_dir none path = some (err root_fs_unavailable)
  ensure_root_dir (some mounted) path = ensure_dir mounted.device mounted.fs fuel path

  unfoldable pub read_root_file :
      (ℕ → Result MemoryError Bytes) → Option Mounted → Bytes → Option (Result StorageError Bytes)
  read_root_file allocate none path = some (err root_fs_unavailable)
  read_root_file allocate (some mounted) path = read_file allocate mounted path

  -- What the services of the scheduler ask of the file system in the slot.
  abbrev pub root_fs : Option Mounted → RootFs
  root_fs slot = record {
    ensure_dir = ensure_root_dir slot;
    read_file_into = read_root_file_into slot;
    read_dir = read_root_dir slot;
  }
