-- ===== src/Root/Safe.antt =====
-- The kernel with its root file system (kernel/kernel/src/storage/rootfs.rs).
use lazers.Base.{ℕ, true, Option, none, some, ◌≡◌, refl, ◌∙◌, inl, inr, arith}
use lazers.Base.Tests.{◌==◌}
use lazers.Base.Lists.{length}
use lazers.Base.Words.{Bytes}
use lazers.Base.Results.{UnlessErr, Result, ok, err, and_then}
use lazers.Base.Results.{Whenever, Whenever-and_then, Result-cases}
use lazers.Path.{StorageError}
use lazers.Fat.{BlockDevice, FatDirectoryEntry, mount}
use lazers.Fat.Directory.{open_absolute}
use lazers.Fat.Bounded.{length-read_dir}
use lazers.Fat.File.Returns.{Answered, whole, failed, read_file-Answered}
use lazers.Fat.File as File
use lazers.Allocator.{MemoryError}
use lazers.Scheduler.Services.{KeepsSize}
use lazers.Syscall.Handlers.{Machine}
use lazers.Syscall.Dispatch.{TrapFrame, dispatch}
use lazers.Syscall.Safe.Calls.{KernelKept, dispatch-KernelKept}
use lazers.Root.System.{IsSystem, mount_root_fs-UnlessErr}
use lazers.Root.{
  Mounted, mount_root_fs, init_root_fs, read_found, read_file_into, asserted, load, read_file,
  read_root_file_into, read_root_dir, read_root_file, root_fs, slot_after,
}

-- The file system is that of a partition of its device.
pub record IsMounted (mounted : Mounted) : Type 0 where
  pub start_lba : ℕ
  pub sector_count : ℕ
  pub mounts : mount mounted.device start_lba sector_count ≡ ok mounted.fs

-- After its start the slot holds what has been mounted, or nothing.
init_root_fs-IsMounted :
    (started : Result StorageError BlockDevice) → Whenever (init_root_fs started none).0 IsMounted
unfolding init_root_fs
init_root_fs-IsMounted started = held (mount_root_fs started) (mount_root_fs-UnlessErr started)
  where
    held :
        (r : Result StorageError Mounted)
        → UnlessErr r (IsSystem started)
        → Whenever (slot_after none r).0 IsMounted
    held (err e) h = tt
    held (ok mounted) h = record {
      start_lba = h.system.start_lba;
      sector_count = h.system.sector_count;
      mounts = h.mounts;
    }

Answered-Whenever :
    (size : ℕ) (buffer : Bytes) (o : Option (Bytes × Result StorageError ℕ))
    → Answered size buffer o
    → Whenever o (λ x. length x.0 ≡ length buffer)
Answered-Whenever size buffer none x = elim x [ ]
Answered-Whenever size buffer (some (after, ok n)) (whole counted kept) = kept
Answered-Whenever size buffer (some (after, err e)) (failed kept) = kept

read_entry-Answered :
    (mounted : Mounted) (entry : FatDirectoryEntry) (buffer : Bytes)
    → IsMounted mounted
    → Answered entry.size buffer (File.read_file mounted.device mounted.fs entry buffer)
read_entry-Answered mounted entry buffer is =
    read_file-Answered mounted.device is.start_lba is.sector_count mounted.fs entry buffer is.mounts

module _ (fuel : ℕ) where
  read_found-Whenever :
      (mounted : Mounted) (buffer : Bytes) (found : Result StorageError FatDirectoryEntry)
      → IsMounted mounted
      → Whenever (read_found fuel mounted buffer found) (λ x. length x.0 ≡ length buffer)
  read_found-Whenever mounted buffer (err e) is = refl
  read_found-Whenever mounted buffer (ok entry) is =
      Answered-Whenever entry.size buffer _ (read_entry-Answered mounted entry buffer is)

  read_root_file_into-KeepsSize :
      (slot : Option Mounted) → Whenever slot IsMounted → KeepsSize (read_root_file_into fuel slot)
  unfolding read_root_file_into read_file_into
  read_root_file_into-KeepsSize none is path buffer = refl
  read_root_file_into-KeepsSize (some mounted) is path buffer =
      Whenever-and_then (open_absolute mounted.device mounted.fs fuel path)
        (read_found fuel mounted buffer) _ λ found. read_found-Whenever mounted buffer found is

  read_root_dir-KeepsSize : (slot : Option Mounted) → KeepsSize (read_root_dir fuel slot)
  unfolding read_root_dir
  read_root_dir-KeepsSize none path buffer = refl
  read_root_dir-KeepsSize (some mounted) path buffer =
      length-read_dir mounted.device mounted.fs fuel path buffer

  -- With the file system that the start of the kernel has mounted, or none, no trap that is dispatched
  -- changes a byte below the base of the program's image or above the top of its stack, whatever the disk
  -- holds and whatever the registers hold; nothing is said of a panic or of a call that does not come back.
  pub root_fs-KernelKept :
      (started : Result StorageError BlockDevice) (frame : TrapFrame) (m : Machine)
      → KernelKept m (dispatch (root_fs fuel (init_root_fs started none).0) frame m)
  root_fs-KernelKept started frame m =
      let slot = (init_root_fs started none).0 in
      dispatch-KernelKept (root_fs fuel slot)
        (read_root_file_into-KeepsSize slot (init_root_fs-IsMounted started))
        (read_root_dir-KeepsSize slot) frame m

  -- A buffer for the whole of the file that was found, or an error.
  pub data Loaded (found : Result StorageError FatDirectoryEntry)
      : Option (Result StorageError Bytes) → Type 0 where
    refused : {e : StorageError} → Loaded found (some (err e))
    loaded :
        {entry : FatDirectoryEntry} {buffer : Bytes}
        → found ≡ ok entry
        → length buffer ≡ entry.size
        → Loaded found (some (ok buffer))

  asserted-Loaded :
      (entry : FatDirectoryEntry) (buffer : Bytes) (o : Option (Bytes × Result StorageError ℕ))
      → length buffer ≡ entry.size
      → Answered entry.size buffer o
      → Loaded (ok entry) (and_then o (asserted fuel))
  asserted-Loaded entry buffer none full x = elim x [ ]
  asserted-Loaded entry buffer (some (after, err e)) full (failed kept) = refused
  asserted-Loaded entry buffer (some (after, ok n)) full (whole counted kept) =
      let holds : (n == length after) ≡ true = ground (arith, counted, kept, full) in
      rw holds (loaded refl (kept ∙ full))

  load-Loaded :
      (allocate : ℕ → Result MemoryError Bytes) (mounted : Mounted)
      (found : Result StorageError FatDirectoryEntry)
      → ((size : ℕ) (buffer : Bytes) → allocate size ≡ ok buffer → length buffer ≡ size)
      → IsMounted mounted
      → Loaded found (load fuel allocate mounted found)
  load-Loaded allocate mounted (err e) sized is = refused
  load-Loaded allocate mounted (ok entry) sized is = elim (Result-cases (allocate entry.size)) [
    | inl (buffer, e) ↦ rw e (
        asserted-Loaded entry buffer _ (sized entry.size buffer e)
          (read_entry-Answered mounted entry buffer is))
    | inr (e, failure) ↦ rw failure refused
  ]

  -- If the search for a path comes to an end, so does the reading of a whole file into a kernel buffer: with
  -- an error, or with a buffer of the size of the entry that was found. The assertion that as many bytes have
  -- been read as the buffer has does not fail.
  pub read_root_file-Loaded :
      (allocate : ℕ → Result MemoryError Bytes) (mounted : Mounted) (path : Bytes)
      (found : Result StorageError FatDirectoryEntry)
      → ((size : ℕ) (buffer : Bytes) → allocate size ≡ ok buffer → length buffer ≡ size)
      → IsMounted mounted
      → open_absolute mounted.device mounted.fs fuel path ≡ some found
      → Loaded found (read_root_file fuel allocate (some mounted) path)
  unfolding read_root_file read_file
  read_root_file-Loaded allocate mounted path found sized is opened =
      rw opened (load-Loaded allocate mounted found sized is)
