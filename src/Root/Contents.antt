-- ===== src/Root/Contents.antt =====
-- What a program reads of a file (kernel/kernel/src/storage/rootfs.rs and
-- kernel/kernel/src/scheduler/services.rs).
use lazers.Base.{ℕ, ◌≤◌, true, false, some, ◌++◌, ◌≡◌}
use lazers.Base.Lists.{length, drop}
use lazers.Base.Words.{Bytes}
use lazers.Base.Results.{ok}
use lazers.Base.Lists.{take}
use lazers.Base.Text.{starts_with}
use lazers.Path.{split}
use lazers.Fat.{FatDirectoryEntry}
use lazers.Fat.Mount.{mount-sectors}
use lazers.Fat.Directory.{components}
use lazers.Fat.Walk.{Walk, open_absolute-Walk}
use lazers.Fat.File.Contents.{Stores, read_file-Stores}
use lazers.Process.{Process}
use lazers.Thread.{ProcessId}
use lazers.Scheduler.State.{SchedulerState}
use lazers.Scheduler.Services.{resolve, current_process, current_process_read_file}
use lazers.Root.{Mounted, read_file_into, read_root_file_into, root_fs}
use lazers.Root.Safe.{IsMounted}

-- A path along directories to a file, and the bytes in the chain of that file.
pub record Names (fuel : ℕ) (mounted : Mounted) (path : Bytes) (entry : FatDirectoryEntry)
    (bytes : Bytes) : Type 0 where
  pub absolute : starts_with b'/' path ≡ true
  pub walk :
      Walk mounted.device mounted.fs fuel mounted.fs.root_cluster (components (split path)) entry
  pub is_file : entry.is_directory ≡ false
  pub stored : Stores mounted.device mounted.fs entry.first_cluster bytes
  pub long : entry.size ≤ length bytes

read_root_file_into-Names :
    (fuel : ℕ) (mounted : Mounted) (path buffer : Bytes) (entry : FatDirectoryEntry) (bytes : Bytes)
    → IsMounted mounted
    → Names fuel mounted path entry bytes
    → entry.size ≤ length buffer
    → read_root_file_into fuel (some mounted) path buffer
      ≡ some (take entry.size bytes ++ drop entry.size buffer, ok entry.size)
unfolding read_root_file_into read_file_into
read_root_file_into-Names fuel mounted path buffer entry bytes is names room =
    rw
      (open_absolute-Walk mounted.device mounted.fs fuel path entry names.absolute names.walk
        names.is_file)
      (read_file-Stores mounted.device mounted.fs entry buffer bytes
        (mount-sectors mounted.device is.start_lba is.sector_count mounted.fs is.mounts)
        names.stored names.long room)

-- If a path, resolved against the directory of the current process, leads along directories to a file, and
-- the buffer has room for it, the process reads the file: the front of the buffer is what the chain of the
-- file stores, as many bytes as its entry counts, the rest of the buffer stays, and the result is their
-- number. Fuel for each cluster of the longest chain of a directory on the way is enough.
pub current_process_read_file-Names :
    (fuel : ℕ) (mounted : Mounted) (s : SchedulerState) (id : ProcessId) (p : Process)
    (path absolute buffer : Bytes) (entry : FatDirectoryEntry) (bytes : Bytes)
    → IsMounted mounted
    → current_process s ≡ some (some (id, p))
    → resolve p.cwd path ≡ some (ok absolute)
    → Names fuel mounted absolute entry bytes
    → entry.size ≤ length buffer
    → current_process_read_file (root_fs fuel (some mounted)) path buffer s
      ≡ some (take entry.size bytes ++ drop entry.size buffer, ok entry.size)
unfolding current_process_read_file
current_process_read_file-Names fuel mounted s id p path absolute buffer entry bytes is current
      resolves names room =
    rw (current, resolves)
      (read_root_file_into-Names fuel mounted absolute buffer entry bytes is names room)
