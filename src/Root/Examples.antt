-- ===== src/Root/Examples.antt =====
-- Tests of the start of the root file system, and the witnesses of what is proved of it
-- (kernel/kernel/src/storage/rootfs.rs).
use lazers.Root.System.{IsSystem, mount_root_fs-IsSystem}
use lazers.Base.{◌++◌, arith}
use lazers.Root.Safe.{IsMounted}
use lazers.Base.Lists.{take, drop}
use lazers.Base.Text.{starts_with, from_utf8}
use lazers.Path.{split, normalize_path, normalize_path_parts, walk_part, descend}
use lazers.Fat.Directory.{components}
use lazers.Fat.Examples.{echo_walk, file_chain, echo_bytes}
use lazers.Scheduler.Services.{resolve, current_process_read_file}
use lazers.Scheduler.Examples.{shell, shell_runs}
use lazers.Root.Contents.{Names, current_process_read_file-Names}
use lazers.Base.{ℕ, none, some, [], ◌≡◌, refl}
use lazers.Base.Lists.{length}
use lazers.Base.Words.{Bytes}
use lazers.Base.Results.{Result, ok}
use lazers.Base.Lists.{replicate, length-replicate}
use lazers.Base.Text.{codes, equal}
use mathlib.Core.Path.{subst}
use lazers.Allocator.{MemoryError}
use lazers.Fat.{mount}
use lazers.Fat.Directory.{entry_of}
use lazers.Fat.Examples.{disk, fs, echo_entry, mounts, opens_echo, sector_or}
use lazers.Gpt.{
  read, any_set, scan_entries, scan_sectors, name_matches, matches, find_by_type, find_by_name,
}
use lazers.Gpt.Examples.{gpt_disk}
use lazers.Syscall.Dispatch.{dispatch}
use lazers.Syscall.Safe.Calls.{KernelKept}
use lazers.Syscall.Examples.{starting, reading}
use lazers.Root.{Mounted, mount_root_fs, init_root_fs, read_root_file, root_fs}
use lazers.Root.Safe.{Loaded, root_fs-KernelKept, read_root_file-Loaded}

abbrev system_mounted : Mounted
system_mounted = record {
  device = gpt_disk;
  fs = record fs { partition_start_lba = 3; first_data_sector = 5 };
}

-- The second partition of the disk, which starts at sector 3, is mounted.
mounts_system : mount_root_fs (ok gpt_disk) ≡ ok system_mounted
unfolding mount_root_fs mount read equal scan_sectors scan_entries any_set name_matches matches
    find_by_type find_by_name
mounts_system = refl

mount_root_fs-IsSystem_example : IsSystem (ok gpt_disk) system_mounted
mount_root_fs-IsSystem_example = mount_root_fs-IsSystem (ok gpt_disk) system_mounted mounts_system

root_fs-KernelKept_example :
    KernelKept starting (dispatch (root_fs 1 (init_root_fs (ok gpt_disk) none).0) reading starting)
root_fs-KernelKept_example = root_fs-KernelKept 1 (ok gpt_disk) reading starting

abbrev small : Mounted
small = record { device = disk; fs = fs }

small-IsMounted : IsMounted small
small-IsMounted = record { start_lba = 0; sector_count = 8; mounts = mounts }

abbrev zeroed : ℕ → Result MemoryError Bytes
zeroed size = ok (replicate size 0)

zeroed-sized : (size : ℕ) (buffer : Bytes) → zeroed size ≡ ok buffer → length buffer ≡ size
zeroed-sized size buffer e =
    subst (λ r. length (sector_or [] r) ≡ size) e (length-replicate {A = ℕ} size 0)

read_root_file-Loaded_example :
    Loaded 1 (ok (entry_of echo_entry)) (read_root_file 1 zeroed (some small) (codes "/echo"))
read_root_file-Loaded_example =
    read_root_file-Loaded 1 zeroed small (codes "/echo") (ok (entry_of echo_entry)) zeroed-sized
      small-IsMounted opens_echo

echo_named : Names 1 small (codes "/echo") (entry_of echo_entry) echo_bytes
unfolding split components starts_with
echo_named = record {
  absolute = refl;
  walk = echo_walk;
  is_file = refl;
  stored = file_chain;
  long = omega arith;
}

echo_resolved : resolve shell.cwd (codes "echo") ≡ some (ok (codes "/echo"))
unfolding resolve normalize_path starts_with normalize_path_parts split walk_part equal descend
    from_utf8
echo_resolved = refl

current_process_read_file-Names_example :
    current_process_read_file (root_fs 1 (some small)) (codes "echo") (replicate 520 1) shell_runs
    ≡ some (take 514 echo_bytes ++ drop 514 (replicate 520 1), ok 514)
current_process_read_file-Names_example =
    current_process_read_file-Names 1 small shell_runs 1 shell (codes "echo") (codes "/echo")
      (replicate 520 1) (entry_of echo_entry) echo_bytes small-IsMounted refl echo_resolved
      echo_named (omega arith)
