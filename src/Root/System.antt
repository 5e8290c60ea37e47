-- ===== src/Root/System.antt =====
-- Which partition is mounted (kernel/kernel/src/storage/rootfs.rs).
use lazers.Base.{Option, none, some, List, ◌≡◌}
use lazers.Base.Results.{Result, ok}
use lazers.Base.Results.{ok_or, UnlessErr-bind}
use lazers.Path.{StorageError, missing_esp_partition, missing_system_partition}
use lazers.Fat.{BlockDevice, mount}
use lazers.Gpt.{
  GptPartition, read, find_by_type, find_by_name, efi_system_partition_guid, max_name_len,
}
use lazers.Gpt.Names.{padded}
use lazers.Gpt.Found.{AllNamed, read-AllNamed, find_by_name-padded}
use lazers.Root.{Mounted, system_name, mount_root_fs}
use mathlib.Core.Path.{subst}
use lazers.Base.Results.{UnlessErr}

-- The disk has a partition of the firmware, and the file system is that of the partition of the name.
pub record IsSystem (started : Result StorageError BlockDevice) (mounted : Mounted) : Type 0 where
  pub partitions : List GptPartition
  pub esp : GptPartition
  pub system : GptPartition
  pub starts : started ≡ ok mounted.device
  pub reads : read mounted.device ≡ ok partitions
  pub has_esp : find_by_type efi_system_partition_guid partitions ≡ some esp
  pub has_system : find_by_name system_name partitions ≡ some system
  pub is_named : system.name ≡ padded max_name_len system_name
  pub mounts : mount mounted.device system.start_lba system.sector_count ≡ ok mounted.fs

ok_or-eq-ok : {A : Type 0} (o : Option A) (e : StorageError) {a : A} → ok_or o e ≡ ok a → o ≡ some a
ok_or-eq-ok none e h = absurd (cc)
ok_or-eq-ok (some x) e h = cc

named-padded :
    (device : BlockDevice) (partitions : List GptPartition) (system : GptPartition)
    → read device ≡ ok partitions
    → find_by_name system_name partitions ≡ some system
    → system.name ≡ padded max_name_len system_name
named-padded device partitions system reads found =
    find_by_name-padded system_name partitions system
      (subst (λ r. UnlessErr r AllNamed) reads (read-AllNamed device)) found

pub mount_root_fs-UnlessErr :
    (started : Result StorageError BlockDevice)
    → UnlessErr (mount_root_fs started) (IsSystem started)
unfolding mount_root_fs
mount_root_fs-UnlessErr started = UnlessErr-bind started _ _ λ device starts.
    UnlessErr-bind (read device) _ _ λ partitions reads.
      UnlessErr-bind
        (ok_or (find_by_type efi_system_partition_guid partitions) missing_esp_partition) _ _
        λ esp has_esp.
          UnlessErr-bind (ok_or (find_by_name system_name partitions) missing_system_partition) _ _
            λ system has_system.
              UnlessErr-bind (mount device system.start_lba system.sector_count) _ _ λ fs mounts.
                let found =
                  ok_or-eq-ok (find_by_name system_name partitions) missing_system_partition
                    has_system in
                record {
                  partitions = partitions;
                  esp = esp;
                  system = system;
                  starts = starts;
                  reads = reads;
                  has_esp =
                      ok_or-eq-ok (find_by_type efi_system_partition_guid partitions)
                        missing_esp_partition has_esp;
                  has_system = found;
                  is_named = named-padded device partitions system reads found;
                  mounts = mounts;
                }

-- What is mounted is the file system of the partition that is found by the name `LAZERS-SYSTEM` in the
-- table of the disk that was started. The units of its name are those of this name with zeros behind them,
-- up to 36, and the table has a partition of the firmware too.
pub mount_root_fs-IsSystem :
    (started : Result StorageError BlockDevice) (mounted : Mounted)
    → mount_root_fs started ≡ ok mounted
    → IsSystem started mounted
mount_root_fs-IsSystem started mounted done =
    subst (λ r. UnlessErr r (IsSystem started)) done (mount_root_fs-UnlessErr started)
