-- ===== src/Fat/Scan.antt =====
-- The walk over the entries of a directory that `read_dir` and `find_in_directory` of
-- kernel/kernel/src/storage/fat32.rs both write out: the clusters of the chain, the sectors of a cluster,
-- the entries of a sector. The chain is followed on fuel, and `none` is a walk that has not come to its end.
use lazers.Base.{ℕ, zero, suc, ◌+◌, ◌%◌, ◌/◌, ◌||◌, Option, none, some}
use lazers.Base.Tests.{if◌then◌else◌, ◌==◌}
use lazers.Base.Lists.{take, drop}
use lazers.Base.Words.{Bytes, word}
use lazers.Base.Results.{Result, ok, err}
use lazers.Path.{StorageError}
use lazers.Fat.{
  BlockDevice, Fat32, sector_size, fat_directory_entry_size, fat_attribute_long_name, has_bit,
  byte_at, cluster_to_lba, next_cluster,
}

-- What the first byte and the attributes say of an entry: that it is behind the last one, that it is
-- passed over, or that it names something.
pub data EntryKind : Type 0 where
  end_mark passed_over named : EntryKind

abbrev pub kind_of : Bytes → EntryKind
kind_of entry =
    if byte_at entry 0 == 0
    then end_mark
    else if byte_at entry 0 == 0xe5
    then passed_over
    else if byte_at entry 11 == fat_attribute_long_name || has_bit 3 (byte_at entry 11)
    then passed_over
    else named

-- A loop goes on with what it has so far, or returns.
pub data Visit (S R : Type 0) : Type 0 where
  next : S → Visit S R
  done : R → Visit S R

module _ {S R : Type 0} where
  abbrev pub then_visit : Visit S R → (S → Visit S R) → Visit S R
  then_visit (next s) rest = rest s
  then_visit (done r) rest = done r

  module _ (visit : Bytes → S → Visit S R) where
    -- The first `count` entries of what is left of a sector.
    unfoldable pub scan_entries : ℕ → Bytes → S → Visit S R
    scan_entries zero bytes s = next s
    scan_entries (suc count) bytes s =
        then_visit (visit (take fat_directory_entry_size bytes) s)
          (scan_entries count (drop fat_directory_entry_size bytes))

    module _ (failed : StorageError → S → R) (device : BlockDevice) where
      abbrev pub scan_sector : Result StorageError Bytes → S → Visit S R
      scan_sector (ok sector) s = scan_entries (sector_size / fat_directory_entry_size) sector s
      scan_sector (err e) s = done (failed e s)

      unfoldable pub scan_sectors : ℕ → ℕ → S → Visit S R
      scan_sectors zero lba s = next s
      scan_sectors (suc count) lba s =
          then_visit (scan_sector (device.read_sector lba) s)
            (scan_sectors count ((lba + 1) % word))

      abbrev pub scan_cluster : Fat32 → Result StorageError ℕ → S → Visit S R
      scan_cluster fs (ok lba) s = scan_sectors fs.sectors_per_cluster lba s
      scan_cluster fs (err e) s = done (failed e s)

      abbrev pub follow_chain : (ℕ → S → Option R) → Result StorageError ℕ → S → Option R
      follow_chain rest (ok cluster) s = rest cluster s
      follow_chain rest (err e) s = some (failed e s)

      abbrev pub after_cluster : (ℕ → S → Option R) → Result StorageError ℕ → Visit S R → Option R
      after_cluster rest following (done r) = some r
      after_cluster rest following (next s) = follow_chain rest following s

      unfoldable pub scan_chain : ℕ → Fat32 → ℕ → S → Option R
      scan_chain zero fs cluster s = none
      scan_chain (suc fuel) fs cluster s =
          after_cluster (scan_chain fuel fs) (next_cluster device fs cluster)
            (scan_cluster fs (cluster_to_lba fs cluster) s)
