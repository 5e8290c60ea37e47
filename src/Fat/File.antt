-- ===== src/Fat/File.antt =====
-- The contents of a file, `read_file` of kernel/kernel/src/storage/fat32.rs.
pub mod Contents
pub mod Returns
use lazers.Base.{ℕ, zero, suc, ◌+◌, ◌-◌, ◌%◌, min, Option, none, some, ◌++◌, []}
use lazers.Base.Tests.{ltb, if◌then◌else◌}
use lazers.Base.Lists.{length, take}
use lazers.Base.Words.{Bytes, word}
use lazers.Base.Results.{Result, ok, err, and_then}
use lazers.Path.{StorageError, buffer_too_small}
use lazers.Fat.{BlockDevice, Fat32, FatDirectoryEntry, sector_size, cluster_to_lba, next_cluster}
use lazers.Fat.Scan.{Visit, next, done}
use lazers.Fat.Directory.{Written, over_buffer}

module _ (device : BlockDevice) (fs : Fat32) where
  -- What is still to be read, and what has been read.
  abbrev pub Reading : Type 0
  Reading = Visit (ℕ × Bytes) Written

  abbrev pub read_on : (ℕ → Bytes → Reading) → ℕ → Bytes → Result StorageError Bytes → Reading
  read_on rest remaining out (err e) = done (out, err e)
  read_on rest remaining out (ok sector) =
      let bytes = min remaining sector_size in rest (remaining - bytes) (out ++ take bytes sector)

  -- The loop over the sectors of a cluster, of which `count` are left.
  unfoldable pub read_sectors : ℕ → ℕ → ℕ → Bytes → Reading
  read_sectors zero lba remaining out = next (remaining, out)
  read_sectors (suc count) lba zero out = next (0, out)
  read_sectors (suc count) lba (suc remaining) out =
      read_on (read_sectors count ((lba + 1) % word)) (suc remaining) out (device.read_sector lba)

  abbrev pub read_cluster : ℕ → Bytes → Result StorageError ℕ → Reading
  read_cluster remaining out (err e) = done (out, err e)
  read_cluster remaining out (ok lba) = read_sectors fs.sectors_per_cluster lba remaining out

  -- From the chain's next cluster, unless nothing is left to be read.
  abbrev pub follow :
      (ℕ → ℕ → Bytes → Option Written) → Result StorageError ℕ → ℕ → Bytes → Option Written
  follow rest following zero out = some (out, ok (length out))
  follow rest (err e) (suc remaining) out = some (out, err e)
  follow rest (ok cluster) (suc remaining) out = rest cluster (suc remaining) out

  abbrev pub after_cluster :
      (ℕ → ℕ → Bytes → Option Written) → Result StorageError ℕ → Reading → Option Written
  after_cluster rest following (done written) = some written
  after_cluster rest following (next (remaining, out)) = follow rest following remaining out

  -- The loop over the clusters, on fuel.
  unfoldable pub read_clusters : ℕ → ℕ → ℕ → Bytes → Option Written
  read_clusters fuel cluster zero out = some (out, ok (length out))
  read_clusters zero cluster (suc remaining) out = none
  read_clusters (suc fuel) cluster (suc remaining) out =
      after_cluster (read_clusters fuel) (next_cluster device fs cluster)
        (read_cluster (suc remaining) out (cluster_to_lba fs cluster))

  -- The buffer afterwards, and the result. A round reads a byte at least, so there are no more rounds
  -- than bytes.
  unfoldable pub read_file : FatDirectoryEntry → Bytes → Option (Bytes × Result StorageError ℕ)
  read_file entry buffer =
      if ltb (length buffer) entry.size
      then some (buffer, err buffer_too_small)
      else and_then (read_clusters entry.size entry.first_cluster entry.size [])
          λ written. some (over_buffer buffer written)
