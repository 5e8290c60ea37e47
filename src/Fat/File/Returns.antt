-- ===== src/Fat/File/Returns.antt =====
-- Reading a file comes to its end (kernel/kernel/src/storage/fat32.rs).
use lazers.Base.{
  ℕ, zero, suc, ◌+◌, ◌-◌, ◌%◌, ◌≤◌, ◌<◌, min, Option, none, some, [], ◌++◌, ◌≡◌, refl, inl, inr,
  arith,
}
use lazers.Base.Tests.{ltb, Bool-cases}
use lazers.Base.Lists.{length, drop, length-append, length-drop}
use lazers.Base.Words.{Bytes, word}
use lazers.Base.Results.{Result, ok, err, and_then}
use lazers.Base.Lists.{take, length-take}
use lazers.Base.Results.{Result-cases}
use lazers.Path.{StorageError}
use lazers.Fat.{
  BlockDevice, Fat32, FatDirectoryEntry, sector_size, mount, cluster_to_lba, next_cluster,
}
use lazers.Fat.Mount.{mount-sectors}
use lazers.Fat.Scan.{Visit, next, done}
use lazers.Fat.Directory.{Written, over_buffer}
use lazers.Fat.File.{read_on, read_sectors, read_cluster, after_cluster, read_clusters, read_file}

-- The read ends with an error, or goes on with `bound` bytes at most left of `size`.
data Advanced (size bound : ℕ) : Visit (ℕ × Bytes) Written → Type 0 where
  broken :
      {out : Bytes} {e : StorageError} → length out ≤ size → Advanced size bound (done (out, err e))
  advanced :
      {left : ℕ} {out : Bytes}
      → left ≤ bound
      → length out + left ≡ size
      → Advanced size bound (next (left, out))

data Finished (size : ℕ) : Option Written → Type 0 where
  all_read : {out : Bytes} → length out ≡ size → Finished size (some (out, ok (length out)))
  stopped : {out : Bytes} {e : StorageError} → length out ≤ size → Finished size (some (out, err e))

-- A buffer of the same length, and the number of the bytes read or an error.
pub data Answered (size : ℕ) (buffer : Bytes)
    : Option (Bytes × Result StorageError ℕ) → Type 0 where
  whole :
      {after : Bytes} {count : ℕ}
      → count ≡ size
      → length after ≡ length buffer
      → Answered size buffer (some (after, ok count))
  failed :
      {after : Bytes} {e : StorageError}
      → length after ≡ length buffer
      → Answered size buffer (some (after, err e))

weaker :
    {size low high : ℕ} {visit : Visit (ℕ × Bytes) Written}
    → low ≤ high
    → Advanced size low visit
    → Advanced size high visit
weaker below (broken short) = broken short
weaker below (advanced left_lem count) = advanced (omega (arith, below, left_lem)) count

module _ (device : BlockDevice) (fs : Fat32) where
  -- Reading one sector lowers what is left.
  read_on-Advanced :
      (size lba remaining : ℕ) (out : Bytes) (rest : ℕ → Bytes → Visit (ℕ × Bytes) Written)
      → ((left : ℕ) (more_out : Bytes)
          → length more_out + left ≡ size
          → Advanced size left (rest left more_out))
      → length out + suc remaining ≡ size
      → Advanced size remaining
          (read_on device fs rest (suc remaining) out (device.read_sector lba))
  read_on-Advanced size lba remaining out rest behind counted =
      elim (Result-cases (device.read_sector lba)) [
        | inl (bytes, e) ↦ rw e (
            weaker (omega arith) (
              behind (suc remaining - min (suc remaining) sector_size)
                (out ++ take (min (suc remaining) sector_size) bytes)
                (omega (
                  arith,
                  counted,
                  length-append out (take (min (suc remaining) sector_size) bytes),
                  length-take (min (suc remaining) sector_size) bytes,
                  device.length-read_sector lba bytes e,
                ))))
        | inr (e, failure) ↦ rw failure (broken (omega (arith, counted)))
      ]

  read_sectors-Advanced :
      (size count lba remaining : ℕ) (out : Bytes)
      → length out + remaining ≡ size
      → Advanced size remaining (read_sectors device fs count lba remaining out)
  unfolding read_sectors
  read_sectors-Advanced size zero lba remaining out counted = advanced (omega arith) counted
  read_sectors-Advanced size (suc count) lba zero out counted = advanced (omega arith) counted
  read_sectors-Advanced size (suc count) lba (suc remaining) out counted = weaker (omega arith) (
      read_on-Advanced size lba remaining out (read_sectors device fs count ((lba + 1) % word))
        (read_sectors-Advanced size count ((lba + 1) % word)) counted)

  read_cluster-Advanced :
      (size remaining : ℕ) (out : Bytes) (lba : Result StorageError ℕ)
      → 0 < fs.sectors_per_cluster
      → length out + suc remaining ≡ size
      → Advanced size remaining (read_cluster device fs (suc remaining) out lba)
  unfolding read_sectors
  read_cluster-Advanced size remaining out (err e) some_sector counted =
      broken (omega (arith, counted))
  read_cluster-Advanced size remaining out (ok lba) some_sector counted =
      first_sector fs.sectors_per_cluster some_sector
    where
      first_sector :
          (count : ℕ)
          → 0 < count
          → Advanced size remaining (read_sectors device fs count lba (suc remaining) out)
      first_sector zero positive = absurd (omega (arith, positive))
      first_sector (suc count) positive =
          read_on-Advanced size lba remaining out (read_sectors device fs count ((lba + 1) % word))
            (read_sectors-Advanced size count ((lba + 1) % word)) counted

  follow-Finished :
      (size bound : ℕ) (rest : ℕ → ℕ → Bytes → Option Written) (following : Result StorageError ℕ)
      (visit : Visit (ℕ × Bytes) Written)
      → Advanced size bound visit
      → ((c left : ℕ) (out : Bytes)
          → left ≤ bound
          → length out + left ≡ size
          → Finished size (rest c left out))
      → Finished size (after_cluster device fs rest following visit)
  follow-Finished size bound rest following (done (out, ok n)) x behind = elim x [ ]
  follow-Finished size bound rest following (done (out, err e)) (broken short) behind =
      stopped short
  follow-Finished size bound rest following (next (zero, out)) (advanced less counted) behind =
      all_read (omega (arith, counted))
  follow-Finished size bound rest (err e) (next (suc left, out)) (advanced less counted) behind =
      stopped (omega (arith, counted))
  follow-Finished size bound rest (ok c) (next (suc left, out)) (advanced less counted) behind =
      behind c (suc left) out less counted

  read_clusters-Finished :
      (size fuel c remaining : ℕ) (out : Bytes)
      → 0 < fs.sectors_per_cluster
      → remaining ≤ fuel
      → length out + remaining ≡ size
      → Finished size (read_clusters device fs fuel c remaining out)
  unfolding read_clusters
  read_clusters-Finished size fuel c zero out some_sector enough counted =
      all_read (omega (arith, counted))
  read_clusters-Finished size zero c (suc remaining) out some_sector enough counted =
      absurd (omega (arith, enough))
  read_clusters-Finished size (suc fuel) c (suc remaining) out some_sector enough counted =
      follow-Finished size remaining (read_clusters device fs fuel) (next_cluster device fs c)
        (read_cluster device fs (suc remaining) out (cluster_to_lba fs c))
        (read_cluster-Advanced size remaining out (cluster_to_lba fs c) some_sector counted)
        (λ c' left out' less counted'.
          read_clusters-Finished size fuel c' left out' some_sector (omega (arith, less, enough))
            counted')

  over_buffer-Answered :
      (size : ℕ) (buffer : Bytes) (answer : Option Written)
      → size ≤ length buffer
      → Finished size answer
      → Answered size buffer (and_then answer (λ written. some (over_buffer buffer written)))
  over_buffer-Answered size buffer none room x = elim x [ ]
  over_buffer-Answered size buffer (some (out, ok n)) room (all_read count) = whole count (
      omega (
        arith,
        count,
        room,
        length-append out (drop (length out) buffer),
        length-drop (length out) buffer,
      ))
  over_buffer-Answered size buffer (some (out, err e)) room (stopped short) = failed (
      omega (
        arith,
        short,
        room,
        length-append out (drop (length out) buffer),
        length-drop (length out) buffer,
      ))

-- Reading a file of a mounted file system comes back, whatever the disk holds: with an error, or with as
-- many bytes as the entry counts. The buffer keeps its length.
pub read_file-Answered :
    (device : BlockDevice) (start_lba sector_count : ℕ) (fs : Fat32) (entry : FatDirectoryEntry)
    (buffer : Bytes)
    → mount device start_lba sector_count ≡ ok fs
    → Answered entry.size buffer (read_file device fs entry buffer)
unfolding read_file
read_file-Answered device start_lba sector_count fs entry buffer mounts =
    elim (Bool-cases (ltb (length buffer) entry.size)) [
      | inl small ↦ rw small (failed refl)
      | inr fits ↦ rw fits (
          over_buffer-Answered device fs entry.size buffer
            (read_clusters device fs entry.size entry.first_cluster entry.size [])
            (ground (arith, fits))
            (read_clusters-Finished device fs entry.size entry.size entry.first_cluster entry.size
              [] (mount-sectors device start_lba sector_count fs mounts) (omega arith)
              (omega arith)))
    ]
