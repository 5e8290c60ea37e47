-- ===== src/Fat.antt =====
-- The reader of the root file system, kernel/kernel/src/storage/fat32.rs. The disk is an interface, the
-- AHCI driver's `read_sector`; sums of sector numbers wrap at 2 ^ 64.
pub mod Names
pub mod Scan
pub mod Chain
pub mod Directory
pub mod Listing
pub mod Mount
pub mod Walk
pub mod File
pub mod Bounded
pub mod Examples
use lazers.Base.{
  ℕ, zero, suc, ◌+◌, ◌-◌, ◌*◌, ◌/◌, ◌%◌, ◌^◌, min, Bool, true, false, not, ◌&&◌, ◌||◌, Option, none,
  some, List, [], ◌∷◌, ◌++◌, ◌≡◌,
}
use lazers.Base.Tests.{ltb, leb, if◌then◌else◌, ◌==◌}
use lazers.Base.Lists.{length, take, drop, get_elem?}
use lazers.Base.Words.{Bytes, word}
use lazers.Base.Text.{equal, is_nil, starts_with}
use lazers.Base.Results.{Result, ok, err, and_then, ◌>>=◌}
use lazers.Elf.{from_le_bytes}
use lazers.Path.{
  StorageError, invalid_fat32_boot_sector, path_not_absolute, file_not_found, not_a_file,
  not_a_directory, buffer_too_small, split,
}
use lazers.Fat.Names.{make_short_name, display_short_name, is_dot_entry}

-- kernel/kernel/src/storage/util.rs
abbrev pub sector_size : ℕ
sector_size = 512

-- `BlockDevice`: the sector at an address, always a full one.
pub record BlockDevice : Type 0 where
  pub read_sector : ℕ → Result StorageError Bytes
  pub length-read_sector :
      (lba : ℕ) (sector : Bytes) → read_sector lba ≡ ok sector → length sector ≡ sector_size

-- `read_le_u16`, `read_le_u32` and `read_le_u64` within a sector.
abbrev pub le_at : ℕ → Bytes → ℕ → ℕ
le_at width bytes offset = from_le_bytes (take width (drop offset bytes))

abbrev byte_or_zero : Option ℕ → ℕ
byte_or_zero none = 0
byte_or_zero (some b) = b

abbrev pub byte_at : Bytes → ℕ → ℕ
byte_at bytes offset = byte_or_zero (get_elem? bytes offset)

abbrev pub fat_directory_entry_size : ℕ
fat_directory_entry_size = 32

abbrev pub fat_attribute_long_name : ℕ
fat_attribute_long_name = 0x0f

abbrev pub fat_entry_end_of_chain : ℕ
fat_entry_end_of_chain = 0x0ffffff8

abbrev pub fat_entry_bad_cluster : ℕ
fat_entry_bad_cluster = 0x0ffffff7

-- `attributes & (1 << bit) != 0`
abbrev pub has_bit : ℕ → ℕ → Bool
has_bit bit attributes = (attributes / 2 ^ bit) % 2 == 1

-- `Fat32`, less its device.
pub record Fat32 : Type 0 where
  pub partition_start_lba : ℕ
  pub partition_sector_count : ℕ
  pub sectors_per_cluster : ℕ
  pub reserved_sector_count : ℕ
  pub root_cluster : ℕ
  pub first_data_sector : ℕ

pub record FatDirectoryEntry : Type 0 where
  pub first_cluster : ℕ
  pub size : ℕ
  pub is_directory : Bool

pub data FatResolvedPath : Type 0 where
  root_directory : FatResolvedPath
  directory : ℕ → FatResolvedPath
  file : FatDirectoryEntry → FatResolvedPath

abbrev pub total_sectors : Bytes → ℕ
total_sectors sector = if le_at 2 sector 19 == 0 then le_at 4 sector 32 else le_at 2 sector 19

abbrev pub is_unsupported : Bytes → Bool
is_unsupported sector =
    not (le_at 2 sector 11 == sector_size)
    || byte_at sector 13 == 0
    || le_at 2 sector 14 == 0
    || byte_at sector 16 == 0
    || not (le_at 2 sector 17 == 0)
    || not (le_at 2 sector 22 == 0)
    || le_at 4 sector 36 == 0

abbrev pub mounted : ℕ → ℕ → Bytes → Result StorageError Fat32
mounted start_lba sector_count sector =
    if is_unsupported sector
    then err invalid_fat32_boot_sector
    else if total_sectors sector == 0 || ltb sector_count (total_sectors sector)
    then err invalid_fat32_boot_sector
    else ok (record {
      partition_start_lba = start_lba;
      partition_sector_count = sector_count;
      sectors_per_cluster = byte_at sector 13;
      reserved_sector_count = le_at 2 sector 14;
      root_cluster = le_at 4 sector 44;
      first_data_sector =
          (start_lba + le_at 2 sector 14 + byte_at sector 16 * le_at 4 sector 36) % word;
    })

-- A partition is given by its first sector and the number of its sectors.
unfoldable pub mount : BlockDevice → ℕ → ℕ → Result StorageError Fat32
mount device start_lba sector_count =
    device.read_sector start_lba >>= mounted start_lba sector_count

unfoldable pub cluster_to_lba : Fat32 → ℕ → Result StorageError ℕ
cluster_to_lba fs cluster =
    if ltb cluster 2
    then err invalid_fat32_boot_sector
    else let lba = (fs.first_data_sector + (cluster - 2) * fs.sectors_per_cluster) % word in
      if leb ((fs.partition_start_lba + fs.partition_sector_count) % word) lba
      then err invalid_fat32_boot_sector
      else ok lba

abbrev next_in : ℕ → Result StorageError ℕ
next_in entry =
    if entry == fat_entry_bad_cluster || ltb entry 2
    then err invalid_fat32_boot_sector
    else if leb fat_entry_end_of_chain entry
    then err file_not_found
    else ok entry

-- The end of a chain is an error, `file_not_found`.
unfoldable pub next_cluster : BlockDevice → Fat32 → ℕ → Result StorageError ℕ
next_cluster device fs cluster =
    device.read_sector
      ((fs.partition_start_lba + fs.reserved_sector_count + cluster * 4 / sector_size) % word)
    >>= λ sector. next_in (le_at 4 sector (cluster * 4 % sector_size) % 2 ^ 28)
