-- ===== src/Gpt.antt =====
-- The partition table of the disk, kernel/kernel/src/storage/gpt.rs. The array of partitions is the list
-- of those that were found.
pub mod Table
pub mod Names
pub mod Found
pub mod Examples
use lazers.Base.{
  ℕ, zero, suc, ◌+◌, ◌-◌, ◌*◌, ◌/◌, ◌%◌, ◌^◌, ◌≤◌, ◌<◌, min, max, Bool, true, false, not, ◌&&◌,
  ◌||◌, Option, none, some, List, [], ◌∷◌, ◌++◌, map, ◌≡◌, ◌≢◌, ◌↔◌, refl, sym, ap, ◌∙◌, ◌⊎◌, inl,
  inr, arith,
}
use lazers.Base.Tests.{ltb, leb, if◌then◌else◌, ◌==◌, Bool-cases, Option-cases}
use lazers.Base.Lists.{length, drop, length-append, length-drop}
use lazers.Base.Words.{Bytes, word}
use lazers.Base.Results.{Result, ok, err, and_then, and_then-eq-some}
use lazers.Base.Lists.{take}
use lazers.Base.Words.{checked_mul}
use lazers.Base.Text.{codes, equal}
use lazers.Base.Results.{ok_or, ◌>>=◌}
use lazers.Path.{StorageError, invalid_gpt_header, invalid_partition_table}
use lazers.Fat.{BlockDevice, sector_size, le_at}

abbrev pub gpt_header_lba : ℕ
gpt_header_lba = 1

abbrev pub gpt_header_signature : Bytes
gpt_header_signature = codes "EFI PART"

abbrev pub efi_system_partition_guid : Bytes
efi_system_partition_guid =
    0x28 ∷ 0x73 ∷ 0x2a ∷ 0xc1 ∷ 0x1f ∷ 0xf8 ∷ 0xd2 ∷ 0x11 ∷ 0xba ∷ 0x4b ∷ 0x00 ∷ 0xa0 ∷ 0xc9 ∷ 0x3e
    ∷ 0xc9 ∷ 0x3b ∷ []

-- `GptPartitions::partitions.len()`
abbrev pub max_partitions : ℕ
max_partitions = 16

-- The units of a name.
abbrev pub max_name_len : ℕ
max_name_len = 36

pub record GptPartition : Type 0 where
  pub type_guid : Bytes
  pub start_lba : ℕ
  pub sector_count : ℕ
  pub name : List ℕ

-- As many units of two bytes, from an offset on.
abbrev pub units : ℕ → Bytes → ℕ → List ℕ
units zero entry offset = []
units (suc count) entry offset = le_at 2 entry offset ∷ units count entry (offset + 2)

abbrev pub read_partition_name : Bytes → List ℕ
read_partition_name entry = units max_name_len entry 56

-- `entry[0..16].iter().any(|byte| *byte != 0)`
unfoldable pub any_set : Bytes → Bool
any_set [] = false
any_set (b ∷ bs) = not (b == 0) || any_set bs

abbrev pub is_used : Bytes → Bool
is_used entry = any_set (take 16 entry)

abbrev pub is_ordered : Bytes → Bool
is_ordered entry = leb (le_at 8 entry 32) (le_at 8 entry 40)

abbrev pub partition_of : Bytes → GptPartition
partition_of entry = record {
  type_guid = take 16 entry;
  start_lba = le_at 8 entry 32;
  sector_count = (le_at 8 entry 40 - le_at 8 entry 32 + 1) % word;
  name = read_partition_name entry;
}

abbrev Partitions : Type 0
Partitions = List GptPartition

abbrev pub add_entry : Bytes → Partitions → Result StorageError Partitions
add_entry entry found =
    if is_used entry
    then (if is_ordered entry
        then ok (found ++ (partition_of entry ∷ []))
        else err invalid_partition_table)
    else ok found

-- The first `count` entries of what is left of a sector.
unfoldable pub scan_entries : ℕ → ℕ → Bytes → Partitions → Result StorageError Partitions
scan_entries zero entry_size bytes found = ok found
scan_entries (suc count) entry_size bytes found =
    if leb max_partitions (length found)
    then ok found
    else (add_entry (take entry_size bytes) found
        >>= scan_entries count entry_size (drop entry_size bytes))

-- The sectors of the table, of which `count` are left.
unfoldable pub scan_sectors : BlockDevice → ℕ → ℕ → ℕ → Partitions → Result StorageError Partitions
scan_sectors device zero entry_size lba found = ok found
scan_sectors device (suc count) entry_size lba found = device.read_sector lba >>= λ sector.
    scan_entries (sector_size / entry_size) entry_size sector found
    >>= scan_sectors device count entry_size ((lba + 1) % word)

-- `align_up(table_bytes, SECTOR_SIZE) / SECTOR_SIZE`
abbrev pub sectors_of : ℕ → ℕ
sectors_of table_bytes = (table_bytes + (sector_size - 1)) / sector_size

abbrev pub entry_size_of : Bytes → ℕ
entry_size_of header = le_at 4 header 84

abbrev pub table_in : BlockDevice → Bytes → Result StorageError Partitions
table_in device header =
    if not (equal (take 8 header) gpt_header_signature)
    then err invalid_gpt_header
    else if ltb (entry_size_of header) 128
    then err invalid_partition_table
    else (ok_or (checked_mul (le_at 4 header 80) (entry_size_of header)) invalid_partition_table
        >>= λ table_bytes.
            scan_sectors device (sectors_of table_bytes) (entry_size_of header) (le_at 8 header 72)
              [])

-- `GptPartitions::read`
unfoldable pub read : BlockDevice → Result StorageError Partitions
read device = device.read_sector gpt_header_lba >>= table_in device

abbrev pub first_such : (GptPartition → Bool) → Partitions → Option GptPartition
first_such test [] = none
first_such test (partition ∷ others) =
    if test partition then some partition else first_such test others

unfoldable pub find_by_type : Bytes → Partitions → Option GptPartition
find_by_type type_guid = first_such (λ partition. equal partition.type_guid type_guid)

-- The units of a name against the bytes of a text, with zeros behind it.
unfoldable pub matches : List ℕ → Bytes → Bool
matches [] text = true
matches (unit ∷ units) [] = unit == 0 && matches units []
matches (unit ∷ units) (byte ∷ text) = unit == byte && matches units text

unfoldable pub name_matches : GptPartition → Bytes → Bool
name_matches partition name =
    if ltb max_name_len (length name) then false else matches partition.name name

unfoldable pub find_by_name : Bytes → Partitions → Option GptPartition
find_by_name name = first_such (λ partition. name_matches partition name)
