-- ===== src/Gpt/Examples.antt =====
-- Tests of the partition table on a small disk, and the witnesses of what is proved of it
-- (kernel/kernel/src/storage/gpt.rs).
use lazers.Base.{ℕ, true, false, [], ◌∷◌, ◌++◌, ◌≡◌, refl, arith}
use lazers.Base.Tests.{if◌then◌else◌, ◌==◌}
use lazers.Base.Lists.{length}
use lazers.Base.Words.{Bytes}
use lazers.Base.Results.{ok}
use lazers.Base.Lists.{take, replicate}
use lazers.Base.Text.{codes, equal}
use mathlib.Core.Path.{subst}
use lazers.Fat.{BlockDevice, sector_size}
use lazers.Fat.Chain.{no_sectors, sector}
use lazers.Fat.Examples.{filled, length-filled, sector_or, boot_sector}
use lazers.Gpt.{
  GptPartition, efi_system_partition_guid, max_partitions, max_name_len, read, any_set,
  scan_entries, scan_sectors, name_matches, matches, partition_of,
}
use lazers.Gpt.Table.{extended, used, table_entries, read_lem}
use lazers.Gpt.Names.{padded}

abbrev wide : Bytes → Bytes
wide [] = []
wide (b ∷ bs) = b ∷ 0 ∷ wide bs

abbrev word_of : ℕ → Bytes
word_of n = n ∷ replicate 7 0

abbrev entry_of : Bytes → ℕ → ℕ → Bytes → Bytes
entry_of guid start_lba end_lba name = take 128 (
    guid
    ++ (replicate 16 0
        ++ (word_of start_lba
            ++ (word_of end_lba ++ (replicate 8 0 ++ (wide name ++ replicate 72 0))))))

abbrev header : Bytes
header = codes "EFI PART" ++ (replicate 64 0 ++ (word_of 2 ++ (4 ∷ 0 ∷ 0 ∷ 0 ∷ 128 ∷ [])))

abbrev system_entry : Bytes
system_entry = entry_of (1 ∷ replicate 15 0) 3 10 (codes "LAZERS-SYSTEM")

-- An empty entry, the system partition of the firmware, and that of the program.
abbrev table : Bytes
table = replicate 128 0 ++ (entry_of efi_system_partition_guid 20 29 (codes "EFI") ++ system_entry)

abbrev front_of : ℕ → Bytes
front_of lba =
    if lba == 1 then header else if lba == 2 then table else if lba == 3 then boot_sector else []

abbrev pub gpt_disk : BlockDevice
gpt_disk = record {
  read_sector = λ lba. ok (filled (front_of lba));
  length-read_sector = λ lba bytes e.
      subst (λ r. length (sector_or [] r) ≡ sector_size) e (length-filled (front_of lba));
}

read_lem_example :
    read gpt_disk ≡ extended [] (take max_partitions (used (table_entries 128 (filled table ∷ []))))
read_lem_example =
    read_lem gpt_disk (filled header) (filled table ∷ []) refl refl (omega arith) (omega arith)
      (sector refl no_sectors)

finds_both :
    read gpt_disk
    ≡ ok (
        partition_of (entry_of efi_system_partition_guid 20 29 (codes "EFI"))
        ∷ partition_of system_entry
        ∷ [])
unfolding read equal scan_sectors scan_entries any_set
finds_both = refl

-- The test of kernel/kernel/src/storage/gpt.rs.
abbrev laz : GptPartition
laz = record {
  type_guid = replicate 16 0;
  start_lba = 1;
  sector_count = 2;
  name = padded max_name_len (codes "LAZ");
}

matches_exactly :
    (name_matches laz (codes "LAZ") ≡ true)
    × (name_matches laz (codes "LA") ≡ false)
    × (name_matches laz (codes "LAZZ") ≡ false)
unfolding name_matches matches
matches_exactly = (refl, refl, refl)
