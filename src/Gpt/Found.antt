-- ===== src/Gpt/Found.antt =====
-- What holds of every partition that is read (kernel/kernel/src/storage/gpt.rs).
use lazers.Base.{
  ℕ, zero, suc, ◌+◌, ◌/◌, ◌%◌, Bool, true, some, List, [], ◌∷◌, ◌++◌, ◌≡◌, refl, ap, inl, inr,
}
use lazers.Base.Tests.{ltb, leb, Bool-cases}
use lazers.Base.Lists.{length, drop}
use lazers.Base.Words.{Bytes, word}
use lazers.Base.Results.{Result, ok, err}
use lazers.Base.Lists.{take}
use lazers.Base.Words.{checked_mul}
use lazers.Base.Text.{equal}
use lazers.Base.Results.{UnlessErr, UnlessErr-bind, ok_or, ◌>>=◌}
use mathlib.Core.Path.{subst}
use lazers.Path.{StorageError, invalid_partition_table}
use lazers.Fat.{BlockDevice, sector_size, le_at}
use lazers.Gpt.{
  GptPartition, max_partitions, max_name_len, is_used, is_ordered, partition_of, units, add_entry,
  scan_entries, scan_sectors, sectors_of, entry_size_of, table_in, read, gpt_header_lba,
  gpt_header_signature, first_such, find_by_name, name_matches,
}
use lazers.Gpt.Names.{padded, name_matches_iff}

length-units : (count : ℕ) (entry : Bytes) (offset : ℕ) → length (units count entry offset) ≡ count
length-units zero entry offset = refl
length-units (suc count) entry offset = ap suc (length-units count entry (offset + 2))

-- The names are as long as the array that they are read to.
abbrev pub AllNamed : List GptPartition → Type 0
AllNamed [] = Unit
AllNamed (partition ∷ others) = (length partition.name ≡ max_name_len) × AllNamed others

AllNamed-append :
    (found : List GptPartition) (partition : GptPartition)
    → AllNamed found
    → length partition.name ≡ max_name_len
    → AllNamed (found ++ (partition ∷ []))
AllNamed-append [] partition all named = (named, tt)
AllNamed-append (first ∷ others) partition (here, all) named =
    (here, AllNamed-append others partition all named)

add_entry-AllNamed :
    (entry : Bytes) (found : List GptPartition)
    → AllNamed found
    → UnlessErr (add_entry entry found) AllNamed
add_entry-AllNamed entry found all = elim (Bool-cases (is_used entry)) [
  | inr unused ↦ rw unused all
  | inl uses ↦ elim (Bool-cases (is_ordered entry)) [
    | inr unordered ↦ rw (uses, unordered) tt
    | inl ordered ↦
        rw (uses, ordered)
          (AllNamed-append found (partition_of entry) all (length-units max_name_len entry 56))
  ]
]

UnlessErr-then :
    {A B : Type 0} (r : Result StorageError A) (rest : A → Result StorageError B) (P : A → Type 0)
    (Q : B → Type 0)
    → UnlessErr r P
    → ((a : A) → P a → UnlessErr (rest a) Q)
    → UnlessErr (r >>= rest) Q
UnlessErr-then (err e) rest P Q h each = tt
UnlessErr-then (ok a) rest P Q h each = each a h

scan_entries-AllNamed :
    (count size : ℕ) (bytes : Bytes) (found : List GptPartition)
    → AllNamed found
    → UnlessErr (scan_entries count size bytes found) AllNamed
unfolding scan_entries
scan_entries-AllNamed zero size bytes found all = all
scan_entries-AllNamed (suc count) size bytes found all =
    elim (Bool-cases (leb max_partitions (length found))) [
      | inl full ↦ rw full all
      | inr free ↦ rw free (
          UnlessErr-then (add_entry (take size bytes) found) _ AllNamed AllNamed
            (add_entry-AllNamed (take size bytes) found all)
            (scan_entries-AllNamed count size (drop size bytes)))
    ]

scan_sectors-AllNamed :
    (device : BlockDevice) (count size lba : ℕ) (found : List GptPartition)
    → AllNamed found
    → UnlessErr (scan_sectors device count size lba found) AllNamed
unfolding scan_sectors
scan_sectors-AllNamed device zero size lba found all = all
scan_sectors-AllNamed device (suc count) size lba found all =
    UnlessErr-bind (device.read_sector lba) _ AllNamed λ bytes there.
      UnlessErr-then (scan_entries (sector_size / size) size bytes found) _ AllNamed AllNamed
        (scan_entries-AllNamed (sector_size / size) size bytes found all)
        (scan_sectors-AllNamed device count size ((lba + 1) % word))

table_in-AllNamed :
    (device : BlockDevice) (header : Bytes) → UnlessErr (table_in device header) AllNamed
table_in-AllNamed device header = elim (Bool-cases (equal (take 8 header) gpt_header_signature)) [
  | inr unsigned ↦ rw unsigned tt
  | inl signed ↦ elim (Bool-cases (ltb (entry_size_of header) 128)) [
    | inl narrow ↦ rw (signed, narrow) tt
    | inr wide ↦
        rw (signed, wide)
          (UnlessErr-bind
            (ok_or (checked_mul (le_at 4 header 80) (entry_size_of header)) invalid_partition_table)
            _ AllNamed
            λ table_bytes fits.
              scan_sectors-AllNamed device (sectors_of table_bytes) (entry_size_of header)
                (le_at 8 header 72) [] tt)
  ]
]

pub read-AllNamed : (device : BlockDevice) → UnlessErr (read device) AllNamed
unfolding read
read-AllNamed device =
    UnlessErr-bind (device.read_sector gpt_header_lba) _ AllNamed
      λ header there. table_in-AllNamed device header

first_such-AllNamed :
    (test : GptPartition → Bool) (partitions : List GptPartition) (partition : GptPartition)
    → AllNamed partitions
    → first_such test partitions ≡ some partition
    → (length partition.name ≡ max_name_len) × (test partition ≡ true)
first_such-AllNamed test [] partition all found = absurd (cc)
first_such-AllNamed test (first ∷ others) partition (named, all) found =
    elim (Bool-cases (test first)) [
      | inl passes ↦
          let same : some first ≡ some partition = rw passes at found in
          let e : first ≡ partition = cc in
          subst (λ p. (length p.name ≡ max_name_len) × (test p ≡ true)) e (named, passes)
      | inr fails ↦ first_such-AllNamed test others partition all (rw fails at found)
    ]

-- The partition that is found by its name has that name, with zeros behind it.
pub find_by_name-padded :
    (name : Bytes) (partitions : List GptPartition) (partition : GptPartition)
    → AllNamed partitions
    → find_by_name name partitions ≡ some partition
    → partition.name ≡ padded max_name_len name
unfolding find_by_name
find_by_name-padded name partitions partition all found =
    let (named, passes) =
      first_such-AllNamed (λ p. name_matches p name) partitions partition all found in
    ((name_matches_iff partition name named).0 passes).1
