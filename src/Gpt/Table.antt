-- ===== src/Gpt/Table.antt =====
-- The partitions in a table (kernel/kernel/src/storage/gpt.rs).
use lazers.Base.{
  ℕ, zero, suc, ◌+◌, ◌*◌, ◌/◌, ◌%◌, ◌≤◌, ◌<◌, Bool, true, false, ◌&&◌, List, [], ◌∷◌, ◌++◌, map,
  ◌≡◌, refl, sym, ap, ◌∙◌, inl, inr, arith,
}
use lazers.Base.Tests.{ltb, leb, if◌then◌else◌, Bool-cases, le→ltb_false, lt→ltb}
use lazers.Base.Lists.{length, drop, length-append}
use lazers.Base.Words.{Bytes, word}
use lazers.Base.Results.{Result, ok, err}
use lazers.Base.Lists.{take}
use mathlib.Core.List.{append_assoc, append-nil}
use lazers.Base.Text.{equal, equal_iff}
use lazers.Base.Results.{◌>>=◌}
use lazers.Path.{StorageError, invalid_partition_table}
use lazers.Fat.{BlockDevice, sector_size, le_at}
use lazers.Fat.Chain.{Sectors, no_sectors, sector}
use lazers.Gpt.{
  GptPartition, max_partitions, is_used, is_ordered, partition_of, add_entry, scan_entries,
  scan_sectors, sectors_of, entry_size_of, gpt_header_lba, gpt_header_signature, read,
}

-- The first `count` entries of a sector.
abbrev pub slots : ℕ → ℕ → Bytes → List Bytes
slots zero size bytes = []
slots (suc count) size bytes = take size bytes ∷ slots count size (drop size bytes)

-- The entries of a table in their order.
abbrev pub table_entries : ℕ → List Bytes → List Bytes
table_entries size [] = []
table_entries size (first ∷ others) =
    slots (sector_size / size) size first ++ table_entries size others

unfoldable pub used : List Bytes → List Bytes
used [] = []
used (entry ∷ others) = let rest = used others in if is_used entry then entry ∷ rest else rest

unfoldable pub all_ordered : List Bytes → Bool
all_ordered [] = true
all_ordered (entry ∷ others) = is_ordered entry && all_ordered others

-- The partitions of entries, behind those that have been found, if all of them are in order.
abbrev pub extended : List GptPartition → List Bytes → Result StorageError (List GptPartition)
extended found es =
    if all_ordered es then ok (found ++ map partition_of es) else err invalid_partition_table

-- The walk over a list of entries.
gather : List Bytes → List GptPartition → Result StorageError (List GptPartition)
gather [] found = ok found
gather (entry ∷ others) found =
    if leb max_partitions (length found)
    then ok found
    else (add_entry entry found >>= gather others)

scan_entries-gather :
    (count size : ℕ) (bytes : Bytes) (found : List GptPartition)
    → scan_entries count size bytes found ≡ gather (slots count size bytes) found
unfolding scan_entries gather
scan_entries-gather zero size bytes found = refl
scan_entries-gather (suc count) size bytes found =
    elim (Bool-cases (leb max_partitions (length found))) [
      | inl full ↦ rw full refl
      | inr free ↦ rw free (
          added (add_entry (take size bytes) found)
            (scan_entries-gather count size (drop size bytes)))
    ]
  where
    added :
        (r : Result StorageError (List GptPartition))
        → ((more : List GptPartition)
            → scan_entries count size (drop size bytes) more
              ≡ gather (slots count size (drop size bytes)) more)
        → (r >>= scan_entries count size (drop size bytes))
          ≡ (r >>= gather (slots count size (drop size bytes)))
    added (err e) same = refl
    added (ok more) same = same more

gather-full :
    (es : List Bytes) (found : List GptPartition)
    → leb max_partitions (length found) ≡ true
    → gather es found ≡ ok found
unfolding gather
gather-full [] found full = refl
gather-full (entry ∷ others) found full = rw full refl

gather-append :
    (xs ys : List Bytes) (found : List GptPartition)
    → gather (xs ++ ys) found ≡ (gather xs found >>= gather ys)
unfolding gather
gather-append [] ys found = refl
gather-append (x ∷ xs) ys found = elim (Bool-cases (leb max_partitions (length found))) [
  | inl full ↦ rw full (sym (gather-full ys found full))
  | inr free ↦ rw free (added (add_entry x found) (gather-append xs ys))
]
  where
    added :
        (r : Result StorageError (List GptPartition))
        → ((more : List GptPartition) → gather (xs ++ ys) more ≡ (gather xs more >>= gather ys))
        → (r >>= gather (xs ++ ys)) ≡ (r >>= gather xs >>= gather ys)
    added (err e) same = refl
    added (ok more) same = same more

scan_sectors-gather :
    (device : BlockDevice) (n size lba : ℕ) (sectors : List Bytes) (found : List GptPartition)
    → Sectors device n lba sectors
    → scan_sectors device n size lba found ≡ gather (table_entries size sectors) found
unfolding scan_sectors gather
scan_sectors-gather device zero size lba [] found no_sectors = refl
scan_sectors-gather device zero size lba (first ∷ others) found x = elim x [ ]
scan_sectors-gather device (suc n) size lba [] found x = elim x [ ]
scan_sectors-gather device (suc n) size lba (first ∷ others) found (sector there behind) =
    rw there (
      ap (λ r. r >>= scan_sectors device n size ((lba + 1) % word))
        (scan_entries-gather (sector_size / size) size first found)
      ∙ then_others (gather (slots (sector_size / size) size first) found)
          (λ more. scan_sectors-gather device n size ((lba + 1) % word) others more behind)
      ∙ sym
          (gather-append (slots (sector_size / size) size first) (table_entries size others) found))
  where
    then_others :
        (r : Result StorageError (List GptPartition))
        → ((more : List GptPartition)
            → scan_sectors device n size ((lba + 1) % word) more
              ≡ gather (table_entries size others) more)
        → (r >>= scan_sectors device n size ((lba + 1) % word))
          ≡ (r >>= gather (table_entries size others))
    then_others (err e) same = refl
    then_others (ok more) same = same more

gather-used :
    (es : List Bytes) (found : List GptPartition) (free : ℕ)
    → length found + free ≡ max_partitions
    → gather es found ≡ extended found (take free (used es))
unfolding gather used all_ordered
gather-used [] found zero counted = rw (append-nil found) refl
gather-used [] found (suc free) counted = rw (append-nil found) refl
gather-used (entry ∷ others) found zero counted =
    let full : leb max_partitions (length found) ≡ true = ground (arith, counted) in
    gather-full (entry ∷ others) found full ∙ (rw (append-nil found) refl)
gather-used (entry ∷ others) found (suc free) counted =
    let not_full : leb max_partitions (length found) ≡ false = ground (arith, counted) in
    rw not_full (elim (Bool-cases (is_used entry)) [
      | inr unused ↦ rw unused (gather-used others found (suc free) counted)
      | inl uses ↦ elim (Bool-cases (is_ordered entry)) [
        | inr unordered ↦ rw (uses, unordered) refl
        | inl ordered ↦
            rw (uses, ordered)
              (gather-used others (found ++ (partition_of entry ∷ [])) free
                  (omega (arith, counted, length-append found (partition_of entry ∷ [])))
                ∙ ap
                    (λ l.
                      if all_ordered (take free (used others))
                      then ok l
                      else err invalid_partition_table)
                    (append_assoc found (partition_of entry ∷ [])
                      (map partition_of (take free (used others)))))
      ]
    ])

-- What a disk with a valid header has for partitions: the first sixteen used entries in the sectors that
-- its table takes up, in their order. If one of these ends before it starts, the result is
-- `invalid_partition_table`. Whether an entry is among those that the header counts does not matter.
pub read_lem :
    (device : BlockDevice) (header : Bytes) (sectors : List Bytes)
    → device.read_sector gpt_header_lba ≡ ok header
    → take 8 header ≡ gpt_header_signature
    → 128 ≤ entry_size_of header
    → le_at 4 header 80 * entry_size_of header < word
    → Sectors device
        (sectors_of (le_at 4 header 80 * entry_size_of header))
        (le_at 8 header 72)
        sectors
    → read device
      ≡ extended [] (take max_partitions (used (table_entries (entry_size_of header) sectors)))
unfolding read
read_lem device header sectors there signed wide bounded stored =
    let is_signed : equal (take 8 header) gpt_header_signature ≡ true =
      (equal_iff (take 8 header) gpt_header_signature).1 signed in
    let is_wide : ltb (entry_size_of header) 128 ≡ false =
      le→ltb_false (entry_size_of header) 128 wide in
    let fits : ltb (le_at 4 header 80 * entry_size_of header) word ≡ true =
      lt→ltb (le_at 4 header 80 * entry_size_of header) word bounded in
    rw (there, is_signed, is_wide, fits)
      (scan_sectors-gather device (sectors_of (le_at 4 header 80 * entry_size_of header))
          (entry_size_of header) (le_at 8 header 72) sectors [] stored
        ∙ gather-used (table_entries (entry_size_of header) sectors) [] max_partitions refl)
