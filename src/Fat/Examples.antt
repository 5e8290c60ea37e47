-- ===== src/Fat/Examples.antt =====
-- Tests of the FAT32 reader on a small disk, and the witnesses of what is proved of it
-- (kernel/kernel/src/storage/fat32.rs).
use lazers.Base.{ℕ, true, false, some, [], ◌∷◌, ◌++◌, map, ◌≡◌, refl, arith}
use lazers.Base.Tests.{if◌then◌else◌, ◌==◌}
use lazers.Base.Lists.{length, drop, length-append}
use lazers.Base.Words.{Bytes}
use lazers.Base.Results.{Result, ok, err}
use lazers.Base.Lists.{take, replicate, length-replicate, length-take}
use lazers.Base.Text.{codes, equal, starts_with, contains}
use mathlib.Core.Path.{subst}
use lazers.Path.{invalid_short_name}
use lazers.Fat.{
  BlockDevice, Fat32, root_directory, sector_size, mount, cluster_to_lba, next_cluster,
}
use lazers.Fat.Names.{
  make_short_name, display_short_name, is_dot_entry, upper, without_spaces, split_dots,
  normalize_bytes, normalize_fat_byte,
}
use lazers.Fat.Names.RoundTrip.{display_short_name-make_short_name}
use lazers.Fat.Chain.{Sectors, no_sectors, sector, Chain, last, entries}
use lazers.Fat.Scan.{scan_chain, scan_sectors, scan_entries}
use lazers.Path.{split}
use lazers.Fat.Directory.{
  open_absolute, entry_of, components, resolve_components, find_in_directory, resolve_absolute,
  read_dir, over_buffer,
}
use lazers.Fat.Walk.{Walk, here, open_absolute-Walk}
use lazers.Fat.Listing.{
  first_named, live, has_end, listing, looked_up, listing_result, find_in_directory_lem,
  read_dir_lem,
}
use lazers.Fat.File.{read_file}
use lazers.Fat.File.Contents.{Stores, last_of, before, joined, read_file-Stores}
use lazers.Fat.File.Returns.{Answered, read_file-Answered}

-- A sector with the given bytes at its front.
abbrev pub filled : Bytes → Bytes
filled front = take sector_size (front ++ replicate sector_size 0)

pub length-filled : (front : Bytes) → length (filled front) ≡ sector_size
length-filled front = omega (
  arith,
  length-take sector_size (front ++ replicate sector_size 0),
  length-append front (replicate sector_size 0),
  length-replicate {A = ℕ} sector_size 0,
)

-- One sector in a cluster, one reserved sector and one table; the root directory is cluster 2.
abbrev pub boot_sector : Bytes
boot_sector =
    replicate 11 0
    ++ (0 ∷ 2 ∷ 1 ∷ 1 ∷ 0 ∷ 1 ∷ replicate 15 0)
    ++ (8 ∷ 0 ∷ 0 ∷ 0 ∷ 1 ∷ 0 ∷ 0 ∷ 0 ∷ replicate 4 0)
    ++ (2 ∷ [])

-- The directory is a chain of one cluster, the file a chain of two, 3 and 4.
abbrev table : Bytes
table =
    replicate 8 0 ++ (0xf8 ∷ 0xff ∷ 0xff ∷ 0x0f ∷ 4 ∷ 0 ∷ 0 ∷ 0 ∷ 0xf8 ∷ 0xff ∷ 0xff ∷ 0x0f ∷ [])

-- `ECHO`, a file in cluster 3, of 514 bytes.
abbrev pub echo_entry : Bytes
echo_entry = codes "ECHO       " ++ (0x20 ∷ replicate 14 0) ++ (3 ∷ 0 ∷ 2 ∷ 2 ∷ 0 ∷ 0 ∷ [])

-- A name that has been removed, and a label.
abbrev passed : Bytes
passed = (0xe5 ∷ replicate 31 0) ++ (codes "LAZERS     " ++ (0x08 ∷ replicate 20 0))

abbrev front_of : ℕ → Bytes
front_of lba =
    if lba == 0
    then boot_sector
    else if lba == 1
    then table
    else if lba == 2
    then passed ++ echo_entry
    else if lba == 3
    then codes "hello"
    else codes "!!"

abbrev pub sector_or : {E : Type 0} → Bytes → Result E Bytes → Bytes
sector_or other (ok bytes) = bytes
sector_or other (err e) = other

abbrev pub disk : BlockDevice
disk = record {
  read_sector = λ lba. ok (filled (front_of lba));
  length-read_sector = λ lba bytes e.
      subst (λ r. length (sector_or [] r) ≡ sector_size) e (length-filled (front_of lba));
}

abbrev pub fs : Fat32
fs = record {
  partition_start_lba = 0;
  partition_sector_count = 8;
  sectors_per_cluster = 1;
  reserved_sector_count = 1;
  root_cluster = 2;
  first_data_sector = 2;
}

pub mounts : mount disk 0 8 ≡ ok fs
unfolding mount
mounts = refl

sector_of : (lba : ℕ) → Sectors disk 1 lba (filled (front_of lba) ∷ [])
sector_of lba = sector refl no_sectors

directory_chain : Chain disk fs 1 2 (filled (front_of 2) ∷ [])
unfolding cluster_to_lba next_cluster
directory_chain = last (record { lba = 2; starts_at = refl; stored = sector_of 2 }) refl

abbrev pub echo_bytes : Bytes
echo_bytes = joined (filled (front_of 3) ∷ []) ++ joined (filled (front_of 4) ∷ [])

pub file_chain :
    Stores disk fs 3 (joined (filled (front_of 3) ∷ []) ++ joined (filled (front_of 4) ∷ []))
unfolding cluster_to_lba next_cluster
file_chain =
    before (record { lba = 3; starts_at = refl; stored = sector_of 3 }) refl
      (last_of (record { lba = 4; starts_at = refl; stored = sector_of 4 }))

abbrev echo_name : Bytes
echo_name = codes "ECHO       "

echo_short : make_short_name (codes "echo") ≡ ok echo_name
unfolding make_short_name split_dots normalize_bytes normalize_fat_byte
echo_short = refl

find_in_directory_lem_example :
    find_in_directory disk fs 1 2 (codes "echo")
    ≡ some (looked_up echo_name (live (entries (filled (front_of 2) ∷ []))))
find_in_directory_lem_example =
    find_in_directory_lem disk fs 1 1 2 (filled (front_of 2) ∷ []) (codes "echo") echo_name
      directory_chain (omega arith) echo_short

find_in_directory_test :
    find_in_directory disk fs 1 2 (codes "echo") ≡ some (ok (entry_of echo_entry))
unfolding find_in_directory make_short_name split_dots normalize_bytes normalize_fat_byte scan_chain
    cluster_to_lba scan_sectors scan_entries equal
find_in_directory_test = refl

display_short_name-make_short_name_example :
    (length echo_name ≡ 11) × (display_short_name echo_name ≡ map upper (codes "echo"))
display_short_name-make_short_name_example =
    display_short_name-make_short_name (codes "echo") echo_name echo_short

at_root : resolve_absolute disk fs 1 (codes "/") ≡ some (ok root_directory)
unfolding resolve_absolute split components resolve_components starts_with
at_root = refl

shown_line : listing (live (entries (filled (front_of 2) ∷ []))) ≡ codes "ECHO\n"
unfolding listing live display_short_name without_spaces
shown_line = refl

listed_end : has_end (entries (filled (front_of 2) ∷ [])) ≡ true
unfolding has_end
listed_end = refl

read_dir_lem_example :
    read_dir disk fs 1 (codes "/") (replicate 8 0)
    ≡ some (
        over_buffer (replicate 8 0) (
          listing (live (entries (filled (front_of 2) ∷ []))),
          listing_result
              (has_end (entries (filled (front_of 2) ∷ [])))
              (length (listing (live (entries (filled (front_of 2) ∷ []))))),
        ))
read_dir_lem_example =
    read_dir_lem disk fs 1 1 2 (filled (front_of 2) ∷ []) (codes "/") (replicate 8 0)
      (ok root_directory) at_root refl directory_chain (omega arith) (rw shown_line (omega arith))

read_file-Stores_example :
    read_file disk fs (entry_of echo_entry) (replicate 520 1)
    ≡ some (
      take 514 (joined (filled (front_of 3) ∷ []) ++ joined (filled (front_of 4) ∷ []))
          ++ drop 514 (replicate 520 1),
      ok 514,
    )
read_file-Stores_example =
    read_file-Stores disk fs (entry_of echo_entry) (replicate 520 1)
      (joined (filled (front_of 3) ∷ []) ++ joined (filled (front_of 4) ∷ [])) (omega arith)
      file_chain (omega arith) (omega arith)

read_file-Answered_example :
    Answered 514 (replicate 520 1) (read_file disk fs (entry_of echo_entry) (replicate 520 1))
read_file-Answered_example =
    read_file-Answered disk 0 8 fs (entry_of echo_entry) (replicate 520 1) mounts

-- The tests of kernel/kernel/src/storage/fat32.rs.
extension_is_padded : make_short_name (codes "cat.txt") ≡ ok (codes "CAT     TXT")
unfolding make_short_name split_dots normalize_bytes normalize_fat_byte
extension_is_padded = refl

shapes_are_rejected :
    (make_short_name [] ≡ err invalid_short_name)
    × (make_short_name (codes "toolongname") ≡ err invalid_short_name)
    × (make_short_name (codes "a.b.c") ≡ err invalid_short_name)
    × (make_short_name (codes "bad*name") ≡ err invalid_short_name)
unfolding make_short_name split_dots normalize_bytes normalize_fat_byte contains
shapes_are_rejected = (refl, refl, refl, refl)

names_are_shown :
    (display_short_name (codes "ECHO       ") ≡ codes "ECHO")
    × (display_short_name (codes "CAT     TXT") ≡ codes "CAT.TXT")
    × (is_dot_entry (display_short_name (codes ".          ")) ≡ true)
    × (is_dot_entry (display_short_name (codes "..         ")) ≡ true)
    × (is_dot_entry (display_short_name (codes "ECHO       ")) ≡ false)
unfolding display_short_name without_spaces
names_are_shown = (refl, refl, refl, refl, refl)

finds_echo :
    looked_up echo_name (live (entries (filled (front_of 2) ∷ []))) ≡ ok (entry_of echo_entry)
unfolding live first_named equal
finds_echo = refl

pub echo_walk : Walk disk fs 1 2 (codes "echo" ∷ []) (entry_of echo_entry)
echo_walk = here (record {
  clusters = 1;
  sectors = filled (front_of 2) ∷ [];
  name = echo_name;
  chain = directory_chain;
  enough = omega arith;
  short = echo_short;
  found = finds_echo;
})

pub opens_echo : open_absolute disk fs 1 (codes "/echo") ≡ some (ok (entry_of echo_entry))
unfolding split components starts_with
opens_echo = open_absolute-Walk disk fs 1 (codes "/echo") (entry_of echo_entry) refl echo_walk refl
