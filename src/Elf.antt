-- ===== src/Elf.antt =====
-- Reading ELF images, libs/elf/src/lib.rs, with the little-endian readers of libs/lzutil/src/lib.rs.
-- `none` as the outcome is a panic on a slice out of range. `usize` has 64 bits, so that the conversions
-- from `u64` never fail.
pub mod Headers
pub mod Table
pub mod Examples
use lazers.Base.{
  ℕ, zero, suc, ◌+◌, ◌-◌, ◌*◌, ◌/◌, ◌%◌, ◌^◌, ◌≤◌, ◌<◌, min, max, Bool, true, false, not, ◌&&◌,
  ◌||◌, Option, none, some, List, [], ◌∷◌, ◌++◌, map, ◌≡◌, ◌≢◌, ◌↔◌, refl, sym, ap, ◌∙◌, ◌⊎◌, inl,
  inr, arith,
}
use lazers.Base.Tests.{ltb, leb, if◌then◌else◌, ◌==◌, Bool-cases, Option-cases}
use lazers.Base.Lists.{length, take, drop, get_elem?}
use lazers.Base.Words.{Bytes, checked_add, checked_mul}
use lazers.Base.Text.{equal}
use lazers.Base.Results.{Result, ok, err, ok_or, ◌>>=◌, and_then}

pub data ElfError : Type 0 where
  header_too_small invalid_magic unsupported_class unsupported_encoding : ElfError
  unsupported_type unsupported_machine unsupported_version : ElfError
  program_header_truncated program_header_table_out_of_range segment_extends_past_file : ElfError
  address_out_of_range zero_load_address : ElfError

abbrev pub from_le_bytes : Bytes → ℕ
from_le_bytes [] = 0
from_le_bytes (b ∷ bs) = b + 256 * from_le_bytes bs

-- `read_le_u16`, `read_le_u32` and `read_le_u64`, by the width in bytes.
unfoldable pub read_le : ℕ → Bytes → ℕ → Option ℕ
read_le width bytes offset =
    if leb (offset + width) (length bytes)
    then some (from_le_bytes (take width (drop offset bytes)))
    else none

pub record ElfHeader : Type 0 where
  pub entry : ℕ
  pub program_header_offset : ℕ
  pub program_header_entry_size : ℕ
  pub program_header_count : ℕ

-- `if value != expected { return Err(error); }`
abbrev pub require :
    {A : Type 0} → Option ℕ → ℕ → ElfError → Option (Result ElfError A) → Option (Result ElfError A)
require read expected error rest =
    and_then read λ value. if value == expected then rest else some (err error)

abbrev pub elf_magic : Bytes
elf_magic = 0x7f ∷ b'E' ∷ b'L' ∷ b'F' ∷ []

abbrev pub elf_header_size : ℕ
elf_header_size = 64

abbrev pub program_header_size : ℕ
program_header_size = 56

-- The end of `ElfHeader::parse`, once all four numbers are read.
abbrev pub checked_table : ℕ → ElfHeader → Result ElfError ElfHeader
checked_table file_len h =
    ok_or (checked_mul h.program_header_entry_size h.program_header_count) address_out_of_range
    >>= λ table_size.
        ok_or (checked_add h.program_header_offset table_size) address_out_of_range >>= λ table_end.
        if ltb file_len table_end then err program_header_table_out_of_range else ok h

unfoldable pub parse_table : Bytes → Option (Result ElfError ElfHeader)
parse_table bytes = and_then (read_le 8 bytes 32) λ offset.
    and_then (read_le 2 bytes 54) λ entry_size. and_then (read_le 2 bytes 56) λ count.
      and_then (read_le 8 bytes 24) λ entry. some (
        checked_table (length bytes) (record {
          entry = entry;
          program_header_offset = offset;
          program_header_entry_size = entry_size;
          program_header_count = count;
        }))

-- `ElfHeader::parse`
unfoldable pub parse_header : Bytes → Option (Result ElfError ElfHeader)
parse_header bytes =
    if ltb (length bytes) elf_header_size
    then some (err header_too_small)
    else if not (equal (take 4 bytes) elf_magic)
    then some (err invalid_magic)
    else require (get_elem? bytes 4) 2 unsupported_class (
        require (get_elem? bytes 5) 1 unsupported_encoding (
          require (get_elem? bytes 6) 1 unsupported_version (
            require (read_le 2 bytes 16) 2 unsupported_type (
              require (read_le 2 bytes 18) 0x3e unsupported_machine
                (require (read_le 4 bytes 20) 1 unsupported_version (parse_table bytes))))))

pub record ProgramHeader : Type 0 where
  pub kind : ℕ
  pub flags : ℕ
  pub offset : ℕ
  pub virtual_address : ℕ
  pub physical_address : ℕ
  pub file_size : ℕ
  pub memory_size : ℕ

-- `ProgramHeader::parse`
unfoldable pub parse_program_header : Bytes → Option (Result ElfError ProgramHeader)
parse_program_header bytes =
    if ltb (length bytes) program_header_size
    then some (err program_header_truncated)
    else and_then (read_le 4 bytes 0) λ kind. and_then (read_le 4 bytes 4) λ flags.
      and_then (read_le 8 bytes 8) λ offset. and_then (read_le 8 bytes 16) λ virtual_address.
        and_then (read_le 8 bytes 24) λ physical_address. and_then (read_le 8 bytes 32) λ file_size.
          and_then (read_le 8 bytes 40) λ memory_size. some (
            ok (record {
              kind = kind;
              flags = flags;
              offset = offset;
              virtual_address = virtual_address;
              physical_address = physical_address;
              file_size = file_size;
              memory_size = memory_size;
            }))

-- `bytes.get(start..end)`
abbrev pub get_range : ℕ → ℕ → Bytes → Option Bytes
get_range start end bytes =
    if leb start end && leb end (length bytes)
    then some (take (end - start) (drop start bytes))
    else none

-- The bytes of the entry at an index; each `?` of the source is an `and_then`.
unfoldable pub entry_at : ElfHeader → Bytes → ℕ → Option Bytes
entry_at h bytes index = and_then (checked_mul index h.program_header_entry_size) λ distance.
    and_then (checked_add h.program_header_offset distance) λ offset.
      and_then (checked_add offset h.program_header_entry_size) λ end. get_range offset end bytes

abbrev pub header_in : Option Bytes → Option (Option (Result ElfError ProgramHeader))
header_in none = some none
header_in (some entry) = and_then (parse_program_header entry) λ item. some (some item)

-- What `ProgramHeaderIter::next` finds at an index below the count: `none` inside ends the iteration.
unfoldable pub header_at : ElfHeader → Bytes → ℕ → Option (Option (Result ElfError ProgramHeader))
header_at h bytes index = header_in (entry_at h bytes index)

-- All items of the iteration, from index `next`, with `left` headers to go.
unfoldable pub program_headers :
    ElfHeader → Bytes → ℕ → ℕ → Option (List (Result ElfError ProgramHeader))
program_headers h bytes next zero = some []
program_headers h bytes next (suc left) = and_then (header_at h bytes next) λ found. elim found [
  | none ↦ some []
  | some item ↦ and_then (program_headers h bytes (suc next) left) λ items. some (item ∷ items)
]

-- `ProgramHeader::file_range`, as the start and the end.
unfoldable pub file_range : ProgramHeader → ℕ → Result ElfError (ℕ × ℕ)
file_range h file_len = ok_or (checked_add h.offset h.file_size) address_out_of_range >>= λ end.
    if ltb file_len end then err segment_extends_past_file else ok (h.offset, end)

-- `ProgramHeader::load_address`
unfoldable pub load_address : ProgramHeader → Result ElfError ℕ
load_address h =
    let address = if h.physical_address == 0 then h.virtual_address else h.physical_address in
    if address == 0 then err zero_load_address else ok address
