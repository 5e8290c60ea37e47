-- ===== src/Elf/Examples.antt =====
-- Tests of the ELF parser on a small image, and the witnesses of what is proved of it.
use lazers.Base.{ℕ, some, List, [], ◌∷◌, ◌++◌, ◌≡◌, refl, arith}
use lazers.Base.Lists.{length, replicate}
use lazers.Base.Words.{Bytes}
use lazers.Base.Text.{equal}
use lazers.Base.Results.{Result, ok, err}
use lazers.Elf.{
  ElfError, ElfHeader, ProgramHeader, parse_header, parse_table, read_le, program_headers,
  parse_program_header, header_at, entry_at, file_range, load_address, header_too_small,
  unsupported_machine, segment_extends_past_file,
}
use lazers.Elf.Table.{AllOk, program_headers-length}

abbrev padded : ℕ → ℕ → Bytes
padded b zeros = b ∷ replicate zeros 0

-- An image for the given machine: a header and one program header.
abbrev image_for : ℕ → Bytes
image_for machine =
    (0x7f ∷ 0x45 ∷ 0x4c ∷ 0x46 ∷ 2 ∷ 1 ∷ 1 ∷ replicate 9 0)
    ++ (padded 2 1
        ++ (padded machine 1
            ++ (padded 1 3
                ++ (padded 9 7
                    ++ (padded 64 7
                        ++ (replicate 14 0
                            ++ (padded 56 1
                                ++ (padded 1 1
                                    ++ (replicate 6 0
                                        ++ (padded 1 3
                                            ++ (padded 5 3
                                                ++ (padded 16 7
                                                    ++ (padded 32 7
                                                        ++ (padded 0 7
                                                            ++ (padded 100 7
                                                            ++ (padded 200 7
                                                            ++ padded 0 7))))))))))))))))

abbrev image : Bytes
image = image_for 0x3e

abbrev header : ElfHeader
header = record {
  entry = 9;
  program_header_offset = 64;
  program_header_entry_size = 56;
  program_header_count = 1;
}

abbrev segment : ProgramHeader
segment = record {
  kind = 1;
  flags = 5;
  offset = 16;
  virtual_address = 32;
  physical_address = 0;
  file_size = 100;
  memory_size = 200;
}

image-parsed : parse_header image ≡ some (ok header)
unfolding parse_header parse_table read_le equal
image-parsed = refl

image-segments : program_headers header image 0 1 ≡ some (ok segment ∷ [])
unfolding program_headers header_at entry_at parse_program_header read_le
image-segments = refl

empty_image : parse_header [] ≡ some (err header_too_small)
unfolding parse_header
empty_image = refl

other_machine : parse_header (image_for 0x28) ≡ some (err unsupported_machine)
unfolding parse_header parse_table read_le equal
other_machine = refl

segment-address : load_address segment ≡ ok 32
unfolding load_address
segment-address = refl

segment-too_long : file_range segment 100 ≡ err segment_extends_past_file
unfolding file_range
segment-too_long = refl

program_headers-length_example :
    (items : List (Result ElfError ProgramHeader)) × (program_headers header image 0 1 ≡ some items)
    × (length items ≡ 1)
    × AllOk items
program_headers-length_example =
    program_headers-length image header (omega arith) image-parsed (omega arith)
