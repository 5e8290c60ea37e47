-- ===== src/Elf/Headers.antt =====
-- Parsing the header of an image, libs/elf/src/lib.rs, `ElfHeader::parse`.
use lazers.Base.{
  ℕ, zero, suc, ◌+◌, ◌*◌, ◌≤◌, ◌<◌, true, not, Option, some, [], ◌∷◌, ◌≡◌, refl, inl, inr, arith,
}
use lazers.Base.Tests.{ltb, leb, ◌==◌, Bool-cases}
use lazers.Base.Lists.{length, take, drop, get_elem?}
use lazers.Base.Words.{Bytes, word}
use lazers.Base.Text.{equal}
use lazers.Base.Results.{Result, ok, err, and_then}
use lazers.Elf.{
  ElfError, header_too_small, invalid_magic, ElfHeader, read_le, require, checked_table,
  parse_table, parse_header, from_le_bytes, elf_magic,
}

pub read_le-some :
    (width : ℕ) (bytes : Bytes) (offset : ℕ)
    → offset + width ≤ length bytes
    → (v : ℕ) × (read_le width bytes offset ≡ some v)
unfolding read_le
read_le-some width bytes offset h =
    let inside : leb (offset + width) (length bytes) ≡ true = ground arith in
    (from_le_bytes (take width (drop offset bytes)), rw inside refl)

get-some : (bytes : Bytes) (i : ℕ) → i < length bytes → (v : ℕ) × (get_elem? bytes i ≡ some v)
get-some [] i h = absurd (omega arith)
get-some (b ∷ bs) zero h = (b, refl)
get-some (b ∷ bs) (suc i) h = get-some bs i (omega arith)

-- The table of program headers lies within the file.
abbrev pub TableFits : ElfHeader → ℕ → Type 0
TableFits h file_len =
    h.program_header_offset + h.program_header_entry_size * h.program_header_count ≤ file_len

-- The outcome of parsing: an error, or a header whose table fits.
abbrev pub Parsed : Bytes → Result ElfError ElfHeader → Type 0
Parsed bytes (err e) = Unit {0}
Parsed bytes (ok h) = TableFits h (length bytes)

checked_table-Parsed :
    (bytes : Bytes) (h : ElfHeader) → Parsed bytes (checked_table (length bytes) h)
checked_table-Parsed bytes h =
    let size = h.program_header_entry_size * h.program_header_count in
    elim (Bool-cases (ltb size word)) [
      | inr large ↦ rw large tt
      | inl small ↦ elim (Bool-cases (ltb (h.program_header_offset + size) word)) [
        | inr beyond ↦ rw (small, beyond) tt
        | inl within ↦ elim (Bool-cases (ltb (length bytes) (h.program_header_offset + size))) [
          | inl outside ↦ rw (small, within, outside) tt
          | inr inside ↦ rw (small, within, inside) (ground arith)
        ]
      ]
    ]

require-total :
    (bytes : Bytes) (v expected : ℕ) (error : ElfError) (rest : Option (Result ElfError ElfHeader))
    → ((r : Result ElfError ElfHeader) × (rest ≡ some r) × Parsed bytes r)
    → (r : Result ElfError ElfHeader) × (require (some v) expected error rest ≡ some r)
      × Parsed bytes r
require-total bytes v expected error rest (r, e, fits) = elim (Bool-cases (v == expected)) [
  | inl same ↦ (r, rw same e, fits)
  | inr other ↦ (err error, rw other refl, tt)
]

parse_table-total :
    (bytes : Bytes)
    → 64 ≤ length bytes
    → (r : Result ElfError ElfHeader) × (parse_table bytes ≡ some r) × Parsed bytes r
unfolding parse_table
parse_table-total bytes h =
    let (offset, e1) = read_le-some 8 bytes 32 (omega arith) in
    let (entry_size, e2) = read_le-some 2 bytes 54 (omega arith) in
    let (count, e3) = read_le-some 2 bytes 56 (omega arith) in
    let (entry, e4) = read_le-some 8 bytes 24 (omega arith) in
    let header : ElfHeader = record {
      entry = entry;
      program_header_offset = offset;
      program_header_entry_size = entry_size;
      program_header_count = count;
    } in
    (
      checked_table (length bytes) header,
      rw (e1, e2, e3, e4, and_then) refl,
      checked_table-Parsed bytes header,
    )

-- Parsing the header of any file does not read out of range, and if it succeeds the table of program
-- headers lies within the file.
pub parse_header-total :
    (bytes : Bytes)
    → (r : Result ElfError ElfHeader) × (parse_header bytes ≡ some r) × Parsed bytes r
unfolding parse_header
parse_header-total bytes = elim (Bool-cases (ltb (length bytes) 64)) [
  | inl short ↦ (err header_too_small, rw short refl, tt)
  | inr whole ↦ elim (Bool-cases (not (equal (take 4 bytes) elf_magic))) [
    | inl wrong ↦ (err invalid_magic, rw (whole, wrong) refl, tt)
    | inr magic ↦
        let long : 64 ≤ length bytes = ground arith in
        let (a, ea) = get-some bytes 4 (omega arith) in
        let (b, eb) = get-some bytes 5 (omega arith) in
        let (c, ec) = get-some bytes 6 (omega arith) in
        let (d, ed) = read_le-some 2 bytes 16 (omega arith) in
        let (e, ee) = read_le-some 2 bytes 18 (omega arith) in
        let (f, ef) = read_le-some 4 bytes 20 (omega arith) in
        rw (whole, magic, ea, eb, ec, ed, ee, ef)
          (require-total bytes a 2 _ _ (
            require-total bytes b 1 _ _ (
              require-total bytes c 1 _ _ (
                require-total bytes d 2 _ _ (
                  require-total bytes e 0x3e _ _
                    (require-total bytes f 1 _ _ (parse_table-total bytes long)))))))
  ]
]
