-- ===== src/Elf/Table.antt =====
-- The program headers of an image and the ranges of its segments, libs/elf/src/lib.rs.
use lazers.Base.{
  ℕ, zero, suc, ◌+◌, ◌-◌, ◌*◌, ◌≤◌, ◌<◌, true, false, ◌&&◌, some, List, [], ◌∷◌, ◌≡◌, ◌↔◌, refl, ap,
  ◌∙◌, inl, inr, arith,
}
use lazers.Base.Tests.{ltb, leb, Bool-cases}
use mathlib.Core.Path.{subst}
use lazers.Base.Lists.{length, take, drop, length-take, length-drop}
use lazers.Base.Words.{Bytes, word}
use lazers.Base.Results.{Result, ok, err, and_then}
use lazers.Elf.{
  ElfError, ElfHeader, ProgramHeader, parse_header, parse_program_header, header_at, header_in,
  entry_at, program_headers, file_range, program_header_size,
}
use lazers.Elf.Headers.{TableFits, Parsed, read_le-some, parse_header-total}

parse_program_header-ok :
    (entry : Bytes)
    → program_header_size ≤ length entry
    → (p : ProgramHeader) × (parse_program_header entry ≡ some (ok p))
unfolding parse_program_header
parse_program_header-ok entry h =
    let long : ltb (length entry) program_header_size ≡ false = ground arith in
    let (kind, e1) = read_le-some 4 entry 0 (omega arith) in
    let (flags, e2) = read_le-some 4 entry 4 (omega arith) in
    let (offset, e3) = read_le-some 8 entry 8 (omega arith) in
    let (virtual_address, e4) = read_le-some 8 entry 16 (omega arith) in
    let (physical_address, e5) = read_le-some 8 entry 24 (omega arith) in
    let (file_size, e6) = read_le-some 8 entry 32 (omega arith) in
    let (memory_size, e7) = read_le-some 8 entry 40 (omega arith) in
    (
      record {
        kind = kind;
        flags = flags;
        offset = offset;
        virtual_address = virtual_address;
        physical_address = physical_address;
        file_size = file_size;
        memory_size = memory_size;
      },
      rw (long, e1, e2, e3, e4, e5, e6, e7, and_then) refl,
    )

-- An entry of the table lies within the table.
entry_fits : (e i n : ℕ) → i < n → i * e + e ≤ e * n
entry_fits e i zero h = absurd (omega arith)
entry_fits e zero (suc n) h = grind arith
entry_fits e (suc i) (suc n) h = grind (arith, entry_fits e i n (omega arith))

header_at-ok :
    (h : ElfHeader) (bytes : Bytes) (i : ℕ)
    → TableFits h (length bytes)
    → length bytes < word
    → program_header_size ≤ h.program_header_entry_size
    → i < h.program_header_count
    → (p : ProgramHeader) × (header_at h bytes i ≡ some (some (ok p)))
unfolding header_at entry_at
header_at-ok h bytes i fits small wide below =
    let size = h.program_header_entry_size in
    let at = h.program_header_offset + i * size in
    let inside : at + size ≤ length bytes =
      omega (arith, entry_fits size i h.program_header_count below) in
    let a : ltb (i * size) word ≡ true = ground arith in
    let b : ltb at word ≡ true = ground arith in
    let c : ltb (at + size) word ≡ true = ground arith in
    let d : (leb at (at + size) && leb (at + size) (length bytes)) ≡ true = ground arith in
    let entry = take (at + size - at) (drop at bytes) in
    let long : length entry ≡ size =
      omega (arith, length-take (at + size - at) (drop at bytes), length-drop at bytes) in
    let (p, e) = parse_program_header-ok entry (omega (arith, long)) in
    let found : entry_at h bytes i ≡ some entry = rw (a, b, c, d, and_then) refl in
    (p, ap header_in found ∙ rw (e, and_then) refl)

-- Every item is a header.
abbrev pub AllOk : List (Result ElfError ProgramHeader) → Type 0
AllOk [] = Unit {0}
AllOk (ok p ∷ items) = AllOk items
AllOk (err e ∷ items) = ⊥

headers_from :
    (h : ElfHeader) (bytes : Bytes) (next left : ℕ)
    → TableFits h (length bytes)
    → length bytes < word
    → program_header_size ≤ h.program_header_entry_size
    → next + left ≡ h.program_header_count
    → (items : List (Result ElfError ProgramHeader)) × (program_headers h bytes next left
        ≡ some items)
      × (length items ≡ left)
      × AllOk items
unfolding program_headers
headers_from h bytes next zero fits small wide sum = ([], refl, refl, tt)
headers_from h bytes next (suc left) fits small wide sum =
    let (p, e) = header_at-ok h bytes next fits small wide (omega arith) in
    let (items, done, count, all) =
      headers_from h bytes (suc next) left fits small wide (omega arith) in
    (ok p ∷ items, rw (e, and_then, done) refl, ap suc count, all)

-- If the header of a file of less than 2 ^ 64 bytes is parsed and its entries have at least the size of
-- a program header, the iteration gives as many program headers as it says, none of them an error.
pub program_headers-length :
    (bytes : Bytes) (h : ElfHeader)
    → length bytes < word
    → parse_header bytes ≡ some (ok h)
    → program_header_size ≤ h.program_header_entry_size
    → (items : List (Result ElfError ProgramHeader)) × (program_headers h bytes 0
          h.program_header_count
        ≡ some items)
      × (length items ≡ h.program_header_count)
      × AllOk items
program_headers-length bytes h small parsed wide =
    let (r, e, fits) = parse_header-total bytes in
    let same : r ≡ ok h = cc in
    headers_from h bytes 0 h.program_header_count (subst (Parsed bytes) same fits) small wide
      (omega arith)

-- For a file of less than 2 ^ 64 bytes the range of a segment is given exactly if the segment ends within
-- the file, and it is then the segment's offset and end.
pub file_range_iff :
    (p : ProgramHeader) (file_len start end : ℕ)
    → file_len < word
    → (file_range p file_len ≡ ok (start, end))
      ↔ ((p.offset + p.file_size ≤ file_len) × (start ≡ p.offset) × (end ≡ p.offset + p.file_size))
unfolding file_range
file_range_iff p file_len start end small =
    let sum = p.offset + p.file_size in
    elim (Bool-cases (ltb sum word)) [
      | inr beyond ↦ rw beyond ((λ h. absurd (cc)), λ h. absurd (ground (arith, h.0)))
      | inl within ↦ elim (Bool-cases (ltb file_len sum)) [
        | inl outside ↦ rw (within, outside) ((λ h. absurd (cc)), λ h. absurd (ground (arith, h.0)))
        | inr inside ↦
            rw (within, inside) ((λ h. (ground arith, cc, cc)), λ (_, from, to). rw (from, to) refl)
      ]
    ]
