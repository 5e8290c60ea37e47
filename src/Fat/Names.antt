-- ===== src/Fat/Names.antt =====
-- Short names, kernel/kernel/src/storage/fat32.rs: eleven bytes, eight of a name and three of its
-- extension, padded with spaces.
pub mod RoundTrip
use lazers.Base.{
  ℕ, zero, suc, ◌+◌, ◌-◌, ◌≤◌, ◌<◌, Bool, true, false, not, ◌&&◌, ◌||◌, List, [], ◌∷◌, ◌++◌, ◌≡◌,
  refl, map, arith, sym, ap, ◌∙◌, inl, inr,
}
use lazers.Base.Tests.{ltb, leb, if◌then◌else◌, ◌==◌, Bool-cases}
use lazers.Base.Lists.{length, take, drop, replicate, length-replicate, length-append}
use lazers.Base.Words.{Bytes}
use lazers.Base.Text.{codes, contains, is_nil}
use lazers.Base.Results.{Result, ok, err, ◌>>=◌, >>=-eq-ok}
use lazers.Path.{StorageError, invalid_short_name, onto_first}

-- `component.split('.')`
unfoldable pub split_dots : Bytes → List Bytes
split_dots [] = [] ∷ []
split_dots (b ∷ bs) = let rest = split_dots bs in if b == b'.' then [] ∷ rest else onto_first b rest

abbrev pub is_digit_or_upper : ℕ → Bool
is_digit_or_upper b = leb b'0' b && leb b b'9' || leb b'A' b && leb b b'Z'

abbrev pub is_lower : ℕ → Bool
is_lower b = leb b'a' b && leb b b'z'

abbrev pub upper : ℕ → ℕ
upper b = if is_lower b then b - 32 else b

unfoldable pub normalize_fat_byte : ℕ → Result StorageError ℕ
normalize_fat_byte b =
    if is_digit_or_upper b || is_lower b
    then ok (upper b)
    else if contains b (codes "$%'-_@~`!(){}^#&")
    then ok b
    else err invalid_short_name

unfoldable pub normalize_bytes : Bytes → Result StorageError Bytes
normalize_bytes [] = ok []
normalize_bytes (b ∷ bs) =
    normalize_fat_byte b >>= λ first. normalize_bytes bs >>= λ rest. ok (first ∷ rest)

-- At the front of a field of spaces.
abbrev pub padded : ℕ → Bytes → Bytes
padded n bs = bs ++ replicate (n - length bs) b' '

-- A part of the name that has its length in range.
abbrev pub field : ℕ → Bytes → Result StorageError Bytes
field n part =
    if is_nil part || ltb n (length part)
    then err invalid_short_name
    else (normalize_bytes part >>= λ bs. ok (padded n bs))

abbrev pub short_name : List Bytes → Result StorageError Bytes
short_name (name ∷ []) = field 8 name >>= λ first. ok (first ++ replicate 3 b' ')
short_name (name ∷ extension ∷ []) =
    field 8 name >>= λ first. field 3 extension >>= λ last. ok (first ++ last)
short_name _ = err invalid_short_name

unfoldable pub make_short_name : Bytes → Result StorageError Bytes
make_short_name component = short_name (split_dots component)

-- A field without the spaces at its end.
unfoldable pub without_spaces : Bytes → Bytes
without_spaces [] = []
without_spaces (b ∷ bs) =
    let rest = without_spaces bs in if is_nil rest && b == b' ' then [] else b ∷ rest

abbrev pub dotted : Bytes → Bytes
dotted extension = if is_nil extension then [] else b'.' ∷ extension

unfoldable pub display_short_name : Bytes → Bytes
display_short_name entry =
    without_spaces (take 8 entry) ++ dotted (without_spaces (take 3 (drop 8 entry)))

abbrev pub is_dot_entry : Bytes → Bool
is_dot_entry (a ∷ []) = a == b'.'
is_dot_entry (a ∷ b ∷ []) = a == b'.' && b == b'.'
is_dot_entry _ = false
