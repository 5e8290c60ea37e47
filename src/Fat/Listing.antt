-- ===== src/Fat/Listing.antt =====
-- What a directory has in it, and what a search and a listing of it come to
-- (kernel/kernel/src/storage/fat32.rs).
use lazers.Base.{
  ℕ, ◌+◌, ◌≤◌, Bool, true, false, Option, none, some, List, [], ◌∷◌, ◌++◌, ◌≡◌, refl, ap, ◌∙◌, sym,
  inl, inr, arith,
}
use lazers.Base.Tests.{ltb, if◌then◌else◌, Bool-cases}
use lazers.Base.Lists.{length, take, length-append}
use mathlib.Core.List.{append_assoc, append-nil}
use mathlib.Core.Option as Optional
use lazers.Base.Words.{Bytes}
use lazers.Base.Text.{equal}
use lazers.Base.Results.{Result, ok, err, ok_or}
use lazers.Path.{StorageError, file_not_found}
use lazers.Fat.{BlockDevice, Fat32, FatResolvedPath, FatDirectoryEntry}
use lazers.Fat.Names.{make_short_name, display_short_name, is_dot_entry}
use lazers.Fat.Scan.{
  EntryKind, end_mark, passed_over, named, kind_of, Visit, next, done, then_visit, scan_chain,
}
use lazers.Fat.Chain.{Chain, entries, visit_all, finish, scan_chain-Chain}
use lazers.Fat.Directory.{
  entry_of, find_at, find_entry, find_failed, Written, list_at, list_entry, list_failed,
  over_buffer, find_in_directory, resolve_absolute, directory_only, read_dir,
}

abbrev pub live_at : EntryKind → Bytes → List Bytes → List Bytes
live_at end_mark entry rest = []
live_at passed_over entry rest = rest
live_at named entry rest = entry ∷ rest

-- The entries that name something, up to the end mark.
unfoldable pub live : List Bytes → List Bytes
live [] = []
live (entry ∷ others) = live_at (kind_of entry) entry (live others)

abbrev pub ends_at : EntryKind → Bool → Bool
ends_at end_mark rest = true
ends_at _ rest = rest

-- Whether there is an end mark.
unfoldable pub has_end : List Bytes → Bool
has_end [] = false
has_end (entry ∷ others) = ends_at (kind_of entry) (has_end others)

abbrev pub shown : Bytes → Bytes
shown entry = display_short_name (take 11 entry)

-- A name and a newline, for each entry but `.` and `..`.
unfoldable pub listing : List Bytes → Bytes
listing [] = []
listing (entry ∷ others) =
    let rest = listing others in
    if is_dot_entry (shown entry) then rest else shown entry ++ (b'\n' ∷ rest)

-- The first entry of a short name.
unfoldable pub first_named : Bytes → List Bytes → Option Bytes
first_named name [] = none
first_named name (entry ∷ others) =
    let rest = first_named name others in if equal (take 11 entry) name then some entry else rest

abbrev pub looked_up : Bytes → List Bytes → Result StorageError FatDirectoryEntry
looked_up name es = ok_or (Optional.map entry_of (first_named name es)) file_not_found

find_all :
    (name : Bytes) (es : List Bytes)
    → finish find_failed (visit_all (find_entry name) es tt) ≡ looked_up name (live es)
unfolding visit_all live first_named
find_all name [] = refl
find_all name (entry ∷ others) = by_kind (find_all name others) (kind_of entry)
  where
    by_kind :
        finish find_failed (visit_all (find_entry name) others tt) ≡ looked_up name (live others)
        → (kind : EntryKind)
        → finish find_failed
            (then_visit (find_at name kind entry) (visit_all (find_entry name) others))
          ≡ looked_up name (live_at kind entry (live others))
    by_kind inner end_mark = refl
    by_kind inner passed_over = inner
    by_kind inner named = elim (Bool-cases (equal (take 11 entry) name)) [
      | inl e ↦ rw e refl
      | inr e ↦ rw e inner
    ]

-- In a directory whose chain can be read, a component is looked up among the entries up to the end mark:
-- the first one that has its short name is found, whatever the number of clusters, and otherwise the
-- error is `file_not_found`. Fuel for each cluster of the chain is enough.
pub find_in_directory_lem :
    (device : BlockDevice) (fs : Fat32) (fuel n c : ℕ) (sectors : List Bytes)
    (component name : Bytes)
    → Chain device fs n c sectors
    → n ≤ fuel
    → make_short_name component ≡ ok name
    → find_in_directory device fs fuel c component ≡ some (looked_up name (live (entries sectors)))
unfolding find_in_directory
find_in_directory_lem device fs fuel n c sectors component name chain enough short = rw short (
    scan_chain-Chain (find_entry name) find_failed device fs fuel n c sectors tt chain enough
    ∙ ap (λ r. some r) (find_all name (entries sectors)))

-- What a listing comes to that the buffer has room for: it is complete at an end mark, and goes on without.
abbrev listed : Bool → Bytes → Visit Bytes Written
listed true out = done (out, ok (length out))
listed false out = next out

list_all :
    (size : ℕ) (es : List Bytes) (out : Bytes)
    → length out + length (listing (live es)) ≤ size
    → visit_all (list_entry size) es out ≡ listed (has_end es) (out ++ listing (live es))
unfolding visit_all live has_end listing
list_all size [] out room = ap (λ l. next l) (sym (append-nil out))
list_all size (entry ∷ others) out room = by_kind (list_all size others) (kind_of entry) room
  where
    by_kind :
        ((out : Bytes)
          → length out + length (listing (live others)) ≤ size
          → visit_all (list_entry size) others out
            ≡ listed (has_end others) (out ++ listing (live others)))
        → (kind : EntryKind)
        → length out + length (listing (live_at kind entry (live others))) ≤ size
        → then_visit (list_at size kind entry out) (visit_all (list_entry size) others)
          ≡ listed
              (ends_at kind (has_end others))
              (out ++ listing (live_at kind entry (live others)))
    by_kind inner end_mark room = ap (λ l. listed true l) (sym (append-nil out))
    by_kind inner passed_over room = inner out room
    by_kind inner named room = elim (Bool-cases (is_dot_entry (shown entry))) [
      | inl e ↦ rw (e, listing) (inner out (rw (e, listing) at room))
      | inr e ↦
          let text : Bytes = shown entry in
          let rest : Bytes = listing (live others) in
          let room' : length out + length (text ++ (b'\n' ∷ rest)) ≤ size =
            rw (e, listing) at room in
          let fits : ltb size (length out + (length text + 1)) ≡ false =
            ground (arith, room', length-append text (b'\n' ∷ rest)) in
          let more : Bytes = out ++ (text ++ (b'\n' ∷ [])) in
          let shape : more ++ rest ≡ out ++ (text ++ (b'\n' ∷ rest)) =
            append_assoc out (text ++ (b'\n' ∷ [])) rest
            ∙ ap (λ l. out ++ l) (append_assoc text (b'\n' ∷ []) rest) in
          rw (e, fits, listing)
            (inner more (
                omega (
                  arith,
                  room',
                  ap length shape,
                  length-append more rest,
                  length-append out (text ++ (b'\n' ∷ rest)),
                ))
              ∙ ap (listed (has_end others)) shape)
    ]

-- The result of a listing by whether there is an end mark.
abbrev pub listing_result : Bool → ℕ → Result StorageError ℕ
listing_result true len = ok len
listing_result false len = err file_not_found

-- In a directory whose chain can be read, the names of the entries up to the end mark are written to a
-- buffer that has room for them, a line each, and the rest of the buffer stays. The result is their length
-- if there is an end mark. If there is none, because the entries fill the last cluster, it is
-- `file_not_found`.
pub read_dir_lem :
    (device : BlockDevice) (fs : Fat32) (fuel n c : ℕ) (sectors : List Bytes) (path buffer : Bytes)
    (found : Result StorageError FatResolvedPath)
    → resolve_absolute device fs fuel path ≡ some found
    → directory_only device fs found ≡ ok c
    → Chain device fs n c sectors
    → n ≤ fuel
    → length (listing (live (entries sectors))) ≤ length buffer
    → read_dir device fs fuel path buffer
      ≡ some (
          over_buffer buffer (
            listing (live (entries sectors)),
            listing_result (has_end (entries sectors)) (length (listing (live (entries sectors)))),
          ))
unfolding read_dir
read_dir_lem device fs fuel n c sectors path buffer found is_found is_dir chain enough room =
    let es = entries sectors in
    let walked : scan_chain (list_entry (length buffer)) list_failed device fuel fs c []
        ≡ some (listing (live es), listing_result (has_end es) (length (listing (live es)))) =
      scan_chain-Chain (list_entry (length buffer)) list_failed device fs fuel n c sectors [] chain
        enough
      ∙ ap (λ v. some (finish list_failed v)) (list_all (length buffer) es [] (omega (arith, room)))
      ∙ finished (has_end es) (listing (live es)) in
    rw (is_found, is_dir, walked) refl
  where
    finished :
        (b : Bool) (text : Bytes)
        → Path
            (Option Written)
            (some (finish list_failed (listed b text)))
            (some (text, listing_result b (length text)))
    finished true text = refl
    finished false text = refl
