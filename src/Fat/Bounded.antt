-- ===== src/Fat/Bounded.antt =====
-- A listing stays within its buffer (kernel/kernel/src/storage/fat32.rs).
use lazers.Base.{
  ℕ, zero, suc, ◌+◌, ◌/◌, ◌%◌, ◌≤◌, Option, none, some, [], ◌∷◌, ◌++◌, ◌≡◌, refl, inl, inr, arith,
}
use lazers.Base.Tests.{ltb, Bool-cases}
use lazers.Base.Lists.{length, drop, length-append, length-drop}
use lazers.Base.Words.{Bytes, word}
use lazers.Base.Results.{Result, ok, err, and_then}
use lazers.Base.Results.{Whenever, Whenever-and_then}
use lazers.Base.Lists.{take}
use lazers.Path.{StorageError}
use lazers.Fat.{
  BlockDevice, Fat32, sector_size, fat_directory_entry_size, cluster_to_lba, next_cluster,
}
use lazers.Fat.Names.{display_short_name, is_dot_entry}
use lazers.Fat.Scan.{
  EntryKind, end_mark, passed_over, named, kind_of, Visit, next, done, then_visit, scan_entries,
  scan_sector, scan_sectors, scan_cluster, after_cluster, scan_chain,
}
use lazers.Fat.Directory.{
  Written, list_at, list_entry, list_failed, over_buffer, list_from, resolve_absolute,
  directory_only, read_dir,
}

-- What a loop has so far satisfies `P`, or what it returns `Q`.
abbrev Holds : {S R : Type 0} → (S → Type 0) → (R → Type 0) → Visit S R → Type 0
Holds P Q (next s) = P s
Holds P Q (done r) = Q r

module _ {S R : Type 0} (P : S → Type 0) (Q : R → Type 0) where
  then_visit-Holds :
      (v : Visit S R) (rest : S → Visit S R)
      → Holds P Q v
      → ((s : S) → P s → Holds P Q (rest s))
      → Holds P Q (then_visit v rest)
  then_visit-Holds (next s) rest h each = each s h
  then_visit-Holds (done r) rest h each = h

  module _ (visit : Bytes → S → Visit S R)
      (keeps : (entry : Bytes) (s : S) → P s → Holds P Q (visit entry s))
      (failed : StorageError → S → R) (fails : (e : StorageError) (s : S) → P s → Q (failed e s))
      (device : BlockDevice) where
    scan_entries-Holds :
        (count : ℕ) (bytes : Bytes) (s : S) → P s → Holds P Q (scan_entries visit count bytes s)
    unfolding scan_entries
    scan_entries-Holds zero bytes s h = h
    scan_entries-Holds (suc count) bytes s h =
        then_visit-Holds (visit (take fat_directory_entry_size bytes) s) _
          (keeps (take fat_directory_entry_size bytes) s h)
          (scan_entries-Holds count (drop fat_directory_entry_size bytes))

    scan_sector-Holds :
        (r : Result StorageError Bytes) (s : S)
        → P s
        → Holds P Q (scan_sector visit failed device r s)
    scan_sector-Holds (ok bytes) s h =
        scan_entries-Holds (sector_size / fat_directory_entry_size) bytes s h
    scan_sector-Holds (err e) s h = fails e s h

    scan_sectors-Holds :
        (count lba : ℕ) (s : S) → P s → Holds P Q (scan_sectors visit failed device count lba s)
    unfolding scan_sectors
    scan_sectors-Holds zero lba s h = h
    scan_sectors-Holds (suc count) lba s h =
        then_visit-Holds (scan_sector visit failed device (device.read_sector lba) s) _
          (scan_sector-Holds (device.read_sector lba) s h)
          (scan_sectors-Holds count ((lba + 1) % word))

    scan_cluster-Holds :
        (fs : Fat32) (lba : Result StorageError ℕ) (s : S)
        → P s
        → Holds P Q (scan_cluster visit failed device fs lba s)
    scan_cluster-Holds fs (ok lba) s h = scan_sectors-Holds fs.sectors_per_cluster lba s h
    scan_cluster-Holds fs (err e) s h = fails e s h

    after_cluster-Whenever :
        (rest : ℕ → S → Option R) (following : Result StorageError ℕ) (v : Visit S R)
        → Holds P Q v
        → ((c : ℕ) (s : S) → P s → Whenever (rest c s) Q)
        → Whenever (after_cluster visit failed device rest following v) Q
    after_cluster-Whenever rest following (done r) h each = h
    after_cluster-Whenever rest (ok c) (next s) h each = each c s h
    after_cluster-Whenever rest (err e) (next s) h each = fails e s h

    scan_chain-Whenever :
        (fuel : ℕ) (fs : Fat32) (c : ℕ) (s : S)
        → P s
        → Whenever (scan_chain visit failed device fuel fs c s) Q
    unfolding scan_chain
    scan_chain-Whenever zero fs c s h = tt
    scan_chain-Whenever (suc fuel) fs c s h =
        after_cluster-Whenever (scan_chain visit failed device fuel fs) (next_cluster device fs c) _
          (scan_cluster-Holds fs (cluster_to_lba fs c) s h) (scan_chain-Whenever fuel fs)

module _ (size : ℕ) where
  abbrev Bounded : Visit Bytes Written → Type 0
  Bounded = Holds (λ o. length o ≤ size) (λ (w : Written). length w.0 ≤ size)

  list_entry-Holds : (entry out : Bytes) → length out ≤ size → Bounded (list_entry size entry out)
  list_entry-Holds entry out fits = by_kind (kind_of entry)
    where
      by_kind : (kind : EntryKind) → Bounded (list_at size kind entry out)
      by_kind end_mark = fits
      by_kind passed_over = fits
      by_kind named =
          let name : Bytes = display_short_name (take 11 entry) in
          elim (Bool-cases (is_dot_entry name)) [
            | inl dot ↦ rw dot fits
            | inr other ↦ rw other (elim (Bool-cases (ltb size (length out + (length name + 1)))) [
              | inl full ↦ rw full fits
              | inr free ↦ rw free (
                  let shorter : length out + (length name + 1) ≤ size = ground (arith, free) in
                  omega (
                    arith,
                    shorter,
                    length-append out (name ++ (b'\n' ∷ [])),
                    length-append name (b'\n' ∷ []),
                  ))
            ])
          ]

-- Listing a directory leaves a buffer as long as it was.
pub length-read_dir :
    (device : BlockDevice) (fs : Fat32) (fuel : ℕ) (path buffer : Bytes)
    → Whenever (read_dir device fs fuel path buffer) (λ x. length x.0 ≡ length buffer)
unfolding read_dir
length-read_dir device fs fuel path buffer =
    Whenever-and_then (resolve_absolute device fs fuel path) _ _
      λ found. from_directory (directory_only device fs found)
  where
    put :
        (o : Option Written)
        → Whenever o (λ w. length w.0 ≤ length buffer)
        → Whenever
            (and_then o (λ written. some (over_buffer buffer written)))
            (λ x. length x.0 ≡ length buffer)
    put none h = tt
    put (some (out, r)) h =
        omega
          (arith, h, length-append out (drop (length out) buffer), length-drop (length out) buffer)

    from_directory :
        (r : Result StorageError ℕ)
        → Whenever (list_from device fs fuel buffer r) (λ x. length x.0 ≡ length buffer)
    from_directory (err e) = refl
    from_directory (ok c) =
        put (scan_chain (list_entry (length buffer)) list_failed device fuel fs c []) (
          scan_chain-Whenever (λ o. length o ≤ length buffer)
            (λ (w : Written). length w.0 ≤ length buffer) (list_entry (length buffer))
            (list_entry-Holds (length buffer)) list_failed (λ e s h. h) device fuel fs c []
            (omega arith))
