-- ===== src/Fat/Chain.antt =====
-- Chains of clusters that can be read, and what a walk over one comes to
-- (kernel/kernel/src/storage/fat32.rs).
use lazers.Base.{
  ℕ, zero, suc, ◌+◌, ◌%◌, ◌≤◌, some, List, [], ◌∷◌, ◌++◌, ◌≡◌, refl, ap, ◌∙◌, sym, arith,
}
use mathlib.Core.List.{append_assoc}
use lazers.Base.Lists.{take, drop}
use lazers.Base.Words.{Bytes, word}
use lazers.Base.Results.{ok, err}
use lazers.Path.{StorageError, file_not_found}
use lazers.Fat.{BlockDevice, Fat32, cluster_to_lba, next_cluster, fat_directory_entry_size}
use lazers.Fat.Scan.{
  Visit, next, done, then_visit, scan_entries, scan_sectors, scan_cluster, scan_chain,
  after_cluster,
}

-- The sectors that are read from an address on.
pub data Sectors (device : BlockDevice) : ℕ → ℕ → List Bytes → Type 0 where
  no_sectors : {lba : ℕ} → Sectors device zero lba []
  sector :
      {n lba : ℕ} {first : Bytes} {others : List Bytes}
      → device.read_sector lba ≡ ok first
      → Sectors device n ((lba + 1) % word) others
      → Sectors device (suc n) lba (first ∷ others)

module _ (device : BlockDevice) (fs : Fat32) where
  pub record Cluster (cluster : ℕ) (sectors : List Bytes) : Type 0 where
    pub lba : ℕ
    pub starts_at : cluster_to_lba fs cluster ≡ ok lba
    pub stored : Sectors device fs.sectors_per_cluster lba sectors

  -- A whole chain of `n` clusters, and the sectors in them.
  pub data Chain : ℕ → ℕ → List Bytes → Type 0 where
    last :
        {c : ℕ} {sectors : List Bytes}
        → Cluster c sectors
        → next_cluster device fs c ≡ err file_not_found
        → Chain 1 c sectors
    more :
        {n c c' : ℕ} {sectors others : List Bytes}
        → Cluster c sectors
        → next_cluster device fs c ≡ ok c'
        → Chain n c' others
        → Chain (suc n) c (sectors ++ others)

-- The first `count` entries of a sector.
abbrev pub slots : ℕ → Bytes → List Bytes
slots zero bytes = []
slots (suc count) bytes =
    take fat_directory_entry_size bytes ∷ slots count (drop fat_directory_entry_size bytes)

-- The entries of sectors, in their order.
abbrev pub entries : List Bytes → List Bytes
entries [] = []
entries (first ∷ others) = slots 16 first ++ entries others

module _ {S R : Type 0} where
  then_visit-ext :
      (v : Visit S R) (f g : S → Visit S R)
      → ((s : S) → f s ≡ g s)
      → then_visit v f ≡ then_visit v g
  then_visit-ext (next s) f g same = same s
  then_visit-ext (done r) f g same = refl

  then_visit_assoc :
      (v : Visit S R) (f g : S → Visit S R)
      → then_visit v (λ s. then_visit (f s) g) ≡ then_visit (then_visit v f) g
  then_visit_assoc (next s) f g = refl
  then_visit_assoc (done r) f g = refl

  -- The end of a chain is a failure.
  abbrev pub finish : (StorageError → S → R) → Visit S R → R
  finish failed (next s) = failed file_not_found s
  finish failed (done r) = r

  module _ (visit : Bytes → S → Visit S R) where
    -- The walk over a list of entries.
    unfoldable pub visit_all : List Bytes → S → Visit S R
    visit_all [] s = next s
    visit_all (entry ∷ others) s = then_visit (visit entry s) (visit_all others)

    visit_all-append :
        (xs ys : List Bytes) (s : S)
        → visit_all (xs ++ ys) s ≡ then_visit (visit_all xs s) (visit_all ys)
    unfolding visit_all
    visit_all-append [] ys s = refl
    visit_all-append (x ∷ xs) ys s =
        then_visit-ext (visit x s) (visit_all (xs ++ ys)) _ (visit_all-append xs ys)
        ∙ then_visit_assoc (visit x s) (visit_all xs) (visit_all ys)

    scan_entries-all :
        (count : ℕ) (bytes : Bytes) (s : S)
        → scan_entries visit count bytes s ≡ visit_all (slots count bytes) s
    unfolding scan_entries visit_all
    scan_entries-all zero bytes s = refl
    scan_entries-all (suc count) bytes s =
        then_visit-ext (visit (take fat_directory_entry_size bytes) s) _ _
          (scan_entries-all count (drop fat_directory_entry_size bytes))

    module _ (failed : StorageError → S → R) (device : BlockDevice) where
      scan_sectors-all :
          (n lba : ℕ) (sectors : List Bytes) (s : S)
          → Sectors device n lba sectors
          → scan_sectors visit failed device n lba s ≡ visit_all (entries sectors) s
      unfolding scan_sectors visit_all
      scan_sectors-all zero lba [] s no_sectors = refl
      scan_sectors-all zero lba (first ∷ others) s x = elim x [ ]
      scan_sectors-all (suc n) lba [] s x = elim x [ ]
      scan_sectors-all (suc n) lba (first ∷ others) s (sector there behind) = rw there (
          ap (λ v. then_visit v (scan_sectors visit failed device n ((lba + 1) % word)))
            (scan_entries-all 16 first s)
          ∙ then_visit-ext (visit_all (slots 16 first) s) _ _
              (λ s'. scan_sectors-all n ((lba + 1) % word) others s' behind)
          ∙ sym (visit_all-append (slots 16 first) (entries others) s))

      entries-append : (xs ys : List Bytes) → entries (xs ++ ys) ≡ entries xs ++ entries ys
      entries-append [] ys = refl
      entries-append (x ∷ xs) ys =
          ap (λ l. slots 16 x ++ l) (entries-append xs ys)
          ∙ sym (append_assoc (slots 16 x) (entries xs) (entries ys))

      scan_cluster-all :
          (fs : Fat32) (c : ℕ) (sectors : List Bytes) (s : S)
          → Cluster device fs c sectors
          → scan_cluster visit failed device fs (cluster_to_lba fs c) s
            ≡ visit_all (entries sectors) s
      scan_cluster-all fs c sectors s cluster =
          rw cluster.starts_at
            (scan_sectors-all fs.sectors_per_cluster cluster.lba sectors s cluster.stored)

      -- With as much fuel as the chain has clusters, the walk comes to its end, and it is the walk over the
      -- entries in the chain.
      pub scan_chain-Chain :
          (fs : Fat32) (fuel n c : ℕ) (sectors : List Bytes) (s : S)
          → Chain device fs n c sectors
          → n ≤ fuel
          → scan_chain visit failed device fuel fs c s
            ≡ some (finish failed (visit_all (entries sectors) s))
      unfolding scan_chain
      scan_chain-Chain fs zero n c sectors s (last cluster ends) enough = absurd (omega arith)
      scan_chain-Chain fs zero n c sectors s (more cluster e rest) enough = absurd (omega arith)
      scan_chain-Chain fs (suc fuel) n c sectors s (last cluster ends) enough =
          ap
            (λ v.
              after_cluster visit failed device (scan_chain visit failed device fuel fs)
                (next_cluster device fs c) v)
            (scan_cluster-all fs c sectors s cluster)
          ∙ rw ends (finish-last (visit_all (entries sectors) s))
        where
          finish-last :
              (v : Visit S R)
              → after_cluster visit failed device
                  (scan_chain visit failed device fuel fs)
                  (err file_not_found)
                  v
                ≡ some (finish failed v)
          finish-last (next s') = refl
          finish-last (done r) = refl
      scan_chain-Chain fs (suc fuel) n c sectors s
            (more {n = m} {c' = c'} {sectors = first} {others = others} cluster e rest) enough =
          ap
            (λ v.
              after_cluster visit failed device (scan_chain visit failed device fuel fs)
                (next_cluster device fs c) v)
            (scan_cluster-all fs c first s cluster)
          ∙ rw e (
              finish-more
                (λ s'. scan_chain-Chain fs fuel m c' others s' rest (omega (arith, enough)))
                (visit_all (entries first) s)
              ∙ ap (λ v. some (finish failed v))
                  (sym (
                    ap (λ es. visit_all es s) (entries-append first others)
                    ∙ visit_all-append (entries first) (entries others) s)))
        where
          finish-more :
              ((s' : S)
                → scan_chain visit failed device fuel fs c' s'
                  ≡ some (finish failed (visit_all (entries others) s')))
              → (v : Visit S R)
              → after_cluster visit failed device (scan_chain visit failed device fuel fs) (ok c') v
                ≡ some (finish failed (then_visit v (visit_all (entries others))))
          finish-more inner (next s') = inner s'
          finish-more inner (done r) = refl
