-- ===== src/Fat/File/Contents.antt =====
-- The bytes of a file are those that its chain stores (kernel/kernel/src/storage/fat32.rs).
use lazers.Base.{
  ℕ, zero, suc, ◌+◌, ◌-◌, ◌*◌, ◌%◌, ◌≤◌, ◌<◌, min, false, Option, some, List, [], ◌∷◌, ◌++◌, ◌≡◌,
  refl, sym, ap, ◌∙◌, arith,
}
use lazers.Base.Tests.{ltb}
use lazers.Base.Lists.{take-min, take-of_append}
use lazers.Base.Lists.{length, drop, length-append}
use lazers.Base.Words.{Bytes, word}
use lazers.Base.Results.{ok, and_then}
use lazers.Base.Lists.{take, length-take}
use mathlib.Core.List.{append_assoc, append-nil}
use lazers.Fat.{BlockDevice, Fat32, FatDirectoryEntry, sector_size, cluster_to_lba, next_cluster}
use lazers.Fat.Scan.{next}
use lazers.Fat.Chain.{Sectors, no_sectors, sector, Cluster}
use lazers.Fat.Directory.{Written, over_buffer}
use lazers.Fat.File.{
  Reading, read_sectors, read_cluster, follow, after_cluster, read_clusters, read_file,
}

abbrev pub joined : List Bytes → Bytes
joined [] = []
joined (first ∷ others) = first ++ joined others

-- The bytes in a chain, read to its end or not.
pub data Stores (device : BlockDevice) (fs : Fat32) : ℕ → Bytes → Type 0 where
  last_of :
      {c : ℕ} {sectors : List Bytes}
      → Cluster device fs c sectors
      → Stores device fs c (joined sectors)
  before :
      {c c' : ℕ} {sectors : List Bytes} {rest : Bytes}
      → Cluster device fs c sectors
      → next_cluster device fs c ≡ ok c'
      → Stores device fs c' rest
      → Stores device fs c (joined sectors ++ rest)

module _ (device : BlockDevice) where
  pub length-joined :
      (n lba : ℕ) (sectors : List Bytes)
      → Sectors device n lba sectors
      → length (joined sectors) ≡ n * sector_size
  length-joined zero lba [] no_sectors = refl
  length-joined zero lba (first ∷ others) x = elim x [ ]
  length-joined (suc n) lba [] x = elim x [ ]
  length-joined (suc n) lba (first ∷ others) (sector there behind) = omega (
    arith,
    length-append first (joined others),
    device.length-read_sector lba first there,
    length-joined n ((lba + 1) % word) others behind,
  )

  module _ (fs : Fat32) where
    read_sectors-joined :
        (n lba remaining : ℕ) (sectors : List Bytes) (out : Bytes)
        → Sectors device n lba sectors
        → read_sectors device fs n lba remaining out
          ≡ next (remaining - length (joined sectors), out ++ take remaining (joined sectors))
    unfolding read_sectors
    read_sectors-joined zero lba remaining [] out no_sectors =
        let all_left : remaining - 0 ≡ remaining = omega arith in
        rw (all_left, take_nil remaining, append-nil out) refl
      where
        take_nil : (n : ℕ) → Path Bytes (take n []) []
        take_nil zero = refl
        take_nil (suc n) = refl
    read_sectors-joined zero lba remaining (first ∷ others) out x = elim x [ ]
    read_sectors-joined (suc n) lba remaining [] out x = elim x [ ]
    read_sectors-joined (suc n) lba zero (first ∷ others) out stored =
        let none_left : 0 - length (joined (first ∷ others)) ≡ 0 = omega arith in
        rw (none_left, append-nil out) refl
    read_sectors-joined (suc n) lba (suc remaining) (first ∷ others) out (sector there behind) =
        let full : length first ≡ sector_size = device.length-read_sector lba first there in
        let bytes = min (suc remaining) sector_size in
        let left : suc remaining - bytes ≡ suc remaining - length first = omega (arith, full) in
        rw there (
          read_sectors-joined n ((lba + 1) % word) (suc remaining - bytes) others
            (out ++ take bytes first) behind
          ∙ next-eq _ _ _ _ (omega (arith, full, length-append first (joined others))) (
              append_assoc out (take bytes first) (take (suc remaining - bytes) (joined others))
              ∙ ap (λ l. out ++ l)
                  (ap (λ k. take bytes first ++ take k (joined others)) left
                    ∙ ap (λ l. l ++ take (suc remaining - length first) (joined others))
                        (ap (λ k. take (min (suc remaining) k) first) (sym full)
                          ∙ take-min (suc remaining) first)
                    ∙ sym (take-of_append (suc remaining) first (joined others)))))
      where
        next-eq :
            (a a' : ℕ) (b b' : Bytes)
            → a ≡ a'
            → b ≡ b'
            → Path (Reading device fs) (next (a, b)) (next (a', b'))
        next-eq a a' b b' p q = ap (λ k. next (k, b)) p ∙ ap (λ l. next (a', l)) q

    read_cluster-joined :
        (c remaining : ℕ) (sectors : List Bytes) (out : Bytes)
        → Cluster device fs c sectors
        → read_cluster device fs remaining out (cluster_to_lba fs c)
          ≡ next (remaining - length (joined sectors), out ++ take remaining (joined sectors))
    read_cluster-joined c remaining sectors out cluster = rw cluster.starts_at (
        read_sectors-joined fs.sectors_per_cluster cluster.lba remaining sectors out cluster.stored)

    Cluster-some :
        (c : ℕ) (sectors : List Bytes)
        → 0 < fs.sectors_per_cluster
        → Cluster device fs c sectors
        → 0 < length (joined sectors)
    Cluster-some c sectors some_sector cluster = omega (
      arith,
      some_sector,
      length-joined fs.sectors_per_cluster cluster.lba sectors cluster.stored,
    )

    complete : Bytes → Option Written
    complete out = some (out, ok (length out))

    read_clusters-Stores :
        (fuel c remaining : ℕ) (bytes out : Bytes)
        → 0 < fs.sectors_per_cluster
        → Stores device fs c bytes
        → remaining ≤ length bytes
        → remaining ≤ fuel
        → read_clusters device fs fuel c remaining out ≡ complete (out ++ take remaining bytes)
    unfolding read_clusters complete
    read_clusters-Stores fuel c zero bytes out some_sector stores inside enough =
        rw (append-nil out) refl
    read_clusters-Stores zero c (suc remaining) bytes out some_sector stores inside enough =
        absurd (omega arith)
    read_clusters-Stores (suc fuel) c (suc remaining) bytes out some_sector
          (last_of {sectors = sectors} cluster) inside enough =
        ap (after_cluster device fs (read_clusters device fs fuel) (next_cluster device fs c))
          (read_cluster-joined c (suc remaining) sectors out cluster)
        ∙ (let nothing_left : suc remaining - length (joined sectors) ≡ 0 = omega (arith, inside) in
            rw nothing_left refl)
    read_clusters-Stores (suc fuel) c (suc remaining) bytes out some_sector
          (before {c' = c'} {sectors = sectors} {rest = rest} cluster e stores) inside enough =
        ap (after_cluster device fs (read_clusters device fs fuel) (next_cluster device fs c))
          (read_cluster-joined c (suc remaining) sectors out cluster)
        ∙ rw e (
            followed
              (λ left out' inside' enough'.
                read_clusters-Stores fuel c' left rest out' some_sector stores inside' enough')
              (suc remaining - length (joined sectors)) refl)
      where
        shape :
            (left : ℕ)
            → suc remaining - length (joined sectors) ≡ left
            → (out ++ take (suc remaining) (joined sectors)) ++ take left rest
              ≡ out ++ take (suc remaining) (joined sectors ++ rest)
        shape left some_left =
            append_assoc out (take (suc remaining) (joined sectors)) (take left rest)
            ∙ ap (λ l. out ++ l)
                (ap (λ k. take (suc remaining) (joined sectors) ++ take k rest) (sym some_left)
                  ∙ sym (take-of_append (suc remaining) (joined sectors) rest))

        followed :
            ((left : ℕ) (out' : Bytes)
              → left ≤ length rest
              → left ≤ fuel
              → read_clusters device fs fuel c' left out' ≡ complete (out' ++ take left rest))
            → (left : ℕ) → suc remaining - length (joined sectors) ≡ left
            → follow device fs
                (read_clusters device fs fuel)
                (ok c')
                left
                (out ++ take (suc remaining) (joined sectors))
              ≡ complete (out ++ take (suc remaining) (joined sectors ++ rest))
        followed inner zero none_left =
            ap complete
              (sym (append-nil (out ++ take (suc remaining) (joined sectors))) ∙ shape 0 none_left)
        followed inner (suc left) some_left =
            inner (suc left) (out ++ take (suc remaining) (joined sectors))
              (omega (arith, some_left, inside, length-append (joined sectors) rest))
              (omega (arith, some_left, enough, Cluster-some c sectors some_sector cluster))
            ∙ ap complete (shape (suc left) some_left)

    -- If a file's chain stores as many bytes as its entry counts, and the buffer has room for them, reading
    -- the file returns: the front of the buffer is the first bytes of the chain, as many as the entry counts,
    -- the rest of the buffer stays, and the result is their number.
    pub read_file-Stores :
        (entry : FatDirectoryEntry) (buffer bytes : Bytes)
        → 0 < fs.sectors_per_cluster
        → Stores device fs entry.first_cluster bytes
        → entry.size ≤ length bytes
        → entry.size ≤ length buffer
        → read_file device fs entry buffer
          ≡ some (take entry.size bytes ++ drop entry.size buffer, ok entry.size)
    unfolding read_file complete
    read_file-Stores entry buffer bytes some_sector stores inside room =
        let fits : ltb (length buffer) entry.size ≡ false = ground (arith, room) in
        let count : length (take entry.size bytes) ≡ entry.size =
          omega (arith, length-take entry.size bytes, inside) in
        rw fits (
          ap (λ answer. and_then answer (λ written. some (over_buffer buffer written)))
            (read_clusters-Stores entry.size entry.first_cluster entry.size bytes [] some_sector
              stores inside (omega arith))
          ∙ (rw count refl))
