-- ===== src/Fat/Mount.antt =====
-- What mounting a file system checks (kernel/kernel/src/storage/fat32.rs).
use lazers.Base.{ℕ, zero, suc, ◌<◌, Bool, false, ◌||◌, ◌≡◌, inl, inr, arith}
use lazers.Base.Tests.{ltb, ◌==◌, Bool-cases}
use lazers.Base.Words.{Bytes}
use lazers.Base.Results.{Result, ok, err}
use mathlib.Core.Path.{subst}
use lazers.Base.Results.{>>=-eq-ok}
use lazers.Path.{StorageError}
use lazers.Fat.{BlockDevice, Fat32, mount, mounted, byte_at, is_unsupported, total_sectors}

sectors_of : Result StorageError Fat32 → ℕ
sectors_of (ok fs) = fs.sectors_per_cluster
sectors_of (err e) = 1

positive-of_test :
    (n : ℕ) (size reserved copies entries short long : Bool)
    → (size || n == 0 || reserved || copies || entries || short || long) ≡ false
    → 0 < n
positive-of_test zero size reserved copies entries short long test = absurd (ground arith)
positive-of_test (suc n) size reserved copies entries short long test = omega arith

mounted-sectors :
    (start_lba sector_count : ℕ) (bytes : Bytes)
    → 0 < sectors_of (mounted start_lba sector_count bytes)
unfolding sectors_of
mounted-sectors start_lba sector_count bytes = elim (Bool-cases (is_unsupported bytes)) [
  | inl bad ↦ rw bad (omega arith)
  | inr good ↦
      rw good
        (elim (Bool-cases (total_sectors bytes == 0 || ltb sector_count (total_sectors bytes))) [
          | inl bad ↦ rw bad (omega arith)
          | inr fitting ↦ rw fitting (positive-of_test (byte_at bytes 13) _ _ _ _ _ _ good)
        ])
]

-- A file system that is mounted has a sector in each cluster at least.
pub mount-sectors :
    (device : BlockDevice) (start_lba sector_count : ℕ) (fs : Fat32)
    → mount device start_lba sector_count ≡ ok fs
    → 0 < fs.sectors_per_cluster
unfolding mount sectors_of
mount-sectors device start_lba sector_count fs mounts =
    let (bytes, there, laid_out) =
      >>=-eq-ok (device.read_sector start_lba) (mounted start_lba sector_count) mounts in
    subst (λ answer. 0 < sectors_of answer) laid_out (mounted-sectors start_lba sector_count bytes)
