-- ===== src/Fat/Walk.antt =====
-- Paths through directories whose chains can be read (kernel/kernel/src/storage/fat32.rs).
use lazers.Base.{ℕ, ◌≤◌, true, false, some, List, [], ◌∷◌, ◌≡◌, refl, ap, ◌∙◌}
use lazers.Base.Words.{Bytes}
use lazers.Base.Results.{ok}
use lazers.Path.{split}
use lazers.Base.Text.{starts_with}
use lazers.Fat.{BlockDevice, Fat32, FatDirectoryEntry}
use lazers.Fat.Names.{make_short_name}
use lazers.Fat.Chain.{Chain, entries}
use lazers.Fat.Directory.{
  find_in_directory, resolve_components, resolve_absolute, open_absolute, components, resolved,
}
use lazers.Fat.Listing.{live, looked_up, find_in_directory_lem}

module _ (device : BlockDevice) (fs : Fat32) (fuel : ℕ) where
  -- A directory with an entry for a component, its chain no longer than the fuel.
  pub record Has (cluster : ℕ) (component : Bytes) (entry : FatDirectoryEntry) : Type 0 where
    pub clusters : ℕ
    pub sectors : List Bytes
    pub name : Bytes
    pub chain : Chain device fs clusters cluster sectors
    pub enough : clusters ≤ fuel
    pub short : make_short_name component ≡ ok name
    pub found : looked_up name (live (entries sectors)) ≡ ok entry

  -- From a directory along components to the entry of the last one.
  pub data Walk : ℕ → List Bytes → FatDirectoryEntry → Type 0 where
    here :
        {c : ℕ} {component : Bytes} {entry : FatDirectoryEntry}
        → Has c component entry
        → Walk c (component ∷ []) entry
    below :
        {c : ℕ} {component : Bytes} {following : List Bytes} {through entry : FatDirectoryEntry}
        → Has c component through
        → through.is_directory ≡ true
        → Walk through.first_cluster following entry
        → Walk c (component ∷ following) entry

  find_in_directory-Has :
      (c : ℕ) (component : Bytes) (entry : FatDirectoryEntry)
      → Has c component entry
      → find_in_directory device fs fuel c component ≡ some (ok entry)
  find_in_directory-Has c component entry has =
      find_in_directory_lem device fs fuel has.clusters c has.sectors component has.name has.chain
        has.enough has.short
      ∙ ap (λ r. some r) has.found

  resolve_components-Walk :
      (c : ℕ) (parts : List Bytes) (entry : FatDirectoryEntry)
      → Walk c parts entry
      → resolve_components device fs fuel parts c ≡ some (resolved (ok entry))
  unfolding resolve_components
  resolve_components-Walk c [] entry x = elim x [ ]
  resolve_components-Walk c (component ∷ []) entry (here has) =
      rw (find_in_directory-Has c component entry has) refl
  resolve_components-Walk c (component ∷ []) entry (below has is_dir walk) = elim walk [ ]
  resolve_components-Walk c (component ∷ next ∷ rest) entry
        (below {through = through} has is_dir walk) =
      rw (find_in_directory-Has c component through has, is_dir)
        (resolve_components-Walk through.first_cluster (next ∷ rest) entry walk)

  -- A path along directories to a file is opened as the entry of that file.
  pub open_absolute-Walk :
      (path : Bytes) (entry : FatDirectoryEntry)
      → starts_with b'/' path ≡ true
      → Walk fs.root_cluster (components (split path)) entry
      → entry.is_directory ≡ false
      → open_absolute device fs fuel path ≡ some (ok entry)
  unfolding open_absolute resolve_absolute
  open_absolute-Walk path entry absolute walk is_file =
      rw
        (
          absolute,
          resolve_components-Walk fs.root_cluster (components (split path)) entry walk,
          is_file,
        )
        refl
