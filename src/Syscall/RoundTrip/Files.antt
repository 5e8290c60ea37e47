-- ===== src/Syscall/RoundTrip/Files.antt =====
-- The file calls, from the raw results of kernel/kernel/src/syscall.rs to libs/liblazer/src/fs.rs.
use lazers.Base.{ℕ, ◌≡◌, refl, arith}
use lazers.Base.Results.{Result, ok, err}
use lazers.Path.{
  onto_first, StorageError, memory, path_not_absolute, invalid_short_name, not_a_directory,
  file_not_found,
}
use lazers.Path as Storage
use lazers.Syscall.Errors.{
  ReadDirError, ChdirError, ReadFileError, invalid_path, resource_unavailable, not_found,
  buffer_too_small, not_a_file,
}
use lazers.Syscall.Handlers.{read_dir_status, chdir_status, read_file_status}
use lazers.Syscall.Wrappers.{read_dir_result, chdir_result, read_file_result}
use lazers.Syscall.RoundTrip.{SmallResult}

-- The failures of the file system as a program sees them; a call knows some of them by name.
abbrev pub file_view : {E : Type 0} → E → E → E → E → E → E → StorageError → E
file_view path_bad missing no_file no_directory short other Storage.invalid_path = path_bad
file_view path_bad missing no_file no_directory short other path_not_absolute = path_bad
file_view path_bad missing no_file no_directory short other invalid_short_name = path_bad
file_view path_bad missing no_file no_directory short other file_not_found = missing
file_view path_bad missing no_file no_directory short other Storage.not_a_file = no_file
file_view path_bad missing no_file no_directory short other not_a_directory = no_directory
file_view path_bad missing no_file no_directory short other Storage.buffer_too_small = short
file_view path_bad missing no_file no_directory short other _ = other

abbrev pub read_file_view : Result StorageError ℕ → Result ReadFileError ℕ
read_file_view (ok len) = ok len
read_file_view (err e) = err (
    file_view invalid_path not_found not_a_file resource_unavailable buffer_too_small
      resource_unavailable e)

abbrev pub read_dir_view : Result StorageError ℕ → Result ReadDirError ℕ
read_dir_view (ok len) = ok len
read_dir_view (err e) = err (
    file_view invalid_path not_found resource_unavailable not_found buffer_too_small
      resource_unavailable e)

abbrev pub chdir_view : Result StorageError (Unit {0}) → Result ChdirError (Unit {0})
chdir_view (ok done) = ok tt
chdir_view (err e) = err (
    file_view invalid_path not_found resource_unavailable not_found resource_unavailable
      resource_unavailable e)

read_file_result-status :
    (r : Result StorageError ℕ)
    → SmallResult r
    → read_file_result (read_file_status r) ≡ read_file_view r
unfolding read_file_result read_file_status
read_file_result-status (ok len) small = ground arith
read_file_result-status (err (memory e)) small = refl
read_file_result-status (err Storage.ahci_controller_not_found) small = refl
read_file_result-status (err Storage.ahci_port_not_found) small = refl
read_file_result-status (err Storage.ahci_command_timeout) small = refl
read_file_result-status (err Storage.ahci_task_file_error) small = refl
read_file_result-status (err Storage.invalid_gpt_header) small = refl
read_file_result-status (err Storage.invalid_partition_table) small = refl
read_file_result-status (err Storage.missing_esp_partition) small = refl
read_file_result-status (err Storage.missing_system_partition) small = refl
read_file_result-status (err Storage.invalid_fat32_boot_sector) small = refl
read_file_result-status (err Storage.invalid_path) small = refl
read_file_result-status (err Storage.path_not_absolute) small = refl
read_file_result-status (err Storage.invalid_short_name) small = refl
read_file_result-status (err Storage.file_not_found) small = refl
read_file_result-status (err Storage.not_a_file) small = refl
read_file_result-status (err Storage.not_a_directory) small = refl
read_file_result-status (err Storage.buffer_too_small) small = refl
read_file_result-status (err Storage.root_fs_unavailable) small = refl

read_dir_result-status :
    (r : Result StorageError ℕ)
    → SmallResult r
    → read_dir_result (read_dir_status r) ≡ read_dir_view r
unfolding read_dir_result read_dir_status
read_dir_result-status (ok len) small = ground arith
read_dir_result-status (err (memory e)) small = refl
read_dir_result-status (err Storage.ahci_controller_not_found) small = refl
read_dir_result-status (err Storage.ahci_port_not_found) small = refl
read_dir_result-status (err Storage.ahci_command_timeout) small = refl
read_dir_result-status (err Storage.ahci_task_file_error) small = refl
read_dir_result-status (err Storage.invalid_gpt_header) small = refl
read_dir_result-status (err Storage.invalid_partition_table) small = refl
read_dir_result-status (err Storage.missing_esp_partition) small = refl
read_dir_result-status (err Storage.missing_system_partition) small = refl
read_dir_result-status (err Storage.invalid_fat32_boot_sector) small = refl
read_dir_result-status (err Storage.invalid_path) small = refl
read_dir_result-status (err Storage.path_not_absolute) small = refl
read_dir_result-status (err Storage.invalid_short_name) small = refl
read_dir_result-status (err Storage.file_not_found) small = refl
read_dir_result-status (err Storage.not_a_file) small = refl
read_dir_result-status (err Storage.not_a_directory) small = refl
read_dir_result-status (err Storage.buffer_too_small) small = refl
read_dir_result-status (err Storage.root_fs_unavailable) small = refl

chdir_result-status :
    (r : Result StorageError (Unit {0})) → chdir_result (chdir_status r) ≡ chdir_view r
unfolding chdir_result chdir_status
chdir_result-status (ok len) = refl
chdir_result-status (err (memory e)) = refl
chdir_result-status (err Storage.ahci_controller_not_found) = refl
chdir_result-status (err Storage.ahci_port_not_found) = refl
chdir_result-status (err Storage.ahci_command_timeout) = refl
chdir_result-status (err Storage.ahci_task_file_error) = refl
chdir_result-status (err Storage.invalid_gpt_header) = refl
chdir_result-status (err Storage.invalid_partition_table) = refl
chdir_result-status (err Storage.missing_esp_partition) = refl
chdir_result-status (err Storage.missing_system_partition) = refl
chdir_result-status (err Storage.invalid_fat32_boot_sector) = refl
chdir_result-status (err Storage.invalid_path) = refl
chdir_result-status (err Storage.path_not_absolute) = refl
chdir_result-status (err Storage.invalid_short_name) = refl
chdir_result-status (err Storage.file_not_found) = refl
chdir_result-status (err Storage.not_a_file) = refl
chdir_result-status (err Storage.not_a_directory) = refl
chdir_result-status (err Storage.buffer_too_small) = refl
chdir_result-status (err Storage.root_fs_unavailable) = refl

-- What a program is told of a file call, for every result that the kernel's service has: the wrapper
-- reads the raw result back as that result, with the failures of the disk and of the file system mapped
-- as the views say; a length must not be one of the five highest numbers.
pub files-read_back :
    (r : Result StorageError ℕ) (u : Result StorageError (Unit {0}))
    → SmallResult r
    → (read_file_result (read_file_status r) ≡ read_file_view r)
      × (read_dir_result (read_dir_status r) ≡ read_dir_view r)
      × (chdir_result (chdir_status u) ≡ chdir_view u)
files-read_back r u small =
    (read_file_result-status r small, read_dir_result-status r small, chdir_result-status u)
