-- ===== src/Syscall/Errors.antt =====
-- The failures that the wrappers of libs/liblazer/src report to a program.
-- libs/liblazer/src/process.rs
pub data SpawnError : Type 0 where
  invalid_path file_not_found invalid_executable resource_unavailable : SpawnError

-- libs/liblazer/src/env.rs
pub data GetEnvError : Type 0 where
  invalid_key not_found buffer_too_small resource_unavailable : GetEnvError

pub data SetEnvError : Type 0 where
  invalid_key key_too_long value_too_long capacity_exceeded resource_unavailable : SetEnvError

pub data UnsetEnvError : Type 0 where
  invalid_key not_found resource_unavailable : UnsetEnvError

pub data ListEnvError : Type 0 where
  buffer_too_small resource_unavailable : ListEnvError

-- libs/liblazer/src/fs.rs
pub data ReadDirError : Type 0 where
  invalid_path not_found buffer_too_small resource_unavailable : ReadDirError

pub data ChdirError : Type 0 where
  invalid_path not_found resource_unavailable : ChdirError

pub data GetCwdError : Type 0 where
  buffer_too_small resource_unavailable : GetCwdError

pub data ReadFileError : Type 0 where
  invalid_path not_found not_a_file buffer_too_small resource_unavailable : ReadFileError
