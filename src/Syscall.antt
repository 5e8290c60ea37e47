-- ===== src/Syscall.antt =====
-- The system calls, from the wrappers of a user program to the services of the kernel:
-- libs/kernel-abi/src/lib.rs, libs/liblazer/src, kernel/kernel/src/syscall.rs and the checks of user
-- memory in kernel/kernel/src/memory/user.rs.
pub mod Errors
pub mod Abi
pub mod UserMemory
pub mod Handlers
pub mod Dispatch
pub mod Wrappers
pub mod RoundTrip
pub mod Buffers
pub mod Safe
pub mod Environment
pub mod Examples
