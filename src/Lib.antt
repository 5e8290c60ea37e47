-- ===== src/Lib.antt =====
-- Lazers: the logic of the kernel, its system calls, and its shell.
--
-- Lazers is an operating system for one processor with a cooperative scheduler. The kernel hands out
-- pages of physical memory, keeps processes with their environment, directory and streams, and runs
-- their threads one at a time. Keys reach a program through the keyboard decoder, a queue of events,
-- and the input queue of the terminal endpoint; its output goes through the endpoint's output queue to
-- the console and, at once, to the serial line if there is one. A program asks the kernel by a trap,
-- whose registers
-- name a call and the addresses of its texts and buffers; the handler checks the addresses, calls a
-- service of the scheduler for the current process, and answers with one number, which a wrapper of the
-- library liblazer reads back. The shell lash cuts a line into segments and words and runs them.
--
-- The files and what they model:
--   * Base: lists, options, results, machine words and text for all parts. Base/Slots relates the loops
--     that shift an array by one place to insertion into a list and removal from it.
--   * Allocator: kernel/kernel/src/memory/allocator.rs. The regions of the array are the list of those
--     in use, an address is a number below 2 ^ 64, and memory is a function of the address.
--   * Env: kernel/kernel/src/env.rs. Keys and values are lists of bytes.
--   * Ring: the queue that kernel/kernel/src/terminal.rs and kernel/kernel/src/keyboard.rs both write
--     out, as ByteQueue and EventQueue.
--   * KeyCode, Keyboard: kernel/kernel/src/keyboard.rs and the key table of terminal.rs. The readings of
--     the controller's status and data ports are an argument.
--   * Serial: kernel/kernel/src/serial.rs, what is sent if a port was found.
--   * Terminal: the rest of kernel/kernel/src/terminal.rs and the loop of the terminal thread in
--     kernel/kernel/src/main.rs.
--   * Thread, Process: kernel/kernel/src/thread.rs, kernel/kernel/src/process.rs and
--     kernel/kernel/src/io.rs.
--   * Scheduler, with Scheduler/State and Scheduler/Program: kernel/kernel/src/scheduler/state.rs, and
--     what core.rs and bootstrap.rs beside it do to that state. The tables are lists of options, as in
--     the source. The process and thread that an operation works on are looked up as the source does,
--     and `none` as the outcome of an operation is its panic. Scheduler/Services is services.rs beside
--     it, what a call asks of the current process; the root file system is the interface RootFs, whose
--     calls may not come back.
--   * Path: kernel/kernel/src/storage/path.rs. Path/Stack has a path as the stack of its components.
--   * Fat: kernel/kernel/src/storage/fat32.rs, over the interface BlockDevice, a disk that is read by
--     sectors. Fat/Names has the short names, Fat/Directory the search and the listing, Fat/File the
--     contents of a file. The loops over a directory that find_in_directory and read_dir both write out
--     are Fat/Scan, which takes what is done at an entry as an argument.
--   * Gpt: kernel/kernel/src/storage/gpt.rs, the table of partitions.
--   * Root: kernel/kernel/src/storage/rootfs.rs, which fills the interface RootFs. The controller of the
--     disk, found and started or not, is an argument, and so is the allocation of a kernel buffer.
--   * Elf: libs/elf/src/lib.rs, with the readers of libs/lzutil/src/lib.rs.
--   * Syscall: Syscall/Abi is libs/kernel-abi/src/lib.rs; Syscall/UserMemory is
--     kernel/kernel/src/memory/user.rs; Syscall/Handlers and Syscall/Dispatch are
--     kernel/kernel/src/syscall.rs, over a machine of the scheduler's state, the memory, a function of
--     the address, and the terminal; Syscall/Errors and Syscall/Wrappers are env.rs, fs.rs and
--     process.rs of libs/liblazer/src. Syscall/Safe compares the memory before and after a trap,
--     Syscall/RoundTrip what the kernel reports with what a program is told, and Syscall/Environment
--     relates two calls.
--   * Lash: Lash/Tokens and Lash/Segments are user/lash/src/lib.rs, with the buffers and arrays of the
--     source; Lash/Tokens/Words and Lash/Segments/Pieces are the references without them. Lash/Paths is
--     paths.rs beside it, Lash/Commands commands.rs, Lash/Builtins builtins.rs, Lash/Shell shell.rs and
--     Lash/Editor repl.rs. Lash/System is the interface of the calls that they make, over any state of
--     the world; a program comes to a result or exits with a code.
--   * Programs: main.rs of user/cat, user/echo, user/ls and user/pwd, over the same interface.
-- A function of the source has its name in the model, and takes and returns the state that it changes.
-- Where a function of the source is split, the parts stand directly before it.
--
-- Bounds: the tables have the sizes of the source, eight processes, twelve threads, 128 regions, sixteen
-- variables; the shell's buffers too, 256 bytes of a line, sixteen words, 32 segments. The loop that
-- drains a queue and the loop that handles key events run on fuel, one more than the capacity of the
-- queue: each of their rounds takes an item from it, and the last finds it empty. The search for a
-- thread runs for as many rounds as the table has slots, as in the source, and the iteration over
-- program headers for as many as the header counts. The loop over the segments of a name runs on
-- fuel, one more than the bytes of the name, since each round takes a byte; `none` is a loop that has not
-- ended, and its value is taken with the proof that it has. The entries of PATH are a list.
-- A file is read on fuel for each of its bytes, since each round reads one at least. The walk over the
-- clusters of a directory runs on fuel too; a chain of clusters may be a cycle, on which the source does
-- not stop, so `none` as a result stands for a walk that has not come to its end, and fuel for each
-- cluster of a chain that has an end is enough.
-- An exit status is printed with up to 20 digits, as many as a number below 2 ^ 64 has.
--
-- Not modelled: the context switch and the other instructions of the machine, device drivers, the page
-- tables, the boot loader, and the program that tests the system (user/selftest). Of
-- services.rs the whole of spawn_user_process_and_wait, which hands the processor over in its middle, is
-- not modelled: its steps on the tables are in Scheduler, and a trap that starts a child ends in what it
-- asks for. Of liblazer the start of a program and the reading of its arguments are not modelled.
pub mod Base
pub mod Allocator
pub mod Env
pub mod Ring
pub mod KeyCode
pub mod Keyboard
pub mod Terminal
pub mod Thread
pub mod Process
pub mod Scheduler
pub mod Path
pub mod Elf
pub mod Syscall
pub mod Lash
pub mod Programs
pub mod Fat
pub mod Gpt
pub mod Root
pub mod Serial
