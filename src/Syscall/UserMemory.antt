-- ===== src/Syscall/UserMemory.antt =====
-- User memory, kernel/kernel/src/memory/user.rs: the check of a range of addresses, and the bytes there.
use lazers.Base.{ℕ, zero, suc, ◌-◌, ◌*◌, Bool, true, false, not, ◌&&◌, Option, none, some, [], ◌∷◌}
use lazers.Base.Tests.{ltb, leb, if◌then◌else◌, ◌==◌}
use lazers.Base.Words.{Bytes, checked_add}
use lazers.Allocator.Region.{page_size}

-- kernel/kernel/src/memory/types.rs
abbrev pub user_image_base : ℕ
user_image_base = 4194304

abbrev pub user_stack_top : ℕ
user_stack_top = 8388608

abbrev pub user_stack_pages : ℕ
user_stack_pages = 16

abbrev pub user_stack_base : ℕ
user_stack_base = user_stack_top - user_stack_pages * page_size

abbrev in_user_ranges : ℕ → Option ℕ → Bool
in_user_ranges address none = false
in_user_ranges address (some end) =
    leb user_image_base address
    && leb end user_stack_top
    && not (ltb user_stack_base end && ltb address user_stack_base)

unfoldable pub validate_user_buffer : ℕ → ℕ → Bool
validate_user_buffer address len =
    if len == 0 then true else in_user_ranges address (checked_add address len)

-- What an address holds; all addresses are backed, as the kernel takes them to be.
abbrev pub Memory : Type 0
Memory = ℕ → ℕ

abbrev pub bytes_at : Memory → ℕ → ℕ → Bytes
bytes_at mem address zero = []
bytes_at mem address (suc len) = mem address ∷ bytes_at mem (suc address) len

-- The bytes written from an address on.
abbrev pub store : ℕ → Bytes → Memory → Memory
store address [] mem = mem
store address (b ∷ bs) mem = store (suc address) bs (λ a. if a == address then b else mem a)

unfoldable pub user_slice : Memory → ℕ → ℕ → Option Bytes
user_slice mem address len =
    if validate_user_buffer address len then some (bytes_at mem address len) else none
