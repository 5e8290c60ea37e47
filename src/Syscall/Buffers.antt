-- ===== src/Syscall/Buffers.antt =====
-- Which buffers of a program are accepted, kernel/kernel/src/memory/user.rs.
use lazers.Base.{ℕ, ◌+◌, ◌≤◌, true, ◌≡◌, ◌↔◌, ◌⊎◌, arith}
use lazers.Syscall.UserMemory.{
  validate_user_buffer, user_image_base, user_stack_top, user_stack_base,
}

-- A buffer is accepted if and only if it is empty or lies in the program's memory without crossing the
-- lower end of the stack.
pub validate_user_buffer_iff :
    (address len : ℕ)
    → (validate_user_buffer address len ≡ true) ↔ (
        (len ≡ 0)
        ⊎ ((user_image_base ≤ address)
            × (address + len ≤ user_stack_top)
            × ((user_stack_base ≤ address) ⊎ (address + len ≤ user_stack_base))))
unfolding validate_user_buffer
validate_user_buffer_iff address len = ground arith
