-- ===== src/Ring.antt =====
-- The bounded ring buffers of the kernel: `ByteQueue` of kernel/kernel/src/terminal.rs and
-- `EventQueue` of kernel/kernel/src/keyboard.rs, which differ in what a pop leaves in its slot.
pub mod Refine
use lazers.Base.{
  ℕ, zero, suc, ◌+◌, ◌-◌, ◌*◌, ◌/◌, ◌%◌, ◌^◌, ◌≤◌, ◌<◌, min, max, Bool, true, false, not, ◌&&◌,
  ◌||◌, Option, none, some, List, [], ◌∷◌, ◌++◌, map, ◌≡◌, ◌≢◌, ◌↔◌, refl, sym, ap, ◌∙◌, ◌⊎◌, inl,
  inr, arith,
}
use lazers.Base.Tests.{ltb, leb, if◌then◌else◌, ◌==◌, Bool-cases, Option-cases}
use lazers.Base.Lists.{length, set, get_elem?, replicate}

pub record Ring {ℓ} (A : Type ℓ) : Type ℓ where
  pub slots : List A
  pub read_index : ℕ
  pub write_index : ℕ
  pub len : ℕ

-- What a client does with a queue, and what it sees.
pub data Op {ℓ} (A : Type ℓ) : Type ℓ where
  put : A → Op A
  take : Op A

pub data Reply {ℓ} (A : Type ℓ) : Type ℓ where
  accepted : Bool → Reply A
  taken : Option A → Reply A

module _ {ℓ} {A : Type ℓ} where
  abbrev pub capacity : Ring A → ℕ
  capacity q = length q.slots

  -- Every slot holds `a`, and none is in use.
  abbrev pub new : ℕ → A → Ring A
  new size a = record { slots = replicate size a; read_index = 0; write_index = 0; len = 0 }

  unfoldable pub push : A → Ring A → Bool × Ring A
  push a q = if leb (capacity q) q.len then (false, q) else (
    true,
    record q {
      slots = set q.slots q.write_index a;
      write_index = (q.write_index + 1) % capacity q;
      len = q.len + 1;
    },
  )

  -- A pop puts `leave a` in the place of `a`.
  unfoldable pub pop : (A → A) → Ring A → Option A × Ring A
  pop leave q = if q.len == 0 then (none, q) else (
    get_elem? q.slots q.read_index,
    record q {
      slots = elim (get_elem? q.slots q.read_index) [
        | none ↦ q.slots
        | some a ↦ set q.slots q.read_index (leave a)
      ];
      read_index = (q.read_index + 1) % capacity q;
      len = q.len - 1;
    },
  )

  unfoldable pub run : (A → A) → Ring A → List (Op A) → List (Reply A)
  run leave q [] = []
  run leave q (put a ∷ ops) = let (done, q') = push a q in accepted done ∷ run leave q' ops
  run leave q (take ∷ ops) = let (a, q') = pop leave q in taken a ∷ run leave q' ops

  -- The specification: a list of at most `size` items, oldest first.
  unfoldable pub run_fifo : ℕ → List A → List (Op A) → List (Reply A)
  run_fifo size xs [] = []
  run_fifo size xs (put a ∷ ops) =
      let room = ltb (length xs) size in
      accepted room ∷ run_fifo size (if room then xs ++ (a ∷ []) else xs) ops
  run_fifo size [] (take ∷ ops) = taken none ∷ run_fifo size [] ops
  run_fifo size (x ∷ xs) (take ∷ ops) = taken (some x) ∷ run_fifo size xs ops

  -- `while let Some(a) = queue.pop()`: what is popped in order, and the ring left.
  unfoldable pub drain : ℕ → (A → A) → Ring A → List A × Ring A
  drain zero leave q = ([], q)
  drain (suc fuel) leave q =
      let popped = pop leave q in
      elim popped.0 [
        | none ↦ ([], popped.1)
        | some a ↦ let later = drain fuel leave popped.1 in (a ∷ later.0, later.1)
      ]
