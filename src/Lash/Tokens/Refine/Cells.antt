-- ===== src/Lash/Tokens/Refine/Cells.antt =====
-- A fixed array whose first slots are in use, as user/lash/src/lib.rs fills its buffers.
use lazers.Base.{some, ◌-◌, ℕ, zero, suc, ◌+◌, ◌<◌, List, [], ◌∷◌, ◌++◌, ◌≡◌, refl, ap, ◌∙◌, arith}
use mathlib.Core.List.{append_assoc}
use lazers.Base.Lists.{
  take-append, drop-append, length, set, get_elem?, length-append, slice, slice-in_range,
}

-- `xs` has `size` slots and starts with `used`.
abbrev pub Filled {ℓ} : {A : Type ℓ} → ℕ → List A → List A → Type ℓ
Filled {A = A} size xs used =
    (free : List A) × (xs ≡ used ++ free) × (length used + length free ≡ size)

module _ {ℓ} {A : Type ℓ} where
  set-append :
      (used free : List A) (x v : A)
      → set (used ++ (x ∷ free)) (length used) v ≡ (used ++ (v ∷ [])) ++ free
  set-append [] free x v = refl
  set-append (u ∷ used) free x v = ap (λ xs. u ∷ xs) (set-append used free x v)

  pub Filled-set :
      (size : ℕ) (xs used : List A) (i : ℕ) (v : A)
      → Filled size xs used
      → i ≡ length used
      → length used < size
      → Filled size (set xs i v) (used ++ (v ∷ []))
  Filled-set size xs used i v ([], shape, room) at below = absurd (omega arith)
  Filled-set size xs used i v (x ∷ free, shape, room) at below =
      (free, rw (shape, at) (set-append used free x v), omega (arith, length-append used (v ∷ [])))

  -- What was written last may be taken for free again.
  pub Filled-forget :
      (size : ℕ) (xs used : List A) (v : A)
      → Filled size xs (used ++ (v ∷ []))
      → Filled size xs used
  Filled-forget size xs used v (free, shape, room) = (
    v ∷ free,
    shape ∙ append_assoc used (v ∷ []) free,
    omega (arith, length-append used (v ∷ [])),
  )

  get_elem?-append_left :
      (xs ys : List A) (i : ℕ) → i < length xs → get_elem? (xs ++ ys) i ≡ get_elem? xs i
  get_elem?-append_left [] ys i h = elim h [ ]
  get_elem?-append_left (x ∷ xs) ys zero h = refl
  get_elem?-append_left (x ∷ xs) ys (suc i) h = get_elem?-append_left xs ys i (omega arith)

  pub slice-append :
      (front word rest : List A)
      → slice (front ++ (word ++ rest)) (length front) (length front + length word) ≡ some word
  slice-append front word rest =
      let near : length front + length word - length front ≡ length word = omega arith in
      slice-in_range (front ++ (word ++ rest)) (length front) (length front + length word)
        (omega arith) (omega (arith, length-append front (word ++ rest), length-append word rest))
      ∙ rw (drop-append front (word ++ rest), near, take-append word rest) refl

  pub Filled-get_elem? :
      (size : ℕ) (xs used : List A) (k : ℕ)
      → Filled size xs used
      → k < length used
      → get_elem? xs (0 + k) ≡ get_elem? used k
  Filled-get_elem? size xs used k (free, shape, room) below =
      let same : 0 + k ≡ k = omega arith in
      rw (same, shape) (get_elem?-append_left used free k below)
