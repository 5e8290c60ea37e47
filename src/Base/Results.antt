-- ===== src/Base/Results.antt =====
-- Rust's `Result`, with `?` as a `do` block, and the `Option` monad for code that may panic.
use mathlib.Core.Path.{◌≡◌, refl}
use mathlib.Core.Bool.{Bool, true, false}
use mathlib.Core.Logic.{◌⊎◌, inl, inr}
use mathlib.Core.Option.{Option, none, some}

pub data Result {ℓ κ} (E : Type ℓ) (A : Type κ) : Type (ℓ ⊔ κ) where
  ok : A → Result E A
  err : E → Result E A

module _ {E : Type 0} where
  infixl 5 ◌>>=◌ ◌>>◌
  abbrev pub ◌>>=◌ : {A B : Type 0} → Result E A → (A → Result E B) → Result E B
  err e >>= next = err e
  ok a >>= next = next a

  abbrev pub ◌>>◌ : {B : Type 0} → Result E (Unit {0}) → Result E B → Result E B
  first >> second = first >>= λ _. second

  -- `if bad { return Err(e); }`
  abbrev pub refuse : Bool → E → Result E (Unit {0})
  refuse true e = err e
  refuse false e = ok tt

  -- `option.ok_or(e)`
  abbrev pub ok_or : {A : Type 0} → Option A → E → Result E A
  ok_or none e = err e
  ok_or (some a) e = ok a

  pub Result-cases :
      {A : Type 0} (m : Result E A) → ((a : A) × (m ≡ ok a)) ⊎ ((e : E) × (m ≡ err e))
  Result-cases (ok a) = inl (a, refl)
  Result-cases (err e) = inr (e, refl)

  pub >>=-eq-ok :
      {A B : Type 0} (r : Result E A) (next : A → Result E B) {out : B}
      → (r >>= next) ≡ ok out
      → (a : A) × (r ≡ ok a) × (next a ≡ ok out)
  >>=-eq-ok (err e) next done = absurd (cc)
  >>=-eq-ok (ok a) next done = (a, refl, done)

-- A panic is `none`.
abbrev pub and_then : {A B : Type 0} → Option A → (A → Option B) → Option B
and_then none f = none
and_then (some a) f = f a

pub and_then-eq-some :
    {A B : Type 0} (m : Option A) (f : A → Option B) {b : B}
    → and_then m f ≡ some b
    → (a : A) × (m ≡ some a) × (f a ≡ some b)
and_then-eq-some none f h = absurd (cc)
and_then-eq-some (some a) f h = (a, refl, h)

-- Whatever a computation results in satisfies `P`, if it results in something.
abbrev pub Whenever : {A : Type 0} → Option A → (A → Type 0) → Type 0
Whenever none P = Unit
Whenever (some a) P = P a

pub Whenever-and_then :
    {A B : Type 0} (o : Option A) (f : A → Option B) (P : B → Type 0)
    → ((a : A) → Whenever (f a) P)
    → Whenever (and_then o f) P
Whenever-and_then none f P each = tt
Whenever-and_then (some a) f P each = each a

-- A result satisfies `P` unless it is an error.
abbrev pub UnlessErr : {E A : Type 0} → Result E A → (A → Type 0) → Type 0
UnlessErr (err e) P = Unit
UnlessErr (ok a) P = P a

pub UnlessErr-bind :
    {E A B : Type 0} (r : Result E A) (rest : A → Result E B) (P : B → Type 0)
    → ((a : A) → r ≡ ok a → UnlessErr (rest a) P)
    → UnlessErr (r >>= rest) P
UnlessErr-bind (err e) rest P each = tt
UnlessErr-bind (ok a) rest P each = each a refl
