-- ===== src/Env/Valid.antt =====
-- The invariant of an environment, kept by `set` and `remove`: valid keys and values, no key twice,
-- no more than the array holds.
use lazers.Base.{
  ℕ, zero, suc, ◌≤◌, Bool, true, false, none, some, List, [], ◌∷◌, ◌++◌, ◌≡◌, ◌≢◌, refl, ◌∙◌, ◌⊎◌,
  inl, inr, arith,
}
use lazers.Base.Tests.{Option-cases}
use lazers.Base.Lists.{length, length-append}
use lazers.Base.Slots.{erase_idx}
use lazers.Base.Words.{Bytes}
use lazers.Base.Text.{equal, equal_iff}
use lazers.Base.Results.{ok}
use lazers.Env.Lookup.{Distinct}
use lazers.Env.{
  EnvEntry, Environment, pair, find_index, set_value_at, validate_key, set, remove,
  max_env_value_len, max_env_vars,
}

abbrev pub IsEntry : EnvEntry → Type 0
IsEntry e = (validate_key e.key ≡ ok tt) × (length e.value ≤ max_env_value_len)

abbrev pub AllEntries : List EnvEntry → Type 0
AllEntries [] = Unit
AllEntries (e ∷ es) = IsEntry e × AllEntries es

pub record IsValid (env : Environment) : Type 0 where
  pub entries_valid : AllEntries env.entries
  pub distinct : Distinct env.entries
  pub fits : length env.entries ≤ max_env_vars

-- What a successful `set` has checked and done.
pub set-cases :
    (k v : Bytes) (env : Environment) {env' : Environment}
    → set k v env ≡ ok env'
    → (validate_key k ≡ ok tt)
      × (length v ≤ max_env_value_len)
      × (((i : ℕ) × (find_index k env.entries ≡ some i)
            × (env'.entries ≡ set_value_at env.entries i v))
          ⊎ ((find_index k env.entries ≡ none)
              × (length env.entries ≢ max_env_vars)
              × (env'.entries ≡ env.entries ++ (pair k v ∷ []))))
unfolding set
set-cases k v env h = elim (Option-cases (find_index k env.entries)) [
  | inl absent ↦ (ground arith, ground arith, inr (absent, ground arith, ground arith))
  | inr (i, found) ↦ (ground arith, ground arith, inl (i, found, ground arith))
]

pub remove-cases :
    (k : Bytes) (env : Environment) {b : Bool} {env' : Environment}
    → remove k env ≡ ok (b, env')
    → (validate_key k ≡ ok tt)
      × (((i : ℕ) × (find_index k env.entries ≡ some i)
            × (b ≡ true)
            × (env'.entries ≡ erase_idx env.entries i))
          ⊎ ((find_index k env.entries ≡ none) × (b ≡ false) × (env' ≡ env)))
unfolding remove
remove-cases k env h = elim (Option-cases (find_index k env.entries)) [
  | inl absent ↦ (ground arith, inr (absent, ground arith, ground arith))
  | inr (i, found) ↦ (ground arith, inl (i, found, ground arith, ground arith))
]

find_index-set_value_at :
    (j v : Bytes) (es : List EnvEntry) (i : ℕ)
    → find_index j (set_value_at es i v) ≡ find_index j es
unfolding find_index set_value_at
find_index-set_value_at j v [] i = refl
find_index-set_value_at j v (e ∷ es) zero = refl
find_index-set_value_at j v (e ∷ es) (suc i) = ground (arith, find_index-set_value_at j v es i)

length-set_value_at :
    (v : Bytes) (es : List EnvEntry) (i : ℕ) → length (set_value_at es i v) ≡ length es
unfolding set_value_at
length-set_value_at v [] i = refl
length-set_value_at v (e ∷ es) zero = refl
length-set_value_at v (e ∷ es) (suc i) = ground (arith, length-set_value_at v es i)

find_index-append :
    (j k v : Bytes) (es : List EnvEntry)
    → find_index j es ≡ none
    → equal k j ≡ false
    → find_index j (es ++ (pair k v ∷ [])) ≡ none
unfolding find_index
find_index-append j k v [] h d = ground arith
find_index-append j k v (e ∷ es) h d = ground (arith, find_index-append j k v es)

find_index-erase_idx :
    (j : Bytes) (es : List EnvEntry) (i : ℕ)
    → find_index j es ≡ none
    → find_index j (erase_idx es i) ≡ none
unfolding find_index
find_index-erase_idx j [] i h = refl
find_index-erase_idx j (e ∷ es) zero h = ground arith
find_index-erase_idx j (e ∷ es) (suc i) h = ground (arith, find_index-erase_idx j es i)

length-erase_idx : (es : List EnvEntry) (i : ℕ) → length (erase_idx es i) ≤ length es
length-erase_idx [] i = omega arith
length-erase_idx (e ∷ es) zero = omega arith
length-erase_idx (e ∷ es) (suc i) = omega (arith, length-erase_idx es i)

set_value_at-cons :
    (e : EnvEntry) (es : List EnvEntry) (i : ℕ) (v : Bytes)
    → set_value_at (e ∷ es) (suc i) v ≡ e ∷ set_value_at es i v
unfolding set_value_at
set_value_at-cons e es i v = ground arith

AllEntries-set_value_at :
    (v : Bytes) (es : List EnvEntry) (i : ℕ)
    → length v ≤ max_env_value_len
    → AllEntries es
    → AllEntries (set_value_at es i v)
AllEntries-set_value_at v [] i h a = unfold set_value_at in tt
AllEntries-set_value_at v (e ∷ es) zero h (a, b) = unfold set_value_at in ((a.0, h), b)
AllEntries-set_value_at v (e ∷ es) (suc i) h (a, b) =
    rw set_value_at-cons (a, AllEntries-set_value_at v es i h b)

Distinct-set_value_at :
    (v : Bytes) (es : List EnvEntry) (i : ℕ) → Distinct es → Distinct (set_value_at es i v)
Distinct-set_value_at v [] i d = unfold set_value_at in tt
Distinct-set_value_at v (e ∷ es) zero d = unfold set_value_at in d
Distinct-set_value_at v (e ∷ es) (suc i) (d, ds) =
    rw set_value_at-cons (find_index-set_value_at e.key v es i ∙ d, Distinct-set_value_at v es i ds)

AllEntries-append :
    (k v : Bytes) (es : List EnvEntry)
    → IsEntry (pair k v)
    → AllEntries es
    → AllEntries (es ++ (pair k v ∷ []))
AllEntries-append k v [] h a = (h, tt)
AllEntries-append k v (e ∷ es) h (a, b) = (a, AllEntries-append k v es h b)

Distinct-append :
    (k v : Bytes) (es : List EnvEntry)
    → find_index k es ≡ none
    → Distinct es
    → Distinct (es ++ (pair k v ∷ []))
unfolding find_index
Distinct-append k v [] h d = (refl, tt)
Distinct-append k v (e ∷ es) h (d, ds) = (
  find_index-append e.key k v es d (ground (arith, equal_iff k e.key, equal_iff e.key k)),
  Distinct-append k v es (ground arith) ds,
)

AllEntries-erase_idx : (es : List EnvEntry) (i : ℕ) → AllEntries es → AllEntries (erase_idx es i)
AllEntries-erase_idx [] i a = tt
AllEntries-erase_idx (e ∷ es) zero (a, b) = b
AllEntries-erase_idx (e ∷ es) (suc i) (a, b) = (a, AllEntries-erase_idx es i b)

Distinct-erase_idx : (es : List EnvEntry) (i : ℕ) → Distinct es → Distinct (erase_idx es i)
Distinct-erase_idx [] i d = tt
Distinct-erase_idx (e ∷ es) zero (d, ds) = ds
Distinct-erase_idx (e ∷ es) (suc i) (d, ds) =
    (find_index-erase_idx e.key es i d, Distinct-erase_idx es i ds)

-- A `set` that succeeds keeps a valid environment valid.
pub set-IsValid :
    (k v : Bytes) (env : Environment) {env' : Environment}
    → IsValid env
    → set k v env ≡ ok env'
    → IsValid env'
set-IsValid k v env {env'} w h =
    let (key_ok, short, outcome) = set-cases k v env h in
    elim outcome [
      | inl (i, found, e) ↦ record {
        entries_valid = rw e (AllEntries-set_value_at v env.entries i short w.entries_valid);
        distinct = rw e (Distinct-set_value_at v env.entries i w.distinct);
        fits = rw e (omega (arith, length-set_value_at v env.entries i, w.fits));
      }
      | inr (absent, room, e) ↦ record {
        entries_valid = rw e (AllEntries-append k v env.entries (key_ok, short) w.entries_valid);
        distinct = rw e (Distinct-append k v env.entries absent w.distinct);
        fits = rw e (omega (arith, length-append env.entries (pair k v ∷ []), w.fits));
      }
    ]

-- A `remove` that succeeds keeps a valid environment valid.
pub remove-IsValid :
    (k : Bytes) (env : Environment) {b : Bool} {env' : Environment}
    → IsValid env
    → remove k env ≡ ok (b, env')
    → IsValid env'
remove-IsValid k env {b} {env'} w h = elim (remove-cases k env h).1 [
  | inl (i, found, removed, e) ↦ record {
    entries_valid = rw e (AllEntries-erase_idx env.entries i w.entries_valid);
    distinct = rw e (Distinct-erase_idx env.entries i w.distinct);
    fits = rw e (omega (arith, length-erase_idx env.entries i, w.fits));
  }
  | inr (absent, kept, e) ↦ rw e w
]
