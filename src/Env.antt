-- ===== src/Env.antt =====
-- The environment of a process, kernel/kernel/src/env.rs. `Environment.entries` is the part of the
-- array that is in use, `entries[0..len]`, and an entry's `key` and `value` are the parts of its two
-- buffers that are in use. The loop of `remove` that closes the gap is `shift_down` of Base/Slots.
mod Examples
pub mod Lookup
pub mod Listing
pub mod Access
pub mod Valid
use lazers.Base.{
  ℕ, zero, suc, ◌+◌, ◌-◌, ◌*◌, ◌%◌, ◌≤◌, ◌<◌, min, max, Bool, true, false, not, ◌&&◌, ◌||◌, Option,
  none, some, List, [], ◌∷◌, ◌++◌, ◌≡◌, ◌≢◌, refl, sym, ap, ◌∙◌, ◌⊎◌, inl, inr, arith,
}
use lazers.Base.Tests.{ltb, leb, if◌then◌else◌, ◌==◌}
use lazers.Base.Lists.{length, set as set_elem, get_elem?, drop}
use lazers.Base.Slots.{erase_idx}
use lazers.Base.Words.{Bytes}
use lazers.Base.Text.{equal, contains, is_nil}
use lazers.Base.Results.{Result, ok, err, refuse, ◌>>=◌, ◌>>◌, and_then}

abbrev pub max_env_vars : ℕ
max_env_vars = 16

abbrev pub max_env_key_len : ℕ
max_env_key_len = 32

abbrev pub max_env_value_len : ℕ
max_env_value_len = 128

pub data EnvironmentError : Type 0 where
  invalid_key key_too_long value_too_long capacity_exceeded : EnvironmentError

pub record EnvEntry : Type 0 where
  pub key : Bytes
  pub value : Bytes

pub record Environment : Type 0 where
  pub entries : List EnvEntry

abbrev pub new : Environment
new = record { entries = [] }

-- `EnvEntry::set_pair` and `EnvEntry::set_value`.
abbrev pub pair : Bytes → Bytes → EnvEntry
pair k v = record { key = k; value = v }

abbrev pub set_value : Bytes → EnvEntry → EnvEntry
set_value v e = record e { value = v }

unfoldable pub validate_key : Bytes → Result EnvironmentError (Unit {0})
unfolding contains
validate_key key = do
  refuse (is_nil key || contains b'=' key) invalid_key
  refuse (ltb max_env_key_len (length key)) key_too_long
  ok tt

-- The scan of `find_index`, from the front.
unfoldable pub find_index : Bytes → List EnvEntry → Option ℕ
find_index key [] = none
find_index key (e ∷ es) =
    let later = find_index key es in
    if equal e.key key then some 0 else and_then later λ i. some (suc i)

-- `self.entries[index].set_value(value)`
unfoldable pub set_value_at : List EnvEntry → ℕ → Bytes → List EnvEntry
set_value_at es i v = elim (get_elem? es i) [ none ↦ es | some e ↦ set_elem es i (set_value v e) ]

-- On an error the environment is unchanged.
unfoldable pub set : Bytes → Bytes → Environment → Result EnvironmentError Environment
unfolding validate_key find_index set_value_at
set key value env = do
  validate_key key
  refuse (ltb max_env_value_len (length value)) value_too_long
  elim (find_index key env.entries) [
    | some i ↦ ok (record { entries = set_value_at env.entries i value })
    | none ↦ do
      refuse (length env.entries == max_env_vars) capacity_exceeded
      ok (record { entries = env.entries ++ (pair key value ∷ []) })
  ]

unfoldable pub remove : Bytes → Environment → Result EnvironmentError (Bool × Environment)
unfolding validate_key find_index
remove key env = do
  validate_key key
  elim (find_index key env.entries) [
    | none ↦ ok (false, env)
    | some i ↦ ok (true, record { entries = erase_idx env.entries i })
  ]

unfoldable pub get : Bytes → Environment → Result EnvironmentError (Option Bytes)
unfolding validate_key find_index
get key env = do
  validate_key key
  ok (
      and_then (find_index key env.entries)
        λ i. and_then (get_elem? env.entries i) λ e. some e.value)

unfoldable pub clear : Environment → Environment
clear env = new

unfoldable pub inherit_entries : List EnvEntry → Environment → Result EnvironmentError Environment
unfolding set
inherit_entries [] child = ok child
inherit_entries (e ∷ es) child = do child' ← set e.key e.value child; inherit_entries es child'

-- The child's new environment; on an error the child is the one that `set` refused to extend, which
-- no caller uses.
unfoldable pub inherit_into : Environment → Environment → Result EnvironmentError Environment
unfolding inherit_entries clear
inherit_into env child = inherit_entries env.entries (clear child)

-- `KEY=VALUE` and a line feed.
abbrev pub line : EnvEntry → Bytes
line e = e.key ++ (b'=' ∷ (e.value ++ (b'\n' ∷ [])))

-- The loop of `write_listing_into`: `out` is what the buffer of `size` bytes holds so far.
unfoldable pub write_entries : ℕ → Bytes → List EnvEntry → Bytes × Result EnvironmentError ℕ
write_entries size out [] = (out, ok (length out))
write_entries size out (e ∷ es) =
    let later = write_entries size (out ++ line e) es in
    if ltb size (length out + (length e.key + 1 + length e.value + 1))
    then (out, err capacity_exceeded)
    else later

-- The buffer afterwards, and the result.
unfoldable pub write_listing_into : Environment → Bytes → Bytes × Result EnvironmentError ℕ
unfolding write_entries
write_listing_into env buffer =
    let (out, result) = write_entries (length buffer) [] env.entries in
    (out ++ drop (length out) buffer, result)
