-- ===== src/Env/Access.antt =====
-- `get` after `set` and `remove`, the errors of `set`, and the copy that a child inherits.
use lazers.Base.{
  ℕ, zero, suc, ◌+◌, ◌≤◌, ◌<◌, Bool, false, Option, none, some, List, [], ◌∷◌, ◌++◌, ◌≡◌, ◌↔◌, refl,
  sym, ap, ◌∙◌, inl, inr, arith,
}
use lazers.Base.Tests.{if◌then◌else◌, Bool-cases, Option-cases}
use mathlib.Core.List.{append-nil, append_assoc}
use lazers.Base.Lists.{length, length-append}
use lazers.Base.Words.{Bytes}
use lazers.Base.Text.{equal, equal_iff}
use lazers.Base.Results.{Result, ok, err, ◌>>◌}
use lazers.Env.Lookup.{
  Distinct, lookup, find_index-lookup, lookup-find_index-none, lookup-append, lookup-set_value_at,
  lookup-erase_idx,
}
use lazers.Env.Valid.{IsValid, IsEntry, AllEntries, set-cases, remove-cases}
use lazers.Env.{
  EnvEntry, Environment, EnvironmentError, pair, find_index, validate_key, set, get, remove,
  max_env_value_len, max_env_vars, capacity_exceeded, inherit_entries, inherit_into, clear,
}

pub get-lookup :
    (j : Bytes) (env : Environment) → get j env ≡ (validate_key j >> ok (lookup j env.entries))
unfolding get
get-lookup j env = rw find_index-lookup

lookup_eq-get :
    (k j : Bytes) (o : Option Bytes) (env env' : Environment)
    → validate_key k ≡ ok tt
    → lookup j env'.entries ≡ (if equal k j then o else lookup j env.entries)
    → get j env' ≡ (if equal k j then ok o else get j env)
lookup_eq-get k j o env env' key_ok h =
    rw (get-lookup j env', get-lookup j env, h)
      (elim (Bool-cases (equal k j)) [
        | inl same ↦ let e : k ≡ j = (equal_iff k j).0 same in rw (same, ← e, key_ok)
        | inr other ↦ rw other
      ])

-- After `set k v` succeeds, `get` gives `v` at `k` and what it gave before at every other key.
pub get-set :
    (k v : Bytes) (env : Environment) {env' : Environment} (j : Bytes)
    → set k v env ≡ ok env'
    → get j env' ≡ (if equal k j then ok (some v) else get j env)
get-set k v env {env'} j h =
    let (key_ok, short, outcome) = set-cases k v env h in
    lookup_eq-get k j (some v) env env' key_ok (elim outcome [
      | inl (i, found, e) ↦ rw e (lookup-set_value_at k j v env.entries i found)
      | inr (absent, room, e) ↦ rw e (lookup-append k j v env.entries absent)
    ])

get-ok :
    (k : Bytes) (env : Environment) → validate_key k ≡ ok tt → get k env ≡ ok (lookup k env.entries)
get-ok k env h = get-lookup k env ∙ rw h

lookup-find_index-some :
    (k : Bytes) (es : List EnvEntry) (i : ℕ) → find_index k es ≡ some i → ¬ (lookup k es ≡ none)
unfolding find_index
lookup-find_index-some k [] i h = absurd (cc)
lookup-find_index-some k (e ∷ es) zero h = ground arith
lookup-find_index-some k (e ∷ es) (suc i) h = ground (arith, lookup-find_index-some k es i)

absent_lookup :
    (k j : Bytes) (es : List EnvEntry)
    → lookup k es ≡ none
    → lookup j es ≡ (if equal k j then none else lookup j es)
absent_lookup k j es h = elim (Bool-cases (equal k j)) [
  | inl same ↦ let e : k ≡ j = (equal_iff k j).0 same in rw same (rw e at h)
  | inr other ↦ rw other
]

ok_none :
    {o : Option Bytes}
    → ◌≡◌ {A = Result EnvironmentError (Option Bytes)} (ok o) (ok none)
    → o ≡ none
ok_none h = cc

-- After `remove k` succeeds on a valid environment, `get` finds nothing at `k` and what it found
-- before at every other key; the result says whether there was something to remove.
pub get-remove :
    (k : Bytes) (env : Environment) {b : Bool} {env' : Environment} (j : Bytes)
    → IsValid env
    → remove k env ≡ ok (b, env')
    → (get j env' ≡ (if equal k j then ok none else get j env))
      × ((b ≡ false) ↔ (get k env ≡ ok none))
get-remove k env {b} {env'} j w h =
    let (key_ok, outcome) = remove-cases k env h in
    elim outcome [
      | inl (i, found, e1, e2) ↦ (
        lookup_eq-get k j none env env' key_ok
            (rw e2 (lookup-erase_idx k j env.entries i w.distinct found)),
        (
          λ b_false. absurd (cc),
          λ nothing. absurd (
              lookup-find_index-some k env.entries i found
                (ok_none (sym (get-ok k env key_ok) ∙ nothing))),
        ),
      )
      | inr (absent, e1, e2) ↦
          let nothing = lookup-find_index-none k env.entries absent in
          (
            lookup_eq-get k j none env env' key_ok (rw e2 (absent_lookup k j env.entries nothing)),
            (λ b_false. get-ok k env key_ok ∙ ap ok nothing, λ e. e1),
          )
    ]

-- `set` reports that the capacity is exceeded exactly if key and value are acceptable, the key is
-- new, and every slot is in use.
pub set-capacity_exceeded :
    (k v : Bytes) (env : Environment)
    → (set k v env ≡ err capacity_exceeded) ↔ (
        (validate_key k ≡ ok tt)
        × (length v ≤ max_env_value_len)
        × (find_index k env.entries ≡ none)
        × (length env.entries ≡ max_env_vars))
unfolding set
set-capacity_exceeded k v env = elim (Option-cases (find_index k env.entries)) [
  | inl absent ↦ ground arith
  | inr (i, found) ↦ ground arith
]

find_index-append_cons :
    (k : Bytes) (xs ys : List EnvEntry) (e : EnvEntry)
    → find_index k (xs ++ (e ∷ ys)) ≡ none
    → equal e.key k ≡ false
unfolding find_index
find_index-append_cons k [] ys e h = ground arith
find_index-append_cons k (x ∷ xs) ys e h = ground (arith, find_index-append_cons k xs ys e)

Distinct-find_index :
    (xs ys : List EnvEntry) (e : EnvEntry) → Distinct (xs ++ (e ∷ ys)) → find_index e.key xs ≡ none
unfolding find_index
Distinct-find_index [] ys e d = refl
Distinct-find_index (x ∷ xs) ys e (d, ds) = ground (
  arith,
  Distinct-find_index xs ys e ds,
  find_index-append_cons x.key xs ys e d,
  equal_iff x.key e.key,
  equal_iff e.key x.key,
)

set-new :
    (k v : Bytes) (env : Environment)
    → IsEntry (pair k v)
    → find_index k env.entries ≡ none
    → length env.entries < max_env_vars
    → set k v env ≡ ok (record { entries = env.entries ++ (pair k v ∷ []) })
unfolding set
set-new k v env h absent room = ground arith

inherit_entries_lem :
    (es : List EnvEntry) (child : Environment)
    → AllEntries es
    → Distinct (child.entries ++ es)
    → length child.entries + length es ≤ max_env_vars
    → inherit_entries es child ≡ ok (record { entries = child.entries ++ es })
unfolding inherit_entries
inherit_entries_lem [] child a d h = rw append-nil
inherit_entries_lem (e ∷ es) child (a, b) d h =
    rw (set-new e.key e.value child a (Distinct-find_index child.entries es e d) (omega arith)) (
      inherit_entries_lem es (record { entries = child.entries ++ (e ∷ []) }) b (rw append_assoc d)
        (omega (arith, length-append child.entries (e ∷ [])))
      ∙ rw append_assoc)

-- From a valid environment a child inherits exactly that environment, whatever it held before.
pub inherit_into_lem : (env child : Environment) → IsValid env → inherit_into env child ≡ ok env
unfolding inherit_into
inherit_into_lem env child w =
    inherit_entries_lem env.entries (clear child) w.entries_valid w.distinct (omega (arith, w.fits))
