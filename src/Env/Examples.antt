-- ===== src/Env/Examples.antt =====
-- The environment run on concrete variables, and its theorems at inputs that meet their hypotheses.
use lazers.Base.{true, [], ◌∷◌, ◌++◌, ◌≡◌, refl, arith}
use lazers.Base.Words.{Bytes}
use lazers.Base.Text.{codes, equal}
use lazers.Base.Results.{ok, err}
use lazers.Env.{
  Environment, pair, new, set, remove, write_listing_into, invalid_key, find_index, validate_key,
}
use lazers.Env.Valid.{IsValid}

abbrev shell_env : Environment
shell_env = record {
  entries = pair (codes "USER") (codes "root") ∷ pair (codes "SHELL") (codes "/bin/lash") ∷ [];
}

abbrev guest_env : Environment
guest_env = record {
  entries = pair (codes "USER") (codes "guest") ∷ pair (codes "SHELL") (codes "/bin/lash") ∷ [];
}

abbrev user_env : Environment
user_env = record { entries = pair (codes "USER") (codes "root") ∷ [] }

shell_env-IsValid : IsValid shell_env
unfolding validate_key find_index equal
shell_env-IsValid = record {
  entries_valid = ((refl, omega arith), ((refl, omega arith), tt));
  distinct = (refl, (refl, tt));
  fits = omega arith;
}

updates : set (codes "USER") (codes "guest") shell_env ≡ ok guest_env
unfolding set equal
updates = refl

removes : remove (codes "SHELL") shell_env ≡ ok (true, user_env)
unfolding remove equal
removes = refl

rejects : (set (codes "A=B") [] new ≡ err invalid_key) × (set [] [] new ≡ err invalid_key)
unfolding set
rejects = (refl, refl)

lists :
    write_listing_into user_env (0 ∷ 0 ∷ 0 ∷ 0 ∷ 0 ∷ 0 ∷ 0 ∷ 0 ∷ 0 ∷ 0 ∷ 7 ∷ [])
    ≡ (codes "USER=root\n" ++ (7 ∷ []), ok 10)
unfolding write_listing_into
lists = refl

abbrev buffer : Bytes
buffer = 1 ∷ 2 ∷ 3 ∷ []
