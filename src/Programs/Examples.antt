-- ===== src/Programs/Examples.antt =====
-- The programs run on the small system of the shell's tests.
use lazers.Base.{[], ◌∷◌, ◌≡◌, refl}
use lazers.Base.Text.{codes, equal, from_utf8}
use lazers.Base.Results.{err}
use lazers.Lash.Shell.Examples.{small_system}
use lazers.Programs.{echo, print_args, pwd, cat, ls}

echo_writes :
    echo small_system (codes "echo" ∷ codes "a" ∷ codes "b c" ∷ []) [] ≡ (codes "a b c\n", err 0)
unfolding echo print_args
echo_writes = refl

pwd_writes : pwd small_system [] ≡ (codes "/\n", err 0)
unfolding pwd from_utf8
pwd_writes = refl

cat_writes :
    (cat small_system (codes "cat" ∷ codes "/notes" ∷ []) [] ≡ (codes "buy milk", err 0))
    × (cat small_system (codes "cat" ∷ codes "/none" ∷ []) []
        ≡ (codes "cat: file not found: /none\n", err 1))
    × (cat small_system (codes "cat" ∷ []) [] ≡ (codes "cat: missing path\n", err 1))
unfolding cat equal
cat_writes = (refl, refl, refl)

ls_writes : ls small_system (codes "ls" ∷ []) [] ≡ (codes "bin\nnotes\n", err 0)
unfolding ls
ls_writes = refl
