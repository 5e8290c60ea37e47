-- ===== src/Path/Examples.antt =====
-- Tests of the paths, most of them those of kernel/kernel/src/storage/path.rs, and the witnesses of what
-- is proved of them.
use lazers.Base.{some, List, [], ◌≡◌, refl, arith}
use lazers.Base.Words.{Bytes}
use lazers.Base.Text.{codes, equal, starts_with}
use lazers.Base.Results.{ok, err}
use lazers.Path.{normalize_path, normalize_path_parts, walk_part, descend, split, invalid_path}
use lazers.Path.Stack.{render, enter_all}
use lazers.Path.Normal.{components, answer, normalize_path-enter_all}
use lazers.Path.Split.{IsCanonical}
use lazers.Path.Again.{normalize_path-IsCanonical}

relative :
    normalize_path 64 (codes "/system/bin") (codes "../cat") ≡ some (ok (codes "/system/cat"))
unfolding normalize_path normalize_path_parts walk_part descend split equal starts_with
relative = refl

repeated : normalize_path 64 (codes "/system//bin") (codes "///echo///") ≡ some (ok (codes "/echo"))
unfolding normalize_path normalize_path_parts walk_part descend split equal starts_with
repeated = refl

clamped : normalize_path 64 (codes "/") (codes "../../../echo") ≡ some (ok (codes "/echo"))
unfolding normalize_path normalize_path_parts walk_part descend split equal starts_with
clamped = refl

too_small : normalize_path 4 (codes "/system/bin") (codes "echo") ≡ some (err invalid_path)
unfolding normalize_path normalize_path_parts walk_part descend split equal starts_with
too_small = refl

normalize_path-enter_all_example :
    normalize_path 64 (codes "/system/bin") (codes "./echo")
    ≡ some (answer (enter_all 64 (components (codes "/system/bin") (codes "./echo")) []))
normalize_path-enter_all_example =
    normalize_path-enter_all 64 (codes "/system/bin") (codes "./echo") (omega arith) refl

normalize_path-IsCanonical_example :
    (parts : List Bytes) × (codes "/system/cat" ≡ render parts) × IsCanonical 64 parts
normalize_path-IsCanonical_example =
    normalize_path-IsCanonical 64 (codes "/system/bin") (codes "../cat") (omega arith) relative
