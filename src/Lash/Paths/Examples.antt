-- ===== src/Lash/Paths/Examples.antt =====
-- Names made absolute, and the theorem of user/lash/src/paths.rs at an input that meets its hypotheses.
use lazers.Base.{[], ◌∷◌, ◌≡◌, refl, arith}
use lazers.Base.Text.{codes, equal, starts_with, from_utf8}
use lazers.Base.Results.{ok, ◌>>=◌}
use lazers.Lash.Paths.{
  NormalizedPath, as_str, enter_segments, enter_segment, skip_slashes, before_byte, push_slash,
  push_segment, back_to_slash,
}
use lazers.Base.{some}
use lazers.Path.{split}
use lazers.Lash.Paths.Search.{path_entries}
use lazers.Lash.Paths.Normalize.{normalize_from}
use lazers.Lash.Paths.Rounds.{enter_segments-segments, enter_all, segments, filled}

makes_absolute :
    ((normalize_from (codes "/home/root") (codes "../bin//./ls") >>= as_str)
      ≡ ok (codes "/home/bin/ls"))
    × ((normalize_from (codes "/home") (codes "/bin/..") >>= as_str) ≡ ok (codes "/"))
    × ((normalize_from (codes "/") (codes "../ls") >>= as_str) ≡ ok (codes "/ls"))
unfolding normalize_from as_str enter_segments enter_segment skip_slashes before_byte push_slash
    push_segment back_to_slash equal starts_with from_utf8
makes_absolute = (refl, refl, refl)

abbrev root_directory : NormalizedPath
root_directory = record { bytes = b'/' ∷ []; len = 1 }

enter_segments-segments_example :
    enter_segments 8 (codes "bin//ls") root_directory
    ≡ some (enter_all (segments (codes "bin//ls")) root_directory)
enter_segments-segments_example =
    enter_segments-segments 8 (codes "bin//ls") root_directory (omega arith)

finds_segments : segments (codes "/bin//./ls") ≡ codes "bin" ∷ codes "." ∷ codes "ls" ∷ []
unfolding split filled
finds_segments = refl

finds_entries :
    path_entries (codes "/bin::/usr/bin:") ≡ codes "/bin" ∷ [] ∷ codes "/usr/bin" ∷ [] ∷ []
unfolding path_entries
finds_entries = refl
