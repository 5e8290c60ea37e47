-- ===== src/Lash/Shell/Spawn.antt =====
-- A quoted command that names a path reaches the system as it was written
-- (user/lash/src/shell.rs, user/lash/src/commands.rs).
use lazers.Base.{
  ℕ, zero, suc, ◌-◌, ◌≤◌, true, false, some, List, [], ◌∷◌, map, ◌≡◌, refl, ap, ◌∙◌, inl, inr,
  arith,
}
use lazers.Base.Tests.{◌==◌, Bool-cases}
use lazers.Base.Lists.{length}
use lazers.Base.Words.{Bytes}
use lazers.Base.Text.{codes, contains, equal, equal_iff, from_utf8, is_nil, starts_with}
use lazers.Base.Results.{ok, and_then-eq-some}
use lazers.Lash.{max_command_args}
use lazers.Lash.Tokens.{TokenizedCommand, token}
use lazers.Lash.Tokens.Words.{Fits}
use lazers.Lash.Tokens.Quote.{command_line, parse-command_line}
use lazers.Lash.Tokens.Refine.Read.{tokens, tokens_from}
use lazers.Lash.System.{System, calls, ◌>>=◌}
use lazers.Lash.Commands.{
  ExecutionMode, spawn_outcome, run_command, run_command_at_path, collect_arguments,
}
use lazers.Lash.Shell.{execute_segment, dispatch}

tokens_from-first :
    (p : TokenizedCommand) (n i : ℕ) (text : Bytes) (texts : List Bytes)
    → tokens_from n i p ≡ some (map some (text ∷ texts))
    → (m : ℕ) × (n ≡ suc m)
      × (token p i ≡ some (some text))
      × (tokens_from m (suc i) p ≡ some (map some texts))
unfolding tokens_from
tokens_from-first p zero i text texts h = absurd (cc h)
tokens_from-first p (suc m) i text texts h =
    let (first, a, behind) = and_then-eq-some (token p i) _ h in
    let (rest, b, last) = and_then-eq-some (tokens_from m (suc i) p) _ behind in
    (m, refl, cc (a, last), cc (b, last))

tokens_from-none : (p : TokenizedCommand) (n i : ℕ) → tokens_from n i p ≡ some [] → n ≡ 0
unfolding tokens_from
tokens_from-none p zero i h = refl
tokens_from-none p (suc n) i h =
    let (first, a, behind) = and_then-eq-some (token p i) _ h in
    let (rest, b, last) = and_then-eq-some (tokens_from n (suc i) p) _ behind in absurd (cc last)

equal-contains :
    (b : ℕ) (x y : Bytes) → contains b x ≡ true → contains b y ≡ false → equal x y ≡ false
equal-contains b x y inside outside = elim (Bool-cases (equal x y)) [
  | inl e ↦ let same : x ≡ y = (equal_iff x y).0 e in absurd (cc (same, inside, outside))
  | inr e ↦ e
]

is_nil-contains : (b : ℕ) (x : Bytes) → contains b x ≡ true → is_nil x ≡ false
unfolding contains
is_nil-contains b [] inside = absurd (cc inside)
is_nil-contains b (y ∷ x) inside = refl

module _ {W : Type 0} (sys : System W) where
  collect_arguments-tokens :
      (p : TokenizedCommand) (n i room : ℕ) (texts : List Bytes) (w : W)
      → tokens_from n i p ≡ some (map some texts)
      → length texts ≤ room
      → collect_arguments sys n i room p w ≡ (w, ok (some texts))
  unfolding collect_arguments
  collect_arguments-tokens p n i room [] w h fits = rw (tokens_from-none p n i h) refl
  collect_arguments-tokens p n i zero (text ∷ texts) w h fits = absurd (omega arith)
  collect_arguments-tokens p n i (suc room) (text ∷ texts) w h fits =
      let (m, one_more, found, rest) = tokens_from-first p n i text texts h in
      rw (one_more, found, collect_arguments-tokens p m (suc i) room texts w rest (omega arith))
        refl

  dispatch-path :
      (command : Bytes) (p : TokenizedCommand) (mode : ExecutionMode) (w : W)
      → contains b'/' command ≡ true
      → dispatch sys command p mode w ≡ run_command sys command p mode w
  dispatch-path command p mode w slash =
      rw
        (
          equal-contains b'/' command (codes "cd") slash (unfold contains in refl),
          equal-contains b'/' command (codes "env") slash (unfold contains in refl),
          equal-contains b'/' command (codes "set") slash (unfold contains in refl),
          equal-contains b'/' command (codes "unset") slash (unfold contains in refl),
          equal-contains b'/' command (codes "where") slash (unfold contains in refl),
          equal-contains b'/' command (codes "exit") slash (unfold contains in refl),
          is_nil-contains b'/' command slash,
        )
        refl

  run_command-path :
      (command : Bytes) (arguments : List Bytes) (p : TokenizedCommand) (mode : ExecutionMode)
      (w : W)
      → contains b'/' command ≡ true
      → tokens_from (p.count - 1) 1 p ≡ some (map some arguments)
      → length arguments ≤ max_command_args
      → run_command sys command p mode w ≡ run_command_at_path sys command command arguments mode w
  unfolding run_command
  run_command-path command arguments p mode w slash there few =
      rw (collect_arguments-tokens p (p.count - 1) 1 max_command_args arguments w there few, slash)
        (elim (Bool-cases (starts_with b'/' command)) [ inl e ↦ rw e refl | inr e ↦ rw e refl ])

  -- On any system, a quoted command line of UTF-8 words that fit the buffers, the first with a slash in it,
  -- asks the system once to spawn that path with the other words as arguments, and then reports how it
  -- ended.
  pub execute_segment-path :
      (command : Bytes) (arguments : List Bytes) (mode : ExecutionMode) (w : W)
      → Fits (command ∷ arguments)
      → map from_utf8 (command ∷ arguments) ≡ map some (command ∷ arguments)
      → contains b'/' command ≡ true
      → execute_segment sys (command_line (command ∷ arguments)) mode w
        ≡ (calls (sys.spawn_wait command arguments) >>= spawn_outcome sys command command mode) w
  unfolding execute_segment tokens
  execute_segment-path command arguments mode w fits utf8 slash =
      let (p, parsed, there) = parse-command_line (command ∷ arguments) fits in
      let (m, size, first, rest) =
        tokens_from-first p p.count 0 command arguments (rw utf8 at there) in
      let some_there : (p.count == 0) ≡ false = ground (arith, size) in
      let behind : tokens_from (p.count - 1) 1 p ≡ some (map some arguments) =
        let one_less : p.count - 1 ≡ m = omega (arith, size) in
        ap (λ n. tokens_from n 1 p) one_less ∙ rest in
      rw (parsed, some_there, first)
        (dispatch-path command p mode w slash
          ∙ run_command-path command arguments p mode w slash behind (omega (arith, fits.0))
          ∙ unfold run_command_at_path in refl)
