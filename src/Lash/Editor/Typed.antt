-- ===== src/Lash/Editor/Typed.antt =====
-- What has been typed, without the buffer, and what is carried out when the line is entered
-- (user/lash/src/repl.rs).
use lazers.Base.{
  ℕ, zero, suc, ◌+◌, ◌-◌, ◌≤◌, ◌<◌, true, false, ◌&&◌, [], ◌∷◌, ◌++◌, ◌≡◌, refl, sym, ap, ◌∙◌, inl,
  inr, arith,
}
use lazers.Base.Tests.{ltb→lt, lt→leb_false, ==_iff, ltb, leb, if◌then◌else◌, ◌==◌, Bool-cases}
use mathlib.Core.Path.{subst}
use lazers.Base.Lists.{length, set, take, length-set, length-take, length-append, length-replicate}
use lazers.Base.Words.{Bytes}
use lazers.Base.Text.{contains, is_nil}
use lazers.Base.Results.{Result, ok, err}
use lazers.Lash.{line_capacity}
use lazers.Lash.System.{System, Program, return, ◌>>◌, resume, println}
use lazers.Lash.Commands.{interactive}
use lazers.Lash.Shell.{execute_line}
use lazers.Lash.Editor.{
  Editor, blank_editor, print_prompt, append_printable, backspace, submit_line, handle_byte,
  handle_bytes,
}

abbrev pub without_last : Bytes → Bytes
without_last text = take (length text - 1) text

-- A key on the text so far.
unfoldable pub type_byte : ℕ → Bytes → Bytes
type_byte byte text =
    if byte == 127
    then without_last text
    else if leb 32 byte && leb byte 126 && ltb (length text) line_capacity
    then text ++ (byte ∷ [])
    else text

unfoldable pub type_bytes : Bytes → Bytes → Bytes
type_bytes [] text = text
type_bytes (byte ∷ bytes) text = type_bytes bytes (type_byte byte text)

record Shows (ed : Editor) (text : Bytes) : Type 0 where
  pub in_line : take ed.len ed.line ≡ text
  pub len_eq : ed.len ≡ length text
  pub sized : length ed.line ≡ line_capacity
  pub short : length text ≤ line_capacity

blank-Shows : Shows blank_editor []
blank-Shows = record {
  in_line = refl;
  len_eq = refl;
  sized = length-replicate {A = ℕ} line_capacity 0;
  short = omega arith;
}

take-set :
    (xs : Bytes) (i v : ℕ) → i < length xs → take (i + 1) (set xs i v) ≡ take i xs ++ (v ∷ [])
take-set [] i v below = absurd (omega arith)
take-set (x ∷ xs) zero v below = refl
take-set (x ∷ xs) (suc i) v below =
    let more : suc i + 1 ≡ suc (i + 1) = omega arith in
    rw more (ap (λ l. x ∷ l) (take-set xs i v (omega arith)))

take-take : (m n : ℕ) (xs : Bytes) → m ≤ n → take m (take n xs) ≡ take m xs
take-take zero n xs le = refl
take-take (suc m) zero xs le = absurd (omega arith)
take-take (suc m) (suc n) [] le = refl
take-take (suc m) (suc n) (x ∷ xs) le = ap (λ l. x ∷ l) (take-take m n xs (omega arith))

is_nil-empty : (text : Bytes) → length text ≡ 0 → is_nil text ≡ true
is_nil-empty [] empty = refl
is_nil-empty (b ∷ text) empty = absurd (omega arith)

is_nil-some : (text : Bytes) → 0 < length text → is_nil text ≡ false
is_nil-some [] some_there = absurd (omega arith)
is_nil-some (b ∷ text) some_there = refl

without_last-empty : (text : Bytes) → length text ≡ 0 → without_last text ≡ text
without_last-empty [] empty = refl
without_last-empty (b ∷ text) empty = absurd (omega arith)

module _ {W : Type 0} (sys : System W) where
  -- What a key echoes, by the text before it: an erased byte, or the byte itself if it is taken.
  abbrev echo_byte : ℕ → Bytes → W → W
  echo_byte byte text w =
      if byte == 127
      then (if is_nil text then w else sys.stdout_write (127 ∷ []) w)
      else if leb 32 byte && leb byte 126
      then (if ltb (length text) line_capacity then sys.stdout_write (byte ∷ []) w else w)
      else w

  abbrev pub echo_bytes : Bytes → Bytes → W → W
  echo_bytes [] text w = w
  echo_bytes (byte ∷ bytes) text w = echo_bytes bytes (type_byte byte text) (echo_byte byte text w)

  -- The program comes to the world `w` and to an editor that shows `text`.
  abbrev Reaches : W × Result ℕ Editor → W → Bytes → Type 0
  Reaches x w text = (ed : Editor) × (x ≡ (w, ok ed)) × Shows ed text

  backspace-Reaches :
      (ed : Editor) (text : Bytes) (w : W)
      → Shows ed text
      → Reaches
          (backspace sys ed w)
          (if is_nil text then w else sys.stdout_write (127 ∷ []) w)
          (without_last text)
  unfolding backspace
  backspace-Reaches ed text w shows = elim (Bool-cases (ed.len == 0)) [
    | inl e ↦
        let empty : length text ≡ 0 = omega (arith, shows.len_eq, (==_iff ed.len 0).0 e) in
        rw (is_nil-empty text empty)
          (ed, rw e refl, subst (Shows ed) (sym (without_last-empty text empty)) shows)
    | inr e ↦
        let some_text : is_nil text ≡ false = is_nil-some text (ground (arith, e, shows.len_eq)) in
        rw some_text (
          record ed { len = ed.len - 1 },
          rw e refl,
          record {
            in_line =
                sym (take-take (ed.len - 1) ed.len ed.line (omega arith))
                ∙ ap (take (ed.len - 1)) shows.in_line
                ∙ ap (λ n. take (n - 1) text) shows.len_eq;
            len_eq = omega (arith, shows.len_eq, length-take (length text - 1) text);
            sized = shows.sized;
            short = omega (arith, shows.short, length-take (length text - 1) text);
          },
        )
  ]

  append_printable-Reaches :
      (byte : ℕ) (ed : Editor) (text : Bytes) (w : W)
      → Shows ed text
      → Reaches
          (append_printable sys byte ed w)
          (if ltb (length text) line_capacity then sys.stdout_write (byte ∷ []) w else w)
          (if ltb (length text) line_capacity then text ++ (byte ∷ []) else text)
  unfolding append_printable
  append_printable-Reaches byte ed text w shows =
      elim (Bool-cases (ltb (length text) line_capacity)) [
        | inl e ↦
            let below : length text < line_capacity = ltb→lt _ _ e in
            let room : leb line_capacity ed.len ≡ false =
              lt→leb_false _ _ (omega (arith, below, shows.len_eq)) in
            rw e (
              record { line = set ed.line ed.len byte; len = ed.len + 1 },
              rw room refl,
              record {
                in_line =
                    take-set ed.line ed.len byte (omega (arith, below, shows.len_eq, shows.sized))
                    ∙ ap (λ l. l ++ (byte ∷ [])) shows.in_line;
                len_eq = omega (arith, shows.len_eq, length-append text (byte ∷ []));
                sized = length-set ed.line ed.len byte ∙ shows.sized;
                short = omega (arith, below, length-append text (byte ∷ []));
              },
            )
        | inr e ↦
            let full : leb line_capacity ed.len ≡ true = ground (arith, e, shows.len_eq) in
            rw e (ed, rw full refl, shows)
      ]

  handle_byte-Reaches :
      (byte : ℕ) (ed : Editor) (text : Bytes) (w : W)
      → (byte == b'\n') ≡ false
      → Shows ed text
      → Reaches (handle_byte sys byte ed w) (echo_byte byte text w) (type_byte byte text)
  unfolding handle_byte type_byte
  handle_byte-Reaches byte ed text w no_line shows = rw no_line (elim (Bool-cases (byte == 127)) [
    | inl e ↦ rw e (backspace-Reaches ed text w shows)
    | inr e ↦ elim (Bool-cases (leb 32 byte && leb byte 126)) [
      | inl f ↦ rw (e, f) (append_printable-Reaches byte ed text w shows)
      | inr f ↦ rw (e, f) (ed, refl, shows)
    ]
  ])

  handle_bytes-Reaches :
      (bytes : Bytes) (ed : Editor) (text : Bytes) (w : W)
      → contains b'\n' bytes ≡ false
      → Shows ed text
      → Reaches (handle_bytes sys bytes ed w) (echo_bytes bytes text w) (type_bytes bytes text)
  unfolding handle_bytes type_bytes contains
  handle_bytes-Reaches [] ed text w no_line shows = (ed, refl, shows)
  handle_bytes-Reaches (byte ∷ bytes) ed text w no_line shows =
      let (ed', e, shows') = handle_byte-Reaches byte ed text w (ground (arith, no_line)) shows in
      rw e (
        handle_bytes-Reaches bytes ed' (type_byte byte text) (echo_byte byte text w)
          (ground (arith, no_line)) shows')

  resume-return : (x : W × Result ℕ Editor) → resume (handle_bytes sys []) x ≡ x
  unfolding handle_bytes
  resume-return (w, ok ed) = refl
  resume-return (w, err code) = refl

  resume-end :
      (f g : Editor → Program W Editor) (x y : W × Result ℕ Editor) (ed' : Editor) (w' : W)
      → resume f x ≡ (w', ok ed')
      → ((ed : Editor) (w : W) → f ed w ≡ (w', ok ed') → g ed w ≡ y)
      → resume g x ≡ y
  resume-end f g (w, ok ed) y ed' w' h next = next ed w h
  resume-end f g (w, err code) y ed' w' h next = absurd (cc (ap (λ p. p.1) h))

  -- One more byte is handled in the world that the bytes before it have led to.
  handle_bytes-append :
      (xs : Bytes) (byte : ℕ) (ed ed' : Editor) (w w' : W)
      → handle_bytes sys xs ed w ≡ (w', ok ed')
      → handle_bytes sys (xs ++ (byte ∷ [])) ed w ≡ handle_byte sys byte ed' w'
  unfolding handle_bytes
  handle_bytes-append [] byte ed ed' w w' h =
      resume-return (handle_byte sys byte ed w) ∙ ap (λ p. resume (handle_byte sys byte) p) h
  handle_bytes-append (x ∷ xs) byte ed ed' w w' h =
      resume-end (handle_bytes sys xs) (handle_bytes sys (xs ++ (byte ∷ [])))
        (handle_byte sys x ed w) _ ed' w' h (λ ed₁ w₁. handle_bytes-append xs byte ed₁ ed' w₁ w')

  -- On any system, bytes without a newline and then a newline, typed into the blank editor, execute the
  -- line that the keys have edited: printable bytes append up to the capacity, 127 takes the last one
  -- away, other bytes are ignored. The echoes come before, the prompt after, and if the execution returns
  -- the buffer is empty again.
  pub handle_bytes-enter :
      (bytes : Bytes) (w : W)
      → contains b'\n' bytes ≡ false
      → (ed : Editor) × (handle_bytes sys (bytes ++ (b'\n' ∷ [])) blank_editor w
          ≡ (println sys []
                >> execute_line sys (type_bytes bytes []) interactive
                >> print_prompt sys
                >> return ed)
              (echo_bytes bytes [] w))
        × (ed.len ≡ 0)
  handle_bytes-enter bytes w no_line =
      let (ed, e, shows) = handle_bytes-Reaches bytes blank_editor [] w no_line blank-Shows in
      (
        record ed { len = 0 },
        handle_bytes-append bytes b'\n' blank_editor ed w (echo_bytes bytes [] w) e
            ∙ unfold handle_byte submit_line in
              ap
                (λ t.
                  (println sys []
                      >> execute_line sys t interactive
                      >> print_prompt sys
                      >> return (record ed { len = 0 }))
                    (echo_bytes bytes [] w))
                shows.in_line,
        refl,
      )
