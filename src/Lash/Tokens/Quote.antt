-- ===== src/Lash/Tokens/Quote.antt =====
-- Words quoted so that user/lash/src/lib.rs reads them back: each one between single quotes, a single
-- quote inside it as `'\\''`, one space between two words.
use lazers.Base.{ℕ, false, none, some, List, [], ◌∷◌, ◌++◌, map, ◌≡◌, refl, sym, ap, ◌∙◌, inl, inr}
use lazers.Base.Tests.{==_iff, if◌then◌else◌, ◌==◌, Bool-cases}
use mathlib.Core.Path.{subst}
use mathlib.Core.List.{append_assoc, append-nil}
use lazers.Base.Words.{Bytes}
use lazers.Base.Text.{from_utf8}
use lazers.Base.Results.{ok, ◌>>=◌}
use lazers.Lash.{unquoted, single_quoted}
use lazers.Lash.Tokens.{TokenizedCommand, parse, escapes}
use lazers.Lash.Tokens.Words.{Reading, note_byte, note_bytes, note_end, words, Fits}
use lazers.Lash.Tokens.Refine.Read.{tokens}
use lazers.Lash.Tokens.Refine.Steps.{reading}
use lazers.Lash.Tokens.Refine.Whole.{parse-words, parsed_words, refused, too_large, too_large_first}

abbrev pub quoted_byte : ℕ → Bytes
quoted_byte b = if b == b'\'' then b'\'' ∷ b'\\' ∷ b'\'' ∷ b'\'' ∷ [] else b ∷ []

unfoldable pub quoted : Bytes → Bytes
quoted [] = []
quoted (b ∷ bs) = quoted_byte b ++ quoted bs

abbrev pub quote : Bytes → Bytes
quote w = b'\'' ∷ (quoted w ++ (b'\'' ∷ []))

unfoldable pub command_line : List Bytes → Bytes
command_line [] = []
command_line (w ∷ []) = quote w
command_line (w ∷ v ∷ ws) = quote w ++ (b' ' ∷ command_line (v ∷ ws))

note_bytes-plain :
    (byte : ℕ) (rest : Bytes) (r : Reading)
    → escapes r.mode byte ≡ false
    → note_bytes (byte ∷ rest) r ≡ note_bytes rest (note_byte r.mode byte r)
unfolding note_bytes
note_bytes-plain byte [] r plain = rw plain refl
note_bytes-plain byte (next ∷ rest) r plain = rw (plain, note_bytes) refl

-- In a quoted word, the bytes of `quoted` put back a byte.
note_bytes-quoted_byte :
    (b : ℕ) (w rest : Bytes) (done : List Bytes) (c : Bytes)
    → note_bytes (quoted (b ∷ w) ++ rest) (reading single_quoted done (some c))
      ≡ note_bytes (quoted w ++ rest) (reading single_quoted done (some (c ++ (b ∷ []))))
unfolding quoted escapes note_byte
note_bytes-quoted_byte b w rest done c = elim (Bool-cases (b == b'\'')) [
  | inl e ↦
      let quote_mark : b ≡ b'\'' = (==_iff b b'\'').0 e in
      rw quote_mark (
        note_bytes-plain b'\'' (b'\\' ∷ b'\'' ∷ b'\'' ∷ (quoted w ++ rest))
          (reading single_quoted done (some c)) refl
        ∙ unfold note_bytes in
          note_bytes-plain b'\'' (quoted w ++ rest)
            (reading unquoted done (some (c ++ (b'\'' ∷ [])))) refl)
  | inr e ↦
      rw e (
        note_bytes-plain b (quoted w ++ rest) (reading single_quoted done (some c)) refl
        ∙ rw e refl)
]

note_bytes-quoted :
    (w rest : Bytes) (done : List Bytes) (c : Bytes)
    → note_bytes (quoted w ++ (b'\'' ∷ rest)) (reading single_quoted done (some c))
      ≡ note_bytes rest (reading unquoted done (some (c ++ w)))
note_bytes-quoted [] rest done c =
    unfold quoted escapes note_byte in
    rw append-nil (note_bytes-plain b'\'' rest (reading single_quoted done (some c)) refl)
note_bytes-quoted (b ∷ w) rest done c =
    note_bytes-quoted_byte b w (b'\'' ∷ rest) done c
    ∙ note_bytes-quoted w rest done (c ++ (b ∷ []))
    ∙ ap (λ l. note_bytes rest (reading unquoted done (some l))) (append_assoc c (b ∷ []) w)

note_bytes-quote :
    (w rest : Bytes) (done : List Bytes)
    → note_bytes (quote w ++ rest) (reading unquoted done none)
      ≡ note_bytes rest (reading unquoted done (some w))
note_bytes-quote w rest done =
    unfold escapes note_byte in
    note_bytes-plain b'\'' ((quoted w ++ (b'\'' ∷ [])) ++ rest) (reading unquoted done none) refl
    ∙ ap (λ bs. note_bytes bs (reading single_quoted done (some [])))
        (append_assoc (quoted w) (b'\'' ∷ []) rest)
    ∙ note_bytes-quoted w rest done []

note_bytes-command_line :
    (ws done : List Bytes)
    → (note_bytes (command_line ws) (reading unquoted done none) >>= λ r. note_end r.mode r)
      ≡ ok (done ++ ws)
unfolding command_line note_end
note_bytes-command_line [] done = unfold note_bytes in ap ok (sym (append-nil done))
note_bytes-command_line (w ∷ []) done =
    ap (λ m. m >>= λ r. note_end r.mode r)
      (ap (λ bs. note_bytes bs (reading unquoted done none)) (sym (append-nil (quote w)))
        ∙ note_bytes-quote w [] done)
    ∙ unfold note_bytes in refl
note_bytes-command_line (w ∷ v ∷ ws) done =
    let blank : note_bytes (b' ' ∷ command_line (v ∷ ws)) (reading unquoted done (some w))
        ≡ note_bytes (command_line (v ∷ ws)) (reading unquoted (done ++ (w ∷ [])) none) =
      unfold escapes note_byte in
      note_bytes-plain b' ' (command_line (v ∷ ws)) (reading unquoted done (some w)) refl in
    ap (λ m. m >>= λ r. note_end r.mode r)
      (note_bytes-quote w (b' ' ∷ command_line (v ∷ ws)) done ∙ blank)
    ∙ note_bytes-command_line (v ∷ ws) (done ++ (w ∷ []))
    ∙ ap ok (append_assoc done (w ∷ []) (v ∷ ws))

words-command_line : (ws : List Bytes) → words (command_line ws) ≡ ok ws
unfolding words
words-command_line ws = note_bytes-command_line ws []

-- A command line of quoted words, 16 of them at most and of 256 bytes together at most, is parsed to
-- those words: `parse` succeeds on it, and reading the tokens back gives each word, or nothing for a
-- word that is not UTF-8.
pub parse-command_line :
    (ws : List Bytes)
    → Fits ws
    → (p : TokenizedCommand) × (parse (command_line ws) ≡ ok p)
      × (tokens p ≡ some (map from_utf8 ws))
parse-command_line ws fits = elim (parse-words (command_line ws)) [
  | parsed_words p vs e f _ t ↦
      let same : vs ≡ ws = cc (f, words-command_line ws) in (p, e, rw same at t)
  | refused bad e f ↦ absurd (cc (f, words-command_line ws))
  | too_large vs e f large ↦
      let same : vs ≡ ws = cc (f, words-command_line ws) in
      absurd (large (subst Fits (sym same) fits))
  | too_large_first bad e f ↦ absurd (cc (f, words-command_line ws))
]
