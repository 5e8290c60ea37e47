-- ===== src/Lash/Tokens/Words.antt =====
-- The words of a command line without buffers: what `TokenizedCommand::parse` of user/lash/src/lib.rs
-- reads a line as, when no capacity is in the way.
use lazers.Base.{
  ℕ, zero, suc, ◌+◌, ◌-◌, ◌*◌, ◌/◌, ◌%◌, ◌^◌, ◌≤◌, ◌<◌, min, max, Bool, true, false, not, ◌&&◌,
  ◌||◌, Option, none, some, List, [], ◌∷◌, ◌++◌, map, ◌≡◌, ◌≢◌, ◌↔◌, refl, sym, ap, ◌∙◌, ◌⊎◌, inl,
  inr, arith,
}
use lazers.Base.Tests.{if◌then◌else◌, ◌==◌, Bool-cases, Option-cases}
use lazers.Base.Lists.{length, length-append}
use lazers.Base.Words.{Bytes}
use lazers.Base.Results.{Result, ok, err, ◌>>=◌}
use lazers.Lash.{
  ParseError, ParseState, unmatched_single_quote, unmatched_double_quote, trailing_backslash,
  unquoted, single_quoted, double_quoted, line_capacity, max_command_args,
}
use lazers.Lash.Tokens.{escapes}

-- The words that are finished, and the one being read, if any.
pub record Reading : Type 0 where
  pub mode : ParseState
  pub done : List Bytes
  pub current : Option Bytes

abbrev pub so_far : Option Bytes → Bytes
so_far none = []
so_far (some w) = w

abbrev pub extend : ℕ → Reading → Reading
extend byte r = record r { current = some (so_far r.current ++ byte ∷ []) }

abbrev pub begin : Reading → Reading
begin r = record r { current = some (so_far r.current) }

abbrev pub with_current : List Bytes → Option Bytes → List Bytes
with_current done none = done
with_current done (some w) = done ++ w ∷ []

abbrev pub complete : Reading → Reading
complete r = record r { done = with_current r.done r.current; current = none }

abbrev pub in_mode : ParseState → Reading → Reading
in_mode mode r = record r { mode = mode }

unfoldable pub note_byte : ParseState → ℕ → Reading → Reading
note_byte unquoted byte r =
    if byte == b' '
    then complete r
    else if byte == b'\''
    then in_mode single_quoted (begin r)
    else if byte == b'"'
    then in_mode double_quoted (begin r)
    else extend byte r
note_byte single_quoted byte r = if byte == b'\'' then in_mode unquoted r else extend byte r
note_byte double_quoted byte r = if byte == b'"' then in_mode unquoted r else extend byte r

unfoldable pub note_bytes : Bytes → Reading → Result ParseError Reading
note_bytes [] r = ok r
note_bytes (byte ∷ []) r =
    if escapes r.mode byte then err trailing_backslash else ok (note_byte r.mode byte r)
note_bytes (byte ∷ next ∷ rest) r = elim (escapes r.mode byte) [
  | true ↦ note_bytes rest (extend next r)
  | false ↦ note_bytes (next ∷ rest) (note_byte r.mode byte r)
]

unfoldable pub note_end : ParseState → Reading → Result ParseError (List Bytes)
note_end single_quoted r = err unmatched_single_quote
note_end double_quoted r = err unmatched_double_quote
note_end unquoted r = ok (with_current r.done r.current)

abbrev pub nothing_read : Reading
nothing_read = record { mode = unquoted; done = []; current = none }

unfoldable pub words : Bytes → Result ParseError (List Bytes)
words line = note_bytes line nothing_read >>= λ r. note_end r.mode r

abbrev pub total : List Bytes → ℕ
total [] = 0
total (w ∷ ws) = length w + total ws

pub total-append : (vs ws : List Bytes) → total (vs ++ ws) ≡ total vs + total ws
total-append [] ws = omega arith
total-append (v ∷ vs) ws = omega (arith, total-append vs ws)

-- The words read so far, the current one included.
abbrev pub all_words : Reading → List Bytes
all_words r = with_current r.done r.current

abbrev pub Fits : List Bytes → Type 0
Fits ws = (length ws ≤ max_command_args) × (total ws ≤ line_capacity)

-- Of two lists of words, the second has at least as many words and bytes.
abbrev pub Grows : List Bytes → List Bytes → Type 0
Grows vs ws = (length vs ≤ length ws) × (total vs ≤ total ws)

pub length-words : (vs ws : List Bytes) → length (vs ++ ws) ≡ length vs + length ws
length-words = length-append

pub length-bytes : (v w : Bytes) → length (v ++ w) ≡ length v + length w
length-bytes = length-append

pub ruleset sizes = (arith, length-words, length-bytes, total-append)

pub extend-Grows : (byte : ℕ) (r : Reading) → Grows (all_words r) (all_words (extend byte r))
extend-Grows byte r = elim (Option-cases r.current) [
  | inl e ↦ rw e (omega sizes, omega sizes)
  | inr (w, e) ↦ rw e (omega sizes, omega sizes)
]

begin-Grows : (r : Reading) → Grows (all_words r) (all_words (begin r))
begin-Grows r = elim (Option-cases r.current) [
  | inl e ↦ rw e (omega sizes, omega sizes)
  | inr (w, e) ↦ rw e (omega sizes, omega sizes)
]

Grows-trans : (us vs ws : List Bytes) → Grows us vs → Grows vs ws → Grows us ws
Grows-trans us vs ws g h = (omega (arith, g.0, h.0), omega (arith, g.1, h.1))

pub Fits-of-Grows : (vs ws : List Bytes) → Grows vs ws → Fits ws → Fits vs
Fits-of-Grows vs ws g f = (omega (arith, g.0, f.0), omega (arith, g.1, f.1))

note_byte-Grows :
    (mode : ParseState) (byte : ℕ) (r : Reading)
    → Grows (all_words r) (all_words (note_byte mode byte r))
unfolding note_byte
note_byte-Grows unquoted byte r = ground (arith, extend-Grows byte r, begin-Grows r)
note_byte-Grows single_quoted byte r = ground (arith, extend-Grows byte r)
note_byte-Grows double_quoted byte r = ground (arith, extend-Grows byte r)

-- Reading on never takes a word or a byte away.
pub note_bytes-Grows :
    (bs : Bytes) (r : Reading) {out : Reading}
    → note_bytes bs r ≡ ok out
    → Grows (all_words r) (all_words out)
unfolding note_bytes
note_bytes-Grows [] r h = ground (arith)
note_bytes-Grows (byte ∷ []) r h = ground (arith, note_byte-Grows r.mode byte r)
note_bytes-Grows (byte ∷ next ∷ rest) r h = elim (Bool-cases (escapes r.mode byte)) [
  | inl e ↦
      Grows-trans _ _ _ (extend-Grows next r)
        (note_bytes-Grows rest (extend next r) (rw (e, note_bytes) at h))
  | inr e ↦
      Grows-trans _ _ _ (note_byte-Grows r.mode byte r)
        (note_bytes-Grows (next ∷ rest) (note_byte r.mode byte r) (rw (e, note_bytes) at h))
]
