-- ===== src/Lash/Tokens/Refine/Whole.antt =====
-- `TokenizedCommand::parse` of user/lash/src/lib.rs against the words of the line.
use lazers.Base.{
  true, false, Option, none, some, List, [], ◌∷◌, map, ◌≡◌, refl, sym, inl, inr, arith,
}
use lazers.Base.Tests.{if◌then◌else◌, Bool-cases}
use mathlib.Core.Path.{subst}
use lazers.Base.Lists.{replicate}
use lazers.Base.Words.{Bytes}
use lazers.Base.Text.{from_utf8}
use lazers.Base.Results.{Result, ok, err, ◌>>=◌, Result-cases}
use lazers.Lash.{
  ParseError, ParseState, resource_unavailable, line_capacity, max_command_args, unquoted,
  single_quoted, double_quoted, trailing_backslash,
}
use lazers.Lash.Tokens.{
  TokenizedCommand, Tokenizer, parse, parse_bytes, finish_parse, read_byte, read_escaped, escapes,
  close_token, at_start,
}
use lazers.Lash.Tokens.Words.{
  Reading, note_byte, note_bytes, note_bytes-Grows, note_end, nothing_read, words, extend,
  all_words, with_current, Fits, Fits-of-Grows, complete,
}
use lazers.Lash.Tokens.Refine.{Represents, Follows}
use lazers.Lash.Tokens.Refine.Read.{tokens, tokens-Represents}
use lazers.Lash.Tokens.Refine.Steps.{reading}
use lazers.Lash.Tokens.Refine.Rounds.{read_byte-Follows, read_escaped-Follows, blank-Follows}

-- The buffers and the words come to the same end, or a capacity is in the way.
data Agree (m : Result ParseError Tokenizer) (n : Result ParseError Reading) : Type 0 where
  same :
      (t : Tokenizer) (r : Reading)
      → m ≡ ok t
      → n ≡ ok r
      → Represents t r.mode r.done r.current
      → Agree m n
  failed : (e : ParseError) → m ≡ err e → n ≡ err e → Agree m n
  large : (r : Reading) → m ≡ err resource_unavailable → n ≡ ok r → ¬ Fits (all_words r) → Agree m n
  both : (e : ParseError) → m ≡ err resource_unavailable → n ≡ err e → Agree m n

Agree-step :
    (m : Result ParseError Tokenizer) (next : Tokenizer → Result ParseError Tokenizer) (r : Reading)
    (bs : Bytes)
    → Follows m r
    → ((t : Tokenizer) → Represents t r.mode r.done r.current → Agree (next t) (note_bytes bs r))
    → Agree (m >>= next) (note_bytes bs r)
Agree-step m next r bs (inl (t, e, rep)) k = rw e (k t rep)
Agree-step m next r bs (inr (e, large_one)) k = elim (Result-cases (note_bytes bs r)) [
  | inl (out, f) ↦
      large out (rw e refl) f (λ fits. large_one (Fits-of-Grows _ _ (note_bytes-Grows bs r f) fits))
  | inr (bad, f) ↦ both bad (rw e refl) f
]

last : (m : Result ParseError Tokenizer) (r : Reading) → Follows m r → Agree m (ok r)
last m r (inl (u, e, rep)) = same u r e refl rep
last m r (inr (e, large_one)) = large r e refl large_one

parse_bytes-Agree :
    (bs : Bytes) (r : Reading) (t : Tokenizer)
    → Represents t r.mode r.done r.current
    → Agree (parse_bytes bs t) (note_bytes bs r)
unfolding parse_bytes note_bytes
parse_bytes-Agree [] r t rep = same t r refl refl rep
parse_bytes-Agree (byte ∷ []) r t rep =
    subst
      (λ state.
        Agree (if escapes state byte then err trailing_backslash else read_byte state byte t)
          (if escapes r.mode byte then err trailing_backslash else ok (note_byte r.mode byte r)))
      (sym rep.same_state)
      (elim (Bool-cases (escapes r.mode byte)) [
        | inl e ↦ rw e (failed trailing_backslash refl refl)
        | inr e ↦ rw e (
            last _ (note_byte r.mode byte r) (read_byte-Follows r.mode r.done r.current byte t rep))
      ])
parse_bytes-Agree (byte ∷ next ∷ rest) r t rep =
    subst
      (λ state.
        Agree
          (elim (escapes state byte) [
            | true ↦ read_escaped state next t >>= parse_bytes rest
            | false ↦ read_byte state byte t >>= parse_bytes (next ∷ rest)
          ])
          (note_bytes (byte ∷ next ∷ rest) r))
      (sym rep.same_state)
      (elim (Bool-cases (escapes r.mode byte)) [
        | inl e ↦
            rw (e, note_bytes)
              (Agree-step _ _ (extend next r) rest
                (read_escaped-Follows r.mode r.done r.current next t rep)
                (parse_bytes-Agree rest (extend next r)))
        | inr e ↦
            rw (e, note_bytes)
              (Agree-step _ _ (note_byte r.mode byte r) (next ∷ rest)
                (read_byte-Follows r.mode r.done r.current byte t rep)
                (parse_bytes-Agree (next ∷ rest) (note_byte r.mode byte r)))
      ])

-- What `parse` may come to beside `words`, by the capacities of the buffers.
pub data Outcome (m : Result ParseError TokenizedCommand) (n : Result ParseError (List Bytes))
    : Type 0 where
  parsed_words :
      (p : TokenizedCommand) (ws : List Bytes)
      → m ≡ ok p
      → n ≡ ok ws
      → Fits ws
      → tokens p ≡ some (map from_utf8 ws)
      → Outcome m n
  refused : (e : ParseError) → m ≡ err e → n ≡ err e → Outcome m n
  too_large : (ws : List Bytes) → m ≡ err resource_unavailable → n ≡ ok ws → ¬ Fits ws → Outcome m n
  too_large_first : (e : ParseError) → m ≡ err resource_unavailable → n ≡ err e → Outcome m n

closed-Outcome :
    (done : List Bytes) (current : Option Bytes) (t : Tokenizer)
    → Follows (close_token t.token_active t) (complete (reading unquoted done current))
    → Outcome (close_token t.token_active t >>= λ u. ok u.parsed) (ok (with_current done current))
closed-Outcome done current t (inl (u, e, rep)) =
    parsed_words u.parsed (with_current done current) (rw e refl) refl rep.fits
      (tokens-Represents u (with_current done current) rep)
closed-Outcome done current t (inr (e, large_one)) =
    too_large (with_current done current) (rw e refl) refl large_one

finish_parse-Outcome :
    (mode : ParseState) (done : List Bytes) (current : Option Bytes) (t : Tokenizer)
    → Represents t mode done current
    → Outcome (finish_parse mode t) (note_end mode (reading mode done current))
unfolding finish_parse note_end
finish_parse-Outcome single_quoted done current t rep = refused _ refl refl
finish_parse-Outcome double_quoted done current t rep = refused _ refl refl
finish_parse-Outcome unquoted done current t rep =
    closed-Outcome done current t (blank-Follows done current t rep)

large-Outcome :
    (mode : ParseState) (r : Reading)
    → ¬ Fits (all_words r)
    → Outcome (err resource_unavailable) (note_end mode r)
unfolding note_end
large-Outcome single_quoted r large_one = too_large_first _ refl refl
large-Outcome double_quoted r large_one = too_large_first _ refl refl
large-Outcome unquoted r large_one = too_large (all_words r) refl refl large_one

Agree-Outcome :
    (m : Result ParseError Tokenizer) (n : Result ParseError Reading)
    → Agree m n
    → Outcome (m >>= λ t. finish_parse t.state t) (n >>= λ r. note_end r.mode r)
Agree-Outcome m n (same t r e f rep) =
    rw (e, f)
      (subst (λ state. Outcome (finish_parse state t) (note_end r.mode r)) (sym rep.same_state)
        (finish_parse-Outcome r.mode r.done r.current t rep))
Agree-Outcome m n (failed bad e f) = rw (e, f) (refused bad refl refl)
Agree-Outcome m n (large r e f large_one) = rw (e, f) (large-Outcome r.mode r large_one)
Agree-Outcome m n (both bad e f) = rw (e, f) (too_large_first bad refl refl)

at_start-Represents : Represents at_start unquoted [] none
at_start-Represents = record {
  same_state = refl;
  same_active = refl;
  quoting = inl refl;
  counted = refl;
  measured = refl;
  fits = (omega arith, omega arith);
  stored = refl;
  storage_filled = (replicate line_capacity 0, refl, refl);
  offsets_filled = (replicate max_command_args 0, refl, refl);
  lengths_filled = (replicate max_command_args 0, refl, refl);
}

-- Of every line, `parse` and the reference `words` agree up to the capacity of the buffers. Either both
-- succeed, the words fit, and the tokens read back are those words; or both fail with the same error; or
-- `parse` reports `resource_unavailable`, and then `words` fails or its words do not fit.
pub parse-words : (line : Bytes) → Outcome (parse line) (words line)
unfolding parse words
parse-words line =
    Agree-Outcome _ _ (parse_bytes-Agree line nothing_read at_start at_start-Represents)
