-- ===== src/Lash/Tokens/Refine/Rounds.antt =====
-- One byte of the line, read by `TokenizedCommand::parse` and by the reference (user/lash/src/lib.rs).
use lazers.Base.{
  ℕ, Bool, true, false, Option, none, some, List, ◌≡◌, ◌≢◌, refl, sym, ◌⊎◌, inl, inr, arith,
}
use lazers.Base.Tests.{if◌then◌else◌, ◌==◌}
use mathlib.Core.Path.{subst}
use lazers.Base.Words.{Bytes}
use lazers.Base.Results.{Result, ok, ◌>>=◌}
use lazers.Lash.{ParseError, ParseState, unquoted, single_quoted, double_quoted}
use lazers.Lash.Tokens.{
  Tokenizer, open_token, close_token, push_byte, opened, in_state, read_byte, read_escaped,
}
use lazers.Lash.Tokens.Words.{
  Fits-of-Grows, extend-Grows, Reading, so_far, begin, complete, extend, in_mode, note_byte,
}
use lazers.Lash.Tokens.Refine.{is_some, Represents, Follows, Follows-bind}
use lazers.Lash.Tokens.Refine.Steps.{
  reading, open_token-Follows, close_token-Follows, push_byte-Follows,
}

-- `open_token` with the flag that the code tests.
opened-Follows :
    (mode : ParseState) (done : List Bytes) (current : Option Bytes) (t : Tokenizer)
    → Represents t mode done current
    → Follows (opened t) (begin (reading mode done current))
opened-Follows mode done current t rep =
    subst (λ active. Follows (open_token active t) (begin (reading mode done current)))
      (sym rep.same_active) (open_token-Follows mode done current t rep)

in_state-Represents :
    (mode next : ParseState) (done : List Bytes) (current : Option Bytes) (t : Tokenizer)
    → Represents t mode done current
    → (next ≡ unquoted) ⊎ (is_some current ≡ true)
    → Represents (in_state next t) next done current
in_state-Represents mode next done current t rep quoting = record {
  same_state = refl;
  same_active = rep.same_active;
  quoting = quoting;
  counted = rep.counted;
  measured = rep.measured;
  fits = rep.fits;
  stored = rep.stored;
  storage_filled = rep.storage_filled;
  offsets_filled = rep.offsets_filled;
  lengths_filled = rep.lengths_filled;
}

Follows-if :
    (b : Bool) (m n : Result ParseError Tokenizer) (r s : Reading)
    → Follows m r
    → Follows n s
    → Follows (if b then m else n) (if b then r else s)
Follows-if true m n r s f g = f
Follows-if false m n r s f g = g

enter-Follows :
    (mode next : ParseState) (done : List Bytes) (current : Option Bytes) (t : Tokenizer)
    → Represents t mode done current
    → Follows
        (opened t >>= λ u. ok (in_state next u))
        (in_mode next (begin (reading mode done current)))
enter-Follows mode next done current t rep =
    Follows-bind (opened t) _ (begin (reading mode done current)) _
      (opened-Follows mode done current t rep) (λ fits. fits)
      λ u given.
        inl (_, refl, in_state-Represents mode next done (some (so_far current)) u given (inr refl))

-- A byte that opens a word if none is being read.
append-Follows :
    (mode : ParseState) (done : List Bytes) (current : Option Bytes) (byte : ℕ) (t : Tokenizer)
    → Represents t mode done current
    → Follows (opened t >>= push_byte byte) (extend byte (reading mode done current))
append-Follows mode done current byte t rep =
    Follows-bind (opened t) (push_byte byte) (begin (reading mode done current)) _
      (opened-Follows mode done current t rep)
      (Fits-of-Grows _ _ (extend-Grows byte (begin (reading mode done current))))
      (push_byte-Follows mode done (so_far current) byte)

quoted-Follows :
    (mode : ParseState) (done : List Bytes) (current : Option Bytes) (byte : ℕ) (t : Tokenizer)
    → mode ≢ unquoted
    → Represents t mode done current
    → Follows (push_byte byte t) (extend byte (reading mode done current))
quoted-Follows mode done none byte t quoted rep = absurd (ground (arith, rep.quoting))
quoted-Follows mode done (some w) byte t quoted rep = push_byte-Follows mode done w byte t rep

leave-Follows :
    (mode : ParseState) (done : List Bytes) (current : Option Bytes) (t : Tokenizer)
    → Represents t mode done current
    → Follows (ok (in_state unquoted t)) (in_mode unquoted (reading mode done current))
leave-Follows mode done current t rep =
    inl (_, refl, in_state-Represents mode unquoted done current t rep (inl refl))

pub blank-Follows :
    (done : List Bytes) (current : Option Bytes) (t : Tokenizer)
    → Represents t unquoted done current
    → Follows (close_token t.token_active t) (complete (reading unquoted done current))
blank-Follows done current t rep =
    subst (λ active. Follows (close_token active t) (complete (reading unquoted done current)))
      (sym rep.same_active) (close_token-Follows done current t rep)

pub read_byte-Follows :
    (mode : ParseState) (done : List Bytes) (current : Option Bytes) (byte : ℕ) (t : Tokenizer)
    → Represents t mode done current
    → Follows (read_byte mode byte t) (note_byte mode byte (reading mode done current))
unfolding read_byte note_byte
read_byte-Follows unquoted done current byte t rep =
    Follows-if (byte == b' ') _ _ _ _ (blank-Follows done current t rep) (
      Follows-if (byte == b'\'') _ _ _ _ (enter-Follows unquoted single_quoted done current t rep) (
        Follows-if (byte == b'"') _ _ _ _ (enter-Follows unquoted double_quoted done current t rep)
          (append-Follows unquoted done current byte t rep)))
read_byte-Follows single_quoted done current byte t rep =
    Follows-if (byte == b'\'') _ _ _ _ (leave-Follows single_quoted done current t rep)
      (quoted-Follows single_quoted done current byte t (ground arith) rep)
read_byte-Follows double_quoted done current byte t rep =
    Follows-if (byte == b'"') _ _ _ _ (leave-Follows double_quoted done current t rep)
      (quoted-Follows double_quoted done current byte t (ground arith) rep)

pub read_escaped-Follows :
    (mode : ParseState) (done : List Bytes) (current : Option Bytes) (byte : ℕ) (t : Tokenizer)
    → Represents t mode done current
    → Follows (read_escaped mode byte t) (extend byte (reading mode done current))
unfolding read_escaped
read_escaped-Follows unquoted done current byte t rep =
    append-Follows unquoted done current byte t rep
read_escaped-Follows single_quoted done current byte t rep =
    quoted-Follows single_quoted done current byte t (ground arith) rep
read_escaped-Follows double_quoted done current byte t rep =
    quoted-Follows double_quoted done current byte t (ground arith) rep
