-- ===== src/Lash/Tokens.antt =====
-- The words of one command, `TokenizedCommand` of user/lash/src/lib.rs. The loop runs over the bytes
-- that are left of the line, so that there is a next byte exactly when they are two at least.
pub mod Words
pub mod Refine
pub mod Quote
pub mod Examples
use lazers.Base.{ℕ, suc, ◌+◌, Bool, true, false, Option, none, some, List, [], ◌∷◌}
use lazers.Base.Tests.{leb, if◌then◌else◌, ◌==◌}
use lazers.Base.Lists.{set, get_elem?, replicate, slice}
use lazers.Base.Words.{Bytes}
use lazers.Base.Text.{from_utf8}
use lazers.Base.Results.{Result, ok, err, ◌>>=◌, and_then}
use lazers.Lash.{
  ParseError, ParseState, unmatched_single_quote, unmatched_double_quote, trailing_backslash,
  resource_unavailable, unquoted, single_quoted, double_quoted, line_capacity, max_command_args,
}

pub record TokenizedCommand : Type 0 where
  pub storage : Bytes
  pub offsets : List ℕ
  pub lengths : List ℕ
  pub count : ℕ

unfoldable pub start_token : ℕ → TokenizedCommand → Result ParseError TokenizedCommand
start_token storage_offset p =
    if leb max_command_args p.count
    then err resource_unavailable
    else ok (record p {
      offsets = set p.offsets p.count storage_offset;
      lengths = set p.lengths p.count 0;
    })

unfoldable pub finish_token : ℕ → TokenizedCommand → Result ParseError TokenizedCommand
finish_token token_len p =
    if leb max_command_args p.count
    then err resource_unavailable
    else ok (record p { lengths = set p.lengths p.count token_len; count = suc p.count })

unfoldable pub push_token_byte : ℕ → ℕ → TokenizedCommand → Result ParseError TokenizedCommand
push_token_byte storage_index byte p =
    if leb line_capacity storage_index
    then err resource_unavailable
    else ok (record p { storage = set p.storage storage_index byte })

-- The local variables of `parse`, less the index in the line.
pub record Tokenizer : Type 0 where
  pub parsed : TokenizedCommand
  pub state : ParseState
  pub storage_len : ℕ
  pub current_len : ℕ
  pub token_active : Bool

-- `if !token_active { parsed.start_token(storage_len)?; token_active = true; }`
unfoldable pub open_token : Bool → Tokenizer → Result ParseError Tokenizer
open_token true t = ok t
open_token false t =
    start_token t.storage_len t.parsed >>= λ p. ok (record t { parsed = p; token_active = true })

-- `if token_active { parsed.finish_token(current_len)?; current_len = 0; token_active = false; }`
unfoldable pub close_token : Bool → Tokenizer → Result ParseError Tokenizer
close_token false t = ok t
close_token true t = finish_token t.current_len t.parsed >>= λ p.
    ok (record t { parsed = p; current_len = 0; token_active = false })

unfoldable pub push_byte : ℕ → Tokenizer → Result ParseError Tokenizer
push_byte byte t = push_token_byte t.storage_len byte t.parsed >>= λ p.
    ok (record t { parsed = p; storage_len = suc t.storage_len; current_len = suc t.current_len })

abbrev pub in_state : ParseState → Tokenizer → Tokenizer
in_state state t = record t { state = state }

abbrev pub opened : Tokenizer → Result ParseError Tokenizer
opened t = open_token t.token_active t

-- One round of the loop on a byte that is not a backslash with a meaning.
unfoldable pub read_byte : ParseState → ℕ → Tokenizer → Result ParseError Tokenizer
read_byte unquoted byte t =
    if byte == b' '
    then close_token t.token_active t
    else if byte == b'\''
    then (opened t >>= λ u. ok (in_state single_quoted u))
    else if byte == b'"'
    then (opened t >>= λ u. ok (in_state double_quoted u))
    else (opened t >>= push_byte byte)
read_byte single_quoted byte t =
    if byte == b'\'' then ok (in_state unquoted t) else push_byte byte t
read_byte double_quoted byte t = if byte == b'"' then ok (in_state unquoted t) else push_byte byte t

-- The byte behind a backslash.
unfoldable pub read_escaped : ParseState → ℕ → Tokenizer → Result ParseError Tokenizer
read_escaped unquoted byte t = opened t >>= push_byte byte
read_escaped _ byte t = push_byte byte t

unfoldable pub escapes : ParseState → ℕ → Bool
escapes single_quoted byte = false
escapes _ byte = byte == b'\\'

unfoldable pub parse_bytes : Bytes → Tokenizer → Result ParseError Tokenizer
parse_bytes [] t = ok t
parse_bytes (byte ∷ []) t =
    if escapes t.state byte then err trailing_backslash else read_byte t.state byte t
parse_bytes (byte ∷ next ∷ rest) t = elim (escapes t.state byte) [
  | true ↦ read_escaped t.state next t >>= parse_bytes rest
  | false ↦ read_byte t.state byte t >>= parse_bytes (next ∷ rest)
]

unfoldable pub finish_parse : ParseState → Tokenizer → Result ParseError TokenizedCommand
finish_parse single_quoted t = err unmatched_single_quote
finish_parse double_quoted t = err unmatched_double_quote
finish_parse unquoted t = close_token t.token_active t >>= λ u. ok u.parsed

abbrev pub at_start : Tokenizer
at_start = record {
  parsed = record {
    storage = replicate line_capacity 0;
    offsets = replicate max_command_args 0;
    lengths = replicate max_command_args 0;
    count = 0;
  };
  state = unquoted;
  storage_len = 0;
  current_len = 0;
  token_active = false;
}

unfoldable pub parse : Bytes → Result ParseError TokenizedCommand
parse line = parse_bytes line at_start >>= λ t. finish_parse t.state t

-- A slice out of the storage is a panic, `none`.
unfoldable pub token_at : Option ℕ → Option ℕ → Bytes → Option (Option Bytes)
token_at (some start) (some len) storage =
    and_then (slice storage start (start + len)) λ text. some (from_utf8 text)
token_at _ _ storage = some none

unfoldable pub token : TokenizedCommand → ℕ → Option (Option Bytes)
token p index = token_at (get_elem? p.offsets index) (get_elem? p.lengths index) p.storage
