-- ===== src/Lash/Tokens/Refine/Read.antt =====
-- Reading the words back out of the buffers, `TokenizedCommand::token` of user/lash/src/lib.rs.
use lazers.Base.{
  ℕ, zero, suc, ◌+◌, ◌<◌, Option, none, some, List, [], ◌∷◌, ◌++◌, map, ◌≡◌, refl, sym, ap, ◌∙◌,
  arith,
}
use mathlib.Core.List.{append_assoc}
use lazers.Base.Lists.{length, get_elem?, slice, length-append}
use lazers.Base.Words.{Bytes}
use lazers.Base.Text.{from_utf8}
use lazers.Base.Results.{and_then}
use lazers.Lash.{max_command_args, unquoted}
use lazers.Lash.Tokens.{TokenizedCommand, Tokenizer, token, token_at}
use lazers.Lash.Tokens.Refine.{joined, starts, Represents}
use lazers.Lash.Tokens.Refine.Steps.{length-starts, length-map-length}
use lazers.Lash.Tokens.Refine.Cells.{Filled-get_elem?, slice-append}

-- `count` words from the one numbered `index` on.
unfoldable pub tokens_from : ℕ → ℕ → TokenizedCommand → Option (List (Option Bytes))
tokens_from zero index p = some []
tokens_from (suc count) index p =
    and_then (token p index)
      λ first. and_then (tokens_from count (suc index) p) λ rest. some (first ∷ rest)

-- The words of a command; `none` if reading one of them panics.
unfoldable pub tokens : TokenizedCommand → Option (List (Option Bytes))
tokens p = tokens_from p.count 0 p

token-of_cells :
    (p : TokenizedCommand) (i start : ℕ) (w : Bytes)
    → get_elem? p.offsets i ≡ some start
    → get_elem? p.lengths i ≡ some (length w)
    → slice p.storage start (start + length w) ≡ some w
    → token p i ≡ some (from_utf8 w)
unfolding token token_at
token-of_cells p i start w at len text = rw (at, len, text) refl

-- The buffers of `p` hold the words `ws` behind those that were passed, which fill `front`.
record Holds (p : TokenizedCommand) (i : ℕ) (front : Bytes) (ws : List Bytes) : Type 0 where
  pub stored : (free : Bytes) × (p.storage ≡ front ++ (joined ws ++ free))
  pub offsets_at :
      (k : ℕ) → k < length ws → get_elem? p.offsets (i + k) ≡ get_elem? (starts (length front) ws) k
  pub lengths_at :
      (k : ℕ) → k < length ws → get_elem? p.lengths (i + k) ≡ get_elem? (map length ws) k

Holds-next :
    (p : TokenizedCommand) (i : ℕ) (front w : Bytes) (ws : List Bytes)
    → Holds p i front (w ∷ ws)
    → Holds p (suc i) (front ++ w) ws
Holds-next p i front w ws holds =
    let (free, shape) = holds.stored in
    record {
      stored = (
        free,
        shape
            ∙ sym (
                append_assoc front w (joined ws ++ free)
                ∙ ap (λ l. front ++ l) (sym (append_assoc w (joined ws) free))),
      );
      offsets_at = λ k below.
          let moved : i + suc k ≡ suc i + k = omega arith in
          rw (length-append front w) (rw moved at (holds.offsets_at (suc k) (omega arith)));
      lengths_at = λ k below.
          let moved : i + suc k ≡ suc i + k = omega arith in
          rw moved at (holds.lengths_at (suc k) (omega arith));
    }

Holds-token :
    (p : TokenizedCommand) (i : ℕ) (front w : Bytes) (ws : List Bytes)
    → Holds p i front (w ∷ ws)
    → token p i ≡ some (from_utf8 w)
Holds-token p i front w ws holds =
    let (free, shape) = holds.stored in
    let at0 : i + 0 ≡ i = omega arith in
    token-of_cells p i (length front) w (rw at0 at (holds.offsets_at 0 (omega arith)))
      (rw at0 at (holds.lengths_at 0 (omega arith)))
      (rw (shape, append_assoc w (joined ws) free) (slice-append front w (joined ws ++ free)))

tokens_from-Holds :
    (p : TokenizedCommand) (i : ℕ) (front : Bytes) (ws : List Bytes)
    → Holds p i front ws
    → tokens_from (length ws) i p ≡ some (map from_utf8 ws)
unfolding tokens_from
tokens_from-Holds p i front [] holds = refl
tokens_from-Holds p i front (w ∷ ws) holds =
    rw
      (
        Holds-token p i front w ws holds,
        tokens_from-Holds p (suc i) (front ++ w) ws (Holds-next p i front w ws holds),
      )
      refl

Holds-Represents :
    (t : Tokenizer) (ws : List Bytes) → Represents t unquoted ws none → Holds t.parsed 0 [] ws
Holds-Represents t ws rep =
    let (free, shape, room) = rep.storage_filled in
    record {
      stored = (free, shape);
      offsets_at = λ k below.
          Filled-get_elem? max_command_args t.parsed.offsets (starts 0 ws) k rep.offsets_filled
            (omega (arith, length-starts 0 ws));
      lengths_at = λ k below.
          Filled-get_elem? max_command_args t.parsed.lengths (map length ws) k rep.lengths_filled
            (omega (arith, length-map-length ws));
    }

-- A finished reading: no word is open.
pub tokens-Represents :
    (t : Tokenizer) (ws : List Bytes)
    → Represents t unquoted ws none
    → tokens t.parsed ≡ some (map from_utf8 ws)
unfolding tokens
tokens-Represents t ws rep =
    ap (λ n. tokens_from n 0 t.parsed) rep.counted
    ∙ tokens_from-Holds t.parsed 0 [] ws (Holds-Represents t ws rep)
