-- ===== src/Lash/Tokens/Refine.antt =====
-- The buffers of `TokenizedCommand::parse` (user/lash/src/lib.rs) beside the words that they stand for.
pub mod Cells
pub mod Steps
pub mod Rounds
pub mod Read
pub mod Whole
use lazers.Base.{
  ℕ, zero, suc, ◌+◌, ◌-◌, ◌*◌, ◌/◌, ◌%◌, ◌^◌, ◌≤◌, ◌<◌, min, max, Bool, true, false, not, ◌&&◌,
  ◌||◌, Option, none, some, List, [], ◌∷◌, ◌++◌, map, ◌≡◌, ◌≢◌, ◌↔◌, refl, sym, ap, ◌∙◌, ◌⊎◌, inl,
  inr, arith,
}
use lazers.Base.Tests.{ltb, leb, if◌then◌else◌, ◌==◌, Bool-cases, Option-cases}
use lazers.Base.Lists.{length}
use lazers.Base.Words.{Bytes}
use lazers.Base.Results.{Result, ok, err, ◌>>=◌}
use lazers.Lash.{
  unquoted, ParseError, ParseState, resource_unavailable, line_capacity, max_command_args,
}
use lazers.Lash.Tokens.{Tokenizer}
use lazers.Lash.Tokens.Words.{Reading, so_far, with_current, all_words, total, Fits}
use lazers.Lash.Tokens.Refine.Cells.{Filled}

abbrev pub joined : List Bytes → Bytes
joined [] = []
joined (w ∷ ws) = w ++ joined ws

-- Where each word starts when they are laid out one behind the other from `at`.
abbrev pub starts : ℕ → List Bytes → List ℕ
starts at [] = []
starts at (w ∷ ws) = at ∷ starts (at + length w) ws

abbrev pub is_some : Option Bytes → Bool
is_some none = false
is_some (some w) = true

pub record Represents (t : Tokenizer) (mode : ParseState) (done : List Bytes)
    (current : Option Bytes) : Type 0 where
  pub same_state : t.state ≡ mode
  pub same_active : t.token_active ≡ is_some current
  pub quoting : (mode ≡ unquoted) ⊎ (is_some current ≡ true)
  pub counted : t.parsed.count ≡ length done
  pub measured : t.current_len ≡ length (so_far current)
  pub fits : Fits (with_current done current)
  pub stored : t.storage_len ≡ total (with_current done current)
  pub storage_filled : Filled line_capacity t.parsed.storage (joined (with_current done current))
  pub offsets_filled :
      Filled max_command_args t.parsed.offsets (starts 0 (with_current done current))
  pub lengths_filled : Filled max_command_args t.parsed.lengths (map length done)

-- A step ends with the buffers of the reading `r`, or it fails because `r` does not fit.
abbrev pub Follows : Result ParseError Tokenizer → Reading → Type 0
Follows m r =
    ((u : Tokenizer) × (m ≡ ok u) × Represents u r.mode r.done r.current)
    ⊎ ((m ≡ err resource_unavailable) × ¬ Fits (all_words r))

pub Follows-bind :
    (m : Result ParseError Tokenizer) (f : Tokenizer → Result ParseError Tokenizer) (r s : Reading)
    → Follows m r
    → (Fits (all_words s) → Fits (all_words r))
    → ((u : Tokenizer) → Represents u r.mode r.done r.current → Follows (f u) s)
    → Follows (m >>= f) s
Follows-bind m f r s (inl (u, e, rep)) shrink next = rw e (next u rep)
Follows-bind m f r s (inr (e, large)) shrink next = inr (rw e refl, λ fits. large (shrink fits))
