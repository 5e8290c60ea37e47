-- ===== src/Lash/Tokens/Refine/Steps.antt =====
-- The steps of `TokenizedCommand::parse` (user/lash/src/lib.rs) on the buffers, beside the same steps on
-- words.
use lazers.Base.{
  ℕ, suc, ◌+◌, ◌<◌, true, false, Option, none, some, List, [], ◌∷◌, ◌++◌, map, ◌≡◌, refl, sym, ap,
  ◌∙◌, inl, inr, arith,
}
use lazers.Base.Tests.{leb, leb→le, lt→leb_false, leb_false→lt, Bool-cases}
use mathlib.Core.List.{append_assoc, append-nil}
use lazers.Base.Lists.{length, set}
use lazers.Base.Words.{Bytes}
use lazers.Lash.{ParseState, line_capacity, max_command_args, unquoted}
use lazers.Lash.Tokens.{
  Tokenizer, open_token, close_token, push_byte, start_token, finish_token, push_token_byte,
}
use lazers.Lash.Tokens.Words.{Reading, total, begin, complete, extend, sizes}
use lazers.Lash.Tokens.Refine.{joined, starts, is_some, Represents, Follows}
use lazers.Lash.Tokens.Refine.Cells.{Filled-set, Filled-forget}

abbrev pub reading : ParseState → List Bytes → Option Bytes → Reading
reading mode done current = record { mode = mode; done = done; current = current }

starts-append :
    (at : ℕ) (ws : List Bytes) (w : Bytes)
    → starts at (ws ++ (w ∷ [])) ≡ starts at ws ++ ((at + total ws) ∷ [])
starts-append at [] w = ap (λ n. n ∷ []) (omega arith)
starts-append at (v ∷ ws) w =
    let moved : at + length v + total ws ≡ at + (length v + total ws) = omega arith in
    ap (λ l. at ∷ l) (starts-append (at + length v) ws w ∙ rw moved refl)

pub length-starts : (at : ℕ) (ws : List Bytes) → length (starts at ws) ≡ length ws
length-starts at [] = refl
length-starts at (w ∷ ws) = ap suc (length-starts (at + length w) ws)

joined-append : (ws : List Bytes) (w : Bytes) → joined (ws ++ (w ∷ [])) ≡ joined ws ++ w
joined-append [] w = append-nil w
joined-append (v ∷ ws) w =
    ap (λ l. v ++ l) (joined-append ws w) ∙ sym (append_assoc v (joined ws) w)

length-joined : (ws : List Bytes) → length (joined ws) ≡ total ws
length-joined [] = refl
length-joined (w ∷ ws) = omega (sizes, length-joined ws)

map-length-append :
    (ws : List Bytes) (w : Bytes) → map length (ws ++ (w ∷ [])) ≡ map length ws ++ (length w ∷ [])
map-length-append [] w = refl
map-length-append (v ∷ ws) w = ap (λ l. length v ∷ l) (map-length-append ws w)

pub length-map-length : (ws : List Bytes) → length (map (length {A = ℕ}) ws) ≡ length ws
length-map-length [] = refl
length-map-length (w ∷ ws) = ap suc (length-map-length ws)

open_token-Represents :
    (mode : ParseState) (done : List Bytes) (t : Tokenizer)
    → Represents t mode done none
    → length done < max_command_args
    → let p = t.parsed in
      Represents
        (record t {
          parsed = record p {
            offsets = set p.offsets p.count t.storage_len;
            lengths = set p.lengths p.count 0;
          };
          token_active = true;
        })
        mode
        done
        (some [])
open_token-Represents mode done t rep room =
    let at : t.storage_len ≡ 0 + total done = omega (arith, rep.stored) in
    record {
      same_state = rep.same_state;
      same_active = refl;
      quoting = inr refl;
      counted = rep.counted;
      measured = rep.measured;
      fits = (omega (sizes, rep.fits.0), omega (sizes, rep.fits.1));
      stored = omega (sizes, rep.stored);
      storage_filled = rw (joined-append done [], append-nil (joined done)) rep.storage_filled;
      offsets_filled =
          rw (starts-append 0 done [], at)
            (Filled-set max_command_args t.parsed.offsets (starts 0 done) t.parsed.count
              (0 + total done) rep.offsets_filled (omega (arith, rep.counted, length-starts 0 done))
              (omega (arith, length-starts 0 done)));
      lengths_filled = Filled-forget max_command_args _ (map length done) 0 (
          Filled-set max_command_args t.parsed.lengths (map length done) t.parsed.count 0
            rep.lengths_filled (omega (arith, rep.counted, length-map-length done))
            (omega (arith, length-map-length done)));
    }

pub open_token-Follows :
    (mode : ParseState) (done : List Bytes) (current : Option Bytes) (t : Tokenizer)
    → Represents t mode done current
    → Follows (open_token (is_some current) t) (begin (reading mode done current))
unfolding open_token start_token
open_token-Follows mode done none t rep = elim (Bool-cases (leb max_command_args t.parsed.count)) [
  | inl full ↦ inr (rw full refl, λ fits. omega (sizes, rep.counted, leb→le _ _ full, fits.0))
  | inr room ↦
      inl (_, rw room refl, open_token-Represents mode done t rep (ground (arith, rep.counted)))
]
open_token-Follows mode done (some w) t rep = inl (t, refl, rep)

close_token-Represents :
    (done : List Bytes) (w : Bytes) (t : Tokenizer)
    → Represents t unquoted done (some w)
    → let p = t.parsed in
      Represents
        (record t {
          parsed = record p { lengths = set p.lengths p.count t.current_len; count = suc p.count };
          current_len = 0;
          token_active = false;
        })
        unquoted
        (done ++ (w ∷ []))
        none
close_token-Represents done w t rep = record {
  same_state = rep.same_state;
  same_active = refl;
  quoting = inl refl;
  counted = omega (sizes, rep.counted);
  measured = refl;
  fits = rep.fits;
  stored = rep.stored;
  storage_filled = rep.storage_filled;
  offsets_filled = rep.offsets_filled;
  lengths_filled =
      rw (map-length-append done w, rep.measured)
        (Filled-set max_command_args t.parsed.lengths (map length done) t.parsed.count (length w)
          rep.lengths_filled (omega (arith, rep.counted, length-map-length done))
          (omega (sizes, length-map-length done, rep.fits.0)));
}

pub close_token-Follows :
    (done : List Bytes) (current : Option Bytes) (t : Tokenizer)
    → Represents t unquoted done current
    → Follows (close_token (is_some current) t) (complete (reading unquoted done current))
unfolding close_token finish_token
close_token-Follows done none t rep = inl (t, refl, rep)
close_token-Follows done (some w) t rep =
    let room : leb max_command_args t.parsed.count ≡ false =
      lt→leb_false _ _ (omega (sizes, rep.counted, rep.fits.0)) in
    inl (_, rw room refl, close_token-Represents done w t rep)

push_byte-Represents :
    (mode : ParseState) (done : List Bytes) (w : Bytes) (byte : ℕ) (t : Tokenizer)
    → Represents t mode done (some w)
    → t.storage_len < line_capacity
    → let p = t.parsed in
      Represents
        (record t {
          parsed = record p { storage = set p.storage t.storage_len byte };
          storage_len = suc t.storage_len;
          current_len = suc t.current_len;
        })
        mode
        done
        (some (w ++ (byte ∷ [])))
push_byte-Represents mode done w byte t rep room = record {
  same_state = rep.same_state;
  same_active = rep.same_active;
  quoting = rep.quoting;
  counted = rep.counted;
  measured = omega (sizes, rep.measured);
  fits = (omega (sizes, rep.fits.0), omega (sizes, rep.fits.1, rep.stored));
  stored = omega (sizes, rep.stored);
  storage_filled =
      rw (joined-append done (w ++ (byte ∷ [])), ← append_assoc (joined done) w (byte ∷ []))
        (Filled-set line_capacity t.parsed.storage (joined done ++ w) t.storage_len byte
          (rw (joined-append done w) at rep.storage_filled)
          (omega (sizes, rep.stored, length-joined done))
          (omega (sizes, rep.stored, length-joined done)));
  offsets_filled =
      rw (starts-append 0 done (w ++ (byte ∷ [])))
        (rw (starts-append 0 done w) at rep.offsets_filled);
  lengths_filled = rep.lengths_filled;
}

-- A byte goes to the word that is being read.
pub push_byte-Follows :
    (mode : ParseState) (done : List Bytes) (w : Bytes) (byte : ℕ) (t : Tokenizer)
    → Represents t mode done (some w)
    → Follows (push_byte byte t) (extend byte (reading mode done (some w)))
unfolding push_byte push_token_byte
push_byte-Follows mode done w byte t rep = elim (Bool-cases (leb line_capacity t.storage_len)) [
  | inl full ↦ inr (rw full refl, λ fits. omega (sizes, rep.stored, leb→le _ _ full, fits.1))
  | inr room ↦
      inl (_, rw room refl, push_byte-Represents mode done w byte t rep (leb_false→lt _ _ room))
]
