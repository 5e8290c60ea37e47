-- ===== src/Lash/Segments/Kept.antt =====
-- What a quoted command leaves of the reference: its bytes are kept and nothing is cut
-- (user/lash/src/lib.rs).
use lazers.Base.{ℕ, false, List, [], ◌∷◌, ◌++◌, ◌≡◌, refl, sym, ap, ◌∙◌, inl, inr}
use lazers.Base.Tests.{◌==◌, Bool-cases}
use mathlib.Core.List.{append_assoc, append-nil}
use lazers.Base.Words.{Bytes}
use lazers.Base.Text.{is_nil}
use lazers.Base.Results.{ok}
use lazers.Lash.{ParseState, SegmentOperator, and, or, sequence, unquoted, single_quoted}
use lazers.Lash.Tokens.{escapes}
use lazers.Lash.Tokens.Quote.{quoted_byte, quoted, quote, command_line}
use lazers.Lash.Segments.{takes_two}
use lazers.Lash.Segments.Trim.{trim, trim_left, trim_right-last}
use lazers.Lash.Segments.Pieces.{Cutting, cut_one, cut_two, cut_bytes}

abbrev pub operator_text : SegmentOperator → Bytes
operator_text and = b'&' ∷ b'&' ∷ []
operator_text or = b'|' ∷ b'|' ∷ []
operator_text sequence = b';' ∷ []

abbrev pub padded : List Bytes → Bytes
padded ws = b' ' ∷ (command_line ws ++ (b' ' ∷ []))

unfoldable pub cutting : ParseState → List Bytes → List SegmentOperator → Bytes → Cutting
cutting mode texts operators current = record {
  mode = mode;
  texts = texts;
  operators = operators;
  current = current;
}

-- A byte that is neither a backslash nor the start of an operator of two is read alone.
pub cut_bytes-alone :
    (byte : ℕ) (rest : Bytes) (c d : Cutting)
    → escapes c.mode byte ≡ false
    → ((next : ℕ) → takes_two c.mode byte next ≡ false)
    → cut_one c.mode byte c ≡ ok d
    → cut_bytes (byte ∷ rest) c ≡ cut_bytes rest d
unfolding cut_bytes
cut_bytes-alone byte [] c d plain alone step = rw (plain, step) refl
cut_bytes-alone byte (next ∷ rest) c d plain alone step = rw (alone next, cut_bytes, step) refl

-- `bs` is kept as it stands, from `mode` to `next`, whatever follows.
abbrev Keeps : ParseState → ParseState → Bytes → Type 0
Keeps mode next bs =
    (rest : Bytes) (ts : List Bytes) (ops : List SegmentOperator) (c : Bytes)
    → cut_bytes (bs ++ rest) (cutting mode ts ops c)
      ≡ cut_bytes rest (cutting next ts ops (c ++ bs))

Keeps-append :
    (mode next last : ParseState) (xs ys : Bytes)
    → Keeps mode next xs
    → Keeps next last ys
    → Keeps mode last (xs ++ ys)
Keeps-append mode next last xs ys first then_those rest ts ops c =
    ap (λ bs. cut_bytes bs (cutting mode ts ops c)) (append_assoc xs ys rest)
    ∙ first (ys ++ rest) ts ops c
    ∙ then_those rest ts ops (c ++ xs)
    ∙ ap (λ l. cut_bytes rest (cutting last ts ops l)) (append_assoc c xs ys)

Keeps-quoted_byte : (b : ℕ) → Keeps single_quoted single_quoted (quoted_byte b)
unfolding escapes cut_one takes_two cutting
Keeps-quoted_byte b rest ts ops c = elim (Bool-cases (b == b'\'')) [
  | inl e ↦
      let close_it : cut_bytes (b'\'' ∷ b'\\' ∷ b'\'' ∷ b'\'' ∷ rest)
            (cutting single_quoted ts ops c)
          ≡ cut_bytes (b'\'' ∷ rest)
              (cutting unquoted ts ops ((c ++ (b'\'' ∷ [])) ++ (b'\\' ∷ b'\'' ∷ []))) =
        cut_bytes-alone b'\'' (b'\\' ∷ b'\'' ∷ b'\'' ∷ rest) (cutting single_quoted ts ops c) _ refl
          (λ next. refl) refl
        ∙ unfold cut_two cut_bytes in refl in
      let open_it : cut_bytes (b'\'' ∷ rest)
            (cutting unquoted ts ops ((c ++ (b'\'' ∷ [])) ++ (b'\\' ∷ b'\'' ∷ [])))
          ≡ cut_bytes rest (
              cutting single_quoted ts ops
                (((c ++ (b'\'' ∷ [])) ++ (b'\\' ∷ b'\'' ∷ [])) ++ (b'\'' ∷ []))) =
        cut_bytes-alone b'\'' rest _ _ refl (λ next. refl) refl in
      rw e (
        close_it
        ∙ open_it
        ∙ ap (λ l. cut_bytes rest (cutting single_quoted ts ops l))
            (ap (λ l. l ++ (b'\'' ∷ [])) (append_assoc c (b'\'' ∷ []) (b'\\' ∷ b'\'' ∷ []))
              ∙ append_assoc c (b'\'' ∷ b'\\' ∷ b'\'' ∷ []) (b'\'' ∷ [])))
  | inr e ↦
      rw e
        (cut_bytes-alone b rest (cutting single_quoted ts ops c) _ refl (λ next. refl) (rw e refl))
]

Keeps-quoted : (w : Bytes) → Keeps single_quoted single_quoted (quoted w)
unfolding quoted
Keeps-quoted [] =
    λ rest ts ops c. ap (λ l. cut_bytes rest (cutting single_quoted ts ops l)) (sym (append-nil c))
Keeps-quoted (b ∷ w) =
    Keeps-append _ _ _ (quoted_byte b) (quoted w) (Keeps-quoted_byte b) (Keeps-quoted w)

Keeps-blank : Keeps unquoted unquoted (b' ' ∷ [])
unfolding escapes cut_one takes_two cutting
Keeps-blank rest ts ops c =
    cut_bytes-alone b' ' rest (cutting unquoted ts ops c) _ refl (λ next. refl) refl

Keeps-open : Keeps unquoted single_quoted (b'\'' ∷ [])
unfolding escapes cut_one takes_two cutting
Keeps-open rest ts ops c =
    cut_bytes-alone b'\'' rest (cutting unquoted ts ops c) _ refl (λ next. refl) refl

Keeps-close : Keeps single_quoted unquoted (b'\'' ∷ [])
unfolding escapes cut_one takes_two cutting
Keeps-close rest ts ops c =
    cut_bytes-alone b'\'' rest (cutting single_quoted ts ops c) _ refl (λ next. refl) refl

Keeps-quote : (w : Bytes) → Keeps unquoted unquoted (quote w)
Keeps-quote w =
    Keeps-append _ _ _ (b'\'' ∷ []) (quoted w ++ (b'\'' ∷ [])) Keeps-open
      (Keeps-append _ _ _ (quoted w) (b'\'' ∷ []) (Keeps-quoted w) Keeps-close)

Keeps-command_line : (ws : List Bytes) → Keeps unquoted unquoted (command_line ws)
unfolding command_line
Keeps-command_line [] =
    λ rest ts ops c. ap (λ l. cut_bytes rest (cutting unquoted ts ops l)) (sym (append-nil c))
Keeps-command_line (w ∷ []) = Keeps-quote w
Keeps-command_line (w ∷ v ∷ ws) =
    Keeps-append _ _ _ (quote w) (b' ' ∷ command_line (v ∷ ws)) (Keeps-quote w) (
      Keeps-append _ _ _ (b' ' ∷ []) (command_line (v ∷ ws)) Keeps-blank
        (Keeps-command_line (v ∷ ws)))

pub Keeps-padded : (ws : List Bytes) → Keeps unquoted unquoted (padded ws)
Keeps-padded ws =
    Keeps-append _ _ _ (b' ' ∷ []) (command_line ws ++ (b' ' ∷ [])) Keeps-blank
      (Keeps-append _ _ _ (command_line ws) (b' ' ∷ []) (Keeps-command_line ws) Keeps-blank)

-- A command line of words starts and ends with a quote.
command_line-ends :
    (w : Bytes) (ws : List Bytes)
    → (mid : Bytes) × (command_line (w ∷ ws) ≡ (b'\'' ∷ mid) ++ (b'\'' ∷ []))
unfolding command_line
command_line-ends w [] = (quoted w, refl)
command_line-ends w (v ∷ ws) =
    let (mid, e) = command_line-ends v ws in
    (
      (quoted w ++ (b'\'' ∷ [])) ++ (b' ' ∷ b'\'' ∷ mid),
      ap (λ l. quote w ++ (b' ' ∷ l)) e
          ∙ sym (append_assoc (quote w) (b' ' ∷ b'\'' ∷ mid) (b'\'' ∷ [])),
    )

pub trim-padded : (w : Bytes) (ws : List Bytes) → trim (padded (w ∷ ws)) ≡ command_line (w ∷ ws)
unfolding trim_left
trim-padded w ws =
    let (mid, e) = command_line-ends w ws in
    rw e
      (trim_right-last ((b'\'' ∷ mid) ++ (b'\'' ∷ [])) b' ' ∙ trim_right-last (b'\'' ∷ mid) b'\'')

pub command_line-is_nil : (w : Bytes) (ws : List Bytes) → is_nil (command_line (w ∷ ws)) ≡ false
command_line-is_nil w ws = let (mid, e) = command_line-ends w ws in rw e refl
