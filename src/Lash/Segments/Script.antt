-- ===== src/Lash/Segments/Script.antt =====
-- Chains of quoted commands, written out as a line that user/lash/src/lib.rs cuts into those commands.
use lazers.Base.{suc, ◌≤◌, false, some, List, [], ◌∷◌, ◌++◌, ◌≡◌, refl, sym, ap, ◌∙◌, arith}
use mathlib.Core.List.{append_assoc, append-nil}
use lazers.Base.Lists.{length}
use lazers.Base.Words.{Bytes}
use lazers.Base.Text.{is_nil}
use lazers.Base.Results.{ok, ◌>>=◌}
use lazers.Lash.{SegmentOperator, and, or, sequence, unquoted, max_chain_segments}
use lazers.Lash.Tokens.{escapes}
use lazers.Lash.Tokens.Quote.{command_line}
use lazers.Lash.Segments.{SegmentScan, scan_segments, takes_two}
use lazers.Lash.Segments.Trim.{trim}
use lazers.Lash.Segments.Pieces.{
  chained, Cutting, Chain, cut, cut_one, cut_two, cut_bytes, cut_end, pieces,
}
use lazers.Lash.Segments.Read.{segment_texts, segment_operators}
use lazers.Lash.Segments.Whole.{scan_segments-pieces, scanned, refused, too_many, too_many_first}
use lazers.Lash.Segments.Kept.{
  operator_text, padded, cutting, cut_bytes-alone, Keeps-padded, trim-padded, command_line-is_nil,
}

-- A first command, and the others each with the operator before it; a command is its words.
pub record Script : Type 0 where
  pub first : List Bytes
  pub others : List (SegmentOperator × List Bytes)

abbrev pub write_others : List (SegmentOperator × List Bytes) → Bytes
write_others [] = []
write_others ((operator, ws) ∷ more) = operator_text operator ++ (padded ws ++ write_others more)

abbrev pub write : Script → Bytes
write script = padded script.first ++ write_others script.others

cut_bytes-operator :
    (operator : SegmentOperator) (rest : Bytes) (ts : List Bytes) (ops : List SegmentOperator)
    (c : Bytes)
    → is_nil (trim c) ≡ false
    → cut_bytes (operator_text operator ++ rest) (cutting unquoted ts ops c)
      ≡ cut_bytes rest (cutting unquoted (ts ++ (trim c ∷ [])) (ops ++ (operator ∷ [])) [])
unfolding cut_bytes cut_two cut takes_two cutting
cut_bytes-operator and rest ts ops c some_text = rw some_text refl
cut_bytes-operator or rest ts ops c some_text = rw some_text refl
cut_bytes-operator sequence rest ts ops c some_text =
    unfold cut_one escapes in
    cut_bytes-alone b';' rest (cutting unquoted ts ops c) _ refl (λ next. refl) (rw some_text refl)

-- Every command has a word.
abbrev pub Worded : List (SegmentOperator × List Bytes) → Type 0
Worded [] = Unit
Worded ((operator, ws) ∷ more) = (is_nil ws ≡ false) × Worded more

abbrev pub lines : List (SegmentOperator × List Bytes) → List Bytes
lines [] = []
lines ((operator, ws) ∷ more) = command_line ws ∷ lines more

abbrev pub links_of : List (SegmentOperator × List Bytes) → List SegmentOperator
links_of [] = []
links_of ((operator, ws) ∷ more) = operator ∷ links_of more

chained-some :
    (text : Bytes) (c : Cutting)
    → is_nil text ≡ false
    → chained text c ≡ ok (record { commands = c.texts ++ (text ∷ []); links = c.operators })
chained-some [] c some_text = absurd (ground arith)
chained-some (b ∷ bs) c some_text = refl

last_command :
    (w : Bytes) (ws : List Bytes) (ts : List Bytes) (ops : List SegmentOperator)
    → (cut_bytes [] (cutting unquoted ts ops (padded (w ∷ ws))) >>= λ c. cut_end c.mode c)
      ≡ ok (record { commands = ts ++ (command_line (w ∷ ws) ∷ []); links = ops ++ [] })
unfolding cut_bytes cut_end cutting
last_command w ws ts ops =
    ap (λ t. chained t (cutting unquoted ts ops (padded (w ∷ ws)))) (trim-padded w ws)
    ∙ chained-some (command_line (w ∷ ws)) _ (command_line-is_nil w ws)
    ∙ ap (λ ls. ok (record { commands = ts ++ (command_line (w ∷ ws) ∷ []); links = ls }))
        (sym (append-nil ops))

cut_bytes-write_others :
    (w : Bytes) (ws : List Bytes) (others : List (SegmentOperator × List Bytes)) (ts : List Bytes)
    (ops : List SegmentOperator)
    → Worded others
    → (cut_bytes (padded (w ∷ ws) ++ write_others others) (cutting unquoted ts ops []) >>= λ c.
        cut_end c.mode c)
      ≡ ok (record {
        commands = ts ++ (command_line (w ∷ ws) ∷ lines others);
        links = ops ++ links_of others;
      })
cut_bytes-write_others w ws [] ts ops worded =
    ap (λ m. m >>= λ c. cut_end c.mode c) (Keeps-padded (w ∷ ws) [] ts ops [])
    ∙ last_command w ws ts ops
cut_bytes-write_others w ws ((operator, []) ∷ more) ts ops worded =
    absurd (ground (arith, worded.0))
cut_bytes-write_others w ws ((operator, v ∷ vs) ∷ more) ts ops worded =
    let next_commands = write_others ((operator, v ∷ vs) ∷ more) in
    ap (λ m. m >>= λ c. cut_end c.mode c)
      (Keeps-padded (w ∷ ws) next_commands ts ops []
        ∙ cut_bytes-operator operator (padded (v ∷ vs) ++ write_others more) ts ops
            (padded (w ∷ ws)) (ap is_nil (trim-padded w ws) ∙ command_line-is_nil w ws)
        ∙ ap
            (λ t.
              cut_bytes (padded (v ∷ vs) ++ write_others more)
                (cutting unquoted (ts ++ (t ∷ [])) (ops ++ (operator ∷ [])) []))
            (trim-padded w ws))
    ∙ cut_bytes-write_others v vs more (ts ++ (command_line (w ∷ ws) ∷ [])) (ops ++ (operator ∷ []))
        worded.1
    ∙ ap (λ cs. ok (record { commands = cs; links = (ops ++ (operator ∷ [])) ++ links_of more }))
        (append_assoc ts (command_line (w ∷ ws) ∷ []) (command_line (v ∷ vs) ∷ lines more))
    ∙ ap
        (λ ls. ok (record {
          commands = ts ++ (command_line (w ∷ ws) ∷ command_line (v ∷ vs) ∷ lines more);
          links = ls;
        }))
        (append_assoc ops (operator ∷ []) (links_of more))

abbrev pub WordedScript : Script → Type 0
WordedScript script = (is_nil script.first ≡ false) × Worded script.others

-- The chain that is written.
abbrev pub chain_of : Script → Chain
chain_of script = record {
  commands = command_line script.first ∷ lines script.others;
  links = links_of script.others;
}

pub length-lines :
    (others : List (SegmentOperator × List Bytes)) → length (lines others) ≡ length others
length-lines [] = refl
length-lines ((operator, ws) ∷ more) = ap suc (length-lines more)

pieces-padded :
    (first : List Bytes) (others : List (SegmentOperator × List Bytes))
    → is_nil first ≡ false
    → Worded others
    → pieces (padded first ++ write_others others)
      ≡ ok (record { commands = command_line first ∷ lines others; links = links_of others })
unfolding pieces
pieces-padded [] others some_word worded = absurd (ground arith)
pieces-padded (w ∷ ws) others some_word worded =
    unfold cutting in cut_bytes-write_others w ws others [] [] worded

pub pieces-write :
    (script : Script) → WordedScript script → pieces (write script) ≡ ok (chain_of script)
pieces-write script worded = pieces-padded script.first script.others worded.0 worded.1

-- A line of up to 32 quoted commands, each of one word at least, is cut into those commands: the scan
-- succeeds, its segments are the texts of the commands in their order, and the operators between them
-- are those that were written, whatever bytes the words have.
pub scan_segments-write :
    (script : Script)
    → WordedScript script
    → suc (length script.others) ≤ max_chain_segments
    → (s : SegmentScan) × (scan_segments (write script) ≡ ok s)
      × (segment_texts s (write script) ≡ some (command_line script.first ∷ lines script.others))
      × (segment_operators s ≡ some (links_of script.others))
scan_segments-write script worded few = elim (scan_segments-pieces (write script)) [
  | scanned s ch e f _ texts operators ↦
      let same : ch ≡ chain_of script = cc (f, pieces-write script worded) in
      (s, e, texts ∙ ap (λ c. some c.commands) same, operators ∙ ap (λ c. some c.links) same)
  | refused bad e f ↦ absurd (cc (f, pieces-write script worded))
  | too_many ch e f many ↦
      let same : ch ≡ chain_of script = cc (f, pieces-write script worded) in
      absurd
        (omega (arith, many, few, ap (λ c. length c.commands) same, length-lines script.others))
  | too_many_first bad e f ↦ absurd (cc (f, pieces-write script worded))
]
