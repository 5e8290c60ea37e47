-- ===== src/Lash/Shell/Chain.antt =====
-- A line is carried out as the chain that it stands for (user/lash/src/shell.rs).
use lazers.Base.{ℕ, zero, suc, ◌-◌, ◌≤◌, false, some, List, [], ◌∷◌, ◌≡◌, refl, ap, ◌∙◌, arith}
use lazers.Base.Tests.{if◌then◌else◌, ◌==◌}
use lazers.Base.Lists.{length}
use lazers.Base.Words.{Bytes}
use lazers.Base.Results.{Result, ok, err, and_then-eq-some}
use lazers.Lash.{SegmentOperator, max_chain_segments}
use lazers.Lash.Segments.{SegmentScan, segment, operator_before}
use lazers.Lash.Segments.Pieces.{Chain, pieces}
use lazers.Lash.Segments.Read.{segments_from, operators_from, segment_texts, segment_operators}
use lazers.Lash.Segments.Whole.{scan_segments-pieces, scanned, refused, too_many, too_many_first}
use lazers.Lash.Segments.Script.{Script, WordedScript, write, chain_of, pieces-write, length-lines}
use lazers.Lash.System.{System, Program, return, ◌>>=◌, resume}
use lazers.Lash.Commands.{ExecutionMode}
use lazers.Lash.Shell.{allows, should_run, execute_segment, execute_from, execute_line}

module _ {W : Type 0} (sys : System W) (mode : ExecutionMode) where
  -- The commands behind the first one, each with the operator before it.
  abbrev pub evaluate_rest : List SegmentOperator → List Bytes → ℕ → Program W ℕ
  evaluate_rest (operator ∷ operators) (command ∷ commands) status =
      (if allows operator status then execute_segment sys command mode else return status)
      >>= evaluate_rest operators commands
  evaluate_rest _ _ status = return status

  -- A chain from its commands alone: the first one is carried out, and each other one if the status so
  -- far allows it.
  abbrev pub evaluate : Chain → Program W ℕ
  evaluate chain = evaluate_commands chain.commands chain.links
    where
      evaluate_commands : List Bytes → List SegmentOperator → Program W ℕ
      evaluate_commands [] links = return 0
      evaluate_commands (command ∷ commands) links =
          execute_segment sys command mode >>= evaluate_rest links commands

  segments_from-first :
      (s : SegmentScan) (line : Bytes) (n i : ℕ) (ts : List Bytes)
      → segments_from (suc n) i s line ≡ some ts
      → (t : Bytes) × (rest : List Bytes) × (segment s line i ≡ some (some t))
        × (segments_from n (suc i) s line ≡ some rest)
        × (ts ≡ t ∷ rest)
  unfolding segments_from
  segments_from-first s line n i ts h =
      let (there, a, behind) = and_then-eq-some (segment s line i) _ h in
      let (t, b, after) = and_then-eq-some there _ behind in
      let (rest, c, last) = and_then-eq-some (segments_from n (suc i) s line) _ after in
      (t, rest, a ∙ ap some b, c, cc last)

  operators_from-first :
      (s : SegmentScan) (n i : ℕ) (ops : List SegmentOperator)
      → operators_from (suc n) i s ≡ some ops
      → (o : SegmentOperator) × (rest : List SegmentOperator) × (operator_before s i ≡ some o)
        × (operators_from n (suc i) s ≡ some rest)
        × (ops ≡ o ∷ rest)
  unfolding operators_from
  operators_from-first s n i ops h =
      let (o, a, behind) = and_then-eq-some (operator_before s i) _ h in
      let (rest, b, last) = and_then-eq-some (operators_from n (suc i) s) _ behind in
      (o, rest, a, b, cc last)

  -- Programs that go on alike from every result come to the same end.
  resume-same :
      (next next' : ℕ → Program W ℕ) (x : W × Result ℕ ℕ)
      → ((a : ℕ) (w : W) → next a w ≡ next' a w)
      → resume next x ≡ resume next' x
  resume-same next next' (w, ok a) alike = alike a w
  resume-same next next' (w, err code) alike = refl

  should_run-next :
      (s : SegmentScan) (i : ℕ) (o : SegmentOperator) (status : ℕ) (w : W)
      → operator_before s (suc i) ≡ some o
      → should_run sys s (suc i) status w ≡ (w, ok (allows o status))
  should_run-next s i o status w before =
      let later : (suc i == 0) ≡ false = ground arith in rw (later, before) refl

  execute_from-rest :
      (s : SegmentScan) (line : Bytes) (n i : ℕ) (ts : List Bytes) (ops : List SegmentOperator)
      (status : ℕ) (w : W)
      → segments_from n (suc i) s line ≡ some ts
      → operators_from n (suc i) s ≡ some ops
      → execute_from sys n (suc i) s line mode status w ≡ evaluate_rest ops ts status w
  unfolding execute_from
  execute_from-rest s line zero i ts ops status w texts operators =
      let no_text : ts ≡ [] = unfold segments_from in cc texts in
      let no_operator : ops ≡ [] = unfold operators_from in cc operators in
      rw (no_text, no_operator) refl
  execute_from-rest s line (suc n) i ts ops status w texts operators =
      let (t, ts', found, texts', e) = segments_from-first s line n (suc i) ts texts in
      let (o, ops', before, operators', f) = operators_from-first s n (suc i) ops operators in
      rw (e, f, should_run-next s i o status w before, found)
        (resume-same _ _ ((if allows o status then execute_segment sys t mode else return status) w)
          (λ a w'. execute_from-rest s line n (suc i) ts' ops' a w' texts' operators'))

  execute_from-all :
      (s : SegmentScan) (line : Bytes) (n : ℕ) (ts : List Bytes) (ops : List SegmentOperator)
      (w : W)
      → segments_from n 0 s line ≡ some ts
      → operators_from (n - 1) 1 s ≡ some ops
      → execute_from sys n 0 s line mode 0 w ≡ evaluate (record { commands = ts; links = ops }) w
  unfolding execute_from
  execute_from-all s line zero ts ops w texts operators =
      let no_text : ts ≡ [] = unfold segments_from in cc texts in rw no_text refl
  execute_from-all s line (suc n) ts ops w texts operators =
      let (t, ts', found, texts', e) = segments_from-first s line n 0 ts texts in
      let one_less : suc n - 1 ≡ n = omega arith in
      rw (e, found)
        (resume-same _ _ (execute_segment sys t mode w)
          (λ a w'. execute_from-rest s line n 0 ts' ops a w' texts' (rw one_less at operators)))

  pub execute_line-pieces :
      (line : Bytes) (chain : Chain) (w : W)
      → pieces line ≡ ok chain
      → length chain.commands ≤ max_chain_segments
      → execute_line sys line mode w ≡ evaluate chain w
  unfolding execute_line segment_texts segment_operators
  execute_line-pieces line chain w cut few = elim (scan_segments-pieces line) [
    | scanned s ch e f _ texts operators ↦
        let same : ch ≡ chain = cc (f, cut) in
        rw e (
          execute_from-all s line s.count ch.commands ch.links w texts operators
          ∙ ap (λ c. evaluate c w) same)
    | refused bad e f ↦ absurd (cc (f, cut))
    | too_many ch e f many ↦
        let same : ch ≡ chain = cc (f, cut) in
        absurd (omega (arith, many, few, ap (λ c. length c.commands) same))
    | too_many_first bad e f ↦ absurd (cc (f, cut))
  ]

  -- On any system, a chain of up to 32 quoted commands, each of one word at least, that is written out as
  -- a line is executed as that chain: no byte of a word is taken for an operator.
  pub execute_line-write :
      (script : Script) (w : W)
      → WordedScript script
      → suc (length script.others) ≤ max_chain_segments
      → execute_line sys (write script) mode w ≡ evaluate (chain_of script) w
  execute_line-write script w worded few =
      execute_line-pieces (write script) (chain_of script) w (pieces-write script worded)
        (omega (arith, few, length-lines script.others))
