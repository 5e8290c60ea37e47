-- ===== src/Keyboard/Shift.antt =====
-- The shift state of the keyboard, and that extended scan codes have no effect.
use lazers.Base.{
  ℕ, ◌<◌, Bool, true, false, ◌&&◌, ◌||◌, Option, none, some, List, [], ◌∷◌, ◌≡◌, refl, sym, ◌∙◌,
  inl, inr, arith,
}
use lazers.Base.Tests.{if◌then◌else◌, ◌==◌, Bool-cases}
use lazers.Base.Tables.{all_below, all_below_sound, bool_eq}
use lazers.KeyCode.{KeyEvent}
use lazers.Keyboard.{
  KeyboardState, decode_set1, note_left, note_right, note_event, shift_active, process_byte,
  process_bytes,
}
use mathlib.Core.Path.{subst}

-- The bytes that count: an extended prefix, and the byte behind a prefix, are dropped. The flag says
-- that a prefix came last.
abbrev pub effective : Bool → List ℕ → List ℕ
effective prefix [] = []
effective prefix (b ∷ bs) =
    let later = effective (b == 0xe0) bs in if b == 0xe0 || prefix then later else b ∷ later

-- Whether a key is held after these bytes, by the last of its make and break codes.
abbrev pub held : ℕ → ℕ → Bool → List ℕ → Bool
held make break was [] = was
held make break was (b ∷ bs) =
    held make break (if b == make then true else if b == break then false else was) bs

abbrev pub AllBytes : List ℕ → Type 0
AllBytes [] = Unit
AllBytes (b ∷ bs) = (b < 256) × AllBytes bs

abbrev left_after : Option KeyEvent → Bool → Bool
left_after none was = was
left_after (some e) was = note_left e.key e.state was

abbrev right_after : Option KeyEvent → Bool → Bool
right_after none was = was
right_after (some e) was = note_right e.key e.state was

abbrev held_row : Bool → Bool → ℕ → Bool
held_row shift was b =
    bool_eq (left_after (decode_set1 shift b) was) (held 0x2a 0xaa was (b ∷ []))
    && bool_eq (right_after (decode_set1 shift b) was) (held 0x36 0xb6 was (b ∷ []))

held_table :
    (all_below (held_row true true) 256 ≡ true)
    × (all_below (held_row true false) 256 ≡ true)
    × (all_below (held_row false true) 256 ≡ true)
    × (all_below (held_row false false) 256 ≡ true)
unfolding all_below decode_set1
held_table = (refl, refl, refl, refl)

held_row-true : (shift was : Bool) (b : ℕ) → b < 256 → held_row shift was b ≡ true
held_row-true true true b h = all_below_sound (held_row true true) 256 b h held_table.0
held_row-true true false b h = all_below_sound (held_row true false) 256 b h held_table.1
held_row-true false true b h = all_below_sound (held_row false true) 256 b h held_table.2
held_row-true false false b h = all_below_sound (held_row false false) 256 b h held_table.3

note_event-fields :
    (o : Option KeyEvent) (k : KeyboardState)
    → ((note_event o k).left_shift_active ≡ left_after o k.left_shift_active)
      × ((note_event o k).right_shift_active ≡ right_after o k.right_shift_active)
      × ((note_event o k).extended_prefix ≡ k.extended_prefix)
note_event-fields none k = (refl, refl, refl)
note_event-fields (some e) k = (refl, refl, refl)

bool_eq-true : (a b : Bool) → bool_eq a b ≡ true → a ≡ b
bool_eq-true a b h = ground arith

&&-true : (a b : Bool) → (a && b) ≡ true → (a ≡ true) × (b ≡ true)
&&-true a b h = ground arith

process_byte-plain :
    (b : ℕ) (k : KeyboardState)
    → (b == 0xe0) ≡ false
    → k.extended_prefix ≡ false
    → process_byte b k ≡ note_event (decode_set1 (shift_active k) b) k
unfolding process_byte
process_byte-plain b k plain p = rw (plain, p)

-- One byte that counts.
plain_byte :
    (b : ℕ) (k : KeyboardState)
    → b < 256
    → (b == 0xe0) ≡ false
    → k.extended_prefix ≡ false
    → let k' = process_byte b k in
      (k'.left_shift_active ≡ held 0x2a 0xaa k.left_shift_active (b ∷ []))
      × (k'.right_shift_active ≡ held 0x36 0xb6 k.right_shift_active (b ∷ []))
      × (k'.extended_prefix ≡ false)
plain_byte b k h plain p =
    let o = decode_set1 (shift_active k) b in
    let f = note_event-fields o k in
    let e : process_byte b k ≡ note_event o k = process_byte-plain b k plain p in
    let l = &&-true _ _ (held_row-true (shift_active k) k.left_shift_active b h) in
    let r = &&-true _ _ (held_row-true (shift_active k) k.right_shift_active b h) in
    rw e (f.0 ∙ bool_eq-true _ _ l.0, f.1 ∙ bool_eq-true _ _ r.1, f.2 ∙ p)

dropped_byte :
    (b : ℕ) (k : KeyboardState)
    → (b == 0xe0 || k.extended_prefix) ≡ true
    → process_byte b k ≡ record k { extended_prefix = (b == 0xe0) }
unfolding process_byte
dropped_byte b k h = elim (Bool-cases (b == 0xe0)) [
  | inl prefix ↦ rw prefix
  | inr other ↦ let p : k.extended_prefix ≡ true = rw other at h in rw (other, p)
]

process_bytes-cons :
    (b : ℕ) (bs : List ℕ) (k : KeyboardState)
    → process_bytes (b ∷ bs) k ≡ process_bytes bs (process_byte b k)
unfolding process_bytes
process_bytes-cons b bs k = refl

||-false : (a b : Bool) → (a || b) ≡ false → a ≡ false
||-false a b h = ground arith

no_prefix :
    (k : KeyboardState) → k.extended_prefix ≡ false → record k { extended_prefix = false } ≡ k
no_prefix k p = λ i. record k { extended_prefix = sym p i }

plain_prefix :
    (b : ℕ) (k : KeyboardState)
    → (b == 0xe0) ≡ false
    → k.extended_prefix ≡ false
    → (process_byte b k).extended_prefix ≡ false
plain_prefix b k plain p =
    rw (process_byte-plain b k plain p)
      ((note_event-fields (decode_set1 (shift_active k) b) k).2 ∙ p)

-- After any bytes from the controller each shift key is held exactly if the last of its make and
-- break codes among the bytes that count was the make code.
pub shift_keys_held :
    (bs : List ℕ) (k : KeyboardState)
    → AllBytes bs
    → let k' = process_bytes bs k in
      let counted = effective k.extended_prefix bs in
      (k'.left_shift_active ≡ held 0x2a 0xaa k.left_shift_active counted)
      × (k'.right_shift_active ≡ held 0x36 0xb6 k.right_shift_active counted)
shift_keys_held [] k a = unfold process_bytes in (refl, refl)
shift_keys_held (b ∷ bs) k (a, rest) = elim (Bool-cases (b == 0xe0 || k.extended_prefix)) [
  | inl dropped ↦
      rw (dropped, process_bytes-cons b bs k, dropped_byte b k dropped)
        (shift_keys_held bs (record k { extended_prefix = (b == 0xe0) }) rest)
  | inr counts ↦
      let plain : (b == 0xe0) ≡ false = ||-false _ _ counts in
      let p : k.extended_prefix ≡ false = rw plain at counts in
      let s = plain_byte b k a plain p in
      let k' = process_byte b k in
      let ih = shift_keys_held bs k' rest in
      rw (counts, plain, process_bytes-cons b bs k, ← s.0, ← s.1)
        (subst
          (λ e.
            ((process_bytes bs k').left_shift_active
              ≡ held 0x2a 0xaa k'.left_shift_active (effective e bs))
            × ((process_bytes bs k').right_shift_active
                ≡ held 0x36 0xb6 k'.right_shift_active (effective e bs)))
          s.2 ih)
]

-- Bytes of extended scan codes have no effect but for a prefix that is left pending: otherwise the
-- state is that after the bytes that count.
pub process_bytes-effective :
    (bs : List ℕ) (k : KeyboardState)
    → let k' = process_bytes bs k in
      record k' { extended_prefix = false }
      ≡ process_bytes (effective k.extended_prefix bs) (record k { extended_prefix = false })
process_bytes-effective [] k = unfold process_bytes in refl
process_bytes-effective (b ∷ bs) k = elim (Bool-cases (b == 0xe0 || k.extended_prefix)) [
  | inl dropped ↦
      rw (dropped, process_bytes-cons b bs k, dropped_byte b k dropped)
        (process_bytes-effective bs (record k { extended_prefix = (b == 0xe0) }))
  | inr counts ↦
      let plain : (b == 0xe0) ≡ false = ||-false _ _ counts in
      let p : k.extended_prefix ≡ false = rw plain at counts in
      let k' = process_byte b k in
      let p' : k'.extended_prefix ≡ false = plain_prefix b k plain p in
      let ih = process_bytes-effective bs k' in
      rw
        (
          counts,
          plain,
          process_bytes-cons b bs k,
          no_prefix k p,
          process_bytes-cons b (effective false bs) k,
        )
        (ih ∙ rw (p', no_prefix k' p'))
]
