-- ===== src/Fat/Names/RoundTrip.antt =====
-- A component that has a short name is shown as it is, in capitals (kernel/kernel/src/storage/fat32.rs).
use lazers.Base.{
  ℕ, zero, suc, ◌-◌, ◌≤◌, false, ◌||◌, List, [], ◌∷◌, ◌++◌, map, ◌≡◌, refl, sym, ap, ◌∙◌, inl, inr,
  arith,
}
use lazers.Base.Tests.{ltb, ◌==◌, Bool-cases}
use lazers.Base.Lists.{length, drop, length-append}
use lazers.Base.Words.{Bytes}
use lazers.Base.Results.{ok}
use lazers.Base.Lists.{take-append, drop-append, take, replicate, length-replicate}
use lazers.Base.Text.{codes, contains, is_nil}
use lazers.Base.Results.{>>=-eq-ok}
use lazers.Path.{onto_first}
use mathlib.Core.List.{map-append, append-nil}
use lazers.Fat.Names.{
  split_dots, is_lower, is_digit_or_upper, upper, normalize_fat_byte, normalize_bytes, padded,
  field, short_name, make_short_name, without_spaces, dotted, display_short_name,
}

join_dots : List Bytes → Bytes
join_dots [] = []
join_dots (part ∷ []) = part
join_dots (part ∷ next ∷ parts) = part ++ (b'.' ∷ join_dots (next ∷ parts))

join_dots-onto_first :
    (b : ℕ) (parts : List Bytes) → join_dots (onto_first b parts) ≡ b ∷ join_dots parts
unfolding join_dots
join_dots-onto_first b [] = refl
join_dots-onto_first b (part ∷ []) = refl
join_dots-onto_first b (part ∷ next ∷ parts) = refl

split_dots-some : (c : Bytes) → is_nil (split_dots c) ≡ false
unfolding split_dots
split_dots-some [] = refl
split_dots-some (b ∷ bs) = elim (Bool-cases (b == b'.')) [
  | inl e ↦ rw e refl
  | inr e ↦ rw e (onto_first-some (split_dots bs))
]
  where
    onto_first-some : (parts : List Bytes) → is_nil (onto_first b parts) ≡ false
    onto_first-some [] = refl
    onto_first-some (part ∷ parts) = refl

join_dots-first :
    (parts : List Bytes) → is_nil parts ≡ false → join_dots ([] ∷ parts) ≡ b'.' ∷ join_dots parts
unfolding join_dots
join_dots-first [] some_part = absurd (ground arith)
join_dots-first (part ∷ parts) some_part = refl

join_dots-split_dots : (c : Bytes) → join_dots (split_dots c) ≡ c
unfolding split_dots join_dots
join_dots-split_dots [] = refl
join_dots-split_dots (b ∷ bs) = elim (Bool-cases (b == b'.')) [
  | inl e ↦
      let dot : b ≡ b'.' = ground (arith, e) in
      rw e (
        join_dots-first (split_dots bs) (split_dots-some bs)
        ∙ ap (λ l. b'.' ∷ l) (join_dots-split_dots bs)
        ∙ ap (λ x. x ∷ bs) (sym dot))
  | inr e ↦
      rw e (join_dots-onto_first b (split_dots bs) ∙ ap (λ l. b ∷ l) (join_dots-split_dots bs))
]

normalize_fat_byte-upper :
    (b out : ℕ) → normalize_fat_byte b ≡ ok out → (out ≡ upper b) × ((out == b' ') ≡ false)
unfolding normalize_fat_byte contains
normalize_fat_byte-upper b out h = elim (Bool-cases (is_digit_or_upper b || is_lower b)) [
  | inl e ↦
      let same : upper b ≡ out = cc (rw (e, normalize_fat_byte) at h) in
      (sym same, ground (arith, e, same))
  | inr e ↦ elim (Bool-cases (contains b (codes "$%'-_@~`!(){}^#&"))) [
    | inl f ↦
        let same : b ≡ out = cc (rw (e, f, normalize_fat_byte) at h) in
        (ground (arith, e, f, same), ground (arith, f, same))
    | inr f ↦ absurd (cc (rw (e, f, normalize_fat_byte) at h))
  ]
]

normalize_bytes-upper :
    (bs out : Bytes)
    → normalize_bytes bs ≡ ok out
    → (out ≡ map upper bs) × (contains b' ' out ≡ false)
unfolding normalize_bytes contains
normalize_bytes-upper [] out h =
    let none_left : [] ≡ out = cc h in (sym none_left, ap (contains b' ') (sym none_left))
normalize_bytes-upper (b ∷ bs) out h =
    let (first, one, behind) = >>=-eq-ok (normalize_fat_byte b) _ h in
    let (rest, others, last) = >>=-eq-ok (normalize_bytes bs) _ behind in
    let same : first ∷ rest ≡ out = cc last in
    let (is_upper, no_space) = normalize_fat_byte-upper b first one in
    let (are_upper, no_spaces) = normalize_bytes-upper bs rest others in
    (
      sym same ∙ ap (λ x. x ∷ rest) is_upper ∙ ap (λ l. upper b ∷ l) are_upper,
      ap (contains b' ') (sym same) ∙ rw (no_space, no_spaces) refl,
    )

without_spaces-replicate : (n : ℕ) → without_spaces (replicate n b' ') ≡ []
unfolding without_spaces
without_spaces-replicate zero = refl
without_spaces-replicate (suc n) = rw (without_spaces-replicate n) refl

without_spaces-padded :
    (bs : Bytes) (n : ℕ) → contains b' ' bs ≡ false → without_spaces (bs ++ replicate n b' ') ≡ bs
unfolding without_spaces contains
without_spaces-padded [] n plain = without_spaces-replicate n
without_spaces-padded (b ∷ bs) n plain =
    let here : (b == b' ') ≡ false = ground (arith, plain) in
    rw (without_spaces-padded bs n (ground (arith, plain)), here)
      (elim (Bool-cases (is_nil bs)) [ inl e ↦ rw e refl | inr e ↦ rw e refl ])

field-shown :
    (n : ℕ) (part out : Bytes)
    → field n part ≡ ok out
    → (length out ≡ n) × (without_spaces out ≡ map upper part) × (is_nil part ≡ false)
field-shown n part out h = elim (Bool-cases (is_nil part || ltb n (length part))) [
  | inl e ↦ absurd (cc (rw (e, field) at h))
  | inr e ↦
      let (bs, normal, last) = >>=-eq-ok (normalize_bytes part) _ (rw (e, field) at h) in
      let same : padded n bs ≡ out = cc last in
      let (are_upper, plain) = normalize_bytes-upper part bs normal in
      (
        ap length (sym same)
            ∙ omega (
              arith,
              length-append bs (replicate (n - length bs) b' '),
              length-replicate {A = ℕ} (n - length bs) b' ',
              ap length are_upper,
              length-map part,
              leb_part e,
            ),
        ap without_spaces (sym same) ∙ without_spaces-padded bs (n - length bs) plain ∙ are_upper,
        ground (arith, e),
      )
]
  where
    length-map : (bs : Bytes) → length (map upper bs) ≡ length bs
    length-map [] = refl
    length-map (b ∷ bs) = ap suc (length-map bs)

    leb_part : (is_nil part || ltb n (length part)) ≡ false → length part ≤ n
    leb_part e = ground (arith, e)

is_nil-map : (bs : Bytes) → is_nil bs ≡ false → is_nil (map upper bs) ≡ false
is_nil-map [] some_byte = absurd (ground arith)
is_nil-map (b ∷ bs) some_byte = refl

-- A name of eight bytes and an extension of three.
display-fields :
    (first last : Bytes)
    → length first ≡ 8
    → length last ≡ 3
    → display_short_name (first ++ last) ≡ without_spaces first ++ dotted (without_spaces last)
unfolding display_short_name
display-fields first last eight three =
    let front : take 8 (first ++ last) ≡ first =
      ap (λ n. take n (first ++ last)) (sym eight) ∙ take-append first last in
    let back : take 3 (drop 8 (first ++ last)) ≡ last =
      ap (take 3) (ap (λ n. drop n (first ++ last)) (sym eight) ∙ drop-append first last)
      ∙ ap (λ n. take n last) (sym three)
      ∙ take_all last in
    rw (front, back) refl
  where
    take_all : (bs : Bytes) → take (length bs) bs ≡ bs
    take_all [] = refl
    take_all (b ∷ bs) = ap (λ l. b ∷ l) (take_all bs)

short_name-shown :
    (parts : List Bytes) (out : Bytes)
    → short_name parts ≡ ok out
    → (length out ≡ 11) × (display_short_name out ≡ map upper (join_dots parts))
unfolding join_dots
short_name-shown [] out h = absurd (cc h)
short_name-shown (name ∷ []) out h =
    let (first, shown_first, last) = >>=-eq-ok (field 8 name) _ h in
    let same : first ++ replicate 3 b' ' ≡ out = cc last in
    let (eight, is_name, _) = field-shown 8 name first shown_first in
    (
      ap length (sym same) ∙ omega (arith, length-append first (replicate 3 b' '), eight),
      ap display_short_name (sym same)
          ∙ display-fields first (replicate 3 b' ') eight refl
          ∙ rw (without_spaces-replicate 3) (append-nil (without_spaces first) ∙ is_name),
    )
short_name-shown (name ∷ extension ∷ []) out h =
    let (first, shown_first, behind) = >>=-eq-ok (field 8 name) _ h in
    let (last, shown_last, end) = >>=-eq-ok (field 3 extension) _ behind in
    let same : first ++ last ≡ out = cc end in
    let (eight, is_name, _) = field-shown 8 name first shown_first in
    let (three, is_extension, some_byte) = field-shown 3 extension last shown_last in
    (
      ap length (sym same) ∙ omega (arith, length-append first last, eight, three),
      ap display_short_name (sym same)
          ∙ display-fields first last eight three
          ∙ rw (is_name, is_extension, is_nil-map extension some_byte)
              (sym (map-append upper name (b'.' ∷ extension))),
    )
short_name-shown (a ∷ b ∷ c ∷ parts) out h = absurd (cc h)

-- A component that has a short name is shown in a listing as it is, in capitals: eleven bytes are made of
-- it, and what they display is the component with its lower case letters replaced.
pub display_short_name-make_short_name :
    (component out : Bytes)
    → make_short_name component ≡ ok out
    → (length out ≡ 11) × (display_short_name out ≡ map upper component)
unfolding make_short_name
display_short_name-make_short_name component out h =
    let (eleven, shown) = short_name-shown (split_dots component) out h in
    (eleven, shown ∙ ap (map upper) (join_dots-split_dots component))
