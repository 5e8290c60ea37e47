-- ===== src/Ring/Refine.antt =====
-- A ring behaves as the first-in first-out list of what it holds.
use lazers.Base.{
  ℕ, zero, suc, ◌+◌, ◌-◌, ◌%◌, ◌≤◌, ◌<◌, true, false, none, some, List, [], ◌∷◌, ◌++◌, ◌≡◌, ◌≢◌,
  refl, sym, ap, ◌∙◌, inl, inr, arith,
}
use lazers.Base.Tests.{if◌then◌else◌, ltb, ◌==◌, Bool-cases}
use native.Mathlib.Decide.{dec_lt}
use native.Mathlib.Nat.{mod-eq_of_lt, mod-eq-sub-mod, mod-add-mod}
use lazers.Base.Lists.{
  length, set, get_elem?, length-set, get_elem?-set_self, get_elem?-set_ne, length-append,
  length-replicate,
}
use lazers.Base.Tests.{if◌then◌else◌, lt→ltb}
use lazers.Ring.{
  drain, new, Ring, capacity, push, pop, Op, put, take, accepted, taken, run, run_fifo,
}

-- Stepping round the ring: two positions less than a lap apart differ.
round_ne : (n at i j : ℕ) → at < n → i < j → j < n → (at + i) % n ≢ (at + j) % n
round_ne n at i j h k l = elim (dec_lt (at + j) n) [
  | yes a ↦ omega (arith, mod-eq_of_lt a, mod-eq_of_lt {n = at + i} {m = n} (omega arith))
  | no a ↦
      let wj = mod-eq-sub-mod {n = at + j} {m = n} (omega arith) in
      let sj = mod-eq_of_lt {n = at + j - n} {m = n} (omega arith) in
      elim (dec_lt (at + i) n) [
        | yes b ↦ omega (arith, wj, sj, mod-eq_of_lt b)
        | no b ↦ omega (
          arith,
          wj,
          sj,
          mod-eq-sub-mod {n = at + i} {m = n} (omega arith),
          mod-eq_of_lt {n = at + i - n} {m = n} (omega arith),
        )
      ]
]

round_step : (n at i : ℕ) → ((at + 1) % n + i) % n ≡ (at + suc i) % n
round_step n at i = rw mod-add-mod (ap (λ k. k % n) (omega arith))

round_lt : (n at : ℕ) → 0 < n → at % n < n
round_lt n at h = omega arith

module _ {ℓ} {A : Type ℓ} where
  -- The ring `q` holds the items `xs`, oldest first.
  pub record Holds (q : Ring A) (xs : List A) : Type ℓ where
    pub nonempty : 0 < capacity q
    pub read_in : q.read_index < capacity q
    pub write_at : q.write_index ≡ (q.read_index + q.len) % capacity q
    pub count : length xs ≡ q.len
    pub fits : q.len ≤ capacity q
    pub items :
        (j : ℕ) → j < q.len → get_elem? q.slots ((q.read_index + j) % capacity q) ≡ get_elem? xs j

  get_elem?-append_left :
      (xs ys : List A) (j : ℕ) → j < length xs → get_elem? (xs ++ ys) j ≡ get_elem? xs j
  get_elem?-append_left [] ys j h = elim h [ ]
  get_elem?-append_left (x ∷ xs) ys zero h = refl
  get_elem?-append_left (x ∷ xs) ys (suc j) h = get_elem?-append_left xs ys j (omega arith)

  get_elem?-append_end : (xs : List A) (a : A) → get_elem? (xs ++ (a ∷ [])) (length xs) ≡ some a
  get_elem?-append_end [] a = refl
  get_elem?-append_end (x ∷ xs) a = get_elem?-append_end xs a

  push-full : (a : A) (q : Ring A) → capacity q ≤ q.len → push a q ≡ (false, q)
  unfolding push
  push-full a q h = ground arith

  abbrev pushed : A → Ring A → Ring A
  pushed a q = record q {
    slots = set q.slots q.write_index a;
    write_index = (q.write_index + 1) % capacity q;
    len = q.len + 1;
  }

  push-room : (a : A) (q : Ring A) → q.len < capacity q → push a q ≡ (true, pushed a q)
  unfolding push
  push-room a q h = ground arith

  pushed_item :
      (a : A) (q : Ring A) (xs : List A)
      → Holds q xs
      → q.len < capacity q
      → (j : ℕ) → j < q.len + 1
      → get_elem? (set q.slots q.write_index a) ((q.read_index + j) % capacity q)
        ≡ get_elem? (xs ++ (a ∷ [])) j
  pushed_item a q xs h room j k = elim (dec_lt j q.len) [
    | yes old ↦
        get_elem?-set_ne q.slots q.write_index ((q.read_index + j) % capacity q) a
          (λ e. round_ne (capacity q) q.read_index j q.len h.read_in old room (sym e ∙ h.write_at))
        ∙ h.items j old
        ∙ sym (get_elem?-append_left xs (a ∷ []) j (omega (arith, h.count)))
    | no last ↦
        let e : j ≡ length xs = omega (arith, h.count) in
        let e' : j ≡ q.len = omega arith in
        let w : (q.read_index + q.len) % capacity q < capacity q =
          round_lt (capacity q) _ h.nonempty in
        rw (e', ← h.write_at, ← h.count)
          (get_elem?-set_self q.slots q.write_index a (rw h.write_at w)
            ∙ sym (get_elem?-append_end xs a))
  ]

  -- A push into a ring with room appends the item.
  pub pushed-Holds :
      (a : A) (q : Ring A) (xs : List A)
      → Holds q xs
      → q.len < capacity q
      → Holds (pushed a q) (xs ++ (a ∷ []))
  pushed-Holds a q xs h room =
      let same : capacity (pushed a q) ≡ capacity q = length-set q.slots q.write_index a in
      record {
        nonempty = rw same h.nonempty;
        read_in = rw same h.read_in;
        write_at = rw same (rw (h.write_at, mod-add-mod) (ap (λ k. k % capacity q) (omega arith)));
        count = omega (arith, length-append xs (a ∷ []), h.count);
        fits = rw same (omega arith);
        items = λ j k. rw same (pushed_item a q xs h room j k);
      }

  abbrev pub popped : (A → A) → A → Ring A → Ring A
  popped leave x q = record q {
    slots = set q.slots q.read_index (leave x);
    read_index = (q.read_index + 1) % capacity q;
    len = q.len - 1;
  }

  first_item :
      (q : Ring A) (x : A) (xs : List A)
      → Holds q (x ∷ xs)
      → get_elem? q.slots q.read_index ≡ some x
  first_item q x xs h =
      let e : (q.read_index + 0) % capacity q ≡ q.read_index =
        omega (
          arith,
          mod-eq_of_lt {n = q.read_index + 0} {m = capacity q} (omega (arith, h.read_in)),
        ) in
      ap (get_elem? q.slots) (sym e) ∙ h.items 0 (omega (arith, h.count))

  pub pop-some :
      (leave : A → A) (q : Ring A) (x : A) (xs : List A)
      → Holds q (x ∷ xs)
      → pop leave q ≡ (some x, popped leave x q)
  unfolding pop
  pop-some leave q x xs h = elim (Bool-cases (q.len == 0)) [
    | inl nothing ↦ absurd (ground (arith, h.count))
    | inr something ↦ rw (something, first_item q x xs h)
  ]

  pub pop-none : (leave : A → A) (q : Ring A) → Holds q [] → pop leave q ≡ (none, q)
  unfolding pop
  pop-none leave q h = ground (arith, h.count)

  popped_item :
      (leave : A → A) (q : Ring A) (x : A) (xs : List A)
      → Holds q (x ∷ xs)
      → (j : ℕ) → j < q.len - 1
      → get_elem?
          (set q.slots q.read_index (leave x))
          (((q.read_index + 1) % capacity q + j) % capacity q)
        ≡ get_elem? xs j
  popped_item leave q x xs h j k =
      let n = capacity q in
      let at : (q.read_index + 0) % n ≡ q.read_index =
        omega (arith, mod-eq_of_lt {n = q.read_index + 0} {m = n} (omega (arith, h.read_in))) in
      let apart : q.read_index ≢ (q.read_index + suc j) % n = λ e.
        round_ne n q.read_index 0 (suc j) h.read_in (omega arith) (omega (arith, h.fits))
          (at ∙ e) in
      rw (round_step n q.read_index j) (
        get_elem?-set_ne q.slots q.read_index ((q.read_index + suc j) % n) (leave x) apart
        ∙ h.items (suc j) (omega arith))

  -- A pop takes the oldest item.
  pub popped-Holds :
      (leave : A → A) (q : Ring A) (x : A) (xs : List A)
      → Holds q (x ∷ xs)
      → Holds (popped leave x q) xs
  popped-Holds leave q x xs h =
      let same : capacity (popped leave x q) ≡ capacity q =
        length-set q.slots q.read_index (leave x) in
      let e : q.read_index + 1 + (q.len - 1) ≡ q.read_index + q.len = omega (arith, h.count) in
      record {
        nonempty = rw same h.nonempty;
        read_in = rw same (round_lt (capacity q) (q.read_index + 1) h.nonempty);
        write_at = rw same (h.write_at ∙ rw (mod-add-mod, e));
        count = omega (arith, h.count);
        fits = rw same (omega (arith, h.fits));
        items = λ j k. rw same (popped_item leave q x xs h j k);
      }

  -- If a ring holds the items `xs`, no sequence of pushes and pops tells it from the first-in
  -- first-out list of these items, bounded by its capacity, whatever a pop leaves in its slot.
  pub run_refines :
      (leave : A → A) (ops : List (Op A)) (q : Ring A) (xs : List A)
      → Holds q xs
      → run leave q ops ≡ run_fifo (capacity q) xs ops
  unfolding run run_fifo
  run_refines leave [] q xs h = refl
  run_refines leave (put a ∷ ops) q xs h = elim (dec_lt q.len (capacity q)) [
    | yes room ↦
        let same : capacity (pushed a q) ≡ capacity q = length-set q.slots q.write_index a in
        let rest =
          run_refines leave ops (pushed a q) (xs ++ (a ∷ [])) (pushed-Holds a q xs h room) in
        rw (push-room a q room, lt→ltb (length xs) (capacity q) (omega (arith, h.count)))
          (ap (◌∷◌ (accepted true)) (rw same at rest))
    | no full ↦
        let shut : ltb (length xs) (capacity q) ≡ false = ground (arith, h.count) in
        rw (push-full a q (omega arith), shut)
          (ap (◌∷◌ (accepted false)) (run_refines leave ops q xs h))
  ]
  run_refines leave (take ∷ ops) q [] h =
      rw (pop-none leave q h) (ap (◌∷◌ (taken none)) (run_refines leave ops q [] h))
  run_refines leave (take ∷ ops) q (x ∷ xs) h =
      let same : capacity (popped leave x q) ≡ capacity q =
        length-set q.slots q.read_index (leave x) in
      let rest = run_refines leave ops (popped leave x q) xs (popped-Holds leave q x xs h) in
      rw (pop-some leave q x xs h) (ap (◌∷◌ (taken (some x))) (rw same at rest))

  -- A fresh ring holds nothing.
  pub new-Holds : (size : ℕ) (a : A) → 0 < size → Holds (new size a) []
  new-Holds size a h = ground (arith, length-replicate size a)

  drain-cons :
      (leave : A → A) (fuel : ℕ) (q : Ring A) (x : A) (xs : List A)
      → Holds q (x ∷ xs)
      → drain (suc fuel) leave q
        ≡ (x ∷ (drain fuel leave (popped leave x q)).0, (drain fuel leave (popped leave x q)).1)
  unfolding drain
  drain-cons leave fuel q x xs h =
      rw (pop-some leave q x xs h, drain) (rw (pop-some leave q x xs h))

  -- A drain with more fuel than items gives the items in order and leaves an empty ring.
  pub drain_lem :
      (leave : A → A) (fuel : ℕ) (q : Ring A) (xs : List A)
      → Holds q xs
      → length xs < fuel
      → ((drain fuel leave q).0 ≡ xs) × Holds (drain fuel leave q).1 []
  drain_lem leave zero q xs h k = absurd (omega arith)
  drain_lem leave (suc fuel) q [] h k =
      unfold drain in rw (pop-none leave q h, drain) (rw (pop-none leave q h) (refl, h))
  drain_lem leave (suc fuel) q (x ∷ xs) h k =
      let ih =
        drain_lem leave fuel (popped leave x q) xs (popped-Holds leave q x xs h) (omega arith) in
      rw (drain-cons leave fuel q x xs h) (ap (◌∷◌ x) ih.0, ih.1)

  -- What a push leaves, with the test of the specification.
  pub push-Holds :
      (a : A) (q : Ring A) (xs : List A)
      → Holds q xs
      → Holds (push a q).1 (if ltb (length xs) (capacity q) then xs ++ (a ∷ []) else xs)
        × ((push a q).0 ≡ ltb (length xs) (capacity q))
        × (capacity (push a q).1 ≡ capacity q)
  push-Holds a q xs h = elim (dec_lt q.len (capacity q)) [
    | yes room ↦
        rw (push-room a q room, lt→ltb (length xs) (capacity q) (omega (arith, h.count)))
          (pushed-Holds a q xs h room, refl, length-set q.slots q.write_index a)
    | no full ↦
        let shut : ltb (length xs) (capacity q) ≡ false = ground (arith, h.count) in
        rw (push-full a q (omega arith), shut) (h, refl, refl)
  ]
