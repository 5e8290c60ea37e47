-- ===== src/Syscall/RoundTrip/Spawn.antt =====
-- The status and the arguments of a child (libs/liblazer/src/process.rs).
use lazers.Base.{
  ℕ, ◌+◌, ◌-◌, ◌≤◌, ◌<◌, false, List, [], ◌∷◌, ◌++◌, ◌≡◌, ◌↔◌, refl, sym, ap, ◌∙◌, inl, inr, arith,
}
use lazers.Base.Tests.{ltb, if◌then◌else◌, ◌==◌, Bool-cases}
use mathlib.Core.List.{append_assoc, append-nil}
use lazers.Base.Lists.{length, length-append}
use lazers.Base.Words.{Bytes, word}
use lazers.Base.Text.{contains}
use lazers.Base.Results.{ok}
use lazers.Path.{onto_first}
use lazers.Syscall.Handlers.{spawn_status}
use lazers.Syscall.Wrappers.{spawn_wait_result, serialize_spawn_args, max_spawn_arg_data}

-- The status of a child comes back to the program that waits for it exactly if it is none of the four
-- highest numbers, the raw results that stand for a failure to start it.
pub spawn_wait_result-status_iff :
    (status : ℕ)
    → status < word
    → (spawn_wait_result (spawn_status (ok status)) ≡ ok status) ↔ (status < word - 4)
unfolding spawn_wait_result spawn_status
spawn_wait_result-status_iff status below = ground arith

-- The words of a buffer in which a zero ends each.
unfoldable pub split_zeros : Bytes → List Bytes
split_zeros [] = []
split_zeros (b ∷ bs) = let rest = split_zeros bs in if b == 0 then [] ∷ rest else onto_first b rest

abbrev ended : List Bytes → Bytes
ended [] = []
ended (arg ∷ args) = (arg ++ (0 ∷ [])) ++ ended args

split_zeros-ended :
    (arg rest : Bytes)
    → contains 0 arg ≡ false
    → split_zeros ((arg ++ (0 ∷ [])) ++ rest) ≡ arg ∷ split_zeros rest
unfolding split_zeros contains
split_zeros-ended [] rest no_zero = refl
split_zeros-ended (b ∷ arg) rest no_zero =
    let plain : (b == 0) ≡ false = ground (arith, no_zero) in
    rw (plain, split_zeros-ended arg rest (ground (arith, no_zero))) refl

serialize_spawn_args-ended :
    (args : List Bytes) (written payload : Bytes)
    → serialize_spawn_args args written ≡ ok payload
    → length written ≤ max_spawn_arg_data
    → (payload ≡ written ++ ended args)
      × (split_zeros (ended args) ≡ args)
      × (length payload ≤ max_spawn_arg_data)
unfolding serialize_spawn_args
serialize_spawn_args-ended [] written payload done short =
    let same : written ≡ payload = cc done in
    (
      sym same ∙ sym (append-nil written),
      unfold split_zeros in refl,
      omega (arith, short, ap length same),
    )
serialize_spawn_args-ended (arg ∷ args) written payload done short =
    elim (Bool-cases (contains 0 arg)) [
      | inl e ↦ absurd (cc (rw (e, serialize_spawn_args) at done))
      | inr e ↦ elim (Bool-cases (ltb max_spawn_arg_data (length written + (length arg + 1)))) [
        | inl f ↦ absurd (cc (rw (e, f, serialize_spawn_args) at done))
        | inr f ↦
            let (shape, back, few) =
              serialize_spawn_args-ended args (written ++ (arg ++ (0 ∷ []))) payload
                (rw (e, f, serialize_spawn_args) at done)
                (ground (
                  arith,
                  f,
                  length-append written (arg ++ (0 ∷ [])),
                  length-append arg (0 ∷ []),
                )) in
            (
              shape ∙ append_assoc written (arg ++ (0 ∷ [])) (ended args),
              split_zeros-ended arg (ended args) e ∙ ap (λ l. arg ∷ l) back,
              few,
            )
      ]
    ]

-- If the arguments of a child can be laid out, the buffer has room for them, and cut at its zeros it
-- gives the arguments back, the empty ones included.
pub split_zeros-serialize_spawn_args :
    (args : List Bytes) (payload : Bytes)
    → serialize_spawn_args args [] ≡ ok payload
    → (split_zeros payload ≡ args) × (length payload ≤ max_spawn_arg_data)
split_zeros-serialize_spawn_args args payload done =
    let (shape, back, few) = serialize_spawn_args-ended args [] payload done (omega arith) in
    (ap split_zeros shape ∙ back, few)
