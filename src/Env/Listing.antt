-- ===== src/Env/Listing.antt =====
-- The listing that `write_listing_into` leaves in the caller's buffer.
use mathlib.Core.Logic.{◌⊎◌}
use lazers.Base.{ℕ, ◌+◌, ◌≤◌, ◌<◌, List, [], ◌∷◌, ◌++◌, ◌≡◌, refl, ◌∙◌, inl, inr, arith}
use lazers.Base.Tests.{ltb, Bool-cases}
use mathlib.Core.List.{append-nil, append_assoc}
use native.Mathlib.Decide.{dec_lt}
use lazers.Base.Lists.{length, drop, length-append, length-drop}
use lazers.Base.Words.{Bytes}
use lazers.Base.Results.{ok, err}
use lazers.Env.{EnvEntry, Environment, line, capacity_exceeded, write_entries, write_listing_into}

-- All entries in order.
abbrev pub listing : List EnvEntry → Bytes
listing [] = []
listing (e ∷ es) = line e ++ listing es

length-line : (e : EnvEntry) → length (line e) ≡ length e.key + 1 + length e.value + 1
length-line e = omega (
  arith,
  length-append e.key (b'=' ∷ (e.value ++ (b'\n' ∷ []))),
  length-append e.value (b'\n' ∷ []),
)

-- What the loop leaves, from `out` on.
write_entries_fits :
    (size : ℕ) (out : Bytes) (es : List EnvEntry)
    → length out + length (listing es) ≤ size
    → write_entries size out es ≡ (out ++ listing es, ok (length (out ++ listing es)))
unfolding write_entries
write_entries_fits size out [] h = rw append-nil
write_entries_fits size out (e ∷ es) h =
    let step =
      write_entries_fits size (out ++ line e) es
        (omega (arith, length-append out (line e), length-append (line e) (listing es))) in
    elim (Bool-cases (ltb size (length out + (length e.key + 1 + length e.value + 1)))) [
      | inl large ↦ absurd (ground (arith, length-line e, length-append (line e) (listing es)))
      | inr small ↦ rw small (step ∙ rw append_assoc)
    ]

write_entries_large :
    (size : ℕ) (out : Bytes) (es : List EnvEntry)
    → length out ≤ size
    → size < length out + length (listing es)
    → ((write_entries size out es).1 ≡ err capacity_exceeded)
      × (length (write_entries size out es).0 ≤ size)
unfolding write_entries
write_entries_large size out [] k h = absurd (omega arith)
write_entries_large size out (e ∷ es) k h =
    elim (Bool-cases (ltb size (length out + (length e.key + 1 + length e.value + 1)))) [
      | inl large ↦ rw large (refl, k)
      | inr small ↦ rw small (
          write_entries_large size (out ++ line e) es
            (ground (arith, length-append out (line e), length-line e))
            (omega (arith, length-append out (line e), length-append (line e) (listing es))))
    ]

pub length-overwrite :
    (out buffer : Bytes)
    → length out ≤ length buffer
    → length (out ++ drop (length out) buffer) ≡ length buffer
length-overwrite out buffer h =
    omega (arith, length-append out (drop (length out) buffer), length-drop (length out) buffer)

-- A buffer that holds the listing receives it at its front, with the rest untouched, and the
-- result is its length; a smaller buffer gives an error. The buffer keeps its size in both cases.
pub write_listing_into_lem :
    (env : Environment) (buffer : Bytes)
    → let text = listing env.entries in
      let (after, result) = write_listing_into env buffer in
      (length after ≡ length buffer)
      × (((length text ≤ length buffer)
            × (after ≡ text ++ drop (length text) buffer)
            × (result ≡ ok (length text)))
          ⊎ ((length buffer < length text) × (result ≡ err capacity_exceeded)))
unfolding write_listing_into
write_listing_into_lem env buffer =
    let size = length buffer in
    let text = listing env.entries in
    elim (dec_lt size (length text)) [
      | yes large ↦
          let w = write_entries_large size [] env.entries (omega arith) (omega arith) in
          (length-overwrite _ buffer w.1, inr (large, w.0))
      | no fits ↦
          let w = write_entries_fits size [] env.entries (omega arith) in
          rw w (length-overwrite text buffer (omega arith), inl (omega arith, refl, refl))
    ]
