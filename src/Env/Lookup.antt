-- ===== src/Env/Lookup.antt =====
-- The environment as a map: what a lookup gives after `set` and `remove`.
use lazers.Base.{ℕ, zero, suc, Option, none, some, List, [], ◌∷◌, ◌++◌, ◌≡◌, refl, arith}
use lazers.Base.Tests.{if◌then◌else◌}
use lazers.Base.Lists.{get_elem?}
use lazers.Base.Slots.{erase_idx}
use lazers.Base.Words.{Bytes}
use lazers.Base.Text.{equal, equal_iff}
use lazers.Base.Results.{and_then}
use lazers.Env.{EnvEntry, pair, find_index, set_value_at}

abbrev pub lookup : Bytes → List EnvEntry → Option Bytes
lookup k [] = none
lookup k (e ∷ es) = if equal e.key k then some e.value else lookup k es

-- No key stands twice.
abbrev pub Distinct : List EnvEntry → Type 0
Distinct [] = Unit
Distinct (e ∷ es) = (find_index e.key es ≡ none) × Distinct es

-- The index that is found holds the value of the lookup.
pub find_index-lookup :
    (k : Bytes) (es : List EnvEntry)
    → and_then (find_index k es) (λ i. and_then (get_elem? es i) λ e. some e.value) ≡ lookup k es
unfolding find_index
find_index-lookup k [] = refl
find_index-lookup k (e ∷ es) = ground (arith, find_index-lookup k es)

pub lookup-find_index-none :
    (k : Bytes) (es : List EnvEntry) → find_index k es ≡ none → lookup k es ≡ none
unfolding find_index
lookup-find_index-none k [] h = refl
lookup-find_index-none k (e ∷ es) h = ground (arith, lookup-find_index-none k es)

pub lookup-append :
    (k j : Bytes) (v : Bytes) (es : List EnvEntry)
    → find_index k es ≡ none
    → lookup j (es ++ (pair k v ∷ [])) ≡ (if equal k j then some v else lookup j es)
unfolding find_index
lookup-append k j v [] h = refl
lookup-append k j v (e ∷ es) h =
    ground (arith, lookup-append k j v es, equal_iff e.key k, equal_iff e.key j, equal_iff k j)

pub lookup-set_value_at :
    (k j : Bytes) (v : Bytes) (es : List EnvEntry) (i : ℕ)
    → find_index k es ≡ some i
    → lookup j (set_value_at es i v) ≡ (if equal k j then some v else lookup j es)
unfolding find_index set_value_at
lookup-set_value_at k j v [] i h = absurd (cc)
lookup-set_value_at k j v (e ∷ es) zero h =
    ground (arith, equal_iff e.key k, equal_iff e.key j, equal_iff k j)
lookup-set_value_at k j v (e ∷ es) (suc i) h =
    ground
      (arith, lookup-set_value_at k j v es i, equal_iff e.key k, equal_iff e.key j, equal_iff k j)

pub lookup-erase_idx :
    (k j : Bytes) (es : List EnvEntry) (i : ℕ)
    → Distinct es
    → find_index k es ≡ some i
    → lookup j (erase_idx es i) ≡ (if equal k j then none else lookup j es)
unfolding find_index
lookup-erase_idx k j [] i d h = absurd (cc)
lookup-erase_idx k j (e ∷ es) zero d h = ground (
  arith,
  lookup-find_index-none e.key es d.0,
  equal_iff e.key k,
  equal_iff e.key j,
  equal_iff k j,
)
lookup-erase_idx k j (e ∷ es) (suc i) d h =
    ground
      (arith, lookup-erase_idx k j es i d.1, equal_iff e.key k, equal_iff e.key j, equal_iff k j)
