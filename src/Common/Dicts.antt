-- ===== src/Common/Dicts.antt =====
-- A Python dict with text keys, in insertion order.
use Prim.Native.String.{String}
use mathlib.Core.List.{List, [], ◌∷◌}
use mathlib.Core.Logic.{◌≢◌}
use mathlib.Core.Option.{Option, none, some}
use mathlib.Core.Path.{◌≡◌, refl}
use native.Mathlib.Omega.{arith}
use text.Mathlib.Text.{◌==◌}
use text.Mathlib.TextEquality.{eq_iff}
use governed_analytics_agent.Common.Tests.{if◌then◌else◌}

abbrev pub Dict : Type 0 → Type 0
Dict V = List (String × V)

module _ {V : Type 0} where
  abbrev pub lookup : String → Dict V → Option V
  lookup k [] = none
  lookup k ((j, v) ∷ d) = if j == k then some v else lookup k d

  -- `d[k] = v`
  abbrev pub insert : String → V → Dict V → Dict V
  insert k v [] = (k, v) ∷ []
  insert k v ((j, w) ∷ d) = if j == k then (k, v) ∷ d else (j, w) ∷ insert k v d

  -- `del d[k]`
  abbrev pub erase : String → Dict V → Dict V
  erase k [] = []
  erase k ((j, w) ∷ d) = if j == k then d else (j, w) ∷ erase k d

  -- Keys are held once.
  abbrev pub IsDistinct : Dict V → Type 0
  IsDistinct [] = Unit
  IsDistinct ((k, v) ∷ d) = (lookup k d ≡ none) × IsDistinct d

module _ {V : Type 0} where
  pub lookup-insert :
      (k j : String) (v : V) (d : Dict V)
      → lookup j (insert k v d) ≡ (if k == j then some v else lookup j d)
  lookup-insert k j v [] = refl
  lookup-insert k j v ((i, w) ∷ d) =
      ground (arith, eq_iff k j, eq_iff i k, eq_iff i j, lookup-insert k j v d)

  pub lookup-insert_self : (k : String) (v : V) (d : Dict V) → lookup k (insert k v d) ≡ some v
  lookup-insert_self k v d = ground (arith, eq_iff k k, lookup-insert k k v d)

  pub lookup-erase_ne : (k j : String) (d : Dict V) → k ≢ j → lookup j (erase k d) ≡ lookup j d
  lookup-erase_ne k j [] h = refl
  lookup-erase_ne k j ((i, w) ∷ d) h =
      ground (arith, eq_iff i k, eq_iff i j, lookup-erase_ne k j d h)

  pub lookup-erase_self : (k : String) (d : Dict V) → IsDistinct d → lookup k (erase k d) ≡ none
  lookup-erase_self k [] h = refl
  lookup-erase_self k ((i, w) ∷ d) h = ground (arith, eq_iff i k, lookup-erase_self k d h.1)

  lookup-erase-none : (k j : String) (d : Dict V) → lookup j d ≡ none → lookup j (erase k d) ≡ none
  lookup-erase-none k j [] h = refl
  lookup-erase-none k j ((i, w) ∷ d) h = ground (arith, eq_iff i j, lookup-erase-none k j d)

  pub insert-IsDistinct :
      (k : String) (v : V) (d : Dict V) → IsDistinct d → IsDistinct (insert k v d)
  insert-IsDistinct k v [] h = (refl, tt)
  insert-IsDistinct k v ((i, w) ∷ d) h =
      ground (arith, eq_iff i k, eq_iff k i, lookup-insert k i v d, insert-IsDistinct k v d h.1)

  pub erase-IsDistinct : (k : String) (d : Dict V) → IsDistinct d → IsDistinct (erase k d)
  erase-IsDistinct k [] h = tt
  erase-IsDistinct k ((i, w) ∷ d) h =
      ground (arith, eq_iff i k, lookup-erase-none k i d h.0, erase-IsDistinct k d h.1)

  -- A new key that is deleted again leaves no trace.
  pub erase-insert :
      (k : String) (v : V) (d : Dict V) → lookup k d ≡ none → erase k (insert k v d) ≡ d
  erase-insert k v [] h = ground (arith, eq_iff k k)
  erase-insert k v ((i, w) ∷ d) h = ground (arith, eq_iff i k, erase-insert k v d)
