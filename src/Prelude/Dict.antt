-- ===== src/Prelude/Dict.antt =====
-- A Python dictionary keyed by text, in insertion order, with the laws of its operations.
use trade_mind.Prelude.Tests.{if◌then◌else◌, is_some}
use mathlib.Core.Path.{◌≡◌, refl}
use mathlib.Core.Bool.{Bool, true, false}
use mathlib.Core.Option.{Option, none, some}
use mathlib.Core.List.{List, [], ◌∷◌}
use Prim.Native.String.{String}
use native.Mathlib.Omega.{arith}
use text.Mathlib.Text.{◌==◌}
use text.Mathlib.TextEquality.{eq_iff}
use text.Mathlib.TextPositions.{eq_refl}
use trade_mind.Prelude.Lists.{All, All-imp}

abbrev pub Dict {ℓ} : Type ℓ → Type ℓ
Dict V = List (String × V)

module _ {ℓ} {V : Type ℓ} where
  -- `d.get(k)`
  abbrev pub lookup : String → Dict V → Option V
  lookup k [] = none
  lookup k ((j, v) ∷ d) = if j == k then some v else lookup k d

  -- `d[k] = v`
  abbrev pub insert : String → V → Dict V → Dict V
  insert k v [] = (k, v) ∷ []
  insert k v ((j, w) ∷ d) = if j == k then (k, v) ∷ d else (j, w) ∷ insert k v d

  -- `del d[k]`
  abbrev pub erase : String → Dict V → Dict V
  erase k [] = []
  erase k ((j, w) ∷ d) = if j == k then d else (j, w) ∷ erase k d

  -- `d.setdefault(k, v)`
  abbrev pub setdefault : String → V → Dict V → Dict V
  setdefault k v d = if is_some (lookup k d) then d else insert k v d

  abbrev pub values : Dict V → List V
  values [] = []
  values ((_, v) ∷ d) = v ∷ values d

  abbrev pub keys : Dict V → List String
  keys [] = []
  keys ((k, _) ∷ d) = k ∷ keys d

  pub lookup-insert :
      (k j : String) (v : V) (d : Dict V)
      → lookup j (insert k v d) ≡ (if k == j then some v else lookup j d)
  lookup-insert k j v [] = refl
  lookup-insert k j v ((i, w) ∷ d) =
      ground (arith, eq_iff k j, eq_iff i k, eq_iff i j, lookup-insert k j v d)

  -- No key is listed twice.
  abbrev pub IsUnique : Dict V → Type ℓ
  IsUnique [] = Unit
  IsUnique ((k, _) ∷ d) = (lookup k d ≡ none) × IsUnique d

  pub insert-IsUnique : (k : String) (v : V) (d : Dict V) → IsUnique d → IsUnique (insert k v d)
  insert-IsUnique k v [] h = (refl, tt)
  insert-IsUnique k v ((j, w) ∷ d) (n, h) =
      ground (arith, eq_iff j k, eq_iff k j, lookup-insert k j v d, insert-IsUnique k v d h)

  lookup_later :
      (k : String) (v : V) (d : Dict V)
      → lookup k d ≡ none
      → (e : String × V) → lookup e.0 d ≡ some e.1
      → lookup e.0 ((k, v) ∷ d) ≡ some e.1
  lookup_later k v d n (j, w) h = ground (arith, eq_iff k j)

  -- In a dictionary every entry is what its key looks up.
  pub IsUnique-lookup : (d : Dict V) → IsUnique d → All (λ e. lookup e.0 d ≡ some e.1) d
  IsUnique-lookup [] h = tt
  IsUnique-lookup ((k, v) ∷ d) (n, h) =
      (rw (eq_refl k), All-imp d (lookup_later k v d n) (IsUnique-lookup d h))

-- `k in xs` for a collection of texts.
abbrev pub contains : String → List String → Bool
contains k [] = false
contains k (j ∷ js) = if j == k then true else contains k js

-- `set(xs)`, as a list without repetition.
abbrev pub distinct : List String → List String
distinct [] = []
distinct (x ∷ xs) = let rest = distinct xs in if contains x rest then rest else x ∷ rest

pub contains-distinct : (k : String) (xs : List String) → contains k (distinct xs) ≡ contains k xs
contains-distinct k [] = refl
contains-distinct k (x ∷ xs) =
    ground (arith, eq_iff x k, contains-distinct k xs, contains-distinct x xs)

abbrev pub IsDistinct : List String → Type 0
IsDistinct [] = Unit
IsDistinct (x ∷ xs) = (contains x xs ≡ false) × IsDistinct xs

pub distinct-IsDistinct : (xs : List String) → IsDistinct (distinct xs)
distinct-IsDistinct [] = tt
distinct-IsDistinct (x ∷ xs) = ground (arith, distinct-IsDistinct xs)
