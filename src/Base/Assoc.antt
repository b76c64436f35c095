-- ===== src/Base/Assoc.antt =====
-- `std::map<std::string, V>` as an association list in the order of its keys.
pub mod Laws
use Prim.Native.Nat.{ℕ, ◌+◌}
use mathlib.Core.Path.{◌≡◌, refl}
use mathlib.Core.Bool.{Bool, true, false}
use mathlib.Core.List.{List, [], ◌∷◌}
use mathlib.Core.Option.{Option, none, some}
use native.Mathlib.Omega.{arith}
use laminar_inference.Base.Tests.{if◌then◌else◌}
use laminar_inference.Base.Text.{Str, str_eq, str_lt, str_eq_iff, str_eq_refl}

abbrev pub Map {ℓ} : Type ℓ → Type ℓ
Map V = List (Str × V)

module _ {ℓ} {V : Type ℓ} where
  -- `find`: the iterator's value, `none` for `end()`.
  unfoldable pub find : Str → Map V → Option V
  find k [] = none
  find k ((j, v) ∷ m) = if str_eq k j then some v else find k m

  -- `erase` of the entry under a key.
  unfoldable pub erase : Str → Map V → Map V
  erase k [] = []
  erase k ((j, v) ∷ m) = if str_eq k j then m else (j, v) ∷ erase k m

  -- A new entry goes before the first greater key.
  unfoldable pub place : Str → V → Map V → Map V
  place k v [] = (k, v) ∷ []
  place k v ((j, w) ∷ m) = if str_lt k j then (k, v) ∷ (j, w) ∷ m else (j, w) ∷ place k v m

  unfoldable pub overwrite : Str → V → Map V → Map V
  overwrite k v [] = []
  overwrite k v ((j, w) ∷ m) = if str_eq k j then (j, v) ∷ m else (j, w) ∷ overwrite k v m

  -- `m[k] = v`
  unfoldable pub assign : Str → V → Map V → Map V
  unfolding find place overwrite
  assign k v m = elim (find k m) [ none ↦ place k v m | some _ ↦ overwrite k v m ]

  -- `m.emplace(k, v)`: an entry that is there already stays.
  unfoldable pub emplace : Str → V → Map V → Map V
  unfolding find place
  emplace k v m = elim (find k m) [ none ↦ place k v m | some _ ↦ m ]

  -- `m.count(k) != 0`
  unfoldable pub contains : Str → Map V → Bool
  unfolding find
  contains k m = elim (find k m) [ none ↦ false | some _ ↦ true ]

  -- The sum of a measure over the values.
  abbrev pub total : (V → ℕ) → Map V → ℕ
  total f [] = 0
  total f ((k, v) ∷ m) = f v + total f m

  -- No key has two entries.
  abbrev pub IsUnique : Map V → Type ℓ
  IsUnique [] = Unit
  IsUnique ((k, v) ∷ m) = (find k m ≡ none) × IsUnique m
