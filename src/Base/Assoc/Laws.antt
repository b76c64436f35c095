-- ===== src/Base/Assoc/Laws.antt =====
-- What lookups and sums read after each change of an association list.
use laminar_inference.Base.Assoc.{
  Map, find, erase, place, overwrite, assign, emplace, total, IsUnique,
}
use laminar_inference.Base.Text.{Str, str_eq, str_eq_iff}
use laminar_inference.Base.Tests.{if◌then◌else◌, Option-cases}
use Prim.Native.Nat.{ℕ, ◌+◌, ◌≤◌}
use mathlib.Core.Path.{◌≡◌, refl}
use mathlib.Core.Logic.{inl, inr}
use mathlib.Core.List.{[], ◌∷◌}
use mathlib.Core.Option.{none, some}
use native.Mathlib.Omega.{arith}

pub str_eq_comm : (s t : Str) → str_eq s t ≡ str_eq t s
str_eq_comm s t = ground (arith, str_eq_iff s t, str_eq_iff t s)

module _ {ℓ} {V : Type ℓ} (k : Str) (v : V) where
  pub total-place : (f : V → ℕ) (m : Map V) → total f (place k v m) ≡ f v + total f m
  unfolding place
  total-place f [] = refl
  total-place f ((j, w) ∷ m) = ground (arith, total-place f m)

  pub total-overwrite :
      (f : V → ℕ) (m : Map V) (w : V)
      → find k m ≡ some w
      → total f (overwrite k v m) + f w ≡ total f m + f v
  unfolding find overwrite
  total-overwrite f [] w h = cc
  total-overwrite f ((j, u) ∷ m) w h = ground (arith, total-overwrite f m w)

  -- Where there was an entry, `m[k] = v` exchanges its value.
  pub total-assign :
      (f : V → ℕ) (m : Map V) (w : V)
      → find k m ≡ some w
      → total f (assign k v m) + f w ≡ total f m + f v
  unfolding assign
  total-assign f m w h = rw (h, assign) (total-overwrite f m w h)

  pub find-place :
      (j : Str) (m : Map V)
      → find k m ≡ none
      → find j (place k v m) ≡ (if str_eq j k then some v else find j m)
  unfolding find place
  find-place j [] h = refl
  find-place j ((i, w) ∷ m) h =
      ground (arith, find-place j m, str_eq_iff j k, str_eq_iff j i, str_eq_iff k i)

  pub find-overwrite :
      (j : Str) (m : Map V) (w : V)
      → find k m ≡ some w
      → find j (overwrite k v m) ≡ (if str_eq j k then some v else find j m)
  unfolding find overwrite
  find-overwrite j [] w h = cc
  find-overwrite j ((i, u) ∷ m) w h =
      ground (arith, find-overwrite j m w, str_eq_iff j k, str_eq_iff j i, str_eq_iff k i)

  -- `m[k] = v` and `m.emplace(k, v)` are read back, and change no other key.
  pub find-assign :
      (j : Str) (m : Map V) → find j (assign k v m) ≡ (if str_eq j k then some v else find j m)
  unfolding assign
  find-assign j m = elim (Option-cases (find k m)) [
    | inl e ↦ rw (e, assign) (find-place j m e)
    | inr (w, e) ↦ rw (e, assign) (find-overwrite j m w e)
  ]

  pub emplace-place : (m : Map V) → find k m ≡ none → emplace k v m ≡ place k v m
  unfolding emplace
  emplace-place m h = rw (h, emplace)

  pub place-IsUnique : (m : Map V) → find k m ≡ none → IsUnique m → IsUnique (place k v m)
  unfolding place find
  place-IsUnique [] h u = (refl, tt)
  place-IsUnique ((j, w) ∷ m) h u =
      ground (arith, place-IsUnique m, find-place j m, str_eq_comm j k)

  pub overwrite-IsUnique :
      (m : Map V) (w : V) → find k m ≡ some w → IsUnique m → IsUnique (overwrite k v m)
  unfolding overwrite find
  overwrite-IsUnique [] w h u = tt
  overwrite-IsUnique ((j, x) ∷ m) w h u =
      ground (arith, overwrite-IsUnique m w, find-overwrite j m w, str_eq_comm j k)

  pub assign-IsUnique : (m : Map V) → IsUnique m → IsUnique (assign k v m)
  unfolding assign
  assign-IsUnique m u = elim (Option-cases (find k m)) [
    | inl e ↦ rw (e, assign) (place-IsUnique m e u)
    | inr (w, e) ↦ rw (e, assign) (overwrite-IsUnique m w e u)
  ]

module _ {ℓ} {V : Type ℓ} (k : Str) where
  pub total-erase :
      (f : V → ℕ) (m : Map V) (w : V) → find k m ≡ some w → total f (erase k m) + f w ≡ total f m
  unfolding find erase
  total-erase f [] w h = cc
  total-erase f ((j, u) ∷ m) w h = ground (arith, total-erase f m w)

  pub find-erase :
      (j : Str) (m : Map V)
      → IsUnique m
      → find j (erase k m) ≡ (if str_eq j k then none else find j m)
  unfolding find erase
  find-erase j [] u = ground arith
  find-erase j ((i, w) ∷ m) u =
      ground (arith, find-erase j m, str_eq_iff j k, str_eq_iff j i, str_eq_iff k i)

  pub erase-IsUnique : (m : Map V) → IsUnique m → IsUnique (erase k m)
  unfolding erase find
  erase-IsUnique [] u = tt
  erase-IsUnique ((j, w) ∷ m) u = ground (arith, erase-IsUnique m, find-erase j m)

-- A value that is found counts in the sum.
pub find-total {ℓ} :
    {V : Type ℓ} (k : Str) (f : V → ℕ) (m : Map V) (w : V) → find k m ≡ some w → f w ≤ total f m
unfolding find
find-total k f [] w h = cc
find-total k f ((j, u) ∷ m) w h = ground (arith, find-total k f m w)
