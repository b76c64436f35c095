-- ===== src/Base/Lists.antt =====
-- Lists measured and indexed by native numbers, under the library's names.
use Prim.Native.Nat.{ℕ, zero, suc, ◌+◌}
use mathlib.Core.Path.{◌≡◌, refl, ap, ◌∙◌, subst}
use mathlib.Core.Bool.{true, false}
use mathlib.Core.List.{List, [], ◌∷◌, ◌++◌, map}
use mathlib.Core.Option.{Option, none, some}
use mathlib.Core.Option
use native.Mathlib.Omega.{arith}
use mathlib.Core.Logic.{inl, inr}
use laminar_inference.Base.Tests.{◌==◌, if◌then◌else◌, Bool-cases}

module _ {ℓ} {A : Type ℓ} where
  abbrev pub length : List A → ℕ
  length [] = 0
  length (x ∷ xs) = suc (length xs)

  abbrev pub get_elem? : List A → ℕ → Option A
  get_elem? [] i = none
  get_elem? (x ∷ xs) zero = some x
  get_elem? (x ∷ xs) (suc i) = get_elem? xs i

  abbrev pub take : ℕ → List A → List A
  take zero xs = []
  take (suc n) [] = []
  take (suc n) (x ∷ xs) = x ∷ take n xs

  abbrev pub replicate : ℕ → A → List A
  replicate zero a = []
  replicate (suc n) a = a ∷ replicate n a

  -- Applies a function at one index; nothing happens out of range.
  abbrev pub update_at : (A → A) → List A → ℕ → List A
  update_at f [] i = []
  update_at f (x ∷ xs) zero = f x ∷ xs
  update_at f (x ∷ xs) (suc i) = x ∷ update_at f xs i

module _ {ℓ} {A : Type ℓ} where
  pub length-append : (xs ys : List A) → length (xs ++ ys) ≡ length xs + length ys
  length-append [] ys = omega arith
  length-append (x ∷ xs) ys = omega (arith, length-append xs ys)

  pub length-map : {B : Type ℓ} (f : A → B) (xs : List A) → length (map f xs) ≡ length xs
  length-map f [] = refl
  length-map f (x ∷ xs) = ap suc (length-map f xs)

  pub length-replicate : (n : ℕ) (a : A) → length (replicate n a) ≡ n
  length-replicate zero a = refl
  length-replicate (suc n) a = ap suc (length-replicate n a)

  pub length-update_at : (f : A → A) (xs : List A) (i : ℕ) → length (update_at f xs i) ≡ length xs
  length-update_at f [] i = refl
  length-update_at f (x ∷ xs) zero = refl
  length-update_at f (x ∷ xs) (suc i) = ap suc (length-update_at f xs i)

-- How often a number occurs in a list.
abbrev pub count : ℕ → List ℕ → ℕ
count i [] = 0
count i (j ∷ js) = (if i == j then 1 else 0) + count i js

pub count-append : (i : ℕ) (xs ys : List ℕ) → count i (xs ++ ys) ≡ count i xs + count i ys
count-append i [] ys = omega arith
count-append i (x ∷ xs) ys = omega (arith, count-append i xs ys)

pub get_elem?-update_at {ℓ} :
    {A : Type ℓ} (f : A → A) (xs : List A) (i j : ℕ)
    → get_elem? (update_at f xs j) i
      ≡ (if i == j then Option.map f (get_elem? xs i) else get_elem? xs i)
get_elem?-update_at f [] i j = ground arith
get_elem?-update_at f (x ∷ xs) zero zero = refl
get_elem?-update_at f (x ∷ xs) zero (suc j) = ground arith
get_elem?-update_at f (x ∷ xs) (suc i) zero = ground arith
get_elem?-update_at f (x ∷ xs) (suc i) (suc j) = ground (arith, get_elem?-update_at f xs i j)

-- A loop over indices that changes one element in each round.
unfoldable pub update_all {ℓ} : {A : Type ℓ} → (A → A) → List A → List ℕ → List A
update_all f xs [] = xs
update_all f xs (i ∷ is) = update_all f (update_at f xs i) is

pub length-update_all {ℓ} :
    {A : Type ℓ} (f : A → A) (xs : List A) (is : List ℕ) → length (update_all f xs is) ≡ length xs
unfolding update_all
length-update_all f xs [] = refl
length-update_all f xs (i ∷ is) =
    length-update_all f (update_at f xs i) is ∙ length-update_at f xs i

count_hit : (i j : ℕ) (is : List ℕ) → (i == j) ≡ true → count i (j ∷ is) ≡ suc (count i is)
count_hit i j is e = ground arith

count_miss : (i j : ℕ) (is : List ℕ) → (i == j) ≡ false → count i (j ∷ is) ≡ count i is
count_miss i j is e = ground arith

-- What each round turns from `n + 1` rounds left to `n` at an index holds at none left after the loop.
pub update_all-point {ℓ κ} :
    {A : Type ℓ} (P : ℕ → Option A → Type κ) (f : A → A)
    → ((n : ℕ) (o : Option A) → P (suc n) o → P n (Option.map f o))
    → (is : List ℕ) (xs : List A) (i : ℕ) → P (count i is) (get_elem? xs i)
    → P 0 (get_elem? (update_all f xs is) i)
unfolding update_all
update_all-point P f step [] xs i h = h
update_all-point P f step (j ∷ is) xs i h = update_all-point P f step is (update_at f xs j) i (
    rw (get_elem?-update_at f xs i j) (elim (Bool-cases (i == j)) [
      | inl e ↦ rw e (
          step (count i is) (get_elem? xs i)
            (subst (λ n. P n (get_elem? xs i)) (count_hit i j is e) h))
      | inr e ↦ rw e (subst (λ n. P n (get_elem? xs i)) (count_miss i j is e) h)
    ]))
