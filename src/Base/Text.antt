-- ===== src/Base/Text.antt =====
-- `std::string` as its bytes: equality and the byte order that `std::map` sorts its keys by.
use Prim.Native.Char.{code}
use Prim.Native.Nat.{ℕ}
use Prim.Native.String.{String}
use mathlib.Core.Path.{◌≡◌, refl, subst}
use mathlib.Core.Logic.{◌↔◌}
use mathlib.Core.Bool.{Bool, true, false, ◌&&◌}
use mathlib.Core.List.{List, [], ◌∷◌}
use native.Mathlib.Omega.{arith}
use laminar_inference.Base.Tests.{◌==◌, ltb, if◌then◌else◌}

abbrev pub Str : Type 0
Str = List ℕ

-- The bytes of a literal (all literals of the program are ASCII).
abbrev pub codes : String → Str
codes String.[] = []
codes (String.◌∷◌ c s) = code c ∷ codes s

abbrev pub is_empty : Str → Bool
is_empty [] = true
is_empty (c ∷ s) = false

unfoldable pub str_eq : Str → Str → Bool
str_eq [] [] = true
str_eq [] (d ∷ t) = false
str_eq (c ∷ s) [] = false
str_eq (c ∷ s) (d ∷ t) = c == d && str_eq s t

unfoldable pub str_lt : Str → Str → Bool
str_lt s [] = false
str_lt [] (d ∷ t) = true
str_lt (c ∷ s) (d ∷ t) = if c == d then str_lt s t else ltb c d

pub str_eq_refl : (s : Str) → str_eq s s ≡ true
unfolding str_eq
str_eq_refl [] = refl
str_eq_refl (c ∷ s) = ground (arith, str_eq_refl s)

pub str_eq→eq : (s t : Str) → str_eq s t ≡ true → s ≡ t
unfolding str_eq
str_eq→eq [] [] h = refl
str_eq→eq [] (d ∷ t) h = ground arith
str_eq→eq (c ∷ s) [] h = ground arith
str_eq→eq (c ∷ s) (d ∷ t) h = ground (arith, str_eq→eq s t)

pub str_eq_iff : (s t : Str) → (str_eq s t ≡ true) ↔ (s ≡ t)
str_eq_iff s t = (str_eq→eq s t, λ e. subst (λ u. str_eq s u ≡ true) e (str_eq_refl s))
