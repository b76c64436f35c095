-- ===== src/Base/Decimal.antt =====
-- Numbers as decimal texts: `std::to_string` and `operator<<` of the integer types.
use laminar_inference.Base.Tests.{ltb}
use laminar_inference.Base.Int.{ℤ, pos, negsuc}
use laminar_inference.Base.Text.{Str}
use Prim.Native.Nat.{ℕ, zero, suc, ◌+◌, ◌/◌, ◌%◌}
use mathlib.Core.Bool.{true, false}
use mathlib.Core.List.{[], ◌∷◌}

-- The digits of a number in front of a text; any fuel above the number is enough.
unfoldable pub print_digits : ℕ → ℕ → Str → Str
print_digits zero n out = out
print_digits (suc fuel) n out = elim (ltb n 10) [
  | true ↦ (48 + n) ∷ out
  | false ↦ print_digits fuel (n / 10) ((48 + n % 10) ∷ out)
]

unfoldable pub to_string : ℕ → Str
to_string n = print_digits (suc n) n []

unfoldable pub int_to_string : ℤ → Str
int_to_string (pos n) = to_string n
int_to_string (negsuc n) = 45 ∷ to_string (suc n)
