-- ===== src/Settings/Numbers.antt =====
-- The whole numbers of `EnvInt` (backend/inference_backend.cc): `std::strtol` with base 10 on a whole text,
-- and `std::clamp`. The saturation of `strtol` at the range of `long` is left to the clamp behind it, whose
-- bounds lie within.
use laminar_inference.Base.{
  ℕ, zero, suc, ◌+◌, ◌-◌, ◌*◌, Bool, ◌&&◌, [], ◌∷◌, Option, none, some, leb, ◌==◌, if◌then◌else◌,
}
use laminar_inference.Base.Int.{ℤ, pos, negsuc, ltb_ℤ}
use laminar_inference.Base.Text.{Str}
use laminar_inference.Texts.{trim_left}

unfoldable pub is_digit : ℕ → Bool
is_digit c = leb 48 c && leb c 57

-- The digits of the whole rest of a text, behind those that made `value`; `none` for any other character.
unfoldable pub read_digits : ℕ → Str → Option ℕ
read_digits value [] = some value
read_digits value (c ∷ cs) =
    let more = read_digits (value * 10 + (c - 48)) cs in if is_digit c then more else none

-- At least one digit.
unfoldable pub read_number : Str → Option ℕ
read_number [] = none
read_number (c ∷ cs) = read_digits 0 (c ∷ cs)

unfoldable pub negate : ℕ → ℤ
negate zero = pos zero
negate (suc n) = negsuc n

abbrev pub with_sign : (ℕ → ℤ) → Option ℕ → Option ℤ
with_sign sign none = none
with_sign sign (some n) = some (sign n)

unfoldable pub read_signed : Str → Option ℤ
read_signed [] = none
read_signed (c ∷ cs) =
    let negative = with_sign negate (read_number cs) in
    let positive = with_sign pos (read_number cs) in
    let unsigned = with_sign pos (read_number (c ∷ cs)) in
    if c == 45 then negative else if c == 43 then positive else unsigned

-- The number that `strtol` reads up to the end of the text, if it gets there.
unfoldable pub strtol : Str → Option ℤ
strtol raw = read_signed (trim_left raw)

unfoldable pub clamp : ℤ → ℤ → ℤ → ℤ
clamp value minimum maximum =
    if ltb_ℤ value minimum then minimum else if ltb_ℤ maximum value then maximum else value
