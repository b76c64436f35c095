-- ===== src/Texts/Json.antt =====
-- JSON strings of backend/inference_backend.cc: `JsonEscape`, `JsonStringValue` and
-- `ExtractJsonStringField`.
use laminar_inference.Base.{
  ℕ, ◌+◌, ◌/◌, ◌%◌, Bool, true, false, [], ◌∷◌, ◌++◌, Option, none, some, ltb, ◌==◌, if◌then◌else◌,
}
use mathlib.Core.Option
use laminar_inference.Base.Text.{Str}
use laminar_inference.Texts.{is_space}

infixl 10 ◌>>=◌
abbrev pub ◌>>=◌ : {A B : Type 0} → Option A → (A → Option B) → Option B
none >>= f = none
some a >>= f = f a

-- A digit of `std::hex`.
unfoldable pub hex_digit : ℕ → ℕ
hex_digit d = if ltb d 10 then 48 + d else 87 + d

-- The `switch` of `JsonEscape`.
unfoldable pub json_escape_char : ℕ → Str
json_escape_char c =
    if c == 34
    then 92 ∷ 34 ∷ []
    else if c == 92
    then 92 ∷ 92 ∷ []
    else if c == 8
    then 92 ∷ 98 ∷ []
    else if c == 12
    then 92 ∷ 102 ∷ []
    else if c == 10
    then 92 ∷ 110 ∷ []
    else if c == 13
    then 92 ∷ 114 ∷ []
    else if c == 9
    then 92 ∷ 116 ∷ []
    else if ltb c 32
    then 92 ∷ 117 ∷ 48 ∷ 48 ∷ hex_digit (c / 16) ∷ hex_digit (c % 16) ∷ []
    else c ∷ []

unfoldable pub json_escape : Str → Str
json_escape [] = []
json_escape (c ∷ cs) = json_escape_char c ++ json_escape cs

unfoldable pub json_string_value : Str → Str
json_string_value value = 34 ∷ json_escape value ++ 34 ∷ []

-- What a character behind a backslash stands for.
unfoldable pub unescape_char : ℕ → ℕ
unescape_char c = if c == 110 then 10 else if c == 114 then 13 else if c == 116 then 9 else c

-- The loop of `ExtractJsonStringField` over the value, whose first argument is `escaping`.
unfoldable pub read_string : Bool → Str → Option Str
read_string escaping [] = none
read_string true (c ∷ cs) = Option.map (λ v. unescape_char c ∷ v) (read_string false cs)
read_string false (c ∷ cs) =
    let escaped = read_string true cs in
    let plain = Option.map (λ v. c ∷ v) (read_string false cs) in
    if c == 92 then escaped else if c == 34 then some [] else plain

unfoldable pub strip_prefix : Str → Str → Option Str
strip_prefix [] s = some s
strip_prefix (k ∷ ks) [] = none
strip_prefix (k ∷ ks) (c ∷ cs) = let rest = strip_prefix ks cs in if k == c then rest else none

-- `json.find(key)`: what follows the first occurrence of a key that is not empty.
unfoldable pub after_first : Str → Str → Option Str
after_first key [] = none
after_first key (c ∷ cs) =
    let later = after_first key cs in
    elim (strip_prefix key (c ∷ cs)) [ some rest ↦ some rest | none ↦ later ]

unfoldable pub skip_spaces : Str → Str
skip_spaces [] = []
skip_spaces (c ∷ cs) = let rest = skip_spaces cs in if is_space c then rest else c ∷ cs

unfoldable pub read_value : Str → Option Str
read_value [] = none
read_value (c ∷ cs) = let value = read_string false cs in if c == 34 then value else none

unfoldable pub extract_json_string_field : Str → Str → Option Str
extract_json_string_field json field = do
  behind_key ← after_first (34 ∷ field ++ 34 ∷ []) json
  behind_colon ← after_first (58 ∷ []) behind_key
  read_value (skip_spaces behind_colon)
