-- ===== src/Texts/Escaped.antt =====
-- What `ExtractJsonStringField` reads of a string that `JsonEscape` wrote (Json).
use mathlib.Core.Option
use mathlib.Core.List.{append_assoc}
use laminar_inference.Base.{
  ℕ, ◌/◌, ◌%◌, ◌<◌, ◌≡◌, refl, ◌∙◌, ap, ◌⊎◌, inl, inr, Bool, true, false, not, ◌&&◌, ◌||◌,
  Bool-cases, [], ◌∷◌, ◌++◌, some, ltb, ◌==◌, if◌then◌else◌, arith,
}
use laminar_inference.Base.Text.{Str, codes}
use laminar_inference.Texts.{is_space}
use laminar_inference.Texts.Json.{
  hex_digit, json_escape_char, json_escape, json_string_value, unescape_char, read_string,
  strip_prefix, after_first, skip_spaces, read_value, extract_json_string_field,
}

-- The escapes that the reader does not know: it drops their backslash.
abbrev pub read_back_char : ℕ → Str
read_back_char c =
    if c == 8
    then 98 ∷ []
    else if c == 12
    then 102 ∷ []
    else if c == 10
    then 10 ∷ []
    else if c == 13
    then 13 ∷ []
    else if c == 9
    then 9 ∷ []
    else if ltb c 32
    then 117 ∷ 48 ∷ 48 ∷ hex_digit (c / 16) ∷ hex_digit (c % 16) ∷ []
    else c ∷ []

abbrev pub read_back : Str → Str
read_back [] = []
read_back (c ∷ cs) = read_back_char c ++ read_back cs

read_plain :
    (c : ℕ) (t : Str)
    → (c == 92) ≡ false
    → (c == 34) ≡ false
    → read_string false (c ∷ t) ≡ Option.map (λ v. c ∷ v) (read_string false t)
unfolding read_string
read_plain c t e f = rw (e, f) refl

hex_digit_plain : (d : ℕ) → d < 16 → ((hex_digit d == 92) ≡ false) × ((hex_digit d == 34) ≡ false)
unfolding hex_digit
hex_digit_plain d h = (ground arith, ground arith)

-- The characters that the writer puts behind a backslash of their own.
abbrev IsSpecial : ℕ → Type 0
IsSpecial c = (c ≡ 34) ⊎ (c ≡ 92) ⊎ (c ≡ 8) ⊎ (c ≡ 12) ⊎ (c ≡ 10) ⊎ (c ≡ 13) ⊎ (c ≡ 9)

IsSpecial-cases :
    (c : ℕ)
    → IsSpecial c
      ⊎ (((c == 34) ≡ false)
          × ((c == 92) ≡ false)
          × ((c == 8) ≡ false)
          × ((c == 12) ≡ false)
          × ((c == 10) ≡ false)
          × ((c == 13) ≡ false)
          × ((c == 9) ≡ false))
IsSpecial-cases c = ground arith

ReadsBack : ℕ → Str → Str → Type 0
ReadsBack c t v = read_string false (json_escape_char c ++ t) ≡ some (read_back_char c ++ v)

special-ReadsBack :
    (c : ℕ) (t v : Str) → read_string false t ≡ some v → IsSpecial c → ReadsBack c t v
unfolding ReadsBack json_escape_char read_string unescape_char
special-ReadsBack c t v e (inl h) = rw h (rw e refl)
special-ReadsBack c t v e (inr (inl h)) = rw h (rw e refl)
special-ReadsBack c t v e (inr (inr (inl h))) = rw h (rw e refl)
special-ReadsBack c t v e (inr (inr (inr (inl h)))) = rw h (rw e refl)
special-ReadsBack c t v e (inr (inr (inr (inr (inl h))))) = rw h (rw e refl)
special-ReadsBack c t v e (inr (inr (inr (inr (inr (inl h)))))) = rw h (rw e refl)
special-ReadsBack c t v e (inr (inr (inr (inr (inr (inr h)))))) = rw h (rw e refl)

-- `\u00xx` for a control character
control-read :
    (c : ℕ) (t v : Str)
    → c < 32
    → read_string false t ≡ some v
    → read_string false (92 ∷ 117 ∷ 48 ∷ 48 ∷ hex_digit (c / 16) ∷ hex_digit (c % 16) ∷ t)
      ≡ some (117 ∷ 48 ∷ 48 ∷ hex_digit (c / 16) ∷ hex_digit (c % 16) ∷ v)
unfolding read_string unescape_char
control-read c t v h e =
    let (a, b) = hex_digit_plain (c / 16) (omega arith) in
    let (x, y) = hex_digit_plain (c % 16) (omega arith) in rw (a, b, x, y, e) refl

char-ReadsBack : (c : ℕ) (t v : Str) → read_string false t ≡ some v → ReadsBack c t v
unfolding ReadsBack json_escape_char
char-ReadsBack c t v e = elim (IsSpecial-cases c) [
  | inl h ↦ special-ReadsBack c t v e h
  | inr (a, b, h8, h12, h10, h13, h9) ↦ elim (Bool-cases (ltb c 32)) [
    | inl h ↦ rw (a, b, h8, h12, h10, h13, h9, h) (control-read c t v (ground arith) e)
    | inr h ↦ rw (a, b, h8, h12, h10, h13, h9, h, read_plain c t b a, e) refl
  ]
]

pub read_string-json_escape :
    (value rest : Str) → read_string false (json_escape value ++ 34 ∷ rest) ≡ some (read_back value)
unfolding json_escape read_string ReadsBack
read_string-json_escape [] rest = refl
read_string-json_escape (c ∷ cs) rest =
    rw (append_assoc (json_escape_char c) (json_escape cs) (34 ∷ rest)) (
      char-ReadsBack c (json_escape cs ++ 34 ∷ rest) (read_back cs)
        (read_string-json_escape cs rest))

-- The object that a field's value begins, as the server answers it.
abbrev pub content_object : Str → Str → Str
content_object value rest = codes "{\"content\":" ++ json_string_value value ++ rest

-- `ExtractJsonStringField` finds the field `content` at the head of an object whose value `JsonStringValue`
-- wrote, whatever follows, and reads the value back with these changes: a backspace becomes the letter b,
-- a form feed the letter f, and another control character but tab, line feed and carriage return the
-- letter u with four hexadecimal digits.
pub extract_json_string_field-content :
    (value rest : Str)
    → extract_json_string_field (content_object value rest) (codes "content")
      ≡ some (read_back value)
unfolding extract_json_string_field json_string_value after_first strip_prefix skip_spaces
    read_value is_space
extract_json_string_field-content value rest =
    rw (append_assoc (json_escape value) (34 ∷ []) rest) (read_string-json_escape value rest)

abbrev pub is_readable : ℕ → Bool
is_readable c = not (ltb c 32) || c == 9 || c == 10 || c == 13

abbrev pub all_readable : Str → Bool
all_readable [] = true
all_readable (c ∷ cs) = is_readable c && all_readable cs

read_back_char-readable : (c : ℕ) → is_readable c ≡ true → read_back_char c ≡ c ∷ []
read_back_char-readable c h = ground arith

pub read_back-readable : (value : Str) → all_readable value ≡ true → read_back value ≡ value
read_back-readable [] h = refl
read_back-readable (c ∷ cs) h =
    rw (read_back_char-readable c (ground arith), read_back-readable cs (ground arith)) refl

-- A text without control characters other than tab, line feed and carriage return comes back as it was
-- when it is written by `JsonStringValue` as the field `content` and read by `ExtractJsonStringField`.
pub extract_json_string_field_roundtrip :
    (value rest : Str)
    → all_readable value ≡ true
    → extract_json_string_field (content_object value rest) (codes "content") ≡ some value
extract_json_string_field_roundtrip value rest h =
    extract_json_string_field-content value rest ∙ ap some (read_back-readable value h)
