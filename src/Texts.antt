-- ===== src/Texts.antt =====
-- The text helpers of backend/inference_backend.cc: characters, trimming, and the names of the backends.
-- A position in a text is what is left of the text from there on.
pub mod Json
pub mod Kinds
pub mod Escaped
pub mod Trimmed
mod Tests
use laminar_inference.Base.{
  ℕ, ◌+◌, Bool, true, false, not, ◌&&◌, ◌||◌, List, [], ◌∷◌, leb, ◌==◌, if◌then◌else◌,
}
use laminar_inference.Base.Text.{Str, is_empty}

-- `std::isspace` of the C locale
unfoldable pub is_space : ℕ → Bool
is_space c = c == 32 || (leb 9 c && leb c 13)

-- `std::tolower` of the C locale
unfoldable pub to_lower : ℕ → ℕ
to_lower c = if leb 65 c && leb c 90 then c + 32 else c

unfoldable pub trim_left : Str → Str
trim_left [] = []
trim_left (c ∷ cs) = let rest = trim_left cs in if is_space c then rest else c ∷ cs

unfoldable pub trim_right : Str → Str
trim_right [] = []
trim_right (c ∷ cs) =
    let rest = trim_right cs in if is_empty rest && is_space c then [] else c ∷ rest

unfoldable pub trim_whitespace : Str → Str
trim_whitespace value = trim_right (trim_left value)

unfoldable pub lower : Str → Str
lower [] = []
lower (c ∷ cs) = to_lower c ∷ lower cs

unfoldable pub trim_lower : Str → Str
trim_lower value = lower (trim_whitespace value)

-- The loop of `CollapseWhitespace`.
unfoldable pub collapse : Bool → Str → Str
collapse previous_space [] = []
collapse previous_space (c ∷ cs) =
    let after_space = collapse true cs in
    let after_other = collapse false cs in
    if is_space c
    then (if previous_space then after_space else 32 ∷ after_space)
    else c ∷ after_other

unfoldable pub collapse_whitespace : Str → Str
collapse_whitespace value = trim_whitespace (collapse false value)

-- `EscapeSingleQuoted`: a backslash before a backslash or a quote, a space for a line break or a tab.
unfoldable pub escape_single_quoted : Str → Str
escape_single_quoted [] = []
escape_single_quoted (c ∷ cs) =
    let rest = escape_single_quoted cs in
    let written = if c == 10 || c == 13 || c == 9 then 32 ∷ rest else c ∷ rest in
    if c == 92 || c == 39 then 92 ∷ written else written
