-- ===== src/Texts/Trimmed.antt =====
-- `TrimWhitespace` (Texts): what it takes away and what is left.
use laminar_inference.Base.{
  ◌≡◌, refl, ap, ◌∙◌, inl, inr, Bool, true, false, ◌&&◌, Bool-cases, [], ◌∷◌, ◌++◌, if◌then◌else◌,
  arith,
}
use laminar_inference.Base.Text.{Str, is_empty}
use laminar_inference.Texts.{is_space, trim_left, trim_right, trim_whitespace}

abbrev pub all_space : Str → Bool
all_space [] = true
all_space (c ∷ cs) = is_space c && all_space cs

abbrev pub starts_with_space : Str → Bool
starts_with_space [] = false
starts_with_space (c ∷ cs) = is_space c

abbrev pub ends_with_space : Str → Bool
ends_with_space [] = false
ends_with_space (c ∷ cs) = if is_empty cs then is_space c else ends_with_space cs

trim_left_frame :
    (s : Str) → (before : Str) × (all_space before ≡ true) × (s ≡ before ++ trim_left s)
unfolding trim_left
trim_left_frame [] = ([], refl, refl)
trim_left_frame (c ∷ cs) = elim (Bool-cases (is_space c)) [
  | inr e ↦ rw e ([], refl, refl)
  | inl e ↦
      let (before, spaces, same) = trim_left_frame cs in
      rw e (c ∷ before, ground arith, ap (λ t. c ∷ t) same)
]

trim_left-starts : (s : Str) → starts_with_space (trim_left s) ≡ false
unfolding trim_left
trim_left-starts [] = refl
trim_left-starts (c ∷ cs) = elim (Bool-cases (is_space c)) [
  | inl e ↦ rw e (trim_left-starts cs)
  | inr e ↦ rw e e
]

pub empty_of : (s : Str) → is_empty s ≡ true → s ≡ []
empty_of [] h = refl
empty_of (c ∷ cs) h = ground arith

trim_right_frame :
    (s : Str) → (after : Str) × (all_space after ≡ true) × (s ≡ trim_right s ++ after)
unfolding trim_right
trim_right_frame [] = ([], refl, refl)
trim_right_frame (c ∷ cs) =
    let (after, spaces, same) = trim_right_frame cs in
    elim (Bool-cases (is_empty (trim_right cs) && is_space c)) [
      | inr e ↦ rw e (after, spaces, ap (λ t. c ∷ t) same)
      | inl e ↦
          let none_left : trim_right cs ≡ [] = empty_of (trim_right cs) (ground arith) in
          let rest : cs ≡ after = rw none_left at same in
          rw e (c ∷ after, ground arith, ap (λ t. c ∷ t) rest)
    ]

trim_right-ends : (s : Str) → ends_with_space (trim_right s) ≡ false
unfolding trim_right
trim_right-ends [] = refl
trim_right-ends (c ∷ cs) = ground (arith, trim_right-ends cs)

trim_right-starts :
    (s : Str) → starts_with_space s ≡ false → starts_with_space (trim_right s) ≡ false
unfolding trim_right
trim_right-starts [] h = refl
trim_right-starts (c ∷ cs) h = ground arith

-- A text is its trimmed text between two texts of white space only, and the trimmed text neither begins
-- nor ends with white space.
pub trim_whitespace_frame :
    (value : Str)
    → (before : Str) × (after : Str) × (value ≡ before ++ (trim_whitespace value ++ after))
      × (all_space before ≡ true)
      × (all_space after ≡ true)
      × (starts_with_space (trim_whitespace value) ≡ false)
      × (ends_with_space (trim_whitespace value) ≡ false)
unfolding trim_whitespace
trim_whitespace_frame value =
    let (before, spaces, left) = trim_left_frame value in
    let (after, more, right) = trim_right_frame (trim_left value) in
    (
      before,
      after,
      left ∙ ap (λ t. before ++ t) right,
      spaces,
      more,
      trim_right-starts (trim_left value) (trim_left-starts value),
      trim_right-ends (trim_left value),
    )

trim_left_same : (s : Str) → starts_with_space s ≡ false → trim_left s ≡ s
unfolding trim_left
trim_left_same [] h = refl
trim_left_same (c ∷ cs) h = rw h refl

pub trim_right_same : (s : Str) → ends_with_space s ≡ false → trim_right s ≡ s
unfolding trim_right
trim_right_same [] h = refl
trim_right_same (c ∷ cs) h = ground (arith, trim_right_same cs)

pub trim_whitespace_idem :
    (value : Str) → trim_whitespace (trim_whitespace value) ≡ trim_whitespace value
unfolding trim_whitespace
trim_whitespace_idem value =
    ap trim_right (
      trim_left_same (trim_right (trim_left value))
        (trim_right-starts (trim_left value) (trim_left-starts value)))
    ∙ trim_right_same (trim_right (trim_left value)) (trim_right-ends (trim_left value))
