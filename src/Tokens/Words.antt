-- ===== src/Tokens/Words.antt =====
-- `Tokenize` (Tokens) on words that are joined by spaces.
use mathlib.Core.List.{append_assoc, append-nil}
use laminar_inference.Base.{
  ℕ, zero, suc, ◌<◌, ◌≡◌, refl, sym, ap, ◌∙◌, Bool, true, not, ◌&&◌, ◌||◌, Bool-cases, inl, inr,
  List, [], ◌∷◌, ◌++◌, map, leb, ltb, arith, if◌then◌else◌,
}
use laminar_inference.Base.Text.{Str, is_empty}
use laminar_inference.Texts.{to_lower}
use laminar_inference.Tokens.{
  is_alnum, tokenize_from, tokenize, word_of, join_words, join_generated_tokens,
}

-- The letters of a token: digits and small letters.
abbrev pub is_small : ℕ → Bool
is_small c = (leb 48 c && leb c 57) || (leb 97 c && leb c 122)

abbrev pub all_small : Str → Bool
all_small [] = true
all_small (c ∷ cs) = is_small c && all_small cs

abbrev pub is_word : Str → Bool
is_word s = not (is_empty s) && all_small s

abbrev pub all_words : List Str → Bool
all_words [] = true
all_words (w ∷ ws) = is_word w && all_words ws

small_alnum : (c : ℕ) → is_small c ≡ true → is_alnum c ≡ true
unfolding is_alnum
small_alnum c h = ground arith

small_lower : (c : ℕ) → is_small c ≡ true → to_lower c ≡ c
unfolding to_lower
small_lower c h = ground arith

lower_small : (c : ℕ) → is_alnum c ≡ true → is_small (to_lower c) ≡ true
unfolding is_alnum to_lower
lower_small c h = ground arith

all_small-append : (s t : Str) → all_small s ≡ true → all_small t ≡ true → all_small (s ++ t) ≡ true
all_small-append [] t h k = k
all_small-append (c ∷ cs) t h k = ground (arith, all_small-append cs t)

tokenize_from_words :
    (token s : Str) → all_small token ≡ true → all_words (tokenize_from token s) ≡ true
unfolding tokenize_from
tokenize_from_words [] [] h = refl
tokenize_from_words (t ∷ ts) [] h = ground arith
tokenize_from_words token (c ∷ cs) h = elim (Bool-cases (is_alnum c)) [
  | inl e ↦
      rw (tokenize_from, e)
        (tokenize_from_words (token ++ to_lower c ∷ []) cs
          (all_small-append token (to_lower c ∷ []) h (ground (arith, lower_small c e))))
  | inr e ↦
      rw (tokenize_from, e) (ended token h (tokenize_from [] cs) (tokenize_from_words [] cs refl))
]
  where
    ended :
        (t : Str)
        → all_small t ≡ true
        → (rest : List Str) → all_words rest ≡ true
        → all_words (if is_empty t then rest else t ∷ rest) ≡ true
    ended [] k rest l = l
    ended (d ∷ ds) k rest l = ground arith

-- A word in front is taken up into the token.
tokenize_from-append :
    (token word rest : Str)
    → all_small word ≡ true
    → tokenize_from token (word ++ rest) ≡ tokenize_from (token ++ word) rest
unfolding tokenize_from
tokenize_from-append token [] rest h = ap (λ t. tokenize_from t rest) (sym (append-nil token))
tokenize_from-append token (c ∷ cs) rest h =
    let alnum = small_alnum c (ground arith) in
    let lower = small_lower c (ground arith) in
    rw (tokenize_from, alnum, lower)
      (tokenize_from-append (token ++ c ∷ []) cs rest (ground arith)
        ∙ ap (λ t. tokenize_from t rest) (append_assoc token (c ∷ []) cs))

-- A token that is complete: the end, or a space, behind it.
tokenize_from-end : (d : ℕ) (ds : Str) → tokenize_from (d ∷ ds) [] ≡ (d ∷ ds) ∷ []
unfolding tokenize_from
tokenize_from-end d ds = refl

tokenize_from-space :
    (d : ℕ) (ds rest : Str) → tokenize_from (d ∷ ds) (32 ∷ rest) ≡ (d ∷ ds) ∷ tokenize_from [] rest
unfolding tokenize_from is_alnum
tokenize_from-space d ds rest = refl

-- A nonempty list of words that are joined and tokenized.
tokenize_from-join_words :
    (ws : List Str) → all_words ws ≡ true → tokenize_from [] (join_words ws) ≡ ws
unfolding join_words tokenize_from
tokenize_from-join_words [] h = refl
tokenize_from-join_words ([] ∷ ws) h = ground arith
tokenize_from-join_words ((d ∷ ds) ∷ []) h =
    ap (tokenize_from []) (sym (append-nil (d ∷ ds)))
    ∙ tokenize_from-append [] (d ∷ ds) [] (ground arith)
tokenize_from-join_words ((d ∷ ds) ∷ w ∷ ws) h =
    tokenize_from-append [] (d ∷ ds) (32 ∷ join_words (w ∷ ws)) (ground arith)
    ∙ tokenize_from-space d ds (join_words (w ∷ ws))
    ∙ ap (λ t. (d ∷ ds) ∷ t) (tokenize_from-join_words (w ∷ ws) (ground arith))

-- The tokens of any text are words of digits and small letters, and joined by spaces they have the same
-- tokens again.
pub tokenize-join_words :
    (prompt : Str)
    → (all_words (tokenize prompt) ≡ true)
      × (tokenize (join_words (tokenize prompt)) ≡ tokenize prompt)
unfolding tokenize
tokenize-join_words prompt =
    let words = tokenize_from_words [] prompt refl in
    (words, tokenize_from-join_words (tokenize_from [] prompt) words)

-- Every entry but the two marks is a word.
abbrev pub proper : ℕ → Bool
proper id = leb 2 id && ltb id 64

abbrev pub all_proper : List ℕ → Bool
all_proper [] = true
all_proper (id ∷ ids) = proper id && all_proper ids

checked_ids : (ℕ → Bool) → ℕ → Bool
checked_ids good zero = true
checked_ids good (suc last) = checked_ids good last && good last

checked_ids-each :
    (good : ℕ → Bool) (count id : ℕ) → id < count → checked_ids good count ≡ true → good id ≡ true
unfolding checked_ids
checked_ids-each good (suc last) id small checked = ground (arith, checked_ids-each good last id)
checked_ids-each good zero id small checked = absurd (omega (arith, small))

vocabulary_words : checked_ids (λ id. ltb id 2 || is_word (word_of id)) 64 ≡ true
unfolding checked_ids word_of
vocabulary_words = refl

word_of-word : (id : ℕ) → proper id ≡ true → is_word (word_of id) ≡ true
word_of-word id h =
    let entry =
      checked_ids-each (λ i. ltb i 2 || is_word (word_of i)) 64 id (ground arith)
        vocabulary_words in
    ground (arith, entry)

map_words : (ids : List ℕ) → all_proper ids ≡ true → all_words (map word_of ids) ≡ true
map_words [] h = refl
map_words (id ∷ ids) h = ground (arith, word_of-word id, map_words ids)

-- The text that a model's tokens are joined to has their words as its tokens, in the same order, where
-- all ids are of the vocabulary and none is a mark.
pub tokenize-join_generated_tokens :
    (token_ids : List ℕ)
    → all_proper token_ids ≡ true
    → tokenize (join_generated_tokens token_ids) ≡ map word_of token_ids
unfolding tokenize join_generated_tokens
tokenize-join_generated_tokens token_ids h =
    tokenize_from-join_words (map word_of token_ids) (map_words token_ids h)
