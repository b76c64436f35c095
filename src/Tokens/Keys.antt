-- ===== src/Tokens/Keys.antt =====
-- `PrefixCacheKey` (Tokens): which prompts share a key.
use laminar_inference.Base.{
  ℕ, zero, suc, ◌+◌, ◌-◌, ◌*◌, ◌/◌, ◌%◌, ◌<◌, ◌≤◌, ◌≡◌, refl, sym, ap, ◌∙◌, ◌↔◌, inl, inr, true,
  false, ◌&&◌, Bool-cases, List, [], ◌∷◌, ◌++◌, Option, none, some, take, length, ltb, leb, ◌==◌,
  arith,
}
use laminar_inference.Base.Int.{pos}
use laminar_inference.Base.Text.{Str, codes}
use laminar_inference.Base.Decimal.{print_digits, to_string}
use laminar_inference.Settings.Numbers.{is_digit, read_digits}
use laminar_inference.Client.Urls.{lacks}
use laminar_inference.Tokens.{key_tail, prefix_cache_key}

read_digits-print_digits :
    (fuel n : ℕ) (out : Str)
    → n < fuel
    → read_digits 0 (print_digits fuel n out) ≡ read_digits n out
unfolding print_digits read_digits is_digit
read_digits-print_digits zero n out h = absurd (omega arith)
read_digits-print_digits (suc fuel) n out h = elim (Bool-cases (ltb n 10)) [
  | inl e ↦
      let digit : (leb 48 (48 + n) && leb (48 + n) 57) ≡ true = ground arith in
      let same : 0 * 10 + (48 + n - 48) ≡ n = omega arith in rw (print_digits, e, digit, same) refl
  | inr e ↦
      let m = n % 10 in
      let digit : (leb 48 (48 + m) && leb (48 + m) 57) ≡ true = ground arith in
      let same : n / 10 * 10 + (48 + m - 48) ≡ n = omega arith in
      let less : n / 10 < fuel = ground arith in
      rw (print_digits, e)
        (read_digits-print_digits fuel (n / 10) ((48 + m) ∷ out) less ∙ rw (digit, same) refl)
]

-- A number is read back from its print.
read_digits-to_string : (n : ℕ) → read_digits 0 (to_string n) ≡ some n
unfolding to_string read_digits
read_digits-to_string n = read_digits-print_digits (suc n) n [] (omega arith)

to_string_injective : (a b : ℕ) → to_string a ≡ to_string b → a ≡ b
to_string_injective a b e =
    let both : some a ≡ some b =
      sym (read_digits-to_string a) ∙ ap (read_digits 0) e ∙ read_digits-to_string b in
    ap or_zero both
  where
    or_zero : Option ℕ → ℕ
    or_zero none = 0
    or_zero (some n) = n

lacks-print_digits :
    (fuel n : ℕ) (out : Str) → lacks 58 out ≡ true → lacks 58 (print_digits fuel n out) ≡ true
unfolding print_digits
lacks-print_digits zero n out h = h
lacks-print_digits (suc fuel) n out h = elim (Bool-cases (ltb n 10)) [
  | inl e ↦ rw (print_digits, e) (ground arith)
  | inr e ↦
      rw (print_digits, e) (lacks-print_digits fuel (n / 10) ((48 + n % 10) ∷ out) (ground arith))
]

lacks-to_string : (n : ℕ) → lacks 58 (to_string n) ≡ true
unfolding to_string
lacks-to_string n = lacks-print_digits (suc n) n [] refl

-- A text that is empty or begins with the separator.
data Stops : Str → Type 0 where
  ended : Stops []
  at_next : (s : Str) → Stops (58 ∷ s)

key_tail-Stops : (ids : List ℕ) → Stops (key_tail ids)
unfolding key_tail
key_tail-Stops [] = ended
key_tail-Stops (id ∷ ids) = at_next _

head_or : ℕ → Str → ℕ
head_or d [] = d
head_or d (c ∷ cs) = c

behind : Str → Str
behind [] = []
behind (c ∷ cs) = cs

not_stopped : (s : Str) (d : ℕ) (ds : Str) → Stops s → s ≡ d ∷ ds → (d == 58) ≡ false → ⊥
unfolding head_or
not_stopped _ d ds ended e h =
    let absurd_length : 0 ≡ suc (length ds) = ap length e in absurd (omega arith)
not_stopped _ d ds (at_next s) e h = let same : 58 ≡ d = ap (head_or 0) e in absurd (ground arith)

parts_equal :
    (u v s t : Str)
    → lacks 58 u ≡ true
    → lacks 58 v ≡ true
    → Stops s
    → Stops t
    → u ++ s ≡ v ++ t
    → (u ≡ v) × (s ≡ t)
unfolding head_or behind
parts_equal [] [] s t h k p q e = (refl, e)
parts_equal [] (d ∷ ds) s t h k p q e = absurd (not_stopped s d (ds ++ t) p e (ground arith))
parts_equal (c ∷ cs) [] s t h k p q e = absurd (not_stopped t c (cs ++ s) q (sym e) (ground arith))
parts_equal (c ∷ cs) (d ∷ ds) s t h k p q e =
    let first : c ≡ d = ap (head_or 0) e in
    let (rest, ends) = parts_equal cs ds s t (ground arith) (ground arith) p q (ap behind e) in
    (cc (first, rest), ends)

key_tail_injective : (xs ys : List ℕ) → length xs ≡ length ys → key_tail xs ≡ key_tail ys → xs ≡ ys
unfolding key_tail behind
key_tail_injective [] [] h e = refl
key_tail_injective [] (b ∷ ys) h e = absurd (omega (arith, h))
key_tail_injective (a ∷ xs) [] h e = absurd (omega (arith, h))
key_tail_injective (a ∷ xs) (b ∷ ys) h e =
    let (first, rest) =
      parts_equal (to_string a) (to_string b) (key_tail xs) (key_tail ys) (lacks-to_string a)
        (lacks-to_string b) (key_tail-Stops xs) (key_tail-Stops ys) (ap behind e) in
    let same = to_string_injective a b first in
    let others = key_tail_injective xs ys (omega (arith, h)) rest in cc (same, others)

length-take_within : (n : ℕ) (ids : List ℕ) → n ≤ length ids → length (take n ids) ≡ n
length-take_within zero ids h = refl
length-take_within (suc n) [] h = absurd (omega arith)
length-take_within (suc n) (x ∷ xs) h = omega (arith, length-take_within n xs (omega (arith, h)))

prefix_cache_key_long :
    (ids : List ℕ) (n : ℕ)
    → 0 < n
    → n ≤ length ids
    → prefix_cache_key ids (pos n) ≡ codes "tiny_llm" ++ key_tail (take n ids)
unfolding prefix_cache_key
prefix_cache_key_long ids n positive long =
    let asked : ltb 0 n ≡ true = ground arith in
    let enough : ltb (length ids) n ≡ false = ground arith in rw (asked, enough) refl

drop_name : Str → Str
drop_name s = behind (behind (behind (behind (behind (behind (behind (behind s)))))))

-- Two prompts with at least as many tokens as the prefix has share a prefix key exactly where these tokens
-- are the same.
pub prefix_cache_key_injective :
    (xs ys : List ℕ) (n : ℕ)
    → 0 < n
    → n ≤ length xs
    → n ≤ length ys
    → (prefix_cache_key xs (pos n) ≡ prefix_cache_key ys (pos n)) ↔ (take n xs ≡ take n ys)
unfolding drop_name behind
prefix_cache_key_injective xs ys n positive longa longb =
    let a = prefix_cache_key_long xs n positive longa in
    let b = prefix_cache_key_long ys n positive longb in
    (
      λ e.
          key_tail_injective (take n xs) (take n ys)
            (length-take_within n xs longa ∙ sym (length-take_within n ys longb))
            (ap drop_name (sym a ∙ e ∙ b)),
      λ e. a ∙ ap (λ t. codes "tiny_llm" ++ key_tail t) e ∙ sym b,
    )
