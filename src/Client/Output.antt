-- ===== src/Client/Output.antt =====
-- `AppendWithLimit` (Client) over a sequence of reads.
use mathlib.Core.List.{append_assoc, append-nil}
use laminar_inference.Base.{
  ℕ, zero, suc, ◌-◌, ◌≤◌, ◌≡◌, refl, sym, ap, ◌∙◌, min, if-elim, List, [], ◌∷◌, ◌++◌, length, take,
  leb, arith,
}
use laminar_inference.Base.Text.{Str}
use laminar_inference.Client.{append_with_limit, append_all}

abbrev pub concat : List Str → Str
concat [] = []
concat (s ∷ ss) = s ++ concat ss

take-append :
    (n : ℕ) (xs ys : Str) → length xs ≤ n → take n (xs ++ ys) ≡ xs ++ take (n - length xs) ys
take-append n [] ys h = let same : n - 0 ≡ n = omega arith in rw same refl
take-append zero (x ∷ xs) ys h = absurd (omega arith)
take-append (suc n) (x ∷ xs) ys h =
    let same : suc n - suc (length xs) ≡ n - length xs = omega arith in
    rw same (ap (λ t. x ∷ t) (take-append n xs ys (omega arith)))

take-min : (k : ℕ) (ys : Str) → take (min (length ys) k) ys ≡ take k ys
take-min zero ys = let none_left : min (length ys) 0 ≡ 0 = omega arith in rw none_left refl
take-min (suc k) [] = let none_left : min 0 (suc k) ≡ 0 = omega arith in rw none_left refl
take-min (suc k) (y ∷ ys) =
    let more : min (suc (length ys)) (suc k) ≡ suc (min (length ys) k) = omega arith in
    rw more (ap (λ t. y ∷ t) (take-min k ys))

take-full : (n : ℕ) (xs ys : Str) → n ≤ length xs → take n (xs ++ ys) ≡ take n xs
take-full zero xs ys h = refl
take-full (suc n) [] ys h = absurd (omega arith)
take-full (suc n) (x ∷ xs) ys h = ap (λ t. x ∷ t) (take-full n xs ys (omega arith))

take-all : (n : ℕ) (xs : Str) → length xs ≤ n → take n xs ≡ xs
take-all zero [] h = refl
take-all zero (x ∷ xs) h = absurd (omega arith)
take-all (suc n) [] h = refl
take-all (suc n) (x ∷ xs) h = ap (λ t. x ∷ t) (take-all n xs (omega arith))

append_with_limit-take :
    (limit : ℕ) (output piece : Str)
    → length output ≤ limit
    → append_with_limit limit output piece ≡ take limit (output ++ piece)
unfolding append_with_limit
append_with_limit-take limit output piece h =
    if-elim (λ t. t ≡ take limit (output ++ piece)) (leb limit (length output))
      (λ e. sym (take-full limit output piece (ground arith) ∙ take-all limit output h))
      (λ e. sym (
        take-append limit output piece h
        ∙ ap (λ t. output ++ t) (sym (take-min (limit - length output) piece))))

take-take_append : (n : ℕ) (xs ys : Str) → take n (take n xs ++ ys) ≡ take n (xs ++ ys)
take-take_append zero xs ys = refl
take-take_append (suc n) [] ys = refl
take-take_append (suc n) (x ∷ xs) ys = ap (λ t. x ∷ t) (take-take_append n xs ys)

length-take : (n : ℕ) (xs : Str) → length (take n xs) ≤ n
length-take zero xs = omega arith
length-take (suc n) [] = omega arith
length-take (suc n) (x ∷ xs) = omega (arith, length-take n xs)

-- The output of a process, begun within the limit, is the beginning of what it was followed by all that
-- was read, cut at the limit, however the reads fall into pieces.
pub append_all-take :
    (limit : ℕ) (output : Str) (pieces : List Str)
    → length output ≤ limit
    → append_all limit output pieces ≡ take limit (output ++ concat pieces)
unfolding append_all
append_all-take limit output [] h =
    sym (take-all limit (output ++ []) (rw (append-nil output) h) ∙ append-nil output)
append_all-take limit output (piece ∷ pieces) h =
    let next = append_with_limit-take limit output piece h in
    rw next (
      append_all-take limit (take limit (output ++ piece)) pieces
        (length-take limit (output ++ piece))
      ∙ take-take_append limit (output ++ piece) (concat pieces)
      ∙ ap (take limit) (append_assoc output piece (concat pieces)))
