-- ===== src/Client/Http/Split.antt =====
-- `split_first` of Http on a text that grows at its end.
use laminar_inference.Base.{
  ℕ, ◌≤◌, ◌≡◌, refl, ◌⊎◌, inl, inr, Bool-cases, Option-cases, [], ◌∷◌, ◌++◌, none, some, length,
  ◌==◌, arith,
}
use laminar_inference.Base.Text.{Str}
use laminar_inference.Texts.Json.{strip_prefix}
use laminar_inference.Client.Http.{split_first, crlf, read_status}

strip_prefix-append :
    (key s rest more : Str)
    → strip_prefix key s ≡ some rest
    → strip_prefix key (s ++ more) ≡ some (rest ++ more)
unfolding strip_prefix
strip_prefix-append [] s rest more h = ground (arith, h)
strip_prefix-append (k ∷ ks) [] rest more h = ground arith
strip_prefix-append (k ∷ ks) (c ∷ cs) rest more h = elim (Bool-cases (k == c)) [
  | inl e ↦
      let inner : strip_prefix ks cs ≡ some rest = rw e at h in
      rw e (strip_prefix-append ks cs rest more inner)
  | inr e ↦ ground (arith, (rw e at h))
]

strip_prefix-none :
    (key s more : Str)
    → strip_prefix key s ≡ none
    → length key ≤ length s
    → strip_prefix key (s ++ more) ≡ none
unfolding strip_prefix
strip_prefix-none [] s more h k = ground arith
strip_prefix-none (k ∷ ks) [] more h l = absurd (omega arith)
strip_prefix-none (k ∷ ks) (c ∷ cs) more h l = elim (Bool-cases (k == c)) [
  | inl e ↦
      let inner : strip_prefix ks cs ≡ none = rw e at h in
      rw e (strip_prefix-none ks cs more inner (omega (arith, l)))
  | inr e ↦ rw e refl
]

length-strip_prefix : (key s rest : Str) → strip_prefix key s ≡ some rest → length key ≤ length s
unfolding strip_prefix
length-strip_prefix [] s rest h = omega arith
length-strip_prefix (k ∷ ks) [] rest h = ground arith
length-strip_prefix (k ∷ ks) (c ∷ cs) rest h = elim (Bool-cases (k == c)) [
  | inl e ↦
      let inner : strip_prefix ks cs ≡ some rest = rw e at h in
      omega (arith, length-strip_prefix ks cs rest inner)
  | inr e ↦ ground (arith, (rw e at h))
]

-- The search at one position, by what the two tests give.
split_first_here :
    (key : Str) (c : ℕ) (cs rest : Str)
    → strip_prefix key (c ∷ cs) ≡ some rest
    → split_first key (c ∷ cs) ≡ some ([], rest)
unfolding split_first
split_first_here key c cs rest e = rw (e, split_first) refl

split_first_later :
    (key : Str) (c : ℕ) (cs before rest : Str)
    → strip_prefix key (c ∷ cs) ≡ none
    → split_first key cs ≡ some (before, rest)
    → split_first key (c ∷ cs) ≡ some (c ∷ before, rest)
unfolding split_first
split_first_later key c cs before rest e f = rw (e, f, split_first) refl

split_first_nowhere :
    (key : Str) (c : ℕ) (cs : Str)
    → strip_prefix key (c ∷ cs) ≡ none
    → split_first key cs ≡ none
    → split_first key (c ∷ cs) ≡ none
unfolding split_first
split_first_nowhere key c cs e f = rw (e, f, split_first) refl

-- Where a text was found.
data Found (key : Str) : Str → Str → Str → Type 0 where
  here :
      (c : ℕ) (cs rest : Str) → strip_prefix key (c ∷ cs) ≡ some rest → Found key (c ∷ cs) [] rest
  later :
      (c : ℕ) (cs before rest : Str)
      → strip_prefix key (c ∷ cs) ≡ none
      → Found key cs before rest
      → Found key (c ∷ cs) (c ∷ before) rest

Found-split_first :
    (key s before rest : Str) → Found key s before rest → split_first key s ≡ some (before, rest)
Found-split_first key _ _ _ (here c cs rest e) = split_first_here key c cs rest e
Found-split_first key _ _ _ (later c cs before rest e f) =
    split_first_later key c cs before rest e (Found-split_first key cs before rest f)

search_first :
    (key s : Str)
    → (split_first key s ≡ none) ⊎ ((before : Str) × (rest : Str) × Found key s before rest)
unfolding split_first
search_first key [] = inl refl
search_first key (c ∷ cs) = elim (Option-cases (strip_prefix key (c ∷ cs))) [
  | inr (rest, e) ↦ inr ([], rest, here c cs rest e)
  | inl e ↦ elim (search_first key cs) [
    | inl f ↦ inl (split_first_nowhere key c cs e f)
    | inr (before, rest, f) ↦ inr (c ∷ before, rest, later c cs before rest e f)
  ]
]

length-Found : (key s before rest : Str) → Found key s before rest → length key ≤ length s
length-Found key _ _ _ (here c cs rest e) = length-strip_prefix key (c ∷ cs) rest e
length-Found key _ _ _ (later c cs before rest e f) =
    omega (arith, length-Found key cs before rest f)

Found-append :
    (key s before rest more : Str)
    → Found key s before rest
    → Found key (s ++ more) before (rest ++ more)
Found-append key _ _ _ more (here c cs rest e) =
    here c (cs ++ more) (rest ++ more) (strip_prefix-append key (c ∷ cs) rest more e)
Found-append key _ _ _ more (later c cs before rest e f) =
    let long = length-Found key cs before rest f in
    later c (cs ++ more) before (rest ++ more)
      (strip_prefix-none key (c ∷ cs) more e (omega (arith, long)))
      (Found-append key cs before rest more f)

strip_prefix_rest : (key s rest : Str) → strip_prefix key s ≡ some rest → length rest ≤ length s
unfolding strip_prefix
strip_prefix_rest [] s rest h = let same : s ≡ rest = ground (arith, h) in rw same (omega arith)
strip_prefix_rest (k ∷ ks) [] rest h = ground arith
strip_prefix_rest (k ∷ ks) (c ∷ cs) rest h = elim (Bool-cases (k == c)) [
  | inl e ↦
      let inner : strip_prefix ks cs ≡ some rest = rw e at h in
      omega (arith, strip_prefix_rest ks cs rest inner)
  | inr e ↦ ground (arith, (rw e at h))
]

rest_within : (key s before rest : Str) → Found key s before rest → length rest ≤ length s
rest_within key _ _ _ (here c cs rest e) = strip_prefix_rest key (c ∷ cs) rest e
rest_within key _ _ _ (later c cs before rest e f) = omega (arith, rest_within key cs before rest f)

strip_prefix_shorter :
    (key end s rest : Str)
    → strip_prefix (key ++ end) s ≡ some rest
    → (r : Str) × (strip_prefix key s ≡ some r)
unfolding strip_prefix
strip_prefix_shorter [] end s rest h = (s, refl)
strip_prefix_shorter (k ∷ ks) end [] rest h = ground arith
strip_prefix_shorter (k ∷ ks) end (c ∷ cs) rest h = elim (Bool-cases (k == c)) [
  | inl e ↦
      let inner : strip_prefix (ks ++ end) cs ≡ some rest = rw e at h in
      let (r, f) = strip_prefix_shorter ks end cs rest inner in (r, rw e f)
  | inr e ↦ ground (arith, (rw e at h))
]

shorter_key :
    (key end s before rest : Str)
    → Found (key ++ end) s before rest
    → (b : Str) × (r : Str) × Found key s b r
shorter_key key end _ _ _ (here c cs rest e) =
    let (r, f) = strip_prefix_shorter key end (c ∷ cs) rest e in ([], r, here c cs r f)
shorter_key key end _ _ _ (later c cs before rest e f) =
    elim (Option-cases (strip_prefix key (c ∷ cs))) [
      | inr (r, g) ↦ ([], r, here c cs r g)
      | inl g ↦
          let (b, r, k) = shorter_key key end cs before rest f in (c ∷ b, r, later c cs b r g k)
    ]

-- The end of the headers, once it is there, stays where it is as the text grows, and so does the status.
pub headers_stay :
    (s more : Str)
    → (split_first (crlf ++ crlf) s ≡ none)
      ⊎ ((before : Str) × (rest : Str) × (split_first (crlf ++ crlf) s ≡ some (before, rest))
          × (split_first (crlf ++ crlf) (s ++ more) ≡ some (before, rest ++ more))
          × (read_status (s ++ more) ≡ read_status s)
          × (length rest ≤ length s))
unfolding read_status
headers_stay s more = elim (search_first (crlf ++ crlf) s) [
  | inl e ↦ inl e
  | inr (before, rest, f) ↦
      let (b, r, g) = shorter_key crlf crlf s before rest f in
      let first = Found-split_first crlf s b r g in
      let second =
        Found-split_first crlf (s ++ more) b (r ++ more) (Found-append crlf s b r more g) in
      inr (
        before,
        rest,
        Found-split_first (crlf ++ crlf) s before rest f,
        Found-split_first (crlf ++ crlf) (s ++ more) before (rest ++ more)
            (Found-append (crlf ++ crlf) s before rest more f),
        rw (first, second) refl,
        rest_within (crlf ++ crlf) s before rest f,
      )
]
