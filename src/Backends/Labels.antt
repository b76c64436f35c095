-- ===== src/Backends/Labels.antt =====
-- Which label the outputs of `TinyTextModelBackend` (TinyText) name.
use laminar_inference.Base.{
  ℕ, zero, suc, ◌+◌, ◌<◌, ◌≡◌, refl, sym, subst, ap, ◌∙◌, ◌⊎◌, inl, inr, true, false, Bool-cases,
  List, [], ◌∷◌, map, some, length, length-map, get_elem?, arith,
}
use laminar_inference.Base.Text.{Str}
use laminar_inference.Backends.{Polls}
use laminar_inference.Backends.Arithmetic.{Arithmetic, elem_at}
use laminar_inference.Backends.Arrays.{length-fill}
use laminar_inference.Backends.TinyText.{
  TinyTextModelBackend, labels, label_at, softmax, class_logits, max_index, text_output,
  format_tiny_model_output,
}

get_elem?_there :
    {A : Type 0} (xs : List A) (i : ℕ) → i < length xs → (x : A) × (get_elem? xs i ≡ some x)
get_elem?_there [] i h = absurd (omega (arith, h))
get_elem?_there (x ∷ xs) zero h = (x, refl)
get_elem?_there (x ∷ xs) (suc i) h = get_elem?_there xs i (omega (arith, h))

get_elem?_lt : {A : Type 0} (xs : List A) (i : ℕ) (x : A) → get_elem? xs i ≡ some x → i < length xs
get_elem?_lt [] i x e = absurd cc
get_elem?_lt (y ∷ ys) zero x e = omega arith
get_elem?_lt (y ∷ ys) (suc i) x e = omega (arith, get_elem?_lt ys i x e)

-- No element of the list is greater.
abbrev pub NoneAbove : {F : Type 0} → Arithmetic F → F → List F → Type 0
NoneAbove floats p [] = Unit
NoneAbove floats p (x ∷ xs) = (floats.greater x p ≡ false) × NoneAbove floats p xs

label_at-labels :
    {F : Type 0} (floats : Arithmetic F) (k : ℕ) (label : Str)
    → get_elem? labels k ≡ some label
    → label_at floats k ≡ label
label_at-labels floats k label e = rw (label_at, e) refl

elem_at-get_elem? :
    {F : Type 0} (floats : Arithmetic F) (xs : List F) (k : ℕ) (x : F)
    → get_elem? xs k ≡ some x
    → elem_at floats xs k ≡ x
elem_at-get_elem? floats xs k x e = rw (elem_at, e) refl

length-map_twice : {A : Type 0} (f g : A → A) (xs : List A) → length (map g (map f xs)) ≡ length xs
length-map_twice f g xs = length-map g (map f xs) ∙ length-map f xs

length-softmax :
    {F : Type 0} (floats : Arithmetic F) (logits : List F)
    → length (softmax floats logits) ≡ length logits
unfolding softmax
length-softmax floats [] = refl
length-softmax floats (first ∷ logits) = ap suc (length-map_twice _ _ logits)

length-class_logits :
    {F : Type 0} (floats : Arithmetic F) (hidden : List F) → length (class_logits floats hidden) ≡ 4
unfolding class_logits
length-class_logits floats hidden = length-fill floats _ 0 4

module _ {F : Type 0} (floats : Arithmetic F)
    (asymmetric : (a b : F) → floats.greater a b ≡ true → floats.greater b a ≡ false)
    (transitive : (a b c : F)
      → floats.greater a b ≡ false
      → floats.greater b c ≡ false
      → floats.greater a c ≡ false) where
  irreflexive : (a : F) → floats.greater a a ≡ false
  irreflexive a = elim (Bool-cases (floats.greater a a)) [ inl e ↦ asymmetric a a e | inr e ↦ e ]

  -- An element of the list that none is greater than, or the one before the list.
  record Best (best : F) (at_best index : ℕ) (xs : List F) (k : ℕ) : Type 0 where
    p : F
    place : ((k ≡ at_best) × (p ≡ best)) ⊎ ((d : ℕ) × (k ≡ index + d) × (get_elem? xs d ≡ some p))
    first : floats.greater best p ≡ false
    others : NoneAbove floats p xs

  module _ (best : F) (at_best index : ℕ) (x : F) (xs : List F) (k : ℕ) where
    behind :
        floats.greater x best ≡ true
        → Best x index (suc index) xs k
        → Best best at_best index (x ∷ xs) k
    behind more b = record {
      p = b.p;
      place = inr (elim b.place [
        | inl (at, same) ↦ (0, omega (arith, at), ap some (sym same))
        | inr (d, at, e) ↦ (suc d, omega (arith, at), e)
      ]);
      first = transitive best x b.p (asymmetric x best more) b.first;
      others = (b.first, b.others);
    }

    skipped :
        floats.greater x best ≡ false
        → Best best at_best (suc index) xs k
        → Best best at_best index (x ∷ xs) k
    skipped less b = record {
      p = b.p;
      place = elim b.place [
        | inl here ↦ inl here
        | inr (d, at, e) ↦ inr (suc d, omega (arith, at), e)
      ];
      first = b.first;
      others = (transitive x best b.p less b.first, b.others);
    }

  max_index-Best :
      (best : F) (at_best index : ℕ) (xs : List F)
      → Best best at_best index xs (max_index floats best at_best index xs)
  unfolding max_index
  max_index-Best best at_best index [] = record {
    p = best;
    place = inl (refl, refl);
    first = irreflexive best;
    others = tt;
  }
  max_index-Best best at_best index (x ∷ xs) = elim (Bool-cases (floats.greater x best)) [
    | inl more ↦
        rw (max_index, more)
          (behind best at_best index x xs _ more (max_index-Best x index (suc index) xs))
    | inr less ↦
        rw (max_index, less)
          (skipped best at_best index x xs _ less (max_index-Best best at_best (suc index) xs))
  ]

  -- The index that the loop ends at, for a list that has elements.
  max_index_elem :
      (xs : List F)
      → 0 < length xs
      → let k = max_index floats (elem_at floats xs 0) 0 0 xs in
        (p : F) × (get_elem? xs k ≡ some p) × NoneAbove floats p xs
  max_index_elem [] h = absurd (omega (arith, h))
  max_index_elem (x ∷ xs) h =
      let k = max_index floats x 0 0 (x ∷ xs) in
      let b = max_index-Best x 0 0 (x ∷ xs) in
      let at_place : get_elem? (x ∷ xs) k ≡ some b.p = elim b.place [
        | inl (at, same) ↦
            subst (λ n. get_elem? (x ∷ xs) n ≡ some b.p) (sym at) (ap some (sym same))
        | inr (d, at, e) ↦
            let same : k ≡ d = omega (arith, at) in
            subst (λ n. get_elem? (x ∷ xs) n ≡ some b.p) (sym same) e
      ] in
      (b.p, at_place, b.others)

  -- The output of `TinyTextModelBackend` for what is hidden behind the last layer, where `>` of `float` is
  -- asymmetric and its negation transitive, as it is without NaN: it is written with one of the four labels and
  -- the probability at the label's place, and no probability of the four is greater.
  pub text_output-softmax :
      (cos : F → F) (float_to_string : F → Str) (backend : TinyTextModelBackend)
      (is_cancelled : Polls) (batch_size : ℕ) (hidden : List F)
      → (k : ℕ) × (label : Str) × (p : F) × (get_elem? labels k ≡ some label)
        × (get_elem? (softmax floats (class_logits floats hidden)) k ≡ some p)
        × (text_output floats cos float_to_string backend is_cancelled batch_size hidden
            ≡ format_tiny_model_output floats cos float_to_string backend is_cancelled label p
                batch_size)
        × NoneAbove floats p (softmax floats (class_logits floats hidden))
  unfolding text_output
  text_output-softmax cos float_to_string backend is_cancelled batch_size hidden =
      let probabilities = softmax floats (class_logits floats hidden) in
      let four : length probabilities ≡ 4 =
        length-softmax floats (class_logits floats hidden) ∙ length-class_logits floats hidden in
      let k = max_index floats (elem_at floats probabilities 0) 0 0 probabilities in
      let (p, e, most) = max_index_elem probabilities (omega (arith, four)) in
      let (label, f) =
        get_elem?_there labels k (omega (arith, four, get_elem?_lt probabilities k p e)) in
      let written = format_tiny_model_output floats cos float_to_string backend is_cancelled in
      let output : text_output floats cos float_to_string backend is_cancelled batch_size hidden
          ≡ written label p batch_size =
        ap (λ l. written l (elem_at floats probabilities k) batch_size)
          (label_at-labels floats k label f)
        ∙ ap (λ x. written label x batch_size) (elem_at-get_elem? floats probabilities k p e) in
      (k, label, p, f, e, output, most)
