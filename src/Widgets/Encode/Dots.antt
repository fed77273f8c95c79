-- ===== src/Widgets/Encode/Dots.antt =====
-- Which texts are encoded as names of dots, which a browser takes for steps in a path.
use mathlib.Core.Path.{subst}
use agentforum.Base.{
  ℕ, Bool, true, false, ◌||◌, Option, none, some, ◌∷◌, [], ◌++◌, ◌≡◌, inl, inr, refl, sym, ap, ◌∙◌,
  Text, codes, ltb, all, and_right, Bool-cases, if_true, if_false, either_branch, ◌==◌, text_eq,
}
use agentforum.Widgets.Encode.{
  is_unreserved, percent, percent_point, prepend?, encode_unit, encode_pair, encode_from,
  encode_uri_component, is_high, is_low,
}
use agentforum.Widgets.Encode.Same.{encode-same}

abbrev pub is_dots : Text → Bool
is_dots t = t == codes "." || t == codes ".."

-- A text whose encoding has unreserved units alone is its own encoding.
abbrev Own : Text → Option Text → Type 0
Own s none = Unit
Own s (some t) = all is_unreserved t ≡ true → t ≡ s

percent_point-reserved : (c : ℕ) (t : Text) → all is_unreserved (percent_point c ++ t) ≡ false
unfolding percent_point percent is_unreserved
percent_point-reserved c t =
    let reserved = λ (r : Text). all is_unreserved (r ++ t) ≡ false in
    either_branch reserved (ltb c 0x80) refl
      (either_branch reserved (ltb c 0x800) refl (either_branch reserved (ltb c 0x10000) refl refl))

prepend-reserved :
    (a s : Text) (o : Option Text)
    → ((t : Text) → all is_unreserved (a ++ t) ≡ false)
    → Own s (prepend? a o)
prepend-reserved a s none h = tt
prepend-reserved a s (some t) h = λ k. absurd (cc (k, h t))

prepend-Own : (c : ℕ) (s : Text) (o : Option Text) → Own s o → Own (c ∷ s) (prepend? (c ∷ []) o)
prepend-Own c s none h = tt
prepend-Own c s (some t) h = λ k. ap (◌∷◌ c) (h (and_right (is_unreserved c) _ k))

unit-Own : (c : ℕ) (s : Text) (o : Option Text) → Own s o → Own (c ∷ s) (prepend? (encode_unit c) o)
unfolding encode_unit
unit-Own c s o h = elim (Bool-cases (is_unreserved c)) [
  | inl e ↦ subst (λ a. Own (c ∷ s) (prepend? a o)) (sym (if_true _ _ e)) (prepend-Own c s o h)
  | inr e ↦
      subst (λ a. Own (c ∷ s) (prepend? a o)) (sym (if_false _ _ e))
        (prepend-reserved (percent_point c) (c ∷ s) o (percent_point-reserved c))
]

-- The text with the high surrogate before it.
abbrev whole : Option ℕ → Text → Text
whole none s = s
whole (some high) s = high ∷ s

encode_from-Own : (high : Option ℕ) (s : Text) → Own (whole high s) (encode_from high s)
unfolding encode_from
encode_from-Own none [] = λ h. refl
encode_from-Own (some high) [] = tt
encode_from-Own none (c ∷ s) = either_branch (Own (c ∷ s)) (is_low c) tt (
    either_branch (Own (c ∷ s)) (is_high c) (encode_from-Own (some c) s)
      (unit-Own c s (encode_from none s) (encode_from-Own none s)))
encode_from-Own (some high) (c ∷ s) =
    either_branch (Own (high ∷ c ∷ s)) (is_low c)
      (prepend-reserved (encode_pair high c) (high ∷ c ∷ s) (encode_from none s)
        (λ t. unfold encode_pair in percent_point-reserved _ t))
      tt

encode-own : (s t : Text) → encode_uri_component s ≡ some t → all is_unreserved t ≡ true → t ≡ s
unfolding encode_uri_component
encode-own s t h = rw h at (encode_from-Own none s)

is_dots-unreserved : (t : Text) → is_dots t ≡ true → all is_unreserved t ≡ true
unfolding is_unreserved
is_dots-unreserved t h = elim (Bool-cases (t == codes ".")) [
  | inl e ↦ rw ((text_eq.same_iff t (codes ".")).0 e) refl
  | inr e ↦
      let two : (t == codes "..") ≡ true = cc in rw ((text_eq.same_iff t (codes "..")).0 two) refl
]

-- An encoded text is a name of dots exactly if the text is.
pub is_dots-encoded : (s t : Text) → encode_uri_component s ≡ some t → is_dots t ≡ is_dots s
is_dots-encoded s t h = elim (Bool-cases (is_dots t)) [
  | inl e ↦ ap is_dots (encode-own s t h (is_dots-unreserved t e))
  | inr e ↦ elim (Bool-cases (is_dots s)) [
    | inl k ↦
        let same : some t ≡ some s = sym h ∙ encode-same s (is_dots-unreserved s k) in
        let one : t ≡ s = cc in ap is_dots one
    | inr k ↦ e ∙ sym k
  ]
]
