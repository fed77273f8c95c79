-- ===== src/Widgets/Encode/Same.antt =====
-- Texts that encoding does not change.
use agentforum.Base.{
  ℕ, true, false, none, some, [], ◌∷◌, ◌≡◌, refl, ap, ◌∙◌, arith, Text, all, and_left, and_right,
  if_true, if_false,
}
use agentforum.Widgets.Encode.{
  is_unreserved, prepend?, encode_unit, encode_from, encode_uri_component, is_low, is_high,
}

unreserved_single : (c : ℕ) → is_unreserved c ≡ true → (is_low c ≡ false) × (is_high c ≡ false)
unfolding is_unreserved
unreserved_single c h = (ground (arith, h), ground (arith, h))

encode_from-same : (s : Text) → all is_unreserved s ≡ true → encode_from none s ≡ some s
unfolding encode_from encode_unit
encode_from-same [] h = refl
encode_from-same (c ∷ s) h =
    let plain = and_left (is_unreserved c) (all is_unreserved s) h in
    let (low, high) = unreserved_single c plain in
    if_false _ _ low
    ∙ if_false _ _ high
    ∙ ap (λ t. prepend? t (encode_from none s)) (if_true _ _ plain)
    ∙ ap (prepend? (c ∷ [])) (encode_from-same s (and_right (is_unreserved c) _ h))

pub encode-same : (s : Text) → all is_unreserved s ≡ true → encode_uri_component s ≡ some s
unfolding encode_uri_component
encode-same s h = encode_from-same s h
