-- ===== src/Widgets/Encode/Plain.antt =====
-- An encoded text holds nothing but unreserved units and percent signs.
use mathlib.Core.Path.{subst}
use agentforum.Base.{
  ℕ, ◌/◌, ◌%◌, ◌<◌, ◌≡◌, inl, inr, refl, sym, true, Bool-cases, Option, none, some, [], ◌∷◌, ◌++◌,
  Text, ltb, All, All-append, nat_eq, if_true, if_false, either_branch, arith,
}
use agentforum.Widgets.Encode.{
  is_unreserved, hex_digit, percent, percent_point, prepend?, encode_unit, encode_pair, encode_from,
  encode_uri_component, IsPlain, is_high, is_low,
}

hex_digit-is_unreserved : (d : ℕ) → d < 16 → is_unreserved (hex_digit d) ≡ true
unfolding hex_digit is_unreserved
hex_digit-is_unreserved d h = ground arith

abbrev AllPlain : Text → Type 0
AllPlain = All IsPlain

percent-AllPlain : (byte : ℕ) → AllPlain (percent byte)
percent-AllPlain byte =
    unfold percent in
    (
      inr refl,
      (
        inl (hex_digit-is_unreserved (byte / 16 % 16) (omega arith)),
        (inl (hex_digit-is_unreserved (byte % 16) (omega arith)), tt),
      ),
    )

percent-append : (byte : ℕ) (t : Text) → AllPlain t → AllPlain (percent byte ++ t)
percent-append byte t h = All-append IsPlain (percent byte) t (percent-AllPlain byte) h

percent_point-AllPlain : (c : ℕ) → AllPlain (percent_point c)
percent_point-AllPlain c =
    unfold percent_point in
    either_branch AllPlain (ltb c 0x80) (percent-AllPlain _) (
      either_branch AllPlain (ltb c 0x800) (percent-append _ _ (percent-AllPlain _)) (
        either_branch AllPlain (ltb c 0x10000)
          (percent-append _ _ (percent-append _ _ (percent-AllPlain _)))
          (percent-append _ _ (percent-append _ _ (percent-append _ _ (percent-AllPlain _))))))

encode_unit-AllPlain : (c : ℕ) → AllPlain (encode_unit c)
unfolding encode_unit
encode_unit-AllPlain c = elim (Bool-cases (is_unreserved c)) [
  | inl e ↦ subst AllPlain (sym (if_true (c ∷ []) (percent_point c) e)) (inl e, tt)
  | inr e ↦ subst AllPlain (sym (if_false (c ∷ []) (percent_point c) e)) (percent_point-AllPlain c)
]

-- The text of an encoding that does not throw.
abbrev PlainIfSome : Option Text → Type 0
PlainIfSome none = Unit
PlainIfSome (some t) = AllPlain t

prepend-PlainIfSome :
    (a : Text) (o : Option Text) → AllPlain a → PlainIfSome o → PlainIfSome (prepend? a o)
prepend-PlainIfSome a none h k = tt
prepend-PlainIfSome a (some t) h k = All-append IsPlain a t h k

encode_from-PlainIfSome : (high : Option ℕ) (s : Text) → PlainIfSome (encode_from high s)
unfolding encode_from
encode_from-PlainIfSome none [] = tt
encode_from-PlainIfSome (some h) [] = tt
encode_from-PlainIfSome none (c ∷ s) = either_branch PlainIfSome (is_low c) tt (
    either_branch PlainIfSome (is_high c) (encode_from-PlainIfSome (some c) s) (
      prepend-PlainIfSome (encode_unit c) (encode_from none s) (encode_unit-AllPlain c)
        (encode_from-PlainIfSome none s)))
encode_from-PlainIfSome (some high) (c ∷ s) =
    either_branch PlainIfSome (is_low c)
      (prepend-PlainIfSome (encode_pair high c) (encode_from none s)
        (unfold encode_pair in percent_point-AllPlain _) (encode_from-PlainIfSome none s))
      tt

pub encode_uri_component-All : (s t : Text) → encode_uri_component s ≡ some t → All IsPlain t
unfolding encode_uri_component
encode_uri_component-All s t h = rw h at (encode_from-PlainIfSome none s)
