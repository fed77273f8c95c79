-- ===== src/Widgets/Encode.antt =====
-- `encodeURIComponent`, on code units; `none` where it throws, at a surrogate without its other half.
pub mod Plain
pub mod Same
pub mod Dots
use mathlib.Core.Option
use agentforum.Base.{
  ℕ, ◌+◌, ◌-◌, ◌*◌, ◌/◌, ◌%◌, ◌≡◌, ◌⊎◌, Bool, true, false, not, ◌&&◌, ◌||◌, Option, none, some,
  List, [], ◌∷◌, ◌++◌, Text, ltb, leb, ◌==◌, nat_eq, if◌then◌else◌,
}

-- The units that stand for themselves: letters, digits and `-_.!~*'()`.
unfoldable pub is_unreserved : ℕ → Bool
is_unreserved c =
    (leb b'A' c && leb c b'Z')
    || (leb b'a' c && leb c b'z')
    || (leb b'0' c && leb c b'9')
    || c == b'-'
    || c == b'_'
    || c == b'.'
    || c == b'!'
    || c == b'~'
    || leb b'\'' c && leb c b'*'

-- A hexadecimal digit, in upper case.
unfoldable pub hex_digit : ℕ → ℕ
hex_digit d = if ltb d 10 then b'0' + d else b'A' + (d - 10)

unfoldable pub percent : ℕ → Text
percent byte = b'%' ∷ hex_digit (byte / 16 % 16) ∷ hex_digit (byte % 16) ∷ []

-- The bytes of a code point in UTF-8, each behind a percent sign.
unfoldable pub percent_point : ℕ → Text
percent_point c =
    if ltb c 0x80
    then percent c
    else if ltb c 0x800
    then percent (0xC0 + c / 64) ++ percent (0x80 + c % 64)
    else if ltb c 0x10000
    then percent (0xE0 + c / 4096) ++ (percent (0x80 + c / 64 % 64) ++ percent (0x80 + c % 64))
    else percent (0xF0 + c / 262144)
      ++ (percent (0x80 + c / 4096 % 64)
          ++ (percent (0x80 + c / 64 % 64) ++ percent (0x80 + c % 64)))

abbrev pub is_high : ℕ → Bool
is_high c = leb 0xD800 c && ltb c 0xDC00

abbrev pub is_low : ℕ → Bool
is_low c = leb 0xDC00 c && ltb c 0xE000

abbrev pub prepend? : Text → Option Text → Option Text
prepend? a none = none
prepend? a (some b) = some (a ++ b)

unfoldable pub encode_unit : ℕ → Text
encode_unit c = if is_unreserved c then c ∷ [] else percent_point c

unfoldable pub encode_pair : ℕ → ℕ → Text
encode_pair high low = percent_point (0x10000 + (high - 0xD800) * 1024 + (low - 0xDC00))

-- The argument is the high surrogate that stands before the text, if one does.
unfoldable pub encode_from : Option ℕ → Text → Option Text
encode_from none [] = some []
encode_from (some high) [] = none
encode_from none (c ∷ s) =
    let after_high = encode_from (some c) s in
    let after_unit = prepend? (encode_unit c) (encode_from none s) in
    if is_low c then none else if is_high c then after_high else after_unit
encode_from (some high) (c ∷ s) =
    let after_pair = prepend? (encode_pair high c) (encode_from none s) in
    if is_low c then after_pair else none

unfoldable pub encode_uri_component : Text → Option Text
unfolding encode_from encode_unit encode_pair is_unreserved percent_point percent hex_digit
encode_uri_component s = encode_from none s

-- The units that an encoded text can hold.
abbrev pub IsPlain : ℕ → Type 0
IsPlain c = (is_unreserved c ≡ true) ⊎ (c ≡ b'%')
