-- ===== src/Base/Decimal.antt =====
-- `n.toString()` and `BigInt(text)` on naturals written in decimal digits.
use agentforum.Base.Tests.{Text, ltb, if◌then◌else◌}
use Prim.Native.Nat.{ℕ, zero, suc, ◌+◌, ◌-◌, ◌*◌, ◌/◌, ◌%◌, ◌<◌}
use mathlib.Core.Bool.{◌||◌, true}
use mathlib.Core.List.{[], ◌∷◌}
use mathlib.Core.Logic.{inl, inr}
use mathlib.Core.Option.{Option, none, some}
use mathlib.Core.Path.{◌≡◌, refl}
use native.Mathlib.Omega.{arith}
use agentforum.Base.Tests.{Bool-cases}
use agentforum.Base.Texts.{has_no}

digits_from : ℕ → ℕ → Text → Text
digits_from zero n out = out
digits_from (suc fuel) n out =
    let more = digits_from fuel (n / 10) ((b'0' + n % 10) ∷ out) in
    if ltb n 10 then (b'0' + n) ∷ out else more

unfoldable pub to_decimal : ℕ → Text
unfolding digits_from
to_decimal n = digits_from (suc n) n []

scan : Text → ℕ → Option ℕ
scan [] n = some n
scan (c ∷ s) n =
    let more = scan s (n * 10 + (c - b'0')) in if ltb c b'0' || ltb b'9' c then none else more

-- The number that a text of digits stands for; `none` for any other text.
unfoldable pub of_decimal : Text → Option ℕ
unfolding scan
of_decimal s = scan s 0

scan-digits_from :
    (fuel n : ℕ) (out : Text) → n < fuel → scan (digits_from fuel n out) 0 ≡ scan out n
unfolding scan digits_from
scan-digits_from zero n out h = elim h [ ]
scan-digits_from (suc fuel) n out h = elim (Bool-cases (ltb n 10)) [
  | inl small ↦ ground arith
  | inr large ↦ ground (arith, scan-digits_from fuel (n / 10) ((b'0' + n % 10) ∷ out))
]

pub of_decimal-to_decimal : (n : ℕ) → of_decimal (to_decimal n) ≡ some n
unfolding of_decimal to_decimal
of_decimal-to_decimal n = scan-digits_from (suc n) n [] (omega arith)

scan-has_no :
    (sep n m : ℕ) (s : Text) → ltb sep b'0' ≡ true → scan s n ≡ some m → has_no sep s ≡ true
unfolding scan
scan-has_no sep n m [] h e = refl
scan-has_no sep n m (c ∷ s) h e = ground (arith, h, e, scan-has_no sep (n * 10 + (c - b'0')) m s)

-- A number is written without the units below the digits, such as `-`, `.` and `/`.
pub to_decimal-has_no : (sep n : ℕ) → ltb sep b'0' ≡ true → has_no sep (to_decimal n) ≡ true
unfolding of_decimal
to_decimal-has_no sep n h = scan-has_no sep 0 n (to_decimal n) h (of_decimal-to_decimal n)
