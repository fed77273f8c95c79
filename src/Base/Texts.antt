-- ===== src/Base/Texts.antt =====
-- The string operations of the language that the program calls, over code units.
use Prim.Native.Nat.{ℕ, suc}
use Prim.Native.Char.{code}
use Prim.Native.String.{String}
use mathlib.Core.Bool.{Bool, true, false, not, ◌&&◌, ◌||◌}
use mathlib.Core.List.{List, [], ◌∷◌, ◌++◌, append_assoc}
use mathlib.Core.Option
use mathlib.Core.Option.{Option, none, some}
use mathlib.Core.Logic.{◌≢◌}
use native.Mathlib.Omega.{arith}
use mathlib.Core.Path.{◌≡◌, refl}
use agentforum.Base.Lists.{all}
use agentforum.Base.Tests.{Text, eq_nat, leb, either_branch, if◌then◌else◌}

-- The code units of an ASCII literal.
abbrev pub codes : String → Text
codes String.[] = []
codes (String.◌∷◌ c s) = code c ∷ codes s

-- `s.startsWith(prefix)`
abbrev pub starts_with : Text → Text → Bool
starts_with [] s = true
starts_with (p ∷ ps) [] = false
starts_with (p ∷ ps) (c ∷ s) = eq_nat p c && starts_with ps s

-- `s.indexOf(pattern)`, with `none` for -1.
abbrev pub index_of : Text → Text → Option ℕ
index_of pattern [] = if starts_with pattern [] then some 0 else none
index_of pattern (c ∷ s) =
    if starts_with pattern (c ∷ s) then some 0 else Option.map suc (index_of pattern s)

abbrev add_to_first : ℕ → List Text → List Text
add_to_first c [] = (c ∷ []) ∷ []
add_to_first c (w ∷ ws) = (c ∷ w) ∷ ws

-- `s.split(separator)` at a separator of one code unit.
abbrev pub split : ℕ → Text → List Text
split separator [] = [] ∷ []
split separator (c ∷ s) =
    let words = split separator s in if eq_nat c separator then [] ∷ words else add_to_first c words

add_to_first-ne-nil : (c : ℕ) (ws : List Text) → add_to_first c ws ≢ []
add_to_first-ne-nil c [] = λ e. cc
add_to_first-ne-nil c (w ∷ ws) = λ e. cc

split-ne-nil : (sep : ℕ) (s : Text) → split sep s ≢ []
split-ne-nil sep [] = λ e. cc
split-ne-nil sep (c ∷ s) =
    either_branch (λ ws. ws ≢ []) (eq_nat c sep) (λ e. cc) (add_to_first-ne-nil c (split sep s))

add_to_first-append :
    (c : ℕ) (ws us : List Text) → ws ≢ [] → add_to_first c (ws ++ us) ≡ add_to_first c ws ++ us
add_to_first-append c [] us h = absurd (h refl)
add_to_first-append c (w ∷ ws) us h = refl

-- A text that is split at a separator in it is split on either side of it.
pub split-append : (sep : ℕ) (s t : Text) → split sep (s ++ (sep ∷ t)) ≡ split sep s ++ split sep t
split-append sep [] t = ground arith
split-append sep (c ∷ s) t = ground (
  arith,
  split-append sep s t,
  add_to_first-append c (split sep s) (split sep t) (split-ne-nil sep s),
)

abbrev pub has_no : ℕ → Text → Bool
has_no sep = all (λ c. not (eq_nat c sep))

-- A text without the separator is not split.
pub split-has_no : (sep : ℕ) (s : Text) → has_no sep s ≡ true → split sep s ≡ s ∷ []
split-has_no sep [] h = refl
split-has_no sep (c ∷ s) h = ground (arith, split-has_no sep s, h)

-- `words.join("")`
abbrev pub join : List Text → Text
join [] = []
join (w ∷ ws) = w ++ join ws

pub join-append : (a b : List Text) → join (a ++ b) ≡ join a ++ join b
join-append [] b = refl
join-append (w ∷ ws) b = rw (append_assoc, join-append ws b)

-- White space and line ends of the language.
abbrev pub is_space : ℕ → Bool
is_space c =
    (leb 9 c && leb c 13)
    || eq_nat c 32
    || eq_nat c 160
    || eq_nat c 0x1680
    || (leb 0x2000 c && leb c 0x200A)
    || eq_nat c 0x2028
    || eq_nat c 0x2029
    || eq_nat c 0x202F
    || eq_nat c 0x205F
    || eq_nat c 0x3000
    || eq_nat c 0xFEFF

trim_start : Text → Text
trim_start [] = []
trim_start (c ∷ s) = let rest = trim_start s in if is_space c then rest else c ∷ s

drop_blank : ℕ → Text → Text
drop_blank c [] = if is_space c then [] else c ∷ []
drop_blank c (d ∷ s) = c ∷ d ∷ s

trim_end : Text → Text
unfolding drop_blank
trim_end [] = []
trim_end (c ∷ s) = drop_blank c (trim_end s)

-- `s.trim()`
unfoldable pub trim : Text → Text
unfolding trim_start trim_end drop_blank
trim s = trim_end (trim_start s)

-- The members that every object inherits.
abbrev pub inherited_members : List Text
inherited_members =
    codes "constructor"
    ∷ codes "__defineGetter__"
    ∷ codes "__defineSetter__"
    ∷ codes "hasOwnProperty"
    ∷ codes "__lookupGetter__"
    ∷ codes "__lookupSetter__"
    ∷ codes "isPrototypeOf"
    ∷ codes "propertyIsEnumerable"
    ∷ codes "toString"
    ∷ codes "valueOf"
    ∷ codes "__proto__"
    ∷ codes "toLocaleString"
    ∷ []

-- `a || b`
abbrev pub or_text : Text → Text → Text
or_text [] b = b
or_text (c ∷ a) b = c ∷ a
