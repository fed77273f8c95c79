-- ===== src/Widgets/Values.antt =====
-- The values of the source's types `unknown` and `JsonValue` (web/src/widgets/ir/core.ts). A number is
-- given by the text that `String` makes of it. An object has its own properties only, in order.
use agentforum.Base.{
  ℕ, zero, suc, Bool, true, false, none, some, [], ◌∷◌, ◌++◌, Text, codes, ◌==◌, text_eq, nat_eq,
  to_decimal, of_decimal, if◌then◌else◌,
}

mutual
  pub data Value : Type 0 where
    undefined null : Value
    bool : Bool → Value
    num : Text → Value
    str : Text → Value
    -- a function, a bigint or a symbol, by the text that `String` makes of it
    other : Text → Value
    arr : Items → Value
    obj : Fields → Value

  pub data Items : Type 0 where
    nil : Items
    cons : Value → Items → Items

  pub data Fields : Type 0 where
    end : Fields
    field : Text → Value → Fields → Fields

-- `typeof value === "object"` and not null
abbrev pub is_object : Value → Bool
is_object (arr items) = true
is_object (obj fields) = true
is_object _ = false

-- `value === undefined || value === null`
abbrev pub is_nullish : Value → Bool
is_nullish undefined = true
is_nullish null = true
is_nullish _ = false

-- `value ?? fallback`
abbrev pub or_else : Value → Value → Value
or_else value fallback = if is_nullish value then fallback else value

unfoldable pub field_of : Text → Fields → Value
field_of key end = undefined
field_of key (field k v fs) = if k == key then v else field_of key fs

unfoldable pub item_at : ℕ → Items → Value
item_at n nil = undefined
item_at zero (cons v vs) = v
item_at (suc n) (cons v vs) = item_at n vs

unfoldable pub length_items : Items → ℕ
length_items nil = 0
length_items (cons v vs) = suc (length_items vs)

-- An index is written in decimal with no more digits than needed.
unfoldable pub item_under : Text → Items → Value
unfolding item_at
item_under key items = elim (of_decimal key) [
  | none ↦ undefined
  | some n ↦ if to_decimal n == key then item_at n items else undefined
]

-- `value[key]`, on an object or an array
unfoldable pub property : Text → Value → Value
unfolding field_of item_under length_items
property key (obj fields) = field_of key fields
property key (arr items) =
    if key == codes "length" then num (to_decimal (length_items items)) else item_under key items
property key _ = undefined

abbrev pub bool_text : Bool → Text
bool_text true = codes "true"
bool_text false = codes "false"

-- `String(value)`; the elements of an array are joined by commas, and a missing one is empty.
unfoldable mutual
  pub text_of : Value → Text
  text_of undefined = codes "undefined"
  text_of null = codes "null"
  text_of (bool b) = bool_text b
  text_of (num t) = t
  text_of (str t) = t
  text_of (other t) = t
  text_of (arr items) = items_text items
  text_of (obj fields) = codes "[object Object]"

  pub items_text : Items → Text
  items_text nil = []
  items_text (cons v nil) = if is_nullish v then [] else text_of v
  items_text (cons v (cons w ws)) =
      (if is_nullish v then [] else text_of v) ++ (b',' ∷ items_text (cons w ws))

-- `String(value ?? "")`
unfoldable pub shown_text : Value → Text
unfolding text_of
shown_text v = if is_nullish v then [] else text_of v
