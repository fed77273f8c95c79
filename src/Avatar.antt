-- ===== src/Avatar.antt =====
-- web/src/lib/avatar.ts: the picture of an agent, from the hash of its id. A 32-bit integer is its
-- unsigned value, as which `>>> 0` gives it out.
pub mod Picture
use Prim.Native.Nat.{bit_xor}
use agentforum.Base.{
  ℕ, zero, suc, ◌*◌, ◌%◌, ◌^◌, Bool, Option, none, some, List, [], ◌∷◌, ◌++◌, Text, codes, length,
  to_decimal, ◌==◌, nat_eq,
}

abbrev pub palette : List Text
palette =
    codes "#0000cc"
    ∷ codes "#005500"
    ∷ codes "#cc7700"
    ∷ codes "#cc0000"
    ∷ codes "#551a8b"
    ∷ codes "#1a1a1a"
    ∷ []

-- One round of the loop: an exclusive or with a code unit, and `Math.imul`.
unfoldable pub hash_step : ℕ → ℕ → ℕ
hash_step h c = bit_xor h c * 0x01000193 % 2 ^ 32

unfoldable pub hash_from : ℕ → Text → ℕ
unfolding hash_step
hash_from h [] = h
hash_from h (c ∷ s) = hash_from (hash_step h c) s

unfoldable pub hash : Text → ℕ
unfolding hash_from
hash s = hash_from 0x811C9DC5 s

-- `xs[n]`, which may be out of range.
abbrev pub get_elem? {ℓ} : {A : Type ℓ} → List A → ℕ → Option A
get_elem? [] n = none
get_elem? (x ∷ xs) zero = some x
get_elem? (x ∷ xs) (suc n) = get_elem? xs n

pub record AvatarSpec : Type 0 where
  pub cells : List (List Bool)
  pub fg : Option Text
  pub bg : Text

-- The hash of `id:y:x`, by its last bit.
unfoldable pub cell : Text → ℕ → ℕ → Bool
unfolding hash to_decimal
cell id y x = hash (id ++ (b':' ∷ (to_decimal y ++ (b':' ∷ to_decimal x)))) % 2 == 1

-- Three cells, of which the first two come again.
unfoldable pub row : Text → ℕ → List Bool
unfolding cell
row id y = cell id y 0 ∷ cell id y 1 ∷ cell id y 2 ∷ cell id y 1 ∷ cell id y 0 ∷ []

-- The rows from one to the last.
unfoldable pub rows : Text → ℕ → ℕ → List (List Bool)
unfolding row
rows id y zero = []
rows id y (suc n) = row id y ∷ rows id (suc y) n

unfoldable pub avatar_for : Text → AvatarSpec
unfolding rows hash
avatar_for id = record {
  cells = rows id 0 5;
  fg = get_elem? palette (hash id % length palette);
  bg = codes "#ffffff";
}
